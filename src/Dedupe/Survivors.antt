-- ===== src/Dedupe/Survivors.antt =====
-- What the merge keeps, of the whole input: the base layer, and every source that is not deduped.
use signalk_crows_nest.Prelude.{
  suc, String, List, [], ◌∷◌, ◌++◌, true, if◌then◌else◌, keep_if, map, length, is_empty, ◌≡◌, refl,
  sym, ap, ◌∙◌, arith, All, Bool-cases, inl, inr,
}
use signalk_crows_nest.Floats.{Floats}
use signalk_crows_nest.JsMap
use signalk_crows_nest.Types.{PoiSummary}
use signalk_crows_nest.Dedupe.{
  DedupeRadiusSpec, Corroboration, is_base, tagged, grid_radius, lon_scale, cell_coords,
}
use signalk_crows_nest.Dedupe.Merge.{
  Merged, dedupe_same_source, base_grid, seeded, merge_each, emit_base, emit_bases, merge_into_base,
  dedupe_against_base,
}
use signalk_crows_nest.Dedupe.Laws.{
  ids_apart, base_ids, ids_apart-append, dedupe_same_source-apart, merge_each-apart, corroborated,
}

map-append : {A B : Type 0} (f : A → B) (l m : List A) → map f (l ++ m) ≡ map f l ++ map f m
map-append f [] m = refl
map-append f (a ∷ l) m = ap (◌∷◌ (f a)) (map-append f l m)

length-map : {A B : Type 0} (f : A → B) (l : List A) → length (map f l) ≡ length l
length-map f [] = refl
length-map f (a ∷ l) = ap suc (length-map f l)

module _ {F : Type 0} ⦃n : Floats F⦄ (spec : DedupeRadiusSpec F) (coords : PoiSummary F → F × F)
    (dedupe_sources : List String) where
  emit_bases-ids :
      (l : List (PoiSummary F)) (merged : List (Corroboration F))
      → length merged ≡ length l
      → map (λ poi. poi.id) (emit_bases l merged) ≡ map (λ poi. poi.id) l
  unfolding emit_bases emit_base
  emit_bases-ids [] merged h = refl
  emit_bases-ids (a ∷ l) [] h = cc
  emit_bases-ids (a ∷ l) (m ∷ merged) h = ap (◌∷◌ a.id) (emit_bases-ids l merged (omega arith))

  emit_bases-apart :
      (l : List (PoiSummary F)) (merged : List (Corroboration F))
      → All (λ poi. is_base poi ≡ true) l
      → ids_apart dedupe_sources (emit_bases l merged) ≡ []
  unfolding emit_bases emit_base
  emit_bases-apart [] merged h = refl
  emit_bases-apart (a ∷ l) [] h = refl
  emit_bases-apart (a ∷ l) (m ∷ merged) h = rw h.0 (emit_bases-apart l merged h.1)

  tagged-apart :
      (l : List (PoiSummary F))
      → ids_apart dedupe_sources
          (map (λ poi. if JsMap.member poi.source dedupe_sources then tagged poi else poi) l)
        ≡ ids_apart dedupe_sources l
  tagged-apart [] = refl
  tagged-apart (a ∷ l) = elim (Bool-cases (JsMap.member a.source dedupe_sources)) [
    | inl deduped ↦ rw deduped (ground (arith, tagged-apart l))
    | inr apart ↦ rw apart (ground (arith, tagged-apart l))
  ]

  keep_if-All : (l : List (PoiSummary F)) → All (λ poi. is_base poi ≡ true) (keep_if is_base l)
  keep_if-All [] = tt
  keep_if-All (a ∷ l) = elim (Bool-cases (is_base a)) [
    | inl base ↦ rw base (base, keep_if-All l)
    | inr other ↦ rw other (keep_if-All l)
  ]

  merge_into_base-apart :
      (l : List (PoiSummary F))
      → ids_apart dedupe_sources (merge_into_base spec coords dedupe_sources l)
        ≡ ids_apart dedupe_sources l
  unfolding merge_into_base
  merge_into_base-apart l =
      let bases = keep_if is_base l in
      let s =
        merge_each spec coords dedupe_sources (base_grid coords 0 bases []) l
          (record { survivors = []; corroboration = map seeded bases }) in
      elim (Bool-cases (is_empty bases)) [
        | inl empty ↦
            rw (empty, merge_into_base)
              (dedupe_same_source-apart spec coords dedupe_sources (
                  map (λ poi. if JsMap.member poi.source dedupe_sources then tagged poi else poi) l)
                ∙ tagged-apart l)
        | inr layered ↦
            rw (layered, merge_into_base)
              (ids_apart-append dedupe_sources (emit_bases bases s.corroboration) _
                ∙ ap
                    (λ ids.
                      ids
                      ++ ids_apart dedupe_sources
                          (dedupe_same_source spec coords dedupe_sources s.survivors))
                    (emit_bases-apart bases s.corroboration (keep_if-All l))
                ∙ dedupe_same_source-apart spec coords dedupe_sources s.survivors
                ∙ merge_each-apart spec coords dedupe_sources (base_grid coords 0 bases []) l
                    (record { survivors = []; corroboration = map seeded bases }))
      ]

  no_ids : (l : List (PoiSummary F)) → is_empty l ≡ true → map (λ poi. poi.id) l ≡ []
  no_ids [] h = refl
  no_ids (a ∷ l) h = cc

  merge_into_base-bases :
      (l : List (PoiSummary F))
      → (rest : List (PoiSummary F)) × (map
            (λ poi. poi.id)
            (merge_into_base spec coords dedupe_sources l)
          ≡ base_ids l ++ map (λ poi. poi.id) rest)
  unfolding merge_into_base
  merge_into_base-bases l =
      let bases = keep_if is_base l in
      let start : Merged F = record { survivors = []; corroboration = map seeded bases } in
      let s = merge_each spec coords dedupe_sources (base_grid coords 0 bases []) l start in
      elim (Bool-cases (is_empty bases)) [
        | inl empty ↦ (
          merge_into_base spec coords dedupe_sources l,
          ap (λ ids. ids ++ map (λ poi. poi.id) (merge_into_base spec coords dedupe_sources l))
              (sym (no_ids bases empty)),
        )
        | inr layered ↦ (
          dedupe_same_source spec coords dedupe_sources s.survivors,
          rw (layered, merge_into_base)
              (map-append (λ poi. poi.id) (emit_bases bases s.corroboration) _
                ∙ ap
                    (λ ids.
                      ids
                      ++ map (λ poi. poi.id)
                          (dedupe_same_source spec coords dedupe_sources s.survivors))
                    (emit_bases-ids bases s.corroboration (
                      corroborated spec coords dedupe_sources (base_grid coords 0 bases []) l start
                      ∙ length-map seeded bases))),
        )
      ]

-- The points of the sources that are neither the base nor deduped are all kept, by id and in
-- their order, and none is added to them.
pub dedupe_keeps_apart :
    {F : Type 0} ⦃n : Floats F⦄ (pois : List (PoiSummary F)) (dedupe_sources : List String)
    (spec : DedupeRadiusSpec F)
    → ids_apart dedupe_sources (dedupe_against_base pois dedupe_sources spec)
      ≡ ids_apart dedupe_sources pois
unfolding dedupe_against_base
dedupe_keeps_apart [] dedupe_sources spec = refl
dedupe_keeps_apart (a ∷ l) dedupe_sources spec =
    merge_into_base-apart spec (cell_coords (lon_scale (a ∷ l)) (grid_radius spec)) dedupe_sources
      (a ∷ l)

-- The ids of the result begin with those of the base points, all of them and in their order.
pub dedupe_keeps_base :
    {F : Type 0} ⦃n : Floats F⦄ (pois : List (PoiSummary F)) (dedupe_sources : List String)
    (spec : DedupeRadiusSpec F)
    → (rest : List (PoiSummary F)) × (map
          (λ poi. poi.id)
          (dedupe_against_base pois dedupe_sources spec)
        ≡ base_ids pois ++ map (λ poi. poi.id) rest)
unfolding dedupe_against_base
dedupe_keeps_base [] dedupe_sources spec = ([], refl)
dedupe_keeps_base (a ∷ l) dedupe_sources spec =
    merge_into_base-bases spec (cell_coords (lon_scale (a ∷ l)) (grid_radius spec)) dedupe_sources
      (a ∷ l)
