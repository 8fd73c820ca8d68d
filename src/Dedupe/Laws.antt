-- ===== src/Dedupe/Laws.antt =====
-- What the merge keeps: the base layer, and every source that is not deduped.
use signalk_crows_nest.Prelude.{
  ℕ, zero, suc, String, List, [], ◌∷◌, ◌++◌, Bool, true, not, or_else, ◌&&◌, if◌then◌else◌, keep_if,
  map, length, leb, ◌≡◌, refl, sym, ap, ◌∙◌, arith, Bool-cases, Option-cases, inl, inr,
  append_assoc, append-nil,
}
use signalk_crows_nest.Floats.{Floats}
use signalk_crows_nest.JsMap
use signalk_crows_nest.Types.{PoiSummary}
use signalk_crows_nest.Dedupe.{
  DedupeRadiusSpec, Grid, change_at, is_base, tagged, scan_neighborhood, radius_for,
}
use signalk_crows_nest.Dedupe.Merge.{
  Collapsed, Merged, fold_clearance, collapse, collapse_each, dedupe_same_source, corroborate,
  merge_step, merge_each,
}

length-change_at :
    {A : Type 0} (i : ℕ) (change : A → A) (l : List A) → length (change_at i change l) ≡ length l
unfolding change_at
length-change_at i change [] = refl
length-change_at zero change (x ∷ l) = refl
length-change_at (suc i) change (x ∷ l) = ap suc (length-change_at i change l)

module _ {F : Type 0} (dedupe_sources : List String) where
  -- Of a source that is neither the base nor deduped.
  abbrev pub is_apart : PoiSummary F → Bool
  is_apart poi = not (is_base poi) && not (JsMap.member poi.source dedupe_sources)

  -- The ids of the points of the sources that are neither, in order.
  abbrev pub ids_apart : List (PoiSummary F) → List String
  ids_apart l = map (λ poi. poi.id) (keep_if is_apart l)

  pub ids_apart-append :
      (l m : List (PoiSummary F)) → ids_apart (l ++ m) ≡ ids_apart l ++ ids_apart m
  ids_apart-append [] m = refl
  ids_apart-append (a ∷ l) m = ground (arith, ids_apart-append l m)

module _ {F : Type 0} where
  -- The base layer.
  abbrev pub base_ids : List (PoiSummary F) → List String
  base_ids l = map (λ poi. poi.id) (keep_if is_base l)

module _ {F : Type 0} ⦃n : Floats F⦄ (dedupe_sources : List String) where
  fold_clearance-id :
      (poi kept : PoiSummary F)
      → ((fold_clearance poi kept).id ≡ kept.id) × ((fold_clearance poi kept).source ≡ kept.source)
  unfolding fold_clearance
  fold_clearance-id poi kept = ground arith

  ids_apart-change_at :
      (i : ℕ) (poi : PoiSummary F) (l : List (PoiSummary F))
      → ids_apart dedupe_sources (change_at i (fold_clearance poi) l) ≡ ids_apart dedupe_sources l
  unfolding change_at
  ids_apart-change_at i poi [] = refl
  ids_apart-change_at zero poi (a ∷ l) = ground (arith, fold_clearance-id poi a)
  ids_apart-change_at (suc i) poi (a ∷ l) = ground (arith, ids_apart-change_at i poi l)

module _ {F : Type 0} ⦃n : Floats F⦄ (spec : DedupeRadiusSpec F) (coords : PoiSummary F → F × F)
    (dedupe_sources : List String) where
  -- A point of a deduped source adds nothing to the ids of the others.
  collapse-apart :
      (poi : PoiSummary F) (s : Collapsed F)
      → JsMap.member poi.source dedupe_sources ≡ true
      → ids_apart dedupe_sources (collapse spec coords dedupe_sources poi s).out
        ≡ ids_apart dedupe_sources s.out
  unfolding collapse
  collapse-apart poi s h =
      let (x, y) = coords poi in
      let source_grid = or_else (JsMap.get poi.source s.kept_by_source) [] in
      elim (Option-cases
        (scan_neighborhood source_grid x y poi.type poi.position (radius_for poi.source spec))) [
          | inl absent ↦
              rw (absent, collapse)
                (ids_apart-append dedupe_sources s.out (poi ∷ [])
                  ∙ ground (arith, append-nil (ids_apart dedupe_sources s.out)))
          | inr ((i, kept), found) ↦
              rw (found, collapse) (ids_apart-change_at dedupe_sources i poi s.out)
        ]

  collapse_each-apart :
      (l : List (PoiSummary F)) (s : Collapsed F)
      → ids_apart dedupe_sources (collapse_each spec coords dedupe_sources l s).out
        ≡ ids_apart dedupe_sources s.out ++ ids_apart dedupe_sources l
  unfolding collapse_each
  collapse_each-apart [] s = sym (append-nil _)
  collapse_each-apart (poi ∷ l) s =
      let after : Bool → List String = λ b.
        ids_apart dedupe_sources
          (collapse_each spec coords dedupe_sources l (
            if not b
            then record s { out = s.out ++ poi ∷ [] }
            else collapse spec coords dedupe_sources poi s)).out in
      elim (Bool-cases (JsMap.member poi.source dedupe_sources)) [
        | inl deduped ↦
            ap after deduped
            ∙ collapse_each-apart l (collapse spec coords dedupe_sources poi s)
            ∙ ap (λ ids. ids ++ ids_apart dedupe_sources l) (collapse-apart poi s deduped)
            ∙ ground arith
        | inr apart ↦
            ap after apart
            ∙ collapse_each-apart l (record s { out = s.out ++ poi ∷ [] })
            ∙ ap (λ ids. ids ++ ids_apart dedupe_sources l)
                (ids_apart-append dedupe_sources s.out (poi ∷ []))
            ∙ append_assoc (ids_apart dedupe_sources s.out) _ _
            ∙ ap (λ ids. ids_apart dedupe_sources s.out ++ ids)
                (sym (ids_apart-append dedupe_sources (poi ∷ []) l))
      ]

  pub dedupe_same_source-apart :
      (l : List (PoiSummary F))
      → ids_apart dedupe_sources (dedupe_same_source spec coords dedupe_sources l)
        ≡ ids_apart dedupe_sources l
  unfolding dedupe_same_source
  dedupe_same_source-apart l = elim (Bool-cases (leb (length l) 1)) [
    | inl short ↦ rw short refl
    | inr long ↦ rw long (collapse_each-apart l (record { out = []; kept_by_source = [] }))
  ]

  merge_step-apart :
      (grid : Grid F) (poi : PoiSummary F) (s : Merged F)
      → ids_apart dedupe_sources (merge_step spec coords dedupe_sources grid poi s).survivors
        ≡ ids_apart dedupe_sources s.survivors ++ ids_apart dedupe_sources (poi ∷ [])
  unfolding merge_step
  merge_step-apart grid poi s =
      let (x, y) = coords poi in
      elim (Bool-cases (is_base poi)) [
        | inl base ↦ rw (base, merge_step) (sym (append-nil (ids_apart dedupe_sources s.survivors)))
        | inr other ↦ elim (Bool-cases (JsMap.member poi.source dedupe_sources)) [
          | inr apart ↦
              rw (other, apart, merge_step)
                (ids_apart-append dedupe_sources s.survivors (poi ∷ [])
                  ∙ ap (λ ids. ids_apart dedupe_sources s.survivors ++ ids)
                      (rw (other, apart) refl))
          | inl deduped ↦
              elim (Option-cases
                (scan_neighborhood grid x y poi.type poi.position (radius_for poi.source spec))) [
                  | inl absent ↦
                      rw (other, deduped, absent, merge_step)
                        (ids_apart-append dedupe_sources s.survivors (tagged poi ∷ [])
                          ∙ ap (λ ids. ids_apart dedupe_sources s.survivors ++ ids)
                              (rw (other, deduped) refl))
                  | inr (match, found) ↦
                      rw (other, deduped, found, merge_step)
                        (sym (append-nil (ids_apart dedupe_sources s.survivors)))
                ]
        ]
      ]

  pub merge_each-apart :
      (grid : Grid F) (l : List (PoiSummary F)) (s : Merged F)
      → ids_apart dedupe_sources (merge_each spec coords dedupe_sources grid l s).survivors
        ≡ ids_apart dedupe_sources s.survivors ++ ids_apart dedupe_sources l
  unfolding merge_each
  merge_each-apart grid [] s = sym (append-nil _)
  merge_each-apart grid (poi ∷ l) s =
      merge_each-apart grid l (merge_step spec coords dedupe_sources grid poi s)
      ∙ ap (λ ids. ids ++ ids_apart dedupe_sources l) (merge_step-apart grid poi s)
      ∙ append_assoc (ids_apart dedupe_sources s.survivors) _ _
      ∙ ap (λ ids. ids_apart dedupe_sources s.survivors ++ ids)
          (sym (ids_apart-append dedupe_sources (poi ∷ []) l))

  merge_step-length :
      (grid : Grid F) (poi : PoiSummary F) (s : Merged F)
      → length (merge_step spec coords dedupe_sources grid poi s).corroboration
        ≡ length s.corroboration
  unfolding merge_step
  merge_step-length grid poi s =
      let (x, y) = coords poi in
      elim (Option-cases
        (scan_neighborhood grid x y poi.type poi.position (radius_for poi.source spec))) [
          | inl absent ↦ ground arith
          | inr ((i, base), found) ↦
              ground (arith, length-change_at i (corroborate poi) s.corroboration)
        ]

  pub corroborated :
      (grid : Grid F) (l : List (PoiSummary F)) (s : Merged F)
      → length (merge_each spec coords dedupe_sources grid l s).corroboration
        ≡ length s.corroboration
  unfolding merge_each
  corroborated grid [] s = refl
  corroborated grid (poi ∷ l) s =
      corroborated grid l (merge_step spec coords dedupe_sources grid poi s)
      ∙ merge_step-length grid poi s
