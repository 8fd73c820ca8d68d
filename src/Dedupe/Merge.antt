-- ===== src/Dedupe/Merge.antt =====
-- src/inputs/dedupe-pois.ts: the two passes.
use signalk_crows_nest.Prelude.{
  ℕ, suc, String, List, [], ◌∷◌, ◌++◌, none, some, not, if◌then◌else◌, keep_if, map, length,
  is_empty, or_else, or_option, leb,
}
use signalk_crows_nest.Floats.{Floats}
use signalk_crows_nest.JsMap
use signalk_crows_nest.Types.{PoiSummary}
use signalk_crows_nest.Dedupe.{
  DedupeRadiusSpec, Corroboration, Grid, change_at, pack_cell_key, push_to_bucket,
  scan_neighborhood, min_clearance, radius_for, grid_radius, lon_scale, cell_coords, is_base,
  tagged,
}
use signalk_crows_nest.Texts.{join_by}

-- The state of the same-source pass: what it has emitted, and a grid for each source.
pub record Collapsed (F : Type 0) : Type 0 where
  pub out : List (PoiSummary F)
  pub kept_by_source : List (String × Grid F)

-- The state of the base pass over the points that are not of the base layer.
pub record Merged (F : Type 0) : Type 0 where
  pub survivors : List (PoiSummary F)
  pub corroboration : List (Corroboration F)

module _ {F : Type 0} where
  abbrev pub seeded : PoiSummary F → Corroboration F
  seeded base = record {
    slugs = base.source ∷ [];
    attributions = base.attribution ∷ [];
    clearance = base.vertical_clearance_meters;
  }

  -- A base point with its final corroboration.
  unfoldable pub emit_base : PoiSummary F → Corroboration F → PoiSummary F
  unfolding join_by
  emit_base base merged = record base {
    sources = some merged.slugs;
    attribution = join_by "; " merged.attributions;
    vertical_clearance_meters = or_option merged.clearance base.vertical_clearance_meters;
  }

  unfoldable pub emit_bases : List (PoiSummary F) → List (Corroboration F) → List (PoiSummary F)
  unfolding emit_base
  emit_bases [] merged = []
  emit_bases (base ∷ bases) [] = []
  emit_bases (base ∷ bases) (m ∷ merged) = emit_base base m ∷ emit_bases bases merged

module _ {F : Type 0} ⦃n : Floats F⦄ where
  -- The clearance that a kept point takes over from a duplicate, where there is one to write.
  unfoldable pub fold_clearance : PoiSummary F → PoiSummary F → PoiSummary F
  unfolding min_clearance
  fold_clearance poi kept =
      elim (min_clearance kept.vertical_clearance_meters poi.vertical_clearance_meters) [
        | none ↦ kept
        | some folded ↦ record kept { vertical_clearance_meters = some folded }
      ]

  -- What a duplicate adds to the corroboration of its base.
  unfoldable pub corroborate : PoiSummary F → Corroboration F → Corroboration F
  unfolding min_clearance
  corroborate poi merged = record {
    slugs =
        if JsMap.member poi.source merged.slugs
        then merged.slugs
        else JsMap.add poi.source merged.slugs;
    attributions =
        if JsMap.member poi.source merged.slugs
        then merged.attributions
        else JsMap.add poi.attribution merged.attributions;
    clearance = min_clearance merged.clearance poi.vertical_clearance_meters;
  }

module _ {F : Type 0} ⦃n : Floats F⦄ (coords : PoiSummary F → F × F) where
  -- The grid of the base points, each with its place among them.
  unfoldable pub base_grid : ℕ → List (PoiSummary F) → Grid F → Grid F
  base_grid i [] grid = grid
  base_grid i (base ∷ bases) grid =
      let (x, y) = coords base in
      base_grid (suc i) bases (push_to_bucket grid (pack_cell_key x y) (i, base))

module _ {F : Type 0} ⦃n : Floats F⦄ (spec : DedupeRadiusSpec F) (coords : PoiSummary F → F × F)
    (dedupe_sources : List String) where
  -- What a point of a source that is deduped does to the state.
  unfoldable pub collapse : PoiSummary F → Collapsed F → Collapsed F
  unfolding fold_clearance
  collapse poi s =
      let (x, y) = coords poi in
      let source_grid = or_else (JsMap.get poi.source s.kept_by_source) [] in
      let radius = radius_for poi.source spec in
      elim (scan_neighborhood source_grid x y poi.type poi.position radius) [
        | some (i, _) ↦ record {
          out = change_at i (fold_clearance poi) s.out;
          kept_by_source = JsMap.set poi.source source_grid s.kept_by_source;
        }
        | none ↦ record {
          out = s.out ++ poi ∷ [];
          kept_by_source =
              JsMap.set poi.source
                (push_to_bucket source_grid (pack_cell_key x y) (length s.out, poi))
                s.kept_by_source;
        }
      ]

  unfoldable pub collapse_each : List (PoiSummary F) → Collapsed F → Collapsed F
  unfolding collapse
  collapse_each [] s = s
  collapse_each (poi ∷ pois) s = collapse_each pois (
      if not (JsMap.member poi.source dedupe_sources)
      then record s { out = s.out ++ poi ∷ [] }
      else collapse poi s)

  unfoldable pub dedupe_same_source : List (PoiSummary F) → List (PoiSummary F)
  unfolding collapse_each
  dedupe_same_source pois =
      if leb (length pois) 1
      then pois
      else (collapse_each pois (record { out = []; kept_by_source = [] })).out

  unfoldable pub merge_step : Grid F → PoiSummary F → Merged F → Merged F
  unfolding corroborate
  merge_step grid poi s =
      if is_base poi
      then s
      else if not (JsMap.member poi.source dedupe_sources)
      then record s { survivors = s.survivors ++ poi ∷ [] }
      else let (x, y) = coords poi in
        elim (scan_neighborhood grid x y poi.type poi.position (radius_for poi.source spec)) [
          | none ↦ record s { survivors = s.survivors ++ tagged poi ∷ [] }
          | some (i, _) ↦ record s { corroboration = change_at i (corroborate poi) s.corroboration }
        ]

  unfoldable pub merge_each : Grid F → List (PoiSummary F) → Merged F → Merged F
  unfolding merge_step
  merge_each grid [] s = s
  merge_each grid (poi ∷ pois) s = merge_each grid pois (merge_step grid poi s)

  unfoldable pub merge_into_base : List (PoiSummary F) → List (PoiSummary F)
  unfolding dedupe_same_source base_grid merge_each emit_bases
  merge_into_base pois =
      let base_pois = keep_if is_base pois in
      if is_empty base_pois
      then dedupe_same_source
          (map (λ poi. if JsMap.member poi.source dedupe_sources then tagged poi else poi) pois)
      else let s =
          merge_each (base_grid coords 0 base_pois []) pois
            (record { survivors = []; corroboration = map seeded base_pois }) in
        emit_bases base_pois s.corroboration ++ dedupe_same_source s.survivors

unfoldable pub dedupe_against_base :
    {F : Type 0} ⦃n : Floats F⦄
    → List (PoiSummary F)
    → List String
    → DedupeRadiusSpec F
    → List (PoiSummary F)
unfolding grid_radius lon_scale cell_coords merge_into_base
dedupe_against_base pois dedupe_sources spec =
    if is_empty pois
    then pois
    else merge_into_base spec (cell_coords (lon_scale pois) (grid_radius spec)) dedupe_sources pois
