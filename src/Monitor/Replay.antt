-- ===== src/Monitor/Replay.antt =====
-- The list that the evaluations between two requests replay.
use signalk_crows_nest.Prelude.{
  ℕ, String, List, [], ◌∷◌, some, true, ◌||◌, ◌≡◌, refl, ◌∙◌, keep_if, arith, All, All-weaken,
  option_ind,
}
use signalk_crows_nest.JsMap
use signalk_crows_nest.JsMap.Laws.{member-add}
use signalk_crows_nest.Floats.{Floats}
use signalk_crows_nest.Types.{Position, PoiSummary}
use signalk_crows_nest.Route.{type_name}
use signalk_crows_nest.Monitor.{
  ScanContributor, MonitorConfig, Monitor, debug, report, add_all, collect_types, zone_contributors,
  replay_poi_types, is_of_types, evaluate_loop,
}
use signalk_crows_nest.Monitor.Ticks.{report_coverage_gap, evaluate_contributors, evaluate_all}

member-add_all :
    (t : String) (ts types : List String)
    → JsMap.member t (add_all ts types) ≡ (JsMap.member t ts || JsMap.member t types)
unfolding add_all JsMap.member
member-add_all t [] types = refl
member-add_all t (k ∷ ts) types =
    member-add_all t ts (JsMap.add k types) ∙ ground (arith, member-add k t types)

module _ {F : Type 0} where
  collect_types_keeps :
      (t : String) (cs : List (ScanContributor F)) (types : List String)
      → JsMap.member t types ≡ true
      → JsMap.member t (collect_types cs types) ≡ true
  unfolding collect_types
  collect_types_keeps t [] types h = h
  collect_types_keeps t (c ∷ cs) types h =
      collect_types_keeps t cs (add_all c.poi_types types)
        (ground (arith, member-add_all t c.poi_types types))

  -- The types of the contributor are among these.
  abbrev Covers : List String → ScanContributor F → Type 0
  Covers types c = (t : String) → JsMap.member t c.poi_types ≡ true → JsMap.member t types ≡ true

  collect_types-Covers :
      (cs : List (ScanContributor F)) (types : List String)
      → All (Covers (collect_types cs types)) cs
  unfolding collect_types
  collect_types-Covers [] types = tt
  collect_types-Covers (c ∷ cs) types = (
    λ t h.
        collect_types_keeps t cs (add_all c.poi_types types)
          (ground (arith, member-add_all t c.poi_types types)),
    collect_types-Covers cs (add_all c.poi_types types),
  )

  keep_if-narrowed :
      (types : List String) (c : ScanContributor F) (pois : List (PoiSummary F))
      → Covers types c
      → keep_if (is_of_types c.poi_types) (keep_if (is_of_types types) pois)
        ≡ keep_if (is_of_types c.poi_types) pois
  unfolding is_of_types
  keep_if-narrowed types c [] covers = refl
  keep_if-narrowed types c (poi ∷ pois) covers =
      ground (arith, covers (type_name poi.type), keep_if-narrowed types c pois covers)

  last_pois-evaluate_loop :
      (now : ℕ) (p : Position F) (pois : List (PoiSummary F)) (at : ℕ)
      (cs : List (ScanContributor F)) (m : Monitor F)
      → (evaluate_loop now p pois at cs m).last_pois ≡ m.last_pois
  unfolding evaluate_loop debug
  last_pois-evaluate_loop now p pois at [] m = refl
  last_pois-evaluate_loop now p pois at (c ∷ cs) m =
      last_pois-evaluate_loop now p pois at cs _
      ∙ option_ind (λ (s : Monitor F). s.last_pois ≡ m.last_pois) (c.evaluate now p pois at)
          (λ _. refl) (λ _ _. refl)

module _ {F : Type 0} ⦃n : Floats F⦄ (config : MonitorConfig F) where
  last_pois-report_coverage_gap :
      (now : ℕ) (p : Position F) (m : Monitor F)
      → (report_coverage_gap config now p m).last_pois ≡ m.last_pois
  unfolding report_coverage_gap report
  last_pois-report_coverage_gap now p m = ground arith

  -- The list that a tick keeps for the evaluations between two requests shows each
  -- contributor with an alarm radius the same points of its declared types as the list that
  -- the tick evaluated, in the same order.
  pub replay_agrees :
      (now : ℕ) (p : Position F) (pois : List (PoiSummary F)) (m : Monitor F)
      → (kept : List (PoiSummary F)) × ((evaluate_all config now p pois m).last_pois ≡ some kept)
        × All
            (λ (c : ScanContributor F).
              keep_if (is_of_types c.poi_types) kept ≡ keep_if (is_of_types c.poi_types) pois)
            (zone_contributors config.contributors)
  unfolding evaluate_all evaluate_contributors replay_poi_types
  replay_agrees now p pois m =
      let types = replay_poi_types config.contributors in
      (
        keep_if (is_of_types types) pois,
        last_pois-evaluate_loop now p pois now config.contributors _
            ∙ last_pois-report_coverage_gap now p _,
        All-weaken (Covers types) _ (zone_contributors config.contributors)
            (λ c. keep_if-narrowed types c pois)
            (collect_types-Covers (zone_contributors config.contributors) []),
      )
