-- ===== src/Monitor/Ticks.antt =====
-- The operations of the position monitor, for one configuration.
use signalk_crows_nest.Prelude.{
  ℕ, zero, suc, ◌+◌, String, List, [], ◌∷◌, ◌++◌, Option, none, some, Bool, true, false, not, ◌&&◌,
  ◌||◌, if◌then◌else◌, ltb, leb, keep_if, map, or_else, is_empty,
}
use signalk_crows_nest.Floats.{Floats}
use signalk_crows_nest.Types.{Position, PoiSummary, Wire}
use signalk_crows_nest.Geo.{distance_meters, to_position}
use signalk_crows_nest.Notification.{◌⧺◌}
use signalk_crows_nest.Cadence.{ScanCadence, derive_scan_cadence, smallest_covered_radius_meters}
use signalk_crows_nest.Monitor.{
  ScanContributor, MonitorConfig, Monitor, Listing, debug, report, zone_contributors,
  replay_poi_types, is_of_types, evaluate_loop, gather_boxes, union_error, knots,
  min_evaluation_interval_ms, max_evaluation_interval_ms, coverage_report_interval_ms,
}

abbrev pub scan_failed : {F : Type 0} → String → Monitor F → Monitor F
scan_failed error = debug ("Position monitor scan failed: " ⧺ error)

abbrev pub free_slot : {F : Type 0} → Monitor F → Monitor F
free_slot m = record m { tick_in_flight = false }

abbrev pub announce : {F : Type 0} → ⦃n : Floats F⦄ → Position F → Monitor F → Monitor F
announce ⦃n⦄ p m =
    debug ("Position monitor tick at " ⧺ n.text p.latitude ⧺ ", " ⧺ n.text p.longitude)
      (record m { forced_tick_pending = false })

module _ {F : Type 0} ⦃n : Floats F⦄ (config : MonitorConfig F) where
  open n use {lit, lt, le, round, ceil, text}

  unfoldable pub cadence : ScanCadence F
  cadence =
      derive_scan_cadence
        (map (λ c. record { alarm_radius_meters = c.alarm_radius_meters }) config.contributors)

  unfoldable pub should_tick : ℕ → Position F → Monitor F → Bool
  should_tick now position m = elim m.last_tick_position [
    | none ↦ true
    | some last ↦
        let moved = distance_meters last position in
        if le cadence.coverage_move_meters moved
        then true
        else if ltb now (m.last_tick_time + config.min_interval_ms)
        then false
        else le config.min_move_meters moved
  ]

  unfoldable pub gap_message : F → F → String
  gap_message gap tightest =
      "Position monitor: the vessel covered "
      ⧺ text (round gap)
      ⧺ " m between alarm checks, "
      ⧺ "more than the "
      ⧺ text (round cadence.covered_chord)
      ⧺ " m a "
      ⧺ text (round tightest)
      ⧺ " m "
      ⧺ "alarm radius can be sampled across. A point of interest may pass through the alarm radius "
      ⧺ "without raising an alarm. Widen the alarm radius, or check that the vessel position is "
      ⧺ "publishing at least once a second."

  unfoldable pub report_coverage_gap : ℕ → Position F → Monitor F → Monitor F
  unfolding report gap_message
  report_coverage_gap now vessel_position m = elim m.last_evaluation_position [
    | none ↦ m
    | some last ↦ elim cadence.tightest_radius_meters [
      | none ↦ m
      | some tightest ↦
          let gap = distance_meters last vessel_position in
          if not (lt cadence.covered_chord gap)
          then m
          else if ltb now (m.last_coverage_report_time + coverage_report_interval_ms)
          then m
          else report (gap_message gap tightest) (record m { last_coverage_report_time = now })
    ]
  ]

  unfoldable pub evaluate_contributors :
      ℕ → Position F → List (PoiSummary F) → ℕ → List (ScanContributor F) → Monitor F → Monitor F
  unfolding report_coverage_gap evaluate_loop
  evaluate_contributors now vessel_position pois list_fetched_at targets m =
      let m' = report_coverage_gap now vessel_position m in
      evaluate_loop now vessel_position pois list_fetched_at targets
        (record m' { last_evaluation_position = some vessel_position; last_evaluation_time = now })

  unfoldable pub evaluate_all : ℕ → Position F → List (PoiSummary F) → Monitor F → Monitor F
  unfolding evaluate_contributors replay_poi_types is_of_types
  evaluate_all now vessel_position pois m =
      evaluate_contributors now vessel_position pois now config.contributors (record m {
        last_pois = some (keep_if (is_of_types (replay_poi_types config.contributors)) pois);
        last_pois_fetched_at = now;
      })

  unfoldable pub should_evaluate : ℕ → Position F → Monitor F → Bool
  should_evaluate now position m = elim m.last_evaluation_position [
    | none ↦ true
    | some last ↦
        if ltb now (m.last_evaluation_time + min_evaluation_interval_ms)
        then false
        else if leb (m.last_evaluation_time + max_evaluation_interval_ms) now
        then true
        else le cadence.evaluation_move_meters (distance_meters last position)
  ]

  unfoldable pub maybe_evaluate : ℕ → Monitor F → Monitor F
  unfolding should_evaluate evaluate_contributors zone_contributors
  maybe_evaluate now m =
      if m.stopped || is_empty (zone_contributors config.contributors)
      then m
      else elim m.latest_position [
        | none ↦ m
        | some position ↦ elim m.last_pois [
          | none ↦ m
          | some pois ↦
              if not (should_evaluate now position m)
              then m
              else evaluate_contributors now position pois m.last_pois_fetched_at
                  (zone_contributors config.contributors) m
        ]
      ]

  -- `runTick` up to the union of the boxes, and the whole of it up to the request or, when it makes
  -- none, to the end; `finish` is what follows the `finally`, with the slot free.
  unfoldable pub begin_tick : ℕ → Position F → Monitor F → Monitor F
  unfolding gather_boxes
  begin_tick now tick_position m = record m {
    tick_in_flight = true;
    last_tick_position = some tick_position;
    last_tick_time = now;
    log = m.log ++ (gather_boxes now tick_position config.contributors none []).failures;
  }

  unfoldable pub run_tick :
      (Monitor F → Option (Monitor F)) → ℕ → ℕ → Position F → Monitor F → Option (Monitor F)
  unfolding debug evaluate_all begin_tick
  run_tick finish begun evaluated tick_position m =
      let m' = begin_tick begun tick_position m in
      elim (gather_boxes begun tick_position config.contributors none []).united [
        | none ↦ finish (free_slot (scan_failed union_error m'))
        | some none ↦
            finish
              (free_slot (evaluate_all evaluated (or_else m'.latest_position tick_position) [] m'))
        | some (some bbox) ↦ some (record m' {
          requests =
              m'.requests
              ++ (record { at = begun; bbox = bbox; poi_types = config.poi_types }) ∷ [];
          outstanding = m'.outstanding ++ tick_position ∷ [];
        })
      ]

  -- `maybeTick`; `none` when the fuel ends. A tick that makes no request ends by calling it again.
  -- `clock` gives the readings of `now()` in their order: each round reads it in `shouldTick`, when
  -- the tick begins and, when it makes no request, when it evaluates.
  unfoldable pub maybe_tick : ℕ → (ℕ → ℕ) → Monitor F → Option (Monitor F)
  unfolding should_tick run_tick debug
  maybe_tick zero clock m = none
  maybe_tick (suc fuel) clock m =
      if m.stopped || m.tick_in_flight then some m else elim m.latest_position [
        | none ↦ some m
        | some position ↦
            if not m.forced_tick_pending && not (should_tick (clock 0) position m)
            then some m
            else run_tick (λ m'. maybe_tick fuel (λ k. clock (suc (suc (suc k)))) m') (clock 1)
                (clock 2) position (announce position m)
      ]

  unfoldable pub request_scan : ℕ → (ℕ → ℕ) → Monitor F → Option (Monitor F)
  unfolding maybe_tick
  request_scan fuel clock m =
      if m.stopped then some m else maybe_tick fuel clock (record m { forced_tick_pending = true })

  -- `now` is the reading for the evaluation that follows the tick.
  unfoldable pub on_position : ℕ → (ℕ → ℕ) → ℕ → Wire F → Monitor F → Option (Monitor F)
  unfolding maybe_tick maybe_evaluate
  on_position fuel clock now value m = if m.stopped then some m else elim (to_position value) [
    | none ↦ some m
    | some position ↦ elim (maybe_tick fuel clock (record m { latest_position = some position })) [
      | none ↦ none
      | some m' ↦ some (maybe_evaluate now m')
    ]
  ]

  -- What `runTick` does after its request, which began at `tick_position`.
  unfoldable pub after_listing : ℕ → Position F → Listing F → Monitor F → Monitor F
  unfolding evaluate_all debug
  after_listing now tick_position (Listing.resolved pois) m =
      if m.stopped then m else evaluate_all now (or_else m.latest_position tick_position) pois m
  after_listing now tick_position (Listing.rejected error) m = scan_failed error m

  -- A request settles, at `now`; `rest` are the others that have not. `clock` then reads for the tick
  -- that follows.
  unfoldable pub settle :
      ℕ → (ℕ → ℕ) → ℕ → Position F → List (Position F) → Listing F → Monitor F → Option (Monitor F)
  unfolding maybe_tick after_listing
  settle fuel clock now tick_position rest listing m =
      maybe_tick fuel clock
        (free_slot (after_listing now tick_position listing (record m { outstanding = rest })))

  unfoldable pub report_startup_cadence : Monitor F → Monitor F
  unfolding debug report knots
  report_startup_cadence m =
      let m' = debug "Position monitor started; subscribing to navigation.position" m in
      elim cadence.tightest_radius_meters [
        | none ↦ m'
        | some tightest ↦
            let summary =
              "Position monitor alarm sampling: every "
              ⧺ text (round cadence.evaluation_move_meters)
              ⧺ " m "
              ⧺ "for a "
              ⧺ text (round tightest)
              ⧺ " m alarm radius" in
            if lt (lit 0 0) cadence.max_covered_speed_mps
            then debug (summary ⧺ "; covered up to " ⧺ knots cadence.max_covered_speed_mps ⧺ " kn")
                m'
            else report
                (summary
                  ⧺ ". A radius this tight is narrower than the sampling can resolve, so a point of "
                  ⧺ "interest can pass through it without raising an alarm. Widen the proximity alarm radius "
                  ⧺ "to at least "
                  ⧺ text (ceil smallest_covered_radius_meters)
                  ⧺ " m.")
                m'
      ]

  -- The subscription and the requesters of the contributors end with it.
  unfoldable pub stop : Monitor F → Monitor F
  unfolding debug
  stop m =
      if m.stopped
      then m
      else debug "Position monitor stopped"
          (record m { stopped = true; forced_tick_pending = false })
