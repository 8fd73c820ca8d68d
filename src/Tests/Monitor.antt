-- ===== src/Tests/Monitor.antt =====
-- Runs of the position monitor: one alarm of a radius, around hazards.
use signalk_crows_nest.Prelude.{
  ℕ, suc, ◌+◌, ◌*◌, inl, List, [], ◌∷◌, ◌++◌, Option, none, some, true, false, ◌≡◌, refl, arith,
  length, leb, subst, All, keep_if, if◌then◌else◌,
}
use signalk_crows_nest.Types.{Position, PoiSummary, Bbox, Wire, Fields}
use signalk_crows_nest.Geo.{distance_meters, to_position}
use signalk_crows_nest.Cadence.{derive_scan_cadence}
use signalk_crows_nest.Numbers.{vessel_scan_radius_meters}
use signalk_crows_nest.Monitor.{
  ScanContributor, MonitorConfig, Monitor, Listing, FetchBox, create, gather_boxes,
  zone_contributors, is_of_types,
}
use signalk_crows_nest.Monitor.Ticks.{
  cadence, maybe_tick, request_scan, on_position, settle, stop, evaluate_all,
}
use signalk_crows_nest.Monitor.Runs.{Run, Step, one_request}
use signalk_crows_nest.Monitor.Safety.{stop_is_final}
use signalk_crows_nest.Monitor.Scans.{maybe_tick_ends, forced_scan_follows, ticks_are_spaced}
use signalk_crows_nest.Monitor.Replay.{replay_agrees}
use signalk_crows_nest.Tests.Runtime.{natural, spot, rock, low_bridge}

abbrev around : Bbox ℕ
around = record { north = 3; south = 0; east = 1; west = 0 }

abbrev hazard_alarm : ScanContributor ℕ
hazard_alarm = record {
  name = "hazards";
  poi_types = "Hazard" ∷ [];
  alarm_radius_meters = some 50;
  build_fetch_box = λ now p. FetchBox.box around;
  evaluate = λ now p pois at. none;
}

abbrev monitor_config : MonitorConfig ℕ
monitor_config = record {
  contributors = hazard_alarm ∷ [];
  poi_types = "Hazard,Bridge";
  min_move_meters = 100;
  min_interval_ms = 60000;
}

abbrev fix : Wire ℕ
fix =
    Wire.object (
      Fields.field "latitude" (Wire.number 1) (Fields.field "longitude" (Wire.number 0) Fields.end))

abbrev result : Option (Monitor ℕ) → Monitor ℕ
result none = create
result (some m) = m

-- A configuration whose ticks fetch nothing.
abbrev idle_config : MonitorConfig ℕ
idle_config = record monitor_config {
  contributors = record hazard_alarm { build_fetch_box = λ now p. FetchBox.nothing } ∷ [];
}

abbrev waiting : Monitor ℕ
waiting = record create { latest_position = some (spot 1) }

-- A clock that stands still.
abbrev still_clock : ℕ → ℕ → ℕ
still_clock now k = now

abbrev underway : Monitor ℕ
underway = result (on_position monitor_config 1 (still_clock 100000) 100000 fix create)

underway_waits : (underway.tick_in_flight ≡ true) × (length underway.requests ≡ 1)
unfolding on_position create to_position
underway_waits = (refl, refl)

one_request_example : length underway.outstanding ≡ (if underway.tick_in_flight then 1 else 0)
unfolding on_position create to_position
one_request_example =
    one_request monitor_config underway
      (Run.next Run.start (Step.moved create underway 1 (still_clock 100000) 100000 fix refl))

abbrev late_listing : Monitor ℕ
late_listing = result (
    settle monitor_config 1 (still_clock 200000) 200000 (spot 1) [] (Listing.resolved (rock ∷ []))
      (stop monitor_config underway))

stop_is_final_example :
    (late_listing.stopped ≡ true)
    × (late_listing.requests ≡ underway.requests)
    × (late_listing.evaluations ≡ underway.evaluations)
unfolding on_position create to_position stop settle
stop_is_final_example = stop_is_final monitor_config underway late_listing (
    Run.next Run.start (
      Step.settled (stop monitor_config underway) late_listing 1 (still_clock 200000) 200000 [] []
        (spot 1) (Listing.resolved (rock ∷ [])) refl refl))

forced_scan_follows_example :
    (asked : Monitor ℕ) × (request_scan monitor_config 1 (still_clock 150000) underway ≡ some asked)
    × (request_scan monitor_config 1 (still_clock 150000) asked ≡ some asked)
    × (asked.requests ≡ underway.requests)
    × (s : Monitor ℕ) × (settle monitor_config 1
          (still_clock 200000)
          200000
          (spot 1)
          []
          (Listing.rejected "offline")
          asked
        ≡ some s)
    × (s.requests
        ≡ underway.requests
          ++ (record { at = 200000; bbox = around; poi_types = "Hazard,Bridge" }) ∷ [])
    × (s.tick_in_flight ≡ true)
    × (s.forced_tick_pending ≡ false)
unfolding on_position create to_position gather_boxes
forced_scan_follows_example =
    forced_scan_follows monitor_config 0 (still_clock 150000) (still_clock 200000) 200000 (spot 1)
      (spot 1) [] (Listing.rejected "offline") around underway refl refl refl refl

rests_at_once :
    (p : Position ℕ)
    → waiting.latest_position ≡ some p
    → leb (cadence idle_config).coverage_move_meters (distance_meters p p) ≡ false
unfolding cadence derive_scan_cadence vessel_scan_radius_meters distance_meters create
rests_at_once p e =
    let at_spot : leb (cadence idle_config).coverage_move_meters (distance_meters (spot 1) (spot 1))
        ≡ false =
      refl in
    subst
      (λ o. elim o [
        | none ↦ Unit {0}
        | some q ↦ leb (cadence idle_config).coverage_move_meters (distance_meters q q) ≡ false
      ])
      e at_spot

-- A clock that is a second later at every reading.
abbrev ticking : ℕ → ℕ
ticking k = 200000 + k * 1000

maybe_tick_ends_example :
    (s : Monitor ℕ) × ((fuel : ℕ)
      → maybe_tick idle_config (suc (suc fuel)) ticking waiting ≡ some s)
maybe_tick_ends_example =
    maybe_tick_ends idle_config ticking waiting (λ p e. (inl (omega arith), rests_at_once p e))

ticks_are_spaced_example :
    (s : Monitor ℕ) × (on_position monitor_config 1 (still_clock 130000) 130000 fix underway
      ≡ some s)
    × (s.requests ≡ underway.requests)
    × (s.last_tick_time ≡ underway.last_tick_time)
unfolding on_position create to_position cadence derive_scan_cadence vessel_scan_radius_meters
    distance_meters
ticks_are_spaced_example =
    ticks_are_spaced monitor_config 0 (still_clock 130000) 130000 fix (spot 1) (spot 1) underway
      refl refl refl (omega arith) refl

replay_agrees_example :
    (kept : List (PoiSummary ℕ)) × ((evaluate_all monitor_config 7
        (spot 1)
        (rock ∷ low_bridge ∷ [])
        create).last_pois
      ≡ some kept)
    × All
        (λ (c : ScanContributor ℕ).
          keep_if (is_of_types c.poi_types) kept
          ≡ keep_if (is_of_types c.poi_types) (rock ∷ low_bridge ∷ []))
        (zone_contributors monitor_config.contributors)
replay_agrees_example = replay_agrees monitor_config 7 (spot 1) (rock ∷ low_bridge ∷ []) create
