-- ===== src/Tests/Services.antt =====
-- Runs of the other parts: the route warnings, the corridor scan, the bridge alarms, the resolver,
-- the merge and the recorder.
use signalk_crows_nest.Prelude.{
  ℕ, ◌≤◌, String, str_eq, List, [], ◌∷◌, ◌++◌, none, some, true, false, ◌≡◌, refl, arith, map, not,
  ◌&&◌, if◌then◌else◌, any, All, all, length, leb, ltb, is_empty, ◌+◌, ◌||◌, eq_iff,
}
use signalk_crows_nest.JsMap
use signalk_crows_nest.JsMap.Laws.{IsDistinct, get-set}
use signalk_crows_nest.Types.{PoiSummary, PoiType, CorridorPoi, Wire}
use signalk_crows_nest.Numbers.{
  positive_finite_number, clamp_number, hysteresis_threshold, to_finite_number,
}
use signalk_crows_nest.Geo.{distance_meters, earth_radius_km, earth_radius_meters, to_radians}
use signalk_crows_nest.Retention.{
  complete_with_retained, alarming_from, hold_loop, hold_step, listed_from,
}
use signalk_crows_nest.Episode.{raise, raise_new}
use signalk_crows_nest.Dedupe.{DedupeRadiusSpec}
use signalk_crows_nest.Dedupe.Merge.{dedupe_against_base}
use signalk_crows_nest.Dedupe.Laws.{ids_apart, base_ids}
use signalk_crows_nest.Dedupe.Survivors.{dedupe_keeps_apart, dedupe_keeps_base}
use signalk_crows_nest.Status.{
  StatusSource, create_plugin_status, max_recent_errors, unreachable_sources, is_unreachable,
}
use signalk_crows_nest.Status.Laws.{
  Outcome, run, health, last_request, health-run, errors_bounded, member-unreachable_sources,
}
use mathlib.Core.Option
use signalk_crows_nest.Cadence.{Contributor, derive_scan_cadence}
use signalk_crows_nest.Cadence.Laws.{IsStrict, covers, derive_scan_cadence_tightest}
use signalk_crows_nest.Numbers.Laws.{IsLinear, clamp_number-within}
use signalk_crows_nest.Notification.{
  sanitize_poi_id, is_safe_id, is_safe_code, all_safe, debug, emit_notification, handle_message,
  now_iso, source_ref,
}
use signalk_crows_nest.Notification.Notices.{notices}
use signalk_crows_nest.Tracker
use signalk_crows_nest.Tracker.{Tracked, Tracker}
use signalk_crows_nest.Tracker.Sweep.{clear_notice}
use signalk_crows_nest.Tracker.Laws.{IsConsistent}
use signalk_crows_nest.Route.{RouteEntry, RouteListScan}
use signalk_crows_nest.Route as Warnings
use signalk_crows_nest.Route.Laws.{raised_at, has-route-evaluate, raised_at-evaluate}
use signalk_crows_nest.Route.Corridor.{RouteCorridorScanInput, scan_route_corridor}
use signalk_crows_nest.Route.Legs.{IsFlagged}
use signalk_crows_nest.Route.CorridorLaws.{
  IsDifference, IsSorted, scan_route_corridor_sound, scan_route_corridor-IsSorted,
}
use signalk_crows_nest.Bridge.{to_wire, bridge_blocks_vessel}
use signalk_crows_nest.Bridge.Resolver.{
  CachedClearance, Race, Resolver, Outcome as Ending, create, settle, close, look_up,
  clearance_meters, is_bridge,
}
use signalk_crows_nest.Bridge.ResolverLaws.{Run, Step, close_stops}
use signalk_crows_nest.Bridge.Retry.{IsRemembering, resolved_rests, rejected_rests}
use signalk_crows_nest.Bridge.SingleFlight.{single_flight}
use signalk_crows_nest.Bridge.Alarms.{
  BridgeEntry, InAlarmEntry, BridgeAlarms, bridge_retained, config,
}
use signalk_crows_nest.Bridge.Alarms
use signalk_crows_nest.Bridge.AlarmLaws.{IsJustified, evaluate_sound, evaluate_inert}
use signalk_crows_nest.Tests.Encoding.{unary_platform, unary_platform-IsFaithful}
use signalk_crows_nest.Tests.Runtime.{
  natural, spot, point, rock, wreck, quiet_app, low_bridge, keep_all,
}

abbrev rock_ahead : CorridorPoi ℕ
rock_ahead = record {
  id = "rock";
  type = PoiType.hazard;
  name = "rock";
  position = spot 2;
  along_track_distance_meters = 900;
  cross_track_distance_meters = 3;
  eta_seconds = none;
}

abbrev ahead : RouteListScan ℕ
ahead = record { pois = rock ∷ []; summaries = ("rock", rock) ∷ []; list_fetched_at = 5 }

abbrev rock_warned : Tracker (RouteEntry ℕ)
rock_warned = record {
  active =
      (
        "rock",
        record {
          entry = record {
            name = "rock";
            message = "old";
            summary = some rock;
            last_listed_at = 1;
            unconfirmed = false;
          };
          poi_id = "rock";
          raised_at = "11:00";
        },
      )
      ∷ [];
  app = quiet_app;
}

rock_warned-IsConsistent : IsConsistent rock_warned
unfolding sanitize_poi_id is_safe_id all_safe is_safe_code JsMap.get
rock_warned-IsConsistent = record { distinct = (refl, tt); named = (refl, tt) }

rock_warned_at : raised_at "rock" rock_warned ≡ some "11:00"
unfolding sanitize_poi_id is_safe_id all_safe is_safe_code JsMap.get
rock_warned_at = refl

has-route-evaluate_example :
    Tracker.has "rock" (Warnings.evaluate ahead (rock_ahead ∷ []) [] rock_warned)
    ≡ any (λ (a : CorridorPoi ℕ). str_eq a.id "rock") (rock_ahead ∷ [])
has-route-evaluate_example =
    has-route-evaluate unary_platform-IsFaithful ahead [] "rock" (rock_ahead ∷ []) rock_warned
      rock_warned-IsConsistent

raised_at-evaluate_example :
    raised_at "rock" (Warnings.evaluate ahead (rock_ahead ∷ []) [] rock_warned) ≡ some "11:00"
raised_at-evaluate_example =
    raised_at-evaluate unary_platform-IsFaithful ahead [] "rock" "11:00" (rock_ahead ∷ [])
      rock_warned rock_warned-IsConsistent rock_warned_at refl

-- From latitude 0 to 10, with the rock at 2.
abbrev passage : RouteCorridorScanInput ℕ
passage = record {
  route = record {
    route_id = "r";
    name = none;
    vessel_position = some (spot 0);
    waypoints = spot 10 ∷ [];
  };
  pois = rock ∷ wreck ∷ [];
  corridor_half_width_meters = 100000000;
  speed_over_ground = some 4;
}

scan_route_corridor_sound_example :
    All
      (IsFlagged 100000000
        (positive_finite_number (to_wire (some 4)))
        (rock ∷ wreck ∷ [])
        (spot 0 ∷ spot 10 ∷ []))
      (scan_route_corridor passage)
unfolding Warnings.Corridor.route_leg_points
scan_route_corridor_sound_example = scan_route_corridor_sound passage

natural-IsDifference : IsDifference natural
natural-IsDifference = record { above = λ a b. ground arith; asymmetric = λ a b h. ground arith }

scan_route_corridor-IsSorted_example : IsSorted (scan_route_corridor passage)
scan_route_corridor-IsSorted_example = scan_route_corridor-IsSorted natural-IsDifference passage

abbrev Clearances : Type 0
Clearances = List (String × CachedClearance ℕ)

abbrev Stamps : Type 0
Stamps = List (String × ℕ)

abbrev bridges : BridgeAlarms ℕ Clearances Stamps
bridges = record {
  tracker = record {
    active =
        (
          "bridge",
          record {
            entry = record { summary = low_bridge; last_listed_at = 1; unconfirmed = false };
            poi_id = "bridge";
            raised_at = "11:00";
          },
        )
        ∷ [];
    app = quiet_app;
  };
  resolver = create;
  air_draft_available = some true;
  warmed_list_fetched_at = none;
}

bridges-IsConsistent : IsConsistent bridges.tracker
unfolding sanitize_poi_id is_safe_id all_safe is_safe_code JsMap.get
bridges-IsConsistent = record { distinct = (refl, tt); named = (refl, tt) }

evaluate_inert_example :
    ((Alarms.evaluate 0 100 1 (spot 0) 7 none [] 5 bridges).tracker.active ≡ [])
    × (notices (Alarms.evaluate 0 100 1 (spot 0) 7 none [] 5 bridges).tracker.app
        ≡ notices quiet_app ++ map (clear_notice config) (JsMap.values bridges.tracker.active))
evaluate_inert_example =
    evaluate_inert 0 100 1 (spot 0) 7 unary_platform-IsFaithful [] 5 bridges bridges-IsConsistent

bridge_stays :
    Tracker.has "bridge"
      (Alarms.evaluate 0 13000000 1 (spot 0) 7 (some 10) (low_bridge ∷ []) 5 bridges).tracker
    ≡ true
unfolding Tracker.has JsMap.get Alarms.evaluate complete_with_retained Tracker.size Tracker.entries
    JsMap.member JsMap.add JsMap.set Tracker.clear_stale Tracker.sweep raise_new distance_meters
    hysteresis_threshold Tracker.set sanitize_poi_id is_safe_id Alarms.evaluate_list Alarms.judge
    Alarms.note_air_draft Alarms.scan Alarms.scan_step clearance_meters is_bridge
    bridge_blocks_vessel raise earth_radius_km earth_radius_meters to_radians all_safe debug
    emit_notification handle_message is_safe_code now_iso source_ref to_finite_number alarming_from
    hold_loop hold_step listed_from Tracker.clear Tracker.keep_from Tracker.keep_set
    Tracker.log_clear Tracker.raised_at_of
bridge_stays = refl

evaluate_sound_example :
    (a : InAlarmEntry ℕ) × (a.poi.id ≡ "bridge")
    × IsJustified {C = Clearances} {D = Stamps} 0 13000000 1
        (spot 0)
        7
        10
        (complete_with_retained ⦃r = bridge_retained⦄ bridges.tracker (low_bridge ∷ []) 5).0
        create
        bridges.tracker
        a
evaluate_sound_example =
    evaluate_sound 0 13000000 1 (spot 0) 7 10 unary_platform-IsFaithful (low_bridge ∷ []) 5 bridges
      "bridge" bridges-IsConsistent bridge_stays

abbrev far_bridge : PoiSummary ℕ
far_bridge = point "far" PoiType.bridge 90

abbrev asked_once : Resolver ℕ Clearances Stamps
asked_once = (clearance_meters 1000 7 far_bridge create).1

abbrev one_question : Run 1000 create asked_once
one_question = Run.next Run.start (Step.asked create 7 far_bridge)

-- The close leaves the fetch under way.
abbrev closed_early : Resolver ℕ Clearances Stamps
closed_early = close asked_once

race_survives : (length closed_early.races ≡ 1) × (closed_early.in_flight ≡ [])
unfolding clearance_meters close create JsMap.get JsMap.member
race_survives = (refl, refl)

single_flight_example :
    IsDistinct closed_early.races
    × ((j : String)
        → JsMap.member j closed_early.in_flight
          ≡ (not closed_early.closed && JsMap.has j closed_early.races))
    × ((closed_early.closed && not (is_empty closed_early.timers)) ≡ false)
single_flight_example =
    single_flight 1000 closed_early (Run.next one_question (Step.closed_down asked_once))

abbrev asked_late : Resolver ℕ Clearances Stamps
asked_late = (clearance_meters 1000 7 far_bridge (close asked_once)).1

close_stops_example : (asked_late.closed ≡ true) × (asked_late.started ≡ asked_once.started)
close_stops_example =
    close_stops 1000 asked_once asked_late
      (Run.next Run.start (Step.asked (close asked_once) 7 far_bridge))

keep_all-IsRemembering : {V : Type 0} → IsRemembering (keep_all {V = V})
unfolding JsMap.get
keep_all-IsRemembering {V} = record {
  get_set = λ k v c. ground (arith, get-set k k v c, eq_iff k k);
  get_delete = gone;
}
  where
    gone :
        (k : String) (m : List (String × V))
        → ((keep_all {V = V}).get k ((keep_all {V = V}).delete k m)).0 ≡ none
    gone k [] = refl
    gone k ((j, v) ∷ m) = ground (arith, gone k m)

abbrev far_race : Race
far_race = record { started_at = 7; timer = 0 }

resolved_rests_example :
    ((look_up 1000 900 "far"
        (settle 20 "far" far_race (Ending.resolved (Wire.number 5)) asked_once)).0
      ≡ to_finite_number (Wire.number 5))
    × ((look_up 1000 900 "far"
          (settle 20 "far" far_race (Ending.resolved (Wire.number 5)) asked_once)).1.started
        ≡ (if ltb 900 (20 + 1000)
            then asked_once.started
            else asked_once.started ++ ("far", 900) ∷ []))
unfolding clearance_meters create JsMap.get JsMap.member
resolved_rests_example =
    resolved_rests keep_all-IsRemembering keep_all-IsRemembering 1000 20 900 "far" far_race
      (Wire.number 5) asked_once refl

rejected_rests_example :
    ((look_up 1000 900 "far" (settle 20 "far" far_race (Ending.rejected "offline") asked_once)).0
      ≡ elim (keep_all.get "far" asked_once.cache).0 [
        | none ↦ none
        | some cached ↦ cached.clearance
      ])
    × ((look_up 1000 900 "far"
          (settle 20 "far" far_race (Ending.rejected "offline") asked_once)).1.started
        ≡ (if ltb 900 (7 + 60000) || elim (keep_all.get "far" asked_once.cache).0 [
          | none ↦ false
          | some cached ↦ ltb 900 (cached.resolved_at + 1000)
        ]
            then asked_once.started
            else asked_once.started ++ ("far", 900) ∷ []))
unfolding clearance_meters create JsMap.get JsMap.member
rejected_rests_example =
    rejected_rests keep_all-IsRemembering keep_all-IsRemembering 1000 20 900 "far" far_race
      "offline" asked_once refl

abbrev chart : List (PoiSummary ℕ)
chart = rock ∷ record rock { id = "rock2"; source = "osm" } ∷ record rock { source = "uscg" } ∷ []

dedupe_keeps_apart_example :
    ids_apart ("osm" ∷ []) (dedupe_against_base chart ("osm" ∷ []) (DedupeRadiusSpec.uniform 50))
    ≡ ids_apart ("osm" ∷ []) chart
dedupe_keeps_apart_example = dedupe_keeps_apart chart ("osm" ∷ []) (DedupeRadiusSpec.uniform 50)

dedupe_keeps_base_example :
    (rest : List (PoiSummary ℕ)) × (map
        (λ poi. poi.id)
        (dedupe_against_base chart ("osm" ∷ []) (DedupeRadiusSpec.uniform 50))
      ≡ base_ids chart ++ map (λ poi. poi.id) rest)
dedupe_keeps_base_example = dedupe_keeps_base chart ("osm" ∷ []) (DedupeRadiusSpec.uniform 50)

abbrev sources : List StatusSource
sources = record { source = "osm"; name = "OpenSeaMap" } ∷ []

abbrev history : List Outcome
history =
    Outcome.list_fetch "osm" 3 "12:00"
    ∷ Outcome.error "osm" "down" "12:01"
    ∷ Outcome.skipped "osm" "far away" false
    ∷ []

health-run_example :
    health "osm" (run history (create_plugin_status "11:59" sources)).states
    ≡ Option.map
        (λ before. last_request "osm" before history)
        (health "osm" (create_plugin_status "11:59" sources).states)
health-run_example = health-run "osm" history (create_plugin_status "11:59" sources)

member-unreachable_sources_example :
    JsMap.member "osm" (unreachable_sources (run history (create_plugin_status "11:59" sources)))
    ≡ (any (λ (s : StatusSource). str_eq s.source "osm") sources
        && is_unreachable (last_request "osm" none history))
member-unreachable_sources_example = member-unreachable_sources "11:59" sources history "osm"

errors_bounded_example :
    length (run history (create_plugin_status "11:59" sources)).recent_errors ≤ max_recent_errors
errors_bounded_example = errors_bounded "11:59" sources history

natural-IsLinear : IsLinear natural
natural-IsLinear = record { le_total = λ a b fa fb h. ground arith; le_refl = λ a fa. ground arith }

clamp_number-within_example :
    (leb 5 (clamp_number (Wire.number 20) 5 10 7 false) ≡ true)
    × (leb (clamp_number (Wire.number 20) 5 10 7 false) 10 ≡ true)
clamp_number-within_example =
    clamp_number-within natural-IsLinear (Wire.number 20) 5 10 7 refl refl refl refl refl

natural-IsStrict : IsStrict natural
natural-IsStrict = record { lt_trans = λ a b c h k. ground arith; lt_irrefl = λ a. ground arith }

abbrev contributors : List (Contributor ℕ)
contributors =
    record { alarm_radius_meters = some 500 }
    ∷ record { alarm_radius_meters = none }
    ∷ record { alarm_radius_meters = some 40 }
    ∷ []

derive_scan_cadence_tightest_example :
    all (covers (derive_scan_cadence contributors).tightest_radius_meters) contributors ≡ true
derive_scan_cadence_tightest_example = derive_scan_cadence_tightest natural-IsStrict contributors
