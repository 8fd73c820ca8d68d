-- ===== src/Tests/Alarms.antt =====
-- Runs of the alarms on one hazard that alarms already.
use signalk_crows_nest.Prelude.{
  ℕ, String, str_eq, List, [], ◌∷◌, ◌++◌, none, some, true, false, ◌≡◌, refl, map, keep_if, not,
  if◌then◌else◌, ◌||◌, ap, sym, ◌∙◌, Bool,
}
use signalk_crows_nest.JsMap
use signalk_crows_nest.Types.{PoiSummary}
use signalk_crows_nest.Numbers.{hysteresis_threshold}
use signalk_crows_nest.Geo.{distance_meters, to_radians, earth_radius_meters, earth_radius_km}
use signalk_crows_nest.Notification.{sanitize_poi_id, is_safe_id, is_safe_code, all_safe}
use signalk_crows_nest.Notification.Sanitize.{sanitize_poi_id_injective}
use signalk_crows_nest.Notification.Notices.{notices}
use signalk_crows_nest.Tracker
use signalk_crows_nest.Tracker.{Tracked, Tracker}
use signalk_crows_nest.Tracker.Sweep.{clear_notice}
use signalk_crows_nest.Tracker.Laws.{
  IsConsistent, record_of, sanitize-eq, record_of-clear_stale, clear_all_lem, notices-clear_stale,
}
use signalk_crows_nest.Retention.{complete_with_retained}
use signalk_crows_nest.Retention.Laws.{hold_all, restored, held_points}
use signalk_crows_nest.Retention.Refinement.{complete_with_retained_lem}
use signalk_crows_nest.Retention.Replay.{complete_with_retained_replay}
use signalk_crows_nest.Episode.Laws.{at_readings, new_notice, new_ones}
use signalk_crows_nest.Episode.Settle.{gone}
use signalk_crows_nest.Proximity.{
  HazardEntry, config, raising, evaluate, is_hazard, hazard_retained,
}
use signalk_crows_nest.Proximity.Scan.{alarms}
use signalk_crows_nest.Proximity.Laws.{
  scanned, completed, in_alarm, hazard-IsSpread, has-evaluate, record_of-evaluate, notices-evaluate,
  evaluate_silent,
}
use signalk_crows_nest.Tests.Encoding.{unary_platform, unary_platform-IsFaithful}
use signalk_crows_nest.Tests.Runtime.{natural, spot, rock, wreck, quiet_app}

abbrev rock_tracked : Tracked (HazardEntry ℕ)
rock_tracked = record {
  entry = record { summary = rock; last_listed_at = 1; unconfirmed = false };
  poi_id = "rock";
  raised_at = "11:00";
}

abbrev pub rock_alarms : Tracker (HazardEntry ℕ)
rock_alarms = record { active = ("rock", rock_tracked) ∷ []; app = quiet_app }

pub rock_alarms-IsConsistent : IsConsistent rock_alarms
unfolding sanitize_poi_id is_safe_id all_safe is_safe_code JsMap.get
rock_alarms-IsConsistent = record { distinct = (refl, tt); named = (refl, tt) }

has-evaluate_example :
    Tracker.has "wreck" (evaluate 13000000 (spot 89) (wreck ∷ []) 5 rock_alarms)
    ≡ alarms 13000000
        (spot 89)
        rock_alarms
        "wreck"
        (scanned unary_platform-IsFaithful 13000000 (spot 89) (wreck ∷ []) 5 rock_alarms)
has-evaluate_example =
    has-evaluate unary_platform-IsFaithful 13000000 (spot 89) (wreck ∷ []) 5 rock_alarms "wreck"
      rock_alarms-IsConsistent

abbrev near : List (PoiSummary ℕ)
near = rock ∷ []

rock_is_active : Tracker.has "rock" rock_alarms ≡ true
unfolding Tracker.has sanitize_poi_id is_safe_id all_safe is_safe_code JsMap.get
rock_is_active = refl

rock_stays :
    alarms 13000000
      (spot 0)
      rock_alarms
      "rock"
      (scanned unary_platform-IsFaithful 13000000 (spot 0) near 5 rock_alarms)
    ≡ true
unfolding is_hazard distance_meters to_radians earth_radius_meters earth_radius_km
    hysteresis_threshold Tracker.has sanitize_poi_id is_safe_id all_safe is_safe_code JsMap.get
rock_stays = refl

record_of-evaluate_example :
    record_of "rock" (evaluate 13000000 (spot 0) near 5 rock_alarms)
    ≡ record_of "rock" (completed unary_platform-IsFaithful 13000000 (spot 0) near 5 rock_alarms)
record_of-evaluate_example =
    record_of-evaluate unary_platform-IsFaithful 13000000 (spot 0) near 5 rock_alarms "rock"
      rock_alarms-IsConsistent rock_is_active rock_stays

notices-evaluate_example :
    notices (evaluate 13000000 (spot 89) (wreck ∷ []) 5 rock_alarms).app
    ≡ notices quiet_app
      ++ at_readings (raising 5) (new_notice (raising 5)) quiet_app.clock quiet_app.reads (
          new_ones
            (raising 5)
            (completed unary_platform-IsFaithful 13000000 (spot 89) (wreck ∷ []) 5 rock_alarms)
            (JsMap.values
              (in_alarm unary_platform-IsFaithful 13000000 (spot 89) (wreck ∷ []) 5 rock_alarms)))
      ++ map (clear_notice config) (
          gone
            (raising 5)
            unary_platform-IsFaithful
            (in_alarm unary_platform-IsFaithful 13000000 (spot 89) (wreck ∷ []) 5 rock_alarms)
            (completed unary_platform-IsFaithful 13000000 (spot 89) (wreck ∷ []) 5 rock_alarms))
notices-evaluate_example =
    notices-evaluate unary_platform-IsFaithful 13000000 (spot 89) (wreck ∷ []) 5 rock_alarms
      rock_alarms-IsConsistent

rock_alone :
    (j : String)
    → alarms 13000000
        (spot 0)
        rock_alarms
        j
        (scanned unary_platform-IsFaithful 13000000 (spot 0) near 5 rock_alarms)
      ≡ Tracker.has j rock_alarms
unfolding is_hazard distance_meters to_radians earth_radius_meters earth_radius_km
    hysteresis_threshold Tracker.has sanitize_poi_id is_safe_id all_safe is_safe_code JsMap.get
    held_points
rock_alone j =
    alone (str_eq "rock" j) ∙ ap is_found (sym (sanitize-eq unary_platform-IsFaithful "rock" j))
  where
    is_found : Bool → Bool
    is_found b = elim (if b then some rock_tracked else none) [ none ↦ false | some _ ↦ true ]

    alone : (b : Bool) → (b || false) ≡ is_found b
    alone true = refl
    alone false = refl

evaluate_silent_example :
    notices (evaluate 13000000 (spot 0) near 5 rock_alarms).app ≡ notices quiet_app
evaluate_silent_example =
    evaluate_silent unary_platform-IsFaithful 13000000 (spot 0) near 5 rock_alarms
      rock_alarms-IsConsistent rock_alone

record_of-clear_stale_example :
    record_of "rock" (Tracker.clear_stale config ("wreck" ∷ []) rock_alarms)
    ≡ (if JsMap.member "rock" ("wreck" ∷ []) then record_of "rock" rock_alarms else none)
record_of-clear_stale_example =
    record_of-clear_stale unary_platform-IsFaithful config "rock" ("wreck" ∷ []) rock_alarms
      rock_alarms-IsConsistent

notices-clear_stale_example :
    notices (Tracker.clear_stale config ("wreck" ∷ []) rock_alarms).app
    ≡ notices quiet_app
      ++ map (clear_notice config) (
          keep_if
            (λ r. not (JsMap.member r.poi_id ("wreck" ∷ [])))
            (JsMap.values rock_alarms.active))
notices-clear_stale_example =
    notices-clear_stale unary_platform-IsFaithful config ("wreck" ∷ []) rock_alarms
      rock_alarms-IsConsistent

clear_all_lem_example :
    ((Tracker.clear_all config rock_alarms).active ≡ [])
    × (notices (Tracker.clear_all config rock_alarms).app
        ≡ notices quiet_app ++ map (clear_notice config) (JsMap.values rock_alarms.active))
clear_all_lem_example =
    clear_all_lem unary_platform-IsFaithful config rock_alarms rock_alarms-IsConsistent

complete_with_retained_lem_example : complete_with_retained rock_alarms (wreck ∷ []) 5 ≡ (
  wreck ∷ restored (wreck ∷ []) 5 rock_alarms.active,
  record rock_alarms { active = hold_all (wreck ∷ []) 5 rock_alarms.active },
)
complete_with_retained_lem_example =
    complete_with_retained_lem rock_alarms (wreck ∷ []) 5 rock_alarms-IsConsistent

complete_with_retained_replay_example :
    complete_with_retained (complete_with_retained rock_alarms (wreck ∷ []) 5).1 (wreck ∷ []) 5
    ≡ complete_with_retained rock_alarms (wreck ∷ []) 5
complete_with_retained_replay_example =
    complete_with_retained_replay hazard-IsSpread rock_alarms (wreck ∷ []) 5
      rock_alarms-IsConsistent

sanitize_poi_id_injective_example : rock.id ≡ "rock"
sanitize_poi_id_injective_example =
    sanitize_poi_id_injective unary_platform-IsFaithful rock.id "rock" refl
