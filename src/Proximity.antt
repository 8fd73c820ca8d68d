-- ===== src/Proximity.antt =====
-- src/outputs/proximity-alarm/proximity-alarms.ts: the hazard alarms around the vessel.
pub mod Scan
pub mod Laws
use Prim.Native.String
use signalk_crows_nest.Prelude.{
  ℕ, String, List, [], ◌∷◌, ◌++◌, Option, none, some, Bool, true, false, not, if◌then◌else◌,
  is_empty,
}
use signalk_crows_nest.Floats.{Floats}
use signalk_crows_nest.JsMap
use signalk_crows_nest.Types.{Position, PoiSummary, PoiType}
use signalk_crows_nest.Numbers.{hysteresis_threshold}
use signalk_crows_nest.Geo.{distance_meters}
use signalk_crows_nest.Notification.{
  Platform, ◌⧺◌, App, AlarmState, Method, NotificationValue, debug,
}
use signalk_crows_nest.Tracker
use signalk_crows_nest.Tracker.{Config, Tracker}
use signalk_crows_nest.Episode.{Raising, raise_new}
use signalk_crows_nest.Retention.{RetainedPoi, complete_with_retained}

abbrev pub path_prefix : String
path_prefix = "notifications.navigation.crowsNest.hazard."

abbrev pub source_suffix : Option String
source_suffix = some "proximity"

-- `unconfirmedClearReason`, of src/outputs/alarm-retention.ts.
unfoldable pub unconfirmed_clear_reason : String → String
unconfirmed_clear_reason still_within = "unreported for 30 minutes and still " ⧺ still_within

pub record HazardEntry (F : Type 0) : Type 0 where
  pub summary : PoiSummary F
  pub last_listed_at : ℕ
  pub unconfirmed : Bool

instance abbrev pub hazard_retained : {F : Type 0} → RetainedPoi F (HazardEntry F)
hazard_retained = record {
  summary = λ e. some e.summary;
  last_listed_at = λ e. e.last_listed_at;
  unconfirmed = λ e. e.unconfirmed;
  refresh = λ p t e. record e { summary = p; last_listed_at = t };
  mark = λ e. record e { unconfirmed = true };
}

unfoldable pub is_hazard : PoiType → Bool
is_hazard PoiType.hazard = true
is_hazard _ = false

-- What the `inAlarm` map holds for an id.
pub record InAlarm (F : Type 0) : Type 0 where
  pub poi : PoiSummary F
  pub distance : F

abbrev pub clear_value : {F : Type 0} → HazardEntry F → String → NotificationValue
clear_value e raised_at = record {
  state = AlarmState.normal;
  method = [];
  message =
      if e.unconfirmed
      then "Hazard \""
        ⧺ e.summary.name
        ⧺ "\" alarm cleared: "
        ⧺ unconfirmed_clear_reason "within the alarm radius"
      else "Hazard \"" ⧺ e.summary.name ⧺ "\" is no longer nearby";
  created_at = raised_at;
}

abbrev pub config : {F : Type 0} → Config (HazardEntry F)
config = record {
  path_prefix = path_prefix;
  source_suffix = source_suffix;
  build_clear_value = clear_value;
  describe_clear = some (λ poi_id e.
      "Proximity alarm cleared for hazard " ⧺ poi_id ⧺ " (\"" ⧺ e.summary.name ⧺ "\")");
}

module _ {F : Type 0} ⦃n : Floats F⦄ where
  open n use {is_finite, le, round, text}

  abbrev pub raise_value : PoiSummary F → F → String → NotificationValue
  raise_value poi distance raised_at = record {
    state = AlarmState.alarm;
    method = Method.visual ∷ Method.sound ∷ [];
    message = "Hazard \"" ⧺ poi.name ⧺ "\" is " ⧺ text (round distance) ⧺ " m away";
    created_at = raised_at;
  }

  -- `raise`: the entry that the tracker is given, the value that is sent and the line that is logged.
  abbrev pub raising : ℕ → Raising (InAlarm F) (HazardEntry F)
  raising list_fetched_at = record {
    path_prefix = path_prefix;
    source_suffix = source_suffix;
    poi_id = λ a. a.poi.id;
    entry = λ a. record { summary = a.poi; last_listed_at = list_fetched_at; unconfirmed = false };
    value = λ a raised_at. raise_value a.poi a.distance raised_at;
    describe = λ a.
        "Proximity alarm raised for hazard "
        ⧺ a.poi.id
        ⧺ " (\""
        ⧺ a.poi.name
        ⧺ "\") at "
        ⧺ text (round a.distance)
        ⧺ " m";
  }

  module _ ⦃p : Platform⦄ (radius_meters : F) (vessel_position : Position F) where
    -- One round of the loop over the scanned list: the `inAlarm` map, and the app for its log.
    unfoldable pub scan_step :
        Tracker (HazardEntry F)
        → PoiSummary F
        → List (String × InAlarm F) × App
        → List (String × InAlarm F) × App
    unfolding is_hazard
    scan_step tracker poi (in_alarm, app) =
        if not (is_hazard poi.type)
        then (in_alarm, app)
        else let distance = distance_meters vessel_position poi.position in
          if not (is_finite distance)
          then (
            in_alarm,
            debug ("Proximity alarm skipped hazard " ⧺ poi.id ⧺ ": non-finite distance") app,
          )
          else let threshold = hysteresis_threshold radius_meters (Tracker.has poi.id tracker) in
            (
              if le distance threshold
                  then JsMap.set poi.id (record { poi = poi; distance = distance }) in_alarm
                  else in_alarm,
              app,
            )

    unfoldable pub scan :
        Tracker (HazardEntry F)
        → List (PoiSummary F)
        → List (String × InAlarm F) × App
        → List (String × InAlarm F) × App
    unfolding scan_step
    scan tracker [] acc = acc
    scan tracker (poi ∷ pois) acc = scan tracker pois (scan_step tracker poi acc)

    -- `evaluate` behind the completion of the list.
    unfoldable pub evaluate_list :
        ℕ → List (PoiSummary F) → Tracker (HazardEntry F) → Tracker (HazardEntry F)
    unfolding scan
    evaluate_list list_fetched_at scanned completed =
        if is_empty scanned
        then Tracker.clear_stale config [] completed
        else let (in_alarm, app) = scan completed scanned ([], completed.app) in
          let raised =
            raise_new (raising list_fetched_at) (JsMap.values in_alarm)
              (record completed { app = app }) in
          Tracker.clear_stale config (JsMap.keys in_alarm) raised

    unfoldable pub evaluate :
        List (PoiSummary F) → ℕ → Tracker (HazardEntry F) → Tracker (HazardEntry F)
    unfolding evaluate_list
    evaluate pois list_fetched_at tracker =
        let (scanned, completed) = complete_with_retained tracker pois list_fetched_at in
        evaluate_list list_fetched_at scanned completed
