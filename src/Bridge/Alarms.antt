-- ===== src/Bridge/Alarms.antt =====
-- src/outputs/bridge-air-draft/bridge-clearance-alarms.ts: the alarms for bridges that are too low.
use signalk_crows_nest.Prelude.{
  ℕ, String, List, [], ◌∷◌, Option, none, some, Bool, true, false, not, ◌&&◌, if◌then◌else◌, ◌==◌,
  is_empty, is_some,
}
use signalk_crows_nest.Floats.{Floats}
use signalk_crows_nest.JsMap
use signalk_crows_nest.Types.{Position, PoiSummary}
use signalk_crows_nest.Numbers.{hysteresis_threshold}
use signalk_crows_nest.Geo.{distance_meters}
use signalk_crows_nest.Notification.{
  Platform, ◌⧺◌, App, AlarmState, Method, NotificationValue, debug,
}
use signalk_crows_nest.Tracker
use signalk_crows_nest.Tracker.{Config, Tracker}
use signalk_crows_nest.Episode.{Raising, raise_new}
use signalk_crows_nest.Retention.{RetainedPoi, complete_with_retained}
use signalk_crows_nest.Proximity.{unconfirmed_clear_reason}
use signalk_crows_nest.Bridge.{bridge_blocks_vessel, format_clearance_meters}
use signalk_crows_nest.Bridge.Resolver.{Lru, CachedClearance, Resolver, is_bridge, clearance_meters}

abbrev pub path_prefix : String
path_prefix = "notifications.navigation.crowsNest.bridgeClearance."

abbrev pub source_suffix : Option String
source_suffix = some "bridge"

pub record BridgeEntry (F : Type 0) : Type 0 where
  pub summary : PoiSummary F
  pub last_listed_at : ℕ
  pub unconfirmed : Bool

instance abbrev pub bridge_retained : {F : Type 0} → RetainedPoi F (BridgeEntry F)
bridge_retained = record {
  summary = λ e. some e.summary;
  last_listed_at = λ e. e.last_listed_at;
  unconfirmed = λ e. e.unconfirmed;
  refresh = λ p t e. record e { summary = p; last_listed_at = t };
  mark = λ e. record e { unconfirmed = true };
}

pub record InAlarmEntry (F : Type 0) : Type 0 where
  pub poi : PoiSummary F
  pub clearance : F
  pub air_draft : F
  pub range : F

abbrev pub clear_value : {F : Type 0} → BridgeEntry F → String → NotificationValue
clear_value e raised_at = record {
  state = AlarmState.normal;
  method = [];
  message =
      if e.unconfirmed
      then "Bridge \""
        ⧺ e.summary.name
        ⧺ "\" clearance alarm cleared: "
        ⧺ unconfirmed_clear_reason "within the alarm radius"
      else "Bridge \"" ⧺ e.summary.name ⧺ "\" clearance alarm cleared";
  created_at = raised_at;
}

abbrev pub config : {F : Type 0} → Config (BridgeEntry F)
config = record {
  path_prefix = path_prefix;
  source_suffix = source_suffix;
  build_clear_value = clear_value;
  describe_clear = some (λ poi_id e.
      "Bridge clearance alarm cleared for bridge " ⧺ poi_id ⧺ " (\"" ⧺ e.summary.name ⧺ "\")");
}

-- The alarms' state: what the closures of `createBridgeClearanceAlarms` share.
pub record BridgeAlarms (F C D : Type 0) : Type 0 where
  pub tracker : Tracker (BridgeEntry F)
  pub resolver : Resolver F C D
  pub air_draft_available : Option Bool
  pub warmed_list_fetched_at : Option ℕ

-- What the loop over the scanned list carries.
pub record Pass (F C D : Type 0) : Type 0 where
  pub in_alarm : List (String × InAlarmEntry F)
  pub resolver : Resolver F C D
  pub app : App

-- `available !== airDraftAvailable`, where `none` is the `null` before the first pass.
abbrev pub differs : Bool → Option Bool → Bool
differs available none = true
differs true (some before) = not before
differs false (some before) = before

-- `listFetchedAt !== warmedListFetchedAt`.
abbrev pub is_new_list : ℕ → Option ℕ → Bool
is_new_list list_fetched_at none = true
is_new_list list_fetched_at (some warmed) = not (list_fetched_at == warmed)

module _ {F : Type 0} ⦃n : Floats F⦄ (margin_meters : F) where
  open n use {round, text}

  abbrev pub raise_value : InAlarmEntry F → String → NotificationValue
  raise_value a raised_at = record {
    state = AlarmState.alarm;
    method = Method.visual ∷ Method.sound ∷ [];
    message =
        "Bridge \""
        ⧺ a.poi.name
        ⧺ "\" clearance "
        ⧺ format_clearance_meters a.clearance
        ⧺ " m is at or below your air draft "
        ⧺ format_clearance_meters a.air_draft
        ⧺ " m (+"
        ⧺ format_clearance_meters margin_meters
        ⧺ " m margin), "
        ⧺ text (round a.range)
        ⧺ " m away";
    created_at = raised_at;
  }

  abbrev pub raising : ℕ → Raising (InAlarmEntry F) (BridgeEntry F)
  raising list_fetched_at = record {
    path_prefix = path_prefix;
    source_suffix = source_suffix;
    poi_id = λ a. a.poi.id;
    entry = λ a. record { summary = a.poi; last_listed_at = list_fetched_at; unconfirmed = false };
    value = raise_value;
    describe = λ a.
        "Bridge clearance alarm raised for bridge "
        ⧺ a.poi.id
        ⧺ " (\""
        ⧺ a.poi.name
        ⧺ "\"): clearance "
        ⧺ format_clearance_meters a.clearance
        ⧺ " m vs air draft "
        ⧺ format_clearance_meters a.air_draft
        ⧺ " m at "
        ⧺ text (round a.range)
        ⧺ " m";
  }

  -- What a bridge with a clearance adds to the map.
  unfoldable pub judge :
      F
      → PoiSummary F
      → F
      → Option F
      → List (String × InAlarmEntry F)
      → List (String × InAlarmEntry F)
  judge air_draft poi distance none in_alarm = in_alarm
  judge air_draft poi distance (some clearance) in_alarm =
      if not (bridge_blocks_vessel (some clearance) (some air_draft) margin_meters)
      then in_alarm
      else JsMap.set poi.id
          (record { poi = poi; clearance = clearance; air_draft = air_draft; range = distance })
          in_alarm

-- The line that is logged when the air draft appears or goes.
unfoldable pub air_draft_message : {F : Type 0} ⦃n : Floats F⦄ → Option F → String
air_draft_message (some meters) =
    "Bridge air-draft check active: comparing bridge clearances against "
    ⧺ format_clearance_meters meters
    ⧺ " m air draft"
air_draft_message none =
    "Bridge air-draft check inert: no design.airHeight and no configured fallback air draft"

unfoldable pub note_air_draft :
    {F C D : Type 0} ⦃n : Floats F⦄ → Option F → BridgeAlarms F C D → BridgeAlarms F C D
note_air_draft air_draft s =
    if differs (is_some air_draft) s.air_draft_available
    then record s {
      tracker = record {
        active = s.tracker.active;
        app = debug (air_draft_message air_draft) s.tracker.app;
      };
      air_draft_available = some (is_some air_draft);
    }
    else s

module _ {F C D : Type 0} ⦃n : Floats F⦄ ⦃lru : Lru C (CachedClearance F)⦄ ⦃stamps : Lru D ℕ⦄
    ⦃p : Platform⦄ (ttl_ms : ℕ) (radius_meters margin_meters : F) where
  open n use {is_finite, le}

  -- One round of the loop. `now` is the clock of the resolver.
  unfoldable pub scan_step :
      Position F → ℕ → F → Bool → Tracker (BridgeEntry F) → PoiSummary F → Pass F C D → Pass F C D
  unfolding judge is_bridge
  scan_step vessel now air_draft warming_box tracker poi pass =
      if not (is_bridge poi.type)
      then pass
      else let distance = distance_meters vessel poi.position in
        let threshold = hysteresis_threshold radius_meters (Tracker.has poi.id tracker) in
        let in_range = is_finite distance && le distance threshold in
        if not warming_box && not in_range
        then pass
        else let (clearance, resolver) = clearance_meters ttl_ms now poi pass.resolver in
          if not (is_finite distance)
          then record pass {
            resolver = resolver;
            app =
                debug ("Bridge clearance alarm skipped bridge " ⧺ poi.id ⧺ ": non-finite distance")
                  pass.app;
          }
          else if not in_range
          then record pass { resolver = resolver }
          else record pass {
            resolver = resolver;
            in_alarm = judge margin_meters air_draft poi distance clearance pass.in_alarm;
          }

  unfoldable pub scan :
      Position F
      → ℕ
      → F
      → Bool
      → Tracker (BridgeEntry F)
      → List (PoiSummary F)
      → Pass F C D
      → Pass F C D
  unfolding scan_step
  scan vessel now air_draft warming_box tracker [] pass = pass
  scan vessel now air_draft warming_box tracker (poi ∷ pois) pass =
      scan vessel now air_draft warming_box tracker pois
        (scan_step vessel now air_draft warming_box tracker poi pass)

  -- `evaluate` behind the completion of the list.
  unfoldable pub evaluate_list :
      Position F → ℕ → F → ℕ → List (PoiSummary F) → BridgeAlarms F C D → BridgeAlarms F C D
  unfolding scan
  evaluate_list vessel now air_draft list_fetched_at scanned s =
      if is_empty scanned
      then record s { tracker = Tracker.clear_stale config [] s.tracker }
      else let pass =
          scan vessel now air_draft (is_new_list list_fetched_at s.warmed_list_fetched_at) s.tracker
            scanned (record { in_alarm = []; resolver = s.resolver; app = s.tracker.app }) in
        let raised =
          raise_new (raising margin_meters list_fetched_at) (JsMap.values pass.in_alarm)
            (record { active = s.tracker.active; app = pass.app }) in
        record s {
          tracker = Tracker.clear_stale config (JsMap.keys pass.in_alarm) raised;
          resolver = pass.resolver;
          warmed_list_fetched_at = some list_fetched_at;
        }

  -- `air_draft` is what `getAirDraft` returns on this pass.
  unfoldable pub evaluate :
      Position F → ℕ → Option F → List (PoiSummary F) → ℕ → BridgeAlarms F C D → BridgeAlarms F C D
  unfolding evaluate_list note_air_draft
  evaluate vessel now none pois list_fetched_at s =
      let s' = note_air_draft none s in record s' { tracker = Tracker.clear_all config s'.tracker }
  evaluate vessel now (some air_draft) pois list_fetched_at s =
      let s' = note_air_draft (some air_draft) s in
      let (scanned, completed) = complete_with_retained s'.tracker pois list_fetched_at in
      evaluate_list vessel now air_draft list_fetched_at scanned (record s' { tracker = completed })
