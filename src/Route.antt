-- ===== src/Route.antt =====
-- src/outputs/route-hazard/route-hazard-alarms.ts: the warnings for points on the route ahead.
pub mod Laws
pub mod Corridor
pub mod Legs
pub mod CorridorLaws
use signalk_crows_nest.Prelude.{
  ℕ, String, str_eq, List, [], ◌∷◌, Option, none, some, Bool, true, false, not, ◌&&◌, if◌then◌else◌,
  is_empty, or_option, or_else,
}
use signalk_crows_nest.Floats.{Floats}
use signalk_crows_nest.JsMap
use signalk_crows_nest.Types.{PoiSummary, PoiType, CorridorPoi, Wire}
use signalk_crows_nest.Numbers.{to_finite_number}
use signalk_crows_nest.Notification.{
  Platform, ◌⧺◌, AlarmState, Method, NotificationValue, emit_notification, debug,
}
use signalk_crows_nest.Tracker
use signalk_crows_nest.Tracker.{Config, Tracker}
use signalk_crows_nest.Retention.{RetainedPoi, complete_with_retained}
use signalk_crows_nest.Proximity.{unconfirmed_clear_reason}
use signalk_crows_nest.Bridge.{format_clearance_meters, to_wire}

abbrev pub path_prefix : String
path_prefix = "notifications.navigation.crowsNest.route."

abbrev pub source_suffix : Option String
source_suffix = some "route"

pub record BridgeClearanceVerdict (F : Type 0) : Type 0 where
  pub clearance_meters : F
  pub air_draft_meters : F
  pub margin_meters : F

pub record RouteEntry (F : Type 0) : Type 0 where
  pub name : String
  pub message : String
  pub summary : Option (PoiSummary F)
  pub last_listed_at : ℕ
  pub unconfirmed : Bool

instance abbrev pub route_retained : {F : Type 0} → RetainedPoi F (RouteEntry F)
route_retained = record {
  summary = λ e. e.summary;
  last_listed_at = λ e. e.last_listed_at;
  unconfirmed = λ e. e.unconfirmed;
  refresh = λ p t e. record e { summary = some p; last_listed_at = t };
  mark = λ e. record e { unconfirmed = true };
}

pub record RouteListScan (F : Type 0) : Type 0 where
  pub pois : List (PoiSummary F)
  pub summaries : List (String × PoiSummary F)
  pub list_fetched_at : ℕ

abbrev pub clear_value : {F : Type 0} → RouteEntry F → String → NotificationValue
clear_value e raised_at = record {
  state = AlarmState.normal;
  method = [];
  message =
      if e.unconfirmed
      then "\"" ⧺ e.name ⧺ "\" warning cleared: " ⧺ unconfirmed_clear_reason "on the route ahead"
      else "\"" ⧺ e.name ⧺ "\" is no longer on the route ahead";
  created_at = raised_at;
}

abbrev pub config : {F : Type 0} → Config (RouteEntry F)
config = record {
  path_prefix = path_prefix;
  source_suffix = source_suffix;
  build_clear_value = clear_value;
  describe_clear =
      some (λ poi_id e. "Route hazard alarm cleared for " ⧺ poi_id ⧺ " (\"" ⧺ e.name ⧺ "\")");
}

-- The string that the type stands for in the source.
unfoldable pub type_name : PoiType → String
type_name PoiType.marina = "Marina"
type_name PoiType.anchorage = "Anchorage"
type_name PoiType.hazard = "Hazard"
type_name PoiType.business = "Business"
type_name PoiType.boat_ramp = "BoatRamp"
type_name PoiType.bridge = "Bridge"
type_name PoiType.dam = "Dam"
type_name PoiType.ferry = "Ferry"
type_name PoiType.inlet = "Inlet"
type_name PoiType.lock = "Lock"
type_name PoiType.local_knowledge = "LocalKnowledge"
type_name PoiType.navigational = "Navigational"
type_name PoiType.airport = "Airport"
type_name PoiType.unknown = "Unknown"

module _ {F : Type 0} ⦃n : Floats F⦄ where
  open n use {lit, lt, le, div, rem, round, floor, text, to_fixed}

  unfoldable pub format_distance : F → String
  format_distance meters =
      if le (lit 1000 0) meters
      then to_fixed (div meters (lit 1000 0)) 1 ⧺ " km"
      else text (round meters) ⧺ " m"

  unfoldable pub format_eta : F → String
  format_eta seconds =
      if le (lit 0 0) seconds && lt seconds (lit 60 0)
      then "<1 min"
      else let total_minutes = round (div seconds (lit 60 0)) in
        if lt total_minutes (lit 60 0)
        then text total_minutes ⧺ " min"
        else let hours = floor (div total_minutes (lit 60 0)) in
          let minutes = rem total_minutes (lit 60 0) in text hours ⧺ " h " ⧺ text minutes ⧺ " min"

  -- `, ETA …`, for a known time that is not past.
  unfoldable pub eta_clause : Option F → String
  unfolding to_finite_number format_eta
  eta_clause eta_seconds = elim (to_finite_number (to_wire eta_seconds)) [
    | none ↦ ""
    | some eta ↦ if le (lit 0 0) eta then ", ETA " ⧺ format_eta eta else ""
  ]

  unfoldable pub build_message : CorridorPoi F → Option (BridgeClearanceVerdict F) → String
  unfolding format_distance eta_clause type_name
  build_message poi verdict =
      let base =
        type_name poi.type
        ⧺ " \""
        ⧺ poi.name
        ⧺ "\" is on the route ahead, "
        ⧺ format_distance poi.along_track_distance_meters
        ⧺ " away"
        ⧺ eta_clause poi.eta_seconds in
      elim verdict [
        | none ↦ base
        | some v ↦
            base
            ⧺ ": clearance "
            ⧺ format_clearance_meters v.clearance_meters
            ⧺ " m is at or below your air draft "
            ⧺ format_clearance_meters v.air_draft_meters
            ⧺ " m (+"
            ⧺ format_clearance_meters v.margin_meters
            ⧺ " m margin)"
      ]

  -- The summaries of a list by id, the last one with an id first found.
  unfoldable pub index_from :
      List (String × PoiSummary F) → List (PoiSummary F) → List (String × PoiSummary F)
  index_from summaries [] = summaries
  index_from summaries (poi ∷ pois) = index_from (JsMap.set poi.id poi summaries) pois

  unfoldable pub flag_from :
      List (String × CorridorPoi F) → List (CorridorPoi F) → List (String × CorridorPoi F)
  flag_from flagged [] = flagged
  flag_from flagged (poi ∷ pois) = flag_from (JsMap.set poi.id poi flagged) pois

  module _ ⦃p : Platform⦄ where
    unfoldable pub complete_list :
        List (PoiSummary F) → ℕ → Tracker (RouteEntry F) → RouteListScan F × Tracker (RouteEntry F)
    unfolding index_from
    complete_list pois list_fetched_at tracker =
        let (completed, tracker') = complete_with_retained tracker pois list_fetched_at in
        (
          record {
            pois = completed;
            summaries = index_from [] completed;
            list_fetched_at = list_fetched_at;
          },
          tracker',
        )

    unfoldable pub emit_warn :
        String → String → String → Tracker (RouteEntry F) → Tracker (RouteEntry F)
    emit_warn poi_id message raised_at s = record s {
      app =
          emit_notification path_prefix poi_id
            (record {
              state = AlarmState.warn;
              method = Method.visual ∷ [];
              message = message;
              created_at = raised_at;
            })
            source_suffix s.app;
    }

    -- The entry that a new or changed warning is held by.
    abbrev pub entry_of :
        RouteListScan F → CorridorPoi F → String → Option (RouteEntry F) → RouteEntry F
    entry_of scan poi message none = record {
      name = poi.name;
      message = message;
      summary = JsMap.get poi.id scan.summaries;
      last_listed_at = scan.list_fetched_at;
      unconfirmed = false;
    }
    entry_of scan poi message (some existing) = record {
      name = poi.name;
      message = message;
      summary = or_option existing.summary (JsMap.get poi.id scan.summaries);
      last_listed_at = existing.last_listed_at;
      unconfirmed = false;
    }

    -- `existing === undefined || existing.message !== message`
    abbrev pub is_due : String → Option (RouteEntry F) → Bool
    is_due message none = true
    is_due message (some existing) = not (str_eq existing.message message)

    -- The warning itself: the entry is set, the warning sent and, if it is new, logged.
    unfoldable pub warn :
        RouteListScan F
        → CorridorPoi F
        → String
        → Option (RouteEntry F)
        → Tracker (RouteEntry F)
        → Tracker (RouteEntry F)
    unfolding emit_warn
    warn scan poi message existing s =
        let (s', raised_at) = Tracker.set poi.id (entry_of scan poi message existing) s in
        let s'' = emit_warn poi.id message raised_at s' in
        elim existing [
          | some _ ↦ s''
          | none ↦ record s'' {
            app =
                debug
                  ("Route hazard alarm raised for "
                    ⧺ type_name poi.type
                    ⧺ " "
                    ⧺ poi.id
                    ⧺ " (\""
                    ⧺ poi.name
                    ⧺ "\")")
                  s''.app;
          }
        ]

    unfoldable pub flag_step :
        RouteListScan F
        → List (String × BridgeClearanceVerdict F)
        → CorridorPoi F
        → Tracker (RouteEntry F)
        → Tracker (RouteEntry F)
    unfolding warn
    flag_step scan too_low poi s =
        let message = build_message poi (JsMap.get poi.id too_low) in
        let existing = Tracker.get poi.id s in
        if is_due message existing then warn scan poi message existing s else s

    unfoldable pub flag_each :
        RouteListScan F
        → List (String × BridgeClearanceVerdict F)
        → List (CorridorPoi F)
        → Tracker (RouteEntry F)
        → Tracker (RouteEntry F)
    unfolding flag_step
    flag_each scan too_low [] s = s
    flag_each scan too_low (poi ∷ pois) s =
        flag_each scan too_low pois (flag_step scan too_low poi s)

    unfoldable pub evaluate :
        RouteListScan F
        → List (CorridorPoi F)
        → List (String × BridgeClearanceVerdict F)
        → Tracker (RouteEntry F)
        → Tracker (RouteEntry F)
    unfolding flag_each flag_from
    evaluate scan corridor_pois too_low s =
        if is_empty corridor_pois
        then Tracker.clear_stale config [] s
        else let flagged = flag_from [] corridor_pois in
          Tracker.clear_stale config (JsMap.keys flagged)
            (flag_each scan too_low (JsMap.values flagged) s)
