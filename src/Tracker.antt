-- ===== src/Tracker.antt =====
-- src/shared/notification-tracker.ts: the set of alarming points of one output. A call returns the
-- tracker with the app after it.
pub mod Sweep
pub mod Laws
use signalk_crows_nest.Prelude.{
  ℕ, String, List, [], ◌∷◌, Option, none, some, Bool, true, false, if◌then◌else◌, map, length,
  or_else,
}
use mathlib.Core.Option
use signalk_crows_nest.JsMap
use signalk_crows_nest.Notification.{
  Platform, App, NotificationValue, sanitize_poi_id, emit_notification, now_iso, debug,
}

-- `NotificationTrackerConfig`, less the app.
pub record Config (T : Type 0) : Type 0 where
  pub path_prefix : String
  pub source_suffix : Option String
  pub build_clear_value : T → String → NotificationValue
  pub describe_clear : Option (String → T → String)

-- What the `active` map holds for an encoded id.
pub record Tracked (T : Type 0) : Type 0 where
  pub entry : T
  pub poi_id : String
  pub raised_at : String

pub record Tracker (T : Type 0) : Type 0 where
  pub active : List (String × Tracked T)
  pub app : App

-- `app.debug(describeClear(poiId, entry))`, where a description is configured.
unfoldable pub log_clear : {T : Type 0} → Config T → Tracked T → App → App
log_clear cfg r app = elim cfg.describe_clear [
  | none ↦ app
  | some describe ↦ debug (describe r.poi_id r.entry) app
]

-- The `keep` set: every active id, encoded.
unfoldable pub keep_from : ⦃p : Platform⦄ → List String → List String → List String
keep_from keep [] = keep
keep_from keep (id ∷ ids) = keep_from (JsMap.add (sanitize_poi_id id) keep) ids

unfoldable pub keep_set : ⦃p : Platform⦄ → List String → List String
unfolding keep_from
keep_set = keep_from []

module _ ⦃p : Platform⦄ {T : Type 0} where
  unfoldable pub clear : Config T → String → Tracker T → Tracker T
  clear cfg safe_id s = elim (JsMap.get safe_id s.active) [
    | none ↦ s
    | some r ↦ record {
      active = JsMap.delete safe_id s.active;
      app = log_clear cfg r (
          emit_notification cfg.path_prefix r.poi_id (cfg.build_clear_value r.entry r.raised_at)
            cfg.source_suffix s.app);
    }
  ]

  -- The loop of `clearStale`, over the keys that are left of the snapshot.
  unfoldable pub sweep : Config T → List String → List String → Tracker T → Tracker T
  sweep cfg keep [] s = s
  sweep cfg keep (k ∷ ks) s = sweep cfg keep ks (if JsMap.member k keep then s else clear cfg k s)

  unfoldable pub clear_stale : Config T → List String → Tracker T → Tracker T
  clear_stale cfg active_ids s = sweep cfg (keep_set active_ids) (JsMap.keys s.active) s

  -- The loop of `clearAll`.
  unfoldable pub clear_each : Config T → List String → Tracker T → Tracker T
  clear_each cfg [] s = s
  clear_each cfg (k ∷ ks) s = clear_each cfg ks (clear cfg k s)

  unfoldable pub clear_all : Config T → Tracker T → Tracker T
  clear_all cfg s = clear_each cfg (JsMap.keys s.active) s

  unfoldable pub size : Tracker T → ℕ
  size s = length s.active

  unfoldable pub has : String → Tracker T → Bool
  has poi_id s = JsMap.has (sanitize_poi_id poi_id) s.active

  unfoldable pub get : String → Tracker T → Option T
  get poi_id s = Option.map (λ r. r.entry) (JsMap.get (sanitize_poi_id poi_id) s.active)

  unfoldable pub entries : Tracker T → List (String × T)
  entries s = map (λ e. (e.1.poi_id, e.1.entry)) s.active

  -- The episode's start, read off the clock only where the id is not active yet.
  unfoldable pub raised_at_of : String → Tracker T → String × App
  raised_at_of safe_id s = elim (JsMap.get safe_id s.active) [
    | some r ↦ (r.raised_at, s.app)
    | none ↦ now_iso s.app
  ]

  unfoldable pub set : String → T → Tracker T → Tracker T × String
  unfolding raised_at_of
  set poi_id entry s =
      let safe_id = sanitize_poi_id poi_id in
      let (raised_at, app) = raised_at_of safe_id s in
      (
        record {
          active =
              JsMap.set safe_id (record { entry = entry; poi_id = poi_id; raised_at = raised_at })
                s.active;
          app = app;
        },
        raised_at,
      )
