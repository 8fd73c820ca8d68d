-- ===== src/Episode.antt =====
-- The entry and exit half of an evaluation, which src/outputs/proximity-alarm/proximity-alarms.ts
-- and src/outputs/bridge-air-draft/bridge-clearance-alarms.ts share in shape: raise what is in
-- alarm and not yet active, then clear what is not in alarm.
pub mod Laws
pub mod Settle
use signalk_crows_nest.Prelude.{String, List, [], ◌∷◌, Option, Bool, if◌then◌else◌}
use signalk_crows_nest.Notification.{Platform, NotificationValue, emit_notification, debug}
use signalk_crows_nest.Tracker
use signalk_crows_nest.Tracker.{Tracker}

-- What a `raise` closes over: `A` is what the output's `inAlarm` map holds, `T` its tracker's entry.
pub record Raising (A T : Type 0) : Type 0 where
  pub path_prefix : String
  pub source_suffix : Option String
  pub poi_id : A → String
  pub entry : A → T
  pub value : A → String → NotificationValue
  pub describe : A → String

module _ ⦃p : Platform⦄ {A T : Type 0} (r : Raising A T) where
  unfoldable pub raise : A → Tracker T → Tracker T
  raise a s =
      let (s', raised_at) = Tracker.set (r.poi_id a) (r.entry a) s in
      record s' {
        app = debug (r.describe a) (
            emit_notification r.path_prefix (r.poi_id a) (r.value a raised_at) r.source_suffix
              s'.app);
      }

  -- The loop over the values in alarm.
  unfoldable pub raise_new : List A → Tracker T → Tracker T
  unfolding raise
  raise_new [] s = s
  raise_new (a ∷ rest) s = raise_new rest (if Tracker.has (r.poi_id a) s then s else raise a s)
