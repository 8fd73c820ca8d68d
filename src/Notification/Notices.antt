-- ===== src/Notification/Notices.antt =====
-- What a consumer reads off the deltas that were sent: a source, a path and a value each, without
-- the time at which the delta left.
use signalk_crows_nest.Prelude.{String, List, [], ◌∷◌, ◌++◌, Option, ◌≡◌, refl, map, append_assoc}
use signalk_crows_nest.Notification.{
  Platform, ◌⧺◌, NotificationValue, Update, Delta, App, sanitize_poi_id, source_ref,
  emit_notification, debug, now_iso,
}

pub record Notice : Type 0 where
  pub source : String
  pub path : String
  pub value : NotificationValue

abbrev pub update_notices : Update → List Notice
update_notices u = map (λ v. record { source = u.source; path = v.path; value = v.value }) u.values

abbrev pub delta_notices : List Update → List Notice
delta_notices [] = []
delta_notices (u ∷ us) = update_notices u ++ delta_notices us

abbrev pub sent_notices : List (String × Delta) → List Notice
sent_notices [] = []
sent_notices ((_, d) ∷ ds) = delta_notices d.updates ++ sent_notices ds

abbrev pub notices : App → List Notice
notices app = sent_notices app.sent

abbrev pub notice : ⦃p : Platform⦄ → String → String → NotificationValue → Option String → Notice
notice path_prefix poi_id value source_suffix = record {
  source = source_ref source_suffix;
  path = path_prefix ⧺ sanitize_poi_id poi_id;
  value = value;
}

sent_notices-append :
    (xs ys : List (String × Delta)) → sent_notices (xs ++ ys) ≡ sent_notices xs ++ sent_notices ys
sent_notices-append [] ys = refl
sent_notices-append ((_, d) ∷ xs) ys = rw (sent_notices-append xs ys, append_assoc)

-- An emitted notification is one more notice, behind the others.
pub notices-emit_notification :
    ⦃p : Platform⦄ (path_prefix poi_id : String) (value : NotificationValue)
    (source_suffix : Option String) (app : App)
    → notices (emit_notification path_prefix poi_id value source_suffix app)
      ≡ notices app ++ notice path_prefix poi_id value source_suffix ∷ []
unfolding emit_notification
notices-emit_notification path_prefix poi_id value source_suffix app =
    sent_notices-append app.sent _

pub notices-debug : (message : String) (app : App) → notices (debug message app) ≡ notices app
unfolding debug
notices-debug message app = refl

pub notices-now_iso : (app : App) → notices ((now_iso app).1) ≡ notices app
unfolding now_iso
notices-now_iso app = refl
