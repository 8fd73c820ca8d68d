-- ===== src/Notification.antt =====
-- src/shared/notification-path.ts: the path-safe id and the delta that carries a notification.
pub mod Sanitize
pub mod Notices
use Prim.Native.Char.{code}
use Prim.Native.String
use signalk_crows_nest.Prelude.{
  ℕ, ◌+◌, String, str_eq, List, [], ◌∷◌, ◌++◌, Option, none, some, Bool, true, false, ◌&&◌, ◌||◌,
  leb, ◌==◌, if◌then◌else◌,
}

-- What the code takes from the Node runtime beside the numbers: UTF-8 base64url of `Buffer`.
pub record Platform : Type 0 where
  pub base64url : String → String

infixr 66 ◌⧺◌
abbrev pub ◌⧺◌ : String → String → String
a ⧺ b = String.◌++◌ a b

abbrev pub plugin_id : String
plugin_id = "signalk-crows-nest"

-- `[A-Za-z0-9_-]`, on a code point.
unfoldable pub is_safe_code : ℕ → Bool
is_safe_code c =
    leb b'A' c && leb c b'Z'
    || leb b'a' c && leb c b'z'
    || leb b'0' c && leb c b'9'
    || c == b'_'
    || c == b'-'

unfoldable pub all_safe : String → Bool
unfolding is_safe_code
all_safe String.[] = true
all_safe (String.◌∷◌ c s) = is_safe_code (code c) && all_safe s

-- `SAFE_ID.test`: one character at least.
unfoldable pub is_safe_id : String → Bool
unfolding all_safe
is_safe_id String.[] = false
is_safe_id (String.◌∷◌ c s) = all_safe (String.◌∷◌ c s)

abbrev pub escaped_id_prefix : String
escaped_id_prefix = "escaped."

abbrev pub empty_id_payload : String
empty_id_payload = "_"

unfoldable pub sanitize_poi_id : ⦃p : Platform⦄ → String → String
sanitize_poi_id ⦃p⦄ poi_id =
    if is_safe_id poi_id
    then poi_id
    else escaped_id_prefix ⧺ (if str_eq poi_id "" then empty_id_payload else p.base64url poi_id)

pub data AlarmState : Type 0 where
  alarm warn normal : AlarmState

pub data Method : Type 0 where
  visual sound : Method

pub record NotificationValue : Type 0 where
  pub state : AlarmState
  pub method : List Method
  pub message : String
  pub created_at : String

pub record PathValue : Type 0 where
  pub path : String
  pub value : NotificationValue

pub record Update : Type 0 where
  pub source : String
  pub timestamp : String
  pub values : List PathValue

pub record Delta : Type 0 where
  pub updates : List Update

-- The SignalK app as the outputs see it. `clock i` is what the i-th call of `new Date()` reads,
-- as an ISO string; `reads` counts those calls. `sent` lists the calls of `handleMessage` and `log`
-- those of `debug`, the first one first.
pub record App : Type 0 where
  pub clock : ℕ → String
  pub reads : ℕ
  pub sent : List (String × Delta)
  pub log : List String

-- `new Date().toISOString()`
unfoldable pub now_iso : App → String × App
now_iso app = (app.clock app.reads, record app { reads = app.reads + 1 })

unfoldable pub handle_message : String → Delta → App → App
handle_message id delta app = record app { sent = app.sent ++ (id, delta) ∷ [] }

unfoldable pub debug : String → App → App
debug message app = record app { log = app.log ++ message ∷ [] }

-- `$source`: the plugin id, with the suffix unless that is absent or empty.
unfoldable pub source_ref : Option String → String
source_ref none = plugin_id
source_ref (some suffix) = if str_eq suffix "" then plugin_id else plugin_id ⧺ "." ⧺ suffix

unfoldable pub emit_notification :
    ⦃p : Platform⦄ → String → String → NotificationValue → Option String → App → App
unfolding now_iso handle_message source_ref
emit_notification path_prefix poi_id value source_suffix app =
    let (timestamp, app') = now_iso app in
    handle_message plugin_id
      (record {
        updates =
            record {
              source = source_ref source_suffix;
              timestamp = timestamp;
              values = record { path = path_prefix ⧺ sanitize_poi_id poi_id; value = value } ∷ [];
            }
            ∷ [];
      })
      app'
