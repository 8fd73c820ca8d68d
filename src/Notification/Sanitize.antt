-- ===== src/Notification/Sanitize.antt =====
-- Laws of `sanitize_poi_id`.
use text.Mathlib.TextLemmas.{nil-append, cons-append, append_cancel_left}
use signalk_crows_nest.Prelude.{
  String, str_eq, eq_iff, true, false, ◌≡◌, ◌≢◌, if◌then◌else◌, arith, ◌&&◌,
}
use signalk_crows_nest.Notification.{
  Platform, ◌⧺◌, all_safe, is_safe_id, escaped_id_prefix, empty_id_payload, sanitize_poi_id,
}

all_safe-append : (s t : String) → all_safe (s ⧺ t) ≡ (all_safe s && all_safe t)
unfolding all_safe
all_safe-append String.[] t = rw nil-append
all_safe-append (String.◌∷◌ c s) t = rw cons-append (ground (arith, all_safe-append s t))

all_safe_of_id : (s : String) → is_safe_id s ≡ true → all_safe s ≡ true
unfolding is_safe_id
all_safe_of_id String.[] h = cc
all_safe_of_id (String.◌∷◌ c s) h = h

escaped_unsafe : (s : String) → all_safe (escaped_id_prefix ⧺ s) ≡ false
unfolding all_safe
escaped_unsafe s = rw (all_safe-append escaped_id_prefix s)

prefix_cancel : (s t : String) → escaped_id_prefix ⧺ s ≡ escaped_id_prefix ⧺ t → s ≡ t
prefix_cancel s t h = append_cancel_left escaped_id_prefix s t h

-- What Node documents of base64url: distinct texts have distinct codes, and the code of a text that
-- is not empty is no single character.
pub record IsFaithful (p : Platform) : Type 0 where
  pub injective : (a b : String) → p.base64url a ≡ p.base64url b → a ≡ b
  pub ne_marker : (a : String) → a ≢ "" → p.base64url a ≢ empty_id_payload

payload : ⦃p : Platform⦄ → String → String
payload ⦃p⦄ a = if str_eq a "" then empty_id_payload else p.base64url a

payload_injective : ⦃p : Platform⦄ → IsFaithful p → (a b : String) → payload a ≡ payload b → a ≡ b
unfolding payload
payload_injective ⦃p⦄ f a b h =
    ground (arith, eq_iff a "", eq_iff b "", f.injective a b, f.ne_marker a, f.ne_marker b)

-- Two ids whose path-safe forms are equal are equal, if base64url is faithful.
pub sanitize_poi_id_injective :
    ⦃p : Platform⦄ → IsFaithful p → (a b : String) → sanitize_poi_id a ≡ sanitize_poi_id b → a ≡ b
unfolding sanitize_poi_id payload
sanitize_poi_id_injective ⦃p⦄ f a b h = ground (
  arith,
  all_safe_of_id a,
  all_safe_of_id b,
  escaped_unsafe (payload a),
  escaped_unsafe (payload b),
  prefix_cancel (payload a) (payload b),
  payload_injective f a b,
)
