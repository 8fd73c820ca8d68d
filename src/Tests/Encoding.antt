-- ===== src/Tests/Encoding.antt =====
-- An encoding of texts that has what Node documents of base64url: every character becomes as many
-- letters `x` as its code says, closed by a hyphen, behind one letter `b`.
use Prim.Native.Char.{code}
use text.Mathlib.TextEquality.{Char-path}
use text.Mathlib.TextLemmas.{tail-eq_of_cons-eq}
use signalk_crows_nest.Prelude.{ℕ, zero, suc, ◌≤◌, String, true, ◌≡◌, refl, ap, arith}
use signalk_crows_nest.Notification.{Platform, all_safe, is_safe_id}
use signalk_crows_nest.Notification.Sanitize.{IsFaithful}

unfoldable pub unary : ℕ → String → String
unary zero s = String.◌∷◌ "-" s
unary (suc n) s = String.◌∷◌ "x" (unary n s)

unfoldable pub encode : String → String
unfolding unary
encode String.[] = ""
encode (String.◌∷◌ c s) = unary (code c) (encode s)

unfoldable pub head_code : String → ℕ
head_code String.[] = 0
head_code (String.◌∷◌ c s) = suc (code c)

unary_head : (n : ℕ) (s : String) → 1 ≤ head_code (unary n s)
unfolding unary head_code
unary_head zero s = omega arith
unary_head (suc n) s = omega arith

unary_injective : (m n : ℕ) (s t : String) → unary m s ≡ unary n t → (m ≡ n) × (s ≡ t)
unfolding unary head_code
unary_injective zero zero s t h = (refl, tail-eq_of_cons-eq h)
unary_injective zero (suc n) s t h = absurd (omega (arith, ap head_code h))
unary_injective (suc m) zero s t h = absurd (omega (arith, ap head_code h))
unary_injective (suc m) (suc n) s t h =
    let (e, r) = unary_injective m n s t (tail-eq_of_cons-eq h) in (ap suc e, r)

encode_injective : (a b : String) → encode a ≡ encode b → a ≡ b
unfolding encode unary head_code
encode_injective String.[] String.[] h = refl
encode_injective String.[] (String.◌∷◌ d t) h =
    absurd (omega (arith, ap head_code h, unary_head (code d) (encode t)))
encode_injective (String.◌∷◌ c s) String.[] h =
    absurd (omega (arith, ap head_code h, unary_head (code c) (encode s)))
encode_injective (String.◌∷◌ c s) (String.◌∷◌ d t) h =
    let (e, r) = unary_injective (code c) (code d) (encode s) (encode t) h in
    λ i. String.◌∷◌ (Char-path c d e i) (encode_injective s t r i)

unary_safe : (n : ℕ) (s : String) → all_safe s ≡ true → all_safe (unary n s) ≡ true
unfolding unary all_safe
unary_safe zero s h = h
unary_safe (suc n) s h = unary_safe n s h

encode_safe : (s : String) → all_safe (encode s) ≡ true
unfolding encode all_safe
encode_safe String.[] = refl
encode_safe (String.◌∷◌ c s) = unary_safe (code c) (encode s) (encode_safe s)

instance abbrev pub unary_platform : Platform
unary_platform = record { base64url = λ s. String.◌∷◌ "b" (encode s) }

pub unary_platform-IsFaithful : IsFaithful unary_platform
unfolding is_safe_id all_safe head_code
unary_platform-IsFaithful = record {
  injective = λ a b h. encode_injective a b (tail-eq_of_cons-eq h);
  ne_marker = λ a n h. omega (arith, ap head_code h);
}
