-- ===== src/Viewport/Keys.antt =====
-- The keys of the tiles: the escaped extra key can be read back, and a key tells its two parts apart.
use Prim.Native.Char
use Prim.Native.Char.{Char}
use text.Mathlib.TextLemmas.{
  nil-append, cons-append, append_assoc, head-eq_of_cons-eq, tail-eq_of_cons-eq,
}
use text.Mathlib.TextEquality.{Char-path}
use signalk_crows_nest.Prelude.{
  ℕ, String, Option, none, some, Bool, true, false, ◌≡◌, ◌≢◌, refl, ap, sym, ◌∙◌, ◌==◌, ◌||◌,
  if◌then◌else◌, Bool-cases, inl, inr, arith,
}
use signalk_crows_nest.Floats.{Floats}
use signalk_crows_nest.Types.{Bbox}
use signalk_crows_nest.Notification.{◌⧺◌}
use signalk_crows_nest.Viewport.{replace_char, escape_key, key_base, bbox_key}

-- A backslash stands for the character behind it.
unescape : String → String
unescape String.[] = ""
unescape (String.◌∷◌ c String.[]) = String.◌∷◌ c ""
unescape (String.◌∷◌ c (String.◌∷◌ d s)) =
    let rest = unescape s in
    let rest' = unescape (String.◌∷◌ d s) in
    if Char.code c == b'\\' then String.◌∷◌ d rest else String.◌∷◌ c rest'

unescape-plain :
    (c : Char) (s : String)
    → (Char.code c == b'\\') ≡ false
    → unescape (String.◌∷◌ c s) ≡ String.◌∷◌ c (unescape s)
unfolding unescape
unescape-plain c String.[] h = refl
unescape-plain c (String.◌∷◌ d s) h = rw h refl

replace_char-append :
    (c : ℕ) (by s t : String)
    → replace_char c by (s ⧺ t) ≡ replace_char c by s ⧺ replace_char c by t
unfolding replace_char
replace_char-append c by String.[] t = rw nil-append (rw nil-append refl)
replace_char-append c by (String.◌∷◌ d s) t = elim (Bool-cases (Char.code d == c)) [
  | inl here ↦
      rw (cons-append, here)
        (ap (λ r. by ⧺ r) (replace_char-append c by s t) ∙ sym (append_assoc by _ _))
  | inr other ↦
      rw (cons-append, other)
        (ap (String.◌∷◌ d) (replace_char-append c by s t) ∙ sym (cons-append d _ _))
]

append_one : (c : Char) (s : String) → String.◌∷◌ c "" ⧺ s ≡ String.◌∷◌ c s
append_one c s = cons-append c "" s ∙ ap (String.◌∷◌ c) (nil-append s)

append_two :
    (c d : Char) (s : String) → String.◌∷◌ c (String.◌∷◌ d "") ⧺ s ≡ String.◌∷◌ c (String.◌∷◌ d s)
append_two c d s = cons-append c (String.◌∷◌ d "") s ∙ ap (String.◌∷◌ c) (append_one d s)

escape_backslash :
    (d : Char) (s : String)
    → (Char.code d == b'\\') ≡ true
    → escape_key (String.◌∷◌ d s) ≡ String.◌∷◌ "\\" (String.◌∷◌ "\\" (escape_key s))
unfolding escape_key replace_char
escape_backslash d s h =
    rw h
      (replace_char-append b'|' "\\|" "\\\\" (replace_char b'\\' "\\\\" s) ∙ append_two "\\" "\\" _)

escape_pipe :
    (d : Char) (s : String)
    → (Char.code d == b'\\') ≡ false
    → (Char.code d == b'|') ≡ true
    → escape_key (String.◌∷◌ d s) ≡ String.◌∷◌ "\\" (String.◌∷◌ "|" (escape_key s))
unfolding escape_key replace_char
escape_pipe d s h k = rw h (rw k (append_two "\\" "|" _))

escape_plain :
    (d : Char) (s : String)
    → (Char.code d == b'\\') ≡ false
    → (Char.code d == b'|') ≡ false
    → escape_key (String.◌∷◌ d s) ≡ String.◌∷◌ d (escape_key s)
unfolding escape_key replace_char
escape_plain d s h k = rw h (rw k refl)

-- The two characters of an escape.
unescape-escaped :
    (c d : Char) (s : String)
    → (Char.code c == b'\\') ≡ true
    → unescape (String.◌∷◌ c (String.◌∷◌ d s)) ≡ String.◌∷◌ d (unescape s)
unfolding unescape
unescape-escaped c d s h = rw h refl

of_code : (c d : Char) → (Char.code c == Char.code d) ≡ true → c ≡ d
of_code c d h = Char-path c d (ground arith)

unescape-escape_key : (s : String) → unescape (escape_key s) ≡ s
unfolding unescape escape_key replace_char
unescape-escape_key String.[] = refl
unescape-escape_key (String.◌∷◌ d s) = elim (Bool-cases (Char.code d == b'\\')) [
  | inl slash ↦
      ap unescape (escape_backslash d s slash)
      ∙ unescape-escaped "\\" "\\" (escape_key s) refl
      ∙ ap (String.◌∷◌ "\\") (unescape-escape_key s)
      ∙ ap (λ c. String.◌∷◌ c s) (sym (of_code d "\\" slash))
  | inr other ↦ elim (Bool-cases (Char.code d == b'|')) [
    | inl pipe ↦
        ap unescape (escape_pipe d s other pipe)
        ∙ unescape-escaped "\\" "|" (escape_key s) refl
        ∙ ap (String.◌∷◌ "|") (unescape-escape_key s)
        ∙ ap (λ c. String.◌∷◌ c s) (sym (of_code d "|" pipe))
    | inr plain ↦
        ap unescape (escape_plain d s other plain)
        ∙ unescape-plain d (escape_key s) other
        ∙ ap (String.◌∷◌ d) (unescape-escape_key s)
  ]
]

abbrev pub has_pipe : String → Bool
has_pipe String.[] = false
has_pipe (String.◌∷◌ c s) = Char.code c == b'|' || has_pipe s

-- The first pipe ends the base.
base_split :
    (s t u v : String)
    → has_pipe s ≡ false
    → has_pipe t ≡ false
    → s ⧺ String.◌∷◌ "|" u ≡ t ⧺ String.◌∷◌ "|" v
    → (s ≡ t) × (u ≡ v)
base_split String.[] String.[] u v hs ht e =
    (refl, tail-eq_of_cons-eq (sym (nil-append _) ∙ e ∙ nil-append _))
base_split String.[] (String.◌∷◌ d t) u v hs ht e =
    let same : "|" ≡ d = head-eq_of_cons-eq (sym (nil-append _) ∙ e ∙ cons-append d t _) in
    absurd (ground (arith, ap Char.code same))
base_split (String.◌∷◌ c s) String.[] u v hs ht e =
    let same : c ≡ "|" = head-eq_of_cons-eq (sym (cons-append c s _) ∙ e ∙ nil-append _) in
    absurd (ground (arith, ap Char.code same))
base_split (String.◌∷◌ c s) (String.◌∷◌ d t) u v hs ht e =
    let e' = sym (cons-append c s _) ∙ e ∙ cons-append d t _ in
    let (bases, rest) = base_split s t u v (ground arith) (ground arith) (tail-eq_of_cons-eq e') in
    (cc, rest)

has_pipe-append : (s u : String) → has_pipe (s ⧺ String.◌∷◌ "|" u) ≡ true
has_pipe-append String.[] u = ap has_pipe (nil-append (String.◌∷◌ "|" u))
has_pipe-append (String.◌∷◌ c s) u =
    ap has_pipe (cons-append c s (String.◌∷◌ "|" u)) ∙ ground (arith, has_pipe-append s u)

module _ {F : Type 0} ⦃n : Floats F⦄ where
  key_with_extra :
      (b : Bbox F) (x : String) → bbox_key b (some x) ≡ key_base b ⧺ String.◌∷◌ "|" (escape_key x)
  unfolding bbox_key
  key_with_extra b x = ap (λ r. key_base b ⧺ r) (append_one "|" (escape_key x))

  bare-ne-extra :
      (b c : Bbox F) (x : String) → has_pipe (key_base b) ≡ false → key_base b ≢ bbox_key c (some x)
  bare-ne-extra b c x plain e =
      ground
        (arith, has_pipe-append (key_base c) (escape_key x), ap has_pipe (e ∙ key_with_extra c x))

  -- Two keys that are equal have equal box parts and equal extra keys, and a key without an
  -- extra key equals none with one. The digits of the boxes are taken to hold no pipe.
  pub bbox_key_injective :
      (b c : Bbox F) (e f : Option String)
      → has_pipe (key_base b) ≡ false
      → has_pipe (key_base c) ≡ false
      → bbox_key b e ≡ bbox_key c f
      → (key_base b ≡ key_base c) × (e ≡ f)
  unfolding bbox_key
  bbox_key_injective b c none none hb hc h = (h, refl)
  bbox_key_injective b c none (some x) hb hc h = absurd (bare-ne-extra b c x hb h)
  bbox_key_injective b c (some x) none hb hc h = absurd (bare-ne-extra c b x hc (sym h))
  bbox_key_injective b c (some x) (some y) hb hc h =
      let (bases, extras) =
        base_split (key_base b) (key_base c) (escape_key x) (escape_key y) hb hc
          (sym (key_with_extra b x) ∙ h ∙ key_with_extra c y) in
      (bases, ap some (sym (unescape-escape_key x) ∙ ap unescape extras ∙ unescape-escape_key y))
