-- ===== src/Texts.antt =====
-- What the code calls of the runtime's `String` and `Array` on texts. A text is the list of its
-- characters.
use Prim.Native.Char
use signalk_crows_nest.Prelude.{
  ℕ, ◌==◌, String, List, [], ◌∷◌, Bool, true, ◌&&◌, ◌||◌, if◌then◌else◌, leb,
}
use signalk_crows_nest.Notification.{◌⧺◌}

-- `text.split(c)`: one segment at least.
unfoldable pub split_on : ℕ → String → List String
split_on c String.[] = "" ∷ []
split_on c (String.◌∷◌ d s) =
    let rest = split_on c s in
    if Char.code d == c
    then "" ∷ rest
    else elim rest [ [] ↦ [] | segment ∷ segments ↦ String.◌∷◌ d segment ∷ segments ]

-- `texts.join(separator)`
unfoldable pub join_by : String → List String → String
join_by separator [] = ""
join_by separator (s ∷ []) = s
join_by separator (s ∷ t ∷ rest) = s ⧺ separator ⧺ join_by separator (t ∷ rest)

-- The characters of `\s`, which are those that `trim` removes.
unfoldable pub is_space : ℕ → Bool
is_space c =
    leb 9 c && leb c 13
    || c == 32
    || c == 160
    || c == 5760
    || leb 8192 c && leb c 8202
    || c == 8232
    || c == 8233
    || c == 8239
    || c == 8287
    || c == 12288
    || c == 65279

-- `text.trim() === ''`
unfoldable pub is_blank : String → Bool
unfolding is_space
is_blank String.[] = true
is_blank (String.◌∷◌ c s) = is_space (Char.code c) && is_blank s
