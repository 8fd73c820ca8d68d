-- ===== src/JsMap/Laws.antt =====
-- What the maps answer after an update, and that no key stands in them twice.
use signalk_crows_nest.Prelude.{
  String, str_eq, eq_iff, List, [], ◌∷◌, none, some, true, false, ◌||◌, ◌≡◌, refl, sym, ◌∙◌, subst,
  Bool-cases, inl, inr, if◌then◌else◌, arith,
}
use signalk_crows_nest.JsMap.{get, set, delete, has, member, add}

module _ {ℓ} {V : Type ℓ} where
  pub get-set :
      (k j : String) (v : V) (m : List (String × V))
      → get j (set k v m) ≡ (if str_eq k j then some v else get j m)
  unfolding get set
  get-set k j v [] = refl
  get-set k j v ((i, w) ∷ m) = ground (arith, eq_iff k j, eq_iff i k, eq_iff i j, get-set k j v m)

  -- Every key stands once.
  abbrev pub IsDistinct : List (String × V) → Type 0
  IsDistinct [] = Unit
  IsDistinct ((k, v) ∷ m) = (has k m ≡ false) × IsDistinct m

  pub get-delete :
      (k j : String) (m : List (String × V))
      → IsDistinct m
      → get j (delete k m) ≡ (if str_eq k j then none else get j m)
  unfolding get delete
  get-delete k j [] d = ground arith
  get-delete k j ((i, w) ∷ m) d =
      ground (arith, eq_iff k j, eq_iff i k, eq_iff i j, get-delete k j m d.1)

  pub set-IsDistinct :
      (k : String) (v : V) (m : List (String × V)) → IsDistinct m → IsDistinct (set k v m)
  unfolding set get
  set-IsDistinct k v [] d = (refl, tt)
  set-IsDistinct k v ((i, w) ∷ m) d =
      ground (arith, eq_iff i k, eq_iff k i, get-set k i v m, set-IsDistinct k v m d.1)

  pub delete-IsDistinct :
      (k : String) (m : List (String × V)) → IsDistinct m → IsDistinct (delete k m)
  unfolding delete get
  delete-IsDistinct k [] d = tt
  delete-IsDistinct k ((i, w) ∷ m) d =
      ground (arith, eq_iff i k, get-delete k i m d.1, delete-IsDistinct k m d.1)

pub has-some :
    {V : Type 0} (k : String) (m : List (String × V))
    → has k m ≡ true
    → (a : V) × (get k m ≡ some a)
has-some k m h = ground arith

-- A property of every value that can be found is kept by a write of a value that has it.
pub get-set_all :
    {V : Type 0} (P : V → Type 0) (k : String) (v : V) (m : List (String × V))
    → P v
    → ((j : String) (a : V) → get j m ≡ some a → P a)
    → (j : String) (a : V) → get j (set k v m) ≡ some a
    → P a
get-set_all P k v m new old j a e = elim (Bool-cases (str_eq k j)) [
  | inl same ↦
      let e' : some v ≡ some a = sym (get-set k j v m ∙ rw same) ∙ e in
      let at : v ≡ a = cc e' in subst P at new
  | inr other ↦ let e' : get j m ≡ some a = sym (get-set k j v m ∙ rw other) ∙ e in old j a e'
]

pub member-add : (k j : String) (s : List String) → member j (add k s) ≡ (str_eq k j || member j s)
unfolding member add
member-add k j [] = refl
member-add k j (i ∷ s) = ground (arith, eq_iff i k, eq_iff i j, eq_iff k j, member-add k j s)
