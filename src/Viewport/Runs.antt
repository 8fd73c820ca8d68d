-- ===== src/Viewport/Runs.antt =====
-- Runs of the cache: any order of reads, of settling fetches, of callers that go on, and of `clear`.
use signalk_crows_nest.Prelude.{
  ℕ, ◌+◌, ◌<◌, ◌≤◌, String, List, [], ◌∷◌, ◌++◌, Option, none, some, Bool, true, false,
  if◌then◌else◌, arith, ◌≡◌, ◌⊎◌, refl, ap, sym, ◌∙◌, ◌==◌, length, keep_if, if_ind, All,
  All-weaken, subst,
}
use mathlib.Core.List.{Mem}
use signalk_crows_nest.Floats.{Floats}
use signalk_crows_nest.Types.{Bbox}
use signalk_crows_nest.Bridge.Resolver.{Lru}
use signalk_crows_nest.Viewport.Cache.{
  GeoEntry, Purpose, Flight, Answer, BboxCache, CacheConfig, Fetched, write, create, get, settle,
  wake, clear,
}

-- What the `lru-cache` package documents: a key holds what was last set under it, or nothing once it
-- has been evicted; a read evicts nothing into place.
pub record IsStore {C : Type 0} (lru : Lru C ℕ) : Type 0 where
  pub get_empty : (k : String) → (lru.get k lru.empty).0 ≡ none
  pub get_set :
      (k j : String) (v e : ℕ) (c : C)
      → (lru.get k (lru.set j v c)).0 ≡ some e
      → (k ≡ j) × (v ≡ e) ⊎ ((lru.get k c).0 ≡ some e)
  pub get_get :
      (k j : String) (e : ℕ) (c : C)
      → (lru.get k (lru.get j c).1).0 ≡ some e
      → (lru.get k c).0 ≡ some e

-- The values that settled fetches have brought, with their keys.
abbrev pub Log : Type 0 → Type 0
Log T = List (String × T)

abbrev pub logged : {T : Type 0} → String → Fetched T → Log T → Log T
logged key (Fetched.resolved value) log = (key, value) ∷ log
logged key (Fetched.rejected error) log = log

module _ {F T C : Type 0} ⦃n : Floats F⦄ ⦃lru : Lru C ℕ⦄ (config : CacheConfig) where
  pub data Run : Log T → BboxCache F T C → Type 0 where
    start : Run [] (create config)
    asked :
        {log : Log T} {c : BboxCache F T C}
        → Run log c
        → (now : ℕ) (bbox : Bbox F) (extra_key : Option String) (should_cache : T → Bool)
        → Run log (get config now bbox extra_key should_cache c).1
    settled :
        {log : Log T} {c : BboxCache F T C}
        → Run log c
        → (now : ℕ) (before after : List (Flight F T)) (f : Flight F T) (fetched : Fetched T)
        → c.flights ≡ before ++ f ∷ after
        → Run (logged f.key fetched log) (settle config now f (before ++ after) fetched c)
    woken :
        {log : Log T} {c : BboxCache F T C}
        → Run log c
        → (answer : Answer T) → Run log (wake config answer c)
    cleared : {log : Log T} {c : BboxCache F T C} → Run log c → Run log (clear config c)

-- What the runs keep of an entry.
pub record Gist (T : Type 0) : Type 0 where
  pub key : String
  pub value : Option T
  pub ok : Bool
  pub revalidating : Bool

abbrev pub gist : {T : Type 0} → GeoEntry T → Gist T
gist e = record { key = e.key; value = e.value; ok = e.ok; revalidating = e.revalidating }

abbrev pub bit : Bool → ℕ
bit b = if b then 1 else 0

module _ {T : Type 0} where
  -- The entry is there, under the key.
  abbrev pub Aims : ℕ → (ℕ → GeoEntry T) → String → Option ℕ → Type 0
  Aims fetches entries key none = Unit
  Aims fetches entries key (some e) = (e < fetches) × ((entries e).key ≡ key)

  Aims-kept :
      (m k : ℕ) (old new : ℕ → GeoEntry T) (key : String) (o : Option ℕ)
      → m ≤ k
      → ((e : ℕ) → e < m → (new e).key ≡ (old e).key)
      → Aims m old key o
      → Aims k new key o
  Aims-kept m k old new key none le same h = tt
  Aims-kept m k old new key (some e) le same h = (omega (arith, h.0), same e h.0 ∙ h.1)

module _ {F T : Type 0} where
  -- The entry that a fetch will write.
  abbrev pub target : Flight F T → Option ℕ
  target f = elim f.purpose [
    | Purpose.into background ↦ some f.number
    | Purpose.refresh e ↦ some e
    | Purpose.uncached ↦ none
  ]

  abbrev pub is_refresh_of : ℕ → Flight F T → Bool
  is_refresh_of entry f = elim f.purpose [ Purpose.refresh e ↦ e == entry | _ ↦ false ]

  abbrev pub refreshes : ℕ → List (Flight F T) → ℕ
  refreshes entry flights = length (keep_if (is_refresh_of entry) flights)

  pub refreshes-append :
      (e : ℕ) (fs gs : List (Flight F T)) → refreshes e (fs ++ gs) ≡ refreshes e fs + refreshes e gs
  refreshes-append e [] gs = omega arith
  refreshes-append e (f ∷ fs) gs = ground (arith, refreshes-append e fs gs)

  abbrev pub IsAimed : ℕ → (ℕ → GeoEntry T) → Flight F T → Type 0
  IsAimed fetches entries f = Aims fetches entries f.key (target f)

  pub All-IsAimed :
      (m k : ℕ) (old new : ℕ → GeoEntry T) (fs : List (Flight F T))
      → m ≤ k
      → ((e : ℕ) → e < m → (new e).key ≡ (old e).key)
      → All (IsAimed m old) fs
      → All (IsAimed k new) fs
  All-IsAimed m k old new fs le same =
      All-weaken (IsAimed m old) (IsAimed k new) fs
        λ f. Aims-kept m k old new f.key (target f) le same

pub eq_of_test : (a b : ℕ) → (a == b) ≡ true → a ≡ b
eq_of_test a b h = ground arith

-- A property of each entry, after a write.
pub write_ind {κ} :
    {A : Type 0} (P : ℕ → A → Type κ) (k : ℕ) (a : A) (f : ℕ → A) (j : ℕ)
    → P k a
    → ((j == k) ≡ false → P j (f j))
    → P j (write k a f j)
write_ind P k a f j at_k other =
    if_ind (P j) (j == k) (λ here. subst (λ i. P i a) (sym (eq_of_test j k here)) at_k) other

module _ {F T C : Type 0} ⦃lru : Lru C ℕ⦄ where
  pub record IsSound (log : Log T) (c : BboxCache F T C) : Type 0 where
    pub single : (e : ℕ) → refreshes e c.flights ≡ bit (c.entries e).revalidating
    pub unborn : (e : ℕ) → c.fetches ≤ e → (c.entries e).revalidating ≡ false
    pub named :
        (k : String) (e : ℕ)
        → (lru.get k c.store).0 ≡ some e
        → (e < c.fetches) × ((c.entries e).key ≡ k)
    pub aimed : All (IsAimed c.fetches c.entries) c.flights
    pub filled : (e : ℕ) → (c.entries e).ok ≡ true → (v : T) × ((c.entries e).value ≡ some v)
    pub kept : (e : ℕ) (v : T) → (c.entries e).value ≡ some v → Mem ((c.entries e).key, v) log

  -- Two caches that differ in freshness, or by evictions.
  pub record IsSimilar (c d : BboxCache F T C) : Type 0 where
    pub same_fetches : d.fetches ≡ c.fetches
    pub same_flights : d.flights ≡ c.flights
    pub same_gist : (e : ℕ) → gist (d.entries e) ≡ gist (c.entries e)
    pub stored :
        (k : String) (e : ℕ) → (lru.get k d.store).0 ≡ some e → (lru.get k c.store).0 ≡ some e

  pub similar-IsSound :
      (log : Log T) (c d : BboxCache F T C) → IsSimilar c d → IsSound log c → IsSound log d
  similar-IsSound log c d s h = record {
    single = λ e.
        ap (refreshes e) s.same_flights
        ∙ h.single e
        ∙ ap (λ (g : Gist T). bit g.revalidating) (sym (s.same_gist e));
    unborn = λ e late.
        ap (λ (g : Gist T). g.revalidating) (s.same_gist e)
        ∙ h.unborn e (omega (arith, s.same_fetches));
    named = λ k e found.
        let (below, key) = h.named k e (s.stored k e found) in
        (omega (arith, s.same_fetches), same_key e ∙ key);
    aimed = subst (All (IsAimed d.fetches d.entries)) (sym s.same_flights) (
        All-IsAimed c.fetches d.fetches c.entries d.entries c.flights
          (omega (arith, s.same_fetches)) (λ e _. same_key e) h.aimed);
    filled = λ e ok.
        let (v, is) = h.filled e (sym (ap (λ (g : Gist T). g.ok) (s.same_gist e)) ∙ ok) in
        (v, ap (λ (g : Gist T). g.value) (s.same_gist e) ∙ is);
    kept = λ e v is.
        subst (λ k. Mem (k, v) log) (sym (same_key e))
          (h.kept e v (sym (ap (λ (g : Gist T). g.value) (s.same_gist e)) ∙ is));
  }
    where
      same_key : (e : ℕ) → (d.entries e).key ≡ (c.entries e).key
      same_key e = ap (λ (g : Gist T). g.key) (s.same_gist e)

  pub touch-IsSimilar :
      (k : ℕ) (a : GeoEntry T) (c : BboxCache F T C)
      → gist a ≡ gist (c.entries k)
      → IsSimilar c (record c { entries = write k a c.entries })
  touch-IsSimilar k a c same = record {
    same_fetches = refl;
    same_flights = refl;
    same_gist = λ e.
        write_ind (λ j (b : GeoEntry T). gist b ≡ gist (c.entries j)) k a c.entries e same
          (λ _. refl);
    stored = λ j e found. found;
  }

  pub get-IsSimilar :
      (store : IsStore lru) (k : String) (c : BboxCache F T C)
      → IsSimilar c (record c { store = (lru.get k c.store).1 })
  get-IsSimilar store k c = record {
    same_fetches = refl;
    same_flights = refl;
    same_gist = λ e. refl;
    stored = λ j e found. store.get_get j k e c.store found;
  }

pub write_at : {A : Type 0} (k : ℕ) (a : A) (f : ℕ → A) → write k a f k ≡ a
write_at k a f = ground arith

pub write_below : {A : Type 0} (k e : ℕ) (a : A) (f : ℕ → A) → e < k → write k a f e ≡ f e
write_below k e a f below = ground arith

pub write-write :
    {A : Type 0} (k : ℕ) (a b : A) (f : ℕ → A) (e : ℕ) → write k a (write k b f) e ≡ write k a f e
write-write k a b f e = ground arith
