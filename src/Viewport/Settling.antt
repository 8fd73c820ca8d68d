-- ===== src/Viewport/Settling.antt =====
-- The settling of a fetch keeps `IsSound`.
use signalk_crows_nest.Prelude.{
  ℕ, ◌+◌, ◌<◌, ◌≤◌, String, List, ◌∷◌, ◌++◌, none, some, Bool, true, false, if◌then◌else◌, arith,
  ◌≡◌, refl, ap, sym, ◌∙◌, ◌==◌, All, All-remove, subst,
}
use mathlib.Core.List.{Mem, mem-cons_of_mem}
use signalk_crows_nest.Floats.{Floats}
use signalk_crows_nest.Types.{Bbox}
use signalk_crows_nest.Bridge.Resolver.{Lru}
use signalk_crows_nest.Viewport.Cache.{
  GeoEntry, Purpose, Flight, BboxCache, CacheConfig, Fetched, write, stop_revalidating,
}
use signalk_crows_nest.Viewport.Runs.{
  IsStore, Log, logged, Gist, gist, Aims, target, bit, is_refresh_of, refreshes, refreshes-append,
  IsAimed, All-IsAimed, write_ind, IsSound, similar-IsSound, write_at,
}

refreshes_removed :
    {F T : Type 0} (e : ℕ) (before after : List (Flight F T)) (f : Flight F T)
    → refreshes e (before ++ f ∷ after) ≡ bit (is_refresh_of e f) + refreshes e (before ++ after)
refreshes_removed e before after f =
    let here : (b : Bool) (j k : ℕ) → j ≡ (if b then 1 + k else k) → j ≡ bit b + k =
      λ b j k h. ground arith in
    ground (arith, refreshes-append e before (f ∷ after), refreshes-append e before after)

module _ {F T C : Type 0} ⦃lru : Lru C ℕ⦄ where
  -- A flight ends, and its entry is replaced by `a`.
  pub replaced-IsSound :
      (log log' : Log T) (before after : List (Flight F T)) (f : Flight F T) (k : ℕ)
      (a : GeoEntry T) (c : BboxCache F T C)
      → c.flights ≡ before ++ f ∷ after
      → k < c.fetches
      → a.key ≡ (c.entries k).key
      → bit a.revalidating + bit (is_refresh_of k f) ≡ bit (c.entries k).revalidating
      → ((j : ℕ) → (j == k) ≡ false → is_refresh_of j f ≡ false)
      → (a.ok ≡ true → (v : T) × (a.value ≡ some v))
      → ((v : T) → a.value ≡ some v → Mem (a.key, v) log')
      → ((x : String × T) → Mem x log → Mem x log')
      → IsSound log c
      → IsSound log' (record c { flights = before ++ after; entries = write k a c.entries })
  replaced-IsSound log log' before after f k a c split lt named moved others ok value grows h =
      let same : (e : ℕ) → (write k a c.entries e).key ≡ (c.entries e).key = λ e.
        write_ind (λ j (b : GeoEntry T). b.key ≡ (c.entries j).key) k a c.entries e named
          (λ _. refl) in
      let counted : (e : ℕ)
          → bit (is_refresh_of e f) + refreshes e (before ++ after)
            ≡ bit (c.entries e).revalidating =
        λ e. sym (refreshes_removed e before after f) ∙ ap (refreshes e) (sym split) ∙ h.single e in
      record {
        single = λ e.
            write_ind (λ j (b : GeoEntry T). refreshes j (before ++ after) ≡ bit b.revalidating) k a
              c.entries e (omega (arith, counted k, moved))
              (λ other. omega (arith, counted e, ap bit (others e other)));
        unborn = λ e late.
            write_ind (λ j (b : GeoEntry T). c.fetches ≤ j → b.revalidating ≡ false) k a c.entries e
              (λ beyond. absurd (omega arith)) (λ _ beyond. h.unborn e beyond) late;
        named = λ key e found. let (below, under) = h.named key e found in (below, same e ∙ under);
        aimed =
            (All-remove (IsAimed c.fetches (write k a c.entries)) before f after (
              subst (All (IsAimed c.fetches (write k a c.entries))) split (
                All-IsAimed c.fetches c.fetches c.entries (write k a c.entries) c.flights
                  (omega arith) (λ e _. same e) h.aimed))).1;
        filled = λ e.
            write_ind (λ j (b : GeoEntry T). b.ok ≡ true → (v : T) × (b.value ≡ some v)) k a
              c.entries e ok (λ _. h.filled e);
        kept = λ e.
            write_ind (λ j (b : GeoEntry T). (v : T) → b.value ≡ some v → Mem (b.key, v) log') k a
              c.entries e value (λ _ v is. grows _ (h.kept e v is));
      }

  -- A fetch without a cache ends.
  pub removed-IsSound :
      (log log' : Log T) (before after : List (Flight F T)) (f : Flight F T) (c : BboxCache F T C)
      → c.flights ≡ before ++ f ∷ after
      → ((j : ℕ) → is_refresh_of j f ≡ false)
      → ((x : String × T) → Mem x log → Mem x log')
      → IsSound log c
      → IsSound log' (record c { flights = before ++ after })
  removed-IsSound log log' before after f c split idle grows h = record {
    single = λ e. omega (
      arith,
      refreshes_removed e before after f,
      ap (refreshes e) split,
      ap bit (idle e),
      h.single e,
    );
    unborn = h.unborn;
    named = h.named;
    aimed =
        (All-remove (IsAimed c.fetches c.entries) before f after
          (subst (All (IsAimed c.fetches c.entries)) split h.aimed)).1;
    filled = h.filled;
    kept = λ e v is. grows _ (h.kept e v is);
  }

pub logged_grows :
    {T : Type 0} (key : String) (fetched : Fetched T) (log : Log T) (x : String × T)
    → Mem x log
    → Mem x (logged key fetched log)
logged_grows key (Fetched.resolved value) log x at = mem-cons_of_mem _ at
logged_grows key (Fetched.rejected error) log x at = at

abbrev pub flight_of : {F T : Type 0} → ℕ → Purpose → String → Bbox F → (T → Bool) → Flight F T
flight_of number purpose key bbox should_cache = record {
  number = number;
  purpose = purpose;
  key = key;
  bbox = bbox;
  should_cache = should_cache;
}

module _ {F T : Type 0} where
  is_refresh_of_target :
      (f : Flight F T) (k j : ℕ) → f.purpose ≡ Purpose.refresh k → is_refresh_of j f ≡ (k == j)
  is_refresh_of_target f k j aim =
      ap (λ (p : Purpose). elim p [ Purpose.refresh e ↦ e == j | _ ↦ false ]) aim

  refresh_target : (f : Flight F T) (k : ℕ) → f.purpose ≡ Purpose.refresh k → target f ≡ some k
  refresh_target f k aim =
      ap
        (λ (p : Purpose). elim p [
          | Purpose.into background ↦ some f.number
          | Purpose.refresh e ↦ some e
          | Purpose.uncached ↦ none
        ])
        aim

bit_moved :
    (moved was : Bool) (k : ℕ)
    → moved ≡ true
    → bit moved + k ≡ bit was
    → bit false + bit moved ≡ bit was
bit_moved moved was k h e = ground arith

module _ {F T C : Type 0} ⦃n : Floats F⦄ ⦃lru : Lru C ℕ⦄ (config : CacheConfig)
    (store : IsStore lru) where
  -- The state that the settling of a refresh leaves, before the flag is reset.
  pub refresh-IsSound :
      (log log' : Log T) (before after : List (Flight F T)) (f : Flight F T) (k : ℕ)
      (a : GeoEntry T) (c d : BboxCache F T C)
      → c.flights ≡ before ++ f ∷ after
      → f.purpose ≡ Purpose.refresh k
      → a.key ≡ (c.entries k).key
      → (a.ok ≡ true → (v : T) × (a.value ≡ some v))
      → ((v : T) → a.value ≡ some v → Mem (a.key, v) log')
      → ((x : String × T) → Mem x log → Mem x log')
      → d.fetches ≡ c.fetches
      → d.flights ≡ before ++ after
      → ((e : ℕ) → gist (d.entries e) ≡ gist (write k a c.entries e))
      → ((j : String) (e : ℕ) → (lru.get j d.store).0 ≡ some e → (lru.get j c.store).0 ≡ some e)
      → IsSound log c
      → IsSound log' (stop_revalidating config k d)
  refresh-IsSound log log' before after f k a c d split aim named ok value grows fetches flights
        entries stored h =
      let a' : GeoEntry T = record a { revalidating = false } in
      let mid : BboxCache F T C = record c {
        flights = before ++ after;
        entries = write k a' c.entries;
      } in
      let whole =
        sym (refreshes_removed k before after f) ∙ ap (refreshes k) (sym split) ∙ h.single k in
      similar-IsSound log' mid (stop_revalidating config k d)
        (record {
          same_fetches = fetches;
          same_flights = flights;
          same_gist = λ e.
              write_ind (λ j (b : GeoEntry T). gist b ≡ gist (write k a' c.entries j)) k
                (record (d.entries k) { revalidating = false }) d.entries e
                (ap (λ (g : Gist T). record g { revalidating = false })
                    (entries k ∙ ap gist (write_at k a c.entries))
                  ∙ sym (ap gist (write_at k a' c.entries)))
                (λ other. entries e ∙ ground arith);
          stored = stored;
        })
        (replaced-IsSound log log' before after f k a' c split
          (subst (Aims c.fetches c.entries f.key) (refresh_target f k aim)
            (All-remove (IsAimed c.fetches c.entries) before f after
              (subst (All (IsAimed c.fetches c.entries)) split h.aimed)).0).0
          named
          (bit_moved (is_refresh_of k f) (c.entries k).revalidating (refreshes k (before ++ after))
            (is_refresh_of_target f k k aim ∙ ground arith) whole)
          (λ j other. is_refresh_of_target f k j aim ∙ ground arith) ok value grows h)
