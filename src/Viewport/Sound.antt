-- ===== src/Viewport/Sound.antt =====
-- What every operation of the cache keeps: `IsSound`.
use signalk_crows_nest.Prelude.{
  ℕ, ◌+◌, ◌<◌, ◌≤◌, String, [], ◌∷◌, some, Bool, true, false, arith, ◌≡◌, inl, inr, refl, ap, sym,
  ◌∙◌, All-append,
}
use mathlib.Core.List.{Mem}
use signalk_crows_nest.Floats.{Floats}
use signalk_crows_nest.Types.{Bbox}
use signalk_crows_nest.Bridge.Resolver.{Lru}
use signalk_crows_nest.Viewport.Cache.{
  GeoEntry, Purpose, Flight, BboxCache, CacheConfig, write, new_entry, call_fetch, fetch_into,
  revalidate,
}
use signalk_crows_nest.Viewport.Runs.{
  IsStore, Log, bit, refreshes, refreshes-append, IsAimed, All-IsAimed, write_ind, IsSound,
  write_at, write_below,
}

module _ {F T C : Type 0} ⦃n : Floats F⦄ ⦃lru : Lru C ℕ⦄ (config : CacheConfig)
    (store : IsStore lru) where
  pub fetch_into-IsSound :
      (log : Log T) (background : Bool) (key : String) (bbox : Bbox F) (should_cache : T → Bool)
      (c : BboxCache F T C)
      → IsSound log c
      → IsSound log (fetch_into config background key bbox should_cache c)
  unfolding fetch_into call_fetch
  fetch_into-IsSound log background key bbox should_cache c h =
      let a : GeoEntry T = new_entry config.ttl_ms key in
      let below : (e : ℕ)
          → e < c.fetches
          → (write c.fetches a c.entries e).key ≡ (c.entries e).key =
        λ e lt. ap (λ (b : GeoEntry T). b.key) (write_below c.fetches e a c.entries lt) in
      record {
        single = λ e.
            let idle = h.single c.fetches ∙ ap bit (h.unborn c.fetches (omega arith)) in
            omega (
              arith,
              refreshes-append e c.flights _,
              write_ind (λ j (b : GeoEntry T). refreshes j c.flights ≡ bit b.revalidating) c.fetches
                  a c.entries e idle (λ _. h.single e),
            );
        unborn = λ e late.
            write_ind (λ j (b : GeoEntry T). b.revalidating ≡ false) c.fetches a c.entries e refl
              (λ _. h.unborn e (omega arith));
        named = λ k e found. elim (store.get_set k key c.fetches e c.store found) [
          | inl (same, made) ↦ (
            omega arith,
            ap (λ (b : GeoEntry T). b.key)
                  (ap (write c.fetches a c.entries) (sym made) ∙ write_at c.fetches a c.entries)
                ∙ sym same,
          )
          | inr earlier ↦ let (lt, named) = h.named k e earlier in (omega arith, below e lt ∙ named)
        ];
        aimed =
            All-append (IsAimed (c.fetches + 1) (write c.fetches a c.entries)) c.flights _
              (All-IsAimed c.fetches (c.fetches + 1) c.entries (write c.fetches a c.entries)
                c.flights (omega arith) below h.aimed)
              ((omega arith, ap (λ (b : GeoEntry T). b.key) (write_at c.fetches a c.entries)), tt);
        filled = λ e.
            write_ind (λ j (b : GeoEntry T). b.ok ≡ true → (v : T) × (b.value ≡ some v)) c.fetches a
              c.entries e (λ ok. absurd cc) (λ _. h.filled e);
        kept = λ e.
            write_ind (λ j (b : GeoEntry T). (v : T) → b.value ≡ some v → Mem (b.key, v) log)
              c.fetches a c.entries e (λ v is. absurd cc) (λ _. h.kept e);
      }

  pub revalidate-IsSound :
      (log : Log T) (key : String) (bbox : Bbox F) (should_cache : T → Bool) (number : ℕ)
      (c : BboxCache F T C)
      → number < c.fetches
      → (c.entries number).key ≡ key
      → (c.entries number).revalidating ≡ false
      → IsSound log c
      → IsSound log (revalidate config key bbox should_cache number c)
  unfolding revalidate call_fetch
  revalidate-IsSound log key bbox should_cache number c lt named idle h =
      let a : GeoEntry T = record (c.entries number) { revalidating = true } in
      let f : Flight F T = record {
        number = c.fetches;
        purpose = Purpose.refresh number;
        key = key;
        bbox = bbox;
        should_cache = should_cache;
      } in
      let same : (e : ℕ) → (write number a c.entries e).key ≡ (c.entries e).key = λ e.
        write_ind (λ j (b : GeoEntry T). b.key ≡ (c.entries j).key) number a c.entries e refl
          (λ _. refl) in
      record {
        single = λ e.
            refreshes-append e c.flights (f ∷ [])
            ∙ write_ind
                (λ j (b : GeoEntry T).
                  refreshes j c.flights + refreshes j (f ∷ []) ≡ bit b.revalidating)
                number a c.entries e (ground (arith, h.single number))
                (λ other. ground (arith, h.single e));
        unborn = λ e late.
            write_ind (λ j (b : GeoEntry T). c.fetches ≤ j → b.revalidating ≡ false) number a
              c.entries e (λ late. absurd (omega arith)) (λ _ late. h.unborn e late) (omega arith);
        named = λ k e found. let (below, key) = h.named k e found in (omega arith, same e ∙ key);
        aimed =
            All-append (IsAimed (c.fetches + 1) (write number a c.entries)) c.flights _
              (All-IsAimed c.fetches (c.fetches + 1) c.entries (write number a c.entries) c.flights
                (omega arith) (λ e _. same e) h.aimed)
              ((omega arith, same number ∙ named), tt);
        filled = λ e.
            write_ind (λ j (b : GeoEntry T). b.ok ≡ true → (v : T) × (b.value ≡ some v)) number a
              c.entries e (h.filled number) (λ _. h.filled e);
        kept = λ e.
            write_ind (λ j (b : GeoEntry T). (v : T) → b.value ≡ some v → Mem (b.key, v) log) number
              a c.entries e (h.kept number) (λ _. h.kept e);
      }
