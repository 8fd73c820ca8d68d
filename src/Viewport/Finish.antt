-- ===== src/Viewport/Finish.antt =====
-- The handlers of a fetch keep `IsSound`.
use signalk_crows_nest.Prelude.{
  ℕ, String, List, [], ◌∷◌, ◌++◌, some, Bool, true, not, arith, ◌≡◌, refl, ap, sym, ◌∙◌, if_ind,
  All, All-remove, subst,
}
use mathlib.Core.List.{Mem, mem-cons_self}
use signalk_crows_nest.Floats.{Floats}
use signalk_crows_nest.Types.{Bbox}
use signalk_crows_nest.Bridge.Resolver.{Lru}
use signalk_crows_nest.Viewport.Cache.{
  GeoEntry, Purpose, Flight, BboxCache, CacheConfig, Fetched, write, holds, stop_revalidating,
  finish, stamp_resolved,
}
use signalk_crows_nest.Viewport.Runs.{
  IsStore, Log, logged, gist, IsAimed, IsSound, similar-IsSound, write_ind,
}
use signalk_crows_nest.Viewport.Settling.{
  replaced-IsSound, removed-IsSound, refresh-IsSound, logged_grows, flight_of,
}

mem-logged :
    {T : Type 0} (log : Log T) (key k : String) (value v : T)
    → k ≡ key
    → some value ≡ some v
    → Mem (k, v) ((key, value) ∷ log)
mem-logged log key k value v named is = subst (λ p. Mem p ((key, value) ∷ log)) (cc) mem-cons_self

unwritten :
    {T : Type 0} (k : ℕ) (entries : ℕ → GeoEntry T) (e : ℕ)
    → gist (entries e) ≡ gist (write k (entries k) entries e)
unwritten {T} k entries e =
    write_ind (λ j (b : GeoEntry T). gist (entries j) ≡ gist b) k (entries k) entries e refl
      (λ _. refl)

module _ {F T C : Type 0} ⦃n : Floats F⦄ ⦃lru : Lru C ℕ⦄ (config : CacheConfig)
    (store : IsStore lru) where
  -- The entry of the first fetch of a tile is there, under its key.
  flight-IsAimed :
      (log : Log T) (before after : List (Flight F T)) (f : Flight F T) (c : BboxCache F T C)
      → c.flights ≡ before ++ f ∷ after
      → IsSound log c
      → IsAimed c.fetches c.entries f
  flight-IsAimed log before after f c split h =
      (All-remove (IsAimed c.fetches c.entries) before f after
        (subst (All (IsAimed c.fetches c.entries)) split h.aimed)).0

  pub same_fields :
      (log : Log T) (c d : BboxCache F T C)
      → c.fetches ≡ d.fetches
      → c.flights ≡ d.flights
      → c.entries ≡ d.entries
      → c.store ≡ d.store
      → IsSound log c
      → IsSound log d
  same_fields log c d fetches flights entries stores = similar-IsSound log c d (record {
    same_fetches = sym fetches;
    same_flights = sym flights;
    same_gist = λ e. ap (λ (es : ℕ → GeoEntry T). gist (es e)) (sym entries);
    stored = λ k e found. ap (λ s. (lru.get k s).0) stores ∙ found;
  })

  pub finish-IsSound :
      (now : ℕ) (purpose : Purpose) (number : ℕ) (key : String) (bbox : Bbox F)
      (should_cache : T → Bool) (fetched : Fetched T) (log : Log T)
      (before after : List (Flight F T)) (c : BboxCache F T C)
      → c.flights ≡ before ++ flight_of number purpose key bbox should_cache ∷ after
      → IsSound log c
      → IsSound (logged key fetched log) (
          finish config now purpose number key should_cache fetched
            (record c { flights = before ++ after }))
  unfolding finish stamp_resolved
  finish-IsSound now (Purpose.into background) number key bbox should_cache (Fetched.resolved value)
        log before after c split h =
      let f = flight_of number (Purpose.into background) key bbox should_cache in
      let (lt, named) = flight-IsAimed log before after f c split h in
      let a : GeoEntry T =
        record (stamp_resolved config now value (not (should_cache value)) (c.entries number)) {
          ok = true;
          fresh_result_pending = background;
        } in
      same_fields _ _ _ refl refl refl refl (
        replaced-IsSound log ((key, value) ∷ log) before after f number a c split lt refl
          (omega arith) (λ j _. refl) (λ _. (value, refl))
          (λ v. mem-logged log key a.key value v named)
          (logged_grows key (Fetched.resolved value) log) h)
  finish-IsSound now (Purpose.into background) number key bbox should_cache (Fetched.rejected error)
        log before after c split h =
      let f = flight_of number (Purpose.into background) key bbox should_cache in
      let (lt, named) = flight-IsAimed log before after f c split h in
      same_fields _ _ _ refl refl refl refl (
        replaced-IsSound log log before after f number
          (record (c.entries number) { failed_at = now }) c split lt refl (omega arith)
          (λ j _. refl) (h.filled number) (h.kept number) (λ x at. at) h)
  finish-IsSound now (Purpose.refresh k) number key bbox should_cache (Fetched.resolved value) log
        before after c split h =
      let f = flight_of number (Purpose.refresh k) key bbox should_cache in
      let (lt, named) = flight-IsAimed log before after f c split h in
      let fresh : GeoEntry T =
        record (stamp_resolved config now value (not (should_cache value)) (c.entries k)) {
          fresh_result_pending = true;
        } in
      let log' = (key, value) ∷ log in
      let grows = logged_grows key (Fetched.resolved value) log in
      let base : BboxCache F T C = record c {
        flights = before ++ after;
        store = (lru.get key c.store).1;
      } in
      if_ind (λ (d : BboxCache F T C). IsSound log' (stop_revalidating config k d))
        (holds config key k c)
        (λ _.
          refresh-IsSound config store log log' before after f k fresh c
            (record base { entries = write k fresh c.entries }) split refl refl (λ _. (value, refl))
            (λ v. mem-logged log key fresh.key value v named) grows refl refl (λ e. refl)
            (λ j e. store.get_get j key e c.store) h)
        (λ _.
          refresh-IsSound config store log log' before after f k (c.entries k) c base split refl
            refl (h.filled k) (λ v is. grows _ (h.kept k v is)) grows refl refl
            (λ e. unwritten k c.entries e) (λ j e. store.get_get j key e c.store) h)
  finish-IsSound now (Purpose.refresh k) number key bbox should_cache (Fetched.rejected error) log
        before after c split h =
      let f = flight_of number (Purpose.refresh k) key bbox should_cache in
      let failed : GeoEntry T = record (c.entries k) { failed_at = now } in
      let base : BboxCache F T C = record c {
        flights = before ++ after;
        store = (lru.get key c.store).1;
      } in
      if_ind (λ (d : BboxCache F T C). IsSound log (stop_revalidating config k d))
        (holds config key k c)
        (λ _.
          refresh-IsSound config store log log before after f k failed c
            (record base { entries = write k failed c.entries; errors = c.errors ++ error ∷ [] })
            split refl refl (h.filled k) (h.kept k) (λ x at. at) refl refl (λ e. refl)
            (λ j e. store.get_get j key e c.store) h)
        (λ _.
          refresh-IsSound config store log log before after f k (c.entries k) c base split refl refl
            (h.filled k) (h.kept k) (λ x at. at) refl refl (λ e. unwritten k c.entries e)
            (λ j e. store.get_get j key e c.store) h)
  finish-IsSound now Purpose.uncached number key bbox should_cache (Fetched.resolved value) log
        before after c split h =
      same_fields _ _ _ refl refl refl refl (
        removed-IsSound log _ before after (flight_of number Purpose.uncached key bbox should_cache)
          c split (λ j. refl) (logged_grows key (Fetched.resolved value) log) h)
  finish-IsSound now Purpose.uncached number key bbox should_cache (Fetched.rejected error) log
        before after c split h =
      same_fields _ _ _ refl refl refl refl (
        removed-IsSound log _ before after (flight_of number Purpose.uncached key bbox should_cache)
          c split (λ j. refl) (λ x at. at) h)
