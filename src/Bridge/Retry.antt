-- ===== src/Bridge/Retry.antt =====
-- When the resolver asks again for a bridge whose last fetch has settled.
use signalk_crows_nest.Prelude.{
  ℕ, ◌+◌, String, eq_iff, List, [], ◌∷◌, ◌++◌, none, some, false, ◌||◌, if◌then◌else◌, ltb, arith,
  ◌≡◌,
}
use signalk_crows_nest.JsMap
use signalk_crows_nest.Floats.{Floats}
use signalk_crows_nest.Types.{Wire}
use signalk_crows_nest.Numbers.{to_finite_number}
use signalk_crows_nest.Bridge.Resolver.{
  Lru, CachedClearance, Race, Resolver, Outcome, remove_id, start_fetch, settle, look_up,
}
use signalk_crows_nest.Bridge.SingleFlight.{member-remove}

-- What `lru-cache` documents of the entry that was written last, and of a deleted one.
pub record IsRemembering {C V : Type 0} (lru : Lru C V) : Type 0 where
  pub get_set : (k : String) (v : V) (c : C) → (lru.get k (lru.set k v c)).0 ≡ some v
  pub get_delete : (k : String) (c : C) → (lru.get k (lru.delete k c)).0 ≡ none

released : (id : String) (l : List String) → JsMap.member id (remove_id id l) ≡ false
released id l = ground (arith, eq_iff id id, member-remove id id l)

module _ {F C D : Type 0} ⦃n : Floats F⦄ ⦃lru : Lru C (CachedClearance F)⦄ ⦃stamps : Lru D ℕ⦄
    (kept : IsRemembering lru) (stamped : IsRemembering stamps) where
  -- A lookup after a fetch of the bridge that has resolved answers the clearance that the
  -- fetch brought, and starts one fetch when the time to live has passed since then, and none
  -- before. It is supposed that the resolver is open and that each store gives back what was
  -- written last and nothing that was deleted.
  pub resolved_rests :
      (ttl_ms at now : ℕ) (id : String) (race : Race) (clearance : Wire F) (r : Resolver F C D)
      → r.closed ≡ false
      → ((look_up ttl_ms now id (settle at id race (Outcome.resolved clearance) r)).0
          ≡ to_finite_number clearance)
        × ((look_up ttl_ms now id (settle at id race (Outcome.resolved clearance) r)).1.started
            ≡ (if ltb now (at + ttl_ms) then r.started else r.started ++ (id, now) ∷ []))
  unfolding look_up settle start_fetch
  resolved_rests ttl_ms at now id race clearance r running =
      let entry : CachedClearance F = record {
        clearance = to_finite_number clearance;
        resolved_at = at;
      } in
      ground (
        arith,
        running,
        kept.get_set id entry r.cache,
        stamped.get_delete id r.failed_fetch_started_at,
        released id r.in_flight,
      )

  -- A lookup after a failed fetch of the bridge answers what was cached before, a stale
  -- clearance included, and starts one fetch, unless the minute from the start of the failed
  -- one has not passed or the cached clearance is still fresh. It is supposed that the
  -- resolver is open and that each store gives back what was written last and nothing that
  -- was deleted.
  pub rejected_rests :
      (ttl_ms at now : ℕ) (id : String) (race : Race) (error : String) (r : Resolver F C D)
      → r.closed ≡ false
      → ((look_up ttl_ms now id (settle at id race (Outcome.rejected error) r)).0
          ≡ elim (lru.get id r.cache).0 [ none ↦ none | some cached ↦ cached.clearance ])
        × ((look_up ttl_ms now id (settle at id race (Outcome.rejected error) r)).1.started ≡ (
            if ltb now (race.started_at + 60000) || elim (lru.get id r.cache).0 [
              | none ↦ false
              | some cached ↦ ltb now (cached.resolved_at + ttl_ms)
            ]
            then r.started
            else r.started ++ (id, now) ∷ []))
  unfolding look_up settle start_fetch
  rejected_rests ttl_ms at now id race error r running = ground (
    arith,
    running,
    stamped.get_set id race.started_at r.failed_fetch_started_at,
    released id r.in_flight,
  )
