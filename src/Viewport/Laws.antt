-- ===== src/Viewport/Laws.antt =====
-- The fetches that a read starts.
use signalk_crows_nest.Prelude.{
  ℕ, ◌+◌, ◌<◌, String, Option, none, some, Bool, true, false, not, ◌&&◌, if◌then◌else◌, arith, ◌≡◌,
  refl, ltb, ◌==◌,
}
use signalk_crows_nest.Floats.{Floats}
use signalk_crows_nest.Types.{Bbox}
use signalk_crows_nest.Bridge.Resolver.{Lru}
use signalk_crows_nest.Viewport.{bbox_key, snap_bbox}
use signalk_crows_nest.Viewport.Cache.{
  BboxCache, CacheConfig, in_failure_cool_down, call_fetch, fetch_into, revalidate, serve, read,
  get,
}

module _ {F T C : Type 0} ⦃n : Floats F⦄ ⦃lru : Lru C ℕ⦄ (config : CacheConfig) where
  -- Whether a read of a tile fetches it.
  abbrev pub is_due : ℕ → Option ℕ → BboxCache F T C → Bool
  is_due now none c = true
  is_due now (some number) c =
      let e = c.entries number in
      if not e.ok
      then not (e.failed_at == 0) && not (in_failure_cool_down now e)
      else not (ltb now e.fresh_until) && not e.revalidating && not (in_failure_cool_down now e)

  read_starts :
      (now : ℕ) (bbox tile : Bbox F) (key : String) (extra_key : Option String)
      (should_cache : T → Bool) (found : Option ℕ) (c : BboxCache F T C)
      → config.prefetch_enabled ≡ false
      → (read config now bbox tile key extra_key should_cache found c).1.fetches
        ≡ (if is_due now found c then c.fetches + 1 else c.fetches)
  unfolding read serve fetch_into revalidate call_fetch
  read_starts now bbox tile key extra_key should_cache none c off = refl
  read_starts now bbox tile key extra_key should_cache (some number) c off = ground arith

  -- With the cache on and the warming of neighbors off, a read starts one fetch when its tile
  -- has no entry, when the first fetch of the entry has failed and the cool-down is over, or
  -- when the entry is stale, is not being refreshed and is not cooling down; and none
  -- otherwise.
  pub get_starts :
      (now : ℕ) (bbox : Bbox F) (extra_key : Option String) (should_cache : T → Bool)
      (c : BboxCache F T C)
      → 0 < config.ttl_ms
      → config.prefetch_enabled ≡ false
      → (get config now bbox extra_key should_cache c).1.fetches ≡ (
          if is_due now (lru.get (bbox_key (snap_bbox bbox) extra_key) c.store).0 c
          then c.fetches + 1
          else c.fetches)
  unfolding get
  get_starts now bbox extra_key should_cache c on off = ground (
    arith,
    read_starts now bbox (snap_bbox bbox) (bbox_key (snap_bbox bbox) extra_key) extra_key
        should_cache,
  )
