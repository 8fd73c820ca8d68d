-- ===== src/Viewport/Served.antt =====
-- What the runs of the cache keep, and the values that it serves.
use signalk_crows_nest.Prelude.{
  ℕ, ◌+◌, String, [], Option, some, Bool, if◌then◌else◌, arith, ◌≡◌, refl, ◌∙◌, ◌==◌, if_ind,
  option_ind, All-append, subst,
}
use mathlib.Core.List.{Mem}
use signalk_crows_nest.JsMap
use signalk_crows_nest.Floats.{Floats}
use signalk_crows_nest.Types.{Bbox}
use signalk_crows_nest.Bridge.Resolver.{Lru}
use signalk_crows_nest.Viewport.{bbox_key, snap_bbox}
use signalk_crows_nest.Viewport.Cache.{
  Answer, Provenance, BboxCache, CacheConfig, create, call_fetch, get_uncached, get, settle, clear,
}
use signalk_crows_nest.Viewport.Runs.{
  IsStore, Log, Run, refreshes, refreshes-append, IsAimed, IsSound, similar-IsSound, get-IsSimilar,
  All-IsAimed,
}
use signalk_crows_nest.Viewport.Finish.{finish-IsSound}
use signalk_crows_nest.Viewport.Reading.{IsKept, wake-IsSound, read-IsSound}

module _ {F T C : Type 0} ⦃n : Floats F⦄ ⦃lru : Lru C ℕ⦄ (config : CacheConfig)
    (store : IsStore lru) where
  get_uncached-IsSound :
      (log : Log T) (bbox : Bbox F) (extra_key : Option String) (should_cache : T → Bool)
      (c : BboxCache F T C)
      → IsSound log c
      → (key : String)
      → IsSound log (get_uncached config bbox extra_key should_cache c).1
        × IsKept log key (get_uncached config bbox extra_key should_cache c).0
  unfolding get_uncached call_fetch IsKept
  get_uncached-IsSound log bbox extra_key should_cache c h key =
      option_ind (λ (r : Answer T × BboxCache F T C). IsSound log r.1 × IsKept log key r.0)
        (JsMap.get (bbox_key bbox extra_key) c.uncached_in_flight)
        (λ _. (
          record {
            single = λ e. refreshes-append e c.flights _ ∙ omega (arith, h.single e);
            unborn = λ e late. h.unborn e (omega arith);
            named = λ k e found. let (lt, under) = h.named k e found in (omega arith, under);
            aimed =
                All-append (IsAimed (c.fetches + 1) c.entries) c.flights _
                  (All-IsAimed c.fetches (c.fetches + 1) c.entries c.entries c.flights (omega arith)
                    (λ e _. refl) h.aimed)
                  (tt, tt);
            filled = h.filled;
            kept = h.kept;
          },
          tt,
        ))
        (λ number _. (h, tt))

  get-IsSound :
      (log : Log T) (now : ℕ) (bbox : Bbox F) (extra_key : Option String) (should_cache : T → Bool)
      (c : BboxCache F T C)
      → IsSound log c
      → IsSound log (get config now bbox extra_key should_cache c).1
        × IsKept log
            (bbox_key (snap_bbox bbox) extra_key)
            (get config now bbox extra_key should_cache c).0
  unfolding get
  get-IsSound log now bbox extra_key should_cache c h =
      let key = bbox_key (snap_bbox bbox) extra_key in
      if_ind (λ (r : Answer T × BboxCache F T C). IsSound log r.1 × IsKept log key r.0)
        (config.ttl_ms == 0) (λ _. get_uncached-IsSound log bbox extra_key should_cache c h key)
        (λ _.
          read-IsSound config store log now bbox (snap_bbox bbox) key extra_key should_cache
            (lru.get key c.store).0 (record c { store = (lru.get key c.store).1 })
            (λ number found. h.named key number found)
            (similar-IsSound log c _ (get-IsSimilar store key c) h))

  create-IsSound : IsSound {F = F} {T = T} {C = C} ⦃lru = lru⦄ [] (create config)
  unfolding create
  create-IsSound = record {
    single = λ e. refl;
    unborn = λ e late. refl;
    named = λ k e found. absurd (ground (arith, store.get_empty k));
    aimed = tt;
    filled = λ e ok. absurd cc;
    kept = λ e v is. absurd cc;
  }

  clear-IsSound : (log : Log T) (c : BboxCache F T C) → IsSound log c → IsSound log (clear config c)
  unfolding clear
  clear-IsSound log c h = record {
    single = h.single;
    unborn = h.unborn;
    named = λ k e found. absurd (ground (arith, store.get_empty k));
    aimed = h.aimed;
    filled = h.filled;
    kept = h.kept;
  }

  Run-IsSound : {log : Log T} {c : BboxCache F T C} → Run config log c → IsSound log c
  unfolding settle
  Run-IsSound Run.start = create-IsSound
  Run-IsSound (Run.asked run now bbox extra_key should_cache) =
      (get-IsSound _ now bbox extra_key should_cache _ (Run-IsSound run)).0
  Run-IsSound (Run.settled run now before after f fetched split) =
      finish-IsSound config store now f.purpose f.number f.key f.bbox f.should_cache fetched _
        before after _ split (Run-IsSound run)
  Run-IsSound (Run.woken run answer) = wake-IsSound config store _ answer _ (Run-IsSound run)
  Run-IsSound (Run.cleared run) = clear-IsSound _ _ (Run-IsSound run)

  -- In every run of the cache, an entry has exactly one refresh in flight while it is marked
  -- as revalidating, and none otherwise. The store is taken to hold nothing under a key but
  -- what was set there.
  pub one_refresh :
      (log : Log T) (c : BboxCache F T C)
      → Run config log c
      → (e : ℕ) → refreshes e c.flights ≡ (if (c.entries e).revalidating then 1 else 0)
  one_refresh log c run = (Run-IsSound run).single

  -- In every run of the cache, a value that a read gives at once is there, and is one that a
  -- fetch made under the key of the same tile has brought; whatever was read, settled,
  -- evicted or cleared before. The store is taken to hold nothing under a key but what was
  -- set there.
  pub get_serves_fetched :
      (log : Log T) (c : BboxCache F T C) (now : ℕ) (bbox : Bbox F) (extra_key : Option String)
      (should_cache : T → Bool) (value : Option T) (provenance : Provenance)
      → Run config log c
      → (get config now bbox extra_key should_cache c).0 ≡ Answer.served value provenance
      → (v : T) × (value ≡ some v) × Mem (bbox_key (snap_bbox bbox) extra_key, v) log
  unfolding IsKept
  get_serves_fetched log c now bbox extra_key should_cache value provenance run at =
      subst (IsKept log (bbox_key (snap_bbox bbox) extra_key)) at
        (get-IsSound log now bbox extra_key should_cache c (Run-IsSound run)).1
