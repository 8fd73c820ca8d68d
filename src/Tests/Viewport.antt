-- ===== src/Tests/Viewport.antt =====
-- Runs of the viewport cache, with a store that never evicts.
use signalk_crows_nest.Prelude.{
  ℕ, String, List, [], ◌∷◌, Option, none, some, Bool, true, false, ◌≡◌, refl, arith, if◌then◌else◌,
  eq_iff,
}
use mathlib.Core.List.{Mem}
use signalk_crows_nest.JsMap
use signalk_crows_nest.JsMap.Laws.{get-set}
use signalk_crows_nest.Types.{Bbox}
use signalk_crows_nest.Viewport.{bbox_key, snap_bbox, key_base}
use signalk_crows_nest.Viewport.Keys.{bbox_key_injective}
use signalk_crows_nest.Viewport.Cache.{
  Provenance, BboxCache, CacheConfig, Fetched, Flight, Purpose, create, get, settle,
}
use signalk_crows_nest.Viewport.Runs.{IsStore, Log, Run, refreshes}
use signalk_crows_nest.Viewport.Served.{one_refresh, get_serves_fetched}
use signalk_crows_nest.Tests.Runtime.{natural, keep_all}

keep_all-IsStore : IsStore (keep_all {V = ℕ})
unfolding JsMap.get
keep_all-IsStore = record {
  get_empty = λ k. refl;
  get_set = λ k j v e c found. ground (arith, get-set j k v c, eq_iff j k);
  get_get = λ k j e c found. found;
}

abbrev cache_config : CacheConfig
cache_config = record { ttl_ms = 30000; prefetch_enabled = false }

abbrev harbor : Bbox ℕ
harbor = record { north = 2; south = 1; east = 2; west = 1 }

abbrev Cached : Type 0
Cached = BboxCache ℕ ℕ (List (String × ℕ))

abbrev always : ℕ → Bool
always value = true

abbrev empty_cache : Cached
empty_cache = create cache_config

abbrev cold : Cached
cold = (get cache_config 1000 harbor none always empty_cache).1

abbrev first_flight : Flight ℕ ℕ
first_flight = record {
  number = 0;
  purpose = Purpose.into false;
  key = bbox_key (snap_bbox harbor) none;
  bbox = snap_bbox harbor;
  should_cache = always;
}

abbrev warm_cache : Cached
warm_cache = settle cache_config 2000 first_flight [] (Fetched.resolved 7) cold

-- The tile is stale at this time: the read serves the old value and starts a refresh.
abbrev refreshing : Cached
refreshing = (get cache_config 90000 harbor none always warm_cache).1

warm_log : Log ℕ
warm_log = (bbox_key (snap_bbox harbor) none, 7) ∷ []

cold_run : Run cache_config [] cold
cold_run = Run.asked Run.start 1000 harbor none always

warm_run : Run cache_config warm_log warm_cache
unfolding get create warm_log JsMap.get
warm_run = Run.settled cold_run 2000 [] [] first_flight (Fetched.resolved 7) refl

one_refresh_example :
    refreshes 0 refreshing.flights ≡ (if (refreshing.entries 0).revalidating then 1 else 0)
one_refresh_example =
    one_refresh cache_config keep_all-IsStore warm_log refreshing
      (Run.asked warm_run 90000 harbor none always) 0

refreshing_once : refreshes 0 refreshing.flights ≡ 1
unfolding get create settle key_base JsMap.set JsMap.get
refreshing_once = refl

get_serves_fetched_example :
    (v : ℕ) × (some 7 ≡ some v) × Mem (bbox_key (snap_bbox harbor) none, v) warm_log
unfolding get create settle key_base JsMap.set JsMap.get
get_serves_fetched_example =
    get_serves_fetched cache_config keep_all-IsStore warm_log warm_cache 90000 harbor none always
      (some 7) Provenance.local warm_run refl

bbox_key_injective_example :
    (key_base harbor ≡ key_base harbor)
    × (◌≡◌ {A = Option String} (some "Marina|Hazard") (some "Marina|Hazard"))
unfolding key_base
bbox_key_injective_example =
    bbox_key_injective harbor harbor (some "Marina|Hazard") (some "Marina|Hazard") refl refl refl
