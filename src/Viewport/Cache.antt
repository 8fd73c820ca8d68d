-- ===== src/Viewport/Cache.antt =====
-- src/shared/bbox-debounce.ts: the stale-while-revalidate cache. A fetch starts in one step and
-- settles in a later one, and a caller that waits for it goes on in a step of its own. Entries are
-- objects with an identity, the number of the fetch that made them.
use signalk_crows_nest.Prelude.{
  ℕ, ◌+◌, String, List, [], ◌∷◌, ◌++◌, Option, none, some, Bool, true, false, ◌&&◌, not,
  if◌then◌else◌, ltb, leb, ◌==◌, is_some,
}
use signalk_crows_nest.JsMap
use signalk_crows_nest.Floats.{Floats}
use signalk_crows_nest.Types.{Bbox, ms_per_minute}
use signalk_crows_nest.Bridge.Resolver.{Lru}
use signalk_crows_nest.Viewport.{bbox_key, snap_bbox, prefetch_tiles}

abbrev pub fetch_failure_cooldown_ms : ℕ
fetch_failure_cooldown_ms = ms_per_minute

abbrev pub degraded_result_ttl_ms : ℕ
degraded_result_ttl_ms = ms_per_minute

-- `GeoEntry`, less its promise, with the key that its fetch closes over. `fresh_until` is
-- `freshAt + ttlMs`, which is never negative. `failed_at` is 0 when no fetch has failed.
pub record GeoEntry (T : Type 0) : Type 0 where
  pub key : String
  pub value : Option T
  pub fresh_until : ℕ
  pub ok : Bool
  pub revalidating : Bool
  pub fresh_result_pending : Bool
  pub failed_at : ℕ

pub data Promise (T : Type 0) : Type 0 where
  pending : Promise T
  fulfilled : T → Promise T
  broken : String → Promise T

abbrev pub is_pending : {T : Type 0} → Promise T → Bool
is_pending Promise.pending = true
is_pending _ = false

abbrev pub is_fulfilled : {T : Type 0} → Promise T → Bool
is_fulfilled (Promise.fulfilled value) = true
is_fulfilled _ = false

-- What a fetch is for: a new entry, the refresh of an entry, or a read without a cache.
pub data Purpose : Type 0 where
  into : (background : Bool) → Purpose
  refresh : (entry : ℕ) → Purpose
  uncached : Purpose

-- A call of `fetch`, by its number, with the predicate `shouldCache` of the read that made it (always
-- true where the caller gives none).
pub record Flight (F T : Type 0) : Type 0 where
  pub number : ℕ
  pub purpose : Purpose
  pub key : String
  pub bbox : Bbox F
  pub should_cache : T → Bool

pub data Provenance : Type 0 where
  fresh local : Provenance

-- What a read gives at once, or the promise that it waits for; `shared` if it found the entry.
pub data Answer (T : Type 0) : Type 0 where
  served : Option T → Provenance → Answer T
  waits : (number : ℕ) (shared : Bool) → Answer T
  waits_uncached : (key : String) (number : ℕ) → Answer T

-- The store; the entries and the promises by number, the number of fetches made; the fetches that
-- have not settled; and the errors reported by `onRevalidationError`.
pub record BboxCache (F T C : Type 0) : Type 0 where
  pub store : C
  pub entries : ℕ → GeoEntry T
  pub promises : ℕ → Promise T
  pub uncached_in_flight : List (String × ℕ)
  pub fetches : ℕ
  pub flights : List (Flight F T)
  pub errors : List String

pub record CacheConfig : Type 0 where
  pub ttl_ms : ℕ
  pub prefetch_enabled : Bool

abbrev pub write : {A : Type 0} → ℕ → A → (ℕ → A) → ℕ → A
write k a f j = if j == k then a else f j

abbrev pub new_entry : {T : Type 0} → ℕ → String → GeoEntry T
new_entry ttl_ms key = record {
  key = key;
  value = none;
  fresh_until = ttl_ms;
  ok = false;
  revalidating = false;
  fresh_result_pending = false;
  failed_at = 0;
}

unfoldable pub in_failure_cool_down : {T : Type 0} → ℕ → GeoEntry T → Bool
in_failure_cool_down now entry =
    not (entry.failed_at == 0) && ltb now (entry.failed_at + fetch_failure_cooldown_ms)

-- How a fetch settles.
pub data Fetched (T : Type 0) : Type 0 where
  resolved : T → Fetched T
  rejected : String → Fetched T

unfoldable pub degraded_ttl_ms : CacheConfig → ℕ
degraded_ttl_ms config =
    if leb config.ttl_ms degraded_result_ttl_ms then config.ttl_ms else degraded_result_ttl_ms

unfoldable pub stamp_resolved : {T : Type 0} → CacheConfig → ℕ → T → Bool → GeoEntry T → GeoEntry T
unfolding degraded_ttl_ms
stamp_resolved config now value degraded entry = record entry {
  value = some value;
  fresh_until = now + (if degraded then degraded_ttl_ms config else config.ttl_ms);
  failed_at = 0;
}

module _ {F T C : Type 0} ⦃n : Floats F⦄ ⦃lru : Lru C ℕ⦄ (config : CacheConfig) where
  unfoldable pub create : BboxCache F T C
  create = record {
    store = lru.empty;
    entries = λ k. new_entry config.ttl_ms "";
    promises = λ k. Promise.pending;
    uncached_in_flight = [];
    fetches = 0;
    flights = [];
    errors = [];
  }

  unfoldable pub call_fetch :
      Purpose → String → Bbox F → (T → Bool) → BboxCache F T C → BboxCache F T C
  call_fetch purpose key bbox should_cache c = record c {
    fetches = c.fetches + 1;
    promises = write c.fetches Promise.pending c.promises;
    flights =
        c.flights
        ++ (record {
          number = c.fetches;
          purpose = purpose;
          key = key;
          bbox = bbox;
          should_cache = should_cache;
        })
          ∷ [];
  }

  unfoldable pub fetch_into :
      Bool → String → Bbox F → (T → Bool) → BboxCache F T C → BboxCache F T C
  unfolding call_fetch
  fetch_into background key bbox should_cache c =
      let c' = call_fetch (Purpose.into background) key bbox should_cache c in
      record c' {
        entries = write c.fetches (new_entry config.ttl_ms key) c.entries;
        store = lru.set key c.fetches c.store;
      }

  unfoldable pub revalidate : String → Bbox F → (T → Bool) → ℕ → BboxCache F T C → BboxCache F T C
  unfolding call_fetch
  revalidate key bbox should_cache entry c =
      call_fetch (Purpose.refresh entry) key bbox should_cache (record c {
        entries = write entry (record (c.entries entry) { revalidating = true }) c.entries;
      })

  -- The loop over the neighbor tiles.
  unfoldable pub warm :
      List (Bbox F) → Option String → (T → Bool) → BboxCache F T C → BboxCache F T C
  unfolding fetch_into bbox_key
  warm [] extra_key should_cache c = c
  warm (tile ∷ tiles) extra_key should_cache c =
      let key = bbox_key tile extra_key in
      warm tiles extra_key should_cache
        (if is_some (lru.peek key c.store) then c else fetch_into true key tile should_cache c)

  unfoldable pub prefetch_neighbors :
      Bbox F → Bbox F → Option String → (T → Bool) → BboxCache F T C → BboxCache F T C
  unfolding warm prefetch_tiles
  prefetch_neighbors bbox tile extra_key should_cache =
      warm (prefetch_tiles bbox tile) extra_key should_cache

  -- The read of an entry that has a value.
  unfoldable pub serve :
      ℕ → String → Bbox F → (T → Bool) → ℕ → BboxCache F T C → Answer T × BboxCache F T C
  unfolding revalidate in_failure_cool_down
  serve now key tile should_cache number c =
      let entry = c.entries number in
      if ltb now entry.fresh_until
      then (
        Answer.served entry.value
            (if entry.fresh_result_pending then Provenance.fresh else Provenance.local),
        record c {
          entries = write number (record entry { fresh_result_pending = false }) c.entries;
        },
      )
      else (
        Answer.served entry.value Provenance.local,
        if not entry.revalidating && not (in_failure_cool_down now entry)
            then revalidate key tile should_cache number c
            else c,
      )

  -- The read of a tile whose entry is `found`.
  unfoldable pub read :
      ℕ
      → Bbox F
      → Bbox F
      → String
      → Option String
      → (T → Bool)
      → Option ℕ
      → BboxCache F T C
      → Answer T × BboxCache F T C
  unfolding fetch_into prefetch_neighbors serve in_failure_cool_down
  read now bbox tile key extra_key should_cache none c =
      (Answer.waits c.fetches false, fetch_into false key tile should_cache c)
  read now bbox tile key extra_key should_cache (some number) c =
      let entry = c.entries number in
      if not entry.ok
      then if not (entry.failed_at == 0) && not (in_failure_cool_down now entry)
        then (Answer.waits c.fetches false, fetch_into false key tile should_cache c)
        else (Answer.waits number true, c)
      else serve now key tile should_cache number (
          if config.prefetch_enabled
          then prefetch_neighbors bbox tile extra_key should_cache c
          else c)

  unfoldable pub get_uncached :
      Bbox F → Option String → (T → Bool) → BboxCache F T C → Answer T × BboxCache F T C
  unfolding call_fetch bbox_key
  get_uncached bbox extra_key should_cache c =
      let key = bbox_key bbox extra_key in
      elim (JsMap.get key c.uncached_in_flight) [
        | some number ↦ (Answer.waits_uncached key number, c)
        | none ↦ (
          Answer.waits_uncached key c.fetches,
          record (call_fetch Purpose.uncached key bbox should_cache c) {
            uncached_in_flight = JsMap.set key c.fetches c.uncached_in_flight;
          },
        )
      ]

  unfoldable pub get :
      ℕ → Bbox F → Option String → (T → Bool) → BboxCache F T C → Answer T × BboxCache F T C
  unfolding get_uncached read snap_bbox bbox_key
  get now bbox extra_key should_cache c =
      let tile = snap_bbox bbox in
      let key = bbox_key tile extra_key in
      if config.ttl_ms == 0
      then get_uncached bbox extra_key should_cache c
      else read now bbox tile key extra_key should_cache (lru.get key c.store).0
          (record c { store = (lru.get key c.store).1 })

  -- `cache?.get(key) === entry`
  abbrev pub holds : String → ℕ → BboxCache F T C → Bool
  holds key entry c = elim (lru.get key c.store).0 [ none ↦ false | some k ↦ k == entry ]

  abbrev pub stop_revalidating : ℕ → BboxCache F T C → BboxCache F T C
  stop_revalidating number c = record c {
    entries = write number (record (c.entries number) { revalidating = false }) c.entries;
  }

  -- The handlers of a fetch, run when it settles.
  unfoldable pub finish :
      ℕ → Purpose → ℕ → String → (T → Bool) → Fetched T → BboxCache F T C → BboxCache F T C
  unfolding stamp_resolved
  finish now (Purpose.into background) number key should_cache (Fetched.resolved value) c =
      record c {
        entries =
            write number
              (record (stamp_resolved config now value (not (should_cache value))
                (c.entries number)) { ok = true; fresh_result_pending = background })
              c.entries;
        promises = write number (Promise.fulfilled value) c.promises;
      }
  finish now (Purpose.into background) number key should_cache (Fetched.rejected error) c =
      record c {
        entries = write number (record (c.entries number) { failed_at = now }) c.entries;
        promises = write number (Promise.broken error) c.promises;
      }
  finish now (Purpose.refresh entry) number key should_cache (Fetched.resolved value) c =
      let c' = record c { store = (lru.get key c.store).1 } in
      stop_revalidating entry (
        if holds key entry c
        then record c' {
          entries =
              write entry
                (record (stamp_resolved config now value (not (should_cache value))
                  (c.entries entry)) { fresh_result_pending = true })
                c.entries;
        }
        else c')
  finish now (Purpose.refresh entry) number key should_cache (Fetched.rejected error) c =
      let c' = record c { store = (lru.get key c.store).1 } in
      stop_revalidating entry (
        if holds key entry c
        then record c' {
          entries = write entry (record (c.entries entry) { failed_at = now }) c.entries;
          errors = c.errors ++ error ∷ [];
        }
        else c')
  finish now Purpose.uncached number key should_cache (Fetched.resolved value) c = record c {
    promises = write number (Promise.fulfilled value) c.promises;
  }
  finish now Purpose.uncached number key should_cache (Fetched.rejected error) c = record c {
    promises = write number (Promise.broken error) c.promises;
  }

  -- A fetch settles; `rest` are the others that have not.
  unfoldable pub settle :
      ℕ → Flight F T → List (Flight F T) → Fetched T → BboxCache F T C → BboxCache F T C
  unfolding finish
  settle now flight rest fetched c =
      finish now flight.purpose flight.number flight.key flight.should_cache fetched
        (record c { flights = rest })

  -- A caller goes on after the promise that it waited for. A broken promise skips the reset.
  unfoldable pub wake : Answer T → BboxCache F T C → BboxCache F T C
  wake (Answer.served value provenance) c = c
  wake (Answer.waits number shared) c =
      if not (is_fulfilled (c.promises number) && shared) then c else record c {
        entries =
            write number (record (c.entries number) { fresh_result_pending = false }) c.entries;
      }
  wake (Answer.waits_uncached key number) c =
      if is_pending (c.promises number) then c else elim (JsMap.get key c.uncached_in_flight) [
        | none ↦ c
        | some current ↦
            if current == number
            then record c { uncached_in_flight = JsMap.delete key c.uncached_in_flight }
            else c
      ]

  unfoldable pub clear : BboxCache F T C → BboxCache F T C
  clear c = record c { store = lru.empty; uncached_in_flight = [] }
