-- ===== src/Bridge/Resolver.antt =====
-- src/outputs/bridge-air-draft/bridge-clearance-resolver.ts: the clearance of a bridge, fetched in
-- the background. A detail fetch starts in one step and settles in a later one; the steps between
-- are the caller's.
use signalk_crows_nest.Prelude.{
  ℕ, ◌+◌, String, str_eq, List, [], ◌∷◌, ◌++◌, Option, none, some, Bool, true, false, not, ◌&&◌,
  ◌||◌, if◌then◌else◌, ltb, keep_if, length, ◌==◌,
}
use signalk_crows_nest.JsMap
use signalk_crows_nest.Floats.{Floats}
use signalk_crows_nest.Types.{Wire, PoiSummary, PoiType, active_captain_source_id, ms_per_minute}
use signalk_crows_nest.Numbers.{to_finite_number}
use signalk_crows_nest.Notification.{◌⧺◌}

-- The `lru-cache` package, as the code calls it: a store `C` of values `V` by id. A read may change
-- the order in which the store evicts.
pub record Lru (C V : Type 0) : Type 0 where
  pub empty : C
  pub get : String → C → Option V × C
  pub peek : String → C → Option V
  pub set : String → V → C → C
  pub delete : String → C → C

abbrev pub failed_fetch_retry_ms : ℕ
failed_fetch_retry_ms = ms_per_minute

pub record CachedClearance (F : Type 0) : Type 0 where
  pub clearance : Option F
  pub resolved_at : ℕ

-- A fetch whose `Promise.race` has not settled: when it began, and the number of its timer.
pub record Race : Type 0 where
  pub started_at : ℕ
  pub timer : ℕ

-- `started` lists the calls of `getDetails` with the time of each, the first one first. `races` holds
-- the fetches that have not settled, by id: the close leaves them under way and drops their timers. A
-- detail that comes after its race has timed out changes nothing, and is no race any more.
pub record Resolver (F C D : Type 0) : Type 0 where
  pub cache : C
  pub failed_fetch_started_at : D
  pub in_flight : List String
  pub timers : List ℕ
  pub races : List (String × Race)
  pub started : List (String × ℕ)
  pub log : List String
  pub closed : Bool

-- How a fetch ends: with the detail's clearance, or with an error (a rejection or the timeout).
pub data Outcome (F : Type 0) : Type 0 where
  resolved : Wire F → Outcome F
  rejected : String → Outcome F

-- `Set.delete`.
abbrev pub remove_id : String → List String → List String
remove_id id = keep_if (λ j. not (str_eq j id))

abbrev pub remove_timer : ℕ → List ℕ → List ℕ
remove_timer timer = keep_if (λ k. not (k == timer))

unfoldable pub is_bridge : PoiType → Bool
is_bridge PoiType.bridge = true
is_bridge _ = false

-- `now() - resolvedAt < ttlMs`.
abbrev pub is_fresh : {F : Type 0} → ℕ → ℕ → Option (CachedClearance F) → Bool
is_fresh ttl_ms now none = false
is_fresh ttl_ms now (some c) = ltb now (c.resolved_at + ttl_ms)

abbrev pub is_cooling_off : ℕ → Option ℕ → Bool
is_cooling_off now none = false
is_cooling_off now (some failed_at) = ltb now (failed_at + failed_fetch_retry_ms)

module _ {F C D : Type 0} ⦃n : Floats F⦄ ⦃lru : Lru C (CachedClearance F)⦄ ⦃stamps : Lru D ℕ⦄ where
  unfoldable pub create : Resolver F C D
  create = record {
    cache = lru.empty;
    failed_fetch_started_at = stamps.empty;
    in_flight = [];
    timers = [];
    races = [];
    started = [];
    log = [];
    closed = false;
  }

  unfoldable pub start_fetch : ℕ → String → Resolver F C D → Resolver F C D
  start_fetch now id r = record r {
    in_flight = JsMap.add id r.in_flight;
    timers = r.timers ++ length r.started ∷ [];
    races = r.races ++ (id, record { started_at = now; timer = length r.started }) ∷ [];
    started = r.started ++ (id, now) ∷ [];
  }

  -- The handlers of a race, run when it settles.
  unfoldable pub settle : ℕ → String → Race → Outcome F → Resolver F C D → Resolver F C D
  unfolding to_finite_number JsMap.delete
  settle now id race (Outcome.resolved clearance) r =
      let r' = if r.closed then r else record r {
        cache =
            lru.set id (record { clearance = to_finite_number clearance; resolved_at = now })
              r.cache;
        failed_fetch_started_at = stamps.delete id r.failed_fetch_started_at;
      } in
      record r' {
        timers = remove_timer race.timer r'.timers;
        races = JsMap.delete id r'.races;
        in_flight = remove_id id r'.in_flight;
      }
  settle now id race (Outcome.rejected error) r = record r {
    failed_fetch_started_at = stamps.set id race.started_at r.failed_fetch_started_at;
    log = r.log ++ ("Bridge clearance fetch failed for " ⧺ id ⧺ ": " ⧺ error) ∷ [];
    timers = remove_timer race.timer r.timers;
    races = JsMap.delete id r.races;
    in_flight = remove_id id r.in_flight;
  }

  unfoldable pub close : Resolver F C D → Resolver F C D
  close r = record r {
    closed = true;
    timers = [];
    in_flight = [];
    cache = lru.empty;
    failed_fetch_started_at = stamps.empty;
  }

  -- The lookup of an ActiveCaptain bridge, which may start a fetch.
  unfoldable pub look_up : ℕ → ℕ → String → Resolver F C D → Option F × Resolver F C D
  unfolding start_fetch
  look_up ttl_ms now id r =
      let (cached, cache) = lru.get id r.cache in
      let (last_failed_at, stamps') = stamps.get id r.failed_fetch_started_at in
      let r' = record r { cache = cache; failed_fetch_started_at = stamps' } in
      let r'' =
        if not r.closed
          && not (is_fresh ttl_ms now cached)
          && not (is_cooling_off now last_failed_at)
          && not (JsMap.member id r.in_flight)
        then start_fetch now id r'
        else r' in
      (elim cached [ none ↦ none | some c ↦ c.clearance ], r'')

  unfoldable pub clearance_meters :
      ℕ → ℕ → PoiSummary F → Resolver F C D → Option F × Resolver F C D
  unfolding look_up is_bridge to_finite_number
  clearance_meters ttl_ms now poi r =
      elim (to_finite_number
        (elim poi.vertical_clearance_meters [ none ↦ Wire.undefined | some x ↦ Wire.number x ])) [
          | some on_summary ↦ (some on_summary, r)
          | none ↦
              if not (str_eq poi.source active_captain_source_id) || not (is_bridge poi.type)
              then (none, r)
              else look_up ttl_ms now poi.id r
        ]
