-- ===== src/Viewport/Reading.antt =====
-- The reads of the cache keep `IsSound`.
use signalk_crows_nest.Prelude.{
  ℕ, ◌<◌, ◌≤◌, String, List, [], ◌∷◌, Option, none, some, Bool, true, false, not, ◌&&◌,
  if◌then◌else◌, arith, ◌≡◌, refl, ap, ◌∙◌, ◌==◌, if_ind, option_ind, subst, is_some, ltb,
}
use mathlib.Core.List.{Mem}
use signalk_crows_nest.JsMap
use signalk_crows_nest.Floats.{Floats}
use signalk_crows_nest.Types.{Bbox}
use signalk_crows_nest.Bridge.Resolver.{Lru}
use signalk_crows_nest.Viewport.{bbox_key, prefetch_tiles}
use signalk_crows_nest.Viewport.Cache.{
  GeoEntry, Answer, Provenance, BboxCache, CacheConfig, call_fetch, fetch_into, warm,
  prefetch_neighbors, serve, read, wake, in_failure_cool_down, is_pending, is_fulfilled, new_entry,
}
use signalk_crows_nest.Viewport.Runs.{
  IsStore, Log, IsSound, similar-IsSound, touch-IsSimilar, write_below,
}
use signalk_crows_nest.Viewport.Sound.{fetch_into-IsSound, revalidate-IsSound}
use signalk_crows_nest.Viewport.Finish.{same_fields}

-- A value that is given at once is one that a fetch of the tile has brought.
unfoldable pub IsKept : {T : Type 0} → Log T → String → Answer T → Type 0
IsKept {T} log key (Answer.served value provenance) = (v : T) × (value ≡ some v) × Mem (key, v) log
IsKept log key _ = Unit

module _ {F T C : Type 0} ⦃n : Floats F⦄ ⦃lru : Lru C ℕ⦄ (config : CacheConfig)
    (store : IsStore lru) where
  pub wake-IsSound :
      (log : Log T) (answer : Answer T) (c : BboxCache F T C)
      → IsSound log c
      → IsSound log (wake config answer c)
  unfolding wake
  wake-IsSound log (Answer.served value provenance) c h = h
  wake-IsSound log (Answer.waits number shared) c h =
      if_ind (IsSound log) (not (is_fulfilled (c.promises number) && shared)) (λ _. h)
        λ _.
          similar-IsSound log c _
            (touch-IsSimilar number (record (c.entries number) { fresh_result_pending = false }) c
              refl)
            h
  wake-IsSound log (Answer.waits_uncached key number) c h =
      if_ind (IsSound log) (is_pending (c.promises number)) (λ _. h)
        λ _.
          option_ind (IsSound log) (JsMap.get key c.uncached_in_flight) (λ _. h)
            λ current _.
              if_ind (IsSound log) (current == number)
                (λ _. same_fields config store log _ _ refl refl refl refl h) (λ _. h)

  -- Warming the neighbors keeps the entries that are there.
  record IsWarmed (c d : BboxCache F T C) : Type 0 where
    pub grown : c.fetches ≤ d.fetches
    pub untouched : (e : ℕ) → e < c.fetches → d.entries e ≡ c.entries e

  fetch_into-IsWarmed :
      (background : Bool) (key : String) (bbox : Bbox F) (should_cache : T → Bool)
      (c : BboxCache F T C)
      → IsWarmed c (fetch_into config background key bbox should_cache c)
  unfolding fetch_into call_fetch
  fetch_into-IsWarmed background key bbox should_cache c = record {
    grown = omega arith;
    untouched = λ e lt. write_below c.fetches e (new_entry config.ttl_ms key) c.entries lt;
  }

  warm-IsSound :
      (log : Log T) (tiles : List (Bbox F)) (extra_key : Option String) (should_cache : T → Bool)
      (c : BboxCache F T C)
      → IsSound log c
      → IsSound log (warm config tiles extra_key should_cache c)
        × IsWarmed c (warm config tiles extra_key should_cache c)
  unfolding warm
  warm-IsSound log [] extra_key should_cache c h =
      (h, record { grown = omega arith; untouched = λ e lt. refl })
  warm-IsSound log (tile ∷ tiles) extra_key should_cache c h =
      let key = bbox_key tile extra_key in
      let (h', w) =
        if_ind (λ d. IsSound log d × IsWarmed c d) (is_some (lru.peek key c.store))
          (λ _. (h, record { grown = omega arith; untouched = λ e lt. refl }))
          (λ _. (
            fetch_into-IsSound config store log true key tile should_cache c h,
            fetch_into-IsWarmed true key tile should_cache c,
          )) in
      let (h'', w') = warm-IsSound log tiles extra_key should_cache _ h' in
      (
        h'',
        record {
          grown = omega (arith, w.grown, w'.grown);
          untouched = λ e lt. w'.untouched e (omega (arith, w.grown)) ∙ w.untouched e lt;
        },
      )

  serve-IsSound :
      (log : Log T) (now : ℕ) (key : String) (tile : Bbox F) (should_cache : T → Bool) (number : ℕ)
      (c : BboxCache F T C)
      → number < c.fetches
      → (c.entries number).key ≡ key
      → (c.entries number).ok ≡ true
      → IsSound log c
      → IsSound log (serve config now key tile should_cache number c).1
        × IsKept log key (serve config now key tile should_cache number c).0
  unfolding serve IsKept
  serve-IsSound log now key tile should_cache number c lt named ok h =
      let (v, is) = h.filled number ok in
      let kept : IsKept log key (Answer.served (c.entries number).value Provenance.local) =
        (v, is, subst (λ k. Mem (k, v) log) named (h.kept number v is)) in
      let fine : Answer T × BboxCache F T C → Type 0 = λ r. IsSound log r.1 × IsKept log key r.0 in
      if_ind fine (ltb now (c.entries number).fresh_until)
        (λ _. (
          similar-IsSound log c _
              (touch-IsSimilar number (record (c.entries number) { fresh_result_pending = false }) c
                refl)
              h,
          kept,
        ))
        (λ _. (
          if_ind (IsSound log)
              (not (c.entries number).revalidating
                && not (in_failure_cool_down now (c.entries number)))
              (λ due.
                revalidate-IsSound config store log key tile should_cache number c lt named
                  (ground arith) h)
              (λ _. h),
          kept,
        ))

  pub read-IsSound :
      (log : Log T) (now : ℕ) (bbox tile : Bbox F) (key : String) (extra_key : Option String)
      (should_cache : T → Bool) (found : Option ℕ) (c : BboxCache F T C)
      → ((number : ℕ) → found ≡ some number → (number < c.fetches) × ((c.entries number).key ≡ key))
      → IsSound log c
      → IsSound log (read config now bbox tile key extra_key should_cache found c).1
        × IsKept log key (read config now bbox tile key extra_key should_cache found c).0
  unfolding read prefetch_neighbors IsKept
  read-IsSound log now bbox tile key extra_key should_cache none c at h =
      (fetch_into-IsSound config store log false key tile should_cache c h, tt)
  read-IsSound log now bbox tile key extra_key should_cache (some number) c at h =
      let (lt, named) = at number refl in
      let fine : Answer T × BboxCache F T C → Type 0 = λ r. IsSound log r.1 × IsKept log key r.0 in
      let e = c.entries number in
      if_ind fine (not e.ok)
        (λ _.
          if_ind fine (not (e.failed_at == 0) && not (in_failure_cool_down now e))
            (λ _. (fetch_into-IsSound config store log false key tile should_cache c h, tt))
            (λ _. (h, tt)))
        (λ ok.
          let warmed = warm config (prefetch_tiles bbox tile) extra_key should_cache c in
          let (h', w) : IsSound log (if config.prefetch_enabled then warmed else c)
              × IsWarmed c (if config.prefetch_enabled then warmed else c) =
            if_ind (λ d. IsSound log d × IsWarmed c d) config.prefetch_enabled
              (λ _. warm-IsSound log (prefetch_tiles bbox tile) extra_key should_cache c h)
              (λ _. (h, record { grown = omega arith; untouched = λ e lt. refl })) in
          let same = w.untouched number lt in
          serve-IsSound log now key tile should_cache number _ (omega (arith, w.grown))
            (ap (λ (b : GeoEntry T). b.key) same ∙ named)
            (ap (λ (b : GeoEntry T). b.ok) same ∙ ground arith) h')
