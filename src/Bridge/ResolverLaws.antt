-- ===== src/Bridge/ResolverLaws.antt =====
-- Runs of the resolver: any order of lookups, of settling fetches and of the close.
use signalk_crows_nest.Prelude.{ℕ, String, List, some, true, arith, ◌≡◌, refl}
use signalk_crows_nest.JsMap
use signalk_crows_nest.Floats.{Floats}
use signalk_crows_nest.Types.{PoiSummary}
use signalk_crows_nest.Bridge.Resolver.{
  Lru, CachedClearance, Race, Resolver, Outcome, settle, close, clearance_meters,
}

module _ {F C D : Type 0} ⦃n : Floats F⦄ ⦃lru : Lru C (CachedClearance F)⦄ ⦃stamps : Lru D ℕ⦄ where
  -- One step of the resolver: a lookup at a time, the settling of a fetch, the close.
  pub data Step (ttl_ms : ℕ) : Resolver F C D → Resolver F C D → Type 0 where
    asked :
        (r : Resolver F C D) (now : ℕ) (poi : PoiSummary F)
        → Step ttl_ms r (clearance_meters ttl_ms now poi r).1
    settled :
        (r : Resolver F C D) (now : ℕ) (id : String) (race : Race) (o : Outcome F)
        → JsMap.get id r.races ≡ some race
        → Step ttl_ms r (settle now id race o r)
    closed_down : (r : Resolver F C D) → Step ttl_ms r (close r)

  pub data Run (ttl_ms : ℕ) (r : Resolver F C D) : Resolver F C D → Type 0 where
    start : Run ttl_ms r r
    next : {s t : Resolver F C D} → Run ttl_ms r s → Step ttl_ms s t → Run ttl_ms r t

  -- A closed resolver stays closed and starts nothing.
  pub record IsShut (started : List (String × ℕ)) (r : Resolver F C D) : Type 0 where
    pub closed : r.closed ≡ true
    pub quiet : r.started ≡ started

  clearance_meters-IsShut :
      (ttl_ms now : ℕ) (poi : PoiSummary F) {l : List (String × ℕ)} (r : Resolver F C D)
      → IsShut l r
      → IsShut l (clearance_meters ttl_ms now poi r).1
  unfolding clearance_meters
  clearance_meters-IsShut ttl_ms now poi r h = ground arith

  settle-IsShut :
      (now : ℕ) (id : String) (race : Race) (o : Outcome F) {l : List (String × ℕ)}
      (r : Resolver F C D)
      → IsShut l r
      → IsShut l (settle now id race o r)
  unfolding settle
  settle-IsShut now id race (Outcome.resolved c) r h = ground arith
  settle-IsShut now id race (Outcome.rejected e) r h = ground arith

  Step-IsShut :
      {ttl_ms : ℕ} {l : List (String × ℕ)} {r s : Resolver F C D}
      → Step ttl_ms r s
      → IsShut l r
      → IsShut l s
  unfolding close
  Step-IsShut (asked r now poi) h = clearance_meters-IsShut _ now poi r h
  Step-IsShut (settled r now id race o at) h = settle-IsShut now id race o r h
  Step-IsShut (closed_down r) h = record { closed = refl; quiet = h.quiet }

  Run-IsShut :
      {ttl_ms : ℕ} {l : List (String × ℕ)} {r s : Resolver F C D}
      → Run ttl_ms r s
      → IsShut l r
      → IsShut l s
  Run-IsShut start h = h
  Run-IsShut (next run step) h = Step-IsShut step (Run-IsShut run h)

  -- In every run after a close the resolver stays closed, and no fetch starts beyond those
  -- that had started, whatever is asked and whatever settles.
  pub close_stops :
      (ttl_ms : ℕ) (r s : Resolver F C D)
      → Run ttl_ms (close r) s
      → (s.closed ≡ true) × (s.started ≡ r.started)
  unfolding close
  close_stops ttl_ms r s run =
      let h = Run-IsShut run (record { closed = refl; quiet = refl }) in (h.closed, h.quiet)
