-- ===== src/Bridge/SingleFlight.antt =====
-- One fetch of a bridge at a time.
use signalk_crows_nest.Prelude.{
  ℕ, String, str_eq, eq_iff, List, [], ◌∷◌, ◌++◌, Bool, true, false, not, ◌&&◌, arith, ◌≡◌, refl,
  Bool-cases, inl, inr, ◌∙◌, ap, sym, length, is_empty,
}
use signalk_crows_nest.JsMap
use signalk_crows_nest.JsMap.Laws.{IsDistinct, member-add, get-delete, delete-IsDistinct}
use signalk_crows_nest.JsMap.Positions.{has-append_last}
use signalk_crows_nest.Floats.{Floats}
use signalk_crows_nest.Types.{PoiSummary}
use signalk_crows_nest.Bridge.Resolver.{
  Lru, CachedClearance, Race, Resolver, Outcome, create, start_fetch, settle, close, look_up,
  clearance_meters, remove_id, remove_timer, is_fresh, is_cooling_off,
}
use signalk_crows_nest.Bridge.ResolverLaws.{Step, Run}

pub member-remove :
    (id j : String) (l : List String)
    → JsMap.member j (remove_id id l) ≡ (JsMap.member j l && not (str_eq id j))
unfolding JsMap.member
member-remove id j [] = refl
member-remove id j (k ∷ l) =
    ground (arith, eq_iff k j, eq_iff k id, eq_iff id j, member-remove id j l)

append-IsDistinct :
    {V : Type 0} (id : String) (v : V) (m : List (String × V))
    → JsMap.has id m ≡ false
    → IsDistinct m
    → IsDistinct (m ++ (id, v) ∷ [])
unfolding JsMap.get
append-IsDistinct id v [] h d = (refl, tt)
append-IsDistinct id v ((k, w) ∷ m) h d =
    ground (arith, eq_iff k id, eq_iff id k, has-append_last k id v m, append-IsDistinct id v m)

has-delete :
    (id j : String) (m : List (String × Race))
    → IsDistinct m
    → JsMap.has j (JsMap.delete id m) ≡ (JsMap.has j m && not (str_eq id j))
has-delete id j m d = ground (arith, get-delete id j m d)

module _ {F C D : Type 0} ⦃n : Floats F⦄ ⦃lru : Lru C (CachedClearance F)⦄ ⦃stamps : Lru D ℕ⦄ where
  -- No two unsettled fetches are of one bridge. Before the close the set in flight names them; after
  -- it, the set and the timers are empty.
  pub record IsSingle (r : Resolver F C D) : Type 0 where
    pub distinct : IsDistinct r.races
    pub named : r.closed ≡ false → (j : String) → JsMap.member j r.in_flight ≡ JsMap.has j r.races
    pub shut : r.closed ≡ true → (r.in_flight ≡ []) × (r.timers ≡ [])

  start_fetch-IsSingle :
      (now : ℕ) (id : String) (r : Resolver F C D)
      → r.closed ≡ false
      → JsMap.member id r.in_flight ≡ false
      → IsSingle r
      → IsSingle (start_fetch now id r)
  unfolding start_fetch
  start_fetch-IsSingle now id r running idle h =
      let race : Race = record { started_at = now; timer = length r.started } in
      record {
        distinct =
            append-IsDistinct id race r.races (ground (arith, h.named running id)) h.distinct;
        named = λ e j.
            ground
              (arith, member-add id j r.in_flight, h.named e j, has-append_last j id race r.races);
        shut = λ e. absurd (ground (arith, running));
      }

  settle_tables :
      (now : ℕ) (id : String) (race : Race) (o : Outcome F) (r : Resolver F C D)
      → ((settle now id race o r).timers ≡ remove_timer race.timer r.timers)
        × ((settle now id race o r).races ≡ JsMap.delete id r.races)
        × ((settle now id race o r).in_flight ≡ remove_id id r.in_flight)
        × ((settle now id race o r).closed ≡ r.closed)
  unfolding settle
  settle_tables now id race (Outcome.resolved clearance) r = ground arith
  settle_tables now id race (Outcome.rejected message) r = ground arith

  settle-IsSingle :
      (now : ℕ) (id : String) (race : Race) (o : Outcome F) (r : Resolver F C D)
      → IsSingle r
      → IsSingle (settle now id race o r)
  settle-IsSingle now id race o r h =
      let (timers, races, in_flight, closed) = settle_tables now id race o r in
      record {
        distinct = rw races (delete-IsDistinct id r.races h.distinct);
        named = λ e j.
            rw (races, in_flight)
              (member-remove id j r.in_flight
                ∙ ap (λ b. b && not (str_eq id j)) (h.named (sym closed ∙ e) j)
                ∙ sym (has-delete id j r.races h.distinct));
        shut = λ e.
            let (none_in_flight, no_timer) = h.shut (sym closed ∙ e) in
            (
              in_flight ∙ ap (remove_id id) none_in_flight,
              timers ∙ ap (remove_timer race.timer) no_timer,
            );
      }

  look_up-IsSingle :
      (ttl_ms now : ℕ) (id : String) (r : Resolver F C D)
      → IsSingle r
      → IsSingle (look_up ttl_ms now id r).1
  unfolding look_up
  look_up-IsSingle ttl_ms now id r h =
      let fresh = is_fresh ttl_ms now (lru.get id r.cache).0 in
      let cooling_off = is_cooling_off now (stamps.get id r.failed_fetch_started_at).0 in
      let busy = JsMap.member id r.in_flight in
      let r' = record r {
        cache = (lru.get id r.cache).1;
        failed_fetch_started_at = (stamps.get id r.failed_fetch_started_at).1;
      } in
      let h' : IsSingle r' = record { distinct = h.distinct; named = h.named; shut = h.shut } in
      elim (Bool-cases (not r.closed && not fresh && not cooling_off && not busy)) [
        | inl due ↦
            let (running, idle) = due_lem r.closed fresh cooling_off busy due in
            rw due (start_fetch-IsSingle now id r' running idle h')
        | inr not_due ↦ rw not_due h'
      ]
    where
      due_lem :
          (closed fresh cooling_off busy : Bool)
          → (not closed && not fresh && not cooling_off && not busy) ≡ true
          → (closed ≡ false) × (busy ≡ false)
      due_lem closed fresh cooling_off busy e = ground arith

  clearance_meters-IsSingle :
      (ttl_ms now : ℕ) (poi : PoiSummary F) (r : Resolver F C D)
      → IsSingle r
      → IsSingle (clearance_meters ttl_ms now poi r).1
  unfolding clearance_meters
  clearance_meters-IsSingle ttl_ms now poi r h =
      ground (arith, look_up-IsSingle ttl_ms now poi.id r h)

  Step-IsSingle : {ttl_ms : ℕ} {r s : Resolver F C D} → Step ttl_ms r s → IsSingle r → IsSingle s
  unfolding close JsMap.get JsMap.member
  Step-IsSingle (Step.asked r now poi) h = clearance_meters-IsSingle _ now poi r h
  Step-IsSingle (Step.settled r now id race o at) h = settle-IsSingle now id race o r h
  Step-IsSingle (Step.closed_down r) h = record {
    distinct = h.distinct;
    named = λ e j. absurd (ground (arith, e));
    shut = λ e. (refl, refl);
  }

  Run-IsSingle : {ttl_ms : ℕ} {r s : Resolver F C D} → Run ttl_ms r s → IsSingle r → IsSingle s
  Run-IsSingle Run.start h = h
  Run-IsSingle (Run.next run step) h = Step-IsSingle step (Run-IsSingle run h)

  -- In every state that a run of lookups, settling fetches and closes reaches from a new
  -- resolver, the fetches that have not settled, those that the close left under way
  -- included, are of distinct bridges. The set in flight names exactly their bridges before
  -- the close and nothing after it, and no timer is left after it.
  pub single_flight :
      (ttl_ms : ℕ) (r : Resolver F C D)
      → Run ttl_ms create r
      → IsDistinct r.races
        × ((j : String) → JsMap.member j r.in_flight ≡ (not r.closed && JsMap.has j r.races))
        × ((r.closed && not (is_empty r.timers)) ≡ false)
  unfolding create JsMap.get JsMap.member
  single_flight ttl_ms r run =
      let h =
        Run-IsSingle run
          (record { distinct = tt; named = λ e j. refl; shut = λ e. absurd (ground (arith, e)) }) in
      (h.distinct, names r h, quiet r h)
    where
      names :
          (r : Resolver F C D)
          → IsSingle r
          → (j : String) → JsMap.member j r.in_flight ≡ (not r.closed && JsMap.has j r.races)
      names r h j = elim (Bool-cases r.closed) [
        | inl off ↦ rw (off, (h.shut off).0) refl
        | inr on ↦ rw on (h.named on j)
      ]

      quiet : (r : Resolver F C D) → IsSingle r → (r.closed && not (is_empty r.timers)) ≡ false
      quiet r h = elim (Bool-cases r.closed) [
        | inl off ↦ rw (off, (h.shut off).1) refl
        | inr on ↦ rw on refl
      ]
