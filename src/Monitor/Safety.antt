-- ===== src/Monitor/Safety.antt =====
-- What the monitor does after the stop, between two requests and after a change of the route.
use signalk_crows_nest.Prelude.{ℕ, zero, suc, ◌++◌, true, ◌||◌, arith, ◌≡◌, refl, if_ind}
use signalk_crows_nest.Floats.{Floats}
use signalk_crows_nest.Types.{Position}
use signalk_crows_nest.Monitor.{MonitorConfig, Monitor, Listing, debug}
use signalk_crows_nest.Monitor.Ticks.{
  free_slot, maybe_tick, request_scan, on_position, after_listing, settle, stop,
}
use signalk_crows_nest.Monitor.Runs.{Gives, Gives-some, Step, Run}

module _ {F : Type 0} ⦃n : Floats F⦄ (config : MonitorConfig F) where
  -- Stopped, with the requests and the evaluations of an earlier state.
  record IsHalted (before m : Monitor F) : Type 0 where
    pub stopped : m.stopped ≡ true
    pub requests : m.requests ≡ before.requests
    pub evaluations : m.evaluations ≡ before.evaluations

  maybe_tick-IsHalted :
      (fuel : ℕ) (clock : ℕ → ℕ) (before m : Monitor F)
      → IsHalted before m
      → Gives (IsHalted before) (maybe_tick config fuel clock m)
  unfolding maybe_tick
  maybe_tick-IsHalted zero clock before m h = tt
  maybe_tick-IsHalted (suc fuel) clock before m h =
      if_ind (Gives (IsHalted before)) (m.stopped || m.tick_in_flight) (λ _. h)
        λ free. absurd (ground (arith, h.stopped))

  after_listing-IsHalted :
      (now : ℕ) (p : Position F) (listing : Listing F) (before m : Monitor F)
      → IsHalted before m
      → IsHalted before (after_listing config now p listing m)
  unfolding after_listing debug
  after_listing-IsHalted now p (Listing.resolved pois) before m h =
      if_ind (IsHalted before) m.stopped (λ _. h) λ running. absurd (ground (arith, h.stopped))
  after_listing-IsHalted now p (Listing.rejected error) before m h = record {
    stopped = h.stopped;
    requests = h.requests;
    evaluations = h.evaluations;
  }

  Step-IsHalted : {before m s : Monitor F} → Step config m s → IsHalted before m → IsHalted before s
  unfolding on_position request_scan settle stop
  Step-IsHalted {before} (Step.moved m s fuel clock now value e) h =
      Gives-some (IsHalted before)
        (if_ind (Gives (IsHalted before)) m.stopped (λ _. h)
          λ running. absurd (ground (arith, h.stopped)))
        e
  Step-IsHalted {before} (Step.asked m s fuel clock e) h =
      Gives-some (IsHalted before)
        (if_ind (Gives (IsHalted before)) m.stopped (λ _. h)
          λ running. absurd (ground (arith, h.stopped)))
        e
  Step-IsHalted {before} (Step.settled m s fuel clock now earlier later p listing at e) h =
      let m' : Monitor F = record m { outstanding = earlier ++ later } in
      let h' : IsHalted before m' = record {
        stopped = h.stopped;
        requests = h.requests;
        evaluations = h.evaluations;
      } in
      let k = after_listing-IsHalted now p listing before m' h' in
      Gives-some (IsHalted before)
        (maybe_tick-IsHalted fuel clock before (free_slot (after_listing config now p listing m'))
          (record { stopped = k.stopped; requests = k.requests; evaluations = k.evaluations }))
        e
  Step-IsHalted {before} (Step.halted m) h =
      if_ind (IsHalted before) m.stopped (λ _. h) λ running. absurd (ground (arith, h.stopped))

  Run-IsHalted : {before m s : Monitor F} → Run config m s → IsHalted before m → IsHalted before s
  Run-IsHalted Run.start h = h
  Run-IsHalted (Run.next run step) h = Step-IsHalted step (Run-IsHalted run h)

  stop-IsHalted : (m : Monitor F) → IsHalted m (stop config m)
  unfolding stop debug
  stop-IsHalted m =
      if_ind (IsHalted m) m.stopped
        (λ e. record { stopped = e; requests = refl; evaluations = refl })
        (λ _. record { stopped = refl; requests = refl; evaluations = refl })

  -- In every run after the stop the monitor stays stopped, makes no further list request and
  -- evaluates no contributor, whatever arrives and whatever settles.
  pub stop_is_final :
      (m s : Monitor F)
      → Run config (stop config m) s
      → (s.stopped ≡ true) × (s.requests ≡ m.requests) × (s.evaluations ≡ m.evaluations)
  stop_is_final m s run =
      let h = Run-IsHalted run (stop-IsHalted m) in (h.stopped, h.requests, h.evaluations)
