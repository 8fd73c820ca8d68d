-- ===== src/Course/Cleared.antt =====
-- A cleared route outlives the reads that were under way.
use signalk_crows_nest.Prelude.{
  ℕ, ◌+◌, ◌<◌, ◌≤◌, none, false, arith, ◌≡◌, refl, if_ind, All, All-append, All-weaken, subst, sym,
  ◌∙◌,
}
use signalk_crows_nest.Floats.{Floats}
use signalk_crows_nest.Types.{Wire}
use signalk_crows_nest.Course.Reader.{
  ResourceRead, Reader, write_log, start_refresh, schedule_refresh, create, stop, apply_refresh,
  on_active_route_delta, is_null,
}
use signalk_crows_nest.Course.Laws.{
  Settling, Run, IsBelow, IsFine, Settle-IsFine, apply_refresh-IsBelow, apply_refresh-steady,
}

module _ {F : Type 0} ⦃n : Floats F⦄ where
  IsBelow-grown :
      (m k : ℕ) (r s : Reader F)
      → m ≤ k
      → s.course_reads ≡ r.course_reads
      → s.resource_reads ≡ r.resource_reads
      → IsBelow m r
      → IsBelow k s
  IsBelow-grown m k r s le courses resources h = record {
    courses =
        subst (All (λ j. j < k)) (sym courses)
          (All-weaken (λ j. j < m) (λ j. j < k) r.course_reads (λ j lt. omega arith) h.courses);
    resources = subst (All (λ (x : ResourceRead F). x.generation < k)) (sym resources) (
        All-weaken (λ (x : ResourceRead F). x.generation < m)
          (λ (x : ResourceRead F). x.generation < k) r.resource_reads (λ x lt. omega arith)
          h.resources);
  }

  -- The reads under way are of refreshes up to the newest.
  abbrev IsNumbered : Reader F → Type 0
  IsNumbered r = IsBelow (r.refresh_generation + 1) r

  schedule_refresh-IsNumbered : (r : Reader F) → IsNumbered r → IsNumbered (schedule_refresh r)
  unfolding schedule_refresh start_refresh
  schedule_refresh-IsNumbered r h =
      let g = r.refresh_generation in
      let h' = IsBelow-grown (g + 1) (g + 1 + 1) r r (omega arith) refl refl h in
      if_ind IsNumbered r.stopped (λ _. h)
        λ _. record {
          courses = All-append (λ k. k < g + 1 + 1) r.course_reads _ h'.courses (omega arith, tt);
          resources = h'.resources;
        }

  clear-IsBelow :
      (r : Reader F)
      → IsNumbered r
      → IsBelow (r.refresh_generation + 1) (
          apply_refresh
            (r.refresh_generation + 1)
            none
            (record r { refresh_generation = r.refresh_generation + 1 }))
  clear-IsBelow r h =
      let g = r.refresh_generation in
      apply_refresh-IsBelow (g + 1) (g + 1) none (record r { refresh_generation = g + 1 })
        (record { courses = h.courses; resources = h.resources })

  on_active_route_delta-IsNumbered :
      (delta : Wire F) (r : Reader F) → IsNumbered r → IsNumbered (on_active_route_delta delta r)
  unfolding on_active_route_delta
  on_active_route_delta-IsNumbered delta r h =
      let g = r.refresh_generation in
      let cleared = apply_refresh (g + 1) none (record r { refresh_generation = g + 1 }) in
      if_ind IsNumbered r.stopped (λ _. h)
        λ _.
          if_ind IsNumbered (is_null delta)
            (λ _.
              IsBelow-grown (g + 1) (cleared.refresh_generation + 1) cleared cleared
                (omega (
                  arith,
                  apply_refresh-steady (g + 1) none (record r { refresh_generation = g + 1 }),
                ))
                refl refl (clear-IsBelow r h))
            (λ _. schedule_refresh-IsNumbered r h)

  stop-IsNumbered : (r : Reader F) → IsNumbered r → IsNumbered (stop r)
  unfolding stop write_log
  stop-IsNumbered r h =
      if_ind IsNumbered r.stopped (λ _. h)
        λ _. record { courses = h.courses; resources = h.resources }

  IsFine-start : (bound : ℕ) (r : Reader F) → IsBelow bound r → IsFine bound r r
  IsFine-start bound r h = record {
    below = h;
    steady = refl;
    kept = λ le. record { route = refl; changes = refl; generation = refl };
  }

  Run-IsNumbered : {r : Reader F} → Run r → IsNumbered r
  unfolding create schedule_refresh start_refresh
  Run-IsNumbered Run.begun = record { courses = (omega arith, tt); resources = tt }
  Run-IsNumbered (Run.href {r} run delta) =
      on_active_route_delta-IsNumbered delta r (Run-IsNumbered run)
  Run-IsNumbered (Run.next_point {r} run) = schedule_refresh-IsNumbered r (Run-IsNumbered run)
  Run-IsNumbered (Run.arrived {r} {s} run step) =
      let bound = r.refresh_generation + 1 in
      let fine = Settle-IsFine bound step (IsFine-start bound r (Run-IsNumbered run)) in
      subst (λ g. IsBelow (g + 1) s) (sym fine.steady) fine.below
  Run-IsNumbered (Run.halt {r} run) = stop-IsNumbered r (Run-IsNumbered run)

  Settling-IsFine : (bound : ℕ) {r s : Reader F} → Settling r s → IsBelow bound r → IsFine bound r s
  Settling-IsFine bound {r} Settling.settled h = IsFine-start bound r h
  Settling-IsFine bound (Settling.also run step) h =
      Settle-IsFine bound step (Settling-IsFine bound run h)

  delta_clears :
      (r : Reader F)
      → r.stopped ≡ false
      → ((on_active_route_delta Wire.null r).current_route ≡ none)
        × ((on_active_route_delta Wire.null r).refresh_generation ≡ r.refresh_generation + 1)
  unfolding on_active_route_delta apply_refresh
  delta_clears r running = ground arith

  delta-IsBelow :
      (r : Reader F)
      → IsNumbered r
      → IsBelow (r.refresh_generation + 1) (on_active_route_delta Wire.null r)
  unfolding on_active_route_delta
  delta-IsBelow r h =
      if_ind (IsBelow (r.refresh_generation + 1)) r.stopped (λ _. h) (λ _. clear-IsBelow r h)

  -- When a delta clears the route of a reader that runs, the cached route is gone and stays
  -- so while the reads that were under way settle, in any order and with any result, and none
  -- of them reports a change of the route.
  pub cleared_stays_clear :
      (r s : Reader F)
      → Run r
      → r.stopped ≡ false
      → Settling (on_active_route_delta Wire.null r) s
      → (s.current_route ≡ none)
        × (s.route_changes ≡ (on_active_route_delta Wire.null r).route_changes)
  cleared_stays_clear r s run running settling =
      let (cleared, newest) = delta_clears r running in
      let fine =
        Settling-IsFine (r.refresh_generation + 1) settling
          (delta-IsBelow r (Run-IsNumbered run)) in
      let kept = fine.kept (omega (arith, newest)) in (kept.route ∙ cleared, kept.changes)
