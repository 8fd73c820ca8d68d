-- ===== src/Schedule/Laws.antt =====
-- Runs of the scheduler: the timers, the passes that settle, and the close, in any order.
use signalk_crows_nest.Prelude.{
  ℕ, suc, ◌+◌, String, List, [], ◌∷◌, ◌++◌, Bool, true, false, if◌then◌else◌, arith, ◌≡◌, refl, ap,
  sym, ◌∙◌, length, length-append, if_ind,
}
use signalk_crows_nest.Schedule.{
  Scheduler, Pass, run_refresh, fire_initial, fire_periodic, settle, start, close,
}

module _ (name : String) where
  pub data Step : Scheduler → Scheduler → Type 0 where
    initial : (s : Scheduler) → s.initial_armed ≡ true → Step s (fire_initial name s)
    periodic : (s : Scheduler) → s.periodic_armed ≡ true → Step s (fire_periodic name s)
    settled :
        (s : Scheduler) (before after : List String) (reason : String) (pass : Pass)
        → s.outstanding ≡ before ++ reason ∷ after
        → Step s (settle name reason (before ++ after) pass s)
    closed : (s : Scheduler) → Step s (close s)

  pub data Run (s : Scheduler) : Scheduler → Type 0 where
    begun : Run s s
    next : {t u : Scheduler} → Run s t → Step t u → Run s u

  abbrev IsSingle : Scheduler → Type 0
  IsSingle s = length s.outstanding ≡ (if s.refreshing then 1 else 0)

  run_refresh-IsSingle :
      (reason : String) (s : Scheduler) → IsSingle s → IsSingle (run_refresh name reason s)
  unfolding run_refresh
  run_refresh-IsSingle reason s h = ground (arith, length-append s.outstanding (reason ∷ []))

  rest_empty :
      (s : Scheduler) (before after : List String) (reason : String)
      → s.outstanding ≡ before ++ reason ∷ after
      → IsSingle s
      → length (before ++ after) ≡ 0
  rest_empty s before after reason at h =
      let whole : length s.outstanding ≡ length before + suc (length after) =
        ap length at ∙ length-append before (reason ∷ after) in
      length-append before after ∙ few (length before) (length after) s.refreshing (sym whole ∙ h)
    where
      few : (j k : ℕ) (b : Bool) → j + suc k ≡ (if b then 1 else 0) → j + k ≡ 0
      few j k true e = omega arith
      few j k false e = omega arith

  Step-IsSingle : {s t : Scheduler} → Step s t → IsSingle s → IsSingle t
  unfolding fire_initial fire_periodic settle close
  Step-IsSingle (initial s armed) h =
      run_refresh-IsSingle "initial refresh" (record s { initial_armed = false }) h
  Step-IsSingle (periodic s armed) h = run_refresh-IsSingle "refresh" s h
  Step-IsSingle (settled s before after reason Pass.resolved at) h =
      rest_empty s before after reason at h
  Step-IsSingle (settled s before after reason (Pass.rejected error) at) h =
      rest_empty s before after reason at h
  Step-IsSingle (closed s) h = h

  Run-IsSingle : {s t : Scheduler} → Run s t → IsSingle s → IsSingle t
  Run-IsSingle begun h = h
  Run-IsSingle (next run step) h = Step-IsSingle step (Run-IsSingle run h)

  -- In every run of the scheduler, through timers, settling passes and closes in any order,
  -- exactly one pass of the source is outstanding while the guard is set, and none otherwise.
  pub one_pass :
      (s : Scheduler) → Run start s → length s.outstanding ≡ (if s.refreshing then 1 else 0)
  unfolding start
  one_pass s run = Run-IsSingle run refl

  -- The timers are off, and nothing has started or been logged since.
  record IsQuiet (old s : Scheduler) : Type 0 where
    pub initial_off : s.initial_armed ≡ false
    pub periodic_off : s.periodic_armed ≡ false
    pub aborted : s.aborted ≡ true
    pub started : s.started ≡ old.started
    pub log : s.log ≡ old.log

  Step-IsQuiet : {old s t : Scheduler} → Step s t → IsQuiet old s → IsQuiet old t
  unfolding settle close
  Step-IsQuiet (initial s armed) h = absurd (ground (arith, h.initial_off))
  Step-IsQuiet (periodic s armed) h = absurd (ground (arith, h.periodic_off))
  Step-IsQuiet (settled s before after reason Pass.resolved at) h = record {
    initial_off = h.initial_off;
    periodic_off = h.periodic_off;
    aborted = h.aborted;
    started = h.started;
    log = h.log;
  }
  Step-IsQuiet {old} (settled s before after reason (Pass.rejected error) at) h = record {
    initial_off = h.initial_off;
    periodic_off = h.periodic_off;
    aborted = h.aborted;
    started = h.started;
    log =
        if_ind (λ l. l ≡ old.log) s.aborted (λ _. h.log)
          (λ live. absurd (ground (arith, h.aborted)));
  }
  Step-IsQuiet (closed s) h = record {
    initial_off = refl;
    periodic_off = refl;
    aborted = refl;
    started = h.started;
    log = h.log;
  }

  Run-IsQuiet : {old s t : Scheduler} → Run s t → IsQuiet old s → IsQuiet old t
  Run-IsQuiet begun h = h
  Run-IsQuiet (next run step) h = Step-IsQuiet step (Run-IsQuiet run h)

  -- In every run after the close no pass of the source starts and no line is logged, not even
  -- for a pass that was under way and fails.
  pub close_is_quiet :
      (s t : Scheduler) → Run (close s) t → (t.started ≡ s.started) × (t.log ≡ s.log)
  unfolding close
  close_is_quiet s t run =
      let h : IsQuiet s t = Run-IsQuiet run (record {
        initial_off = refl;
        periodic_off = refl;
        aborted = refl;
        started = refl;
        log = refl;
      }) in
      (h.started, h.log)
