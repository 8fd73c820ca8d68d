-- ===== src/Schedule.antt =====
-- src/inputs/refresh-scheduler.ts: the periodic refresh of a source. A pass of `refreshAll` starts in
-- one step and settles in a later one; a timer fires while it is armed.
pub mod Laws
use signalk_crows_nest.Prelude.{String, List, [], ◌∷◌, ◌++◌, Bool, true, false, not, if◌then◌else◌}
use signalk_crows_nest.Notification.{◌⧺◌}

-- The variables of `startRefreshScheduler` and its timers; then the passes that have started and those
-- that have not settled, by reason, the lines logged, and whether the source's own `close` has run.
pub record Scheduler : Type 0 where
  pub refreshing : Bool
  pub aborted : Bool
  pub initial_armed : Bool
  pub periodic_armed : Bool
  pub started : List String
  pub outstanding : List String
  pub log : List String
  pub source_closed : Bool

pub data Pass : Type 0 where
  resolved : Pass
  rejected : (error : String) → Pass

module _ (name : String) where
  unfoldable pub run_refresh : String → Scheduler → Scheduler
  run_refresh reason s =
      if s.refreshing
      then record s {
        log = s.log ++ (name ⧺ " " ⧺ reason ⧺ " skipped: previous refresh still running") ∷ [];
      }
      else record s {
        refreshing = true;
        started = s.started ++ reason ∷ [];
        outstanding = s.outstanding ++ reason ∷ [];
      }

  unfoldable pub fire_initial : Scheduler → Scheduler
  unfolding run_refresh
  fire_initial s = run_refresh "initial refresh" (record s { initial_armed = false })

  unfoldable pub fire_periodic : Scheduler → Scheduler
  unfolding run_refresh
  fire_periodic = run_refresh "refresh"

  -- A pass settles; `rest` are the others that have not.
  unfoldable pub settle : String → List String → Pass → Scheduler → Scheduler
  settle reason rest Pass.resolved s = record s { refreshing = false; outstanding = rest }
  settle reason rest (Pass.rejected error) s = record s {
    refreshing = false;
    outstanding = rest;
    log = if s.aborted then s.log else s.log ++ (name ⧺ " " ⧺ reason ⧺ " failed: " ⧺ error) ∷ [];
  }

unfoldable pub start : Scheduler
start = record {
  refreshing = false;
  aborted = false;
  initial_armed = true;
  periodic_armed = true;
  started = [];
  outstanding = [];
  log = [];
  source_closed = false;
}

unfoldable pub close : Scheduler → Scheduler
close s = record s {
  initial_armed = false;
  periodic_armed = false;
  aborted = true;
  source_closed = true;
}
