-- ===== src/Monitor/Laws.antt =====
-- What an evaluation of the contributors leaves alone.
use signalk_crows_nest.Prelude.{
  ℕ, List, [], ◌∷◌, Option, not, ◌||◌, is_empty, arith, ◌≡◌, refl, ◌∙◌, if_ind, option_ind, Bool,
}
use signalk_crows_nest.Floats.{Floats}
use signalk_crows_nest.Types.{Position, PoiSummary}
use signalk_crows_nest.Monitor.{
  ScanContributor, MonitorConfig, ListRequest, Monitor, Listing, debug, report, zone_contributors,
  evaluate_loop,
}
use signalk_crows_nest.Monitor.Ticks.{
  report_coverage_gap, evaluate_contributors, evaluate_all, should_evaluate, maybe_evaluate,
  after_listing,
}

-- The variables that decide on ticks, and the requests.
pub record Core (F : Type 0) : Type 0 where
  pub stopped : Bool
  pub tick_in_flight : Bool
  pub forced_tick_pending : Bool
  pub latest_position : Option (Position F)
  pub last_tick_position : Option (Position F)
  pub last_tick_time : ℕ
  pub requests : List (ListRequest F)
  pub outstanding : List (Position F)

abbrev pub core : {F : Type 0} → Monitor F → Core F
core m = record {
  stopped = m.stopped;
  tick_in_flight = m.tick_in_flight;
  forced_tick_pending = m.forced_tick_pending;
  latest_position = m.latest_position;
  last_tick_position = m.last_tick_position;
  last_tick_time = m.last_tick_time;
  requests = m.requests;
  outstanding = m.outstanding;
}

core-evaluate_loop :
    {F : Type 0} (now : ℕ) (p : Position F) (pois : List (PoiSummary F)) (at : ℕ)
    (cs : List (ScanContributor F)) (m : Monitor F)
    → core (evaluate_loop now p pois at cs m) ≡ core m
unfolding evaluate_loop debug
core-evaluate_loop now p pois at [] m = refl
core-evaluate_loop now p pois at (c ∷ cs) m =
    core-evaluate_loop now p pois at cs _
    ∙ option_ind (λ s. core s ≡ core m) (c.evaluate now p pois at) (λ _. refl) (λ _ _. refl)

module _ {F : Type 0} ⦃n : Floats F⦄ (config : MonitorConfig F) where
  core-report_coverage_gap :
      (now : ℕ) (p : Position F) (m : Monitor F)
      → core (report_coverage_gap config now p m) ≡ core m
  unfolding report_coverage_gap report
  core-report_coverage_gap now p m = ground arith

  core-evaluate_contributors :
      (now : ℕ) (p : Position F) (pois : List (PoiSummary F)) (at : ℕ)
      (cs : List (ScanContributor F)) (m : Monitor F)
      → core (evaluate_contributors config now p pois at cs m) ≡ core m
  unfolding evaluate_contributors
  core-evaluate_contributors now p pois at cs m =
      core-evaluate_loop now p pois at cs _ ∙ core-report_coverage_gap now p m

  pub core-evaluate_all :
      (now : ℕ) (p : Position F) (pois : List (PoiSummary F)) (m : Monitor F)
      → core (evaluate_all config now p pois m) ≡ core m
  unfolding evaluate_all
  core-evaluate_all now p pois m = core-evaluate_contributors now p pois now config.contributors _

  pub core-maybe_evaluate : (now : ℕ) (m : Monitor F) → core (maybe_evaluate config now m) ≡ core m
  unfolding maybe_evaluate
  core-maybe_evaluate now m =
      let same : Monitor F → Type 0 = λ s. core s ≡ core m in
      if_ind same (m.stopped || is_empty (zone_contributors config.contributors)) (λ _. refl)
        λ _.
          option_ind same m.latest_position (λ _. refl)
            λ position _.
              option_ind same m.last_pois (λ _. refl)
                λ pois _.
                  if_ind same (not (should_evaluate config now position m)) (λ _. refl)
                    λ _.
                      core-evaluate_contributors now position pois m.last_pois_fetched_at
                        (zone_contributors config.contributors) m

  pub core-after_listing :
      (now : ℕ) (p : Position F) (listing : Listing F) (m : Monitor F)
      → core (after_listing config now p listing m) ≡ core m
  unfolding after_listing debug
  core-after_listing now p (Listing.resolved pois) m =
      if_ind (λ s. core s ≡ core m) m.stopped (λ _. refl) λ _. core-evaluate_all now _ pois m
  core-after_listing now p (Listing.rejected error) m = refl
