-- ===== src/Monitor/Runs.antt =====
-- Runs of the monitor: any order of positions, scan requests, settling requests and the stop.
use signalk_crows_nest.Prelude.{
  ℕ, zero, suc, ◌+◌, List, [], ◌∷◌, ◌++◌, Option, none, some, true, false, not, ◌&&◌, ◌||◌,
  if◌then◌else◌, arith, ◌≡◌, refl, ap, sym, ◌∙◌, Bool, length, length-append, if_ind, option_ind,
  subst, or_else,
}
use signalk_crows_nest.Floats.{Floats}
use signalk_crows_nest.Types.{Position, Wire}
use signalk_crows_nest.Geo.{to_position}
use signalk_crows_nest.Monitor.{MonitorConfig, Monitor, Listing, create, debug, gather_boxes}
use signalk_crows_nest.Monitor.Ticks.{
  begin_tick, announce, run_tick, should_tick, maybe_tick, request_scan, on_position, after_listing,
  settle, stop, free_slot,
}
use signalk_crows_nest.Monitor.Laws.{
  Core, core, core-evaluate_all, core-maybe_evaluate, core-after_listing,
}

-- A predicate on the result of a step that ends.
abbrev pub Gives {ℓ κ} : {A : Type ℓ} → (A → Type κ) → Option A → Type κ
Gives P none = Unit
Gives P (some s) = P s

pub Gives-some {ℓ κ} :
    {A : Type ℓ} (P : A → Type κ) {o : Option A} {s : A} → Gives P o → o ≡ some s → P s
Gives-some P h e = subst (Gives P) e h

module _ {F : Type 0} ⦃n : Floats F⦄ (config : MonitorConfig F) where
  -- One step of the monitor. A step that runs out of fuel is none.
  pub data Step : Monitor F → Monitor F → Type 0 where
    moved :
        (m s : Monitor F) (fuel : ℕ) (clock : ℕ → ℕ) (now : ℕ) (value : Wire F)
        → on_position config fuel clock now value m ≡ some s
        → Step m s
    asked :
        (m s : Monitor F) (fuel : ℕ) (clock : ℕ → ℕ)
        → request_scan config fuel clock m ≡ some s
        → Step m s
    settled :
        (m s : Monitor F) (fuel : ℕ) (clock : ℕ → ℕ) (now : ℕ) (before after : List (Position F))
        (p : Position F) (listing : Listing F)
        → m.outstanding ≡ before ++ p ∷ after
        → settle config fuel clock now p (before ++ after) listing m ≡ some s
        → Step m s
    halted : (m : Monitor F) → Step m (stop config m)

  pub data Run (m : Monitor F) : Monitor F → Type 0 where
    start : Run m m
    next : {s t : Monitor F} → Run m s → Step s t → Run m t

  abbrev slots : Bool → ℕ
  slots in_flight = if in_flight then 1 else 0

  -- The slot is taken exactly while one request is outstanding.
  abbrev IsSingle : Core F → Type 0
  IsSingle c = length c.outstanding ≡ slots c.tick_in_flight

  abbrev IsSingleMonitor : Monitor F → Type 0
  IsSingleMonitor m = IsSingle (core m)

  run_tick-IsSingle :
      (finish : Monitor F → Option (Monitor F)) (now later : ℕ) (p : Position F) (m : Monitor F)
      → ((s : Monitor F) → IsSingle (core s) → Gives IsSingleMonitor (finish s))
      → length m.outstanding ≡ 0
      → Gives IsSingleMonitor (run_tick config finish now later p m)
  unfolding run_tick begin_tick debug
  run_tick-IsSingle finish now later p m keeps idle =
      let ends : Option (Monitor F) → Type 0 = Gives IsSingleMonitor in
      option_ind ends (gather_boxes now p config.contributors none []).united (λ _. keeps _ idle)
        λ united _.
          option_ind ends united
            (λ _. keeps _ (
              ap (λ (c : Core F). length c.outstanding)
                (core-evaluate_all config later (or_else m.latest_position p) []
                  (begin_tick config now p m))
              ∙ idle))
            (λ bbox _. length-append m.outstanding (p ∷ []) ∙ ap (λ k. k + 1) idle)

  maybe_tick-IsSingle :
      (fuel : ℕ) (clock : ℕ → ℕ) (m : Monitor F)
      → IsSingle (core m)
      → Gives IsSingleMonitor (maybe_tick config fuel clock m)
  unfolding maybe_tick debug
  maybe_tick-IsSingle zero clock m h = tt
  maybe_tick-IsSingle (suc fuel) clock m h =
      let ends : Option (Monitor F) → Type 0 = Gives IsSingleMonitor in
      if_ind ends (m.stopped || m.tick_in_flight) (λ _. h)
        λ free.
          option_ind ends m.latest_position (λ _. h)
            λ p _.
              if_ind ends (not m.forced_tick_pending && not (should_tick config (clock 0) p m))
                (λ _. h)
                λ _.
                  run_tick-IsSingle (λ s. maybe_tick config fuel (λ k. clock (suc (suc (suc k)))) s)
                    (clock 1) (clock 2) p (announce p m)
                    (maybe_tick-IsSingle fuel (λ k. clock (suc (suc (suc k)))))
                    (idle m.stopped m.tick_in_flight free h)
    where
      idle :
          {k : ℕ} (stopped in_flight : Bool)
          → (stopped || in_flight) ≡ false
          → k ≡ slots in_flight
          → k ≡ 0
      idle stopped in_flight free h = grind arith

  on_position-IsSingle :
      (fuel : ℕ) (clock : ℕ → ℕ) (now : ℕ) (value : Wire F) (m : Monitor F)
      → IsSingle (core m)
      → Gives IsSingleMonitor (on_position config fuel clock now value m)
  unfolding on_position
  on_position-IsSingle fuel clock now value m h =
      let ends : Option (Monitor F) → Type 0 = Gives IsSingleMonitor in
      if_ind ends m.stopped (λ _. h)
        λ _.
          option_ind ends (to_position value) (λ _. h)
            λ p _.
              option_ind ends (maybe_tick config fuel clock (record m { latest_position = some p }))
                (λ _. tt)
                λ s ticked. subst IsSingle (sym (core-maybe_evaluate config now s)) (
                  Gives-some IsSingleMonitor
                    (maybe_tick-IsSingle fuel clock (record m { latest_position = some p }) h)
                    ticked)

  request_scan-IsSingle :
      (fuel : ℕ) (clock : ℕ → ℕ) (m : Monitor F)
      → IsSingle (core m)
      → Gives IsSingleMonitor (request_scan config fuel clock m)
  unfolding request_scan
  request_scan-IsSingle fuel clock m h =
      if_ind (Gives IsSingleMonitor) m.stopped (λ _. h)
        λ _. maybe_tick-IsSingle fuel clock (record m { forced_tick_pending = true }) h

  settle-IsSingle :
      (fuel : ℕ) (clock : ℕ → ℕ) (now : ℕ) (p : Position F) (rest : List (Position F))
      (listing : Listing F) (m : Monitor F)
      → length rest ≡ 0
      → Gives IsSingleMonitor (settle config fuel clock now p rest listing m)
  unfolding settle
  settle-IsSingle fuel clock now p rest listing m idle =
      let m' = record m { outstanding = rest } in
      maybe_tick-IsSingle fuel clock (free_slot (after_listing config now p listing m')) (
        ap (λ (c : Core F). length c.outstanding) (core-after_listing config now p listing m')
        ∙ idle)

  rest_empty :
      (m : Monitor F) (before after : List (Position F)) (p : Position F)
      → IsSingle (core m)
      → m.outstanding ≡ before ++ p ∷ after
      → length (before ++ after) ≡ 0
  rest_empty m before after p h e =
      let whole : length m.outstanding ≡ length before + suc (length after) =
        ap length e ∙ length-append before (p ∷ after) in
      length-append before after
      ∙ few (length before) (length after) m.tick_in_flight (sym whole ∙ h)
    where
      few : (j k : ℕ) (b : Bool) → j + suc k ≡ slots b → j + k ≡ 0
      few j k true e = omega arith
      few j k false e = omega arith

  Step-IsSingle : {m s : Monitor F} → Step m s → IsSingle (core m) → IsSingle (core s)
  unfolding stop debug
  Step-IsSingle (moved m s fuel clock now value e) h =
      Gives-some IsSingleMonitor (on_position-IsSingle fuel clock now value m h) e
  Step-IsSingle (asked m s fuel clock e) h =
      Gives-some IsSingleMonitor (request_scan-IsSingle fuel clock m h) e
  Step-IsSingle (settled m s fuel clock now before after p listing at e) h =
      Gives-some IsSingleMonitor
        (settle-IsSingle fuel clock now p (before ++ after) listing m
          (rest_empty m before after p h at))
        e
  Step-IsSingle (halted m) h = if_ind IsSingleMonitor m.stopped (λ _. h) (λ _. h)

  Run-IsSingle : {m s : Monitor F} → Run m s → IsSingle (core m) → IsSingle (core s)
  Run-IsSingle start h = h
  Run-IsSingle (next run step) h = Step-IsSingle step (Run-IsSingle run h)

  -- In every state that a run of the monitor reaches from its start, through positions, scan
  -- requests, settling requests and stops in any order, exactly one list request is
  -- outstanding while the slot is taken, and none while it is free.
  pub one_request :
      (m : Monitor F) → Run create m → length m.outstanding ≡ (if m.tick_in_flight then 1 else 0)
  unfolding create
  one_request m run = Run-IsSingle run refl
