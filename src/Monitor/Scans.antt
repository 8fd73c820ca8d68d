-- ===== src/Monitor/Scans.antt =====
-- Which ticks a step starts: the end of the recursion of `maybeTick`, the follow-up of a scan request
-- made while another was in flight, and the throttle.
use signalk_crows_nest.Prelude.{
  ℕ, suc, ◌+◌, ◌<◌, ◌⊎◌, List, [], ◌∷◌, ◌++◌, Option, none, some, true, false, not, ◌&&◌, ◌||◌,
  if◌then◌else◌, arith, ◌≡◌, refl, ap, sym, ◌∙◌, Bool, if_ind, option_ind, option_cong, or_else,
  subst, Bool-cases, inl, inr,
}
use signalk_crows_nest.Floats.{Floats}
use signalk_crows_nest.Types.{Position, Bbox, Wire}
use signalk_crows_nest.Geo.{distance_meters, to_position}
use signalk_crows_nest.Monitor.{MonitorConfig, Monitor, Listing, debug, gather_boxes, union_error}
use signalk_crows_nest.Monitor.Ticks.{
  cadence, begin_tick, announce, free_slot, evaluate_all, maybe_evaluate, run_tick, should_tick,
  maybe_tick, request_scan, on_position, after_listing, settle, scan_failed,
}
use signalk_crows_nest.Monitor.Laws.{
  Core, core, core-evaluate_all, core-maybe_evaluate, core-after_listing,
}

-- One result, whatever the fuel.
abbrev Settles {ℓ} : {A : Type ℓ} → (ℕ → Option A) → Type ℓ
Settles {A} f = (s : A) × ((fuel : ℕ) → f fuel ≡ some s)

if_Settles {ℓ} :
    {A : Type ℓ} (b : Bool) {f g : ℕ → Option A}
    → Settles f
    → (b ≡ false → Settles g)
    → Settles (λ fuel. if b then f fuel else g fuel)
if_Settles true f g = f
if_Settles false f g = g refl

option-Settles {ℓ κ} :
    {A : Type ℓ} {B : Type κ} (o : Option A) {f : ℕ → Option B} {g : A → ℕ → Option B}
    → Settles f
    → ((a : A) → o ≡ some a → Settles (g a))
    → Settles (λ fuel. elim o [ none ↦ f fuel | some a ↦ g a fuel ])
option-Settles none f g = f
option-Settles (some a) f g = g a refl

module _ {F : Type 0} ⦃n : Floats F⦄ (config : MonitorConfig F) where
  open n use {le}

  -- Neither forced nor due for the newest position.
  IsQuiet : ℕ → Position F → Core F → Type 0
  IsQuiet now p c =
      (c.latest_position ≡ some p)
      × (c.last_tick_position ≡ some p)
      × (c.last_tick_time ≡ now)
      × (c.forced_tick_pending ≡ false)

  -- The tick after one that fetched nothing is not due: the interval has not passed at the next
  -- reading, or the settings ask for a distance that no vessel covers at rest.
  IsSpent : ℕ → ℕ → Position F → Type 0
  IsSpent begun next p =
      (next < begun + config.min_interval_ms)
      ⊎ (le config.min_move_meters (distance_meters p p) ≡ false)

  should_tick_again :
      (begun next : ℕ) (p q : Position F) (m : Monitor F)
      → IsSpent begun next p
      → le (cadence config).coverage_move_meters (distance_meters p p) ≡ false
      → m.last_tick_position ≡ some p
      → m.last_tick_time ≡ begun
      → q ≡ p
      → should_tick config next q m ≡ false
  unfolding should_tick IsSpent
  should_tick_again begun next p q m (inl early) still last at same = ground arith
  should_tick_again begun next p q m (inr rests) still last at same = ground arith

  maybe_tick_quiet :
      (fuel begun : ℕ) (clock : ℕ → ℕ) (p : Position F) (m : Monitor F)
      → IsSpent begun (clock 0) p
      → le (cadence config).coverage_move_meters (distance_meters p p) ≡ false
      → IsQuiet begun p (core m)
      → maybe_tick config (suc fuel) clock m ≡ some m
  unfolding maybe_tick IsQuiet
  maybe_tick_quiet fuel begun clock p m spent still (latest, last, at, unforced) =
      let rests : Option (Monitor F) → Type 0 = λ o. o ≡ some m in
      if_ind rests (m.stopped || m.tick_in_flight) (λ _. refl)
        λ _.
          option_ind rests m.latest_position (λ _. refl)
            λ q newest.
              let not_due : should_tick config (clock 0) q m ≡ false =
                should_tick_again begun (clock 0) p q m spent still last at (cc) in
              if_ind rests (not m.forced_tick_pending && not (should_tick config (clock 0) q m))
                (λ _. refl) λ due. absurd (ground (arith, not_due))

  run_tick_ends :
      (begun later : ℕ) (p : Position F) (m : Monitor F)
      → (s : Monitor F) × (run_tick config some begun later p m ≡ some s)
  unfolding run_tick
  run_tick_ends begun later p m =
      let ends : Option (Monitor F) → Type 0 = λ o. (s : Monitor F) × (o ≡ some s) in
      option_ind ends (gather_boxes begun p config.contributors none []).united (λ _. (_, refl))
        λ united _. option_ind ends united (λ _. (_, refl)) λ bbox _. (_, refl)

  -- A tick that makes no request leaves nothing more to tick for.
  run_tick-maybe_tick :
      (fuel begun later : ℕ) (clock : ℕ → ℕ) (p : Position F) (m : Monitor F)
      → IsSpent begun (clock 0) p
      → le (cadence config).coverage_move_meters (distance_meters p p) ≡ false
      → m.latest_position ≡ some p
      → m.forced_tick_pending ≡ false
      → run_tick config (λ s. maybe_tick config (suc fuel) clock s) begun later p m
        ≡ run_tick config some begun later p m
  unfolding run_tick begin_tick debug IsQuiet
  run_tick-maybe_tick fuel begun later clock p m spent still latest unforced =
      let quiet : IsQuiet begun p (core (begin_tick config begun p m)) =
        (latest, refl, refl, unforced) in
      let m' = begin_tick config begun p m in
      let evaluated = evaluate_all config later (or_else m'.latest_position p) [] m' in
      option_cong (gather_boxes begun p config.contributors none []).united
        (maybe_tick_quiet fuel begun clock p (free_slot (scan_failed union_error m')) spent still
          quiet)
        λ united.
          option_cong united
            (maybe_tick_quiet fuel begun clock p (free_slot evaluated) spent still (
              subst (IsQuiet begun p)
                (sym (core-evaluate_all config later (or_else m'.latest_position p) [] m')) quiet))
            λ bbox. refl

  -- Two rounds are enough for a tick to come to its end, although one that fetches nothing
  -- calls itself again with later readings of the clock: any fuel above that gives one and
  -- the same state. It is supposed that the distance of coverage is positive, and that the
  -- second round reads the clock within the interval after the tick began or the distance to
  -- move is positive.
  pub maybe_tick_ends :
      (clock : ℕ → ℕ) (m : Monitor F)
      → ((p : Position F)
          → m.latest_position ≡ some p
          → ((clock 3 < clock 1 + config.min_interval_ms)
              ⊎ (le config.min_move_meters (distance_meters p p) ≡ false))
            × (le (cadence config).coverage_move_meters (distance_meters p p) ≡ false))
      → (s : Monitor F) × ((fuel : ℕ) → maybe_tick config (suc (suc fuel)) clock m ≡ some s)
  unfolding maybe_tick debug IsSpent
  maybe_tick_ends clock m still =
      let rests : Settles (λ _. some m) = (m, λ _. refl) in
      if_Settles (m.stopped || m.tick_in_flight) rests λ _.
        option-Settles m.latest_position rests λ p latest.
          if_Settles (not m.forced_tick_pending && not (should_tick config (clock 0) p m)) rests
            λ _.
              let (s, ended) = run_tick_ends (clock 1) (clock 2) p (announce p m) in
              let (spent, covered) = still p latest in
              (
                s,
                λ fuel.
                    run_tick-maybe_tick fuel (clock 1) (clock 2) (λ k. clock (suc (suc (suc k)))) p
                      (announce p m) spent covered latest refl
                    ∙ ended,
              )

  pub forced_tick :
      (fuel : ℕ) (clock : ℕ → ℕ) (p : Position F) (b : Bbox F) (m : Monitor F)
      → m.stopped ≡ false
      → m.tick_in_flight ≡ false
      → m.forced_tick_pending ≡ true
      → m.latest_position ≡ some p
      → (gather_boxes (clock 1) p config.contributors none []).united ≡ some (some b)
      → (s : Monitor F) × (maybe_tick config (suc fuel) clock m ≡ some s)
        × (s.requests
            ≡ m.requests ++ (record { at = clock 1; bbox = b; poi_types = config.poi_types }) ∷ [])
        × (s.tick_in_flight ≡ true)
        × (s.forced_tick_pending ≡ false)
  unfolding maybe_tick run_tick begin_tick debug
  forced_tick fuel clock p b m running free forced latest boxed =
      let begun = begin_tick config (clock 1) p (announce p m) in
      (
        record begun {
          requests =
              begun.requests
              ++ (record { at = clock 1; bbox = b; poi_types = config.poi_types }) ∷ [];
          outstanding = begun.outstanding ++ p ∷ [];
        },
        ground arith,
        refl,
        refl,
        refl,
      )

  request_scan_in_flight :
      (fuel : ℕ) (at : ℕ → ℕ) (m : Monitor F)
      → m.stopped ≡ false
      → m.tick_in_flight ≡ true
      → request_scan config (suc fuel) at m ≡ some (record m { forced_tick_pending = true })
  unfolding request_scan maybe_tick
  request_scan_in_flight fuel at m running busy = ground arith

  -- A scan request that comes while a tick is in flight starts nothing at once and is
  -- remembered, and so is a second one; when the request in flight settles, however it
  -- settles, exactly one further list request is made, for the box at the newest position,
  -- and nothing stays remembered. It is supposed that the monitor runs, has a position and is
  -- given a box there.
  pub forced_scan_follows :
      (fuel : ℕ) (at clock : ℕ → ℕ) (now : ℕ) (p q : Position F) (rest : List (Position F))
      (listing : Listing F) (b : Bbox F) (m : Monitor F)
      → m.stopped ≡ false
      → m.tick_in_flight ≡ true
      → m.latest_position ≡ some p
      → (gather_boxes (clock 1) p config.contributors none []).united ≡ some (some b)
      → (asked : Monitor F) × (request_scan config (suc fuel) at m ≡ some asked)
        × (request_scan config (suc fuel) at asked ≡ some asked)
        × (asked.requests ≡ m.requests)
        × (s : Monitor F) × (settle config (suc fuel) clock now q rest listing asked ≡ some s)
        × (s.requests
            ≡ m.requests ++ (record { at = clock 1; bbox = b; poi_types = config.poi_types }) ∷ [])
        × (s.tick_in_flight ≡ true)
        × (s.forced_tick_pending ≡ false)
  unfolding settle
  forced_scan_follows fuel at clock now p q rest listing b m running busy latest boxed =
      let asked = record m { forced_tick_pending = true } in
      let asked' = record asked { outstanding = rest } in
      let same = core-after_listing config now q listing asked' in
      let (s, ticked, requested, taken, unforced) =
        forced_tick fuel clock p b (free_slot (after_listing config now q listing asked'))
          (ap (λ (c : Core F). c.stopped) same ∙ running) refl
          (ap (λ (c : Core F). c.forced_tick_pending) same)
          (ap (λ (c : Core F). c.latest_position) same ∙ latest) boxed in
      (
        asked,
        request_scan_in_flight fuel at m running busy,
        request_scan_in_flight fuel at asked running busy,
        refl,
        s,
        ticked,
        requested
            ∙ ap
                (λ (c : Core F).
                  c.requests
                  ++ (record { at = clock 1; bbox = b; poi_types = config.poi_types }) ∷ [])
                same,
        taken,
        unforced,
      )

  -- A position inside the covered water and the interval is no reason to tick.
  should_tick_early :
      (now : ℕ) (p q : Position F) (m : Monitor F)
      → m.last_tick_position ≡ some p
      → now < m.last_tick_time + config.min_interval_ms
      → le (cadence config).coverage_move_meters (distance_meters p q) ≡ false
      → should_tick config now q m ≡ false
  unfolding should_tick
  should_tick_early now p q m last early near = ground arith

  -- A position whose first reading of the clock is within the interval after the last tick,
  -- and which is inside the water that its list covers, makes no list request when no scan is
  -- forced.
  pub ticks_are_spaced :
      (fuel : ℕ) (clock : ℕ → ℕ) (now : ℕ) (value : Wire F) (p q : Position F) (m : Monitor F)
      → m.forced_tick_pending ≡ false
      → to_position value ≡ some q
      → m.last_tick_position ≡ some p
      → clock 0 < m.last_tick_time + config.min_interval_ms
      → le (cadence config).coverage_move_meters (distance_meters p q) ≡ false
      → (s : Monitor F) × (on_position config (suc fuel) clock now value m ≡ some s)
        × (s.requests ≡ m.requests)
        × (s.last_tick_time ≡ m.last_tick_time)
  unfolding on_position maybe_tick
  ticks_are_spaced fuel clock now value p q m unforced fix last early near =
      let m' = record m { latest_position = some q } in
      let not_due = should_tick_early (clock 0) p q m' last early near in
      let same = core-maybe_evaluate config now m' in
      let ends : Option (Monitor F) → Type 0 = λ o.
        (s : Monitor F) × (o ≡ some s)
        × (s.requests ≡ m.requests)
        × (s.last_tick_time ≡ m.last_tick_time) in
      let evaluated : ends (some (maybe_evaluate config now m')) = (
        _,
        refl,
        ap (λ (c : Core F). c.requests) same,
        ap (λ (c : Core F). c.last_tick_time) same,
      ) in
      let skipped : maybe_tick config (suc fuel) clock m' ≡ some m' = ground (arith, not_due) in
      elim (Bool-cases m.stopped) [
        | inl off ↦ (m, ground arith, refl, refl)
        | inr on ↦ (maybe_evaluate config now m', ground (arith, skipped), evaluated.2, evaluated.3)
      ]
