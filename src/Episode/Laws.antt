-- ===== src/Episode/Laws.antt =====
-- What the entry and exit half does, exactly: the entries it adds and the notices it sends.
use signalk_crows_nest.Prelude.{
  ℕ, ◌+◌, String, str_eq, eq_iff, List, [], ◌∷◌, ◌++◌, none, some, true, false, not, ◌||◌,
  if◌then◌else◌, ◌≡◌, refl, sym, ap, ◌∙◌, arith, any, keep_if, append_assoc, append-nil, Bool-cases,
  inl, inr,
}
use signalk_crows_nest.JsMap
use signalk_crows_nest.JsMap.Positions.{has-append_last, set_absent}
use signalk_crows_nest.Notification.{
  Platform, App, sanitize_poi_id, now_iso, emit_notification, debug,
}
use signalk_crows_nest.Notification.Sanitize.{IsFaithful}
use signalk_crows_nest.Notification.Notices.{Notice, notice, notices, notices-emit_notification}
use signalk_crows_nest.Tracker
use signalk_crows_nest.Tracker.{Config, Tracked, Tracker, raised_at_of}
use signalk_crows_nest.Tracker.Laws.{sanitize-eq}
use signalk_crows_nest.Episode.{Raising, raise, raise_new}

has-none :
    {V : Type 0} (k : String) (m : List (String × V)) → JsMap.has k m ≡ false → JsMap.get k m ≡ none
has-none k m h = ground arith

module _ ⦃p : Platform⦄ {A T : Type 0} (r : Raising A T) where
  -- A new entry at a reading of the clock, and the notice that tells of it. A raise reads the clock
  -- twice: for the episode, and for the time stamp of the delta.
  abbrev pub new_record : String → A → String × Tracked T
  new_record now a = (
    sanitize_poi_id (r.poi_id a),
    record { entry = r.entry a; poi_id = r.poi_id a; raised_at = now },
  )

  abbrev pub new_notice : String → A → Notice
  new_notice now a = notice r.path_prefix (r.poi_id a) (r.value a now) r.source_suffix

  abbrev pub at_readings : {X : Type 0} → (String → A → X) → (ℕ → String) → ℕ → List A → List X
  at_readings f clock reads [] = []
  at_readings f clock reads (a ∷ xs) = f (clock reads) a ∷ at_readings f clock (reads + 2) xs

  -- A map is keyed by the ids of its values.
  abbrev pub IsKeyed : List (String × A) → Type 0
  IsKeyed [] = Unit
  IsKeyed ((k, a) ∷ m) = (k ≡ r.poi_id a) × IsKeyed m

  pub IsKeyed-set :
      (k : String) (a : A) (m : List (String × A))
      → k ≡ r.poi_id a
      → IsKeyed m
      → IsKeyed (JsMap.set k a m)
  unfolding JsMap.set
  IsKeyed-set k a [] e h = (e, tt)
  IsKeyed-set k a ((j, b) ∷ m) e h = ground (arith, eq_iff j k, IsKeyed-set k a m e h.1)

  -- What is found under a key has it for an id.
  pub IsKeyed-get :
      (j : String) (a : A) (m : List (String × A))
      → IsKeyed m
      → JsMap.get j m ≡ some a
      → r.poi_id a ≡ j
  unfolding JsMap.get
  IsKeyed-get j a [] h e = cc
  IsKeyed-get j a ((k, b) ∷ m) h e = ground (arith, eq_iff k j, IsKeyed-get j a m h.1)

  -- The values that are not active yet.
  abbrev pub new_ones : Tracker T → List A → List A
  new_ones s = keep_if (λ a. not (Tracker.has (r.poi_id a) s))

  -- No two of the values have one id.
  abbrev pub AreApart : List A → Type 0
  AreApart [] = Unit
  AreApart (a ∷ xs) = (any (λ b. str_eq (r.poi_id b) (r.poi_id a)) xs ≡ false) × AreApart xs

  fresh :
      (a : A) (s : Tracker T)
      → Tracker.has (r.poi_id a) s ≡ false
      → raised_at_of (sanitize_poi_id (r.poi_id a)) s ≡ now_iso s.app
  unfolding Tracker.has raised_at_of
  fresh a s h = rw (has-none (sanitize_poi_id (r.poi_id a)) s.active h, raised_at_of)

  -- The app after the raise of an absent id.
  abbrev told : A → App → App
  told a app = debug (r.describe a) (
      emit_notification r.path_prefix (r.poi_id a) (r.value a (app.clock app.reads)) r.source_suffix
        (record app { reads = app.reads + 1 }))

  raise_app :
      (a : A) (s : Tracker T)
      → Tracker.has (r.poi_id a) s ≡ false
      → (raise r a s).app ≡ told a s.app
  unfolding raise Tracker.set now_iso
  raise_app a s h =
      ap
        (λ (q : String × App).
          debug (r.describe a)
            (emit_notification r.path_prefix (r.poi_id a) (r.value a q.0) r.source_suffix q.1))
        (fresh a s h)

  raise_active :
      (a : A) (s : Tracker T)
      → Tracker.has (r.poi_id a) s ≡ false
      → (raise r a s).active ≡ s.active ++ new_record (s.app.clock s.app.reads) a ∷ []
  unfolding raise Tracker.set now_iso Tracker.has
  raise_active a s h =
      ap
        (λ (q : String × App).
          JsMap.set (sanitize_poi_id (r.poi_id a))
            (record { entry = r.entry a; poi_id = r.poi_id a; raised_at = q.0 }) s.active)
        (fresh a s h)
      ∙ set_absent (sanitize_poi_id (r.poi_id a)) _ s.active h

  told_lem :
      (a : A) (app : App)
      → ((told a app).reads ≡ app.reads + 2)
        × ((told a app).clock ≡ app.clock)
        × (notices (told a app) ≡ notices app ++ new_notice (app.clock app.reads) a ∷ [])
  unfolding emit_notification debug
  told_lem a app = (
    omega arith,
    refl,
    notices-emit_notification r.path_prefix (r.poi_id a) (r.value a (app.clock app.reads))
        r.source_suffix (record app { reads = app.reads + 1 }),
  )

  raise_told :
      (a : A) (s : Tracker T)
      → Tracker.has (r.poi_id a) s ≡ false
      → ((raise r a s).app.reads ≡ s.app.reads + 2)
        × ((raise r a s).app.clock ≡ s.app.clock)
        × (notices (raise r a s).app ≡ notices s.app ++ new_notice (s.app.clock s.app.reads) a ∷ [])
  raise_told a s h = rw (raise_app a s h) (told_lem a s.app)

  pub raise_new_old :
      (a : A) (xs : List A) (s : Tracker T)
      → Tracker.has (r.poi_id a) s ≡ true
      → raise_new r (a ∷ xs) s ≡ raise_new r xs s
  unfolding raise_new
  raise_new_old a xs s h = ap (λ b. raise_new r xs (if b then s else raise r a s)) h

  pub raise_new_fresh :
      (a : A) (xs : List A) (s : Tracker T)
      → Tracker.has (r.poi_id a) s ≡ false
      → raise_new r (a ∷ xs) s ≡ raise_new r xs (raise r a s)
  unfolding raise_new
  raise_new_fresh a xs s h = ap (λ b. raise_new r xs (if b then s else raise r a s)) h

  module _ (f : IsFaithful p) where
    pub has-raise :
        (j : String) (a : A) (s : Tracker T)
        → Tracker.has (r.poi_id a) s ≡ false
        → Tracker.has j (raise r a s) ≡ (Tracker.has j s || str_eq (r.poi_id a) j)
    unfolding Tracker.has
    has-raise j a s h = rw (raise_active a s h) (
        has-append_last (sanitize_poi_id j) (sanitize_poi_id (r.poi_id a)) _ s.active
        ∙ ap (λ b. JsMap.has (sanitize_poi_id j) s.active || b) (sanitize-eq f (r.poi_id a) j))

    new_ones-raise :
        (a : A) (s : Tracker T) (xs : List A)
        → Tracker.has (r.poi_id a) s ≡ false
        → any (λ b. str_eq (r.poi_id b) (r.poi_id a)) xs ≡ false
        → new_ones (raise r a s) xs ≡ new_ones s xs
    new_ones-raise a s [] h k = refl
    new_ones-raise a s (b ∷ xs) h k = ground (
      arith,
      has-raise (r.poi_id b) a s h,
      eq_iff (r.poi_id a) (r.poi_id b),
      eq_iff (r.poi_id b) (r.poi_id a),
      new_ones-raise a s xs h,
    )

    -- The loop adds an entry for each value that is new, in order, and tells of it; what is active
    -- already is neither touched nor told of again.
    pub raise_new_lem :
        (xs : List A) (s : Tracker T)
        → AreApart xs
        → ((raise_new r xs s).active
            ≡ s.active ++ at_readings new_record s.app.clock s.app.reads (new_ones s xs))
          × (notices (raise_new r xs s).app
              ≡ notices s.app ++ at_readings new_notice s.app.clock s.app.reads (new_ones s xs))
    unfolding raise_new
    raise_new_lem [] s apart = (sym (append-nil s.active), sym (append-nil (notices s.app)))
    raise_new_lem (a ∷ xs) s apart = elim (Bool-cases (Tracker.has (r.poi_id a) s)) [
      | inl old ↦ rw (old, raise_new_old a xs s old) (raise_new_lem xs s apart.1)
      | inr new ↦
          let (ih, ih') = raise_new_lem xs (raise r a s) apart.1 in
          let (reads, clock, sent) = raise_told a s new in
          let same = new_ones-raise a s xs new apart.0 in
          rw (new, raise_new_fresh a xs s new)
            (
              ih
                  ∙ (λ i.
                      raise_active a s new i ++ at_readings new_record (clock i) (reads i) (same i))
                  ∙ append_assoc s.active _ _,
              ih'
                  ∙ (λ i. sent i ++ at_readings new_notice (clock i) (reads i) (same i))
                  ∙ append_assoc (notices s.app) _ _,
            )
    ]
