-- ===== src/Route/Laws.antt =====
-- What an evaluation of the route warnings leaves active.
use mathlib.Core.Option
use signalk_crows_nest.Prelude.{
  String, str_eq, eq_iff, List, [], ◌∷◌, Option, some, true, ◌||◌, if◌then◌else◌, ◌≡◌, refl, ap,
  ◌∙◌, arith, any, Bool-cases, inl, inr,
}
use signalk_crows_nest.JsMap
use signalk_crows_nest.Floats.{Floats}
use signalk_crows_nest.Types.{CorridorPoi}
use signalk_crows_nest.Notification.{Platform}
use signalk_crows_nest.Notification.Sanitize.{IsFaithful}
use signalk_crows_nest.Tracker
use signalk_crows_nest.Tracker.{Tracker, Tracked}
use signalk_crows_nest.Tracker.Laws.{
  IsConsistent, record_of, record_of-set, set_episode, set-IsConsistent, clear_stale-IsConsistent,
  record_of-clear_stale,
}
use signalk_crows_nest.Retention.{IsSpread}
use signalk_crows_nest.Episode.Settle.{member-keys}
use signalk_crows_nest.Route.{
  BridgeClearanceVerdict, RouteEntry, RouteListScan, route_retained, config, build_message,
  entry_of, is_due, warn, flag_step, flag_each, flag_from, evaluate,
}

pub route-IsSpread : {F : Type 0} → IsSpread (route_retained {F = F})
route-IsSpread = record {
  summary-refresh = λ p t e. refl;
  listed-refresh = λ p t e. refl;
  unconfirmed-refresh = λ p t e. refl;
  refresh-refresh = λ p q t u e. refl;
  summary-mark = λ e. refl;
  listed-mark = λ e. refl;
  unconfirmed-mark = λ e. refl;
}

module _ {F : Type 0} where
  -- A map of corridor points is keyed by their ids.
  abbrev pub IsKeyed : List (String × CorridorPoi F) → Type 0
  IsKeyed [] = Unit
  IsKeyed ((k, a) ∷ m) = (k ≡ a.id) × IsKeyed m

  IsKeyed-set :
      (a : CorridorPoi F) (m : List (String × CorridorPoi F))
      → IsKeyed m
      → IsKeyed (JsMap.set a.id a m)
  unfolding JsMap.set
  IsKeyed-set a [] h = (refl, tt)
  IsKeyed-set a ((j, b) ∷ m) h = ground (arith, eq_iff j a.id, IsKeyed-set a m h.1)

  any-keyed :
      (j : String) (m : List (String × CorridorPoi F))
      → IsKeyed m
      → any (λ a. str_eq a.id j) (JsMap.values m) ≡ JsMap.has j m
  unfolding JsMap.get
  any-keyed j [] h = refl
  any-keyed j ((k, a) ∷ m) h = ground (arith, any-keyed j m h.1)

  has-set :
      (j : String) (a : CorridorPoi F) (m : List (String × CorridorPoi F))
      → JsMap.has j (JsMap.set a.id a m) ≡ (str_eq a.id j || JsMap.has j m)
  unfolding JsMap.set JsMap.get
  has-set j a [] = ground arith
  has-set j a ((k, b) ∷ m) = ground (arith, eq_iff k a.id, eq_iff k j, eq_iff a.id j, has-set j a m)

module _ ⦃p : Platform⦄ {F : Type 0} where
  -- The start of an episode that is on record.
  abbrev pub raised_at : String → Tracker (RouteEntry F) → Option String
  raised_at j s = Option.map (λ r. r.raised_at) (record_of j s)

module _ {F : Type 0} ⦃n : Floats F⦄ where
  IsKeyed-flag_from :
      (l : List (CorridorPoi F)) (m : List (String × CorridorPoi F))
      → IsKeyed m
      → IsKeyed (flag_from m l)
  unfolding flag_from
  IsKeyed-flag_from [] m h = h
  IsKeyed-flag_from (a ∷ l) m h = IsKeyed-flag_from l (JsMap.set a.id a m) (IsKeyed-set a m h)

  has-flag_from :
      (j : String) (l : List (CorridorPoi F)) (m : List (String × CorridorPoi F))
      → JsMap.has j (flag_from m l) ≡ (JsMap.has j m || any (λ a. str_eq a.id j) l)
  unfolding flag_from
  has-flag_from j [] m = ground arith
  has-flag_from j (a ∷ l) m = has-flag_from j l (JsMap.set a.id a m) ∙ ground (arith, has-set j a m)

  module _ ⦃p : Platform⦄ (f : IsFaithful p) (list : RouteListScan F)
      (too_low : List (String × BridgeClearanceVerdict F)) where
    -- A warning, due or not, leaves the tracker consistent and the point active.
    flag_step-IsConsistent :
        (a : CorridorPoi F) (s : Tracker (RouteEntry F))
        → IsConsistent s
        → IsConsistent (flag_step list too_low a s)
    unfolding flag_step warn
    flag_step-IsConsistent a s c =
        let message = build_message a (JsMap.get a.id too_low) in
        let existing = Tracker.get a.id s in
        let c' = set-IsConsistent f a.id (entry_of list a message existing) s c in
        elim (Bool-cases (is_due message existing)) [
          | inl due ↦ ground arith
          | inr not_due ↦ ground arith
        ]

    -- What is on record after a step: the point's own record if it was due, else what was there.
    record_of-flag_step :
        (j : String) (a : CorridorPoi F) (s : Tracker (RouteEntry F))
        → record_of j (flag_step list too_low a s) ≡ (
            let message = build_message a (JsMap.get a.id too_low) in
            let existing = Tracker.get a.id s in
            if is_due message existing
            then record_of j (Tracker.set a.id (entry_of list a message existing) s).0
            else record_of j s)
    unfolding flag_step warn
    record_of-flag_step j a s =
        let message = build_message a (JsMap.get a.id too_low) in
        let existing = Tracker.get a.id s in
        elim (Bool-cases (is_due message existing)) [
          | inl due ↦ ground arith
          | inr not_due ↦ ground arith
        ]

    has-flag_step :
        (j : String) (a : CorridorPoi F) (s : Tracker (RouteEntry F))
        → Tracker.has j (flag_step list too_low a s) ≡ (Tracker.has j s || str_eq a.id j)
    unfolding Tracker.has Tracker.get
    has-flag_step j a s =
        let message = build_message a (JsMap.get a.id too_low) in
        ground (
          arith,
          eq_iff a.id j,
          record_of-flag_step j a s,
          record_of-set f a.id j (entry_of list a message (Tracker.get a.id s)) s,
        )

    raised_at-flag_step :
        (j when : String) (a : CorridorPoi F) (s : Tracker (RouteEntry F))
        → raised_at j s ≡ some when
        → raised_at j (flag_step list too_low a s) ≡ some when
    raised_at-flag_step j when a s h =
        let message = build_message a (JsMap.get a.id too_low) in
        let entry = entry_of list a message (Tracker.get a.id s) in
        ground (
          arith,
          eq_iff a.id j,
          record_of-flag_step j a s,
          record_of-set f a.id j entry s,
          set_episode f a.id entry s,
        )

    flag_each-IsConsistent :
        (l : List (CorridorPoi F)) (s : Tracker (RouteEntry F))
        → IsConsistent s
        → IsConsistent (flag_each list too_low l s)
    unfolding flag_each
    flag_each-IsConsistent [] s c = c
    flag_each-IsConsistent (a ∷ l) s c =
        flag_each-IsConsistent l (flag_step list too_low a s) (flag_step-IsConsistent a s c)

    has-flag_each :
        (j : String) (l : List (CorridorPoi F)) (s : Tracker (RouteEntry F))
        → Tracker.has j (flag_each list too_low l s)
          ≡ (Tracker.has j s || any (λ a. str_eq a.id j) l)
    unfolding flag_each
    has-flag_each j [] s = ground arith
    has-flag_each j (a ∷ l) s =
        has-flag_each j l (flag_step list too_low a s) ∙ ground (arith, has-flag_step j a s)

    raised_at-flag_each :
        (j when : String) (l : List (CorridorPoi F)) (s : Tracker (RouteEntry F))
        → raised_at j s ≡ some when
        → raised_at j (flag_each list too_low l s) ≡ some when
    unfolding flag_each
    raised_at-flag_each j when [] s h = h
    raised_at-flag_each j when (a ∷ l) s h =
        raised_at-flag_each j when l (flag_step list too_low a s) (raised_at-flag_step j when a s h)

    pub evaluate-IsConsistent :
        (l : List (CorridorPoi F)) (s : Tracker (RouteEntry F))
        → IsConsistent s
        → IsConsistent (evaluate list l too_low s)
    unfolding evaluate
    evaluate-IsConsistent [] s c = clear_stale-IsConsistent f config [] s c
    evaluate-IsConsistent (a ∷ l) s c =
        clear_stale-IsConsistent f config (JsMap.keys (flag_from [] (a ∷ l)))
          (flag_each list too_low (JsMap.values (flag_from [] (a ∷ l))) s)
          (flag_each-IsConsistent (JsMap.values (flag_from [] (a ∷ l))) s c)

    -- The points that are flagged, by id.
    has-flagged :
        (j : String) (l : List (CorridorPoi F))
        → JsMap.has j (flag_from [] l) ≡ any (λ a. str_eq a.id j) l
    unfolding JsMap.get
    has-flagged j l = has-flag_from j l []

    -- After an evaluation on a consistent tracker an id is active exactly when some point
    -- of the corridor has it, the empty corridor included.
    pub has-route-evaluate :
        (j : String) (l : List (CorridorPoi F)) (s : Tracker (RouteEntry F))
        → IsConsistent s
        → Tracker.has j (evaluate list l too_low s) ≡ any (λ a. str_eq a.id j) l
    unfolding evaluate Tracker.has JsMap.member
    has-route-evaluate j [] s c = ground (arith, record_of-clear_stale f config j [] s c)
    has-route-evaluate j (a ∷ l) s c =
        let m = flag_from [] (a ∷ l) in
        ground (
          arith,
          member-keys j m,
          has-flagged j (a ∷ l),
          record_of-clear_stale f config j (JsMap.keys m)
              (flag_each list too_low (JsMap.values m) s)
              (flag_each-IsConsistent (JsMap.values m) s c),
          has-flag_each j (JsMap.values m) s,
          any-keyed j m (IsKeyed-flag_from (a ∷ l) [] tt),
        )

    -- On a consistent tracker, a warning on record whose id some point of the corridor has
    -- keeps the start of its episode, whether its message is sent again or not.
    pub raised_at-evaluate :
        (j when : String) (l : List (CorridorPoi F)) (s : Tracker (RouteEntry F))
        → IsConsistent s
        → raised_at j s ≡ some when
        → any (λ a. str_eq a.id j) l ≡ true
        → raised_at j (evaluate list l too_low s) ≡ some when
    unfolding evaluate
    raised_at-evaluate j when [] s c h inside = cc
    raised_at-evaluate j when (a ∷ l) s c h inside =
        let m = flag_from [] (a ∷ l) in
        let s' = flag_each list too_low (JsMap.values m) s in
        ap (Option.map (λ r. r.raised_at)) (
          record_of-clear_stale f config j (JsMap.keys m) s'
            (flag_each-IsConsistent (JsMap.values m) s c)
          ∙ rw (member-keys j m, has-flagged j (a ∷ l), inside))
        ∙ raised_at-flag_each j when (JsMap.values m) s h
