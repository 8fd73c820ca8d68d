-- ===== src/Episode/Settle.antt =====
-- The whole of the entry and exit half over a map of what is in alarm.
use signalk_crows_nest.Prelude.{
  ℕ, ◌+◌, String, str_eq, eq_iff, List, [], ◌∷◌, ◌++◌, Bool, true, not, ◌||◌, ◌≡◌, refl, sym, ap,
  ◌∙◌, map, arith, All, any, keep_if, append-nil, Bool-cases, inl, inr,
}
use signalk_crows_nest.JsMap
use signalk_crows_nest.JsMap.Laws.{IsDistinct}
use signalk_crows_nest.JsMap.Positions.{get-append}
use signalk_crows_nest.Notification.{Platform, sanitize_poi_id}
use signalk_crows_nest.Notification.Sanitize.{IsFaithful}
use signalk_crows_nest.Notification.Notices.{notices}
use signalk_crows_nest.Tracker
use signalk_crows_nest.Tracker.{Config, Tracked, Tracker}
use signalk_crows_nest.Tracker.Sweep.{clear_notice}
use signalk_crows_nest.Tracker.Laws.{
  IsConsistent, record_of, set-IsConsistent, clear_stale-IsConsistent, record_of-clear_stale,
  notices-clear_stale,
}
use signalk_crows_nest.Episode.{Raising, raise, raise_new}
use signalk_crows_nest.Episode.Laws.{
  IsKeyed, AreApart, new_ones, new_record, new_notice, at_readings, has-raise, raise_new_lem,
  raise_new_old, raise_new_fresh,
}

pub member-keys :
    {V : Type 0} (j : String) (m : List (String × V))
    → JsMap.member j (JsMap.keys m) ≡ JsMap.has j m
unfolding JsMap.member JsMap.get
member-keys j [] = refl
member-keys j ((k, v) ∷ m) = ground (arith, member-keys j m)

keep_if-append :
    {A : Type 0} (q : A → Bool) (xs ys : List A)
    → keep_if q (xs ++ ys) ≡ keep_if q xs ++ keep_if q ys
keep_if-append q [] ys = refl
keep_if-append q (x ∷ xs) ys = ground (arith, keep_if-append q xs ys)

values-append :
    {V : Type 0} (m m' : List (String × V))
    → JsMap.values (m ++ m') ≡ JsMap.values m ++ JsMap.values m'
values-append [] m' = refl
values-append (e ∷ m) m' = ap (◌∷◌ e.1) (values-append m m')

module _ ⦃p : Platform⦄ {A T : Type 0} (r : Raising A T) (f : IsFaithful p) where
  any-keyed :
      (j : String) (m : List (String × A))
      → IsKeyed r m
      → any (λ a. str_eq (r.poi_id a) j) (JsMap.values m) ≡ JsMap.has j m
  unfolding JsMap.get
  any-keyed j [] h = refl
  any-keyed j ((k, a) ∷ m) h = ground (arith, any-keyed j m h.1)

  AreApart-values :
      (m : List (String × A)) → IsKeyed r m → IsDistinct m → AreApart r (JsMap.values m)
  AreApart-values [] h d = tt
  AreApart-values ((k, a) ∷ m) h d =
      (any-keyed (r.poi_id a) m h.1 ∙ rw (sym h.0) d.0, AreApart-values m h.1 d.1)

  has-raise_new :
      (j : String) (xs : List A) (s : Tracker T)
      → Tracker.has j (raise_new r xs s) ≡ (Tracker.has j s || any (λ a. str_eq (r.poi_id a) j) xs)
  unfolding raise_new
  has-raise_new j [] s = ground arith
  has-raise_new j (a ∷ xs) s = elim (Bool-cases (Tracker.has (r.poi_id a) s)) [
    | inl old ↦
        rw (raise_new_old r a xs s old)
          (ground (arith, eq_iff (r.poi_id a) j, has-raise_new j xs s))
    | inr new ↦
        rw (raise_new_fresh r a xs s new)
          (ground (arith, has-raise r f j a s new, has-raise_new j xs (raise r a s)))
  ]

  raise-IsConsistent : (a : A) (s : Tracker T) → IsConsistent s → IsConsistent (raise r a s)
  unfolding raise
  raise-IsConsistent a s c =
      let c' = set-IsConsistent f (r.poi_id a) (r.entry a) s c in
      record { distinct = c'.distinct; named = c'.named }

  raise_new-IsConsistent :
      (xs : List A) (s : Tracker T) → IsConsistent s → IsConsistent (raise_new r xs s)
  unfolding raise_new
  raise_new-IsConsistent [] s c = c
  raise_new-IsConsistent (a ∷ xs) s c = elim (Bool-cases (Tracker.has (r.poi_id a) s)) [
    | inl old ↦ rw (raise_new_old r a xs s old) (raise_new-IsConsistent xs s c)
    | inr new ↦
        rw (raise_new_fresh r a xs s new)
          (raise_new-IsConsistent xs (raise r a s) (raise-IsConsistent a s c))
  ]

  -- The values whose id is not in the map.
  abbrev pub gone : List (String × A) → Tracker T → List (Tracked T)
  gone m s = keep_if (λ x. not (JsMap.has x.poi_id m)) (JsMap.values s.active)

  module _ (cfg : Config T) where
    abbrev pub settle : List (String × A) → Tracker T → Tracker T
    settle m s = Tracker.clear_stale cfg (JsMap.keys m) (raise_new r (JsMap.values m) s)

    pub settle-IsConsistent :
        (m : List (String × A)) (s : Tracker T) → IsConsistent s → IsConsistent (settle m s)
    settle-IsConsistent m s c =
        clear_stale-IsConsistent f cfg (JsMap.keys m) (raise_new r (JsMap.values m) s)
          (raise_new-IsConsistent (JsMap.values m) s c)

    -- What is active afterwards is what is in the map.
    pub has-settle :
        (j : String) (m : List (String × A)) (s : Tracker T)
        → IsKeyed r m
        → IsConsistent s
        → Tracker.has j (settle m s) ≡ JsMap.has j m
    unfolding Tracker.has
    has-settle j m s h c = ground (
      arith,
      record_of-clear_stale f cfg j (JsMap.keys m) (raise_new r (JsMap.values m) s)
          (raise_new-IsConsistent (JsMap.values m) s c),
      member-keys j m,
      has-raise_new j (JsMap.values m) s,
      any-keyed j m h,
    )

    -- An entry that was active and is in the map is left alone, its episode's start included.
    pub record_of-settle :
        (j : String) (m : List (String × A)) (s : Tracker T)
        → IsKeyed r m
        → IsDistinct m
        → IsConsistent s
        → JsMap.has j m ≡ true
        → Tracker.has j s ≡ true
        → record_of j (settle m s) ≡ record_of j s
    unfolding Tracker.has
    record_of-settle j m s h d c inside active =
        record_of-clear_stale f cfg j (JsMap.keys m) (raise_new r (JsMap.values m) s)
          (raise_new-IsConsistent (JsMap.values m) s c)
        ∙ rw
            (
              member-keys j m,
              inside,
              (raise_new_lem r f (JsMap.values m) s (AreApart-values m h d)).0,
              get-append (sanitize_poi_id j) s.active (
                  at_readings r (new_record r) s.app.clock s.app.reads
                    (new_ones r s (JsMap.values m))),
            )
            (ground arith)

  keep_if-keys :
      (m : List (String × A)) (xs : List (Tracked T))
      → keep_if (λ x. not (JsMap.member x.poi_id (JsMap.keys m))) xs
        ≡ keep_if (λ x. not (JsMap.has x.poi_id m)) xs
  keep_if-keys m [] = refl
  keep_if-keys m (x ∷ xs) = ground (arith, member-keys x.poi_id m, keep_if-keys m xs)

  -- Values of the map are in the map.
  All-inside :
      (m m' : List (String × A))
      → IsKeyed r m'
      → ((j : String) → JsMap.has j m' ≡ true → JsMap.has j m ≡ true)
      → All (λ a. JsMap.has (r.poi_id a) m ≡ true) (JsMap.values m')
  unfolding JsMap.get
  All-inside m [] h sub = tt
  All-inside m ((k, a) ∷ m') h sub = (
    sub (r.poi_id a) (ground (arith, eq_iff k (r.poi_id a))),
    All-inside m m' h.1 (λ j e. sub j (ground arith)),
  )

  none_gone :
      (m : List (String × A)) (s : Tracker T) (clock : ℕ → String) (reads : ℕ) (xs : List A)
      → All (λ a. JsMap.has (r.poi_id a) m ≡ true) xs
      → keep_if
          (λ x. not (JsMap.has x.poi_id m))
          (JsMap.values (at_readings r (new_record r) clock reads (new_ones r s xs)))
        ≡ []
  none_gone m s clock reads [] h = refl
  none_gone m s clock reads (a ∷ xs) h = elim (Bool-cases (Tracker.has (r.poi_id a) s)) [
    | inl old ↦ rw old (none_gone m s clock reads xs h.1)
    | inr new ↦ rw (new, h.0) (none_gone m s clock (reads + 2) xs h.1)
  ]

  module _ (cfg : Config T) where
    -- One notice for each value that is new, in the map's order, then one clear notice for each
    -- entry that is not in the map, in the order in which their alarms were raised; no other.
    pub notices-settle :
        (m : List (String × A)) (s : Tracker T)
        → IsKeyed r m
        → IsDistinct m
        → IsConsistent s
        → notices (settle cfg m s).app
          ≡ notices s.app
            ++ at_readings r (new_notice r) s.app.clock s.app.reads (new_ones r s (JsMap.values m))
            ++ map (clear_notice cfg) (gone m s)
    notices-settle m s h d c =
        let s' = raise_new r (JsMap.values m) s in
        let (active', told) = raise_new_lem r f (JsMap.values m) s (AreApart-values m h d) in
        let fresh =
          at_readings r (new_record r) s.app.clock s.app.reads (new_ones r s (JsMap.values m)) in
        let left : keep_if (λ x. not (JsMap.member x.poi_id (JsMap.keys m)))
              (JsMap.values s'.active)
            ≡ gone m s =
          keep_if-keys m (JsMap.values s'.active)
          ∙ ap (λ l. keep_if (λ x. not (JsMap.has x.poi_id m)) (JsMap.values l)) active'
          ∙ ap (keep_if (λ x. not (JsMap.has x.poi_id m))) (values-append s.active fresh)
          ∙ keep_if-append (λ x. not (JsMap.has x.poi_id m)) (JsMap.values s.active)
              (JsMap.values fresh)
          ∙ ap (◌++◌ (gone m s))
              (none_gone m s s.app.clock s.app.reads (JsMap.values m) (All-inside m m h (λ j e. e)))
          ∙ append-nil (gone m s) in
        notices-clear_stale f cfg (JsMap.keys m) s' (raise_new-IsConsistent (JsMap.values m) s c)
        ∙ (λ i. told i ++ map (clear_notice cfg) (left i))

    none_new :
        (m : List (String × A)) (s : Tracker T) (xs : List A)
        → ((j : String) → JsMap.has j m ≡ Tracker.has j s)
        → All (λ a. JsMap.has (r.poi_id a) m ≡ true) xs
        → new_ones r s xs ≡ []
    none_new m s [] same h = refl
    none_new m s (a ∷ xs) same h = rw (sym (same (r.poi_id a)), h.0) (none_new m s xs same h.1)

    -- Every entry of a part of the tracker's map is found by its id.
    none_left :
        (m : List (String × A)) (s : Tracker T) (rest : List (String × Tracked T))
        → ((j : String) → JsMap.has j m ≡ Tracker.has j s)
        → All (λ e. e.0 ≡ sanitize_poi_id e.1.poi_id) rest
        → ((k : String) → JsMap.has k rest ≡ true → JsMap.has k s.active ≡ true)
        → keep_if (λ x. not (JsMap.has x.poi_id m)) (JsMap.values rest) ≡ []
    unfolding Tracker.has JsMap.get
    none_left m s [] same named sub = refl
    none_left m s ((k, x) ∷ rest) same named sub =
        let found : JsMap.has x.poi_id m ≡ true =
          same x.poi_id
          ∙ sub (sanitize_poi_id x.poi_id) (ground (arith, eq_iff k (sanitize_poi_id x.poi_id))) in
        rw found (none_left m s rest same named.1 (λ j e. sub j (ground arith)))

    -- Nothing is sent where what is in the map is what is active already.
    pub settle_silent :
        (m : List (String × A)) (s : Tracker T)
        → IsKeyed r m
        → IsDistinct m
        → IsConsistent s
        → ((j : String) → JsMap.has j m ≡ Tracker.has j s)
        → notices (settle cfg m s).app ≡ notices s.app
    settle_silent m s h d c same =
        notices-settle m s h d c
        ∙ rw (
          none_new m s (JsMap.values m) same (All-inside m m h (λ j e. e)),
          none_left m s s.active same c.named (λ k e. e),
          append-nil,
          append-nil,
        )
