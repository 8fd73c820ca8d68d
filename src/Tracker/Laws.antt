-- ===== src/Tracker/Laws.antt =====
-- What the tracker promises, read by raw ids: the encoding of the keys does not show.
use signalk_crows_nest.Prelude.{
  String, str_eq, eq_iff, List, [], ◌∷◌, ◌++◌, Option, none, some, not, ◌||◌, ◌≡◌, refl,
  if◌then◌else◌, map, keep_if, arith, ◌∙◌, ap, All, ◌+◌,
}
use signalk_crows_nest.JsMap
use signalk_crows_nest.JsMap.{member}
use signalk_crows_nest.JsMap.Laws.{IsDistinct, get-set, set-IsDistinct, member-add}
use signalk_crows_nest.Notification.{Platform, sanitize_poi_id, now_iso}
use signalk_crows_nest.Notification.Sanitize.{IsFaithful, sanitize_poi_id_injective}
use signalk_crows_nest.Notification.Notices.{notices}
use signalk_crows_nest.Tracker.{
  Config, Tracked, Tracker, keep_from, keep_set, clear_stale, clear_all, raised_at_of, set,
}
use signalk_crows_nest.Tracker.Sweep.{clear_notice, kept, dropped, sweep_lem, clear_each-sweep}

module _ ⦃p : Platform⦄ {T : Type 0} where
  -- Every key is the encoding of the id that its record holds, and stands once.
  pub record IsConsistent (s : Tracker T) : Type 0 where
    pub distinct : IsDistinct s.active
    pub named : All (λ e. e.0 ≡ sanitize_poi_id e.1.poi_id) s.active

  -- Consistency is about the active map alone.
  pub IsConsistent-active :
      (s s' : Tracker T) → s'.active ≡ s.active → IsConsistent s → IsConsistent s'
  IsConsistent-active s s' e c = record { distinct = rw e c.distinct; named = rw e c.named }

  -- The record of an id.
  abbrev pub record_of : String → Tracker T → Option (Tracked T)
  record_of id s = JsMap.get (sanitize_poi_id id) s.active

pub sanitize-eq :
    ⦃p : Platform⦄
    → IsFaithful p
    → (a b : String) → str_eq (sanitize_poi_id a) (sanitize_poi_id b) ≡ str_eq a b
sanitize-eq f a b = ground (
  arith,
  eq_iff a b,
  eq_iff (sanitize_poi_id a) (sanitize_poi_id b),
  sanitize_poi_id_injective f a b,
)

keep_from-member :
    ⦃p : Platform⦄
    → IsFaithful p
    → (j : String) (keep ids : List String)
    → member (sanitize_poi_id j) (keep_from keep ids)
      ≡ (member (sanitize_poi_id j) keep || member j ids)
unfolding keep_from member
keep_from-member f j keep [] = ground arith
keep_from-member f j keep (i ∷ ids) = ground (
  arith,
  keep_from-member f j (JsMap.add (sanitize_poi_id i) keep) ids,
  member-add (sanitize_poi_id i) (sanitize_poi_id j) keep,
  sanitize-eq f i j,
)

-- An id is in the encoded set exactly when it is one of the ids.
pub keep_set-member :
    ⦃p : Platform⦄
    → IsFaithful p
    → (j : String) (ids : List String) → member (sanitize_poi_id j) (keep_set ids) ≡ member j ids
unfolding keep_set member
keep_set-member f j ids = keep_from-member f j [] ids

module _ ⦃p : Platform⦄ {T : Type 0} (f : IsFaithful p) where
  -- a missing key of a filtered map is missing
  get-kept :
      (cfg : Config T) (keep : List String) (k : String) (m : List (String × Tracked T))
      → JsMap.get k (kept cfg keep m) ≡ (if member k keep then JsMap.get k m else none)
  unfolding JsMap.get
  get-kept cfg keep k [] = ground arith
  get-kept cfg keep k ((j, r) ∷ m) = ground (arith, eq_iff j k, get-kept cfg keep k m)

  kept-IsDistinct :
      (cfg : Config T) (keep : List String) (m : List (String × Tracked T))
      → IsDistinct m
      → IsDistinct (kept cfg keep m)
  kept-IsDistinct cfg keep [] d = tt
  kept-IsDistinct cfg keep ((j, r) ∷ m) d =
      ground (arith, get-kept cfg keep j m, kept-IsDistinct cfg keep m d.1)

  kept-named :
      (cfg : Config T) (keep : List String) (m : List (String × Tracked T))
      → All (λ e. e.0 ≡ sanitize_poi_id e.1.poi_id) m
      → All (λ e. e.0 ≡ sanitize_poi_id e.1.poi_id) (kept cfg keep m)
  kept-named cfg keep [] d = tt
  kept-named cfg keep ((j, r) ∷ m) d = ground (arith, kept-named cfg keep m d.1)

  dropped-named :
      (cfg : Config T) (ids : List String) (m : List (String × Tracked T))
      → All (λ e. e.0 ≡ sanitize_poi_id e.1.poi_id) m
      → dropped cfg (keep_set ids) m ≡ keep_if (λ r. not (member r.poi_id ids)) (JsMap.values m)
  dropped-named cfg ids [] d = refl
  dropped-named cfg ids ((j, r) ∷ m) d =
      ground (arith, dropped-named cfg ids m d.1, keep_set-member f r.poi_id ids)

  pub record_of-set :
      (i j : String) (e : T) (s : Tracker T)
      → record_of j (set i e s).0 ≡ (
          if str_eq i j
          then some (record { entry = e; poi_id = i; raised_at = (set i e s).1 })
          else record_of j s)
  unfolding set
  record_of-set i j e s =
      get-set (sanitize_poi_id i) (sanitize_poi_id j) _ s.active ∙ rw (sanitize-eq f i j)

  -- An episode's start is the one on record, or the clock's reading where the id is not active. The
  -- clock is read only then, and nothing is sent.
  pub set_episode :
      (i : String) (e : T) (s : Tracker T)
      → ((set i e s).1
          ≡ elim (record_of i s) [ some r ↦ r.raised_at | none ↦ s.app.clock s.app.reads ])
        × ((set i e s).0.app ≡ record s.app {
          reads = elim (record_of i s) [ some _ ↦ s.app.reads | none ↦ s.app.reads + 1 ];
        })
  unfolding set raised_at_of now_iso
  set_episode i e s = ground arith

  set-named :
      (i : String) (r : Tracked T) (m : List (String × Tracked T))
      → r.poi_id ≡ i
      → All (λ e. e.0 ≡ sanitize_poi_id e.1.poi_id) m
      → All (λ e. e.0 ≡ sanitize_poi_id e.1.poi_id) (JsMap.set (sanitize_poi_id i) r m)
  unfolding JsMap.set
  set-named i r [] h d = (cc, tt)
  set-named i r ((j, w) ∷ m) h d =
      ground (arith, eq_iff j (sanitize_poi_id i), set-named i r m h d.1)

  pub set-IsConsistent :
      (i : String) (e : T) (s : Tracker T) → IsConsistent s → IsConsistent (set i e s).0
  unfolding set
  set-IsConsistent i e s c = record {
    distinct = set-IsDistinct (sanitize_poi_id i) _ s.active c.distinct;
    named = set-named i _ s.active refl c.named;
  }

  kept_none : (cfg : Config T) (m : List (String × Tracked T)) → kept cfg [] m ≡ []
  unfolding member
  kept_none cfg [] = refl
  kept_none cfg (e ∷ m) = kept_none cfg m

  dropped_all : (cfg : Config T) (m : List (String × Tracked T)) → dropped cfg [] m ≡ JsMap.values m
  unfolding member
  dropped_all cfg [] = refl
  dropped_all cfg (e ∷ m) = ap (◌∷◌ e.1) (dropped_all cfg m)

  module _ (cfg : Config T) where
    pub clear_stale-IsConsistent :
        (ids : List String) (s : Tracker T) → IsConsistent s → IsConsistent (clear_stale cfg ids s)
    unfolding clear_stale
    clear_stale-IsConsistent ids s c =
        let e = (sweep_lem cfg (keep_set ids) s c.distinct).0 in
        record {
          distinct = rw e (kept-IsDistinct cfg (keep_set ids) s.active c.distinct);
          named = rw e (kept-named cfg (keep_set ids) s.active c.named);
        }

    -- On a consistent tracker, clearing what is stale keeps the record of an id that is
    -- among the active ids as it is, and leaves no record of any other id.
    pub record_of-clear_stale :
        (j : String) (ids : List String) (s : Tracker T)
        → IsConsistent s
        → record_of j (clear_stale cfg ids s) ≡ (if member j ids then record_of j s else none)
    unfolding clear_stale
    record_of-clear_stale j ids s c = rw (
      (sweep_lem cfg (keep_set ids) s c.distinct).0,
      get-kept cfg (keep_set ids) (sanitize_poi_id j) s.active,
      keep_set-member f j ids,
    )

    -- On a consistent tracker, clearing what is stale sends one clear for each entry whose
    -- id is not among the active ids, in the order of the active map, and nothing else.
    pub notices-clear_stale :
        (ids : List String) (s : Tracker T)
        → IsConsistent s
        → notices (clear_stale cfg ids s).app
          ≡ notices s.app
            ++ map
                (clear_notice cfg)
                (keep_if (λ r. not (member r.poi_id ids)) (JsMap.values s.active))
    unfolding clear_stale
    notices-clear_stale ids s c =
        rw ((sweep_lem cfg (keep_set ids) s c.distinct).1, dropped-named cfg ids s.active c.named)

    -- On a consistent tracker, clearing all leaves nothing active and sends one clear for
    -- each entry, in the order of the active map, and nothing else.
    pub clear_all_lem :
        (s : Tracker T)
        → IsConsistent s
        → ((clear_all cfg s).active ≡ [])
          × (notices (clear_all cfg s).app
              ≡ notices s.app ++ map (clear_notice cfg) (JsMap.values s.active))
    unfolding clear_all
    clear_all_lem s c =
        let (a, b) = sweep_lem cfg [] s c.distinct in
        rw clear_each-sweep (
          a ∙ kept_none cfg s.active,
          b ∙ ap (λ l. notices s.app ++ map (clear_notice cfg) l) (dropped_all cfg s.active),
        )
