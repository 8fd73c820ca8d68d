-- ===== src/Retention/Laws.antt =====
-- The completion is the list with the held points behind it, over the tracker with each entry
-- replaced in place.
use signalk_crows_nest.Prelude.{
  ℕ, ◌-◌, String, str_eq, eq_iff, List, [], ◌∷◌, ◌++◌, Option, none, some, Bool, true, ◌||◌,
  if◌then◌else◌, ltb, ◌≡◌, refl, arith, or_option, any,
}
use signalk_crows_nest.JsMap
use signalk_crows_nest.JsMap.Laws.{IsDistinct, get-set, member-add}
use signalk_crows_nest.JsMap.Positions.{get-append_first, set-append_first}
use signalk_crows_nest.Types.{PoiSummary}
use signalk_crows_nest.Notification.{Platform, sanitize_poi_id}
use signalk_crows_nest.Tracker
use signalk_crows_nest.Tracker.{Tracked, Tracker, raised_at_of}
use signalk_crows_nest.Retention.{
  RetainedPoi, alarm_reconfirm_window_ms, alarming_from, listed_from,
}

-- The last summary that a list has for an id.
abbrev pub last_report : {F : Type 0} → String → List (PoiSummary F) → Option (PoiSummary F)
last_report id [] = none
last_report id (poi ∷ pois) =
    or_option (last_report id pois) (if str_eq poi.id id then some poi else none)

pub alarming_from-member :
    {T : Type 0} (j : String) (ids : List String) (es : List (String × T))
    → JsMap.member j (alarming_from ids es) ≡ (JsMap.member j ids || any (λ e. str_eq e.0 j) es)
unfolding alarming_from
alarming_from-member j ids [] = ground arith
alarming_from-member j ids ((i, e) ∷ es) =
    ground (arith, alarming_from-member j (JsMap.add i ids) es, member-add i j ids)

pub listed_from-get :
    {F : Type 0} (j : String) (alarming : List String) (listed : List (String × PoiSummary F))
    (pois : List (PoiSummary F))
    → JsMap.member j alarming ≡ true
    → JsMap.get j (listed_from alarming listed pois)
      ≡ or_option (last_report j pois) (JsMap.get j listed)
unfolding listed_from
listed_from-get j alarming listed [] h = refl
listed_from-get j alarming listed (poi ∷ pois) h = ground (
  arith,
  eq_iff poi.id j,
  listed_from-get j alarming listed pois h,
  listed_from-get j alarming (JsMap.set poi.id poi listed) pois h,
  get-set poi.id j poi listed,
)

-- An entry is out of date when nothing reported its point for longer than the window.
abbrev pub is_expired : ℕ → ℕ → Bool
is_expired list_fetched_at listed_at = ltb alarm_reconfirm_window_ms (list_fetched_at - listed_at)

module _ {F T : Type 0} ⦃r : RetainedPoi F T⦄ where
  open r use {summary, last_listed_at, unconfirmed, refresh, mark}

  -- The entry after a list that last reported its point as `report`.
  unfoldable pub held_entry : ℕ → Option (PoiSummary F) → T → T
  held_entry t (some reported) e = refresh reported t e
  held_entry t none e = elim (summary e) [
    | none ↦ e
    | some _ ↦ if is_expired t (last_listed_at e) then (if unconfirmed e then e else mark e) else e
  ]

  -- The point that is put back, if any.
  unfoldable pub held_points : ℕ → Option (PoiSummary F) → T → List (PoiSummary F)
  held_points t (some _) e = []
  held_points t none e = elim (summary e) [
    | none ↦ []
    | some held ↦ if is_expired t (last_listed_at e) then [] else held ∷ []
  ]

  abbrev pub hold : List (PoiSummary F) → ℕ → Tracked T → Tracked T
  hold pois t x = record x { entry = held_entry t (last_report x.poi_id pois) x.entry }

  abbrev pub hold_all :
      List (PoiSummary F) → ℕ → List (String × Tracked T) → List (String × Tracked T)
  hold_all pois t [] = []
  hold_all pois t ((k, x) ∷ m) = (k, hold pois t x) ∷ hold_all pois t m

  abbrev pub restored : List (PoiSummary F) → ℕ → List (String × Tracked T) → List (PoiSummary F)
  restored pois t [] = []
  restored pois t ((k, x) ∷ m) =
      held_points t (last_report x.poi_id pois) x.entry ++ restored pois t m

module _ ⦃p : Platform⦄ {T : Type 0} where
  pub set_in_place :
      (done : List (String × Tracked T)) (k : String) (x : Tracked T)
      (rest : List (String × Tracked T)) (e : T) (s : Tracker T)
      → k ≡ sanitize_poi_id x.poi_id
      → s.active ≡ done ++ (k, x) ∷ rest
      → IsDistinct (done ++ (k, x) ∷ rest)
      → (Tracker.set x.poi_id e s).0
        ≡ record s { active = done ++ (k, record x { entry = e }) ∷ rest }
  unfolding Tracker.set raised_at_of
  set_in_place done k x rest e s named a d = rw (
    ← named,
    a,
    get-append_first done k x rest d,
    raised_at_of,
    set-append_first done k x (record x { entry = e }) rest d,
  )
