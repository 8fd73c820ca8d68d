-- ===== src/Retention/Replay.antt =====
-- A replay of a list result.
use signalk_crows_nest.Prelude.{
  ℕ, String, List, [], ◌∷◌, ◌++◌, Option, none, some, ◌≡◌, refl, ◌∙◌, All, arith,
}
use signalk_crows_nest.JsMap
use signalk_crows_nest.JsMap.Laws.{IsDistinct}
use signalk_crows_nest.Types.{PoiSummary}
use signalk_crows_nest.Notification.{Platform, sanitize_poi_id}
use signalk_crows_nest.Tracker.{Tracked, Tracker}
use signalk_crows_nest.Tracker.Laws.{IsConsistent}
use signalk_crows_nest.Retention.{RetainedPoi, IsSpread, complete_with_retained}
use signalk_crows_nest.Retention.Laws.{last_report, held_entry, held_points, hold_all, restored}
use signalk_crows_nest.Retention.Refinement.{complete_with_retained_lem}

module _ {F T : Type 0} ⦃r : RetainedPoi F T⦄ (w : IsSpread r) where
  open r use {summary, last_listed_at, unconfirmed, refresh, mark}

  held_entry_idem :
      (t : ℕ) (rep : Option (PoiSummary F)) (e : T)
      → held_entry t rep (held_entry t rep e) ≡ held_entry t rep e
  unfolding held_entry
  held_entry_idem t (some q) e = w.refresh-refresh q q t t e
  held_entry_idem t none e = ground (arith, w.summary-mark e, w.listed-mark e, w.unconfirmed-mark e)

  held_points_idem :
      (t : ℕ) (rep : Option (PoiSummary F)) (e : T)
      → held_points t rep (held_entry t rep e) ≡ held_points t rep e
  unfolding held_entry held_points
  held_points_idem t (some q) e = refl
  held_points_idem t none e =
      ground (arith, w.summary-mark e, w.listed-mark e, w.unconfirmed-mark e)

  hold_all_idem :
      (pois : List (PoiSummary F)) (t : ℕ) (m : List (String × Tracked T))
      → hold_all pois t (hold_all pois t m) ≡ hold_all pois t m
  hold_all_idem pois t [] = refl
  hold_all_idem pois t ((k, x) ∷ m) = λ i.
      (k, record x { entry = held_entry_idem t (last_report x.poi_id pois) x.entry i })
      ∷ hold_all_idem pois t m i

  restored_idem :
      (pois : List (PoiSummary F)) (t : ℕ) (m : List (String × Tracked T))
      → restored pois t (hold_all pois t m) ≡ restored pois t m
  restored_idem pois t [] = refl
  restored_idem pois t ((k, x) ∷ m) =
      λ i. held_points_idem t (last_report x.poi_id pois) x.entry i ++ restored_idem pois t m i

  pub hold_all-IsDistinct :
      (pois : List (PoiSummary F)) (t : ℕ) (m : List (String × Tracked T))
      → ((k : String) → JsMap.has k (hold_all pois t m) ≡ JsMap.has k m)
        × (IsDistinct m → IsDistinct (hold_all pois t m))
  unfolding JsMap.get
  hold_all-IsDistinct pois t [] = (λ k. refl, λ d. tt)
  hold_all-IsDistinct pois t ((j, x) ∷ m) =
      let (same, apart) = hold_all-IsDistinct pois t m in
      (λ k. ground (arith, same k), λ d. (same j ∙ d.0, apart d.1))

  hold_all-named :
      ⦃p : Platform⦄ (pois : List (PoiSummary F)) (t : ℕ) (m : List (String × Tracked T))
      → All (λ e. e.0 ≡ sanitize_poi_id e.1.poi_id) m
      → All (λ e. e.0 ≡ sanitize_poi_id e.1.poi_id) (hold_all pois t m)
  hold_all-named pois t [] h = tt
  hold_all-named pois t ((j, x) ∷ m) h = (h.0, hold_all-named pois t m h.1)

  module _ ⦃p : Platform⦄ where
    -- The completion keeps the tracker consistent.
    pub complete_with_retained-IsConsistent :
        (s : Tracker T) (pois : List (PoiSummary F)) (t : ℕ)
        → IsConsistent s
        → IsConsistent (complete_with_retained s pois t).1
    complete_with_retained-IsConsistent s pois t c =
        rw (complete_with_retained_lem s pois t c) (record {
          distinct = (hold_all-IsDistinct pois t s.active).1 c.distinct;
          named = hold_all-named pois t s.active c.named;
        })

    -- On a consistent tracker, replaying a list result with its own time changes nothing:
    -- the same list comes out, and the tracker, with every reconfirmation window in it,
    -- stays as it was.
    pub complete_with_retained_replay :
        (s : Tracker T) (pois : List (PoiSummary F)) (t : ℕ)
        → IsConsistent s
        → complete_with_retained (complete_with_retained s pois t).1 pois t
          ≡ complete_with_retained s pois t
    complete_with_retained_replay s pois t c =
        complete_with_retained_lem (complete_with_retained s pois t).1 pois t
          (complete_with_retained-IsConsistent s pois t c)
        ∙ rw (complete_with_retained_lem s pois t c, restored_idem, hold_all_idem)
