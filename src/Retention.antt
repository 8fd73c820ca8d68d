-- ===== src/Retention.antt =====
-- src/outputs/alarm-retention.ts: the tick's list, completed with the points still alarming that it
-- omits.
pub mod Laws
pub mod Refinement
pub mod Replay
use signalk_crows_nest.Prelude.{
  ℕ, ◌*◌, ◌-◌, String, List, [], ◌∷◌, ◌++◌, Option, none, some, Bool, true, false, if◌then◌else◌,
  ltb, ◌==◌, ◌≡◌, or_else,
}
use signalk_crows_nest.JsMap
use signalk_crows_nest.Types.{PoiSummary, ms_per_minute}
use signalk_crows_nest.Notification.{Platform}
use signalk_crows_nest.Tracker
use signalk_crows_nest.Tracker.{Tracker}

abbrev pub alarm_reconfirm_window_ms : ℕ
alarm_reconfirm_window_ms = 30 * ms_per_minute

-- `T extends RetainedPoi`: the fields that a tracker's entry of any output has, and the two spreads
-- `{ ...entry, summary, lastListedAt }` and `{ ...entry, unconfirmed: true }`.
pub record RetainedPoi (F T : Type 0) : Type 0 where
  pub summary : T → Option (PoiSummary F)
  pub last_listed_at : T → ℕ
  pub unconfirmed : T → Bool
  pub refresh : PoiSummary F → ℕ → T → T
  pub mark : T → T

-- What a spread does to the fields that it names and to those that it does not.
pub record IsSpread {F T : Type 0} (r : RetainedPoi F T) : Type 0 where
  pub summary-refresh : (p : PoiSummary F) (t : ℕ) (e : T) → r.summary (r.refresh p t e) ≡ some p
  pub listed-refresh : (p : PoiSummary F) (t : ℕ) (e : T) → r.last_listed_at (r.refresh p t e) ≡ t
  pub unconfirmed-refresh :
      (p : PoiSummary F) (t : ℕ) (e : T) → r.unconfirmed (r.refresh p t e) ≡ r.unconfirmed e
  pub refresh-refresh :
      (p q : PoiSummary F) (t u : ℕ) (e : T) → r.refresh q u (r.refresh p t e) ≡ r.refresh q u e
  pub summary-mark : (e : T) → r.summary (r.mark e) ≡ r.summary e
  pub listed-mark : (e : T) → r.last_listed_at (r.mark e) ≡ r.last_listed_at e
  pub unconfirmed-mark : (e : T) → r.unconfirmed (r.mark e) ≡ true

-- The set of the alarming ids.
unfoldable pub alarming_from : {T : Type 0} → List String → List (String × T) → List String
alarming_from ids [] = ids
alarming_from ids ((poi_id, _) ∷ rest) = alarming_from (JsMap.add poi_id ids) rest

-- The summaries of the list whose id is alarming, by id.
unfoldable pub listed_from :
    {F : Type 0}
    → List String
    → List (String × PoiSummary F)
    → List (PoiSummary F)
    → List (String × PoiSummary F)
listed_from alarming listed [] = listed
listed_from alarming listed (poi ∷ pois) =
    listed_from alarming
      (if JsMap.member poi.id alarming then JsMap.set poi.id poi listed else listed) pois

module _ ⦃p : Platform⦄ {F T : Type 0} ⦃r : RetainedPoi F T⦄ where
  open r use {summary, last_listed_at, unconfirmed, refresh, mark}

  -- One round of the loop over the active entries: `completed` and the tracker after it.
  unfoldable pub hold_step :
      List (PoiSummary F)
      → List (String × PoiSummary F)
      → ℕ
      → String × T
      → Option (List (PoiSummary F)) × Tracker T
      → Option (List (PoiSummary F)) × Tracker T
  hold_step pois listed list_fetched_at (poi_id, entry) (completed, tracker) =
      elim (JsMap.get poi_id listed) [
        | some reported ↦
            (completed, (Tracker.set poi_id (refresh reported list_fetched_at entry) tracker).0)
        | none ↦ elim (summary entry) [
          | none ↦ (completed, tracker)
          | some held ↦
              if ltb alarm_reconfirm_window_ms (list_fetched_at - last_listed_at entry)
              then (
                completed,
                if unconfirmed entry then tracker else (Tracker.set poi_id (mark entry) tracker).0,
              )
              else (some (or_else completed pois ++ held ∷ []), tracker)
        ]
      ]

  unfoldable pub hold_loop :
      List (PoiSummary F)
      → List (String × PoiSummary F)
      → ℕ
      → List (String × T)
      → Option (List (PoiSummary F)) × Tracker T
      → Option (List (PoiSummary F)) × Tracker T
  unfolding hold_step
  hold_loop pois listed list_fetched_at [] acc = acc
  hold_loop pois listed list_fetched_at (e ∷ es) acc =
      hold_loop pois listed list_fetched_at es (hold_step pois listed list_fetched_at e acc)

  -- The list to scan, and the tracker after the call.
  unfoldable pub complete_with_retained :
      Tracker T → List (PoiSummary F) → ℕ → List (PoiSummary F) × Tracker T
  unfolding hold_loop alarming_from listed_from
  complete_with_retained tracker pois list_fetched_at =
      if Tracker.size tracker == 0
      then (pois, tracker)
      else let active = Tracker.entries tracker in
        let alarming = alarming_from [] active in
        let listed = listed_from alarming [] pois in
        let (completed, tracker') = hold_loop pois listed list_fetched_at active (none, tracker) in
        (or_else completed pois, tracker')
