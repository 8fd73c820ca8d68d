-- ===== src/Retention/Refinement.antt =====
-- The loop of the completion, round by round, against the entry-wise description.
use signalk_crows_nest.Prelude.{
  ℕ, String, str_eq, eq_iff, List, [], ◌∷◌, ◌++◌, Option, none, true, ◌==◌, ◌≡◌, refl, sym, ap, ◌∙◌,
  map, arith, or_else, All, any, append_assoc, append-nil, Option-cases, length, Bool-cases, inl,
  inr,
}
use signalk_crows_nest.JsMap
use signalk_crows_nest.JsMap.Laws.{IsDistinct, set-IsDistinct}
use signalk_crows_nest.JsMap.Positions.{set-append_first}
use signalk_crows_nest.Types.{PoiSummary}
use signalk_crows_nest.Notification.{Platform, sanitize_poi_id}
use signalk_crows_nest.Tracker
use signalk_crows_nest.Tracker.{Tracked, Tracker}
use signalk_crows_nest.Tracker.Laws.{IsConsistent}
use signalk_crows_nest.Retention.{
  RetainedPoi, alarming_from, listed_from, hold_step, hold_loop, complete_with_retained,
}
use signalk_crows_nest.Retention.Laws.{
  last_report, alarming_from-member, listed_from-get, held_entry, held_points, hold, hold_all,
  restored, set_in_place,
}

pub length-eq-zero : {A : Type 0} (l : List A) → (length l == 0) ≡ true → l ≡ []
length-eq-zero [] h = refl
length-eq-zero (x ∷ l) h = absurd (ground arith)

module _ ⦃p : Platform⦄ {F T : Type 0} ⦃r : RetainedPoi F T⦄ where
  open r use {summary, last_listed_at, unconfirmed, refresh, mark}

  module _ (pois : List (PoiSummary F)) (t : ℕ) (listed : List (String × PoiSummary F)) where
    hold_step_lem :
        (done : List (String × Tracked T)) (k : String) (x : Tracked T)
        (rest : List (String × Tracked T)) (c : Option (List (PoiSummary F))) (s : Tracker T)
        → JsMap.get x.poi_id listed ≡ last_report x.poi_id pois
        → k ≡ sanitize_poi_id x.poi_id
        → s.active ≡ done ++ (k, x) ∷ rest
        → IsDistinct (done ++ (k, x) ∷ rest)
        → (or_else ((hold_step pois listed t (x.poi_id, x.entry) (c, s)).0) pois
            ≡ or_else c pois ++ held_points t (last_report x.poi_id pois) x.entry)
          × ((hold_step pois listed t (x.poi_id, x.entry) (c, s)).1
              ≡ record s { active = done ++ (k, hold pois t x) ∷ rest })
    unfolding hold_step held_entry held_points
    hold_step_lem done k x rest c s look named a d =
        let put = λ (e : T). set_in_place done k x rest e s named a d in
        let same : s ≡ record s { active = done ++ (k, x) ∷ rest } =
          λ i. record s { active = a i } in
        elim (Option-cases (last_report x.poi_id pois)) [
          | inr (reported, e) ↦
              rw (look, e, hold_step)
                (sym (append-nil (or_else c pois)), put (refresh reported t x.entry))
          | inl e ↦ elim (Option-cases (summary x.entry)) [
            | inl bare ↦ ground (arith, append-nil (or_else c pois), same)
            | inr (held, e') ↦ ground (arith, append-nil (or_else c pois), same, put (mark x.entry))
          ]
        ]

    hold_loop_lem :
        (done rest : List (String × Tracked T)) (c : Option (List (PoiSummary F))) (s : Tracker T)
        → All (λ e. JsMap.get e.1.poi_id listed ≡ last_report e.1.poi_id pois) rest
        → All (λ e. e.0 ≡ sanitize_poi_id e.1.poi_id) rest
        → s.active ≡ done ++ rest
        → IsDistinct (done ++ rest)
        → (or_else (hold_loop pois listed t (map (λ e. (e.1.poi_id, e.1.entry)) rest) (c, s)).0 pois
            ≡ or_else c pois ++ restored pois t rest)
          × ((hold_loop pois listed t (map (λ e. (e.1.poi_id, e.1.entry)) rest) (c, s)).1
              ≡ record s { active = done ++ hold_all pois t rest })
    unfolding hold_loop
    hold_loop_lem done [] c s look named a d =
        (sym (append-nil (or_else c pois)), λ i. record s { active = a i })
    hold_loop_lem done ((k, x) ∷ rest) c s look named a d =
        let x' : Tracked T = hold pois t x in
        let after = hold_step pois listed t (x.poi_id, x.entry) (c, s) in
        let (found, kept) = hold_step_lem done k x rest c s look.0 named.0 a d in
        let apart : IsDistinct (done ++ (k, x') ∷ rest) =
          rw (set-append_first done k x x' rest d) at
            (set-IsDistinct k x' (done ++ (k, x) ∷ rest) d) in
        let (out, end) =
          hold_loop_lem (done ++ (k, x') ∷ []) rest after.0 after.1 look.1 named.1
            (ap (λ (u : Tracker T). u.active) kept ∙ sym (append_assoc done ((k, x') ∷ []) rest))
            (rw append_assoc apart) in
        (
          out
              ∙ ap (λ l. l ++ restored pois t rest) found
              ∙ append_assoc (or_else c pois) (held_points t (last_report x.poi_id pois) x.entry)
                  (restored pois t rest),
          end ∙ (λ i. record (kept i) {
            active = append_assoc done ((k, x') ∷ []) (hold_all pois t rest) i;
          }),
        )

  report_each :
      (pois : List (PoiSummary F)) (all : List (String × T)) (rest : List (String × Tracked T))
      → ((j : String)
          → any (λ (q : String × T). str_eq q.0 j) (map (λ e. (e.1.poi_id, e.1.entry)) rest) ≡ true
          → any (λ (q : String × T). str_eq q.0 j) all ≡ true)
      → All
          (λ e.
            JsMap.get e.1.poi_id (listed_from (alarming_from [] all) [] pois)
            ≡ last_report e.1.poi_id pois)
          rest
  unfolding JsMap.get JsMap.member
  report_each pois all [] sub = tt
  report_each pois all ((k, x) ∷ rest) sub = (
    ground (
      arith,
      eq_iff x.poi_id x.poi_id,
      sub x.poi_id,
      alarming_from-member x.poi_id [] all,
      listed_from-get x.poi_id (alarming_from [] all) [] pois,
    ),
    report_each pois all rest (λ j h. sub j (ground arith)),
  )

  -- On a consistent tracker the completion is the list with the held points behind it, in the
  -- order of the active map, and every entry is replaced in place by the entry that the list
  -- leaves: refreshed, kept, or marked as unconfirmed. The app is not touched.
  pub complete_with_retained_lem :
      (s : Tracker T) (pois : List (PoiSummary F)) (t : ℕ)
      → IsConsistent s
      → complete_with_retained s pois t
        ≡ (pois ++ restored pois t s.active, record s { active = hold_all pois t s.active })
  unfolding complete_with_retained Tracker.size Tracker.entries
  complete_with_retained_lem s pois t c = elim (Bool-cases (length s.active == 0)) [
    | inl none_active ↦
        let e : s.active ≡ [] = length-eq-zero s.active none_active in
        rw (none_active, e, append-nil)
    | inr some_active ↦
        let all = map (λ (e : String × Tracked T). (e.1.poi_id, e.1.entry)) s.active in
        let (out, end) =
          hold_loop_lem pois t (listed_from (alarming_from [] all) [] pois) [] s.active none s
            (report_each pois all s.active (λ j h. h)) c.named refl c.distinct in
        rw some_active (λ i. (out i, end i))
  ]
