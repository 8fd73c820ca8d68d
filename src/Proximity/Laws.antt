-- ===== src/Proximity/Laws.antt =====
-- What an evaluation of the proximity alarms leaves active, and what it sends.
use signalk_crows_nest.Prelude.{ℕ, String, List, [], ◌∷◌, ◌++◌, true, ◌≡◌, refl, sym, ap, ◌∙◌, map}
use signalk_crows_nest.JsMap
use signalk_crows_nest.Floats.{Floats}
use signalk_crows_nest.Types.{Position, PoiSummary}
use signalk_crows_nest.Notification.{Platform, App, sanitize_poi_id}
use signalk_crows_nest.Notification.Sanitize.{IsFaithful}
use signalk_crows_nest.Notification.Notices.{notices}
use signalk_crows_nest.Tracker
use signalk_crows_nest.Tracker.{Tracked, Tracker}
use signalk_crows_nest.Tracker.Sweep.{clear_notice}
use signalk_crows_nest.Tracker.Laws.{IsConsistent, record_of}
use signalk_crows_nest.Retention.{IsSpread}
use signalk_crows_nest.Retention.Laws.{hold_all, restored}
use signalk_crows_nest.Retention.Refinement.{complete_with_retained_lem}
use signalk_crows_nest.Retention.Replay.{complete_with_retained-IsConsistent, hold_all-IsDistinct}
use signalk_crows_nest.Episode.{raise_new}
use signalk_crows_nest.Episode.Laws.{new_ones, new_notice, at_readings}
use signalk_crows_nest.Episode.Settle.{
  settle, settle-IsConsistent, has-settle, record_of-settle, notices-settle, settle_silent, gone,
}
use signalk_crows_nest.Proximity.{
  HazardEntry, InAlarm, hazard_retained, config, raising, scan, evaluate_list, evaluate,
}
use signalk_crows_nest.Proximity.Scan.{alarms, IsScanned, has-scan, scan-IsScanned}

pub hazard-IsSpread : {F : Type 0} → IsSpread (hazard_retained {F = F})
hazard-IsSpread = record {
  summary-refresh = λ p t e. refl;
  listed-refresh = λ p t e. refl;
  unconfirmed-refresh = λ p t e. refl;
  refresh-refresh = λ p q t u e. refl;
  summary-mark = λ e. refl;
  listed-mark = λ e. refl;
  unconfirmed-mark = λ e. refl;
}

-- Behind the completion, an evaluation settles the map that the scan leaves.
evaluate_list-settle :
    {F : Type 0} ⦃n : Floats F⦄ ⦃p : Platform⦄ (f : IsFaithful p) (radius_meters : F)
    (vessel : Position F) (t : ℕ) (l : List (PoiSummary F)) (c : Tracker (HazardEntry F))
    → evaluate_list radius_meters vessel t l c
      ≡ settle
          (raising t)
          f
          config
          (scan radius_meters vessel c l ([], c.app)).0
          (record c { app = (scan radius_meters vessel c l ([], c.app)).1 })
unfolding evaluate_list raise_new
evaluate_list-settle f radius_meters vessel t [] c = refl
evaluate_list-settle f radius_meters vessel t (poi ∷ l) c = refl

module _ {F : Type 0} ⦃n : Floats F⦄ ⦃p : Platform⦄ (f : IsFaithful p) (radius_meters : F)
    (vessel : Position F) (pois : List (PoiSummary F)) (t : ℕ) (s : Tracker (HazardEntry F)) where
  -- The list that is scanned: the tick's, with the held hazards behind it.
  abbrev pub scanned : List (PoiSummary F)
  scanned = pois ++ restored pois t s.active

  -- The tracker after the completion.
  abbrev pub completed : Tracker (HazardEntry F)
  completed = record s { active = hold_all pois t s.active }

  abbrev scan_result : List (String × InAlarm F) × App
  scan_result = scan radius_meters vessel completed scanned ([], s.app)

  -- What is in alarm on this pass, by id.
  abbrev pub in_alarm : List (String × InAlarm F)
  in_alarm = scan_result.0

  abbrev logged : Tracker (HazardEntry F)
  logged = record completed { app = scan_result.1 }

  evaluate-settle :
      IsConsistent s
      → evaluate radius_meters vessel pois t s ≡ settle (raising t) f config in_alarm logged
  unfolding evaluate
  evaluate-settle c =
      ap
        (λ (q : List (PoiSummary F) × Tracker (HazardEntry F)).
          evaluate_list radius_meters vessel t q.0 q.1)
        (complete_with_retained_lem s pois t c)
      ∙ evaluate_list-settle f radius_meters vessel t scanned completed

  scan_result-IsScanned : IsScanned radius_meters vessel t s.app scan_result
  scan_result-IsScanned =
      scan-IsScanned radius_meters vessel t s.app completed scanned ([], s.app)
        (record { keyed = tt; distinct = tt; reads = refl; clock = refl; silent = refl })

  logged-IsConsistent : IsConsistent s → IsConsistent logged
  logged-IsConsistent c =
      let c' =
        rw (complete_with_retained_lem s pois t c) at
          (complete_with_retained-IsConsistent hazard-IsSpread s pois t c) in
      record { distinct = c'.distinct; named = c'.named }

  has-completed : (j : String) → Tracker.has j completed ≡ Tracker.has j s
  unfolding Tracker.has
  has-completed j = (hold_all-IsDistinct hazard-IsSpread pois t s.active).0 (sanitize_poi_id j)

  alarms-completed :
      (j : String) (l : List (PoiSummary F))
      → alarms radius_meters vessel completed j l ≡ alarms radius_meters vessel s j l
  alarms-completed j [] = refl
  alarms-completed j (poi ∷ l) = rw (has-completed poi.id, alarms-completed j l)

  -- An evaluation keeps the tracker consistent.
  pub evaluate-IsConsistent : IsConsistent s → IsConsistent (evaluate radius_meters vessel pois t s)
  evaluate-IsConsistent c =
      rw (evaluate-settle c)
        (settle-IsConsistent (raising t) f config in_alarm logged (logged-IsConsistent c))

  has-in_alarm : (j : String) → JsMap.has j in_alarm ≡ alarms radius_meters vessel s j scanned
  unfolding JsMap.get
  has-in_alarm j =
      has-scan radius_meters vessel completed scanned j ([], s.app) ∙ alarms-completed j scanned

  -- After an evaluation on a consistent tracker an id is active exactly when some point of
  -- the scanned list (the given one, with the held hazards behind it) has the id, is a
  -- hazard, and lies at a finite distance within the alarm radius, or within the wider radius
  -- of the hysteresis where the id was active before. The encoding of ids is taken to be
  -- faithful.
  pub has-evaluate :
      (j : String)
      → IsConsistent s
      → Tracker.has j (evaluate radius_meters vessel pois t s)
        ≡ alarms radius_meters vessel s j scanned
  has-evaluate j c = rw (evaluate-settle c) (
      has-settle (raising t) f config j in_alarm logged scan_result-IsScanned.keyed
        (logged-IsConsistent c)
      ∙ has-in_alarm j)

  -- On a consistent tracker a hazard that was active and that is in alarm on this pass keeps
  -- the record that the completion of the list leaves: its episode's start stays, and only
  -- the held summary, its report time and the mark follow the list.
  pub record_of-evaluate :
      (j : String)
      → IsConsistent s
      → Tracker.has j s ≡ true
      → alarms radius_meters vessel s j scanned ≡ true
      → record_of j (evaluate radius_meters vessel pois t s) ≡ record_of j completed
  unfolding Tracker.has
  record_of-evaluate j c active inside = rw (evaluate-settle c) (
      record_of-settle (raising t) f config j in_alarm logged scan_result-IsScanned.keyed
        scan_result-IsScanned.distinct (logged-IsConsistent c) (has-in_alarm j ∙ inside)
        (has-completed j ∙ active))

  -- On a consistent tracker an evaluation sends one alarm for each hazard that is in alarm
  -- and not yet active, in the order of the scan, then one clear for each entry that is not
  -- in alarm, in the order of the active map, and nothing else.
  pub notices-evaluate :
      IsConsistent s
      → notices (evaluate radius_meters vessel pois t s).app
        ≡ notices s.app
          ++ at_readings
              (raising t)
              (new_notice (raising t))
              s.app.clock
              s.app.reads
              (new_ones (raising t) completed (JsMap.values in_alarm))
          ++ map (clear_notice config) (gone (raising t) f in_alarm completed)
  unfolding Tracker.has
  notices-evaluate c = rw (evaluate-settle c) (
      notices-settle (raising t) f config in_alarm logged scan_result-IsScanned.keyed
        scan_result-IsScanned.distinct (logged-IsConsistent c)
      ∙ rw (scan_result-IsScanned.silent, scan_result-IsScanned.reads, scan_result-IsScanned.clock))

  -- On a consistent tracker, where the ids in alarm are those that are active already, an
  -- evaluation sends nothing.
  pub evaluate_silent :
      IsConsistent s
      → ((j : String) → alarms radius_meters vessel s j scanned ≡ Tracker.has j s)
      → notices (evaluate radius_meters vessel pois t s).app ≡ notices s.app
  unfolding Tracker.has
  evaluate_silent c same = rw (evaluate-settle c) (
      settle_silent (raising t) f config in_alarm logged scan_result-IsScanned.keyed
        scan_result-IsScanned.distinct (logged-IsConsistent c)
        (λ j. has-in_alarm j ∙ same j ∙ sym (has-completed j))
      ∙ scan_result-IsScanned.silent)
