-- ===== src/Bridge/AlarmLaws.antt =====
-- What an evaluation of the bridge alarms leaves active, and what it sends.
use signalk_crows_nest.Prelude.{
  ℕ, String, List, [], ◌∷◌, ◌++◌, Option, none, some, Bool, true, not, if_ind, ◌&&◌, ◌≡◌, refl, sym,
  ap, ◌∙◌, subst, map, arith, Bool-cases, inl, inr,
}
use mathlib.Core.List.{Mem, mem-cons_of_mem, mem-cons_self}
use signalk_crows_nest.JsMap
use signalk_crows_nest.JsMap.Laws.{IsDistinct, set-IsDistinct, get-set_all, has-some}
use signalk_crows_nest.Floats.{Floats}
use signalk_crows_nest.Types.{Position, PoiSummary}
use signalk_crows_nest.Numbers.{hysteresis_threshold}
use signalk_crows_nest.Geo.{distance_meters}
use signalk_crows_nest.Notification.{Platform, App, debug, sanitize_poi_id}
use signalk_crows_nest.Notification.Sanitize.{IsFaithful}
use signalk_crows_nest.Notification.Notices.{notices}
use signalk_crows_nest.Tracker
use signalk_crows_nest.Tracker.{Tracked, Tracker}
use signalk_crows_nest.Tracker.Sweep.{clear_notice}
use signalk_crows_nest.Tracker.Laws.{IsConsistent, IsConsistent-active, clear_all_lem}
use signalk_crows_nest.Retention.{complete_with_retained}
use signalk_crows_nest.Retention.Refinement.{complete_with_retained_lem}
use signalk_crows_nest.Retention.Laws.{restored}
use signalk_crows_nest.Retention.Replay.{complete_with_retained-IsConsistent, hold_all-IsDistinct}
use signalk_crows_nest.Episode.{raise_new}
use signalk_crows_nest.Episode.Laws.{IsKeyed, IsKeyed-set, IsKeyed-get}
use signalk_crows_nest.Episode.Settle.{settle, has-settle}
use signalk_crows_nest.Bridge.{bridge_blocks_vessel}
use signalk_crows_nest.Bridge.Resolver.{Lru, CachedClearance, Resolver, is_bridge, clearance_meters}
use signalk_crows_nest.Bridge.Clearances.{
  Asking, none_yet, then_asked, IsKnown, clearance_meters-IsKnown,
}
use signalk_crows_nest.Bridge.Alarms.{
  BridgeEntry, InAlarmEntry, BridgeAlarms, Pass, bridge_retained, config, raising, judge,
  is_new_list, scan_step, scan, evaluate_list, note_air_draft, evaluate,
}
use signalk_crows_nest.Bridge.TooLow.{
  bridge-IsSpread, IsTooLow, blocks_lem, IsTooLow-has, note_active, note_resolver, note_silent,
}

module _ {F C D : Type 0} ⦃n : Floats F⦄ ⦃lru : Lru C (CachedClearance F)⦄ ⦃stamps : Lru D ℕ⦄
    ⦃p : Platform⦄ (ttl_ms : ℕ) (radius_meters margin_meters : F) (vessel : Position F) (now : ℕ)
    (air_draft : F) where
  open n use {is_finite, le}

  -- A bridge of the scanned list that is too low, by a clearance that is known for it.
  pub record IsJustified (whole : List (PoiSummary F)) (first : Resolver F C D)
      (s : Tracker (BridgeEntry F)) (a : InAlarmEntry F) : Type 0 where
    pub listed : Mem a.poi whole
    pub too_low : IsTooLow radius_meters margin_meters vessel air_draft s a
    pub clearance : IsKnown ttl_ms now first a.poi a.clearance

  -- What the loop keeps.
  pub record IsScanned (whole : List (PoiSummary F)) (first : Resolver F C D) (t : ℕ)
      (s : Tracker (BridgeEntry F)) (app : App) (pass : Pass F C D) : Type 0 where
    pub asked : Asking ttl_ms now first pass.resolver
    pub keyed : IsKeyed (raising margin_meters t) pass.in_alarm
    pub distinct : IsDistinct pass.in_alarm
    pub low :
        (j : String) (a : InAlarmEntry F)
        → JsMap.get j pass.in_alarm ≡ some a
        → IsJustified whole first s a
    pub silent : notices pass.app ≡ notices app

  judge_ok :
      (whole : List (PoiSummary F)) (first : Resolver F C D) (t : ℕ) (s : Tracker (BridgeEntry F))
      (app : App) (pass : Pass F C D) (poi : PoiSummary F) (clearance : Option F)
      → Mem poi whole
      → ((c : F) → clearance ≡ some c → IsKnown ttl_ms now first poi c)
      → is_bridge poi.type ≡ true
      → is_finite (distance_meters vessel poi.position) ≡ true
      → le
          (distance_meters vessel poi.position)
          (hysteresis_threshold radius_meters (Tracker.has poi.id s))
        ≡ true
      → IsScanned whole first t s app pass
      → IsScanned whole first t s app (record pass {
        in_alarm =
            judge margin_meters air_draft poi
              (distance_meters vessel poi.position)
              clearance
              pass.in_alarm;
      })
  unfolding judge
  judge_ok whole first t s app pass poi none m k b f w h = h
  judge_ok whole first t s app pass poi (some c) m k b f w h =
      elim (Bool-cases (bridge_blocks_vessel (some c) (some air_draft) margin_meters)) [
        | inr clear ↦ rw (clear, judge) h
        | inl low ↦
            let a : InAlarmEntry F = record {
              poi = poi;
              clearance = c;
              air_draft = air_draft;
              range = distance_meters vessel poi.position;
            } in
            let fresh : IsJustified whole first s a = record {
              listed = m;
              too_low = record {
                bridge = b;
                known = f;
                within = w;
                blocks = blocks_lem c air_draft margin_meters low;
              };
              clearance = k c refl;
            } in
            rw (low, judge)
              (record {
                asked = h.asked;
                keyed = IsKeyed-set (raising margin_meters t) poi.id a pass.in_alarm refl h.keyed;
                distinct = set-IsDistinct poi.id a pass.in_alarm h.distinct;
                low = get-set_all (IsJustified whole first s) poi.id a pass.in_alarm fresh h.low;
                silent = h.silent;
              })
      ]

  scan_step_ok :
      (whole : List (PoiSummary F)) (first : Resolver F C D) (t : ℕ) (warming : Bool)
      (s : Tracker (BridgeEntry F)) (app : App) (poi : PoiSummary F) (pass : Pass F C D)
      → Mem poi whole
      → IsScanned whole first t s app pass
      → IsScanned whole first t s app
          (scan_step ttl_ms radius_meters margin_meters vessel now air_draft warming s poi pass)
  unfolding scan_step debug
  scan_step_ok whole first t warming s app poi pass m h =
      let q = clearance_meters ttl_ms now poi pass.resolver in
      let asked : IsScanned whole first t s app (record pass { resolver = q.1 }) = record {
        asked = then_asked h.asked poi;
        keyed = h.keyed;
        distinct = h.distinct;
        low = h.low;
        silent = h.silent;
      } in
      let known : (c : F) → q.0 ≡ some c → IsKnown ttl_ms now first poi c =
        λ c e. clearance_meters-IsKnown ttl_ms now first pass.resolver poi c h.asked e in
      let keeps : Pass F C D → Type 0 = IsScanned whole first t s app in
      let distance = distance_meters vessel poi.position in
      let threshold = hysteresis_threshold radius_meters (Tracker.has poi.id s) in
      let in_range = is_finite distance && le distance threshold in
      if_ind keeps (not (is_bridge poi.type)) (λ _. h)
        λ bridge.
          if_ind keeps (not warming && not in_range) (λ _. h)
            λ _.
              if_ind keeps (not (is_finite distance))
                (λ _. record {
                  asked = asked.asked;
                  keyed = h.keyed;
                  distinct = h.distinct;
                  low = h.low;
                  silent = h.silent;
                })
                λ finite.
                  if_ind keeps (not in_range) (λ _. asked)
                    λ near.
                      judge_ok whole first t s app (record pass { resolver = q.1 }) poi q.0 m known
                        (ground (arith, bridge)) (ground (arith, finite))
                        (ground (arith, finite, near)) asked

  pub scan_ok :
      (whole : List (PoiSummary F)) (first : Resolver F C D) (t : ℕ) (warming : Bool)
      (s : Tracker (BridgeEntry F)) (app : App) (pois : List (PoiSummary F)) (pass : Pass F C D)
      → ((poi : PoiSummary F) → Mem poi pois → Mem poi whole)
      → IsScanned whole first t s app pass
      → IsScanned whole first t s app
          (scan ttl_ms radius_meters margin_meters vessel now air_draft warming s pois pass)
  unfolding scan
  scan_ok whole first t warming s app [] pass sub h = h
  scan_ok whole first t warming s app (poi ∷ pois) pass sub h =
      scan_ok whole first t warming s app pois
        (scan_step ttl_ms radius_meters margin_meters vessel now air_draft warming s poi pass)
        (λ q m. sub q (mem-cons_of_mem poi m))
        (scan_step_ok whole first t warming s app poi pass (sub poi mem-cons_self) h)

  -- Behind the completion: what is active is what the scan leaves in alarm.
  list_result : (t : ℕ) (l : List (PoiSummary F)) (s : BridgeAlarms F C D) → Pass F C D
  list_result t l s =
      scan ttl_ms radius_meters margin_meters vessel now air_draft
        (is_new_list t s.warmed_list_fetched_at) s.tracker l
        (record { in_alarm = []; resolver = s.resolver; app = s.tracker.app })

  list_result_ok :
      (t : ℕ) (l : List (PoiSummary F)) (s : BridgeAlarms F C D)
      → IsScanned l s.resolver t s.tracker s.tracker.app (list_result t l s)
  unfolding list_result JsMap.get
  list_result_ok t l s =
      scan_ok l s.resolver t (is_new_list t s.warmed_list_fetched_at) s.tracker s.tracker.app l _
        (λ poi m. m)
        (record { asked = none_yet; keyed = tt; distinct = tt; low = λ j a e. cc; silent = refl })

  evaluate_list-settle :
      (f : IsFaithful p) (t : ℕ) (l : List (PoiSummary F)) (s : BridgeAlarms F C D)
      → (evaluate_list ttl_ms radius_meters margin_meters vessel now air_draft t l s).tracker
        ≡ settle
            (raising margin_meters t)
            f
            config
            (list_result t l s).in_alarm
            (record { active = s.tracker.active; app = (list_result t l s).app })
  unfolding evaluate_list raise_new list_result
  evaluate_list-settle f t [] s = refl
  evaluate_list-settle f t (poi ∷ l) s = refl

  evaluate_list_sound :
      (f : IsFaithful p) (t : ℕ) (l : List (PoiSummary F)) (s : BridgeAlarms F C D) (j : String)
      → IsConsistent s.tracker
      → Tracker.has j
          (evaluate_list ttl_ms radius_meters margin_meters vessel now air_draft t l s).tracker
        ≡ true
      → (a : InAlarmEntry F) × (a.poi.id ≡ j) × IsJustified l s.resolver s.tracker a
  evaluate_list_sound f t l s j c active =
      let ok = list_result_ok t l s in
      let m = (list_result t l s).in_alarm in
      let c' : IsConsistent (record { active = s.tracker.active; app = (list_result t l s).app }) =
        record { distinct = c.distinct; named = c.named } in
      let inside : JsMap.has j m ≡ true =
        sym (
          ap (Tracker.has j) (evaluate_list-settle f t l s)
          ∙ has-settle (raising margin_meters t) f config j m _ ok.keyed c')
        ∙ active in
      let (a, found) = has-some j m inside in
      (a, IsKeyed-get (raising margin_meters t) j a m ok.keyed found, ok.low j a found)

  -- On a consistent tracker, every bridge that is active after an evaluation with a known air
  -- draft is on the completed list, lies at a known distance within the radius that its state
  -- before the evaluation asks for, and has a clearance at or below the air draft plus the
  -- margin (1 m when the margin is not finite). That clearance is the finite one of its
  -- summary, or the one that the resolver, after some lookups of this pass, holds for its id,
  -- the bridge being of ActiveCaptain.
  pub evaluate_sound :
      (f : IsFaithful p) (pois : List (PoiSummary F)) (t : ℕ) (s : BridgeAlarms F C D) (j : String)
      → IsConsistent s.tracker
      → Tracker.has j
          (evaluate ttl_ms radius_meters margin_meters vessel now (some air_draft) pois t s).tracker
        ≡ true
      → (a : InAlarmEntry F) × (a.poi.id ≡ j)
        × IsJustified (complete_with_retained s.tracker pois t).0 s.resolver s.tracker a
  unfolding evaluate Tracker.has
  evaluate_sound f pois t s j c active =
      let s' = note_air_draft (some air_draft) s in
      let same : s'.tracker.active ≡ s.tracker.active = note_active (some air_draft) s in
      let c' : IsConsistent s'.tracker = IsConsistent-active s.tracker s'.tracker same c in
      let q = complete_with_retained s'.tracker pois t in
      let (a, named, low) =
        evaluate_list_sound f t q.0 (record s' { tracker = q.1 }) j
          (complete_with_retained-IsConsistent bridge-IsSpread s'.tracker pois t c') active in
      let has' : Tracker.has a.poi.id q.1 ≡ Tracker.has a.poi.id s.tracker =
        rw (complete_with_retained_lem s'.tracker pois t c') (
          (hold_all-IsDistinct bridge-IsSpread pois t s'.tracker.active).0
            (sanitize_poi_id a.poi.id)
          ∙ ap (JsMap.has (sanitize_poi_id a.poi.id)) same) in
      let lists : q.0 ≡ (complete_with_retained s.tracker pois t).0 =
        ap (λ r. r.0) (complete_with_retained_lem s'.tracker pois t c')
        ∙ ap (λ active. pois ++ restored pois t active) same
        ∙ sym (ap (λ r. r.0) (complete_with_retained_lem s.tracker pois t c)) in
      let resolver : s'.resolver ≡ s.resolver = note_resolver (some air_draft) s in
      (
        a,
        named,
        record {
          listed = subst (Mem a.poi) lists low.listed;
          too_low = IsTooLow-has q.1 s.tracker a has' low.too_low;
          clearance =
              subst (λ first. IsKnown ttl_ms now first a.poi a.clearance) resolver low.clearance;
        },
      )

module _ {F C D : Type 0} ⦃n : Floats F⦄ ⦃lru : Lru C (CachedClearance F)⦄ ⦃stamps : Lru D ℕ⦄
    ⦃p : Platform⦄ (ttl_ms : ℕ) (radius_meters margin_meters : F) (vessel : Position F)
    (now : ℕ) where
  -- On a consistent tracker an evaluation with no air draft is inert: nothing stays active,
  -- and each alarm that stood is cleared, once, with nothing else sent.
  pub evaluate_inert :
      (f : IsFaithful p) (pois : List (PoiSummary F)) (t : ℕ) (s : BridgeAlarms F C D)
      → IsConsistent s.tracker
      → ((evaluate ttl_ms radius_meters margin_meters vessel now none pois t s).tracker.active ≡ [])
        × (notices
              (evaluate ttl_ms radius_meters margin_meters vessel now none pois t s).tracker.app
            ≡ notices s.tracker.app ++ map (clear_notice config) (JsMap.values s.tracker.active))
  unfolding evaluate
  evaluate_inert f pois t s c =
      let s' = note_air_draft none s in
      let same : s'.tracker.active ≡ s.tracker.active = note_active none s in
      let c' : IsConsistent s'.tracker = IsConsistent-active s.tracker s'.tracker same c in
      let (gone, told) = clear_all_lem f config s'.tracker c' in
      (
        gone,
        told ∙ (λ i. note_silent none s i ++ map (clear_notice config) (JsMap.values (same i))),
      )
