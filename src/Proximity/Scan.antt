-- ===== src/Proximity/Scan.antt =====
-- The loop over the scanned list, against the test of one hazard.
use signalk_crows_nest.Prelude.{
  ℕ, String, str_eq, List, [], ◌∷◌, Bool, ◌||◌, ◌&&◌, ◌≡◌, refl, arith, any,
}
use signalk_crows_nest.JsMap
use signalk_crows_nest.JsMap.Laws.{IsDistinct, set-IsDistinct, get-set}
use signalk_crows_nest.Floats.{Floats}
use signalk_crows_nest.Types.{Position, PoiSummary}
use signalk_crows_nest.Numbers.{hysteresis_threshold}
use signalk_crows_nest.Geo.{distance_meters}
use signalk_crows_nest.Notification.{Platform, App, debug}
use signalk_crows_nest.Notification.Notices.{notices}
use signalk_crows_nest.Tracker
use signalk_crows_nest.Tracker.{Tracker}
use signalk_crows_nest.Episode.Laws.{IsKeyed, IsKeyed-set}
use signalk_crows_nest.Proximity.{HazardEntry, InAlarm, is_hazard, raising, scan_step, scan}

module _ {F : Type 0} ⦃n : Floats F⦄ ⦃p : Platform⦄ (radius_meters : F) (vessel : Position F) where
  open n use {is_finite, le}

  -- A hazard is in alarm at a known distance within the radius, or within the wider clear radius
  -- where its alarm stands already.
  abbrev pub should_alarm : Tracker (HazardEntry F) → PoiSummary F → Bool
  should_alarm s poi =
      is_hazard poi.type
      && is_finite (distance_meters vessel poi.position)
      && le (distance_meters vessel poi.position)
          (hysteresis_threshold radius_meters (Tracker.has poi.id s))

  -- Some summary of the list has the id and is in alarm.
  abbrev pub alarms : Tracker (HazardEntry F) → String → List (PoiSummary F) → Bool
  alarms s j = any (λ poi. should_alarm s poi && str_eq poi.id j)

  -- What the loop keeps of the map and of the app.
  pub record IsScanned (t : ℕ) (app : App) (out : List (String × InAlarm F) × App) : Type 0 where
    pub keyed : IsKeyed (raising t) out.0
    pub distinct : IsDistinct out.0
    pub reads : out.1.reads ≡ app.reads
    pub clock : out.1.clock ≡ app.clock
    pub silent : notices out.1 ≡ notices app

  step_has :
      (s : Tracker (HazardEntry F)) (poi : PoiSummary F) (j : String)
      (m : List (String × InAlarm F)) (app : App)
      → JsMap.has j (scan_step radius_meters vessel s poi (m, app)).0
        ≡ (JsMap.has j m || should_alarm s poi && str_eq poi.id j)
  unfolding scan_step
  step_has s poi j m app = ground (
    arith,
    get-set poi.id j (record { poi = poi; distance = distance_meters vessel poi.position }) m,
  )

  step_IsScanned :
      (t : ℕ) (s : Tracker (HazardEntry F)) (poi : PoiSummary F) (m : List (String × InAlarm F))
      (app app' : App)
      → IsScanned t app (m, app')
      → IsScanned t app (scan_step radius_meters vessel s poi (m, app'))
  unfolding scan_step debug
  step_IsScanned t s poi m app app' h =
      let a : InAlarm F = record { poi = poi; distance = distance_meters vessel poi.position } in
      let keyed' = IsKeyed-set (raising t) poi.id a m refl h.keyed in
      let distinct' = set-IsDistinct poi.id a m h.distinct in ground arith

  pub has-scan :
      (s : Tracker (HazardEntry F)) (pois : List (PoiSummary F)) (j : String)
      (acc : List (String × InAlarm F) × App)
      → JsMap.has j (scan radius_meters vessel s pois acc).0
        ≡ (JsMap.has j acc.0 || alarms s j pois)
  unfolding scan
  has-scan s [] j acc = ground arith
  has-scan s (poi ∷ pois) j (m, app) = ground (
    arith,
    step_has s poi j m app,
    has-scan s pois j (scan_step radius_meters vessel s poi (m, app)),
  )

  pub scan-IsScanned :
      (t : ℕ) (app : App) (s : Tracker (HazardEntry F)) (pois : List (PoiSummary F))
      (acc : List (String × InAlarm F) × App)
      → IsScanned t app acc
      → IsScanned t app (scan radius_meters vessel s pois acc)
  unfolding scan
  scan-IsScanned t app s [] acc h = h
  scan-IsScanned t app s (poi ∷ pois) (m, app') h =
      scan-IsScanned t app s pois (scan_step radius_meters vessel s poi (m, app'))
        (step_IsScanned t s poi m app app' h)
