-- ===== src/Bridge/TooLow.antt =====
-- A bridge that is too low for the vessel, and what the note of the air draft leaves alone.
use signalk_crows_nest.Prelude.{if◌then◌else◌, Option, some, true, ◌≡◌, refl, sym, arith}
use signalk_crows_nest.Floats.{Floats}
use signalk_crows_nest.Types.{Position}
use signalk_crows_nest.Numbers.{hysteresis_threshold, to_finite_number}
use signalk_crows_nest.Geo.{distance_meters}
use signalk_crows_nest.Notification.{Platform, debug}
use signalk_crows_nest.Notification.Notices.{notices}
use signalk_crows_nest.Tracker
use signalk_crows_nest.Tracker.{Tracked, Tracker}
use signalk_crows_nest.Retention.{IsSpread}
use signalk_crows_nest.Bridge.{bridge_blocks_vessel}
use signalk_crows_nest.Bridge.Resolver.{is_bridge}
use signalk_crows_nest.Bridge.Alarms.{
  BridgeEntry, InAlarmEntry, BridgeAlarms, bridge_retained, note_air_draft,
}

pub bridge-IsSpread : {F : Type 0} → IsSpread (bridge_retained {F = F})
bridge-IsSpread = record {
  summary-refresh = λ p t e. refl;
  listed-refresh = λ p t e. refl;
  unconfirmed-refresh = λ p t e. refl;
  refresh-refresh = λ p q t u e. refl;
  summary-mark = λ e. refl;
  listed-mark = λ e. refl;
  unconfirmed-mark = λ e. refl;
}

-- A bridge within the radius that its state asks for, whose clearance blocks the vessel.
pub record IsTooLow {F : Type 0} ⦃n : Floats F⦄ ⦃p : Platform⦄ (radius_meters margin_meters : F)
    (vessel : Position F) (air_draft : F) (s : Tracker (BridgeEntry F)) (a : InAlarmEntry F)
    : Type 0 where
  pub bridge : is_bridge a.poi.type ≡ true
  pub known : n.is_finite (distance_meters vessel a.poi.position) ≡ true
  pub within :
      n.le
        (distance_meters vessel a.poi.position)
        (hysteresis_threshold radius_meters (Tracker.has a.poi.id s))
      ≡ true
  pub blocks :
      n.le a.clearance
        (n.add air_draft (if n.is_finite margin_meters then margin_meters else n.lit 1 0))
      ≡ true

pub blocks_lem :
    {F : Type 0} ⦃n : Floats F⦄ (clearance air_draft margin : F)
    → bridge_blocks_vessel (some clearance) (some air_draft) margin ≡ true
    → n.le clearance (n.add air_draft (if n.is_finite margin then margin else n.lit 1 0)) ≡ true
unfolding bridge_blocks_vessel to_finite_number
blocks_lem clearance air_draft margin h = ground arith

pub IsTooLow-has :
    {F : Type 0} ⦃n : Floats F⦄ ⦃p : Platform⦄ {radius_meters margin_meters : F}
    {vessel : Position F} {air_draft : F} (s s' : Tracker (BridgeEntry F)) (a : InAlarmEntry F)
    → Tracker.has a.poi.id s ≡ Tracker.has a.poi.id s'
    → IsTooLow radius_meters margin_meters vessel air_draft s a
    → IsTooLow radius_meters margin_meters vessel air_draft s' a
IsTooLow-has s s' a e h = record {
  bridge = h.bridge;
  known = h.known;
  within = rw (sym e) h.within;
  blocks = h.blocks;
}

pub note_active :
    {F C D : Type 0} ⦃n : Floats F⦄ (d : Option F) (s : BridgeAlarms F C D)
    → (note_air_draft d s).tracker.active ≡ s.tracker.active
unfolding note_air_draft
note_active d s = ground arith

pub note_resolver :
    {F C D : Type 0} ⦃n : Floats F⦄ (d : Option F) (s : BridgeAlarms F C D)
    → (note_air_draft d s).resolver ≡ s.resolver
unfolding note_air_draft
note_resolver d s = ground arith

pub note_silent :
    {F C D : Type 0} ⦃n : Floats F⦄ (d : Option F) (s : BridgeAlarms F C D)
    → notices (note_air_draft d s).tracker.app ≡ notices s.tracker.app
unfolding note_air_draft debug
note_silent d s = ground arith
