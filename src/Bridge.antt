-- ===== src/Bridge.antt =====
-- src/shared/bridge-clearance.ts: the air draft and the comparison with a clearance.
pub mod Resolver
pub mod ResolverLaws
pub mod SingleFlight
pub mod Retry
pub mod Clearances
pub mod Alarms
pub mod TooLow
pub mod AlarmLaws
use signalk_crows_nest.Prelude.{
  String, Option, none, some, Bool, true, false, ◌||◌, if◌then◌else◌, or_else, or_option,
}
use signalk_crows_nest.Floats.{Floats}
use signalk_crows_nest.Types.{Wire}
use signalk_crows_nest.Geo.{property}
use signalk_crows_nest.Numbers.{to_finite_number, positive_finite_number, clamp_number, round_to}
use signalk_crows_nest.Notification.{App, ◌⧺◌, debug}

-- What `app.getSelfPath` returns, or the text of the error that it throws.
pub data SelfPath (F : Type 0) : Type 0 where
  returned : Wire F → SelfPath F
  threw : String → SelfPath F

module _ {F : Type 0} ⦃n : Floats F⦄ where
  open n use {lit, le, add, text}

  unfoldable pub clamp_clearance_margin : Wire F → F
  unfolding clamp_number
  clamp_clearance_margin raw = clamp_number raw (lit 0 0) (lit 30 0) (lit 1 0) false

  -- A value that may be `null` or `undefined`, as `unknown`.
  abbrev pub to_wire : Option F → Wire F
  to_wire none = Wire.undefined
  to_wire (some x) = Wire.number x

  -- The number itself, or the one in a `{ value }` wrapper.
  unfoldable pub air_height : Wire F → Option F
  unfolding positive_finite_number property
  air_height (Wire.object fields) = positive_finite_number (property "value" fields)
  air_height raw = positive_finite_number raw

  unfoldable pub read_vessel_air_draft : SelfPath F → Option F → App → Option F × App
  unfolding air_height
  read_vessel_air_draft (SelfPath.returned raw) fallback_meters app =
      (or_option (air_height raw) (positive_finite_number (to_wire fallback_meters)), app)
  read_vessel_air_draft (SelfPath.threw error) fallback_meters app = (
    positive_finite_number (to_wire fallback_meters),
    debug ("Bridge air-draft check could not read design.airHeight: " ⧺ error) app,
  )

  unfoldable pub bridge_blocks_vessel : Option F → Option F → F → Bool
  unfolding to_finite_number
  bridge_blocks_vessel clearance_meters air_draft_meters margin_meters =
      let margin = or_else (to_finite_number (Wire.number margin_meters)) (lit 1 0) in
      elim (to_finite_number (to_wire clearance_meters)) [
        | none ↦ false
        | some clearance ↦ elim (to_finite_number (to_wire air_draft_meters)) [
          | none ↦ false
          | some air_draft ↦ le clearance (add air_draft margin)
        ]
      ]

  unfoldable pub format_clearance_meters : F → String
  unfolding round_to
  format_clearance_meters meters = text (round_to meters (lit 1 0))
