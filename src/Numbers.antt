-- ===== src/Numbers.antt =====
-- src/shared/numbers.ts, src/shared/longitude.ts and src/shared/proximity-radius.ts.
pub mod Laws
use signalk_crows_nest.Prelude.{
  Option, none, some, Bool, true, false, ◌&&◌, ◌||◌, not, if◌then◌else◌, or_else, is_some, ℕ,
}
use signalk_crows_nest.Floats.{Floats}
use signalk_crows_nest.Types.{Wire}

module _ {F : Type 0} ⦃n : Floats F⦄ where
  open n use {
    lit, infinity, nan, add, sub, mul, div, rem, pow, neg, lt, le, eq, is_finite, min, max, round,
    trunc,
  }

  unfoldable pub to_finite_number : Wire F → Option F
  to_finite_number (Wire.number x) = if is_finite x then some x else none
  to_finite_number _ = none

  unfoldable pub is_finite_number : Wire F → Bool
  unfolding to_finite_number
  is_finite_number value = is_some (to_finite_number value)

  unfoldable pub positive_finite_number : Wire F → Option F
  unfolding to_finite_number
  positive_finite_number value = elim (to_finite_number value) [
    | none ↦ none
    | some finite ↦ if lt (lit 0 0) finite then some finite else none
  ]

  unfoldable pub clamp_number : Wire F → F → F → F → Bool → F
  unfolding to_finite_number
  clamp_number raw lower upper fallback truncate = elim (to_finite_number raw) [
    | none ↦ fallback
    | some value ↦
        let value' = if lt value lower then lower else if lt upper value then upper else value in
        if truncate then trunc value' else value'
  ]

  unfoldable pub round_to : F → F → F
  round_to value decimals =
      let factor = pow (lit 10 0) decimals in div (round (mul value factor)) factor

  unfoldable pub positive_capped_number : Wire F → F → F → F
  unfolding positive_finite_number
  positive_capped_number raw cap fallback = min (or_else (positive_finite_number raw) fallback) cap

  -- `value >= -90 && value <= 90`, of a finite number.
  unfoldable pub in_degrees : F → Wire F → Bool
  unfolding is_finite_number
  in_degrees bound (Wire.number x) = is_finite x && (le (neg bound) x && le x bound)
  in_degrees bound _ = false

  unfoldable pub is_valid_latitude : Wire F → Bool
  unfolding in_degrees
  is_valid_latitude = in_degrees (lit 90 0)

  unfoldable pub is_valid_longitude : Wire F → Bool
  unfolding in_degrees
  is_valid_longitude = in_degrees (lit 180 0)

  unfoldable pub wrap_longitude : F → F
  wrap_longitude longitude =
      if not (is_finite longitude)
      then nan
      else if le (neg (lit 180 0)) longitude && le longitude (lit 180 0)
      then longitude
      else let wrapped =
          sub (rem (add (rem (add longitude (lit 180 0)) (lit 360 0)) (lit 360 0)) (lit 360 0))
            (lit 180 0) in
        if eq wrapped (neg (lit 180 0)) && lt (lit 0 0) longitude then lit 180 0 else wrapped

  unfoldable pub longitude_span_degrees : F → F → F
  longitude_span_degrees west east =
      if not (is_finite west) || not (is_finite east)
      then nan
      else if le west east
      then sub east west
      else add (sub (lit 360 0) west) east

  unfoldable pub clamp_proximity_alarm_radius : Wire F → F
  unfolding positive_capped_number
  clamp_proximity_alarm_radius raw = positive_capped_number raw (lit 100000 0) (lit 500 0)

  unfoldable pub hysteresis_threshold : F → Bool → F
  hysteresis_threshold radius_meters is_active =
      if is_active then mul radius_meters (lit 12 1) else radius_meters

  unfoldable pub vessel_scan_radius_meters : F → F
  vessel_scan_radius_meters alarm_radius_meters =
      max (mul alarm_radius_meters (lit 3 0)) (lit 2000 0)
