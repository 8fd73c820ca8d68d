-- ===== src/Geo.antt =====
-- src/geo/position-utilities.ts, over the numbers of the runtime.
use signalk_crows_nest.Prelude.{
  Option, none, some, Bool, false, ◌&&◌, ◌||◌, not, if◌then◌else◌, String, str_eq,
}
use signalk_crows_nest.Floats.{Floats}
use signalk_crows_nest.Types.{Position, Bbox, Wire, Fields}
use signalk_crows_nest.Numbers.{
  is_valid_latitude, is_valid_longitude, wrap_longitude, longitude_span_degrees,
}

pub record TrackProjection (F : Type 0) : Type 0 where
  pub cross_track_meters : F
  pub along_track_meters : F

-- The hull that the loop over the three shifts keeps: start, end and width.
pub record Hull (F : Type 0) : Type 0 where
  pub start : F
  pub end : F
  pub width : F

-- A property of a value of type `unknown` that is an object; `undefined` where there is none.
unfoldable pub property : {F : Type 0} → String → Fields F → Wire F
property name Fields.end = Wire.undefined
property name (Fields.field key value rest) = if str_eq key name then value else property name rest

module _ {F : Type 0} ⦃n : Floats F⦄ where
  open n use {
    lit, infinity, pi, sqrt2, add, sub, mul, div, pow, neg, lt, le, eq, is_finite, min, max, abs,
    sqrt, sin, cos, asin, acos, atan2,
  }

  unfoldable pub valid_position : Wire F → Wire F → Option (Position F)
  unfolding is_valid_latitude is_valid_longitude
  valid_position (Wire.number latitude) (Wire.number longitude) =
      if not (is_valid_latitude (Wire.number latitude))
        || not (is_valid_longitude (Wire.number longitude))
      then none
      else some (record { latitude = latitude; longitude = longitude })
  valid_position _ _ = none

  unfoldable pub to_position : Wire F → Option (Position F)
  unfolding valid_position property
  to_position (Wire.object fields) =
      valid_position (property "latitude" fields) (property "longitude" fields)
  to_position _ = none

  unfoldable pub earth_radius_km : F
  earth_radius_km = lit 6371 0

  unfoldable pub earth_radius_meters : F
  unfolding earth_radius_km
  earth_radius_meters = mul earth_radius_km (lit 1000 0)

  unfoldable pub to_radians : F → F
  to_radians degrees = div (mul degrees pi) (lit 180 0)

  unfoldable pub to_degrees : F → F
  to_degrees radians = div (mul radians (lit 180 0)) pi

  -- `Math.min(1, Math.max(-1, x))`
  unfoldable pub clamp_unit : F → F
  clamp_unit x = min (lit 1 0) (max (neg (lit 1 0)) x)

  unfoldable pub project_position : Position F → F → F → Position F
  unfolding to_radians to_degrees clamp_unit earth_radius_km
  project_position position bearing_degrees distance_km =
      let latitude_rad = to_radians position.latitude in
      let longitude_rad = to_radians position.longitude in
      let bearing_rad = to_radians bearing_degrees in
      let angular_distance = div distance_km earth_radius_km in
      let sine_new_latitude =
        add (mul (sin latitude_rad) (cos angular_distance))
          (mul (mul (cos latitude_rad) (sin angular_distance)) (cos bearing_rad)) in
      let new_latitude_rad = asin (clamp_unit sine_new_latitude) in
      let new_longitude_rad = add longitude_rad (
        atan2 (mul (mul (sin bearing_rad) (sin angular_distance)) (cos latitude_rad))
          (sub (cos angular_distance) (mul (sin latitude_rad) (sin new_latitude_rad)))) in
      record {
        latitude = to_degrees new_latitude_rad;
        longitude = wrap_longitude (to_degrees new_longitude_rad);
      }

  unfoldable pub distance_meters : Position F → Position F → F
  unfolding to_radians earth_radius_meters
  distance_meters a b =
      let latitude_a = to_radians a.latitude in
      let latitude_b = to_radians b.latitude in
      let delta_latitude = to_radians (sub b.latitude a.latitude) in
      let delta_longitude = to_radians (sub b.longitude a.longitude) in
      let haversine = add (pow (sin (div delta_latitude (lit 2 0))) (lit 2 0)) (
        mul (mul (cos latitude_a) (cos latitude_b))
          (pow (sin (div delta_longitude (lit 2 0))) (lit 2 0))) in
      let angular_distance =
        mul (lit 2 0) (atan2 (sqrt haversine) (sqrt (max (lit 0 0) (sub (lit 1 0) haversine)))) in
      mul earth_radius_meters angular_distance

  -- `none` is the exception that the source throws.
  unfoldable pub position_to_bbox : Position F → F → Option (Bbox F)
  unfolding is_valid_latitude is_valid_longitude
  position_to_bbox position radius =
      if not (is_valid_latitude (Wire.number position.latitude))
        || not (is_valid_longitude (Wire.number position.longitude))
      then none
      else if not (is_finite radius) || lt radius (lit 0 0)
      then none
      else let corner_distance_km = div (mul radius sqrt2) (lit 1000 0) in
        let north_west = project_position position (neg (lit 45 0)) corner_distance_km in
        let south_east = project_position position (lit 135 0) corner_distance_km in
        some (record {
          north = min (lit 90 0) north_west.latitude;
          south = max (neg (lit 90 0)) south_east.latitude;
          east = south_east.longitude;
          west = north_west.longitude;
        })

  unfoldable pub initial_bearing_rad : Position F → Position F → F
  unfolding to_radians
  initial_bearing_rad a b =
      let latitude_a = to_radians a.latitude in
      let latitude_b = to_radians b.latitude in
      let delta_longitude = to_radians (sub b.longitude a.longitude) in
      let y = mul (sin delta_longitude) (cos latitude_b) in
      let x =
        sub (mul (cos latitude_a) (sin latitude_b))
          (mul (mul (sin latitude_a) (cos latitude_b)) (cos delta_longitude)) in
      atan2 y x

  -- The caller gives the bearing, or `initial_bearing_rad start end`.
  unfoldable pub project_point_onto_leg : Position F → Position F → F → TrackProjection F
  unfolding distance_meters initial_bearing_rad clamp_unit earth_radius_meters
  project_point_onto_leg start point bearing_to_end =
      let angular_distance_to_point = div (distance_meters start point) earth_radius_meters in
      let bearing_to_point = initial_bearing_rad start point in
      let cross_track_angular = asin (
        clamp_unit
          (mul (sin angular_distance_to_point) (sin (sub bearing_to_point bearing_to_end)))) in
      let along_track_ratio = div (cos angular_distance_to_point) (cos cross_track_angular) in
      let along_track_angular = acos (clamp_unit along_track_ratio) in
      let direction_sign =
        if le (lit 0 0) (cos (sub bearing_to_point bearing_to_end))
        then lit 1 0
        else neg (lit 1 0) in
      record {
        cross_track_meters = mul cross_track_angular earth_radius_meters;
        along_track_meters = mul (mul direction_sign along_track_angular) earth_radius_meters;
      }

  unfoldable pub try_shift : F → F → F → F → Hull F → F → Hull F
  try_shift a_start a_end b_west b_span best shift =
      let b_start = add b_west shift in
      let b_end = add b_start b_span in
      let start = min a_start b_start in
      let end = max a_end b_end in
      let width = sub end start in
      if lt width best.width then record { start = start; end = end; width = width } else best

  unfoldable pub has_finite_edges : Bbox F → Bool
  has_finite_edges b =
      is_finite b.north && is_finite b.south && is_finite b.east && is_finite b.west

  -- The longitude edges of the union, west and east.
  unfoldable pub union_longitudes : Bbox F → Bbox F → F × F
  unfolding try_shift
  union_longitudes a b =
      let a_span = longitude_span_degrees a.west a.east in
      let b_span = longitude_span_degrees b.west b.east in
      let world : F × F = (neg (lit 180 0), lit 180 0) in
      if le (lit 360 0) a_span || le (lit 360 0) b_span
      then world
      else let a_end = add a.west a_span in
        let try = try_shift a.west a_end b.west b_span in
        let none_yet : Hull F = record { start = lit 0 0; end = lit 0 0; width = infinity } in
        let best = try (try (try none_yet (neg (lit 360 0))) (lit 0 0)) (lit 360 0) in
        if le (lit 360 0) best.width
        then world
        else let west = wrap_longitude best.start in
          let east = wrap_longitude best.end in
          if eq best.width (lit 0 0) && eq (abs west) (lit 180 0) && eq (abs east) (lit 180 0)
          then (lit 180 0, neg (lit 180 0))
          else (west, east)

  -- `none` is the exception that the source throws.
  unfoldable pub union_bbox : Bbox F → Bbox F → Option (Bbox F)
  unfolding has_finite_edges union_longitudes
  union_bbox a b =
      if not (has_finite_edges a && has_finite_edges b)
      then none
      else let (west, east) = union_longitudes a b in
        some (record {
          north = max a.north b.north;
          south = min a.south b.south;
          east = east;
          west = west;
        })

  unfoldable pub bbox_contains_point : Bbox F → F → F → Bool
  bbox_contains_point b lon lat =
      if lt lat b.south || lt b.north lat
      then false
      else if le b.west b.east
      then le b.west lon && le lon b.east
      else le b.west lon || le lon b.east
