-- ===== src/Course.antt =====
-- src/outputs/route-hazard/course-reader.ts: the active route, narrowed from the course and its
-- resource. The reader itself is in Reader.
pub mod Reader
pub mod Laws
pub mod Cleared
use Prim.Native.Char
use Prim.Native.String
use signalk_crows_nest.Prelude.{
  ℕ, zero, suc, ◌+◌, ◌-◌, String, str_eq, List, [], ◌∷◌, ◌++◌, Option, none, some, Bool, true,
  false, ◌&&◌, ◌||◌, not, if◌then◌else◌, length, is_empty, ◌==◌,
}
use signalk_crows_nest.Floats.{Floats}
use signalk_crows_nest.Types.{Position, Wire, Items, Fields, items_of, is_true}
use signalk_crows_nest.Numbers.{to_finite_number, is_valid_latitude, is_valid_longitude}
use signalk_crows_nest.Geo.{property}
use signalk_crows_nest.Notification.{◌⧺◌}
use signalk_crows_nest.Texts.{split_on}
use signalk_crows_nest.Route.Corridor.{RoutePolyline}

-- What the reader takes of `CourseInfo.activeRoute`.
pub record ActiveRoute (F : Type 0) : Type 0 where
  pub href : Wire F
  pub reverse : Wire F
  pub point_index : Wire F
  pub name : Wire F

-- The last segment that is not empty.
unfoldable pub last_segment : List String → Option String
last_segment [] = none
last_segment (s ∷ segments) = elim (last_segment segments) [
  | some last ↦ some last
  | none ↦ if str_eq s "" then none else some s
]

unfoldable pub parse_route_id : {F : Type 0} → Wire F → Option String
unfolding split_on last_segment
parse_route_id (Wire.text href) = last_segment (split_on b'/' href)
parse_route_id _ = none

-- A property of a value; `undefined` where there is none.
unfoldable pub member_of : {F : Type 0} → String → Wire F → Wire F
unfolding property
member_of name (Wire.object fields) = property name fields
member_of name _ = Wire.undefined

abbrev pub keep_position :
    {F : Type 0} → Option (Position F) → List (Position F) → List (Position F)
keep_position none l = l
keep_position (some p) l = p ∷ l

unfoldable pub reversed : {A : Type 0} → List A → List A → List A
reversed [] acc = acc
reversed (x ∷ xs) acc = reversed xs (x ∷ acc)

module _ {F : Type 0} ⦃n : Floats F⦄ where
  open n use {lit, lt, eq, floor, is_finite}

  unfoldable pub valid_pair : Option F → Option F → Option (Position F)
  unfolding is_valid_latitude is_valid_longitude
  valid_pair (some lon) (some lat) =
      if not (is_valid_longitude (Wire.number lon)) || not (is_valid_latitude (Wire.number lat))
      then none
      else some (record { latitude = lat; longitude = lon })
  valid_pair _ _ = none

  unfoldable pub to_geo_json_position : Wire F → Option (Position F)
  unfolding valid_pair to_finite_number
  to_geo_json_position (Wire.array (Items.cons longitude (Items.cons latitude rest))) =
      valid_pair (to_finite_number longitude) (to_finite_number latitude)
  to_geo_json_position _ = none

  unfoldable pub positions_of : List (Wire F) → List (Position F)
  unfolding to_geo_json_position
  positions_of [] = []
  positions_of (entry ∷ entries) = keep_position (to_geo_json_position entry) (positions_of entries)

  abbrev pub positions_or_none : List (Position F) → Option (List (Position F))
  positions_or_none positions = if is_empty positions then none else some positions

  unfoldable pub coordinates_of : Wire F → Option (List (Position F))
  unfolding positions_of items_of
  coordinates_of (Wire.array coordinates) = positions_or_none (positions_of (items_of coordinates))
  coordinates_of _ = none

  abbrev pub is_nullish : Wire F → Bool
  is_nullish Wire.undefined = true
  is_nullish Wire.null = true
  is_nullish _ = false

  -- The outer `none` is the exception of the access to `feature`.
  unfoldable pub extract_coordinates : Wire F → Option (Option (List (Position F)))
  unfolding member_of coordinates_of
  extract_coordinates resource =
      if is_nullish resource
      then none
      else some (
          coordinates_of
            (member_of "coordinates" (member_of "geometry" (member_of "feature" resource))))

  -- The index is a whole number of the runtime.
  unfoldable pub clamp_index : Wire F → ℕ → F
  clamp_index (Wire.number index) length =
      if not (is_finite index) || lt index (lit 0 0)
      then lit 0 0
      else if lt (lit (length - 1) 0) index
      then lit (length - 1) 0
      else floor index
  clamp_index _ length = lit 0 0

  -- `waypoints.slice(index)`, from the place `at`.
  unfoldable pub slice_from : ℕ → F → List (Position F) → List (Position F)
  slice_from at index [] = []
  slice_from at index (p ∷ ps) =
      let rest = slice_from (at + 1) index ps in if lt (lit at 0) index then rest else p ∷ ps

  abbrev pub route_name : Wire F → Option String
  route_name (Wire.text name) = if str_eq name "" then none else some name
  route_name _ = none

  unfoldable pub waypoints_ahead : ActiveRoute F → List (Position F) → List (Position F)
  unfolding reversed clamp_index slice_from
  waypoints_ahead active coordinates =
      let travel_order = if is_true active.reverse then reversed coordinates [] else coordinates in
      slice_from 0 (clamp_index active.point_index (length travel_order)) travel_order

  -- The outer `none` is the exception of `extractCoordinates`.
  unfoldable pub build_route_polyline :
      String → ActiveRoute F → Wire F → Option (Option (RoutePolyline F) × List String)
  unfolding extract_coordinates waypoints_ahead
  build_route_polyline route_id active resource = elim (extract_coordinates resource) [
    | none ↦ none
    | some none ↦
        some (none, ("Course reader found no usable coordinates in route " ⧺ route_id) ∷ [])
    | some (some coordinates) ↦
        let waypoints = waypoints_ahead active coordinates in
        if is_empty waypoints
        then some (none, ("Course reader found no waypoints ahead in route " ⧺ route_id) ∷ [])
        else some (
          some (record {
            route_id = route_id;
            name = route_name active.name;
            vessel_position = none;
            waypoints = waypoints;
          }),
          [],
        )
  ]

  unfoldable pub same_waypoints : List (Position F) → List (Position F) → Bool
  same_waypoints [] [] = true
  same_waypoints (p ∷ ps) (q ∷ qs) =
      eq p.latitude q.latitude && eq p.longitude q.longitude && same_waypoints ps qs
  same_waypoints _ _ = false

  unfoldable pub same_route : Option (RoutePolyline F) → Option (RoutePolyline F) → Bool
  unfolding same_waypoints
  same_route none none = true
  same_route (some a) (some b) =
      str_eq a.route_id b.route_id && same_waypoints a.waypoints b.waypoints
  same_route _ _ = false
