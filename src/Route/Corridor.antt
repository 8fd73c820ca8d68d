-- ===== src/Route/Corridor.antt =====
-- src/outputs/route-hazard/route-corridor.ts: the points that lie along the route ahead.
use signalk_crows_nest.Prelude.{
  String, List, [], ◌∷◌, Option, none, some, Bool, true, false, not, ◌&&◌, ◌||◌, if◌then◌else◌,
  is_empty, keep_if,
}
use mathlib.Core.Option
use signalk_crows_nest.Floats.{Floats}
use signalk_crows_nest.JsMap
use signalk_crows_nest.Types.{Position, PoiType, PoiSummary, CorridorPoi}
use signalk_crows_nest.Numbers.{positive_finite_number}
use signalk_crows_nest.Geo.{
  TrackProjection, distance_meters, initial_bearing_rad, project_point_onto_leg,
}
use signalk_crows_nest.Bridge.{to_wire}

-- `CORRIDOR_POI_TYPE_SET.has`.
unfoldable pub is_corridor_type : PoiType → Bool
is_corridor_type PoiType.hazard = true
is_corridor_type PoiType.bridge = true
is_corridor_type PoiType.lock = true
is_corridor_type _ = false

pub record RoutePolyline (F : Type 0) : Type 0 where
  pub route_id : String
  pub name : Option String
  pub vessel_position : Option (Position F)
  pub waypoints : List (Position F)

unfoldable pub route_leg_points : {F : Type 0} → RoutePolyline F → List (Position F)
route_leg_points route = elim route.vessel_position [
  | none ↦ route.waypoints
  | some vessel ↦ vessel ∷ route.waypoints
]

pub record RouteCorridorScanInput (F : Type 0) : Type 0 where
  pub route : RoutePolyline F
  pub pois : List (PoiSummary F)
  pub corridor_half_width_meters : F
  pub speed_over_ground : Option F

module _ {F : Type 0} ⦃n : Floats F⦄ where
  open n use {lit, add, sub, div, lt, le, eq, is_finite, abs}

  -- The guards on a projection: its values are finite, and it lies in the leg's corridor.
  unfoldable pub is_beside : F → F → TrackProjection F → Bool
  is_beside half_width leg_length projection =
      (is_finite projection.cross_track_meters && is_finite projection.along_track_meters)
      && not (lt half_width (abs projection.cross_track_meters))
      && not (
          lt projection.along_track_meters (lit 0 0) || lt leg_length projection.along_track_meters)

  -- Whether a flagged point keeps its place against a projection onto a later leg.
  unfoldable pub is_nearer : CorridorPoi F → F → F → Bool
  is_nearer existing cross_track along_track_distance =
      let existing_cross = abs existing.cross_track_distance_meters in
      let new_cross = abs cross_track in
      lt existing_cross new_cross
      || (eq existing_cross new_cross
          && le existing.along_track_distance_meters along_track_distance)

  unfoldable pub keeps_existing : Option (CorridorPoi F) → F → F → Bool
  unfolding is_nearer
  keeps_existing none cross_track along_track_distance = false
  keeps_existing (some existing) cross_track along_track_distance =
      is_nearer existing cross_track along_track_distance

  unfoldable pub corridor_poi : Option F → PoiSummary F → F → F → CorridorPoi F
  corridor_poi sog poi along_track_distance cross_track = record {
    id = poi.id;
    type = poi.type;
    name = poi.name;
    position = poi.position;
    along_track_distance_meters = along_track_distance;
    cross_track_distance_meters = cross_track;
    eta_seconds = Option.map (λ speed. div along_track_distance speed) sog;
  }

  -- The body of the loop over the points of one leg.
  unfoldable pub flag_point :
      F
      → Option F
      → Position F
      → F
      → F
      → F
      → PoiSummary F
      → List (String × CorridorPoi F)
      → List (String × CorridorPoi F)
  unfolding is_beside keeps_existing corridor_poi
  flag_point half_width sog start leg_length bearing so_far poi flagged =
      let projection = project_point_onto_leg start poi.position bearing in
      let distance = add so_far projection.along_track_meters in
      if not (is_beside half_width leg_length projection)
        || keeps_existing (JsMap.get poi.id flagged) projection.cross_track_meters distance
      then flagged
      else JsMap.set poi.id (corridor_poi sog poi distance projection.cross_track_meters) flagged

  unfoldable pub flag_points :
      F
      → Option F
      → Position F
      → F
      → F
      → F
      → List (PoiSummary F)
      → List (String × CorridorPoi F)
      → List (String × CorridorPoi F)
  unfolding flag_point
  flag_points half_width sog start leg_length bearing so_far [] flagged = flagged
  flag_points half_width sog start leg_length bearing so_far (poi ∷ pois) flagged =
      flag_points half_width sog start leg_length bearing so_far pois
        (flag_point half_width sog start leg_length bearing so_far poi flagged)

  -- The loop over the legs, from the start of the next one.
  unfoldable pub scan_legs :
      F
      → Option F
      → List (PoiSummary F)
      → Position F
      → List (Position F)
      → F
      → List (String × CorridorPoi F)
      → List (String × CorridorPoi F)
  unfolding flag_points
  scan_legs half_width sog pois start [] so_far flagged = flagged
  scan_legs half_width sog pois start (end ∷ rest) so_far flagged =
      let leg_length = distance_meters start end in
      let skipped = not (is_finite leg_length) || eq leg_length (lit 0 0) in
      scan_legs half_width sog pois end rest (if skipped then so_far else add so_far leg_length) (
        if skipped
        then flagged
        else flag_points half_width sog start leg_length (initial_bearing_rad start end) so_far pois
            flagged)

  -- `sort` with `(a, b) => a.alongTrackDistanceMeters - b.alongTrackDistanceMeters`, which is stable.
  unfoldable pub is_after : CorridorPoi F → CorridorPoi F → Bool
  is_after a b = lt (lit 0 0) (sub a.along_track_distance_meters b.along_track_distance_meters)

  unfoldable pub insert : CorridorPoi F → List (CorridorPoi F) → List (CorridorPoi F)
  unfolding is_after
  insert a [] = a ∷ []
  insert a (b ∷ bs) = if is_after a b then b ∷ insert a bs else a ∷ b ∷ bs

  unfoldable pub sort : List (CorridorPoi F) → List (CorridorPoi F)
  unfolding insert
  sort [] = []
  sort (a ∷ bs) = insert a (sort bs)

  unfoldable pub scan_points : RouteCorridorScanInput F → List (Position F) → List (CorridorPoi F)
  unfolding scan_legs sort is_corridor_type
  scan_points input [] = []
  scan_points input (start ∷ rest) =
      if is_empty rest || not (lt (lit 0 0) input.corridor_half_width_meters) || is_empty input.pois
      then []
      else let corridor_pois = keep_if (λ poi. is_corridor_type poi.type) input.pois in
        if is_empty corridor_pois
        then []
        else sort (
            JsMap.values (
              scan_legs input.corridor_half_width_meters
                (positive_finite_number (to_wire input.speed_over_ground)) corridor_pois start rest
                (lit 0 0) []))

  unfoldable pub scan_route_corridor : RouteCorridorScanInput F → List (CorridorPoi F)
  unfolding scan_points route_leg_points
  scan_route_corridor input = scan_points input (route_leg_points input.route)
