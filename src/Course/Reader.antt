-- ===== src/Course/Reader.antt =====
-- src/outputs/route-hazard/course-reader.ts: the reader. A refresh reads the course, then the route's
-- resource; each read starts in one step and settles in a later one.
use signalk_crows_nest.Prelude.{
  ℕ, ◌+◌, String, List, [], ◌∷◌, ◌++◌, Option, none, some, Bool, true, false, not, ◌||◌,
  if◌then◌else◌, ◌==◌,
}
use signalk_crows_nest.Floats.{Floats}
use signalk_crows_nest.Types.{Position, Wire}
use signalk_crows_nest.Numbers.{to_finite_number}
use signalk_crows_nest.Geo.{to_position}
use signalk_crows_nest.Notification.{◌⧺◌}
use signalk_crows_nest.Route.Corridor.{RoutePolyline}
use signalk_crows_nest.Course.{ActiveRoute, parse_route_id, build_route_polyline, same_route}

-- A read of the route's resource, for a refresh.
pub record ResourceRead (F : Type 0) : Type 0 where
  pub generation : ℕ
  pub route_id : String
  pub active : ActiveRoute F

-- The reader's variables; then the refreshes that wait for the course, by generation, those that wait
-- for a resource, the calls of `onRouteChange` and the lines logged.
pub record Reader (F : Type 0) : Type 0 where
  pub stopped : Bool
  pub current_route : Option (RoutePolyline F)
  pub refresh_generation : ℕ
  pub course_reads : List ℕ
  pub resource_reads : List (ResourceRead F)
  pub route_changes : ℕ
  pub log : List String

-- How the reads settle.
pub data CourseResult (F : Type 0) : Type 0 where
  course : Option (ActiveRoute F) → CourseResult F
  course_failed : String → CourseResult F

pub data ResourceResult (F : Type 0) : Type 0 where
  resource : Wire F → ResourceResult F
  resource_failed : String → ResourceResult F

-- What `getSelfPath` gives; `failed` is an exception.
pub data SelfValue (F : Type 0) : Type 0 where
  value : Wire F → SelfValue F
  failed : String → SelfValue F

pub record VesselState (F : Type 0) : Type 0 where
  pub position : Option (Position F)
  pub speed_over_ground : Option F

abbrev pub read_failed : String → String → String
read_failed path error = "Course reader could not read " ⧺ path ⧺ ": " ⧺ error

module _ {F : Type 0} where
  unfoldable pub write_log : List String → Reader F → Reader F
  write_log lines r = record r { log = r.log ++ lines }

  unfoldable pub start_refresh : Reader F → Reader F
  start_refresh r = record r {
    refresh_generation = r.refresh_generation + 1;
    course_reads = r.course_reads ++ (r.refresh_generation + 1) ∷ [];
  }

  unfoldable pub schedule_refresh : Reader F → Reader F
  unfolding start_refresh
  schedule_refresh r = if r.stopped then r else start_refresh r

  unfoldable pub create : Reader F
  unfolding schedule_refresh
  create = schedule_refresh (record {
    stopped = false;
    current_route = none;
    refresh_generation = 0;
    course_reads = [];
    resource_reads = [];
    route_changes = 0;
    log = "Course reader started; subscribed to the Course API route deltas" ∷ [];
  })

  unfoldable pub stop : Reader F → Reader F
  unfolding write_log
  stop r =
      if r.stopped
      then r
      else write_log ("Course reader stopped" ∷ [])
          (record r { stopped = true; current_route = none })

module _ {F : Type 0} ⦃n : Floats F⦄ where
  unfoldable pub apply_refresh : ℕ → Option (RoutePolyline F) → Reader F → Reader F
  unfolding same_route
  apply_refresh generation route r =
      if r.stopped || not (generation == r.refresh_generation) then r else record r {
        current_route = route;
        route_changes =
            if same_route r.current_route route then r.route_changes else r.route_changes + 1;
      }

  -- The course of a refresh arrives; `rest` are the other refreshes that wait for it. The line about
  -- an href leaves out its text.
  unfoldable pub on_course : ℕ → List ℕ → CourseResult F → Reader F → Reader F
  unfolding apply_refresh write_log parse_route_id
  on_course generation rest (CourseResult.course_failed error) r = apply_refresh generation none (
      write_log (("Course reader could not read the course: " ⧺ error) ∷ [])
        (record r { course_reads = rest }))
  on_course generation rest (CourseResult.course none) r =
      apply_refresh generation none (record r { course_reads = rest })
  on_course generation rest (CourseResult.course (some active)) r =
      let r' = record r { course_reads = rest } in
      elim (parse_route_id active.href) [
        | none ↦
            apply_refresh generation none
              (write_log ("Course reader could not parse a route id from href" ∷ []) r')
        | some route_id ↦ record r' {
          resource_reads =
              r'.resource_reads
              ++ (record { generation = generation; route_id = route_id; active = active }) ∷ [];
        }
      ]

  -- The resource of a refresh arrives. A `null` resource makes the refresh reject before it commits;
  -- the line about that leaves out the exception's text.
  unfoldable pub on_resource :
      ResourceRead F → List (ResourceRead F) → ResourceResult F → Reader F → Reader F
  unfolding apply_refresh write_log build_route_polyline
  on_resource read rest (ResourceResult.resource_failed error) r =
      apply_refresh read.generation none (
        write_log (("Course reader could not fetch route " ⧺ read.route_id ⧺ ": " ⧺ error) ∷ [])
          (record r { resource_reads = rest }))
  on_resource read rest (ResourceResult.resource body) r =
      let r' = record r { resource_reads = rest } in
      elim (build_route_polyline read.route_id read.active body) [
        | none ↦ write_log ("Course reader refresh failed unexpectedly" ∷ []) r'
        | some built ↦ apply_refresh read.generation built.0 (write_log built.1 r')
      ]

  abbrev pub is_null : Wire F → Bool
  is_null Wire.null = true
  is_null _ = false

  unfoldable pub on_active_route_delta : Wire F → Reader F → Reader F
  unfolding apply_refresh schedule_refresh
  on_active_route_delta delta r =
      if r.stopped
      then r
      else if is_null delta
      then apply_refresh (r.refresh_generation + 1) none
          (record r { refresh_generation = r.refresh_generation + 1 })
      else schedule_refresh r

  -- The reads of the data model, with the line that a failed one logs.
  unfoldable pub read_position : SelfValue F → Option (Position F) × List String
  unfolding to_position
  read_position (SelfValue.value raw) = (to_position raw, [])
  read_position (SelfValue.failed error) = (none, read_failed "navigation.position" error ∷ [])

  unfoldable pub read_speed_over_ground : SelfValue F → Option F × List String
  unfolding to_finite_number
  read_speed_over_ground (SelfValue.value raw) = (to_finite_number raw, [])
  read_speed_over_ground (SelfValue.failed error) =
      (none, read_failed "navigation.speedOverGround" error ∷ [])

  unfoldable pub get_vessel_state : SelfValue F → SelfValue F → Reader F → VesselState F × Reader F
  unfolding read_position read_speed_over_ground write_log
  get_vessel_state at speed r =
      let (position, lines) = read_position at in
      let (speed_over_ground, lines') = read_speed_over_ground speed in
      (
        record { position = position; speed_over_ground = speed_over_ground },
        write_log (lines ++ lines') r,
      )

  -- The caller's position is `some`, with `none` inside for `null`; `at` is what a live read gives.
  unfoldable pub get_route_ahead :
      Option (Option (Position F)) → SelfValue F → Reader F → Option (RoutePolyline F) × Reader F
  unfolding read_position write_log
  get_route_ahead vessel_position at r = elim r.current_route [
    | none ↦ (none, r)
    | some route ↦ elim vessel_position [
      | some position ↦ (some (record route { vessel_position = position }), r)
      | none ↦
          let (position, lines) = read_position at in
          (some (record route { vessel_position = position }), write_log lines r)
    ]
  ]
