-- ===== src/Tests/Sources.antt =====
-- Runs of the course reader and of the refresh scheduler.
use signalk_crows_nest.Prelude.{ℕ, [], length, if◌then◌else◌, none, some, false, ◌≡◌, refl}
use signalk_crows_nest.Types.{Wire, Items, Fields}
use signalk_crows_nest.Course.{ActiveRoute, parse_route_id}
use signalk_crows_nest.Course.Reader.{
  Reader, CourseResult, ResourceResult, create, on_course, on_resource, on_active_route_delta,
}
use signalk_crows_nest.Course.Laws.{Run, Settling, Settle}
use signalk_crows_nest.Course.Cleared.{cleared_stays_clear}
use signalk_crows_nest.Schedule
use signalk_crows_nest.Schedule.{Scheduler, Pass, fire_initial, fire_periodic}
use signalk_crows_nest.Schedule.Laws.{Run as Passes, Step as Passing, one_pass, close_is_quiet}
use signalk_crows_nest.Tests.Runtime.{natural}

abbrev following : ActiveRoute ℕ
following = record {
  href = Wire.text "/resources/routes/abc";
  reverse = Wire.boolean false;
  point_index = Wire.number 0;
  name = Wire.undefined;
}

route_id_read : parse_route_id following.href ≡ some "abc"
unfolding parse_route_id
route_id_read = refl

abbrev geometry : Wire ℕ
geometry = Wire.object (
    Fields.field "feature"
      (Wire.object (
        Fields.field "geometry"
          (Wire.object (
            Fields.field "coordinates"
              (Wire.array (
                Items.cons
                  (Wire.array (Items.cons (Wire.number 5) (Items.cons (Wire.number 6) Items.nil)))
                  Items.nil))
              Fields.end))
          Fields.end))
      Fields.end)

abbrev reading : Reader ℕ
reading = on_course 1 [] (CourseResult.course (some following)) create

abbrev cleared : Reader ℕ
cleared = on_active_route_delta Wire.null reading

-- The resource that was asked for before the route was cleared arrives after it.
abbrev late : Reader ℕ
late =
    on_resource (record { generation = 1; route_id = "abc"; active = following }) []
      (ResourceResult.resource geometry) cleared

reading_run : Run reading
unfolding create
reading_run =
    Run.arrived Run.begun
      (Settle.on_course_read create [] [] 1 (CourseResult.course (some following)) refl)

cleared_stays_clear_example :
    (late.current_route ≡ none) × (late.route_changes ≡ cleared.route_changes)
unfolding create on_course on_active_route_delta
cleared_stays_clear_example = cleared_stays_clear reading late reading_run refl (
    Settling.also Settling.settled (
      Settle.on_resource_read cleared [] []
        (record { generation = 1; route_id = "abc"; active = following })
        (ResourceResult.resource geometry) refl))

abbrev refreshing_once : Scheduler
refreshing_once = fire_initial "Light List" Schedule.start

one_pass_example :
    length (fire_periodic "Light List" refreshing_once).outstanding
    ≡ (if (fire_periodic "Light List" refreshing_once).refreshing then 1 else 0)
unfolding Schedule.start fire_initial
one_pass_example = one_pass "Light List" (fire_periodic "Light List" refreshing_once) (
    Passes.next (Passes.next Passes.begun (Passing.initial Schedule.start refl))
      (Passing.periodic refreshing_once refl))

abbrev failed_late : Scheduler
failed_late =
    Schedule.settle "Light List" "initial refresh" [] (Pass.rejected "offline")
      (Schedule.close refreshing_once)

close_is_quiet_example :
    (failed_late.started ≡ refreshing_once.started) × (failed_late.log ≡ refreshing_once.log)
unfolding Schedule.start fire_initial Schedule.close Schedule.settle
close_is_quiet_example = close_is_quiet "Light List" refreshing_once failed_late (
    Passes.next Passes.begun (
      Passing.settled (Schedule.close refreshing_once) [] [] "initial refresh"
        (Pass.rejected "offline") refl))
