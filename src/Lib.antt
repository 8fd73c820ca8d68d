-- ===== src/Lib.antt =====
-- signalk_crows_nest: the safety core of the Crow's Nest plugin, modelled and proved.
--
-- The plugin reads points of interest from several sources, merges them, and raises notifications
-- for those that matter to the vessel. A list result passes through the merge of duplicates
-- (src/inputs/dedupe-pois.ts); each alarm output completes it with the points that still alarm and
-- that the result omits (src/outputs/alarm-retention.ts), scans the completed list, raises what is
-- new and clears what is gone through its tracker (src/shared/notification-tracker.ts), which sends
-- deltas on an encoded path (src/shared/notification-path.ts). The recorder
-- (src/status/plugin-status.ts) keeps how requests ended.
--
-- Files, and the code that each models:
--   Types, Floats, JsMap        src/shared/types.ts; the numbers and the Map of the runtime
--   Numbers                     src/shared/numbers.ts, longitude.ts and proximity-radius.ts
--   Geo                         src/geo/position-utilities.ts
--   Notification                src/shared/notification-path.ts: sanitize_poi_id is sanitizePoiId,
--                               emit_notification is emitNotification
--   Tracker                     src/shared/notification-tracker.ts: clear_stale, clear_all, set, has,
--                               get, entries and size
--   Retention                   src/outputs/alarm-retention.ts: complete_with_retained
--   Episode                     the raise and clear half that two outputs share in shape
--   Proximity                   src/outputs/proximity-alarm/proximity-alarms.ts: evaluate
--   Bridge                      src/shared/bridge-clearance.ts
--   Bridge.Resolver             src/outputs/bridge-air-draft/bridge-clearance-resolver.ts
--   Bridge.Alarms               src/outputs/bridge-air-draft/bridge-clearance-alarms.ts: evaluate
--   Route                       src/outputs/route-hazard/route-hazard-alarms.ts: complete_list and
--                               evaluate
--   Route.Corridor              src/outputs/route-hazard/route-corridor.ts: scan_route_corridor
--   Dedupe, Dedupe.Merge        src/inputs/dedupe-pois.ts: dedupe_against_base and its parts
--   Status                      src/status/plugin-status.ts: each recording, snapshot
--   Cadence                     src/monitoring/scan-cadence.ts: derive_scan_cadence
--   Monitor, Monitor.Ticks      src/monitoring/position-monitor.ts: maybe_tick, run_tick, settle,
--                               on_position, request_scan, maybe_evaluate and stop
--   Viewport, Viewport.Cache    src/shared/bbox-debounce.ts: get, settle (the handlers of fetchInto
--                               and revalidate), wake (what follows an await), clear
--   Course, Course.Reader       src/outputs/route-hazard/course-reader.ts: build_route_polyline,
--                               on_course and on_resource (the halves of refresh), apply_refresh
--   Schedule                    src/inputs/refresh-scheduler.ts: run_refresh, settle, close
--   Details                     src/shared/detail-store.ts: persist, flush, load, clear
--   Details.Hydrated            src/shared/hydrated-detail-cache.ts
--   Filters                     src/shared/year-filter.ts, rating.ts, us-waters.ts and
--                               poi-type-selection.ts, src/inputs/active-captain/rating-filter.ts
--   Query                       src/outputs/notes-resource/resource-query.ts: resolve_bbox
--   Tests                       a small runtime, and runs of the code on concrete inputs
-- The other files under a component (Laws, Refinement, Settle and so on) hold lemmas about it.
--
-- How the code is modelled. An operation takes the state and returns it: a tracker carries its app,
-- which is the log of the deltas sent, the log of the debug lines and a stream of clock readings,
-- of which `reads` says how many are used. A JavaScript Map is an association list in insertion
-- order. IEEE doubles are an interface (Floats) that assumes no law; a theorem that needs one takes
-- it as a named hypothesis. Times in milliseconds are natural numbers; a difference of two times
-- stops at 0, where the code's would be negative and the comparison with a positive window comes
-- out the same. base64url of Node is a parameter, and what is used of it is the record IsFaithful.
-- The lru-cache package is a parameter, with no law but those of IsStore and IsRemembering where a
-- theorem needs them. So are JSON and the order of Object.keys for the detail store, which takes
-- how far each write gets as an outcome, and Date.parse for the year filter. A request or a fetch
-- starts in one step and settles in a later one, in any order, so that runs are sequences of steps;
-- the requests that have not settled are a list in the state. The points that the merge is given
-- are taken to be distinct objects, and an object is its place in its list. `sort` is an insertion
-- sort, which is stable as the runtime's is. All loops are structural recursion on the list that
-- they run over. Only maybe_tick, which calls itself after a tick that fetches nothing, takes fuel,
-- and gives none when it ends; maybe_tick_ends shows how much is enough. It also takes the readings
-- of the clock in their order, since the evaluation of a round takes time.
--
-- Not modelled: the notes resource but for its query, the input registry, the settings reducer.
-- Neither are network and file access, the parsers of the external formats, the React views.
mod Prelude
pub mod JsMap
pub mod Floats
pub mod Types
pub mod Numbers
pub mod Geo
pub mod Monitor
pub mod Notification
pub mod Tracker
pub mod Retention
pub mod Episode
pub mod Proximity
pub mod Bridge
pub mod Route
pub mod Schedule
pub mod Status
pub mod Course
pub mod Dedupe
pub mod Details
pub mod Query
pub mod Filters
pub mod Texts
pub mod Cadence
mod Tests
pub mod Viewport
