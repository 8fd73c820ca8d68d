-- ===== src/Monitor.antt =====
-- src/monitoring/position-monitor.ts: the scan that the vessel's position drives. A request to the
-- points of interest starts in one step and settles in a later one; the steps between are the
-- caller's. Each step reads the clock once.
pub mod Ticks
pub mod Laws
pub mod Runs
pub mod Safety
pub mod Scans
pub mod Replay
use signalk_crows_nest.Prelude.{
  ℕ, zero, suc, ◌+◌, String, List, [], ◌∷◌, ◌++◌, Option, none, some, Bool, true, false, not, ◌&&◌,
  ◌||◌, if◌then◌else◌, ltb, leb, keep_if, map, or_else, is_empty, is_some,
}
use signalk_crows_nest.JsMap
use signalk_crows_nest.Floats.{Floats}
use signalk_crows_nest.Types.{Position, Bbox, PoiSummary, Wire, ms_per_minute}
use signalk_crows_nest.Geo.{distance_meters, to_position, union_bbox}
use signalk_crows_nest.Notification.{◌⧺◌}
use signalk_crows_nest.Route.{type_name}
use signalk_crows_nest.Cadence.{
  Contributor, ScanCadence, derive_scan_cadence, smallest_covered_radius_meters,
}

-- What `buildFetchBox` returns; `failed` is an exception, with its text.
pub data FetchBox (F : Type 0) : Type 0 where
  box : Bbox F → FetchBox F
  nothing : FetchBox F
  failed : String → FetchBox F

-- `PositionScanContributor`, with a name to tell one from another. Its answers may depend on the
-- time. `evaluate` gives the text of the exception that it throws, if it throws one.
pub record ScanContributor (F : Type 0) : Type 0 where
  pub name : String
  pub poi_types : List String
  pub alarm_radius_meters : Option F
  pub build_fetch_box : ℕ → Position F → FetchBox F
  pub evaluate : ℕ → Position F → List (PoiSummary F) → ℕ → Option String

pub record MonitorConfig (F : Type 0) : Type 0 where
  pub contributors : List (ScanContributor F)
  pub poi_types : String
  pub min_move_meters : F
  pub min_interval_ms : ℕ

-- A call of `listPointsOfInterest`, and a call of a contributor's `evaluate`.
pub record ListRequest (F : Type 0) : Type 0 where
  pub at : ℕ
  pub bbox : Bbox F
  pub poi_types : String

pub record Evaluation (F : Type 0) : Type 0 where
  pub at : ℕ
  pub name : String
  pub position : Position F
  pub pois : List (PoiSummary F)
  pub list_fetched_at : ℕ

-- The variables of `createPositionMonitor`; then what the world has seen: the requests made and the
-- tick positions of those that have not settled, the evaluations, and the lines logged.
pub record Monitor (F : Type 0) : Type 0 where
  pub stopped : Bool
  pub tick_in_flight : Bool
  pub forced_tick_pending : Bool
  pub latest_position : Option (Position F)
  pub last_tick_position : Option (Position F)
  pub last_tick_time : ℕ
  pub last_pois : Option (List (PoiSummary F))
  pub last_pois_fetched_at : ℕ
  pub last_evaluation_position : Option (Position F)
  pub last_evaluation_time : ℕ
  pub last_coverage_report_time : ℕ
  pub requests : List (ListRequest F)
  pub outstanding : List (Position F)
  pub evaluations : List (Evaluation F)
  pub log : List String
  pub errors : List String

-- How a request settles.
pub data Listing (F : Type 0) : Type 0 where
  resolved : List (PoiSummary F) → Listing F
  rejected : String → Listing F

abbrev pub default_min_interval_ms : ℕ
default_min_interval_ms = ms_per_minute

abbrev pub coverage_report_interval_ms : ℕ
coverage_report_interval_ms = ms_per_minute

-- From src/monitoring/scan-cadence.ts.
abbrev pub min_evaluation_interval_ms : ℕ
min_evaluation_interval_ms = 1000

abbrev pub max_evaluation_interval_ms : ℕ
max_evaluation_interval_ms = 60000

unfoldable pub debug : {F : Type 0} → String → Monitor F → Monitor F
debug message m = record m { log = m.log ++ message ∷ [] }

unfoldable pub report : {F : Type 0} → String → Monitor F → Monitor F
report message m = record m { errors = m.errors ++ message ∷ [] }

unfoldable pub add_all : List String → List String → List String
add_all [] types = types
add_all (t ∷ ts) types = add_all ts (JsMap.add t types)

module _ {F : Type 0} where
  unfoldable pub zone_contributors : List (ScanContributor F) → List (ScanContributor F)
  zone_contributors = keep_if (λ c. is_some c.alarm_radius_meters)

  unfoldable pub collect_types : List (ScanContributor F) → List String → List String
  unfolding add_all
  collect_types [] types = types
  collect_types (c ∷ cs) types = collect_types cs (add_all c.poi_types types)

  -- `replayPoiTypes`
  unfoldable pub replay_poi_types : List (ScanContributor F) → List String
  unfolding collect_types zone_contributors
  replay_poi_types contributors = collect_types (zone_contributors contributors) []

  unfoldable pub is_of_types : List String → PoiSummary F → Bool
  is_of_types types poi = JsMap.member (type_name poi.type) types

  -- The loop over the targets.
  unfoldable pub evaluate_loop :
      ℕ → Position F → List (PoiSummary F) → ℕ → List (ScanContributor F) → Monitor F → Monitor F
  unfolding debug
  evaluate_loop now vessel_position pois list_fetched_at [] m = m
  evaluate_loop now vessel_position pois list_fetched_at (c ∷ cs) m =
      let m' : Monitor F = record m {
        evaluations =
            m.evaluations
            ++ (record {
              at = now;
              name = c.name;
              position = vessel_position;
              pois = pois;
              list_fetched_at = list_fetched_at;
            })
              ∷ [];
      } in
      evaluate_loop now vessel_position pois list_fetched_at cs
        (elim (c.evaluate now vessel_position pois list_fetched_at) [
          | none ↦ m'
          | some error ↦ debug ("Position monitor: contributor evaluate failed: " ⧺ error) m'
        ])

-- What the loop over the fetch boxes keeps; `none` for `united` when `unionBbox` has thrown.
pub record Boxes (F : Type 0) : Type 0 where
  pub united : Option (Option (Bbox F))
  pub failures : List String

abbrev pub union_error : String
union_error = "Error: unionBbox: input carries a non-finite edge"

module _ {F : Type 0} ⦃n : Floats F⦄ where
  open n use {lit, mul, div, lt, le, round, ceil, text, to_fixed}

  unfoldable pub default_min_move_meters : F
  default_min_move_meters = lit 100 0

  unfoldable pub knots : F → String
  knots meters_per_second = to_fixed (div (mul meters_per_second (lit 3600 0)) (lit 1852 0)) 1

  unfoldable pub gather_boxes :
      ℕ → Position F → List (ScanContributor F) → Option (Bbox F) → List String → Boxes F
  gather_boxes now position [] bbox failures = record { united = some bbox; failures = failures }
  gather_boxes now position (c ∷ cs) bbox failures = elim (c.build_fetch_box now position) [
    | FetchBox.failed error ↦
        gather_boxes now position cs bbox
          (failures ++ ("Position monitor: contributor buildFetchBox failed: " ⧺ error) ∷ [])
    | FetchBox.nothing ↦ gather_boxes now position cs bbox failures
    | FetchBox.box b ↦ elim bbox [
      | none ↦ gather_boxes now position cs (some b) failures
      | some a ↦ elim (union_bbox a b) [
        | none ↦ record { united = none; failures = failures }
        | some both ↦ gather_boxes now position cs (some both) failures
      ]
    ]
  ]

  unfoldable pub create : Monitor F
  create = record {
    stopped = false;
    tick_in_flight = false;
    forced_tick_pending = false;
    latest_position = none;
    last_tick_position = none;
    last_tick_time = 0;
    last_pois = none;
    last_pois_fetched_at = 0;
    last_evaluation_position = none;
    last_evaluation_time = 0;
    last_coverage_report_time = 0;
    requests = [];
    outstanding = [];
    evaluations = [];
    log = [];
    errors = [];
  }
