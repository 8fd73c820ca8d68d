-- ===== src/Cadence.antt =====
-- src/monitoring/scan-cadence.ts: how often the alarms are evaluated, from their radii.
pub mod Laws
use signalk_crows_nest.Prelude.{
  List, [], ◌∷◌, Option, none, some, Bool, true, false, not, ◌&&◌, ◌||◌, if◌then◌else◌,
}
use signalk_crows_nest.Floats.{Floats}
use signalk_crows_nest.Numbers.{vessel_scan_radius_meters}

-- `PositionScanContributor`, less what the cadence does not read.
pub record Contributor (F : Type 0) : Type 0 where
  pub alarm_radius_meters : Option F

pub record ScanCadence (F : Type 0) : Type 0 where
  pub evaluation_move_meters : F
  pub covered_chord : F
  pub coverage_move_meters : F
  pub max_covered_speed_mps : F
  pub tightest_radius_meters : Option F

-- What the loop over the contributors keeps.
pub record Gathered (F : Type 0) : Type 0 where
  pub tightest : Option F
  pub coverage : F

module _ {F : Type 0} ⦃n : Floats F⦄ where
  open n use {lit, infinity, sub, mul, div, pow, lt, le, is_finite, min, max, sqrt}

  unfoldable pub max_evaluation_move_meters : F
  max_evaluation_move_meters = lit 100 0

  unfoldable pub min_evaluation_move_meters : F
  min_evaluation_move_meters = lit 5 0

  unfoldable pub clamp : F → F → F → F
  clamp value low high = min high (max low value)

  unfoldable pub covered_chord_meters : F → F
  covered_chord_meters radius =
      mul (mul (lit 2 0) radius) (sqrt (sub (lit 1 0) (pow (lit 8 1) (lit 2 0))))

  unfoldable pub smallest_covered_radius_meters : F
  unfolding min_evaluation_move_meters covered_chord_meters
  smallest_covered_radius_meters = div min_evaluation_move_meters (covered_chord_meters (lit 1 0))

  -- The guard of the loop, negated.
  unfoldable pub is_usable : F → Bool
  is_usable radius = is_finite radius && not (le radius (lit 0 0))

  unfoldable pub tighter : Option F → F → F
  tighter none radius = radius
  tighter (some tightest) radius = if lt radius tightest then radius else tightest

  unfoldable pub gather_step : Contributor F → Gathered F → Gathered F
  unfolding is_usable tighter
  gather_step contributor g = elim contributor.alarm_radius_meters [
    | none ↦ g
    | some radius ↦ if not (is_usable radius) then g else record {
      tightest = some (tighter g.tightest radius);
      coverage = min g.coverage (sub (vessel_scan_radius_meters radius) radius);
    }
  ]

  unfoldable pub gather : List (Contributor F) → Gathered F → Gathered F
  unfolding gather_step
  gather [] g = g
  gather (c ∷ cs) g = gather cs (gather_step c g)

  unfoldable pub cadence_of : Option F → F → ScanCadence F
  unfolding clamp covered_chord_meters max_evaluation_move_meters min_evaluation_move_meters
  cadence_of none coverage = record {
    evaluation_move_meters = max_evaluation_move_meters;
    covered_chord = infinity;
    coverage_move_meters = infinity;
    max_covered_speed_mps = infinity;
    tightest_radius_meters = none;
  }
  cadence_of (some tightest) coverage =
      let chord = covered_chord_meters tightest in
      let move =
        clamp (div chord (lit 2 0)) min_evaluation_move_meters max_evaluation_move_meters in
      record {
        evaluation_move_meters = move;
        covered_chord = chord;
        coverage_move_meters = coverage;
        max_covered_speed_mps =
            if lt move chord then div chord (div (lit 1000 0) (lit 1000 0)) else lit 0 0;
        tightest_radius_meters = some tightest;
      }

  unfoldable pub derive_scan_cadence : List (Contributor F) → ScanCadence F
  unfolding gather cadence_of
  derive_scan_cadence contributors =
      let g = gather contributors (record { tightest = none; coverage = infinity }) in
      cadence_of g.tightest g.coverage
