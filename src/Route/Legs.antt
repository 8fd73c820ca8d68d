-- ===== src/Route/Legs.antt =====
-- The legs of a route, and what it is for a point to lie beside one of them.
use signalk_crows_nest.Prelude.{
  if◌then◌else◌, List, [], ◌∷◌, Option, Bool, true, false, not, ◌||◌, ◌≡◌,
}
use mathlib.Core.List.{Mem}
use signalk_crows_nest.Floats.{Floats}
use signalk_crows_nest.Types.{Position, PoiSummary, CorridorPoi}
use signalk_crows_nest.Geo.{distance_meters, initial_bearing_rad, earth_radius_meters}
use signalk_crows_nest.Route.Corridor.{is_corridor_type, corridor_poi}

module _ {F : Type 0} ⦃n : Floats F⦄ where
  open n use {
    lt, le, lit, add, eq, sub, mul, div, neg, min, max, abs, sin, cos, asin, acos, is_finite,
  }

  -- A leg is of no use when its length is not finite or zero.
  abbrev pub is_skipped : F → Bool
  is_skipped leg_length = not (is_finite leg_length) || eq leg_length (lit 0 0)

  -- `IsLeg from ahead so_far a b d`: on the route from `from`, where the vessel has `so_far` behind
  -- it, through the points `ahead`, a leg of use goes from `a` to `b` and begins at the distance `d`.
  pub data IsLeg : Position F → List (Position F) → F → Position F → Position F → F → Type 0 where
    this_leg :
        (from b : Position F) (rest : List (Position F)) (so_far : F)
        → is_skipped (distance_meters from b) ≡ false
        → IsLeg from (b ∷ rest) so_far from b so_far
    later_leg :
        (from next : Position F) (rest : List (Position F)) (so_far : F) {a b : Position F} {d : F}
        → IsLeg next rest
            (if is_skipped (distance_meters from next)
              then so_far
              else add so_far (distance_meters from next))
            a
            b
            d
        → IsLeg from (next ∷ rest) so_far a b d

  abbrev pub IsRouteLeg : List (Position F) → Position F → Position F → F → Type 0
  IsRouteLeg [] a b d = ⊥
  IsRouteLeg (from ∷ ahead) a b d = IsLeg from ahead (lit 0 0) a b d

  -- The angle at the earth's center between the great circle from `a` to `b` and the point `p`.
  abbrev pub cross_angle : Position F → Position F → Position F → F
  unfolding earth_radius_meters
  cross_angle a b p = asin (
      min (lit 1 0) (
        max (neg (lit 1 0)) (
          mul (sin (div (distance_meters a p) earth_radius_meters))
            (sin (sub (initial_bearing_rad a p) (initial_bearing_rad a b))))))

  -- The angle along that circle from `a` to the foot of `p`, below zero behind `a`.
  abbrev pub along_angle : Position F → Position F → Position F → F
  unfolding earth_radius_meters
  along_angle a b p =
      mul
        (if le (lit 0 0) (cos (sub (initial_bearing_rad a p) (initial_bearing_rad a b)))
          then lit 1 0
          else neg (lit 1 0))
        (acos (
          min (lit 1 0) (
            max (neg (lit 1 0)) (
              div (cos (div (distance_meters a p) earth_radius_meters))
                (cos (cross_angle a b p))))))

  -- A returned point is one of the points of the list, of a type that the corridor flags, beside a
  -- leg of the route: no further across it than the half width, and between the leg's ends along it.
  pub record IsFlagged (half_width : F) (sog : Option F) (pois : List (PoiSummary F))
      (route : List (Position F)) (c : CorridorPoi F) : Type 0 where
    pub poi : PoiSummary F
    pub start : Position F
    pub end : Position F
    pub so_far : F
    pub listed : Mem poi pois
    pub type_ok : is_corridor_type poi.type ≡ true
    pub leg : IsRouteLeg route start end so_far
    pub same : c ≡ corridor_poi sog poi c.along_track_distance_meters c.cross_track_distance_meters
    pub across :
        c.cross_track_distance_meters ≡ mul (cross_angle start end poi.position) earth_radius_meters
    pub along :
        c.along_track_distance_meters
        ≡ add so_far (mul (along_angle start end poi.position) earth_radius_meters)
    pub within : lt half_width (abs c.cross_track_distance_meters) ≡ false
    pub finite : is_finite c.cross_track_distance_meters ≡ true
    pub ahead : lt (mul (along_angle start end poi.position) earth_radius_meters) (lit 0 0) ≡ false
    pub before_end :
        lt
          (distance_meters start end)
          (mul (along_angle start end poi.position) earth_radius_meters)
        ≡ false
