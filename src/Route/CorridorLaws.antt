-- ===== src/Route/CorridorLaws.antt =====
-- What the corridor scan returns.
use signalk_crows_nest.Prelude.{
  if◌then◌else◌, if_ind, String, str_eq, List, [], ◌∷◌, Option, Bool, true, false, not, ◌||◌,
  is_empty, keep_if, ◌≡◌, refl, arith, All, Bool-cases, inl, inr,
}
use mathlib.Core.List.{Mem, mem-cons_of_mem, mem-cons_self}
use signalk_crows_nest.JsMap
use signalk_crows_nest.Floats.{Floats}
use signalk_crows_nest.Types.{Position, PoiSummary, CorridorPoi}
use signalk_crows_nest.Numbers.{positive_finite_number}
use signalk_crows_nest.Geo.{
  TrackProjection, distance_meters, initial_bearing_rad, project_point_onto_leg, clamp_unit,
}
use signalk_crows_nest.Bridge.{to_wire}
use signalk_crows_nest.Route.Corridor.{
  is_corridor_type, RouteCorridorScanInput, is_beside, keeps_existing, corridor_poi, flag_point,
  flag_points, scan_legs, is_after, insert, sort, scan_points, scan_route_corridor,
  route_leg_points,
}
use signalk_crows_nest.Route.Legs.{is_skipped, IsLeg, this_leg, later_leg, IsRouteLeg, IsFlagged}

-- Everything in a list is in it.
whole-All :
    {A : Type 0} (whole l : List A) → ((x : A) → Mem x l → Mem x whole) → All (λ x. Mem x whole) l
whole-All whole [] sub = tt
whole-All whole (x ∷ xs) sub =
    (sub x mem-cons_self, whole-All whole xs (λ y m. sub y (mem-cons_of_mem x m)))

All-keep_if :
    {A : Type 0} (P : A → Type 0) (q : A → Bool) (l : List A)
    → All P l
    → All (λ x. P x × (q x ≡ true)) (keep_if q l)
All-keep_if P q [] h = tt
All-keep_if P q (x ∷ xs) h = elim (Bool-cases (q x)) [
  | inl here ↦ rw here ((h.0, here), All-keep_if P q xs h.1)
  | inr there ↦ rw there (All-keep_if P q xs h.1)
]

All-set :
    {V : Type 0} (P : V → Type 0) (k : String) (v : V) (m : List (String × V))
    → P v
    → All P (JsMap.values m)
    → All P (JsMap.values (JsMap.set k v m))
unfolding JsMap.set
All-set P k v [] pv h = (pv, tt)
All-set P k v ((j, w) ∷ m) pv h = elim (Bool-cases (str_eq j k)) [
  | inl here ↦ rw here (pv, h.1)
  | inr there ↦ rw there (h.0, All-set P k v m pv h.1)
]

-- What IEEE arithmetic says of the sign of a difference, and of the order.
pub record IsDifference {F : Type 0} (n : Floats F) : Type 0 where
  pub above : (a b : F) → n.lt (n.lit 0 0) (n.sub a b) ≡ n.lt b a
  pub asymmetric : (a b : F) → n.lt a b ≡ true → n.lt b a ≡ false

module _ {F : Type 0} ⦃n : Floats F⦄ where
  open n use {
    lt, le, lit, add, eq, sub, mul, div, neg, min, max, abs, sin, cos, asin, acos, is_finite,
  }

  All-insert :
      (P : CorridorPoi F → Type 0) (a : CorridorPoi F) (l : List (CorridorPoi F))
      → P a
      → All P l
      → All P (insert a l)
  unfolding insert
  All-insert P a [] pa h = (pa, tt)
  All-insert P a (b ∷ l) pa h = elim (Bool-cases (is_after a b)) [
    | inl here ↦ rw here (h.0, All-insert P a l pa h.1)
    | inr there ↦ rw there (pa, h)
  ]

  All-sort : (P : CorridorPoi F → Type 0) (l : List (CorridorPoi F)) → All P l → All P (sort l)
  unfolding sort
  All-sort P [] h = tt
  All-sort P (a ∷ l) h = All-insert P a (sort l) h.0 (All-sort P l h.1)

  -- What a placed projection has passed.
  beside :
      (half_width leg_length : F) (projection : TrackProjection F) (keeps : Bool)
      → (not (is_beside half_width leg_length projection) || keeps) ≡ false
      → (lt half_width (abs projection.cross_track_meters) ≡ false)
        × (is_finite projection.cross_track_meters ≡ true)
        × (lt projection.along_track_meters (lit 0 0) ≡ false)
        × (lt leg_length projection.along_track_meters ≡ false)
  unfolding is_beside
  beside half_width leg_length projection keeps h = ground arith

  module _ (half_width : F) (sog : Option F) (pois : List (PoiSummary F))
      (route : List (Position F)) where
    abbrev IsPlaced : CorridorPoi F → Type 0
    IsPlaced = IsFlagged half_width sog pois route

    flag_point_ok :
        (start end : Position F) (so_far : F) (poi : PoiSummary F)
        (flagged : List (String × CorridorPoi F))
        → IsRouteLeg route start end so_far
        → Mem poi pois × (is_corridor_type poi.type ≡ true)
        → All IsPlaced (JsMap.values flagged)
        → All IsPlaced (
            JsMap.values (
              flag_point half_width sog start
                (distance_meters start end)
                (initial_bearing_rad start end)
                so_far
                poi
                flagged))
    unfolding flag_point corridor_poi project_point_onto_leg clamp_unit
    flag_point_ok start end so_far poi flagged leg h ok =
        let projection =
          project_point_onto_leg start poi.position (initial_bearing_rad start end) in
        let distance = add so_far projection.along_track_meters in
        let keeps =
          keeps_existing (JsMap.get poi.id flagged) projection.cross_track_meters distance in
        elim (Bool-cases
          (not (is_beside half_width (distance_meters start end) projection) || keeps)) [
            | inl skipped ↦ rw skipped ok
            | inr placed ↦
                let (within, finite, ahead, before_end) =
                  beside half_width (distance_meters start end) projection keeps placed in
                rw placed (
                  All-set IsPlaced poi.id
                    (corridor_poi sog poi distance projection.cross_track_meters) flagged
                    (record {
                      poi = poi;
                      start = start;
                      end = end;
                      so_far = so_far;
                      leg = leg;
                      across = refl;
                      along = refl;
                      ahead = ahead;
                      before_end = before_end;
                      listed = h.0;
                      type_ok = h.1;
                      same = refl;
                      within = within;
                      finite = finite;
                    })
                    ok)
          ]

    flag_points_ok :
        (start end : Position F) (so_far : F) (l : List (PoiSummary F))
        (flagged : List (String × CorridorPoi F))
        → IsRouteLeg route start end so_far
        → All (λ poi. Mem poi pois × (is_corridor_type poi.type ≡ true)) l
        → All IsPlaced (JsMap.values flagged)
        → All IsPlaced (
            JsMap.values (
              flag_points half_width sog start
                (distance_meters start end)
                (initial_bearing_rad start end)
                so_far
                l
                flagged))
    unfolding flag_points
    flag_points_ok start end so_far [] flagged leg h ok = ok
    flag_points_ok start end so_far (poi ∷ l) flagged leg h ok =
        flag_points_ok start end so_far l
          (flag_point half_width sog start (distance_meters start end)
            (initial_bearing_rad start end) so_far poi flagged)
          leg h.1 (flag_point_ok start end so_far poi flagged leg h.0 ok)

    scan_legs_ok :
        (l : List (PoiSummary F)) (start : Position F) (rest : List (Position F)) (so_far : F)
        (flagged : List (String × CorridorPoi F))
        → ((a b : Position F) (d : F) → IsLeg start rest so_far a b d → IsRouteLeg route a b d)
        → All (λ poi. Mem poi pois × (is_corridor_type poi.type ≡ true)) l
        → All IsPlaced (JsMap.values flagged)
        → All IsPlaced (JsMap.values (scan_legs half_width sog l start rest so_far flagged))
    unfolding scan_legs
    scan_legs_ok l start [] so_far flagged legs h ok = ok
    scan_legs_ok l start (end ∷ rest) so_far flagged legs h ok =
        let length = distance_meters start end in
        let next = if is_skipped length then so_far else add so_far length in
        let ahead : (a b : Position F) (d : F)
            → IsLeg end rest next a b d
            → IsRouteLeg route a b d =
          λ a b d leg. legs a b d (later_leg start end rest so_far leg) in
        scan_legs_ok l end rest next _ ahead h (
          if_ind (λ m. All IsPlaced (JsMap.values m)) (is_skipped length) (λ _. ok)
            λ useful.
              flag_points_ok start end so_far l flagged
                (legs start end so_far (this_leg start end rest so_far useful)) h ok)

  scan_points_sound :
      (input : RouteCorridorScanInput F) (l : List (Position F))
      → All
          (IsFlagged input.corridor_half_width_meters
            (positive_finite_number (to_wire input.speed_over_ground))
            input.pois
            l)
          (scan_points input l)
  unfolding scan_points
  scan_points_sound input [] = tt
  scan_points_sound input (start ∷ rest) =
      let half_width = input.corridor_half_width_meters in
      let sog = positive_finite_number (to_wire input.speed_over_ground) in
      let corridor_pois = keep_if (λ poi. is_corridor_type poi.type) input.pois in
      elim (Bool-cases (is_empty rest || not (lt (lit 0 0) half_width) || is_empty input.pois)) [
        | inl nothing ↦ rw nothing tt
        | inr some_legs ↦ rw some_legs (elim (Bool-cases (is_empty corridor_pois)) [
          | inl none_left ↦ rw none_left tt
          | inr some_left ↦ rw some_left (
              All-sort (IsFlagged half_width sog input.pois (start ∷ rest)) _ (
                scan_legs_ok half_width sog input.pois (start ∷ rest) corridor_pois start rest
                  (lit 0 0) [] (λ a b d leg. leg)
                  (All-keep_if (λ poi. Mem poi input.pois) (λ poi. is_corridor_type poi.type)
                    input.pois (whole-All input.pois input.pois (λ x m. m)))
                  tt))
        ])
      ]

  -- Every point that the scan returns is one of the given points, of a corridor type, and
  -- lies beside a leg of the route. Its distance across the track is that from the great
  -- circle through the leg, finite and not above the half width; its distance along the route
  -- is that of the legs of use before it and of the foot of the point on the leg, which is
  -- between the leg's ends. The other fields are the point's, with the arrival time of the
  -- distance.
  pub scan_route_corridor_sound :
      (input : RouteCorridorScanInput F)
      → All
          (IsFlagged input.corridor_half_width_meters
            (positive_finite_number (to_wire input.speed_over_ground))
            input.pois
            (route_leg_points input.route))
          (scan_route_corridor input)
  unfolding scan_route_corridor
  scan_route_corridor_sound input = scan_points_sound input (route_leg_points input.route)

  -- Along the track, no element lies before the one in front of it.
  abbrev pub IsSorted : List (CorridorPoi F) → Type 0
  IsSorted [] = Unit
  IsSorted (a ∷ []) = Unit
  IsSorted (a ∷ b ∷ l) =
      (lt b.along_track_distance_meters a.along_track_distance_meters ≡ false) × IsSorted (b ∷ l)

  module _ (difference : IsDifference n) where
    insert-IsSorted :
        (a : CorridorPoi F) (l : List (CorridorPoi F)) → IsSorted l → IsSorted (insert a l)
    unfolding insert is_after
    insert-IsSorted a [] h = tt
    insert-IsSorted a (b ∷ []) h = ground (
      arith,
      difference.above a.along_track_distance_meters b.along_track_distance_meters,
      difference.asymmetric b.along_track_distance_meters a.along_track_distance_meters,
    )
    insert-IsSorted a (b ∷ c ∷ l) h = ground (
      arith,
      difference.above a.along_track_distance_meters b.along_track_distance_meters,
      difference.above a.along_track_distance_meters c.along_track_distance_meters,
      difference.asymmetric b.along_track_distance_meters a.along_track_distance_meters,
      insert-IsSorted a (c ∷ l) h.1,
    )

    sort-IsSorted : (l : List (CorridorPoi F)) → IsSorted (sort l)
    unfolding sort
    sort-IsSorted [] = tt
    sort-IsSorted (a ∷ l) = insert-IsSorted a (sort l) (sort-IsSorted l)

    scan_points-IsSorted :
        (input : RouteCorridorScanInput F) (l : List (Position F)) → IsSorted (scan_points input l)
    unfolding scan_points
    scan_points-IsSorted input [] = tt
    scan_points-IsSorted input (start ∷ rest) =
        let corridor_pois = keep_if (λ poi. is_corridor_type poi.type) input.pois in
        ground (
          arith,
          sort-IsSorted (
              JsMap.values (
                scan_legs input.corridor_half_width_meters
                  (positive_finite_number (to_wire input.speed_over_ground)) corridor_pois start
                  rest (lit 0 0) [])),
        )

    -- No point that the scan returns lies before the one in front of it along the track, if
    -- a difference is positive exactly when its first operand is the greater, and the order
    -- is asymmetric.
    pub scan_route_corridor-IsSorted :
        (input : RouteCorridorScanInput F) → IsSorted (scan_route_corridor input)
    unfolding scan_route_corridor
    scan_route_corridor-IsSorted input = scan_points-IsSorted input (route_leg_points input.route)
