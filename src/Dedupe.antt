-- ===== src/Dedupe.antt =====
-- src/inputs/dedupe-pois.ts: the merge of duplicates into the base layer, and within one source. The
-- code tells the points of its input apart as objects; here an object is its place in the list that
-- holds it, so the points of the input are taken to be distinct objects.
pub mod Merge
pub mod Laws
pub mod Survivors
use signalk_crows_nest.Prelude.{
  ℕ, zero, suc, ◌+◌, ◌==◌, String, str_eq, List, [], ◌∷◌, ◌++◌, Option, none, some, Bool, true,
  false, not, ◌&&◌, ◌||◌, if◌then◌else◌, keep_if, map, length, is_empty, or_else, leb,
}
use signalk_crows_nest.Floats.{Floats}
use signalk_crows_nest.JsMap
use signalk_crows_nest.Types.{Position, PoiType, PoiSummary, active_captain_source_id}
use signalk_crows_nest.Route.{type_name}
use signalk_crows_nest.Geo.{distance_meters}
use signalk_crows_nest.Notification.{◌⧺◌}

-- `DedupeRadiusSpec`: one radius, or a map by source.
pub data DedupeRadiusSpec (F : Type 0) : Type 0 where
  uniform : F → DedupeRadiusSpec F
  per_source : List (String × F) → DedupeRadiusSpec F

pub record Corroboration (F : Type 0) : Type 0 where
  pub slugs : List String
  pub attributions : List String
  pub clearance : Option F

-- A grid keeps the points of a cell, each with its place among the kept points.
abbrev pub Grid : Type 0 → Type 0
Grid F = List (F × List (ℕ × PoiSummary F))

-- `candidate.type === type`
unfoldable pub is_same_type : PoiType → PoiType → Bool
unfolding type_name
is_same_type a b = str_eq (type_name a) (type_name b)

module _ {ℓ} {A : Type ℓ} where
  -- The element at a place, changed; nothing changes past the end.
  unfoldable pub change_at : ℕ → (A → A) → List A → List A
  change_at i change [] = []
  change_at zero change (x ∷ xs) = change x ∷ xs
  change_at (suc i) change (x ∷ xs) = x ∷ change_at i change xs

module _ {F : Type 0} ⦃n : Floats F⦄ where
  open n use {lit, pi, add, mul, div, neg, lt, le, eq, max, abs, floor, cos}

  unfoldable pub meters_from_feet : F → F
  meters_from_feet feet = mul feet (lit 3048 4)

  unfoldable pub default_dedupe_radius_meters : F
  unfolding meters_from_feet
  default_dedupe_radius_meters = meters_from_feet (lit 150 0)

  unfoldable pub pack_cell_key : F → F → F
  pack_cell_key x y = add (mul x (lit 100000000 0)) y

  -- How a `Map` compares its keys: `NaN` is one key.
  unfoldable pub is_same_key : F → F → Bool
  is_same_key a b = eq a b || not (eq a a) && not (eq b b)

  unfoldable pub bucket : F → Grid F → List (ℕ × PoiSummary F)
  unfolding is_same_key
  bucket key [] = []
  bucket key ((k, points) ∷ grid) = if is_same_key k key then points else bucket key grid

  unfoldable pub push_to_bucket : Grid F → F → ℕ × PoiSummary F → Grid F
  unfolding is_same_key
  push_to_bucket [] key value = (key, value ∷ []) ∷ []
  push_to_bucket ((k, points) ∷ grid) key value =
      if is_same_key k key
      then (k, points ++ value ∷ []) ∷ grid
      else (k, points) ∷ push_to_bucket grid key value

  -- The loop over the candidates of one cell.
  unfoldable pub scan_bucket :
      PoiType → Position F → F → List (ℕ × PoiSummary F) → Option (ℕ × PoiSummary F)
  unfolding is_same_type
  scan_bucket type position radius [] = none
  scan_bucket type position radius ((i, candidate) ∷ rest) =
      if is_same_type candidate.type type && le (distance_meters candidate.position position) radius
      then some (i, candidate)
      else scan_bucket type position radius rest

  -- The offsets of the cells, in the order of the two loops.
  unfoldable pub neighborhood : List (F × F)
  neighborhood =
      let one = lit 1 0 in
      let same = lit 0 0 in
      (neg one, neg one)
      ∷ (neg one, same)
      ∷ (neg one, one)
      ∷ (same, neg one)
      ∷ (same, same)
      ∷ (same, one)
      ∷ (one, neg one)
      ∷ (one, same)
      ∷ (one, one)
      ∷ []

  unfoldable pub scan_cells :
      Grid F → F → F → PoiType → Position F → F → List (F × F) → Option (ℕ × PoiSummary F)
  unfolding scan_bucket bucket pack_cell_key
  scan_cells grid x y type position radius [] = none
  scan_cells grid x y type position radius ((dx, dy) ∷ cells) =
      elim (scan_bucket type position radius (bucket (pack_cell_key (add x dx) (add y dy)) grid)) [
        | some found ↦ some found
        | none ↦ scan_cells grid x y type position radius cells
      ]

  unfoldable pub scan_neighborhood :
      Grid F → F → F → PoiType → Position F → F → Option (ℕ × PoiSummary F)
  unfolding scan_cells neighborhood
  scan_neighborhood grid x y type position radius =
      scan_cells grid x y type position radius neighborhood

  unfoldable pub min_clearance : Option F → Option F → Option F
  min_clearance current none = current
  min_clearance none (some candidate) = some candidate
  min_clearance (some current) (some candidate) =
      if lt candidate current then some candidate else some current

  unfoldable pub radius_for : String → DedupeRadiusSpec F → F
  unfolding default_dedupe_radius_meters
  radius_for source (uniform radius) = max (lit 1 0) radius
  radius_for source (per_source radii) =
      max (lit 1 0) (or_else (JsMap.get source radii) default_dedupe_radius_meters)

  unfoldable pub largest : F → List F → F
  largest so_far [] = so_far
  largest so_far (value ∷ values) = largest (if lt so_far value then value else so_far) values

  unfoldable pub grid_radius : DedupeRadiusSpec F → F
  unfolding largest default_dedupe_radius_meters
  grid_radius (uniform radius) = max (lit 1 0) radius
  grid_radius (per_source radii) =
      max (lit 1 0) (largest default_dedupe_radius_meters (JsMap.values radii))

  -- The loop that finds the poleward-most latitude.
  unfoldable pub reference_latitude : F → List (PoiSummary F) → F
  reference_latitude so_far [] = so_far
  reference_latitude so_far (poi ∷ pois) =
      let absolute = abs poi.position.latitude in
      reference_latitude (if lt so_far absolute then absolute else so_far) pois

  unfoldable pub lon_scale : List (PoiSummary F) → F
  unfolding reference_latitude
  lon_scale pois =
      mul (lit 111320 0) (cos (div (mul (reference_latitude (lit 0 0) pois) pi) (lit 180 0)))

  unfoldable pub cell_coords : F → F → PoiSummary F → F × F
  cell_coords scale cell_radius poi = (
    floor (div (mul poi.position.longitude scale) cell_radius),
    floor (div (mul poi.position.latitude (lit 111320 0)) cell_radius),
  )

module _ {F : Type 0} where
  abbrev pub is_base : PoiSummary F → Bool
  is_base poi = str_eq poi.source active_captain_source_id

  -- `{ ...poi, sources: [poi.source] }`
  abbrev pub tagged : PoiSummary F → PoiSummary F
  tagged poi = record poi { sources = some (poi.source ∷ []) }
