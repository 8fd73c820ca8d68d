-- ===== src/Viewport.antt =====
-- src/shared/bbox-debounce.ts: the tile of a viewport and its key. The cache itself is in Cache.
pub mod Keys
pub mod Cache
pub mod Laws
pub mod Runs
pub mod Sound
pub mod Settling
pub mod Finish
pub mod Reading
pub mod Served
use Prim.Native.Char
use Prim.Native.String
use signalk_crows_nest.Prelude.{
  ℕ, String, List, [], ◌∷◌, ◌++◌, Option, none, some, Bool, true, false, ◌&&◌, ◌||◌, not,
  if◌then◌else◌, take, ◌==◌,
}
use signalk_crows_nest.Floats.{Floats}
use signalk_crows_nest.Types.{Bbox}
use signalk_crows_nest.Numbers.{wrap_longitude, longitude_span_degrees}
use signalk_crows_nest.Notification.{◌⧺◌}

-- `text.replace(/c/g, by)`, for a pattern of one character.
unfoldable pub replace_char : ℕ → String → String → String
replace_char c by String.[] = ""
replace_char c by (String.◌∷◌ d s) =
    if Char.code d == c then by ⧺ replace_char c by s else String.◌∷◌ d (replace_char c by s)

-- The escaping of the extra key.
unfoldable pub escape_key : String → String
unfolding replace_char
escape_key extra_key = replace_char b'|' "\\|" (replace_char b'\\' "\\\\" extra_key)

abbrev push_if : {A : Type 0} → Bool → A → List A → List A
push_if due a l = if due then l ++ a ∷ [] else l

-- A neighbor tile in reach: cells to the east and to the north, and the distance of the edge.
pub record Neighbor (F : Type 0) : Type 0 where
  pub east_cells : F
  pub north_cells : F
  pub distance : F

module _ {F : Type 0} ⦃n : Floats F⦄ where
  open n use {lit, add, sub, mul, div, neg, lt, floor, ceil, to_fixed, of_text}

  unfoldable pub key_base : Bbox F → String
  key_base b =
      to_fixed b.south 4
      ⧺ "_"
      ⧺ to_fixed b.west 4
      ⧺ "_"
      ⧺ to_fixed b.north 4
      ⧺ "_"
      ⧺ to_fixed b.east 4

  unfoldable pub bbox_key : Bbox F → Option String → String
  unfolding key_base escape_key
  bbox_key bbox none = key_base bbox
  bbox_key bbox (some extra_key) = key_base bbox ⧺ "|" ⧺ escape_key extra_key

  unfoldable pub snap_cells_per_degree : F
  snap_cells_per_degree = lit 10 0

  unfoldable pub snap_cell : F → (F → F) → F
  unfolding snap_cells_per_degree
  snap_cell coord round = round (of_text (to_fixed (mul coord snap_cells_per_degree) 6))

  unfoldable pub snap_bbox : Bbox F → Bbox F
  unfolding snap_cell snap_cells_per_degree
  snap_bbox bbox = record {
    south = div (snap_cell bbox.south floor) snap_cells_per_degree;
    west = div (snap_cell bbox.west floor) snap_cells_per_degree;
    north = div (snap_cell bbox.north ceil) snap_cells_per_degree;
    east = div (snap_cell bbox.east ceil) snap_cells_per_degree;
  }

  unfoldable pub cell_degrees : F
  unfolding snap_cells_per_degree
  cell_degrees = div (lit 1 0) snap_cells_per_degree

  unfoldable pub translate_bbox : Bbox F → F → F → Bbox F
  unfolding cell_degrees
  translate_bbox bbox east_cells north_cells =
      let east = mul east_cells cell_degrees in
      let north = mul north_cells cell_degrees in
      record {
        south = add bbox.south north;
        west = wrap_longitude (add bbox.west east);
        north = add bbox.north north;
        east = wrap_longitude (add bbox.east east);
      }

  -- `PREFETCH_MARGIN_DEGREES` and `SPAN_EPSILON_DEGREES`
  unfoldable pub is_near : F → Bool
  is_near distance = lt (lit 0 0) distance && lt distance (lit 2 2)

  unfoldable pub is_wide : Bbox F → Bool
  unfolding cell_degrees
  is_wide tile =
      let limit = add (mul (lit 2 0) cell_degrees) (lit 1 9) in
      lt limit (longitude_span_degrees tile.west tile.east) || lt limit (sub tile.north tile.south)

  -- `near.sort((a, b) => a.distance - b.distance)`, which is stable.
  unfoldable pub insert_neighbor : Neighbor F → List (Neighbor F) → List (Neighbor F)
  insert_neighbor a [] = a ∷ []
  insert_neighbor a (b ∷ l) =
      if lt b.distance a.distance then b ∷ insert_neighbor a l else a ∷ b ∷ l

  unfoldable pub sort_neighbors : List (Neighbor F) → List (Neighbor F)
  unfolding insert_neighbor
  sort_neighbors [] = []
  sort_neighbors (a ∷ l) = insert_neighbor a (sort_neighbors l)

  -- The tiles that `prefetchNeighbors` warms if they are absent: at most two.
  unfoldable pub near_neighbors : Bbox F → Bbox F → List (Neighbor F)
  unfolding is_near sort_neighbors
  near_neighbors bbox tile =
      let east = sub tile.east bbox.east in
      let west = sub bbox.west tile.west in
      let north = sub tile.north bbox.north in
      let south = sub bbox.south tile.south in
      let near =
        push_if (is_near south)
          (record { east_cells = lit 0 0; north_cells = neg (lit 1 0); distance = south })
          (push_if (is_near north)
            (record { east_cells = lit 0 0; north_cells = lit 1 0; distance = north })
            (push_if (is_near west)
              (record { east_cells = neg (lit 1 0); north_cells = lit 0 0; distance = west })
              (push_if (is_near east)
                (record { east_cells = lit 1 0; north_cells = lit 0 0; distance = east }) []))) in
      take 2 (sort_neighbors near)

  unfoldable pub prefetch_tiles : Bbox F → Bbox F → List (Bbox F)
  unfolding is_wide near_neighbors translate_bbox snap_bbox
  prefetch_tiles bbox tile = if is_wide tile then [] else tiles_of (near_neighbors bbox tile)
    where
      tiles_of : List (Neighbor F) → List (Bbox F)
      tiles_of [] = []
      tiles_of (near ∷ rest) =
          snap_bbox (translate_bbox bbox near.east_cells near.north_cells) ∷ tiles_of rest
