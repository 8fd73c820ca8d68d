-- ===== src/Query.antt =====
-- src/outputs/notes-resource/resource-query.ts: the search box of a query of the notes resource.
use Prim.Native.Char
use signalk_crows_nest.Prelude.{
  ◌==◌, String, List, [], ◌∷◌, Option, none, some, ◌||◌, ◌&&◌, not, if◌then◌else◌, map,
}
use signalk_crows_nest.Floats.{Floats}
use signalk_crows_nest.Types.{Position, Bbox, Wire, Items, Fields, items_of}
use signalk_crows_nest.Numbers.{
  to_finite_number, is_valid_latitude, is_valid_longitude, longitude_span_degrees,
}
use signalk_crows_nest.Geo.{property, position_to_bbox}
use signalk_crows_nest.Texts.{split_on, is_space, is_blank}

-- `raw.replace(/[[\]\s]/g, '')`
unfoldable pub strip_brackets : String → String
unfolding is_space
strip_brackets String.[] = ""
strip_brackets (String.◌∷◌ c s) =
    let rest = strip_brackets s in
    if Char.code c == b'[' || Char.code c == b']' || is_space (Char.code c)
    then rest
    else String.◌∷◌ c rest

module _ {F : Type 0} ⦃n : Floats F⦄ where
  open n use {lit, lt, le, sub, of_text}

  unfoldable pub parse_finite_number : Wire F → Option F
  unfolding to_finite_number is_blank
  parse_finite_number (Wire.text raw) =
      if is_blank raw then none else to_finite_number (Wire.number (of_text raw))
  parse_finite_number raw = to_finite_number raw

  unfoldable pub position_of : Option F → Option F → Option (Position F)
  unfolding is_valid_latitude is_valid_longitude
  position_of (some latitude) (some longitude) =
      if is_valid_latitude (Wire.number latitude) && is_valid_longitude (Wire.number longitude)
      then some (record { latitude = latitude; longitude = longitude })
      else none
  position_of _ _ = none

  unfoldable pub resolve_position : Wire F → Option (Position F)
  unfolding position_of parse_finite_number property
  resolve_position (Wire.array (Items.cons longitude (Items.cons latitude rest))) =
      position_of (parse_finite_number latitude) (parse_finite_number longitude)
  resolve_position (Wire.object candidate) =
      position_of (parse_finite_number (property "latitude" candidate))
        (parse_finite_number (property "longitude" candidate))
  resolve_position _ = none

  -- The checks on the four numbers of an explicit box.
  unfoldable pub explicit_bbox : F → F → F → F → Option (Bbox F)
  unfolding is_valid_latitude is_valid_longitude longitude_span_degrees
  explicit_bbox west south east north =
      if not (is_valid_longitude (Wire.number west))
        || not (is_valid_longitude (Wire.number east))
        || not (is_valid_latitude (Wire.number south))
        || not (is_valid_latitude (Wire.number north))
        || lt north south
        || lt (lit 20 0) (sub north south)
        || lt (lit 20 0) (longitude_span_degrees west east)
      then none
      else some (record { west = west; south = south; east = east; north = north })

  unfoldable pub bbox_of_parts : List (Option F) → Option (Bbox F)
  unfolding explicit_bbox
  bbox_of_parts (some west ∷ some south ∷ some east ∷ some north ∷ []) =
      explicit_bbox west south east north
  bbox_of_parts _ = none

  unfoldable pub resolve_explicit_bbox : Wire F → Option (Bbox F)
  unfolding bbox_of_parts parse_finite_number split_on strip_brackets items_of
  resolve_explicit_bbox (Wire.text raw) =
      bbox_of_parts
        (map (λ part. parse_finite_number (Wire.text part)) (split_on b',' (strip_brackets raw)))
  resolve_explicit_bbox (Wire.array parts) =
      bbox_of_parts (map parse_finite_number (items_of parts))
  resolve_explicit_bbox _ = none

  -- The outer `none` is the exception of `positionToBbox`.
  unfoldable pub resolve_bbox : Fields F → Option (Option (Bbox F))
  unfolding resolve_explicit_bbox parse_finite_number resolve_position position_to_bbox property
  resolve_bbox query = elim (property "bbox" query) [
    | Wire.undefined ↦ elim (parse_finite_number (property "distance" query)) [
      | none ↦ some none
      | some distance ↦
          if le distance (lit 0 0) || lt (lit 1000000 0) distance
          then some none
          else elim (resolve_position (property "position" query)) [
            | none ↦ some none
            | some center ↦ elim (position_to_bbox center distance) [
              | none ↦ none
              | some bbox ↦ some (some bbox)
            ]
          ]
    ]
    | bbox ↦ some (resolve_explicit_bbox bbox)
  ]
