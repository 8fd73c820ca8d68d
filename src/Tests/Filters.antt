-- ===== src/Tests/Filters.antt =====
-- The filters and the query parser on concrete inputs.
use signalk_crows_nest.Prelude.{ℕ, String, [], ◌∷◌, Option, none, some, true, false, ◌≡◌, refl}
use signalk_crows_nest.Types.{PoiType, Wire, Items, Fields}
use signalk_crows_nest.Texts.{split_on, is_blank}
use signalk_crows_nest.Filters.{
  year_prefix, is_on_or_after, build_poi_types_string, ensure_poi_types, filter_by_rating,
}
use signalk_crows_nest.Query.{strip_brackets, resolve_position, resolve_bbox}
use signalk_crows_nest.Tests.Runtime.{natural, rock, point}

abbrev no_dates : String → Option ℕ
no_dates timestamp = none

year_read : year_prefix "1998-05-01" ≡ some (some 1998)
unfolding year_prefix
year_read = refl

-- An old year is dropped only when the whole text is a date.
malformed_kept : is_on_or_after no_dates (some "1950-not-a-date") 1990 ≡ true
unfolding is_on_or_after
malformed_kept = refl

old_dropped : is_on_or_after {F = ℕ} (λ timestamp. some 1950) (some "1950-01-01") 1990 ≡ false
unfolding is_on_or_after
old_dropped = refl

-- A hazard without a rating is kept, a marina without one is not.
unrated_marina_dropped :
    filter_by_rating (rock ∷ point "marina" PoiType.marina 3 ∷ []) 4 ≡ rock ∷ []
unfolding filter_by_rating
unrated_marina_dropped = refl

abbrev only_bridges : Fields ℕ
only_bridges =
    Fields.field "includeMarinas" (Wire.boolean false)
      (Fields.field "includeBridges" (Wire.boolean true) Fields.end)

bridges_selected : build_poi_types_string only_bridges ≡ some "Bridge"
unfolding build_poi_types_string
bridges_selected = refl

none_selected :
    build_poi_types_string {F = ℕ} (Fields.field "includeMarinas" (Wire.boolean false) Fields.end)
    ≡ none
unfolding build_poi_types_string
none_selected = refl

alarm_types_added :
    ensure_poi_types (some "Marina,Hazard") ("Hazard" ∷ "Bridge" ∷ []) ≡ "Marina,Hazard,Bridge"
unfolding ensure_poi_types
alarm_types_added = refl

brackets_stripped : split_on b',' (strip_brackets "[1, 2]") ≡ "1" ∷ "2" ∷ []
unfolding split_on strip_brackets
brackets_stripped = refl

blank_text : is_blank " \t" ≡ true
unfolding is_blank
blank_text = refl

-- An array gives the longitude first.
array_position :
    resolve_position {F = ℕ}
      (Wire.array (Items.cons (Wire.number 0) (Items.cons (Wire.number 0) Items.nil)))
    ≡ some (record { latitude = 0; longitude = 0 })
unfolding resolve_position
array_position = refl

no_distance : resolve_bbox {F = ℕ} Fields.end ≡ some none
unfolding resolve_bbox
no_distance = refl
