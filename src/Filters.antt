-- ===== src/Filters.antt =====
-- What keeps points of interest from the chart: src/shared/year-filter.ts, src/shared/rating.ts,
-- src/shared/us-waters.ts, src/shared/poi-type-selection.ts and
-- src/inputs/active-captain/rating-filter.ts.
use Prim.Native.Char
use signalk_crows_nest.Prelude.{
  ℕ, ◌+◌, ◌-◌, ◌*◌, ◌==◌, String, str_eq, List, [], ◌∷◌, ◌++◌, Option, none, some, Bool, true,
  false, ◌&&◌, ◌||◌, not, if◌then◌else◌, keep_if, any, map, is_empty, leb,
}
use signalk_crows_nest.Floats.{Floats}
use signalk_crows_nest.JsMap
use signalk_crows_nest.Types.{Position, PoiType, PoiSummary, Wire, Fields, is_true}
use signalk_crows_nest.Numbers.{to_finite_number, clamp_number}
use signalk_crows_nest.Geo.{property}
use signalk_crows_nest.Route.{type_name}
use signalk_crows_nest.Status.{PluginStatus, record_skipped}
use signalk_crows_nest.Texts.{split_on, join_by}

-- The digits of the fast path of `isOnOrAfter`, with the hyphen behind them.
unfoldable pub fast_year : ℕ → ℕ → ℕ → ℕ → ℕ → Option ℕ
fast_year a b c d e =
    if e == b'-'
      && (leb b'0' a && leb a b'9')
      && (leb b'0' b && leb b b'9')
      && (leb b'0' c && leb c b'9')
      && (leb b'0' d && leb d b'9')
    then some ((a - b'0') * 1000 + (b - b'0') * 100 + (c - b'0') * 10 + (d - b'0'))
    else none

-- `fast_year` of the first five characters; the outer `none` is a shorter text.
unfoldable pub year_prefix : String → Option (Option ℕ)
unfolding fast_year
year_prefix (String.◌∷◌ a (String.◌∷◌ b (String.◌∷◌ c (String.◌∷◌ d (String.◌∷◌ e rest))))) =
    some (fast_year (Char.code a) (Char.code b) (Char.code c) (Char.code d) (Char.code e))
year_prefix _ = none

unfoldable pub poi_type_shows_reviews : PoiType → Bool
poi_type_shows_reviews PoiType.marina = true
poi_type_shows_reviews PoiType.anchorage = true
poi_type_shows_reviews PoiType.business = true
poi_type_shows_reviews PoiType.boat_ramp = true
poi_type_shows_reviews _ = false

-- `POI_TYPE_FLAGS`
abbrev pub poi_type_flags : List (String × PoiType)
poi_type_flags =
    ("includeMarinas", PoiType.marina)
    ∷ ("includeAnchorages", PoiType.anchorage)
    ∷ ("includeHazards", PoiType.hazard)
    ∷ ("includeBusinesses", PoiType.business)
    ∷ ("includeBoatRamps", PoiType.boat_ramp)
    ∷ ("includeBridges", PoiType.bridge)
    ∷ ("includeDams", PoiType.dam)
    ∷ ("includeFerries", PoiType.ferry)
    ∷ ("includeInlets", PoiType.inlet)
    ∷ ("includeLocks", PoiType.lock)
    ∷ ("includeLocalKnowledge", PoiType.local_knowledge)
    ∷ ("includeNavigational", PoiType.navigational)
    ∷ ("includeAirports", PoiType.airport)
    ∷ []

module _ {F : Type 0} where
  -- `name in object`
  unfoldable pub has_property : String → Fields F → Bool
  has_property name Fields.end = false
  has_property name (Fields.field key value rest) = str_eq key name || has_property name rest

  unfoldable pub select_types : List (String × PoiType) → Fields F → List String
  unfolding property type_name
  select_types [] config = []
  select_types ((flag, type) ∷ flags) config =
      if is_true (property flag config)
      then type_name type ∷ select_types flags config
      else select_types flags config

  unfoldable pub build_poi_types_string : Fields F → Option String
  unfolding select_types has_property join_by type_name
  build_poi_types_string config =
      let selected = select_types poi_type_flags config in
      if not (is_empty selected)
      then some (join_by "," selected)
      else if any (λ row. has_property row.0 config) poi_type_flags
      then none
      else some (join_by "," (map (λ row. type_name row.1) poi_type_flags))

unfoldable pub merge_types : List String → List String → List String
unfolding JsMap.member
merge_types merged [] = merged
merge_types merged (type ∷ required) =
    merge_types (if JsMap.member type merged then merged else merged ++ type ∷ []) required

unfoldable pub ensure_poi_types : Option String → List String → String
unfolding merge_types split_on join_by
ensure_poi_types none required = join_by "," (merge_types [] required)
ensure_poi_types (some poi_types) required =
    join_by "," (merge_types (if str_eq poi_types "" then [] else split_on b',' poi_types) required)

-- `UsWatersEnvelope`
pub record Envelope (F : Type 0) : Type 0 where
  pub min_lat : F
  pub max_lat : F
  pub min_lon : F
  pub max_lon : F

module _ {F : Type 0} ⦃n : Floats F⦄ where
  open n use {lit, neg, lt, le, is_finite}

  abbrev pub us_waters_bboxes : List (Envelope F)
  us_waters_bboxes =
      record {
        min_lat = lit 240 1;
        max_lat = lit 495 1;
        min_lon = neg (lit 1255 1);
        max_lon = neg (lit 660 1);
      }
      ∷ record {
        min_lat = lit 510 1;
        max_lat = lit 720 1;
        min_lon = neg (lit 1800 1);
        max_lon = neg (lit 1290 1);
      }
      ∷ record {
        min_lat = lit 510 1;
        max_lat = lit 560 1;
        min_lon = lit 1720 1;
        max_lon = lit 1800 1;
      }
      ∷ record {
        min_lat = lit 185 1;
        max_lat = lit 230 1;
        min_lon = neg (lit 1610 1);
        max_lon = neg (lit 1545 1);
      }
      ∷ record {
        min_lat = lit 175 1;
        max_lat = lit 187 1;
        min_lon = neg (lit 675 1);
        max_lon = neg (lit 645 1);
      }
      ∷ record {
        min_lat = lit 130 1;
        max_lat = lit 210 1;
        min_lon = lit 1445 1;
        max_lon = lit 1465 1;
      }
      ∷ []

  unfoldable pub is_in_us_waters : Position F → Bool
  is_in_us_waters position =
      any
        (λ envelope.
          le envelope.min_lat position.latitude
          && (le position.latitude envelope.max_lat)
          && (le envelope.min_lon position.longitude)
          && (le position.longitude envelope.max_lon))
        us_waters_bboxes

  unfoldable pub should_skip_outside_us_waters :
      Option (Position F) → PluginStatus → String → Bool × PluginStatus
  unfolding is_in_us_waters record_skipped
  should_skip_outside_us_waters none status source_id = (false, status)
  should_skip_outside_us_waters (some position) status source_id =
      if not (is_in_us_waters position)
      then (true, record_skipped source_id "outside US waters" false status)
      else (false, status)

  unfoldable pub clamp_minimum_year : Wire F → F
  unfolding to_finite_number clamp_number
  clamp_minimum_year raw = elim (to_finite_number raw) [
    | none ↦ clamp_number raw (lit 1900 0) (lit 9999 0) (lit 0 0) true
    | some num ↦
        if le num (lit 0 0)
        then lit 0 0
        else clamp_number raw (lit 1900 0) (lit 9999 0) (lit 0 0) true
  ]

  unfoldable pub clamp_minimum_rating : Wire F → F
  unfolding clamp_number
  clamp_minimum_rating raw = clamp_number raw (lit 0 0) (lit 5 0) (lit 0 0) false

  unfoldable pub filter_by_rating : List (PoiSummary F) → F → List (PoiSummary F)
  unfolding poi_type_shows_reviews
  filter_by_rating pois minimum_rating =
      if not (lt (lit 0 0) minimum_rating)
      then pois
      else keep_if
          (λ poi.
            if not (poi_type_shows_reviews poi.type)
            then true
            else elim poi.rating [ none ↦ false | some rating ↦ le minimum_rating rating ])
          pois

  -- `utc_year` is `Date.parse` with the UTC year of the date that it gives, `none` for NaN.
  module _ (utc_year : String → Option F) where
    abbrev pub parsed_on_or_after : String → F → Bool
    parsed_on_or_after timestamp minimum_year = elim (utc_year timestamp) [
      | none ↦ true
      | some year ↦ le minimum_year year
    ]

    unfoldable pub is_on_or_after : Option String → F → Bool
    unfolding year_prefix
    is_on_or_after none minimum_year = true
    is_on_or_after (some timestamp) minimum_year = elim (year_prefix timestamp) [
      | none ↦ true
      | some none ↦ parsed_on_or_after timestamp minimum_year
      | some (some year) ↦
          if le minimum_year (lit year 0) then true else parsed_on_or_after timestamp minimum_year
    ]

    unfoldable pub passes_minimum_year : Option String → F → Bool
    unfolding is_on_or_after
    passes_minimum_year timestamp minimum_year =
        if not (is_finite minimum_year) || le minimum_year (lit 0 0)
        then true
        else is_on_or_after timestamp minimum_year

    unfoldable pub filter_by_minimum_year : List (PoiSummary F) → F → List (PoiSummary F)
    unfolding is_on_or_after
    filter_by_minimum_year pois minimum_year =
        if not (is_finite minimum_year) || le minimum_year (lit 0 0)
        then pois
        else keep_if (λ poi. is_on_or_after poi.timestamp minimum_year) pois
