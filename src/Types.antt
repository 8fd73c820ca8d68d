-- ===== src/Types.antt =====
-- src/shared/types.ts, and the constants of src/shared/source-ids.ts and src/shared/time.ts.
-- `F` is the type of the runtime's numbers (Floats).
use signalk_crows_nest.Prelude.{ℕ, String, List, [], ◌∷◌, Option, Bool, false}

pub record Position (F : Type 0) : Type 0 where
  pub latitude : F
  pub longitude : F

pub record Bbox (F : Type 0) : Type 0 where
  pub north : F
  pub south : F
  pub east : F
  pub west : F

pub data PoiType : Type 0 where
  marina anchorage hazard business boat_ramp bridge dam ferry inlet lock : PoiType
  local_knowledge navigational airport unknown : PoiType

pub record PoiSummary (F : Type 0) : Type 0 where
  pub id : String
  pub type : PoiType
  pub position : Position F
  pub name : String
  pub source : String
  pub url : String
  pub attribution : String
  pub sources : Option (List String)
  pub rating : Option F
  pub review_count : Option F
  pub sk_icon : String
  pub timestamp : Option String
  pub vertical_clearance_meters : Option F

pub record CorridorPoi (F : Type 0) : Type 0 where
  pub id : String
  pub type : PoiType
  pub name : String
  pub position : Position F
  pub along_track_distance_meters : F
  pub cross_track_distance_meters : F
  pub eta_seconds : Option F

-- A value of type `unknown`, off the wire or off the data model.
mutual
  pub data Wire (F : Type 0) : Type 0 where
    undefined null : Wire F
    boolean : Bool → Wire F
    number : F → Wire F
    text : String → Wire F
    array : Items F → Wire F
    object : Fields F → Wire F

  pub data Items (F : Type 0) : Type 0 where
    nil : Items F
    cons : Wire F → Items F → Items F

  pub data Fields (F : Type 0) : Type 0 where
    end : Fields F
    field : String → Wire F → Fields F → Fields F

-- An array's elements.
unfoldable pub items_of : {F : Type 0} → Items F → List (Wire F)
items_of Items.nil = []
items_of (Items.cons x xs) = x ∷ items_of xs

-- `value === true`
abbrev pub is_true : {F : Type 0} → Wire F → Bool
is_true (Wire.boolean b) = b
is_true _ = false

abbrev pub active_captain_source_id : String
active_captain_source_id = "activecaptain"

abbrev pub ms_per_second : ℕ
ms_per_second = 1000

abbrev pub ms_per_minute : ℕ
ms_per_minute = 60000
