-- ===== src/Tests/Runtime.antt =====
-- A small runtime, and the concrete data of the runs: positions on a line, where the distance of two
-- is a multiple of the difference of their latitudes.
use signalk_crows_nest.Prelude.{
  ℕ, ◌+◌, ◌-◌, ◌*◌, ◌/◌, ◌%◌, String, List, [], none, some, true, if◌then◌else◌, ltb, leb, ◌==◌,
  keep_if, not, str_eq,
}
use signalk_crows_nest.Floats.{Floats}
use signalk_crows_nest.Types.{Position, PoiType, PoiSummary}
use signalk_crows_nest.Notification.{App}
use signalk_crows_nest.JsMap
use signalk_crows_nest.Bridge.Resolver.{Lru}

-- Natural numbers in the place of the doubles, with linear functions in the place of the
-- trigonometric ones.
instance abbrev pub natural : Floats ℕ
natural = record {
  lit = λ m k. if k == 0 then m else 1;
  infinity = 1000000;
  nan = 0;
  pi = 180;
  sqrt2 = 1;
  add = λ a b. a + b;
  sub = λ a b. a - b;
  mul = λ a b. a * b;
  div = λ a b. a / b;
  rem = λ a b. a % b;
  pow = λ a b. a;
  neg = λ a. 0;
  lt = ltb;
  le = leb;
  eq = λ a b. a == b;
  is_finite = λ a. true;
  min = λ a b. if leb a b then a else b;
  max = λ a b. if leb a b then b else a;
  abs = λ a. a;
  floor = λ a. a;
  ceil = λ a. a;
  round = λ a. a;
  trunc = λ a. a;
  sqrt = λ a. a;
  sin = λ a. a;
  cos = λ a. 1;
  asin = λ a. a;
  acos = λ a. a;
  atan2 = λ a b. a;
  text = λ a. "n";
  to_fixed = λ a k. "n";
  of_text = λ s. 0;
}

abbrev pub spot : ℕ → Position ℕ
spot latitude = record { latitude = latitude; longitude = 0 }

abbrev pub point : String → PoiType → ℕ → PoiSummary ℕ
point id type latitude = record {
  id = id;
  type = type;
  position = spot latitude;
  name = id;
  source = "activecaptain";
  url = "";
  attribution = "AC";
  sources = none;
  rating = none;
  review_count = none;
  sk_icon = "";
  timestamp = none;
  vertical_clearance_meters = none;
}

abbrev pub rock : PoiSummary ℕ
rock = point "rock" PoiType.hazard 2

abbrev pub wreck : PoiSummary ℕ
wreck = point "wreck" PoiType.hazard 90

abbrev pub low_bridge : PoiSummary ℕ
low_bridge = record (point "bridge" PoiType.bridge 2) { vertical_clearance_meters = some 5 }

-- A store that never evicts.
instance abbrev pub keep_all : {V : Type 0} → Lru (List (String × V)) V
keep_all = record {
  empty = [];
  get = λ k m. (JsMap.get k m, m);
  peek = JsMap.get;
  set = JsMap.set;
  delete = λ k. keep_if (λ e. not (str_eq e.0 k));
}

abbrev pub quiet_app : App
quiet_app = record { clock = λ k. "12:00"; reads = 0; sent = []; log = [] }
