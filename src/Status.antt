-- ===== src/Status.antt =====
-- src/status/plugin-status.ts: the recorder of request outcomes. A reading of the clock is an
-- argument of the call that reads it.
pub mod Laws
use mathlib.Core.Option
use signalk_crows_nest.Prelude.{
  ℕ, String, str_eq, List, [], ◌∷◌, Option, none, some, Bool, true, false, ◌&&◌, if◌then◌else◌, any,
  keep_if, map, take,
}
use signalk_crows_nest.JsMap
use signalk_crows_nest.Notification.{◌⧺◌}

abbrev pub max_recent_errors : ℕ
max_recent_errors = 5

pub record StatusSource : Type 0 where
  pub source : String
  pub name : String

pub record LastListFetch : Type 0 where
  pub at_time : String
  pub poi_count : ℕ

pub record LastSkip : Type 0 where
  pub reason : String
  pub transient : Bool

pub record StatusError : Type 0 where
  pub at_time : String
  pub message : String
  pub source : Option String

pub record SourceState : Type 0 where
  pub name : String
  pub api_reachable : Option Bool
  pub last_list_fetch : Option LastListFetch
  pub last_skip : Option LastSkip

pub record SourceStatus : Type 0 where
  pub source : String
  pub name : String
  pub api_reachable : Option Bool
  pub last_list_fetch : Option LastListFetch
  pub last_skip : Option LastSkip

pub record StatusSnapshot : Type 0 where
  pub sources : List SourceStatus
  pub cached_poi_count : ℕ
  pub recent_errors : List StatusError
  pub started_at : String

pub record PluginStatus : Type 0 where
  pub started_at : String
  pub recent_errors : List StatusError
  pub states : List (String × SourceState)

abbrev pub fresh_row : StatusSource → SourceState
fresh_row s = record {
  name = s.name;
  api_reachable = none;
  last_list_fetch = none;
  last_skip = none;
}

-- The loop that seeds the rows.
unfoldable pub seed : List (String × SourceState) → List StatusSource → List (String × SourceState)
seed states [] = states
seed states (s ∷ sources) = seed (JsMap.set s.source (fresh_row s) states) sources

unfoldable pub create_plugin_status : String → List StatusSource → PluginStatus
unfolding seed
create_plugin_status now sources = record {
  started_at = now;
  recent_errors = [];
  states = seed [] sources;
}

-- A change to the row of a source, if it has one.
unfoldable pub update :
    String → (SourceState → SourceState) → List (String × SourceState) → List (String × SourceState)
update source change states = elim (JsMap.get source states) [
  | none ↦ states
  | some state ↦ JsMap.set source (change state) states
]

abbrev pub reached : SourceState → SourceState
reached state = record state { api_reachable = some true; last_skip = none }

abbrev pub unreached : SourceState → SourceState
unreached state = record state { api_reachable = some false; last_skip = none }

unfoldable pub mark_reachable : String → PluginStatus → PluginStatus
unfolding update
mark_reachable source s = record s { states = update source reached s.states }

unfoldable pub record_list_fetch : String → ℕ → String → PluginStatus → PluginStatus
unfolding mark_reachable
record_list_fetch source poi_count now s =
    let s' = mark_reachable source s in
    record s' {
      states =
          update source
            (λ state. record state {
              last_list_fetch = some (record { at_time = now; poi_count = poi_count });
            })
            s'.states;
    }

unfoldable pub record_detail_success : String → PluginStatus → PluginStatus
unfolding mark_reachable
record_detail_success source s = mark_reachable source s

-- `unshift`, and the cut to the bound.
unfoldable pub push_error : StatusError → List StatusError → List StatusError
push_error error errors = take max_recent_errors (error ∷ errors)

unfoldable pub record_error : String → String → String → PluginStatus → PluginStatus
unfolding update push_error
record_error source message now s = record s {
  states = update source unreached s.states;
  recent_errors =
      push_error (record { at_time = now; message = message; source = some source })
        s.recent_errors;
}

unfoldable pub record_skipped : String → String → Bool → PluginStatus → PluginStatus
unfolding update
record_skipped source reason transient s = record s {
  states =
      update source
        (λ state. record state {
          last_skip = some (record { reason = reason; transient = transient });
        })
        s.states;
}

-- `error.source === source`
abbrev pub is_from : String → Option String → Bool
is_from source none = false
is_from source (some logged) = str_eq logged source

unfoldable pub is_logged : String → String → List StatusError → Bool
is_logged source message = any (λ e. is_from source e.source && str_eq e.message message)

unfoldable pub stale_message : String → String
stale_message reason = "Serving cached data offline: " ⧺ reason

unfoldable pub record_stale_serve : String → String → String → PluginStatus → PluginStatus
unfolding update push_error is_logged stale_message
record_stale_serve source reason now s = record s {
  states = update source unreached s.states;
  recent_errors =
      if is_logged source (stale_message reason) s.recent_errors
      then s.recent_errors
      else push_error
          (record { at_time = now; message = stale_message reason; source = some source })
          s.recent_errors;
}

-- `state.apiReachable === false`
abbrev pub is_unreachable : Option Bool → Bool
is_unreachable (some false) = true
is_unreachable _ = false

unfoldable pub unreachable_sources : PluginStatus → List String
unreachable_sources s = map (λ e. e.0) (keep_if (λ e. is_unreachable e.1.api_reachable) s.states)

unfoldable pub snapshot : ℕ → PluginStatus → StatusSnapshot
snapshot cached_poi_count s = record {
  sources =
      map
        (λ e. record {
          source = e.0;
          name = e.1.name;
          api_reachable = e.1.api_reachable;
          last_list_fetch = e.1.last_list_fetch;
          last_skip = e.1.last_skip;
        })
        s.states;
  cached_poi_count = cached_poi_count;
  recent_errors = s.recent_errors;
  started_at = s.started_at;
}
