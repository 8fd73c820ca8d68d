-- ===== src/Status/Laws.antt =====
-- What the recorder holds after any sequence of recordings.
use mathlib.Core.Option
use signalk_crows_nest.Prelude.{
  ℕ, ◌≤◌, String, str_eq, eq_iff, List, [], ◌∷◌, Option, none, some, Bool, true, false, ◌&&◌,
  if◌then◌else◌, ◌≡◌, refl, ap, ◌∙◌, arith, length, length-take-le, any, keep_if, map, Bool-cases,
  inl, inr, Option-cases, or_option, or_else,
}
use signalk_crows_nest.JsMap
use signalk_crows_nest.JsMap.Laws.{IsDistinct, get-set, set-IsDistinct}
use signalk_crows_nest.Status.{
  StatusSource, StatusError, SourceState, PluginStatus, max_recent_errors, seed,
  create_plugin_status, update, mark_reachable, record_list_fetch, record_detail_success,
  push_error, record_error, record_skipped, record_stale_serve, is_logged, stale_message,
  is_unreachable, unreachable_sources, reached, unreached, fresh_row,
}

-- A recording, with the reading of the clock that it makes.
pub data Outcome : Type 0 where
  list_fetch : String → ℕ → String → Outcome
  detail_success : String → Outcome
  error : String → String → String → Outcome
  skipped : String → String → Bool → Outcome
  stale_serve : String → String → String → Outcome

unfoldable pub apply : Outcome → PluginStatus → PluginStatus
unfolding record_list_fetch record_detail_success record_error record_skipped record_stale_serve
    mark_reachable push_error
apply (Outcome.list_fetch source poi_count now) s = record_list_fetch source poi_count now s
apply (Outcome.detail_success source) s = record_detail_success source s
apply (Outcome.error source message now) s = record_error source message now s
apply (Outcome.skipped source reason transient) s = record_skipped source reason transient s
apply (Outcome.stale_serve source reason now) s = record_stale_serve source reason now s

unfoldable pub run : List Outcome → PluginStatus → PluginStatus
unfolding apply
run [] s = s
run (o ∷ os) s = run os (apply o s)

-- Whether a request that the outcome tells of went to a source, and how it ended. A skip is no
-- request.
abbrev pub request : String → Outcome → Option Bool
request j (Outcome.list_fetch source _ _) = if str_eq source j then some true else none
request j (Outcome.detail_success source) = if str_eq source j then some true else none
request j (Outcome.error source _ _) = if str_eq source j then some false else none
request j (Outcome.skipped source _ _) = none
request j (Outcome.stale_serve source _ _) = if str_eq source j then some false else none

-- How the last request to a source ended, where there was one.
abbrev pub last_request : String → Option Bool → List Outcome → Option Bool
last_request j before [] = before
last_request j before (o ∷ os) = last_request j (or_option (request j o) before) os

get-update :
    (k j : String) (change : SourceState → SourceState) (m : List (String × SourceState))
    → JsMap.get j (update k change m)
      ≡ (if str_eq k j then Option.map change (JsMap.get j m) else JsMap.get j m)
unfolding update
get-update k j change m = elim (Option-cases (JsMap.get k m)) [
  | inl absent ↦ ground (arith, eq_iff k j)
  | inr (state, found) ↦ ground (arith, eq_iff k j, get-set k j (change state) m)
]

-- The health of a row.
abbrev pub health : String → List (String × SourceState) → Option (Option Bool)
health j m = Option.map (λ state. state.api_reachable) (JsMap.get j m)

-- A change of a row's other fields leaves its health.
health-update_kept :
    (k j : String) (change : SourceState → SourceState) (m : List (String × SourceState))
    → ((state : SourceState) → (change state).api_reachable ≡ state.api_reachable)
    → health j (update k change m) ≡ health j m
health-update_kept k j change m kept = elim (Option-cases (JsMap.get j m)) [
  | inl absent ↦ ground (arith, get-update k j change m)
  | inr (state, found) ↦ ground (arith, get-update k j change m, kept state)
]

-- A change that sets the health sets it in the one row.
health-update_set :
    (k j : String) (change : SourceState → SourceState) (m : List (String × SourceState)) (b : Bool)
    → ((state : SourceState) → (change state).api_reachable ≡ some b)
    → health j (update k change m)
      ≡ Option.map (or_option (if str_eq k j then some b else none)) (health j m)
health-update_set k j change m b sets = elim (Option-cases (JsMap.get j m)) [
  | inl absent ↦ ground (arith, get-update k j change m)
  | inr (state, found) ↦ ground (arith, get-update k j change m, sets state)
]

health-apply :
    (j : String) (o : Outcome) (s : PluginStatus)
    → health j (apply o s).states ≡ Option.map (or_option (request j o)) (health j s.states)
unfolding apply mark_reachable record_list_fetch record_detail_success record_error record_skipped
    record_stale_serve
health-apply j (Outcome.list_fetch source poi_count now) s =
    health-update_kept source j _ (update source reached s.states) (λ state. refl)
    ∙ health-update_set source j reached s.states true (λ state. refl)
health-apply j (Outcome.detail_success source) s =
    health-update_set source j reached s.states true (λ state. refl)
health-apply j (Outcome.error source message now) s =
    health-update_set source j unreached s.states false (λ state. refl)
health-apply j (Outcome.skipped source reason transient) s =
    health-update_kept source j _ s.states (λ state. refl)
    ∙ elim (Option-cases (health j s.states)) [
      | inl absent ↦ ground arith
      | inr (b, found) ↦ ground arith
    ]
health-apply j (Outcome.stale_serve source reason now) s =
    health-update_set source j unreached s.states false (λ state. refl)

-- After any recordings the health of a source with a row is how its last request ended, or what
-- it was where none was made, whatever was recorded for other sources and whatever was skipped;
-- a source without a row gets none.
pub health-run :
    (j : String) (os : List Outcome) (s : PluginStatus)
    → health j (run os s).states
      ≡ Option.map (λ before. last_request j before os) (health j s.states)
unfolding run
health-run j [] s = elim (Option-cases (health j s.states)) [
  | inl absent ↦ ground arith
  | inr (b, found) ↦ ground arith
]
health-run j (o ∷ os) s =
    health-run j os (apply o s)
    ∙ ap (Option.map (λ before. last_request j before os)) (health-apply j o s)
    ∙ elim (Option-cases (health j s.states)) [
      | inl absent ↦ ground arith
      | inr (b, found) ↦ ground arith
    ]

length-push_error :
    (e : StatusError) (l : List StatusError) → length (push_error e l) ≤ max_recent_errors
unfolding push_error
length-push_error e l = length-take-le max_recent_errors (e ∷ l)

errors_bounded-apply :
    (o : Outcome) (s : PluginStatus)
    → length s.recent_errors ≤ max_recent_errors
    → length (apply o s).recent_errors ≤ max_recent_errors
unfolding apply mark_reachable record_list_fetch record_detail_success record_error record_skipped
    record_stale_serve push_error
errors_bounded-apply (Outcome.list_fetch source poi_count now) s h = h
errors_bounded-apply (Outcome.detail_success source) s h = h
errors_bounded-apply (Outcome.error source message now) s h =
    length-push_error (record { at_time = now; message = message; source = some source })
      s.recent_errors
errors_bounded-apply (Outcome.skipped source reason transient) s h = h
errors_bounded-apply (Outcome.stale_serve source reason now) s h =
    elim (Bool-cases (is_logged source (stale_message reason) s.recent_errors)) [
      | inl old ↦ rw old h
      | inr new ↦ rw new (
          length-push_error
            (record { at_time = now; message = stale_message reason; source = some source })
            s.recent_errors)
    ]

-- After any recordings on a new recorder the list of recent errors holds five at most.
pub errors_bounded :
    (now : String) (sources : List StatusSource) (os : List Outcome)
    → length (run os (create_plugin_status now sources)).recent_errors ≤ max_recent_errors
unfolding create_plugin_status run
errors_bounded now sources os = go os (create_plugin_status now sources) (omega arith)
  where
    go :
        (l : List Outcome) (s : PluginStatus)
        → length s.recent_errors ≤ max_recent_errors
        → length (run l s).recent_errors ≤ max_recent_errors
    go [] s h = h
    go (o ∷ l) s h = go l (apply o s) (errors_bounded-apply o s h)

-- A failure is told by the list of the unreachable sources exactly where a row says it.
member-unreachable :
    (j : String) (m : List (String × SourceState))
    → IsDistinct m
    → JsMap.member j (map (λ e. e.0) (keep_if (λ e. is_unreachable e.1.api_reachable) m))
      ≡ is_unreachable (or_else (health j m) none)
unfolding JsMap.get JsMap.member
member-unreachable j [] d = refl
member-unreachable j ((k, state) ∷ m) d = elim (Option-cases (JsMap.get j m)) [
  | inl absent ↦ ground (arith, eq_iff k j, member-unreachable j m d.1)
  | inr (other, found) ↦ ground (arith, eq_iff k j, member-unreachable j m d.1)
]

seed-IsDistinct :
    (sources : List StatusSource) (m : List (String × SourceState))
    → IsDistinct m
    → IsDistinct (seed m sources)
unfolding seed
seed-IsDistinct [] m d = d
seed-IsDistinct (s ∷ sources) m d = seed-IsDistinct sources _ (set-IsDistinct s.source _ m d)

update-IsDistinct :
    (k : String) (change : SourceState → SourceState) (m : List (String × SourceState))
    → IsDistinct m
    → IsDistinct (update k change m)
unfolding update
update-IsDistinct k change m d = elim (Option-cases (JsMap.get k m)) [
  | inl absent ↦ rw (absent, update) d
  | inr (state, found) ↦ rw (found, update) (set-IsDistinct k (change state) m d)
]

run-IsDistinct :
    (os : List Outcome) (s : PluginStatus) → IsDistinct s.states → IsDistinct (run os s).states
unfolding run apply mark_reachable record_list_fetch record_detail_success record_error
    record_skipped record_stale_serve
run-IsDistinct [] s d = d
run-IsDistinct (o ∷ os) s d = run-IsDistinct os (apply o s) (step o)
  where
    step : (o : Outcome) → IsDistinct (apply o s).states
    step (Outcome.list_fetch source poi_count now) =
        update-IsDistinct source _ _ (update-IsDistinct source reached s.states d)
    step (Outcome.detail_success source) = update-IsDistinct source reached s.states d
    step (Outcome.error source message now) = update-IsDistinct source unreached s.states d
    step (Outcome.skipped source reason transient) = update-IsDistinct source _ s.states d
    step (Outcome.stale_serve source reason now) = update-IsDistinct source unreached s.states d

-- Every seeded row starts without a request.
health-seed :
    (j : String) (sources : List StatusSource) (m : List (String × SourceState))
    → health j (seed m sources)
      ≡ (if any (λ s. str_eq s.source j) sources then some none else health j m)
unfolding seed
health-seed j [] m = refl
health-seed j (s ∷ sources) m =
    health-seed j sources (JsMap.set s.source (fresh_row s) m)
    ∙ ground (arith, get-set s.source j (fresh_row s) m)

-- After any recordings on a new recorder a source is among the unreachable ones exactly when it
-- is registered and its last request failed.
pub member-unreachable_sources :
    (now : String) (sources : List StatusSource) (os : List Outcome) (j : String)
    → JsMap.member j (unreachable_sources (run os (create_plugin_status now sources)))
      ≡ (any (λ s. str_eq s.source j) sources && is_unreachable (last_request j none os))
unfolding create_plugin_status unreachable_sources JsMap.get
member-unreachable_sources now sources os j =
    let s = create_plugin_status now sources in
    member-unreachable j (run os s).states (run-IsDistinct os s (seed-IsDistinct sources [] tt))
    ∙ ap (λ h. is_unreachable (or_else h none))
        (health-run j os s
          ∙ ap (Option.map (λ before. last_request j before os)) (health-seed j sources []))
    ∙ elim (Bool-cases (any (λ s. str_eq s.source j) sources)) [
      | inl row ↦ rw row refl
      | inr no_row ↦ rw no_row refl
    ]
