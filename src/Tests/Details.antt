-- ===== src/Tests/Details.antt =====
-- A store of details that is written, and read again on a cold start.
use signalk_crows_nest.Prelude.{
  ℕ, ◌-◌, ◌*◌, ◌==◌, String, str_eq, List, [], ◌∷◌, none, some, true, false, if◌then◌else◌, ◌≡◌,
  refl, arith,
}
use signalk_crows_nest.JsMap
use signalk_crows_nest.Notification.{◌⧺◌}
use signalk_crows_nest.Types.{ms_per_minute}
use signalk_crows_nest.Details.{
  Formats, StoreOptions, StoredEntry, RawEntry, ParsedFile, Writing, Removal, DetailStore, create,
  prune_to_cap, flush, load, persist, clear,
}
use signalk_crows_nest.Details.Laws.{retained, cold_start}
use signalk_crows_nest.Details.Hydrated.{open_cache, close_cache}
use signalk_crows_nest.Tests.Runtime.{keep_all}

abbrev saved : List (String × RawEntry ℕ)
saved =
    ("17", RawEntry.an_object (some 30000) 4) ∷ ("harbor", RawEntry.an_object (some 50000) 6) ∷ []

abbrev join_ids : List (String × StoredEntry ℕ) → String
join_ids [] = ""
join_ids ((id, entry) ∷ m) = ";" ⧺ id ⧺ join_ids m

abbrev formats : Formats ℕ ℕ
formats = record {
  parse = λ text.
      if str_eq text ";17;harbor" then some (ParsedFile.a_file (some 1) (some saved)) else none;
  stringify = λ version m. join_ids m;
  object_keys = λ ids. ids;
  same = λ v w. v == w;
  as_value = some;
}

abbrev options : StoreOptions
options = record { retention_minutes = 1; max_entries = 2; version = 1 }

abbrev filled : DetailStore ℕ
filled = record {
  entries =
      ("17", record { timestamp = 30000; value = 4 })
      ∷ ("buoy", record { timestamp = 5; value = 5 })
      ∷ ("harbor", record { timestamp = 50000; value = 6 })
      ∷ [];
  write_armed = true;
  disk = record { file = none; temp = none };
}

-- The cap drops the oldest entry.
prune_drops_oldest : JsMap.keys (prune_to_cap formats options filled.entries) ≡ "17" ∷ "harbor" ∷ []
unfolding prune_to_cap
prune_drops_oldest = refl

-- A value that the store has is not stamped again.
persist_same : persist formats options 60000 "harbor" 6 filled ≡ filled
unfolding persist
persist_same = refl

rename_failure : (flush formats options (Writing.rename_failed true) filled).disk ≡ filled.disk
unfolding flush
rename_failure = refl

clear_removes : (clear Removal.removed filled).disk ≡ record { file = none; temp = none }
unfolding clear
clear_removes = refl

memory_only :
    (close_cache formats options Writing.written
      (open_cache {C = List (String × ℕ)} formats options false 100000 filled.disk)).store.disk
    ≡ filled.disk
unfolding open_cache close_cache create
memory_only = refl

cold_start_example :
    JsMap.get "harbor"
      (load formats options 100000
        (create (flush formats options Writing.written filled).disk)).entries
    ≡ retained
        (100000 - 1 * ms_per_minute)
        (JsMap.get "harbor" (prune_to_cap formats options filled.entries))
unfolding prune_to_cap JsMap.get
cold_start_example =
    cold_start formats options (λ v. v) saved 100000 filled refl refl (refl, (refl, tt))
      (λ id. ground arith) (λ v. refl) "harbor"
