-- ===== src/Details.antt =====
-- src/shared/detail-store.ts: the store of a source's details on disk. Each call of the file system
-- takes its outcome from outside; so do the formats of the file, which are those of `JSON`.
pub mod Laws
pub mod Hydrated
use signalk_crows_nest.Prelude.{
  ℕ, zero, suc, ◌+◌, ◌-◌, ◌*◌, ◌==◌, String, List, [], ◌∷◌, Option, none, some, Bool, true, false,
  if◌then◌else◌, length, take, ltb, leb,
}
use signalk_crows_nest.JsMap
use signalk_crows_nest.Types.{ms_per_minute}

abbrev minutes_per_day : ℕ
minutes_per_day = 1440

abbrev pub default_detail_store_retention_minutes : ℕ
default_detail_store_retention_minutes = 30 * minutes_per_day

abbrev pub max_poi_cache_entries : ℕ
max_poi_cache_entries = 5000

abbrev pub default_store_version : ℕ
default_store_version = 1

pub record StoredEntry (V : Type 0) : Type 0 where
  pub timestamp : ℕ
  pub value : V

-- A member of the parsed `entries`, before its check: its timestamp when that is a number.
pub data RawEntry (J : Type 0) : Type 0 where
  not_an_object : RawEntry J
  an_object : (timestamp : Option ℕ) (value : J) → RawEntry J

-- What `JSON.parse` gives: the version when that is a number, and what `Object.entries` lists of the
-- entries when they are an object.
pub data ParsedFile (J : Type 0) : Type 0 where
  not_a_file : ParsedFile J
  a_file : (version : Option ℕ) (entries : Option (List (String × RawEntry J))) → ParsedFile J

-- The language's parts: `JSON`, the order in which `Object.keys` lists the names of an object whose
-- members were added in a given order, and `===` on values. `as_value` is the source's `isValue`.
pub record Formats (V J : Type 0) : Type 0 where
  pub parse : String → Option (ParsedFile J)
  pub stringify : ℕ → List (String × StoredEntry V) → String
  pub object_keys : List String → List String
  pub same : V → V → Bool
  pub as_value : J → Option V

pub record StoreOptions : Type 0 where
  pub retention_minutes : ℕ
  pub max_entries : ℕ
  pub version : ℕ

abbrev pub default_options : StoreOptions
default_options = record {
  retention_minutes = default_detail_store_retention_minutes;
  max_entries = max_poi_cache_entries;
  version = default_store_version;
}

-- The store file and its temporary sibling: the text of each, when it is there and can be read.
pub record Disk : Type 0 where
  pub file : Option String
  pub temp : Option String

-- How far the calls of `writeFile` get, with what each leaves of the temporary file.
pub data Writing : Type 0 where
  mkdir_failed : Writing
  write_failed : (left : Option String) → Writing
  rename_failed : (removed : Bool) → Writing
  written : Writing

-- How far the two removals of `clear` get.
pub data Removal : Type 0 where
  file_kept : Removal
  temp_kept : Removal
  removed : Removal

-- The variables of `createDetailStore`, and the disk that it works on.
pub record DetailStore (V : Type 0) : Type 0 where
  pub entries : List (String × StoredEntry V)
  pub write_armed : Bool
  pub disk : Disk

unfoldable pub create : {V : Type 0} → Disk → DetailStore V
create disk = record { entries = []; write_armed = false; disk = disk }

-- The stable sort of `pruneToCap`, by the ids' timestamps.
unfoldable pub insert_by : (String → ℕ) → String → List String → List String
insert_by age id [] = id ∷ []
insert_by age id (other ∷ ids) =
    if leb (age id) (age other) then id ∷ other ∷ ids else other ∷ insert_by age id ids

unfoldable pub sort_by : (String → ℕ) → List String → List String
unfolding insert_by
sort_by age [] = []
sort_by age (id ∷ ids) = insert_by age id (sort_by age ids)

unfoldable pub delete_all : {V : Type 0} → List String → List (String × V) → List (String × V)
unfolding JsMap.delete
delete_all [] m = m
delete_all (id ∷ ids) m = delete_all ids (JsMap.delete id m)

module _ {V J : Type 0} (formats : Formats V J) (options : StoreOptions) where
  unfoldable pub is_stored_entry : RawEntry J → Option (StoredEntry V)
  is_stored_entry RawEntry.not_an_object = none
  is_stored_entry (RawEntry.an_object none value) = none
  is_stored_entry (RawEntry.an_object (some timestamp) value) = elim (formats.as_value value) [
    | none ↦ none
    | some v ↦ some (record { timestamp = timestamp; value = v })
  ]

  unfoldable pub is_store_file : ParsedFile J → Option (List (String × RawEntry J))
  is_store_file ParsedFile.not_a_file = none
  is_store_file (ParsedFile.a_file none entries) = none
  is_store_file (ParsedFile.a_file (some version) entries) =
      if version == options.version then entries else none

  abbrev pub age_in : List (String × StoredEntry V) → String → ℕ
  unfolding JsMap.get
  age_in entries id = elim (JsMap.get id entries) [ none ↦ 0 | some entry ↦ entry.timestamp ]

  unfoldable pub prune_to_cap : List (String × StoredEntry V) → List (String × StoredEntry V)
  unfolding sort_by delete_all JsMap.get
  prune_to_cap entries =
      let ids = formats.object_keys (JsMap.keys entries) in
      if leb (length ids) options.max_entries
      then entries
      else delete_all (take (length ids - options.max_entries) (sort_by (age_in entries) ids))
          entries

  unfoldable pub write_file : Writing → DetailStore V → DetailStore V
  unfolding prune_to_cap
  write_file writing s =
      let entries = prune_to_cap s.entries in
      let payload = formats.stringify options.version entries in
      let disk : Disk = elim writing [
        | Writing.mkdir_failed ↦ s.disk
        | Writing.write_failed left ↦ record { file = s.disk.file; temp = left }
        | Writing.rename_failed gone ↦ record {
          file = s.disk.file;
          temp = if gone then none else some payload;
        }
        | Writing.written ↦ record { file = some payload; temp = none }
      ] in
      record s { entries = entries; disk = disk }

  unfoldable pub flush : Writing → DetailStore V → DetailStore V
  unfolding write_file
  flush writing s =
      if s.write_armed then write_file writing (record s { write_armed = false }) else s

  -- The entries of a parsed file that the loop of `load` keeps, added to those it has.
  unfoldable pub hydrate :
      ℕ → List (String × RawEntry J) → List (String × StoredEntry V) → List (String × StoredEntry V)
  unfolding is_stored_entry JsMap.set
  hydrate cutoff [] entries = entries
  hydrate cutoff ((id, raw) ∷ rest) entries = elim (is_stored_entry raw) [
    | none ↦ hydrate cutoff rest entries
    | some entry ↦
        hydrate cutoff rest
          (if ltb entry.timestamp cutoff then entries else JsMap.set id entry entries)
  ]

  -- The cutoff of a clock that stands below the retention is 0: the stamps are naturals, so that
  -- drops what the negative cutoff of the code drops, nothing.
  unfoldable pub load : ℕ → DetailStore V → DetailStore V
  unfolding is_store_file hydrate
  load now s =
      let empty = record s { entries = [] } in
      elim s.disk.file [
        | none ↦ empty
        | some text ↦ elim (formats.parse text) [
          | none ↦ empty
          | some parsed ↦ elim (is_store_file parsed) [
            | none ↦ empty
            | some entries ↦ record s {
              entries = hydrate (now - options.retention_minutes * ms_per_minute) entries [];
            }
          ]
        ]
      ]

  unfoldable pub persist : ℕ → String → V → DetailStore V → DetailStore V
  unfolding JsMap.get JsMap.set
  persist now id value s =
      if elim (JsMap.get id s.entries) [
        | none ↦ false
        | some entry ↦ formats.same entry.value value
      ]
      then s
      else record s {
        entries = JsMap.set id (record { timestamp = now; value = value }) s.entries;
        write_armed = true;
      }

unfoldable pub stamp_all :
    {V : Type 0}
    → ℕ
    → List (String × V)
    → List (String × StoredEntry V)
    → List (String × StoredEntry V)
unfolding JsMap.set
stamp_all now [] entries = entries
stamp_all now ((id, value) ∷ values) entries =
    stamp_all now values (JsMap.set id (record { timestamp = now; value = value }) entries)

unfoldable pub replace_all : {V : Type 0} → ℕ → List (String × V) → DetailStore V → DetailStore V
unfolding stamp_all
replace_all now values s = record s { entries = stamp_all now values []; write_armed = true }

unfoldable pub clear : {V : Type 0} → Removal → DetailStore V → DetailStore V
clear removal s =
    let disk : Disk = elim removal [
      | Removal.file_kept ↦ s.disk
      | Removal.temp_kept ↦ record { file = none; temp = s.disk.temp }
      | Removal.removed ↦ record { file = none; temp = none }
    ] in
    record s { entries = []; write_armed = false; disk = disk }
