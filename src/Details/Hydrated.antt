-- ===== src/Details/Hydrated.antt =====
-- src/shared/hydrated-detail-cache.ts: the cache of details in memory with its store on disk.
use signalk_crows_nest.Prelude.{
  ℕ, String, List, [], ◌∷◌, none, some, Bool, true, false, if◌then◌else◌,
}
use signalk_crows_nest.JsMap
use signalk_crows_nest.Bridge.Resolver.{Lru}
use signalk_crows_nest.Details.{
  Formats, StoreOptions, StoredEntry, Disk, Writing, DetailStore, create, load, persist, flush,
  replace_all,
}

-- A cache of memory only never has its store attached. The disk stays in `store` after the close,
-- which detaches it.
pub record HydratedDetailCache (V C : Type 0) : Type 0 where
  pub cache : C
  pub store : DetailStore V
  pub attached : Bool

-- `Object.entries` over a mirror.
unfoldable pub list_entries :
    {V : Type 0} → List String → List (String × StoredEntry V) → List (String × StoredEntry V)
unfolding JsMap.get
list_entries [] m = []
list_entries (id ∷ ids) m = elim (JsMap.get id m) [
  | none ↦ list_entries ids m
  | some entry ↦ (id, entry) ∷ list_entries ids m
]

module _ {V C : Type 0} ⦃lru : Lru C V⦄ where
  unfoldable pub set_all : List (String × V) → C → C
  set_all [] cache = cache
  set_all ((id, value) ∷ values) cache = set_all values (lru.set id value cache)

  unfoldable pub fill : List (String × StoredEntry V) → C → C
  fill [] cache = cache
  fill ((id, entry) ∷ entries) cache = fill entries (lru.set id entry.value cache)

module _ {V C J : Type 0} ⦃lru : Lru C V⦄ (formats : Formats V J) (options : StoreOptions) where
  unfoldable pub open_cache : Bool → ℕ → Disk → HydratedDetailCache V C
  unfolding load create fill list_entries
  open_cache has_data_dir now disk =
      if has_data_dir
      then (let store = load formats options now (create disk) in
          record {
            cache =
                fill (list_entries (formats.object_keys (JsMap.keys store.entries)) store.entries)
                  lru.empty;
            store = store;
            attached = true;
          })
      else record { cache = lru.empty; store = create disk; attached = false }

  unfoldable pub persist_detail : ℕ → String → V → HydratedDetailCache V C → HydratedDetailCache V C
  unfolding persist
  persist_detail now id value h =
      if h.attached then record h { store = persist formats options now id value h.store } else h

  unfoldable pub replace_details :
      ℕ → List (String × V) → HydratedDetailCache V C → HydratedDetailCache V C
  unfolding set_all replace_all
  replace_details now values h = record h {
    cache = set_all values lru.empty;
    store = if h.attached then replace_all now values h.store else h.store;
  }

  unfoldable pub close_cache : Writing → HydratedDetailCache V C → HydratedDetailCache V C
  unfolding flush
  close_cache writing h = record {
    cache = lru.empty;
    store = if h.attached then flush formats options writing h.store else h.store;
    attached = false;
  }
