-- ===== src/Details/Laws.antt =====
-- What a cold start finds of the details that the last write left.
use signalk_crows_nest.Prelude.{
  ℕ, ◌-◌, ◌*◌, String, eq_iff, List, [], ◌∷◌, Option, none, some, true, if◌then◌else◌, ltb, if_ind,
  option_ind, ◌≡◌, refl, ap, ◌∙◌, arith,
}
use signalk_crows_nest.JsMap
use signalk_crows_nest.JsMap.Laws.{get-set, IsDistinct}
use signalk_crows_nest.Types.{ms_per_minute}
use signalk_crows_nest.Details.{
  Formats, StoreOptions, StoredEntry, RawEntry, ParsedFile, Writing, DetailStore, create,
  is_stored_entry, is_store_file, prune_to_cap, write_file, flush, hydrate, load,
}

-- An entry that a load keeps.
abbrev pub retained : {V : Type 0} → ℕ → Option (StoredEntry V) → Option (StoredEntry V)
retained cutoff none = none
retained cutoff (some entry) = if ltb entry.timestamp cutoff then none else some entry

-- An entry as the file holds it.
abbrev pub dumped : {V J : Type 0} → (V → J) → Option (StoredEntry V) → Option (RawEntry J)
dumped dump none = none
dumped dump (some entry) = some (RawEntry.an_object (some entry.timestamp) (dump entry.value))

module _ {V J : Type 0} (formats : Formats V J) (options : StoreOptions) where
  abbrev checked : Option (RawEntry J) → Option (StoredEntry V)
  unfolding is_stored_entry
  checked none = none
  checked (some raw) = is_stored_entry formats options raw

  abbrev or_found : Option (StoredEntry V) → Option (StoredEntry V) → Option (StoredEntry V)
  or_found none old = old
  or_found (some entry) old = some entry

  get-hydrate :
      (cutoff : ℕ) (raws : List (String × RawEntry J)) (entries : List (String × StoredEntry V))
      → IsDistinct raws
      → (id : String)
      → JsMap.get id (hydrate formats options cutoff raws entries)
        ≡ or_found (retained cutoff (checked (JsMap.get id raws))) (JsMap.get id entries)
  unfolding hydrate JsMap.get
  get-hydrate cutoff [] entries d id = refl
  get-hydrate cutoff ((key, raw) ∷ rest) entries d id =
      option_ind
        (λ m.
          JsMap.get id m
          ≡ or_found (retained cutoff (checked (JsMap.get id ((key, raw) ∷ rest))))
              (JsMap.get id entries))
        (is_stored_entry formats options raw)
        (λ e. ground (arith, eq_iff key id, e, d.0, get-hydrate cutoff rest entries d.1 id))
        (λ entry e.
          if_ind
            (λ m.
              JsMap.get id (hydrate formats options cutoff rest m)
              ≡ or_found (retained cutoff (checked (JsMap.get id ((key, raw) ∷ rest))))
                  (JsMap.get id entries))
            (ltb entry.timestamp cutoff)
            (λ old.
              ground (arith, eq_iff key id, e, d.0, old, get-hydrate cutoff rest entries d.1 id))
            (λ recent. ground (
              arith,
              eq_iff key id,
              e,
              d.0,
              recent,
              get-set key id entry entries,
              get-hydrate cutoff rest (JsMap.set key entry entries) d.1 id,
            )))

  load_reads :
      (text : String) (listing : List (String × RawEntry J)) (now : ℕ) (s : DetailStore V)
      → s.disk.file ≡ some text
      → formats.parse text ≡ some (ParsedFile.a_file (some options.version) (some listing))
      → (load formats options now s).entries
        ≡ hydrate formats options (now - options.retention_minutes * ms_per_minute) listing []
  unfolding load is_store_file
  load_reads text listing now s file reads = ground (arith, file, reads)

  flush_file :
      (s : DetailStore V)
      → s.write_armed ≡ true
      → (flush formats options Writing.written s).disk.file
        ≡ some (formats.stringify options.version (prune_to_cap formats options s.entries))
  unfolding flush write_file
  flush_file s armed = rw armed

  accepted :
      (dump : V → J) (cutoff : ℕ) (found : Option (StoredEntry V))
      → ((v : V) → formats.as_value (dump v) ≡ some v)
      → or_found (retained cutoff (checked (dumped dump found))) none ≡ retained cutoff found
  unfolding is_stored_entry
  accepted dump cutoff none accepts = refl
  accepted dump cutoff (some entry) accepts = ground (arith, accepts entry.value)

  -- Let the timer of a write be set, let the write succeed, and let the text that it writes
  -- parse to a file of the store's version, whose entries carry each id once and hold, for
  -- the ids that the cap leaves, the stamp and a value that isValue accepts. Then a store
  -- that is created on that disk and loaded finds under every id what the first store held of
  -- it after the cap, unless the stamp lies before the retention window; then it finds
  -- nothing.
  pub cold_start :
      (dump : V → J) (listing : List (String × RawEntry J)) (now : ℕ) (s : DetailStore V)
      → s.write_armed ≡ true
      → formats.parse (formats.stringify options.version (prune_to_cap formats options s.entries))
        ≡ some (ParsedFile.a_file (some options.version) (some listing))
      → IsDistinct listing
      → ((id : String)
          → JsMap.get id listing
            ≡ dumped dump (JsMap.get id (prune_to_cap formats options s.entries)))
      → ((v : V) → formats.as_value (dump v) ≡ some v)
      → (id : String)
      → JsMap.get id
          (load formats options now (create (flush formats options Writing.written s).disk)).entries
        ≡ retained
            (now - options.retention_minutes * ms_per_minute)
            (JsMap.get id (prune_to_cap formats options s.entries))
  unfolding create JsMap.get
  cold_start dump listing now s armed reads distinct found accepts id =
      let text = formats.stringify options.version (prune_to_cap formats options s.entries) in
      let cutoff : ℕ = now - options.retention_minutes * ms_per_minute in
      let started = create (flush formats options Writing.written s).disk in
      ap (JsMap.get id) (load_reads text listing now started (flush_file s armed) reads)
      ∙ get-hydrate cutoff listing [] distinct id
      ∙ ap (λ raw. or_found (retained cutoff (checked raw)) none) (found id)
      ∙ accepted dump cutoff (JsMap.get id (prune_to_cap formats options s.entries)) accepts
