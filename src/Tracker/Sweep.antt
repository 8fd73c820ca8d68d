-- ===== src/Tracker/Sweep.antt =====
-- The loops over a snapshot of the keys are filters of the active map, and tell of the entries
-- that they drop, in order.
use signalk_crows_nest.Prelude.{
  String, List, [], ◌∷◌, ◌++◌, some, true, false, ◌≡◌, refl, if◌then◌else◌, map, keep_if, arith,
  Bool-cases, inl, inr, append_assoc, append-nil, ◌∙◌, ap,
}
use signalk_crows_nest.JsMap
use signalk_crows_nest.JsMap.{member}
use signalk_crows_nest.JsMap.Laws.{IsDistinct}
use signalk_crows_nest.JsMap.Positions.{get-append_first, delete-append_first, drop-IsDistinct}
use signalk_crows_nest.Notification.{Platform, App, debug}
use signalk_crows_nest.Notification.Notices.{Notice, notice, notices, notices-emit_notification}
use signalk_crows_nest.Tracker.{Config, Tracked, Tracker, log_clear, clear, sweep, clear_each}

module _ ⦃p : Platform⦄ {T : Type 0} (cfg : Config T) where
  -- The notice of a cleared entry.
  abbrev pub clear_notice : Tracked T → Notice
  clear_notice r =
      notice cfg.path_prefix r.poi_id (cfg.build_clear_value r.entry r.raised_at) cfg.source_suffix

  notices-log_clear : (r : Tracked T) (app : App) → notices (log_clear cfg r app) ≡ notices app
  unfolding log_clear debug
  notices-log_clear r app = ground arith

  clear_hit :
      (k : String) (r : Tracked T) (s : Tracker T)
      → JsMap.get k s.active ≡ some r
      → ((clear cfg k s).active ≡ JsMap.delete k s.active)
        × (notices (clear cfg k s).app ≡ notices s.app ++ clear_notice r ∷ [])
  unfolding clear
  clear_hit k r s h = (rw (h, clear), rw (h, clear, notices-log_clear, notices-emit_notification))

  -- The entries whose key is kept, and the values of those whose key is not.
  abbrev pub kept : List String → List (String × Tracked T) → List (String × Tracked T)
  kept keep = keep_if (λ e. member e.0 keep)

  abbrev pub dropped : List String → List (String × Tracked T) → List (Tracked T)
  dropped keep [] = []
  dropped keep ((k, r) ∷ m) = if member k keep then dropped keep m else r ∷ dropped keep m

  sweep_kept :
      (keep : List String) (k : String) (ks : List String) (s : Tracker T)
      → member k keep ≡ true
      → sweep cfg keep (k ∷ ks) s ≡ sweep cfg keep ks s
  unfolding sweep
  sweep_kept keep k ks s h = ap (λ b. sweep cfg keep ks (if b then s else clear cfg k s)) h

  sweep_cut :
      (keep : List String) (k : String) (ks : List String) (s : Tracker T)
      → member k keep ≡ false
      → sweep cfg keep (k ∷ ks) s ≡ sweep cfg keep ks (clear cfg k s)
  unfolding sweep
  sweep_cut keep k ks s h = ap (λ b. sweep cfg keep ks (if b then s else clear cfg k s)) h

  sweep_from :
      (keep : List String) (done rest : List (String × Tracked T)) (s : Tracker T)
      → s.active ≡ done ++ rest
      → IsDistinct (done ++ rest)
      → ((sweep cfg keep (JsMap.keys rest) s).active ≡ done ++ kept keep rest)
        × (notices (sweep cfg keep (JsMap.keys rest) s).app
            ≡ notices s.app ++ map clear_notice (dropped keep rest))
  unfolding sweep
  sweep_from keep done [] s e d = (e, rw append-nil)
  sweep_from keep done ((k, r) ∷ rest) s e d = elim (Bool-cases (member k keep)) [
    | inl yes_kept ↦
        let ih =
          sweep_from keep (done ++ (k, r) ∷ []) rest s (rw append_assoc e) (rw append_assoc d) in
        rw (yes_kept, sweep_kept keep k (JsMap.keys rest) s yes_kept)
          (ih.0 ∙ append_assoc done ((k, r) ∷ []) (kept keep rest), ih.1)
    | inr cut ↦
        let found : JsMap.get k s.active ≡ some r = rw e (get-append_first done k r rest d) in
        let (active', told) = clear_hit k r s found in
        let ih =
          sweep_from keep done rest (clear cfg k s)
            (active' ∙ rw e (delete-append_first done k r rest d))
            (drop-IsDistinct done k r rest d) in
        rw (cut, sweep_cut keep k (JsMap.keys rest) s cut)
          (ih.0, ih.1 ∙ rw told (append_assoc (notices s.app) (clear_notice r ∷ []) _))
  ]

  pub sweep_lem :
      (keep : List String) (s : Tracker T)
      → IsDistinct s.active
      → ((sweep cfg keep (JsMap.keys s.active) s).active ≡ kept keep s.active)
        × (notices (sweep cfg keep (JsMap.keys s.active) s).app
            ≡ notices s.app ++ map clear_notice (dropped keep s.active))
  sweep_lem keep s d = sweep_from keep [] s.active s refl d

  pub clear_each-sweep :
      (ks : List String) (s : Tracker T) → clear_each cfg ks s ≡ sweep cfg [] ks s
  unfolding clear_each sweep member
  clear_each-sweep [] s = refl
  clear_each-sweep (k ∷ ks) s = clear_each-sweep ks (clear cfg k s)
