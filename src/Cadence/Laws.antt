-- ===== src/Cadence/Laws.antt =====
-- The cadence follows the tightest radius.
use signalk_crows_nest.Prelude.{
  List, [], ◌∷◌, Option, none, some, Bool, true, false, not, if◌then◌else◌, all, ◌≡◌, refl, arith,
  Option-cases, inl, inr,
}
use signalk_crows_nest.Floats.{Floats}
use signalk_crows_nest.Cadence.{
  Contributor, Gathered, is_usable, tighter, gather_step, gather, cadence_of, derive_scan_cadence,
}

-- `<` on the doubles is transitive, and no double is below itself.
pub record IsStrict {F : Type 0} (n : Floats F) : Type 0 where
  pub lt_trans : (a b c : F) → n.lt a b ≡ true → n.lt b c ≡ true → n.lt a c ≡ true
  pub lt_irrefl : (a : F) → n.lt a a ≡ false

module _ {F : Type 0} ⦃n : Floats F⦄ where
  -- A usable radius of the contributor is not below the tightest one; without a tightest one the
  -- contributor has none.
  abbrev pub covers : Option F → Contributor F → Bool
  covers tightest c = elim c.alarm_radius_meters [
    | none ↦ true
    | some radius ↦
        if is_usable radius
        then elim tightest [ none ↦ false | some t ↦ not (n.lt radius t) ]
        else true
  ]

  module _ (strict : IsStrict n) where
    -- A step keeps what is covered, and covers its own contributor.
    covers-gather_step :
        (c d : Contributor F) (g : Gathered F)
        → covers g.tightest d ≡ true
        → covers (gather_step c g).tightest d ≡ true
    unfolding gather_step tighter
    covers-gather_step c d g h = elim (Option-cases c.alarm_radius_meters) [
      | inl unset ↦ ground arith
      | inr (r, declared) ↦ elim (Option-cases d.alarm_radius_meters) [
        | inl free ↦ ground arith
        | inr (x, other) ↦ elim (Option-cases g.tightest) [
          | inl first ↦ ground (arith, strict.lt_irrefl r)
          | inr (t, so_far) ↦ ground (arith, strict.lt_trans x r t)
        ]
      ]
    ]

    covers-own : (c : Contributor F) (g : Gathered F) → covers (gather_step c g).tightest c ≡ true
    unfolding gather_step tighter
    covers-own c g = elim (Option-cases c.alarm_radius_meters) [
      | inl unset ↦ ground arith
      | inr (r, declared) ↦ elim (Option-cases g.tightest) [
        | inl first ↦ ground (arith, strict.lt_irrefl r)
        | inr (t, so_far) ↦ ground (arith, strict.lt_irrefl r)
      ]
    ]

    covers-gather :
        (l : List (Contributor F)) (d : Contributor F) (g : Gathered F)
        → covers g.tightest d ≡ true
        → covers (gather l g).tightest d ≡ true
    unfolding gather
    covers-gather [] d g h = h
    covers-gather (c ∷ l) d g h = covers-gather l d (gather_step c g) (covers-gather_step c d g h)

    all-gather :
        (l : List (Contributor F)) (g : Gathered F) → all (covers (gather l g).tightest) l ≡ true
    unfolding gather
    all-gather [] g = refl
    all-gather (c ∷ l) g =
        rw (covers-gather l c (gather_step c g) (covers-own c g)) (all-gather l (gather_step c g))

    cadence_of-tightest :
        (o : Option F) (coverage : F) → (cadence_of o coverage).tightest_radius_meters ≡ o
    unfolding cadence_of
    cadence_of-tightest none coverage = refl
    cadence_of-tightest (some t) coverage = refl

    -- The tightest radius of the derived cadence is above no usable radius that a
    -- contributor declares, and it is absent only where none declares one, if `<` is a
    -- strict order.
    pub derive_scan_cadence_tightest :
        (l : List (Contributor F))
        → all (covers (derive_scan_cadence l).tightest_radius_meters) l ≡ true
    unfolding derive_scan_cadence
    derive_scan_cadence_tightest l =
        let g = gather l (record { tightest = none; coverage = n.infinity }) in
        rw (cadence_of-tightest g.tightest g.coverage)
          (all-gather l (record { tightest = none; coverage = n.infinity }))
