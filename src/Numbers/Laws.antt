-- ===== src/Numbers/Laws.antt =====
-- What the clamp of a raw configuration value promises.
use signalk_crows_nest.Prelude.{some, true, false, ◌≡◌, arith, Option-cases, Bool-cases, inl, inr}
use signalk_crows_nest.Floats.{Floats}
use signalk_crows_nest.Types.{Wire}
use signalk_crows_nest.Numbers.{to_finite_number, clamp_number}

-- Two finite doubles are ordered one way or the other, and a finite double is at most itself.
pub record IsLinear {F : Type 0} (n : Floats F) : Type 0 where
  pub le_total :
      (a b : F) → n.is_finite a ≡ true → n.is_finite b ≡ true → n.lt a b ≡ false → n.le b a ≡ true
  pub le_refl : (a : F) → n.is_finite a ≡ true → n.le a a ≡ true

to_finite_number-finite :
    {F : Type 0} ⦃n : Floats F⦄ (raw : Wire F) (value : F)
    → to_finite_number raw ≡ some value
    → n.is_finite value ≡ true
unfolding to_finite_number
to_finite_number-finite ⦃n⦄ (Wire.number x) value h = elim (Bool-cases (n.is_finite x)) [
  | inl finite ↦ ground arith
  | inr other ↦ ground arith
]
to_finite_number-finite Wire.undefined value h = cc
to_finite_number-finite Wire.null value h = cc
to_finite_number-finite (Wire.boolean b) value h = cc
to_finite_number-finite (Wire.text s) value h = cc
to_finite_number-finite (Wire.array items) value h = cc
to_finite_number-finite (Wire.object fields) value h = cc

-- Whatever the raw value is, the clamp to finite bounds in order, not truncated, lies between
-- them, if the fallback does and the order of the finite numbers is linear.
pub clamp_number-within :
    {F : Type 0} ⦃n : Floats F⦄ (linear : IsLinear n) (raw : Wire F) (lower upper fallback : F)
    → n.is_finite lower ≡ true
    → n.is_finite upper ≡ true
    → n.le lower upper ≡ true
    → n.le lower fallback ≡ true
    → n.le fallback upper ≡ true
    → (n.le lower (clamp_number raw lower upper fallback false) ≡ true)
      × (n.le (clamp_number raw lower upper fallback false) upper ≡ true)
unfolding clamp_number
clamp_number-within ⦃n⦄ linear raw lower upper fallback hl hu ordered low high =
    elim (Option-cases (to_finite_number raw)) [
      | inl absent ↦ rw (absent, clamp_number) (low, high)
      | inr (value, found) ↦
          let finite = to_finite_number-finite raw value found in
          elim (Bool-cases (n.lt value lower)) [
            | inl below ↦ rw (found, clamp_number, below) (linear.le_refl lower hl, ordered)
            | inr above ↦ elim (Bool-cases (n.lt upper value)) [
              | inl beyond ↦
                  rw (found, clamp_number, above, beyond) (ordered, linear.le_refl upper hu)
              | inr inside ↦
                  rw (found, clamp_number, above, inside)
                    (
                      linear.le_total value lower finite hl above,
                      linear.le_total upper value hu finite inside,
                    )
            ]
          ]
    ]
