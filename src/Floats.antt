-- ===== src/Floats.antt =====
-- The numbers of the JavaScript runtime, as an interface: the code under src computes with
-- IEEE doubles, which the runtime provides. An instance gives the type and the operations that the
-- code calls (the operators, `Math`, `Number.isFinite`, `toString`); no law is assumed here. A
-- theorem that needs a law takes it as a named hypothesis.
use signalk_crows_nest.Prelude.{ℕ, String, Bool}

pub record Floats (F : Type 0) : Type 0 where
  -- `lit m k` is the double written with the digits m, k of them behind the point.
  pub lit : ℕ → ℕ → F
  pub infinity : F
  pub nan : F
  pub pi : F
  pub sqrt2 : F
  pub add : F → F → F
  pub sub : F → F → F
  pub mul : F → F → F
  pub div : F → F → F
  -- `%` and `**`
  pub rem : F → F → F
  pub pow : F → F → F
  pub neg : F → F
  -- `<`, `<=` and `===`
  pub lt : F → F → Bool
  pub le : F → F → Bool
  pub eq : F → F → Bool
  pub is_finite : F → Bool
  -- `Math.min`, `Math.max` and the rest of `Math`
  pub min : F → F → F
  pub max : F → F → F
  pub abs : F → F
  pub floor : F → F
  pub ceil : F → F
  pub round : F → F
  pub trunc : F → F
  pub sqrt : F → F
  pub sin : F → F
  pub cos : F → F
  pub asin : F → F
  pub acos : F → F
  pub atan2 : F → F → F
  -- `String(x)` and `x.toFixed(k)`
  pub text : F → String
  pub to_fixed : F → ℕ → String
  -- `Number(s)`
  pub of_text : String → F
