-- ===== src/Common/FloatOps.antt =====
-- The 64-bit floating-point numbers and the conversions between them and durations. The hardware
-- and the standard library implement them, so they are a parameter.
use Prim.Native.Nat.{ℕ, ◌+◌, ◌*◌, ◌/◌, ◌^◌, max}
use mathlib.Core.Path.{◌≡◌}
use mathlib.Core.Bool.{Bool, true, false}
use native.Mathlib.Omega.{arith}
use share_dash.Common.Tests.{ltb, ◌==◌}

pub record Floats : Type 1 where
  pub F64 : Type 0
  -- The decimal literal m / 10 ^ p.
  pub decimal : ℕ → ℕ → F64
  -- `x as f64`.
  pub of_nat : ℕ → F64
  pub add : F64 → F64 → F64
  pub mul : F64 → F64 → F64
  pub div : F64 → F64 → F64
  pub max_of : F64 → F64 → F64
  pub lt : F64 → F64 → Bool
  pub eq : F64 → F64 → Bool
  -- `x.ceil() as u64`.
  pub ceil : F64 → ℕ
  -- `Duration::as_secs_f64` and `Duration::from_secs_f64`, with durations in nanoseconds.
  pub as_secs : ℕ → F64
  pub from_secs : F64 → ℕ

-- The two laws of `<` that hold for every float, NaN included.
pub record FloatOrder (fl : Floats) : Type 0 where
  pub lt_irrefl : (a : fl.F64) → fl.lt a a ≡ false
  pub lt_trans : (a b c : fl.F64) → fl.lt a b ≡ true → fl.lt b c ≡ true → fl.lt a c ≡ true

-- Fixed-point numbers with nine decimal places, on which the definitions run.
abbrev pub fixed : Floats
fixed = record {
  F64 = ℕ;
  decimal = λ m p. m * 1000000000 / 10 ^ p;
  of_nat = λ n. n * 1000000000;
  add = λ a b. a + b;
  mul = λ a b. a * b / 1000000000;
  div = λ a b. a * 1000000000 / b;
  max_of = λ a b. max a b;
  lt = λ a b. ltb a b;
  eq = λ a b. a == b;
  ceil = λ a. (a + 999999999) / 1000000000;
  as_secs = λ n. n;
  from_secs = λ a. a;
}

fixed_irrefl : (a : ℕ) → ltb a a ≡ false
fixed_irrefl a = ground arith

fixed_trans : (a b c : ℕ) → ltb a b ≡ true → ltb b c ≡ true → ltb a c ≡ true
fixed_trans a b c h k = ground arith

pub fixed-FloatOrder : FloatOrder fixed
fixed-FloatOrder = record { lt_irrefl = fixed_irrefl; lt_trans = fixed_trans }
