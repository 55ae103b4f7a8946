-- ===== src/Base/Ieee.antt =====
-- What the program uses of `f64`: the tests, the conversion of small integers and decimal
-- constants. The operations are a parameter, with the laws of IEEE 754 that the proofs need; a
-- model of them shows that the laws can hold.
use Prim.Native.Nat.{ℕ, ◌*◌, ◌^◌, ◌≤◌}
use mathlib.Core.Path.{◌≡◌, refl}
use mathlib.Core.Bool.{Bool, true, false, not}
use mathlib.Core.Logic.{◌↔◌}
use mathlib.Core.Option.{Option, none, some}
use native.Mathlib.Omega.{arith}
use m3_core_rs.Base.Tests.{leb, ltb, if◌then◌else◌}

-- Up to here every integer has an `f64` of its own.
abbrev pub exact : ℕ
exact = 2 ^ 53

pub record Floats : Type 1 where
  pub F64 : Type 0
  pub is_nan : F64 → Bool
  pub ge : F64 → F64 → Bool
  pub lt : F64 → F64 → Bool
  -- `n as f64`.
  pub of_ℕ : ℕ → F64
  -- The constant n / 10.
  pub tenths : ℕ → F64
  pub of_ℕ-is_nan : (n : ℕ) → is_nan (of_ℕ n) ≡ false
  pub ge-of_ℕ : (m n : ℕ) → m ≤ exact → n ≤ exact → ge (of_ℕ m) (of_ℕ n) ≡ leb n m
  pub lt-of_ℕ : (m n : ℕ) → m ≤ exact → n ≤ exact → lt (of_ℕ m) (of_ℕ n) ≡ ltb m n
  -- Between numbers one of `a < b` and `a >= b` holds.
  pub ge_of_not_lt :
      (a b : F64) → is_nan a ≡ false → is_nan b ≡ false → lt a b ≡ false → ge a b ≡ true
  pub not_lt_of_ge : (a b : F64) → ge a b ≡ true → lt a b ≡ false
  -- `Duration::from_secs_f64` in nanoseconds; `none` is its panic.
  pub is_finite : F64 → Bool
  pub from_secs : F64 → Option ℕ
  pub from_secs_iff :
      (a : F64)
      → is_finite a ≡ true
      → ge a (of_ℕ 0) ≡ true
      → (from_secs a ≡ none) ↔ (ge a (of_ℕ (2 ^ 64)) ≡ true)
  pub ge_trans : (a b c : F64) → ge a b ≡ true → ge b c ≡ true → ge a c ≡ true

-- Tenths of a unit, and a value that is no number.
pub data Fixed : Type 0 where
  nan : Fixed
  tenth : ℕ → Fixed

abbrev fixed_is_nan : Fixed → Bool
fixed_is_nan nan = true
fixed_is_nan (tenth n) = false

abbrev fixed_ge : Fixed → Fixed → Bool
fixed_ge nan b = false
fixed_ge (tenth m) nan = false
fixed_ge (tenth m) (tenth n) = leb n m

abbrev fixed_lt : Fixed → Fixed → Bool
fixed_lt nan b = false
fixed_lt (tenth m) nan = false
fixed_lt (tenth m) (tenth n) = ltb m n

pub fixed-ge_of_not_lt :
    (a b : Fixed)
    → fixed_is_nan a ≡ false
    → fixed_is_nan b ≡ false
    → fixed_lt a b ≡ false
    → fixed_ge a b ≡ true
fixed-ge_of_not_lt nan b h k e = cc
fixed-ge_of_not_lt (tenth m) nan h k e = cc
fixed-ge_of_not_lt (tenth m) (tenth n) h k e = ground arith

pub fixed-not_lt_of_ge : (a b : Fixed) → fixed_ge a b ≡ true → fixed_lt a b ≡ false
fixed-not_lt_of_ge nan b e = cc
fixed-not_lt_of_ge (tenth m) nan e = cc
fixed-not_lt_of_ge (tenth m) (tenth n) e = ground arith

pub fixed-ge_trans :
    (a b c : Fixed) → fixed_ge a b ≡ true → fixed_ge b c ≡ true → fixed_ge a c ≡ true
fixed-ge_trans nan b c h k = cc
fixed-ge_trans (tenth m) nan c h k = cc
fixed-ge_trans (tenth m) (tenth n) nan h k = cc
fixed-ge_trans (tenth m) (tenth n) (tenth o) h k = ground arith

pub fixed-ge-of_ℕ : (m n : ℕ) → m ≤ exact → n ≤ exact → leb (10 * n) (10 * m) ≡ leb n m
fixed-ge-of_ℕ m n _ _ = ground arith

pub fixed-lt-of_ℕ : (m n : ℕ) → m ≤ exact → n ≤ exact → ltb (10 * m) (10 * n) ≡ ltb m n
fixed-lt-of_ℕ m n _ _ = ground arith

abbrev fixed_from_secs : Fixed → Option ℕ
fixed_from_secs nan = none
fixed_from_secs (tenth n) = if ltb n (10 * 2 ^ 64) then some (n * 100_000_000) else none

pub fixed-from_secs_iff :
    (a : Fixed)
    → not (fixed_is_nan a) ≡ true
    → fixed_ge a (tenth 0) ≡ true
    → (fixed_from_secs a ≡ none) ↔ (fixed_ge a (tenth (10 * 2 ^ 64)) ≡ true)
fixed-from_secs_iff nan h k = cc
fixed-from_secs_iff (tenth n) h k = ground arith

abbrev pub fixed : Floats
fixed = record {
  F64 = Fixed;
  is_nan = fixed_is_nan;
  ge = fixed_ge;
  lt = fixed_lt;
  of_ℕ = λ n. tenth (10 * n);
  tenths = tenth;
  of_ℕ-is_nan = λ n. refl;
  ge-of_ℕ = fixed-ge-of_ℕ;
  lt-of_ℕ = fixed-lt-of_ℕ;
  ge_of_not_lt = fixed-ge_of_not_lt;
  not_lt_of_ge = fixed-not_lt_of_ge;
  is_finite = λ a. not (fixed_is_nan a);
  from_secs = fixed_from_secs;
  from_secs_iff = fixed-from_secs_iff;
  ge_trans = fixed-ge_trans;
}
