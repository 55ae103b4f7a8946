-- ===== src/Base/Int.antt =====
-- The signed integers as far as the program uses them, over the native numbers.
use Prim.Native.Nat.{ℕ}
use mathlib.Core.Path.{◌≡◌, refl}
use mathlib.Core.Logic.{◌↔◌}
use mathlib.Core.Bool.{Bool, true, false}
use native.Mathlib.Omega.{arith}
use m3_core_rs.Base.Tests.{ltb, leb, ◌==◌, if◌then◌else◌}

-- `negsuc n` is -(n + 1).
pub data ℤ : Type 0 where
  pos : ℕ → ℤ
  negsuc : ℕ → ℤ

abbrev pub pos_part : ℤ → ℕ
pos_part (pos n) = n
pos_part (negsuc n) = 0

-- `clamp(lo, hi)` with bounds that are not negative, and `as u32` behind it.
abbrev pub clamp : ℤ → ℕ → ℕ → ℕ
clamp a lo hi = if ltb (pos_part a) lo then lo else if ltb hi (pos_part a) then hi else pos_part a

abbrev pub int_eq : ℤ → ℤ → Bool
int_eq (pos m) (pos n) = m == n
int_eq (pos m) (negsuc n) = false
int_eq (negsuc m) (pos n) = false
int_eq (negsuc m) (negsuc n) = m == n

pub int_eq_iff : (a b : ℤ) → (int_eq a b ≡ true) ↔ (a ≡ b)
int_eq_iff (pos m) (pos n) = ground arith
int_eq_iff (pos m) (negsuc n) = (λ e. cc, λ e. cc)
int_eq_iff (negsuc m) (pos n) = (λ e. cc, λ e. cc)
int_eq_iff (negsuc m) (negsuc n) = ground arith

abbrev pub int_le : ℤ → ℤ → Bool
int_le (pos m) (pos n) = leb m n
int_le (pos m) (negsuc n) = false
int_le (negsuc m) (pos n) = true
int_le (negsuc m) (negsuc n) = leb n m

pub int_le_total : (a b : ℤ) → int_le a b ≡ false → int_le b a ≡ true
int_le_total (pos m) (pos n) h = ground arith
int_le_total (pos m) (negsuc n) h = refl
int_le_total (negsuc m) (pos n) h = cc
int_le_total (negsuc m) (negsuc n) h = ground arith

pub int_le_trans : (a b c : ℤ) → int_le a b ≡ true → int_le b c ≡ true → int_le a c ≡ true
int_le_trans (pos m) (pos n) (pos o) h k = ground arith
int_le_trans (pos m) (pos n) (negsuc o) h k = cc
int_le_trans (pos m) (negsuc n) c h k = cc
int_le_trans (negsuc m) (pos n) (pos o) h k = refl
int_le_trans (negsuc m) (pos n) (negsuc o) h k = cc
int_le_trans (negsuc m) (negsuc n) (pos o) h k = refl
int_le_trans (negsuc m) (negsuc n) (negsuc o) h k = ground arith

pub int_le_antisym : (a b : ℤ) → int_le a b ≡ true → int_le b a ≡ true → a ≡ b
int_le_antisym (pos m) (pos n) h k = let e : m ≡ n = ground arith in rw e refl
int_le_antisym (pos m) (negsuc n) h k = cc
int_le_antisym (negsuc m) (pos n) h k = cc
int_le_antisym (negsuc m) (negsuc n) h k = let e : m ≡ n = ground arith in rw e refl
