-- ===== src/Vector/Single.antt =====
-- What the index uses of `f32` and of the conversion to `i8`, as a parameter.
use m3_core_rs.Base.{◌≡◌, Bool, true, false, ℤ, Text}

pub record Single : Type 1 where
  pub F32 : Type 0
  -- 0.0, 127.0 and -127.0.
  pub zero_f : F32
  pub peak_code : F32
  pub least_code : F32
  pub add : F32 → F32 → F32
  pub mul : F32 → F32 → F32
  pub div : F32 → F32 → F32
  pub max_f : F32 → F32 → F32
  pub abs : F32 → F32
  pub sqrt : F32 → F32
  pub round : F32 → F32
  pub clamp_f : F32 → F32 → F32 → F32
  pub gt : F32 → F32 → Bool
  pub eq_f : F32 → F32 → Bool
  pub is_finite : F32 → Bool
  pub as_i8 : F32 → ℤ
  pub of_i8 : ℤ → F32
  -- `total_cmp` is Less or Equal. It is a linear order of the bits.
  pub total_le : F32 → F32 → Bool
  pub total_le_total : (x y : F32) → total_le x y ≡ false → total_le y x ≡ true
  pub total_le_trans :
      (x y z : F32) → total_le x y ≡ true → total_le y z ≡ true → total_le x z ≡ true
  pub total_le_antisym : (x y : F32) → total_le x y ≡ true → total_le y x ≡ true → x ≡ y
  -- `{x}` of a format string.
  pub shown : F32 → Text
