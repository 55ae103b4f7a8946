-- ===== src/Errors.antt =====
-- crates/m3-error/src/lib.rs: the error type that the crates share, and its text.
use m3_core_rs.Base.{
  ℕ, zero, suc, ◌+◌, ◌/◌, ◌%◌, Option, none, some, [], ◌∷◌, ◌++◌, ltb, if◌then◌else◌, Text, ascii,
}

-- An `io::Error` is its kind and its message.
pub data M3Error : Type 0 where
  vector_dim_mismatch : ℕ → ℕ → Option ℕ → M3Error
  database_locked : M3Error
  input_too_long : ℕ → ℕ → Option ℕ → M3Error
  backend : Text → M3Error
  io : ℕ → Text → M3Error
  config : Text → M3Error
  parity : Text → Text → M3Error
  other : Text → M3Error

pub data Result {ℓ} (A : Type ℓ) : Type ℓ where
  ok : A → Result A
  err : M3Error → Result A

decimal_fuel : ℕ → ℕ → Text
decimal_fuel zero n = []
decimal_fuel (suc f) n =
    let more = decimal_fuel f (n / 10) in
    if ltb n 10 then (b'0' + n) ∷ [] else more ++ (b'0' + n % 10) ∷ []

-- `{n}` of a format string; a number has fewer digits than one more than itself.
unfoldable pub decimal : ℕ → Text
unfolding decimal_fuel
decimal n = decimal_fuel (suc n) n

at_index : Text → Option ℕ → Text → Text
at_index before none after = []
at_index before (some i) after = before ++ decimal i ++ after

-- `Display`.
unfoldable pub display : M3Error → Text
unfolding at_index decimal
display (vector_dim_mismatch expected got index) =
    ascii "vector dimension mismatch: expected "
    ++ decimal expected
    ++ ascii ", got "
    ++ decimal got
    ++ at_index (ascii " at row ") index []
display database_locked = ascii "database locked"
display (input_too_long tokens n_ctx index) =
    ascii "input too long: "
    ++ decimal tokens
    ++ ascii " tokens > n_ctx "
    ++ decimal n_ctx
    ++ at_index (ascii " (input ") index (ascii ")")
display (backend m) = ascii "backend error: " ++ m
display (io kind m) = ascii "io error: " ++ m
display (config m) = ascii "config error: " ++ m
display (parity context detail) = ascii "parity violation in " ++ context ++ ascii ": " ++ detail
display (other m) = m

-- `Clone`: an `io::Error` is made again from its kind and its message.
unfoldable pub clone : M3Error → M3Error
clone (vector_dim_mismatch expected got index) = vector_dim_mismatch expected got index
clone database_locked = database_locked
clone (input_too_long tokens n_ctx index) = input_too_long tokens n_ctx index
clone (backend m) = backend m
clone (io kind m) = io kind m
clone (config m) = config m
clone (parity context detail) = parity context detail
clone (other m) = other m
