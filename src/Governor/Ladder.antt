-- ===== src/Governor/Ladder.antt =====
-- When background work may run, as conditions on the load and the idle time.
use m3_core_rs.Base.{◌≡◌, ◌⊎◌, ◌↔◌, ◌≢◌, true, false, none, some, arith, Floats}
use m3_core_rs.Governor.{GovernorConfig, halted, throttled, continuous, decide}
use m3_core_rs.Governor.Config.{IsValid}

module _ (fl : Floats) where
  open fl use {
    F64, is_nan, ge, lt, of_ℕ, of_ℕ-is_nan, ge-of_ℕ, lt-of_ℕ, ge_of_not_lt, not_lt_of_ge, ge_trans,
  }

  -- Under a valid configuration background work runs continuously exactly when both readings are
  -- numbers, the load is below the throttling threshold and the last interaction is at least a
  -- minute back.
  pub continuous_iff :
      (c : GovernorConfig) (load elapsed : F64)
      → IsValid c
      → ((decide fl c load elapsed).mode ≡ continuous) ↔ (
          (is_nan load ≡ false)
          × (is_nan elapsed ≡ false)
          × (ge load (of_ℕ c.initial_limit) ≡ false)
          × (ge elapsed (of_ℕ 60) ≡ true))
  unfolding decide
  continuous_iff c load elapsed v = (
    λ e. ground (
      arith,
      ge-of_ℕ 100 c.initial_limit,
      lt-of_ℕ 0 30,
      of_ℕ-is_nan 60,
      ge_of_not_lt elapsed (of_ℕ 60),
    ),
    λ h. ground (
      arith,
      ge-of_ℕ 60 30,
      ge-of_ℕ c.limit_threshold c.initial_limit,
      ge_trans elapsed (of_ℕ 60) (of_ℕ 30),
      not_lt_of_ge elapsed (of_ℕ 30),
      not_lt_of_ge elapsed (of_ℕ 60),
      ge_trans load (of_ℕ c.limit_threshold) (of_ℕ c.initial_limit),
    ),
  )

  -- A load that is no number stops or throttles: with the critical threshold on it halts background
  -- work and delays interactive work by 30 s, and with it off it throttles.
  nan_load :
      (c : GovernorConfig) (load elapsed : F64)
      → IsValid c
      → is_nan load ≡ true
      → let p = decide fl c load elapsed in
        ((c.limit_threshold ≢ 100)
          × (p.mode ≡ halted)
          × (p.background_delay ≡ none)
          × (p.interactive_delay ≡ of_ℕ 30))
        ⊎ ((c.limit_threshold ≡ 100) × (p.mode ≡ throttled) × (p.background_delay ≡ some (of_ℕ 10)))
  unfolding decide
  nan_load c load elapsed v e =
      ground (arith, ge-of_ℕ 100 c.limit_threshold, ge-of_ℕ 100 c.initial_limit)
