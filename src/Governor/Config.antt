-- ===== src/Governor/Config.antt =====
-- The clamps of the governor's thresholds.
use m3_core_rs.Base.{ℕ, ◌≤◌, ◌<◌, ◌≡◌, ℤ, pos, negsuc, arith}
use m3_core_rs.Governor.{GovernorConfig, new}

-- Both thresholds lie in their ranges, and the throttling one lies below the critical one.
pub record IsValid (c : GovernorConfig) : Type 0 where
  pub initial_low : 10 ≤ c.initial_limit
  pub initial_high : c.initial_limit ≤ 99
  pub limit_low : 20 ≤ c.limit_threshold
  pub limit_high : c.limit_threshold ≤ 100
  pub ordered : c.initial_limit < c.limit_threshold

-- Whatever integers are given, `new` yields thresholds in their ranges (10 to 99 and 20 to 100),
-- the throttling one strictly below the critical one; thresholds that are in range and in order
-- already are kept as they are.
new-IsValid :
    (initial limit : ℤ) (i l : ℕ)
    → IsValid (record { initial_limit = i; limit_threshold = l })
    → IsValid (new initial limit)
      × (new (pos i) (pos l) ≡ record { initial_limit = i; limit_threshold = l })
unfolding new
new-IsValid (pos m) (pos n) i l v = (ground arith, ground arith)
new-IsValid (pos m) (negsuc n) i l v = (ground arith, ground arith)
new-IsValid (negsuc m) (pos n) i l v = (ground arith, ground arith)
new-IsValid (negsuc m) (negsuc n) i l v = (ground arith, ground arith)
