-- ===== src/Governor.antt =====
-- crates/m3-governor/src/lib.rs: the pacing ladder of the background daemons.
pub mod Config
pub mod Ladder
mod Tests
use m3_core_rs.Base.{
  ℕ, ◌-◌, Bool, not, ◌&&◌, Option, none, some, leb, ◌==◌, if◌then◌else◌, ℤ, clamp, Floats, Text,
  ascii,
}

pub data PacingMode : Type 0 where
  halted throttled tapered continuous : PacingMode

unfoldable pub as_str : PacingMode → Text
as_str halted = ascii "HALTED"
as_str throttled = ascii "THROTTLED"
as_str tapered = ascii "TAPERED"
as_str continuous = ascii "CONTINUOUS"

pub record GovernorConfig : Type 0 where
  pub initial_limit : ℕ
  pub limit_threshold : ℕ

unfoldable pub new : ℤ → ℤ → GovernorConfig
new initial_limit limit_threshold =
    let initial = clamp initial_limit 10 99 in
    let limit = clamp limit_threshold 20 100 in
    record {
      initial_limit = if leb limit initial && not (limit == 100) then limit - 5 else initial;
      limit_threshold = limit;
    }

module _ (fl : Floats) where
  open fl use {F64, is_nan, ge, lt, of_ℕ, tenths}

  pub record Pacing : Type 0 where
    pub mode : PacingMode
    pub background_delay : Option F64
    pub interactive_delay : F64

  -- The branches behind the reading of NaN.
  ladder : GovernorConfig → F64 → F64 → Pacing
  ladder c load elapsed =
      if not (c.limit_threshold == 100) && ge load (of_ℕ c.limit_threshold)
      then record { mode = halted; background_delay = none; interactive_delay = of_ℕ 30 }
      else if ge load (of_ℕ c.initial_limit)
      then record {
        mode = throttled;
        background_delay = some (of_ℕ 10);
        interactive_delay = of_ℕ 0;
      }
      else if lt elapsed (of_ℕ 30)
      then record { mode = halted; background_delay = none; interactive_delay = of_ℕ 0 }
      else if lt elapsed (of_ℕ 60)
      then record { mode = tapered; background_delay = some (of_ℕ 5); interactive_delay = of_ℕ 0 }
      else record {
        mode = continuous;
        background_delay = some (tenths 1);
        interactive_delay = of_ℕ 0;
      }

  unfoldable pub decide : GovernorConfig → F64 → F64 → Pacing
  unfolding ladder
  decide c load elapsed =
      ladder c (if is_nan load then of_ℕ 100 else load) (if is_nan elapsed then of_ℕ 0 else elapsed)
