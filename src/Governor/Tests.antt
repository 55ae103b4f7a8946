-- ===== src/Governor/Tests.antt =====
-- Decisions at concrete loads, and the theorems at inputs that meet their hypotheses.
use m3_core_rs.Base.{◌≡◌, refl, ◌↔◌, true, false, pos, negsuc, fixed, tenth, arith}
use m3_core_rs.Governor.{GovernorConfig, halted, throttled, tapered, continuous, new, decide}
use m3_core_rs.Governor.Config.{IsValid}
use m3_core_rs.Governor.Ladder.{continuous_iff}

abbrev usual : GovernorConfig
usual = record { initial_limit = 50; limit_threshold = 80 }

usual-IsValid : IsValid usual
usual-IsValid = omega arith

decide_tests :
    ((decide fixed usual (tenth 100) (tenth 900)).mode ≡ continuous)
    × ((decide fixed usual (tenth 100) (tenth 450)).mode ≡ tapered)
    × ((decide fixed usual (tenth 100) (tenth 100)).mode ≡ halted)
    × ((decide fixed usual (tenth 600) (tenth 900)).mode ≡ throttled)
    × ((decide fixed usual (tenth 900) (tenth 900)).mode ≡ halted)
unfolding decide
decide_tests = (refl, refl, refl, refl, refl)

new_test : new (pos 90) (negsuc 3) ≡ record { initial_limit = 15; limit_threshold = 20 }
unfolding new
new_test = refl

continuous_iff_example : ((decide fixed usual (tenth 100) (tenth 900)).mode ≡ continuous) ↔ (
    (fixed.is_nan (tenth 100) ≡ false)
    × (fixed.is_nan (tenth 900) ≡ false)
    × (fixed.ge (tenth 100) (tenth 500) ≡ false)
    × (fixed.ge (tenth 900) (tenth 600) ≡ true))
continuous_iff_example = continuous_iff fixed usual (tenth 100) (tenth 900) usual-IsValid
