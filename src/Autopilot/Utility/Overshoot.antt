-- ===== src/Autopilot/Utility/Overshoot.antt =====
-- What the stick mappings return for positions beyond 100, which they do not cut off.
use rc_plane.Base.{ℕ, ◌+◌, ◌-◌, ◌*◌, ◌/◌, ◌≤◌, ◌<◌, ◌≡◌, ◌↔◌, ap, arith}
use rc_plane.Base.Int.{pos, sub_ℕ, to_uint8, to_int8_self}
use rc_plane.Autopilot.Utility.{AutopilotUtility, bind_rc_throttle, bind_rc_aileron_deflection}
use rc_plane.Autopilot.Utility.Sticks.{bind_to_range-throttle, bind_to_int8-deflection}

overshoot_quotient :
    (v m : ℕ) → 100 < v → sub_ℕ ((v + 100 - 0) * m / 100) m ≡ pos (m + (v - 100) * m / 100)
overshoot_quotient v m lo =
    let e : v + 100 - 0 ≡ 200 + (v - 100) = omega arith in ground (arith, ap (λ (t : ℕ). t * m) e)

overshoot_fits : (v m : ℕ) → m ≤ 100 → v ≤ 127 → m + (v - 100) * m / 100 ≤ 127
overshoot_fits v m h k = omega (arith, product (v - 100) m (omega arith) h)
  where
    product : (x m : ℕ) → x ≤ 27 → m ≤ 100 → x * m ≤ 2700
    product x m h k = grind arith

beyond : (m x : ℕ) → (m < m + x / 100) ↔ (100 ≤ x)
beyond m x = ground arith

-- A stick v from 101 to 127 is not cut off: with a limit m of at most 100, the deflection is
-- m + (v - 100) * m / 100, which is beyond the limit exactly if (v - 100) * m is at least 100.
pub aileron_overshoot :
    (u : AutopilotUtility) (v m : ℕ)
    → u.max_aileron_deflection ≡ pos m
    → m ≤ 100
    → 100 < v
    → v ≤ 127
    → (bind_rc_aileron_deflection u (pos v) ≡ pos (m + (v - 100) * m / 100))
      × ((m < m + (v - 100) * m / 100) ↔ (100 ≤ (v - 100) * m))
unfolding bind_rc_aileron_deflection
aileron_overshoot u v m e h lo hi = (
  rw (e, bind_to_int8-deflection (pos v) m (omega arith) (omega arith) (omega arith))
      (rw (overshoot_quotient v m lo)
        (to_int8_self (pos (m + (v - 100) * m / 100)) (overshoot_fits v m h hi, omega arith))),
  beyond m ((v - 100) * m),
)

-- A throttle position above 100 wraps: at the maximum 255 and 101 ≤ v ≤ 200 the motor gets
-- v * 255 / 100 - 256, which is less than 255.
pub throttle_wraps :
    (u : AutopilotUtility) (v : ℕ)
    → u.max_throttle ≡ 255
    → 100 < v
    → v ≤ 200
    → bind_rc_throttle u v ≡ v * 255 / 100 - 256
unfolding bind_rc_throttle to_uint8
throttle_wraps u v e lo hi = rw (e, bind_to_range-throttle) (omega arith)
