-- ===== src/Autopilot/Utility/Sticks.antt =====
-- What the stick mappings return.
use rc_plane.Base.{ℕ, zero, suc, ◌+◌, ◌-◌, ◌*◌, ◌/◌, ◌≤◌, ◌<◌, ◌≡◌, refl, ap, arith}
use rc_plane.Base.Int.{
  ℤ, pos, negsuc, pos_part, neg_part, sub_ℕ, ◌+ℤ◌, ◌-ℤ◌, ◌*ℤ◌, ◌/ℤ◌, negate, to_uint8, to_int8,
  to_int8_self, *ℤ-pos, /ℤ-pos, +ℤ-negate, sub_ℕ_parts, IsInt8, IsWithin, IsLimit,
}
use rc_plane.Autopilot.Utility.{
  AutopilotUtility, bind_to_range, bind_to_int8, bind_rc_throttle, bind_rc_aileron_deflection,
  bind_rc_elevator_deflection, bind_rc_rudder_deflection,
}

-- Up to the full stick the quotient stays in the output range.
scaled-le : (k m : ℕ) → k ≤ 100 → k * m / 100 ≤ m
scaled-le k m h = grind arith

-- The mapping of deflections for a stick that is not below -100.
bind_to_range-deflection :
    (v : ℤ) (m : ℕ)
    → neg_part v ≤ 100
    → bind_to_range v (negsuc 99) (pos 100) (negate (pos m)) (pos m)
      ≡ sub_ℕ ((pos_part v + 100 - neg_part v) * m / 100) m
unfolding bind_to_range
bind_to_range-deflection v m h =
    rw (stick v h, width m, *ℤ-pos, double, /ℤ-pos, +ℤ-negate) (ap (λ q. sub_ℕ q m) (omega arith))
  where
    stick : (v : ℤ) → neg_part v ≤ 100 → v -ℤ negsuc 99 ≡ pos (pos_part v + 100 - neg_part v)
    stick v h = unfold ◌-ℤ◌ in ground arith

    width : (m : ℕ) → pos m -ℤ negate (pos m) ≡ pos (m + m)
    width m = unfold ◌-ℤ◌ negate in ground arith

    double : pos 100 -ℤ negsuc 99 ≡ pos 200
    double = unfold ◌-ℤ◌ in refl

pub bind_to_range-throttle :
    (v m : ℕ) → bind_to_range (pos v) (pos 0) (pos 100) (pos 0) (pos m) ≡ pos (v * m / 100)
unfolding bind_to_range ◌-ℤ◌ ◌*ℤ◌ ◌+ℤ◌ ◌/ℤ◌
bind_to_range-throttle v m = ground arith

-- A throttle position up to 100 is scaled to the configured maximum, rounded down, and so stays
-- within it.
pub bind_rc_throttle_lem :
    (u : AutopilotUtility) (v : ℕ)
    → u.max_throttle < 256
    → v ≤ 100
    → (bind_rc_throttle u v ≡ v * u.max_throttle / 100) × (bind_rc_throttle u v ≤ u.max_throttle)
unfolding bind_rc_throttle to_uint8
bind_rc_throttle_lem u v h k =
    ground (arith, bind_to_range-throttle v u.max_throttle, scaled-le v u.max_throttle)

negate-IsInt8 : (m : ℕ) → m ≤ 127 → IsInt8 (negate (pos m))
unfolding negate
negate-IsInt8 zero h = omega arith
negate-IsInt8 (suc m) h = ground arith

-- The conversions of the arguments to `int8_t` change nothing.
pub bind_to_int8-deflection :
    (v : ℤ) (m : ℕ)
    → IsInt8 v
    → neg_part v ≤ 100
    → m ≤ 127
    → bind_to_int8 v (negsuc 99) (pos 100) (negate (pos m)) (pos m)
      ≡ to_int8 (sub_ℕ ((pos_part v + 100 - neg_part v) * m / 100) m)
unfolding bind_to_int8
bind_to_int8-deflection v m i h k = rw (
  to_int8_self v i,
  to_int8_self (negsuc 99) (omega arith),
  to_int8_self (pos 100) (omega arith),
  to_int8_self (negate (pos m)) (negate-IsInt8 m k),
  to_int8_self (pos m) (omega arith),
  bind_to_range-deflection v m h,
)

quotient_bounds : (k m : ℕ) → k ≤ 200 → k * m / 100 ≤ m + m
quotient_bounds k m h = grind arith

floor-IsWithin : (k m : ℕ) → k ≤ 200 → IsWithin m (sub_ℕ (k * m / 100) m)
floor-IsWithin k m h = ground (arith, quotient_bounds k m)

-- r is the floor of v * m / 100.
abbrev pub IsFloor : ℤ → ℕ → ℤ → Type 0
IsFloor v m r =
    (pos_part r * 100 + neg_part v * m ≤ pos_part v * m + neg_part r * 100)
    × (pos_part v * m + neg_part r * 100 < pos_part r * 100 + neg_part v * m + 100)

shifted :
    (v : ℤ) (m : ℕ)
    → neg_part v ≤ 100
    → (pos_part v + 100 - neg_part v) * m + neg_part v * m ≡ pos_part v * m + 100 * m
shifted v m h =
    let e : pos_part v + 100 - neg_part v + neg_part v ≡ pos_part v + 100 = omega arith in
    omega (arith, ap (λ (t : ℕ). t * m) e)

IsFloor-sub_ℕ :
    (v : ℤ) (m : ℕ)
    → neg_part v ≤ 100
    → IsFloor v m (sub_ℕ ((pos_part v + 100 - neg_part v) * m / 100) m)
IsFloor-sub_ℕ v m h =
    let k = pos_part v + 100 - neg_part v in
    omega (arith, shifted v m h, sub_ℕ_parts (k * m / 100) m)

pub record IsConfigured (u : AutopilotUtility) : Type 0 where
  pub throttle_lt : u.max_throttle < 256
  pub aileron_limit : IsLimit u.max_aileron_deflection
  pub elevator_limit : IsLimit u.max_elevator_deflection
  pub rudder_limit : IsLimit u.max_rudder_deflection

-- r is the floor of v * max / 100, and within max.
abbrev pub IsMapped : ℤ → ℤ → ℤ → Type 0
IsMapped max v r = IsWithin (pos_part max) r × IsFloor v (pos_part max) r

bind_to_int8-IsMapped :
    (v max : ℤ)
    → IsWithin 100 v
    → IsLimit max
    → IsMapped max v (bind_to_int8 v (negsuc 99) (pos 100) (negate max) max)
bind_to_int8-IsMapped v (negsuc m) h k = absurd (omega arith)
bind_to_int8-IsMapped v (pos m) h (k, _) =
    let r = sub_ℕ ((pos_part v + 100 - neg_part v) * m / 100) m in
    let within : IsWithin m r = floor-IsWithin (pos_part v + 100 - neg_part v) m (omega arith) in
    rw (bind_to_int8-deflection v m (omega arith) (omega arith) k, to_int8_self r (omega arith))
      (within, IsFloor-sub_ℕ v m (omega arith))

-- Sticks from -100 to 100 under limits from 0 to 127: each deflection is the floor of
-- stick * limit / 100, and within its limit.
pub bind_rc_deflections :
    (u : AutopilotUtility) (aileron elevator rudder : ℤ)
    → IsConfigured u
    → IsWithin 100 aileron
    → IsWithin 100 elevator
    → IsWithin 100 rudder
    → IsMapped u.max_aileron_deflection aileron (bind_rc_aileron_deflection u aileron)
      × IsMapped u.max_elevator_deflection elevator (bind_rc_elevator_deflection u elevator)
      × IsMapped u.max_rudder_deflection rudder (bind_rc_rudder_deflection u rudder)
bind_rc_deflections u aileron elevator rudder c ka ke kr = (
  unfold bind_rc_aileron_deflection in
      bind_to_int8-IsMapped aileron u.max_aileron_deflection ka c.aileron_limit,
  unfold bind_rc_elevator_deflection in
      bind_to_int8-IsMapped elevator u.max_elevator_deflection ke c.elevator_limit,
  unfold bind_rc_rudder_deflection in
      bind_to_int8-IsMapped rudder u.max_rudder_deflection kr c.rudder_limit,
)
