-- ===== src/Tests/Controllers.antt =====
-- The controllers at concrete angles.
use rc_plane.Base.{ℕ, All, ◌≤◌, ◌≡◌, refl, false, Option, none, some, List, [], ◌∷◌, arith}
use rc_plane.Base.Int.{ℤ, pos, negsuc, IsWithin, IsInt8}
use rc_plane.Double.{IsNumber}
use rc_plane.Double.Fixed.{Fixed, fixed_double, Fixed-IsIeee}
use rc_plane.Autopilot.Stabilize.{
  StabilizeAutopilot, roll_output, after_roll, after_pitch, compute_roll_to_aileron_deflection,
  compute_pitch_to_elevator_deflection,
}
use rc_plane.Autopilot.Stabilize.Pitch.{pitch_integral-IsWithin, pitch_integral_stuck, pitch_run}
use rc_plane.Tests.Data.{gains, stabilizer}

-- 30 degrees of roll ask for more than the limit of 35.
roll_at_30 :
    roll_output stabilizer (fixed_double.sub (some (pos 0)) (some (pos 30000)))
    ≡ some (negsuc 105299)
unfolding roll_output rc_plane.Base.Int.◌*ℤ◌ rc_plane.Base.Int.◌+ℤ◌ rc_plane.Base.Int.◌/ℤ◌
    rc_plane.Base.Int.◌-ℤ◌
roll_at_30 = refl

roll_at_30-IsNumber :
    IsNumber (roll_output stabilizer (fixed_double.sub (some (pos 0)) (some (pos 30000))))
roll_at_30-IsNumber = rw roll_at_30 refl

-- A reading that is NaN.
roll_at_nan : none ≡ roll_output stabilizer (fixed_double.sub (some (pos 0)) none)
unfolding roll_output
roll_at_nan = refl

max_integral : gains.max_integral_error ≡ fixed_double.of_int (pos 20)
unfolding rc_plane.Base.Int.◌*ℤ◌
max_integral = refl

abbrev pitched : StabilizeAutopilot Fixed
pitched = record stabilizer {
  pitch_integral_error = some (pos 20000);
  prev_pitch_error = some (pos 25000);
}

pitch_at_25 :
    compute_pitch_to_elevator_deflection stabilizer (some (negsuc 24999)) ≡ some (pos 37, pitched)
unfolding compute_pitch_to_elevator_deflection rc_plane.Double.cast_int8 rc_plane.Base.Int.◌/ℤ◌
    rc_plane.Base.Int.◌+ℤ◌ rc_plane.Base.Int.◌-ℤ◌ rc_plane.Autopilot.Stabilize.bind_integral_error
    rc_plane.Base.Int.◌*ℤ◌ rc_plane.Autopilot.Stabilize.pitch_output after_pitch
pitch_at_25 = refl

pitch_integral-IsWithin_example :
    (n : ℤ) × (pitched.pitch_integral_error ≡ fixed_double.of_int n)
    × IsWithin 20 n
    × IsInt8 (pos 37)
pitch_integral-IsWithin_example =
    pitch_integral-IsWithin Fixed-IsIeee stabilizer pitched (some (negsuc 24999)) (pos 20) (pos 37)
      max_integral (omega arith) pitch_at_25

-- Half a degree, three times.
abbrev small_angles : List Fixed
small_angles = some (pos 500) ∷ some (pos 500) ∷ some (pos 500) ∷ []

abbrev unmoved : StabilizeAutopilot Fixed
unmoved = record stabilizer { prev_pitch_error = some (negsuc 499) }

small_run : pitch_run stabilizer small_angles ≡ some unmoved
unfolding pitch_run compute_pitch_to_elevator_deflection rc_plane.Double.cast_int8
    rc_plane.Base.Int.◌/ℤ◌ rc_plane.Base.Int.◌+ℤ◌ rc_plane.Base.Int.◌-ℤ◌
    rc_plane.Autopilot.Stabilize.bind_integral_error rc_plane.Base.Int.◌*ℤ◌ rc_plane.Base.Int.negate
    rc_plane.Autopilot.Stabilize.pitch_output after_pitch
small_run = refl

zero_integral : stabilizer.pitch_integral_error ≡ fixed_double.of_int (pos 0)
unfolding rc_plane.Base.Int.◌*ℤ◌
zero_integral = refl

small_sum :
    fixed_double.trunc (
      fixed_double.add
        (fixed_double.of_int (pos 0))
        (fixed_double.sub (some (pos 0)) (some (pos 500))))
    ≡ some (pos 0)
unfolding rc_plane.Base.Int.◌/ℤ◌ rc_plane.Base.Int.◌+ℤ◌ rc_plane.Base.Int.◌*ℤ◌
    rc_plane.Base.Int.◌-ℤ◌
small_sum = refl

pitch_integral_stuck_example : unmoved.pitch_integral_error ≡ fixed_double.of_int (pos 0)
pitch_integral_stuck_example =
    pitch_integral_stuck Fixed-IsIeee stabilizer unmoved small_angles (pos 20) max_integral
      (omega arith) zero_integral (small_sum, (small_sum, (small_sum, tt))) small_run
