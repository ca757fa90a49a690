-- ===== src/Autopilot/Stabilize/Roll.antt =====
-- The roll controller: its output stays within the configured deflection.
use rc_plane.Base.{◌≡◌, refl, inl, inr, false, none, some, arith, Bool-cases}
use rc_plane.Base.Int.{
  ℤ, pos_part, ◌≤ℤ◌, negate, negate_parts, IsWithin-between, IsInt8, IsWithin, IsLimit,
}
use rc_plane.Double.{Double, IsIeee, IsNumber, cast_int8, cast_int8-of_int}
use rc_plane.Autopilot.Utility.{AutopilotUtility, bind_pid_aileron_deflection}
use rc_plane.Autopilot.Stabilize.{
  StabilizeAutopilot, roll_output, after_roll, compute_roll_to_aileron_deflection,
}

module _ {F : Type 0} ⦃d : Double F⦄ (laws : IsIeee F) where
  -- The conversion of a number that lies between two integers of eight bits.
  pub cast_int8_between :
      (a b : ℤ) (x : F)
      → IsInt8 a
      → IsInt8 b
      → IsNumber x
      → d.lt x (d.of_int a) ≡ false
      → d.lt (d.of_int b) x ≡ false
      → (n : ℤ) × (cast_int8 x ≡ some n) × (a ≤ℤ n) × (n ≤ℤ b)
  unfolding cast_int8
  cast_int8_between a b x ha hb num lo hi =
      let (n, e, p, q) = laws.trunc_between a b x (omega arith) (omega arith) num lo hi in
      (n, ground arith, p, q)

  -- Every number is bounded to an integer part within the limit.
  pub cast_int8-bind_pid_aileron_deflection :
      (u : AutopilotUtility) (x : F)
      → IsLimit u.max_aileron_deflection
      → IsNumber x
      → (n : ℤ) × (cast_int8 (bind_pid_aileron_deflection u x) ≡ some n)
        × IsWithin (pos_part u.max_aileron_deflection) n
  unfolding bind_pid_aileron_deflection
  cast_int8-bind_pid_aileron_deflection u x h num =
      let max = u.max_aileron_deflection in
      elim (Bool-cases (d.lt (d.of_int max) x)) [
        | inl above ↦ (max, rw above (cast_int8-of_int laws max (omega arith)), omega arith)
        | inr in_top ↦ elim (Bool-cases (d.lt x (d.of_int (negate max)))) [
          | inl below ↦ (
            negate max,
            rw (in_top, below)
                (cast_int8-of_int laws (negate max) (omega (arith, negate_parts max))),
            omega (arith, negate_parts max),
          )
          | inr in_bottom ↦
              let (n, e, lo, hi) =
                cast_int8_between (negate max) max x (omega (arith, negate_parts max)) (omega arith)
                  num in_bottom in_top in
              (n, rw (in_top, in_bottom) e, IsWithin-between max n h lo hi)
        ]
      ]

  -- Under a limit from 0 to 127, a controller output that is a number gives a deflection within the
  -- limit, whatever the state and the angle.
  pub roll-IsWithin :
      (s : StabilizeAutopilot F) (angle : F)
      → IsLimit s.utility.max_aileron_deflection
      → IsNumber (roll_output s (d.sub s.desired_roll_angle angle))
      → (n : ℤ) × (compute_roll_to_aileron_deflection s angle
          ≡ some (n, after_roll s (d.sub s.desired_roll_angle angle)))
        × IsWithin (pos_part s.utility.max_aileron_deflection) n
  unfolding compute_roll_to_aileron_deflection
  roll-IsWithin s angle h num =
      let error = d.sub s.desired_roll_angle angle in
      let (n, e, within) =
        cast_int8-bind_pid_aileron_deflection s.utility (roll_output s error) h num in
      (n, rw e refl, within)

  -- A controller output that is NaN passes the bounds, and its conversion to `int8_t` is undefined.
  pub roll_nan :
      (s : StabilizeAutopilot F) (angle : F)
      → (output : F) → output ≡ roll_output s (d.sub s.desired_roll_angle angle)
      → d.eq output output ≡ false
      → compute_roll_to_aileron_deflection s angle ≡ none
  unfolding compute_roll_to_aileron_deflection bind_pid_aileron_deflection cast_int8
  roll_nan s angle x e h =
      let max = s.utility.max_aileron_deflection in
      rw (
        ← e,
        (laws.lt_nan x (d.of_int max) h).1,
        (laws.lt_nan x (d.of_int (negate max)) h).0,
        laws.trunc_nan x h,
      )
