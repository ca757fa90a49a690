-- ===== src/Autopilot/Stabilize/Pitch.antt =====
-- The pitch controller: its integral is kept in an `int8_t`.
use rc_plane.Base.{
  ◌≡◌, refl, ap, Option, some, List, [], ◌∷◌, arith, >>=-eq-some, some_pair, sym, ◌>>=◌, All,
}
use mathlib.Core.Option.{some-injective}
use rc_plane.Base.Int.{
  ℤ, pos, pos_part, negate, negate_parts, clamp, clamp-IsWithin, clamp_self, IsInt8, IsWithin,
  IsLimit,
}
use rc_plane.Double.{Double, IsIeee, cast_int8, cast_int8-of_int, cast_int8-IsInt8}
use rc_plane.Autopilot.Stabilize.{
  StabilizeAutopilot, bind_integral_error, pitch_output, after_pitch,
  compute_pitch_to_elevator_deflection,
}

module _ {F : Type 0} ⦃d : Double F⦄ where
  -- Successive pitch angles, each a call of the controller.
  unfoldable pub pitch_run : StabilizeAutopilot F → List F → Option (StabilizeAutopilot F)
  pitch_run s [] = some s
  pitch_run s (angle ∷ angles) = do
    (_, s') ← compute_pitch_to_elevator_deflection s angle
    pitch_run s' angles

module _ {F : Type 0} ⦃d : Double F⦄ (laws : IsIeee F) where
  cast_int8-neg : (m : ℤ) → IsLimit m → cast_int8 (d.neg (d.of_int m)) ≡ some (negate m)
  unfolding cast_int8
  cast_int8-neg m h =
      rw (laws.trunc-neg, laws.trunc-of_int m (omega arith)) (ground (arith, negate_parts m))

  -- For a configured maximum that is an integer from 0 to 127 the bound is the clamp, and defined.
  bind_integral_error-clamp :
      (s : StabilizeAutopilot F) (m z : ℤ)
      → s.max_integral_error ≡ d.of_int m
      → IsLimit m
      → IsInt8 z
      → bind_integral_error s z ≡ some (clamp m z)
  unfolding bind_integral_error clamp
  bind_integral_error-clamp s m z e h i =
      rw
        (
          e,
          laws.lt-of_int m z (omega arith) (omega arith),
          laws.lt-of_int-neg z m (omega arith) (omega arith),
          cast_int8-of_int laws m (omega arith),
          cast_int8-neg m h,
        )
        (ground arith)

  -- What one step of the pitch controller does, when its two conversions are defined: the new
  -- integral is the integer part of the sum, clamped.
  pub pitch_step :
      (s : StabilizeAutopilot F) (angle : F) (m sum deflection : ℤ)
      → s.max_integral_error ≡ d.of_int m
      → IsLimit m
      → cast_int8 (d.add s.pitch_integral_error (d.sub s.desired_pitch_angle angle)) ≡ some sum
      → cast_int8 (pitch_output s (d.sub s.desired_pitch_angle angle) (d.of_int (clamp m sum)))
        ≡ some deflection
      → compute_pitch_to_elevator_deflection s angle
        ≡ some (deflection, after_pitch s (d.sub s.desired_pitch_angle angle) (clamp m sum))
  unfolding compute_pitch_to_elevator_deflection
  pitch_step s angle m sum deflection e h ps po =
      rw (ps, bind_integral_error-clamp s m sum e h (cast_int8-IsInt8 _ ps), po)

  -- The converse: a step that is defined converts the sum and the output.
  pub pitch_inversion :
      (s s' : StabilizeAutopilot F) (angle : F) (m deflection : ℤ)
      → s.max_integral_error ≡ d.of_int m
      → IsLimit m
      → compute_pitch_to_elevator_deflection s angle ≡ some (deflection, s')
      → (sum : ℤ) × (cast_int8 (d.add s.pitch_integral_error (d.sub s.desired_pitch_angle angle))
          ≡ some sum)
        × IsInt8 deflection
        × (s' ≡ after_pitch s (d.sub s.desired_pitch_angle angle) (clamp m sum))
  unfolding compute_pitch_to_elevator_deflection
  pitch_inversion s s' angle m deflection e h step =
      let error = d.sub s.desired_pitch_angle angle in
      let (sum, ps, rest) = >>=-eq-some (cast_int8 (d.add s.pitch_integral_error error)) _ step in
      let (bounded, pb, rest') = >>=-eq-some (bind_integral_error s sum) _ rest in
      let (out, po, done) =
        >>=-eq-some (cast_int8 (pitch_output s error (d.of_int bounded))) _ rest' in
      let clamped = bind_integral_error-clamp s m sum e h (cast_int8-IsInt8 _ ps) in
      let (same, after) = some_pair out deflection (after_pitch s error bounded) s' done in
      let at_clamp : bounded ≡ clamp m sum = cc in
      (sum, ps, rw (← same) (cast_int8-IsInt8 _ po), rw (← at_clamp) (sym after))

  -- If the configured maximum is an integer from 0 to 127, a step of the pitch controller that is
  -- defined leaves an integral that is an integer within the maximum, whatever it was before, and
  -- returns a deflection of eight bits.
  pub pitch_integral-IsWithin :
      (s s' : StabilizeAutopilot F) (angle : F) (m deflection : ℤ)
      → s.max_integral_error ≡ d.of_int m
      → IsLimit m
      → compute_pitch_to_elevator_deflection s angle ≡ some (deflection, s')
      → (n : ℤ) × (s'.pitch_integral_error ≡ d.of_int n)
        × IsWithin (pos_part m) n
        × IsInt8 deflection
  unfolding after_pitch
  pitch_integral-IsWithin s s' angle m deflection e h step =
      let (sum, _, fits, after) = pitch_inversion s s' angle m deflection e h step in
      (clamp m sum, ap (λ t. t.pitch_integral_error) after, clamp-IsWithin m sum h, fits)

  -- One such step, with an integral of 0 and a sum whose integer part is 0.
  pitch_step_zero :
      (s s₁ : StabilizeAutopilot F) (angle : F) (m deflection : ℤ)
      → s.max_integral_error ≡ d.of_int m
      → IsLimit m
      → s.pitch_integral_error ≡ d.of_int (pos 0)
      → d.trunc (d.add (d.of_int (pos 0)) (d.sub s.desired_pitch_angle angle)) ≡ some (pos 0)
      → compute_pitch_to_elevator_deflection s angle ≡ some (deflection, s₁)
      → s₁ ≡ after_pitch s (d.sub s.desired_pitch_angle angle) (pos 0)
  unfolding cast_int8
  pitch_step_zero s s₁ angle m deflection e h z small step =
      let error = d.sub s.desired_pitch_angle angle in
      let (sum, ps, _, after) = pitch_inversion s s₁ angle m deflection e h step in
      let at_zero : cast_int8 (d.add s.pitch_integral_error error) ≡ some (pos 0) =
        rw (z, cast_int8, small) refl in
      let zero_sum : sum ≡ pos 0 = cc in
      let zero_clamp : clamp m sum ≡ pos 0 = rw zero_sum (clamp_self m (pos 0) h (omega arith)) in
      rw (← zero_clamp) after

  -- Under a maximum that is an integer from 0 to 127, errors whose integer part is 0 are dropped by the
  -- conversion: an integral of 0 stays 0 over any number of them, if the steps are defined.
  pub pitch_integral_stuck :
      (s s' : StabilizeAutopilot F) (angles : List F) (m : ℤ)
      → s.max_integral_error ≡ d.of_int m
      → IsLimit m
      → s.pitch_integral_error ≡ d.of_int (pos 0)
      → All
          (λ angle.
            d.trunc (d.add (d.of_int (pos 0)) (d.sub s.desired_pitch_angle angle)) ≡ some (pos 0))
          angles
      → pitch_run s angles ≡ some s'
      → s'.pitch_integral_error ≡ d.of_int (pos 0)
  unfolding pitch_run after_pitch
  pitch_integral_stuck s s' [] m e h z small run = rw (← some-injective _ _ run) z
  pitch_integral_stuck s s' (angle ∷ angles) m e h z (first, small) run =
      let ((deflection, s₁), step, rest) =
        >>=-eq-some (compute_pitch_to_elevator_deflection s angle) _ run in
      let after = pitch_step_zero s s₁ angle m deflection e h z first step in
      let error = d.sub s.desired_pitch_angle angle in
      pitch_integral_stuck (after_pitch s error (pos 0)) s' angles m e h refl small
        (rw after at rest)
