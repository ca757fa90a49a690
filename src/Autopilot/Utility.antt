-- ===== src/Autopilot/Utility.antt =====
-- impl/src/autopilot/AutopilotUtility.cpp and impl/include/rcplane/autopilot/AutopilotUtility.hpp:
-- the mapping of stick positions to the configured ranges, and the bounds on the controller's output.
pub mod Sticks
pub mod Overshoot
pub mod Limits
use rc_plane.Base.{ℕ, ◌+◌, ◌<◌, ◌≤◌, ◌≡◌, Bool, if◌then◌else◌}
use rc_plane.Base.Int.{
  ℤ, pos, negsuc, pos_part, neg_part, ◌+ℤ◌, ◌-ℤ◌, ◌*ℤ◌, ◌/ℤ◌, negate, to_uint8, to_int8, ltb_ℤ,
  IsInt8,
}
use rc_plane.Double.{Double}

pub record AutopilotUtility : Type 0 where
  pub max_throttle : ℕ
  pub max_aileron_deflection : ℤ
  pub max_elevator_deflection : ℤ
  pub max_rudder_deflection : ℤ

-- The body of the template `bindToRange`, in `int`; its result is converted to `T` on return.
unfoldable pub bind_to_range : ℤ → ℤ → ℤ → ℤ → ℤ → ℤ
bind_to_range value input_min input_max output_min output_max =
    (value -ℤ input_min) *ℤ (output_max -ℤ output_min) /ℤ (input_max -ℤ input_min) +ℤ output_min

-- Its instance at `int8_t`, whose arguments are converted to `int8_t` too.
unfoldable pub bind_to_int8 : ℤ → ℤ → ℤ → ℤ → ℤ → ℤ
unfolding bind_to_range
bind_to_int8 value input_min input_max output_min output_max = to_int8 (
    bind_to_range (to_int8 value) (to_int8 input_min) (to_int8 input_max) (to_int8 output_min)
      (to_int8 output_max))

unfoldable pub bind_rc_throttle : AutopilotUtility → ℕ → ℕ
unfolding bind_to_range
bind_rc_throttle u value =
    to_uint8 (bind_to_range (pos value) (pos 0) (pos 100) (pos 0) (pos u.max_throttle))

unfoldable pub bind_rc_aileron_deflection : AutopilotUtility → ℤ → ℤ
unfolding bind_to_int8
bind_rc_aileron_deflection u value =
    bind_to_int8 value (negsuc 99) (pos 100) (negate u.max_aileron_deflection)
      u.max_aileron_deflection

unfoldable pub bind_rc_elevator_deflection : AutopilotUtility → ℤ → ℤ
unfolding bind_to_int8
bind_rc_elevator_deflection u value =
    bind_to_int8 value (negsuc 99) (pos 100) (negate u.max_elevator_deflection)
      u.max_elevator_deflection

unfoldable pub bind_rc_rudder_deflection : AutopilotUtility → ℤ → ℤ
unfolding bind_to_int8
bind_rc_rudder_deflection u value =
    bind_to_int8 value (negsuc 99) (pos 100) (negate u.max_rudder_deflection)
      u.max_rudder_deflection

-- The bound is an `int8_t`, and is compared and returned as a `double`.
unfoldable pub bind_pid_aileron_deflection : {F : Type 0} ⦃d : Double F⦄ → AutopilotUtility → F → F
bind_pid_aileron_deflection ⦃d⦄ u value =
    let max = u.max_aileron_deflection in
    if d.lt (d.of_int max) value
    then d.of_int max
    else if d.lt value (d.of_int (negate max))
    then d.of_int (negate max)
    else value

-- `-c_maxElevatorDeflection` is an `int`, and is converted to `int8_t` when it is returned.
unfoldable pub bind_pid_elevator_deflection : AutopilotUtility → ℤ → ℤ
bind_pid_elevator_deflection u value =
    let max = u.max_elevator_deflection in
    if ltb_ℤ max value
    then max
    else if ltb_ℤ value (negate max)
    then to_int8 (negate max)
    else value
