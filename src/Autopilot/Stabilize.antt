-- ===== src/Autopilot/Stabilize.antt =====
-- impl/src/autopilot/StabilizeAutopilot.cpp and impl/include/rcplane/autopilot/StabilizeAutopilot.hpp:
-- the controllers that hold roll and pitch. A conversion that is undefined in C++ gives `none`.
-- Each operation rounds by itself: no multiplication and addition are fused.
pub mod Roll
pub mod Pitch
pub mod Envelope
use rc_plane.Base.{ℕ, Bool, Option, none, some, if◌then◌else◌, ◌>>=◌}
use rc_plane.Base.Int.{ℤ, pos}
use rc_plane.Double.{Double, cast_int8}
use rc_plane.Common.Packet.{RcRxPacket, ControlSurfacePacket, ImuPacket}
use rc_plane.Autopilot.Utility.{
  AutopilotUtility, bind_rc_throttle, bind_rc_rudder_deflection, bind_pid_aileron_deflection,
  bind_pid_elevator_deflection,
}

pub record Gains (F : Type 0) : Type 0 where
  pub max_aileron_deflection : F
  pub kp : F
  pub ki : F
  pub kd : F
  pub tau : F
  pub max_integral_error : F

pub record StabilizeAutopilot (F : Type 0) : Type 0 where
  pub utility : AutopilotUtility
  pub gains : Gains F
  pub open gains use {kp, ki, kd, tau, max_integral_error}
  pub prev_roll_error : F
  pub prev_pitch_error : F
  pub roll_derivative_error : F
  pub roll_integral_error : F
  pub pitch_integral_error : F
  pub desired_roll_angle : F
  pub desired_pitch_angle : F

module _ {F : Type 0} ⦃d : Double F⦄ where
  open d use {add, sub, mul, div, neg, lt, of_int, of_float32}

  -- The constructor, once the gains are read: every error and desired angle is `0.0`.
  unfoldable pub stabilize_autopilot : AutopilotUtility → Gains F → StabilizeAutopilot F
  stabilize_autopilot utility gains = record {
    utility = utility;
    gains = gains;
    prev_roll_error = of_int (pos 0);
    prev_pitch_error = of_int (pos 0);
    roll_derivative_error = of_int (pos 0);
    roll_integral_error = of_int (pos 0);
    pitch_integral_error = of_int (pos 0);
    desired_roll_angle = of_int (pos 0);
    desired_pitch_angle = of_int (pos 0);
  }

  -- `timestamp`: 0.04 is the `double` nearest to the quotient, which is what `/` returns.
  abbrev pub timestamp : F
  timestamp = div (of_int (pos 4)) (of_int (pos 100))

  abbrev two : F
  two = of_int (pos 2)

  -- The two updates and the sum before the output is bounded.
  unfoldable pub roll_integral : StabilizeAutopilot F → F → F
  roll_integral s error =
      add s.roll_integral_error (mul (div timestamp two) (add error s.prev_roll_error))

  unfoldable pub roll_derivative : StabilizeAutopilot F → F → F
  roll_derivative s error =
      let width = add (mul two s.tau) timestamp in
      add (mul (div (sub (mul two s.tau) timestamp) width) s.roll_derivative_error)
        (mul (div two width) (sub error s.prev_roll_error))

  unfoldable pub roll_output : StabilizeAutopilot F → F → F
  unfolding roll_integral roll_derivative
  roll_output s error =
      add (add (mul s.kp error) (mul s.ki (roll_integral s error)))
        (mul s.kd (roll_derivative s error))

  -- The members after the update, with the integral corrected by what the bound cut off.
  unfoldable pub after_roll : StabilizeAutopilot F → F → StabilizeAutopilot F
  after_roll s error =
      let unsaturated_output = roll_output s error in
      let output = bind_pid_aileron_deflection s.utility unsaturated_output in
      record s {
        prev_roll_error = error;
        roll_derivative_error = roll_derivative s error;
        roll_integral_error =
            add (roll_integral s error) (mul (div timestamp s.ki) (sub output unsaturated_output));
      }

  unfoldable pub compute_roll_to_aileron_deflection :
      StabilizeAutopilot F → F → Option (ℤ × StabilizeAutopilot F)
  compute_roll_to_aileron_deflection s roll_angle = do
    let error = sub s.desired_roll_angle roll_angle
    deflection ← cast_int8 (bind_pid_aileron_deflection s.utility (roll_output s error))
    some (deflection, after_roll s error)

  -- The parameter is an `int8_t`, and so is the result.
  unfoldable pub bind_integral_error : StabilizeAutopilot F → ℤ → Option ℤ
  bind_integral_error s integral_error =
      if lt s.max_integral_error (of_int integral_error)
      then cast_int8 s.max_integral_error
      else if lt (of_int integral_error) (neg s.max_integral_error)
      then cast_int8 (neg s.max_integral_error)
      else some integral_error

  unfoldable pub pitch_output : StabilizeAutopilot F → F → F → F
  pitch_output s error integral =
      add (add (mul s.kp error) (mul s.ki integral)) (mul s.kd (sub error s.prev_pitch_error))

  unfoldable pub after_pitch : StabilizeAutopilot F → F → ℤ → StabilizeAutopilot F
  after_pitch s error integral = record s {
    pitch_integral_error = of_int integral;
    prev_pitch_error = error;
  }

  -- The integral is passed as a `double` where an `int8_t` is expected, and converted.
  unfoldable pub compute_pitch_to_elevator_deflection :
      StabilizeAutopilot F → F → Option (ℤ × StabilizeAutopilot F)
  compute_pitch_to_elevator_deflection s pitch_angle = do
    let error = sub s.desired_pitch_angle pitch_angle
    sum ← cast_int8 (add s.pitch_integral_error error)
    bounded ← bind_integral_error s sum
    deflection ← cast_int8 (pitch_output s error (of_int bounded))
    some (deflection, after_pitch s error bounded)

  unfoldable pub trigger :
      StabilizeAutopilot F
      → ControlSurfacePacket
      → RcRxPacket
      → ImuPacket
      → Option (ControlSurfacePacket × StabilizeAutopilot F)
  trigger s packet rc_rx imu = do
    (aileron, s₁) ← compute_roll_to_aileron_deflection s (of_float32 imu.gyro_x)
    (elevator, s₂) ← compute_pitch_to_elevator_deflection s₁ (of_float32 imu.gyro_y)
    some (
      record packet {
        motor_speed = bind_rc_throttle s.utility rc_rx.motor_stick_position;
        aileron_deflection = aileron;
        elevator_deflection = bind_pid_elevator_deflection s.utility elevator;
        rudder_deflection = bind_rc_rudder_deflection s.utility rc_rx.rudder_stick_position;
      },
      s₂,
    )
