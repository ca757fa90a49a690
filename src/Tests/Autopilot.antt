-- ===== src/Tests/Autopilot.antt =====
-- The manager and the stick mappings at concrete values.
use rc_plane.Base.{
  Option, ℕ, ◌+◌, ◌-◌, ◌*◌, ◌/◌, ◌≤◌, ◌<◌, ◌≡◌, ◌↔◌, refl, true, false, not, leb, some, List, All,
  [], ◌∷◌, arith,
}
use rc_plane.Base.Int.{pos, negsuc, IsWithin, clamp}
use rc_plane.Double.{cast_int8, IsNumber}
use rc_plane.Double.Fixed.{Fixed, fixed_double, Fixed-IsIeee}
use rc_plane.Common.Packet.{ControlSurfacePacket}
use rc_plane.Autopilot.Utility.{
  bind_rc_throttle, bind_rc_aileron_deflection, bind_rc_elevator_deflection,
  bind_rc_rudder_deflection,
}
use rc_plane.Autopilot.Utility.Overshoot.{aileron_overshoot, throttle_wraps}
use rc_plane.Autopilot.Utility.Limits.{IsInEnvelope}
use rc_plane.Autopilot.Stabilize
use rc_plane.Autopilot.Stabilize.{roll_output, pitch_output, StabilizeAutopilot}
use rc_plane.Autopilot.Manager.{
  AutopilotManager, is_manual, manual, stabilize, autopilot_manager, is_in_manual_mode,
  is_in_stabilize_mode, trigger,
}
use rc_plane.Autopilot.Manager.Flight.{fly, user_regains_control}
use rc_plane.Autopilot.Manager.Modes.{mode_follows_flag, flight}
use rc_plane.Autopilot.Manager.Envelope.{manual_mode, stabilize_mode}
use rc_plane.Tests.Data.{
  utility, utility-IsConfigured, gains, stabilizer, manager, sticks, assisted, sticks-IsNominal,
  assisted-IsNominal, tilted, deflected,
}

aileron_overshoot_example :
    (bind_rc_aileron_deflection utility (pos 120) ≡ pos (35 + (120 - 100) * 35 / 100))
    × ((35 < 35 + (120 - 100) * 35 / 100) ↔ (100 ≤ (120 - 100) * 35))
aileron_overshoot_example =
    aileron_overshoot utility 120 35 refl (omega arith) (omega arith) (omega arith)

throttle_wraps_example : bind_rc_throttle utility 101 ≡ 101 * 255 / 100 - 256
throttle_wraps_example = throttle_wraps utility 101 refl (omega arith) (omega arith)

-- The manager after a packet with assistance.
abbrev pub stabilizing : AutopilotManager Fixed
stabilizing = record {
  manual_autopilot = record { utility = utility };
  stabilize_autopilot = record stabilizer {
    prev_roll_error = some (negsuc 1499);
    prev_pitch_error = some (pos 2250);
    roll_derivative_error = some (negsuc 37499);
    roll_integral_error = some (negsuc 29);
    pitch_integral_error = some (pos 2000);
  };
  autopilot = stabilize;
  prev_state = 128;
}

pub flight_run :
    flight (autopilot_manager utility gains) ((assisted, tilted) ∷ []) ≡ some stabilizing
unfolding flight trigger autopilot_manager Stabilize.trigger
    Stabilize.compute_roll_to_aileron_deflection cast_int8
    rc_plane.Autopilot.Utility.bind_pid_aileron_deflection roll_output rc_plane.Base.Int.◌*ℤ◌
    rc_plane.Base.Int.◌+ℤ◌ rc_plane.Base.Int.◌/ℤ◌ rc_plane.Base.Int.◌-ℤ◌ rc_plane.Base.Int.negate
    Stabilize.compute_pitch_to_elevator_deflection Stabilize.after_roll
    Stabilize.bind_integral_error pitch_output Stabilize.after_pitch
flight_run = refl

pub trigger_run :
    trigger stabilizing sticks tilted
    ≡ some (deflected, record stabilizing { autopilot = manual; prev_state = 0 })
unfolding trigger rc_plane.Autopilot.Manual.trigger bind_rc_throttle bind_rc_aileron_deflection
    bind_rc_elevator_deflection bind_rc_rudder_deflection rc_plane.Base.Int.to_uint8
    rc_plane.Base.Int.to_int8 rc_plane.Base.Int.◌+ℤ◌ rc_plane.Base.Int.◌/ℤ◌ rc_plane.Base.Int.◌*ℤ◌
    rc_plane.Base.Int.◌-ℤ◌ rc_plane.Base.Int.negate
trigger_run = refl

mode_follows_flag_example :
    (is_in_manual_mode (record stabilizing { autopilot = manual; prev_state = 0 }) ≡ true)
    × (is_in_stabilize_mode (record stabilizing { autopilot = manual; prev_state = 0 }) ≡ false)
mode_follows_flag_example =
    mode_follows_flag utility gains ((assisted, tilted) ∷ []) stabilizing
      (record stabilizing { autopilot = manual; prev_state = 0 }) sticks tilted deflected flight_run
      trigger_run (omega arith)

manual_mode_example :
    (out : ControlSurfacePacket) × (m' : AutopilotManager Fixed) × (trigger manager sticks tilted
      ≡ some (out, m'))
    × (m'.stabilize_autopilot ≡ stabilizer)
    × IsInEnvelope utility out
unfolding is_manual
manual_mode_example =
    manual_mode manager sticks tilted refl (omega arith) utility-IsConfigured sticks-IsNominal

-- The output of the roll controller at the tilt is -5.265.
roll_run :
    roll_output stabilizer (fixed_double.sub (some (pos 0)) (fixed_double.of_float32 tilted.gyro_x))
    ≡ some (negsuc 5264)
unfolding roll_output rc_plane.Base.Int.◌*ℤ◌ rc_plane.Base.Int.◌+ℤ◌ rc_plane.Base.Int.◌/ℤ◌
    rc_plane.Base.Int.◌-ℤ◌
roll_run = refl

roll-IsNumber : IsNumber (
    roll_output stabilizer
      (fixed_double.sub (some (pos 0)) (fixed_double.of_float32 tilted.gyro_x)))
roll-IsNumber = rw roll_run refl

pitch_sum :
    cast_int8 (
      fixed_double.add
        (some (pos 0))
        (fixed_double.sub (some (pos 0)) (fixed_double.of_float32 tilted.gyro_y)))
    ≡ some (pos 2)
unfolding cast_int8 rc_plane.Base.Int.◌/ℤ◌ rc_plane.Base.Int.◌+ℤ◌ rc_plane.Base.Int.◌-ℤ◌
pitch_sum = refl

pitch_run_output :
    cast_int8 (
      pitch_output stabilizer
        (fixed_double.sub (some (pos 0)) (fixed_double.of_float32 tilted.gyro_y))
        (fixed_double.of_int (clamp (pos 20) (pos 2))))
    ≡ some (pos 3)
unfolding cast_int8 pitch_output rc_plane.Base.Int.◌/ℤ◌ rc_plane.Base.Int.◌+ℤ◌
    rc_plane.Base.Int.◌*ℤ◌ rc_plane.Base.Int.◌-ℤ◌ clamp rc_plane.Base.Int.negate
pitch_run_output = refl

max_integral : gains.max_integral_error ≡ fixed_double.of_int (pos 20)
unfolding rc_plane.Base.Int.◌*ℤ◌
max_integral = refl

synced : is_manual manager.autopilot ≡ true
unfolding is_manual
synced = refl

stabilize_mode_example :
    (out : ControlSurfacePacket) × (m' : AutopilotManager Fixed) × (trigger manager assisted tilted
      ≡ some (out, m'))
    × (m'.manual_autopilot ≡ manager.manual_autopilot)
    × IsInEnvelope utility out
stabilize_mode_example =
    stabilize_mode Fixed-IsIeee manager assisted tilted (pos 20) (pos 2) (pos 3) synced
      (omega arith) (omega arith) utility-IsConfigured assisted-IsNominal max_integral (omega arith)
      roll-IsNumber pitch_sum pitch_run_output

-- The answer to the assisted packet.
abbrev steered : ControlSurfacePacket
steered = record {
  motor_speed = 127;
  aileron_deflection = negsuc 4;
  elevator_deflection = pos 3;
  rudder_deflection = pos 20;
}

flown :
    fly (autopilot_manager utility gains) ((assisted, tilted) ∷ [])
    ≡ some (steered ∷ [], stabilizing)
unfolding fly trigger autopilot_manager Stabilize.trigger
    Stabilize.compute_roll_to_aileron_deflection cast_int8
    rc_plane.Autopilot.Utility.bind_pid_aileron_deflection roll_output rc_plane.Base.Int.◌*ℤ◌
    rc_plane.Base.Int.◌+ℤ◌ rc_plane.Base.Int.◌/ℤ◌ rc_plane.Base.Int.◌-ℤ◌ rc_plane.Base.Int.negate
    Stabilize.compute_pitch_to_elevator_deflection Stabilize.after_roll
    Stabilize.bind_integral_error pitch_output Stabilize.after_pitch bind_rc_throttle
    bind_rc_rudder_deflection rc_plane.Autopilot.Utility.bind_pid_elevator_deflection
    rc_plane.Base.Int.to_int8 rc_plane.Base.Int.to_uint8
flown = refl

user_regains_control_example :
    (answers : List ControlSurfacePacket) × (m' : AutopilotManager Fixed) × (fly stabilizing
        ((sticks, tilted) ∷ [])
      ≡ some (answers, m'))
    × All (IsInEnvelope utility) answers
user_regains_control_example =
    user_regains_control utility gains ((assisted, tilted) ∷ []) ((sticks, tilted) ∷ [])
      (steered ∷ []) stabilizing utility-IsConfigured flown ((omega arith, sticks-IsNominal), tt)
