-- ===== src/Tests/Data.antt =====
-- Values that the tests share: a configuration, packets, and the state after the constructors.
use rc_plane.Base.{some, arith}
use rc_plane.Base.Int.{pos, negsuc}
use rc_plane.Double.Fixed.{Fixed}
use rc_plane.Common.Packet.{RcRxPacket, ImuPacket, ControlSurfacePacket}
use rc_plane.Common.Packet.RoundTrip.{IsRcRxValue, IsControlSurfaceValue, IsImuValue}
use rc_plane.Autopilot.Utility.{AutopilotUtility}
use rc_plane.Autopilot.Utility.Sticks.{IsConfigured}
use rc_plane.Autopilot.Utility.Limits.{IsNominal}
use rc_plane.Autopilot.Stabilize.{Gains, StabilizeAutopilot}
use rc_plane.Autopilot.Manager.{AutopilotManager, manual}

abbrev pub utility : AutopilotUtility
utility = record {
  max_throttle = 255;
  max_aileron_deflection = pos 35;
  max_elevator_deflection = pos 40;
  max_rudder_deflection = pos 20;
}

pub utility-IsConfigured : IsConfigured utility
utility-IsConfigured = record {
  throttle_lt = omega arith;
  aileron_limit = omega arith;
  elevator_limit = omega arith;
  rudder_limit = omega arith;
}

abbrev pub gains : Gains Fixed
gains = record {
  max_aileron_deflection = some (pos 35000);
  kp = some (pos 1000);
  ki = some (pos 500);
  kd = some (pos 100);
  tau = some (pos 20);
  max_integral_error = some (pos 20000);
}

-- The stabilizing autopilot at its start.
abbrev pub stabilizer : StabilizeAutopilot Fixed
stabilizer = record {
  utility = utility;
  gains = gains;
  prev_roll_error = some (pos 0);
  prev_pitch_error = some (pos 0);
  roll_derivative_error = some (pos 0);
  roll_integral_error = some (pos 0);
  pitch_integral_error = some (pos 0);
  desired_roll_angle = some (pos 0);
  desired_pitch_angle = some (pos 0);
}

abbrev pub manager : AutopilotManager Fixed
manager = record {
  manual_autopilot = record { utility = utility };
  stabilize_autopilot = stabilizer;
  autopilot = manual;
  prev_state = 0;
}

-- Half throttle, some stick, and the flag for the user's roll input.
abbrev pub sticks : RcRxPacket
sticks = record {
  timestamp = 5000;
  state = 1;
  motor_stick_position = 50;
  aileron_stick_position = negsuc 49;
  elevator_stick_position = pos 20;
  rudder_stick_position = pos 100;
}

abbrev pub assisted : RcRxPacket
assisted = record sticks { state = 129 }

pub sticks-IsNominal : IsNominal sticks
sticks-IsNominal = record {
  motor_le = omega arith;
  aileron_within = omega arith;
  elevator_within = omega arith;
  rudder_within = omega arith;
}

pub assisted-IsNominal : IsNominal assisted
assisted-IsNominal = record {
  motor_le = omega arith;
  aileron_within = omega arith;
  elevator_within = omega arith;
  rudder_within = omega arith;
}

pub sticks-IsRcRxValue : IsRcRxValue sticks
sticks-IsRcRxValue = record {
  timestamp_lt = omega arith;
  state_lt = omega arith;
  motor_lt = omega arith;
  aileron_fits = omega arith;
  elevator_fits = omega arith;
  rudder_fits = omega arith;
}

-- 1.5 degrees of roll, -2.25 degrees of pitch, at 20 degrees.
abbrev pub tilted : ImuPacket
tilted = record {
  gyro_x = 0x3fc00000;
  gyro_y = 0xc0100000;
  gyro_z = 0;
  acc_x = 0;
  acc_y = 0;
  acc_z = 0;
  temperature = 0x41a00000;
}

pub tilted-IsImuValue : IsImuValue tilted
tilted-IsImuValue = record {
  gyro_x_lt = omega arith;
  gyro_y_lt = omega arith;
  gyro_z_lt = omega arith;
  acc_x_lt = omega arith;
  acc_y_lt = omega arith;
  acc_z_lt = omega arith;
  temperature_lt = omega arith;
}

abbrev pub deflected : ControlSurfacePacket
deflected = record {
  motor_speed = 127;
  aileron_deflection = negsuc 17;
  elevator_deflection = pos 8;
  rudder_deflection = pos 20;
}

pub deflected-IsControlSurfaceValue : IsControlSurfaceValue deflected
deflected-IsControlSurfaceValue = record {
  motor_lt = omega arith;
  aileron_fits = omega arith;
  elevator_fits = omega arith;
  rudder_fits = omega arith;
}

pub assisted-IsRcRxValue : IsRcRxValue assisted
assisted-IsRcRxValue = record {
  timestamp_lt = omega arith;
  state_lt = omega arith;
  motor_lt = omega arith;
  aileron_fits = omega arith;
  elevator_fits = omega arith;
  rudder_fits = omega arith;
}
