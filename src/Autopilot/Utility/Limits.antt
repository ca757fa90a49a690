-- ===== src/Autopilot/Utility/Limits.antt =====
-- The configured limits of the control surfaces, and what keeps a packet within them.
use rc_plane.Base.{◌≤◌, ◌≡◌, arith}
use rc_plane.Base.Int.{ℤ, pos_part, negate, negate_parts, clamp, to_int8_self, IsWithin, IsLimit}
use rc_plane.Common.Packet.{RcRxPacket, ControlSurfacePacket, ImuPacket}
use rc_plane.Autopilot.Utility.{AutopilotUtility, bind_pid_elevator_deflection}
use rc_plane.Autopilot.Utility.Sticks.{IsConfigured, bind_rc_throttle_lem, bind_rc_deflections}
use rc_plane.Autopilot.Manual
use rc_plane.Autopilot.Manual.{ManualAutopilot}

-- The throttle and the three deflections of a packet are within the configured limits.
pub record IsInEnvelope (u : AutopilotUtility) (p : ControlSurfacePacket) : Type 0 where
  pub throttle_le : p.motor_speed ≤ u.max_throttle
  pub aileron_within : IsWithin (pos_part u.max_aileron_deflection) p.aileron_deflection
  pub elevator_within : IsWithin (pos_part u.max_elevator_deflection) p.elevator_deflection
  pub rudder_within : IsWithin (pos_part u.max_rudder_deflection) p.rudder_deflection

-- The sticks of a receiver that stays in its nominal range.
pub record IsNominal (p : RcRxPacket) : Type 0 where
  pub motor_le : p.motor_stick_position ≤ 100
  pub aileron_within : IsWithin 100 p.aileron_stick_position
  pub elevator_within : IsWithin 100 p.elevator_stick_position
  pub rudder_within : IsWithin 100 p.rudder_stick_position

-- With a limit from 0 to 127 the bound on the controller's elevator output is the clamp.
pub bind_pid_elevator_deflection-clamp :
    (u : AutopilotUtility) (z : ℤ)
    → IsLimit u.max_elevator_deflection
    → bind_pid_elevator_deflection u z ≡ clamp u.max_elevator_deflection z
unfolding bind_pid_elevator_deflection clamp
bind_pid_elevator_deflection-clamp u z h =
    let max = u.max_elevator_deflection in
    rw (to_int8_self (negate max) (omega (arith, negate_parts max)))

-- The manual autopilot keeps nominal sticks within the limits, whatever the packet and the readings.
pub manual-IsInEnvelope :
    (a : ManualAutopilot) (packet : ControlSurfacePacket) (r : RcRxPacket) (i : ImuPacket)
    → IsConfigured a.utility
    → IsNominal r
    → IsInEnvelope a.utility (Manual.trigger a packet r i)
unfolding Manual.trigger
manual-IsInEnvelope a packet r i c n =
    let (aileron, elevator, rudder) =
      bind_rc_deflections a.utility r.aileron_stick_position r.elevator_stick_position
        r.rudder_stick_position c n.aileron_within n.elevator_within n.rudder_within in
    record {
      throttle_le =
          (bind_rc_throttle_lem a.utility r.motor_stick_position c.throttle_lt n.motor_le).1;
      aileron_within = aileron.0;
      elevator_within = elevator.0;
      rudder_within = rudder.0;
    }
