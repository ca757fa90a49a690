-- ===== src/Autopilot/Manual.antt =====
-- impl/src/autopilot/ManualAutopilot.cpp and impl/include/rcplane/autopilot/ManualAutopilot.hpp: the
-- sticks go to the control surfaces.
use rc_plane.Common.Packet.{RcRxPacket, ControlSurfacePacket, ImuPacket}
use rc_plane.Autopilot.Utility.{
  AutopilotUtility, bind_rc_throttle, bind_rc_aileron_deflection, bind_rc_elevator_deflection,
  bind_rc_rudder_deflection,
}

pub record ManualAutopilot : Type 0 where
  pub utility : AutopilotUtility

-- The packet that the caller passes is written field by field.
unfoldable pub trigger :
    ManualAutopilot → ControlSurfacePacket → RcRxPacket → ImuPacket → ControlSurfacePacket
trigger a packet rc_rx imu = record packet {
  motor_speed = bind_rc_throttle a.utility rc_rx.motor_stick_position;
  aileron_deflection = bind_rc_aileron_deflection a.utility rc_rx.aileron_stick_position;
  elevator_deflection = bind_rc_elevator_deflection a.utility rc_rx.elevator_stick_position;
  rudder_deflection = bind_rc_rudder_deflection a.utility rc_rx.rudder_stick_position;
}
