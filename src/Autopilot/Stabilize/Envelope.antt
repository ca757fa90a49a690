-- ===== src/Autopilot/Stabilize/Envelope.antt =====
-- The stabilizing autopilot keeps the control surfaces within their limits.
use rc_plane.Base.{◌≡◌, refl, some}
use rc_plane.Base.Int.{ℤ, clamp, clamp-IsWithin, IsLimit}
use rc_plane.Double.{Double, IsIeee, IsNumber, cast_int8}
use rc_plane.Common.Packet.{RcRxPacket, ControlSurfacePacket, ImuPacket}
use rc_plane.Autopilot.Utility.{
  bind_rc_throttle, bind_rc_rudder_deflection, bind_pid_elevator_deflection,
}
use rc_plane.Autopilot.Utility.Sticks.{IsConfigured, bind_rc_throttle_lem, bind_rc_deflections}
use rc_plane.Autopilot.Utility.Limits.{IsInEnvelope, IsNominal, bind_pid_elevator_deflection-clamp}
use rc_plane.Autopilot.Stabilize.{
  StabilizeAutopilot, roll_output, pitch_output, after_roll, after_pitch, trigger,
}
use rc_plane.Autopilot.Stabilize.Roll.{roll-IsWithin}
use rc_plane.Autopilot.Stabilize.Pitch.{pitch_step}

module _ {F : Type 0} ⦃d : Double F⦄ (laws : IsIeee F) where
  -- With nominal sticks, a roll output that is a number and pitch conversions that are defined, the
  -- autopilot returns a packet, and it is within the limits.
  pub stabilize-IsInEnvelope :
      (s : StabilizeAutopilot F) (packet : ControlSurfacePacket) (r : RcRxPacket) (i : ImuPacket)
      (m sum deflection : ℤ)
      → IsConfigured s.utility
      → IsNominal r
      → s.max_integral_error ≡ d.of_int m
      → IsLimit m
      → IsNumber (roll_output s (d.sub s.desired_roll_angle (d.of_float32 i.gyro_x)))
      → cast_int8
          (d.add s.pitch_integral_error (d.sub s.desired_pitch_angle (d.of_float32 i.gyro_y)))
        ≡ some sum
      → cast_int8 (
          pitch_output s
            (d.sub s.desired_pitch_angle (d.of_float32 i.gyro_y))
            (d.of_int (clamp m sum)))
        ≡ some deflection
      → (out : ControlSurfacePacket) × (s' : StabilizeAutopilot F) × (trigger s packet r i
          ≡ some (out, s'))
        × IsInEnvelope s.utility out
  unfolding trigger after_roll pitch_output
  stabilize-IsInEnvelope s packet r i m sum deflection c n e h num ps po =
      let error = d.sub s.desired_roll_angle (d.of_float32 i.gyro_x) in
      let pitch_error = d.sub s.desired_pitch_angle (d.of_float32 i.gyro_y) in
      let (aileron, roll, within) =
        roll-IsWithin laws s (d.of_float32 i.gyro_x) c.aileron_limit num in
      let pitch =
        pitch_step laws (after_roll s error) (d.of_float32 i.gyro_y) m sum deflection e h ps po in
      let (_, _, rudder) =
        bind_rc_deflections s.utility r.aileron_stick_position r.elevator_stick_position
          r.rudder_stick_position c n.aileron_within n.elevator_within n.rudder_within in
      let out : ControlSurfacePacket = record packet {
        motor_speed = bind_rc_throttle s.utility r.motor_stick_position;
        aileron_deflection = aileron;
        elevator_deflection = bind_pid_elevator_deflection s.utility deflection;
        rudder_deflection = bind_rc_rudder_deflection s.utility r.rudder_stick_position;
      } in
      (
        out,
        after_pitch (after_roll s error) pitch_error (clamp m sum),
        rw (roll, pitch) refl,
        record {
          throttle_le =
              (bind_rc_throttle_lem s.utility r.motor_stick_position c.throttle_lt n.motor_le).1;
          aileron_within = within;
          elevator_within =
              rw (bind_pid_elevator_deflection-clamp s.utility deflection c.elevator_limit)
                (clamp-IsWithin s.utility.max_elevator_deflection deflection c.elevator_limit);
          rudder_within = rudder.0;
        },
      )
