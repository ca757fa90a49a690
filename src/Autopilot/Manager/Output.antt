-- ===== src/Autopilot/Manager/Output.antt =====
-- The manager's answers are packets that the serial line carries: each field fits its type.
use rc_plane.Base.{ℕ, ◌<◌, ◌≡◌, some, arith, >>=-eq-some, some_pair, bit_and}
use rc_plane.Base.Int.{ℤ, negate, IsInt8, to_uint8-lt, to_int8-IsInt8}
use rc_plane.Double.{Double, cast_int8, cast_int8-IsInt8}
use rc_plane.Common.State.{autopilot_mask}
use rc_plane.Common.Packet.{RcRxPacket, ControlSurfacePacket, ImuPacket, control_surface_packet}
use rc_plane.Common.Packet.RoundTrip.{IsControlSurfaceValue}
use rc_plane.Autopilot.Utility.{
  AutopilotUtility, bind_rc_throttle, bind_rc_aileron_deflection, bind_rc_elevator_deflection,
  bind_rc_rudder_deflection, bind_pid_elevator_deflection, bind_to_int8,
}
use rc_plane.Autopilot.Manual
use rc_plane.Autopilot.Manual.{ManualAutopilot}
use rc_plane.Autopilot.Stabilize
use rc_plane.Autopilot.Stabilize.{
  StabilizeAutopilot, compute_roll_to_aileron_deflection, compute_pitch_to_elevator_deflection,
  bind_integral_error, pitch_output, after_pitch,
}
use rc_plane.Autopilot.Manager.{
  Active, manual, stabilize, AutopilotManager, handle_state, dispatch, trigger,
}
use rc_plane.Autopilot.Manager.Envelope.{handle_state_keeps}

rc_deflections-IsInt8 :
    (u : AutopilotUtility) (v : ℤ)
    → IsInt8 (bind_rc_aileron_deflection u v)
      × IsInt8 (bind_rc_elevator_deflection u v)
      × IsInt8 (bind_rc_rudder_deflection u v)
unfolding bind_rc_aileron_deflection bind_rc_elevator_deflection bind_rc_rudder_deflection
    bind_to_int8
rc_deflections-IsInt8 u v = (to_int8-IsInt8 _, to_int8-IsInt8 _, to_int8-IsInt8 _)

throttle-lt : (u : AutopilotUtility) (v : ℕ) → bind_rc_throttle u v < 256
unfolding bind_rc_throttle
throttle-lt u v = to_uint8-lt _

pid_elevator-IsInt8 :
    (u : AutopilotUtility) (v : ℤ)
    → IsInt8 u.max_elevator_deflection
    → IsInt8 v
    → IsInt8 (bind_pid_elevator_deflection u v)
unfolding bind_pid_elevator_deflection
pid_elevator-IsInt8 u v h k = ground (arith, to_int8-IsInt8 (negate u.max_elevator_deflection))

manual-IsControlSurfaceValue :
    (a : ManualAutopilot) (packet : ControlSurfacePacket) (r : RcRxPacket) (i : ImuPacket)
    → IsControlSurfaceValue (Manual.trigger a packet r i)
unfolding Manual.trigger
manual-IsControlSurfaceValue a packet r i = record {
  motor_lt = throttle-lt a.utility r.motor_stick_position;
  aileron_fits = (rc_deflections-IsInt8 a.utility r.aileron_stick_position).0;
  elevator_fits = (rc_deflections-IsInt8 a.utility r.elevator_stick_position).1;
  rudder_fits = (rc_deflections-IsInt8 a.utility r.rudder_stick_position).2;
}

module _ {F : Type 0} ⦃d : Double F⦄ where
  roll-IsInt8 :
      (s s' : StabilizeAutopilot F) (angle : F) (n : ℤ)
      → compute_roll_to_aileron_deflection s angle ≡ some (n, s')
      → IsInt8 n
  unfolding compute_roll_to_aileron_deflection
  roll-IsInt8 s s' angle n h =
      let (z, e, done) = >>=-eq-some (cast_int8 _) _ h in
      rw (← (some_pair z n _ s' done).0) (cast_int8-IsInt8 _ e)

  pitch-IsInt8 :
      (s s' : StabilizeAutopilot F) (angle : F) (n : ℤ)
      → compute_pitch_to_elevator_deflection s angle ≡ some (n, s')
      → IsInt8 n
  unfolding compute_pitch_to_elevator_deflection
  pitch-IsInt8 s s' angle n h =
      let error = d.sub s.desired_pitch_angle angle in
      let (sum, _, h₁) = >>=-eq-some (cast_int8 (d.add s.pitch_integral_error error)) _ h in
      let (bounded, _, h₂) = >>=-eq-some (bind_integral_error s sum) _ h₁ in
      let (z, e, done) = >>=-eq-some (cast_int8 (pitch_output s error (d.of_int bounded))) _ h₂ in
      rw (← (some_pair z n (after_pitch s error bounded) s' done).0) (cast_int8-IsInt8 _ e)

  stabilize-IsControlSurfaceValue :
      (s s' : StabilizeAutopilot F) (packet out : ControlSurfacePacket) (r : RcRxPacket)
      (i : ImuPacket)
      → IsInt8 s.utility.max_elevator_deflection
      → Stabilize.trigger s packet r i ≡ some (out, s')
      → IsControlSurfaceValue out
  unfolding Stabilize.trigger
  stabilize-IsControlSurfaceValue s s' packet out r i limit h =
      let ((aileron, s₁), e₁, h₁) =
        >>=-eq-some (compute_roll_to_aileron_deflection s (d.of_float32 i.gyro_x)) _ h in
      let ((elevator, s₂), e₂, done) =
        >>=-eq-some (compute_pitch_to_elevator_deflection s₁ (d.of_float32 i.gyro_y)) _ h₁ in
      rw (← (some_pair _ out s₂ s' done).0) (record {
        motor_lt = throttle-lt s.utility r.motor_stick_position;
        aileron_fits = roll-IsInt8 s s₁ (d.of_float32 i.gyro_x) aileron e₁;
        elevator_fits =
            pid_elevator-IsInt8 s.utility elevator limit
              (pitch-IsInt8 s₁ s₂ (d.of_float32 i.gyro_y) elevator e₂);
        rudder_fits = (rc_deflections-IsInt8 s.utility r.rudder_stick_position).2;
      })

  dispatch-IsControlSurfaceValue :
      (a : Active) (m m' : AutopilotManager F) (out : ControlSurfacePacket) (r : RcRxPacket)
      (i : ImuPacket)
      → IsInt8 m.stabilize_autopilot.utility.max_elevator_deflection
      → dispatch a m control_surface_packet r i ≡ some (out, m')
      → IsControlSurfaceValue out
  unfolding dispatch
  dispatch-IsControlSurfaceValue manual m m' out r i limit h =
      rw (← (some_pair _ out m m' h).0)
        (manual-IsControlSurfaceValue m.manual_autopilot control_surface_packet r i)
  dispatch-IsControlSurfaceValue stabilize m m' out r i limit h =
      let ((packet, s), e, done) =
        >>=-eq-some (Stabilize.trigger m.stabilize_autopilot control_surface_packet r i) _ h in
      rw (← (some_pair packet out (record m { stabilize_autopilot = s }) m' done).0) (
        stabilize-IsControlSurfaceValue m.stabilize_autopilot s control_surface_packet packet r i
          limit e)

  -- If the elevator limit of the stabilizing autopilot is a value of its type, every packet that the
  -- manager returns has fields that are values of theirs, whatever the sticks and the readings.
  pub trigger-IsControlSurfaceValue :
      (m m' : AutopilotManager F) (out : ControlSurfacePacket) (r : RcRxPacket) (i : ImuPacket)
      → IsInt8 m.stabilize_autopilot.utility.max_elevator_deflection
      → trigger m r i ≡ some (out, m')
      → IsControlSurfaceValue out
  unfolding trigger
  trigger-IsControlSurfaceValue m m' out r i limit h =
      let m₁ = handle_state m (bit_and r.state autopilot_mask) in
      let (_, keep) = handle_state_keeps m (bit_and r.state autopilot_mask) in
      dispatch-IsControlSurfaceValue m₁.autopilot m₁ m' out r i (rw keep limit) h
