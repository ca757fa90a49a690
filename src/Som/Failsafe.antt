-- ===== src/Som/Failsafe.antt =====
-- What a cycle does when no packet comes from the receiver: the default packet asks for manual mode
-- and for no deflection.
use rc_plane.Base.{
  ℕ, ◌+◌, ◌*◌, ◌≤◌, ◌<◌, ◌≡◌, ◌≢◌, refl, ◌∙◌, Bool, true, Option, none, some, List, ◌++◌, arith,
}
use rc_plane.Base.Int.{ℤ, pos, pos_part, neg_part}
use rc_plane.Double.{Double, cast_uint8}
use rc_plane.Common.Packet.{ImuPacket, rc_rx_packet, control_surface_packet}
use rc_plane.Common.Packet.Bytes.{rc_rx_layout, control_surface_layout, imu_layout}
use rc_plane.Autopilot.Utility.{
  bind_rc_throttle, bind_rc_aileron_deflection, bind_rc_elevator_deflection,
  bind_rc_rudder_deflection,
}
use rc_plane.Autopilot.Utility.Sticks.{IsConfigured, bind_rc_throttle_lem, bind_rc_deflections}
use rc_plane.Autopilot.Manual
use rc_plane.Autopilot.Manager.{AutopilotManager, is_in_manual_mode, handle_state, trigger}
use rc_plane.Autopilot.Manager.Modes.{IsSynced, handle_state_lem}
use rc_plane.Autopilot.Manager.Envelope.{handle_state_keeps, is_manual_iff, dispatch_manual}
use rc_plane.Io.Serial.{
  SerialPort, SerialController, ReadResult, stalled, read_result, read_packet, write_packet,
}
use rc_plane.Io.Serial.Stream.{read_packet_stalled}
use rc_plane.Io.Telemetry.Queue.{Queues, MessageQueue}
use rc_plane.Io.Telemetry.Message.{OnboardStateMessage}
use rc_plane.Io.Telemetry.Message.AutopilotType
use rc_plane.Io.Telemetry.Transmitter.{
  TelemetryTransmitterMq, send, send_debug_message, send_attitude_message, send_onboard_message,
}
use rc_plane.Som.Controller.{SomController, send_telemetry}
use rc_plane.Som.Cycle.{
  count_read, count_written, count_loop, after_cycle, onboard_state, run_cycle,
}

ℤ-zero :
    (z : ℤ)
    → pos_part z * 100 ≤ neg_part z * 100
    → neg_part z * 100 < pos_part z * 100 + 100
    → z ≡ pos 0
ℤ-zero z h k = ground arith

-- Centred sticks and an idle throttle give the default packet.
idle_packet :
    (a : Manual.ManualAutopilot) (i : ImuPacket)
    → IsConfigured a.utility
    → Manual.trigger a control_surface_packet rc_rx_packet i ≡ control_surface_packet
unfolding Manual.trigger
idle_packet a i c =
    let u = a.utility in
    let throttle : bind_rc_throttle u 0 ≡ 0 =
      (bind_rc_throttle_lem u 0 c.throttle_lt (omega arith)).0 ∙ omega arith in
    let ((_, aileron), (_, elevator), (_, rudder)) =
      bind_rc_deflections u (pos 0) (pos 0) (pos 0) c (omega arith) (omega arith) (omega arith) in
    rw
      (
        throttle,
        ℤ-zero (bind_rc_aileron_deflection u (pos 0)) (omega arith) (omega arith),
        ℤ-zero (bind_rc_elevator_deflection u (pos 0)) (omega arith) (omega arith),
        ℤ-zero (bind_rc_rudder_deflection u (pos 0)) (omega arith) (omega arith),
      )
      refl

module _ {F : Type 0} ⦃d : Double F⦄ where
  -- The default packet asks for manual mode, and the answer is the default one.
  pub trigger_default :
      (m : AutopilotManager F) (i : ImuPacket)
      → IsSynced m
      → IsConfigured m.manual_autopilot.utility
      → (trigger m rc_rx_packet i ≡ some (control_surface_packet, handle_state m 0))
        × (is_in_manual_mode (handle_state m 0) ≡ true)
  unfolding trigger is_in_manual_mode
  trigger_default m i h c =
      let (keep, _) = handle_state_keeps m 0 in
      let active = is_manual_iff (handle_state m 0).autopilot (handle_state_lem m 0 h).0 in
      (
        rw
            (
              dispatch_manual (handle_state m 0).autopilot (handle_state m 0) rc_rx_packet i active,
              keep,
              idle_packet m.manual_autopilot i c,
            )
            refl,
        (handle_state_lem m 0 h).0,
      )

pub record IsOpen {Q : Type 0} (t : TelemetryTransmitterMq Q) : Type 0 where
  pub debug_open : t.debug_message_queue ≢ none
  pub attitude_open : t.attitude_message_queue ≢ none
  pub onboard_open : t.onboard_message_queue ≢ none

module _ {W Q F : Type 0} (qs : Queues W Q F) where
  send_total :
      {M : Type 0} (queue : MessageQueue W Q M) (q : Option Q) (m : M) (w : W)
      → q ≢ none
      → (ok : Bool) × (w' : W) × (send queue q m w ≡ some (ok, w'))
  unfolding send
  send_total queue none m w h = absurd (h refl)
  send_total queue (some q) m w h = (_, _, refl)

  pub send_telemetry_total :
      (c : SomController Q F) (w : W)
      → IsOpen c.telemetry_transmitter
      → (w' : W) × (send_telemetry qs c w ≡ some w')
  unfolding send_telemetry send_debug_message send_attitude_message send_onboard_message
  send_telemetry_total c w h =
      let t = c.telemetry_transmitter in
      let (_, w₁, e₁) = send_total qs.debug t.debug_message_queue c.debug_message w h.debug_open in
      let (_, w₂, e₂) =
        send_total qs.attitude t.attitude_message_queue c.attitude_message w₁ h.attitude_open in
      let (_, w₃, e₃) =
        send_total qs.onboard t.onboard_message_queue c.onboard_message w₂ h.onboard_open in
      (w₃, rw e₁ (rw e₂ (rw e₃ refl)))

-- No throttle and centred surfaces, from the manual autopilot.
pub record IsIdle (m : OnboardStateMessage) : Type 0 where
  pub throttle_zero : m.throttle ≡ 0
  pub aileron_zero : m.aileron_deflection ≡ pos 0
  pub elevator_zero : m.elevator_deflection ≡ pos 0
  pub rudder_zero : m.rudder_deflection ≡ pos 0
  pub mode_manual : m.autopilot_type ≡ AutopilotType.manual_autopilot

module _ {W Q F : Type 0} ⦃port : SerialPort W⦄ ⦃d : Double F⦄ (qs : Queues W Q F) where
  -- If the read of the receiver packet stalls, the manager is in step with its last state and the
  -- limits are configured, the queues are open, and the temperature that is read next fits its
  -- byte, then the cycle returns. The world that it leaves is that of writing the packet with no throttle
  -- and no deflection to the serial line and of then sending the telemetry. The counters tell of a read
  -- that timed out and of how the write ended, the messages report no throttle and no deflection, and
  -- the manager is in manual mode.
  pub receiver_lost :
      (c : SomController Q F) (serial₂ : SerialController) (w w₁ w₂ : W) (bytes : List ℕ)
      (imu : ReadResult ImuPacket) (temperature : ℕ)
      → IsSynced c.autopilot_manager
      → IsConfigured c.autopilot_manager.manual_autopilot.utility
      → IsOpen c.telemetry_transmitter
      → port.async_read 9 c.serial_controller.read_timeout_ms w ≡ (stalled bytes, w₁)
      → read_packet
          (record c.serial_controller {
            stream_buffer = c.serial_controller.stream_buffer ++ bytes;
          })
          (port.cancel w₁)
        ≡ some (imu, serial₂, w₂)
      → cast_uint8 (d.of_float32 imu.packet.temperature) ≡ some temperature
      → (written : Bool) × (w₃ w₄ : W) × (c' : SomController Q F) × (write_packet serial₂
            control_surface_packet w₂
          ≡ (written, w₃))
        × (send_telemetry qs c' w₃ ≡ some w₄)
        × (run_cycle qs c w ≡ some (c', w₄))
        × (c'.debug_message
            ≡ count_loop (
                count_written written
                  (count_read imu.did_timeout (count_read true c.debug_message))))
        × IsIdle c'.onboard_message
        × (is_in_manual_mode c'.autopilot_manager ≡ true)
  unfolding run_cycle after_cycle onboard_state
  receiver_lost c serial₂ w w₁ w₂ bytes imu temperature h u o e₁ e₂ e₃ =
      let (step, mode) = trigger_default c.autopilot_manager imu.packet h u in
      let manager = handle_state c.autopilot_manager 0 in
      let written = (write_packet serial₂ control_surface_packet w₂).0 in
      let w₃ = (write_packet serial₂ control_surface_packet w₂).1 in
      let c' =
        after_cycle c read_result imu serial₂ control_surface_packet manager temperature written in
      let (w₄, sent) = send_telemetry_total qs c' w₃ o in
      (
        written,
        w₃,
        w₄,
        c',
        refl,
        sent,
        rw (read_packet_stalled c.serial_controller w w₁ bytes e₁)
            (rw e₂ (rw step (rw e₃ (rw sent refl)))),
        refl,
        record {
          throttle_zero = refl;
          aileron_zero = refl;
          elevator_zero = refl;
          rudder_zero = refl;
          mode_manual = rw mode refl;
        },
        mode,
      )
