-- ===== src/Som/Cycle/After.antt =====
-- What a cycle that returns has done.
use rc_plane.Base.{ℕ, ◌≡◌, sym, Bool, some, >>=-eq-some, some_pair}
use mathlib.Core.Path.{subst₂}
use rc_plane.Double.{Double, cast_uint8}
use rc_plane.Common.Packet.{RcRxPacket, ImuPacket, ControlSurfacePacket}
use rc_plane.Common.Packet.Bytes.{rc_rx_layout, imu_layout, control_surface_layout}
use rc_plane.Io.Serial.{SerialPort, SerialController, ReadResult, read_packet, write_packet}
use rc_plane.Io.Telemetry.Queue.{Queues}
use rc_plane.Autopilot.Manager.{AutopilotManager, trigger}
use rc_plane.Som.Controller.{SomController, send_telemetry}
use rc_plane.Som.Cycle.{after_cycle, run_cycle}

module _ {W Q F : Type 0} ⦃port : SerialPort W⦄ ⦃d : Double F⦄ (qs : Queues W Q F) where
  pub run_cycle-after_cycle :
      (c c' : SomController Q F) (w w' : W)
      → run_cycle qs c w ≡ some (c', w')
      → (rc_rx : ReadResult RcRxPacket) × (imu : ReadResult ImuPacket) × (serial : SerialController)
        × (packet : ControlSurfacePacket) × (manager : AutopilotManager F) × (temperature : ℕ)
        × (written : Bool) × (c'
            ≡ after_cycle c rc_rx imu serial packet manager temperature written)
  unfolding run_cycle
  run_cycle-after_cycle c c' w w' h =
      let ((rc_rx, serial₁, w₁), _, h₁) =
        >>=-eq-some (read_packet {P = RcRxPacket} c.serial_controller w) _ h in
      let ((imu, serial, w₂), _, h₂) = >>=-eq-some (read_packet {P = ImuPacket} serial₁ w₁) _ h₁ in
      let ((packet, manager), _, h₃) =
        >>=-eq-some (trigger c.autopilot_manager rc_rx.packet imu.packet) _ h₂ in
      let (temperature, _, h₄) =
        >>=-eq-some (cast_uint8 (d.of_float32 imu.packet.temperature)) _ h₃ in
      let (written, w₃) = write_packet serial packet w₂ in
      let c₁ = after_cycle c rc_rx imu serial packet manager temperature written in
      let (w₄, _, h₅) = >>=-eq-some (send_telemetry qs c₁ w₃) _ h₄ in
      (rc_rx, imu, serial, packet, manager, temperature, written, sym (some_pair c₁ c' w₄ w' h₅).0)

  -- What followed the two reads of a cycle that returns.
  pub run_cycle_reads :
      (c c' : SomController Q F) (w w₁ w₂ w' : W) (rc_rx : ReadResult RcRxPacket)
      (imu : ReadResult ImuPacket) (s₁ s₂ : SerialController)
      → read_packet c.serial_controller w ≡ some (rc_rx, s₁, w₁)
      → read_packet s₁ w₁ ≡ some (imu, s₂, w₂)
      → run_cycle qs c w ≡ some (c', w')
      → (packet : ControlSurfacePacket) × (manager : AutopilotManager F) × (temperature : ℕ)
        × (trigger c.autopilot_manager rc_rx.packet imu.packet ≡ some (packet, manager))
        × (c' ≡ after_cycle c rc_rx imu s₂ packet manager temperature (write_packet s₂ packet w₂).0)
        × (send_telemetry qs c' (write_packet s₂ packet w₂).1 ≡ some w')
  unfolding run_cycle
  run_cycle_reads c c' w w₁ w₂ w' rc_rx imu s₁ s₂ e₁ e₂ h =
      let h₁ = rw (e₁, e₂) at h in
      let ((packet, manager), step, h₂) =
        >>=-eq-some (trigger c.autopilot_manager rc_rx.packet imu.packet) _ h₁ in
      let (temperature, _, h₃) =
        >>=-eq-some (cast_uint8 (d.of_float32 imu.packet.temperature)) _ h₂ in
      let w₃ = (write_packet s₂ packet w₂).1 in
      let c₁ =
        after_cycle c rc_rx imu s₂ packet manager temperature (write_packet s₂ packet w₂).0 in
      let (w₄, sent, done) = >>=-eq-some (send_telemetry qs c₁ w₃) _ h₃ in
      let (same, world) = some_pair c₁ c' w₄ w' done in
      (
        packet,
        manager,
        temperature,
        step,
        sym same,
        subst₂ (λ (x : SomController Q F) (v : W). send_telemetry qs x w₃ ≡ some v) same world sent,
      )
