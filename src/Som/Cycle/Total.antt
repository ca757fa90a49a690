-- ===== src/Som/Cycle/Total.antt =====
-- What can keep a cycle from returning.
use rc_plane.Base.{
  ◌≡◌, sym, ◌∙◌, ℕ, ◌⊎◌, inl, inr, refl, Bool, Option, none, some, Option-cases, >>=-eq-some,
}
use rc_plane.Double.{Double, cast_uint8}
use rc_plane.Common.Packet.{RcRxPacket, ImuPacket, ControlSurfacePacket}
use rc_plane.Common.Packet.Bytes.{rc_rx_layout, control_surface_layout, imu_layout}
use rc_plane.Common.Packet.RoundTrip.{rc_rx-IsLayout, imu-IsLayout}
use rc_plane.Io.Serial.{
  SerialPort, SerialController, ReadResult, read_packet, write_packet, IsSerialPort,
}
use rc_plane.Io.Serial.Stream.{read_packet_total}
use rc_plane.Io.Telemetry.Queue.{Queues}
use rc_plane.Autopilot.Manager.{AutopilotManager, trigger}
use rc_plane.Som.Controller.{SomController, send_telemetry}
use rc_plane.Som.Cycle.{after_cycle, run_cycle}
use rc_plane.Som.Failsafe.{IsOpen, send_telemetry_total}

value_absurd : {A : Type 0} (a : A) → ◌≡◌ {A = Option A} (some a) none → ⊥
value_absurd a e = cc

module _ {W Q F : Type 0} ⦃port : SerialPort W⦄ ⦃d : Double F⦄ (qs : Queues W Q F) where
  -- A cycle whose reads and conversions are given.
  pub cycle_returns :
      (c : SomController Q F) (w w₁ w₂ w₃ : W) (rc_rx : ReadResult RcRxPacket)
      (imu : ReadResult ImuPacket) (s₁ s₂ : SerialController) (packet : ControlSurfacePacket)
      (manager : AutopilotManager F) (temperature : ℕ) (written : Bool)
      → IsOpen c.telemetry_transmitter
      → read_packet c.serial_controller w ≡ some (rc_rx, s₁, w₁)
      → read_packet s₁ w₁ ≡ some (imu, s₂, w₂)
      → trigger c.autopilot_manager rc_rx.packet imu.packet ≡ some (packet, manager)
      → cast_uint8 (d.of_float32 imu.packet.temperature) ≡ some temperature
      → write_packet s₂ packet w₂ ≡ (written, w₃)
      → (w₄ : W) × (send_telemetry qs
            (after_cycle c rc_rx imu s₂ packet manager temperature written)
            w₃
          ≡ some w₄)
        × (run_cycle qs c w
            ≡ some (after_cycle c rc_rx imu s₂ packet manager temperature written, w₄))
  unfolding run_cycle after_cycle
  cycle_returns c w w₁ w₂ w₃ rc_rx imu s₁ s₂ packet manager temperature written o e₁ e₂ e₃ e₄ e₅ =
      let c' = after_cycle c rc_rx imu s₂ packet manager temperature written in
      let (w₄, sent) = send_telemetry_total qs c' w₃ o in
      (w₄, sent, rw e₁ (rw e₂ (rw e₃ (rw e₄ (rw e₅ (rw sent refl))))))

  -- A cycle that returns has met no undefined conversion.
  pub cycle_defined :
      (c : SomController Q F) (w w₁ w₂ : W) (rc_rx : ReadResult RcRxPacket)
      (imu : ReadResult ImuPacket) (s₁ s₂ : SerialController) (end : SomController Q F × W)
      → read_packet c.serial_controller w ≡ some (rc_rx, s₁, w₁)
      → read_packet s₁ w₁ ≡ some (imu, s₂, w₂)
      → run_cycle qs c w ≡ some end
      → (packet : ControlSurfacePacket) × (manager : AutopilotManager F) × (temperature : ℕ)
        × (trigger c.autopilot_manager rc_rx.packet imu.packet ≡ some (packet, manager))
        × (cast_uint8 (d.of_float32 imu.packet.temperature) ≡ some temperature)
  unfolding run_cycle
  cycle_defined c w w₁ w₂ rc_rx imu s₁ s₂ end e₁ e₂ h =
      let h₁ = rw (e₁, e₂) at h in
      let ((packet, manager), e₃, h₂) =
        >>=-eq-some (trigger c.autopilot_manager rc_rx.packet imu.packet) _ h₁ in
      let (temperature, e₄, _) =
        >>=-eq-some (cast_uint8 (d.of_float32 imu.packet.temperature)) _ h₂ in
      (packet, manager, temperature, e₃, e₄)

  -- With a port that keeps its contract and open queues, a cycle that does not return has read both
  -- packets, and either the manager or the conversion of the temperature met an undefined conversion.
  pub stopped_by_conversion :
      (laws : IsSerialPort W) (c : SomController Q F) (w : W)
      → IsOpen c.telemetry_transmitter
      → run_cycle qs c w ≡ none
      → (rc_rx : ReadResult RcRxPacket) × (imu : ReadResult ImuPacket) × (s₁ s₂ : SerialController)
        × (w₁ w₂ : W) × (read_packet c.serial_controller w ≡ some (rc_rx, s₁, w₁))
        × (read_packet s₁ w₁ ≡ some (imu, s₂, w₂))
        × ((trigger c.autopilot_manager rc_rx.packet imu.packet ≡ none)
            ⊎ (cast_uint8 (d.of_float32 imu.packet.temperature) ≡ none))
  stopped_by_conversion laws c w o h =
      let (rc_rx, s₁, w₁, e₁, _) = read_packet_total _ rc_rx-IsLayout laws c.serial_controller w in
      let (imu, s₂, w₂, e₂, _) = read_packet_total _ imu-IsLayout laws s₁ w₁ in
      (
        rc_rx,
        imu,
        s₁,
        s₂,
        w₁,
        w₂,
        e₁,
        e₂,
        elim (Option-cases (trigger c.autopilot_manager rc_rx.packet imu.packet)) [
          | inl undefined ↦ inl undefined
          | inr ((packet, manager), e₃) ↦
              elim (Option-cases (cast_uint8 (d.of_float32 imu.packet.temperature))) [
                | inl undefined ↦ inr undefined
                | inr (temperature, e₄) ↦
                    let (written, w₃) = write_packet s₂ packet w₂ in
                    let c' = after_cycle c rc_rx imu s₂ packet manager temperature written in
                    let (w₄, _, ran) =
                      cycle_returns c w w₁ w₂ w₃ rc_rx imu s₁ s₂ packet manager temperature written
                        o e₁ e₂ e₃ e₄ refl in
                    absurd (value_absurd (c', w₄) (sym ran ∙ h))
              ]
        ],
      )
