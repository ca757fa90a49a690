-- ===== src/Link/Frames.antt =====
-- The bytes that the controller reads, as frames of 37 bytes, whatever was buffered or on the line
-- before: nothing marks where a packet begins.
pub mod Exchanges
use rc_plane.Base.{
  ℕ, zero, suc, ◌+◌, ◌≤◌, ◌≡◌, refl, sym, ap, ◌∙◌, true, false, Option, some, List, [], ◌∷◌, ◌++◌,
  String, length, take, drop, length-append, length-drop, drop-append_le, take-append-drop, leb,
  >>=-eq-some, some_pair, carry_pair, arith, ◌>>=◌,
}
use mathlib.Core.List.{append_assoc}
use rc_plane.Double.{Double, cast_uint8}
use rc_plane.Common.Packet.{RcRxPacket, ImuPacket, ControlSurfacePacket}
use rc_plane.Common.Packet.Bytes.{
  Packet, rc_rx_layout, imu_layout, control_surface_layout, rc_rx_of_bytes, imu_of_bytes,
  control_surface_to_bytes,
}
use rc_plane.Common.Packet.Local.{IsLocal, rc_rx-IsLocal, imu-IsLocal}
use rc_plane.Common.Packet.RoundTrip.{IsLayout, rc_rx-IsLayout, imu-IsLayout}
use rc_plane.Autopilot.Manager.{AutopilotManager, trigger}
use rc_plane.Io.Serial.{SerialController, ReadResult, received, read_packet, write_packet}
use rc_plane.Io.Serial.Loopback.{line_read}
use rc_plane.Io.Telemetry.Queue.{Queues}
use rc_plane.Som.Controller.{SomController, send_telemetry}
use rc_plane.Som.Cycle.{after_cycle, run_cycle}
use rc_plane.Som.Cycle.After.{run_cycle_reads}
use rc_plane.Link.{Link, link_port, link_queues}
use rc_plane.Link.Telemetry.{send_telemetry-IsSameLine}
use rc_plane.Link.Lag.{Sent}

-- The bytes before the controller: those in its buffer, and those on the line.
abbrev pub stream : {E : Type 0} {text : String → List ℕ} → SerialController → Link E text → List ℕ
stream c w = c.stream_buffer ++ w.up

-- The packets that the next n frames of a stream hold, and what is left of it.
unfoldable pub cut : ℕ → List ℕ → Option (List Sent × List ℕ)
cut zero bytes = some ([], bytes)
cut (suc n) bytes = do
  rc_rx ← rc_rx_of_bytes bytes
  imu ← imu_of_bytes (drop 9 bytes)
  (ps, rest) ← cut n (drop 28 (drop 9 bytes))
  some ((rc_rx, imu) ∷ ps, rest)

module _ {E : Type 0} {text : String → List ℕ} where
  -- A read takes the packet at the front of the stream, and as many bytes stay buffered as before.
  read_front :
      {P : Type 0} ⦃l : Packet P⦄ (IsValid : P → Type 0) (layout : IsLayout P IsValid)
      (local : IsLocal P) (c : SerialController) (w : Link E text)
      → l.size ≤ length w.up
      → (p : P) × (buffer : List ℕ) × (l.of_bytes (stream c w) ≡ some p)
        × (read_packet c w
            ≡ some (
              record { packet = p; did_timeout = false; bytes_read = 0 },
              record c { stream_buffer = buffer },
              record w { up = drop l.size w.up },
            ))
        × (buffer ++ drop l.size w.up ≡ drop l.size (stream c w))
        × (length buffer ≡ length c.stream_buffer)
  unfolding read_packet
  read_front ⦃l⦄ IsValid layout local c w size =
      let n = l.size in
      let front = c.stream_buffer ++ take n w.up in
      let delivered : line_read n w.up ≡ (received (take n w.up), drop n w.up) = ground arith in
      let all : front ++ drop n w.up ≡ stream c w =
        append_assoc c.stream_buffer (take n w.up) (drop n w.up)
        ∙ ap (λ (x : List ℕ). c.stream_buffer ++ x) (take-append-drop n w.up) in
      let long : length front ≡ length c.stream_buffer + n = omega (
        arith,
        length-append c.stream_buffer (take n w.up),
        length-append (take n w.up) (drop n w.up),
        ap length (take-append-drop n w.up),
        length-drop n w.up,
      ) in
      let (p, cast) = layout.of_bytes_total front (omega (arith, long)) in
      (
        p,
        drop n front,
        ap l.of_bytes (sym all) ∙ (local front (drop n w.up) (omega (arith, long)) ∙ cast),
        rw (delivered, cast) refl,
        sym (drop-append_le n front (drop n w.up) (omega (arith, long))) ∙ ap (drop n) all,
        omega (arith, length-drop n front, long),
      )

  -- The frame has been read.
  abbrev IsFramed :
      {Q F : Type 0} ⦃d : Double F⦄
      → List ℕ
      → SomController Q F
      → SomController Q F
      → Link E text
      → Type 0
  IsFramed bytes c c' w' =
      (p : Sent) × (out : ControlSurfacePacket) × (rc_rx_of_bytes bytes ≡ some p.0)
      × (imu_of_bytes (drop 9 bytes) ≡ some p.1)
      × (trigger c.autopilot_manager p.0 p.1 ≡ some (out, c'.autopilot_manager))
      × (stream c'.serial_controller w' ≡ drop 28 (drop 9 bytes))
      × (length c'.serial_controller.stream_buffer ≡ length c.serial_controller.stream_buffer)

  cycle_after_reads :
      {Q F : Type 0} ⦃d : Double F⦄ (qs : Queues E Q F) (c c' : SomController Q F)
      (w w₁ w₂ w' : Link E text) (r : RcRxPacket) (i : ImuPacket) (s₁ s₂ : SerialController)
      → read_packet c.serial_controller w
        ≡ some (record { packet = r; did_timeout = false; bytes_read = 0 }, s₁, w₁)
      → read_packet s₁ w₁
        ≡ some (record { packet = i; did_timeout = false; bytes_read = 0 }, s₂, w₂)
      → run_cycle (link_queues qs) c w ≡ some (c', w')
      → rc_rx_of_bytes (stream c.serial_controller w) ≡ some r
      → imu_of_bytes (drop 9 (stream c.serial_controller w)) ≡ some i
      → stream s₂ w₂ ≡ drop 28 (drop 9 (stream c.serial_controller w))
      → length s₂.stream_buffer ≡ length c.serial_controller.stream_buffer
      → IsFramed (stream c.serial_controller w) c c' w'
  unfolding write_packet after_cycle
  cycle_after_reads qs c c' w w₁ w₂ w' r i s₁ s₂ e₁ e₂ h is_r is_i left same =
      let rc_rx : ReadResult RcRxPacket = record {
        packet = r;
        did_timeout = false;
        bytes_read = 0;
      } in
      let imu : ReadResult ImuPacket = record { packet = i; did_timeout = false; bytes_read = 0 } in
      let (out, m, t, step, after, sent) =
        run_cycle_reads (link_queues qs) c c' w w₁ w₂ w' rc_rx imu s₁ s₂ e₁ e₂ h in
      let line =
        send_telemetry-IsSameLine qs c'
          (record w₂ { down = w₂.down ++ control_surface_to_bytes out }) w' sent in
      ((r, i), out, is_r, is_i, rw after step, rw (after, line.same_up) left, rw after same)

  -- A cycle that returns answers the frame at the front of the stream, and takes just that.
  pub cycle_frame :
      {Q F : Type 0} ⦃d : Double F⦄ (qs : Queues E Q F) (c c' : SomController Q F)
      (w w' : Link E text)
      → 37 ≤ length w.up
      → run_cycle (link_queues qs) c w ≡ some (c', w')
      → IsFramed (stream c.serial_controller w) c c' w'
  cycle_frame qs c c' w w' long h =
      let serial = c.serial_controller in
      let (r, b₁, is_r, e₁, left₁, same₁) =
        read_front {P = RcRxPacket} _ rc_rx-IsLayout rc_rx-IsLocal serial w (omega arith) in
      let serial₁ : SerialController = record serial { stream_buffer = b₁ } in
      let w₁ : Link E text = record w { up = drop 9 w.up } in
      let (i, b₂, is_i, e₂, left₂, same₂) =
        read_front {P = ImuPacket} _ imu-IsLayout imu-IsLocal serial₁ w₁
          (omega (arith, length-drop 9 w.up)) in
      cycle_after_reads qs c c' w w₁ (record w₁ { up = drop 28 w₁.up }) w' r i serial₁
        (record serial { stream_buffer = b₂ }) e₁ e₂ h is_r
        (ap (λ (x : List ℕ). imu_of_bytes x) (sym left₁) ∙ is_i) (left₂ ∙ ap (drop 28) left₁)
        (same₂ ∙ same₁)
