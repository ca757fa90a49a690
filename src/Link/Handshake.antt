-- ===== src/Link/Handshake.antt =====
-- The start of both programs: the sketch announces itself, the controller drops what was on the line,
-- sends its handshake packet, and gets it back.
use rc_plane.Base.{
  ℕ, suc, ◌*◌, ◌≡◌, refl, Bool, true, false, ◌&&◌, Option, some, List, [], ◌∷◌, ◌++◌, String,
  length, drop_all, arith, ◌>>=◌,
}
use rc_plane.Base.Int.{IsInt8}
use rc_plane.Common.Packet.{HandshakePacket, eq_handshake}
use rc_plane.Common.Packet.Bytes.{handshake_layout, handshake_of_bytes}
use rc_plane.Common.Packet.RoundTrip.{handshake-IsLayout}
use rc_plane.Io.Serial.{SerialController, ReadResult, write_packet, flush, finish_flush}
use rc_plane.Mcu.{Board, Sketch, greet, finish_setup, write_board_packet, read_board_packet}
use rc_plane.Som.Controller.{SomController}
use rc_plane.Som.Failsafe.{IsOpen}
use rc_plane.Som.Handshake.{
  acknowledgement, is_answer, after_attempt, await_answer, after_flush, count_write,
}
use rc_plane.Link.{Link, link_port, link_board, find_end}
use rc_plane.Link.Round.{IsClear, read_link}

-- The line that the sketch announces itself with.
abbrev pub announcement : (String → List ℕ) → List ℕ
announcement text = text "flush" ++ 13 ∷ 10 ∷ []

module _ {E : Type 0} (text : String → List ℕ) (board : Board E) where
  flush_link :
      (c : SerialController) (w : Link E text)
      → c.stream_buffer ≡ []
      → find_end (text c.handshake_termination_str) (w.up ++ announcement text)
        ≡ some (length (w.up ++ announcement text))
      → flush c (greet (link_board text board) w)
        ≡ (true, record c { stream_buffer = [] }, record w { env = board.start w.env; up = [] })
  unfolding flush finish_flush greet
  flush_link c w empty ends =
      rw
        (
          empty,
          ends,
          drop_all (length (w.up ++ announcement text) * 2) (w.up ++ announcement text)
              (omega arith),
        )
        refl

  -- The packet comes and goes back.
  finish_setup_link :
      (s : Sketch) (w : Link E text)
      → w.up ≡ []
      → w.down ≡ acknowledgement.handshake ∷ []
      → finish_setup (link_board text board) s w
        ≡ some (
          record s { handshake = acknowledgement },
          record w { env = board.start_imu w.env; up = acknowledgement.handshake ∷ []; down = [] },
        )
  unfolding finish_setup read_board_packet write_board_packet handshake_of_bytes
  finish_setup_link s w up down = rw (up, down) refl

  await_answer_link :
      {Q F : Type 0} (attempts n : ℕ) (c : SomController Q F) (w : Link E text)
      → attempts ≡ suc n
      → c.serial_controller.stream_buffer ≡ []
      → w.up ≡ acknowledgement.handshake ∷ []
      → await_answer attempts c w
        ≡ some (
          true,
          after_attempt c
              (record { packet = acknowledgement; did_timeout = false; bytes_read = 0 })
              (record c.serial_controller { stream_buffer = [] }),
          record w { up = [] },
        )
  unfolding await_answer is_answer eq_handshake
  await_answer_link attempts n c w some_attempt empty up =
      rw
        (
          some_attempt,
          read_link (λ p. Unit) handshake-IsLayout c.serial_controller w acknowledgement [] empty up
              tt,
        )
        refl

module _ {E Q F : Type 0} (text : String → List ℕ) (board : Board E) where
  -- `handshakeMCU` with the rest of `setup` between its write and its first read: true if each step
  -- of it succeeds.
  unfoldable pub shake :
      Sketch
      → SomController Q F
      → Link E text
      → Option (Bool × Sketch × SomController Q F × Link E text)
  shake s c w =
      let (flushed, serial, w₁) = flush c.serial_controller (greet (link_board text board) w) in
      let (written, w₂) = write_packet serial acknowledgement w₁ in
      do
        (s', w₃) ← finish_setup (link_board text board) s w₂
        (answered, c', w₄) ←
            await_answer c.handshake_attempts (count_write (after_flush c serial)) w₃
        some (flushed && written && answered, s', c', w₄)

  -- If the bytes on the line and the announcement of the sketch end with the first match of the
  -- terminator, nothing is buffered or on its way to the sketch, at least one attempt is configured,
  -- the queues are open and the elevator limit is a value of its type, the handshake succeeds: both
  -- have the packet, what was on the line is gone, the link is clear, and the manager is as before.
  pub shake-IsClear :
      (s : Sketch) (c : SomController Q F) (w : Link E text) (attempts : ℕ)
      → c.handshake_attempts ≡ suc attempts
      → c.serial_controller.stream_buffer ≡ []
      → w.down ≡ []
      → find_end (text c.serial_controller.handshake_termination_str) (w.up ++ announcement text)
        ≡ some (length (w.up ++ announcement text))
      → IsOpen c.telemetry_transmitter
      → IsInt8 c.autopilot_manager.stabilize_autopilot.utility.max_elevator_deflection
      → (c' : SomController Q F) × (w' : Link E text) × (shake s c w
          ≡ some (true, record s { handshake = acknowledgement }, c', w'))
        × (c'.autopilot_manager ≡ c.autopilot_manager)
        × IsClear c' w'
  unfolding shake write_packet after_flush count_write after_attempt
  shake-IsClear s c w attempts some_attempt empty down ends queues limit =
      let serial : SerialController = record c.serial_controller { stream_buffer = [] } in
      let w₂ : Link E text = record w {
        env = board.start w.env;
        up = [];
        down = w.down ++ acknowledgement.handshake ∷ [];
      } in
      let w₃ : Link E text = record w {
        env = board.start_imu (board.start w.env);
        up = acknowledgement.handshake ∷ [];
        down = [];
      } in
      let c₂ = count_write (after_flush c serial) in
      let r : ReadResult HandshakePacket = record {
        packet = acknowledgement;
        did_timeout = false;
        bytes_read = 0;
      } in
      let flushed = flush_link text board c.serial_controller w empty ends in
      let set_up = finish_setup_link text board s w₂ refl (rw down refl) in
      let answered =
        await_answer_link text board c.handshake_attempts attempts c₂ w₃ some_attempt refl refl in
      (
        after_attempt c₂ r serial,
        record w₃ { up = [] },
        rw (flushed, set_up, answered) refl,
        refl,
        record {
          up_empty = refl;
          down_empty = refl;
          buffer_empty = refl;
          queues_open = queues;
          limit_fits = limit;
        },
      )
