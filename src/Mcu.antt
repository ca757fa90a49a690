-- ===== src/Mcu.antt =====
-- impl/src/mcu/mcu.ino: the sketch of the microcontroller, which sends the sticks and the readings of
-- the IMU, and reads the answer. The Arduino libraries are a parameter.
pub mod Flags
pub mod Sticks
pub mod Calm
use rc_plane.Base.{
  [], ◌∷◌, zero, suc, ℕ, ◌+◌, Bool, true, false, ◌||◌, Option, none, some, List, ◌++◌, ◌>>=◌,
  if◌then◌else◌, leb, ltb, bit_or, drop, length, String,
}
use rc_plane.Base.Int.{ℤ, pos, negsuc, pos_part, neg_part, ◌+ℤ◌, int8_of_byte}
use rc_plane.Double.{Double, cast_uint8}
use rc_plane.Common.State.{user_roll, user_pitch, assistance_flag}
use rc_plane.Common.Packet.{
  HandshakePacket, RcRxPacket, ControlSurfacePacket, ImuPacket, handshake_packet, rc_rx_packet,
  control_surface_packet, imu_packet,
}
use rc_plane.Common.Packet.Bytes.{
  Packet, handshake_layout, rc_rx_layout, control_surface_layout, imu_layout,
}

-- `read_bytes` may return fewer bytes than it is asked for. The readings are `float` patterns.
pub record Board (W : Type 0) : Type 0 where
  pub pulse_in : ℕ → W → ℕ × W
  pub millis : W → ℕ × W
  pub print_line : String → W → W
  pub write_bytes : List ℕ → W → W
  pub read_bytes : ℕ → W → List ℕ × W
  pub analog_write : ℕ → ℤ → W → W
  pub start : W → W
  pub start_imu : W → W
  pub update_imu : W → ImuPacket × W

abbrev pub motor_in : ℕ
motor_in = 5

abbrev pub aileron_in : ℕ
aileron_in = 2

abbrev pub elevator_in : ℕ
elevator_in = 3

abbrev pub rudder_in : ℕ
rudder_in = 4

abbrev pub assistance_in : ℕ
assistance_in = 6

abbrev pub elevator_out : ℕ
elevator_out = 8

unfoldable pub to_range : {F : Type 0} ⦃d : Double F⦄ → F → F → F → F
to_range ⦃d⦄ value min_offset max_offset =
    let low = d.of_int (pos 1000) in
    let high = d.of_int (pos 2000) in
    d.add (d.mul (d.div (d.sub value low) (d.sub high low)) (d.sub max_offset min_offset))
      min_offset

unfoldable pub has_user_input : ℤ → Bool
has_user_input value = leb 3 (pos_part value) || leb 3 (neg_part value)

-- The state, from the pulse of the switch and the positions of the two sticks.
unfoldable pub packet_state : ℕ → ℤ → ℤ → ℕ
unfolding has_user_input
packet_state switch aileron elevator =
    bit_or
      (bit_or (if ltb 1600 switch then assistance_flag else 0)
        (if has_user_input aileron then user_roll else 0))
      (if has_user_input elevator then user_pitch else 0)

-- The members of the sketch.
pub record Sketch : Type 0 where
  pub handshake : HandshakePacket
  pub rc_rx : RcRxPacket
  pub control_surface : ControlSurfacePacket
  pub imu : ImuPacket

abbrev pub sketch : Sketch
sketch = record {
  handshake = handshake_packet;
  rc_rx = rc_rx_packet;
  control_surface = control_surface_packet;
  imu = imu_packet;
}

module _ {W : Type 0} (board : Board W) where
  -- `writePacket` and `readPacket` of Packet.hpp: bytes that do not come keep their old values.
  unfoldable pub write_board_packet : {P : Type 0} ⦃l : Packet P⦄ → P → W → W
  write_board_packet ⦃l⦄ packet w = board.write_bytes (l.to_bytes packet) w

  unfoldable pub read_board_packet : {P : Type 0} ⦃l : Packet P⦄ → P → W → Option (P × W)
  read_board_packet ⦃l⦄ packet w =
      let (bytes, w') = board.read_bytes l.size w in
      do packet' ← l.of_bytes (bytes ++ drop (length bytes) (l.to_bytes packet)); some (packet', w')

  -- The start of `setup`, up to the line that announces it, and what follows.
  unfoldable pub greet : W → W
  greet w = board.print_line "flush" (board.start w)

  unfoldable pub finish_setup : Sketch → W → Option (Sketch × W)
  unfolding write_board_packet read_board_packet
  finish_setup s w = do
    (packet, w') ← read_board_packet s.handshake w
    some (record s { handshake = packet }, board.start_imu (write_board_packet packet w'))

  unfoldable pub setup : Sketch → W → Option (Sketch × W)
  unfolding greet finish_setup
  setup s w = finish_setup s (greet w)

  -- The end of `loop`: the aileron goes to the pin of the elevator.
  unfoldable pub take_answer : Sketch → W → Option (Sketch × W)
  unfolding read_board_packet
  take_answer s w = do
    (answer, w) ← read_board_packet s.control_surface w
    some (
      record s { control_surface = answer },
      board.analog_write elevator_out (answer.aileron_deflection +ℤ pos 115) w,
    )

  module _ (F : Type 0) ⦃d : Double F⦄ where
    -- The pulse of a stick, in the range from -100 to 100, through `uint8_t` to `int8_t`.
    unfoldable pub read_stick : ℕ → W → Option (ℤ × W)
    unfolding to_range
    read_stick pin w =
        let (pulse, w') = board.pulse_in pin w in
        do
          byte ←
              cast_uint8
                (to_range (d.of_int (pos pulse)) (d.of_int (negsuc 99)) (d.of_int (pos 100)))
          some (int8_of_byte byte, w')

    unfoldable pub read_sticks : W → Option (RcRxPacket × W)
    unfolding read_stick packet_state
    read_sticks w =
        let (pulse, w) = board.pulse_in motor_in w in
        do
          motor ←
              cast_uint8 (to_range (d.of_int (pos pulse)) (d.of_int (pos 0)) (d.of_int (pos 100)))
          (aileron, w) ← read_stick aileron_in w
          (elevator, w) ← read_stick elevator_in w
          (rudder, w) ← read_stick rudder_in w
          let (timestamp, w) = board.millis w
          let (switch, w) = board.pulse_in assistance_in w
          some (
            record {
              timestamp = timestamp;
              state = packet_state switch aileron elevator;
              motor_stick_position = motor;
              aileron_stick_position = aileron;
              elevator_stick_position = elevator;
              rudder_stick_position = rudder;
            },
            w,
          )

    -- `loop` up to the IMU packet, which it sends after that of the sticks.
    unfoldable pub send_packets : Sketch → W → Option (Sketch × W)
    unfolding read_sticks write_board_packet
    send_packets s w = do
      (rc_rx, w) ← read_sticks w
      let (imu, w) = board.update_imu (write_board_packet rc_rx w)
      some (record s { rc_rx = rc_rx; imu = imu }, write_board_packet imu w)

    unfoldable pub loop : Sketch → W → Option (Sketch × W)
    unfolding send_packets take_answer
    loop s w = do (s, w) ← send_packets s w; take_answer s w

    -- The sketch after each of n calls of `loop`, and the end.
    unfoldable pub loops : ℕ → Sketch → W → Option (List Sketch × W)
    unfolding loop
    loops zero s w = some ([], w)
    loops (suc n) s w = do (s', w') ← loop s w; (log, w'') ← loops n s' w'; some (s' ∷ log, w'')
