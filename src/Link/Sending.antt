-- ===== src/Link/Sending.antt =====
-- What the sketch puts on the line, and what it takes from it.
use rc_plane.Base.{ℕ, ◌≡◌, refl, ◌∙◌, some, List, [], ◌++◌, String, >>=-eq-some, some_pair}
use rc_plane.Base.Int.{ℤ, pos, negsuc, ◌+ℤ◌}
use rc_plane.Double.{Double, cast_uint8}
use rc_plane.Common.Packet.{RcRxPacket, ControlSurfacePacket}
use rc_plane.Common.Packet.Bytes.{
  rc_rx_layout, imu_layout, control_surface_layout, rc_rx_to_bytes, imu_to_bytes,
  control_surface_to_bytes,
}
use rc_plane.Common.Packet.RoundTrip.{
  IsRcRxValue, IsImuValue, IsControlSurfaceValue, control_surface-IsLayout,
}
use rc_plane.Mcu.{
  Board, Sketch, motor_in, aileron_in, elevator_in, rudder_in, elevator_out, to_range, read_stick,
  read_sticks, send_packets, take_answer, read_board_packet,
}
use rc_plane.Mcu.Sticks.{IsBoard, read_sticks-IsRcRxValue}
use rc_plane.Link.{Link, link_board}

-- A board on the line meets the laws of the board itself.
pub link_board-IsBoard :
    {E : Type 0} (text : String → List ℕ) (board : Board E)
    → IsBoard board
    → IsBoard (link_board text board)
link_board-IsBoard text board laws = record {
  millis-lt = λ w. laws.millis-lt w.env;
  imu_value = λ w. laws.imu_value w.env;
}

-- The sketch has sent its two packets, and has taken nothing.
pub record IsSent {E : Type 0} {text : String → List ℕ} (w w' : Link E text) (s : Sketch)
    : Type 0 where
  pub sent_up : w'.up ≡ (w.up ++ rc_rx_to_bytes s.rc_rx) ++ imu_to_bytes s.imu
  pub kept_down : w'.down ≡ w.down
  pub rc_rx_value : IsRcRxValue s.rc_rx
  pub imu_value : IsImuValue s.imu

module _ {E : Type 0} (text : String → List ℕ) (board : Board E) (laws : IsBoard board) (F : Type 0)
    ⦃d : Double F⦄ where
  read_stick_link :
      (pin : ℕ) (w w' : Link E text) (v : ℤ)
      → read_stick (link_board text board) F pin w ≡ some (v, w')
      → (w'.up ≡ w.up) × (w'.down ≡ w.down)
  unfolding read_stick
  read_stick_link pin w w' v h =
      let (pulse, e) = board.pulse_in pin w.env in
      let (byte, _, done) =
        >>=-eq-some
          (cast_uint8 (to_range (d.of_int (pos pulse)) (d.of_int (negsuc 99)) (d.of_int (pos 100))))
          _ h in
      rw (← (some_pair _ v (record w { env = e }) w' done).1) (refl, refl)

  read_sticks_link :
      (w w' : Link E text) (r : RcRxPacket)
      → read_sticks (link_board text board) F w ≡ some (r, w')
      → (w'.up ≡ w.up) × (w'.down ≡ w.down)
  unfolding read_sticks
  read_sticks_link w w' r h =
      let (pulse, e₁) = board.pulse_in motor_in w.env in
      let w₁ : Link E text = record w { env = e₁ } in
      let (motor, _, h₁) =
        >>=-eq-some
          (cast_uint8 (to_range (d.of_int (pos pulse)) (d.of_int (pos 0)) (d.of_int (pos 100)))) _
          h in
      let ((aileron, w₂), s₂, h₂) =
        >>=-eq-some (read_stick (link_board text board) F aileron_in w₁) _ h₁ in
      let ((elevator, w₃), s₃, h₃) =
        >>=-eq-some (read_stick (link_board text board) F elevator_in w₂) _ h₂ in
      let ((rudder, w₄), s₄, done) =
        >>=-eq-some (read_stick (link_board text board) F rudder_in w₃) _ h₃ in
      let (up₂, down₂) = read_stick_link aileron_in w₁ w₂ aileron s₂ in
      let (up₃, down₃) = read_stick_link elevator_in w₂ w₃ elevator s₃ in
      let (up₄, down₄) = read_stick_link rudder_in w₃ w₄ rudder s₄ in
      rw (← (some_pair _ r _ w' done).1) (up₄ ∙ (up₃ ∙ up₂), down₄ ∙ (down₃ ∙ down₂))

  pub send_packets-IsSent :
      (s s' : Sketch) (w w' : Link E text)
      → send_packets (link_board text board) F s w ≡ some (s', w')
      → IsSent w w' s'
  unfolding send_packets
  send_packets-IsSent s s' w w' h =
      let ((r, w₁), e, done) = >>=-eq-some (read_sticks (link_board text board) F w) _ h in
      let (up, down) = read_sticks_link w w₁ r e in
      let (same, world) = some_pair _ s' _ w' done in
      rw (← same, ← world)
        (record {
          sent_up = rw up refl;
          kept_down = down;
          rc_rx_value =
              read_sticks-IsRcRxValue (link_board text board) (link_board-IsBoard text board laws) F
                w w₁ r e;
          imu_value = laws.imu_value w₁.env;
        })

  pub send_packets_keeps :
      (s s' : Sketch) (w w' : Link E text)
      → send_packets (link_board text board) F s w ≡ some (s', w')
      → s'.control_surface ≡ s.control_surface
  unfolding send_packets
  send_packets_keeps s s' w w' h =
      let ((r, w₁), e, done) = >>=-eq-some (read_sticks (link_board text board) F w) _ h in
      rw (← (some_pair _ s' _ w' done).0) refl

  read_answer :
      (old answer : ControlSurfacePacket) (w : Link E text) (rest : List ℕ)
      → w.down ≡ control_surface_to_bytes answer ++ rest
      → IsControlSurfaceValue answer
      → read_board_packet (link_board text board) old w ≡ some (answer, record w { down = rest })
  unfolding read_board_packet control_surface_to_bytes
  read_answer old answer w rest h v =
      rw (h, control_surface-IsLayout.of_bytes-to_bytes answer [] v) refl

  -- The packet at the front of the line is taken, and what follows is left.
  pub take_answer_lem :
      (s : Sketch) (w : Link E text) (answer : ControlSurfacePacket) (rest : List ℕ)
      → w.down ≡ control_surface_to_bytes answer ++ rest
      → IsControlSurfaceValue answer
      → (w' : Link E text) × (take_answer (link_board text board) s w
          ≡ some (record s { control_surface = answer }, w'))
        × (w'.up ≡ w.up)
        × (w'.down ≡ rest)
  unfolding take_answer
  take_answer_lem s w answer rest h v =
      let w' : Link E text = record w {
        env = board.analog_write elevator_out (answer.aileron_deflection +ℤ pos 115) w.env;
        down = rest;
      } in
      (w', rw (read_answer s.control_surface answer w rest h v) refl, refl, refl)
