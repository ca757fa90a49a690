-- ===== src/Mcu/Sticks.antt =====
-- The packet of the sticks: each field is a value of its type.
use rc_plane.Base.{ℕ, ◌^◌, ◌<◌, ◌≡◌, some, arith, >>=-eq-some, some_pair}
use rc_plane.Base.Int.{ℤ, pos, negsuc, IsInt8, int8_of_byte}
use rc_plane.Double.{Double, cast_uint8}
use rc_plane.Common.Packet.{RcRxPacket}
use rc_plane.Common.Packet.RoundTrip.{IsRcRxValue, IsImuValue}
use rc_plane.Mcu.{
  Board, motor_in, aileron_in, elevator_in, rudder_in, assistance_in, to_range, read_stick,
  read_sticks,
}
use rc_plane.Mcu.Flags.{packet_state_lem}

-- What Arduino documents: `millis` is an `unsigned long` of 32 bits. A `float` has 32 bits.
pub record IsBoard {W : Type 0} (board : Board W) : Type 0 where
  pub millis-lt : (w : W) → (board.millis w).0 < 2 ^ 32
  pub imu_value : (w : W) → IsImuValue (board.update_imu w).0

int8_of_byte-IsInt8 : (b : ℕ) → b < 256 → IsInt8 (int8_of_byte b)
unfolding int8_of_byte
int8_of_byte-IsInt8 b h = ground arith

module _ (F : Type 0) ⦃d : Double F⦄ where
  cast_uint8-lt : (x : F) (n : ℕ) → cast_uint8 x ≡ some n → n < 256
  unfolding cast_uint8
  cast_uint8-lt x n h = ground arith

module _ {W : Type 0} (board : Board W) (laws : IsBoard board) (F : Type 0) ⦃d : Double F⦄ where
  read_stick-IsInt8 :
      (pin : ℕ) (w w' : W) (v : ℤ) → read_stick board F pin w ≡ some (v, w') → IsInt8 v
  unfolding read_stick
  read_stick-IsInt8 pin w w' v h =
      let (pulse, w₁) = board.pulse_in pin w in
      let (byte, e, done) =
        >>=-eq-some
          (cast_uint8 (to_range (d.of_int (pos pulse)) (d.of_int (negsuc 99)) (d.of_int (pos 100))))
          _ h in
      rw (← (some_pair (int8_of_byte byte) v w₁ w' done).0)
        (int8_of_byte-IsInt8 byte (cast_uint8-lt F _ byte e))

  -- On a board that meets its laws, a packet of the sticks that is sent has fields that are values of
  -- their types.
  pub read_sticks-IsRcRxValue :
      (w w' : W) (r : RcRxPacket) → read_sticks board F w ≡ some (r, w') → IsRcRxValue r
  unfolding read_sticks
  read_sticks-IsRcRxValue w w' r h =
      let (pulse, w₁) = board.pulse_in motor_in w in
      let (motor, e₁, h₁) =
        >>=-eq-some
          (cast_uint8 (to_range (d.of_int (pos pulse)) (d.of_int (pos 0)) (d.of_int (pos 100)))) _
          h in
      let ((aileron, w₂), e₂, h₂) = >>=-eq-some (read_stick board F aileron_in w₁) _ h₁ in
      let ((elevator, w₃), e₃, h₃) = >>=-eq-some (read_stick board F elevator_in w₂) _ h₂ in
      let ((rudder, w₄), e₄, done) = >>=-eq-some (read_stick board F rudder_in w₃) _ h₃ in
      let (timestamp, w₅) = board.millis w₄ in
      let (switch, w₆) = board.pulse_in assistance_in w₅ in
      rw (← (some_pair _ r w₆ w' done).0) (record {
        timestamp_lt = laws.millis-lt w₄;
        state_lt = (packet_state_lem switch aileron elevator).0;
        motor_lt = cast_uint8-lt F _ motor e₁;
        aileron_fits = read_stick-IsInt8 aileron_in w₁ w₂ aileron e₂;
        elevator_fits = read_stick-IsInt8 elevator_in w₂ w₃ elevator e₃;
        rudder_fits = read_stick-IsInt8 rudder_in w₃ w₄ rudder e₄;
      })
