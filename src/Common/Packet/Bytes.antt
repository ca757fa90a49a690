-- ===== src/Common/Packet/Bytes.antt =====
-- The bytes of a packed struct in the memory of the two little-endian processors, which is what
-- goes over the serial line: `(uint8_t *)&packet` of `sizeof(packet)` bytes, and its inverse, the
-- cast of a buffer to a packet. The cast reads past a buffer that is too short: `none`.
use rc_plane.Base.{ℕ, ◌+◌, ◌*◌, ◌/◌, ◌%◌, ◌^◌, List, [], ◌∷◌, ◌++◌, Option, none, some, ◌>>=◌}
use rc_plane.Base.Int.{to_uint8, int8_of_byte}
use rc_plane.Common.Packet.{
  HandshakePacket, RcRxPacket, ControlSurfacePacket, ImuPacket, handshake_packet, rc_rx_packet,
  control_surface_packet, imu_packet,
}

-- What `readPacket` and `writePacket` use of `PACKET_TYPE`.
pub record Packet (P : Type 0) : Type 0 where
  pub initial : P
  pub size : ℕ
  pub to_bytes : P → List ℕ
  pub of_bytes : List ℕ → Option P

abbrev pub word_bytes : ℕ → List ℕ
word_bytes n = n % 256 ∷ n / 2 ^ 8 % 256 ∷ n / 2 ^ 16 % 256 ∷ n / 2 ^ 24 % 256 ∷ []

unfoldable pub read_word : List ℕ → Option (ℕ × List ℕ)
read_word (a ∷ b ∷ c ∷ d ∷ rest) = some (a + 2 ^ 8 * b + 2 ^ 16 * c + 2 ^ 24 * d, rest)
read_word _ = none

unfoldable pub read_byte : List ℕ → Option (ℕ × List ℕ)
read_byte [] = none
read_byte (b ∷ rest) = some (b, rest)

unfoldable pub handshake_of_bytes : List ℕ → Option HandshakePacket
unfolding read_byte
handshake_of_bytes bytes = do (b, _) ← read_byte bytes; some (record { handshake = b })

unfoldable pub rc_rx_to_bytes : RcRxPacket → List ℕ
rc_rx_to_bytes p =
    word_bytes p.timestamp
    ++ p.state
      ∷ p.motor_stick_position
      ∷ to_uint8 p.aileron_stick_position
      ∷ to_uint8 p.elevator_stick_position
      ∷ to_uint8 p.rudder_stick_position
      ∷ []

unfoldable pub rc_rx_of_bytes : List ℕ → Option RcRxPacket
unfolding read_word read_byte
rc_rx_of_bytes bytes = do
  (timestamp, r) ← read_word bytes
  (state, r) ← read_byte r
  (motor, r) ← read_byte r
  (aileron, r) ← read_byte r
  (elevator, r) ← read_byte r
  (rudder, r) ← read_byte r
  some (record {
    timestamp = timestamp;
    state = state;
    motor_stick_position = motor;
    aileron_stick_position = int8_of_byte aileron;
    elevator_stick_position = int8_of_byte elevator;
    rudder_stick_position = int8_of_byte rudder;
  })

unfoldable pub control_surface_to_bytes : ControlSurfacePacket → List ℕ
control_surface_to_bytes p =
    p.motor_speed
    ∷ to_uint8 p.aileron_deflection
    ∷ to_uint8 p.elevator_deflection
    ∷ to_uint8 p.rudder_deflection
    ∷ []

unfoldable pub control_surface_of_bytes : List ℕ → Option ControlSurfacePacket
unfolding read_byte
control_surface_of_bytes bytes = do
  (motor, r) ← read_byte bytes
  (aileron, r) ← read_byte r
  (elevator, r) ← read_byte r
  (rudder, r) ← read_byte r
  some (record {
    motor_speed = motor;
    aileron_deflection = int8_of_byte aileron;
    elevator_deflection = int8_of_byte elevator;
    rudder_deflection = int8_of_byte rudder;
  })

unfoldable pub imu_to_bytes : ImuPacket → List ℕ
imu_to_bytes p =
    word_bytes p.gyro_x
    ++ (word_bytes p.gyro_y
        ++ (word_bytes p.gyro_z
            ++ (word_bytes p.acc_x
                ++ (word_bytes p.acc_y ++ (word_bytes p.acc_z ++ word_bytes p.temperature)))))

unfoldable pub imu_of_bytes : List ℕ → Option ImuPacket
unfolding read_word
imu_of_bytes bytes = do
  (gyro_x, r) ← read_word bytes
  (gyro_y, r) ← read_word r
  (gyro_z, r) ← read_word r
  (acc_x, r) ← read_word r
  (acc_y, r) ← read_word r
  (acc_z, r) ← read_word r
  (temperature, r) ← read_word r
  some (record {
    gyro_x = gyro_x;
    gyro_y = gyro_y;
    gyro_z = gyro_z;
    acc_x = acc_x;
    acc_y = acc_y;
    acc_z = acc_z;
    temperature = temperature;
  })

instance abbrev pub handshake_layout : Packet HandshakePacket
handshake_layout = record {
  initial = handshake_packet;
  size = 1;
  to_bytes = λ p. p.handshake ∷ [];
  of_bytes = handshake_of_bytes;
}

instance abbrev pub rc_rx_layout : Packet RcRxPacket
rc_rx_layout = record {
  initial = rc_rx_packet;
  size = 9;
  to_bytes = rc_rx_to_bytes;
  of_bytes = rc_rx_of_bytes;
}

instance abbrev pub control_surface_layout : Packet ControlSurfacePacket
control_surface_layout = record {
  initial = control_surface_packet;
  size = 4;
  to_bytes = control_surface_to_bytes;
  of_bytes = control_surface_of_bytes;
}

instance abbrev pub imu_layout : Packet ImuPacket
imu_layout = record {
  initial = imu_packet;
  size = 28;
  to_bytes = imu_to_bytes;
  of_bytes = imu_of_bytes;
}
