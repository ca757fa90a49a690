-- ===== src/Common/Packet/RoundTrip.antt =====
-- A packet is read back from its bytes, whatever follows them.
use rc_plane.Base.{ℕ, ◌≤◌, ◌^◌, ◌<◌, ◌≡◌, refl, List, ◌++◌, some, length, arith}
use rc_plane.Base.Int.{IsInt8, int8_of_byte-to_uint8}
use rc_plane.Common.Packet.{HandshakePacket, RcRxPacket, ControlSurfacePacket, ImuPacket}
use rc_plane.Common.Packet.Total.{handshake_total, rc_rx_total, control_surface_total, imu_total}
use rc_plane.Common.Packet.Bytes.{
  Packet, read_word, word_bytes, handshake_of_bytes, rc_rx_to_bytes, rc_rx_of_bytes,
  control_surface_to_bytes, control_surface_of_bytes, imu_to_bytes, imu_of_bytes, handshake_layout,
  rc_rx_layout, control_surface_layout, imu_layout,
}

-- The values that the fields can hold.
pub record IsRcRxValue (p : RcRxPacket) : Type 0 where
  pub timestamp_lt : p.timestamp < 2 ^ 32
  pub state_lt : p.state < 256
  pub motor_lt : p.motor_stick_position < 256
  pub aileron_fits : IsInt8 p.aileron_stick_position
  pub elevator_fits : IsInt8 p.elevator_stick_position
  pub rudder_fits : IsInt8 p.rudder_stick_position

pub record IsControlSurfaceValue (p : ControlSurfacePacket) : Type 0 where
  pub motor_lt : p.motor_speed < 256
  pub aileron_fits : IsInt8 p.aileron_deflection
  pub elevator_fits : IsInt8 p.elevator_deflection
  pub rudder_fits : IsInt8 p.rudder_deflection

pub record IsImuValue (p : ImuPacket) : Type 0 where
  pub gyro_x_lt : p.gyro_x < 2 ^ 32
  pub gyro_y_lt : p.gyro_y < 2 ^ 32
  pub gyro_z_lt : p.gyro_z < 2 ^ 32
  pub acc_x_lt : p.acc_x < 2 ^ 32
  pub acc_y_lt : p.acc_y < 2 ^ 32
  pub acc_z_lt : p.acc_z < 2 ^ 32
  pub temperature_lt : p.temperature < 2 ^ 32

-- The bytes of a packet are `size` many, and the cast recovers the packet from them.
pub record IsLayout (P : Type 0) (IsValid : P → Type 0) ⦃l : Packet P⦄ : Type 0 where
  pub length-to_bytes : (p : P) → length (l.to_bytes p) ≡ l.size
  pub of_bytes_total :
      (bytes : List ℕ) → l.size ≤ length bytes → (p : P) × (l.of_bytes bytes ≡ some p)
  pub of_bytes-to_bytes :
      (p : P) (rest : List ℕ) → IsValid p → l.of_bytes (l.to_bytes p ++ rest) ≡ some p

read_word-append :
    (n : ℕ) (rest : List ℕ) → n < 2 ^ 32 → read_word (word_bytes n ++ rest) ≡ some (n, rest)
unfolding read_word
read_word-append n rest h = ground arith

rc_rx_round_trip :
    (p : RcRxPacket) (rest : List ℕ)
    → IsRcRxValue p
    → rc_rx_of_bytes (rc_rx_to_bytes p ++ rest) ≡ some p
unfolding rc_rx_of_bytes rc_rx_to_bytes
rc_rx_round_trip p rest v = ground (
  arith,
  int8_of_byte-to_uint8 p.aileron_stick_position,
  int8_of_byte-to_uint8 p.elevator_stick_position,
  int8_of_byte-to_uint8 p.rudder_stick_position,
)

imu_round_trip :
    (p : ImuPacket) (rest : List ℕ) → IsImuValue p → imu_of_bytes (imu_to_bytes p ++ rest) ≡ some p
unfolding imu_of_bytes imu_to_bytes
imu_round_trip p rest v = ground arith

control_surface_round_trip :
    (p : ControlSurfacePacket) (rest : List ℕ)
    → IsControlSurfaceValue p
    → control_surface_of_bytes (control_surface_to_bytes p ++ rest) ≡ some p
unfolding control_surface_of_bytes control_surface_to_bytes
control_surface_round_trip p rest v = ground (
  arith,
  int8_of_byte-to_uint8 p.aileron_deflection,
  int8_of_byte-to_uint8 p.elevator_deflection,
  int8_of_byte-to_uint8 p.rudder_deflection,
)

pub handshake-IsLayout : IsLayout HandshakePacket (λ p. Unit)
unfolding handshake_of_bytes
handshake-IsLayout = record {
  length-to_bytes = λ p. refl;
  of_bytes_total = handshake_total;
  of_bytes-to_bytes = λ p rest v. refl;
}

pub rc_rx-IsLayout : IsLayout RcRxPacket IsRcRxValue
unfolding rc_rx_to_bytes
rc_rx-IsLayout = record {
  length-to_bytes = λ p. refl;
  of_bytes_total = rc_rx_total;
  of_bytes-to_bytes = rc_rx_round_trip;
}

pub control_surface-IsLayout : IsLayout ControlSurfacePacket IsControlSurfaceValue
unfolding control_surface_to_bytes
control_surface-IsLayout = record {
  length-to_bytes = λ p. refl;
  of_bytes_total = control_surface_total;
  of_bytes-to_bytes = control_surface_round_trip;
}

pub imu-IsLayout : IsLayout ImuPacket IsImuValue
unfolding imu_to_bytes
imu-IsLayout = record {
  length-to_bytes = λ p. refl;
  of_bytes_total = imu_total;
  of_bytes-to_bytes = imu_round_trip;
}

-- Packets whose fields are values of their C++ types are read back from their bytes, whatever
-- follows these, and the bytes are 1, 9, 4 and 28.
pub packets_round_trip :
    (h : HandshakePacket) (r : RcRxPacket) (c : ControlSurfacePacket) (i : ImuPacket)
    (rest : List ℕ)
    → IsRcRxValue r
    → IsControlSurfaceValue c
    → IsImuValue i
    → (handshake_layout.of_bytes (handshake_layout.to_bytes h ++ rest) ≡ some h)
      × (rc_rx_of_bytes (rc_rx_to_bytes r ++ rest) ≡ some r)
      × (control_surface_of_bytes (control_surface_to_bytes c ++ rest) ≡ some c)
      × (imu_of_bytes (imu_to_bytes i ++ rest) ≡ some i)
      × (length (handshake_layout.to_bytes h) ≡ 1)
      × (length (rc_rx_to_bytes r) ≡ 9)
      × (length (control_surface_to_bytes c) ≡ 4)
      × (length (imu_to_bytes i) ≡ 28)
packets_round_trip h r c i rest vr vc vi = (
  handshake-IsLayout.of_bytes-to_bytes h rest tt,
  rc_rx_round_trip r rest vr,
  control_surface_round_trip c rest vc,
  imu_round_trip i rest vi,
  refl,
  rc_rx-IsLayout.length-to_bytes r,
  control_surface-IsLayout.length-to_bytes c,
  imu-IsLayout.length-to_bytes i,
)
