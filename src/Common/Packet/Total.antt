-- ===== src/Common/Packet/Total.antt =====
-- The cast of a buffer to a packet is defined when the buffer holds `sizeof` bytes.
use rc_plane.Base.{ℕ, suc, ◌+◌, ◌≤◌, ◌≡◌, refl, List, [], ◌∷◌, some, length, arith}
use rc_plane.Base.Int.{int8_of_byte}
use rc_plane.Common.Packet.{HandshakePacket, RcRxPacket, ControlSurfacePacket, ImuPacket}
use rc_plane.Common.Packet.Bytes.{
  read_byte, read_word, handshake_of_bytes, rc_rx_of_bytes, control_surface_of_bytes, imu_of_bytes,
}

read_byte_total :
    (n : ℕ) (bytes : List ℕ)
    → suc n ≤ length bytes
    → (b : ℕ) × (rest : List ℕ) × (read_byte bytes ≡ some (b, rest)) × (n ≤ length rest)
unfolding read_byte
read_byte_total n [] h = absurd (omega arith)
read_byte_total n (b ∷ rest) h = (b, rest, refl, omega arith)

read_word_total :
    (n : ℕ) (bytes : List ℕ)
    → 4 + n ≤ length bytes
    → (v : ℕ) × (rest : List ℕ) × (read_word bytes ≡ some (v, rest)) × (n ≤ length rest)
unfolding read_word
read_word_total n (a ∷ b ∷ c ∷ d ∷ rest) h = (_, rest, refl, omega arith)
read_word_total n [] h = absurd (omega arith)
read_word_total n (a ∷ []) h = absurd (omega arith)
read_word_total n (a ∷ b ∷ []) h = absurd (omega arith)
read_word_total n (a ∷ b ∷ c ∷ []) h = absurd (omega arith)

pub handshake_total :
    (bytes : List ℕ)
    → 1 ≤ length bytes
    → (p : HandshakePacket) × (handshake_of_bytes bytes ≡ some p)
unfolding handshake_of_bytes
handshake_total bytes h =
    let (b, _, e, _) = read_byte_total 0 bytes h in (record { handshake = b }, rw e refl)

pub rc_rx_total :
    (bytes : List ℕ) → 9 ≤ length bytes → (p : RcRxPacket) × (rc_rx_of_bytes bytes ≡ some p)
unfolding rc_rx_of_bytes
rc_rx_total bytes h =
    let (timestamp, r₁, e₁, h₁) = read_word_total 5 bytes (omega arith) in
    let (state, r₂, e₂, h₂) = read_byte_total 4 r₁ h₁ in
    let (motor, r₃, e₃, h₃) = read_byte_total 3 r₂ h₂ in
    let (aileron, r₄, e₄, h₄) = read_byte_total 2 r₃ h₃ in
    let (elevator, r₅, e₅, h₅) = read_byte_total 1 r₄ h₄ in
    let (rudder, r₆, e₆, _) = read_byte_total 0 r₅ h₅ in
    let p : RcRxPacket = record {
      timestamp = timestamp;
      state = state;
      motor_stick_position = motor;
      aileron_stick_position = int8_of_byte aileron;
      elevator_stick_position = int8_of_byte elevator;
      rudder_stick_position = int8_of_byte rudder;
    } in
    (p, rw (e₁, e₂, e₃, e₄, e₅, e₆) refl)

pub control_surface_total :
    (bytes : List ℕ)
    → 4 ≤ length bytes
    → (p : ControlSurfacePacket) × (control_surface_of_bytes bytes ≡ some p)
unfolding control_surface_of_bytes
control_surface_total bytes h =
    let (motor, r₁, e₁, h₁) = read_byte_total 3 bytes h in
    let (aileron, r₂, e₂, h₂) = read_byte_total 2 r₁ h₁ in
    let (elevator, r₃, e₃, h₃) = read_byte_total 1 r₂ h₂ in
    let (rudder, _, e₄, _) = read_byte_total 0 r₃ h₃ in
    let p : ControlSurfacePacket = record {
      motor_speed = motor;
      aileron_deflection = int8_of_byte aileron;
      elevator_deflection = int8_of_byte elevator;
      rudder_deflection = int8_of_byte rudder;
    } in
    (p, rw (e₁, e₂, e₃, e₄) refl)

pub imu_total :
    (bytes : List ℕ) → 28 ≤ length bytes → (p : ImuPacket) × (imu_of_bytes bytes ≡ some p)
unfolding imu_of_bytes
imu_total bytes h =
    let (gyro_x, r₁, e₁, h₁) = read_word_total 24 bytes h in
    let (gyro_y, r₂, e₂, h₂) = read_word_total 20 r₁ h₁ in
    let (gyro_z, r₃, e₃, h₃) = read_word_total 16 r₂ h₂ in
    let (acc_x, r₄, e₄, h₄) = read_word_total 12 r₃ h₃ in
    let (acc_y, r₅, e₅, h₅) = read_word_total 8 r₄ h₄ in
    let (acc_z, r₆, e₆, h₆) = read_word_total 4 r₅ h₅ in
    let (temperature, _, e₇, _) = read_word_total 0 r₆ h₆ in
    let p : ImuPacket = record {
      gyro_x = gyro_x;
      gyro_y = gyro_y;
      gyro_z = gyro_z;
      acc_x = acc_x;
      acc_y = acc_y;
      acc_z = acc_z;
      temperature = temperature;
    } in
    (p, rw (e₁, e₂, e₃, e₄, e₅, e₆, e₇) refl)
