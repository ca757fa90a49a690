-- ===== src/Common/Packet/Print.antt =====
-- impl/include/rcplane/common/Packet.hpp: the packets as they are put on a stream.
use rc_plane.Base.{ℕ, zero, suc, ◌<◌, ◌^◌, ◌/◌, ◌%◌, ◌≡◌, ◌==◌, Bool, List, [], ◌∷◌, arith}
use rc_plane.Base.Int.{pos}
use rc_plane.Base.Stream.{Piece, text, number, real, bits}
use rc_plane.Common.Packet.{HandshakePacket, RcRxPacket, ControlSurfacePacket, ImuPacket}

-- The n lowest bits of a value, the highest of them first, in front of some others: `std::bitset`.
unfoldable pub bitset_before : ℕ → ℕ → List Bool → List Bool
bitset_before zero value rest = rest
bitset_before (suc n) value rest = bitset_before n (value / 2) ((value % 2 == 1) ∷ rest)

-- The numbers are promoted with `+`.
unfoldable pub print_handshake : HandshakePacket → List (Piece ℕ)
print_handshake p = text "handshake = " ∷ number (pos p.handshake) ∷ []

unfoldable pub print_rc_rx : RcRxPacket → List (Piece ℕ)
unfolding bitset_before
print_rc_rx p =
    text "timestamp = "
    ∷ number (pos p.timestamp)
    ∷ text " | state = "
    ∷ bits (bitset_before 8 p.state [])
    ∷ text " | motorStickPosition = "
    ∷ number (pos p.motor_stick_position)
    ∷ text " | aileronStickPosition = "
    ∷ number p.aileron_stick_position
    ∷ text " | elevatorStickPosition = "
    ∷ number p.elevator_stick_position
    ∷ text " | rudderStickPosition = "
    ∷ number p.rudder_stick_position
    ∷ []

unfoldable pub print_control_surface : ControlSurfacePacket → List (Piece ℕ)
print_control_surface p =
    text "motorSpeed = "
    ∷ number (pos p.motor_speed)
    ∷ text " | aileronDeflection = "
    ∷ number p.aileron_deflection
    ∷ text " | elevatorDeflection = "
    ∷ number p.elevator_deflection
    ∷ text " | rudderDeflection = "
    ∷ number p.rudder_deflection
    ∷ []

-- A `float` is its 32-bit pattern here too: the text of a number is not kept.
unfoldable pub print_imu : ImuPacket → List (Piece ℕ)
print_imu p =
    text "gyroX = "
    ∷ real p.gyro_x
    ∷ text " | gyroY = "
    ∷ real p.gyro_y
    ∷ text "| gyroZ = "
    ∷ real p.gyro_z
    ∷ text " | accX = "
    ∷ real p.acc_x
    ∷ text " | accY = "
    ∷ real p.acc_y
    ∷ text " | accZ = "
    ∷ real p.acc_z
    ∷ text " | temperature = "
    ∷ real p.temperature
    ∷ []

half-eq : (a b : ℕ) → a / 2 ≡ b / 2 → (a % 2 == 1) ≡ (b % 2 == 1) → a ≡ b
half-eq a b e f = ground arith

half_lt : (a n : ℕ) → a < 2 ^ suc n → a / 2 < 2 ^ n
half_lt a n h = omega arith

head-eq : {x y : Bool} {s t : List Bool} → x ∷ s ≡ y ∷ t → x ≡ y
head-eq e = cc

tail-eq : {x y : Bool} {s t : List Bool} → x ∷ s ≡ y ∷ t → s ≡ t
tail-eq e = cc

bitset_before-eq :
    (n a b : ℕ) (s t : List Bool)
    → a < 2 ^ n
    → b < 2 ^ n
    → bitset_before n a s ≡ bitset_before n b t
    → (a ≡ b) × (s ≡ t)
unfolding bitset_before
bitset_before-eq zero a b s t ha hb e = (omega arith, e)
bitset_before-eq (suc n) a b s t ha hb e =
    let (h, k) =
      bitset_before-eq n (a / 2) (b / 2) ((a % 2 == 1) ∷ s) ((b % 2 == 1) ∷ t) (half_lt a n ha)
        (half_lt b n hb) e in
    (half-eq a b h (head-eq k), tail-eq k)

-- Two stick packets of byte-wide states that are printed alike are the same.
pub print_rc_rx-eq :
    (p q : RcRxPacket) → p.state < 256 → q.state < 256 → print_rc_rx p ≡ print_rc_rx q → p ≡ q
unfolding print_rc_rx
print_rc_rx-eq p q hp hq e =
    let same_bits : bitset_before 8 p.state [] ≡ bitset_before 8 q.state [] = cc in
    let (state, _) = bitset_before-eq 8 p.state q.state [] [] hp hq same_bits in cc
