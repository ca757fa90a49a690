-- ===== src/Common/Packet/Local.antt =====
-- The cast of a buffer looks at no more than `sizeof` bytes.
use rc_plane.Base.{ℕ, suc, ◌+◌, ◌≤◌, ◌≡◌, refl, List, [], ◌∷◌, ◌++◌, some, length, arith}
use rc_plane.Common.Packet.Bytes.{
  Packet, rc_rx_layout, imu_layout, read_byte, read_word, rc_rx_of_bytes, imu_of_bytes,
}
use rc_plane.Common.Packet.{RcRxPacket, ImuPacket}

-- What follows the first `size` bytes does not matter.
abbrev pub IsLocal : (P : Type 0) → ⦃l : Packet P⦄ → Type 0
IsLocal P ⦃l⦄ =
    (bytes rest : List ℕ) → l.size ≤ length bytes → l.of_bytes (bytes ++ rest) ≡ l.of_bytes bytes

read_byte-append :
    (n : ℕ) (bytes rest : List ℕ)
    → suc n ≤ length bytes
    → (b : ℕ) × (left : List ℕ) × (read_byte bytes ≡ some (b, left))
      × (read_byte (bytes ++ rest) ≡ some (b, left ++ rest))
      × (n ≤ length left)
unfolding read_byte
read_byte-append n [] rest h = absurd (omega arith)
read_byte-append n (b ∷ left) rest h = (b, left, refl, refl, omega arith)

read_word-append_more :
    (n : ℕ) (bytes rest : List ℕ)
    → 4 + n ≤ length bytes
    → (v : ℕ) × (left : List ℕ) × (read_word bytes ≡ some (v, left))
      × (read_word (bytes ++ rest) ≡ some (v, left ++ rest))
      × (n ≤ length left)
unfolding read_word
read_word-append_more n (a ∷ b ∷ c ∷ d ∷ left) rest h = (_, left, refl, refl, omega arith)
read_word-append_more n [] rest h = absurd (omega arith)
read_word-append_more n (a ∷ []) rest h = absurd (omega arith)
read_word-append_more n (a ∷ b ∷ []) rest h = absurd (omega arith)
read_word-append_more n (a ∷ b ∷ c ∷ []) rest h = absurd (omega arith)

pub rc_rx-IsLocal : IsLocal RcRxPacket
unfolding rc_rx_of_bytes
rc_rx-IsLocal bytes rest h =
    let (timestamp, r₁, e₁, f₁, h₁) = read_word-append_more 5 bytes rest (omega arith) in
    let (state, r₂, e₂, f₂, h₂) = read_byte-append 4 r₁ rest h₁ in
    let (motor, r₃, e₃, f₃, h₃) = read_byte-append 3 r₂ rest h₂ in
    let (aileron, r₄, e₄, f₄, h₄) = read_byte-append 2 r₃ rest h₃ in
    let (elevator, r₅, e₅, f₅, h₅) = read_byte-append 1 r₄ rest h₄ in
    let (rudder, r₆, e₆, f₆, _) = read_byte-append 0 r₅ rest h₅ in
    rw (e₁, e₂, e₃, e₄, e₅, e₆, f₁, f₂, f₃, f₄, f₅, f₆) refl

pub imu-IsLocal : IsLocal ImuPacket
unfolding imu_of_bytes
imu-IsLocal bytes rest h =
    let (gyro_x, r₁, e₁, f₁, h₁) = read_word-append_more 24 bytes rest (omega arith) in
    let (gyro_y, r₂, e₂, f₂, h₂) = read_word-append_more 20 r₁ rest (omega arith) in
    let (gyro_z, r₃, e₃, f₃, h₃) = read_word-append_more 16 r₂ rest (omega arith) in
    let (acc_x, r₄, e₄, f₄, h₄) = read_word-append_more 12 r₃ rest (omega arith) in
    let (acc_y, r₅, e₅, f₅, h₅) = read_word-append_more 8 r₄ rest (omega arith) in
    let (acc_z, r₆, e₆, f₆, h₆) = read_word-append_more 4 r₅ rest (omega arith) in
    let (temperature, r₇, e₇, f₇, _) = read_word-append_more 0 r₆ rest (omega arith) in
    rw e₁ (
      rw f₁ (
        rw e₂ (
          rw f₂
            (rw e₃ (rw f₃ (rw e₄ (rw f₄ (rw e₅ (rw f₅ (rw e₆ (rw f₆ (rw e₇ (rw f₇ refl)))))))))))))
