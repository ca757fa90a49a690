-- ===== src/Base/Bits.antt =====
-- The top bit of a byte, which is the assistance flag of a packet's state.
use Prim.Native.Nat.{ℕ, zero, suc, ◌+◌, ◌<◌, bit_and}
use mathlib.Core.Path.{◌≡◌, refl}
use native.Mathlib.Omega.{arith}
use rc_plane.Base.Tests.{leb, ◌==◌, if◌then◌else◌}

-- How many values below the bound have a top bit other than their comparison with 128 says.
wrong_top_bits : ℕ → ℕ
wrong_top_bits zero = 0
wrong_top_bits (suc bound) =
    (if bit_and bound 0x80 == (if leb 128 bound then 128 else 0) then 0 else 1)
    + wrong_top_bits bound

no_byte_wrong : wrong_top_bits 256 ≡ 0
unfolding wrong_top_bits
no_byte_wrong = refl

top_bit_lem :
    (bound value : ℕ)
    → wrong_top_bits bound ≡ 0
    → value < bound
    → bit_and value 0x80 ≡ (if leb 128 value then 128 else 0)
unfolding wrong_top_bits
top_bit_lem zero value none_wrong in_bound = absurd (omega arith)
top_bit_lem (suc bound) value none_wrong in_bound = ground (arith, top_bit_lem bound value)

-- The top bit of a byte is set exactly from 128 on.
pub top_bit : (x : ℕ) → x < 256 → bit_and x 0x80 ≡ (if leb 128 x then 128 else 0)
top_bit x h = top_bit_lem 256 x no_byte_wrong h
