-- ===== src/Base/Int.antt =====
-- The `int` that the usual arithmetic conversions compute in, over the native numbers, and the
-- conversions from it to `int8_t` and `uint8_t`.
use Prim.Native.Nat.{ℕ, zero, suc, ◌+◌, ◌-◌, ◌*◌, ◌/◌, ◌%◌, ◌≤◌, ◌<◌}
use mathlib.Core.Path.{◌≡◌, refl}
use mathlib.Core.Bool.{Bool}
use native.Mathlib.Omega.{arith}
use rc_plane.Base.Tests.{ltb, leb, if◌then◌else◌}

-- `negsuc n` is -(n + 1).
pub data ℤ : Type 0 where
  pos : ℕ → ℤ
  negsuc : ℕ → ℤ

abbrev pub pos_part : ℤ → ℕ
pos_part (pos n) = n
pos_part (negsuc n) = 0

abbrev pub neg_part : ℤ → ℕ
neg_part (pos n) = 0
neg_part (negsuc n) = suc n

-- a - b, as an integer.
abbrev pub sub_ℕ : ℕ → ℕ → ℤ
sub_ℕ a b = if leb b a then pos (a - b) else negsuc (b - a - 1)

infixl 65 ◌+ℤ◌ ◌-ℤ◌
infixl 70 ◌*ℤ◌ ◌/ℤ◌
infix 50 ◌≤ℤ◌
unfoldable pub ◌+ℤ◌ : ℤ → ℤ → ℤ
a +ℤ b = sub_ℕ (pos_part a + pos_part b) (neg_part a + neg_part b)

unfoldable pub ◌-ℤ◌ : ℤ → ℤ → ℤ
a -ℤ b = sub_ℕ (pos_part a + neg_part b) (neg_part a + pos_part b)

unfoldable pub negate : ℤ → ℤ
negate a = sub_ℕ (neg_part a) (pos_part a)

unfoldable pub ◌*ℤ◌ : ℤ → ℤ → ℤ
a *ℤ b =
    sub_ℕ (pos_part a * pos_part b + neg_part a * neg_part b)
      (pos_part a * neg_part b + neg_part a * pos_part b)

-- Division that rounds towards zero.
unfoldable pub ◌/ℤ◌ : ℤ → ℤ → ℤ
pos a /ℤ pos b = pos (a / b)
pos a /ℤ negsuc b = sub_ℕ 0 (a / suc b)
negsuc a /ℤ pos b = sub_ℕ 0 (suc a / b)
negsuc a /ℤ negsuc b = pos (suc a / suc b)

abbrev pub ◌≤ℤ◌ : ℤ → ℤ → Type 0
a ≤ℤ b = pos_part a + neg_part b ≤ pos_part b + neg_part a

abbrev pub ltb_ℤ : ℤ → ℤ → Bool
ltb_ℤ a b = ltb (pos_part a + neg_part b) (pos_part b + neg_part a)

-- z mod 2^8, which is the conversion to `uint8_t`.
unfoldable pub to_uint8 : ℤ → ℕ
to_uint8 (pos n) = n % 256
to_uint8 (negsuc n) = 255 - n % 256

-- The `int8_t` with the bit pattern `w`.
unfoldable pub int8_of_byte : ℕ → ℤ
int8_of_byte w = if ltb w 128 then pos w else negsuc (255 - w)

-- The conversion to `int8_t`, which keeps the value mod 2^8.
unfoldable pub to_int8 : ℤ → ℤ
unfolding to_uint8 int8_of_byte
to_int8 z = int8_of_byte (to_uint8 z)

abbrev pub IsInt8 : ℤ → Type 0
IsInt8 z = (pos_part z ≤ 127) × (neg_part z ≤ 128)

-- -m ≤ z ≤ m
abbrev pub IsWithin : ℕ → ℤ → Type 0
IsWithin m z = (pos_part z ≤ m) × (neg_part z ≤ m)

-- A limit from 0 to 127.
abbrev pub IsLimit : ℤ → Type 0
IsLimit max = (pos_part max ≤ 127) × (neg_part max ≤ 0)

pub to_int8-IsInt8 : (z : ℤ) → IsInt8 (to_int8 z)
unfolding to_int8
to_int8-IsInt8 (pos n) = ground arith
to_int8-IsInt8 (negsuc n) = ground arith

-- A value in range is not changed by the conversion.
pub to_int8_self : (z : ℤ) → IsInt8 z → to_int8 z ≡ z
unfolding to_int8
to_int8_self (pos n) h = ground arith
to_int8_self (negsuc n) h = ground arith

pub int8_of_byte-to_uint8 : (z : ℤ) → IsInt8 z → int8_of_byte (to_uint8 z) ≡ z
unfolding to_int8
int8_of_byte-to_uint8 z h = to_int8_self z h

pub to_uint8-lt : (z : ℤ) → to_uint8 z < 256
unfolding to_uint8
to_uint8-lt (pos n) = omega arith
to_uint8-lt (negsuc n) = omega arith

pub sub_ℕ_parts : (a b : ℕ) → pos_part (sub_ℕ a b) + b ≡ neg_part (sub_ℕ a b) + a
sub_ℕ_parts a b = ground arith

pub *ℤ-pos : (a b : ℕ) → pos a *ℤ pos b ≡ pos (a * b)
unfolding ◌*ℤ◌
*ℤ-pos a b = ground arith

pub /ℤ-pos : (a b : ℕ) → pos a /ℤ pos b ≡ pos (a / b)
unfolding ◌/ℤ◌
/ℤ-pos a b = refl

pub +ℤ-negate : (a b : ℕ) → pos a +ℤ negate (pos b) ≡ sub_ℕ a b
unfolding ◌+ℤ◌ negate
+ℤ-negate a zero = ground arith
+ℤ-negate a (suc b) = ground arith

pub negate_parts : (z : ℤ) → (pos_part (negate z) ≡ neg_part z) × (neg_part (negate z) ≡ pos_part z)
unfolding negate
negate_parts (pos zero) = (refl, refl)
negate_parts (pos (suc n)) = ground arith
negate_parts (negsuc n) = ground arith

pub IsWithin-between :
    (max n : ℤ) → IsLimit max → negate max ≤ℤ n → n ≤ℤ max → IsWithin (pos_part max) n
IsWithin-between max (pos n) h lo hi = omega arith
IsWithin-between max (negsuc n) h lo hi = omega (arith, negate_parts max)

-- The nearest value to z from -max to max.
unfoldable pub clamp : ℤ → ℤ → ℤ
clamp max z = if ltb_ℤ max z then max else if ltb_ℤ z (negate max) then negate max else z

pub clamp-IsWithin : (max z : ℤ) → IsLimit max → IsWithin (pos_part max) (clamp max z)
unfolding clamp
clamp-IsWithin max (pos n) h = ground (arith, negate_parts max)
clamp-IsWithin max (negsuc n) h = ground (arith, negate_parts max)

pub clamp_self : (max z : ℤ) → IsLimit max → IsWithin (pos_part max) z → clamp max z ≡ z
unfolding clamp
clamp_self max (pos n) h w = ground (arith, negate_parts max)
clamp_self max (negsuc n) h w = ground (arith, negate_parts max)

int_arithmetic :
    (pos 3 -ℤ pos 10 *ℤ negsuc 1 ≡ pos 23)
    × (negsuc 6 /ℤ pos 2 ≡ negsuc 2)
    × (to_int8 (pos 200) ≡ negsuc 55)
    × (to_uint8 (negsuc 0) ≡ 255)
unfolding ◌-ℤ◌ ◌*ℤ◌ ◌/ℤ◌ to_int8
int_arithmetic = (refl, refl, refl, refl)
