-- ===== src/Double/Core.antt =====
-- The operations on `double`, their documented behaviour, and the conversions to byte-wide integers.
use rc_plane.Base.{
  ℕ, ◌+◌, ◌^◌, ◌≤◌, ◌≡◌, Bool, true, false, ◌&&◌, Option, none, some, leb, if◌then◌else◌, ◌>>=◌,
  arith,
}
use rc_plane.Base.Int.{ℤ, pos_part, neg_part, ◌≤ℤ◌, ltb_ℤ, negate, IsInt8}
use mathlib.Core.Option

-- `trunc` drops the fraction, and is `none` on NaN and on infinities.
pub record Double (F : Type 0) : Type 0 where
  pub add : F → F → F
  pub sub : F → F → F
  pub mul : F → F → F
  pub div : F → F → F
  pub neg : F → F
  pub lt : F → F → Bool
  pub eq : F → F → Bool
  pub of_int : ℤ → F
  pub of_float32 : ℕ → F
  pub trunc : F → Option ℤ

-- NaN is the value that is not `==` itself.
abbrev pub IsNumber : {F : Type 0} ⦃d : Double F⦄ → F → Type 0
IsNumber ⦃d⦄ x = d.eq x x ≡ true

-- Integers up to 2^53 are exact in a `double`.
abbrev pub IsExact : ℤ → Type 0
IsExact z = pos_part z + neg_part z ≤ 2 ^ 53

-- What the theorems assume of IEEE 754.
pub record IsIeee (F : Type 0) ⦃d : Double F⦄ : Type 0 where
  pub trunc_nan : (x : F) → d.eq x x ≡ false → d.trunc x ≡ none
  pub lt_nan : (x y : F) → d.eq x x ≡ false → (d.lt x y ≡ false) × (d.lt y x ≡ false)
  -- A number that is not below `a` and not above `b` has its integer part between them.
  pub trunc_between :
      (a b : ℤ) (x : F)
      → IsExact a
      → IsExact b
      → d.eq x x ≡ true
      → d.lt x (d.of_int a) ≡ false
      → d.lt (d.of_int b) x ≡ false
      → (n : ℤ) × (d.trunc x ≡ some n) × (a ≤ℤ n) × (n ≤ℤ b)
  pub trunc-of_int : (a : ℤ) → IsExact a → d.trunc (d.of_int a) ≡ some a
  pub trunc-neg : (x : F) → d.trunc (d.neg x) ≡ Option.map negate (d.trunc x)
  pub lt-of_int : (a b : ℤ) → IsExact a → IsExact b → d.lt (d.of_int a) (d.of_int b) ≡ ltb_ℤ a b
  pub lt-of_int-neg :
      (a b : ℤ)
      → IsExact a
      → IsExact b
      → d.lt (d.of_int a) (d.neg (d.of_int b)) ≡ ltb_ℤ a (negate b)

abbrev pub in_int8 : ℤ → Bool
in_int8 z = leb (pos_part z) 127 && leb (neg_part z) 128

abbrev pub in_uint8 : ℤ → Bool
in_uint8 z = leb (pos_part z) 255 && leb (neg_part z) 0

module _ {F : Type 0} ⦃d : Double F⦄ where
  -- The conversion to `int8_t`. It is undefined, here `none`, if the integer part does not fit.
  unfoldable pub cast_int8 : F → Option ℤ
  cast_int8 x = do n ← d.trunc x; if in_int8 n then some n else none

  -- The conversion to `uint8_t`, undefined as above.
  unfoldable pub cast_uint8 : F → Option ℕ
  cast_uint8 x = do n ← d.trunc x; if in_uint8 n then some (pos_part n) else none

  pub cast_int8-IsInt8 : (x : F) {n : ℤ} → cast_int8 x ≡ some n → IsInt8 n
  unfolding cast_int8
  cast_int8-IsInt8 x h = ground arith

  -- An integer of eight bits survives the way to `double` and back.
  pub cast_int8-of_int : (laws : IsIeee F) (n : ℤ) → IsInt8 n → cast_int8 (d.of_int n) ≡ some n
  unfolding cast_int8
  cast_int8-of_int laws n h = ground (arith, laws.trunc-of_int n)
