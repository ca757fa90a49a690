-- ===== src/Double/Fixed.antt =====
-- Thousandths, with `none` for NaN: arithmetic that the tests run, and that meets the laws.
use rc_plane.Base.{
  ℕ, zero, suc, ◌+◌, ◌*◌, ◌/◌, ◌%◌, ◌^◌, ◌≡◌, refl, ap, Bool, true, false, ◌&&◌, Option, none, some,
  ◌==◌, if◌then◌else◌, arith,
}
use rc_plane.Base.Int.{
  ℤ, pos, negsuc, pos_part, neg_part, sub_ℕ, ◌+ℤ◌, ◌-ℤ◌, ◌*ℤ◌, ◌/ℤ◌, ◌≤ℤ◌, ltb_ℤ, negate,
}
use rc_plane.Double.Core.{Double, IsIeee}
use mathlib.Core.Option

abbrev pub Fixed : Type 0
Fixed = Option ℤ

abbrev lift₂ : (ℤ → ℤ → ℤ) → Fixed → Fixed → Fixed
lift₂ f (some a) (some b) = some (f a b)
lift₂ f _ _ = none

abbrev compare_by : (ℤ → ℤ → Bool) → Fixed → Fixed → Bool
compare_by f (some a) (some b) = f a b
compare_by f _ _ = false

abbrev div_fixed : Fixed → Fixed → Fixed
div_fixed (some a) (some b) =
    if pos_part b + neg_part b == 0 then none else some (a *ℤ pos 1000 /ℤ b)
div_fixed _ _ = none

abbrev eq_ℤ : ℤ → ℤ → Bool
eq_ℤ a b = pos_part a == pos_part b && (neg_part a == neg_part b)

-- The thousandths of a `float`, from its sign, exponent and fraction.
abbrev of_pattern : ℕ → Fixed
of_pattern n =
    let size = (n % 2 ^ 23 + 2 ^ 23) * 1000 * 2 ^ (n / 2 ^ 23 % 256) / 2 ^ 150 in
    if n / 2 ^ 23 % 256 == 255
    then none
    else if n / 2 ^ 31 == 0
    then some (pos size)
    else some (sub_ℕ 0 size)

instance abbrev pub fixed_double : Double Fixed
fixed_double = record {
  add = lift₂ ◌+ℤ◌;
  sub = lift₂ ◌-ℤ◌;
  mul = lift₂ λ a b. a *ℤ b /ℤ pos 1000;
  div = div_fixed;
  neg = Option.map negate;
  lt = compare_by ltb_ℤ;
  eq = compare_by eq_ℤ;
  of_int = λ a. some (a *ℤ pos 1000);
  of_float32 = of_pattern;
  trunc = Option.map λ a. a /ℤ pos 1000;
}

-- 1.5 and -2.25 as bit patterns.
patterns : (of_pattern 0x3fc00000 ≡ some (pos 1500)) × (of_pattern 0xc0100000 ≡ some (negsuc 2249))
patterns = (refl, refl)

ltb-scaled : (a b : ℤ) → ltb_ℤ (a *ℤ pos 1000) (b *ℤ pos 1000) ≡ ltb_ℤ a b
unfolding ◌*ℤ◌
ltb-scaled (pos a) (pos b) = ground arith
ltb-scaled a b = ground arith

div-scaled : (a : ℤ) → a *ℤ pos 1000 /ℤ pos 1000 ≡ a
unfolding ◌*ℤ◌ ◌/ℤ◌
div-scaled (pos a) = ground arith
div-scaled (negsuc a) = ground arith

negate-scaled : (b : ℤ) → negate (b *ℤ pos 1000) ≡ negate b *ℤ pos 1000
unfolding ◌*ℤ◌ negate
negate-scaled (pos b) = ground arith
negate-scaled (negsuc b) = ground arith

div-negate : (a : ℤ) → negate a /ℤ pos 1000 ≡ negate (a /ℤ pos 1000)
unfolding ◌/ℤ◌ negate
div-negate (pos zero) = refl
div-negate (pos (suc a)) = ground arith
div-negate (negsuc a) = ground arith

div_between :
    (a b z : ℤ)
    → ltb_ℤ z (a *ℤ pos 1000) ≡ false
    → ltb_ℤ (b *ℤ pos 1000) z ≡ false
    → (a ≤ℤ z /ℤ pos 1000) × (z /ℤ pos 1000 ≤ℤ b)
unfolding ◌*ℤ◌ ◌/ℤ◌
div_between a b (pos z) h k = ground arith
div_between a b (negsuc z) h k = ground arith

trunc_between_fixed :
    (a b : ℤ) (x : Fixed)
    → compare_by eq_ℤ x x ≡ true
    → compare_by ltb_ℤ x (some (a *ℤ pos 1000)) ≡ false
    → compare_by ltb_ℤ (some (b *ℤ pos 1000)) x ≡ false
    → (n : ℤ) × (Option.map (λ z. z /ℤ pos 1000) x ≡ some n) × (a ≤ℤ n) × (n ≤ℤ b)
trunc_between_fixed a b none e h k = cc
trunc_between_fixed a b (some z) e h k =
    let (lo, hi) = div_between a b z h k in (z /ℤ pos 1000, refl, lo, hi)

-- Thousandths meet the laws.
pub Fixed-IsIeee : IsIeee Fixed
Fixed-IsIeee = record {
  trunc_nan = trunc_nan_fixed;
  lt_nan = lt_nan_fixed;
  trunc_between = λ a b x _ _ e h k. trunc_between_fixed a b x e h k;
  trunc-of_int = λ a _. ap some (div-scaled a);
  trunc-neg = trunc_neg_fixed;
  lt-of_int = λ a b _ _. ltb-scaled a b;
  lt-of_int-neg = λ a b _ _. rw negate-scaled (ltb-scaled a (negate b));
}
  where
    trunc_nan_fixed :
        (x : Fixed) → compare_by eq_ℤ x x ≡ false → Option.map (λ z. z /ℤ pos 1000) x ≡ none
    trunc_nan_fixed none e = refl
    trunc_nan_fixed (some z) e = ground arith

    lt_nan_fixed :
        (x y : Fixed)
        → compare_by eq_ℤ x x ≡ false
        → (compare_by ltb_ℤ x y ≡ false) × (compare_by ltb_ℤ y x ≡ false)
    lt_nan_fixed none none e = (refl, refl)
    lt_nan_fixed none (some w) e = (refl, refl)
    lt_nan_fixed (some z) y e = ground arith

    trunc_neg_fixed :
        (x : Fixed)
        → Option.map (λ z. z /ℤ pos 1000) (Option.map negate x)
          ≡ Option.map negate (Option.map (λ z. z /ℤ pos 1000) x)
    trunc_neg_fixed none = refl
    trunc_neg_fixed (some z) = ap some (div-negate z)
