-- ===== src/Station/Attitude/Bounds.antt =====
-- How far the horizon moves for a pitch.
use rc_plane.Base.{◌≡◌, refl, Bool-cases, false, some, inl, inr, arith}
use rc_plane.Base.Int.{ℤ, pos, negsuc, negate, IsWithin, IsWithin-between}
use rc_plane.Double.{Double, IsIeee, IsNumber}
use rc_plane.Station.Attitude.{Trig, AttitudeIndicator, bind_pitch, set_attitude}

module _ {F : Type 0} ⦃d : Double F⦄ (laws : IsIeee F) where
  not_above : d.lt (d.of_int (pos 30)) (d.of_int (pos 30)) ≡ false
  not_above = laws.lt-of_int (pos 30) (pos 30) (omega arith) (omega arith)

  low_not_above : d.lt (d.of_int (pos 30)) (d.of_int (negsuc 29)) ≡ false
  low_not_above = laws.lt-of_int (pos 30) (negsuc 29) (omega arith) (omega arith)

  low_not_below : d.lt (d.of_int (negsuc 29)) (d.of_int (negsuc 29)) ≡ false
  low_not_below = laws.lt-of_int (negsuc 29) (negsuc 29) (omega arith) (omega arith)

  high_not_below : d.lt (d.of_int (pos 30)) (d.of_int (negsuc 29)) ≡ false
  high_not_below = laws.lt-of_int (pos 30) (negsuc 29) (omega arith) (omega arith)

  bind_pitch_self : (pitch : F) → bind_pitch (bind_pitch pitch) ≡ bind_pitch pitch
  unfolding bind_pitch
  bind_pitch_self pitch = ground (arith, not_above, low_not_above, low_not_below, high_not_below)

  bind_pitch-IsWithin :
      (pitch : F) → IsNumber pitch → (n : ℤ) × (d.trunc (bind_pitch pitch) ≡ some n) × IsWithin 30 n
  unfolding bind_pitch negate
  bind_pitch-IsWithin pitch h = elim (Bool-cases (d.lt (d.of_int (pos 30)) pitch)) [
    | inl above ↦ (pos 30, rw above (laws.trunc-of_int (pos 30) (omega arith)), omega arith)
    | inr in_range ↦ elim (Bool-cases (d.lt pitch (d.of_int (negsuc 29)))) [
      | inl below ↦ (
        negsuc 29,
        rw (in_range, below) (laws.trunc-of_int (negsuc 29) (omega arith)),
        omega arith,
      )
      | inr between ↦
          let (n, e, lo, hi) =
            laws.trunc_between (negsuc 29) (pos 30) pitch (omega arith) (omega arith) h between
              in_range in
          (n, rw (in_range, between) e, IsWithin-between (pos 30) n (omega arith) lo hi)
    ]
  ]

  -- For a pitch that is a number the horizon is moved as for the bounded pitch, whose integer part
  -- is from -30 to 30.
  pub set_attitude-IsWithin :
      (trig : Trig F) (roll pitch : F) (a : AttitudeIndicator F)
      → IsNumber pitch
      → (n : ℤ) × (d.trunc (bind_pitch pitch) ≡ some n)
        × IsWithin 30 n
        × (set_attitude trig roll pitch a ≡ set_attitude trig roll (bind_pitch pitch) a)
  unfolding set_attitude
  set_attitude-IsWithin trig roll pitch a h =
      let (n, e, within) = bind_pitch-IsWithin pitch h in
      (n, e, within, rw (bind_pitch_self pitch) refl)
