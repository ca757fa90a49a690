-- ===== src/Base/Stream.antt =====
-- What is put on an output stream.
use Prim.Native.String.{String}
use mathlib.Core.Bool.{Bool}
use mathlib.Core.List.{List}
use rc_plane.Base.Int.{ℤ}

-- An operand of `<<`, where F is the type of the floating-point numbers. A `std::bitset` is its bits,
-- the highest first.
pub data Piece (F : Type 0) : Type 0 where
  text : String → Piece F
  number : ℤ → Piece F
  real : F → Piece F
  bits : List Bool → Piece F
