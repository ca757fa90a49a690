-- ===== src/Station/Attitude.antt =====
-- control_station/AttitudeIndicator.hpp: where the artificial horizon is drawn.
pub mod Bounds
use rc_plane.Base.{if◌then◌else◌}
use rc_plane.Base.Int.{pos, negsuc}
use rc_plane.Double.{Double}

-- `M_PI`, `sin`, `cos` and the constant 1.7.
pub record Trig (F : Type 0) : Type 0 where
  pub pi : F
  pub sin : F → F
  pub cos : F → F
  pub scale : F

-- The angles of the three pictures, the position of the face, and where the last call wanted it.
pub record AttitudeIndicator (F : Type 0) : Type 0 where
  pub back_rotation : F
  pub face_rotation : F
  pub ring_rotation : F
  pub face_x : F
  pub face_y : F
  pub old_x_position : F
  pub old_y_position : F

module _ {F : Type 0} ⦃d : Double F⦄ where
  open d use {add, sub, mul, div, neg, lt, of_int}

  -- The constructor leaves the two old positions uninitialized: they are arguments here.
  unfoldable pub attitude_indicator : F → F → AttitudeIndicator F
  attitude_indicator old_x old_y = record {
    back_rotation = of_int (pos 0);
    face_rotation = of_int (pos 0);
    ring_rotation = of_int (pos 0);
    face_x = of_int (pos 0);
    face_y = of_int (pos 0);
    old_x_position = old_x;
    old_y_position = old_y;
  }

  -- The bounds on the pitch.
  unfoldable pub bind_pitch : F → F
  bind_pitch pitch =
      if lt (of_int (pos 30)) pitch
      then of_int (pos 30)
      else if lt pitch (of_int (negsuc 29))
      then of_int (negsuc 29)
      else pitch

  unfoldable pub set_attitude : Trig F → F → F → AttitudeIndicator F → AttitudeIndicator F
  unfolding bind_pitch
  set_attitude trig roll pitch a =
      let roll_rad = div (mul trig.pi roll) (of_int (pos 180)) in
      let delta = mul (bind_pitch pitch) trig.scale in
      let new_x = mul delta (trig.sin roll_rad) in
      let new_y = mul delta (trig.cos roll_rad) in
      record {
        back_rotation = neg roll;
        face_rotation = neg roll;
        ring_rotation = neg roll;
        face_x = add a.face_x (sub new_x a.old_x_position);
        face_y = add a.face_y (mul (of_int (negsuc 0)) (sub new_y a.old_y_position));
        old_x_position = new_x;
        old_y_position = new_y;
      }
