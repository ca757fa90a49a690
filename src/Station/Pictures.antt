-- ===== src/Station/Pictures.antt =====
-- control_station/AttitudeIndicator.hpp and control_station/HeadingIndicator.hpp: the pictures that the
-- constructors put on the scenes, and the destructors.
use rc_plane.Base.{ℕ, ◌≡◌, refl, Bool, true, ◌&&◌, Option, none, some, List, [], ◌∷◌, String}
use rc_plane.Base.Int.{ℤ, pos, negsuc, ltb_ℤ}
use rc_plane.Double.{Double}
use rc_plane.Station.Attitude.{Trig, AttitudeIndicator, set_attitude}

-- A `QGraphicsSvgItem`: pictures with a lower z value are painted first. The point that it turns about
-- is not set for all of them.
pub record Picture (F : Type 0) : Type 0 where
  pub file : String
  pub z_value : ℤ
  pub origin : Option (ℕ × ℕ)
  pub rotation : F
  pub x : F
  pub y : F

-- The functions of Qt that the destructors call, on scenes of type S in a world of type W.
pub record Scenes (W S : Type 0) : Type 0 where
  pub clear : S → W → W
  pub delete_scene : S → W → W

-- Both destructors: the pointer to the scene is null afterwards.
unfoldable pub destroy_view : {W S : Type 0} → Scenes W S → Option S → W → Option S × W
destroy_view scenes none w = (none, w)
destroy_view scenes (some s) w = (none, scenes.delete_scene s (scenes.clear s w))

module _ {F : Type 0} ⦃d : Double F⦄ where
  open d use {of_int}

  -- The scene of the horizon, in the order of `addItem`. Only the face is moved, and the case is not
  -- turned.
  unfoldable pub attitude_pictures : AttitudeIndicator F → List (Picture F)
  attitude_pictures a =
      record {
        file = "/tmp/images/ai/ai_back.svg";
        z_value = negsuc 29;
        origin = some (120, 120);
        rotation = a.back_rotation;
        x = of_int (pos 0);
        y = of_int (pos 0);
      }
      ∷ record {
        file = "/tmp/images/ai/ai_face.svg";
        z_value = negsuc 19;
        origin = some (120, 120);
        rotation = a.face_rotation;
        x = a.face_x;
        y = a.face_y;
      }
      ∷ record {
        file = "/tmp/images/ai/ai_ring.svg";
        z_value = negsuc 9;
        origin = some (120, 120);
        rotation = a.ring_rotation;
        x = of_int (pos 0);
        y = of_int (pos 0);
      }
      ∷ record {
        file = "/tmp/images/ai/ai_case.svg";
        z_value = pos 10;
        origin = none;
        rotation = of_int (pos 0);
        x = of_int (pos 0);
        y = of_int (pos 0);
      }
      ∷ []

  -- The scene of the heading, whose face has the given rotation.
  unfoldable pub heading_pictures : F → List (Picture F)
  heading_pictures heading =
      record {
        file = "/tmp/images/hi/hi_face.svg";
        z_value = negsuc 19;
        origin = some (120, 120);
        rotation = heading;
        x = of_int (pos 0);
        y = of_int (pos 0);
      }
      ∷ record {
        file = "/tmp/images/hi/hi_case.svg";
        z_value = pos 10;
        origin = none;
        rotation = of_int (pos 0);
        x = of_int (pos 0);
        y = of_int (pos 0);
      }
      ∷ []

-- Each picture is painted before the next one.
rises_from : {F : Type 0} → ℤ → List (Picture F) → Bool
rises_from z [] = true
rises_from z (p ∷ ps) = ltb_ℤ z p.z_value && rises_from p.z_value ps

-- The pictures that turn, which have a point to turn about.
turning : {F : Type 0} → List (Picture F) → List F
turning [] = []
turning (p ∷ ps) =
    let rest = turning ps in elim p.origin [ none ↦ rest | some _ ↦ p.rotation ∷ rest ]

-- Whatever is shown, both scenes are painted in the order in which they were filled, so that the case
-- is in front; and after each change of the attitude, the three pictures of the horizon that turn are
-- turned alike, against the roll.
pictures_lem :
    {F : Type 0} ⦃d : Double F⦄ (trig : Trig F) (a : AttitudeIndicator F) (roll pitch heading : F)
    → (rises_from (negsuc 30) (attitude_pictures (set_attitude trig roll pitch a)) ≡ true)
      × (rises_from (negsuc 30) (heading_pictures heading) ≡ true)
      × (turning (attitude_pictures (set_attitude trig roll pitch a))
          ≡ d.neg roll ∷ d.neg roll ∷ d.neg roll ∷ [])
unfolding rises_from turning attitude_pictures heading_pictures set_attitude
pictures_lem trig a roll pitch heading = (refl, refl, refl)

-- A view that is destroyed a second time changes nothing more.
destroy_view_twice :
    {W S : Type 0} (scenes : Scenes W S) (scene : Option S) (w : W)
    → (let (left, w') = destroy_view scenes scene w in destroy_view scenes left w')
      ≡ destroy_view scenes scene w
unfolding destroy_view
destroy_view_twice scenes none w = refl
destroy_view_twice scenes (some s) w = refl
