-- ===== src/Common/Packet.antt =====
-- impl/include/rcplane/common/Packet.hpp: the packets and their equality. A `float` is its 32-bit
-- pattern. `int8_t` fields are integers, and unsigned fields naturals, in the ranges of `Bytes`.
pub mod Bytes
pub mod Total
pub mod Local
pub mod RoundTrip
pub mod Equality
pub mod Print
use rc_plane.Base.{ℕ, Bool, not, ◌&&◌, ◌==◌}
use rc_plane.Base.Int.{ℤ, pos, pos_part, neg_part}
use rc_plane.Double.{Double}

pub record HandshakePacket : Type 0 where
  pub handshake : ℕ

pub record RcRxPacket : Type 0 where
  pub timestamp : ℕ
  pub state : ℕ
  pub motor_stick_position : ℕ
  pub aileron_stick_position : ℤ
  pub elevator_stick_position : ℤ
  pub rudder_stick_position : ℤ

pub record ControlSurfacePacket : Type 0 where
  pub motor_speed : ℕ
  pub aileron_deflection : ℤ
  pub elevator_deflection : ℤ
  pub rudder_deflection : ℤ

pub record ImuPacket : Type 0 where
  pub gyro_x : ℕ
  pub gyro_y : ℕ
  pub gyro_z : ℕ
  pub acc_x : ℕ
  pub acc_y : ℕ
  pub acc_z : ℕ
  pub temperature : ℕ

-- The defaulted constructors: every member has `{}`.
abbrev pub handshake_packet : HandshakePacket
handshake_packet = record { handshake = 0 }

abbrev pub rc_rx_packet : RcRxPacket
rc_rx_packet = record {
  timestamp = 0;
  state = 0;
  motor_stick_position = 0;
  aileron_stick_position = pos 0;
  elevator_stick_position = pos 0;
  rudder_stick_position = pos 0;
}

abbrev pub control_surface_packet : ControlSurfacePacket
control_surface_packet = record {
  motor_speed = 0;
  aileron_deflection = pos 0;
  elevator_deflection = pos 0;
  rudder_deflection = pos 0;
}

abbrev pub imu_packet : ImuPacket
imu_packet = record {
  gyro_x = 0;
  gyro_y = 0;
  gyro_z = 0;
  acc_x = 0;
  acc_y = 0;
  acc_z = 0;
  temperature = 0;
}

abbrev eq_ℤ : ℤ → ℤ → Bool
eq_ℤ a b = pos_part a == pos_part b && (neg_part a == neg_part b)

-- The operators `==` and `!=`.
unfoldable pub eq_handshake : HandshakePacket → HandshakePacket → Bool
eq_handshake a b = a.handshake == b.handshake

unfoldable pub ne_handshake : HandshakePacket → HandshakePacket → Bool
ne_handshake a b = not (a.handshake == b.handshake)

unfoldable pub eq_rc_rx : RcRxPacket → RcRxPacket → Bool
eq_rc_rx a b =
    a.timestamp == b.timestamp
    && a.state == b.state
    && a.motor_stick_position == b.motor_stick_position
    && eq_ℤ a.aileron_stick_position b.aileron_stick_position
    && eq_ℤ a.elevator_stick_position b.elevator_stick_position
    && eq_ℤ a.rudder_stick_position b.rudder_stick_position

unfoldable pub ne_rc_rx : RcRxPacket → RcRxPacket → Bool
unfolding eq_rc_rx
ne_rc_rx a b = not (eq_rc_rx a b)

unfoldable pub eq_control_surface : ControlSurfacePacket → ControlSurfacePacket → Bool
eq_control_surface a b =
    a.motor_speed == b.motor_speed
    && eq_ℤ a.aileron_deflection b.aileron_deflection
    && eq_ℤ a.elevator_deflection b.elevator_deflection
    && eq_ℤ a.rudder_deflection b.rudder_deflection

unfoldable pub ne_control_surface : ControlSurfacePacket → ControlSurfacePacket → Bool
unfolding eq_control_surface
ne_control_surface a b = not (eq_control_surface a b)

module _ (F : Type 0) ⦃d : Double F⦄ where
  -- `==` on two floats.
  abbrev eq_float : ℕ → ℕ → Bool
  eq_float a b = d.eq (d.of_float32 a) (d.of_float32 b)

  unfoldable pub eq_imu : ImuPacket → ImuPacket → Bool
  eq_imu a b =
      eq_float a.gyro_x b.gyro_x
      && eq_float a.gyro_y b.gyro_y
      && eq_float a.gyro_z b.gyro_z
      && eq_float a.acc_x b.acc_x
      && eq_float a.acc_y b.acc_y
      && eq_float a.acc_z b.acc_z
      && eq_float a.temperature b.temperature

  unfoldable pub ne_imu : ImuPacket → ImuPacket → Bool
  unfolding eq_imu
  ne_imu a b = not (eq_imu a b)
