-- ===== src/Common/Packet/Equality.antt =====
-- `operator==` of the packets compares all fields.
use rc_plane.Base.{◌≡◌, ◌↔◌, true, false, not, arith}
use rc_plane.Base.Int.{ℤ}
use rc_plane.Double.{Double}
use rc_plane.Common.Packet.{
  HandshakePacket, RcRxPacket, ControlSurfacePacket, ImuPacket, eq_handshake, eq_rc_rx, ne_rc_rx,
  eq_control_surface, ne_control_surface, eq_imu, eq_ℤ,
}

eq_ℤ_iff : (a b : ℤ) → (eq_ℤ a b ≡ true) ↔ (a ≡ b)
eq_ℤ_iff a b = ground arith

-- `==` holds of two stick packets exactly when they are the same, and `!=` is its negation.
pub eq_rc_rx_iff :
    (a b : RcRxPacket) → ((eq_rc_rx a b ≡ true) ↔ (a ≡ b)) × (ne_rc_rx a b ≡ not (eq_rc_rx a b))
unfolding ne_rc_rx
eq_rc_rx_iff a b = ground arith

-- `==` holds of two control surface packets exactly when they are the same, and `!=` is its negation.
pub eq_control_surface_iff :
    (a b : ControlSurfacePacket)
    → ((eq_control_surface a b ≡ true) ↔ (a ≡ b))
      × (ne_control_surface a b ≡ not (eq_control_surface a b))
unfolding ne_control_surface
eq_control_surface_iff a b = ground arith

pub eq_handshake_iff : (a b : HandshakePacket) → (eq_handshake a b ≡ true) ↔ (a ≡ b)
unfolding eq_handshake
eq_handshake_iff a b = ground arith

-- A packet with a NaN reading is not even equal to itself.
pub eq_imu_nan :
    (F : Type 0) ⦃d : Double F⦄ (p : ImuPacket)
    → d.eq (d.of_float32 p.gyro_x) (d.of_float32 p.gyro_x) ≡ false
    → eq_imu F p p ≡ false
unfolding eq_imu
eq_imu_nan F p h = ground arith
