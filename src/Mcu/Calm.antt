-- ===== src/Mcu/Calm.antt =====
-- The packet of the sticks while the switch is low and the sticks are in their nominal range.
use rc_plane.Base.{ℕ, ◌≤◌, ◌<◌, ◌≡◌, refl, some, arith}
use rc_plane.Base.Int.{ℤ, pos, negsuc, int8_of_byte, IsWithin}
use rc_plane.Double.{Double, cast_uint8}
use rc_plane.Common.Packet.{RcRxPacket}
use rc_plane.Autopilot.Utility.Limits.{IsNominal}
use rc_plane.Mcu.{
  Board, motor_in, aileron_in, elevator_in, rudder_in, assistance_in, to_range, packet_state,
  read_stick, read_sticks,
}
use rc_plane.Mcu.Flags.{packet_state_lem}

-- The pulse of a pin gives a position up to 100 in the range from the given offset.
abbrev pub IsNominalPin : {W : Type 0} → Board W → (F : Type 0) → ⦃d : Double F⦄ → ℕ → ℤ → Type 0
IsNominalPin {W} board F ⦃d⦄ pin low =
    (w : W)
    → (v : ℕ) × (cast_uint8
          (to_range (d.of_int (pos (board.pulse_in pin w).0)) (d.of_int low) (d.of_int (pos 100)))
        ≡ some v)
      × (v ≤ 100)

-- The sticks are at or right of their centres: to the left the conversion to `uint8_t` is undefined.
-- The IMU is no colder than freezing.
pub record IsCalm {W : Type 0} (board : Board W) (F : Type 0) ⦃d : Double F⦄ : Type 0 where
  pub motor_nominal : IsNominalPin board F motor_in (pos 0)
  pub aileron_nominal : IsNominalPin board F aileron_in (negsuc 99)
  pub elevator_nominal : IsNominalPin board F elevator_in (negsuc 99)
  pub rudder_nominal : IsNominalPin board F rudder_in (negsuc 99)
  pub switch_low : (w : W) → (board.pulse_in assistance_in w).0 ≤ 1600
  pub temperature_fits :
      (w : W) → (t : ℕ) × (cast_uint8 (d.of_float32 (board.update_imu w).0.temperature) ≡ some t)

nominal_byte : (v : ℕ) → v ≤ 100 → IsWithin 100 (int8_of_byte v)
unfolding int8_of_byte
nominal_byte v h = ground arith

low_state :
    (switch : ℕ) (aileron elevator : ℤ) → switch ≤ 1600 → packet_state switch aileron elevator < 128
low_state switch aileron elevator h =
    let (_, flag, _, _) = packet_state_lem switch aileron elevator in ground (arith, flag)

module _ {W : Type 0} (board : Board W) (F : Type 0) ⦃d : Double F⦄ where
  read_stick_nominal :
      (pin : ℕ) (w : W)
      → IsNominalPin board F pin (negsuc 99)
      → (v : ℤ) × (w' : W) × (read_stick board F pin w ≡ some (v, w')) × IsWithin 100 v
  unfolding read_stick
  read_stick_nominal pin w h =
      let (v, e, small) = h w in
      (int8_of_byte v, (board.pulse_in pin w).1, rw e refl, nominal_byte v small)

  -- On a calm board the sketch composes a packet whose assistance flag is clear and whose sticks are nominal.
  pub read_sticks-IsNominal :
      (w : W)
      → IsCalm board F
      → (r : RcRxPacket) × (w' : W) × (read_sticks board F w ≡ some (r, w'))
        × (r.state < 128)
        × IsNominal r
  unfolding read_sticks
  read_sticks-IsNominal w h =
      let w₁ = (board.pulse_in motor_in w).1 in
      let (motor, e₁, small) = h.motor_nominal w in
      let (aileron, w₂, e₂, within₂) = read_stick_nominal aileron_in w₁ h.aileron_nominal in
      let (elevator, w₃, e₃, within₃) = read_stick_nominal elevator_in w₂ h.elevator_nominal in
      let (rudder, w₄, e₄, within₄) = read_stick_nominal rudder_in w₃ h.rudder_nominal in
      let (timestamp, w₅) = board.millis w₄ in
      let (switch, w₆) = board.pulse_in assistance_in w₅ in
      (
        record {
          timestamp = timestamp;
          state = packet_state switch aileron elevator;
          motor_stick_position = motor;
          aileron_stick_position = aileron;
          elevator_stick_position = elevator;
          rudder_stick_position = rudder;
        },
        w₆,
        rw (e₁, e₂, e₃, e₄) refl,
        low_state switch aileron elevator (h.switch_low w₅),
        record {
          motor_le = small;
          aileron_within = within₂;
          elevator_within = within₃;
          rudder_within = within₄;
        },
      )
