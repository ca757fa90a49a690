-- ===== src/Tests/Packets.antt =====
-- Packets at concrete values.
use rc_plane.Base.{ℕ, ◌≡◌, refl, true, false, some, List, [], ◌∷◌, ◌++◌, length}
use rc_plane.Base.Int.{pos, negsuc}
use rc_plane.Base.Stream.{Piece, text, number, bits}
use rc_plane.Common.Packet.Print.{print_rc_rx}
use rc_plane.Double.Fixed.{fixed_double}
use rc_plane.Common.Packet.Bytes.{
  handshake_layout, rc_rx_to_bytes, rc_rx_of_bytes, control_surface_to_bytes,
  control_surface_of_bytes, imu_to_bytes, imu_of_bytes,
}
use rc_plane.Common.Packet.RoundTrip.{packets_round_trip}
use rc_plane.Tests.Data.{
  sticks, tilted, deflected, sticks-IsRcRxValue, deflected-IsControlSurfaceValue, tilted-IsImuValue,
}

packets_round_trip_example :
    (handshake_layout.of_bytes (handshake_layout.to_bytes (record { handshake = 1 }) ++ (7 ∷ []))
      ≡ some (record { handshake = 1 }))
    × (rc_rx_of_bytes (rc_rx_to_bytes sticks ++ (7 ∷ [])) ≡ some sticks)
    × (control_surface_of_bytes (control_surface_to_bytes deflected ++ (7 ∷ [])) ≡ some deflected)
    × (imu_of_bytes (imu_to_bytes tilted ++ (7 ∷ [])) ≡ some tilted)
    × (length (handshake_layout.to_bytes (record { handshake = 1 })) ≡ 1)
    × (length (rc_rx_to_bytes sticks) ≡ 9)
    × (length (control_surface_to_bytes deflected) ≡ 4)
    × (length (imu_to_bytes tilted) ≡ 28)
packets_round_trip_example =
    packets_round_trip (record { handshake = 1 }) sticks deflected tilted (7 ∷ [])
      sticks-IsRcRxValue deflected-IsControlSurfaceValue tilted-IsImuValue

abbrev logged : List (Piece ℕ)
logged =
    text "timestamp = "
    ∷ number (pos 5)
    ∷ text " | state = "
    ∷ bits (true ∷ false ∷ false ∷ false ∷ false ∷ false ∷ true ∷ false ∷ [])
    ∷ text " | motorStickPosition = "
    ∷ number (pos 7)
    ∷ text " | aileronStickPosition = "
    ∷ number (negsuc 7)
    ∷ text " | elevatorStickPosition = "
    ∷ number (pos 0)
    ∷ text " | rudderStickPosition = "
    ∷ number (pos 0)
    ∷ []

printed :
    print_rc_rx (record {
      timestamp = 5;
      state = 0x82;
      motor_stick_position = 7;
      aileron_stick_position = negsuc 7;
      elevator_stick_position = pos 0;
      rudder_stick_position = pos 0;
    })
    ≡ logged
unfolding print_rc_rx
printed = refl
