-- ===== src/Io/Serial/Framing.antt =====
-- Sequences of reads: the line is a queue of bytes, and a partial packet shifts all that follow.
use rc_plane.Base.{◌≤◌, ◌≡◌, refl, ap, ◌∙◌, Option, some, List, [], ◌∷◌, length, arith, ◌>>=◌}
use rc_plane.Common.Packet.{HandshakePacket, RcRxPacket, ControlSurfacePacket, ImuPacket}
use rc_plane.Common.Packet.Bytes.{
  Packet, handshake_layout, rc_rx_layout, control_surface_layout, imu_layout,
}
use rc_plane.Common.Packet.RoundTrip.{
  IsLayout, handshake-IsLayout, rc_rx-IsLayout, control_surface-IsLayout, imu-IsLayout,
}
use rc_plane.Io.Serial.{SerialPort, SerialController, read_packet, IsSerialPort}
use rc_plane.Io.Serial.Stream.{read_packet_total}

-- The instances of the template `readPacket`.
pub data Kind : Type 0 where
  handshake rc_rx control_surface imu : Kind

-- The controller after reads: the same but for the buffer, which has not become shorter.
abbrev pub IsShifted : SerialController → SerialController → Type 0
IsShifted c c' =
    (c' ≡ record c { stream_buffer = c'.stream_buffer })
    × (length c.stream_buffer ≤ length c'.stream_buffer)

module _ {W : Type 0} ⦃port : SerialPort W⦄ where
  read_one : (P : Type 0) ⦃l : Packet P⦄ → SerialController × W → Option (SerialController × W)
  read_one P (c, w) = do (_, c', w') ← read_packet {P = P} c w; some (c', w')

  -- A read of the kind, when only its effect matters.
  pub read_kind : Kind → SerialController × W → Option (SerialController × W)
  unfolding read_one
  read_kind handshake s = read_one HandshakePacket s
  read_kind rc_rx s = read_one RcRxPacket s
  read_kind control_surface s = read_one ControlSurfacePacket s
  read_kind imu s = read_one ImuPacket s

  pub read_kinds : List Kind → SerialController × W → Option (SerialController × W)
  read_kinds [] s = some s
  read_kinds (k ∷ ks) s = do s' ← read_kind k s; read_kinds ks s'

  module _ (laws : IsSerialPort W) where
    read_one-IsShifted :
        (P : Type 0) ⦃l : Packet P⦄ (IsValid : P → Type 0)
        → IsLayout P IsValid
        → (c : SerialController) (w : W)
        → (c' : SerialController) × (w' : W) × (read_one P (c, w) ≡ some (c', w')) × IsShifted c c'
    unfolding read_one
    read_one-IsShifted P IsValid layout c w =
        let (r, c', w', e, (same, effect)) = read_packet_total IsValid layout laws c w in
        (c', w', rw e refl, (same, omega arith))

    read_kind-IsShifted :
        (k : Kind) (c : SerialController) (w : W)
        → (c' : SerialController) × (w' : W) × (read_kind k (c, w) ≡ some (c', w')) × IsShifted c c'
    unfolding read_kind
    read_kind-IsShifted handshake c w = read_one-IsShifted HandshakePacket _ handshake-IsLayout c w
    read_kind-IsShifted rc_rx c w = read_one-IsShifted RcRxPacket _ rc_rx-IsLayout c w
    read_kind-IsShifted control_surface c w =
        read_one-IsShifted ControlSurfacePacket _ control_surface-IsLayout c w
    read_kind-IsShifted imu c w = read_one-IsShifted ImuPacket _ imu-IsLayout c w

    -- Over a port that meets its laws any sequence of reads is defined, and none of them removes a byte that the ones before left
    -- over: bytes of a packet that a timeout has cut stay in front of all later packets.
    read_kinds_shift :
        (ks : List Kind) (c : SerialController) (w : W)
        → (c' : SerialController) × (w' : W) × (read_kinds ks (c, w) ≡ some (c', w'))
          × IsShifted c c'
    unfolding read_kinds
    read_kinds_shift [] c w = (c, w, refl, (refl, omega arith))
    read_kinds_shift (k ∷ ks) c w =
        let (c₁, w₁, e₁, (same₁, longer₁)) = read_kind-IsShifted k c w in
        let (c₂, w₂, e₂, (same₂, longer₂)) = read_kinds_shift ks c₁ w₁ in
        (
          c₂,
          w₂,
          rw e₁ e₂,
          (
            same₂
                ∙ ap (λ (t : SerialController). record t { stream_buffer = c₂.stream_buffer })
                    same₁,
            omega arith,
          ),
        )
