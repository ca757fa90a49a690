-- ===== src/Som/Handshake/Answer.antt =====
-- The handshake against the sequence of reads that it makes.
use rc_plane.Base.{
  ℕ, zero, suc, ◌≡◌, refl, ◌∙◌, Bool, true, false, ◌||◌, Option, some, List, [], ◌∷◌, ◌>>=◌,
  if◌then◌else◌, arith, Bool-cases, inl, inr,
}
use rc_plane.Common.Packet.{HandshakePacket}
use rc_plane.Common.Packet.Bytes.{handshake_layout}
use rc_plane.Common.Packet.RoundTrip.{handshake-IsLayout}
use rc_plane.Io.Serial.{
  SerialPort, SerialController, ReadResult, read_packet, write_packet, flush, IsSerialPort,
}
use rc_plane.Io.Serial.Stream.{read_packet_total}
use rc_plane.Som.Controller.{returned, SomController}
use rc_plane.Som.Handshake.{
  acknowledgement, is_answer, after_attempt, await_answer, after_flush, count_write, handshake_mcu,
}

pub any : {A : Type 0} → (A → Bool) → List A → Bool
any f [] = false
any f (x ∷ xs) = f x || any f xs

module _ {W : Type 0} ⦃port : SerialPort W⦄ where
  -- What n handshake packets in a row are read as.
  pub read_handshakes : ℕ → SerialController → W → Option (List (ReadResult HandshakePacket))
  read_handshakes zero c w = some []
  read_handshakes (suc n) c w = do
    (r, c', w') ← read_packet c w
    rest ← read_handshakes n c' w'
    some (r ∷ rest)

module _ {W Q F : Type 0} ⦃port : SerialPort W⦄ (laws : IsSerialPort W) where
  await_step :
      (n : ℕ) (c : SomController Q F) (w w₁ : W) (r : ReadResult HandshakePacket)
      (serial : SerialController) (b : Bool)
      → read_packet c.serial_controller w ≡ some (r, serial, w₁)
      → is_answer r ≡ b
      → await_answer (suc n) c w ≡ (
          if b
          then some (true, after_attempt c r serial, w₁)
          else await_answer n (after_attempt c r serial) w₁)
  unfolding await_answer
  await_step n c w w₁ r serial b e h = rw e (ground arith)

  await_answer_lem :
      (n : ℕ) (c : SomController Q F) (w : W)
      → (rs : List (ReadResult HandshakePacket)) × (c' : SomController Q F) × (w' : W)
        × (read_handshakes n c.serial_controller w ≡ some rs)
        × (await_answer n c w ≡ some (any is_answer rs, c', w'))
  unfolding read_handshakes await_answer any after_attempt
  await_answer_lem zero c w = ([], c, w, refl, refl)
  await_answer_lem (suc n) c w =
      let (r, serial, w₁, e, _) =
        read_packet_total _ handshake-IsLayout laws c.serial_controller w in
      let (rs, c', w', h, k) = await_answer_lem n (after_attempt c r serial) w₁ in
      elim (Bool-cases (is_answer r)) [
        | inl answered ↦ (
          r ∷ rs,
          after_attempt c r serial,
          w₁,
          rw (e, h) refl,
          await_step n c w w₁ r serial true e answered ∙ rw answered refl,
        )
        | inr other ↦ (
          r ∷ rs,
          c',
          w',
          rw (e, h) refl,
          await_step n c w w₁ r serial false e other ∙ rw other k,
        )
      ]

  -- Over a port that meets its laws: if the flush succeeds and the packet is written, the handshake returns, and it returns true
  -- exactly if one of the next `handshake_attempts` reads gives the packet that was written.
  pub handshake_iff_answered :
      (c : SomController Q F) (serial : SerialController) (w w₁ w₂ : W)
      → flush c.serial_controller w ≡ (true, serial, w₁)
      → write_packet serial acknowledgement w₁ ≡ (true, w₂)
      → (rs : List (ReadResult HandshakePacket)) × (c' : SomController Q F) × (w' : W)
        × (read_handshakes c.handshake_attempts serial w₂ ≡ some rs)
        × (handshake_mcu c w ≡ some (returned (any is_answer rs, c', w')))
  unfolding handshake_mcu count_write after_flush
  handshake_iff_answered c serial w w₁ w₂ e h =
      let (rs, c', w', k, l) =
        await_answer_lem c.handshake_attempts (count_write (after_flush c serial)) w₂ in
      (rs, c', w', k, rw (e, h, l) refl)
