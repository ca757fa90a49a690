-- ===== src/Io/Serial/Stream.antt =====
-- One read: the packet comes from the first bytes that were buffered or received, and the rest stays.
use rc_plane.Base.{
  ℕ, ◌≤◌, ◌≡◌, refl, ◌⊎◌, inl, inr, false, some, List, ◌++◌, length, drop, arith, length-append,
  length-drop, drop-append_self,
}
use rc_plane.Common.Packet.Bytes.{Packet}
use rc_plane.Common.Packet.RoundTrip.{IsLayout}
use rc_plane.Io.Serial.{
  SerialPort, SerialController, ReadResult, ReadOutcome, received, stalled, read_result,
  finish_read, read_packet, IsSerialPort,
}

-- What a read does to the buffer: a packet leaves as many bytes as there were, and a stall only adds.
abbrev pub IsRead :
    {P : Type 0} ⦃l : Packet P⦄ → SerialController → ReadResult P → SerialController → Type 0
IsRead c r c' =
    (c' ≡ record c { stream_buffer = c'.stream_buffer })
    × (((r.did_timeout ≡ false) × (length c'.stream_buffer ≡ length c.stream_buffer))
        ⊎ ((r ≡ read_result) × (length c.stream_buffer ≤ length c'.stream_buffer)))

module _ {W : Type 0} ⦃port : SerialPort W⦄ {P : Type 0} ⦃l : Packet P⦄ where
  -- If the buffered bytes and the received ones begin with the bytes of a valid packet, the read
  -- returns that packet and leaves what follows it in the buffer.
  pub read_packet-to_bytes :
      (IsValid : P → Type 0) (layout : IsLayout P IsValid) (c : SerialController) (w w' : W) (p : P)
      (bytes rest : List ℕ)
      → port.async_read l.size c.read_timeout_ms w ≡ (received bytes, w')
      → c.stream_buffer ++ bytes ≡ l.to_bytes p ++ rest
      → IsValid p
      → read_packet c w
        ≡ some (
          record { packet = p; did_timeout = false; bytes_read = 0 },
          record c { stream_buffer = rest },
          w',
        )
  unfolding read_packet
  read_packet-to_bytes IsValid layout c w w' p bytes rest e framed v =
      rw
        (
          e,
          framed,
          layout.of_bytes-to_bytes p rest v,
          drop-append_self l.size (l.to_bytes p) rest (layout.length-to_bytes p),
        )
        refl

  -- The data of a read that stalls stays in the buffer, and the packet is the default one.
  pub read_packet_stalled :
      (c : SerialController) (w w' : W) (bytes : List ℕ)
      → port.async_read l.size c.read_timeout_ms w ≡ (stalled bytes, w')
      → read_packet {P = P} c w
        ≡ some (read_result, record c { stream_buffer = c.stream_buffer ++ bytes }, port.cancel w')
  unfolding read_packet
  read_packet_stalled c w w' bytes e = rw e refl

  module _ (IsValid : P → Type 0) (layout : IsLayout P IsValid) (laws : IsSerialPort W) where
    finish_read_total :
        (o : ReadOutcome) (c : SerialController) (w w' : W)
        → port.async_read l.size c.read_timeout_ms w ≡ (o, w')
        → (r : ReadResult P) × (c' : SerialController) × (w'' : W) × (finish_read c o w'
            ≡ some (r, c', w''))
          × IsRead c r c'
    unfolding finish_read
    finish_read_total (received bytes) c w w' e =
        let buffer = c.stream_buffer ++ bytes in
        let size = laws.length-received l.size c.read_timeout_ms w w' bytes e in
        let total = length-append c.stream_buffer bytes in
        let (p, cast) = layout.of_bytes_total buffer (omega (arith, size, total)) in
        (
          record { packet = p; did_timeout = false; bytes_read = 0 },
          record c { stream_buffer = drop l.size buffer },
          w',
          rw cast refl,
          (refl, inl (refl, omega (arith, length-drop l.size buffer, size, total))),
        )
    finish_read_total (stalled bytes) c w w' e = (
      read_result,
      record c { stream_buffer = c.stream_buffer ++ bytes },
      port.cancel w',
      refl,
      (refl, inr (refl, omega (arith, length-append c.stream_buffer bytes))),
    )

    -- Over a port that meets its laws, a read of a packet type that meets its own is always defined:
    -- the cast never looks past the buffer. It changes nothing of the controller but the buffer,
    -- as `IsRead` says.
    pub read_packet_total :
        (c : SerialController) (w : W)
        → (r : ReadResult P) × (c' : SerialController) × (w' : W) × (read_packet c w
            ≡ some (r, c', w'))
          × IsRead c r c'
    unfolding read_packet
    read_packet_total c w =
        let outcome = port.async_read l.size c.read_timeout_ms w in
        finish_read_total outcome.0 c w outcome.1 refl
