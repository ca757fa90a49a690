-- ===== src/Som/Handshake.antt =====
-- impl/src/som/SomController.cpp, `handshakeMCU`.
pub mod Answer
use rc_plane.Base.{ℕ, zero, suc, Bool, true, false, Option, none, some, ◌>>=◌, if◌then◌else◌}
use rc_plane.Common.Packet.{HandshakePacket, eq_handshake}
use rc_plane.Common.Packet.Bytes.{handshake_layout}
use rc_plane.Io.Serial.{SerialPort, SerialController, ReadResult, read_packet, write_packet, flush}
use rc_plane.Io.Telemetry.Message.{DebugMessage}
use rc_plane.Som.Controller.{Ending, returned, exited, SomController, next}

abbrev pub acknowledgement : HandshakePacket
acknowledgement = record { handshake = 1 }

-- The packet is the one that was written.
unfoldable pub is_answer : ReadResult HandshakePacket → Bool
is_answer r = if r.did_timeout then false else eq_handshake acknowledgement r.packet

-- The counters after one attempt: a packet that is not the expected one is not counted.
unfoldable pub count_answer : ReadResult HandshakePacket → DebugMessage → DebugMessage
count_answer r m =
    if r.did_timeout
    then record m { serial_read_timeouts = next m.serial_read_timeouts }
    else if eq_handshake acknowledgement r.packet
    then record m { serial_reads = next m.serial_reads }
    else m

module _ {Q F : Type 0} where
  unfoldable pub after_attempt :
      SomController Q F → ReadResult HandshakePacket → SerialController → SomController Q F
  after_attempt c r serial = record c {
    serial_controller = serial;
    debug_message = count_answer r c.debug_message;
  }

  unfoldable pub after_flush : SomController Q F → SerialController → SomController Q F
  after_flush c serial = record c { serial_controller = serial }

  unfoldable pub count_write : SomController Q F → SomController Q F
  count_write c = record c {
    debug_message = record c.debug_message { serial_writes = next c.debug_message.serial_writes };
  }

module _ {W Q F : Type 0} ⦃port : SerialPort W⦄ where
  -- The loop, over the attempts that are left.
  unfoldable pub await_answer : ℕ → SomController Q F → W → Option (Bool × SomController Q F × W)
  await_answer zero c w = some (false, c, w)
  await_answer (suc n) c w = do
    (r, serial, w₁) ← read_packet c.serial_controller w
    elim (is_answer r) [
      | true ↦ some (true, after_attempt c r serial, w₁)
      | false ↦ await_answer n (after_attempt c r serial) w₁
    ]

  -- What follows the flush, and what follows the write.
  unfoldable pub after_write :
      Bool → SomController Q F → W → Option (Ending (Bool × SomController Q F × W))
  after_write false c w = some (returned (false, c, w))
  after_write true c w = do
    result ← await_answer c.handshake_attempts (count_write c) w
    some (returned result)

  unfoldable pub write_handshake :
      Bool → SomController Q F → W → Option (Ending (Bool × SomController Q F × W))
  unfolding after_write
  write_handshake false c w = some exited
  write_handshake true c w =
      let (written, w') = write_packet c.serial_controller acknowledgement w in
      after_write written c w'

  unfoldable pub handshake_mcu :
      SomController Q F → W → Option (Ending (Bool × SomController Q F × W))
  unfolding write_handshake
  handshake_mcu c w =
      let (flushed, serial, w') = flush c.serial_controller w in
      write_handshake flushed (after_flush c serial) w'
