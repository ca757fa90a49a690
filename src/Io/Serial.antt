-- ===== src/Io/Serial.antt =====
-- impl/src/io/SerialController.cpp and impl/include/rcplane/io/SerialController.hpp: packets over a
-- serial port. The port is Boost.Asio's, and a parameter.
pub mod Stream
pub mod Framing
pub mod Loopback
pub mod Async
use rc_plane.Base.{
  ℕ, ◌+◌, ◌*◌, ◌≤◌, ◌<◌, ◌≡◌, Bool, true, false, Option, none, some, List, [], ◌++◌, String, length,
  drop, ◌>>=◌, if◌then◌else◌, ◌%◌, ◌^◌,
}
use rc_plane.Common.Packet.Bytes.{Packet}

-- How a composed read ends. A stall is a timeout, or an error, which the handler drops, so that
-- the wait times out as well; the bytes that came until the cancellation are in the buffer.
pub data ReadOutcome : Type 0 where
  received : List ℕ → ReadOutcome
  stalled : List ℕ → ReadOutcome

-- How a read up to a delimiter ends: the bytes appended to the buffer, and the size of the part of
-- the buffer that ends with the delimiter.
pub data UntilOutcome : Type 0 where
  found : List ℕ → ℕ → UntilOutcome
  not_found : List ℕ → UntilOutcome

-- A serial port in a world of type W. An operation that throws, and a write that does not complete
-- in time, return `false`.
pub record SerialPort (W : Type 0) : Type 0 where
  pub open_port : String → W → Bool × W
  pub set_baud_rate : ℕ → W → Bool × W
  pub async_read : ℕ → ℕ → W → ReadOutcome × W
  pub async_read_until : String → List ℕ → ℕ → W → UntilOutcome × W
  pub async_write : List ℕ → ℕ → W → Bool × W
  pub cancel : W → W

pub record SerialController : Type 0 where
  pub tty_dev : String
  pub baud_rate : ℕ
  pub read_timeout_ms : ℕ
  pub write_timeout_ms : ℕ
  pub handshake_termination_str : String
  pub stream_buffer : List ℕ

pub record ReadResult (P : Type 0) : Type 0 where
  pub packet : P
  pub did_timeout : Bool
  pub bytes_read : ℕ

-- The member initializers of `ReadResult`.
abbrev pub read_result : {P : Type 0} ⦃l : Packet P⦄ → ReadResult P
read_result ⦃l⦄ = record { packet = l.initial; did_timeout = true; bytes_read = 0 }

-- The handler takes the packet from the start of the buffer, and consumes its size.
unfoldable pub take_packet :
    {P : Type 0} ⦃l : Packet P⦄
    → SerialController
    → List ℕ
    → Option (ReadResult P × SerialController)
take_packet ⦃l⦄ c buffer = do
  packet ← l.of_bytes buffer
  some (
    record { packet = packet; did_timeout = false; bytes_read = 0 },
    record c { stream_buffer = drop l.size buffer },
  )

module _ {W : Type 0} ⦃port : SerialPort W⦄ where
  -- The exception of either call is caught.
  unfoldable pub open_serial : SerialController → W → Bool × W
  open_serial c w =
      let (opened, w₁) = port.open_port c.tty_dev w in
      if opened then port.set_baud_rate c.baud_rate w₁ else (false, w₁)

  unfoldable pub finish_read :
      {P : Type 0} ⦃l : Packet P⦄
      → SerialController
      → ReadOutcome
      → W
      → Option (ReadResult P × SerialController × W)
  unfolding take_packet
  finish_read c (received bytes) w = do
    (result, c') ← take_packet c (c.stream_buffer ++ bytes)
    some (result, c', w)
  finish_read c (stalled bytes) w =
      some (read_result, record c { stream_buffer = c.stream_buffer ++ bytes }, port.cancel w)

  unfoldable pub read_packet :
      {P : Type 0} ⦃l : Packet P⦄
      → SerialController
      → W
      → Option (ReadResult P × SerialController × W)
  unfolding finish_read
  read_packet ⦃l⦄ c w =
      let (outcome, w₁) = port.async_read l.size c.read_timeout_ms w in finish_read c outcome w₁

  unfoldable pub write_packet : {P : Type 0} ⦃l : Packet P⦄ → SerialController → P → W → Bool × W
  write_packet ⦃l⦄ c packet w =
      let (written, w₁) = port.async_write (l.to_bytes packet) c.write_timeout_ms w in
      if written then (true, w₁) else (false, port.cancel w₁)

  unfoldable pub finish_flush : SerialController → UntilOutcome → W → Bool × SerialController × W
  finish_flush c (found bytes size) w =
      (true, record c { stream_buffer = drop (size * 2) (c.stream_buffer ++ bytes) }, w)
  finish_flush c (not_found bytes) w =
      (false, record c { stream_buffer = c.stream_buffer ++ bytes }, port.cancel w)

  -- The wait is twice the read timeout, in 32-bit arithmetic.
  unfoldable pub flush : SerialController → W → Bool × SerialController × W
  unfolding finish_flush
  flush c w =
      let (outcome, w₁) =
        port.async_read_until c.handshake_termination_str c.stream_buffer
          (c.read_timeout_ms * 2 % 2 ^ 32) w in
      finish_flush c outcome w₁

-- What Boost.Asio documents: `transfer_exactly(n)` completes with n bytes, and never transfers more.
pub record IsSerialPort (W : Type 0) ⦃port : SerialPort W⦄ : Type 0 where
  pub length-received :
      (n timeout : ℕ) (w w' : W) (bytes : List ℕ)
      → port.async_read n timeout w ≡ (received bytes, w')
      → length bytes ≡ n
  pub length-stalled :
      (n timeout : ℕ) (w w' : W) (bytes : List ℕ)
      → port.async_read n timeout w ≡ (stalled bytes, w')
      → length bytes ≤ n
