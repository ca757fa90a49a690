-- ===== src/Tests/Serial.antt =====
-- The serial controller over the loopback line.
use rc_plane.Base.{ℕ, ◌≡◌, refl, false, Option, some, List, [], ◌∷◌, ◌++◌, length}
use rc_plane.Common.Packet.{RcRxPacket}
use rc_plane.Common.Packet.Bytes.{rc_rx_layout, rc_rx_to_bytes}
use rc_plane.Common.Packet.RoundTrip.{IsRcRxValue, rc_rx-IsLayout}
use rc_plane.Io.Serial.{SerialController, ReadResult, read_packet}
use rc_plane.Io.Serial.Stream.{read_packet-to_bytes, read_packet_total, IsRead}
use rc_plane.Io.Serial.Loopback.{
  Line, loopback, loopback-IsSerialPort, write_packets, read_packets, write_then_read,
}
use rc_plane.Tests.Data.{sticks, assisted, sticks-IsRcRxValue, assisted-IsRcRxValue}

abbrev pub controller : SerialController
controller = record {
  tty_dev = "/dev/ttyUSB0";
  baud_rate = 115200;
  read_timeout_ms = 100;
  write_timeout_ms = 100;
  handshake_termination_str = "flush";
  stream_buffer = [];
}

write_then_read_example :
    read_packets 2 controller (write_packets controller (sticks ∷ assisted ∷ []) [])
    ≡ some (sticks ∷ assisted ∷ [])
write_then_read_example =
    write_then_read IsRcRxValue rc_rx-IsLayout controller controller (sticks ∷ assisted ∷ [])
      (sticks-IsRcRxValue, (assisted-IsRcRxValue, tt)) refl

-- Three bytes were buffered, and those that come complete the packet.
abbrev buffered : SerialController
buffered = record controller { stream_buffer = 136 ∷ 19 ∷ 0 ∷ [] }

abbrev arriving : Line
arriving = 0 ∷ 1 ∷ 50 ∷ 206 ∷ 20 ∷ 100 ∷ 7 ∷ 8 ∷ 9 ∷ []

framed : 136 ∷ 19 ∷ 0 ∷ arriving ≡ rc_rx_to_bytes sticks ++ (7 ∷ 8 ∷ 9 ∷ [])
unfolding rc_rx_to_bytes rc_plane.Base.Int.to_uint8
framed = refl

read_packet-to_bytes_example :
    read_packet buffered arriving
    ≡ some (
      record { packet = sticks; did_timeout = false; bytes_read = 0 },
      record buffered { stream_buffer = 7 ∷ 8 ∷ 9 ∷ [] },
      [],
    )
read_packet-to_bytes_example =
    read_packet-to_bytes IsRcRxValue rc_rx-IsLayout buffered arriving [] sticks arriving
      (7 ∷ 8 ∷ 9 ∷ []) refl framed sticks-IsRcRxValue

read_packet_total_example :
    (r : ReadResult RcRxPacket) × (c' : SerialController) × (w' : Line) × (read_packet buffered
        arriving
      ≡ some (r, c', w'))
    × IsRead buffered r c'
read_packet_total_example =
    read_packet_total IsRcRxValue rc_rx-IsLayout loopback-IsSerialPort buffered arriving
