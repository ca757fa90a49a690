-- ===== src/Tests/Async.antt =====
-- The two threads of a read of a handshake packet, in one order that delivers it, and in one in which
-- the handler comes too late.
use rc_plane.Base.{◌≤◌, refl, ◌⊎◌, true, false, none, some, []}
use rc_plane.Common.Packet.{HandshakePacket}
use rc_plane.Common.Packet.Bytes.{handshake_layout}
use rc_plane.Common.Packet.RoundTrip.{handshake-IsLayout}
use rc_plane.Io.Serial.{read_result}
use rc_plane.Io.Serial.Loopback.{Line, loopback}
use rc_plane.Io.Serial.Async.{
  ReadCall, finished, returned, result_of, Reach, start, later, Step, arrive, complete, set_value,
  get, time_out, cancel, set_late,
}
use rc_plane.Io.Serial.Async.Bounds.{IsEnded, call_ends}
use rc_plane.Io.Serial.Async.Outcomes.{IsFinished, IsLost, ended_read}
use rc_plane.Tests.Serial.{controller}

abbrev answer : HandshakePacket
answer = record { handshake = 1 }

abbrev delivered : ReadCall HandshakePacket
delivered = record {
  buffer = [];
  operation = finished;
  caller = returned (result_of answer);
  promise = some (result_of answer);
  dangling = false;
}

delivered_run : Reach [] 4 delivered
unfolding rc_plane.Common.Packet.Bytes.handshake_of_bytes
delivered_run =
    later
      (later (later (later start (arrive 1 0 refl)) (complete refl))
        (set_value answer refl refl refl))
      (get (result_of answer) refl refl)

ended_read_example :
    IsFinished {W = Line} controller delivered (result_of answer) []
    ⊎ IsLost controller delivered (result_of answer)
ended_read_example =
    ended_read {W = Line} controller [] 4 delivered (result_of answer) delivered_run refl refl

-- The promise is used after its end.
abbrev late : ReadCall HandshakePacket
late = record {
  buffer = [];
  operation = finished;
  caller = returned read_result;
  promise = none;
  dangling = true;
}

late_run : Reach [] 5 late
unfolding rc_plane.Common.Packet.Bytes.handshake_of_bytes
late_run =
    later
      (later (later (later (later start (arrive 1 0 refl)) (time_out refl refl)) (complete refl))
        (cancel refl))
      (set_late answer refl refl refl)

call_ends_example :
    (4 ≤ 5) × (IsEnded delivered ⊎ ((t : ReadCall HandshakePacket) × Step delivered t))
call_ends_example = call_ends _ handshake-IsLayout [] 4 delivered delivered_run
