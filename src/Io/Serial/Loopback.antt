-- ===== src/Io/Serial/Loopback.antt =====
-- A line that delivers what was written: the world is the queue of bytes under way. A terminator
-- counts as found before the first byte.
use rc_plane.Base.{
  ℕ, zero, suc, ◌≤◌, ◌≡◌, refl, sym, ap, ◌∙◌, true, Option, some, List, [], ◌∷◌, ◌++◌, length, drop,
  take, leb, arith, if◌then◌else◌, ◌>>=◌, All, length-append, take-append_self, drop-append_self,
  take-append-drop, length-drop,
}
use mathlib.Core.List.{append-nil, append_assoc}
use rc_plane.Common.Packet.Bytes.{Packet}
use rc_plane.Common.Packet.RoundTrip.{IsLayout}
use rc_plane.Io.Serial.{
  SerialPort, SerialController, ReadOutcome, received, stalled, found, read_packet, write_packet,
  IsSerialPort,
}
use rc_plane.Io.Serial.Stream.{read_packet-to_bytes}

abbrev pub Line : Type 0
Line = List ℕ

abbrev pub line_read : ℕ → Line → ReadOutcome × Line
line_read n w = if leb n (length w) then (received (take n w), drop n w) else (stalled w, [])

instance abbrev pub loopback : SerialPort Line
loopback = record {
  open_port = λ _ w. (true, w);
  set_baud_rate = λ _ w. (true, w);
  async_read = λ n _ w. line_read n w;
  async_read_until = λ _ _ _ w. (found [] 0, w);
  async_write = λ bytes _ w. (true, w ++ bytes);
  cancel = λ w. w;
}

length-take : (n : ℕ) (w : Line) → n ≤ length w → length (take n w) ≡ n
length-take n w h =
    omega (
      arith,
      length-append (take n w) (drop n w),
      ap length (take-append-drop n w),
      length-drop n w,
    )

pub line_read_prefix :
    (n : ℕ) (xs ys : Line) → length xs ≡ n → line_read n (xs ++ ys) ≡ (received xs, ys)
line_read_prefix n xs ys e =
    ground (arith, take-append_self n xs ys e, drop-append_self n xs ys e, length-append xs ys)

received_length :
    (n : ℕ) (w w' bytes : Line) → line_read n w ≡ (received bytes, w') → length bytes ≡ n
received_length n w w' bytes e = ground (arith, length-take n w)

stalled_length :
    (n : ℕ) (w w' bytes : Line) → line_read n w ≡ (stalled bytes, w') → length bytes ≤ n
stalled_length n w w' bytes e = ground arith

pub loopback-IsSerialPort : IsSerialPort Line
loopback-IsSerialPort = record {
  length-received = λ n _ w w' bytes e. received_length n w w' bytes e;
  length-stalled = λ n _ w w' bytes e. stalled_length n w w' bytes e;
}

module _ {P : Type 0} ⦃l : Packet P⦄ where
  -- `writePacket` and `readPacket` in loops.
  unfoldable pub write_packets : SerialController → List P → Line → Line
  write_packets c [] w = w
  write_packets c (p ∷ ps) w = write_packets c ps (write_packet c p w).1

  unfoldable pub read_packets : ℕ → SerialController → Line → Option (List P)
  read_packets zero c w = some []
  read_packets (suc n) c w = do
    (r, c', w') ← read_packet {P = P} c w
    rest ← read_packets n c' w'
    some (r.packet ∷ rest)

  abbrev all_bytes : List P → Line
  all_bytes [] = []
  all_bytes (p ∷ ps) = l.to_bytes p ++ all_bytes ps

  write_packets_lem :
      (c : SerialController) (ps : List P) (w : Line) → write_packets c ps w ≡ w ++ all_bytes ps
  unfolding write_packets write_packet
  write_packets_lem c [] w = sym (append-nil w)
  write_packets_lem c (p ∷ ps) w =
      write_packets_lem c ps (w ++ l.to_bytes p) ∙ append_assoc w (l.to_bytes p) (all_bytes ps)

  module _ (IsValid : P → Type 0) (layout : IsLayout P IsValid) where
    read_packets_lem :
        (c : SerialController) (ps : List P)
        → All IsValid ps
        → c.stream_buffer ≡ []
        → read_packets (length ps) c (all_bytes ps) ≡ some ps
    unfolding read_packets
    read_packets_lem c [] v e = refl
    read_packets_lem c (p ∷ ps) (v, vs) e =
        let rest = all_bytes ps in
        let size = layout.length-to_bytes p in
        let delivered : line_read l.size (l.to_bytes p ++ rest) ≡ (received (l.to_bytes p), rest) =
          line_read_prefix l.size (l.to_bytes p) rest size in
        let read =
          read_packet-to_bytes IsValid layout c (l.to_bytes p ++ rest) rest p (l.to_bytes p) []
            delivered (rw e (sym (append-nil (l.to_bytes p)))) v in
        rw (read, read_packets_lem (record c { stream_buffer = [] }) ps vs refl) refl

    -- Valid packets written to an empty line, any number of them, are read in order by a controller with
    -- nothing buffered.
    pub write_then_read :
        (writer reader : SerialController) (ps : List P)
        → All IsValid ps
        → reader.stream_buffer ≡ []
        → read_packets (length ps) reader (write_packets writer ps []) ≡ some ps
    write_then_read writer reader ps v e =
        rw (write_packets_lem writer ps []) (read_packets_lem reader ps v e)
