-- ===== src/Link/Frames/Exchanges.antt =====
-- Any number of exchanges: the controller never finds the start of a packet again.
use rc_plane.Base.{
  ℕ, zero, suc, ◌+◌, ◌≤◌, ◌≡◌, refl, sym, ap, ◌∙◌, some, List, [], ◌∷◌, ◌++◌, String, length, drop,
  length-append, length-drop, drop-append_le, >>=-eq-some, some_pair, carry_pair, carry_triple,
  arith,
}
use mathlib.Core.Path.{subst}
use mathlib.Core.List.{map, append_assoc, append-nil}
use rc_plane.Double.{Double}
use rc_plane.Common.Packet.{ControlSurfacePacket, RcRxPacket, ImuPacket}
use rc_plane.Common.Packet.Bytes.{
  rc_rx_layout, imu_layout, control_surface_layout, rc_rx_to_bytes, imu_to_bytes, rc_rx_of_bytes,
  imu_of_bytes, control_surface_of_bytes,
}
use rc_plane.Common.Packet.Local.{rc_rx-IsLocal, imu-IsLocal}
use rc_plane.Common.Packet.RoundTrip.{rc_rx-IsLayout, imu-IsLayout}
use rc_plane.Autopilot.Manager.Flight.{fly}
use rc_plane.Io.Telemetry.Queue.{Queues}
use rc_plane.Mcu.{Board, Sketch, read_board_packet, send_packets, take_answer}
use rc_plane.Mcu.Sticks.{IsBoard}
use rc_plane.Som.Controller.{SomController}
use rc_plane.Som.Cycle.{run_cycle}
use rc_plane.Link.{Link, link_port, link_board, link_queues, exchange, exchanges}
use rc_plane.Link.Sending.{send_packets-IsSent}
use rc_plane.Link.Lag.{Sent, sent_packets, up_bytes}
use rc_plane.Link.Frames.{stream, cut, IsFramed, cycle_frame}

-- A frame and what comes after it.
cut_step :
    (n : ℕ) (bytes rest left : List ℕ) (r : RcRxPacket) (i : ImuPacket) (ps : List Sent)
    → 37 ≤ length bytes
    → rc_rx_of_bytes bytes ≡ some r
    → imu_of_bytes (drop 9 bytes) ≡ some i
    → cut n (drop 28 (drop 9 bytes) ++ rest) ≡ some (ps, left)
    → cut (suc n) (bytes ++ rest) ≡ some ((r, i) ∷ ps, left)
unfolding cut
cut_step n bytes rest left r i ps long is_r is_i cuts =
    let after_r = drop-append_le 9 bytes rest (omega arith) in
    let long_i : 28 ≤ length (drop 9 bytes) = omega (arith, length-drop 9 bytes) in
    let after_i = drop-append_le 28 (drop 9 bytes) rest long_i in
    let first = rc_rx-IsLocal bytes rest (omega arith) ∙ is_r in
    let second = imu-IsLocal (drop 9 bytes) rest long_i ∙ is_i in
    rw (first, after_r, second, after_i, cuts) refl

up_bytes-length : (p : Sent) → length (rc_rx_to_bytes p.0 ++ imu_to_bytes p.1) ≡ 37
up_bytes-length p = omega (
  arith,
  length-append (rc_rx_to_bytes p.0) (imu_to_bytes p.1),
  rc_rx-IsLayout.length-to_bytes p.0,
  imu-IsLayout.length-to_bytes p.1,
)

module _ {E : Type 0} (text : String → List ℕ) (board : Board E) where
  read_answer_keeps :
      (old answer : ControlSurfacePacket) (w w' : Link E text)
      → read_board_packet (link_board text board) old w ≡ some (answer, w')
      → w'.up ≡ w.up
  unfolding read_board_packet
  read_answer_keeps old answer w w' h =
      let (packet, _, done) = >>=-eq-some (control_surface_of_bytes _) _ h in
      rw (← (some_pair packet answer (record w { down = drop 4 w.down }) w' done).1) refl

  take_answer_keeps :
      (s s' : Sketch) (w w' : Link E text)
      → take_answer (link_board text board) s w ≡ some (s', w')
      → (w'.up ≡ w.up) × (sent_packets s' ≡ sent_packets s)
  unfolding take_answer
  take_answer_keeps s s' w w' h =
      let ((answer, w₁), e, done) =
        >>=-eq-some (read_board_packet (link_board text board) s.control_surface w) _ h in
      let same = read_answer_keeps s.control_surface answer w w₁ e in
      carry_pair
        (λ (x : Sketch) (v : Link E text). (v.up ≡ w.up) × (sent_packets x ≡ sent_packets s))
        (record s { control_surface = answer }) s' _ w' done (same, refl)

  module _ (laws : IsBoard board) {Q F : Type 0} ⦃d : Double F⦄ (qs : Queues E Q F) where
    after_answer :
        (c c₂ : SomController Q F) (s₁ s₃ : Sketch) (w₂ w₃ : Link E text) (old : List ℕ)
        → w₃.up ≡ w₂.up
        → sent_packets s₃ ≡ sent_packets s₁
        → IsFramed (old ++ (rc_rx_to_bytes s₁.rc_rx ++ imu_to_bytes s₁.imu)) c c₂ w₂
        → IsFramed (old ++ (rc_rx_to_bytes s₃.rc_rx ++ imu_to_bytes s₃.imu)) c c₂ w₃
    after_answer c c₂ s₁ s₃ w₂ w₃ old line kept (p, out, is_r, is_i, step, left, same) =
        let bytes : old ++ (rc_rx_to_bytes s₁.rc_rx ++ imu_to_bytes s₁.imu)
            ≡ old ++ (rc_rx_to_bytes s₃.rc_rx ++ imu_to_bytes s₃.imu) =
          ap (λ (q : Sent). old ++ (rc_rx_to_bytes q.0 ++ imu_to_bytes q.1)) (sym kept) in
        subst (λ (x : List ℕ). IsFramed x c c₂ w₃) bytes
          (
            p,
            out,
            is_r,
            is_i,
            step,
            ap (λ (x : List ℕ). c₂.serial_controller.stream_buffer ++ x) line ∙ left,
            same,
          )

    exchange_frame :
        (s s' : Sketch) (c c' : SomController Q F) (w w' : Link E text)
        → exchange text board qs s c w ≡ some (s', c', w')
        → IsFramed
            (stream c.serial_controller w ++ (rc_rx_to_bytes s'.rc_rx ++ imu_to_bytes s'.imu))
            c
            c'
            w'
    unfolding exchange
    exchange_frame s s' c c' w w' h =
        let ((s₁, w₁), sent, h₁) = >>=-eq-some (send_packets (link_board text board) F s w) _ h in
        let ((c₂, w₂), ran, h₂) = >>=-eq-some (run_cycle (link_queues qs) c w₁) _ h₁ in
        let ((s₃, w₃), taken, done) =
          >>=-eq-some (take_answer (link_board text board) s₁ w₂) _ h₂ in
        let went = send_packets-IsSent text board laws F s s₁ w w₁ sent in
        let (line, kept) = take_answer_keeps s₁ s₃ w₂ w₃ taken in
        let bytes = rc_rx_to_bytes s₁.rc_rx ++ imu_to_bytes s₁.imu in
        let all : stream c.serial_controller w₁ ≡ stream c.serial_controller w ++ bytes =
          ap (λ (x : List ℕ). c.serial_controller.stream_buffer ++ x)
            (went.sent_up ∙ append_assoc w.up (rc_rx_to_bytes s₁.rc_rx) (imu_to_bytes s₁.imu))
          ∙ sym (append_assoc c.serial_controller.stream_buffer w.up bytes) in
        let long : 37 ≤ length w₁.up = omega (
          arith,
          ap length
              (went.sent_up ∙ append_assoc w.up (rc_rx_to_bytes s₁.rc_rx) (imu_to_bytes s₁.imu)),
          length-append w.up bytes,
          up_bytes-length (sent_packets s₁),
        ) in
        let framed = cycle_frame qs c c₂ w₁ w₂ long ran in
        carry_triple
          (λ (x : Sketch) (k : SomController Q F) (v : Link E text).
            IsFramed
              (stream c.serial_controller w ++ (rc_rx_to_bytes x.rc_rx ++ imu_to_bytes x.imu)) c k
              v)
          s₃ s' c₂ c' w₃ w' done
          (after_answer c c₂ s₁ s₃ w₂ w₃ (stream c.serial_controller w) line kept
            (subst (λ (x : List ℕ). IsFramed x c c₂ w₂) all framed))

    -- The frames that the controller has flown begin with the old bytes and go on with all that was sent.
    abbrev pub IsCut :
        List ℕ → SomController Q F → ℕ → List Sketch → SomController Q F → Link E text → Type 0
    IsCut old c n log c' w' =
        (flown : List Sent) × (outs : List ControlSurfacePacket) × (cut n
            (old ++ up_bytes (map sent_packets log))
          ≡ some (flown, stream c'.serial_controller w'))
        × (fly c.autopilot_manager flown ≡ some (outs, c'.autopilot_manager))
        × (length (stream c'.serial_controller w') ≡ length old)
        × (length c'.serial_controller.stream_buffer ≡ length c.serial_controller.stream_buffer)

    -- Whatever is buffered or on the line, over any number of exchanges that return, on a board that
    -- meets its laws, the manager flies the packets of the 37-byte frames that begin with those old
    -- bytes and go on with what the sketch sent; as many bytes are left over as there were before,
    -- in the buffer and together.
    pub exchanges-IsCut :
        (n : ℕ) (s : Sketch) (c c' : SomController Q F) (w w' : Link E text) (log : List Sketch)
        → exchanges text board qs n s c w ≡ some (log, c', w')
        → IsCut (stream c.serial_controller w) c n log c' w'
    unfolding exchanges fly cut
    exchanges-IsCut zero s c c' w w' log h =
        carry_triple (IsCut (stream c.serial_controller w) c zero) [] log c c' w w' h (
          [],
          [],
          ap (λ (x : List ℕ). some ([], x)) (append-nil (stream c.serial_controller w)),
          refl,
          refl,
          refl,
        )
    exchanges-IsCut (suc n) s c c' w w' log h =
        let ((s₁, c₁, w₁), e, h₁) = >>=-eq-some (exchange text board qs s c w) _ h in
        let ((log₁, c₂, w₂), run, done) = >>=-eq-some (exchanges text board qs n s₁ c₁ w₁) _ h₁ in
        let old = stream c.serial_controller w in
        let sent = rc_rx_to_bytes s₁.rc_rx ++ imu_to_bytes s₁.imu in
        let (p, out, is_r, is_i, step, left, same) = exchange_frame s s₁ c c₁ w w₁ e in
        let (flown, outs, cuts, flew, long, buffer) = exchanges-IsCut n s₁ c₁ c₂ w₁ w₂ log₁ run in
        let enough : length (old ++ sent) ≡ length old + 37 =
          omega (arith, length-append old sent, up_bytes-length (sent_packets s₁)) in
        let later = up_bytes (map sent_packets log₁) in
        let all : old ++ up_bytes (sent_packets s₁ ∷ map sent_packets log₁)
            ≡ (old ++ sent) ++ later =
          ap (λ (x : List ℕ). old ++ x)
            (sym (append_assoc (rc_rx_to_bytes s₁.rc_rx) (imu_to_bytes s₁.imu) later))
          ∙ sym (append_assoc old sent later) in
        carry_triple (IsCut old c (suc n)) (s₁ ∷ log₁) log c₂ c' w₂ w' done (
          p ∷ flown,
          out ∷ outs,
          ap (cut (suc n)) all
              ∙ cut_step n (old ++ sent) later (stream c₂.serial_controller w₂) p.0 p.1 flown
                  (omega (arith, enough)) is_r is_i
                  (ap (λ (x : List ℕ). cut n (x ++ later)) (sym left) ∙ cuts),
          rw (step, flew) refl,
          omega (
            arith,
            long,
            ap length left,
            length-drop 28 (drop 9 (old ++ sent)),
            length-drop 9 (old ++ sent),
            enough,
          ),
          buffer ∙ same,
        )
