-- ===== src/Link/Lag/Held.antt =====
-- The sketch while the controller does not run its loop, as in the delay before its first cycle.
use rc_plane.Base.{
  ℕ, zero, suc, ◌≡◌, refl, sym, ap, ◌∙◌, some, List, [], ◌∷◌, ◌++◌, String, length, All, All-append,
  >>=-eq-some, carry_pair,
}
use mathlib.Core.Path.{subst}
use mathlib.Core.List.{map, append_assoc, append-nil}
use rc_plane.Base.Int.{pos, ◌+ℤ◌}
use rc_plane.Double.{Double}
use rc_plane.Common.Packet.{ControlSurfacePacket}
use rc_plane.Common.Packet.Bytes.{
  rc_rx_layout, imu_layout, control_surface_layout, control_surface_to_bytes, rc_rx_to_bytes,
  imu_to_bytes,
}
use rc_plane.Common.Packet.RoundTrip.{IsControlSurfaceValue, control_surface-IsLayout}
use rc_plane.Mcu.{
  Board, Sketch, elevator_out, read_board_packet, send_packets, take_answer, loop, loops,
}
use rc_plane.Mcu.Sticks.{IsBoard}
use rc_plane.Som.Controller.{SomController}
use rc_plane.Link.{Link, link_port, link_board}
use rc_plane.Link.Sending.{send_packets_keeps, send_packets-IsSent}
use rc_plane.Link.Lag.{Sent, sent_packets, IsSentValue, up_bytes-append, IsBehind}

module _ {E : Type 0} (text : String → List ℕ) (board : Board E) where
  -- Nothing comes: the packet is the one before, and the servo gets its deflection again.
  take_nothing :
      (s : Sketch) (w : Link E text)
      → w.down ≡ []
      → IsControlSurfaceValue s.control_surface
      → take_answer (link_board text board) s w
        ≡ some (
          s,
          record w {
            env =
                board.analog_write elevator_out
                  (s.control_surface.aileron_deflection +ℤ pos 115)
                  w.env;
            down = [];
          },
        )
  unfolding take_answer read_board_packet control_surface_to_bytes
  take_nothing s w empty value =
      rw (empty, control_surface-IsLayout.of_bytes-to_bytes s.control_surface [] value) refl

  module _ (laws : IsBoard board) {Q F : Type 0} ⦃d : Double F⦄ where
    -- One more of both packets waits, and the sketch keeps the answer that it has.
    abbrev IsHeld : List Sent → SomController Q F → Sketch → Sketch → Link E text → Type 0
    IsHeld ps c s s' w' =
        (s'.control_surface ≡ s.control_surface) × IsBehind (ps ++ sent_packets s' ∷ []) [] c w'

    sent_waits :
        (ps : List Sent) (c : SomController Q F) (s s₁ : Sketch) (w w₁ : Link E text) (e : E)
        → IsBehind ps [] c w
        → send_packets (link_board text board) F s w ≡ some (s₁, w₁)
        → IsBehind (ps ++ sent_packets s₁ ∷ []) [] c (record w₁ { env = e; down = [] })
    sent_waits ps c s s₁ w w₁ e behind sent =
        let went = send_packets-IsSent text board laws F s s₁ w w₁ sent in
        record {
          up_waits =
              went.sent_up
              ∙ (ap (λ (x : List ℕ). (x ++ rc_rx_to_bytes s₁.rc_rx) ++ imu_to_bytes s₁.imu)
                    behind.up_waits
                  ∙ sym (up_bytes-append ps (sent_packets s₁)));
          down_waits = refl;
          sent_values =
              All-append IsSentValue ps (sent_packets s₁ ∷ []) behind.sent_values
                ((went.rc_rx_value, went.imu_value), tt);
          answer_values = tt;
          buffer_empty = behind.buffer_empty;
          queues_open = behind.queues_open;
          limit_fits = behind.limit_fits;
        }

    loop-IsHeld :
        (ps : List Sent) (c : SomController Q F) (s s' : Sketch) (w w' : Link E text)
        → IsBehind ps [] c w
        → IsControlSurfaceValue s.control_surface
        → loop (link_board text board) F s w ≡ some (s', w')
        → IsHeld ps c s s' w'
    unfolding loop
    loop-IsHeld ps c s s' w w' behind value h =
        let ((s₁, w₁), sent, h₁) = >>=-eq-some (send_packets (link_board text board) F s w) _ h in
        let went = send_packets-IsSent text board laws F s s₁ w w₁ sent in
        let kept = send_packets_keeps text board laws F s s₁ w w₁ sent in
        let nothing =
          take_nothing s₁ w₁ (went.kept_down ∙ behind.down_waits)
            (subst IsControlSurfaceValue (sym kept) value) in
        carry_pair (IsHeld ps c s) s₁ s' _ w' (sym nothing ∙ h₁)
          (kept, sent_waits ps c s s₁ w w₁ _ behind sent)

    -- The packets of all loops wait, and each loop kept the answer from before.
    abbrev pub IsPiled :
        List Sent
        → SomController Q F
        → ControlSurfacePacket
        → ℕ
        → List Sketch
        → Link E text
        → Type 0
    IsPiled ps c answer n log w =
        IsBehind (ps ++ map sent_packets log) [] c w
        × All (λ (s : Sketch). s.control_surface ≡ answer) log
        × (length log ≡ n)

    -- While the controller does not take its cycles the sketch keeps the last answer, and its packets
    -- pile up on the line.
    pub loops-IsPiled :
        (n : ℕ) (ps : List Sent) (c : SomController Q F) (answer : ControlSurfacePacket)
        (s : Sketch) (w w' : Link E text) (log : List Sketch)
        → IsBehind ps [] c w
        → s.control_surface ≡ answer
        → IsControlSurfaceValue answer
        → loops (link_board text board) F n s w ≡ some (log, w')
        → IsPiled ps c answer n log w'
    unfolding loops
    loops-IsPiled zero ps c answer s w w' log behind has value h =
        carry_pair (IsPiled ps c answer zero) [] log w w' h (rw (append-nil ps) behind, tt, refl)
    loops-IsPiled (suc n) ps c answer s w w' log behind has value h =
        let ((s₁, w₁), e, h₁) = >>=-eq-some (loop (link_board text board) F s w) _ h in
        let ((log₁, w₂), run, done) = >>=-eq-some (loops (link_board text board) F n s₁ w₁) _ h₁ in
        let (kept, behind₁) = loop-IsHeld ps c s s₁ w w₁ behind (rw has value) e in
        let (piled, all, count) =
          loops-IsPiled n (ps ++ sent_packets s₁ ∷ []) c answer s₁ w₁ w₂ log₁ behind₁ (kept ∙ has)
            value run in
        carry_pair (IsPiled ps c answer (suc n)) (s₁ ∷ log₁) log w₂ w' done (
          subst (λ (x : List Sent). IsBehind x [] c w₂)
              (append_assoc ps (sent_packets s₁ ∷ []) (map sent_packets log₁)) piled,
          (kept ∙ has, all),
          ap suc count,
        )
