-- ===== src/Link/Lag/Shift.antt =====
-- One exchange while packets and answers wait.
use rc_plane.Base.{
  ℕ, ◌≡◌, refl, sym, ap, ◌∙◌, false, some, List, [], ◌∷◌, ◌++◌, String, length, All, All-append,
  >>=-eq-some, carry_triple,
}
use mathlib.Core.Path.{subst}
use rc_plane.Double.{Double, cast_uint8}
use rc_plane.Common.Packet.{ControlSurfacePacket}
use rc_plane.Common.Packet.Bytes.{
  rc_rx_layout, imu_layout, control_surface_layout, rc_rx_to_bytes, imu_to_bytes,
  control_surface_to_bytes,
}
use rc_plane.Common.Packet.RoundTrip.{
  IsRcRxValue, IsImuValue, IsControlSurfaceValue, rc_rx-IsLayout, imu-IsLayout,
}
use rc_plane.Autopilot.Manager.{AutopilotManager, trigger}
use rc_plane.Autopilot.Manager.Output.{trigger-IsControlSurfaceValue}
use rc_plane.Autopilot.Manager.Flight.{trigger-IsConfiguredLike}
use rc_plane.Io.Serial.{SerialController}
use rc_plane.Io.Telemetry.Queue.{Queues}
use rc_plane.Mcu.{Board, Sketch, send_packets}
use rc_plane.Mcu.Sticks.{IsBoard}
use rc_plane.Som.Controller.{SomController}
use rc_plane.Som.Cycle.{run_cycle}
use rc_plane.Som.Cycle.Total.{cycle_defined}
use rc_plane.Link.{Link, link_port, link_board, link_queues, exchange}
use rc_plane.Link.Sending.{send_packets-IsSent, take_answer_lem}
use rc_plane.Link.Round.{read_link, cycle_over_line}
use rc_plane.Link.Lag.{
  Sent, sent_packets, IsSentValue, up_bytes, down_bytes, up_bytes-append, down_bytes-append,
  snoc_front, IsBehind, IsShifted,
}

-- With one more answer at the back, the line holds those of the queue.
down_front :
    (bs bs' : List ControlSurfacePacket) (out a : ControlSurfacePacket) (down : List ℕ)
    → down ≡ down_bytes bs ++ control_surface_to_bytes out
    → All IsControlSurfaceValue bs
    → IsControlSurfaceValue out
    → bs ++ out ∷ [] ≡ a ∷ bs'
    → (down ≡ down_bytes (a ∷ bs')) × All IsControlSurfaceValue (a ∷ bs')
down_front bs bs' out a down waits values value next = (
  waits ∙ (sym (down_bytes-append bs out) ∙ ap down_bytes next),
  subst (λ (x : List ControlSurfacePacket). All IsControlSurfaceValue x) next
      (All-append IsControlSurfaceValue bs (out ∷ []) values (value, tt)),
)

module _ {E Q F : Type 0} ⦃d : Double F⦄ (text : String → List ℕ) (board : Board E)
    (laws : IsBoard board) (qs : Queues E Q F) where
  -- What a cycle that returns has answered.
  cycle_answers :
      (p : Sent) (rest : List ℕ) (c : SomController Q F) (w : Link E text)
      (end : SomController Q F × Link E text)
      → c.serial_controller.stream_buffer ≡ []
      → w.up ≡ rc_rx_to_bytes p.0 ++ (imu_to_bytes p.1 ++ rest)
      → IsSentValue p
      → run_cycle (link_queues qs) c w ≡ some end
      → (out : ControlSurfacePacket) × (m : AutopilotManager F) × (t : ℕ) × (trigger
            c.autopilot_manager p.0 p.1
          ≡ some (out, m))
        × (cast_uint8 (d.of_float32 p.1.temperature) ≡ some t)
  cycle_answers p rest c w end empty up (vr, vi) ran =
      let serial : SerialController = record c.serial_controller { stream_buffer = [] } in
      let w₁ : Link E text = record w { up = imu_to_bytes p.1 ++ rest } in
      let e₁ =
        read_link IsRcRxValue rc_rx-IsLayout c.serial_controller w p.0 (imu_to_bytes p.1 ++ rest)
          empty up vr in
      let e₂ = read_link IsImuValue imu-IsLayout serial w₁ p.1 rest refl refl vi in
      cycle_defined (link_queues qs) c w w₁ (record w { up = rest })
        (record { packet = p.0; did_timeout = false; bytes_read = 0 })
        (record { packet = p.1; did_timeout = false; bytes_read = 0 }) serial serial end e₁ e₂ ran

  -- With one more of both at the back, the line holds those of the two queues.
  up_front :
      (ps ps' : List Sent) (p : Sent) (s s₁ : Sketch) (w w₁ : Link E text)
      → send_packets (link_board text board) F s w ≡ some (s₁, w₁)
      → w.up ≡ up_bytes ps
      → All IsSentValue ps
      → ps ++ sent_packets s₁ ∷ [] ≡ p ∷ ps'
      → (w₁.up ≡ up_bytes (p ∷ ps')) × (w₁.down ≡ w.down) × All IsSentValue (p ∷ ps')
  up_front ps ps' p s s₁ w w₁ sent waits values front =
      let went = send_packets-IsSent text board laws F s s₁ w w₁ sent in
      let value : IsSentValue (sent_packets s₁) = (went.rc_rx_value, went.imu_value) in
      (
        went.sent_up
            ∙ (ap (λ (x : List ℕ). (x ++ rc_rx_to_bytes s₁.rc_rx) ++ imu_to_bytes s₁.imu) waits
                ∙ (sym (up_bytes-append ps (sent_packets s₁)) ∙ ap up_bytes front)),
        went.kept_down,
        subst (λ (x : List Sent). All IsSentValue x) front
            (All-append IsSentValue ps (sent_packets s₁ ∷ []) values (value, tt)),
      )

  -- If the answer to the oldest packet is defined, the exchange returns, and moves both queues on.
  shift_returns :
      (ps ps' : List Sent) (bs : List ControlSurfacePacket) (p : Sent) (s s₁ : Sketch)
      (c : SomController Q F) (w w₁ : Link E text) (out : ControlSurfacePacket)
      (m : AutopilotManager F) (t : ℕ)
      → IsBehind ps bs c w
      → send_packets (link_board text board) F s w ≡ some (s₁, w₁)
      → ps ++ sent_packets s₁ ∷ [] ≡ p ∷ ps'
      → length ps' ≡ length ps
      → trigger c.autopilot_manager p.0 p.1 ≡ some (out, m)
      → cast_uint8 (d.of_float32 p.1.temperature) ≡ some t
      → (a : ControlSurfacePacket) × (c' : SomController Q F) × (w' : Link E text) × (exchange text
            board qs s c w
          ≡ some (record s₁ { control_surface = a }, c', w'))
        × IsShifted ps bs c.autopilot_manager (record s₁ { control_surface = a }) c' w'
  unfolding exchange
  shift_returns ps ps' bs p s s₁ c w w₁ out m t behind sent front count step fits =
      let (up, kept, (value, values)) =
        up_front ps ps' p s s₁ w w₁ sent behind.up_waits behind.sent_values front in
      let (c₂, w₂, cycled, same_manager, buffer, same_queues, up₂, down₂) =
        cycle_over_line text board laws qs c w₁ p.0 p.1 out m t (up_bytes ps') behind.buffer_empty
          behind.queues_open up value.0 value.1 step fits in
      let out_value =
        trigger-IsControlSurfaceValue c.autopilot_manager m out p.0 p.1 behind.limit_fits step in
      let like = trigger-IsConfiguredLike c.autopilot_manager m p.0 p.1 out step in
      let (a, bs', next, waiting) = snoc_front bs out in
      let (down, (answer_value, answer_values)) =
        down_front bs bs' out a w₂.down
          (down₂
            ∙ ap (λ (x : List ℕ). x ++ control_surface_to_bytes out) (kept ∙ behind.down_waits))
          behind.answer_values out_value next in
      let (w₃, taken, up₃, down₃) =
        take_answer_lem text board laws F s₁ w₂ a (down_bytes bs') down answer_value in
      (
        a,
        c₂,
        w₃,
        rw (sent, cycled, taken) refl,
        (
          p,
          ps',
          out,
          bs',
          front,
          rw same_manager step,
          next,
          record {
            up_waits = up₃ ∙ up₂;
            down_waits = down₃;
            sent_values = values;
            answer_values = answer_values;
            buffer_empty = buffer;
            queues_open = rw same_queues behind.queues_open;
            limit_fits = rw (same_manager, like.set_like.same_utility) behind.limit_fits;
          },
          count,
          waiting,
        ),
      )

  -- An exchange that returns moves both queues on.
  pub exchange-IsShifted :
      (ps : List Sent) (bs : List ControlSurfacePacket) (s s' : Sketch) (c c' : SomController Q F)
      (w w' : Link E text)
      → IsBehind ps bs c w
      → exchange text board qs s c w ≡ some (s', c', w')
      → IsShifted ps bs c.autopilot_manager s' c' w'
  unfolding exchange
  exchange-IsShifted ps bs s s' c c' w w' behind h =
      let ((s₁, w₁), sent, h₁) = >>=-eq-some (send_packets (link_board text board) F s w) _ h in
      let (end, ran, _) = >>=-eq-some (run_cycle (link_queues qs) c w₁) _ h₁ in
      let (p, ps', front, count) = snoc_front ps (sent_packets s₁) in
      let (up, _, (value, _)) =
        up_front ps ps' p s s₁ w w₁ sent behind.up_waits behind.sent_values front in
      let (out, m, t, step, fits) =
        cycle_answers p (up_bytes ps') c w₁ end behind.buffer_empty up value ran in
      let (a, c₂, w₂, returned, shifted) =
        shift_returns ps ps' bs p s s₁ c w w₁ out m t behind sent front count step fits in
      carry_triple (IsShifted ps bs c.autopilot_manager) (record s₁ { control_surface = a }) s' c₂
        c' w₂ w' (sym returned ∙ h) shifted
