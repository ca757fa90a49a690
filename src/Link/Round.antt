-- ===== src/Link/Round.antt =====
-- One exchange: the answer that reaches the sketch is the one that the manager gives to the sticks and
-- the readings that the sketch has sent.
use rc_plane.Base.{ℕ, ◌≡◌, refl, sym, ◌∙◌, true, false, some, List, [], ◌++◌, String}
use mathlib.Core.List.{append-nil}
use rc_plane.Base.Int.{IsInt8}
use rc_plane.Double.{Double, cast_uint8}
use rc_plane.Common.Packet.{ControlSurfacePacket, RcRxPacket, ImuPacket}
use rc_plane.Common.Packet.Bytes.{
  Packet, rc_rx_layout, imu_layout, control_surface_layout, rc_rx_to_bytes, imu_to_bytes,
  control_surface_to_bytes,
}
use rc_plane.Common.Packet.RoundTrip.{
  IsLayout, IsRcRxValue, IsImuValue, rc_rx-IsLayout, imu-IsLayout,
}
use rc_plane.Autopilot.Manager.{AutopilotManager, trigger}
use rc_plane.Autopilot.Manager.Output.{trigger-IsControlSurfaceValue}
use rc_plane.Autopilot.Manager.Flight.{trigger-IsConfiguredLike}
use rc_plane.Io.Serial.{SerialController, ReadResult, received, read_packet, write_packet}
use rc_plane.Io.Serial.Stream.{read_packet-to_bytes}
use rc_plane.Io.Serial.Loopback.{line_read, line_read_prefix}
use rc_plane.Io.Telemetry.Queue.{Queues}
use rc_plane.Mcu.{Board, Sketch, send_packets}
use rc_plane.Mcu.Sticks.{IsBoard}
use rc_plane.Som.Controller.{SomController}
use rc_plane.Som.Cycle.{run_cycle, after_cycle}
use rc_plane.Som.Cycle.Total.{cycle_returns}
use rc_plane.Som.Failsafe.{IsOpen}
use rc_plane.Link.{Link, link_port, link_board, link_queues, exchange}
use rc_plane.Link.Telemetry.{send_telemetry-IsSameLine}
use rc_plane.Link.Sending.{send_packets-IsSent, take_answer_lem}

-- Between exchanges nothing is under way or buffered, and the queues are open. The elevator limit is
-- a value of its type.
pub record IsClear {Q F E : Type 0} {text : String → List ℕ} (c : SomController Q F)
    (w : Link E text) : Type 0 where
  pub up_empty : w.up ≡ []
  pub down_empty : w.down ≡ []
  pub buffer_empty : c.serial_controller.stream_buffer ≡ []
  pub queues_open : IsOpen c.telemetry_transmitter
  pub limit_fits : IsInt8 c.autopilot_manager.stabilize_autopilot.utility.max_elevator_deflection

module _ {E : Type 0} where
  -- The packet at the front of the line is read.
  pub read_link :
      {text : String → List ℕ} {P : Type 0} ⦃l : Packet P⦄ (IsValid : P → Type 0)
      (layout : IsLayout P IsValid) (c : SerialController) (w : Link E text) (p : P) (rest : List ℕ)
      → c.stream_buffer ≡ []
      → w.up ≡ l.to_bytes p ++ rest
      → IsValid p
      → read_packet c w
        ≡ some (
          record { packet = p; did_timeout = false; bytes_read = 0 },
          record c { stream_buffer = [] },
          record w { up = rest },
        )
  read_link ⦃l⦄ IsValid layout c w p rest empty h v =
      let delivered : line_read l.size w.up ≡ (received (l.to_bytes p), rest) =
        rw h (line_read_prefix l.size (l.to_bytes p) rest (layout.length-to_bytes p)) in
      read_packet-to_bytes IsValid layout c w (record w { up = rest }) p (l.to_bytes p) []
        (rw delivered refl) (rw empty (sym (append-nil (l.to_bytes p)))) v

  module _ {Q F : Type 0} ⦃d : Double F⦄ (text : String → List ℕ) (board : Board E)
      (laws : IsBoard board) (qs : Queues E Q F) where
    -- A cycle takes the two packets at the front of the line, and leaves what follows.
    pub cycle_over_line :
        (c : SomController Q F) (w : Link E text) (r : RcRxPacket) (i : ImuPacket)
        (out : ControlSurfacePacket) (manager : AutopilotManager F) (temperature : ℕ)
        (rest : List ℕ)
        → c.serial_controller.stream_buffer ≡ []
        → IsOpen c.telemetry_transmitter
        → w.up ≡ rc_rx_to_bytes r ++ (imu_to_bytes i ++ rest)
        → IsRcRxValue r
        → IsImuValue i
        → trigger c.autopilot_manager r i ≡ some (out, manager)
        → cast_uint8 (d.of_float32 i.temperature) ≡ some temperature
        → (c' : SomController Q F) × (w' : Link E text) × (run_cycle (link_queues qs) c w
            ≡ some (c', w'))
          × (c'.autopilot_manager ≡ manager)
          × (c'.serial_controller.stream_buffer ≡ [])
          × (c'.telemetry_transmitter ≡ c.telemetry_transmitter)
          × (w'.up ≡ rest)
          × (w'.down ≡ w.down ++ control_surface_to_bytes out)
    unfolding write_packet after_cycle
    cycle_over_line c w r i out manager temperature rest empty open_queues up vr vi e₃ e₄ =
        let serial : SerialController = record c.serial_controller { stream_buffer = [] } in
        let rc_rx : ReadResult RcRxPacket = record {
          packet = r;
          did_timeout = false;
          bytes_read = 0;
        } in
        let imu : ReadResult ImuPacket = record {
          packet = i;
          did_timeout = false;
          bytes_read = 0;
        } in
        let w₁ : Link E text = record w { up = imu_to_bytes i ++ rest } in
        let w₂ : Link E text = record w { up = rest } in
        let w₃ : Link E text = record w₂ { down = w.down ++ control_surface_to_bytes out } in
        let e₁ =
          read_link IsRcRxValue rc_rx-IsLayout c.serial_controller w r (imu_to_bytes i ++ rest)
            empty up vr in
        let e₂ = read_link IsImuValue imu-IsLayout serial w₁ i rest refl refl vi in
        let c' = after_cycle c rc_rx imu serial out manager temperature true in
        let (w₄, sent, ran) =
          cycle_returns (link_queues qs) c w w₁ w₂ w₃ rc_rx imu serial serial out manager
            temperature true open_queues e₁ e₂ e₃ e₄ refl in
        let same = send_telemetry-IsSameLine qs c' w₃ w₄ sent in
        (c', w₄, ran, refl, refl, refl, same.same_up, same.same_down)

    -- From a clear link, if the sticks can be sent, and the manager's answer to them and the
    -- temperature are defined, the exchange returns. The sketch then has that very answer, the
    -- manager is the one that the answer left, and the link is clear again.
    pub exchange_returns :
        (s s₁ : Sketch) (c : SomController Q F) (w w₁ : Link E text) (out : ControlSurfacePacket)
        (manager : AutopilotManager F) (temperature : ℕ)
        → IsClear c w
        → send_packets (link_board text board) F s w ≡ some (s₁, w₁)
        → trigger c.autopilot_manager s₁.rc_rx s₁.imu ≡ some (out, manager)
        → cast_uint8 (d.of_float32 s₁.imu.temperature) ≡ some temperature
        → (c' : SomController Q F) × (w' : Link E text) × (exchange text board qs s c w
            ≡ some (record s₁ { control_surface = out }, c', w'))
          × (c'.autopilot_manager ≡ manager)
          × IsClear c' w'
    unfolding exchange
    exchange_returns s s₁ c w w₁ out manager temperature clear sent e₃ e₄ =
        let went = send_packets-IsSent text board laws F s s₁ w w₁ sent in
        let (c', w₂, ran, same_manager, buffer, same_queues, up, down) =
          cycle_over_line c w₁ s₁.rc_rx s₁.imu out manager temperature [] clear.buffer_empty
            clear.queues_open
            (went.sent_up ∙ rw (clear.up_empty, append-nil (imu_to_bytes s₁.imu)) refl)
            went.rc_rx_value went.imu_value e₃ e₄ in
        let like = trigger-IsConfiguredLike c.autopilot_manager manager s₁.rc_rx s₁.imu out e₃ in
        let value =
          trigger-IsControlSurfaceValue c.autopilot_manager manager out s₁.rc_rx s₁.imu
            clear.limit_fits e₃ in
        let line : w₂.down ≡ control_surface_to_bytes out ++ [] =
          down
          ∙ rw (went.kept_down, clear.down_empty)
              (sym (append-nil (control_surface_to_bytes out))) in
        let (w₃, taken, up₃, down₃) = take_answer_lem text board laws F s₁ w₂ out [] line value in
        (
          c',
          w₃,
          rw (sent, ran, taken) refl,
          same_manager,
          record {
            up_empty = up₃ ∙ up;
            down_empty = down₃;
            buffer_empty = buffer;
            queues_open = rw same_queues clear.queues_open;
            limit_fits = rw (same_manager, like.set_like.same_utility) clear.limit_fits;
          },
        )
