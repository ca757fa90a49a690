-- ===== src/Link/Lag/Deaf.antt =====
-- The controller while the sketch is silent.
use rc_plane.Base.{
  ℕ, zero, suc, ◌<◌, ◌≡◌, refl, sym, ap, ◌∙◌, Bool, true, false, some, List, [], ◌∷◌, ◌++◌, String,
  All-append, replicate, arith,
}
use mathlib.Core.Path.{subst}
use mathlib.Core.List.{append_assoc, append-nil}
use rc_plane.Double.{Double, cast_uint8}
use rc_plane.Common.Packet.{
  RcRxPacket, ImuPacket, ControlSurfacePacket, control_surface_packet, rc_rx_packet, imu_packet,
}
use rc_plane.Common.Packet.Bytes.{
  Packet, rc_rx_layout, imu_layout, control_surface_layout, control_surface_to_bytes,
}
use rc_plane.Common.Packet.RoundTrip.{IsControlSurfaceValue}
use rc_plane.Autopilot.Utility.Sticks.{IsConfigured}
use rc_plane.Autopilot.Utility.{AutopilotUtility}
use rc_plane.Autopilot.Manager.{handle_state}
use rc_plane.Autopilot.Manager.Modes.{IsSynced, trigger-IsSynced}
use rc_plane.Autopilot.Manager.Flight.{trigger-IsConfiguredLike}
use rc_plane.Io.Serial.{SerialController, stalled, read_result, read_packet, write_packet}
use rc_plane.Io.Serial.Stream.{read_packet_stalled}
use rc_plane.Io.Serial.Loopback.{line_read}
use rc_plane.Io.Telemetry.Queue.{Queues}
use rc_plane.Som.Controller.{Host, SomController}
use rc_plane.Som.Cycle.{after_cycle, run_cycle}
use rc_plane.Som.Cycle.Total.{cycle_returns}
use rc_plane.Som.Failsafe.{trigger_default}
use rc_plane.Som.Loop.{run_rounds}
use rc_plane.Link.{Link, link_port, link_queues}
use rc_plane.Link.Telemetry.{send_telemetry-IsSameLine}
use rc_plane.Link.Lag.{down_bytes-append, IsBehind}

-- Nothing is on the line.
read_nothing :
    {E : Type 0} {text : String → List ℕ} {P : Type 0} ⦃l : Packet P⦄ (c : SerialController)
    (w : Link E text)
    → 0 < l.size
    → c.stream_buffer ≡ []
    → w.up ≡ []
    → read_packet {P = P} c w
      ≡ some (read_result, record c { stream_buffer = [] }, record w { up = [] })
read_nothing ⦃l⦄ c w size empty up =
    let none_came : line_read l.size w.up ≡ (stalled [], []) = rw up (ground arith) in
    read_packet_stalled c w (record w { up = [] }) [] (rw none_came refl) ∙ rw empty refl

default-IsControlSurfaceValue : IsControlSurfaceValue control_surface_packet
default-IsControlSurfaceValue = omega arith

-- A controller that is in step with its last state, with the given limits, while `bs` waits.
pub record IsFallback {Q F E : Type 0} {text : String → List ℕ} (u : AutopilotUtility)
    (bs : List ControlSurfacePacket) (c : SomController Q F) (w : Link E text) : Type 0 where
  pub behind : IsBehind [] bs c w
  pub synced : IsSynced c.autopilot_manager
  pub same_utility : c.autopilot_manager.manual_autopilot.utility ≡ u

module _ {E Q F : Type 0} {text : String → List ℕ} ⦃d : Double F⦄ (qs : Queues E Q F) (t : ℕ)
    (zero_fits : cast_uint8 (d.of_float32 0) ≡ some t) (u : AutopilotUtility)
    (configured : IsConfigured u) where
  cycle-IsFallback :
      (bs : List ControlSurfacePacket) (c : SomController Q F) (w : Link E text)
      → IsFallback u bs c w
      → (c' : SomController Q F) × (w' : Link E text) × (run_cycle (link_queues qs) c w
          ≡ some (c', w'))
        × IsFallback u (bs ++ control_surface_packet ∷ []) c' w'
  unfolding write_packet after_cycle
  cycle-IsFallback bs c w ready =
      let m = c.autopilot_manager in
      let serial : SerialController = record c.serial_controller { stream_buffer = [] } in
      let w₁ : Link E text = record w { up = [] } in
      let w₂ : Link E text = record w₁ {
        down = w.down ++ control_surface_to_bytes control_surface_packet;
      } in
      let e₁ =
        read_nothing {P = RcRxPacket} c.serial_controller w (omega arith) ready.behind.buffer_empty
          ready.behind.up_waits in
      let e₂ = read_nothing {P = ImuPacket} serial w₁ (omega arith) refl refl in
      let (step, _) =
        trigger_default m imu_packet ready.synced (rw ready.same_utility configured) in
      let manager = handle_state m 0 in
      let c' = after_cycle c read_result read_result serial control_surface_packet manager t true in
      let (w₃, sent, ran) =
        cycle_returns (link_queues qs) c w w₁ w₁ w₂ read_result read_result serial serial
          control_surface_packet manager t true ready.behind.queues_open e₁ e₂ step zero_fits
          refl in
      let same = send_telemetry-IsSameLine qs c' w₂ w₃ sent in
      let like =
        trigger-IsConfiguredLike m manager rc_rx_packet imu_packet control_surface_packet step in
      (
        c',
        w₃,
        ran,
        record {
          behind = record {
            up_waits = same.same_up;
            down_waits =
                same.same_down
                ∙ (ap (λ (x : List ℕ). x ++ control_surface_to_bytes control_surface_packet)
                      ready.behind.down_waits
                    ∙ sym (down_bytes-append bs control_surface_packet));
            sent_values = tt;
            answer_values =
                All-append IsControlSurfaceValue bs (control_surface_packet ∷ [])
                  ready.behind.answer_values (default-IsControlSurfaceValue, tt);
            buffer_empty = refl;
            queues_open = ready.behind.queues_open;
            limit_fits = rw like.set_like.same_utility ready.behind.limit_fits;
          };
          synced =
              (trigger-IsSynced m manager rc_rx_packet imu_packet control_surface_packet
                ready.synced step).0;
          same_utility = ap (λ (a : _). a.utility) like.same_manual ∙ ready.same_utility;
        },
      )

  -- While the sketch is silent and nothing stops the loop, every round returns, and one more packet with no throttle
  -- and no deflection waits for the sketch after each.
  pub run_rounds-IsFallback :
      (host : Host (Link E text)) (n : ℕ) (bs : List ControlSurfacePacket) (c : SomController Q F)
      (w : Link E text)
      → ((v : Link E text) → host.is_stopped v ≡ (false, v))
      → IsFallback u bs c w
      → (c' : SomController Q F) × (w' : Link E text) × (run_rounds (link_queues qs) host n c w
          ≡ some (c', w'))
        × IsFallback u (bs ++ replicate n control_surface_packet) c' w'
  unfolding run_rounds
  run_rounds-IsFallback host zero bs c w goes ready = (c, w, refl, rw (append-nil bs) ready)
  run_rounds-IsFallback host (suc n) bs c w goes ready =
      let running = ap (λ (p : Bool × Link E text). p.0) (goes w) in
      let same_world = ap (λ (p : Bool × Link E text). p.1) (goes w) in
      let (c₁, w₁, ran, ready₁) = cycle-IsFallback bs c w ready in
      let (c', w', rest, ready') =
        run_rounds-IsFallback host n (bs ++ control_surface_packet ∷ []) c₁ w₁ goes ready₁ in
      (
        c',
        w',
        rw (running, run_rounds, same_world, ran) rest,
        subst (λ (x : List ControlSurfacePacket). IsFallback u x c' w')
            (append_assoc bs (control_surface_packet ∷ []) (replicate n control_surface_packet))
            ready',
      )
