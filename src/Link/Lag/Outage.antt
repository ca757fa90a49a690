-- ===== src/Link/Lag/Outage.antt =====
-- What a pause at one end of the line does to all that follows: the other end ran on, and the two are
-- apart from then on.
use rc_plane.Base.{
  ℕ, ◌≡◌, refl, sym, ap, ◌∙◌, false, some, List, [], ◌++◌, String, length, All, replicate,
  length-map, empty_of_length, length-replicate, carry_pair,
}
use mathlib.Core.List.{map, append-nil, map-append}
use rc_plane.Double.{Double, cast_uint8}
use rc_plane.Common.Packet.{ControlSurfacePacket, control_surface_packet}
use rc_plane.Common.Packet.RoundTrip.{IsControlSurfaceValue}
use rc_plane.Autopilot.Utility.{AutopilotUtility}
use rc_plane.Autopilot.Utility.Sticks.{IsConfigured}
use rc_plane.Autopilot.Manager.Modes.{IsSynced}
use rc_plane.Autopilot.Manager.Flight.{fly}
use rc_plane.Io.Telemetry.Queue.{Queues}
use rc_plane.Mcu.{Board, Sketch, loops}
use rc_plane.Mcu.Sticks.{IsBoard}
use rc_plane.Som.Controller.{Host, SomController}
use rc_plane.Som.Loop.{run_rounds}
use rc_plane.Link.{Link, link_port, link_board, link_queues, exchanges}
use rc_plane.Link.Round.{IsClear}
use rc_plane.Link.Lag.{IsClear-IsBehind, Sent, sent_packets, got_packet, IsBehind}
use rc_plane.Link.Lag.Exchanges.{exchanges-IsDelayed}
use rc_plane.Link.Lag.Held.{loops-IsPiled}
use rc_plane.Link.Lag.Deaf.{run_rounds-IsFallback}

module _ {E Q F : Type 0} ⦃d : Double F⦄ (text : String → List ℕ) (board : Board E)
    (laws : IsBoard board) (qs : Queues E Q F) where
  -- If the sketch, which holds an answer that is a value of its type, has run k loops over a clear
  -- link before the controller takes its first cycle, it has kept that answer meanwhile, and over all
  -- exchanges that follow and return the manager's flight goes through all that was sent but the last
  -- k packets: each answer that the sketch gets is to the packet from k loops before.
  pub loops-exchanges :
      (k n : ℕ) (s s₁ : Sketch) (c c' : SomController Q F) (w w₁ w' : Link E text)
      (before log : List Sketch)
      → IsClear c w
      → IsControlSurfaceValue s.control_surface
      → loops (link_board text board) F k s w ≡ some (before, w₁)
      → exchanges text board qs n s₁ c w₁ ≡ some (log, c', w')
      → All (λ (s' : Sketch). s'.control_surface ≡ s.control_surface) before
        × (flown late : List Sent) × (map sent_packets (before ++ log) ≡ flown ++ late)
        × (fly c.autopilot_manager flown ≡ some (map got_packet log, c'.autopilot_manager))
        × (length late ≡ k)
  loops-exchanges k n s s₁ c c' w w₁ w' before log clear value piled ran =
      let (behind, kept, count) =
        loops-IsPiled text board laws k [] c s.control_surface s w w₁ before
          (IsClear-IsBehind c w clear) refl value piled in
      let (flown, outs, late, bs', fed, flew, got, _, held, waiting, _) =
        exchanges-IsDelayed text board laws qs n (map sent_packets before) [] s₁ c c' w₁ w' log
          behind ran in
      let none_wait = empty_of_length bs' waiting in
      let answered : outs ≡ map got_packet log =
        got
        ∙ (ap (λ (x : List ControlSurfacePacket). map got_packet log ++ x) none_wait
            ∙ append-nil (map got_packet log)) in
      (
        kept,
        flown,
        late,
        map-append sent_packets before log ∙ fed,
        flew ∙ ap (λ (x : List ControlSurfacePacket). some (x, c'.autopilot_manager)) answered,
        held ∙ (length-map sent_packets before ∙ count),
      )

  -- If the controller, in step with its last state and with configured limits, has run k rounds over
  -- a clear link while the sketch was silent and nothing stopped the loop, then over all exchanges that
  -- follow and return the sketch gets k packets with no throttle and no deflection, and then the answers
  -- to its own packets, each k exchanges late.
  pub run_rounds-exchanges :
      (host : Host (Link E text)) (k n t : ℕ) (u : AutopilotUtility) (s : Sketch)
      (c c₁ c' : SomController Q F) (w w₁ w' : Link E text) (log : List Sketch)
      → ((v : Link E text) → host.is_stopped v ≡ (false, v))
      → cast_uint8 (d.of_float32 0) ≡ some t
      → IsConfigured u
      → c.autopilot_manager.manual_autopilot.utility ≡ u
      → IsSynced c.autopilot_manager
      → IsClear c w
      → run_rounds (link_queues qs) host k c w ≡ some (c₁, w₁)
      → exchanges text board qs n s c₁ w₁ ≡ some (log, c', w')
      → (outs late : List ControlSurfacePacket) × (fly c₁.autopilot_manager (map sent_packets log)
          ≡ some (outs, c'.autopilot_manager))
        × (replicate k control_surface_packet ++ outs ≡ map got_packet log ++ late)
        × (length late ≡ k)
  run_rounds-exchanges host k n t u s c c₁ c' w w₁ w' log goes zero_fits configured same synced
        clear deaf ran =
      let (c₂, w₂, rounds, ready) =
        run_rounds-IsFallback qs t zero_fits u configured host k [] c w goes
          (record { behind = IsClear-IsBehind c w clear; synced = synced; same_utility = same }) in
      let behind =
        carry_pair (IsBehind [] (replicate k control_surface_packet)) c₂ c₁ w₂ w₁
          (sym rounds ∙ deaf) ready.behind in
      let (flown, outs, ps', late, fed, flew, got, _, none_sent, held, _) =
        exchanges-IsDelayed text board laws qs n [] (replicate k control_surface_packet) s c₁ c' w₁
          w' log behind ran in
      let all : map sent_packets log ≡ flown =
        fed
        ∙ (ap (λ (x : List Sent). flown ++ x) (empty_of_length ps' none_sent) ∙ append-nil flown) in
      (
        outs,
        late,
        ap (λ (x : List Sent). fly c₁.autopilot_manager x) all ∙ flew,
        got,
        held ∙ length-replicate k control_surface_packet,
      )
