-- ===== src/Link/Rounds.antt =====
-- Any number of exchanges over a clear link: the line and the two loops add nothing to the manager.
use rc_plane.Base.{ℕ, ◌≡◌, ap, ◌∙◌, some, List, [], ◌++◌, String, length, empty_of_length}
use mathlib.Core.List.{map, append-nil}
use rc_plane.Double.{Double}
use rc_plane.Common.Packet.{ControlSurfacePacket}
use rc_plane.Autopilot.Manager.{AutopilotManager}
use rc_plane.Autopilot.Manager.Flight.{fly}
use rc_plane.Io.Telemetry.Queue.{Queues}
use rc_plane.Mcu.{Board, Sketch}
use rc_plane.Mcu.Sticks.{IsBoard}
use rc_plane.Som.Controller.{SomController}
use rc_plane.Link.{Link, exchanges}
use rc_plane.Link.Round.{IsClear}
use rc_plane.Link.Lag.{Sent, sent_packets, got_packet, IsClear-IsBehind, IsBehind-IsClear}
use rc_plane.Link.Lag.Exchanges.{exchanges-IsDelayed}

module _ {E Q F : Type 0} {text : String → List ℕ} ⦃d : Double F⦄ where
  -- The log is that of a flight of n packets of the manager alone, and the link is clear.
  abbrev pub IsFlown :
      AutopilotManager F → ℕ → List Sketch → SomController Q F → Link E text → Type 0
  IsFlown m n log c w =
      (fly m (map sent_packets log) ≡ some (map got_packet log, c.autopilot_manager))
      × (length log ≡ n)
      × IsClear c w

module _ {E Q F : Type 0} ⦃d : Double F⦄ (text : String → List ℕ) (board : Board E)
    (laws : IsBoard board) (qs : Queues E Q F) where
  -- Over a clear link, and on a board that meets its laws, exchanges that return refine a flight of
  -- the manager alone: the answers that the sketch got are those that the manager gives, one after the other, to the
  -- packets that the sketch sent, and the link is clear at the end.
  pub exchanges-fly :
      (n : ℕ) (s : Sketch) (c c' : SomController Q F) (w w' : Link E text) (log : List Sketch)
      → IsClear c w
      → exchanges text board qs n s c w ≡ some (log, c', w')
      → IsFlown c.autopilot_manager n log c' w'
  exchanges-fly n s c c' w w' log clear h =
      let m = c.autopilot_manager in
      let (flown, outs, ps', bs', fed, flew, got, rounds, sent, held, behind) =
        exchanges-IsDelayed text board laws qs n [] [] s c c' w w' log (IsClear-IsBehind c w clear)
          h in
      let no_packet = empty_of_length ps' sent in
      let no_answer = empty_of_length bs' held in
      let fed_all : map sent_packets log ≡ flown =
        fed ∙ (ap (λ (x : List Sent). flown ++ x) no_packet ∙ append-nil flown) in
      let got_all : outs ≡ map got_packet log =
        got
        ∙ (ap (λ (x : List ControlSurfacePacket). map got_packet log ++ x) no_answer
            ∙ append-nil (map got_packet log)) in
      (
        ap (λ (x : List Sent). fly m x) fed_all
            ∙ (flew
                ∙ ap (λ (x : List ControlSurfacePacket). some (x, c'.autopilot_manager)) got_all),
        rounds,
        IsBehind-IsClear ps' bs' c' w' no_packet no_answer behind,
      )
