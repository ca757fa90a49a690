-- ===== src/Link/Lag.antt =====
-- Packets and answers that wait on the line: what the sketch sent before the controller was ready,
-- and what the controller wrote while the sketch was silent. An exchange takes one of each from the
-- front, and adds one of each at the back.
pub mod Shift
pub mod Exchanges
pub mod Held
pub mod Deaf
pub mod Outage
use rc_plane.Base.{
  ℕ, suc, ◌≡◌, refl, sym, ap, ◌∙◌, true, false, some, List, [], ◌∷◌, ◌++◌, String, length, All,
  All-append, >>=-eq-some, carry_triple,
}
use mathlib.Core.Path.{subst}
use mathlib.Core.List.{append_assoc, append-nil}
use rc_plane.Base.Int.{IsInt8}
use rc_plane.Double.{Double, cast_uint8}
use rc_plane.Common.Packet.{RcRxPacket, ImuPacket, ControlSurfacePacket}
use rc_plane.Common.Packet.Bytes.{
  rc_rx_layout, imu_layout, control_surface_layout, rc_rx_to_bytes, imu_to_bytes,
  control_surface_to_bytes,
}
use rc_plane.Common.Packet.RoundTrip.{
  IsRcRxValue, IsImuValue, IsControlSurfaceValue, rc_rx-IsLayout, imu-IsLayout,
}
use rc_plane.Autopilot.Manager.{AutopilotManager, trigger}
use rc_plane.Autopilot.Manager.Output.{trigger-IsControlSurfaceValue}
use rc_plane.Autopilot.Manager.Flight.{trigger-IsConfiguredLike}
use rc_plane.Io.Serial.{SerialController}
use rc_plane.Io.Telemetry.Queue.{Queues}
use rc_plane.Mcu.{Board, Sketch, send_packets}
use rc_plane.Mcu.Sticks.{IsBoard}
use rc_plane.Som.Controller.{SomController}
use rc_plane.Som.Cycle.{run_cycle}
use rc_plane.Som.Cycle.Total.{cycle_defined}
use rc_plane.Som.Failsafe.{IsOpen}
use rc_plane.Link.{Link, link_port, link_board, link_queues, exchange}
use rc_plane.Link.Sending.{send_packets-IsSent, take_answer_lem}
use rc_plane.Link.Round.{IsClear, read_link, cycle_over_line}

-- The packets of one loop of the sketch.
abbrev pub Sent : Type 0
Sent = RcRxPacket × ImuPacket

-- What a sketch has sent, and what it has got.
abbrev pub sent_packets : Sketch → Sent
sent_packets s = (s.rc_rx, s.imu)

abbrev pub got_packet : Sketch → ControlSurfacePacket
got_packet s = s.control_surface

abbrev pub IsSentValue : Sent → Type 0
IsSentValue p = IsRcRxValue p.0 × IsImuValue p.1

-- The bytes of the packets that wait.
abbrev pub up_bytes : List Sent → List ℕ
up_bytes [] = []
up_bytes (p ∷ ps) = rc_rx_to_bytes p.0 ++ (imu_to_bytes p.1 ++ up_bytes ps)

abbrev pub down_bytes : List ControlSurfacePacket → List ℕ
down_bytes [] = []
down_bytes (a ∷ bs) = control_surface_to_bytes a ++ down_bytes bs

pub up_bytes-append :
    (ps : List Sent) (p : Sent)
    → up_bytes (ps ++ p ∷ []) ≡ (up_bytes ps ++ rc_rx_to_bytes p.0) ++ imu_to_bytes p.1
up_bytes-append [] p = ap (◌++◌ (rc_rx_to_bytes p.0)) (append-nil (imu_to_bytes p.1))
up_bytes-append (q ∷ ps) p = simp (up_bytes-append ps p, append_assoc)

pub down_bytes-append :
    (bs : List ControlSurfacePacket) (a : ControlSurfacePacket)
    → down_bytes (bs ++ a ∷ []) ≡ down_bytes bs ++ control_surface_to_bytes a
down_bytes-append [] a = append-nil (control_surface_to_bytes a)
down_bytes-append (b ∷ bs) a = simp (down_bytes-append bs a, append_assoc)

-- A queue is never empty after something was put into it.
pub snoc_front {ℓ} :
    {A : Type ℓ} (xs : List A) (x : A)
    → (y : A) × (ys : List A) × (xs ++ x ∷ [] ≡ y ∷ ys) × (length ys ≡ length xs)
snoc_front [] x = (x, [], refl, refl)
snoc_front (z ∷ zs) x =
    let (y, ys, e, n) = snoc_front zs x in (z, zs ++ x ∷ [], refl, rw e (ap suc n))

-- The packets `ps` wait on their way up, and the answers `bs` on theirs down. Nothing is buffered,
-- the queues are open, and the elevator limit is a value of its type.
pub record IsBehind {Q F E : Type 0} {text : String → List ℕ} (ps : List Sent)
    (bs : List ControlSurfacePacket) (c : SomController Q F) (w : Link E text) : Type 0 where
  pub up_waits : w.up ≡ up_bytes ps
  pub down_waits : w.down ≡ down_bytes bs
  pub sent_values : All IsSentValue ps
  pub answer_values : All IsControlSurfaceValue bs
  pub buffer_empty : c.serial_controller.stream_buffer ≡ []
  pub queues_open : IsOpen c.telemetry_transmitter
  pub limit_fits : IsInt8 c.autopilot_manager.stabilize_autopilot.utility.max_elevator_deflection

-- Nothing waits on a clear link.
pub IsClear-IsBehind :
    {Q F E : Type 0} {text : String → List ℕ} (c : SomController Q F) (w : Link E text)
    → IsClear c w
    → IsBehind [] [] c w
IsClear-IsBehind c w clear = record {
  up_waits = clear.up_empty;
  down_waits = clear.down_empty;
  sent_values = tt;
  answer_values = tt;
  buffer_empty = clear.buffer_empty;
  queues_open = clear.queues_open;
  limit_fits = clear.limit_fits;
}

pub IsBehind-IsClear :
    {Q F E : Type 0} {text : String → List ℕ} (ps : List Sent) (bs : List ControlSurfacePacket)
    (c : SomController Q F) (w : Link E text)
    → ps ≡ []
    → bs ≡ []
    → IsBehind ps bs c w
    → IsClear c w
IsBehind-IsClear ps bs c w no_packet no_answer behind = record {
  up_empty = behind.up_waits ∙ ap up_bytes no_packet;
  down_empty = behind.down_waits ∙ ap down_bytes no_answer;
  buffer_empty = behind.buffer_empty;
  queues_open = behind.queues_open;
  limit_fits = behind.limit_fits;
}

module _ {E Q F : Type 0} {text : String → List ℕ} ⦃d : Double F⦄ where
  -- The controller has answered the oldest packet, and the sketch has got the oldest answer.
  abbrev pub IsShifted :
      List Sent
      → List ControlSurfacePacket
      → AutopilotManager F
      → Sketch
      → SomController Q F
      → Link E text
      → Type 0
  IsShifted ps bs m s c w =
      (p : Sent) × (ps' : List Sent) × (out : ControlSurfacePacket) × (bs' : List
        ControlSurfacePacket)
      × (ps ++ sent_packets s ∷ [] ≡ p ∷ ps')
      × (trigger m p.0 p.1 ≡ some (out, c.autopilot_manager))
      × (bs ++ out ∷ [] ≡ got_packet s ∷ bs')
      × IsBehind ps' bs' c w
      × (length ps' ≡ length ps)
      × (length bs' ≡ length bs)
