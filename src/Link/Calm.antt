-- ===== src/Link/Calm.antt =====
-- The whole loop while the user flies: it always returns, and within the limits.
use rc_plane.Base.{ℕ, zero, suc, ◌<◌, ◌≡◌, refl, ap, some, List, [], ◌∷◌, String, All, length}
use rc_plane.Double.{Double, cast_uint8}
use rc_plane.Common.Packet.Bytes.{rc_rx_layout, imu_layout}
use rc_plane.Autopilot.Utility.{AutopilotUtility}
use rc_plane.Autopilot.Utility.Sticks.{IsConfigured}
use rc_plane.Autopilot.Utility.Limits.{IsInEnvelope, IsNominal}
use rc_plane.Autopilot.Manager.Modes.{IsSynced, trigger-IsSynced}
use rc_plane.Autopilot.Manager.Envelope.{manual_mode}
use rc_plane.Autopilot.Manager.Flight.{trigger-IsConfiguredLike}
use rc_plane.Io.Telemetry.Queue.{Queues}
use rc_plane.Mcu.{Board, Sketch, send_packets, write_board_packet}
use rc_plane.Mcu.Calm.{IsCalm, read_sticks-IsNominal}
use rc_plane.Mcu.Sticks.{IsBoard}
use rc_plane.Som.Controller.{SomController}
use rc_plane.Link.{Link, link_board, exchange, exchanges}
use rc_plane.Link.Round.{IsClear, exchange_returns}

link_board-IsCalm :
    {E F : Type 0} ⦃d : Double F⦄ (text : String → List ℕ) (board : Board E)
    → IsCalm board F
    → IsCalm (link_board text board) F
link_board-IsCalm text board calm = record {
  motor_nominal = λ w. calm.motor_nominal w.env;
  aileron_nominal = λ w. calm.aileron_nominal w.env;
  elevator_nominal = λ w. calm.elevator_nominal w.env;
  rudder_nominal = λ w. calm.rudder_nominal w.env;
  switch_low = λ w. calm.switch_low w.env;
  temperature_fits = λ w. calm.temperature_fits w.env;
}

-- A controller that is ready to fly by hand, with the given limits, over a clear link.
pub record IsFlyable {Q F E : Type 0} {text : String → List ℕ} (u : AutopilotUtility)
    (c : SomController Q F) (w : Link E text) : Type 0 where
  pub clear : IsClear c w
  pub synced : IsSynced c.autopilot_manager
  pub same_utility : c.autopilot_manager.manual_autopilot.utility ≡ u

module _ {E Q F : Type 0} ⦃d : Double F⦄ (text : String → List ℕ) (board : Board E)
    (laws : IsBoard board) (calm : IsCalm board F) (qs : Queues E Q F) where
  -- What the sketch sends: nominal sticks, a clear flag, and a temperature that fits its byte.
  send_packets_calm :
      (s : Sketch) (w : Link E text)
      → (s₁ : Sketch) × (w₁ : Link E text) × (t : ℕ) × (send_packets (link_board text board) F s w
          ≡ some (s₁, w₁))
        × (s₁.rc_rx.state < 128)
        × IsNominal s₁.rc_rx
        × (cast_uint8 (d.of_float32 s₁.imu.temperature) ≡ some t)
  unfolding send_packets
  send_packets_calm s w =
      let (r, w₁, e, low, nominal) =
        read_sticks-IsNominal (link_board text board) F w (link_board-IsCalm text board calm) in
      let w₂ = write_board_packet (link_board text board) r w₁ in
      let (imu, w₃) = (link_board text board).update_imu w₂ in
      let (t, fits) = (link_board-IsCalm text board calm).temperature_fits w₂ in
      (
        record s { rc_rx = r; imu = imu },
        write_board_packet (link_board text board) imu w₃,
        t,
        rw e refl,
        low,
        nominal,
        fits,
      )

  exchange_calm :
      (u : AutopilotUtility) (s : Sketch) (c : SomController Q F) (w : Link E text)
      → IsConfigured u
      → IsFlyable u c w
      → (s' : Sketch) × (c' : SomController Q F) × (w' : Link E text) × (exchange text board qs s c
            w
          ≡ some (s', c', w'))
        × IsInEnvelope u s'.control_surface
        × IsFlyable u c' w'
  exchange_calm u s c w configured ready =
      let m = c.autopilot_manager in
      let (s₁, w₁, t, sent, low, nominal, fits) = send_packets_calm s w in
      let (out, m', step, _, within) =
        manual_mode m s₁.rc_rx s₁.imu ready.synced low (rw ready.same_utility configured) nominal in
      let (c', w', ran, same, clear) =
        exchange_returns text board laws qs s s₁ c w w₁ out m' t ready.clear sent step fits in
      let like = trigger-IsConfiguredLike m m' s₁.rc_rx s₁.imu out step in
      (
        record s₁ { control_surface = out },
        c',
        w',
        ran,
        rw (← ready.same_utility) within,
        record {
          clear = clear;
          synced = rw same (trigger-IsSynced m m' s₁.rc_rx s₁.imu out ready.synced step).0;
          same_utility = rw (same, like.same_manual) ready.same_utility;
        },
      )

  -- On a calm board that meets its laws, with configured limits, and from a controller that is in step
  -- with its last state over a clear link: any number of exchanges return, and every answer that the
  -- sketch got is within the limits.
  pub exchanges-IsInEnvelope :
      (u : AutopilotUtility) (n : ℕ) (s : Sketch) (c : SomController Q F) (w : Link E text)
      → IsConfigured u
      → IsFlyable u c w
      → (log : List Sketch) × (c' : SomController Q F) × (w' : Link E text) × (exchanges text board
            qs n s c w
          ≡ some (log, c', w'))
        × (length log ≡ n)
        × All (λ (s' : Sketch). IsInEnvelope u s'.control_surface) log
        × IsFlyable u c' w'
  unfolding exchanges
  exchanges-IsInEnvelope u zero s c w configured ready = ([], c, w, refl, refl, tt, ready)
  exchanges-IsInEnvelope u (suc n) s c w configured ready =
      let (s₁, c₁, w₁, e, within, ready₁) = exchange_calm u s c w configured ready in
      let (log, c₂, w₂, run, count, all, ready₂) =
        exchanges-IsInEnvelope u n s₁ c₁ w₁ configured ready₁ in
      (s₁ ∷ log, c₂, w₂, rw (e, run) refl, ap suc count, (within, all), ready₂)
