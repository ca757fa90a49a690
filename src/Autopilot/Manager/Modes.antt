-- ===== src/Autopilot/Manager/Modes.antt =====
-- Which autopilot is active after a packet.
use rc_plane.Base.{
  ℕ, ◌<◌, ◌≡◌, refl, ◌∙◌, not, Option, some, List, [], ◌∷◌, ◌==◌, leb, bit_and, arith, ◌>>=◌,
  >>=-eq-some, some_pair,
}
use rc_plane.Base.Bits.{top_bit}
use mathlib.Core.Option.{some-injective}
use rc_plane.Double.{Double}
use rc_plane.Common.State.{assistance_flag, autopilot_mask}
use rc_plane.Common.Packet.{RcRxPacket, ControlSurfacePacket, ImuPacket, control_surface_packet}
use rc_plane.Autopilot.Utility.{AutopilotUtility}
use rc_plane.Autopilot.Manual
use rc_plane.Autopilot.Stabilize
use rc_plane.Autopilot.Stabilize.{Gains}
use rc_plane.Autopilot.Manager.{
  Active, manual, stabilize, AutopilotManager, is_manual, is_in_manual_mode, is_in_stabilize_mode,
  handle_state, autopilot_manager, dispatch, trigger,
}

-- The active autopilot is the one that the last handled state asks for.
abbrev pub IsSynced : {F : Type 0} → AutopilotManager F → Type 0
IsSynced m = is_manual m.autopilot ≡ (bit_and m.prev_state assistance_flag == 0)

-- The masked state of a byte asks for manual mode exactly when the flag is clear.
pub masked_flag :
    (state : ℕ)
    → state < 256
    → (bit_and (bit_and state autopilot_mask) assistance_flag == 0) ≡ not (leb 128 state)
masked_flag state h = rw (top_bit state h) (ground arith)

module _ {F : Type 0} where
  pub handle_state_lem :
      (m : AutopilotManager F) (state : ℕ)
      → IsSynced m
      → (is_manual (handle_state m state).autopilot ≡ (bit_and state assistance_flag == 0))
        × ((handle_state m state).prev_state ≡ state)
  unfolding handle_state is_manual
  handle_state_lem m state h = ground arith

module _ {F : Type 0} ⦃d : Double F⦄ where
  dispatch_mode :
      (a : Active) (m m' : AutopilotManager F) (packet out : ControlSurfacePacket) (r : RcRxPacket)
      (i : ImuPacket)
      → dispatch a m packet r i ≡ some (out, m')
      → (m'.autopilot ≡ m.autopilot) × (m'.prev_state ≡ m.prev_state)
  unfolding dispatch
  dispatch_mode manual m m' packet out r i h = ground arith
  dispatch_mode stabilize m m' packet out r i h =
      let ((packet', s), _, done) =
        >>=-eq-some (Stabilize.trigger m.stabilize_autopilot packet r i) _ h in
      let (_, same) = some_pair packet' out (record m { stabilize_autopilot = s }) m' done in
      rw (← same) (refl, refl)

  pub trigger-IsSynced :
      (m m' : AutopilotManager F) (r : RcRxPacket) (i : ImuPacket) (out : ControlSurfacePacket)
      → IsSynced m
      → trigger m r i ≡ some (out, m')
      → IsSynced m' × (m'.prev_state ≡ bit_and r.state autopilot_mask)
  unfolding trigger
  trigger-IsSynced m m' r i out h step =
      let m₁ = handle_state m (bit_and r.state autopilot_mask) in
      let (active, prev) = dispatch_mode m₁.autopilot m₁ m' control_surface_packet out r i step in
      let (synced, state) = handle_state_lem m (bit_and r.state autopilot_mask) h in
      (rw (active, prev, state) synced, prev ∙ state)

  -- The packets of a flight, in order. It stops at an undefined conversion.
  unfoldable pub flight :
      AutopilotManager F → List (RcRxPacket × ImuPacket) → Option (AutopilotManager F)
  flight m [] = some m
  flight m ((r, i) ∷ packets) = do (_, m') ← trigger m r i; flight m' packets

  flight-IsSynced :
      (m m' : AutopilotManager F) (packets : List (RcRxPacket × ImuPacket))
      → IsSynced m
      → flight m packets ≡ some m'
      → IsSynced m'
  unfolding flight
  flight-IsSynced m m' [] h run = rw (← some-injective _ _ run) h
  flight-IsSynced m m' ((r, i) ∷ packets) h run =
      let ((out, m₁), step, rest) = >>=-eq-some (trigger m r i) _ run in
      flight-IsSynced m₁ m' packets (trigger-IsSynced m m₁ r i out h step).0 rest

  -- From the constructor on, whatever packets were handled before, the mode after a handled packet of
  -- byte-wide state is that of its assistance flag alone: manual if it is clear, and otherwise stabilizing.
  pub mode_follows_flag :
      (u : AutopilotUtility) (g : Gains F) (packets : List (RcRxPacket × ImuPacket))
      (m m' : AutopilotManager F) (r : RcRxPacket) (i : ImuPacket) (out : ControlSurfacePacket)
      → flight (autopilot_manager u g) packets ≡ some m
      → trigger m r i ≡ some (out, m')
      → r.state < 256
      → (is_in_manual_mode m' ≡ not (leb 128 r.state)) × (is_in_stabilize_mode m' ≡ leb 128 r.state)
  unfolding is_in_manual_mode is_in_stabilize_mode autopilot_manager
  mode_follows_flag u g packets m m' r i out run step h =
      let start = flight-IsSynced (autopilot_manager u g) m packets refl run in
      let (synced, prev) = trigger-IsSynced m m' r i out start step in
      ground (arith, masked_flag r.state h)

  dispatch_state :
      (a : Active) (m : AutopilotManager F) (packet : ControlSurfacePacket) (r : RcRxPacket)
      (i : ImuPacket) (state : ℕ)
      → dispatch a m packet (record r { state = state }) i ≡ dispatch a m packet r i
  unfolding dispatch Stabilize.trigger Manual.trigger
  dispatch_state manual m packet r i state = refl
  dispatch_state stabilize m packet r i state = refl

  -- The flags for the user's roll and pitch input change nothing: packets with byte-wide states that
  -- differ only in the low seven bits of the state have the same outcome.
  user_flags_ignored :
      (m : AutopilotManager F) (r : RcRxPacket) (i : ImuPacket) (state : ℕ)
      → r.state < 256
      → state < 256
      → leb 128 state ≡ leb 128 r.state
      → trigger m (record r { state = state }) i ≡ trigger m r i
  unfolding trigger
  user_flags_ignored m r i state h k same =
      rw (top_bit r.state h, top_bit state k, same) (dispatch_state _ _ _ r i state)
