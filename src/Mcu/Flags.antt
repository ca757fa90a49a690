-- ===== src/Mcu/Flags.antt =====
-- The state that the sketch sends, and what the manager makes of it.
use rc_plane.Base.{
  ℕ, ◌<◌, ◌≡◌, refl, ◌∙◌, Bool, true, false, not, some, List, leb, ltb, if◌then◌else◌, arith,
  bit_and, bit_or, ◌==◌,
}
use rc_plane.Base.Int.{ℤ}
use rc_plane.Double.{Double}
use rc_plane.Common.State.{user_roll, user_pitch, assistance_flag}
use rc_plane.Common.Packet.{RcRxPacket, ControlSurfacePacket, ImuPacket}
use rc_plane.Autopilot.Utility.{AutopilotUtility}
use rc_plane.Autopilot.Stabilize.{Gains}
use rc_plane.Autopilot.Manager.{
  AutopilotManager, autopilot_manager, is_in_manual_mode, is_in_stabilize_mode, trigger,
}
use rc_plane.Autopilot.Manager.Modes.{flight, mode_follows_flag}
use rc_plane.Mcu.{has_user_input, packet_state}

abbrev flags : Bool → Bool → Bool → ℕ
flags assistance roll pitch =
    bit_or (bit_or (if assistance then assistance_flag else 0) (if roll then user_roll else 0))
      (if pitch then user_pitch else 0)

-- What the eight states hold.
abbrev IsFlags : ℕ → Bool → Bool → Bool → Type 0
IsFlags state assistance roll pitch =
    (state < 256)
    × (leb 128 state ≡ assistance)
    × ((bit_and state user_roll == user_roll) ≡ roll)
    × ((bit_and state user_pitch == user_pitch) ≡ pitch)

flags-IsFlags :
    (assistance roll pitch : Bool) → IsFlags (flags assistance roll pitch) assistance roll pitch
flags-IsFlags true true true = (omega arith, refl, refl, refl)
flags-IsFlags true true false = (omega arith, refl, refl, refl)
flags-IsFlags true false true = (omega arith, refl, refl, refl)
flags-IsFlags true false false = (omega arith, refl, refl, refl)
flags-IsFlags false true true = (omega arith, refl, refl, refl)
flags-IsFlags false true false = (omega arith, refl, refl, refl)
flags-IsFlags false false true = (omega arith, refl, refl, refl)
flags-IsFlags false false false = (omega arith, refl, refl, refl)

-- The state is a byte whose bits say whether the switch pulse is above 1600, and whether either stick
-- is at least 3 away from its centre.
pub packet_state_lem :
    (switch : ℕ) (aileron elevator : ℤ)
    → (packet_state switch aileron elevator < 256)
      × (leb 128 (packet_state switch aileron elevator) ≡ ltb 1600 switch)
      × ((bit_and (packet_state switch aileron elevator) user_roll == user_roll)
          ≡ has_user_input aileron)
      × ((bit_and (packet_state switch aileron elevator) user_pitch == user_pitch)
          ≡ has_user_input elevator)
unfolding packet_state
packet_state_lem switch aileron elevator =
    flags-IsFlags (ltb 1600 switch) (has_user_input aileron) (has_user_input elevator)

module _ {F : Type 0} ⦃d : Double F⦄ where
  -- From the switch to the autopilot: after a packet whose state the sketch computed, the manager is in
  -- manual mode exactly if the pulse of the switch was at most 1600, whatever came before.
  pub mode_follows_switch :
      (u : AutopilotUtility) (g : Gains F) (packets : List (RcRxPacket × ImuPacket))
      (m m' : AutopilotManager F) (r : RcRxPacket) (i : ImuPacket) (out : ControlSurfacePacket)
      (switch : ℕ) (aileron elevator : ℤ)
      → flight (autopilot_manager u g) packets ≡ some m
      → r.state ≡ packet_state switch aileron elevator
      → trigger m r i ≡ some (out, m')
      → (is_in_manual_mode m' ≡ not (ltb 1600 switch)) × (is_in_stabilize_mode m' ≡ ltb 1600 switch)
  mode_follows_switch u g packets m m' r i out switch aileron elevator run e step =
      let (byte, set, _, _) = packet_state_lem switch aileron elevator in
      let (manual, stabilize) = mode_follows_flag u g packets m m' r i out run step (rw e byte) in
      let same : leb 128 r.state ≡ ltb 1600 switch = rw e set in
      (manual ∙ rw same refl, stabilize ∙ same)
