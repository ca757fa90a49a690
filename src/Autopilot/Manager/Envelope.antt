-- ===== src/Autopilot/Manager/Envelope.antt =====
-- The manager in each mode: which autopilot answers, and the limits of its answer.
use rc_plane.Base.{ℕ, ◌<◌, ◌≤◌, ◌≡◌, refl, true, false, some, bit_and, arith, ◌∙◌}
use rc_plane.Base.Int.{ℤ, clamp, IsLimit}
use rc_plane.Double.{Double, IsIeee, IsNumber, cast_int8}
use rc_plane.Common.State.{autopilot_mask}
use rc_plane.Common.Packet.{RcRxPacket, ControlSurfacePacket, ImuPacket, control_surface_packet}
use rc_plane.Autopilot.Utility.Sticks.{IsConfigured}
use rc_plane.Autopilot.Utility.Limits.{IsInEnvelope, IsNominal, manual-IsInEnvelope}
use rc_plane.Autopilot.Manual
use rc_plane.Autopilot.Stabilize
use rc_plane.Autopilot.Stabilize.{StabilizeAutopilot, roll_output, pitch_output}
use rc_plane.Autopilot.Stabilize.Envelope.{stabilize-IsInEnvelope}
use rc_plane.Autopilot.Manager.{
  Active, manual, stabilize, AutopilotManager, is_manual, handle_state, dispatch, trigger,
}
use rc_plane.Autopilot.Manager.Modes.{IsSynced, handle_state_lem, masked_flag}

module _ {F : Type 0} where
  pub handle_state_keeps :
      (m : AutopilotManager F) (state : ℕ)
      → ((handle_state m state).manual_autopilot ≡ m.manual_autopilot)
        × ((handle_state m state).stabilize_autopilot ≡ m.stabilize_autopilot)
  unfolding handle_state
  handle_state_keeps m state = ground arith

pub is_manual_iff : (a : Active) → is_manual a ≡ true → a ≡ manual
unfolding is_manual
is_manual_iff manual h = refl
is_manual_iff stabilize h = cc

is_stabilize_iff : (a : Active) → is_manual a ≡ false → a ≡ stabilize
unfolding is_manual
is_stabilize_iff manual h = cc
is_stabilize_iff stabilize h = refl

module _ {F : Type 0} ⦃d : Double F⦄ where
  pub dispatch_manual :
      (a : Active) (m : AutopilotManager F) (r : RcRxPacket) (i : ImuPacket)
      → a ≡ manual
      → dispatch a m control_surface_packet r i
        ≡ some (Manual.trigger m.manual_autopilot control_surface_packet r i, m)
  unfolding dispatch
  dispatch_manual manual m r i e = refl
  dispatch_manual stabilize m r i e = cc

  dispatch_stabilize :
      (a : Active) (m : AutopilotManager F) (r : RcRxPacket) (i : ImuPacket)
      (out : ControlSurfacePacket) (s : StabilizeAutopilot F)
      → a ≡ stabilize
      → Stabilize.trigger m.stabilize_autopilot control_surface_packet r i ≡ some (out, s)
      → dispatch a m control_surface_packet r i ≡ some (out, record m { stabilize_autopilot = s })
  unfolding dispatch
  dispatch_stabilize manual m r i out s e t = cc
  dispatch_stabilize stabilize m r i out s e t = rw t

  -- With the assistance flag clear, the manager in step with its last state, configured limits and
  -- nominal sticks, the manager always returns a packet, and it is within the limits. The
  -- stabilizing autopilot keeps its state.
  pub manual_mode :
      (m : AutopilotManager F) (r : RcRxPacket) (i : ImuPacket)
      → IsSynced m
      → r.state < 128
      → IsConfigured m.manual_autopilot.utility
      → IsNominal r
      → (out : ControlSurfacePacket) × (m' : AutopilotManager F) × (trigger m r i ≡ some (out, m'))
        × (m'.stabilize_autopilot ≡ m.stabilize_autopilot)
        × IsInEnvelope m.manual_autopilot.utility out
  unfolding trigger
  manual_mode m r i h low c n =
      let m₁ = handle_state m (bit_and r.state autopilot_mask) in
      let (keep_manual, keep) = handle_state_keeps m (bit_and r.state autopilot_mask) in
      let (mode, _) = handle_state_lem m (bit_and r.state autopilot_mask) h in
      let clear : is_manual m₁.autopilot ≡ true =
        mode ∙ (masked_flag r.state (omega arith) ∙ ground arith) in
      (
        Manual.trigger m.manual_autopilot control_surface_packet r i,
        m₁,
        rw (dispatch_manual m₁.autopilot m₁ r i (is_manual_iff m₁.autopilot clear), keep_manual)
            refl,
        keep,
        manual-IsInEnvelope m.manual_autopilot control_surface_packet r i c n,
      )

  module _ (laws : IsIeee F) where
    -- With the assistance flag set in a byte-wide state, the manager in step with its last state,
    -- configured limits, an integral maximum that is an integer from 0 to 127 and nominal sticks: if
    -- the roll output is a number and the two conversions of the pitch controller are defined,
    -- the manager returns a packet within the limits, and the manual autopilot is as before.
    pub stabilize_mode :
        (m : AutopilotManager F) (r : RcRxPacket) (i : ImuPacket) (max sum deflection : ℤ)
        → IsSynced m
        → 128 ≤ r.state
        → r.state < 256
        → IsConfigured m.stabilize_autopilot.utility
        → IsNominal r
        → m.stabilize_autopilot.max_integral_error ≡ d.of_int max
        → IsLimit max
        → IsNumber (
            roll_output m.stabilize_autopilot
              (d.sub m.stabilize_autopilot.desired_roll_angle (d.of_float32 i.gyro_x)))
        → cast_int8 (
            d.add m.stabilize_autopilot.pitch_integral_error
              (d.sub m.stabilize_autopilot.desired_pitch_angle (d.of_float32 i.gyro_y)))
          ≡ some sum
        → cast_int8 (
            pitch_output m.stabilize_autopilot
              (d.sub m.stabilize_autopilot.desired_pitch_angle (d.of_float32 i.gyro_y))
              (d.of_int (clamp max sum)))
          ≡ some deflection
        → (out : ControlSurfacePacket) × (m' : AutopilotManager F) × (trigger m r i
            ≡ some (out, m'))
          × (m'.manual_autopilot ≡ m.manual_autopilot)
          × IsInEnvelope m.stabilize_autopilot.utility out
    unfolding trigger
    stabilize_mode m r i max sum deflection h high byte c n e limit num ps po =
        let m₁ = handle_state m (bit_and r.state autopilot_mask) in
        let (keep_manual, keep) = handle_state_keeps m (bit_and r.state autopilot_mask) in
        let (mode, _) = handle_state_lem m (bit_and r.state autopilot_mask) h in
        let set : is_manual m₁.autopilot ≡ false =
          mode ∙ (masked_flag r.state byte ∙ ground arith) in
        let (out, s', ran, within) =
          stabilize-IsInEnvelope laws m.stabilize_autopilot control_surface_packet r i max sum
            deflection c n e limit num ps po in
        (
          out,
          record m₁ { stabilize_autopilot = s' },
          dispatch_stabilize m₁.autopilot m₁ r i out s' (is_stabilize_iff m₁.autopilot set)
              (rw keep ran),
          keep_manual,
          within,
        )
