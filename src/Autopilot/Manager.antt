-- ===== src/Autopilot/Manager.antt =====
-- impl/src/autopilot/AutopilotManager.cpp and impl/include/rcplane/autopilot/AutopilotManager.hpp:
-- the choice of the autopilot by the flags of the received packet.
pub mod Modes
pub mod Envelope
pub mod Output
pub mod Flight
use rc_plane.Base.{ℕ, Bool, true, false, Option, some, ◌==◌, if◌then◌else◌, ◌>>=◌, bit_and}
use rc_plane.Double.{Double}
use rc_plane.Common.State.{assistance_flag, autopilot_mask}
use rc_plane.Common.Packet.{RcRxPacket, ControlSurfacePacket, ImuPacket, control_surface_packet}
use rc_plane.Autopilot.Utility.{AutopilotUtility}
use rc_plane.Autopilot.Manual
use rc_plane.Autopilot.Manual.{ManualAutopilot}
use rc_plane.Autopilot.Stabilize
use rc_plane.Autopilot.Stabilize.{StabilizeAutopilot, Gains, stabilize_autopilot}

-- What `m_autopilot` points to.
pub data Active : Type 0 where
  manual stabilize : Active

pub record AutopilotManager (F : Type 0) : Type 0 where
  pub manual_autopilot : ManualAutopilot
  pub stabilize_autopilot : StabilizeAutopilot F
  pub autopilot : Active
  pub prev_state : ℕ

unfoldable pub is_manual : Active → Bool
is_manual manual = true
is_manual stabilize = false

module _ {F : Type 0} where
  unfoldable pub is_in_manual_mode : AutopilotManager F → Bool
  unfolding is_manual
  is_in_manual_mode m = is_manual m.autopilot

  unfoldable pub is_in_stabilize_mode : AutopilotManager F → Bool
  unfolding is_manual
  is_in_stabilize_mode m = elim m.autopilot [ manual ↦ false | stabilize ↦ true ]

  unfoldable pub handle_state : AutopilotManager F → ℕ → AutopilotManager F
  handle_state m state =
      if state == m.prev_state
      then m
      else if bit_and state assistance_flag == 0
      then record m { autopilot = manual; prev_state = state }
      else record m { autopilot = stabilize; prev_state = state }

module _ {F : Type 0} ⦃d : Double F⦄ where
  -- The constructor: both autopilots share the utility, and the manual one is active.
  unfoldable pub autopilot_manager : AutopilotUtility → Gains F → AutopilotManager F
  unfolding Stabilize.stabilize_autopilot
  autopilot_manager utility gains = record {
    manual_autopilot = record { utility = utility };
    stabilize_autopilot = Stabilize.stabilize_autopilot utility gains;
    autopilot = manual;
    prev_state = 0;
  }

  -- The virtual call `m_autopilot->trigger`.
  unfoldable pub dispatch :
      Active
      → AutopilotManager F
      → ControlSurfacePacket
      → RcRxPacket
      → ImuPacket
      → Option (ControlSurfacePacket × AutopilotManager F)
  dispatch manual m packet rc_rx imu = some (Manual.trigger m.manual_autopilot packet rc_rx imu, m)
  dispatch stabilize m packet rc_rx imu = do
    (packet', s) ← Stabilize.trigger m.stabilize_autopilot packet rc_rx imu
    some (packet', record m { stabilize_autopilot = s })

  unfoldable pub trigger :
      AutopilotManager F
      → RcRxPacket
      → ImuPacket
      → Option (ControlSurfacePacket × AutopilotManager F)
  unfolding handle_state dispatch
  trigger m rc_rx imu =
      let m' = handle_state m (bit_and rc_rx.state autopilot_mask) in
      dispatch m'.autopilot m' control_surface_packet rc_rx imu
