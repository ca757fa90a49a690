-- ===== src/Common/State.antt =====
-- impl/include/rcplane/common/State.hpp: the flags of `RcRxPacket::state`.
use rc_plane.Base.{ℕ}

abbrev pub user_roll : ℕ
user_roll = 0x01

abbrev pub user_pitch : ℕ
user_pitch = 0x02

abbrev pub assistance_flag : ℕ
assistance_flag = 0x80

abbrev pub autopilot_mask : ℕ
autopilot_mask = assistance_flag
