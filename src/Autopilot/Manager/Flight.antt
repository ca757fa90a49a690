-- ===== src/Autopilot/Manager/Flight.antt =====
-- Sequences of packets: what the manager never changes, and the packets it returns on the way.
use rc_plane.Base.{
  ◌<◌, ◌≡◌, refl, ◌∙◌, Option, some, List, [], ◌∷◌, All, bit_and, ◌>>=◌, >>=-eq-some, some_pair,
}
use rc_plane.Base.Int.{ℤ}
use rc_plane.Double.{Double, cast_int8}
use rc_plane.Common.State.{autopilot_mask}
use rc_plane.Common.Packet.{RcRxPacket, ControlSurfacePacket, ImuPacket, control_surface_packet}
use rc_plane.Autopilot.Utility.{AutopilotUtility}
use rc_plane.Autopilot.Utility.Sticks.{IsConfigured}
use rc_plane.Autopilot.Utility.Limits.{IsInEnvelope, IsNominal}
use rc_plane.Autopilot.Stabilize
use rc_plane.Autopilot.Stabilize.{
  Gains, StabilizeAutopilot, compute_roll_to_aileron_deflection,
  compute_pitch_to_elevator_deflection, bind_integral_error, pitch_output, after_roll, after_pitch,
}
use rc_plane.Autopilot.Manager.{
  Active, manual, stabilize, AutopilotManager, is_manual, handle_state, autopilot_manager, dispatch,
  trigger,
}
use rc_plane.Autopilot.Manager.Modes.{IsSynced, trigger-IsSynced}
use rc_plane.Autopilot.Manager.Envelope.{handle_state_keeps, manual_mode}

-- What the configuration and the desired angles are made of.
pub record IsSetLike {F : Type 0} (s s' : StabilizeAutopilot F) : Type 0 where
  pub same_utility : s'.utility ≡ s.utility
  pub same_gains : s'.gains ≡ s.gains
  pub same_roll : s'.desired_roll_angle ≡ s.desired_roll_angle
  pub same_pitch : s'.desired_pitch_angle ≡ s.desired_pitch_angle

pub record IsConfiguredLike {F : Type 0} (m m' : AutopilotManager F) : Type 0 where
  pub same_manual : m'.manual_autopilot ≡ m.manual_autopilot
  pub set_like : IsSetLike m.stabilize_autopilot m'.stabilize_autopilot

-- The user flies: the assistance flag is clear and the sticks are in their nominal range.
abbrev pub IsManual : RcRxPacket × ImuPacket → Type 0
IsManual (r, _) = (r.state < 128) × IsNominal r

module _ {F : Type 0} where
  IsSetLike-refl : (s : StabilizeAutopilot F) → IsSetLike s s
  IsSetLike-refl s = record {
    same_utility = refl;
    same_gains = refl;
    same_roll = refl;
    same_pitch = refl;
  }

  IsConfiguredLike-refl : (m : AutopilotManager F) → IsConfiguredLike m m
  IsConfiguredLike-refl m = record {
    same_manual = refl;
    set_like = IsSetLike-refl m.stabilize_autopilot;
  }

  IsSetLike-trans :
      (s s₁ s₂ : StabilizeAutopilot F) → IsSetLike s s₁ → IsSetLike s₁ s₂ → IsSetLike s s₂
  IsSetLike-trans s s₁ s₂ h k = record {
    same_utility = k.same_utility ∙ h.same_utility;
    same_gains = k.same_gains ∙ h.same_gains;
    same_roll = k.same_roll ∙ h.same_roll;
    same_pitch = k.same_pitch ∙ h.same_pitch;
  }

  IsConfiguredLike-trans :
      (m m₁ m₂ : AutopilotManager F)
      → IsConfiguredLike m m₁
      → IsConfiguredLike m₁ m₂
      → IsConfiguredLike m m₂
  IsConfiguredLike-trans m m₁ m₂ h k = record {
    same_manual = k.same_manual ∙ h.same_manual;
    set_like =
        IsSetLike-trans m.stabilize_autopilot m₁.stabilize_autopilot m₂.stabilize_autopilot
          h.set_like k.set_like;
  }

module _ {F : Type 0} ⦃d : Double F⦄ where
  roll-IsSetLike :
      (s s' : StabilizeAutopilot F) (angle : F) (n : ℤ)
      → compute_roll_to_aileron_deflection s angle ≡ some (n, s')
      → IsSetLike s s'
  unfolding compute_roll_to_aileron_deflection after_roll
  roll-IsSetLike s s' angle n h =
      let (z, _, done) = >>=-eq-some (cast_int8 _) _ h in
      rw (← (some_pair z n _ s' done).1)
        (record { same_utility = refl; same_gains = refl; same_roll = refl; same_pitch = refl })

  pitch-IsSetLike :
      (s s' : StabilizeAutopilot F) (angle : F) (n : ℤ)
      → compute_pitch_to_elevator_deflection s angle ≡ some (n, s')
      → IsSetLike s s'
  unfolding compute_pitch_to_elevator_deflection after_pitch
  pitch-IsSetLike s s' angle n h =
      let error = d.sub s.desired_pitch_angle angle in
      let (sum, _, h₁) = >>=-eq-some (cast_int8 (d.add s.pitch_integral_error error)) _ h in
      let (bounded, _, h₂) = >>=-eq-some (bind_integral_error s sum) _ h₁ in
      let (z, _, done) = >>=-eq-some (cast_int8 (pitch_output s error (d.of_int bounded))) _ h₂ in
      rw (← (some_pair z n (after_pitch s error bounded) s' done).1)
        (record { same_utility = refl; same_gains = refl; same_roll = refl; same_pitch = refl })

  stabilize-IsSetLike :
      (s s' : StabilizeAutopilot F) (packet out : ControlSurfacePacket) (r : RcRxPacket)
      (i : ImuPacket)
      → Stabilize.trigger s packet r i ≡ some (out, s')
      → IsSetLike s s'
  unfolding Stabilize.trigger
  stabilize-IsSetLike s s' packet out r i h =
      let ((aileron, s₁), e₁, h₁) =
        >>=-eq-some (compute_roll_to_aileron_deflection s (d.of_float32 i.gyro_x)) _ h in
      let ((elevator, s₂), e₂, done) =
        >>=-eq-some (compute_pitch_to_elevator_deflection s₁ (d.of_float32 i.gyro_y)) _ h₁ in
      rw (← (some_pair _ out s₂ s' done).1) (
        IsSetLike-trans s s₁ s₂ (roll-IsSetLike s s₁ (d.of_float32 i.gyro_x) aileron e₁)
          (pitch-IsSetLike s₁ s₂ (d.of_float32 i.gyro_y) elevator e₂))

  dispatch-IsConfiguredLike :
      (a : Active) (m m' : AutopilotManager F) (packet out : ControlSurfacePacket) (r : RcRxPacket)
      (i : ImuPacket)
      → dispatch a m packet r i ≡ some (out, m')
      → IsConfiguredLike m m'
  unfolding dispatch
  dispatch-IsConfiguredLike manual m m' packet out r i h =
      rw (← (some_pair _ out m m' h).1) (IsConfiguredLike-refl m)
  dispatch-IsConfiguredLike stabilize m m' packet out r i h =
      let ((packet', s), e, done) =
        >>=-eq-some (Stabilize.trigger m.stabilize_autopilot packet r i) _ h in
      rw (← (some_pair packet' out (record m { stabilize_autopilot = s }) m' done).1) (record {
        same_manual = refl;
        set_like = stabilize-IsSetLike m.stabilize_autopilot s packet packet' r i e;
      })

  -- A packet changes neither the limits of the two autopilots, nor the gains, nor the desired angles.
  pub trigger-IsConfiguredLike :
      (m m' : AutopilotManager F) (r : RcRxPacket) (i : ImuPacket) (out : ControlSurfacePacket)
      → trigger m r i ≡ some (out, m')
      → IsConfiguredLike m m'
  unfolding trigger
  trigger-IsConfiguredLike m m' r i out h =
      let m₁ = handle_state m (bit_and r.state autopilot_mask) in
      let (keep_manual, keep) = handle_state_keeps m (bit_and r.state autopilot_mask) in
      IsConfiguredLike-trans m m₁ m'
        (record {
          same_manual = keep_manual;
          set_like = rw keep (IsSetLike-refl m.stabilize_autopilot);
        })
        (dispatch-IsConfiguredLike m₁.autopilot m₁ m' control_surface_packet out r i h)

  -- The packets that the manager returns for those of a flight.
  unfoldable pub fly :
      AutopilotManager F
      → List (RcRxPacket × ImuPacket)
      → Option (List ControlSurfacePacket × AutopilotManager F)
  fly m [] = some ([], m)
  fly m ((r, i) ∷ packets) = do
    (out, m₁) ← trigger m r i
    (outs, m₂) ← fly m₁ packets
    some (out ∷ outs, m₂)

  fly_manual :
      (m : AutopilotManager F) (u : AutopilotUtility) (packets : List (RcRxPacket × ImuPacket))
      → IsSynced m
      → m.manual_autopilot.utility ≡ u
      → IsConfigured u
      → All IsManual packets
      → (outs : List ControlSurfacePacket) × (m' : AutopilotManager F) × (fly m packets
          ≡ some (outs, m'))
        × All (IsInEnvelope u) outs
  unfolding fly
  fly_manual m u [] h e c a = ([], m, refl, tt)
  fly_manual m u ((r, i) ∷ packets) h e c ((low, nominal), rest) =
      let (out, m₁, step, _, within) = manual_mode m r i h low (rw e c) nominal in
      let like = trigger-IsConfiguredLike m m₁ r i out step in
      let same : m₁.manual_autopilot.utility ≡ u = rw like.same_manual e in
      let (outs, m', run, all) =
        fly_manual m₁ u packets (trigger-IsSynced m m₁ r i out h step).0 same c rest in
      (out ∷ outs, m', rw (step, run) refl, (rw (← e) within, all))

  fly-IsConfiguredLike :
      (m m' : AutopilotManager F) (packets : List (RcRxPacket × ImuPacket))
      (outs : List ControlSurfacePacket)
      → IsSynced m
      → fly m packets ≡ some (outs, m')
      → IsConfiguredLike m m' × IsSynced m'
  unfolding fly
  fly-IsConfiguredLike m m' [] outs h run =
      rw (← (some_pair [] outs m m' run).1) (IsConfiguredLike-refl m, h)
  fly-IsConfiguredLike m m' ((r, i) ∷ packets) outs h run =
      let ((out, m₁), step, run₁) = >>=-eq-some (trigger m r i) _ run in
      let ((outs₁, m₂), rest, done) = >>=-eq-some (fly m₁ packets) _ run₁ in
      let (like, synced) =
        fly-IsConfiguredLike m₁ m₂ packets outs₁ (trigger-IsSynced m m₁ r i out h step).0 rest in
      rw (← (some_pair (out ∷ outs₁) outs m₂ m' done).1)
        (IsConfiguredLike-trans m m₁ m₂ (trigger-IsConfiguredLike m m₁ r i out step) like, synced)

  -- From the constructor on, with configured limits, and after any packets that were handled, whatever they
  -- asked for: if then the user flies, each packet is answered, and each answer is within the
  -- configured limits.
  pub user_regains_control :
      (u : AutopilotUtility) (g : Gains F) (before packets : List (RcRxPacket × ImuPacket))
      (outs : List ControlSurfacePacket) (m : AutopilotManager F)
      → IsConfigured u
      → fly (autopilot_manager u g) before ≡ some (outs, m)
      → All IsManual packets
      → (answers : List ControlSurfacePacket) × (m' : AutopilotManager F) × (fly m packets
          ≡ some (answers, m'))
        × All (IsInEnvelope u) answers
  unfolding autopilot_manager is_manual
  user_regains_control u g before packets outs m c run a =
      let (like, synced) = fly-IsConfiguredLike (autopilot_manager u g) m before outs refl run in
      fly_manual m u packets synced (rw like.same_manual refl) c a
