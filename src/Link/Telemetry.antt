-- ===== src/Link/Telemetry.antt =====
-- The telemetry leaves the serial line alone.
use rc_plane.Base.{
  ℕ, List, String, ◌≡◌, refl, ◌∙◌, Bool, none, some, Option, >>=-eq-some, some_pair,
}
use mathlib.Core.Option.{some-injective}
use rc_plane.Io.Telemetry.Queue.{MessageQueue, Queues}
use rc_plane.Io.Telemetry.Transmitter.{
  send, send_debug_message, send_attitude_message, send_onboard_message,
}
use rc_plane.Som.Controller.{SomController, send_telemetry}
use rc_plane.Link.{Link, link_queue, link_queues}

-- The bytes under way are the same.
pub record IsSameLine {E : Type 0} {text : String → List ℕ} (w w' : Link E text) : Type 0 where
  pub same_up : w'.up ≡ w.up
  pub same_down : w'.down ≡ w.down

module _ {E : Type 0} {text : String → List ℕ} where
  IsSameLine-trans : (w w₁ w₂ : Link E text) → IsSameLine w w₁ → IsSameLine w₁ w₂ → IsSameLine w w₂
  IsSameLine-trans w w₁ w₂ h k = record {
    same_up = k.same_up ∙ h.same_up;
    same_down = k.same_down ∙ h.same_down;
  }

  send-IsSameLine :
      {Q M : Type 0} (queue : MessageQueue E Q M) (q : Option Q) (m : M) (w w' : Link E text)
      (ok : Bool)
      → send (link_queue queue) q m w ≡ some (ok, w')
      → IsSameLine w w'
  unfolding send
  send-IsSameLine queue none m w w' ok h = cc
  send-IsSameLine queue (some q) m w w' ok h =
      rw (← (some_pair _ ok _ w' h).1) (record { same_up = refl; same_down = refl })

  pub send_telemetry-IsSameLine :
      {Q F : Type 0} (qs : Queues E Q F) (c : SomController Q F) (w w' : Link E text)
      → send_telemetry (link_queues qs) c w ≡ some w'
      → IsSameLine w w'
  unfolding send_telemetry send_debug_message send_attitude_message send_onboard_message
  send_telemetry-IsSameLine qs c w w' h =
      let t = c.telemetry_transmitter in
      let ((ok₁, w₁), e₁, h₁) =
        >>=-eq-some (send (link_queue qs.debug) t.debug_message_queue c.debug_message w) _ h in
      let ((ok₂, w₂), e₂, h₂) =
        >>=-eq-some (send (link_queue qs.attitude) t.attitude_message_queue c.attitude_message w₁) _
          h₁ in
      let ((ok₃, w₃), e₃, done) =
        >>=-eq-some (send (link_queue qs.onboard) t.onboard_message_queue c.onboard_message w₂) _
          h₂ in
      rw (← some-injective _ _ done) (
        IsSameLine-trans w w₁ w₃ (send-IsSameLine qs.debug _ c.debug_message w w₁ ok₁ e₁) (
          IsSameLine-trans w₁ w₂ w₃ (send-IsSameLine qs.attitude _ c.attitude_message w₁ w₂ ok₂ e₂)
            (send-IsSameLine qs.onboard _ c.onboard_message w₂ w₃ ok₃ e₃)))
