-- ===== src/Station/Interleaved/Order.antt =====
-- What the window is given is what was published, whatever the order of the calls.
use rc_plane.Base.{◌≡◌, refl, List, [], ◌∷◌, ◌++◌, String}
use rc_plane.Double.{Double}
use rc_plane.Io.Telemetry.Message.{DebugMessage, AttitudeMessage, OnboardStateMessage}
use rc_plane.Io.Telemetry.Queue.{MessageQueue, IsQueue}
use rc_plane.Io.Telemetry.Transmitter.{TelemetryTransmitterMq}
use rc_plane.Io.Telemetry.Receiver.{TelemetryReceiverMq}
use rc_plane.Io.Telemetry.Backlog.{Messages, apart_queues, IsSending, IsReceiving}
use rc_plane.Station.Interleaved.{
  Pipeline, Step, send_debug, send_attitude, send_onboard, receive_debug, receive_attitude,
  receive_onboard, Reach, start, later, controller_step, thread_step,
}
use rc_plane.Station.Interleaved.Ordered.{
  waiting_in, debugs_of, attitudes_of, onboards_of, IsOrdered,
}
use rc_plane.Station.Interleaved.Sends.{send_debug_kept, send_attitude_kept, send_onboard_kept}
use rc_plane.Station.Interleaved.Receives.{
  receive_debug_kept, receive_attitude_kept, receive_onboard_kept,
}

module _ {F : Type 0} where
  same_head :
      (m n : Messages F) (ms ns : List (Messages F))
      → m.0 ≡ n.0
      → m.1 ≡ n.1
      → m.2 ≡ n.2
      → ms ≡ ns
      → m ∷ ms ≡ n ∷ ns
  same_head m n ms ns e₁ e₂ e₃ e = cc

  -- Whole messages whose parts come in the same order are in that order.
  first_of_parts :
      (emitted published : List (Messages F)) (debugs debugs' : List DebugMessage)
      (attitudes attitudes' : List (AttitudeMessage F)) (onboards : List OnboardStateMessage)
      → debugs_of emitted ++ debugs ≡ debugs_of published ++ debugs'
      → attitudes_of emitted ++ attitudes ≡ attitudes_of published ++ attitudes'
      → onboards_of emitted ++ onboards ≡ onboards_of published
      → (rest : List (Messages F)) × (emitted ++ rest ≡ published) × (onboards ≡ onboards_of rest)
  first_of_parts [] published debugs debugs' attitudes attitudes' onboards e₁ e₂ e₃ =
      (published, refl, e₃)
  first_of_parts (m ∷ ms) [] debugs debugs' attitudes attitudes' onboards e₁ e₂ e₃ = cc
  first_of_parts (m ∷ ms) (n ∷ ns) debugs debugs' attitudes attitudes' onboards e₁ e₂ e₃ =
      let (rest, e, f) =
        first_of_parts ms ns debugs debugs' attitudes attitudes' onboards (cc) (cc) (cc) in
      (rest, same_head m n (ms ++ rest) ns (cc) (cc) (cc) e, f)

module _ {D A O Q F : Type 0} ⦃d : Double F⦄ (debug : MessageQueue D Q DebugMessage)
    (attitude : MessageQueue A Q (AttitudeMessage F))
    (onboard : MessageQueue O Q OnboardStateMessage) (laws₁ : IsQueue debug)
    (laws₂ : IsQueue attitude) (laws₃ : IsQueue onboard) (remove : String → D × A × O → D × A × O)
    (q₁ q₂ q₃ : Q) (t : TelemetryTransmitterMq Q) (r : TelemetryReceiverMq Q)
    (sending : IsSending t q₁ q₂ q₃) (receiving : IsReceiving r q₁ q₂ q₃) where
  -- The processes over the three queues.
  abbrev CanStep : Pipeline (D × A × O) F → Pipeline (D × A × O) F → Type 0
  CanStep s s' =
      Step (apart_queues debug attitude onboard remove)
        (waiting_in debug attitude onboard laws₁ laws₂ laws₃ q₁ q₂ q₃) t r s s'

  abbrev Ordered : Pipeline (D × A × O) F → Type 0
  Ordered s = IsOrdered debug attitude onboard laws₁ laws₂ laws₃ q₁ q₂ q₃ s

  abbrev Reached : D × A × O → Pipeline (D × A × O) F → Type 0
  Reached w s =
      Reach (apart_queues debug attitude onboard remove)
        (waiting_in debug attitude onboard laws₁ laws₂ laws₃ q₁ q₂ q₃) t r w s

  Step-IsOrdered : {s s' : Pipeline (D × A × O) F} → CanStep s s' → Ordered s → Ordered s'
  Step-IsOrdered {s = s} (controller_step (send_debug m w e h)) i =
      send_debug_kept debug attitude onboard laws₁ laws₂ laws₃ remove q₁ q₂ q₃ t sending s m w e h i
  Step-IsOrdered {s = s} (controller_step (send_attitude m w e h)) i =
      send_attitude_kept debug attitude onboard laws₁ laws₂ laws₃ remove q₁ q₂ q₃ t sending s m w e
        h i
  Step-IsOrdered {s = s} (controller_step (send_onboard m w e h)) i =
      send_onboard_kept debug attitude onboard laws₁ laws₂ laws₃ remove q₁ q₂ q₃ t sending s m w e h
        i
  Step-IsOrdered {s = s} (thread_step (receive_debug m w e n h)) i =
      receive_debug_kept debug attitude onboard laws₁ laws₂ laws₃ remove q₁ q₂ q₃ r receiving s m w
        e n h i
  Step-IsOrdered {s = s} (thread_step (receive_attitude m a w e n h)) i =
      receive_attitude_kept debug attitude onboard laws₁ laws₂ laws₃ remove q₁ q₂ q₃ r receiving s m
        a w e n h i
  Step-IsOrdered {s = s} (thread_step (receive_onboard m a o w e n h)) i =
      receive_onboard_kept debug attitude onboard laws₁ laws₂ laws₃ remove q₁ q₂ q₃ r receiving s m
        a o w e n h i

  pub Reach-IsOrdered :
      (w : D × A × O) (s : Pipeline (D × A × O) F)
      → laws₁.contents q₁ w.0 ≡ []
      → laws₂.contents q₂ w.1 ≡ []
      → laws₃.contents q₃ w.2 ≡ []
      → Reached w s
      → Ordered s
  Reach-IsOrdered w s e₁ e₂ e₃ start = record {
    debugs_kept = e₁;
    attitudes_kept = e₂;
    onboards_kept = e₃;
  }
  Reach-IsOrdered w s e₁ e₂ e₃ (later {s = before} reach step) =
      Step-IsOrdered step (Reach-IsOrdered w before e₁ e₂ e₃ reach)

  -- Over three queues that meet their laws and that both have opened: from a world in which they
  -- are empty, and for any order of the calls of the two processes that all return true, what the
  -- thread has emitted is the first part of what the controller has published, each time the three
  -- messages that were published together, and the onboard messages of the rest wait.
  pub emitted_first :
      (w : D × A × O) (s : Pipeline (D × A × O) F)
      → laws₁.contents q₁ w.0 ≡ []
      → laws₂.contents q₂ w.1 ≡ []
      → laws₃.contents q₃ w.2 ≡ []
      → Reached w s
      → (rest : List (Messages F)) × (s.emitted ++ rest ≡ s.published)
        × (laws₃.contents q₃ s.world.2 ≡ onboards_of rest)
  emitted_first w s e₁ e₂ e₃ reach =
      let i = Reach-IsOrdered w s e₁ e₂ e₃ reach in
      first_of_parts s.emitted s.published _ _ _ _ _ i.debugs_kept i.attitudes_kept i.onboards_kept
