-- ===== src/Station/Interleaved/Ordered.antt =====
-- The three kinds of messages on their way between the two processes.
use rc_plane.Base.{◌≡◌, List, [], ◌∷◌, ◌++◌}
use mathlib.Core.List.{map}
use rc_plane.Io.Telemetry.Message.{DebugMessage, AttitudeMessage, OnboardStateMessage}
use rc_plane.Io.Telemetry.Queue.{MessageQueue, IsQueue}
use rc_plane.Io.Telemetry.Backlog.{Messages}
use rc_plane.Station.Interleaved.{
  Publisher, idle, sent_debug, sent_attitude, Collector, fresh, has_debug, has_attitude, Pipeline,
  Waiting,
}

module _ {F : Type 0} where
  -- The three kinds of the messages of a list.
  abbrev pub debugs_of : List (Messages F) → List DebugMessage
  debugs_of ms = map (λ (m : Messages F). m.0) ms

  abbrev pub attitudes_of : List (Messages F) → List (AttitudeMessage F)
  attitudes_of ms = map (λ (m : Messages F). m.1) ms

  abbrev pub onboards_of : List (Messages F) → List OnboardStateMessage
  onboards_of ms = map (λ (m : Messages F). m.2) ms

  -- What was sent of the messages that are not published yet, and received of those not emitted yet.
  abbrev pub begun_debugs : Publisher F → List DebugMessage
  begun_debugs idle = []
  begun_debugs (sent_debug m) = m.0 ∷ []
  begun_debugs (sent_attitude m) = m.0 ∷ []

  abbrev pub begun_attitudes : Publisher F → List (AttitudeMessage F)
  begun_attitudes idle = []
  begun_attitudes (sent_debug m) = []
  begun_attitudes (sent_attitude m) = m.1 ∷ []

  abbrev pub got_debugs : Collector F → List DebugMessage
  got_debugs fresh = []
  got_debugs (has_debug m) = m ∷ []
  got_debugs (has_attitude m a) = m ∷ []

  abbrev pub got_attitudes : Collector F → List (AttitudeMessage F)
  got_attitudes fresh = []
  got_attitudes (has_debug m) = []
  got_attitudes (has_attitude m a) = a ∷ []

module _ {D A O Q F : Type 0} (debug : MessageQueue D Q DebugMessage)
    (attitude : MessageQueue A Q (AttitudeMessage F))
    (onboard : MessageQueue O Q OnboardStateMessage) (laws₁ : IsQueue debug)
    (laws₂ : IsQueue attitude) (laws₃ : IsQueue onboard) (q₁ q₂ q₃ : Q) where
  abbrev pub waiting_in : Waiting (D × A × O) F
  waiting_in = record {
    debugs = λ w. laws₁.contents q₁ w.0;
    attitudes = λ w. laws₂.contents q₂ w.1;
    onboards = λ w. laws₃.contents q₃ w.2;
  }

  -- For each kind, what came out of the pipeline and what is in it is what went in.
  pub record IsOrdered (s : Pipeline (D × A × O) F) : Type 0 where
    pub debugs_kept :
        debugs_of s.emitted ++ (got_debugs s.collector ++ laws₁.contents q₁ s.world.0)
        ≡ debugs_of s.published ++ begun_debugs s.publisher
    pub attitudes_kept :
        attitudes_of s.emitted ++ (got_attitudes s.collector ++ laws₂.contents q₂ s.world.1)
        ≡ attitudes_of s.published ++ begun_attitudes s.publisher
    pub onboards_kept :
        onboards_of s.emitted ++ laws₃.contents q₃ s.world.2 ≡ onboards_of s.published
