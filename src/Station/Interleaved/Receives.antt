-- ===== src/Station/Interleaved/Receives.antt =====
-- Each call of the thread keeps the order of the messages.
use rc_plane.Base.{◌≡◌, ◌≢◌, refl, sym, ◌∙◌, ap, some, true, [], ◌∷◌, ◌++◌, String}
use rc_plane.Double.{Double}
use rc_plane.Io.Telemetry.Message.{
  DebugMessage, AttitudeMessage, OnboardStateMessage, debug_message, attitude_message,
  onboard_message,
}
use rc_plane.Io.Telemetry.Print.{print_debug, print_attitude, print_onboard}
use rc_plane.Io.Telemetry.Queue.{MessageQueue, IsQueue}
use rc_plane.Io.Telemetry.Receiver.{
  TelemetryReceiverMq, receive_debug_message, receive_attitude_message, receive_onboard_message,
}
use rc_plane.Io.Telemetry.Backlog.{Messages, apart_queues, IsReceiving}
use rc_plane.Station.Interleaved.{fresh, has_debug, has_attitude, Pipeline}
use rc_plane.Station.Interleaved.Rows.{row_received, row_changed, row_emitted}
use rc_plane.Station.Interleaved.Calls.{received_in_part}
use rc_plane.Station.Interleaved.Ordered.{
  debugs_of, attitudes_of, onboards_of, got_debugs, got_attitudes, begun_debugs, begun_attitudes,
  IsOrdered,
}

module _ {D A O Q F : Type 0} ⦃d : Double F⦄ (debug : MessageQueue D Q DebugMessage)
    (attitude : MessageQueue A Q (AttitudeMessage F))
    (onboard : MessageQueue O Q OnboardStateMessage) (laws₁ : IsQueue debug)
    (laws₂ : IsQueue attitude) (laws₃ : IsQueue onboard) (remove : String → D × A × O → D × A × O)
    (q₁ q₂ q₃ : Q) (r : TelemetryReceiverMq Q) (receiving : IsReceiving r q₁ q₂ q₃) where
  abbrev Ordered : Pipeline (D × A × O) F → Type 0
  Ordered s = IsOrdered debug attitude onboard laws₁ laws₂ laws₃ q₁ q₂ q₃ s

  pub receive_debug_kept :
      (s : Pipeline (D × A × O) F) (m : DebugMessage) (w : D × A × O)
      → s.collector ≡ fresh
      → laws₁.contents q₁ s.world.0 ≢ []
      → receive_debug_message (apart_queues debug attitude onboard remove) r debug_message s.world
        ≡ some (true, m, w)
      → Ordered s
      → Ordered (record s { world = w; collector = has_debug m })
  unfolding receive_debug_message
  receive_debug_kept s m w e n h i =
      let (v, f, c) =
        received_in_part (λ (w : D × A × O). w.0) (λ v w. (v, w.1, w.2)) debug laws₁ q₁ m
          (λ x. some (print_debug {F = F} x)) debug_message r.debug_message_queue s.world w
          receiving.debug_receives n h in
      let first : laws₁.contents q₁ s.world.0 ≡ m ∷ laws₁.contents q₁ w.0 = rw f c in
      let attitudes : attitudes_of s.emitted ++ (got_attitudes s.collector ++ laws₂.contents q₂ w.1)
          ≡ attitudes_of s.published ++ begun_attitudes s.publisher =
        rw f i.attitudes_kept in
      record {
        debugs_kept =
            row_received (debugs_of s.emitted) (got_debugs s.collector)
              (laws₁.contents q₁ s.world.0) (laws₁.contents q₁ w.0)
              (debugs_of s.published ++ begun_debugs s.publisher) m (ap got_debugs e) first
              i.debugs_kept;
        attitudes_kept =
            row_changed (attitudes_of s.emitted) (got_attitudes s.collector) []
              (laws₂.contents q₂ w.1) (attitudes_of s.published ++ begun_attitudes s.publisher)
              (ap got_attitudes e) attitudes;
        onboards_kept = rw f i.onboards_kept;
      }

  pub receive_attitude_kept :
      (s : Pipeline (D × A × O) F) (m : DebugMessage) (a : AttitudeMessage F) (w : D × A × O)
      → s.collector ≡ has_debug m
      → laws₂.contents q₂ s.world.1 ≢ []
      → receive_attitude_message
          (apart_queues debug attitude onboard remove)
          r
          attitude_message
          s.world
        ≡ some (true, a, w)
      → Ordered s
      → Ordered (record s { world = w; collector = has_attitude m a })
  unfolding receive_attitude_message
  receive_attitude_kept s m a w e n h i =
      let (v, f, c) =
        received_in_part (λ (w : D × A × O). w.1) (λ v w. (w.0, v, w.2)) attitude laws₂ q₂ a
          (λ x. some (print_attitude x)) attitude_message r.attitude_message_queue s.world w
          receiving.attitude_receives n h in
      let first : laws₂.contents q₂ s.world.1 ≡ a ∷ laws₂.contents q₂ w.1 = rw f c in
      let debugs : debugs_of s.emitted ++ (got_debugs s.collector ++ laws₁.contents q₁ w.0)
          ≡ debugs_of s.published ++ begun_debugs s.publisher =
        rw f i.debugs_kept in
      record {
        debugs_kept =
            row_changed (debugs_of s.emitted) (got_debugs s.collector) (m ∷ [])
              (laws₁.contents q₁ w.0) (debugs_of s.published ++ begun_debugs s.publisher)
              (ap got_debugs e) debugs;
        attitudes_kept =
            row_received (attitudes_of s.emitted) (got_attitudes s.collector)
              (laws₂.contents q₂ s.world.1) (laws₂.contents q₂ w.1)
              (attitudes_of s.published ++ begun_attitudes s.publisher) a (ap got_attitudes e) first
              i.attitudes_kept;
        onboards_kept = rw f i.onboards_kept;
      }

  pub receive_onboard_kept :
      (s : Pipeline (D × A × O) F) (m : DebugMessage) (a : AttitudeMessage F)
      (o : OnboardStateMessage) (w : D × A × O)
      → s.collector ≡ has_attitude m a
      → laws₃.contents q₃ s.world.2 ≢ []
      → receive_onboard_message
          (apart_queues debug attitude onboard remove)
          r
          onboard_message
          s.world
        ≡ some (true, o, w)
      → Ordered s
      → Ordered (record s { world = w; collector = fresh; emitted = s.emitted ++ (m, a, o) ∷ [] })
  unfolding receive_onboard_message
  receive_onboard_kept s m a o w e n h i =
      let (v, f, c) =
        received_in_part (λ (w : D × A × O). w.2) (λ v w. (w.0, w.1, v)) onboard laws₃ q₃ o
          (print_onboard {F = F}) onboard_message r.onboard_message_queue s.world w
          receiving.onboard_receives n h in
      let first : laws₃.contents q₃ s.world.2 ≡ o ∷ laws₃.contents q₃ w.2 = rw f c in
      let debugs : debugs_of s.emitted ++ (got_debugs s.collector ++ laws₁.contents q₁ w.0)
          ≡ debugs_of s.published ++ begun_debugs s.publisher =
        rw f i.debugs_kept in
      let attitudes : attitudes_of s.emitted ++ (got_attitudes s.collector ++ laws₂.contents q₂ w.1)
          ≡ attitudes_of s.published ++ begun_attitudes s.publisher =
        rw f i.attitudes_kept in
      record {
        debugs_kept =
            row_emitted (λ (m : Messages F). m.0) s.emitted (m, a, o) (got_debugs s.collector)
              (laws₁.contents q₁ w.0) (debugs_of s.published ++ begun_debugs s.publisher)
              (ap got_debugs e) debugs;
        attitudes_kept =
            row_emitted (λ (m : Messages F). m.1) s.emitted (m, a, o) (got_attitudes s.collector)
              (laws₂.contents q₂ w.1) (attitudes_of s.published ++ begun_attitudes s.publisher)
              (ap got_attitudes e) attitudes;
        onboards_kept =
            row_emitted (λ (m : Messages F). m.2) s.emitted (m, a, o) (o ∷ [])
              (laws₃.contents q₃ w.2) (onboards_of s.published) refl
              (ap (◌++◌ (onboards_of s.emitted)) (sym first) ∙ i.onboards_kept);
      }
