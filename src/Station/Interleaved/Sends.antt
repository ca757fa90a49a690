-- ===== src/Station/Interleaved/Sends.antt =====
-- Each call of the controller keeps the order of the messages.
use rc_plane.Base.{◌≡◌, refl, ◌∙◌, ap, some, true, [], ◌∷◌, ◌++◌, String}
use mathlib.Core.List.{map-append, append-nil}
use rc_plane.Double.{Double}
use rc_plane.Io.Telemetry.Message.{DebugMessage, AttitudeMessage, OnboardStateMessage}
use rc_plane.Io.Telemetry.Queue.{MessageQueue, IsQueue}
use rc_plane.Io.Telemetry.Transmitter.{
  TelemetryTransmitterMq, send_debug_message, send_attitude_message, send_onboard_message,
}
use rc_plane.Io.Telemetry.Backlog.{Messages, apart_queues, IsSending}
use rc_plane.Station.Interleaved.{idle, sent_debug, sent_attitude, Pipeline}
use rc_plane.Station.Interleaved.Rows.{extend, row_published}
use rc_plane.Station.Interleaved.Calls.{sent_in_part}
use rc_plane.Station.Interleaved.Ordered.{
  debugs_of, attitudes_of, onboards_of, got_debugs, got_attitudes, begun_debugs, begun_attitudes,
  IsOrdered,
}

module _ {D A O Q F : Type 0} ⦃d : Double F⦄ (debug : MessageQueue D Q DebugMessage)
    (attitude : MessageQueue A Q (AttitudeMessage F))
    (onboard : MessageQueue O Q OnboardStateMessage) (laws₁ : IsQueue debug)
    (laws₂ : IsQueue attitude) (laws₃ : IsQueue onboard) (remove : String → D × A × O → D × A × O)
    (q₁ q₂ q₃ : Q) (t : TelemetryTransmitterMq Q) (sending : IsSending t q₁ q₂ q₃) where
  abbrev Ordered : Pipeline (D × A × O) F → Type 0
  Ordered s = IsOrdered debug attitude onboard laws₁ laws₂ laws₃ q₁ q₂ q₃ s

  pub send_debug_kept :
      (s : Pipeline (D × A × O) F) (m : Messages F) (w : D × A × O)
      → s.publisher ≡ idle
      → send_debug_message (apart_queues debug attitude onboard remove) t m.0 s.world
        ≡ some (true, w)
      → Ordered s
      → Ordered (record s { world = w; publisher = sent_debug m })
  unfolding send_debug_message
  send_debug_kept s m w e h i =
      let (v, f, c) =
        sent_in_part (λ (w : D × A × O). w.0) (λ v w. (v, w.1, w.2)) debug laws₁ q₁ m.0
          t.debug_message_queue s.world w sending.debug_sends h in
      record {
        debugs_kept =
            extend (debugs_of s.emitted) (got_debugs s.collector) (laws₁.contents q₁ s.world.0)
              (laws₁.contents q₁ w.0) (debugs_of s.published ++ begun_debugs s.publisher)
              (debugs_of s.published ++ m.0 ∷ []) m.0 i.debugs_kept (rw f c)
              (rw (e, append-nil (debugs_of s.published)) refl);
        attitudes_kept =
            rw f i.attitudes_kept ∙ ap (λ p. attitudes_of s.published ++ begun_attitudes p) e;
        onboards_kept = rw f i.onboards_kept;
      }

  pub send_attitude_kept :
      (s : Pipeline (D × A × O) F) (m : Messages F) (w : D × A × O)
      → s.publisher ≡ sent_debug m
      → send_attitude_message (apart_queues debug attitude onboard remove) t m.1 s.world
        ≡ some (true, w)
      → Ordered s
      → Ordered (record s { world = w; publisher = sent_attitude m })
  unfolding send_attitude_message
  send_attitude_kept s m w e h i =
      let (v, f, c) =
        sent_in_part (λ (w : D × A × O). w.1) (λ v w. (w.0, v, w.2)) attitude laws₂ q₂ m.1
          t.attitude_message_queue s.world w sending.attitude_sends h in
      record {
        debugs_kept = rw f i.debugs_kept ∙ ap (λ p. debugs_of s.published ++ begun_debugs p) e;
        attitudes_kept =
            extend (attitudes_of s.emitted) (got_attitudes s.collector)
              (laws₂.contents q₂ s.world.1) (laws₂.contents q₂ w.1)
              (attitudes_of s.published ++ begun_attitudes s.publisher)
              (attitudes_of s.published ++ m.1 ∷ []) m.1 i.attitudes_kept (rw f c)
              (rw (e, append-nil (attitudes_of s.published)) refl);
        onboards_kept = rw f i.onboards_kept;
      }

  pub send_onboard_kept :
      (s : Pipeline (D × A × O) F) (m : Messages F) (w : D × A × O)
      → s.publisher ≡ sent_attitude m
      → send_onboard_message (apart_queues debug attitude onboard remove) t m.2 s.world
        ≡ some (true, w)
      → Ordered s
      → Ordered (record s { world = w; publisher = idle; published = s.published ++ m ∷ [] })
  unfolding send_onboard_message
  send_onboard_kept s m w e h i =
      let (v, f, c) =
        sent_in_part (λ (w : D × A × O). w.2) (λ v w. (w.0, w.1, v)) onboard laws₃ q₃ m.2
          t.onboard_message_queue s.world w sending.onboard_sends h in
      let debugs : debugs_of s.emitted ++ (got_debugs s.collector ++ laws₁.contents q₁ w.0)
          ≡ debugs_of s.published ++ begun_debugs s.publisher =
        rw f i.debugs_kept in
      let attitudes : attitudes_of s.emitted ++ (got_attitudes s.collector ++ laws₂.contents q₂ w.1)
          ≡ attitudes_of s.published ++ begun_attitudes s.publisher =
        rw f i.attitudes_kept in
      record {
        debugs_kept =
            debugs
            ∙ row_published (λ (m : Messages F). m.0) s.published m (begun_debugs s.publisher)
                (ap begun_debugs e);
        attitudes_kept =
            attitudes
            ∙ row_published (λ (m : Messages F). m.1) s.published m (begun_attitudes s.publisher)
                (ap begun_attitudes e);
        onboards_kept =
            extend (onboards_of s.emitted) [] (laws₃.contents q₃ s.world.2) (laws₃.contents q₃ w.2)
              (onboards_of s.published) (onboards_of (s.published ++ m ∷ [])) m.2 i.onboards_kept
              (rw f c) (map-append (λ (m : Messages F). m.2) s.published (m ∷ []));
      }
