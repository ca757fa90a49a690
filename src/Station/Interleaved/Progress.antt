-- ===== src/Station/Interleaved/Progress.antt =====
-- The thread can go on while something that was published is not emitted yet.
use rc_plane.Base.{
  ◌≡◌, ◌≢◌, refl, sym, ◌∙◌, ap, All, All-middle, List, [], ◌∷◌, ◌++◌, String, some, ℕ, zero, suc,
  ◌+◌, ◌*◌, ◌≤◌, length, length-append, arith,
}
use mathlib.Core.List.{map, append-nil}
use rc_plane.Double.{Double}
use rc_plane.Io.Telemetry.Message.{
  DebugMessage, AttitudeMessage, OnboardStateMessage, debug_message, attitude_message,
  onboard_message,
}
use rc_plane.Io.Telemetry.Print.{
  print_debug, print_attitude, print_onboard, IsShowable, print_onboard-IsShowable,
}
use rc_plane.Io.Telemetry.Queue.{MessageQueue, IsQueue}
use rc_plane.Io.Telemetry.Transmitter.{TelemetryTransmitterMq}
use rc_plane.Io.Telemetry.Receiver.{
  TelemetryReceiverMq, receive_debug_message, receive_attitude_message, receive_onboard_message,
}
use rc_plane.Io.Telemetry.Backlog.{Messages, apart_queues, IsSending, IsReceiving}
use rc_plane.Station.Interleaved.{
  Collector, fresh, has_debug, has_attitude, Pipeline, ReceiveStep, ThreadCalls, none_left,
  next_call, thread_step, receive_debug, receive_attitude, receive_onboard, Reach, later,
}
use rc_plane.Station.Interleaved.Rows.{next_in_row}
use rc_plane.Station.Interleaved.Calls.{first_returned}
use rc_plane.Station.Interleaved.Ordered.{
  waiting_in, got_debugs, got_attitudes, begun_debugs, begun_attitudes, IsOrdered,
}
use rc_plane.Station.Interleaved.Order.{Reach-IsOrdered, emitted_first}

-- The calls of the thread that are done: those of its round, and three for each round before.
abbrev taken : {F : Type 0} → Collector F → ℕ
taken fresh = 0
taken (has_debug m) = 1
taken (has_attitude m a) = 2

abbrev calls_done : {W F : Type 0} → Pipeline W F → ℕ
calls_done s = taken s.collector + 3 * length s.emitted

taken_le : {F : Type 0} (c : Collector F) → taken c ≤ 2
taken_le fresh = omega arith
taken_le (has_debug m) = omega arith
taken_le (has_attitude m a) = omega arith

module _ {D A O Q F : Type 0} ⦃d : Double F⦄ (debug : MessageQueue D Q DebugMessage)
    (attitude : MessageQueue A Q (AttitudeMessage F))
    (onboard : MessageQueue O Q OnboardStateMessage) (laws₁ : IsQueue debug)
    (laws₂ : IsQueue attitude) (laws₃ : IsQueue onboard) (remove : String → D × A × O → D × A × O)
    (q₁ q₂ q₃ : Q) (t : TelemetryTransmitterMq Q) (r : TelemetryReceiverMq Q)
    (sending : IsSending t q₁ q₂ q₃) (receiving : IsReceiving r q₁ q₂ q₃) where
  -- A call of the thread: what is published, and the state of the publisher, are as before.
  abbrev CanGoOn : Pipeline (D × A × O) F → Type 0
  CanGoOn s =
      (s' : Pipeline (D × A × O) F) × ReceiveStep (apart_queues debug attitude onboard remove)
        (waiting_in debug attitude onboard laws₁ laws₂ laws₃ q₁ q₂ q₃) t r s s'
      × (s'.published ≡ s.published)
      × (s'.publisher ≡ s.publisher)
      × (calls_done s' ≡ suc (calls_done s))

  abbrev Reached : D × A × O → Pipeline (D × A × O) F → Type 0
  Reached w s =
      Reach (apart_queues debug attitude onboard remove)
        (waiting_in debug attitude onboard laws₁ laws₂ laws₃ q₁ q₂ q₃) t r w s

  -- A number of calls of the thread alone lead from here to where all is emitted that was published,
  -- and nothing more published.
  abbrev CanCatchUp : Pipeline (D × A × O) F → Type 0
  CanCatchUp s =
      (k : ℕ) × (s' : Pipeline (D × A × O) F) × ThreadCalls
        (apart_queues debug attitude onboard remove)
        (waiting_in debug attitude onboard laws₁ laws₂ laws₃ q₁ q₂ q₃) t r k s s'
      × (k + calls_done s ≤ 3 * length s.published + 2)
      × (s'.emitted ≡ s.published)
      × (s'.published ≡ s.published)
      × (s'.publisher ≡ s.publisher)

  not_empty : {B : Type 0} (xs rest : List B) (x : B) → xs ≡ x ∷ rest → xs ≢ []
  not_empty xs rest x e f = cc

  thread_goes_on :
      (s : Pipeline (D × A × O) F) (collector : Collector F) (m : Messages F)
      (ms : List (Messages F))
      → s.collector ≡ collector
      → IsOrdered debug attitude onboard laws₁ laws₂ laws₃ q₁ q₂ q₃ s
      → s.published ≡ s.emitted ++ m ∷ ms
      → IsShowable m.2
      → CanGoOn s
  unfolding receive_debug_message receive_attitude_message receive_onboard_message
  thread_goes_on s fresh m ms e i p shown =
      let waits =
        next_in_row (λ (m : Messages F). m.0) s.emitted s.published ms m (got_debugs s.collector)
          (laws₁.contents q₁ s.world.0) (begun_debugs s.publisher) (ap got_debugs e) p
          i.debugs_kept in
      let (w, h) =
        first_returned (λ (w : D × A × O). w.0) (λ v w. (v, w.1, w.2)) debug laws₁ q₁ m.0 _
          (λ x. some (print_debug {F = F} x)) debug_message r.debug_message_queue s.world
          receiving.debug_receives waits (λ f. cc) in
      (
        _,
        receive_debug m.0 w e (not_empty _ _ _ waits) h,
        refl,
        refl,
        rw (ap taken e) (omega arith),
      )
  thread_goes_on s (has_debug x) m ms e i p shown =
      let waits =
        next_in_row (λ (m : Messages F). m.1) s.emitted s.published ms m (got_attitudes s.collector)
          (laws₂.contents q₂ s.world.1) (begun_attitudes s.publisher) (ap got_attitudes e) p
          i.attitudes_kept in
      let (w, h) =
        first_returned (λ (w : D × A × O). w.1) (λ v w. (w.0, v, w.2)) attitude laws₂ q₂ m.1 _
          (λ x. some (print_attitude x)) attitude_message r.attitude_message_queue s.world
          receiving.attitude_receives waits (λ f. cc) in
      (
        _,
        receive_attitude x m.1 w e (not_empty _ _ _ waits) h,
        refl,
        refl,
        rw (ap taken e) (omega arith),
      )
  thread_goes_on s (has_attitude x y) m ms e i p shown =
      let waits =
        next_in_row (λ (m : Messages F). m.2) s.emitted s.published ms m []
          (laws₃.contents q₃ s.world.2) [] refl p
          (i.onboards_kept ∙ sym (append-nil (map (λ (m : Messages F). m.2) s.published))) in
      let (w, h) =
        first_returned (λ (w : D × A × O). w.2) (λ v w. (w.0, w.1, v)) onboard laws₃ q₃ m.2 _
          (print_onboard {F = F}) onboard_message r.onboard_message_queue s.world
          receiving.onboard_receives waits ((print_onboard-IsShowable {F = F} m.2).1 shown) in
      (
        _,
        receive_onboard x y m.2 w e (not_empty _ _ _ waits) h,
        refl,
        refl,
        rw (ap taken e) (omega (arith, length-append s.emitted ((x, y, m.2) ∷ []))),
      )

  -- The thread catches up if it is given enough calls, starting from what is left of the messages.
  catch_up :
      (n : ℕ) (w : D × A × O) (s : Pipeline (D × A × O) F) (left : List (Messages F))
      → laws₁.contents q₁ w.0 ≡ []
      → laws₂.contents q₂ w.1 ≡ []
      → laws₃.contents q₃ w.2 ≡ []
      → Reached w s
      → All (λ (m : Messages F). IsShowable m.2) s.published
      → s.emitted ++ left ≡ s.published
      → 3 * length s.published ≤ n + calls_done s
      → CanCatchUp s
  catch_up n w s [] e₁ e₂ e₃ reach shown p bound = (
    0,
    s,
    none_left,
    omega (arith, ap length p, length-append s.emitted [], taken_le s.collector),
    sym (append-nil s.emitted) ∙ p,
    refl,
    refl,
  )
  catch_up zero w s (m ∷ ms) e₁ e₂ e₃ reach shown p bound =
      absurd (omega (arith, ap length p, length-append s.emitted (m ∷ ms), taken_le s.collector))
  catch_up (suc n) w s (m ∷ ms) e₁ e₂ e₃ reach shown p bound =
      let i =
        Reach-IsOrdered debug attitude onboard laws₁ laws₂ laws₃ remove q₁ q₂ q₃ t r sending
          receiving w s e₁ e₂ e₃ reach in
      let (s', step, published, publisher, further) =
        thread_goes_on s s.collector m ms refl i (sym p)
          (All-middle (λ (m : Messages F). IsShowable m.2) s.emitted ms m (rw p shown)) in
      let reach' : Reached w s' = later reach (thread_step step) in
      let (left, p', _) =
        emitted_first debug attitude onboard laws₁ laws₂ laws₃ remove q₁ q₂ q₃ t r sending receiving
          w s' e₁ e₂ e₃ reach' in
      let (k, s'', calls, few, emitted, published', publisher') =
        catch_up n w s' left e₁ e₂ e₃ reach' (rw published shown) p'
          (omega (arith, ap length published)) in
      (
        suc k,
        s'',
        next_call step calls,
        omega (arith, ap length published),
        emitted ∙ published,
        published' ∙ published,
        publisher' ∙ publisher,
      )

  -- Over three queues that meet their laws and that both have opened: if a state was reached from a
  -- world in which they are empty, by calls of the two processes in any order that all return true,
  -- and if all that was published can be shown, then calls of the thread alone, which all return true,
  -- lead on from this state to one in which all that was published is emitted, and nothing more is
  -- published. Together with those before, they are at most three for each message and two.
  pub thread_catches_up :
      (w : D × A × O) (s : Pipeline (D × A × O) F)
      → laws₁.contents q₁ w.0 ≡ []
      → laws₂.contents q₂ w.1 ≡ []
      → laws₃.contents q₃ w.2 ≡ []
      → Reached w s
      → All (λ (m : Messages F). IsShowable m.2) s.published
      → CanCatchUp s
  thread_catches_up w s e₁ e₂ e₃ reach shown =
      let (left, p, _) =
        emitted_first debug attitude onboard laws₁ laws₂ laws₃ remove q₁ q₂ q₃ t r sending receiving
          w s e₁ e₂ e₃ reach in
      catch_up (3 * length s.published) w s left e₁ e₂ e₃ reach shown p (omega arith)
