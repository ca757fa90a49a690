-- ===== src/Station/Interleaved.antt =====
-- The calls of the controller's telemetry (impl/src/som/SomController.cpp) and of the thread of the
-- control station (control_station/TelemetryThread.hpp), which run in two processes, in any order. A
-- step is one call that returns true. A receive waits until its queue has a message.
mod Calls
mod Rows
pub mod Ordered
mod Sends
mod Receives
pub mod Order
pub mod Progress
use rc_plane.Base.{ℕ, suc, ◌≡◌, ◌≢◌, true, some, List, [], ◌∷◌, ◌++◌}
use rc_plane.Double.{Double}
use rc_plane.Io.Telemetry.Message.{
  DebugMessage, AttitudeMessage, OnboardStateMessage, debug_message, attitude_message,
  onboard_message,
}
use rc_plane.Io.Telemetry.Queue.{Queues}
use rc_plane.Io.Telemetry.Transmitter.{
  TelemetryTransmitterMq, send_debug_message, send_attitude_message, send_onboard_message,
}
use rc_plane.Io.Telemetry.Receiver.{
  TelemetryReceiverMq, receive_debug_message, receive_attitude_message, receive_onboard_message,
}
use rc_plane.Io.Telemetry.Backlog.{Messages}

-- How far `send_telemetry` is with some messages.
pub data Publisher (F : Type 0) : Type 0 where
  idle : Publisher F
  sent_debug sent_attitude : Messages F → Publisher F

-- How far the thread is in its round.
pub data Collector (F : Type 0) : Type 0 where
  fresh : Collector F
  has_debug : DebugMessage → Collector F
  has_attitude : DebugMessage → AttitudeMessage F → Collector F

-- `published` are the messages of the calls of `send_telemetry` that are done, and `emitted` those of
-- the rounds of the thread that are.
pub record Pipeline (W F : Type 0) : Type 0 where
  pub world : W
  pub publisher : Publisher F
  pub collector : Collector F
  pub published : List (Messages F)
  pub emitted : List (Messages F)

-- What waits in each queue.
pub record Waiting (W F : Type 0) : Type 0 where
  pub debugs : W → List DebugMessage
  pub attitudes : W → List (AttitudeMessage F)
  pub onboards : W → List OnboardStateMessage

module _ {W Q F : Type 0} ⦃d : Double F⦄ (qs : Queues W Q F) (waiting : Waiting W F)
    (t : TelemetryTransmitterMq Q) (r : TelemetryReceiverMq Q) where
  -- The next call of `send_telemetry`.
  pub data SendStep (s : Pipeline W F) : Pipeline W F → Type 0 where
    send_debug :
        (m : Messages F) (w : W)
        → s.publisher ≡ idle
        → send_debug_message qs t m.0 s.world ≡ some (true, w)
        → SendStep s (record s { world = w; publisher = sent_debug m })
    send_attitude :
        (m : Messages F) (w : W)
        → s.publisher ≡ sent_debug m
        → send_attitude_message qs t m.1 s.world ≡ some (true, w)
        → SendStep s (record s { world = w; publisher = sent_attitude m })
    send_onboard :
        (m : Messages F) (w : W)
        → s.publisher ≡ sent_attitude m
        → send_onboard_message qs t m.2 s.world ≡ some (true, w)
        → SendStep s (record s { world = w; publisher = idle; published = s.published ++ m ∷ [] })

  -- The next call of the thread.
  pub data ReceiveStep (s : Pipeline W F) : Pipeline W F → Type 0 where
    receive_debug :
        (debug : DebugMessage) (w : W)
        → s.collector ≡ fresh
        → waiting.debugs s.world ≢ []
        → receive_debug_message qs r debug_message s.world ≡ some (true, debug, w)
        → ReceiveStep s (record s { world = w; collector = has_debug debug })
    receive_attitude :
        (debug : DebugMessage) (attitude : AttitudeMessage F) (w : W)
        → s.collector ≡ has_debug debug
        → waiting.attitudes s.world ≢ []
        → receive_attitude_message qs r attitude_message s.world ≡ some (true, attitude, w)
        → ReceiveStep s (record s { world = w; collector = has_attitude debug attitude })
    receive_onboard :
        (debug : DebugMessage) (attitude : AttitudeMessage F) (onboard : OnboardStateMessage)
        (w : W)
        → s.collector ≡ has_attitude debug attitude
        → waiting.onboards s.world ≢ []
        → receive_onboard_message qs r onboard_message s.world ≡ some (true, onboard, w)
        → ReceiveStep s (record s {
          world = w;
          collector = fresh;
          emitted = s.emitted ++ (debug, attitude, onboard) ∷ [];
        })

  pub data Step (s : Pipeline W F) : Pipeline W F → Type 0 where
    controller_step : {s' : Pipeline W F} → SendStep s s' → Step s s'
    thread_step : {s' : Pipeline W F} → ReceiveStep s s' → Step s s'

  -- What can be reached from a world in which nothing was published.
  pub data Reach (w : W) : Pipeline W F → Type 0 where
    start :
        Reach w
          (record { world = w; publisher = idle; collector = fresh; published = []; emitted = [] })
    later : {s s' : Pipeline W F} → Reach w s → Step s s' → Reach w s'

  -- A number of calls of the thread alone, one after the other.
  pub data ThreadCalls : ℕ → Pipeline W F → Pipeline W F → Type 0 where
    none_left : {s : Pipeline W F} → ThreadCalls 0 s s
    next_call :
        {n : ℕ} {s s' s'' : Pipeline W F}
        → ReceiveStep s s'
        → ThreadCalls n s' s''
        → ThreadCalls (suc n) s s''
