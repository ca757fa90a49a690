-- ===== src/Io/Telemetry/Queue.antt =====
-- Boost.Interprocess message queues, which are a parameter. A queue copies the bytes of a message,
-- whose types here can be copied so: it is taken to hold the messages.
use rc_plane.Base.{ℕ, ◌≡◌, ◌≢◌, Option, some, List, [], ◌∷◌, ◌++◌, String}
use rc_plane.Io.Telemetry.Message.{DebugMessage, AttitudeMessage, OnboardStateMessage}

-- `try_send` accepts a message, returns false on a full queue, or throws.
pub data Sending : Type 0 where
  accepted refused thrown : Sending

-- Queues of messages of type M, with handles of type Q, in a world of type W. An operation that
-- throws gives `none`; `receive` waits for a message.
pub record MessageQueue (W Q M : Type 0) : Type 0 where
  pub open_or_create : String → ℕ → W → Option Q × W
  pub open_only : String → W → Option Q × W
  pub try_send : Q → M → W → Sending × W
  pub receive : Q → W → Option M × W

pub record Queues (W Q F : Type 0) : Type 0 where
  pub debug : MessageQueue W Q DebugMessage
  pub attitude : MessageQueue W Q (AttitudeMessage F)
  pub onboard : MessageQueue W Q OnboardStateMessage
  pub remove : String → W → W

-- What is documented of a queue: it is first in, first out, and a call that fails changes nothing.
pub record IsQueue {W Q M : Type 0} (queue : MessageQueue W Q M) : Type 0 where
  pub contents : Q → W → List M
  pub contents-accepted :
      (q : Q) (m : M) (w w' : W)
      → queue.try_send q m w ≡ (accepted, w')
      → contents q w' ≡ contents q w ++ m ∷ []
  pub contents-failed :
      (q : Q) (m : M) (w w' : W) (s : Sending)
      → queue.try_send q m w ≡ (s, w')
      → s ≢ accepted
      → contents q w' ≡ contents q w
  pub receive-contents :
      (q : Q) (m : M) (rest : List M) (w : W)
      → contents q w ≡ m ∷ rest
      → (w' : W) × (queue.receive q w ≡ (some m, w')) × (contents q w' ≡ rest)
