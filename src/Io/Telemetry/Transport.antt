-- ===== src/Io/Telemetry/Transport.antt =====
-- impl/include/rcplane/io/telemetry/ITelemetryTransmitter.hpp and ITelemetryReceiver.hpp beside it:
-- the two interfaces, and what their users may rely on. `none` is undefined behaviour or an exception.
pub mod Mixed
pub mod OverQueues
use rc_plane.Base.{◌≡◌, ◌≢◌, ◌⊎◌, Bool, true, false, Option, none, some, List, [], ◌∷◌, ◌++◌}
use rc_plane.Io.Telemetry.Message.{DebugMessage, AttitudeMessage}

-- Operations on a transmitter of type T in a world of type W.
pub record ITelemetryTransmitter (T W F : Type 0) : Type 0 where
  pub init : T → W → Bool × T × W
  pub send_debug_message : T → DebugMessage → W → Option (Bool × W)
  pub send_attitude_message : T → AttitudeMessage F → W → Option (Bool × W)

-- A receive operation is given the caller's message and returns what it leaves there.
pub record ITelemetryReceiver (R W F : Type 0) : Type 0 where
  pub init : R → W → Bool × R × W
  pub receive_debug_message : R → DebugMessage → W → Option (Bool × DebugMessage × W)
  pub receive_attitude_message : R → AttitudeMessage F → W → Option (Bool × AttitudeMessage F × W)

-- An `init` that returns true leaves an object whose operations return.
pub record IsTransmitter {T W F : Type 0} (transmitter : ITelemetryTransmitter T W F) : Type 0 where
  pub send_debug_message-init :
      (t t' : T) (w w' w'' : W) (m : DebugMessage)
      → transmitter.init t w ≡ (true, t', w')
      → transmitter.send_debug_message t' m w'' ≢ none
  pub send_attitude_message-init :
      (t t' : T) (w w' w'' : W) (m : AttitudeMessage F)
      → transmitter.init t w ≡ (true, t', w')
      → transmitter.send_attitude_message t' m w'' ≢ none

pub record IsReceiver {R W F : Type 0} (receiver : ITelemetryReceiver R W F) : Type 0 where
  pub receive_debug_message-init :
      (r r' : R) (w w' w'' : W) (m : DebugMessage)
      → receiver.init r w ≡ (true, r', w')
      → receiver.receive_debug_message r' m w'' ≢ none
  pub receive_attitude_message-init :
      (r r' : R) (w w' w'' : W) (m : AttitudeMessage F)
      → receiver.init r w ≡ (true, r', w')
      → receiver.receive_attitude_message r' m w'' ≢ none

-- What is on its way of the two kinds.
pub record InFlight (F : Type 0) : Type 0 where
  pub debugs : List DebugMessage
  pub attitudes : List (AttitudeMessage F)

-- A send that returns true adds its message behind those of its kind, and one that returns false
-- adds nothing; a receive takes the first message of its kind, if there is one.
pub record IsTransport {T R W F : Type 0} (transmitter : ITelemetryTransmitter T W F)
    (receiver : ITelemetryReceiver R W F) (in_flight : W → InFlight F) (t : T) (r : R)
    : Type 0 where
  pub send_debug_message-cases :
      (m : DebugMessage) (w : W)
      → (w' : W) × ((transmitter.send_debug_message t m w ≡ some (true, w'))
            × (in_flight w' ≡ record (in_flight w) { debugs = (in_flight w).debugs ++ m ∷ [] })
          ⊎ (transmitter.send_debug_message t m w ≡ some (false, w'))
            × (in_flight w' ≡ in_flight w))
  pub send_attitude_message-cases :
      (m : AttitudeMessage F) (w : W)
      → (w' : W) × ((transmitter.send_attitude_message t m w ≡ some (true, w'))
            × (in_flight w'
                ≡ record (in_flight w) { attitudes = (in_flight w).attitudes ++ m ∷ [] })
          ⊎ (transmitter.send_attitude_message t m w ≡ some (false, w'))
            × (in_flight w' ≡ in_flight w))
  pub receive_debug_message-first :
      (old m : DebugMessage) (rest : List DebugMessage) (w : W)
      → (in_flight w).debugs ≡ m ∷ rest
      → (w' : W) × (receiver.receive_debug_message r old w ≡ some (true, m, w'))
        × (in_flight w' ≡ record (in_flight w) { debugs = rest })
  pub receive_attitude_message-first :
      (old m : AttitudeMessage F) (rest : List (AttitudeMessage F)) (w : W)
      → (in_flight w).attitudes ≡ m ∷ rest
      → (w' : W) × (receiver.receive_attitude_message r old w ≡ some (true, m, w'))
        × (in_flight w' ≡ record (in_flight w) { attitudes = rest })
