-- ===== src/Pc.antt =====
-- impl/src/pc/main.cpp: the program on the ground that receives every message. It waits for each of
-- the three messages in turn, as often as its queue throws, in a loop that does not end. Both loops run on fuel:
-- `polling` says that it was used up.
pub mod Reading
use rc_plane.Base.{
  ℕ, zero, suc, Bool, true, false, Option, none, some, List, [], ◌∷◌, String, if◌then◌else◌,
}
use rc_plane.Double.{Double}
use rc_plane.Io.Config.{JsonLibrary, Parsed, config_manager, load_config}
use rc_plane.Io.Config.Constructors.{read_receiver}
use rc_plane.Io.Telemetry.Message.{debug_message, attitude_message, onboard_message}
use rc_plane.Io.Telemetry.Backlog.{Messages}
use rc_plane.Io.Telemetry.Queue.{Queues}
use rc_plane.Io.Telemetry.Receiver
use rc_plane.Io.Telemetry.Receiver.{
  TelemetryReceiverMq, receive_debug_message, receive_attitude_message, receive_onboard_message,
}
use rc_plane.Som.Setup.{default_config_path}

-- How a part of the program ends: it is undefined, it exits, its fuel is used up, or it has a result.
pub data Polled (A : Type 0) : Type 0 where
  undefined exited polling : Polled A
  got : A → Polled A

infixl 5 ◌>>=◌
abbrev pub ◌>>=◌ : {A B : Type 0} → Polled A → (A → Polled B) → Polled B
undefined >>= f = undefined
exited >>= f = exited
polling >>= f = polling
got a >>= f = f a

abbrev pub of_option : {A : Type 0} → Option A → Polled A
of_option none = undefined
of_option (some a) = got a

-- `RCPLANE_ASSERT_EXTERNAL`.
abbrev pub assert_external : Bool → Polled Unit
assert_external true = got tt
assert_external false = exited

-- `while (!receive(message)) ;`, with at most k calls.
unfoldable pub poll : {W M : Type 0} → ℕ → (M → W → Option (Bool × M × W)) → M → W → Polled (M × W)
poll zero receive message w = polling
poll (suc k) receive message w = do
  (received, message', w') ← of_option (receive message w)
  elim received [ true ↦ got (message', w') | false ↦ poll k receive message' w' ]

module _ {W Q F : Type 0} ⦃d : Double F⦄ (qs : Queues W Q F) where
  -- One round of the outer loop.
  unfoldable pub read_messages : ℕ → TelemetryReceiverMq Q → W → Polled (Messages F × W)
  unfolding poll
  read_messages k t w = do
    (debug, w₁) ← poll k (receive_debug_message qs t) debug_message w
    (attitude, w₂) ← poll k (receive_attitude_message qs t) attitude_message w₁
    (onboard, w₃) ← poll k (receive_onboard_message qs t) onboard_message w₂
    got ((debug, attitude, onboard), w₃)

  -- What n rounds have read.
  unfoldable pub read_rounds : ℕ → ℕ → TelemetryReceiverMq Q → W → Polled (List (Messages F) × W)
  unfolding read_messages
  read_rounds zero k t w = got ([], w)
  read_rounds (suc n) k t w = do
    (messages, w₁) ← read_messages k t w
    (rest, w₂) ← read_rounds n k t w₁
    got (messages ∷ rest, w₂)

  -- `main`, with at most n rounds.
  unfoldable pub pc_main :
      {J : Type 0}
      → JsonLibrary J F
      → (String → W → Parsed J × W)
      → ℕ
      → ℕ
      → W
      → Polled (List (Messages F) × W)
  unfolding load_config read_receiver Receiver.init read_rounds
  pc_main library read_file n k w = do
    let (file, w₁) = read_file default_config_path w
    (loaded, config) ← of_option (load_config (config_manager library) file)
    _ ← assert_external loaded
    receiver ← of_option (read_receiver library config)
    let (ready, opened, w₂) = Receiver.init qs receiver w₁
    _ ← assert_external ready
    read_rounds n k opened w₂
