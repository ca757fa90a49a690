-- ===== src/Link.antt =====
-- impl/src/mcu/mcu.ino and impl/src/som/SomController.cpp together: the sketch and the controller at
-- the two ends of a serial line that delivers what is written to it.
pub mod Telemetry
pub mod Sending
pub mod Round
pub mod Lag
pub mod Frames
pub mod Rounds
pub mod Calm
pub mod Handshake
pub mod PowerUp
use rc_plane.Base.{
  ℕ, zero, suc, Bool, true, false, ◌&&◌, ◌==◌, if◌then◌else◌, length, Option, none, some, List, [],
  ◌∷◌, ◌++◌, String, drop, take, ◌>>=◌,
}
use rc_plane.Double.{Double}
use mathlib.Core.Option
use rc_plane.Io.Serial.{SerialPort, UntilOutcome, found, not_found}
use rc_plane.Io.Serial.Loopback.{line_read}
use rc_plane.Io.Telemetry.Queue.{MessageQueue, Queues}
use rc_plane.Mcu.{Board, Sketch, send_packets, take_answer}
use rc_plane.Som.Controller.{SomController}
use rc_plane.Som.Cycle.{run_cycle}

-- The bytes under way from the sketch to the controller and back, and the rest of the world. `text`
-- gives the bytes of a string.
pub record Link (E : Type 0) (text : String → List ℕ) : Type 0 where
  pub env : E
  pub up : List ℕ
  pub down : List ℕ

abbrev is_prefix : List ℕ → List ℕ → Bool
is_prefix [] ys = true
is_prefix (x ∷ xs) [] = false
is_prefix (x ∷ xs) (y ∷ ys) = (x == y) && is_prefix xs ys

-- The size of the part that ends with the first match of the delimiter.
abbrev pub find_end : List ℕ → List ℕ → Option ℕ
find_end delimiter [] = if is_prefix delimiter [] then some (length delimiter) else none
find_end delimiter (y ∷ ys) =
    let later = Option.map suc (find_end delimiter ys) in
    if is_prefix delimiter (y ∷ ys) then some (length delimiter) else later

abbrev pub until_outcome : Option ℕ → List ℕ → UntilOutcome
until_outcome none bytes = not_found bytes
until_outcome (some size) bytes = found bytes size

-- The port of the controller. A read up to a delimiter takes all that is there.
instance abbrev pub link_port : {E : Type 0} {text : String → List ℕ} → SerialPort (Link E text)
link_port {text} = record {
  open_port = λ _ w. (true, w);
  set_baud_rate = λ _ w. (true, w);
  async_read = λ n _ w. let (outcome, up) = line_read n w.up in (outcome, record w { up = up });
  async_read_until = λ delimiter buffer _ w.
      (until_outcome (find_end (text delimiter) (buffer ++ w.up)) w.up, record w { up = [] });
  async_write = λ bytes _ w. (true, record w { down = w.down ++ bytes });
  cancel = λ w. w;
}

-- The board of the sketch. `println` ends a line with a carriage return and a line feed.
abbrev pub link_board : {E : Type 0} (text : String → List ℕ) → Board E → Board (Link E text)
link_board text board = record {
  pulse_in = λ pin w. let (pulse, e) = board.pulse_in pin w.env in (pulse, record w { env = e });
  millis = λ w. let (time, e) = board.millis w.env in (time, record w { env = e });
  print_line = λ s w. record w { up = w.up ++ (text s ++ 13 ∷ 10 ∷ []) };
  write_bytes = λ bytes w. record w { up = w.up ++ bytes };
  read_bytes = λ n w. (take n w.down, record w { down = drop n w.down });
  analog_write = λ pin value w. record w { env = board.analog_write pin value w.env };
  start = λ w. record w { env = board.start w.env };
  start_imu = λ w. record w { env = board.start_imu w.env };
  update_imu = λ w. let (imu, e) = board.update_imu w.env in (imu, record w { env = e });
}

module _ {E : Type 0} {text : String → List ℕ} where
  -- The queues are not on the line.
  abbrev pub link_queue : {Q M : Type 0} → MessageQueue E Q M → MessageQueue (Link E text) Q M
  link_queue queue = record {
    open_or_create =
        λ name n w. let (q, e) = queue.open_or_create name n w.env in (q, record w { env = e });
    open_only = λ name w. let (q, e) = queue.open_only name w.env in (q, record w { env = e });
    try_send =
        λ q m w. let (sending, e) = queue.try_send q m w.env in (sending, record w { env = e });
    receive = λ q w. let (m, e) = queue.receive q w.env in (m, record w { env = e });
  }

  abbrev pub link_queues : {Q F : Type 0} → Queues E Q F → Queues (Link E text) Q F
  link_queues qs = record {
    debug = link_queue qs.debug;
    attitude = link_queue qs.attitude;
    onboard = link_queue qs.onboard;
    remove = λ name w. record w { env = qs.remove name w.env };
  }

module _ {E Q F : Type 0} ⦃d : Double F⦄ (text : String → List ℕ) (board : Board E)
    (qs : Queues E Q F) where
  -- The sketch sends, the controller takes a cycle, and the sketch reads the answer.
  unfoldable pub exchange :
      Sketch → SomController Q F → Link E text → Option (Sketch × SomController Q F × Link E text)
  exchange s c w = do
    (s₁, w₁) ← send_packets (link_board text board) F s w
    (c', w₂) ← run_cycle (link_queues qs) c w₁
    (s', w₃) ← take_answer (link_board text board) s₁ w₂
    some (s', c', w₃)

  -- The sketch after each of n exchanges, and the end.
  unfoldable pub exchanges :
      ℕ
      → Sketch
      → SomController Q F
      → Link E text
      → Option (List Sketch × SomController Q F × Link E text)
  exchanges zero s c w = some ([], c, w)
  exchanges (suc n) s c w = do
    (s', c', w') ← exchange s c w
    (log, c'', w'') ← exchanges n s' c' w'
    some (s' ∷ log, c'', w'')
