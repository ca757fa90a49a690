-- ===== src/Io/Serial/Async.antt =====
-- impl/src/io/SerialController.cpp, `readPacket`, as its two threads run it: the caller, who waits for
-- the future, and the event loop, which runs the handler. The steps of the port are those that
-- Boost.Asio documents: bytes come in any number up to those asked for, the read completes or breaks
-- off, and a completion that is queued is not affected by `cancel`.
pub mod Bounds
pub mod Outcomes
use rc_plane.Base.{
  ℕ, zero, suc, ◌≡◌, Bool, true, false, Option, none, some, List, [], ◌∷◌, ◌++◌, drop,
}
use rc_plane.Common.Packet.Bytes.{Packet}
use rc_plane.Io.Serial.{ReadResult, read_result}

-- The composed read: so many bytes are missing, or its completion waits for the event loop, with
-- success or an error, or its handler has run.
pub data Operation : Type 0 where
  reading : ℕ → Operation
  queued : Bool → Operation
  finished : Operation

-- Where the caller stands: at `wait_for`, after the timeout, or past the end of the function, when
-- the promise is destroyed.
pub data Caller (P : Type 0) : Type 0 where
  waiting cancelling : Caller P
  returned : ReadResult P → Caller P

-- `dangling`: the handler has used the promise after its end, which is undefined.
pub record ReadCall (P : Type 0) : Type 0 where
  pub buffer : List ℕ
  pub operation : Operation
  pub caller : Caller P
  pub promise : Option (ReadResult P)
  pub dangling : Bool

abbrev pub is_returned : {P : Type 0} → Caller P → Bool
is_returned (returned _) = true
is_returned _ = false

-- A read that is under way ends with an error.
abbrev pub cancelled : Operation → Operation
cancelled (reading _) = queued false
cancelled o = o

abbrev pub result_of : {P : Type 0} → P → ReadResult P
result_of p = record { packet = p; did_timeout = false; bytes_read = 0 }

module _ {P : Type 0} ⦃l : Packet P⦄ where
  -- The start of the wait.
  abbrev pub read_call : List ℕ → ReadCall P
  read_call buffer = record {
    buffer = buffer;
    operation = reading l.size;
    caller = waiting;
    promise = none;
    dangling = false;
  }

  pub data Step (s : ReadCall P) : ReadCall P → Type 0 where
    arrive :
        (b k : ℕ)
        → s.operation ≡ reading (suc k)
        → Step s (record s { buffer = s.buffer ++ b ∷ []; operation = reading k })
    complete : s.operation ≡ reading 0 → Step s (record s { operation = queued true })
    break_off : (k : ℕ) → s.operation ≡ reading k → Step s (record s { operation = queued false })
    -- The handler, with an error and without.
    drop_error : s.operation ≡ queued false → Step s (record s { operation = finished })
    set_value :
        (p : P)
        → s.operation ≡ queued true
        → l.of_bytes s.buffer ≡ some p
        → is_returned s.caller ≡ false
        → Step s (record s {
          buffer = drop l.size s.buffer;
          operation = finished;
          promise = some (result_of p);
        })
    set_late :
        (p : P)
        → s.operation ≡ queued true
        → l.of_bytes s.buffer ≡ some p
        → is_returned s.caller ≡ true
        → Step s (record s { buffer = drop l.size s.buffer; operation = finished; dangling = true })
    -- The caller.
    get :
        (r : ReadResult P)
        → s.caller ≡ waiting
        → s.promise ≡ some r
        → Step s (record s { caller = returned r })
    time_out : s.caller ≡ waiting → s.promise ≡ none → Step s (record s { caller = cancelling })
    cancel :
        s.caller ≡ cancelling
        → Step s (record s { caller = returned read_result; operation = cancelled s.operation })
    -- `cancel` throws, and the exception is dropped.
    cancel_throws : s.caller ≡ cancelling → Step s (record s { caller = returned read_result })

  -- The states that n steps lead to, in any order.
  pub data Reach (buffer : List ℕ) : ℕ → ReadCall P → Type 0 where
    start : Reach buffer 0 (read_call buffer)
    later : {n : ℕ} {s t : ReadCall P} → Reach buffer n s → Step s t → Reach buffer (suc n) t
