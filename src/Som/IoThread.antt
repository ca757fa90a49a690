-- ===== src/Som/IoThread.antt =====
-- impl/src/som/SomController.cpp: the thread of the event loop, with the signal handler, startIoThread,
-- stopIoThread and the destructor. Boost's `run` returns once no work is left, and what counts as work is
-- the work guard, the wait for the signal, and the operations on the port.
pub mod Shutdown
use rc_plane.Base.{
  ℕ, suc, ◌-◌, Bool, true, false, ◌==◌, if◌then◌else◌, Option, none, some, List, [], ◌∷◌, ◌>>=◌,
}

-- The work of `m_ioService`, whether `m_worker` and `m_signalSet` give it some, and whether it has stopped.
pub record IoService : Type 0 where
  pub owns_work : Bool
  pub waits_signal : Bool
  pub pending : ℕ
  pub stopped : Bool

-- As the members are initialized, and the constructor waits for the signal.
abbrev pub io_service : IoService
io_service = record { owns_work = true; waits_signal = true; pending = 0; stopped = false }

-- What happens to the event loop: an operation on the port begins or ends, the signal comes, the
-- destructor calls stopIoThread, and `run` returns.
pub data Event : Type 0 where
  begin_operation end_operation signal destructor run_returns : Event

-- The handler of the signal: `m_worker.reset()`.
unfoldable pub handle_signal : IoService → IoService
handle_signal s = record s { waits_signal = false; owns_work = false }

-- Before it joins the thread.
unfoldable pub stop_io_thread : IoService → IoService
stop_io_thread s = record s { owns_work = false }

abbrev pub has_work : IoService → Bool
has_work s =
    if s.owns_work
    then true
    else if s.waits_signal
    then true
    else if s.pending == 0
    then false
    else true

-- A handler runs in `run` only, so not after it has returned.
unfoldable pub step : Event → IoService → Option IoService
unfolding handle_signal stop_io_thread
step begin_operation s = some (record s { pending = suc s.pending })
step end_operation s =
    if s.stopped
    then none
    else if s.pending == 0
    then none
    else some (record s { pending = s.pending - 1 })
step signal s = if s.stopped then none else if s.waits_signal then some (handle_signal s) else none
step destructor s = some (stop_io_thread s)
step run_returns s =
    if s.stopped then none else if has_work s then none else some (record s { stopped = true })

unfoldable pub run_events : List Event → IoService → Option IoService
unfolding step
run_events [] s = some s
run_events (e ∷ es) s = step e s >>= run_events es

abbrev pub has_signal : List Event → Bool
has_signal [] = false
has_signal (e ∷ es) = let rest = has_signal es in elim e [ signal ↦ true | _ ↦ rest ]
