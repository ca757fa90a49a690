-- ===== src/Tests/IoThread.antt =====
-- The event loop after a signal that came while a read was pending.
use rc_plane.Base.{◌≤◌, ◌≡◌, ◌↔◌, refl, true, false, some, List, [], ◌∷◌, length}
use rc_plane.Som.IoThread.{
  IoService, io_service, Event, begin_operation, signal, destructor, run_events, has_signal,
}
use rc_plane.Som.IoThread.Shutdown.{run_events_iff_signal}

abbrev events : List Event
events = begin_operation ∷ signal ∷ destructor ∷ []

abbrev signalled : IoService
signalled = record { owns_work = false; waits_signal = false; pending = 1; stopped = false }

happened : run_events events io_service ≡ some signalled
unfolding run_events
happened = refl

run_events_iff_signal_example : (has_signal events ≡ true) ↔ (
    (rest : List Event) × (s' : IoService) × (run_events rest signalled ≡ some s')
    × (s'.stopped ≡ true)
    × (has_signal rest ≡ false)
    × (length rest ≤ 2))
run_events_iff_signal_example = run_events_iff_signal events signalled happened
