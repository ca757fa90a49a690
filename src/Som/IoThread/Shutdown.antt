-- ===== src/Som/IoThread/Shutdown.antt =====
-- When the thread of the event loop can be joined.
use rc_plane.Base.{
  ℕ, zero, suc, ◌-◌, ◌≤◌, ◌≡◌, refl, true, false, some, List, [], ◌∷◌, length, >>=-eq-some,
  Bool-cases, ◌↔◌, ◌⊎◌, inl, inr, arith,
}
use rc_plane.Som.IoThread.{
  IoService, io_service, Event, begin_operation, end_operation, signal, destructor, run_returns,
  handle_signal, stop_io_thread, step, run_events, has_signal,
}

-- No signal has come: the wait for it is left, so that the loop runs.
abbrev IsWaiting : IoService → Type 0
IsWaiting s = (s.waits_signal ≡ true) × (s.stopped ≡ false)

-- Only operations are left.
abbrev IsSignalled : IoService → Type 0
IsSignalled s = (s.waits_signal ≡ false) × (s.owns_work ≡ false)

split_signal :
    (e : Event) (es : List Event)
    → has_signal (e ∷ es) ≡ false
    → (has_signal (e ∷ []) ≡ false) × (has_signal es ≡ false)
split_signal begin_operation es h = (refl, h)
split_signal end_operation es h = (refl, h)
split_signal signal es h = cc
split_signal destructor es h = (refl, h)
split_signal run_returns es h = (refl, h)

signal_cases :
    (e : Event) (es : List Event)
    → has_signal (e ∷ es) ≡ true
    → (e ≡ signal) ⊎ (has_signal es ≡ true)
signal_cases begin_operation es h = inr h
signal_cases end_operation es h = inr h
signal_cases signal es h = inl refl
signal_cases destructor es h = inr h
signal_cases run_returns es h = inr h

step-IsWaiting :
    (e : Event) (s s' : IoService)
    → IsWaiting s
    → has_signal (e ∷ []) ≡ false
    → step e s ≡ some s'
    → IsWaiting s'
unfolding step handle_signal stop_io_thread
step-IsWaiting begin_operation s s' waiting other h = ground arith
step-IsWaiting end_operation s s' waiting other h = ground arith
step-IsWaiting signal s s' waiting other h = ground arith
step-IsWaiting destructor s s' waiting other h = ground arith
step-IsWaiting run_returns s s' waiting other h = ground arith

step-IsSignalled :
    (e : Event) (s s' : IoService) → IsSignalled s → step e s ≡ some s' → IsSignalled s'
unfolding step handle_signal stop_io_thread
step-IsSignalled begin_operation s s' signalled h = ground arith
step-IsSignalled end_operation s s' signalled h = ground arith
step-IsSignalled signal s s' signalled h = ground arith
step-IsSignalled destructor s s' signalled h = ground arith
step-IsSignalled run_returns s s' signalled h = ground arith

signal-IsSignalled :
    (e : Event) (s s' : IoService) → e ≡ signal → step e s ≡ some s' → IsSignalled s'
unfolding step handle_signal
signal-IsSignalled begin_operation s s' same h = cc
signal-IsSignalled end_operation s s' same h = cc
signal-IsSignalled signal s s' same h = ground arith
signal-IsSignalled destructor s s' same h = cc
signal-IsSignalled run_returns s s' same h = cc

step-end_operation :
    (s : IoService) (n : ℕ)
    → s.stopped ≡ false
    → s.pending ≡ suc n
    → step end_operation s ≡ some (record s { pending = s.pending - 1 })
unfolding step
step-end_operation s n running left = ground arith

run-IsWaiting :
    (es : List Event) (s s' : IoService)
    → IsWaiting s
    → has_signal es ≡ false
    → run_events es s ≡ some s'
    → IsWaiting s'
unfolding run_events
run-IsWaiting [] s s' waiting other h = ground arith
run-IsWaiting (e ∷ es) s s' waiting other h =
    let (s₁, stepped, ran) = >>=-eq-some (step e s) _ h in
    let (first, rest) : (has_signal (e ∷ []) ≡ false) × (has_signal es ≡ false) =
      split_signal e es other in
    run-IsWaiting es s₁ s' (step-IsWaiting e s s₁ waiting first stepped) rest ran

run-IsSignalled :
    (es : List Event) (s s' : IoService)
    → IsSignalled s
    → run_events es s ≡ some s'
    → IsSignalled s'
unfolding run_events
run-IsSignalled [] s s' signalled h = ground arith
run-IsSignalled (e ∷ es) s s' signalled h =
    let (s₁, stepped, ran) = >>=-eq-some (step e s) _ h in
    run-IsSignalled es s₁ s' (step-IsSignalled e s s₁ signalled stepped) ran

after_signal :
    (es : List Event) (s s' : IoService)
    → has_signal es ≡ true
    → run_events es s ≡ some s'
    → IsSignalled s'
unfolding run_events
after_signal [] s s' came h = cc
after_signal (e ∷ es) s s' came h =
    let (s₁, stepped, ran) = >>=-eq-some (step e s) _ h in
    elim (signal_cases e es came) [
      | inl first ↦ run-IsSignalled es s₁ s' (signal-IsSignalled e s s₁ first stepped) ran
      | inr later ↦ after_signal es s₁ s' later ran
    ]

-- The operations end, and `run` returns.
drain :
    (n : ℕ) (s : IoService)
    → IsSignalled s
    → s.stopped ≡ false
    → s.pending ≡ n
    → (es : List Event) × (s' : IoService) × (run_events es s ≡ some s')
      × (s'.stopped ≡ true)
      × (has_signal es ≡ false)
      × (length es ≤ suc n)
unfolding run_events step
drain zero s (waits, owns) running none_left = (
  run_returns ∷ [],
  record s { stopped = true },
  rw (running, owns, waits, none_left) refl,
  refl,
  refl,
  omega arith,
)
drain (suc n) s (waits, owns) running left =
    let (es, s', ran, stopped, other, few) =
      drain n (record s { pending = s.pending - 1 }) (waits, owns) running (omega (arith, left)) in
    (
      end_operation ∷ es,
      s',
      rw (step-end_operation s n running left) ran,
      stopped,
      other,
      omega (arith, few),
    )

-- Whatever has happened since the constructor, the thread of the event loop can be joined without a
-- further signal exactly if the signal has come, and then after at most one event more than operations
-- are pending: the destructor alone does not end it.
pub run_events_iff_signal :
    (es : List Event) (s : IoService)
    → run_events es io_service ≡ some s
    → (has_signal es ≡ true) ↔ (
        (rest : List Event) × (s' : IoService) × (run_events rest s ≡ some s')
        × (s'.stopped ≡ true)
        × (has_signal rest ≡ false)
        × (length rest ≤ suc s.pending))
unfolding run_events
run_events_iff_signal es s h = (
  λ came. elim (Bool-cases s.stopped) [
    | inl stopped ↦ ([], s, refl, stopped, refl, omega arith)
    | inr running ↦ drain s.pending s (after_signal es io_service s came h) running refl
  ],
  λ (rest, s', ran, stopped, other, _). elim (Bool-cases (has_signal es)) [
    | inl came ↦ came
    | inr silent ↦
        let waiting = run-IsWaiting es io_service s (refl, refl) silent h in
        let (_, running) = run-IsWaiting rest s s' waiting other ran in cc
  ],
)
