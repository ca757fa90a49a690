-- ===== src/Io/Serial/Async/Bounds.antt =====
-- A call ends: each step uses up some of what is left to do, and until both threads are done there
-- is a step.
use rc_plane.Base.{
  ℕ, ◌+◌, ◌≤◌, ◌≡◌, refl, ◌⊎◌, inl, inr, Bool, true, false, List, length-append, arith,
  Option-cases, Bool-cases,
}
use rc_plane.Common.Packet.Bytes.{Packet}
use rc_plane.Common.Packet.RoundTrip.{IsLayout}
use rc_plane.Io.Serial.Async.{
  Operation, reading, queued, finished, Caller, waiting, cancelling, returned, ReadCall,
  is_returned, cancelled, Step, arrive, complete, break_off, drop_error, set_value, set_late, get,
  time_out, cancel, cancel_throws, Reach, start, later,
}
use rc_plane.Io.Serial.Async.Outcomes.{IsStage, Reach-IsCoherent}

abbrev operation_weight : Operation → ℕ
operation_weight (reading k) = k + 2
operation_weight (queued _) = 1
operation_weight finished = 0

abbrev caller_weight : {P : Type 0} → Caller P → ℕ
caller_weight waiting = 2
caller_weight cancelling = 1
caller_weight (returned _) = 0

abbrev weight : {P : Type 0} → ReadCall P → ℕ
weight s = operation_weight s.operation + caller_weight s.caller

cancelled_weight : (o : Operation) → operation_weight (cancelled o) ≤ operation_weight o
cancelled_weight (reading k) = omega arith
cancelled_weight (queued b) = omega arith
cancelled_weight finished = omega arith

module _ {P : Type 0} ⦃l : Packet P⦄ where
  Step-weight : (s t : ReadCall P) → Step s t → weight t + 1 ≤ weight s
  Step-weight s t (arrive b k e) = rw e (omega arith)
  Step-weight s t (complete e) = rw e (omega arith)
  Step-weight s t (break_off k e) = rw e (omega arith)
  Step-weight s t (drop_error e) = rw e (omega arith)
  Step-weight s t (set_value p e _ _) = rw e (omega arith)
  Step-weight s t (set_late p e _ _) = rw e (omega arith)
  Step-weight s t (get r e _) = rw e (omega arith)
  Step-weight s t (time_out e _) = rw e (omega arith)
  Step-weight s t (cancel e) = rw e (omega (arith, cancelled_weight s.operation))
  Step-weight s t (cancel_throws e) = rw e (omega arith)

  Reach-weight : (old : List ℕ) (n : ℕ) (s : ReadCall P) → Reach old n s → n + weight s ≤ l.size + 4
  Reach-weight old n s start = omega arith
  Reach-weight old n s (later {s = u} before step) =
      omega (arith, Reach-weight old _ u before, Step-weight u s step)

  -- Both threads are done.
  abbrev pub IsEnded : ReadCall P → Type 0
  IsEnded s = (s.operation ≡ finished) × (is_returned s.caller ≡ true)

  module _ (IsValid : P → Type 0) (layout : IsLayout P IsValid) where
    handler-Step :
        (old bytes : List ℕ) (s : ReadCall P) (b : Bool)
        → s.operation ≡ queued b
        → IsStage (queued b) old bytes s
        → (t : ReadCall P) × Step s t
    handler-Step old bytes s false e stage = (_, drop_error e)
    handler-Step old bytes s true e (whole, (same, _, _)) =
        let (p, cast) =
          layout.of_bytes_total s.buffer
            (rw same (omega (arith, whole, length-append old bytes))) in
        elim (Bool-cases (is_returned s.caller)) [
          | inl closed ↦ (_, set_late p e cast closed)
          | inr open_call ↦ (_, set_value p e cast open_call)
        ]

    operation-Step :
        (old bytes : List ℕ) (s : ReadCall P) (o : Operation)
        → s.operation ≡ o
        → IsStage o old bytes s
        → (o ≡ finished) ⊎ ((t : ReadCall P) × Step s t)
    operation-Step old bytes s (reading k) e stage = inr (_, break_off k e)
    operation-Step old bytes s (queued b) e stage = inr (handler-Step old bytes s b e stage)
    operation-Step old bytes s finished e stage = inl refl

    caller-Step :
        (s : ReadCall P) (c : Caller P)
        → s.caller ≡ c
        → (is_returned c ≡ true) ⊎ ((t : ReadCall P) × Step s t)
    caller-Step s waiting e = elim (Option-cases s.promise) [
      | inl empty ↦ inr (_, time_out e empty)
      | inr (r, full) ↦ inr (_, get r e full)
    ]
    caller-Step s cancelling e = inr (_, cancel e)
    caller-Step s (returned r) e = inl refl

    -- For a packet type that meets its laws, a call takes at most four steps more than the packet has bytes, in
    -- any interleaving, and it is never stuck: until it has returned and the handler has run,
    -- another step can be taken.
    pub call_ends :
        (old : List ℕ) (n : ℕ) (s : ReadCall P)
        → Reach old n s
        → (n ≤ l.size + 4) × (IsEnded s ⊎ ((t : ReadCall P) × Step s t))
    call_ends old n s run =
        let (bytes, stage, _) = Reach-IsCoherent old n s run in
        (
          omega (arith, Reach-weight old n s run),
          elim (operation-Step old bytes s s.operation refl stage) [
            | inr step ↦ inr step
            | inl done ↦ elim (caller-Step s s.caller refl) [
              | inr step ↦ inr step
              | inl closed ↦ inl (done, closed)
            ]
          ],
        )
