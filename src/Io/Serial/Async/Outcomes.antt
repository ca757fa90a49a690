-- ===== src/Io/Serial/Async/Outcomes.antt =====
-- What is left when both threads are done, over all interleavings.
use rc_plane.Base.{
  ℕ, ◌+◌, ◌≤◌, ◌≡◌, refl, sym, ◌∙◌, ◌⊎◌, inl, inr, true, false, Option, none, some, List, [], ◌∷◌,
  ◌++◌, length, drop, length-append, arith,
}
use mathlib.Core.List.{append-nil, append_assoc}
use mathlib.Core.Bool.{true≢false}
use mathlib.Core.Option.{some-injective}
use rc_plane.Common.Packet.Bytes.{Packet}
use rc_plane.Io.Serial.{
  SerialPort, SerialController, ReadResult, ReadOutcome, received, stalled, read_result,
  finish_read, take_packet,
}
use rc_plane.Io.Serial.Async.{
  Operation, reading, queued, finished, Caller, waiting, cancelling, returned, ReadCall,
  is_returned, cancelled, result_of, Step, arrive, complete, break_off, drop_error, set_value,
  set_late, get, time_out, cancel, cancel_throws, Reach, start, later,
}

-- The bytes of an outcome are as many as the port promises for a size.
abbrev pub IsTransfer : ℕ → ReadOutcome → Type 0
IsTransfer size (received bytes) = length bytes ≡ size
IsTransfer size (stalled bytes) = length bytes ≤ size

module _ {P : Type 0} ⦃l : Packet P⦄ where
  -- The bytes that came so far are behind those that were there, and the promise is untouched.
  abbrev pub IsFilling : List ℕ → List ℕ → ReadCall P → Type 0
  IsFilling old bytes s = (s.buffer ≡ old ++ bytes) × (s.promise ≡ none) × (s.dangling ≡ false)

  -- The handler took the packet from the front, before the end of the call or after it.
  abbrev pub IsTaken : List ℕ → List ℕ → ReadCall P → Type 0
  IsTaken old bytes s =
      (p : P) × (length bytes ≡ l.size)
      × (l.of_bytes (old ++ bytes) ≡ some p)
      × (s.buffer ≡ drop l.size (old ++ bytes))
      × (((s.promise ≡ some (result_of p)) × (s.dangling ≡ false))
          ⊎ ((s.promise ≡ none) × (is_returned s.caller ≡ true)))

  -- The stage of the operation fixes what the buffer and the promise hold.
  abbrev pub IsStage : Operation → List ℕ → List ℕ → ReadCall P → Type 0
  IsStage (reading k) old bytes s = (length bytes + k ≡ l.size) × IsFilling old bytes s
  IsStage (queued true) old bytes s = (length bytes ≡ l.size) × IsFilling old bytes s
  IsStage (queued false) old bytes s = (length bytes ≤ l.size) × IsFilling old bytes s
  IsStage finished old bytes s =
      ((length bytes ≤ l.size) × IsFilling old bytes s) ⊎ IsTaken old bytes s

  -- A caller who has returned has the value of the promise, or the default result.
  abbrev pub IsAnswer : Caller P → Option (ReadResult P) → Type 0
  IsAnswer (returned r) promise = (promise ≡ some r) ⊎ (r ≡ read_result)
  IsAnswer waiting promise = Unit
  IsAnswer cancelling promise = Unit

  abbrev pub IsCoherent : List ℕ → ReadCall P → Type 0
  IsCoherent old s =
      (bytes : List ℕ) × IsStage s.operation old bytes s × IsAnswer s.caller s.promise

  IsAnswer-open :
      (c : Caller P) (promise : Option (ReadResult P)) → is_returned c ≡ false → IsAnswer c promise
  IsAnswer-open waiting promise h = tt
  IsAnswer-open cancelling promise h = tt
  IsAnswer-open (returned r) promise h = cc

  -- The stage does not depend on a caller who has not returned.
  IsStage-caller :
      (o : Operation) (old bytes : List ℕ) (s : ReadCall P) (c : Caller P)
      → is_returned s.caller ≡ false
      → IsStage o old bytes s
      → IsStage o old bytes (record s { caller = c })
  IsStage-caller (reading k) old bytes s c h e = e
  IsStage-caller (queued true) old bytes s c h e = e
  IsStage-caller (queued false) old bytes s c h e = e
  IsStage-caller finished old bytes s c h (inl e) = inl e
  IsStage-caller finished old bytes s c h (inr (p, whole, cast, rest, inl kept)) =
      inr (p, whole, cast, rest, inl kept)
  IsStage-caller finished old bytes s c h (inr (p, whole, cast, rest, inr (_, closed))) =
      absurd (true≢false (sym closed ∙ h))

  IsStage-cancelled :
      (o : Operation) (old bytes : List ℕ) (s : ReadCall P)
      → IsStage o old bytes s
      → IsStage (cancelled o) old bytes (record s { operation = cancelled o })
  IsStage-cancelled (reading k) old bytes s (count, fill) = (omega arith, fill)
  IsStage-cancelled (queued true) old bytes s e = e
  IsStage-cancelled (queued false) old bytes s e = e
  IsStage-cancelled finished old bytes s e = e

  Step-IsCoherent :
      (old : List ℕ) (s t : ReadCall P) → IsCoherent old s → Step s t → IsCoherent old t
  Step-IsCoherent old s t (bytes, stage, answer) (arrive b k e) =
      let (count, (same, empty, unused)) = rw e at stage in
      (
        bytes ++ b ∷ [],
        (
          omega (arith, length-append bytes (b ∷ [])),
          (rw same (append_assoc old bytes (b ∷ [])), empty, unused),
        ),
        answer,
      )
  Step-IsCoherent old s t (bytes, stage, answer) (complete e) =
      let (count, fill) = rw e at stage in (bytes, (omega arith, fill), answer)
  Step-IsCoherent old s t (bytes, stage, answer) (break_off k e) =
      let (count, fill) = rw e at stage in (bytes, (omega arith, fill), answer)
  Step-IsCoherent old s t (bytes, stage, answer) (drop_error e) =
      let fill = rw e at stage in (bytes, inl fill, answer)
  Step-IsCoherent old s t (bytes, stage, answer) (set_value p e cast h) =
      let (count, (same, empty, unused)) = rw e at stage in
      (
        bytes,
        inr (p, count, rw (← same) cast, rw same refl, inl (refl, unused)),
        IsAnswer-open s.caller (some (result_of p)) h,
      )
  Step-IsCoherent old s t (bytes, stage, answer) (set_late p e cast h) =
      let (count, (same, empty, unused)) = rw e at stage in
      (bytes, inr (p, count, rw (← same) cast, rw same refl, inr (empty, h)), answer)
  Step-IsCoherent old s t (bytes, stage, answer) (get r e h) =
      (bytes, IsStage-caller s.operation old bytes s (returned r) (rw e refl) stage, inl h)
  Step-IsCoherent old s t (bytes, stage, answer) (time_out e h) =
      (bytes, IsStage-caller s.operation old bytes s cancelling (rw e refl) stage, tt)
  Step-IsCoherent old s t (bytes, stage, answer) (cancel e) = (
    bytes,
    IsStage-caller (cancelled s.operation) old bytes
        (record s { operation = cancelled s.operation }) (returned read_result) (rw e refl)
        (IsStage-cancelled s.operation old bytes s stage),
    inr refl,
  )
  Step-IsCoherent old s t (bytes, stage, answer) (cancel_throws e) = (
    bytes,
    IsStage-caller s.operation old bytes s (returned read_result) (rw e refl) stage,
    inr refl,
  )

  pub Reach-IsCoherent : (old : List ℕ) (n : ℕ) (s : ReadCall P) → Reach old n s → IsCoherent old s
  Reach-IsCoherent old n s start = ([], (omega arith, (sym (append-nil old), refl, refl)), tt)
  Reach-IsCoherent old n s (later {s = u} before step) =
      Step-IsCoherent old u s (Reach-IsCoherent old _ u before) step

  -- The packet came in whole and is gone from the buffer, but the caller got the default result.
  abbrev pub IsLost : SerialController → ReadCall P → ReadResult P → Type 0
  IsLost c s r =
      (p : P) × (bytes : List ℕ) × (length bytes ≡ l.size)
      × (l.of_bytes (c.stream_buffer ++ bytes) ≡ some p)
      × (s.buffer ≡ drop l.size (c.stream_buffer ++ bytes))
      × (r ≡ read_result)

  module _ {W : Type 0} ⦃port : SerialPort W⦄ where
    -- What `finish_read` makes of an outcome of the port.
    abbrev pub IsFinished : SerialController → ReadCall P → ReadResult P → W → Type 0
    IsFinished c s r w =
        (o : ReadOutcome) × IsTransfer l.size o
        × (w' : W) × (finish_read c o w ≡ some (r, record c { stream_buffer = s.buffer }, w'))
        × (s.dangling ≡ false)

    taken_end :
        (c : SerialController) (w : W) (s : ReadCall P) (r : ReadResult P) (bytes : List ℕ)
        → IsTaken c.stream_buffer bytes s
        → (s.promise ≡ some r) ⊎ (r ≡ read_result)
        → IsFinished c s r w ⊎ IsLost c s r
    unfolding finish_read take_packet
    taken_end c w s r bytes (p, whole, cast, rest, kept) (inr e) =
        inr (p, bytes, whole, cast, rest, e)
    taken_end c w s r bytes (p, whole, cast, rest, inl (full, unused)) (inl e) =
        let same : r ≡ result_of p = some-injective _ _ (sym e ∙ full) in
        inl (received bytes, whole, w, rw (cast, same, rest) refl, unused)
    taken_end c w s r bytes (p, whole, cast, rest, inr (empty, _)) (inl e) = cc

    filled_end :
        (c : SerialController) (w : W) (s : ReadCall P) (r : ReadResult P) (bytes : List ℕ)
        → length bytes ≤ l.size
        → IsFilling c.stream_buffer bytes s
        → (s.promise ≡ some r) ⊎ (r ≡ read_result)
        → IsFinished c s r w
    unfolding finish_read
    filled_end c w s r bytes short (same, empty, unused) (inl e) = cc
    filled_end c w s r bytes short (same, empty, unused) (inr e) =
        (stalled bytes, short, port.cancel w, rw (e, same) refl, unused)

    -- Over all interleavings of the two threads, a call that has returned and whose handler has run has
    -- the result and the buffer that `finish_read` gives for an outcome of the port, and then
    -- the promise was not used after its end. The one exception is a packet that came in whole, and
    -- is gone from the buffer, while the caller timed out and got the default result.
    pub ended_read :
        (c : SerialController) (w : W) (n : ℕ) (s : ReadCall P) (r : ReadResult P)
        → Reach c.stream_buffer n s
        → s.operation ≡ finished
        → s.caller ≡ returned r
        → IsFinished c s r w ⊎ IsLost c s r
    ended_read c w n s r run e₁ e₂ =
        let (bytes, stage, answer) = Reach-IsCoherent c.stream_buffer n s run in
        let answered : (s.promise ≡ some r) ⊎ (r ≡ read_result) = rw e₂ at answer in
        let ended : ((length bytes ≤ l.size) × IsFilling c.stream_buffer bytes s)
            ⊎ IsTaken c.stream_buffer bytes s =
          rw e₁ at stage in
        elim ended [
          | inl (short, filling) ↦ inl (filled_end c w s r bytes short filling answered)
          | inr taken ↦ taken_end c w s r bytes taken answered
        ]
