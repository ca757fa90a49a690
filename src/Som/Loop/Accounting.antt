-- ===== src/Som/Loop/Accounting.antt =====
-- The counters over the rounds of the main loop.
use rc_plane.Base.{
  ℕ, zero, suc, ◌≡◌, sym, ◌⊎◌, Bool, Bool-cases, true, false, none, some, ◌>>=◌, arith, >>=-eq-some,
  some_pair, inl, inr,
}
use rc_plane.Double.{Double}
use rc_plane.Io.Serial.{SerialPort}
use rc_plane.Io.Telemetry.Message.{DebugMessage}
use rc_plane.Io.Telemetry.Queue.{Queues}
use rc_plane.Som.Controller.{Host, SomController}
use rc_plane.Som.Cycle.{run_cycle}
use rc_plane.Som.Cycle.Counters.{IsCounted, run_cycle-IsCounted}
use rc_plane.Som.Loop.{run_rounds}

IsCounted-refl : (m : DebugMessage) → IsCounted 0 m m
IsCounted-refl m = record { loops = omega arith; reads = omega arith; writes = omega arith }

IsCounted-trans :
    (n : ℕ) (a b c : DebugMessage) → IsCounted 1 a b → IsCounted n b c → IsCounted (suc n) a c
IsCounted-trans n a b c h k = record {
  loops = omega (arith, h.loops, k.loops);
  reads = omega (arith, h.reads, k.reads);
  writes = omega (arith, h.writes, k.writes);
}

module _ {W Q F : Type 0} ⦃port : SerialPort W⦄ ⦃d : Double F⦄ (qs : Queues W Q F)
    (host : Host W) where
  pub round_cases :
      (n : ℕ) (c c' : SomController Q F) (w w' : W)
      → run_rounds qs host (suc n) c w ≡ some (c', w')
      → (c' ≡ c)
        ⊎ ((c₁ : SomController Q F) × (w₁ w₂ : W) × (run_cycle qs c w₁ ≡ some (c₁, w₂))
            × (run_rounds qs host n c₁ w₂ ≡ some (c', w')))
  unfolding run_rounds
  round_cases n c c' w w' h = round (host.is_stopped w).0 (host.is_stopped w).1 h
    where
      round :
          (stopped : Bool) (w₁ : W)
          → (elim stopped [
            | true ↦ some (c, w₁)
            | false ↦ run_cycle qs c w₁ >>= λ (c', w₂). run_rounds qs host n c' w₂
          ])
            ≡ some (c', w')
          → (c' ≡ c)
            ⊎ ((c₁ : SomController Q F) × (w₁ w₂ : W) × (run_cycle qs c w₁ ≡ some (c₁, w₂))
                × (run_rounds qs host n c₁ w₂ ≡ some (c', w')))
      round true w₁ h = inl (sym (some_pair c c' w₁ w' h).0)
      round false w₁ h =
          let ((c₁, w₂), e, rest) = >>=-eq-some (run_cycle qs c w₁) _ h in inr (c₁, w₁, w₂, e, rest)

  -- The rounds in which the loop reads, answers and sends: those before a stop of the event loop.
  unfoldable pub rounds_run : ℕ → SomController Q F → W → ℕ
  rounds_run zero c w = 0
  rounds_run (suc n) c w =
      let (stopped, w₁) = host.is_stopped w in
      elim stopped [
        | true ↦ 0
        | false ↦ elim (run_cycle qs c w₁) [ none ↦ 0 | some (c', w₂) ↦ suc (rounds_run n c' w₂) ]
      ]

  -- After at most n rounds that return, the counters account for exactly the rounds that were run: one
  -- loop, two reads and one write for each, all modulo 2^32.
  pub run_rounds-IsCounted :
      (n : ℕ) (c c' : SomController Q F) (w w' : W)
      → run_rounds qs host n c w ≡ some (c', w')
      → IsCounted (rounds_run n c w) c.debug_message c'.debug_message
  unfolding run_rounds rounds_run
  run_rounds-IsCounted zero c c' w w' h =
      rw (← (some_pair c c' w w' h).0) (IsCounted-refl c.debug_message)
  run_rounds-IsCounted (suc n) c c' w w' h = elim (Bool-cases (host.is_stopped w).0) [
    | inl stopped ↦
        let (same, _) = some_pair c c' (host.is_stopped w).1 w' (rw (run_rounds, stopped) at h) in
        rw (rounds_run, stopped, ← same) (IsCounted-refl c.debug_message)
    | inr going ↦
        let ((c₁, w₂), e, rest) =
          >>=-eq-some (run_cycle qs c (host.is_stopped w).1) _ (rw (run_rounds, going) at h) in
        rw (rounds_run, going, e)
          (IsCounted-trans (rounds_run n c₁ w₂) c.debug_message c₁.debug_message c'.debug_message
            (run_cycle-IsCounted qs c c₁ (host.is_stopped w).1 w₂ e)
            (run_rounds-IsCounted n c₁ c' w₂ w' rest))
  ]
