-- ===== src/Link/Lag/Exchanges.antt =====
-- The lag stays: any number of exchanges over a line on which packets and answers wait.
use rc_plane.Base.{
  ℕ, zero, suc, ◌≡◌, refl, sym, ap, ◌∙◌, some, List, [], ◌∷◌, ◌++◌, String, length, >>=-eq-some,
  carry_triple,
}
use mathlib.Core.List.{map, append_assoc, append-nil}
use rc_plane.Double.{Double}
use rc_plane.Common.Packet.{ControlSurfacePacket}
use rc_plane.Autopilot.Manager.{AutopilotManager}
use rc_plane.Autopilot.Manager.Flight.{fly}
use rc_plane.Io.Telemetry.Queue.{Queues}
use rc_plane.Mcu.{Board, Sketch}
use rc_plane.Mcu.Sticks.{IsBoard}
use rc_plane.Som.Controller.{SomController}
use rc_plane.Link.{Link, exchange, exchanges}
use rc_plane.Link.Lag.{Sent, sent_packets, got_packet, IsBehind}
use rc_plane.Link.Lag.Shift.{exchange-IsShifted}

module _ {E Q F : Type 0} {text : String → List ℕ} ⦃d : Double F⦄ where
  -- The manager has flown what waited and then what was sent, but for the end that waits now. The
  -- sketch got what waited and then the manager's answers, but for the end that waits now. As much
  -- waits as before.
  abbrev pub IsDelayed :
      List Sent
      → List ControlSurfacePacket
      → AutopilotManager F
      → ℕ
      → List Sketch
      → SomController Q F
      → Link E text
      → Type 0
  IsDelayed ps bs m n log c w =
      (flown : List Sent) × (outs : List ControlSurfacePacket) × (ps' : List Sent) × (bs' : List
        ControlSurfacePacket)
      × (ps ++ map sent_packets log ≡ flown ++ ps')
      × (fly m flown ≡ some (outs, c.autopilot_manager))
      × (bs ++ outs ≡ map got_packet log ++ bs')
      × (length log ≡ n)
      × (length ps' ≡ length ps)
      × (length bs' ≡ length bs)
      × IsBehind ps' bs' c w

-- What is put behind a queue comes after what was at its front.
behind_front {ℓ} :
    {A : Type ℓ} (xs ys zs us vs : List A) (x y : A)
    → xs ++ x ∷ [] ≡ y ∷ ys
    → ys ++ zs ≡ us ++ vs
    → xs ++ x ∷ zs ≡ (y ∷ us) ++ vs
behind_front xs ys zs us vs x y front rest =
    sym (append_assoc xs (x ∷ []) zs) ∙ (ap (λ l. l ++ zs) front ∙ ap (◌∷◌ y) rest)

module _ {E Q F : Type 0} ⦃d : Double F⦄ (text : String → List ℕ) (board : Board E)
    (laws : IsBoard board) (qs : Queues E Q F) where
  -- While packets and answers that are values of their types wait on the line, nothing is buffered, the
  -- queues are open and the elevator limit is a value of its type: over any number of exchanges that
  -- return, on a board that meets its laws, the manager has flown the waiting packets and then those
  -- that the sketch sent, the sketch got the waiting answers and then the manager's, in order, and as
  -- many packets and answers wait at the end as at the start.
  pub exchanges-IsDelayed :
      (n : ℕ) (ps : List Sent) (bs : List ControlSurfacePacket) (s : Sketch)
      (c c' : SomController Q F) (w w' : Link E text) (log : List Sketch)
      → IsBehind ps bs c w
      → exchanges text board qs n s c w ≡ some (log, c', w')
      → IsDelayed ps bs c.autopilot_manager n log c' w'
  unfolding exchanges fly
  exchanges-IsDelayed zero ps bs s c c' w w' log behind h =
      carry_triple (IsDelayed ps bs c.autopilot_manager zero) [] log c c' w w' h
        ([], [], ps, bs, append-nil ps, refl, append-nil bs, refl, refl, refl, behind)
  exchanges-IsDelayed (suc n) ps bs s c c' w w' log behind h =
      let ((s₁, c₁, w₁), e, h₁) = >>=-eq-some (exchange text board qs s c w) _ h in
      let ((log₁, c₂, w₂), run, done) = >>=-eq-some (exchanges text board qs n s₁ c₁ w₁) _ h₁ in
      let (p, ps₁, out, bs₁, front, step, next, behind₁, count₁, waiting₁) =
        exchange-IsShifted text board laws qs ps bs s s₁ c c₁ w w₁ behind e in
      let (flown, outs, ps', bs', fed, flew, got, rounds, count, waiting, behind') =
        exchanges-IsDelayed n ps₁ bs₁ s₁ c₁ c₂ w₁ w₂ log₁ behind₁ run in
      carry_triple (IsDelayed ps bs c.autopilot_manager (suc n)) (s₁ ∷ log₁) log c₂ c' w₂ w' done (
        p ∷ flown,
        out ∷ outs,
        ps',
        bs',
        behind_front ps ps₁ (map sent_packets log₁) flown ps' (sent_packets s₁) p front fed,
        rw (step, flew) refl,
        behind_front bs bs₁ outs (map got_packet log₁) bs' out (got_packet s₁) next got,
        ap suc rounds,
        count ∙ count₁,
        waiting ∙ waiting₁,
        behind',
      )
