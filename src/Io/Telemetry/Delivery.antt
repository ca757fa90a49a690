-- ===== src/Io/Telemetry/Delivery.antt =====
-- The transmitter and the receiver over one set of queues.
use rc_plane.Base.{
  ℕ, ◌≡◌, refl, sym, ◌∙◌, true, false, Option, some, List, [], ◌∷◌, ◌++◌, zero, suc, length, ◌>>=◌,
  if◌then◌else◌, ◌⊎◌, inl, inr,
}
use mathlib.Core.List.{append-nil, append_assoc}
use rc_plane.Io.Telemetry.Queue.{MessageQueue, Sending, accepted, refused, thrown, IsQueue}
use rc_plane.Io.Telemetry.Transmitter.{send}
use rc_plane.Io.Telemetry.Receiver.{receive}

-- `send` of each message in turn, with the messages for which it returned true, and `receive` n times.
module _ {W Q M : Type 0} (queue : MessageQueue W Q M) where
  send_all : Option Q → List M → W → Option (List M × W)
  send_all q [] w = some ([], w)
  send_all q (m ∷ ms) w = do
    (sent, w₁) ← send queue q m w
    (rest, w₂) ← send_all q ms w₁
    some (if sent then m ∷ rest else rest, w₂)

  receive_all : Option Q → M → ℕ → W → Option (List M × W)
  receive_all q message zero w = some ([], w)
  receive_all q message (suc n) w = do
    (received, m, w₁) ← receive queue q message w
    (rest, w₂) ← receive_all q message n w₁
    some (if received then m ∷ rest else rest, w₂)

module _ {W Q M : Type 0} (queue : MessageQueue W Q M) (laws : IsQueue queue) where
  send_cases :
      (q : Q) (m : M) (w w' : W) (s : Sending)
      → queue.try_send q m w ≡ (s, w')
      → (send queue (some q) m w ≡ some (true, w'))
          × (laws.contents q w' ≡ laws.contents q w ++ m ∷ [])
        ⊎ (send queue (some q) m w ≡ some (false, w')) × (laws.contents q w' ≡ laws.contents q w)
  unfolding send
  send_cases q m w w' accepted e = inl (rw e refl, laws.contents-accepted q m w w' e)
  send_cases q m w w' refused e = inr (rw e refl, laws.contents-failed q m w w' refused e (λ p. cc))
  send_cases q m w w' thrown e = inr (rw e refl, laws.contents-failed q m w w' thrown e (λ p. cc))

  pub send_returns :
      (q : Q) (m : M) (w : W)
      → (w' : W) × ((send queue (some q) m w ≡ some (true, w'))
            × (laws.contents q w' ≡ laws.contents q w ++ m ∷ [])
          ⊎ (send queue (some q) m w ≡ some (false, w')) × (laws.contents q w' ≡ laws.contents q w))
  send_returns q m w = let (s, w') = queue.try_send q m w in (w', send_cases q m w w' s refl)

  send_all_lem :
      (q : Q) (ms : List M) (w : W)
      → (sent : List M) × (w' : W) × (send_all queue (some q) ms w ≡ some (sent, w'))
        × (laws.contents q w' ≡ laws.contents q w ++ sent)
  unfolding send_all
  send_all_lem q [] w = ([], w, refl, sym (append-nil (laws.contents q w)))
  send_all_lem q (m ∷ ms) w =
      let (s, w₁) = queue.try_send q m w in
      let (rest, w₂, e, c) = send_all_lem q ms w₁ in
      elim (send_cases q m w w₁ s refl) [
        | inl (h, k) ↦ (
          m ∷ rest,
          w₂,
          rw (h, e) refl,
          c ∙ rw k (append_assoc (laws.contents q w) (m ∷ []) rest),
        )
        | inr (h, k) ↦ (rest, w₂, rw (h, e) refl, c ∙ rw k refl)
      ]

  receive_all_lem :
      (q : Q) (message : M) (sent : List M) (w : W)
      → laws.contents q w ≡ sent
      → (w' : W) × (receive_all queue (some q) message (length sent) w ≡ some (sent, w'))
  unfolding receive_all receive
  receive_all_lem q message [] w e = (w, refl)
  receive_all_lem q message (m ∷ sent) w e =
      let (w₁, h, c) = laws.receive-contents q m sent w e in
      let (w₂, k) = receive_all_lem q message sent w₁ c in (w₂, rw (h, k) refl)

  -- Any messages sent to an empty open queue: every call of `send` returns, and as many calls of
  -- `receive` as calls of `send` that returned true give the messages of those, in their order.
  send_then_receive :
      (q : Q) (message : M) (ms : List M) (w : W)
      → laws.contents q w ≡ []
      → (sent : List M) × (w₁ w₂ : W) × (send_all queue (some q) ms w ≡ some (sent, w₁))
        × (receive_all queue (some q) message (length sent) w₁ ≡ some (sent, w₂))
  send_then_receive q message ms w e =
      let (sent, w₁, h, c) = send_all_lem q ms w in
      let (w₂, k) = receive_all_lem q message sent w₁ (c ∙ rw e refl) in (sent, w₁, w₂, h, k)
