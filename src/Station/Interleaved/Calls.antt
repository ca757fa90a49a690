-- ===== src/Station/Interleaved/Calls.antt =====
-- One call on a queue that is a part of the world, by what it did to the messages that wait.
use rc_plane.Base.{
  ◌≡◌, ◌≢◌, refl, sym, ◌∙◌, ap, Bool, true, false, Option, none, some, List, [], ◌∷◌, ◌++◌, ◌>>=◌,
  inl, inr, some_pair, List-cases, Option-some, >>=-eq-some,
}
use rc_plane.Base.Stream.{Piece}
use rc_plane.Io.Telemetry.Queue.{MessageQueue, IsQueue}
use rc_plane.Io.Telemetry.Transmitter.{send}
use rc_plane.Io.Telemetry.Receiver.{receive, log_received}
use rc_plane.Io.Telemetry.Backlog.{part_queue}
use rc_plane.Io.Telemetry.Delivery.{send_returns}
use rc_plane.Io.Telemetry.Transport.OverQueues.{send-part_queue}

same_result :
    {M W : Type 0} (x m : M) (w w' : W)
    → ◌≡◌ {A = Option (Bool × M × W)} (some (true, x, w)) (some (true, m, w'))
    → (x ≡ m) × (w ≡ w')
same_result x m w w' e = (cc, cc)

module _ {W V Q M : Type 0} (part : W → V) (put : V → W → W) (queue : MessageQueue V Q M)
    (laws : IsQueue queue) (q : Q) where
  pub sent_in_part :
      (m : M) (handle : Option Q) (w w' : W)
      → handle ≡ some q
      → send (part_queue part put queue) handle m w ≡ some (true, w')
      → (v : V) × (w' ≡ put v w) × (laws.contents q v ≡ laws.contents q (part w) ++ m ∷ [])
  sent_in_part m handle w w' opened called =
      let e = sym (ap (λ o. send (part_queue part put queue) o m w) opened) ∙ called in
      let (v, cases) = send_returns queue laws q m (part w) in
      elim cases [
        | inl (h, c) ↦
            let (_, f) =
              some_pair true true w' (put v w)
                (sym e ∙ send-part_queue part put queue q m w true v h) in
            (v, f, c)
        | inr (h, c) ↦
            let f = sym e ∙ send-part_queue part put queue q m w false v h in
            let (g, _) = some_pair true false w' (put v w) f in cc
      ]

  first_received :
      {F : Type 0} (x m : M) (rest : List M) (print : M → Option (List (Piece F))) (old : M)
      (w w' : W)
      → laws.contents q (part w) ≡ x ∷ rest
      → (receive (part_queue part put queue) (some q) old w >>= log_received print)
        ≡ some (true, m, w')
      → (v : V) × (w' ≡ put v w) × (laws.contents q (part w) ≡ m ∷ laws.contents q v)
  unfolding receive log_received
  first_received x m rest print old w w' c e =
      let (v, h, k) = laws.receive-contents q x rest (part w) c in
      let here : receive (part_queue part put queue) (some q) old w ≡ some (true, x, put v w) =
        rw h refl in
      let printed = sym (ap (λ o. o >>= log_received print) here) ∙ e in
      let (pieces, _, last) = >>=-eq-some (print x) _ printed in
      let (same, after) = same_result x m (put v w) w' last in (v, sym after, c ∙ rw (same, k) refl)

  pub received_in_part :
      {F : Type 0} (m : M) (print : M → Option (List (Piece F))) (old : M) (handle : Option Q)
      (w w' : W)
      → handle ≡ some q
      → laws.contents q (part w) ≢ []
      → (receive (part_queue part put queue) handle old w >>= log_received print)
        ≡ some (true, m, w')
      → (v : V) × (w' ≡ put v w) × (laws.contents q (part w) ≡ m ∷ laws.contents q v)
  received_in_part m print old handle w w' opened n called =
      let e =
        sym (ap (λ o. receive (part_queue part put queue) o old w >>= log_received print) opened)
        ∙ called in
      elim (List-cases (laws.contents q (part w))) [
        | inl f ↦ absurd (n f)
        | inr (x, rest, f) ↦ first_received x m rest print old w w' f e
      ]

  pub first_returned :
      {F : Type 0} (x : M) (rest : List M) (print : M → Option (List (Piece F))) (old : M)
      (handle : Option Q) (w : W)
      → handle ≡ some q
      → laws.contents q (part w) ≡ x ∷ rest
      → print x ≢ none
      → (w' : W) × ((receive (part_queue part put queue) handle old w >>= log_received print)
          ≡ some (true, x, w'))
  unfolding receive log_received
  first_returned x rest print old handle w opened c shown =
      let (v, h, k) = laws.receive-contents q x rest (part w) c in
      let (pieces, printed) = Option-some shown in (put v w, rw (opened, h, printed) refl)
