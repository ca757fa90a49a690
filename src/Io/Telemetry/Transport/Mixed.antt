-- ===== src/Io/Telemetry/Transport/Mixed.antt =====
-- Calls of both kinds through the interfaces of the telemetry, in any order.
use rc_plane.Base.{
  ◌≡◌, refl, sym, ◌∙◌, Option, some, List, [], ◌∷◌, ◌++◌, ◌>>=◌, carry_pair, if◌then◌else◌, inl,
  inr,
}
use mathlib.Core.List.{map, append-nil, append_assoc}
use rc_plane.Io.Telemetry.Message.{DebugMessage, AttitudeMessage}
use rc_plane.Io.Telemetry.Transport.{
  ITelemetryTransmitter, ITelemetryReceiver, InFlight, IsTransport,
}

-- A message of either kind.
pub data Message (F : Type 0) : Type 0 where
  debug : DebugMessage → Message F
  attitude : AttitudeMessage F → Message F

-- The messages of a list by kind, in order.
unfoldable pub sort_out : {F : Type 0} → List (Message F) → InFlight F
sort_out [] = record { debugs = []; attitudes = [] }
sort_out (debug m ∷ ms) = let rest = sort_out ms in record rest { debugs = m ∷ rest.debugs }
sort_out (attitude m ∷ ms) =
    let rest = sort_out ms in record rest { attitudes = m ∷ rest.attitudes }

unfoldable pub join : {F : Type 0} → InFlight F → InFlight F → InFlight F
join a b = record { debugs = a.debugs ++ b.debugs; attitudes = a.attitudes ++ b.attitudes }

module _ {T W F : Type 0} (transmitter : ITelemetryTransmitter T W F) where
  -- Sends each message, and keeps those for which the call returned true.
  unfoldable pub send_mixed : T → List (Message F) → W → Option (List (Message F) × W)
  send_mixed t [] w = some ([], w)
  send_mixed t (debug m ∷ ms) w = do
    (sent, w₁) ← transmitter.send_debug_message t m w
    (rest, w₂) ← send_mixed t ms w₁
    some (if sent then debug m ∷ rest else rest, w₂)
  send_mixed t (attitude m ∷ ms) w = do
    (sent, w₁) ← transmitter.send_attitude_message t m w
    (rest, w₂) ← send_mixed t ms w₁
    some (if sent then attitude m ∷ rest else rest, w₂)

module _ {R W F : Type 0} (receiver : ITelemetryReceiver R W F) where
  -- Receives into each message in turn, by its kind, and keeps those for which the call returned
  -- true.
  unfoldable pub receive_mixed : R → List (Message F) → W → Option (List (Message F) × W)
  receive_mixed r [] w = some ([], w)
  receive_mixed r (debug old ∷ olds) w = do
    (received, m, w₁) ← receiver.receive_debug_message r old w
    (rest, w₂) ← receive_mixed r olds w₁
    some (if received then debug m ∷ rest else rest, w₂)
  receive_mixed r (attitude old ∷ olds) w = do
    (received, m, w₁) ← receiver.receive_attitude_message r old w
    (rest, w₂) ← receive_mixed r olds w₁
    some (if received then attitude m ∷ rest else rest, w₂)

-- The call that a message belongs to.
pub data Kind : Type 0 where
  debug_kind attitude_kind : Kind

unfoldable pub kind : {F : Type 0} → Message F → Kind
kind (debug m) = debug_kind
kind (attitude m) = attitude_kind

join-sort_out : {F : Type 0} (a : InFlight F) → join a (sort_out []) ≡ a
unfolding join sort_out
join-sort_out a = rw (append-nil a.debugs, append-nil a.attitudes) refl

join_empty : {F : Type 0} (a : InFlight F) → join (sort_out []) a ≡ a
unfolding join sort_out
join_empty a = refl

join-debug :
    {F : Type 0} (a b : InFlight F) (m : DebugMessage) (rest : List (Message F))
    → b ≡ record a { debugs = a.debugs ++ m ∷ [] }
    → join b (sort_out rest) ≡ join a (sort_out (debug m ∷ rest))
unfolding join sort_out
join-debug a b m rest e = rw (e, append_assoc a.debugs (m ∷ []) (sort_out rest).debugs) refl

join-attitude :
    {F : Type 0} (a b : InFlight F) (m : AttitudeMessage F) (rest : List (Message F))
    → b ≡ record a { attitudes = a.attitudes ++ m ∷ [] }
    → join b (sort_out rest) ≡ join a (sort_out (attitude m ∷ rest))
unfolding join sort_out
join-attitude a b m rest e =
    rw (e, append_assoc a.attitudes (m ∷ []) (sort_out rest).attitudes) refl

module _ {T R W F : Type 0} (transmitter : ITelemetryTransmitter T W F)
    (receiver : ITelemetryReceiver R W F) (in_flight : W → InFlight F) (t : T) (r : R)
    (laws : IsTransport transmitter receiver in_flight t r) where
  -- Every call of `send_mixed` returns, and adds what it accepted to what is in flight.
  send_mixed_lem :
      (ms : List (Message F)) (w : W)
      → (sent : List (Message F)) × (w' : W) × (send_mixed transmitter t ms w ≡ some (sent, w'))
        × (in_flight w' ≡ join (in_flight w) (sort_out sent))
  unfolding send_mixed
  send_mixed_lem [] w = ([], w, refl, sym (join-sort_out (in_flight w)))
  send_mixed_lem (debug m ∷ ms) w =
      let (w₁, cases) = laws.send_debug_message-cases m w in
      let (rest, w₂, e, c) = send_mixed_lem ms w₁ in
      elim cases [
        | inl (h, k) ↦ (
          debug m ∷ rest,
          w₂,
          rw (h, e) refl,
          c ∙ join-debug (in_flight w) (in_flight w₁) m rest k,
        )
        | inr (h, k) ↦ (rest, w₂, rw (h, e) refl, c ∙ rw k refl)
      ]
  send_mixed_lem (attitude m ∷ ms) w =
      let (w₁, cases) = laws.send_attitude_message-cases m w in
      let (rest, w₂, e, c) = send_mixed_lem ms w₁ in
      elim cases [
        | inl (h, k) ↦ (
          attitude m ∷ rest,
          w₂,
          rw (h, e) refl,
          c ∙ join-attitude (in_flight w) (in_flight w₁) m rest k,
        )
        | inr (h, k) ↦ (rest, w₂, rw (h, e) refl, c ∙ rw k refl)
      ]

  receive_mixed_lem :
      (olds wanted : List (Message F)) (w : W)
      → in_flight w ≡ sort_out wanted
      → map kind olds ≡ map kind wanted
      → (w' : W) × (receive_mixed receiver r olds w ≡ some (wanted, w'))
        × (in_flight w' ≡ sort_out [])
  unfolding receive_mixed kind sort_out
  receive_mixed_lem [] [] w e k = (w, refl, e)
  receive_mixed_lem (debug old ∷ olds) (debug m ∷ wanted) w e k =
      let (w₁, h, c) =
        laws.receive_debug_message-first old m (sort_out wanted).debugs w (rw e refl) in
      let (w₂, h', c') = receive_mixed_lem olds wanted w₁ (c ∙ rw e refl) cc in
      (w₂, rw (h, h') refl, c')
  receive_mixed_lem (attitude old ∷ olds) (attitude m ∷ wanted) w e k =
      let (w₁, h, c) =
        laws.receive_attitude_message-first old m (sort_out wanted).attitudes w (rw e refl) in
      let (w₂, h', c') = receive_mixed_lem olds wanted w₁ (c ∙ rw e refl) cc in
      (w₂, rw (h, h') refl, c')
  receive_mixed_lem [] (_ ∷ _) w e k = cc
  receive_mixed_lem (_ ∷ _) [] w e k = cc
  receive_mixed_lem (debug _ ∷ _) (attitude _ ∷ _) w e k = cc
  receive_mixed_lem (attitude _ ∷ _) (debug _ ∷ _) w e k = cc

  -- If messages of both kinds were sent, in any order and while nothing was in flight, then calls that
  -- receive in any order of the kinds, as many of each kind as messages of it were accepted, return,
  -- get the accepted messages of each kind in their order, and leave nothing in flight.
  pub send_then_receive_mixed :
      (ms sent olds wanted : List (Message F)) (w w₁ : W)
      → in_flight w ≡ sort_out []
      → send_mixed transmitter t ms w ≡ some (sent, w₁)
      → sort_out wanted ≡ sort_out sent
      → map kind olds ≡ map kind wanted
      → (w₂ : W) × (receive_mixed receiver r olds w₁ ≡ some (wanted, w₂))
        × (in_flight w₂ ≡ sort_out [])
  send_then_receive_mixed ms sent olds wanted w w₁ e h s k =
      let (sent', w', h', c) = send_mixed_lem ms w in
      let joined =
        carry_pair (λ a b. in_flight b ≡ join (in_flight w) (sort_out a)) sent' sent w' w₁
          (sym h' ∙ h) c in
      receive_mixed_lem olds wanted w₁ (joined ∙ rw e (join_empty (sort_out sent)) ∙ sym s) k
