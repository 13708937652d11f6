-- ===== src/Client/Conversation/Routing.antt =====
-- Which way an envelope goes.
use quantum_bunker.Base.{
  ◌<◌, String, ◌≡◌, ◌⊎◌, inl, inr, refl, ap, ◌∙◌, arith, Bool, true, false, List, [], ◌∷◌, All,
  length, Bool-cases, if_both,
}
use quantum_bunker.Server.Events.{RelayEnvelope}
use quantum_bunker.Client.Conversation.{
  Chat, Links, Outgoing, direct, relayed, others_of, send_raw, send_while, send_each,
  should_use_p2p, dispatch, dispatch_direct,
}

-- One copy for each peer, newest first.
abbrev pub directs : RelayEnvelope → List String → List Outgoing → List Outgoing
directs env [] out = out
directs env (id ∷ ids) out = directs env ids (direct id env ∷ out)

abbrev pub AllSend : Links → List String → Type 0
AllSend links ids = All (λ id. links.sends_direct id ≡ true) ids

-- The envelope was handed to the relay, or every other peer has taken it.
abbrev pub Reached : Links → RelayEnvelope → (st : Chat) → List Outgoing → Type 0
Reached links env st out =
    ((rest : List Outgoing) × (out ≡ relayed env ∷ rest))
    ⊎ ((0 < length (others_of st))
        × AllSend links (others_of st)
        × (out ≡ directs env (others_of st) st.out))

send_while-sent :
    (links : Links) (env : RelayEnvelope) (ids : List String) (st : Chat)
    → (send_while links env ids st).0 ≡ true
    → AllSend links ids × ((send_while links env ids st).1.out ≡ directs env ids st.out)
unfolding send_while
send_while-sent links env [] st h = (tt, refl)
send_while-sent links env (id ∷ ids) st h = elim (Bool-cases (links.sends_direct id)) [
  | inl sends ↦
      let st' = record st { out = direct id env ∷ st.out } in
      let (all, same) = send_while-sent links env ids st' (ground (arith, h, sends)) in
      ((sends, all), ground (arith, sends, same))
  | inr refuses ↦ absurd (ground (arith, h, refuses))
]

-- While the socket is open, an envelope that is dispatched is handed to the relay, or there are other
-- peers and each of them has taken its copy over a direct link.
pub dispatch-Reached :
    (links : Links) (env : RelayEnvelope) (st : Chat)
    → links.socket_open ≡ true
    → Reached links env st (dispatch links env st).out
unfolding dispatch send_raw
dispatch-Reached links env st opened = elim (Bool-cases (should_use_p2p links (others_of st))) [
  | inr no_link ↦ inl (st.out, ground (arith, opened, no_link))
  | inl linked ↦ elim (Bool-cases (send_while links env (others_of st) st).0) [
    | inr refused ↦
        inl
          ((send_while links env (others_of st) st).1.out, ground (arith, opened, linked, refused))
    | inl taken ↦
        let (all, same) = send_while-sent links env (others_of st) st taken in
        inr (ground (arith, linked), all, ground (arith, linked, taken, same))
  ]
]

-- What was handed to the relay.
unfoldable pub relays : List Outgoing → List RelayEnvelope
relays [] = []
relays (direct id env ∷ out) = relays out
relays (relayed env ∷ out) = env ∷ relays out

send_each-out :
    (links : Links) (env : RelayEnvelope) (ids : List String) (st : Chat)
    → (send_each links env ids st).1.out ≡ directs env ids st.out
unfolding send_each
send_each-out links env [] st = refl
send_each-out links env (id ∷ ids) st =
    let st' = record st { out = direct id env ∷ st.out } in
    let rest = send_each-out links env ids st' in
    if_both (λ (sent : Bool × Chat). sent.1.out ≡ directs env ids st'.out) (links.sends_direct id)
      rest rest

relays-directs :
    (env : RelayEnvelope) (ids : List String) (out : List Outgoing)
    → relays (directs env ids out) ≡ relays out
unfolding relays
relays-directs env [] out = refl
relays-directs env (id ∷ ids) out = relays-directs env ids (direct id env ∷ out)

send_each-cases :
    (links : Links) (env : RelayEnvelope) (ids : List String) (st : Chat)
    → ((send_each links env ids st).0 ≡ false)
      ⊎ (((send_each links env ids st).0 ≡ true) × AllSend links ids)
unfolding send_each
send_each-cases links env [] st = inr (refl, tt)
send_each-cases links env (id ∷ ids) st = elim (Bool-cases (links.sends_direct id)) [
  | inr refuses ↦ inl (ground (arith, refuses))
  | inl sends ↦ elim (send_each-cases links env ids (record st { out = direct id env ∷ st.out })) [
    | inl failed ↦ inl (ground (arith, sends, failed))
    | inr (ok, all) ↦ inr (ground (arith, sends, ok), (sends, all))
  ]
]

-- What a direct dispatch may come to: nothing is sent, or every other peer is sent a copy, and the
-- answer is `true` only where each of them has taken it.
abbrev pub WentDirect : Links → RelayEnvelope → (st : Chat) → Bool × Chat → Type 0
WentDirect links env st (ok, st') =
    ((should_use_p2p links (others_of st) ≡ false) × (ok ≡ false) × (st' ≡ st))
    ⊎ ((0 < length (others_of st))
        × (st'.out ≡ directs env (others_of st) st.out)
        × ((ok ≡ false) ⊎ ((ok ≡ true) × AllSend links (others_of st))))

pub dispatch_direct_private :
    (links : Links) (env : RelayEnvelope) (st : Chat)
    → (relays (dispatch_direct links env st).1.out ≡ relays st.out)
      × WentDirect links env st (dispatch_direct links env st)
unfolding dispatch_direct
dispatch_direct_private links env st =
    let same = send_each-out links env (others_of st) st in
    let private = ap relays same ∙ relays-directs env (others_of st) st.out in
    elim (Bool-cases (should_use_p2p links (others_of st))) [
      | inr no_link ↦ rw no_link (refl, inl (refl, refl, refl))
      | inl linked ↦
          let some_peer : 0 < length (others_of st) = ground (arith, linked) in
          rw linked (private, inr (some_peer, same, send_each-cases links env (others_of st) st))
    ]
