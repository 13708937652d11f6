-- ===== src/Server/Transport/Senders.antt =====
-- ws.transport.ts: whose envelopes are relayed.
use quantum_bunker.Base.{
  ℕ, String, true, not, ◌||◌, Option, none, some, ◌≡◌, refl, ap, arith, ◌⊎◌, inl, inr, Bool-cases,
  Option-cases, string_eq, ◌==◌,
}
use quantum_bunker.Server.Session.{Session, has_slot}
use quantum_bunker.Server.Events.{RelayEnvelope}
use quantum_bunker.Server.Schemas.{is_envelope}
use quantum_bunker.Server.Transport.{Net, WsState, Client}
use quantum_bunker.Server.Transport.Host.{current_object}
use quantum_bunker.Server.Transport.Messages.{
  Incoming, join, host_action, ping, frame, malformed, relay_frame, relay_as, relay_bound, limited,
  on_relay, check_message_limit, not_authorized, rate_limited,
}

-- The envelope `e` is in the message, well formed, and names as its sender the peer of the socket and
-- as its session the session of the socket, in which that peer has a slot.
abbrev pub Speaks : Net → Client → Incoming → WsState → Type 0
Speaks net c inc st =
    (e : RelayEnvelope) × (inc ≡ frame (some e))
    × (is_envelope net.is_uuid e ≡ true)
    × (c.peer_id ≡ some e.from)
    × (r : ℕ) × (o : Session) × (current_object c st ≡ some (r, o))
    × (o.id ≡ e.session_id)
    × (has_slot e.from o.peers ≡ true)

relay_frame_sender :
    (net : Net) (ws : ℕ) (sid pid : String) (f : Option RelayEnvelope) (st : WsState)
    → ((relay_frame net ws sid pid f st).relay ≡ st.relay)
      ⊎ ((e : RelayEnvelope) × (f ≡ some e)
          × (is_envelope net.is_uuid e ≡ true)
          × (e.from ≡ pid)
          × (e.session_id ≡ sid))
unfolding relay_frame
relay_frame_sender net ws sid pid none st = inl refl
relay_frame_sender net ws sid pid (some e) st = elim (Bool-cases (is_envelope net.is_uuid e)) [
  | inr bad ↦ rw (bad, relay_frame) (inl refl)
  | inl good ↦ elim (Bool-cases (not (e.from == pid) || not (e.session_id == sid))) [
    | inl forged ↦ rw (good, relay_frame, forged) (inl refl)
    | inr own ↦ inr (e, refl, good, ground arith, ground arith)
  ]
]

relay_as_sender :
    (net : Net) (ws : ℕ) (o : Session) (pid : String) (inc : Incoming) (st : WsState)
    → ((relay_as net ws o pid inc st).relay ≡ st.relay)
      ⊎ ((e : RelayEnvelope) × (inc ≡ frame (some e))
          × (is_envelope net.is_uuid e ≡ true)
          × (e.from ≡ pid)
          × (e.session_id ≡ o.id))
unfolding relay_as not_authorized
relay_as_sender net ws o pid (ping nonce) st = inl refl
relay_as_sender net ws o pid (join raw) st = inl refl
relay_as_sender net ws o pid (host_action a t) st = inl refl
relay_as_sender net ws o pid malformed st = inl refl
relay_as_sender net ws o pid (frame f) st = elim (relay_frame_sender net ws o.id pid f st) [
  | inl same ↦ inl same
  | inr (e, is, good, own, here) ↦ inr (e, ap frame is, good, own, here)
]

relay_bound_sender :
    (net : Net) (ws : ℕ) (c : Client) (pid : String) (inc : Incoming) (st : WsState)
    → c.peer_id ≡ some pid
    → ((relay_bound net ws c pid inc st).relay ≡ st.relay) ⊎ Speaks net c inc st
unfolding relay_bound not_authorized
relay_bound_sender net ws c pid inc st bound = elim (Option-cases (current_object c st)) [
  | inl absent ↦ rw (absent, relay_bound) (inl refl)
  | inr ((r, o), found) ↦ elim (Bool-cases (has_slot pid o.peers)) [
    | inr outside ↦ rw (found, relay_bound, outside) (inl refl)
    | inl member ↦ elim (relay_as_sender net ws o pid inc st) [
      | inl same ↦ rw (found, relay_bound, member) (inl same)
      | inr (e, is, good, own, here) ↦
          inr (e, is, good, rw own bound, r, o, found, cc, rw own member)
    ]
  ]
]

-- A message on a socket reaches the relay, its store, its nonces and its events, only as a well-formed
-- envelope whose sender is the peer that the socket is bound to and whose session is the socket's, and
-- only while that peer has a slot in that session.
pub on_relay_sender :
    (net : Net) (ws : ℕ) (c : Client) (inc : Incoming) (st : WsState)
    → ((on_relay net ws c inc st).relay ≡ st.relay) ⊎ Speaks net c inc st
unfolding on_relay limited check_message_limit not_authorized rate_limited current_object
on_relay_sender net ws c inc st = elim (Option-cases c.peer_id) [
  | inl unbound ↦ rw (unbound, on_relay) (inl refl)
  | inr (pid, bound) ↦ elim (Option-cases c.session_id) [
    | inl nowhere ↦ rw (bound, on_relay, nowhere) (inl refl)
    | inr (sid, somewhere) ↦
        let (ok, st') = check_message_limit net.now sid pid st in
        elim (Bool-cases ok) [
          | inr much ↦ rw (bound, on_relay, somewhere, limited, much) (inl refl)
          | inl fine ↦ elim (relay_bound_sender net ws c pid inc st' bound) [
            | inl same ↦ rw (bound, on_relay, somewhere, limited, fine) (inl same)
            | inr speaks ↦ inr speaks
          ]
        ]
  ]
]
