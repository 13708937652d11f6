-- ===== src/Server/Transport/Relaying.antt =====
-- What relaying an envelope does to the session objects: at most it sets the activity time of one.
use quantum_bunker.Base.{
  ℕ, String, not, ◌||◌, List, [], ◌∷◌, Option, none, some, ◌≡◌, refl, ◌∙◌, ap, ◌⊎◌, inl, inr, arith,
  Bool-cases, Option-cases, string_eq, ◌==◌,
}
use quantum_bunker.Server.Session.{Session, has_slot}
use quantum_bunker.Server.Store.{touch}
use quantum_bunker.Server.Events.{RelayEnvelope, envelope_rejected, sender}
use quantum_bunker.Server.Schemas.{is_envelope}
use quantum_bunker.Server.Relay.{execute}
use quantum_bunker.Server.Relay.Outcomes.{execute_outcome}
use quantum_bunker.Server.Transport.{
  Net, WsState, Client, store_of, OutFrame, envelope, write_frames, send_to_many, error, emit,
}
use quantum_bunker.Server.Transport.Host.{current_object}
use quantum_bunker.Server.Transport.Messages.{
  Incoming, ping, frame, relay_envelope, relay_frame, relay_as, relay_bound, limited, on_relay,
  check_message_limit, on_malformed, id_or_unknown,
}
use quantum_bunker.Server.Transport.Frame.{heap_of, safe_send-relay}

abbrev pub TouchOnly : WsState → WsState → Type 0
TouchOnly st st' =
    (heap_of st' ≡ heap_of st)
    ⊎ ((id : String) × (now : ℕ) × (heap_of st' ≡ (touch id now (store_of st)).heap))

write_frames-relay :
    (sid : String) (ps : List String) (f : OutFrame) (st : WsState)
    → (write_frames sid ps f st).relay ≡ st.relay
unfolding write_frames
write_frames-relay sid [] f st = refl
write_frames-relay sid (p ∷ ps) f st = write_frames-relay sid ps f _ ∙ ground arith

relay_envelope_touch :
    (net : Net) (e : RelayEnvelope) (st : WsState) → TouchOnly st (relay_envelope net e st)
unfolding relay_envelope
relay_envelope_touch net e st =
    let r = execute (send_to_many net st) net.now e st.relay in
    let written =
      write_frames-relay e.session_id r.delivered (envelope e) (record st { relay = r.state }) in
    elim (execute_outcome (send_to_many net st) net.now e st.relay) [
      | inl (reason, why, none_reached, same, event) ↦ inl (ground (arith, written, same))
      | inr (o, found, sent, reached, touched, event) ↦
          inr (o.id, net.now, ground (arith, written, touched))
    ]

relay_frame_touch :
    (net : Net) (ws : ℕ) (sid pid : String) (e : Option RelayEnvelope) (st : WsState)
    → TouchOnly st (relay_frame net ws sid pid e st)
unfolding relay_frame
relay_frame_touch net ws sid pid none st = inl refl
relay_frame_touch net ws sid pid (some e) st = elim (Bool-cases (not (is_envelope net.is_uuid e))) [
  | inl bad ↦ rw (bad, relay_frame) (inl refl)
  | inr good ↦ elim (Bool-cases (not (e.from == pid) || not (e.session_id == sid))) [
    | inl forged ↦ rw (good, relay_frame, forged) (inl refl)
    | inr own ↦ rw (good, relay_frame, own) (relay_envelope_touch net e st)
  ]
]

relay_as_touch :
    (net : Net) (ws : ℕ) (o : Session) (pid : String) (inc : Incoming) (st : WsState)
    → TouchOnly st (relay_as net ws o pid inc st)
unfolding relay_as
relay_as_touch net ws o pid (ping nonce) st = inl refl
relay_as_touch net ws o pid (frame e) st = relay_frame_touch net ws o.id pid e st
relay_as_touch net ws o pid _ st = inl refl

relay_bound_touch :
    (net : Net) (ws : ℕ) (c : Client) (pid : String) (inc : Incoming) (st : WsState)
    → TouchOnly st (relay_bound net ws c pid inc st)
unfolding relay_bound
relay_bound_touch net ws c pid inc st = elim (Option-cases (current_object c st)) [
  | inl absent ↦ rw (absent, relay_bound) (inl refl)
  | inr ((r, o), found) ↦ elim (Bool-cases (has_slot pid o.peers)) [
    | inl member ↦ rw (found, relay_bound, member) (relay_as_touch net ws o pid inc st)
    | inr outside ↦ rw (found, relay_bound, outside) (inl refl)
  ]
]

limited_touch :
    (net : Net) (ws : ℕ) (c : Client) (sid pid : String) (inc : Incoming) (st : WsState)
    → TouchOnly st (limited net ws c sid pid inc st)
unfolding limited check_message_limit
limited_touch net ws c sid pid inc st =
    let (ok, st') = check_message_limit net.now sid pid st in
    elim (Bool-cases ok) [
      | inl fine ↦ rw (fine, limited) (relay_bound_touch net ws c pid inc st')
      | inr much ↦ rw (much, limited) (inl refl)
    ]

-- Only the time of the last activity of one session is written.
pub on_relay_touch :
    (net : Net) (ws : ℕ) (c : Client) (inc : Incoming) (st : WsState)
    → TouchOnly st (on_relay net ws c inc st)
unfolding on_relay
on_relay_touch net ws c inc st = elim (Option-cases c.peer_id) [
  | inl unbound ↦ rw (unbound, on_relay) (inl refl)
  | inr (pid, bound) ↦ elim (Option-cases c.session_id) [
    | inl nowhere ↦ rw (bound, on_relay, nowhere) (inl refl)
    | inr (sid, somewhere) ↦ rw (bound, on_relay, somewhere) (limited_touch net ws c sid pid inc st)
  ]
]

pub on_malformed-heap :
    (net : Net) (ws : ℕ) (c : Client) (st : WsState)
    → heap_of (on_malformed net ws c st) ≡ heap_of st
unfolding on_malformed
on_malformed-heap net ws c st =
    ap (λ r. r.store.heap)
      (safe_send-relay net (some ws) (error (some "INVALID_FRAME") "Invalid message format") (
        emit
          (envelope_rejected (id_or_unknown c.session_id) net.now "INVALID_FRAME"
            (sender (id_or_unknown c.peer_id)))
          st))
