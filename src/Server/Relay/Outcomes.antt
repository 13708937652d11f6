-- ===== src/Server/Relay/Outcomes.antt =====
-- What `RelayMessage.execute` does on each branch.
use quantum_bunker.Base.{
  ℕ, ◌≡◌, ◌≢◌, refl, sym, ◌∙◌, String, ◌<>◌, Bool, true, false, not, List, [], ◌∷◌, some, none,
  arith, string_eq, nat_eq, ◌==◌, Bool-cases, Option-cases, List-cases, inl, inr, ◌⊎◌, contains,
  keep_if, count as text_length,
}
use quantum_bunker.Base.Dict.{Dict, has, keys, contains-keys}
use quantum_bunker.Base.Decimal.{decimal}
use quantum_bunker.Limits.{nonce_cache_max}
use quantum_bunker.Server.Session.{Session}
use quantum_bunker.Server.Store.{touch}
use quantum_bunker.Server.Events.{
  RelayEnvelope, plaintext, envelope_rejected, message_relayed, whole,
}
use quantum_bunker.Server.Relay.{
  RelayState, Relayed, SendToMany, execute, check_replay, deliver, relayed, reject, recipients,
  validate, is_replay, nonce_key, find_session, redacted,
}
use quantum_bunker.Server.Relay.Replay.{is_replay-has}

-- The port writes only to peers that it was asked to write to.
abbrev pub SendsWithin : SendToMany → Type 0
SendsWithin send =
    (sid : String) (ps : List String) (e : RelayEnvelope) (p : String)
    → contains (send sid ps e) p ≡ true
    → contains ps p ≡ true

contains-keep_if :
    (f : String → Bool) (xs : List String) (p : String)
    → contains (keep_if f xs) p ≡ true
    → (contains xs p ≡ true) × (f p ≡ true)
contains-keep_if f [] p h = cc
contains-keep_if f (x ∷ xs) p h = ground (arith, contains-keep_if f xs p)

contains-recipients :
    (e : RelayEnvelope) (o : Session) (p : String)
    → contains (recipients e o) p ≡ true
    → (has p o.peers ≡ true) × (p ≢ e.from)
unfolding recipients
contains-recipients e o p h =
    let (member, other) = contains-keep_if (λ id. not (id == e.from)) (keys o.peers) p h in
    ground (arith, contains-keys p o.peers)

deliver-delivered :
    (send : SendToMany) (now : ℕ) (e : RelayEnvelope) (o : Session) (st : RelayState) (p : String)
    → SendsWithin send
    → contains (deliver send now e o st).delivered p ≡ true
    → contains (recipients e o) p ≡ true
unfolding deliver relayed reject
deliver-delivered send now e o st p within h = ground (arith, within o.id (recipients e o) e p)

check_replay-delivered :
    (send : SendToMany) (now : ℕ) (e : RelayEnvelope) (o : Session) (st : RelayState) (p : String)
    → SendsWithin send
    → contains (check_replay send now e o st).delivered p ≡ true
    → (has (nonce_key e) st.seen_nonces ≡ false) × (contains (recipients e o) p ≡ true)
unfolding check_replay reject
check_replay-delivered send now e o st p within h = ground (
  arith,
  is_replay-has nonce_cache_max now e st.seen_nonces,
  deliver-delivered send now e o
      (record st { seen_nonces = (is_replay nonce_cache_max now e st.seen_nonces).1 }) p within,
)

-- Whoever receives an envelope is a peer of its session and not its sender; the envelope has a
-- payload, is not plaintext, and its nonce was not in the cache.
pub execute-delivered :
    (send : SendToMany) (now : ℕ) (e : RelayEnvelope) (st : RelayState) (p : String)
    → SendsWithin send
    → contains (execute send now e st).delivered p ≡ true
    → (o : Session) × (find_session e.session_id st.store ≡ some o)
      × (has p o.peers ≡ true)
      × (p ≢ e.from)
      × (e.payload ≢ "")
      × (e.type ≢ plaintext)
      × (has (nonce_key e) st.seen_nonces ≡ false)
unfolding execute reject validate
execute-delivered send now e st p within h =
    elim (Option-cases (find_session e.session_id st.store)) [
      | inl missing ↦ absurd (ground (arith, missing))
      | inr (o, found) ↦
          let (new, member) = check_replay-delivered send now e o st p within (ground arith) in
          let (peer, other) = contains-recipients e o p member in
          (o, found, peer, other, ground arith, ground arith, new)
    ]

-- The peers of the session but the sender.
abbrev pub others : RelayEnvelope → Session → List String
others e o = keep_if (λ id. not (id == e.from)) (keys o.peers)

-- What a rejection may say, and when: there is no such session; the payload is empty; the envelope is
-- plaintext; its nonce is in the cache; the session has no peer but the sender; or no such peer is
-- reached.
abbrev pub Rejects : SendToMany → RelayEnvelope → RelayState → String → Type 0
Rejects send e st reason =
    ((reason ≡ "Session not found") × (find_session e.session_id st.store ≡ none))
    ⊎ ((o : Session) × (find_session e.session_id st.store ≡ some o)
        × (((reason ≡ "Payload empty") × (e.payload ≡ ""))
            ⊎ (((reason ≡ "Plaintext relay disabled") × (e.payload ≢ "") × (e.type ≡ plaintext))
                ⊎ (((reason ≡ "Duplicate nonce") × (has (nonce_key e) st.seen_nonces ≡ true))
                    ⊎ (((reason ≡ "Recipient not joined") × (others e o ≡ []))
                        ⊎ ((reason ≡ "Recipient offline")
                            × (others e o ≢ [])
                            × (send o.id (others e o) e ≡ [])))))))

-- The event of a rejection tells of the payload only how long it was.
abbrev pub IsRejected : SendToMany → ℕ → RelayEnvelope → RelayState → Relayed → Type 0
IsRejected send now e st r =
    (reason : String) × Rejects send e st reason
    × (r.delivered ≡ [])
    × (r.state.store ≡ st.store)
    × (r.state.events
        ≡ envelope_rejected e.session_id now reason (
            whole (record e {
              payload = "[redacted " <> (decimal (text_length e.payload) <> " chars]");
            }))
          ∷ st.events)

abbrev pub IsRelayed : SendToMany → ℕ → RelayEnvelope → RelayState → Relayed → Type 0
IsRelayed send now e st r =
    (o : Session) × (find_session e.session_id st.store ≡ some o)
    × (r.delivered ≡ send o.id (others e o) e)
    × (r.delivered ≢ [])
    × (r.state.store ≡ touch o.id now st.store)
    × (r.state.events ≡ message_relayed o.id now e.type (text_length e.payload) e.from ∷ st.events)

reject_outcome :
    (send : SendToMany) (reason : String) (now : ℕ) (e : RelayEnvelope) (st : RelayState)
    (nonces : Dict String ℕ)
    → Rejects send e st reason
    → IsRejected send now e st (reject reason now e (record st { seen_nonces = nonces }))
unfolding reject redacted
reject_outcome send reason now e st nonces why = (reason, why, refl, refl, refl)

deliver_outcome :
    (send : SendToMany) (now : ℕ) (e : RelayEnvelope) (o : Session) (st : RelayState)
    (nonces : Dict String ℕ)
    → find_session e.session_id st.store ≡ some o
    → let r = deliver send now e o (record st { seen_nonces = nonces }) in
      IsRejected send now e st r ⊎ IsRelayed send now e st r
unfolding deliver relayed recipients
deliver_outcome send now e o st nonces found = elim (List-cases (others e o)) [
  | inl none_joined ↦
      rw (none_joined, deliver)
        (inl (
          reject_outcome send "Recipient not joined" now e st nonces
            (inr (o, found, inr (inr (inr (inl (refl, none_joined))))))))
  | inr (to, more, some_joined) ↦ elim (List-cases (send o.id (others e o) e)) [
    | inl offline ↦
        let nobody = rw some_joined at offline in
        rw (some_joined, deliver, nobody)
          (inl (
            reject_outcome send "Recipient offline" now e st nonces (
              inr (
                o,
                found,
                inr (inr (inr (inr (refl, (λ h. let s = some_joined in cc), offline)))),
              ))))
    | inr (peer, peers, reached) ↦
        let somebody = rw some_joined at reached in
        rw (some_joined, deliver, somebody) (inr (o, found, sym reached, (λ h. cc), refl, refl))
  ]
]

check_replay_outcome :
    (send : SendToMany) (now : ℕ) (e : RelayEnvelope) (o : Session) (st : RelayState)
    → find_session e.session_id st.store ≡ some o
    → IsRejected send now e st (check_replay send now e o st)
      ⊎ IsRelayed send now e st (check_replay send now e o st)
unfolding check_replay
check_replay_outcome send now e o st found =
    let (seen, nonces) = is_replay nonce_cache_max now e st.seen_nonces in
    let known = is_replay-has nonce_cache_max now e st.seen_nonces in
    elim (Bool-cases seen) [
      | inl replayed ↦
          rw (replayed, check_replay)
            (inl (
              reject_outcome send "Duplicate nonce" now e st nonces
                (inr (o, found, inr (inr (inl (refl, sym known ∙ replayed)))))))
      | inr new ↦ rw (new, check_replay) (deliver_outcome send now e o st nonces found)
    ]

validate_reason :
    (send : SendToMany) (e : RelayEnvelope) (o : Session) (reason : String) (st : RelayState)
    → find_session e.session_id st.store ≡ some o
    → validate e ≡ some reason
    → Rejects send e st reason
unfolding validate
validate_reason send e o reason st found invalid = elim (Bool-cases (e.payload == "")) [
  | inl empty ↦ inr (o, found, inl (ground (arith, invalid, empty)))
  | inr full ↦ inr (o, found, inr (inl (ground (arith, invalid, full))))
]

execute_missing :
    (send : SendToMany) (now : ℕ) (e : RelayEnvelope) (st : RelayState)
    → find_session e.session_id st.store ≡ none
    → execute send now e st ≡ reject "Session not found" now e st
unfolding execute
execute_missing send now e st missing = rw (missing, execute)

execute_invalid :
    (send : SendToMany) (now : ℕ) (e : RelayEnvelope) (o : Session) (reason : String)
    (st : RelayState)
    → find_session e.session_id st.store ≡ some o
    → validate e ≡ some reason
    → execute send now e st ≡ reject reason now e st
unfolding execute
execute_invalid send now e o reason st found invalid = rw (found, execute, invalid)

execute_valid :
    (send : SendToMany) (now : ℕ) (e : RelayEnvelope) (o : Session) (st : RelayState)
    → find_session e.session_id st.store ≡ some o
    → validate e ≡ none
    → execute send now e st ≡ check_replay send now e o st
unfolding execute
execute_valid send now e o st found valid = rw (found, execute, valid)

-- A run leaves one event. Either nothing is delivered, the store is as before and the event is a
-- rejection, which gives the reason that applies and tells of the payload only how long it was; or the
-- envelope reaches the peers but the sender whom the sockets took it for, of whom there is one, the
-- session's activity time is set, and the event tells the type, the size and the sender.
pub execute_outcome :
    (send : SendToMany) (now : ℕ) (e : RelayEnvelope) (st : RelayState)
    → IsRejected send now e st (execute send now e st)
      ⊎ IsRelayed send now e st (execute send now e st)
execute_outcome send now e st = elim (Option-cases (find_session e.session_id st.store)) [
  | inl missing ↦
      rw (execute_missing send now e st missing) (
        inl (reject_outcome send "Session not found" now e st st.seen_nonces (inl (refl, missing))))
  | inr (o, found) ↦ elim (Option-cases (validate e)) [
    | inl valid ↦
        rw (execute_valid send now e o st found valid) (check_replay_outcome send now e o st found)
    | inr (reason, invalid) ↦ rw (execute_invalid send now e o reason st found invalid) (
        inl (
          reject_outcome send reason now e st st.seen_nonces
            (validate_reason send e o reason st found invalid)))
  ]
]
