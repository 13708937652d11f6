-- ===== src/Server/Relay/Secrecy.antt =====
-- The relay does not look into a payload.
use text.Mathlib.TextLemmas.{length-eq-zero_iff}
use quantum_bunker.Base.{
  ℕ, ◌≡◌, sym, ap, ◌∙◌, String, List, some, none, arith, string_eq, nat_eq, Option-cases, inl, inr,
  ◌⊎◌, count as text_length,
}
use quantum_bunker.Limits.{nonce_cache_max}
use quantum_bunker.Server.Session.{Session}
use quantum_bunker.Server.Events.{RelayEnvelope}
use quantum_bunker.Server.Relay.{
  RelayState, SendToMany, execute, check_replay, deliver, relayed, reject, recipients, validate,
  is_replay, find_session,
}

empty_of_length : (p q : String) → text_length p ≡ text_length q → p ≡ "" → q ≡ ""
empty_of_length p q same e = length-eq-zero_iff.0 (sym same ∙ ap text_length e)

validate_reason :
    (e : RelayEnvelope)
    → (validate e ≡ none)
      ⊎ (validate e ≡ some "Payload empty")
      ⊎ (validate e ≡ some "Plaintext relay disabled")
unfolding validate
validate_reason e = ground arith

module _ (e : RelayEnvelope) (p q : String) (same : text_length p ≡ text_length q) where
  validate_of_length : validate (record e { payload = p }) ≡ validate (record e { payload = q })
  unfolding validate
  validate_of_length = ground (arith, empty_of_length p q same, empty_of_length q p (sym same))

  reject_of_length :
      (reason : String) (now : ℕ) (st : RelayState)
      → reject reason now (record e { payload = p }) st
        ≡ reject reason now (record e { payload = q }) st
  unfolding reject
  reject_of_length reason now st = rw same

  deliver_of_length :
      (send : SendToMany) (now : ℕ) (o : Session) (st : RelayState)
      → ((sid : String) (ps : List String)
          → send sid ps (record e { payload = p }) ≡ send sid ps (record e { payload = q }))
      → deliver send now (record e { payload = p }) o st
        ≡ deliver send now (record e { payload = q }) o st
  unfolding deliver relayed recipients
  deliver_of_length send now o st reach = ground (
    arith,
    reach o.id (recipients e o),
    reject_of_length "Recipient not joined" now st,
    reject_of_length "Recipient offline" now st,
  )

  check_replay_of_length :
      (send : SendToMany) (now : ℕ) (o : Session) (st : RelayState)
      → ((sid : String) (ps : List String)
          → send sid ps (record e { payload = p }) ≡ send sid ps (record e { payload = q }))
      → check_replay send now (record e { payload = p }) o st
        ≡ check_replay send now (record e { payload = q }) o st
  unfolding check_replay is_replay
  check_replay_of_length send now o st reach =
      let nonces = (is_replay nonce_cache_max now e st.seen_nonces).1 in
      let st' = record st { seen_nonces = nonces } in
      ground
        (arith, reject_of_length "Duplicate nonce" now st', deliver_of_length send now o st' reach)

-- Nothing about a payload but its length is observable in a run: with two payloads of one length, and
-- a transport that reaches the same peers with both, the events, the store, the nonce cache and the
-- receivers are the same.
pub execute_of_length :
    (send : SendToMany) (now : ℕ) (e : RelayEnvelope) (p q : String) (st : RelayState)
    → text_length p ≡ text_length q
    → ((sid : String) (ps : List String)
        → send sid ps (record e { payload = p }) ≡ send sid ps (record e { payload = q }))
    → execute send now (record e { payload = p }) st
      ≡ execute send now (record e { payload = q }) st
unfolding execute
execute_of_length send now e p q st same reach =
    elim (Option-cases (find_session e.session_id st.store)) [
      | inl missing ↦ rw (missing, execute) (reject_of_length e p q same "Session not found" now st)
      | inr (o, found) ↦
          rw (found, execute, validate_of_length e p q same)
            (ground (
              arith,
              check_replay_of_length e p q same send now o st reach,
              reject_of_length e p q same "Payload empty" now st,
              reject_of_length e p q same "Plaintext relay disabled" now st,
              validate_reason (record e { payload = q }),
            ))
    ]
