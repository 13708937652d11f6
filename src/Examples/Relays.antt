-- ===== src/Examples/Relays.antt =====
-- Runs of the relay use case.
use quantum_bunker.Base.{
  ◌+◌, ◌≤◌, ◌≡◌, ◌≢◌, refl, arith, true, false, [], ◌∷◌, some, length, nat_eq, string_eq, contains,
  ℕ_discrete, ◌⊎◌,
}
use quantum_bunker.Base.Dict.{lookup, insert, has, keys}
use quantum_bunker.Limits.{nonce_cache_max}
use quantum_bunker.Server.Session.{Session}
use quantum_bunker.Server.Store.{get, deref}
use quantum_bunker.Server.Events.{RelayEnvelope, plaintext}
use quantum_bunker.Server.Relay.{
  SendToMany, execute, check_replay, deliver, relayed, reject, redacted, recipients, validate,
  is_replay, nonce_key, find_session,
}
use quantum_bunker.Server.Relay.Outcomes.{
  SendsWithin, IsRejected, IsRelayed, execute-delivered, execute_outcome,
}
use quantum_bunker.Server.Relay.Once.{execute_once, execute_all}
use quantum_bunker.Server.Relay.Secrecy.{execute_of_length}
use quantum_bunker.Examples.Values.{hello, relay_state, one_session}

-- Everybody is online.
abbrev reach_all : SendToMany
reach_all sid ps e = ps

reach_all-SendsWithin : SendsWithin reach_all
reach_all-SendsWithin sid ps e p h = h

-- A second envelope of the same sender with another nonce.
abbrev second : RelayEnvelope
second = record hello { nonce = "x2" }

hello_reaches_bob : (execute reach_all 1000 hello relay_state).delivered ≡ "bob" ∷ []
unfolding execute check_replay deliver relayed reject redacted recipients validate is_replay
    nonce_key get deref keys has lookup string_eq ℕ_discrete
hello_reaches_bob = ground arith

hello_to_bob : contains (execute reach_all 1000 hello relay_state).delivered "bob" ≡ true
unfolding string_eq
hello_to_bob = rw hello_reaches_bob refl

execute-delivered_example :
    (o : Session) × (find_session "vault" one_session ≡ some o)
    × (has "bob" o.peers ≡ true)
    × ("bob" ≢ hello.from)
    × (hello.payload ≢ "")
    × (hello.type ≢ plaintext)
    × (has (nonce_key hello) relay_state.seen_nonces ≡ false)
execute-delivered_example =
    execute-delivered reach_all 1000 hello relay_state "bob" reach_all-SendsWithin hello_to_bob

execute_outcome_example :
    IsRejected reach_all 1000 hello relay_state (execute reach_all 1000 hello relay_state)
    ⊎ IsRelayed reach_all 1000 hello relay_state (execute reach_all 1000 hello relay_state)
execute_outcome_example = execute_outcome reach_all 1000 hello relay_state

hello_reaches : (execute reach_all 1000 hello relay_state).delivered ≢ []
hello_reaches h = ground (arith, hello_reaches_bob)

hello_cache :
    length (execute reach_all 1000 hello relay_state).state.seen_nonces + 1 ≤ nonce_cache_max
unfolding execute check_replay deliver relayed reject redacted recipients validate is_replay
    nonce_key get deref keys has lookup string_eq insert
hello_cache = ground arith

execute_once_example :
    (execute reach_all 1900 hello (
      execute_all reach_all
        ((one_session, 1500, second) ∷ [])
        (execute reach_all 1000 hello relay_state).state)).delivered
    ≡ []
execute_once_example =
    execute_once reach_all 1000 1900 hello hello relay_state ((one_session, 1500, second) ∷ []) refl
      hello_reaches hello_cache

execute_of_length_example :
    execute reach_all 1000 (record hello { payload = "yes!" }) relay_state
    ≡ execute reach_all 1000 (record hello { payload = "nope" }) relay_state
execute_of_length_example =
    execute_of_length reach_all 1000 hello "yes!" "nope" relay_state refl (λ sid ps. refl)
