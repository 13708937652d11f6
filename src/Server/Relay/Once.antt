-- ===== src/Server/Relay/Once.antt =====
-- Over many runs of `RelayMessage.execute`, an envelope is relayed at most once.
use quantum_bunker.Base.{
  ℕ, ◌+◌, ◌≤◌, ◌<◌, ◌≡◌, ◌≢◌, String, true, List, [], ◌∷◌, arith, length, string_eq, nat_eq, ◌⊎◌,
}
use quantum_bunker.Base.Dict.{has}
use quantum_bunker.Limits.{nonce_cache_max}
use quantum_bunker.Server.Store.{Store}
use quantum_bunker.Server.Events.{RelayEnvelope}
use quantum_bunker.Server.Relay.{
  RelayState, SendToMany, execute, check_replay, deliver, relayed, reject, is_replay, nonce_key,
}
use quantum_bunker.Server.Relay.Replay.{is_replay_records, is_replay-has, is_replay_keeps}

-- What a run leaves in the cache of nonces.
execute-seen :
    (send : SendToMany) (now : ℕ) (e : RelayEnvelope) (st : RelayState)
    → ((execute send now e st).state.seen_nonces ≡ st.seen_nonces)
      ⊎ ((execute send now e st).state.seen_nonces
          ≡ (is_replay nonce_cache_max now e st.seen_nonces).1)
unfolding execute check_replay deliver relayed reject
execute-seen send now e st = ground arith

execute_of_seen :
    (send : SendToMany) (now : ℕ) (e : RelayEnvelope) (st : RelayState)
    → has (nonce_key e) st.seen_nonces ≡ true
    → (execute send now e st).delivered ≡ []
unfolding execute check_replay reject
execute_of_seen send now e st h = ground (arith, is_replay-has nonce_cache_max now e st.seen_nonces)

execute_records :
    (send : SendToMany) (now : ℕ) (e : RelayEnvelope) (st : RelayState)
    → (execute send now e st).delivered ≢ []
    → has (nonce_key e) (execute send now e st).state.seen_nonces ≡ true
unfolding execute check_replay deliver relayed reject
execute_records send now e st ne =
    ground (arith, is_replay_records nonce_cache_max now e st.seen_nonces)

execute_keeps :
    (send : SendToMany) (now : ℕ) (e : RelayEnvelope) (st : RelayState) (k : String)
    → length st.seen_nonces < nonce_cache_max
    → has k st.seen_nonces ≡ true
    → (has k (execute send now e st).state.seen_nonces ≡ true)
      × (length (execute send now e st).state.seen_nonces ≤ length st.seen_nonces + 1)
execute_keeps send now e st k room h = ground (
  arith,
  execute-seen send now e st,
  is_replay_keeps nonce_cache_max now e st.seen_nonces k room h,
)

-- Runs one after another; in between the rest of the server may have put any other store in place.
abbrev pub execute_all : SendToMany → List (Store × ℕ × RelayEnvelope) → RelayState → RelayState
execute_all send [] st = st
execute_all send ((s, now, e) ∷ es) st =
    execute_all send es (execute send now e (record st { store = s })).state

execute_all_keeps :
    (send : SendToMany) (es : List (Store × ℕ × RelayEnvelope)) (st : RelayState) (k : String)
    → length st.seen_nonces + length es ≤ nonce_cache_max
    → has k st.seen_nonces ≡ true
    → has k (execute_all send es st).seen_nonces ≡ true
execute_all_keeps send [] st k room h = h
execute_all_keeps send ((s, now, e) ∷ es) st k room h =
    let (kept, grown) = execute_keeps send now e (record st { store = s }) k (omega arith) h in
    execute_all_keeps send es (execute send now e (record st { store = s })).state k (omega arith)
      kept

-- An envelope that reached someone reaches nobody a second time, also when other envelopes are
-- relayed between and the store changes, as long as the nonce cache has room for them.
pub execute_once :
    (send : SendToMany) (now later : ℕ) (e again : RelayEnvelope) (st : RelayState)
    (between : List (Store × ℕ × RelayEnvelope))
    → nonce_key again ≡ nonce_key e
    → (execute send now e st).delivered ≢ []
    → length (execute send now e st).state.seen_nonces + length between ≤ nonce_cache_max
    → (execute send later again (execute_all send between (execute send now e st).state)).delivered
      ≡ []
execute_once send now later e again st between same ne room = execute_of_seen send later again _ (
    rw same
      (execute_all_keeps send between _ (nonce_key e) room (execute_records send now e st ne)))
