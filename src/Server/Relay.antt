-- ===== src/Server/Relay.antt =====
-- src/backend/application/use-cases/relay-message.use-case.ts and relay.policy.ts. The transport is
-- a port: `send_to_many` gives the peers that a frame reaches.
use quantum_bunker.Base.{
  ℕ, ◌+◌, ◌-◌, ◌*◌, String, ◌<>◌, Bool, true, false, not, List, [], ◌∷◌, Option, none, some, leb,
  ltb, if◌then◌else◌, ◌==◌, length, keep_if, string_eq, count as text_length,
}
use quantum_bunker.Base.Dict.{Dict, keys, has, insert, retain}
use quantum_bunker.Base.Decimal.{decimal}
use quantum_bunker.Limits.{nonce_cache_max, timestamp_tolerance_ms}
use quantum_bunker.Server.Session.{Session}
use quantum_bunker.Server.Store.{Store, get, deref, touch}
use quantum_bunker.Server.Events.{
  RelayEnvelope, EnvelopeType, plaintext, DomainEvent, message_relayed, envelope_rejected, whole,
}
pub mod Replay
pub mod Outcomes
pub mod Once
pub mod Secrecy

abbrev pub is_plaintext : EnvelopeType → Bool
is_plaintext plaintext = true
is_plaintext _ = false

-- `RelayPolicy.validate`: the reason, or none if the envelope is valid.
unfoldable pub validate : RelayEnvelope → Option String
validate e =
    if e.payload == ""
    then some "Payload empty"
    else (if is_plaintext e.type then some "Plaintext relay disabled" else none)

unfoldable pub nonce_key : RelayEnvelope → String
nonce_key e = e.session_id <> (":" <> (e.from <> (":" <> e.nonce)))

-- The `while` loop of `pruneNonces`: the oldest entries go until the cache is below its limit.
unfoldable pub drop_oldest : ℕ → Dict String ℕ → Dict String ℕ
drop_oldest cap [] = []
drop_oldest cap (entry ∷ seen) =
    let rest = drop_oldest cap seen in
    if leb cap (length (entry ∷ seen)) then rest else entry ∷ seen

-- `at < now - 2 * tolerance` goes; where `now` is smaller than that, nothing does.
abbrev pub is_recent : ℕ → String → ℕ → Bool
is_recent now key at = not (ltb at (now - timestamp_tolerance_ms * 2))

unfoldable pub prune_nonces : ℕ → ℕ → Dict String ℕ → Dict String ℕ
unfolding drop_oldest
prune_nonces cap now seen = drop_oldest cap (retain (is_recent now) seen)

-- `isReplay`, with the size limit of the cache as an argument.
unfoldable pub is_replay : ℕ → ℕ → RelayEnvelope → Dict String ℕ → Bool × Dict String ℕ
unfolding nonce_key prune_nonces
is_replay cap now e seen =
    let pruned = if leb cap (length seen) then prune_nonces cap now seen else seen in
    if has (nonce_key e) seen then (true, seen) else (false, insert (nonce_key e) now pruned)

pub record RelayState : Type 0 where
  pub store : Store
  pub seen_nonces : Dict String ℕ
  pub events : List DomainEvent

pub record Relayed : Type 0 where
  pub state : RelayState
  -- The peers that the envelope was written to.
  pub delivered : List String

-- `reject`: the event holds the envelope with its payload redacted.
unfoldable pub redacted : RelayEnvelope → RelayEnvelope
redacted e = record e { payload = "[redacted " <> (decimal (text_length e.payload) <> " chars]") }

unfoldable pub reject : String → ℕ → RelayEnvelope → RelayState → Relayed
unfolding redacted
reject reason now e st = record {
  state = record st {
    events = envelope_rejected e.session_id now reason (whole (redacted e)) ∷ st.events;
  };
  delivered = [];
}

unfoldable pub recipients : RelayEnvelope → Session → List String
recipients e o = keep_if (λ id. not (id == e.from)) (keys o.peers)

abbrev pub SendToMany : Type 0
SendToMany = (session_id : String) → (peer_ids : List String) → RelayEnvelope → List String

unfoldable pub relayed : ℕ → RelayEnvelope → Session → List String → RelayState → Relayed
relayed now e o delivered st = record {
  state = record st {
    store = touch o.id now st.store;
    events = message_relayed o.id now e.type (text_length e.payload) e.from ∷ st.events;
  };
  delivered = delivered;
}

-- The end of `execute`, past the replay check.
unfoldable pub deliver : SendToMany → ℕ → RelayEnvelope → Session → RelayState → Relayed
unfolding relayed
deliver send now e o st = elim (recipients e o) [
  | [] ↦ reject "Recipient not joined" now e st
  | to ∷ more ↦ elim (send o.id (to ∷ more) e) [
    | [] ↦ reject "Recipient offline" now e st
    | peer ∷ peers ↦ relayed now e o (peer ∷ peers) st
  ]
]

unfoldable pub check_replay : SendToMany → ℕ → RelayEnvelope → Session → RelayState → Relayed
unfolding deliver
check_replay send now e o st =
    let (seen, nonces) = is_replay nonce_cache_max now e st.seen_nonces in
    let st' = record st { seen_nonces = nonces } in
    if seen then reject "Duplicate nonce" now e st' else deliver send now e o st'

abbrev pub find_session : String → Store → Option Session
find_session id s = elim (get id s) [ none ↦ none | some r ↦ deref r s ]

-- `RelayMessage.execute`.
unfoldable pub execute : SendToMany → ℕ → RelayEnvelope → RelayState → Relayed
unfolding check_replay
execute send now e st = elim (find_session e.session_id st.store) [
  | none ↦ reject "Session not found" now e st
  | some o ↦ elim (validate e) [
    | some reason ↦ reject reason now e st
    | none ↦ check_replay send now e o st
  ]
]
