-- ===== src/Server/Transport.antt =====
-- src/backend/adapters/transport/ws.transport.ts: the state of `WsTransport` and its small helpers.
-- A socket is a number. What a socket reports (`readyState`, `bufferedAmount`, whether a write throws),
-- the clock, fresh tokens and the third-party functions are one `Net`, fixed while one event is
-- handled. Writes and closes are recorded in `out`, newest first.
use quantum_bunker.Base.{
  ℕ, String, ◌<>◌, Bool, true, false, not, ◌&&◌, List, [], ◌∷◌, ◌++◌, Option, none, some, leb,
  if◌then◌else◌, ◌==◌, contains, keep_if, nat_eq, string_eq,
}
use quantum_bunker.Base.Dict.{Dict, lookup, insert, erase}
use quantum_bunker.Limits.{max_buffered_bytes}
use quantum_bunker.Shared.Membership.{Ed25519, MembershipToken}
use quantum_bunker.Server.Session.{Session}
use quantum_bunker.Server.Store.{Store, write, save}
use quantum_bunker.Server.Events.{RelayEnvelope, DomainEvent}
use quantum_bunker.Server.RateLimit.{Counter}
use quantum_bunker.Server.Relay.{RelayState}
pub mod Slots
pub mod Join
pub mod Host
pub mod Messages
pub mod Lifecycle
pub mod Frame
pub mod Relaying
pub mod Branches
pub mod Capacity
pub mod Bounds
pub mod Authority
pub mod Reconnect
pub mod Disconnection
pub mod OneUse
pub mod ProofCache
pub mod Kicking
pub mod Inherited
pub mod Senders

pub record Net : Type 0 where
  pub now : ℕ
  pub is_open : ℕ → Bool
  pub buffered : ℕ → ℕ
  -- Whether `ws.send` on an open socket returns, rather than throws.
  pub accepts : ℕ → Bool
  pub new_token : String
  pub sha256 : String → String
  pub is_uuid : String → Bool
  pub decode_token : String → Option MembershipToken
  pub ed25519 : Ed25519

pub data OutFrame : Type 0 where
  joined :
      (session_id peer_id : String) (is_host : Bool) (peer_token : String) (via_membership : Bool)
      → OutFrame
  error : (code : Option String) (message : String) → OutFrame
  pending : (message : String) → OutFrame
  join_request : (peer_id message : String) → OutFrame
  peer_update : (peers : List String) (is_group : Bool) → OutFrame
  pong : (session_id nonce : String) (timestamp : ℕ) → OutFrame
  envelope : RelayEnvelope → OutFrame

pub data Effect : Type 0 where
  sends : (socket : ℕ) → OutFrame → Effect
  closes : (socket : ℕ) (reason : String) → Effect

-- The variables that the handlers of one connection share.
pub record Client : Type 0 where
  pub peer_id : Option String
  pub session_id : Option String
  pub msg_count : ℕ
  pub msg_window_start : ℕ

pub record WsState : Type 0 where
  pub relay : RelayState
  pub connections : Dict String ℕ
  pub session_peers : Dict String (List String)
  pub message_counters : Dict String Counter
  pub ip_counters : Dict String Counter
  pub used_proof_nonces : Dict String ℕ
  pub clients : Dict ℕ Client
  pub out : List Effect

abbrev pub store_of : WsState → Store
store_of st = st.relay.store

abbrev pub with_store : Store → WsState → WsState
with_store s st = record st { relay = record (st.relay) { store = s } }

abbrev pub emit : DomainEvent → WsState → WsState
emit e st = record st { relay = record (st.relay) { events = e ∷ st.relay.events } }

abbrev pub say : ℕ → OutFrame → WsState → WsState
say ws frame st = record st { out = sends ws frame ∷ st.out }

abbrev pub close : ℕ → String → WsState → WsState
close ws reason st = record st { out = closes ws reason ∷ st.out }

-- Assignments to the fields of the session object `r`.
abbrev pub put : ℕ → Session → WsState → WsState
put r o st = with_store (write r o (store_of st)) st

-- `store.save(session)`.
abbrev pub persist : ℕ → WsState → WsState
persist r st = with_store (save r (store_of st)) st

unfoldable pub conn_key : String → String → String
conn_key session_id peer_id = session_id <> (":" <> peer_id)

-- `connectedPeers`: an absent set and an empty one are the same to every reader, so a read adds none.
unfoldable pub connected_peers : String → WsState → List String
connected_peers session_id st = elim (lookup session_id st.session_peers) [
  | none ↦ []
  | some ps ↦ ps
]

unfoldable pub set_add : String → List String → List String
set_add p ps = if contains ps p then ps else ps ++ p ∷ []

unfoldable pub set_delete : String → List String → List String
set_delete p ps = keep_if (λ q. not (q == p)) ps

-- `registerConnection`.
unfoldable pub register_connection : String → String → ℕ → WsState → WsState
unfolding conn_key connected_peers set_add
register_connection session_id peer_id ws st = record st {
  connections = insert (conn_key session_id peer_id) ws st.connections;
  session_peers =
      insert session_id (set_add peer_id (connected_peers session_id st)) st.session_peers;
}

-- `connectedPeers(sessionId).delete(peerId)`.
unfoldable pub drop_presence : String → String → WsState → WsState
unfolding connected_peers set_delete
drop_presence session_id peer_id st = record st {
  session_peers =
      insert session_id (set_delete peer_id (connected_peers session_id st)) st.session_peers;
}

-- `currentPeerId = peerId; currentSessionId = sessionId`.
unfoldable pub bind_client : ℕ → String → String → WsState → WsState
bind_client ws session_id peer_id st = elim (lookup ws st.clients) [
  | none ↦ st
  | some c ↦ record st {
    clients =
        insert ws (record c { peer_id = some peer_id; session_id = some session_id }) st.clients;
  }
]

abbrev pub open_socket : Net → Option ℕ → Option ℕ
open_socket net none = none
open_socket net (some ws) = if net.is_open ws then some ws else none

-- `safeSend`: whether the frame was written.
unfoldable pub safe_send : Net → Option ℕ → OutFrame → WsState → Bool × WsState
safe_send net socket frame st = elim (open_socket net socket) [
  | none ↦ (false, st)
  | some ws ↦ if net.accepts ws then (true, say ws frame st) else (false, st)
]

-- The test that `sendFrame` makes: an open socket, no backpressure, a write that does not throw.
unfoldable pub can_send : Net → WsState → String → String → Bool
unfolding conn_key
can_send net st session_id peer_id =
    elim (open_socket net (lookup (conn_key session_id peer_id) st.connections)) [
      | none ↦ false
      | some ws ↦ leb (net.buffered ws) max_buffered_bytes && net.accepts ws
    ]

-- `sendToMany`: the peers that are written to.
unfoldable pub send_to_many : Net → WsState → String → List String → RelayEnvelope → List String
unfolding can_send
send_to_many net st session_id peer_ids e = keep_if (can_send net st session_id) peer_ids

-- The frame itself, for each peer in turn.
unfoldable pub write_frames : String → List String → OutFrame → WsState → WsState
unfolding conn_key
write_frames session_id [] frame st = st
write_frames session_id (p ∷ ps) frame st =
    write_frames session_id ps frame (elim (lookup (conn_key session_id p) st.connections) [
      | none ↦ st
      | some ws ↦ say ws frame st
    ])

-- `isPeerConnected`.
unfoldable pub is_peer_connected : Net → WsState → String → String → Bool
unfolding conn_key
is_peer_connected net st session_id peer_id =
    elim (lookup (conn_key session_id peer_id) st.connections) [
      | none ↦ false
      | some ws ↦ net.is_open ws
    ]
