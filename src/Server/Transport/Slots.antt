-- ===== src/Server/Transport/Slots.antt =====
-- ws.transport.ts: `syncPresence`, `reclaimStaleSlots`, `admittedPeers`, `admitPeer`,
-- `broadcastPeerUpdate`, as functions of the session object and the connected peers.
use quantum_bunker.Base.{
  ℕ, String, Bool, true, not, ◌&&◌, List, [], ◌∷◌, Option, none, some, leb, ltb, if◌then◌else◌,
  ◌==◌, keep_if, length, nat_eq, string_eq,
}
use quantum_bunker.Base.Dict.{Dict, lookup, insert, erase, has}
use quantum_bunker.Limits.{reconnect_grace_ms}
use quantum_bunker.Server.Session.{Session, SessionPeer, SessionStatus, has_slot}
use quantum_bunker.Server.Presence.{stale_peer_ids}
use quantum_bunker.Server.Transport.{
  Net, WsState, conn_key, connected_peers, safe_send, peer_update, OutFrame,
}

unfoldable pub admitted_peers : List String → Session → List String
admitted_peers connected o = keep_if (λ id. has id o.peers) connected

-- `session.emptySince ?? Date.now()`.
abbrev pub or_now : Option ℕ → ℕ → ℕ
or_now none now = now
or_now (some t) now = t

unfoldable pub sync_presence : ℕ → List String → Session → Session
unfolding admitted_peers
sync_presence now connected o =
    let n = length (admitted_peers connected o) in
    record o {
      participant_count = n;
      empty_since = if n == 0 then some (or_now o.empty_since now) else none;
    }

unfoldable pub erase_all : List String → Dict String SessionPeer → Dict String SessionPeer
erase_all [] peers = peers
erase_all (id ∷ ids) peers = erase_all ids (erase id peers)

unfoldable pub reclaim_stale_slots : ℕ → List String → Session → Session
unfolding erase_all
reclaim_stale_slots now connected o = record o {
  peers = erase_all (stale_peer_ids o.peers connected o.host_id now reconnect_grace_ms) o.peers;
}

-- `session.peers[peerId]?.token || newToken()`.
unfoldable pub token_or_new : Option SessionPeer → String → String
token_or_new none fresh = fresh
token_or_new (some p) fresh = elim p.token [ none ↦ fresh | some t ↦ if t == "" then fresh else t ]

unfoldable pub is_full : Session → String → Bool
is_full o peer_id = not (has_slot peer_id o.peers) && leb o.max_peers (length o.peers)

unfoldable pub seat : ℕ → String → List String → Session → String → Session
unfolding sync_presence
seat now token connected o peer_id =
    let peer : SessionPeer = record {
      id = peer_id;
      joined_at = now;
      last_seen_at = now;
      token = some token;
    } in
    let seated = sync_presence now connected (record o { peers = insert peer_id peer o.peers }) in
    record seated {
      is_group = if ltb 2 seated.participant_count then true else seated.is_group;
      status = SessionStatus.active;
    }

-- `admitPeer`: the token, or none when the session is full, and the session.
unfoldable pub admit_peer : ℕ → String → List String → Session → String → Option String × Session
unfolding reclaim_stale_slots token_or_new is_full seat
admit_peer now fresh connected o peer_id =
    let o' = reclaim_stale_slots now connected o in
    let token = token_or_new (lookup peer_id o'.peers) fresh in
    if is_full o' peer_id then (none, o') else (some token, seat now token connected o' peer_id)

-- The loop of `broadcastPeerUpdate`.
unfoldable pub send_each : Net → String → OutFrame → List String → WsState → WsState
unfolding conn_key safe_send
send_each net session_id frame [] st = st
send_each net session_id frame (p ∷ ps) st =
    send_each net session_id frame ps
      (safe_send net (lookup (conn_key session_id p) st.connections) frame st).1

unfoldable pub broadcast_peer_update : Net → Session → WsState → WsState
unfolding admitted_peers send_each
broadcast_peer_update net o st =
    let peers = admitted_peers (connected_peers o.id st) o in
    send_each net o.id (peer_update peers o.is_group) peers st
