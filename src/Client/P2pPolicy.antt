-- ===== src/Client/P2pPolicy.antt =====
-- src/transport/p2p-policy.ts: the state machine of a direct link, and what takes the direct path.
use quantum_bunker.Base.{ℕ, ◌*◌, Bool, true, false, not, List, [], ◌∷◌, leb, ltb, if◌then◌else◌}
pub mod Links

abbrev pub p2p_file_threshold_bytes : ℕ
p2p_file_threshold_bytes = 1024 * 1024

abbrev pub relay_fanout_max_peers : ℕ
relay_fanout_max_peers = 3

unfoldable pub exceeds_relay_fanout : ℕ → Bool
exceeds_relay_fanout peer_count = ltb relay_fanout_max_peers peer_count

unfoldable pub requires_direct_path : ℕ → Bool
requires_direct_path byte_size = leb p2p_file_threshold_bytes byte_size

pub data P2pPeerState : Type 0 where
  idle connecting connected failed dropped closed : P2pPeerState

pub data P2pSignalEvent : Type 0 where
  ensure offer answer candidate open_channel fail drop_link close_channel : P2pSignalEvent

abbrev pub is_connected : P2pPeerState → Bool
is_connected connected = true
is_connected _ = false

abbrev pub is_failed : P2pPeerState → Bool
is_failed failed = true
is_failed _ = false

-- `offer`, `answer` and `candidate` share their branch.
unfoldable pub negotiate : P2pPeerState → P2pPeerState
negotiate connected = connected
negotiate failed = failed
negotiate idle = connecting
negotiate connecting = connecting
negotiate dropped = connecting
negotiate closed = connecting

unfoldable pub p2p_reducer : P2pPeerState → P2pSignalEvent → P2pPeerState
unfolding negotiate
p2p_reducer state ensure = if is_connected state then connected else connecting
p2p_reducer state offer = negotiate state
p2p_reducer state answer = negotiate state
p2p_reducer state candidate = negotiate state
p2p_reducer state open_channel = connected
p2p_reducer state fail = if is_connected state then connected else failed
p2p_reducer state drop_link = if is_connected state then dropped else state
p2p_reducer state close_channel = if is_connected state then closed else state

pub data MeshState : Type 0 where
  mesh_connecting mesh_connected mesh_failed mesh_dropped mesh_closed : MeshState

unfoldable pub mesh_state_to_event : MeshState → P2pSignalEvent
mesh_state_to_event mesh_connecting = ensure
mesh_state_to_event mesh_connected = open_channel
mesh_state_to_event mesh_failed = fail
mesh_state_to_event mesh_dropped = drop_link
mesh_state_to_event mesh_closed = close_channel

pub data P2pFailureReason : Type 0 where
  no_stun no_reflexive_candidate symmetric_nat timeout signaling_error peer_left : P2pFailureReason

unfoldable pub classify_ice_failure : (stun_configured gathered_reflexive : Bool) → P2pFailureReason
classify_ice_failure stun_configured gathered_reflexive =
    if not stun_configured
    then no_stun
    else (if not gathered_reflexive then no_reflexive_candidate else symmetric_nat)

-- The state after the events of a link.
unfoldable pub link_after : P2pPeerState → List P2pSignalEvent → P2pPeerState
unfolding p2p_reducer
link_after state [] = state
link_after state (e ∷ es) = link_after (p2p_reducer state e) es
