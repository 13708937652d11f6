-- ===== src/Server/Presence.antt =====
-- src/backend/core/policies/presence.policy.ts. `peer.lastSeenAt > now - graceMs` is written with
-- the subtraction moved to the other side.
use quantum_bunker.Base.{
  ℕ, ◌+◌, String, Bool, ◌||◌, List, [], ◌∷◌, ltb, if◌then◌else◌, ◌==◌, contains, string_eq,
}
use quantum_bunker.Base.Dict.{Dict}
use quantum_bunker.Server.Session.{SessionPeer}

abbrev pub keeps_slot : List String → String → ℕ → ℕ → String → SessionPeer → Bool
keeps_slot connected host_id now grace id peer =
    id == host_id || (contains connected id || ltb now (peer.last_seen_at + grace))

unfoldable pub stale_peer_ids : Dict String SessionPeer → List String → String → ℕ → ℕ → List String
stale_peer_ids [] connected host_id now grace = []
stale_peer_ids ((id, peer) ∷ peers) connected host_id now grace =
    let rest = stale_peer_ids peers connected host_id now grace in
    if keeps_slot connected host_id now grace id peer then rest else id ∷ rest
