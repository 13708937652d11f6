-- ===== src/Server/Transport/Join.antt =====
-- ws.transport.ts, `handleConnection`: a `join` frame. Each branch of the handler is a function over
-- the session object `r`, whose present value is `o`.
use quantum_bunker.Base.{
  ℕ, String, ◌<>◌, Bool, true, false, [], ◌∷◌, Option, none, some, leb, if◌then◌else◌, ◌==◌, length,
  nat_eq, string_eq,
}
use quantum_bunker.Base.Dict.{Dict, lookup, insert, erase, has}
use quantum_bunker.Limits.{max_pending_peers, nonce_cache_max}
use quantum_bunker.Shared.Membership.{MembershipToken, JoinProof, valid, invalid, verify_membership}
use quantum_bunker.Server.Session.{Session, has_slot}
use quantum_bunker.Server.Store.{get, deref}
use quantum_bunker.Server.Schemas.{JoinFrame, RawJoin, parse_join}
use quantum_bunker.Server.Security.{safe_equal}
use quantum_bunker.Server.Transport.{
  Net, WsState, store_of, say, close, put, persist, conn_key, connected_peers, register_connection,
  bind_client, open_socket, joined, error, pending, join_request,
}
use quantum_bunker.Server.Transport.Slots.{
  reclaim_stale_slots, admit_peer, is_full, broadcast_peer_update,
}

-- The end of each admitting branch: bind the socket, admit, save, answer, tell everybody.
unfoldable pub enter :
    Net → ℕ → ℕ → Session → String → (is_host via_membership : Bool) → WsState → WsState
unfolding bind_client register_connection connected_peers
enter net ws r o peer_id is_host via_membership st =
    let st₁ = register_connection o.id peer_id ws (bind_client ws o.id peer_id st) in
    let (token, o') = admit_peer net.now net.new_token (connected_peers o.id st₁) o peer_id in
    let st₂ = put r o' st₁ in
    elim token [
      | none ↦ say ws (error none "Session full") st₂
      | some t ↦
          broadcast_peer_update net o'
            (say ws (joined o.id peer_id is_host t via_membership) (persist r st₂))
    ]

-- `if (session.hostId !== peerId) { delete session.peers[session.hostId]; session.hostId = peerId; }`
unfoldable pub take_over : Session → String → Session
take_over o peer_id =
    if o.host_id == peer_id
    then o
    else record o { peers = erase o.host_id o.peers; host_id = peer_id }

unfoldable pub join_as_host : Net → ℕ → ℕ → Session → String → WsState → WsState
unfolding take_over enter
join_as_host net ws r o peer_id st =
    let o' = take_over o peer_id in enter net ws r o' peer_id true false (put r o' st)

unfoldable pub refuse : ℕ → String → WsState → WsState
refuse ws message st = close ws message (say ws (error (some "INVALID_PEER_TOKEN") message) st)

-- Rejoining an admitted id, by its token or, when its old socket is not open, without.
unfoldable pub rejoin : Net → ℕ → ℕ → Session → JoinFrame → WsState → WsState
unfolding enter conn_key refuse
rejoin net ws r o j st =
    let peer = lookup j.peer_id o.peers in
    let token : Option String = elim peer [ none ↦ none | some p ↦ p.token ] in
    if safe_equal net.sha256 j.peer_token token
    then enter net ws r o j.peer_id false false st
    else elim (open_socket net (lookup (conn_key o.id j.peer_id) st.connections)) [
      | some old ↦ refuse ws "Invalid peer credentials" st
      | none ↦ enter net ws r o j.peer_id false false st
    ]

-- `consumeProofNonce`: false if the nonce was used before.
unfoldable pub drop_first : Dict String ℕ → Dict String ℕ
drop_first [] = []
drop_first (_ ∷ d) = d

unfoldable pub consume_proof_nonce : ℕ → String → String → Dict String ℕ → Bool × Dict String ℕ
unfolding drop_first
consume_proof_nonce now session_id nonce used =
    let key = session_id <> (":" <> nonce) in
    let room = if leb nonce_cache_max (length used) then drop_first used else used in
    if has key used then (false, used) else (true, insert key now room)

unfoldable pub invalid_membership : ℕ → String → WsState → WsState
invalid_membership ws reason st = say ws (error (some "INVALID_MEMBERSHIP") reason) st

-- The token is decoded; the proof is checked and its nonce consumed.
unfoldable pub present_membership :
    Net
    → ℕ
    → ℕ
    → Session
    → String
    → (host_public : String) → MembershipToken
    → JoinProof
    → WsState
    → WsState
unfolding enter consume_proof_nonce invalid_membership
present_membership net ws r o peer_id host_public token proof st =
    let (fresh, used) = consume_proof_nonce net.now o.id proof.nonce st.used_proof_nonces in
    let st' = record st { used_proof_nonces = used } in
    elim (verify_membership net.ed25519 host_public o.id peer_id token proof net.now) [
      | invalid reason ↦ invalid_membership ws reason st
      | valid member ↦
          if fresh
          then enter net ws r o peer_id false true st'
          else invalid_membership ws "Join proof already used" st'
    ]

unfoldable pub join_as_member :
    Net → ℕ → ℕ → Session → String → (token host_public : String) → JoinProof → WsState → WsState
unfolding present_membership
join_as_member net ws r o peer_id token host_public proof st = elim (net.decode_token token) [
  | none ↦ invalid_membership ws "Malformed membership token" st
  | some t ↦ present_membership net ws r o peer_id host_public t proof st
]

abbrev pub message_or_default : Option String → String
message_or_default none = "Wants to join"
message_or_default (some m) = if m == "" then "Wants to join" else m

unfoldable pub bind_pending : ℕ → Session → String → WsState → WsState
unfolding bind_client register_connection
bind_pending ws o peer_id st = register_connection o.id peer_id ws (bind_client ws o.id peer_id st)

unfoldable pub waiting : ℕ → WsState → WsState
waiting ws st = say ws (pending "Waiting for host approval...") st

unfoldable pub add_pending : ℕ → String → Option String → Session → Session
add_pending now peer_id message o = record o {
  pending_peers =
      insert peer_id
        (record { id = peer_id; message = message_or_default message; requested_at = now })
        o.pending_peers;
}

-- A guest with the host's socket at hand.
unfoldable pub ask_host : Net → ℕ → ℕ → Session → JoinFrame → (host_ws : ℕ) → WsState → WsState
unfolding bind_pending waiting add_pending
ask_host net ws r o j host_ws st =
    if has_slot j.peer_id o.pending_peers
    then waiting ws (bind_pending ws o j.peer_id st)
    else (if leb max_pending_peers (length o.pending_peers)
        then say ws (error none "Too many pending join requests") st
        else let st₁ = persist r (put r (add_pending net.now j.peer_id j.message o) st) in
          waiting ws (
            say host_ws (join_request j.peer_id (message_or_default j.message))
              (bind_pending ws o j.peer_id st₁)))

unfoldable pub request_join : Net → ℕ → ℕ → Session → JoinFrame → WsState → WsState
unfolding ask_host conn_key
request_join net ws r o j st =
    elim (open_socket net (lookup (conn_key o.id o.host_id) st.connections)) [
      | none ↦ say ws (error none "Host is offline") st
      | some host_ws ↦ ask_host net ws r o j host_ws st
    ]

pub record Credentials : Type 0 where
  pub token : String
  pub proof : JoinProof
  pub host_public : String

abbrev pub nonempty : Option String → Option String
nonempty none = none
nonempty (some s) = if s == "" then none else some s

-- `join.membershipToken && join.joinProof && session.hostPublicKey`
unfoldable pub credentials : JoinFrame → Session → Option Credentials
credentials j o = elim (nonempty j.membership_token) [
  | none ↦ none
  | some t ↦ elim j.join_proof [
    | none ↦ none
    | some p ↦ elim (nonempty o.host_public_key) [
      | none ↦ none
      | some k ↦ some (record { token = t; proof = p; host_public = k })
    ]
  ]
]

-- A peer that is not in the session, and not its host.
unfoldable pub join_as_guest : Net → ℕ → ℕ → Session → JoinFrame → WsState → WsState
unfolding join_as_member request_join
join_as_guest net ws r o j st = elim (credentials j o) [
  | some c ↦ join_as_member net ws r o j.peer_id c.token c.host_public c.proof st
  | none ↦ request_join net ws r o j st
]

-- The branches of the handler once the session is found and its stale slots are reclaimed.
unfoldable pub join_session : Net → ℕ → ℕ → Session → JoinFrame → WsState → WsState
unfolding join_as_host rejoin join_as_guest refuse
join_session net ws r o j st =
    if is_full o j.peer_id
    then say ws (error none "Session full") st
    else (if safe_equal net.sha256 j.host_recovery_token (some o.host_recovery_token)
        then join_as_host net ws r o j.peer_id st
        else (if j.peer_id == o.host_id
            then refuse ws "Invalid host credentials" st
            else (if has_slot j.peer_id o.peers
                then rejoin net ws r o j st
                else join_as_guest net ws r o j st)))

unfoldable pub join_object : Net → ℕ → ℕ → Session → JoinFrame → WsState → WsState
unfolding join_session connected_peers
join_object net ws r o j st =
    let o' = reclaim_stale_slots net.now (connected_peers o.id st) o in
    join_session net ws r o' j (put r o' st)

unfoldable pub join_parsed : Net → ℕ → JoinFrame → WsState → WsState
unfolding join_object
join_parsed net ws j st = elim (get j.session_id (store_of st)) [
  | none ↦ say ws (error none "Session not found") st
  | some r ↦ elim (deref r (store_of st)) [ none ↦ st | some o ↦ join_object net ws r o j st ]
]

unfoldable pub on_join : Net → ℕ → RawJoin → WsState → WsState
unfolding join_parsed
on_join net ws raw st = elim (parse_join net.is_uuid raw) [
  | none ↦ say ws (error (some "INVALID_PEER_ID") "Invalid join frame") st
  | some j ↦ join_parsed net ws j st
]
