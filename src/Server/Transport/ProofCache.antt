-- ===== src/Server/Transport/ProofCache.antt =====
-- ws.transport.ts, `usedProofNonces`: which operations leave the cache of nonces alone, and what the
-- others leave of it.
use quantum_bunker.Base.{
  ℕ, ◌+◌, ◌≤◌, ◌<◌, String, ◌<>◌, true, false, List, [], ◌∷◌, ◌≡◌, refl, ◌∙◌, arith, string_eq,
  length, inl, inr, if◌then◌else◌, Bool, Option, some, Option-cases, nat_eq,
}
use quantum_bunker.Base.Dict.{
  Dict, has, lookup, has-lookup, lookup-insert, lookup-retain-some, length-insert, length-retain-le,
}
use quantum_bunker.Limits.{nonce_cache_max}
use quantum_bunker.Server.Session.{Session}
use quantum_bunker.Server.Transport.{
  Net, WsState, OutFrame, safe_send, bind_client, register_connection, connected_peers, say, put,
  persist, joined, peer_update,
}
use quantum_bunker.Server.Transport.Slots.{
  admit_peer, admitted_peers, send_each, broadcast_peer_update,
}
use quantum_bunker.Server.Transport.Join.{drop_first, consume_proof_nonce, enter}
use quantum_bunker.Server.Transport.Lifecycle.{prune_stale_counters}

-- Talking to sockets, binding them and admitting leave the cache alone.
safe_send-used :
    (net : Net) (ws : Option ℕ) (f : OutFrame) (st : WsState)
    → (safe_send net ws f st).1.used_proof_nonces ≡ st.used_proof_nonces
unfolding safe_send
safe_send-used net ws f st = ground arith

send_each-used :
    (net : Net) (sid : String) (f : OutFrame) (ps : List String) (st : WsState)
    → (send_each net sid f ps st).used_proof_nonces ≡ st.used_proof_nonces
unfolding send_each
send_each-used net sid f [] st = refl
send_each-used net sid f (p ∷ ps) st = send_each-used net sid f ps _ ∙ safe_send-used net _ f st

broadcast_peer_update-used :
    (net : Net) (o : Session) (st : WsState)
    → (broadcast_peer_update net o st).used_proof_nonces ≡ st.used_proof_nonces
unfolding broadcast_peer_update
broadcast_peer_update-used net o st =
    let peers = admitted_peers (connected_peers o.id st) o in
    send_each-used net o.id (peer_update peers o.is_group) peers st

bind_client-used :
    (ws : ℕ) (sid pid : String) (st : WsState)
    → (bind_client ws sid pid st).used_proof_nonces ≡ st.used_proof_nonces
unfolding bind_client
bind_client-used ws sid pid st = ground arith

pub enter-used :
    (net : Net) (ws r : ℕ) (o : Session) (pid : String) (h m : Bool) (st : WsState)
    → (enter net ws r o pid h m st).used_proof_nonces ≡ st.used_proof_nonces
unfolding enter register_connection
enter-used net ws r o pid h m st =
    let bound = bind_client ws o.id pid st in
    let st₁ = register_connection o.id pid ws bound in
    let (token, o') = admit_peer net.now net.new_token (connected_peers o.id st₁) o pid in
    elim (Option-cases token) [
      | inl full ↦ ground (arith, full, bind_client-used ws o.id pid st)
      | inr (t, seated) ↦
          let said = say ws (joined o.id pid h t m) (persist r (put r o' st₁)) in
          ground
            (arith, seated, bind_client-used ws o.id pid st, broadcast_peer_update-used net o' said)
    ]

abbrev pub proof_key : String → String → String
proof_key sid nonce = sid <> (":" <> nonce)

pub consume_proof_nonce-has :
    (now : ℕ) (sid nonce : String) (used : Dict String ℕ)
    → (consume_proof_nonce now sid nonce used).0
      ≡ (if has (proof_key sid nonce) used then false else true)
unfolding consume_proof_nonce
consume_proof_nonce-has now sid nonce used = ground arith

pub consume_proof_nonce_records :
    (now : ℕ) (sid nonce : String) (used : Dict String ℕ)
    → has (proof_key sid nonce) used ≡ false
    → lookup (proof_key sid nonce) (consume_proof_nonce now sid nonce used).1 ≡ some now
unfolding consume_proof_nonce
consume_proof_nonce_records now sid nonce used new =
    let k = proof_key sid nonce in
    ground (arith, new, lookup-insert k k now (drop_first used), lookup-insert k k now used)

pub length-consume_proof_nonce-le :
    (now : ℕ) (sid nonce : String) (used : Dict String ℕ)
    → length (consume_proof_nonce now sid nonce used).1 ≤ length used + 1
unfolding consume_proof_nonce drop_first
length-consume_proof_nonce-le now sid nonce [] =
    ground (arith, length-insert (proof_key sid nonce) now [])
length-consume_proof_nonce-le now sid nonce (u ∷ used) = ground (
  arith,
  length-insert (proof_key sid nonce) now used,
  length-insert (proof_key sid nonce) now (u ∷ used),
)

-- Another nonce stays where there is room.
pub consume_proof_nonce_keeps :
    (now : ℕ) (sid nonce : String) (used : Dict String ℕ) (k : String) (at : ℕ)
    → length used < nonce_cache_max
    → lookup k used ≡ some at
    → lookup k (consume_proof_nonce now sid nonce used).1 ≡ some at
unfolding consume_proof_nonce
consume_proof_nonce_keeps now sid nonce used k at room h =
    ground
      (arith, lookup-insert k (proof_key sid nonce) now used, has-lookup (proof_key sid nonce) used)

-- A nonce stays for two minutes.
pub prune_stale_counters_keeps :
    (now : ℕ) (st : WsState) (k : String) (at : ℕ)
    → now ≤ at + 120000
    → lookup k st.used_proof_nonces ≡ some at
    → lookup k (prune_stale_counters now st).used_proof_nonces ≡ some at
unfolding prune_stale_counters
prune_stale_counters_keeps now st k at soon h =
    lookup-retain-some _ k at st.used_proof_nonces h (ground (arith, soon))

pub length-prune_stale_counters-le :
    (now : ℕ) (st : WsState)
    → length (prune_stale_counters now st).used_proof_nonces ≤ length st.used_proof_nonces
unfolding prune_stale_counters
length-prune_stale_counters-le now st = length-retain-le _ st.used_proof_nonces
