-- ===== src/Examples/Joins.antt =====
-- Runs of the `join` frame of the WebSocket transport.
use quantum_bunker.Base.{
  List, ℕ, ◌≡◌, refl, arith, true, false, [], ◌∷◌, Option, none, some, nat_eq, string_eq, contains,
  dec_le, dec_lt, ℕ_discrete, ◌⊎◌, subst,
}
use quantum_bunker.Base.Dict.{lookup, insert, erase, has}
use quantum_bunker.Base.Decimal.{decimal}
use quantum_bunker.Shared.Text.{trim, trim_start, trim_end, every, is_space}
use quantum_bunker.Shared.Membership.{
  valid, verify_membership, issue_membership_token, create_join_proof, canonical_claims,
  canonical_proof,
}
use quantum_bunker.Server.Session.{inherited_names, has_slot}
use quantum_bunker.Server.Presence.{stale_peer_ids}
use quantum_bunker.Server.Store.{get, deref, write, save}
use quantum_bunker.Server.Security.{safe_equal}
use quantum_bunker.Server.Schemas.{
  JoinFrame, parse_join, parse_uuid, parse_peer_id, parse_optional, is_peer_id, is_peer_id_char,
}
use quantum_bunker.Server.Transport.{
  Client, conn_key, connected_peers, set_add, open_socket, safe_send, register_connection,
  bind_client,
}
use quantum_bunker.Server.Transport.Slots.{
  reclaim_stale_slots, erase_all, admit_peer, token_or_new, is_full, seat, sync_presence,
  admitted_peers, broadcast_peer_update, send_each,
}
use quantum_bunker.Server.Transport.Join.{
  enter, join_session, present_membership, join_as_member, consume_proof_nonce, credentials,
  join_as_guest, join_object, join_parsed, on_join,
}
use quantum_bunker.Server.Transport.Messages.{join, dispatch, on_message, count_message}
use quantum_bunker.Server.Transport.Frame.{heap_of}
use quantum_bunker.Server.Transport.Capacity.{IsOk}
use quantum_bunker.Server.Transport.Bounds.{AllOk, insert-AllOk}
use quantum_bunker.Server.Transport.Bounds.Messages.{OwnNames, on_message-AllOk}
use quantum_bunker.Server.Transport.Authority.{host_at, peer_at, Recovers, IsMember}
use quantum_bunker.Server.Transport.Authority.Messages.{
  JoinShows, HostAccepts, on_message-host, on_message-peer,
}
use quantum_bunker.Server.Transport.OneUse.{
  Presentation, NonceStep, presents, prunes, present, run, verdict, present_membership_once,
}
use quantum_bunker.Server.Transport.Inherited.{join_session_inherited}
use quantum_bunker.Examples.Values.{
  net, state, vault, carol_raw, carol_token, carol_proof, recovery_raw, guest_frame,
}

-- The member presents her token and proof, and gets a seat.
carol_enters : peer_at 0 (heap_of (on_message net 3 (join carol_raw) state)) "carol" ≡ true
unfolding on_message count_message dispatch on_join join_parsed join_object join_session
    join_as_guest credentials join_as_member present_membership consume_proof_nonce enter get deref
    write save lookup insert erase has parse_join parse_uuid parse_peer_id parse_optional is_peer_id
    is_peer_id_char every trim trim_start trim_end is_space reclaim_stale_slots erase_all admit_peer
    token_or_new is_full seat sync_presence admitted_peers broadcast_peer_update send_each
    safe_equal verify_membership issue_membership_token create_join_proof canonical_claims
    canonical_proof has_slot stale_peer_ids connected_peers conn_key set_add register_connection
    bind_client safe_send string_eq ℕ_discrete dec_lt dec_le decimal
carol_enters = refl

on_message-peer_example :
    (peer_at 0 (heap_of state) "carol" ≡ true)
    ⊎ (JoinShows net 3 state
          (λ j o. ("carol" ≡ j.peer_id) × (Recovers net j o ⊎ IsMember net j o))
          (join carol_raw)
          0
        ⊎ ((c : Client) × (lookup 3 state.clients ≡ some c)
            × HostAccepts net 3 state c (join carol_raw) 0 "carol"))
unfolding string_eq
on_message-peer_example = on_message-peer net 3 (join carol_raw) state 0 "carol" refl carol_enters

on_message-host_example :
    (host_at 0 (heap_of (on_message net 3 (join recovery_raw) state)) ≡ host_at 0 (heap_of state))
    ⊎ JoinShows net 3 state (Recovers net) (join recovery_raw) 0
on_message-host_example = on_message-host net 3 (join recovery_raw) state 0

carol_own : OwnNames net (join carol_raw)
unfolding parse_join parse_uuid parse_peer_id parse_optional is_peer_id is_peer_id_char every trim
    trim_start trim_end is_space string_eq ℕ_discrete
carol_own j e =
    subst
      (λ (k : Option JoinFrame). elim k [
        | none ↦ Unit {0}
        | some x ↦ contains inherited_names x.peer_id ≡ false
      ])
      e refl

vault-IsOk : IsOk vault
unfolding lookup string_eq
vault-IsOk = record {
  peers_within = omega arith;
  pending_within = omega arith;
  peers_distinct = (refl, (refl, tt));
  pending_distinct = (refl, tt);
}

vault-AllOk : AllOk (heap_of state)
unfolding insert
vault-AllOk = insert-AllOk 0 vault [] vault-IsOk (λ q o h. unfold lookup in cc)

on_message-AllOk_example : AllOk (heap_of (on_message net 3 (join carol_raw) state))
on_message-AllOk_example = on_message-AllOk net 3 (join carol_raw) state carol_own vault-AllOk

-- `lookup` finds no connection of this id.
no_to_string : open_socket net (lookup (conn_key vault.id "toString") state.connections) ≡ none
unfolding lookup conn_key string_eq
no_to_string = refl

-- The id passes the check of peer ids.
to_string_is_peer_id : is_peer_id "toString" ≡ true
unfolding is_peer_id is_peer_id_char every string_eq ℕ_discrete
to_string_is_peer_id = refl

join_session_inherited_example :
    peer_at 0 (heap_of (join_session net 3 0 vault (guest_frame "toString") state)) "toString"
    ≡ true
unfolding string_eq
join_session_inherited_example =
    join_session_inherited net 3 0 vault (guest_frame "toString") state refl refl refl no_to_string

abbrev carol_presents : ℕ → Presentation
carol_presents ws = record {
  net = net;
  ws = ws;
  r = 0;
  session = vault;
  peer_id = "carol";
  host_public = "hk";
  token = carol_token;
  proof = carol_proof;
}

carol_verifies : verdict (carol_presents 3) ≡ valid "ck"
unfolding verify_membership issue_membership_token create_join_proof canonical_claims
    canonical_proof string_eq ℕ_discrete dec_lt dec_le decimal
carol_verifies = refl

-- An attempt with another nonce, and a pruning of what is stale.
abbrev steps_between : List NonceStep
steps_between =
    presents (record (carol_presents 5) { proof = record carol_proof { nonce = "n0" } })
    ∷ prunes 1000
    ∷ []

-- The same token and proof on another socket.
present_membership_once_example :
    (let later = run steps_between (present (carol_presents 3) state) in
      heap_of (present (carol_presents 4) later) ≡ heap_of later)
unfolding create_join_proof has
present_membership_once_example =
    present_membership_once (carol_presents 3) (carol_presents 4) steps_between state "ck" 990
      carol_verifies refl refl refl refl refl (omega arith, tt) (omega arith)
