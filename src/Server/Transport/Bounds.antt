-- ===== src/Server/Transport/Bounds.antt =====
-- No `join` frame takes a session past its limits.
use quantum_bunker.Base.{
  ℕ, ◌≤◌, String, Bool, true, false, not, ◌&&◌, List, Option, none, some, ◌≡◌, refl, arith, length,
  contains, nat_eq, string_eq, ◌==◌, if◌then◌else◌, Bool-cases, Option-cases, inl, inr, subst, sym,
}
use quantum_bunker.Base.Dict.{
  Dict, lookup, insert, lookup-insert, erase, NodupKeys, insert-NodupKeys, erase-NodupKeys,
  length-erase-le, length-insert, has,
}
use quantum_bunker.Server.Session.{Session, inherited_names, has_slot}
use quantum_bunker.Server.Store.{get, deref, touch, write}
use quantum_bunker.Server.Schemas.{Field, RawJoin, JoinFrame, parse_join, parse_peer_id}
use quantum_bunker.Server.Relay.{execute}
use quantum_bunker.Server.Relay.Outcomes.{execute_outcome}
use quantum_bunker.Server.Events.{RelayEnvelope}
use quantum_bunker.Server.Transport.{
  Net, WsState, Client, store_of, put, connected_peers, drop_presence, send_to_many,
}
use quantum_bunker.Server.Transport.Slots.{admit_peer, reclaim_stale_slots, sync_presence}
use quantum_bunker.Server.Transport.Join.{
  enter, take_over, join_as_host, join_session, join_object, join_parsed, on_join,
}
use quantum_bunker.Server.Transport.Host.{
  HostAction, accepts, rejects, kicks, act, as_host, accept, kick, without_peer, current_object,
  on_host_action, forget_pending,
}
use quantum_bunker.Server.Transport.Frame.{
  heap_of, enter-heap, joined_peers, accepted, accept-heap, kick-heap, reject_guest-heap,
}
use quantum_bunker.Server.Transport.Branches.{join_session_cases}
use quantum_bunker.Server.Transport.Capacity.{
  IsOk, reclaim-IsOk, admit_peer-IsOk, take_over-IsOk, add_pending-IsOk, forget_pending-IsOk,
}
pub mod Host
pub mod Messages

-- Every session object is within its limits.
abbrev pub AllOk : Dict ℕ Session → Type 0
AllOk heap = (q : ℕ) (o : Session) → lookup q heap ≡ some o → IsOk o

pub insert-AllOk :
    (r : ℕ) (o : Session) (heap : Dict ℕ Session) → IsOk o → AllOk heap → AllOk (insert r o heap)
insert-AllOk r o heap ok all q o' e = elim (Bool-cases (q == r)) [
  | inl same ↦ subst IsOk (ground (arith, lookup-insert q r o heap)) ok
  | inr other ↦ all q o' (ground (arith, lookup-insert q r o heap))
]

enter-AllOk :
    (net : Net) (ws r : ℕ) (o : Session) (p : String) (h m : Bool) (st : WsState)
    → contains inherited_names p ≡ false
    → IsOk o
    → AllOk (heap_of st)
    → AllOk (heap_of (enter net ws r o p h m st))
enter-AllOk net ws r o p h m st own ok all = rw (enter-heap net ws r o p h m st) (
    insert-AllOk r _ (heap_of st)
      (admit_peer-IsOk net.now net.new_token (joined_peers ws o p st) o p own ok) all)

join_as_host-AllOk :
    (net : Net) (ws r : ℕ) (o : Session) (p : String) (st : WsState)
    → contains inherited_names p ≡ false
    → IsOk o
    → AllOk (heap_of st)
    → AllOk (heap_of (join_as_host net ws r o p st))
unfolding join_as_host
join_as_host-AllOk net ws r o p st own ok all =
    let ok' = take_over-IsOk o p ok in
    enter-AllOk net ws r (take_over o p) p true false (put r (take_over o p) st) own ok'
      (unfold write in insert-AllOk r (take_over o p) (heap_of st) ok' all)

join_session-AllOk :
    (net : Net) (ws r : ℕ) (o : Session) (j : JoinFrame) (st : WsState)
    → contains inherited_names j.peer_id ≡ false
    → IsOk o
    → AllOk (heap_of st)
    → AllOk (heap_of (join_session net ws r o j st))
join_session-AllOk net ws r o j st own ok all =
    join_session_cases (λ st'. AllOk (heap_of st')) net ws r o j st (λ st' e. rw e all)
      (λ c t m used _ _ _. enter-AllOk net ws r o j.peer_id false true _ own ok all)
      (λ st' _ room e. rw e (
        unfold write in
        insert-AllOk r _ (heap_of st) (add_pending-IsOk net.now j.peer_id j.message o room ok) all))
      (λ _ _. join_as_host-AllOk net ws r o j.peer_id st own ok all)
      (λ _ _. enter-AllOk net ws r o j.peer_id false false st own ok all)

pub put-AllOk :
    (r : ℕ) (o : Session) (st : WsState)
    → IsOk o
    → AllOk (heap_of st)
    → AllOk (heap_of (put r o st))
unfolding write
put-AllOk r o st ok all = insert-AllOk r o (heap_of st) ok all

join_object-AllOk :
    (net : Net) (ws r : ℕ) (o : Session) (j : JoinFrame) (st : WsState)
    → contains inherited_names j.peer_id ≡ false
    → IsOk o
    → AllOk (heap_of st)
    → AllOk (heap_of (join_object net ws r o j st))
unfolding join_object
join_object-AllOk net ws r o j st own ok all =
    let c = connected_peers o.id st in
    let ok' = reclaim-IsOk net.now c o ok in
    join_session-AllOk net ws r (reclaim_stale_slots net.now c o) j _ own ok'
      (put-AllOk r (reclaim_stale_slots net.now c o) st ok' all)

pub join_parsed-AllOk :
    (net : Net) (ws : ℕ) (j : JoinFrame) (st : WsState)
    → contains inherited_names j.peer_id ≡ false
    → AllOk (heap_of st)
    → AllOk (heap_of (join_parsed net ws j st))
unfolding join_parsed deref
join_parsed-AllOk net ws j st own all = elim (Option-cases (get j.session_id (store_of st))) [
  | inl absent ↦ rw (absent, join_parsed) all
  | inr (r, found) ↦ elim (Option-cases (lookup r (heap_of st))) [
    | inl dangling ↦ rw (found, join_parsed, dangling) all
    | inr (o, e) ↦
        rw (found, join_parsed, e) (join_object-AllOk net ws r o j st own (all r o e) all)
  ]
]
