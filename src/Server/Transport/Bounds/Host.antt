-- ===== src/Server/Transport/Bounds/Host.antt =====
-- No action of the host takes a session past its limits.
use quantum_bunker.Base.{
  ℕ, String, false, not, ◌&&◌, some, ◌≡◌, arith, contains, nat_eq, string_eq, ◌==◌, Bool-cases,
  Option-cases, inl, inr,
}
use quantum_bunker.Base.Dict.{lookup, erase-NodupKeys, length-erase-le}
use quantum_bunker.Server.Session.{Session, inherited_names, has_slot}
use quantum_bunker.Server.Store.{deref}
use quantum_bunker.Server.Schemas.{Field, parse_peer_id}
use quantum_bunker.Server.Transport.{Net, WsState, Client, connected_peers, drop_presence}
use quantum_bunker.Server.Transport.Slots.{admit_peer, sync_presence}
use quantum_bunker.Server.Transport.Host.{
  HostAction, accepts, rejects, kicks, act, as_host, accept, without_peer, current_object,
  on_host_action, applies,
}
use quantum_bunker.Server.Transport.Frame.{
  heap_of, accepted, accept-heap, kick-heap, reject_guest-heap,
}
use quantum_bunker.Server.Transport.Capacity.{IsOk, admit_peer-IsOk, forget_pending-IsOk}
use quantum_bunker.Server.Transport.Bounds.{AllOk, insert-AllOk}

pub current_object-lookup :
    (c : Client) (st : WsState) (r : ℕ) (o : Session)
    → current_object c st ≡ some (r, o)
    → lookup r (heap_of st) ≡ some o
unfolding current_object deref
current_object-lookup c st r o e = ground arith

accept-AllOk :
    (net : Net) (ws r : ℕ) (o : Session) (target : String) (st : WsState)
    → contains inherited_names target ≡ false
    → IsOk o
    → AllOk (heap_of st)
    → AllOk (heap_of (accept net ws r o target st))
accept-AllOk net ws r o target st own ok all =
    let c = connected_peers o.id st in
    let admitted = admit_peer-IsOk net.now net.new_token c o target own ok in
    let o' = (admit_peer net.now net.new_token c o target).1 in
    let ok' : IsOk (accepted net target st o) =
      elim (Option-cases (admit_peer net.now net.new_token c o target).0) [
        | inl full ↦ rw (full, accepted) admitted
        | inr (t, seated) ↦ rw (seated, accepted) (forget_pending-IsOk target o' admitted)
      ] in
    rw (accept-heap net ws r o target st) (insert-AllOk r _ (heap_of st) ok' all)

without_peer-IsOk :
    (net : Net) (target : String) (st : WsState) (o : Session)
    → IsOk o
    → IsOk (without_peer net target st o)
unfolding without_peer sync_presence
without_peer-IsOk net target st o ok = record {
  peers_within = let le = ok.peers_within in omega (arith, length-erase-le {0, 0} target o.peers);
  pending_within = ok.pending_within;
  peers_distinct = erase-NodupKeys target o.peers ok.peers_distinct;
  pending_distinct = ok.pending_distinct;
}

act-AllOk :
    (net : Net) (ws r : ℕ) (o : Session) (action : HostAction) (target : String) (st : WsState)
    → contains inherited_names target ≡ false
    → IsOk o
    → AllOk (heap_of st)
    → AllOk (heap_of (act net ws r o action target st))
unfolding act
act-AllOk net ws r o accepts target st own ok all =
    elim (Bool-cases (has_slot target o.pending_peers)) [
      | inl here ↦ rw (here, act) (accept-AllOk net ws r o target st own ok all)
      | inr gone ↦ rw (gone, act) all
    ]
act-AllOk net ws r o rejects target st own ok all =
    elim (Bool-cases (has_slot target o.pending_peers)) [
      | inl here ↦
          rw (here, act, reject_guest-heap r o target st)
            (insert-AllOk r _ (heap_of st) (forget_pending-IsOk target o ok) all)
      | inr gone ↦ rw (gone, act) all
    ]
act-AllOk net ws r o kicks target st own ok all =
    elim (Bool-cases (has_slot target o.peers && not (target == o.host_id))) [
      | inl here ↦
          rw (here, act, kick-heap net r o target st)
            (insert-AllOk r _ (heap_of st)
              (without_peer-IsOk net target (drop_presence o.id target st) o ok) all)
      | inr gone ↦ rw (gone, act) all
    ]

pub on_host_action-AllOk :
    (net : Net) (ws : ℕ) (c : Client) (action : HostAction) (target : Field) (st : WsState)
    → ((t : String) → parse_peer_id target ≡ some t → contains inherited_names t ≡ false)
    → AllOk (heap_of st)
    → AllOk (heap_of (on_host_action net ws c action target st))
unfolding on_host_action as_host
on_host_action-AllOk net ws c action target st own all = elim (Option-cases c.peer_id) [
  | inl unbound ↦ rw (unbound, on_host_action) all
  | inr (current, bound) ↦ elim (Option-cases (current_object c st)) [
    | inl absent ↦ rw (bound, on_host_action, absent) all
    | inr ((r, o), found) ↦ elim (Bool-cases (o.host_id == current && applies action o)) [
      | inr guest ↦ rw (bound, on_host_action, found, as_host, guest) all
      | inl host ↦ elim (Option-cases (parse_peer_id target)) [
        | inl bad ↦ rw (bound, on_host_action, found, as_host, host, bad) all
        | inr (t, good) ↦
            rw (bound, on_host_action, found, as_host, host, good)
              (act-AllOk net ws r o action t st (own t good)
                (all r o (current_object-lookup c st r o found)) all)
      ]
    ]
  ]
]
