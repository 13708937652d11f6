-- ===== src/Server/Transport/Frame.antt =====
-- Which session objects an operation of the transport writes: every branch assigns to the fields of one
-- object at most, and talking to sockets assigns to none.
use quantum_bunker.Base.{
  ℕ, String, Bool, List, [], ◌∷◌, Option, none, some, ◌≡◌, refl, ◌∙◌, arith, nat_eq, string_eq,
  Option-cases, inl, inr,
}
use quantum_bunker.Base.Dict.{Dict, insert}
use quantum_bunker.Server.Session.{Session}
use quantum_bunker.Server.Store.{Store, save, write}
use quantum_bunker.Server.Transport.{
  Net, WsState, store_of, OutFrame, safe_send, connected_peers, register_connection, bind_client,
  drop_presence, say, put, persist, joined, peer_update, error,
}
use quantum_bunker.Server.Transport.Slots.{
  admit_peer, admitted_peers, send_each, broadcast_peer_update,
}
use quantum_bunker.Server.Transport.Join.{enter, bind_pending}
use quantum_bunker.Server.Transport.Host.{
  accept, reject_guest, kick, dismiss, forget_pending, without_peer, answer_accepted,
}

abbrev pub heap_of : WsState → Dict ℕ Session
heap_of st = st.relay.store.heap

pub save-heap : (r : ℕ) (s : Store) → (save r s).heap ≡ s.heap
unfolding save
save-heap r s = ground arith

pub safe_send-relay :
    (net : Net) (ws : Option ℕ) (f : OutFrame) (st : WsState)
    → (safe_send net ws f st).1.relay ≡ st.relay
unfolding safe_send
safe_send-relay net ws f st = ground arith

send_each-relay :
    (net : Net) (sid : String) (f : OutFrame) (ps : List String) (st : WsState)
    → (send_each net sid f ps st).relay ≡ st.relay
unfolding send_each
send_each-relay net sid f [] st = refl
send_each-relay net sid f (p ∷ ps) st = send_each-relay net sid f ps _ ∙ safe_send-relay net _ f st

pub broadcast_peer_update-relay :
    (net : Net) (o : Session) (st : WsState) → (broadcast_peer_update net o st).relay ≡ st.relay
unfolding broadcast_peer_update
broadcast_peer_update-relay net o st =
    let peers = admitted_peers (connected_peers o.id st) o in
    send_each-relay net o.id (peer_update peers o.is_group) peers st

pub bind_client-relay :
    (ws : ℕ) (sid pid : String) (st : WsState) → (bind_client ws sid pid st).relay ≡ st.relay
unfolding bind_client
bind_client-relay ws sid pid st = ground arith

pub register_connection-relay :
    (sid pid : String) (ws : ℕ) (st : WsState)
    → (register_connection sid pid ws st).relay ≡ st.relay
unfolding register_connection
register_connection-relay sid pid ws st = refl

-- The connected peers of the session when `enter` admits.
abbrev pub joined_peers : ℕ → Session → String → WsState → List String
joined_peers ws o pid st =
    connected_peers o.id (register_connection o.id pid ws (bind_client ws o.id pid st))

enter_relay :
    (ws : ℕ) (o : Session) (pid : String) (st : WsState)
    → (register_connection o.id pid ws (bind_client ws o.id pid st)).relay ≡ st.relay
enter_relay ws o pid st =
    register_connection-relay o.id pid ws (bind_client ws o.id pid st)
    ∙ bind_client-relay ws o.id pid st

pub drop_presence-relay :
    (sid pid : String) (st : WsState) → (drop_presence sid pid st).relay ≡ st.relay
unfolding drop_presence
drop_presence-relay sid pid st = refl

pub enter-heap :
    (net : Net) (ws r : ℕ) (o : Session) (pid : String) (h m : Bool) (st : WsState)
    → heap_of (enter net ws r o pid h m st)
      ≡ insert r (admit_peer net.now net.new_token (joined_peers ws o pid st) o pid).1 (heap_of st)
unfolding enter write
enter-heap net ws r o pid h m st =
    let st₁ = register_connection o.id pid ws (bind_client ws o.id pid st) in
    let (token, o') = admit_peer net.now net.new_token (joined_peers ws o pid st) o pid in
    elim (Option-cases token) [
      | inl full ↦ ground (arith, full, enter_relay ws o pid st)
      | inr (t, seated) ↦
          let said = say ws (joined o.id pid h t m) (persist r (put r o' st₁)) in
          ground (
            arith,
            seated,
            enter_relay ws o pid st,
            broadcast_peer_update-relay net o' said,
            save-heap r (write r o' (store_of st₁)),
          )
    ]

pub dismiss-relay :
    (sid target message reason : String) (st : WsState)
    → (dismiss sid target message reason st).relay ≡ st.relay
unfolding dismiss
dismiss-relay sid target message reason st = ground arith

pub reject_guest-heap :
    (r : ℕ) (o : Session) (target : String) (st : WsState)
    → heap_of (reject_guest r o target st) ≡ insert r (forget_pending target o) (heap_of st)
unfolding reject_guest write
reject_guest-heap r o target st =
    let o' = forget_pending target o in
    let saved = persist r (put r o' st) in
    ground (
      arith,
      dismiss-relay o.id target "Join rejected by host" "Join rejected" saved,
      save-heap r (write r o' (store_of st)),
    )

pub kick-heap :
    (net : Net) (r : ℕ) (o : Session) (target : String) (st : WsState)
    → heap_of (kick net r o target st)
      ≡ insert r (without_peer net target (drop_presence o.id target st) o) (heap_of st)
unfolding kick write
kick-heap net r o target st =
    let st₁ = drop_presence o.id target st in
    let o' = without_peer net target st₁ o in
    let saved = persist r (put r o' st₁) in
    let said = dismiss o.id target "You have been kicked by the host" "Kicked by host" saved in
    ground (
      arith,
      broadcast_peer_update-relay net o' said,
      dismiss-relay o.id target "You have been kicked by the host" "Kicked by host" saved,
      save-heap r (write r o' (store_of st₁)),
      drop_presence-relay o.id target st,
    )

-- What an acceptance leaves of the session.
abbrev pub accepted : Net → String → WsState → Session → Session
accepted net target st o =
    let (token, o') = admit_peer net.now net.new_token (connected_peers o.id st) o target in
    elim token [ none ↦ o' | some t ↦ forget_pending target o' ]

answer_accepted-relay :
    (sid target token : String) (st : WsState)
    → (answer_accepted sid target token st).relay ≡ st.relay
unfolding answer_accepted
answer_accepted-relay sid target token st = ground arith

pub accept-heap :
    (net : Net) (ws r : ℕ) (o : Session) (target : String) (st : WsState)
    → heap_of (accept net ws r o target st) ≡ insert r (accepted net target st o) (heap_of st)
unfolding accept write
accept-heap net ws r o target st =
    let (token, o') = admit_peer net.now net.new_token (connected_peers o.id st) o target in
    elim (Option-cases token) [
      | inl full ↦
          let f = error (some "PEER_LIMIT_REACHED") "Session is full" in
          ground (arith, full, safe_send-relay net (some ws) f (put r o' st))
      | inr (t, seated) ↦
          let o'' = forget_pending target o' in
          let saved = persist r (put r o'' st) in
          ground (
            arith,
            seated,
            broadcast_peer_update-relay net o'' (answer_accepted o.id target t saved),
            answer_accepted-relay o.id target t saved,
            save-heap r (write r o'' (store_of st)),
          )
    ]

pub bind_pending-relay :
    (ws : ℕ) (o : Session) (pid : String) (st : WsState)
    → (bind_pending ws o pid st).relay ≡ st.relay
unfolding bind_pending
bind_pending-relay ws o pid st = enter_relay ws o pid st
