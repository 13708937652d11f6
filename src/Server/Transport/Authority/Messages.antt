-- ===== src/Server/Transport/Authority/Messages.antt =====
-- Over all messages: who becomes host, and who gets a seat.
use quantum_bunker.Base.{
  ℕ, String, true, false, some, ◌≡◌, refl, ◌∙◌, sym, arith, contains, nat_eq, string_eq, Bool-cases,
  Option-cases, ap, ◌⊎◌, inl, inr,
}
use quantum_bunker.Base.Dict.{lookup, insert, lookup-insert}
use quantum_bunker.Server.Session.{Session, inherited_names, has_slot}
use quantum_bunker.Server.Store.{get, deref, write, touch}
use quantum_bunker.Server.Schemas.{Field, RawJoin, JoinFrame, parse_join, parse_peer_id}
use quantum_bunker.Server.Transport.{Net, WsState, Client, store_of, put, connected_peers}
use quantum_bunker.Server.Transport.Slots.{reclaim_stale_slots}
use quantum_bunker.Server.Transport.Join.{credentials, join_object, join_parsed, on_join}
use quantum_bunker.Server.Transport.Host.{HostAction, accepts, on_host_action}
use quantum_bunker.Server.Transport.Messages.{
  Incoming, join, host_action, ping, frame, malformed, dispatch, on_message, count_message,
  within_limit,
}
use quantum_bunker.Server.Transport.Frame.{heap_of}
use quantum_bunker.Server.Transport.Relaying.{on_relay_touch, on_malformed-heap}
use quantum_bunker.Server.Transport.Authority.{
  host_at, peer_at, Recovers, IsMember, join_session-host, join_session-peer, host_at-insert,
  peer_at-insert, reclaim-has,
}
use quantum_bunker.Server.Transport.Authority.Actions.{
  IsOf, on_host_action-host, on_host_action-peer, touch-host, touch-peer,
}

module _ (net : Net) (ws : ℕ) (j : JoinFrame) (st : WsState) where
  -- The object `q`, which the store has under the session id of the frame, and what the frame shows.
  abbrev pub Shows {ℓ} : (JoinFrame → Session → Type ℓ) → ℕ → Type ℓ
  Shows Claim q =
      (o : Session) × (get j.session_id (store_of st) ≡ some q)
      × (lookup q (heap_of st) ≡ some o)
      × Claim j o

  join_object-host :
      (r : ℕ) (o : Session) (q : ℕ)
      → get j.session_id (store_of st) ≡ some r
      → lookup r (heap_of st) ≡ some o
      → (host_at q (heap_of (join_object net ws r o j st)) ≡ host_at q (heap_of st))
        ⊎ Shows (Recovers net) q
  unfolding join_object reclaim_stale_slots write
  join_object-host r o q named at =
      let o' = reclaim_stale_slots net.now (connected_peers o.id st) o in
      let st' = put r o' st in
      let at' : lookup r (heap_of st') ≡ some o' =
        ground (arith, lookup-insert r r o' (heap_of st)) in
      elim (join_session-host net ws r o' j st' at' q) [
        | inl same ↦ inl (same ∙ host_at-insert q r o o' (heap_of st) at refl)
        | inr (qr, rec) ↦ inr (o, rw qr named, rw qr at, rec)
      ]

  abbrev pub SeatsBy : String → JoinFrame → Session → Type 0
  SeatsBy p j o = (p ≡ j.peer_id) × (Recovers net j o ⊎ IsMember net j o)

  join_object-peer :
      (r : ℕ) (o : Session) (q : ℕ) (p : String)
      → contains inherited_names p ≡ false
      → get j.session_id (store_of st) ≡ some r
      → lookup r (heap_of st) ≡ some o
      → peer_at q (heap_of (join_object net ws r o j st)) p ≡ true
      → (peer_at q (heap_of st) p ≡ true) ⊎ Shows (SeatsBy p) q
  unfolding join_object reclaim_stale_slots write credentials
  join_object-peer r o q p own named at seated =
      let o' = reclaim_stale_slots net.now (connected_peers o.id st) o in
      let st' = put r o' st in
      let at' : lookup r (heap_of st') ≡ some o' =
        ground (arith, lookup-insert r r o' (heap_of st)) in
      elim (join_session-peer net ws r o' j st' at' q p own seated) [
        | inl before ↦
            elim (peer_at-insert q r o o' (heap_of st) p {G = ⊥} at
              (λ h. inl (reclaim-has net.now (connected_peers o.id st) o p h)) before) [
                | inl old ↦ inl old
                | inr (_, never) ↦ absurd never
              ]
        | inr (qr, pj, shown) ↦ inr (o, rw qr named, rw qr at, (pj, shown))
      ]

  -- The guards ahead of the join itself.
  join_parsed_cases {ℓ} :
      (P : WsState → Type ℓ)
      → ((st' : WsState) → heap_of st' ≡ heap_of st → P st')
      → ((r : ℕ) (o : Session)
          → get j.session_id (store_of st) ≡ some r
          → lookup r (heap_of st) ≡ some o
          → P (join_object net ws r o j st))
      → P (join_parsed net ws j st)
  unfolding join_parsed deref
  join_parsed_cases P same joins = elim (Option-cases (get j.session_id (store_of st))) [
    | inl absent ↦ rw (absent, join_parsed) (same _ refl)
    | inr (r, found) ↦ elim (Option-cases (lookup r (heap_of st))) [
      | inl dangling ↦ rw (found, join_parsed, dangling) (same st refl)
      | inr (o, at) ↦ rw (found, join_parsed, at) (joins r o found at)
    ]
  ]

module _ (net : Net) (ws : ℕ) (st : WsState) where
  on_join_cases {ℓ} :
      (P : WsState → Type ℓ) (raw : RawJoin)
      → ((st' : WsState) → heap_of st' ≡ heap_of st → P st')
      → ((j : JoinFrame) (r : ℕ) (o : Session)
          → parse_join net.is_uuid raw ≡ some j
          → get j.session_id (store_of st) ≡ some r
          → lookup r (heap_of st) ≡ some o
          → P (join_object net ws r o j st))
      → P (on_join net ws raw st)
  unfolding on_join
  on_join_cases P raw same joins = elim (Option-cases (parse_join net.is_uuid raw)) [
    | inl bad ↦ rw (bad, on_join) (same _ refl)
    | inr (j, good) ↦
        rw (good, on_join)
          (join_parsed_cases net ws j st P same (λ r o named at. joins j r o good named at))
  ]

  -- The rule for `dispatch`: the message leaves the objects, touches one, joins, or is the host's.
  dispatch_cases {ℓ} :
      (P : WsState → Type ℓ) (c : Client) (inc : Incoming)
      → ((st' : WsState) → heap_of st' ≡ heap_of st → P st')
      → ((st' : WsState) (id : String) (now : ℕ)
          → heap_of st' ≡ (touch id now (store_of st)).heap
          → P st')
      → ((raw : RawJoin) (j : JoinFrame) (r : ℕ) (o : Session)
          → inc ≡ join raw
          → parse_join net.is_uuid raw ≡ some j
          → get j.session_id (store_of st) ≡ some r
          → lookup r (heap_of st) ≡ some o
          → P (join_object net ws r o j st))
      → ((action : HostAction) (target : Field)
          → inc ≡ host_action action target
          → P (on_host_action net ws c action target st))
      → P (dispatch net ws c inc st)
  unfolding dispatch
  dispatch_cases P c (join raw) same touched joins acts =
      on_join_cases P raw same (λ j r o good named at. joins raw j r o refl good named at)
  dispatch_cases P c (host_action action target) same touched joins acts = acts action target refl
  dispatch_cases P c malformed same touched joins acts = same _ (on_malformed-heap net ws c st)
  dispatch_cases P c (ping nonce) same touched joins acts =
      elim (on_relay_touch net ws c (ping nonce) st) [
        | inl e ↦ same _ e
        | inr (id, now, e) ↦ touched _ id now e
      ]
  dispatch_cases P c (frame f) same touched joins acts =
      elim (on_relay_touch net ws c (frame f) st) [
        | inl e ↦ same _ e
        | inr (id, now, e) ↦ touched _ id now e
      ]

  -- A join frame that names the object `q` and shows to it what `Claim` says.
  abbrev pub JoinShows {ℓ} : (JoinFrame → Session → Type ℓ) → Incoming → ℕ → Type ℓ
  JoinShows Claim inc q =
      (raw : RawJoin) × (j : JoinFrame) × (inc ≡ join raw)
      × (parse_join net.is_uuid raw ≡ some j)
      × Shows net ws j st Claim q

  dispatch-host :
      (c : Client) (inc : Incoming) (q : ℕ)
      → (host_at q (heap_of (dispatch net ws c inc st)) ≡ host_at q (heap_of st))
        ⊎ JoinShows (Recovers net) inc q
  dispatch-host c inc q =
      dispatch_cases
        (λ st'. (host_at q (heap_of st') ≡ host_at q (heap_of st)) ⊎ JoinShows (Recovers net) inc q)
        c inc (λ st' e. inl (ap (host_at q) e))
        (λ st' id now e. inl (ap (host_at q) e ∙ touch-host id now (store_of st) q))
        (λ raw j r o e good named at. elim (join_object-host net ws j st r o q named at) [
          | inl same ↦ inl same
          | inr shown ↦ inr (raw, j, e, good, shown)
        ])
        (λ action target e. inl (on_host_action-host net ws c action target st q))

  abbrev pub HostAccepts : Client → Incoming → ℕ → String → Type 0
  HostAccepts c inc q p =
      (target : Field) × (inc ≡ host_action accepts target)
      × (o : Session) × (lookup q (heap_of st) ≡ some o)
      × IsOf c q st
      × (c.peer_id ≡ some o.host_id)
      × (parse_peer_id target ≡ some p)
      × (has_slot p o.pending_peers ≡ true)

  dispatch-peer :
      (c : Client) (inc : Incoming) (q : ℕ) (p : String)
      → contains inherited_names p ≡ false
      → peer_at q (heap_of (dispatch net ws c inc st)) p ≡ true
      → (peer_at q (heap_of st) p ≡ true)
        ⊎ (JoinShows (λ j o. (p ≡ j.peer_id) × (Recovers net j o ⊎ IsMember net j o)) inc q
            ⊎ HostAccepts c inc q p)
  dispatch-peer c inc q p own =
      dispatch_cases
        (λ st'.
          peer_at q (heap_of st') p ≡ true
          → (peer_at q (heap_of st) p ≡ true)
            ⊎ (JoinShows (λ j o. (p ≡ j.peer_id) × (Recovers net j o ⊎ IsMember net j o)) inc q
                ⊎ HostAccepts c inc q p))
        c inc (λ st' e h. inl (sym (ap (λ x. peer_at q x p) e) ∙ h))
        (λ st' id now e h.
          inl (sym (touch-peer id now (store_of st) q p) ∙ sym (ap (λ x. peer_at q x p) e) ∙ h))
        (λ raw j r o e good named at h. elim (join_object-peer net ws j st r o q p own named at h) [
          | inl old ↦ inl old
          | inr shown ↦ inr (inl (raw, j, e, good, shown))
        ])
        (λ action target e h. elim (on_host_action-peer net ws c action target st q p h) [
          | inl old ↦ inl old
          | inr (o, at, own, host, good, accepting, waits) ↦
              inr (inr (target, rw accepting at e, o, at, own, host, good, waits))
        ])

  on_message_cases {ℓ} :
      (P : WsState → Type ℓ) (inc : Incoming)
      → ((st' : WsState) → heap_of st' ≡ heap_of st → P st')
      → ((c : Client)
          → lookup ws st.clients ≡ some c
          → P (
              dispatch net ws
                (count_message net.now c)
                inc
                (record st { clients = insert ws (count_message net.now c) st.clients })))
      → P (on_message net ws inc st)
  unfolding on_message
  on_message_cases P inc same dispatched = elim (Option-cases (lookup ws st.clients)) [
    | inl gone ↦ rw (gone, on_message) (same st refl)
    | inr (c, here) ↦ elim (Bool-cases (within_limit net.now c (count_message net.now c))) [
      | inl fine ↦ rw (here, on_message, fine) (dispatched c here)
      | inr much ↦ rw (here, on_message, much) (same _ refl)
    ]
  ]

count_message-peer_id : (now : ℕ) (c : Client) → (count_message now c).peer_id ≡ c.peer_id
unfolding count_message
count_message-peer_id now c = ground arith

count_message-session_id : (now : ℕ) (c : Client) → (count_message now c).session_id ≡ c.session_id
unfolding count_message
count_message-session_id now c = ground arith

-- Whatever the message and the state, the host of any session object is as before, unless the message
-- is a join frame that parses, names that object's session and shows its recovery token.
pub on_message-host :
    (net : Net) (ws : ℕ) (inc : Incoming) (st : WsState) (q : ℕ)
    → (host_at q (heap_of (on_message net ws inc st)) ≡ host_at q (heap_of st))
      ⊎ JoinShows net ws st (Recovers net) inc q
on_message-host net ws inc st q =
    on_message_cases net ws st
      (λ st'.
        (host_at q (heap_of st') ≡ host_at q (heap_of st))
        ⊎ JoinShows net ws st (Recovers net) inc q)
      inc (λ st' e. inl (ap (host_at q) e))
      (λ c here.
        dispatch-host net ws
          (record st { clients = insert ws (count_message net.now c) st.clients })
          (count_message net.now c) inc q)

-- After any message, a peer that has a seat in a session object and is not named like an inherited
-- property of a JavaScript object either had the seat before; or the message is a join frame of that
-- very peer that parses, names the session and shows its recovery token or a membership token and
-- proof that verify; or it is the acceptance of that peer, which waits there, by a socket whose session
-- is that session and whose peer is its host.
pub on_message-peer :
    (net : Net) (ws : ℕ) (inc : Incoming) (st : WsState) (q : ℕ) (p : String)
    → contains inherited_names p ≡ false
    → peer_at q (heap_of (on_message net ws inc st)) p ≡ true
    → (peer_at q (heap_of st) p ≡ true)
      ⊎ (JoinShows net ws st (λ j o. (p ≡ j.peer_id) × (Recovers net j o ⊎ IsMember net j o)) inc q
          ⊎ ((c : Client) × (lookup ws st.clients ≡ some c) × HostAccepts net ws st c inc q p))
on_message-peer net ws inc st q p own =
    on_message_cases net ws st
      (λ st'.
        peer_at q (heap_of st') p ≡ true
        → (peer_at q (heap_of st) p ≡ true)
          ⊎ (JoinShows net ws st (λ j o. (p ≡ j.peer_id) × (Recovers net j o ⊎ IsMember net j o))
                inc q
              ⊎ ((c : Client) × (lookup ws st.clients ≡ some c) × HostAccepts net ws st c inc q p)))
      inc (λ st' e h. inl (sym (ap (λ x. peer_at q x p) e) ∙ h))
      (λ c here h.
        let st' : WsState = record st {
          clients = insert ws (count_message net.now c) st.clients;
        } in
        elim (dispatch-peer net ws st' (count_message net.now c) inc q p own h) [
          | inl old ↦ inl old
          | inr (inl shown) ↦ inr (inl shown)
          | inr (inr (target, e, o, at, (sid, named, held), host, good, waits)) ↦ inr (
              inr (
                c,
                here,
                (
                  target,
                  e,
                  o,
                  at,
                  (sid, sym (count_message-session_id net.now c) ∙ named, held),
                  sym (count_message-peer_id net.now c) ∙ host,
                  good,
                  waits,
                ),
              ))
        ])
