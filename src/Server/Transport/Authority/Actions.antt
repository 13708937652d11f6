-- ===== src/Server/Transport/Authority/Actions.antt =====
-- The host's actions and the relaying of envelopes change no host, and only an acceptance seats a peer.
use quantum_bunker.Base.{
  ℕ, String, true, not, ◌&&◌, some, ◌≡◌, refl, arith, nat_eq, string_eq, ◌==◌, Bool-cases,
  Option-cases, ◌⊎◌, inl, inr,
}
use quantum_bunker.Base.Dict.{lookup, lookup-insert, has, has-erase}
use quantum_bunker.Server.Session.{Session, has_slot}
use quantum_bunker.Server.Store.{Store, touch, get, deref}
use quantum_bunker.Server.Schemas.{Field, parse_peer_id}
use quantum_bunker.Server.Transport.{Net, WsState, Client, store_of, connected_peers}
use quantum_bunker.Server.Transport.Slots.{sync_presence}
use quantum_bunker.Server.Transport.Host.{
  HostAction, accepts, rejects, kicks, act, as_host, applies, without_peer, forget_pending,
  current_object, on_host_action,
}
use quantum_bunker.Server.Transport.Frame.{
  heap_of, accepted, accept-heap, kick-heap, reject_guest-heap,
}
use quantum_bunker.Server.Transport.Bounds.Host.{current_object-lookup}
use quantum_bunker.Server.Transport.Authority.{
  host_at, peer_at, admit_peer-host, admit_peer-has, peer_at-insert, host_at-insert,
}

accepted-host :
    (net : Net) (target : String) (st : WsState) (o : Session)
    → (accepted net target st o).host_id ≡ o.host_id
unfolding forget_pending
accepted-host net target st o =
    ground (arith, admit_peer-host net.now net.new_token (connected_peers o.id st) o target)

accepted-has :
    (net : Net) (target : String) (st : WsState) (o : Session) (p : String)
    → has p (accepted net target st o).peers ≡ true
    → (has p o.peers ≡ true) ⊎ (p ≡ target)
unfolding forget_pending
accepted-has net target st o p h =
    ground (arith, admit_peer-has net.now net.new_token (connected_peers o.id st) o target p)

module _ (net : Net) (ws r : ℕ) (o : Session) (st : WsState)
    (at : lookup r (heap_of st) ≡ some o) where
  act-host :
      (action : HostAction) (target : String) (q : ℕ)
      → host_at q (heap_of (act net ws r o action target st)) ≡ host_at q (heap_of st)
  unfolding act forget_pending without_peer sync_presence
  act-host accepts target q = elim (Bool-cases (has_slot target o.pending_peers)) [
    | inr gone ↦ rw (gone, act)
    | inl here ↦
        rw (here, act, accept-heap net ws r o target st)
          (host_at-insert q r o _ (heap_of st) at (accepted-host net target st o))
  ]
  act-host rejects target q = elim (Bool-cases (has_slot target o.pending_peers)) [
    | inr gone ↦ rw (gone, act)
    | inl here ↦
        rw (here, act, reject_guest-heap r o target st)
          (host_at-insert q r o _ (heap_of st) at refl)
  ]
  act-host kicks target q =
      elim (Bool-cases (has_slot target o.peers && not (target == o.host_id))) [
        | inr gone ↦ rw (gone, act)
        | inl here ↦
            rw (here, act, kick-heap net r o target st)
              (host_at-insert q r o _ (heap_of st) at refl)
      ]

  act-peer :
      (action : HostAction) (target : String) (q : ℕ) (p : String)
      → peer_at q (heap_of (act net ws r o action target st)) p ≡ true
      → (peer_at q (heap_of st) p ≡ true)
        ⊎ ((q ≡ r) × (p ≡ target) × (action ≡ accepts) × (has_slot target o.pending_peers ≡ true))
  unfolding act forget_pending without_peer sync_presence
  act-peer accepts target q p h = elim (Bool-cases (has_slot target o.pending_peers)) [
    | inr gone ↦ inl (rw (gone, act) at h)
    | inl here ↦
        elim (peer_at-insert q r o _ (heap_of st) p at (accepted-has net target st o p)
          (rw (here, act, accept-heap net ws r o target st) at h)) [
            | inl before ↦ inl before
            | inr (qr, pt) ↦ inr (qr, pt, refl, here)
          ]
  ]
  act-peer rejects target q p h = elim (Bool-cases (has_slot target o.pending_peers)) [
    | inr gone ↦ inl (rw (gone, act) at h)
    | inl here ↦
        elim (peer_at-insert q r o _ (heap_of st) p {G = ⊥} at (λ x. inl x)
          (rw (here, act, reject_guest-heap r o target st) at h)) [
            | inl before ↦ inl before
            | inr (_, never) ↦ absurd never
          ]
  ]
  act-peer kicks target q p h =
      elim (Bool-cases (has_slot target o.peers && not (target == o.host_id))) [
        | inr gone ↦ inl (rw (gone, act) at h)
        | inl here ↦
            elim (peer_at-insert q r o _ (heap_of st) p {G = ⊥} at
              (λ x. inl (ground (arith, has-erase p target o.peers)))
              (rw (here, act, kick-heap net r o target st) at h)) [
                | inl before ↦ inl before
                | inr (_, never) ↦ absurd never
              ]
      ]

pub touch-host :
    (id : String) (now : ℕ) (s : Store) (q : ℕ) → host_at q (touch id now s).heap ≡ host_at q s.heap
unfolding touch
touch-host id now s q = elim (Option-cases (get id s)) [
  | inl absent ↦ rw (absent, touch)
  | inr (r, found) ↦ elim (Option-cases (lookup r s.heap)) [
    | inl dangling ↦ rw (found, touch, dangling)
    | inr (o, e) ↦ rw (found, touch, e) (host_at-insert q r o _ s.heap e refl)
  ]
]

pub touch-peer :
    (id : String) (now : ℕ) (s : Store) (q : ℕ) (p : String)
    → peer_at q (touch id now s).heap p ≡ peer_at q s.heap p
unfolding touch
touch-peer id now s q p = elim (Option-cases (get id s)) [
  | inl absent ↦ rw (absent, touch)
  | inr (r, found) ↦ elim (Option-cases (lookup r s.heap)) [
    | inl dangling ↦ rw (found, touch, dangling)
    | inr (o, e) ↦
        rw (found, touch, e)
          (ground (arith, lookup-insert q r (record o { last_activity_at = now }) s.heap))
  ]
]

-- The object `q` is the one that the session of the socket names in the store.
abbrev pub IsOf : Client → ℕ → WsState → Type 0
IsOf c q st = (sid : String) × (c.session_id ≡ some sid) × (get sid (store_of st) ≡ some q)

current_object-IsOf :
    (c : Client) (st : WsState) (r : ℕ) (o : Session)
    → current_object c st ≡ some (r, o)
    → IsOf c r st
unfolding current_object deref
current_object-IsOf c st r o e = elim (Option-cases c.session_id) [
  | inl unbound ↦ absurd (ground (arith, unbound))
  | inr (sid, bound) ↦ (sid, bound, ground (arith, bound))
]

module _ (net : Net) (ws : ℕ) (c : Client) (action : HostAction) (target : Field)
    (st : WsState) where
  -- What an acceptance of `p` into the object `q` shows: the acting socket speaks for the host of that
  -- object, and `p` waits there.
  abbrev pub Accepts : ℕ → String → Type 0
  Accepts q p =
      (o : Session) × (lookup q (heap_of st) ≡ some o)
      × IsOf c q st
      × (c.peer_id ≡ some o.host_id)
      × (parse_peer_id target ≡ some p)
      × (action ≡ accepts)
      × (has_slot p o.pending_peers ≡ true)

  -- The rule for the guards of `on_host_action`.
  on_host_action_cases {ℓ} :
      (P : WsState → Type ℓ)
      → P st
      → ((r : ℕ) (o : Session) (t : String)
          → lookup r (heap_of st) ≡ some o
          → IsOf c r st
          → c.peer_id ≡ some o.host_id
          → parse_peer_id target ≡ some t
          → P (act net ws r o action t st))
      → P (on_host_action net ws c action target st)
  unfolding on_host_action as_host
  on_host_action_cases P nothing acts = elim (Option-cases c.peer_id) [
    | inl unbound ↦ rw (unbound, on_host_action) nothing
    | inr (current, bound) ↦ elim (Option-cases (current_object c st)) [
      | inl absent ↦ rw (bound, on_host_action, absent) nothing
      | inr ((r, o), found) ↦ elim (Bool-cases (o.host_id == current && applies action o)) [
        | inr guest ↦ rw (bound, on_host_action, found, as_host, guest) nothing
        | inl host ↦ elim (Option-cases (parse_peer_id target)) [
          | inl bad ↦ rw (bound, on_host_action, found, as_host, host, bad) nothing
          | inr (t, good) ↦
              rw (bound, on_host_action, found, as_host, host, good)
                (acts r o t (current_object-lookup c st r o found)
                  (current_object-IsOf c st r o found) (ground arith) good)
        ]
      ]
    ]
  ]

  pub on_host_action-host :
      (q : ℕ)
      → host_at q (heap_of (on_host_action net ws c action target st)) ≡ host_at q (heap_of st)
  on_host_action-host q =
      on_host_action_cases (λ st'. host_at q (heap_of st') ≡ host_at q (heap_of st)) refl
        (λ r o t at _ _ _. act-host net ws r o st at action t q)

  pub on_host_action-peer :
      (q : ℕ) (p : String)
      → peer_at q (heap_of (on_host_action net ws c action target st)) p ≡ true
      → (peer_at q (heap_of st) p ≡ true) ⊎ Accepts q p
  on_host_action-peer q p =
      on_host_action_cases
        (λ st'. peer_at q (heap_of st') p ≡ true → (peer_at q (heap_of st) p ≡ true) ⊎ Accepts q p)
        (λ h. inl h)
        (λ r o t at own host good h. elim (act-peer net ws r o st at action t q p h) [
          | inl before ↦ inl before
          | inr (qr, pt, accepting, waits) ↦
              inr (o, rw qr at, rw qr own, host, rw pt good, accepting, rw pt waits)
        ])
