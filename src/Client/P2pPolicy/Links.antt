-- ===== src/Client/P2pPolicy/Links.antt =====
-- What the state of a link tells about the events behind it.
use quantum_bunker.Base.{arith, Bool, true, false, ap, ◌∙◌, List, [], ◌∷◌, ◌≡◌, refl}
use quantum_bunker.Client.P2pPolicy.{
  P2pPeerState, connected, failed, dropped, closed, idle, connecting, P2pSignalEvent, ensure, offer,
  answer, candidate, open_channel, fail, drop_link, close_channel, is_connected, negotiate,
  p2p_reducer, link_after,
}

-- Whether a link is up after one event, told without the state: only `open` brings it up, and only
-- `drop` and `close` take it down.
abbrev pub up_by : Bool → P2pSignalEvent → Bool
up_by up open_channel = true
up_by up drop_link = false
up_by up close_channel = false
up_by up ensure = up
up_by up offer = up
up_by up answer = up
up_by up candidate = up
up_by up fail = up

abbrev pub up_after : Bool → List P2pSignalEvent → Bool
up_after up [] = up
up_after up (e ∷ es) = up_after (up_by up e) es

negotiate-connected : (state : P2pPeerState) → is_connected (negotiate state) ≡ is_connected state
unfolding negotiate
negotiate-connected connected = refl
negotiate-connected failed = refl
negotiate-connected idle = refl
negotiate-connected connecting = refl
negotiate-connected dropped = refl
negotiate-connected closed = refl

p2p_reducer-connected :
    (state : P2pPeerState) (e : P2pSignalEvent)
    → is_connected (p2p_reducer state e) ≡ up_by (is_connected state) e
unfolding p2p_reducer
p2p_reducer-connected state offer = negotiate-connected state
p2p_reducer-connected state answer = negotiate-connected state
p2p_reducer-connected state candidate = negotiate-connected state
p2p_reducer-connected state open_channel = refl
p2p_reducer-connected state ensure = ground arith
p2p_reducer-connected state fail = ground arith
p2p_reducer-connected state drop_link = ground arith
p2p_reducer-connected state close_channel = ground arith

-- A link is reported connected exactly when, of the opens, drops and closes so far, the last was an
-- open (or, without any, it was connected at first): no negotiation and no failure takes it down.
pub link_after-connected :
    (state : P2pPeerState) (es : List P2pSignalEvent)
    → is_connected (link_after state es) ≡ up_after (is_connected state) es
unfolding link_after
link_after-connected state [] = refl
link_after-connected state (e ∷ es) =
    link_after-connected (p2p_reducer state e) es
    ∙ ap (λ up. up_after up es) (p2p_reducer-connected state e)
