-- ===== src/Server/Transport/Messages.antt =====
-- ws.transport.ts, `handleConnection`: the `message` handler, with its rate limits, and the relaying of
-- an envelope for an admitted peer.
use quantum_bunker.Base.{
  ℕ, ◌+◌, ◌-◌, String, Bool, not, ◌||◌, Option, none, some, leb, ltb, if◌then◌else◌, ◌==◌, nat_eq,
  string_eq,
}
use quantum_bunker.Base.Dict.{lookup, insert}
use quantum_bunker.Limits.{msg_per_second_limit, socket_msg_per_second_limit}
use quantum_bunker.Server.Session.{Session, has_slot}
use quantum_bunker.Server.Schemas.{Field, RawJoin, is_envelope}
use quantum_bunker.Server.Events.{RelayEnvelope, envelope_rejected, sender}
use quantum_bunker.Server.RateLimit.{counter_or_new, count_hit}
use quantum_bunker.Server.Relay.{execute}
use quantum_bunker.Server.Transport.{
  Net, WsState, Client, say, emit, conn_key, safe_send, send_to_many, write_frames, error, pong,
  envelope,
}
use quantum_bunker.Server.Transport.Join.{on_join}
use quantum_bunker.Server.Transport.Host.{HostAction, current_object, on_host_action}

-- A parsed message, by its `type`. `frame none` has a field of a wrong type, or an unknown type;
-- `malformed` is no JSON object.
pub data Incoming : Type 0 where
  join : RawJoin → Incoming
  host_action : HostAction → (target : Field) → Incoming
  ping : (nonce : String) → Incoming
  frame : Option RelayEnvelope → Incoming
  malformed : Incoming

-- `checkMessageLimit`.
unfoldable pub check_message_limit : ℕ → String → String → WsState → Bool × WsState
unfolding count_hit conn_key
check_message_limit now session_id peer_id st =
    let key = conn_key session_id peer_id in
    let c = count_hit 1000 now (counter_or_new now (lookup key st.message_counters)) in
    (
      leb c.hits msg_per_second_limit,
      record st { message_counters = insert key c st.message_counters },
    )

unfoldable pub rate_limited : ℕ → String → WsState → WsState
rate_limited ws message st = say ws (error (some "RATE_LIMIT_EXCEEDED") message) st

-- `relayMessage.execute`, and the writes of the transport to the peers that it reached.
unfoldable pub relay_envelope : Net → RelayEnvelope → WsState → WsState
unfolding send_to_many write_frames
relay_envelope net e st =
    let r = execute (send_to_many net st) net.now e st.relay in
    write_frames e.session_id r.delivered (envelope e) (record st { relay = r.state })

-- An envelope may speak only for the peer that its socket is bound to.
unfoldable pub relay_frame :
    Net → ℕ → (session_id peer_id : String) → Option RelayEnvelope → WsState → WsState
unfolding relay_envelope
relay_frame net ws session_id peer_id none st = say ws (error none "Invalid envelope") st
relay_frame net ws session_id peer_id (some e) st =
    if not (is_envelope net.is_uuid e)
    then say ws (error none "Invalid envelope") st
    else (if not (e.from == peer_id) || not (e.session_id == session_id)
        then say ws
            (error (some "SENDER_MISMATCH") "Envelope sender does not match connection identity") st
        else relay_envelope net e st)

unfoldable pub not_authorized : ℕ → WsState → WsState
not_authorized ws st = say ws (error none "Not authorized or pending") st

unfoldable pub relay_as : Net → ℕ → Session → String → Incoming → WsState → WsState
unfolding relay_frame not_authorized
relay_as net ws o peer_id (ping nonce) st = say ws (pong o.id nonce net.now) st
relay_as net ws o peer_id (frame e) st = relay_frame net ws o.id peer_id e st
relay_as net ws o peer_id _ st = not_authorized ws st

-- The bound session and peer, past the message limit.
unfoldable pub relay_bound : Net → ℕ → Client → String → Incoming → WsState → WsState
unfolding relay_as not_authorized
relay_bound net ws c peer_id inc st = elim (current_object c st) [
  | none ↦ not_authorized ws st
  | some (r, o) ↦
      if has_slot peer_id o.peers then relay_as net ws o peer_id inc st else not_authorized ws st
]

-- `if (currentPeerId && currentSessionId && !this.checkMessageLimit(…))`
unfoldable pub limited : Net → ℕ → Client → String → String → Incoming → WsState → WsState
unfolding relay_bound check_message_limit rate_limited
limited net ws c session_id peer_id inc st =
    let (ok, st') = check_message_limit net.now session_id peer_id st in
    if ok
    then relay_bound net ws c peer_id inc st'
    else rate_limited ws "Message rate limit exceeded" st'

unfoldable pub on_relay : Net → ℕ → Client → Incoming → WsState → WsState
unfolding limited
on_relay net ws c inc st = elim c.peer_id [
  | none ↦ not_authorized ws st
  | some peer_id ↦ elim c.session_id [
    | none ↦ not_authorized ws st
    | some session_id ↦ limited net ws c session_id peer_id inc st
  ]
]

abbrev pub id_or_unknown : Option String → String
id_or_unknown none = "unknown"
id_or_unknown (some id) = id

-- The `catch` of the handler, for a message that is no JSON.
unfoldable pub on_malformed : Net → ℕ → Client → WsState → WsState
unfolding safe_send
on_malformed net ws c st =
    (safe_send net (some ws) (error (some "INVALID_FRAME") "Invalid message format") (
      emit
        (envelope_rejected (id_or_unknown c.session_id) net.now "INVALID_FRAME"
          (sender (id_or_unknown c.peer_id)))
        st)).1

unfoldable pub dispatch : Net → ℕ → Client → Incoming → WsState → WsState
unfolding on_join on_host_action on_relay on_malformed
dispatch net ws c (join raw) st = on_join net ws raw st
dispatch net ws c (host_action action target) st = on_host_action net ws c action target st
dispatch net ws c malformed st = on_malformed net ws c st
dispatch net ws c inc st = on_relay net ws c inc st

-- The window of one second in which a socket may send 20 frames of any type.
unfoldable pub count_message : ℕ → Client → Client
count_message now c =
    if ltb 1000 (now - c.msg_window_start)
    then record c { msg_count = 1; msg_window_start = now }
    else record c { msg_count = c.msg_count + 1 }

abbrev pub within_limit : ℕ → Client → Client → Bool
within_limit now c counted =
    ltb 1000 (now - c.msg_window_start) || leb counted.msg_count socket_msg_per_second_limit

-- The `message` handler of one socket.
unfoldable pub on_message : Net → ℕ → Incoming → WsState → WsState
unfolding count_message dispatch rate_limited
on_message net ws inc st = elim (lookup ws st.clients) [
  | none ↦ st
  | some c ↦
      let c' = count_message net.now c in
      let st' = record st { clients = insert ws c' st.clients } in
      if within_limit net.now c c'
      then dispatch net ws c' inc st'
      else rate_limited ws "Message rate limit exceeded" st'
]
