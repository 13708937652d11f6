-- ===== src/Client/Conversation.antt =====
-- src/useRelay.ts: the list of messages, the receipts, and how an envelope is routed. Files, the typing
-- indicator, pings and signals are not modelled, nor is the delay of a receipt; the texts of the JSON
-- are a parameter. The nonce and the time of what is sent are arguments.
use quantum_bunker.Base.{
  ℕ, String, Bool, true, false, not, ◌&&◌, ◌||◌, List, [], ◌∷◌, ◌++◌, map, Option, none, some, ltb,
  if◌then◌else◌, ◌==◌, length, keep_if, contains, string_eq, is_some,
}
use quantum_bunker.Base.Dict.{Dict, erase}
use quantum_bunker.Shared.Text.{trim}
use quantum_bunker.Server.Events.{
  RelayEnvelope, EnvelopeType, noise_message, plaintext, ack, read, edit, delete,
}
use quantum_bunker.Client.Ratchet.{DrKeyPair}
use quantum_bunker.Client.Mailbox.{MailboxEntry, hold}
use quantum_bunker.Client.Outbox.{Outbox, mark_delivered}
use quantum_bunker.Client.ChannelBasics.{ChannelCrypto}
use quantum_bunker.Client.PeerChannels.{PeerChannels}
use quantum_bunker.Client.PeerChannels.Traffic.{Slots, encrypt_for_all, decrypt_from, all_ready}
pub mod Sending
pub mod Receipts
pub mod Handling
pub mod Routing
pub mod Travelling

pub data MessageStatus : Type 0 where
  sending sent delivered seen : MessageStatus

abbrev pub is_seen : MessageStatus → Bool
is_seen seen = true
is_seen _ = false

-- `LocalMessage`, without the fields of a file but for its URL.
pub record LocalMessage : Type 0 where
  pub envelope : RelayEnvelope
  pub status : MessageStatus
  pub delivered_to : List String
  pub seen_by : List String
  pub edited : Bool
  pub deleted : Bool
  pub file_url : Option String

-- The texts of payloads in JSON.
pub record PayloadJson : Type 0 where
  pub write_slots : Slots → String
  pub read_slots : String → Option Slots
  -- The recipients that `PeerMailbox` reads off a payload.
  pub slot_ids : String → List String
  pub write_edit : (target text : String) → String
  -- None where the text is not an object with the two texts.
  pub read_edit : String → Option (String × String)

-- What the mesh and the socket report.
pub record Links : Type 0 where
  pub is_connected : String → Bool
  pub sends_direct : String → Bool
  pub socket_open : Bool

pub data Outgoing : Type 0 where
  direct : (to : String) → RelayEnvelope → Outgoing
  relayed : RelayEnvelope → Outgoing

-- `mailbox` is created with the hook; the outbox and the channels may be missing.
pub record Chat : Type 0 where
  pub session_id : String
  pub self_id : String
  pub messages : List LocalMessage
  pub active_peers : List String
  pub channels : Option PeerChannels
  pub outbox : Option Outbox
  pub mailbox : Dict String MailboxEntry
  pub read_sent : List String
  pub out : List Outgoing

-- `prev.map(m => test(m) ? change(m) : m)`.
unfoldable pub change_if :
    (LocalMessage → Bool) → (LocalMessage → LocalMessage) → List LocalMessage → List LocalMessage
change_if test change [] = []
change_if test change (m ∷ ms) =
    let rest = change_if test change ms in (if test m then change m else m) ∷ rest

abbrev pub has_nonce : String → LocalMessage → Bool
has_nonce nonce m = m.envelope.nonce == nonce

abbrev pub written_by : (nonce author : String) → LocalMessage → Bool
written_by nonce author m = m.envelope.nonce == nonce && m.envelope.from == author

abbrev pub set_payload : String → LocalMessage → LocalMessage
set_payload text m = record m { envelope = record m.envelope { payload = text } }

-- `Array.from(new Set(ids))`.
unfoldable pub unique : List String → List String
unique [] = []
unique (id ∷ ids) = id ∷ keep_if (λ other. not (other == id)) (unique ids)

abbrev pub others_of : Chat → List String
others_of st = keep_if (λ id. not (id == st.self_id)) st.active_peers

-- `sendRaw`.
unfoldable pub send_raw : Links → RelayEnvelope → Chat → Chat
send_raw links env st = if links.socket_open then record st { out = relayed env ∷ st.out } else st

-- `others.every(id => sendDirect(id, data))`, which stops at the first that refuses.
unfoldable pub send_while : Links → RelayEnvelope → List String → Chat → Bool × Chat
send_while links env [] st = (true, st)
send_while links env (id ∷ ids) st =
    let rest = send_while links env ids (record st { out = direct id env ∷ st.out }) in
    if links.sends_direct id then rest else (false, st)

abbrev pub all_connected : Links → List String → Bool
all_connected links [] = true
all_connected links (id ∷ ids) = links.is_connected id && all_connected links ids

abbrev pub should_use_p2p : Links → List String → Bool
should_use_p2p links ids = ltb 0 (length ids) && all_connected links ids

unfoldable pub dispatch : Links → RelayEnvelope → Chat → Chat
unfolding send_raw send_while
dispatch links env st =
    let (all_delivered, st') = send_while links env (others_of st) st in
    if should_use_p2p links (others_of st)
    then (if all_delivered then st' else send_raw links env st')
    else send_raw links env st

-- `dispatchDirect`: it tries every peer, and gives whether all took the envelope.
unfoldable pub send_each : Links → RelayEnvelope → List String → Chat → Bool × Chat
send_each links env [] st = (true, st)
send_each links env (id ∷ ids) st =
    let (ok, st') = send_each links env ids (record st { out = direct id env ∷ st.out }) in
    if links.sends_direct id then (ok, st') else (false, st')

unfoldable pub dispatch_direct : Links → RelayEnvelope → Chat → Bool × Chat
unfolding send_each
dispatch_direct links env st =
    let sent = send_each links env (others_of st) st in
    if should_use_p2p links (others_of st) then sent else (false, st)

abbrev pub own_envelope : EnvelopeType → (now : ℕ) → (nonce payload : String) → Chat → RelayEnvelope
own_envelope type now nonce payload st = record {
  session_id = st.session_id;
  from = st.self_id;
  type = type;
  timestamp = now;
  nonce = nonce;
  payload = payload;
}

abbrev pub new_message : RelayEnvelope → (text : String) → MessageStatus → LocalMessage
new_message env text status = record {
  envelope = record env { payload = text };
  status = status;
  delivered_to = [];
  seen_by = [];
  edited = false;
  deleted = false;
  file_url = none;
}

abbrev pub append : LocalMessage → Chat → Chat
append m st = record st { messages = st.messages ++ (m ∷ []) }

-- The branch of `handleEnvelope` for an ACK.
unfoldable pub on_ack : RelayEnvelope → Chat → Chat
unfolding change_if unique mark_delivered
on_ack env st = record st {
  outbox = elim st.outbox [ none ↦ none | some box ↦ some (mark_delivered env.payload box) ];
  messages =
      change_if (has_nonce env.payload)
        (λ m. record m {
          delivered_to = unique (m.delivered_to ++ (env.from ∷ []));
          status = if is_seen m.status then seen else delivered;
        })
        st.messages;
}

-- For a READ.
unfoldable pub on_read : RelayEnvelope → Chat → Chat
unfolding change_if unique
on_read env st = record st {
  messages =
      change_if (has_nonce env.payload)
        (λ m. record m { seen_by = unique (m.seen_by ++ (env.from ∷ [])); status = seen })
        st.messages;
}

abbrev pub edited_to : String → LocalMessage → LocalMessage
edited_to text m = record (set_payload text m) { edited = true }

-- For an EDIT, once its text is read.
unfoldable pub edit_from : (from : String) → Option (String × String) → Chat → Chat
unfolding change_if
edit_from from none st = st
edit_from from (some (target, text)) st = record st {
  messages =
      change_if (λ m. written_by target from m && not m.deleted) (edited_to text) st.messages;
}

-- For a DELETE.
unfoldable pub on_delete : RelayEnvelope → Chat → Chat
unfolding change_if
on_delete env st = record st {
  messages =
      change_if (written_by env.payload env.from)
        (λ m. record (set_payload "" m) { deleted = true; edited = false }) st.messages;
}

module _ (lib : ChannelCrypto) (json : PayloadJson) where
  -- `decryptFrom`, on the JSON of a payload.
  unfoldable pub decrypt_payload : DrKeyPair → (from payload : String) → Chat → Option String × Chat
  unfolding decrypt_from
  decrypt_payload fresh from payload st = elim st.channels [
    | none ↦ (none, st)
    | some pc ↦ elim (json.read_slots payload) [
      | none ↦ (none, st)
      | some slots ↦
          let (text, pc') = decrypt_from lib fresh from slots pc in
          (text, record st { channels = some pc' })
    ]
  ]

  abbrev pub edit_decoded : (from : String) → Option String → Chat → Chat
  edit_decoded from none st = st
  edit_decoded from (some text) st = edit_from from (json.read_edit text) st

  unfoldable pub on_edit : DrKeyPair → RelayEnvelope → Chat → Chat
  unfolding decrypt_payload edit_from
  on_edit fresh env st =
      let (decoded, st') = decrypt_payload fresh env.from env.payload st in
      edit_decoded env.from decoded st'

  abbrev pub knows : String → List LocalMessage → Bool
  knows nonce [] = false
  knows nonce (m ∷ ms) = has_nonce nonce m || knows nonce ms

  -- The receipt goes to the session that the envelope names.
  abbrev pub receipt_for : (now : ℕ) → (nonce : String) → RelayEnvelope → Chat → RelayEnvelope
  receipt_for now nonce env st = record (own_envelope ack now nonce env.nonce st) {
    session_id = env.session_id;
  }

  -- The end of the branch for a text: it is shown once, and confirmed each time.
  unfoldable pub receive_text :
      Links → (now : ℕ) → (nonce : String) → RelayEnvelope → String → Chat → Chat
  unfolding dispatch
  receive_text links now nonce env text st =
      let st' =
        if knows env.nonce st.messages then st else append (new_message env text delivered) st in
      dispatch links (receipt_for now nonce env st') st'

  -- For a text that is not encrypted.
  unfoldable pub on_plaintext : Links → (now : ℕ) → (nonce : String) → RelayEnvelope → Chat → Chat
  unfolding receive_text
  on_plaintext links now nonce env st = receive_text links now nonce env env.payload st

  abbrev pub receive_decoded :
      Links → (now : ℕ) → (nonce : String) → RelayEnvelope → Option String → Chat → Chat
  receive_decoded links now nonce env none st = st
  receive_decoded links now nonce env (some text) st = receive_text links now nonce env text st

  -- For a NOISE_MESSAGE: a copy is held for the absent peers.
  unfoldable pub on_noise_message :
      Links → DrKeyPair → (now : ℕ) → (nonce : String) → RelayEnvelope → Chat → Chat
  unfolding hold decrypt_payload receive_text
  on_noise_message links fresh now nonce env st =
      let held = record st { mailbox = hold json.slot_ids now env st.active_peers st.mailbox } in
      let (text, st') = decrypt_payload fresh env.from env.payload held in
      receive_decoded links now nonce env text st'
