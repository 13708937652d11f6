-- ===== src/Client/Conversation/Sending.antt =====
-- src/useRelay.ts: what the user sends, the outbox, and the peers that come and go.
use quantum_bunker.Base.{
  ℕ, ◌-◌, ◌*◌, String, Bool, true, false, not, ◌&&◌, ◌||◌, List, [], ◌∷◌, Option, none, some, ltb,
  if◌then◌else◌, ◌==◌, length, keep_if, contains, string_eq, nat_eq,
}
use quantum_bunker.Shared.Text.{trim}
use quantum_bunker.Server.Events.{RelayEnvelope, EnvelopeType, noise_message, read, edit, delete}
use quantum_bunker.Client.Ratchet.{DrKeyPair}
use quantum_bunker.Client.FileStream.{Bytes}
use quantum_bunker.Client.Mailbox.{release}
use quantum_bunker.Client.Outbox.{
  Outbox, OutboxCrypto, OutboxEntry, Meanwhile, enqueue, drain, wildcard_recipient,
}
use quantum_bunker.Client.ChannelBasics.{ChannelCrypto, Fresh}
use quantum_bunker.Client.PeerChannels.{NoiseFrame, ensure_channel, on_signal}
use quantum_bunker.Client.PeerChannels.Traffic.{encrypt_for_all, all_ready, remove_peer}
use quantum_bunker.Client.Conversation.{
  Chat, LocalMessage, PayloadJson, Links, sending, sent, others_of, dispatch, own_envelope,
  new_message, append, change_if, written_by, edited_to, set_payload,
}

abbrev pub is_noise : EnvelopeType → Bool
is_noise noise_message = true
is_noise _ = false

abbrev pub message_ttl_ms : ℕ
message_ttl_ms = 5 * 60 * 1000

unfoldable pub mark_as_read : Links → (now : ℕ) → (nonce target : String) → Chat → Chat
unfolding dispatch
mark_as_read links now nonce target st =
    if contains st.read_sent target
    then st
    else dispatch links (own_envelope read now nonce target st)
        (record st { read_sent = target ∷ st.read_sent })

unfoldable pub delete_message : Links → (now : ℕ) → (nonce target : String) → Chat → Chat
unfolding dispatch change_if
delete_message links now nonce target st =
    let st' = dispatch links (own_envelope delete now nonce target st) st in
    record st' {
      messages =
          change_if (written_by target st.self_id)
            (λ m. record (set_payload "" m) { deleted = true; file_url = none }) st'.messages;
    }

abbrev pub is_young : ℕ → LocalMessage → Bool
is_young now m = ltb (now - m.envelope.timestamp) message_ttl_ms

abbrev pub nonces : List LocalMessage → List String
nonces [] = []
nonces (m ∷ ms) = m.envelope.nonce ∷ nonces ms

-- The timer on the messages: those that are five minutes old go.
unfoldable pub expire : (now : ℕ) → Chat → Chat
expire now st =
    let next = keep_if (is_young now) st.messages in
    if length next == length st.messages then st else record st {
      messages = next;
      read_sent =
          keep_if
            (λ nonce. not (contains (nonces st.messages) nonce) || contains (nonces next) nonce)
            st.read_sent;
    }

module _ (lib : ChannelCrypto) (json : PayloadJson) where
  abbrev pub is_ready_for_all : Chat → Bool
  is_ready_for_all st = elim st.channels [
    | none ↦ false
    | some pc ↦ all_ready lib st.active_peers pc
  ]

  -- The text that goes over the wire; none where encrypting throws.
  unfoldable pub encrypt_payload :
      (fresh : String → DrKeyPair) → String → Chat → Option String × Chat
  unfolding encrypt_for_all
  encrypt_payload fresh text st = elim st.channels [
    | none ↦ (some text, st)
    | some pc ↦
        let (slots, pc') = encrypt_for_all lib fresh text pc in
        (
          elim slots [ none ↦ none | some s ↦ some (json.write_slots s) ],
          record st { channels = some pc' },
        )
  ]

  unfoldable pub wire_payload :
      (fresh : String → DrKeyPair) → EnvelopeType → String → Chat → Option String × Chat
  unfolding encrypt_payload
  wire_payload fresh type text st =
      let encrypted = encrypt_payload fresh text st in
      if is_noise type then encrypted else (some text, st)

  -- Nothing happens after a throw.
  unfoldable pub send_wired : Links → RelayEnvelope → (text : String) → Option String × Chat → Chat
  unfolding dispatch
  send_wired links env text (none, st) = st
  send_wired links env text (some wire, st) =
      let env' = record env { payload = wire } in
      append (new_message env' text sent) (dispatch links env' st)

  abbrev pub enqueue_in : OutboxCrypto → (iv : Bytes) → OutboxEntry → Option Outbox → Option Outbox
  enqueue_in at_rest iv e none = none
  enqueue_in at_rest iv e (some box) = some (enqueue at_rest iv e box)

  -- With no secured recipient online, the text waits in the outbox.
  unfoldable pub queue_message :
      OutboxCrypto
      → (iv : Bytes) → (now : ℕ) → (nonce : String) → EnvelopeType
      → String
      → Chat
      → Chat
  queue_message at_rest iv now nonce type text st =
      append (new_message (own_envelope type now nonce text st) text sending) (record st {
        outbox =
            enqueue_in at_rest iv
              (record {
                nonce = nonce;
                to = wildcard_recipient;
                type = type;
                plaintext = text;
                timestamp = now;
                attempts = 0;
              })
              st.outbox;
      })

  unfoldable pub send_message :
      OutboxCrypto
      → Links
      → (iv : Bytes) → (fresh : String → DrKeyPair) → (now : ℕ) → (nonce : String) → EnvelopeType
      → String
      → Chat
      → Chat
  unfolding queue_message wire_payload send_wired
  send_message at_rest links iv fresh now nonce type text st =
      if length (others_of st) == 0 || not (is_ready_for_all st)
      then queue_message at_rest iv now nonce type text st
      else send_wired links (own_envelope type now nonce text st) text
          (wire_payload fresh type text st)

  abbrev pub send_entry : Links → OutboxEntry → Option String × Chat → Bool × Chat
  send_entry links e (none, st) = (false, st)
  send_entry links e (some wire, st) =
      (true, dispatch links (own_envelope e.type e.timestamp e.nonce wire st) st)

  -- Where encrypting throws, the drain ends as it does where nothing is sent.
  unfoldable pub send_queued :
      Links → (fresh : String → DrKeyPair) → OutboxEntry → Chat → Bool × Chat
  unfolding wire_payload dispatch
  send_queued links fresh e st =
      if length (others_of st) == 0 || not (is_ready_for_all st)
      then (false, st)
      else send_entry links e (wire_payload fresh e.type e.plaintext st)

  -- Handlers that run while a flush waits see the box as it is then.
  abbrev pub in_chat : (Chat → Chat) → Outbox × Chat → Outbox × Chat
  in_chat change (box, st) =
      let st' = change (record st { outbox = some box }) in
      (elim st'.outbox [ none ↦ box | some box' ↦ box' ], st')

  abbrev pub handlers :
      (first : Chat → Chat) → (sent_one in_pause : OutboxEntry → Chat → Chat) → Meanwhile Chat
  handlers first sent_one in_pause = record {
    listed = in_chat first;
    sending = λ e. in_chat (sent_one e);
    pausing = λ e. in_chat (in_pause e);
  }

  -- What else the handlers do while it waits are arguments; there is one flush at a time.
  unfoldable pub flush_outbox :
      (first : Chat → Chat)
      → (sent_one in_pause : OutboxEntry → Chat → Chat) → OutboxCrypto
      → Links
      → (ivs : OutboxEntry → Bytes) → (fresh : OutboxEntry → String → DrKeyPair) → Chat
      → Chat
  unfolding drain send_queued
  flush_outbox first sent_one in_pause at_rest links ivs fresh st = elim st.outbox [
    | none ↦ st
    | some box ↦
        let (count, box', st') =
          drain at_rest (handlers first sent_one in_pause) (λ e s. send_queued links (fresh e) e s)
            ivs none box st in
        record st' { outbox = some box' }
  ]

  abbrev pub send_edit : Links → RelayEnvelope → Option String × Chat → Option Chat
  send_edit links env (none, st) = none
  send_edit links env (some wire, st) = some (dispatch links (record env { payload = wire }) st)

  unfoldable pub edit_message :
      Links → (fresh : String → DrKeyPair) → (now : ℕ) → (nonce target text : String) → Chat → Chat
  unfolding encrypt_payload dispatch change_if
  edit_message links fresh now nonce target text st =
      let (wire, st') = encrypt_payload fresh (json.write_edit target text) st in
      if trim text == ""
      then st
      else elim (send_edit links (own_envelope edit now nonce "" st) (wire, st')) [
        | none ↦ st'
        | some st'' ↦ record st'' {
          messages =
              change_if (λ m. written_by target st.self_id m && not m.deleted) (edited_to text)
                st''.messages;
        }
      ]

  -- A frame of kind `noise`.
  unfoldable pub on_noise_frame : Fresh → (from : String) → NoiseFrame → Chat → Chat
  unfolding on_signal
  on_noise_frame fresh from frame st = record st {
    channels = elim st.channels [
      | none ↦ none
      | some pc ↦ some (on_signal lib fresh from frame pc)
    ];
  }

  abbrev pub dispatch_all : Links → List RelayEnvelope → Chat → Chat
  dispatch_all links [] st = st
  dispatch_all links (env ∷ envs) st = dispatch_all links envs (dispatch links env st)

  -- A peer that is there: a channel, and for one that returns, what is held for it.
  unfoldable pub meet_peer :
      Links → (fresh : String → Fresh) → (now : ℕ) → (before : List String) → String → Chat → Chat
  unfolding ensure_channel release dispatch
  meet_peer links fresh now before id st =
      let st' = record st {
        channels = elim st.channels [
          | none ↦ none
          | some pc ↦ some (ensure_channel lib (fresh id) id pc)
        ];
      } in
      let (held, mailbox) = release now id st.mailbox in
      if contains before id then st' else dispatch_all links held (record st' { mailbox = mailbox })

  unfoldable pub meet_peers :
      Links → (fresh : String → Fresh) → (now : ℕ) → (before ids : List String) → Chat → Chat
  unfolding meet_peer
  meet_peers links fresh now before [] st = st
  meet_peers links fresh now before (id ∷ ids) st =
      meet_peers links fresh now before ids
        (if id == st.self_id then st else meet_peer links fresh now before id st)

  unfoldable pub leave_peers : (ids now_there : List String) → Chat → Chat
  unfolding remove_peer
  leave_peers [] now_there st = st
  leave_peers (id ∷ ids) now_there st = leave_peers ids now_there (
      if contains now_there id then st else record st {
        channels = elim st.channels [ none ↦ none | some pc ↦ some (remove_peer lib id pc) ];
      })

  -- The frame `peer_update`.
  unfoldable pub peer_update :
      Links → (fresh : String → Fresh) → (now : ℕ) → (peers : List String) → Chat → Chat
  unfolding meet_peers leave_peers
  peer_update links fresh now peers st =
      leave_peers st.active_peers peers
        (meet_peers links fresh now st.active_peers peers (record st { active_peers = peers }))
