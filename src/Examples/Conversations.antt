-- ===== src/Examples/Conversations.antt =====
-- The outbox and the messages that are shown, at concrete inputs.
use quantum_bunker.Base.{
  ℕ, ◌+◌, ◌≤◌, String, ◌≡◌, refl, ap, ◌∙◌, arith, Bool, true, false, List, [], ◌∷◌, ◌++◌, Option,
  none, some, if◌then◌else◌, ◌==◌, length, take, drop, get_elem?, take-append, drop-append, keep_if,
  string_eq, nat_eq,
}
use quantum_bunker.Server.Events.{
  RelayEnvelope, EnvelopeType, plaintext, noise_message, signaling, ping, pong, ack, read, edit,
  delete, file,
}
use quantum_bunker.Client.FileStream.{Bytes}
use quantum_bunker.Client.Outbox.{
  Outbox, OutboxCrypto, OutboxEntry, Meanwhile, box_only, pending, drain, enqueue,
}
use quantum_bunker.Base.Dict.{erase}
use quantum_bunker.Client.Outbox.Specified.{
  Event, enqueued, confirmed, changed, flushed, waiting, run, run_specified,
}
use quantum_bunker.Client.Outbox.Contents.{OutboxWorks, pending-run}
use quantum_bunker.Client.Outbox.Flushing.{IsSorted, given_to, logging, drain-given}
use quantum_bunker.Examples.Texts.{text_of, bytes_from, bytes_from-text_of}
use quantum_bunker.Client.PeerChannels.{PeerChannels}
use quantum_bunker.Client.PeerChannels.Traffic.{encrypt_for_all, is_ready, all_ready}
use quantum_bunker.Client.Conversation.{
  Chat, LocalMessage, Links, PayloadJson, sent, delivered, own_envelope, new_message, append,
  dispatch, dispatch_direct, on_ack, on_delete, on_noise_message,
}
use quantum_bunker.Client.Conversation.Sending.{send_message, is_ready_for_all}
use quantum_bunker.Client.Conversation.Receipts.{Extends}
use quantum_bunker.Client.Conversation.Handling.{deletes, Handled-Extends}
use quantum_bunker.Client.Conversation.Routing.{
  Reached, dispatch-Reached, relays, WentDirect, dispatch_direct_private,
}
use quantum_bunker.Client.Conversation.Travelling.{sealed_envelope, Arrived, message_travels}
use quantum_bunker.Examples.Crypto.{
  code_list, from_codes, from_codes-code_list, Genuine, GenuineKem, toy_channels,
  toy_channels-ChannelWorks,
}
use quantum_bunker.Examples.Channels.{key_pair, ann, bob, ann-bob-Hears, ann_slots, ann_sends}

abbrev type_number : EnvelopeType → ℕ
type_number plaintext = 0
type_number noise_message = 1
type_number signaling = 2
type_number ping = 3
type_number pong = 4
type_number ack = 5
type_number read = 6
type_number edit = 7
type_number delete = 8
type_number file = 9

abbrev types : List EnvelopeType
types = plaintext ∷ noise_message ∷ signaling ∷ ping ∷ pong ∷ ack ∷ read ∷ edit ∷ delete ∷ file ∷ []

abbrev type_at : ℕ → EnvelopeType
type_at n = elim (get_elem? types n) [ none ↦ file | some t ↦ t ]

type_at-number : (t : EnvelopeType) → type_at (type_number t) ≡ t
type_at-number plaintext = refl
type_at-number noise_message = refl
type_at-number signaling = refl
type_at-number ping = refl
type_at-number pong = refl
type_at-number ack = refl
type_at-number read = refl
type_at-number edit = refl
type_at-number delete = refl
type_at-number file = refl

-- A text with its length before it.
abbrev pack : String → Bytes → Bytes
pack s rest = length (code_list s) ∷ (code_list s ++ rest)

abbrev unpack : Bytes → String × Bytes
unpack [] = ("", [])
unpack (n ∷ rest) = (from_codes (take n rest), drop n rest)

unpack-pack : (s : String) (rest : Bytes) → unpack (pack s rest) ≡ (s, rest)
unpack-pack s rest =
    ap (λ (cs : Bytes). (from_codes cs, drop (length (code_list s)) (code_list s ++ rest)))
      (take-append (code_list s) rest)
    ∙ ap (λ (cs : Bytes). (from_codes (code_list s), cs)) (drop-append (code_list s) rest)
    ∙ ap (λ (t : String). (t, rest)) (from_codes-code_list s)

abbrev written : OutboxEntry → Bytes
written e =
    type_number e.type ∷ e.timestamp ∷ e.attempts ∷ pack e.nonce (pack e.to (pack e.plaintext []))

abbrev entry_from : (t at attempts : ℕ) → Bytes → OutboxEntry
entry_from t at attempts bytes =
    let (nonce, rest) = unpack bytes in
    let (to, rest') = unpack rest in
    record {
      nonce = nonce;
      to = to;
      type = type_at t;
      plaintext = (unpack rest').0;
      timestamp = at;
      attempts = attempts;
    }

abbrev read_back : Bytes → Option OutboxEntry
read_back (t ∷ at ∷ attempts ∷ bytes) = some (entry_from t at attempts bytes)
read_back _ = none

read_back-written : (e : OutboxEntry) → read_back (written e) ≡ some e
read_back-written e = ground (
  arith,
  type_at-number e.type,
  unpack-pack e.nonce (pack e.to (pack e.plaintext [])),
  unpack-pack e.to (pack e.plaintext []),
  unpack-pack e.plaintext [],
)

abbrev toy_outbox : OutboxCrypto
toy_outbox = record {
  encrypt = λ iv e. written e;
  decrypt = λ iv ct. read_back ct;
  to_base64 = text_of;
  from_base64 = λ s. some (bytes_from 0 s);
}

toy_outbox-OutboxWorks : OutboxWorks toy_outbox
toy_outbox-OutboxWorks = record {
  opens = λ iv e. read_back-written e;
  decodes = λ b. ap (λ l. some l) (bytes_from-text_of b);
}

abbrev letter : (nonce text : String) → ℕ → OutboxEntry
letter nonce text at = record {
  nonce = nonce;
  to = "*";
  type = noise_message;
  plaintext = text;
  timestamp = at;
  attempts = 0;
}

abbrev events : List Event
events =
    changed (enqueued (1 ∷ []) (letter "n1" "later" 20))
    ∷ changed (enqueued (2 ∷ []) (letter "n2" "first" 10))
    ∷ flushed (record {
      succeeds = λ e. e.nonce == "n2";
      ivs = λ e. e.attempts ∷ [];
      to = none;
      listed = enqueued (4 ∷ []) (letter "n3" "last" 30) ∷ [];
      sending = λ e. confirmed e.nonce ∷ [];
      pausing = λ e. [];
    })
    ∷ changed (confirmed "n2")
    ∷ []

pending-run_example :
    pending toy_outbox (some "bob") (run toy_outbox events [])
    ≡ waiting (some "bob") (run_specified events [])
pending-run_example = pending-run toy_outbox toy_outbox-OutboxWorks events (some "bob")

abbrev full_box : Outbox
full_box =
    enqueue toy_outbox (2 ∷ []) (letter "n2" "first" 10)
      (enqueue toy_outbox (1 ∷ []) (letter "n1" "later" 20) [])

abbrev takes_n2 : OutboxEntry → Bool
takes_n2 e = e.nonce == "n2"

-- Each entry is confirmed before it is written back.
abbrev late_confirmations : Meanwhile (List OutboxEntry)
late_confirmations = box_only (λ box. box) (λ e box. erase e.nonce box) (λ e box. box)

drain-given_example :
    IsSorted (pending toy_outbox none full_box)
    × ((drain toy_outbox late_confirmations
          (logging toy_outbox takes_n2)
          (λ e. e.attempts ∷ [])
          none
          full_box
          []).2
        ≡ given_to toy_outbox takes_n2 (pending toy_outbox none full_box))
    × ((drain toy_outbox late_confirmations
          (logging toy_outbox takes_n2)
          (λ e. e.attempts ∷ [])
          none
          full_box
          []).0
        ≡ length
            (keep_if takes_n2 (given_to toy_outbox takes_n2 (pending toy_outbox none full_box))))
drain-given_example =
    drain-given toy_outbox (λ box. box) (λ e box. erase e.nonce box) (λ e box. box) takes_n2
      (λ e. e.attempts ∷ []) none full_box

abbrev chat : String → Option PeerChannels → List LocalMessage → Chat
chat id channels messages = record {
  session_id = "s";
  self_id = id;
  messages = messages;
  active_peers = "ann" ∷ "bob" ∷ [];
  channels = channels;
  outbox = some [];
  mailbox = [];
  read_sent = [];
  out = [];
}

abbrev hello : RelayEnvelope
hello = own_envelope plaintext 5 "n0" "hello" (chat "ann" none [])

abbrev wrong_delete : RelayEnvelope
wrong_delete = own_envelope delete 7 "n9" "n0" (chat "bob" none [])

abbrev with_hello : Chat
with_hello = chat "cid" none (new_message hello "hello" delivered ∷ [])

abbrev toy_json : PayloadJson
toy_json = record {
  write_slots = λ slots. "slots";
  read_slots = λ text. if text == "slots" then some ann_slots else none;
  slot_ids = λ text. "bob" ∷ [];
  write_edit = λ target text. text;
  read_edit = λ text. some ("n0", text);
}

Handled-Extends_example :
    Extends "bob" with_hello.messages (on_delete wrong_delete with_hello).messages
Handled-Extends_example =
    Handled-Extends toy_channels toy_json wrong_delete with_hello
      (on_delete wrong_delete with_hello) (deletes with_hello)

-- Only bob has a link that takes frames.
abbrev links : Links
links = record { is_connected = λ id. true; sends_direct = λ id. id == "bob"; socket_open = true }

dispatch-Reached_example : Reached links hello with_hello (dispatch links hello with_hello).out
dispatch-Reached_example = dispatch-Reached links hello with_hello refl

dispatch_direct_private_example :
    (relays (dispatch_direct links hello with_hello).1.out ≡ relays with_hello.out)
    × WentDirect links hello with_hello (dispatch_direct links hello with_hello)
dispatch_direct_private_example = dispatch_direct_private links hello with_hello

abbrev ann_chat : Chat
ann_chat = chat "ann" (some ann) (new_message hello "hello" delivered ∷ [])

abbrev bob_chat : Chat
bob_chat = chat "bob" (some bob) []

ann_ready : is_ready_for_all toy_channels toy_json ann_chat ≡ true
unfolding all_ready is_ready quantum_bunker.Base.Dict.lookup string_eq
ann_ready = refl

message_travels_example :
    (let env = sealed_envelope toy_channels toy_json 50 "n1" ann_slots ann_chat in
      let a' =
        send_message toy_channels toy_json toy_outbox links
          (3 ∷ [])
          (λ _. key_pair 6)
          50
          "n1"
          noise_message
          "hi"
          ann_chat in
      let b' = on_noise_message toy_channels toy_json links (key_pair 8) 60 "n2" env bob_chat in
      let receipt : RelayEnvelope = record {
        session_id = ann_chat.session_id;
        from = bob_chat.self_id;
        type = ack;
        timestamp = 60;
        nonce = "n2";
        payload = "n1";
      } in
      let mine = new_message env "hi" sent in
      (a'.messages ≡ ann_chat.messages ++ (mine ∷ []))
      × (a'
          ≡ append mine (
              dispatch links env (record ann_chat {
                channels = some (encrypt_for_all toy_channels (λ _. key_pair 6) "hi" ann).1;
              })))
      × Arrived toy_channels toy_json Genuine GenuineKem toy_channels-ChannelWorks bob_chat b'
          (new_message env "hi" delivered)
          receipt
          links
      × ((on_ack receipt a').messages
          ≡ ann_chat.messages
            ++ (record mine { status = delivered; delivered_to = "bob" ∷ [] } ∷ [])))
unfolding quantum_bunker.Base.ℕ_discrete string_eq
message_travels_example =
    message_travels toy_channels toy_json Genuine GenuineKem toy_channels-ChannelWorks toy_outbox
      links links (3 ∷ []) (λ _. key_pair 6) (key_pair 8) 50 60 "n1" "n2" "hi" ann_chat bob_chat ann
      bob ann_slots refl refl refl ann-bob-Hears refl ann_ready ann_sends (omega arith) refl refl
      refl
