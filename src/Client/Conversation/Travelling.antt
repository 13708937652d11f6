-- ===== src/Client/Conversation/Travelling.antt =====
-- A text on its way: from the user who sends it to a peer, and its receipt back.
use quantum_bunker.Base.{
  ℕ, ◌<◌, String, ◌≡◌, refl, ap, ◌∙◌, arith, Bool, true, false, List, [], ◌∷◌, ◌++◌, Option, some,
  if◌then◌else◌, ◌==◌, length, nat_eq, string_eq,
}
use quantum_bunker.Server.Events.{RelayEnvelope, noise_message, ack}
use quantum_bunker.Client.Ratchet.{DrKeyPair}
use quantum_bunker.Client.FileStream.{Bytes}
use quantum_bunker.Client.Mailbox.{hold}
use quantum_bunker.Client.Outbox.{OutboxCrypto}
use quantum_bunker.Client.ChannelBasics.{KemKeyPair, ChannelCrypto}
use quantum_bunker.Client.PeerChannels.{PeerChannels}
use quantum_bunker.Client.PeerChannels.Traffic.{Slots, encrypt_for_all, decrypt_from}
use quantum_bunker.Client.PeerChannels.Meeting.{ChannelWorks}
use quantum_bunker.Client.PeerChannels.Talking.{Hears, decrypt_from-encrypt}
use quantum_bunker.Client.Conversation.{
  Chat, LocalMessage, PayloadJson, Links, sent, delivered, seen, is_seen, own_envelope, new_message,
  append, dispatch, others_of, knows, has_nonce, change_if, unique, on_ack, decrypt_payload,
  receive_text, receive_decoded, receipt_for, on_noise_message,
}
use quantum_bunker.Client.Conversation.Receipts.{dispatch-messages}
use quantum_bunker.Client.Conversation.Sending.{
  is_ready_for_all, encrypt_payload, wire_payload, send_wired, send_message,
}

module _ (lib : ChannelCrypto) (json : PayloadJson) where
  -- The envelope of a text that is encrypted to `slots`.
  abbrev pub sealed_envelope : (now : ℕ) → (nonce : String) → Slots → Chat → RelayEnvelope
  sealed_envelope now nonce slots st =
      own_envelope noise_message now nonce (json.write_slots slots) st

  send_message-ready :
      (at_rest : OutboxCrypto) (links : Links) (iv : Bytes) (fresh : String → DrKeyPair) (now : ℕ)
      (nonce text : String) (st : Chat) (pc : PeerChannels) (slots : Slots)
      → (length (others_of st) == 0) ≡ false
      → is_ready_for_all lib json st ≡ true
      → st.channels ≡ some pc
      → (encrypt_for_all lib fresh text pc).0 ≡ some slots
      → send_message lib json at_rest links iv fresh now nonce noise_message text st
        ≡ append (new_message (sealed_envelope now nonce slots st) text sent) (
            dispatch links
              (sealed_envelope now nonce slots st)
              (record st { channels = some (encrypt_for_all lib fresh text pc).1 }))
  unfolding send_message wire_payload encrypt_payload send_wired
  send_message-ready at_rest links iv fresh now nonce text st pc slots others is_ready there given =
      ground (arith, others, is_ready, there, given)

  decrypt_payload-some :
      (fresh : DrKeyPair) (from payload : String) (st : Chat) (pc : PeerChannels) (slots : Slots)
      → st.channels ≡ some pc
      → json.read_slots payload ≡ some slots
      → decrypt_payload lib json fresh from payload st ≡ (
        (decrypt_from lib fresh from slots pc).0,
        record st { channels = some (decrypt_from lib fresh from slots pc).1 },
      )
  unfolding decrypt_payload
  decrypt_payload-some fresh from payload st pc slots there reads = ground (arith, there, reads)

  change_if-unknown :
      (nonce : String) (change : LocalMessage → LocalMessage) (ms : List LocalMessage)
      → knows lib json nonce ms ≡ false
      → change_if (has_nonce nonce) change ms ≡ ms
  unfolding change_if
  change_if-unknown nonce change [] h = refl
  change_if-unknown nonce change (m ∷ ms) h =
      let other : has_nonce nonce m ≡ false = ground (arith, h) in
      let rest : knows lib json nonce ms ≡ false = ground (arith, h) in
      rw other (ap (λ l. m ∷ l) (change_if-unknown nonce change ms rest))

  change_if-append :
      (test : LocalMessage → Bool) (change : LocalMessage → LocalMessage)
      (ms ns : List LocalMessage)
      → change_if test change (ms ++ ns) ≡ change_if test change ms ++ change_if test change ns
  unfolding change_if
  change_if-append test change [] ns = refl
  change_if-append test change (m ∷ ms) ns =
      ap (λ l. (if test m then change m else m) ∷ l) (change_if-append test change ms ns)

module _ (lib : ChannelCrypto) (json : PayloadJson) (Genuine : DrKeyPair → Type 0)
    (GenuineKem : KemKeyPair → Type 0) (works : ChannelWorks lib Genuine GenuineKem) where
  -- What the peer shows, and how it confirms.
  pub record Arrived (b b' : Chat) (shown : LocalMessage) (receipt : RelayEnvelope) (links : Links)
      : Type 0 where
    pub confirming : Chat
    pub shows : confirming.messages ≡ b.messages ++ (shown ∷ [])
    pub confirms : b' ≡ dispatch links receipt confirming

  on_noise_message-Arrived :
      (links : Links) (fresh : DrKeyPair) (now : ℕ) (nonce text : String) (env : RelayEnvelope)
      (b : Chat) (pc : PeerChannels) (slots : Slots)
      → b.channels ≡ some pc
      → json.read_slots env.payload ≡ some slots
      → (decrypt_from lib fresh env.from slots pc).0 ≡ some text
      → knows lib json env.nonce b.messages ≡ false
      → Arrived b
          (on_noise_message lib json links fresh now nonce env b)
          (new_message env text delivered)
          (receipt_for lib json now nonce env b)
          links
  unfolding on_noise_message receive_text
  on_noise_message-Arrived links fresh now nonce text env b pc slots there reads decrypted new =
      let held = record b { mailbox = hold json.slot_ids now env b.active_peers b.mailbox } in
      let pc' = (decrypt_from lib fresh env.from slots pc).1 in
      let got =
        decrypt_payload-some lib json fresh env.from env.payload held pc slots there reads
        ∙ ap (λ (t : Option String). (t, record held { channels = some pc' })) decrypted in
      record {
        confirming = append (new_message env text delivered) (record held { channels = some pc' });
        shows = refl;
        confirms =
            ap (λ (r : Option String × Chat). receive_decoded lib json links now nonce env r.0 r.1)
              got
            ∙ ground (arith, new);
      }

  pub message_travels :
      (at_rest : OutboxCrypto) (links links' : Links) (iv : Bytes) (fresh : String → DrKeyPair)
      (fresh' : DrKeyPair) (now now' : ℕ) (nonce nonce' text : String) (a b : Chat)
      (pa pb : PeerChannels) (slots : Slots)
      → a.channels ≡ some pa
      → b.channels ≡ some pb
      → a.self_id ≡ pa.self_id
      → Hears lib Genuine GenuineKem works pa pb
      → (length (others_of a) == 0) ≡ false
      → is_ready_for_all lib json a ≡ true
      → (encrypt_for_all lib fresh text pa).0 ≡ some slots
      → length (lib.utf8 text) < 4294967296
      → json.read_slots (json.write_slots slots) ≡ some slots
      → knows lib json nonce a.messages ≡ false
      → knows lib json nonce b.messages ≡ false
      → (let env = sealed_envelope lib json now nonce slots a in
          let a' = send_message lib json at_rest links iv fresh now nonce noise_message text a in
          let b' = on_noise_message lib json links' fresh' now' nonce' env b in
          let receipt : RelayEnvelope = record {
            session_id = a.session_id;
            from = b.self_id;
            type = ack;
            timestamp = now';
            nonce = nonce';
            payload = nonce;
          } in
          let mine = new_message env text sent in
          (a'.messages ≡ a.messages ++ (mine ∷ []))
          × (a'
              ≡ append mine (
                  dispatch links env
                    (record a { channels = some (encrypt_for_all lib fresh text pa).1 })))
          × Arrived b b' (new_message env text delivered) receipt links'
          × ((on_ack receipt a').messages
              ≡ a.messages
                ++ (record mine { status = delivered; delivered_to = b.self_id ∷ [] } ∷ [])))
  unfolding on_ack unique change_if
  message_travels at_rest links links' iv fresh fresh' now now' nonce nonce' text a b pa pb slots
        a_has b_has same_id hears others is_ready given short reads_back new_a new_b =
      let env = sealed_envelope lib json now nonce slots a in
      let mine = new_message env text sent in
      let a₁ = record a { channels = some (encrypt_for_all lib fresh text pa).1 } in
      let went =
        send_message-ready lib json at_rest links iv fresh now nonce text a pa slots others is_ready
          a_has given in
      let shown =
        ap (λ (s : Chat). s.messages) went
        ∙ ap (λ ms. ms ++ (mine ∷ [])) (dispatch-messages links env a₁) in
      let decrypted =
        ap (λ from. (decrypt_from lib fresh' from slots pb).0) same_id
        ∙ (decrypt_from-encrypt lib Genuine GenuineKem works fresh fresh' text pa pb slots short
            hears given).0 in
      let change = λ (m : LocalMessage). record m {
        delivered_to = unique (m.delivered_to ++ (b.self_id ∷ []));
        status = if is_seen m.status then seen else delivered;
      } in
      (
        shown,
        went,
        on_noise_message-Arrived links' fresh' now' nonce' text env b pb slots b_has reads_back
            decrypted new_b,
        ap (λ ms. change_if (has_nonce nonce) change ms) shown
            ∙ change_if-append lib json (has_nonce nonce) change a.messages (mine ∷ [])
            ∙ ap (λ ms. ms ++ change_if (has_nonce nonce) change (mine ∷ []))
                (change_if-unknown lib json nonce change a.messages new_a)
            ∙ ap (λ l. a.messages ++ l) (ground arith),
      )
