-- ===== src/Client/Conversation/Handling.antt =====
-- Handling the envelopes that concern messages.
use quantum_bunker.Base.{
  ℕ, String, ◌≡◌, inl, inr, refl, sym, subst, arith, Option, none, some, string_eq, Option-cases,
  if_both,
}
use quantum_bunker.Server.Events.{RelayEnvelope}
use quantum_bunker.Client.Ratchet.{DrKeyPair}
use quantum_bunker.Client.Mailbox.{hold}
use quantum_bunker.Client.ChannelBasics.{ChannelCrypto}
use quantum_bunker.Client.Conversation.{
  Chat, delivered, PayloadJson, Links, edited_to, knows, new_message, on_ack, on_read, edit_from,
  on_edit, on_delete, decrypt_payload, receive_text, on_plaintext, on_noise_message, edit_decoded,
  receive_decoded,
}
use quantum_bunker.Client.Conversation.Receipts.{
  Extends, Extends-refl, Extends-append, change_if-Extends, dispatch-messages, ack-Keeps,
  read-Keeps, edit-Keeps, delete-Keeps,
}

receive_text-Extends :
    (json : PayloadJson) (lib : ChannelCrypto) (links : Links) (now : ℕ) (nonce : String)
    (env : RelayEnvelope) (text : String) (st : Chat)
    → Extends env.from st.messages (receive_text lib json links now nonce env text st).messages
unfolding receive_text
receive_text-Extends json lib links now nonce env text st =
    subst (Extends env.from st.messages) (sym (dispatch-messages links _ _)) (
      if_both (λ (s : Chat). Extends env.from st.messages s.messages)
        (knows lib json env.nonce st.messages) (Extends-refl env.from st.messages)
        (Extends-append env.from (new_message env text delivered) st.messages refl))

module _ (lib : ChannelCrypto) (json : PayloadJson) where
  decrypt_payload-messages :
      (fresh : DrKeyPair) (from payload : String) (st : Chat)
      → (decrypt_payload lib json fresh from payload st).1.messages ≡ st.messages
  unfolding decrypt_payload
  decrypt_payload-messages fresh from payload st = elim (Option-cases st.channels) [
    | inl missing ↦ ground (arith, missing)
    | inr (pc, there) ↦ elim (Option-cases (json.read_slots payload)) [
      | inl malformed ↦ ground (arith, there, malformed)
      | inr (slots, reads) ↦ ground (arith, there, reads)
    ]
  ]

  -- What handling an envelope of a kind that concerns messages may do.
  pub data Handled (env : RelayEnvelope) : Chat → Chat → Type 0 where
    confirms : (st : Chat) → Handled env st (on_ack env st)
    reads : (st : Chat) → Handled env st (on_read env st)
    edits : (fresh : DrKeyPair) (st : Chat) → Handled env st (on_edit lib json fresh env st)
    deletes : (st : Chat) → Handled env st (on_delete env st)
    says :
        (links : Links) (now : ℕ) (nonce : String) (st : Chat)
        → Handled env st (on_plaintext lib json links now nonce env st)
    seals :
        (links : Links) (fresh : DrKeyPair) (now : ℕ) (nonce : String) (st : Chat)
        → Handled env st (on_noise_message lib json links fresh now nonce env st)

  edit_from-Extends :
      (from : String) (change : Option (String × String)) (st : Chat)
      → Extends from st.messages (edit_from from change st).messages
  unfolding edit_from
  edit_from-Extends from none st = Extends-refl from st.messages
  edit_from-Extends from (some (target, text)) st =
      change_if-Extends from _ (edited_to text) (edit-Keeps from target text) st.messages

  edit_decoded-Extends :
      (from : String) (decoded : Option String) (st : Chat)
      → Extends from st.messages (edit_decoded lib json from decoded st).messages
  edit_decoded-Extends from none st = Extends-refl from st.messages
  edit_decoded-Extends from (some text) st = edit_from-Extends from (json.read_edit text) st

  receive_decoded-Extends :
      (links : Links) (now : ℕ) (nonce : String) (env : RelayEnvelope) (text : Option String)
      (st : Chat)
      → Extends env.from st.messages (receive_decoded lib json links now nonce env text st).messages
  receive_decoded-Extends links now nonce env none st = Extends-refl env.from st.messages
  receive_decoded-Extends links now nonce env (some text) st =
      receive_text-Extends json lib links now nonce env text st

  -- Whatever envelope of the kinds ACK, READ, EDIT, DELETE, PLAINTEXT and NOISE_MESSAGE comes from a
  -- peer: the messages that are shown stay, in their order and with their authors and nonces, and new
  -- ones are the peer's own; of a message that another wrote, neither the text nor the marks of an edit
  -- or a deletion change; no status goes back; and a deleted message stays deleted, with no other text
  -- than it had or none.
  pub Handled-Extends :
      (env : RelayEnvelope) (st st' : Chat)
      → Handled env st st'
      → Extends env.from st.messages st'.messages
  unfolding on_ack on_read on_edit on_delete on_plaintext on_noise_message
  Handled-Extends env _ _ (confirms st) =
      change_if-Extends env.from _ _ (λ m h. ack-Keeps env.from m) st.messages
  Handled-Extends env _ _ (reads st) =
      change_if-Extends env.from _ _ (λ m h. read-Keeps env.from m) st.messages
  Handled-Extends env _ _ (edits fresh st) =
      let (decoded, st') = decrypt_payload lib json fresh env.from env.payload st in
      subst (λ ms. Extends env.from ms (edit_decoded lib json env.from decoded st').messages)
        (decrypt_payload-messages fresh env.from env.payload st)
        (edit_decoded-Extends env.from decoded st')
  Handled-Extends env _ _ (deletes st) =
      change_if-Extends env.from _ _ (delete-Keeps env.from env.payload) st.messages
  Handled-Extends env _ _ (says links now nonce st) =
      receive_text-Extends json lib links now nonce env env.payload st
  Handled-Extends env _ _ (seals links fresh now nonce st) =
      let held = record st { mailbox = hold json.slot_ids now env st.active_peers st.mailbox } in
      let (text, st') = decrypt_payload lib json fresh env.from env.payload held in
      subst
        (λ ms. Extends env.from ms (receive_decoded lib json links now nonce env text st').messages)
        (decrypt_payload-messages fresh env.from env.payload held)
        (receive_decoded-Extends links now nonce env text st')
