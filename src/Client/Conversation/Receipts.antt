-- ===== src/Client/Conversation/Receipts.antt =====
-- What an envelope may do to the messages that are shown.
use quantum_bunker.Base.{
  ℕ, ◌≤◌, String, ◌≡◌, ◌⊎◌, inl, inr, refl, ◌∙◌, arith, Bool, true, false, not, ◌&&◌, List, [], ◌∷◌,
  ◌++◌, if◌then◌else◌, ◌==◌, All, string_eq, Bool-cases, if_both,
}
use quantum_bunker.Server.Events.{RelayEnvelope}
use quantum_bunker.Client.Conversation.{
  Chat, LocalMessage, MessageStatus, sending, sent, delivered, seen, is_seen, Links, change_if,
  written_by, unique, set_payload, edited_to, send_raw, send_while, dispatch, should_use_p2p,
  others_of,
}

abbrev pub rank : MessageStatus → ℕ
rank sending = 0
rank sent = 1
rank delivered = 2
rank seen = 3

-- What an envelope from the peer `from` leaves of a message.
pub record Keeps (from : String) (m m' : LocalMessage) : Type 0 where
  pub same_nonce : m'.envelope.nonce ≡ m.envelope.nonce
  pub same_author : m'.envelope.from ≡ m.envelope.from
  pub others_text :
      (m.envelope.from == from) ≡ false
      → (m'.envelope.payload ≡ m.envelope.payload)
        × (m'.edited ≡ m.edited)
        × (m'.deleted ≡ m.deleted)
  pub no_way_back : rank m.status ≤ rank m'.status
  pub stays_deleted :
      m.deleted ≡ true
      → (m'.deleted ≡ true)
        × ((m'.envelope.payload ≡ m.envelope.payload) ⊎ (m'.envelope.payload ≡ ""))

-- The messages are kept one by one, and only the sender's own come to them.
pub data Extends (from : String) : List LocalMessage → List LocalMessage → Type 0 where
  arrived : {new : List LocalMessage} → All (λ m. m.envelope.from ≡ from) new → Extends from [] new
  kept :
      {m m' : LocalMessage} {ms ms' : List LocalMessage}
      → Keeps from m m'
      → Extends from ms ms'
      → Extends from (m ∷ ms) (m' ∷ ms')

pub Keeps-refl : (from : String) (m : LocalMessage) → Keeps from m m
Keeps-refl from m = record {
  same_nonce = refl;
  same_author = refl;
  others_text = λ h. (refl, refl, refl);
  no_way_back = omega arith;
  stays_deleted = λ h. (h, inl refl);
}

pub Extends-refl : (from : String) (ms : List LocalMessage) → Extends from ms ms
Extends-refl from [] = arrived tt
Extends-refl from (m ∷ ms) = kept (Keeps-refl from m) (Extends-refl from ms)

pub Extends-append :
    (from : String) (m : LocalMessage) (ms : List LocalMessage)
    → m.envelope.from ≡ from
    → Extends from ms (ms ++ (m ∷ []))
Extends-append from m [] own = arrived (own, tt)
Extends-append from m (x ∷ ms) own = kept (Keeps-refl from x) (Extends-append from m ms own)

pub change_if-Extends :
    (from : String) (test : LocalMessage → Bool) (change : LocalMessage → LocalMessage)
    (changes : (m : LocalMessage) → test m ≡ true → Keeps from m (change m))
    (ms : List LocalMessage)
    → Extends from ms (change_if test change ms)
unfolding change_if
change_if-Extends from test change changes [] = arrived tt
change_if-Extends from test change changes (m ∷ ms) =
    let rest = change_if-Extends from test change changes ms in
    elim (Bool-cases (test m)) [
      | inl yes_it_is ↦ rw yes_it_is (kept (changes m yes_it_is) rest)
      | inr other ↦ rw other (kept (Keeps-refl from m) rest)
    ]

send_raw-messages :
    (links : Links) (env : RelayEnvelope) (st : Chat)
    → (send_raw links env st).messages ≡ st.messages
unfolding send_raw
send_raw-messages links env st = ground arith

send_while-messages :
    (links : Links) (env : RelayEnvelope) (ids : List String) (st : Chat)
    → (send_while links env ids st).1.messages ≡ st.messages
unfolding send_while
send_while-messages links env [] st = refl
send_while-messages links env (id ∷ ids) st = elim (Bool-cases (links.sends_direct id)) [
  | inl sends ↦ rw sends (send_while-messages links env ids _)
  | inr refuses ↦ rw refuses refl
]

pub dispatch-messages :
    (links : Links) (env : RelayEnvelope) (st : Chat)
    → (dispatch links env st).messages ≡ st.messages
unfolding dispatch
dispatch-messages links env st =
    let (all_delivered, st') = send_while links env (others_of st) st in
    let same = send_while-messages links env (others_of st) st in
    if_both (λ (s : Chat). s.messages ≡ st.messages) (should_use_p2p links (others_of st))
      (if_both (λ (s : Chat). s.messages ≡ st.messages) all_delivered same
        (send_raw-messages links env st' ∙ same))
      (send_raw-messages links env st)

pub ack-Keeps :
    (from : String) (m : LocalMessage)
    → Keeps from m (record m {
      delivered_to = unique (m.delivered_to ++ (from ∷ []));
      status = if is_seen m.status then seen else delivered;
    })
ack-Keeps from m = record {
  same_nonce = refl;
  same_author = refl;
  others_text = λ h. (refl, refl, refl);
  no_way_back = rank_after m.status;
  stays_deleted = λ h. (h, inl refl);
}
  where
    rank_after : (s : MessageStatus) → rank s ≤ rank (if is_seen s then seen else delivered)
    rank_after sending = omega arith
    rank_after sent = omega arith
    rank_after delivered = omega arith
    rank_after seen = omega arith

pub read-Keeps :
    (from : String) (m : LocalMessage)
    → Keeps from m (record m { seen_by = unique (m.seen_by ++ (from ∷ [])); status = seen })
read-Keeps from m = record {
  same_nonce = refl;
  same_author = refl;
  others_text = λ h. (refl, refl, refl);
  no_way_back = rank_seen m.status;
  stays_deleted = λ h. (h, inl refl);
}
  where
    rank_seen : (s : MessageStatus) → rank s ≤ 3
    rank_seen sending = omega arith
    rank_seen sent = omega arith
    rank_seen delivered = omega arith
    rank_seen seen = omega arith

pub edit-Keeps :
    (from target text : String) (m : LocalMessage)
    → (written_by target from m && not m.deleted) ≡ true
    → Keeps from m (edited_to text m)
edit-Keeps from target text m h = record {
  same_nonce = refl;
  same_author = refl;
  others_text = λ other. absurd (ground (arith, h, other));
  no_way_back = omega arith;
  stays_deleted = λ gone. absurd (ground (arith, h, gone));
}

pub delete-Keeps :
    (from target : String) (m : LocalMessage)
    → written_by target from m ≡ true
    → Keeps from m (record (set_payload "" m) { deleted = true; edited = false })
delete-Keeps from target m h = record {
  same_nonce = refl;
  same_author = refl;
  others_text = λ other. absurd (ground (arith, h, other));
  no_way_back = omega arith;
  stays_deleted = λ gone. (refl, inr refl);
}
