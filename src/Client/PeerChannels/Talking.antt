-- ===== src/Client/PeerChannels/Talking.antt =====
-- Messages between two peers that have met.
use quantum_bunker.Base.{
  String, ◌≡◌, refl, ap, ◌∙◌, ◌<◌, arith, true, false, [], ◌∷◌, none, some, ◌==◌, length, string_eq,
  Bool-cases, Option-cases, inl, inr,
}
use quantum_bunker.Base.Dict.{Dict, lookup, lookup-insert_self}
use quantum_bunker.Client.Padding.{pad_plaintext}
use quantum_bunker.Client.Padding.Sizes.{unpad_plaintext-pad}
use quantum_bunker.Client.FileStream.{Bytes}
use quantum_bunker.Client.Ratchet.{
  DrKeyPair, RatchetSlot, DrState, plaintext, encrypt_msg, start_sending, encrypt_with, encrypt,
  decrypt,
}
use quantum_bunker.Client.Ratchet.Channel.{Synced, decrypt-encrypt}
use quantum_bunker.Client.Ratchet.Conversations.{init-Synced}
use quantum_bunker.Client.ChannelBasics.{KemKeyPair, ChannelCrypto}
use quantum_bunker.Client.PeerChannels.{Channel, PeerChannels, is_phase_ready, put}
use quantum_bunker.Client.PeerChannels.Traffic.{
  Slots, text_of, encrypt_each, encrypt_for_all, decrypt_slot, decrypt_from,
}
use quantum_bunker.Client.PeerChannels.Meeting.{ChannelWorks}
use quantum_bunker.Client.PeerChannels.Sessions.{Connected}

module _ (lib : ChannelCrypto) where
  -- The slot of one ready channel, and what becomes of that channel; those before it in the map are
  -- for other peers.
  encrypt_each-lookup :
      (fresh : String → DrKeyPair) (bytes : Bytes) (id : String) (c : Channel) (r : DrState)
      (cs : Dict String Channel) (slots : Slots)
      → lookup id cs ≡ some c
      → is_phase_ready c.phase ≡ true
      → c.ratchet ≡ some r
      → (encrypt_each lib fresh bytes cs).0 ≡ some slots
      → (lookup id slots ≡ some (encrypt lib.dr (fresh id) bytes r).0)
        × (lookup id (encrypt_each lib fresh bytes cs).1
            ≡ some (record c { ratchet = some (encrypt lib.dr (fresh id) bytes r).1 }))
  unfolding encrypt_each lookup
  encrypt_each-lookup fresh bytes id c r [] slots there is_ready ratchet given = cc
  encrypt_each-lookup fresh bytes id c r ((j, d) ∷ cs) slots there is_ready ratchet given =
      elim (Option-cases (encrypt_each lib fresh bytes cs).0) [
        | inl missing ↦ absurd (ground (arith, missing))
        | inr (rest, some_rest) ↦ elim (Bool-cases (id == j)) [
          | inl same ↦ ground (arith, same, some_rest)
          | inr other ↦
              let ih =
                encrypt_each-lookup fresh bytes id c r cs rest (ground (arith, other)) is_ready
                  ratchet some_rest in
              ground (arith, other, some_rest, ih)
        ]
      ]

module _ (lib : ChannelCrypto) (Genuine : DrKeyPair → Type 0) (GenuineKem : KemKeyPair → Type 0)
    (works : ChannelWorks lib Genuine GenuineKem) where
  encrypt_with_nonempty :
      (ck bytes : Bytes) (r : DrState) → ((encrypt_with lib.dr ck bytes r).0.ct == "") ≡ false
  unfolding encrypt_with encrypt_msg
  encrypt_with_nonempty ck bytes r = works.base64_nonempty _ (works.seal_nonempty _ _ _ _)

  encrypt_nonempty :
      (fresh : DrKeyPair) (bytes : Bytes) (r : DrState)
      → ((encrypt lib.dr fresh bytes r).0.ct == "") ≡ false
  unfolding encrypt start_sending
  encrypt_nonempty fresh bytes r = elim (Option-cases r.cks) [
    | inl none_yet ↦
        let s' = start_sending lib.dr fresh r in
        rw (none_yet, encrypt)
          (encrypt_with_nonempty (elim s'.cks [ none ↦ [] | some c ↦ c ]) bytes s')
    | inr (ck, there) ↦ rw (there, encrypt) (encrypt_with_nonempty ck bytes r)
  ]

  -- `b` can read what `a` sends next.
  pub record Hears (a b : PeerChannels) : Type 0 where
    pub c_a : Channel
    pub c_b : Channel
    pub r_a : DrState
    pub r_b : DrState
    pub there_a : lookup b.self_id a.channels ≡ some c_a
    pub there_b : lookup a.self_id b.channels ≡ some c_b
    pub ready_a : is_phase_ready c_a.phase ≡ true
    pub ready_b : is_phase_ready c_b.phase ≡ true
    pub ratchet_a : c_a.ratchet ≡ some r_a
    pub ratchet_b : c_b.ratchet ≡ some r_b
    pub in_step : Synced lib.dr r_a r_b

  pub Connected-Hears :
      (a b a' b' : PeerChannels) (dr_a dr_b : DrKeyPair)
      → Genuine dr_a
      → Genuine dr_b
      → Connected lib Genuine GenuineKem works a b dr_a dr_b a' b'
      → Hears a' b'
  Connected-Hears a b a' b' dr_a dr_b ga gb c = record {
    c_a = c.c_a;
    c_b = c.c_b;
    r_a = _;
    r_b = _;
    there_a = ap (λ id. lookup id a'.channels) c.same_self.1 ∙ c.there_a;
    there_b = ap (λ id. lookup id b'.channels) c.same_self.0 ∙ c.there_b;
    ready_a = ap (λ p. is_phase_ready p) c.ready_a;
    ready_b = ap (λ p. is_phase_ready p) c.ready_b;
    ratchet_a = c.ratchet_a;
    ratchet_b = c.ratchet_b;
    in_step = init-Synced lib.dr c.root dr_a dr_b (works.dr_agrees dr_a dr_b ga gb);
  }

  -- A slot that opens is read, and the ratchet moves on.
  decrypt_from-slot :
      (fresh : DrKeyPair) (from : String) (slots : Slots) (slot : RatchetSlot) (st : PeerChannels)
      (c : Channel) (r r' : DrState) (bytes : Bytes)
      → lookup from st.channels ≡ some c
      → is_phase_ready c.phase ≡ true
      → c.ratchet ≡ some r
      → lookup st.self_id slots ≡ some slot
      → (slot.ct == "") ≡ false
      → decrypt lib.dr fresh slot r ≡ (plaintext bytes, r')
      → decrypt_from lib fresh from slots st
        ≡ (text_of lib (plaintext bytes), put lib from (record c { ratchet = some r' }) st)
  unfolding decrypt_from decrypt_slot
  decrypt_from-slot fresh from slots slot st c r r' bytes there is_ready ratchet mine full opened =
      ground (arith, there, is_ready, ratchet, mine, full, opened)

  text_of-pad :
      (text : String)
      → length (lib.utf8 text) < 4294967296
      → text_of lib (plaintext (pad_plaintext (lib.utf8 text))) ≡ some text
  text_of-pad text short =
      rw (unpad_plaintext-pad (lib.utf8 text) short, text_of)
        (ap (λ t. some t) (works.utf8_decodes text))

  -- A text below 4 GB that is encrypted for all arrives as it was at a peer that hears, and that peer
  -- hears what comes next.
  pub decrypt_from-encrypt :
      (fresh : String → DrKeyPair) (fresh' : DrKeyPair) (text : String) (a b : PeerChannels)
      (slots : Slots)
      → length (lib.utf8 text) < 4294967296
      → Hears a b
      → (encrypt_for_all lib fresh text a).0 ≡ some slots
      → ((decrypt_from lib fresh' a.self_id slots b).0 ≡ some text)
        × Hears (encrypt_for_all lib fresh text a).1 (decrypt_from lib fresh' a.self_id slots b).1
  unfolding encrypt_for_all
  decrypt_from-encrypt fresh fresh' text a b slots short h given =
      let bytes = pad_plaintext (lib.utf8 text) in
      let pair = fresh b.self_id in
      let slot = (encrypt lib.dr pair bytes h.r_a).0 in
      let (mine, after_a) =
        encrypt_each-lookup lib fresh bytes b.self_id h.c_a h.r_a a.channels slots h.there_a
          h.ready_a h.ratchet_a given in
      let (opens, in_step) =
        decrypt-encrypt lib.dr pair fresh' bytes h.r_a h.r_b works.ratchet_works h.in_step in
      let r_b = (decrypt lib.dr fresh' slot h.r_b).1 in
      let read =
        decrypt_from-slot fresh' a.self_id slots slot b h.c_b h.r_b r_b bytes h.there_b h.ready_b
          h.ratchet_b mine (encrypt_nonempty pair bytes h.r_a) (ap (λ o. (o, r_b)) opens) in
      rw read (
        text_of-pad text short,
        record {
          c_a = record h.c_a { ratchet = some (encrypt lib.dr pair bytes h.r_a).1 };
          c_b = record h.c_b { ratchet = some r_b };
          r_a = (encrypt lib.dr pair bytes h.r_a).1;
          r_b = r_b;
          there_a = after_a;
          there_b = lookup-insert_self a.self_id (record h.c_b { ratchet = some r_b }) b.channels;
          ready_a = h.ready_a;
          ready_b = h.ready_b;
          ratchet_a = refl;
          ratchet_b = refl;
          in_step = in_step;
        },
      )
