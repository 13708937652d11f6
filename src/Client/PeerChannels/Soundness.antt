-- ===== src/Client/PeerChannels/Soundness.antt =====
-- A channel that is ready can encrypt.
use quantum_bunker.Base.{
  ℕ, ◌≡◌, refl, arith, true, not, Option, none, some, if◌then◌else◌, ◌==◌, ◌&&◌, nat_eq, is_some,
  Option-cases, if_both, inl, inr, string_eq,
}
use quantum_bunker.Client.FileStream.{Bytes}
use quantum_bunker.Client.Noise.{HandshakeState, read_message, write_message}
use quantum_bunker.Client.ChannelBasics.{
  ChannelCrypto, Fresh, join_handshake_payload, split_handshake_payload, kem_encapsulate,
  kem_decapsulate,
}
use quantum_bunker.Client.PeerChannels.{
  NoiseFrame, Channel, is_phase_ready, finalize, on_first, on_second, on_third, on_frame,
  first_read, first_replied, second_replied, second_sealed, second_split, second_read, third_opened,
  third_split, third_read,
}

-- A ready channel has a ratchet, a safety number, and the post-quantum secret.
pub record IsSound (c : Channel) : Type 0 where
  pub has_parts :
      is_phase_ready c.phase ≡ true
      → (is_some c.ratchet ≡ true) × (is_some c.safety_number ≡ true) × (is_some c.pq_secret ≡ true)

module _ (lib : ChannelCrypto) where
  finalize-IsSound : (c : Channel) → IsSound c → IsSound (finalize lib c)
  unfolding finalize
  finalize-IsSound c sound = let parts = sound.has_parts in record { has_parts = λ h. ground arith }

  with_secret :
      (c : Channel) (hs : HandshakeState) (secret : Bytes)
      → IsSound c
      → IsSound (record c { hs = hs; pq_secret = some secret })
  with_secret c hs secret sound = record {
    has_parts = λ h. ((sound.has_parts h).0, (sound.has_parts h).1, refl);
  }

  first_read-IsSound :
      (fresh : Fresh) (payload : Option Bytes) (c : Channel)
      → IsSound c
      → IsSound (first_read lib fresh payload c).1
  unfolding first_read first_replied
  first_read-IsSound fresh none c sound = record { has_parts = λ r. cc }
  first_read-IsSound fresh (some p) c sound =
      let parts = sound.has_parts in record { has_parts = λ h. ground arith }

  second_replied-IsSound :
      (reply : Option Bytes) (c : Channel) → IsSound c → IsSound (second_replied lib reply c).1
  unfolding second_replied
  second_replied-IsSound none c sound = record { has_parts = λ r. cc }
  second_replied-IsSound (some r) c sound = finalize-IsSound c sound

  second_sealed-IsSound :
      (fresh : Fresh) (sealed : Option (Bytes × Bytes)) (c : Channel)
      → IsSound c
      → IsSound (second_sealed lib fresh sealed c).1
  unfolding second_sealed
  second_sealed-IsSound fresh none c sound = record { has_parts = λ r. cc }
  second_sealed-IsSound fresh (some (ciphertext, secret)) c sound =
      let (reply, hs) =
        write_message lib.noise fresh.ephemeral_pair
          (join_handshake_payload c.dr_key_pair.public_key ciphertext) c.hs in
      second_replied-IsSound reply (record c { hs = hs; pq_secret = some secret })
        (with_secret c hs secret sound)

  second_split-IsSound :
      (fresh : Fresh) (parts : Option (Bytes × Bytes)) (c : Channel)
      → IsSound c
      → IsSound (second_split lib fresh parts c).1
  unfolding second_split
  second_split-IsSound fresh none c sound = record { has_parts = λ r. cc }
  second_split-IsSound fresh (some (dr_key, blob)) c sound =
      second_sealed-IsSound fresh (kem_encapsulate lib fresh.coins blob)
        (record c { remote_dr_key = some dr_key }) (record { has_parts = sound.has_parts })

  second_read-IsSound :
      (fresh : Fresh) (payload : Option Bytes) (c : Channel)
      → IsSound c
      → IsSound (second_read lib fresh payload c).1
  unfolding second_read
  second_read-IsSound fresh none c sound = record { has_parts = λ r. cc }
  second_read-IsSound fresh (some p) c sound =
      second_split-IsSound fresh (split_handshake_payload p) c sound

  third_opened-IsSound :
      (secret : Option Bytes) (c : Channel) → IsSound c → IsSound (third_opened lib secret c)
  unfolding third_opened
  third_opened-IsSound none c sound = record { has_parts = λ r. cc }
  third_opened-IsSound (some s) c sound =
      finalize-IsSound (record c { pq_secret = some s }) (with_secret c c.hs s sound)

  third_split-IsSound :
      (parts : Option (Bytes × Bytes)) (c : Channel) → IsSound c → IsSound (third_split lib parts c)
  unfolding third_split
  third_split-IsSound none c sound = record { has_parts = λ r. cc }
  third_split-IsSound (some (dr_key, blob)) c sound = elim (Option-cases c.kem_key_pair) [
    | inl missing ↦
        rw (missing, third_split)
          (finalize-IsSound (record c { remote_dr_key = some dr_key })
            (record { has_parts = sound.has_parts }))
    | inr (pair, there) ↦
        rw (there, third_split)
          (third_opened-IsSound (kem_decapsulate lib pair.secret_key blob)
            (record c { remote_dr_key = some dr_key }) (record { has_parts = sound.has_parts }))
  ]

  third_read-IsSound :
      (payload : Option Bytes) (c : Channel) → IsSound c → IsSound (third_read lib payload c)
  unfolding third_read
  third_read-IsSound none c sound = record { has_parts = λ r. cc }
  third_read-IsSound (some p) c sound = third_split-IsSound (split_handshake_payload p) c sound

  abbrev SoundResult : Option Bytes × Channel → Type 0
  SoundResult o = IsSound o.1

  -- The three branches, by role and step.
  branch-IsSound :
      (fresh : Fresh) (step : ℕ) (m : Bytes) (c : Channel)
      → IsSound c
      → IsSound
          (if c.initiator && step == 2
            then on_second lib fresh m c
            else (if not c.initiator && step == 1
                then on_first lib fresh m c
                else (if not c.initiator && step == 3
                    then (none, on_third lib m c)
                    else (none, c)))).1
  unfolding on_first on_second on_third
  branch-IsSound fresh step m c sound =
      let (payload, hs) = read_message lib.noise m c.hs in
      let c' = record c { hs = hs } in
      let sound' : IsSound c' = record { has_parts = sound.has_parts } in
      let first = first_read-IsSound fresh payload c' sound' in
      let second = second_read-IsSound fresh payload c' sound' in
      let third = third_read-IsSound payload c' sound' in
      if_both SoundResult (c.initiator && step == 2) second (
        if_both SoundResult (not c.initiator && step == 1) first
          (if_both SoundResult (not c.initiator && step == 3) third sound))

  pub on_frame-IsSound :
      (fresh : Fresh) (frame : NoiseFrame) (c : Channel)
      → IsSound c
      → IsSound (on_frame lib fresh frame c).1
  unfolding on_frame on_first on_second on_third
  on_frame-IsSound fresh frame c sound = elim (Option-cases (lib.from_base64 frame.body)) [
    | inl bad ↦ rw (bad, on_frame) (record { has_parts = λ h. cc })
    | inr (m, good) ↦ rw (good, on_frame) (branch-IsSound fresh frame.step m c sound)
  ]
