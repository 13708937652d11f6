-- ===== src/Client/PeerChannels/Runs.antt =====
-- The three messages of a handshake between two peers, in order.
use quantum_bunker.Base.{◌≡◌, arith, true, false, [], some, string_eq, nat_eq}
use quantum_bunker.Client.FileStream.{Bytes}
use quantum_bunker.Client.Ratchet.{DrKeyPair}
use quantum_bunker.Client.Noise.{
  NoiseCrypto, HandshakeState, read_message, write_message, is_complete, transport, Transport,
}
use quantum_bunker.Client.Noise.Agreement.{NoiseWorks, Mirror}
use quantum_bunker.Client.Noise.Deliveries.{deliver_parts}
use quantum_bunker.Client.Noise.Handshakes.{first_message, second_message, third_message, Agreed-of}

complete_of : (hs : HandshakeState) {t : Transport} → transport hs ≡ some t → is_complete hs ≡ true
unfolding transport
complete_of hs h = ground (arith, h)

-- The messages of a handshake and the states between them.
pub record Run (lib : NoiseCrypto) (e_i e_r e_i' : DrKeyPair) (p₂ p₃ : Bytes)
    (i₀ r₀ : HandshakeState) : Type 0 where
  pub m₁ : Bytes
  pub m₂ : Bytes
  pub m₃ : Bytes
  pub i₁ : HandshakeState
  pub i₂ : HandshakeState
  pub i₃ : HandshakeState
  pub r₁ : HandshakeState
  pub r₂ : HandshakeState
  pub r₃ : HandshakeState
  pub wrote₁ : write_message lib e_i [] i₀ ≡ (some m₁, i₁)
  pub read₁ : read_message lib m₁ r₀ ≡ (some [], r₁)
  pub wrote₂ : write_message lib e_r p₂ r₁ ≡ (some m₂, r₂)
  pub read₂ : read_message lib m₂ i₁ ≡ (some p₂, i₂)
  pub wrote₃ : write_message lib e_i' p₃ i₂ ≡ (some m₃, i₃)
  pub read₃ : read_message lib m₃ r₂ ≡ (some p₃, r₃)
  pub same_hash : i₃.sym.h ≡ r₃.sym.h
  pub same_chain : i₃.sym.ck ≡ r₃.sym.ck
  pub initiator_knows : i₃.rs ≡ some r₀.s.public_key
  pub responder_knows : r₃.rs ≡ some i₀.s.public_key
  pub i_complete : is_complete i₃ ≡ true
  pub r_complete : is_complete r₃ ≡ true

module _ (lib : NoiseCrypto) (Genuine : DrKeyPair → Type 0) (works : NoiseWorks lib Genuine) where
  pub Run-of :
      (e_i e_r e_i' : DrKeyPair) (p₂ p₃ : Bytes) (i₀ r₀ : HandshakeState)
      → Genuine e_i
      → Genuine e_r
      → Genuine e_i'
      → Mirror lib Genuine works i₀ r₀
      → i₀.message_index ≡ 0
      → i₀.is_initiator ≡ true
      → Run lib e_i e_r e_i' p₂ p₃ i₀ r₀
  Run-of e_i e_r e_i' p₂ p₃ i₀ r₀ gi gr gi' m index role =
      let (i₁, r₁, d₁, f₁) = first_message lib Genuine works e_i [] i₀ r₀ gi m index in
      let index₁ : r₁.message_index ≡ 1 = omega (arith, f₁.next, f₁.mirror.same_index, index) in
      let role₁ : r₁.is_initiator ≡ false = ground (arith, f₁.mirror.roles, f₁.role, role) in
      let (r₂, i₂, d₂, f₂) =
        second_message lib Genuine works e_i e_r p₂ i₀ r₀ i₁ r₁ gi gr index role f₁ in
      let (i₃, r₃, d₃, f₃, index₂, role₂) =
        third_message lib Genuine works e_i' e_r p₃ r₁ i₁ r₂ i₂ gi' gr index₁ role₁ f₂ in
      let agreed =
        Agreed-of lib Genuine works e_i e_r i₂.e i₀ r₀ i₁ r₁ i₂ r₂ i₃ r₃ f₁ f₂ f₃ index₂ role₂ in
      let (m₁, wrote₁, read₁) = deliver_parts lib Genuine works e_i [] [] i₀ r₀ i₁ r₁ d₁ in
      let (m₂, wrote₂, read₂) = deliver_parts lib Genuine works e_r p₂ p₂ r₁ i₁ r₂ i₂ d₂ in
      let (m₃, wrote₃, read₃) = deliver_parts lib Genuine works e_i' p₃ p₃ i₂ r₂ i₃ r₃ d₃ in
      let (c₁, c₂, i_done, r_done) = agreed.channels in
      record {
        m₁ = m₁;
        m₂ = m₂;
        m₃ = m₃;
        i₁ = i₁;
        i₂ = i₂;
        i₃ = i₃;
        r₁ = r₁;
        r₂ = r₂;
        r₃ = r₃;
        wrote₁ = wrote₁;
        read₁ = read₁;
        wrote₂ = wrote₂;
        read₂ = read₂;
        wrote₃ = wrote₃;
        read₃ = read₃;
        same_hash = agreed.same_hash;
        same_chain = agreed.same_chain;
        initiator_knows = agreed.initiator_knows;
        responder_knows = agreed.responder_knows;
        i_complete = complete_of i₃ i_done;
        r_complete = complete_of r₃ r_done;
      }
