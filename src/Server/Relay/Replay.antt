-- ===== src/Server/Relay/Replay.antt =====
-- The replay guard of relay-message.use-case.ts: what it remembers, and how much.
use Prim.Native.Char.{code}
use text.Mathlib.TextLemmas.{nil-append, cons-append, cons-eq-cons, append_cancel_left}
use quantum_bunker.Base.{
  ℕ, ◌+◌, ◌≤◌, ◌<◌, ◌≡◌, ◌≢◌, refl, sym, ◌∙◌, String, ◌<>◌, true, [], ◌∷◌, arith, length, string_eq,
  ap,
}
use quantum_bunker.Base.Dict.{Dict, has, retain, length-insert, has-insert}
use quantum_bunker.Server.Events.{RelayEnvelope}
use quantum_bunker.Server.Relay.{is_replay, nonce_key, drop_oldest, prune_nonces, is_recent}

drop_oldest-lt : (cap : ℕ) (d : Dict String ℕ) → 0 < cap → length (drop_oldest cap d) < cap
unfolding drop_oldest
drop_oldest-lt cap [] h = h
drop_oldest-lt cap (_ ∷ d) h = ground (arith, drop_oldest-lt cap d h)

prune_nonces-lt :
    (cap now : ℕ) (d : Dict String ℕ) → 0 < cap → length (prune_nonces cap now d) < cap
unfolding prune_nonces
prune_nonces-lt cap now d h = drop_oldest-lt cap (retain (is_recent now) d) h

-- The cache never holds more than its limit.
pub length-is_replay-le :
    (cap now : ℕ) (e : RelayEnvelope) (seen : Dict String ℕ)
    → 0 < cap
    → length seen ≤ cap
    → length (is_replay cap now e seen).1 ≤ cap
unfolding is_replay
length-is_replay-le cap now e seen h le = ground (
  arith,
  prune_nonces-lt cap now seen h,
  length-insert (nonce_key e) now (prune_nonces cap now seen),
  length-insert (nonce_key e) now seen,
)

-- An envelope that was let through is in the cache.
pub is_replay_records :
    (cap now : ℕ) (e : RelayEnvelope) (seen : Dict String ℕ)
    → has (nonce_key e) (is_replay cap now e seen).1 ≡ true
unfolding is_replay
is_replay_records cap now e seen = ground (
  arith,
  has-insert (nonce_key e) (nonce_key e) now (prune_nonces cap now seen),
  has-insert (nonce_key e) (nonce_key e) now seen,
)

pub is_replay_of_has :
    (cap now : ℕ) (e : RelayEnvelope) (seen : Dict String ℕ)
    → has (nonce_key e) seen ≡ true
    → is_replay cap now e seen ≡ (true, seen)
unfolding is_replay
is_replay_of_has cap now e seen h = rw (h, is_replay)

pub is_replay-has :
    (cap now : ℕ) (e : RelayEnvelope) (seen : Dict String ℕ)
    → (is_replay cap now e seen).0 ≡ has (nonce_key e) seen
unfolding is_replay
is_replay-has cap now e seen = ground arith

-- Below the limit one check forgets nothing.
pub is_replay_keeps :
    (cap now : ℕ) (e : RelayEnvelope) (seen : Dict String ℕ) (k : String)
    → length seen < cap
    → has k seen ≡ true
    → (has k (is_replay cap now e seen).1 ≡ true)
      × (length (is_replay cap now e seen).1 ≤ length seen + 1)
unfolding is_replay
is_replay_keeps cap now e seen k h m =
    ground (arith, has-insert k (nonce_key e) now seen, length-insert (nonce_key e) now seen)

abbrev pub NoColon : String → Type 0
NoColon String.[] = Unit {0}
NoColon (String.◌∷◌ c s) = (code c ≢ b':') × NoColon s

colon-append : (a : String) → ":" <> a ≡ String.◌∷◌ ":" a
colon-append a = cons-append ":" "" a ∙ ap (String.◌∷◌ ":") (nil-append a)

-- The first colon ends the first part.
colon_cancel :
    (s t a b : String)
    → NoColon s
    → NoColon t
    → s <> (":" <> a) ≡ t <> (":" <> b)
    → (s ≡ t) × (a ≡ b)
colon_cancel String.[] String.[] a b hs ht e =
    (refl, append_cancel_left ":" a b (simp nil-append at e))
colon_cancel String.[] (String.◌∷◌ c t) a b hs ht e =
    let p = cons-eq-cons.0 (simp (nil-append, cons-append, colon-append) at e) in
    absurd (ht.0 (ap code (sym p.0)))
colon_cancel (String.◌∷◌ c s) String.[] a b hs ht e =
    let p = cons-eq-cons.0 (simp (nil-append, cons-append, colon-append) at e) in
    absurd (hs.0 (ap code p.0))
colon_cancel (String.◌∷◌ c s) (String.◌∷◌ d t) a b hs ht e =
    let p = cons-eq-cons.0 (simp cons-append at e) in
    let (same, rest) = colon_cancel s t a b hs.1 ht.1 p.1 in (cc, rest)

-- Envelopes whose session ids and senders hold no colon have the same key only if they agree on the
-- session, the sender and the nonce: no genuine envelope is taken for a replay of another.
pub nonce_key_injective :
    (a b : RelayEnvelope)
    → NoColon a.session_id
    → NoColon b.session_id
    → NoColon a.from
    → NoColon b.from
    → nonce_key a ≡ nonce_key b
    → (a.session_id ≡ b.session_id) × (a.from ≡ b.from) × (a.nonce ≡ b.nonce)
unfolding nonce_key
nonce_key_injective a b sa sb fa fb e =
    let (same_session, rest) = colon_cancel a.session_id b.session_id _ _ sa sb e in
    let (same_from, same_nonce) = colon_cancel a.from b.from _ _ fa fb rest in
    (same_session, same_from, same_nonce)
