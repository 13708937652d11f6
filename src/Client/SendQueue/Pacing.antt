-- ===== src/Client/SendQueue/Pacing.antt =====
-- How much leaves the sender in how much time.
use native.Mathlib.Nat.{add-mul, div-add-mod', mod-lt, mul-le-mul_right}
use quantum_bunker.Base.{
  ℕ, zero, suc, ◌+◌, ◌-◌, ◌*◌, ◌/◌, ◌≤◌, ◌<◌, ◌≡◌, refl, arith, min, max, false, List, [], ◌∷◌,
  none, leb, length, Bool-cases, Option-cases, inl, inr,
}
use quantum_bunker.Client.SendQueue.{
  SendPriority, noise, rank, enqueue_at, dequeue, size, clear_except, Sender, refill, drain, arm,
  pump, wait_ms, enqueue, on_timer, pause, resume, clear, clear_transient,
}

elapsed_none : (n rate : ℕ) → (n - n) * rate ≡ 0
elapsed_none n rate = let e : n - n ≡ 0 = omega arith in rw e (omega arith)

elapsed_split :
    (t now last rate : ℕ)
    → last ≤ t
    → t ≤ now
    → (now - last) * rate ≡ (t - last) * rate + (now - t) * rate
elapsed_split t now last rate a b =
    let e : now - last ≡ (t - last) + (now - t) = omega arith in
    rw e (add-mul (t - last) (now - t) rate)

-- What happens to a sender, each at a time.
pub data SendOp {ℓ} (A : Type ℓ) : Type ℓ where
  enqueues : A → SendPriority → SendOp A
  fires pauses resumes clears clears_transient : SendOp A

module _ {ℓ} {A : Type ℓ} (rate : ℕ) where
  unfoldable pub perform : ℕ → SendOp A → Sender A → Sender A
  unfolding enqueue on_timer pause resume clear clear_transient
  perform now (enqueues x p) s = enqueue rate now x p s
  perform now fires s = on_timer rate now s
  perform now pauses s = pause s
  perform now resumes s = resume rate now s
  perform now clears s = clear s
  perform now clears_transient s = clear_transient rate now s

  unfoldable pub run : List (ℕ × SendOp A) → Sender A → Sender A
  unfolding perform
  run [] s = s
  run ((now, op) ∷ ops) s = run ops (perform now op s)

  -- The clock does not go back, and the last operation is at `end`.
  abbrev pub Forward : ℕ → List (ℕ × SendOp A) → ℕ → Type 0
  Forward t [] end = t ≡ end
  Forward t ((now, op) ∷ ops) end = (t ≤ now) × Forward now ops end

  pub record Sane (t : ℕ) (s : Sender A) : Type 0 where
    pub past : s.last_refill ≤ t
    pub within : s.tokens ≤ 1000 * rate

  -- The tokens that a refill at `t` would leave.
  abbrev pub credit : ℕ → Sender A → ℕ
  credit t s = min (1000 * rate) (s.tokens + (t - s.last_refill) * rate)

  -- What was spent and what can be spent.
  abbrev pub total : ℕ → Sender A → ℕ
  total t s = 1000 * length s.sent + credit t s

  drain-total :
      (fuel : ℕ) (s : Sender A)
      → (1000 * length (drain rate fuel s).sent + (drain rate fuel s).tokens
          ≡ 1000 * length s.sent + s.tokens)
        × ((drain rate fuel s).last_refill ≡ s.last_refill)
        × ((drain rate fuel s).tokens ≤ s.tokens)
  unfolding drain
  drain-total zero s = (refl, refl, omega arith)
  drain-total (suc fuel) s = elim (Bool-cases (leb 1000 s.tokens)) [
    | inr poor ↦ rw (poor, drain) (refl, refl, omega arith)
    | inl rich ↦ elim (Option-cases (dequeue s.lanes)) [
      | inl empty ↦ rw (rich, drain, empty) (refl, refl, omega arith)
      | inr ((x, rest), e) ↦
          let s' : Sender A = record s {
            lanes = rest;
            tokens = s.tokens - 1000;
            sent = x ∷ s.sent;
          } in
          let (same, last, le) = drain-total fuel s' in
          rw (rich, drain, e) (ground (arith, same), last, omega (arith, le))
    ]
  ]

  refill-total :
      (now : ℕ) (s : Sender A)
      → Sane now s
      → (1000 * length (refill rate now s).sent + (refill rate now s).tokens ≤ total now s)
        × Sane now (refill rate now s)
        × ((refill rate now s).last_refill ≡ now)
  unfolding refill
  refill-total now s sane =
      let past = sane.past in
      let within = sane.within in let same = elapsed_none now rate in ground (arith, same)

  -- A pump spends only what there is.
  pump-total :
      (now : ℕ) (s : Sender A)
      → Sane now s
      → (total now (pump rate now s) ≤ total now s) × Sane now (pump rate now s)
  unfolding pump arm
  pump-total now s sane = elim (Bool-cases s.paused) [
    | inl idle ↦
        let past = sane.past in let within = sane.within in ground (arith, idle, past, within)
    | inr running ↦
        let r = refill rate now s in
        let (spent, sane', last) = refill-total now s sane in
        let within = sane'.within in
        let (same, kept, less) = drain-total (size r.lanes) r in
        let none_elapsed = elapsed_none now rate in
        ground (arith, running, spent, last, same, kept, less, none_elapsed, within)
  ]

  perform-total :
      (now : ℕ) (op : SendOp A) (s : Sender A)
      → Sane now s
      → (total now (perform now op s) ≤ total now s) × Sane now (perform now op s)
  unfolding perform enqueue on_timer pause resume clear clear_transient
  perform-total now (enqueues x p) s sane =
      pump-total now (record s { lanes = enqueue_at x p s.lanes })
        (record { past = sane.past; within = sane.within })
  perform-total now fires s sane =
      pump-total now (record s { timer = none }) (record { past = sane.past; within = sane.within })
  perform-total now pauses s sane = (omega arith, record { past = sane.past; within = sane.within })
  perform-total now clears s sane = (omega arith, record { past = sane.past; within = sane.within })
  perform-total now clears_transient s sane =
      pump-total now (record s { lanes = clear_except (rank noise) s.lanes; timer = none })
        (record { past = sane.past; within = sane.within })
  perform-total now resumes s sane = elim (Bool-cases s.paused) [
    | inr running ↦
        let past = sane.past in let within = sane.within in ground (arith, running, past, within)
    | inl idle ↦
        let s' : Sender A = record s {
          paused = false;
          tokens = min s.tokens (1000 * rate);
          last_refill = now;
        } in
        let (le, sane') = pump-total now s' (record { past = omega arith; within = omega arith }) in
        let none_elapsed = elapsed_none now rate in
        let past = sane'.past in
        let within = sane'.within in ground (arith, idle, le, none_elapsed, past, within)
  ]

  credit-later :
      (t now : ℕ) (s : Sender A) → Sane t s → t ≤ now → total now s ≤ total t s + (now - t) * rate
  credit-later t now s sane le =
      let e = elapsed_split t now s.last_refill rate sane.past le in omega (arith, e)

  Forward-le : (t : ℕ) (ops : List (ℕ × SendOp A)) (end : ℕ) → Forward t ops end → t ≤ end
  Forward-le t [] end f = omega arith
  Forward-le t ((now, op) ∷ ops) end f = omega (arith, Forward-le now ops end f.1, f.0)

  run-total :
      (t : ℕ) (ops : List (ℕ × SendOp A)) (end : ℕ) (s : Sender A)
      → Sane t s
      → Forward t ops end
      → 1000 * length (run ops s).sent ≤ total t s + (end - t) * rate
  unfolding run
  run-total t [] end s sane f = omega arith
  run-total t ((now, op) ∷ ops) end s sane (le, f) =
      let sane' : Sane now s = record {
        past = let p = sane.past in omega arith;
        within = sane.within;
      } in
      let (spent, after) = perform-total now op s sane' in
      let rest = run-total now ops end (perform now op s) after f in
      let later = credit-later t now s sane le in
      let split = elapsed_split now end t rate le (Forward-le now ops end f) in
      omega (arith, rest, spent, later, split)

  -- Whatever is enqueued, and however often the sender is paused, resumed and cleared: between a time
  -- `t` and a time `end`, at most one second's budget and what the rate gives in this time is sent.
  -- The sender was not refilled after `t`, holds no more than a second's budget, and the clock does not
  -- go back.
  pub run-within :
      (t : ℕ) (ops : List (ℕ × SendOp A)) (end : ℕ) (s : Sender A)
      → Sane t s
      → Forward t ops end
      → 1000 * length (run ops s).sent ≤ 1000 * length s.sent + 1000 * rate + (end - t) * rate
  run-within t ops end s sane f = omega (arith, run-total t ops end s sane f)

-- Once the timer that a pump sets has fired, there is a token: after the wait the refill reaches one.
wait_ms-enough :
    (rate tokens : ℕ) → 0 < rate → tokens < 1000 → 1000 ≤ tokens + wait_ms rate tokens * rate
unfolding wait_ms
wait_ms-enough rate tokens pos poor =
    let n = 1000 - tokens + (rate - 1) in
    let e = div-add-mod' n rate in
    let lt = mod-lt n pos in
    let q = n / rate in
    let at_least : q * rate ≤ max q 1 * rate = mul-le-mul_right rate (omega arith) in
    omega (arith, e, lt, at_least)
