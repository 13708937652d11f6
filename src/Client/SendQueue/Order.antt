-- ===== src/Client/SendQueue/Order.antt =====
-- What leaves the queue, and in which order.
use quantum_bunker.Base.{
  ℕ, zero, suc, ◌-◌, ◌≤◌, ◌<◌, ◌≡◌, ◌≢◌, refl, sym, ◌∙◌, ap, arith, false, List, [], ◌∷◌, ◌++◌,
  Option, none, some, leb, length, length-append, Bool-cases, Option-cases, inl, inr, ◌⊎◌,
}
use quantum_bunker.Client.SendQueue.{dequeue, size, Sender, refill, drain, arm, pump}

module _ {ℓ} {A : Type ℓ} where
  -- The queue as one list, in the order in which it drains.
  abbrev pub flatten : List (List A) → List A
  flatten [] = []
  flatten (lane ∷ lanes) = lane ++ flatten lanes

  abbrev pub first_of : Option (A × List (List A)) → List A
  first_of none = []
  first_of (some (x, rest)) = x ∷ flatten rest

  pub dequeue-flatten : (lanes : List (List A)) → first_of (dequeue lanes) ≡ flatten lanes
  unfolding dequeue
  dequeue-flatten [] = refl
  dequeue-flatten ([] ∷ lanes) = elim (Option-cases (dequeue lanes)) [
    | inl e ↦ rw (e, dequeue) (sym (ap first_of e) ∙ dequeue-flatten lanes)
    | inr ((x, rest), e) ↦ rw (e, dequeue) (sym (ap first_of e) ∙ dequeue-flatten lanes)
  ]
  dequeue-flatten ((x ∷ lane) ∷ lanes) = refl

  pub size-flatten : (lanes : List (List A)) → size lanes ≡ length (flatten lanes)
  unfolding size
  size-flatten [] = refl
  size-flatten (lane ∷ lanes) =
      omega (arith, size-flatten lanes, length-append {ℓ} lane (flatten lanes))

  abbrev pub reversed : List A → List A → List A
  reversed [] out = out
  reversed (x ∷ xs) out = reversed xs (x ∷ out)

module _ {ℓ} {A : Type ℓ} (rate : ℕ) where
  -- From `s` to `t`, `xs` was sent, in this order, and taken off the front of the queue.
  abbrev pub Sends : List A → Sender A → Sender A → Type ℓ
  Sends xs s t = (flatten s.lanes ≡ xs ++ flatten t.lanes) × (t.sent ≡ reversed xs s.sent)

  -- Nothing more can be sent: the queue is empty, or less than a token is left.
  abbrev pub Stuck : Sender A → Type 0
  Stuck t = (size t.lanes ≡ 0) ⊎ (t.tokens < 1000)

  drain-Sends :
      (fuel : ℕ) (s : Sender A)
      → size s.lanes ≤ fuel
      → (xs : List A) × Sends xs s (drain rate fuel s) × Stuck (drain rate fuel s)
  unfolding drain
  drain-Sends zero s le = ([], (refl, refl), inl (omega arith))
  drain-Sends (suc fuel) s le = elim (Bool-cases (leb 1000 s.tokens)) [
    | inr poor ↦ rw (poor, drain) ([], (refl, refl), inr (ground arith))
    | inl rich ↦ elim (Option-cases (dequeue s.lanes)) [
      | inl empty ↦
          let none_left : flatten s.lanes ≡ [] =
            sym (dequeue-flatten s.lanes) ∙ ap first_of empty in
          rw (rich, drain, empty)
            ([], (refl, refl), inl (size-flatten s.lanes ∙ ap length none_left))
      | inr ((x, rest), e) ↦
          let s' : Sender A = record s {
            lanes = rest;
            tokens = s.tokens - 1000;
            sent = x ∷ s.sent;
          } in
          let front : flatten s.lanes ≡ x ∷ flatten rest =
            sym (dequeue-flatten s.lanes) ∙ ap first_of e in
          let shorter : length (flatten s.lanes) ≡ suc (length (flatten rest)) = ap length front in
          let (xs, (taken, out), stuck) =
            drain-Sends fuel s'
              (omega (arith, size-flatten {ℓ} s.lanes, size-flatten {ℓ} rest, shorter)) in
          rw (rich, drain, e) (x ∷ xs, (front ∙ ap (λ l. x ∷ l) taken, out), stuck)
    ]
  ]

  -- A pump of a sender that is not paused sends a front part of the queue, lane by lane and first in
  -- first out within a lane, and keeps the rest. It leaves the queue empty, or less than a token and a
  -- timer set: no frame is stranded.
  pub pump-Sends :
      (now : ℕ) (s : Sender A)
      → s.paused ≡ false
      → (xs : List A) × Sends xs s (pump rate now s)
        × ((size (pump rate now s).lanes ≡ 0)
            ⊎ (((pump rate now s).tokens < 1000) × ((pump rate now s).timer ≢ none)))
  unfolding pump refill arm
  pump-Sends now s running =
      let r = refill rate now s in
      let (xs, (taken, out), stuck) = drain-Sends (size r.lanes) r (omega arith) in
      (
        xs,
        (ground (arith, running, taken), ground (arith, running, out)),
        ground (arith, running, stuck),
      )
