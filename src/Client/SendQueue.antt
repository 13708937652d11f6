-- ===== src/Client/SendQueue.antt =====
-- src/transport/send-queue.ts: the prioritised queue of the client and the token bucket that paces it.
-- Tokens are counted in thousandths, so that the refill `elapsed * rate / 1000` is a whole number.
use quantum_bunker.Base.{
  ℕ, zero, suc, ◌+◌, ◌-◌, ◌*◌, ◌/◌, min, max, String, Bool, true, false, not, ◌&&◌, ◌||◌, List, [],
  ◌∷◌, ◌++◌, Option, none, some, leb, ltb, is_some, if◌then◌else◌, ◌==◌, length, replicate,
  string_eq,
}
pub mod Order
pub mod Pacing

pub data SendPriority : Type 0 where
  noise chat mesh call : SendPriority

abbrev pub rank : SendPriority → ℕ
rank noise = 0
rank chat = 1
rank mesh = 2
rank call = 3

abbrev pub lane_count : ℕ
lane_count = 4

-- The fields `kind` and `call` of a parsed frame, where they are texts.
unfoldable pub classify_signal_priority : (kind call : Option String) → SendPriority
classify_signal_priority none c = mesh
classify_signal_priority (some kind) c =
    if kind == "noise"
    then noise
    else (if kind == "call"
        then elim c [
          | none ↦ chat
          | some verb ↦ if verb == "ice" || verb == "sdp" then call else chat
        ]
        else mesh)

module _ {ℓ} {A : Type ℓ} where
  -- `this.lanes[i].push(item)`.
  unfoldable pub push_at : ℕ → A → List (List A) → List (List A)
  push_at n x [] = []
  push_at zero x (lane ∷ lanes) = (lane ++ x ∷ []) ∷ lanes
  push_at (suc n) x (lane ∷ lanes) = lane ∷ push_at n x lanes

  unfoldable pub enqueue_at : A → SendPriority → List (List A) → List (List A)
  unfolding push_at
  enqueue_at x p lanes = push_at (rank p) x lanes

  -- `dequeue`: the first item of the first lane that has one.
  unfoldable pub dequeue : List (List A) → Option (A × List (List A))
  dequeue [] = none
  dequeue ([] ∷ lanes) = elim (dequeue lanes) [ none ↦ none | some (x, rest) ↦ some (x, [] ∷ rest) ]
  dequeue ((x ∷ lane) ∷ lanes) = some (x, lane ∷ lanes)

  unfoldable pub size : List (List A) → ℕ
  size [] = 0
  size (lane ∷ lanes) = length lane + size lanes

  unfoldable pub clear_lanes : List (List A) → List (List A)
  clear_lanes [] = []
  clear_lanes (lane ∷ lanes) = [] ∷ clear_lanes lanes

  -- `clearExcept`.
  unfoldable pub clear_except : ℕ → List (List A) → List (List A)
  unfolding clear_lanes
  clear_except keep [] = []
  clear_except zero (lane ∷ lanes) = lane ∷ clear_lanes lanes
  clear_except (suc keep) (lane ∷ lanes) = [] ∷ clear_except keep lanes

pub record Sender {ℓ} (A : Type ℓ) : Type ℓ where
  pub lanes : List (List A)
  pub tokens : ℕ
  pub last_refill : ℕ
  -- The wait of the timer that is set.
  pub timer : Option ℕ
  pub paused : Bool
  -- What `send` was called with, newest first.
  pub sent : List A

module _ {ℓ} {A : Type ℓ} where
  unfoldable pub pause : Sender A → Sender A
  pause s = record s { paused = true; timer = none }

  unfoldable pub clear : Sender A → Sender A
  unfolding clear_lanes
  clear s = record s { lanes = clear_lanes s.lanes; timer = none }

-- `Math.ceil(((1 - tokens) / rate) * 1000)`, at least 1.
unfoldable pub wait_ms : (rate tokens : ℕ) → ℕ
wait_ms rate tokens = max ((1000 - tokens + (rate - 1)) / rate) 1

module _ {ℓ} {A : Type ℓ} (rate : ℕ) where
  unfoldable pub new_sender : ℕ → Sender A
  new_sender now = record {
    lanes = replicate lane_count [];
    tokens = 1000 * rate;
    last_refill = now;
    timer = none;
    paused = false;
    sent = [];
  }

  unfoldable pub refill : ℕ → Sender A → Sender A
  refill now s = if leb now s.last_refill then s else record s {
    tokens = min (1000 * rate) (s.tokens + (now - s.last_refill) * rate);
    last_refill = now;
  }

  -- The `while` loop of `pump`. Each round takes one item off the queue, so its size is enough fuel.
  unfoldable pub drain : ℕ → Sender A → Sender A
  drain zero s = s
  drain (suc fuel) s = elim (leb 1000 s.tokens) [
    | false ↦ s
    | true ↦ elim (dequeue s.lanes) [
      | none ↦ s
      | some (x, rest) ↦
          drain fuel (record s { lanes = rest; tokens = s.tokens - 1000; sent = x ∷ s.sent })
    ]
  ]

  unfoldable pub arm : Sender A → Sender A
  unfolding wait_ms
  arm s =
      if ltb 0 (size s.lanes) && not (is_some s.timer)
      then record s { timer = some (wait_ms rate s.tokens) }
      else s

  unfoldable pub pump : ℕ → Sender A → Sender A
  unfolding refill drain arm
  pump now s = let r = refill now s in if s.paused then s else arm (drain (size r.lanes) r)

  unfoldable pub enqueue : ℕ → A → SendPriority → Sender A → Sender A
  unfolding pump enqueue_at
  enqueue now x p s = pump now (record s { lanes = enqueue_at x p s.lanes })

  -- The timer's callback.
  unfoldable pub on_timer : ℕ → Sender A → Sender A
  unfolding pump
  on_timer now s = pump now (record s { timer = none })

  unfoldable pub resume : ℕ → Sender A → Sender A
  unfolding pump
  resume now s =
      if not s.paused
      then s
      else pump now
          (record s { paused = false; tokens = min s.tokens (1000 * rate); last_refill = now })

  unfoldable pub clear_transient : ℕ → Sender A → Sender A
  unfolding pump clear_except
  clear_transient now s =
      pump now (record s { lanes = clear_except (rank noise) s.lanes; timer = none })
