-- ===== src/Server/RateLimit.antt =====
-- src/backend/adapters/http/rate-limit.middleware.ts, and the fixed-window counter that the WebSocket
-- transport shares. `now - windowStart` stops at 0, where the test fails as well.
use quantum_bunker.Base.{
  ℕ, ◌+◌, ◌-◌, String, Bool, true, not, Option, none, some, leb, ltb, if◌then◌else◌, length,
  string_eq,
}
use quantum_bunker.Base.Dict.{Dict, lookup, insert, retain}
pub mod Window

pub record Counter : Type 0 where
  pub hits : ℕ
  pub window_start : ℕ

abbrev pub counter_or_new : ℕ → Option Counter → Counter
counter_or_new now none = record { hits = 0; window_start = now }
counter_or_new now (some c) = c

-- A new window at one hit, or one more hit in the window.
unfoldable pub count_hit : ℕ → ℕ → Counter → Counter
count_hit window now c =
    if ltb window (now - c.window_start)
    then record { hits = 1; window_start = now }
    else record c { hits = c.hits + 1 }

abbrev pub sweep_threshold : ℕ
sweep_threshold = 10000

abbrev pub is_current : ℕ → ℕ → String → Counter → Bool
is_current window now key c = not (ltb window (now - c.window_start))

-- `rateLimit`: the counters after the request, and whether `next` is called (else 429).
unfoldable pub rate_limit :
    (window_ms max : ℕ)
    → (skip : Bool) → (key : String) → (now : ℕ) → Dict String Counter
    → Dict String Counter × Bool
unfolding count_hit
rate_limit window_ms max skip key now counters =
    let c = count_hit window_ms now (counter_or_new now (lookup key counters)) in
    let set = insert key c counters in
    let swept =
      if ltb sweep_threshold (length set) then retain (is_current window_ms now) set else set in
    if skip then (counters, true) else (swept, leb c.hits max)
