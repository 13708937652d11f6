-- ===== src/Server/RateLimit/Window.antt =====
-- How many requests of one client a fixed window lets through.
use quantum_bunker.Base.{
  ℕ, ◌+◌, ◌-◌, ◌≤◌, ◌≡◌, String, false, List, [], ◌∷◌, some, none, arith, min, leb, string_eq, ◌==◌,
  if◌then◌else◌, All,
}
use quantum_bunker.Base.Dict.{
  Dict, lookup, insert, NodupKeys, insert-NodupKeys, retain-NodupKeys, lookup-insert, lookup-retain,
}
use quantum_bunker.Server.RateLimit.{Counter, counter_or_new, count_hit, rate_limit, is_current}

-- The requests of a server, each with its key and time, and how many of one key's are let through.
abbrev pub allowed : (window_ms max : ℕ) → String → List (String × ℕ) → Dict String Counter → ℕ
allowed window_ms max key [] counters = 0
allowed window_ms max key ((k, now) ∷ reqs) counters =
    let (after, ok) = rate_limit window_ms max false k now counters in
    let rest = allowed window_ms max key reqs after in
    if k == key then (if ok then rest + 1 else rest) else rest

abbrev pub requests_of : String → List (String × ℕ) → ℕ
requests_of key [] = 0
requests_of key ((k, now) ∷ reqs) =
    let rest = requests_of key reqs in if k == key then rest + 1 else rest

-- One request, seen from one key whose window is still open.
rate_limit-lookup :
    (window max : ℕ) (k key : String) (now : ℕ) (d : Dict String Counter) (h w : ℕ)
    → NodupKeys d
    → lookup key d ≡ some (record { hits = h; window_start = w })
    → now - w ≤ window
    → lookup key (rate_limit window max false k now d).0
      ≡ some (record { hits = (if k == key then h + 1 else h); window_start = w })
unfolding rate_limit
rate_limit-lookup window max k key now d h w u e le =
    let c = count_hit window now (counter_or_new now (lookup k d)) in
    ground (
      arith,
      lookup-insert key k c d,
      insert-NodupKeys k c d u,
      lookup-retain (is_current window now) key (insert k c d),
    )

rate_limit-ok :
    (window max : ℕ) (key : String) (now : ℕ) (d : Dict String Counter) (h w : ℕ)
    → lookup key d ≡ some (record { hits = h; window_start = w })
    → now - w ≤ window
    → (rate_limit window max false key now d).1 ≡ leb (h + 1) max
unfolding rate_limit
rate_limit-ok window max key now d h w e le = ground arith

rate_limit-NodupKeys :
    (window max : ℕ) (k : String) (now : ℕ) (d : Dict String Counter)
    → NodupKeys d
    → NodupKeys (rate_limit window max false k now d).0
unfolding rate_limit
rate_limit-NodupKeys window max k now d u =
    let c = count_hit window now (counter_or_new now (lookup k d)) in
    ground
      (arith, insert-NodupKeys k c d u, retain-NodupKeys (is_current window now) (insert k c d))

rate_limit_first :
    (window max : ℕ) (key : String) (now : ℕ) (d : Dict String Counter)
    → NodupKeys d
    → lookup key d ≡ none
    → (lookup key (rate_limit window max false key now d).0
        ≡ some (record { hits = 1; window_start = now }))
      × ((rate_limit window max false key now d).1 ≡ leb 1 max)
unfolding rate_limit
rate_limit_first window max key now d u e =
    let c = count_hit window now (counter_or_new now (lookup key d)) in
    ground (
      arith,
      lookup-insert key key c d,
      insert-NodupKeys key c d u,
      lookup-retain (is_current window now) key (insert key c d),
    )

-- From an open window with `h` hits, what is left of the budget.
allowed_open :
    (window max : ℕ) (key : String) (reqs : List (String × ℕ)) (d : Dict String Counter) (h w : ℕ)
    → NodupKeys d
    → lookup key d ≡ some (record { hits = h; window_start = w })
    → All (λ r. r.1 - w ≤ window) reqs
    → allowed window max key reqs d ≡ min (requests_of key reqs) (max - h)
allowed_open window max key [] d h w u e le = omega arith
allowed_open window max key ((k, now) ∷ reqs) d h w u e (le, les) =
    let after = (rate_limit window max false k now d).0 in
    let ih =
      allowed_open window max key reqs after (if k == key then h + 1 else h) w
        (rate_limit-NodupKeys window max k now d u)
        (rate_limit-lookup window max k key now d h w u e le) les in
    ground (arith, ih, rate_limit-ok window max key now d h w)

-- A client that sends its first request at `start`, and then others up to the end of the window that
-- starts there, among the requests of other clients in any order: exactly its first `max` requests
-- are let through.
pub allowed_exact :
    (window max : ℕ) (key : String) (start : ℕ) (reqs : List (String × ℕ)) (d : Dict String Counter)
    → NodupKeys d
    → lookup key d ≡ none
    → All (λ r. r.1 - start ≤ window) reqs
    → allowed window max key ((key, start) ∷ reqs) d ≡ min (requests_of key reqs + 1) max
allowed_exact window max key start reqs d u e les =
    let after = (rate_limit window max false key start d).0 in
    let (found, ok) = rate_limit_first window max key start d u e in
    ground (
      arith,
      allowed_open window max key reqs after 1 start (rate_limit-NodupKeys window max key start d u)
          found les,
      ok,
    )
