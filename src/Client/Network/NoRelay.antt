-- ===== src/Client/Network/NoRelay.antt =====
-- No connection ever uses a TURN relay.
use quantum_bunker.Base.{
  ℕ, ◌<◌, ◌≤◌, min, String, ◌≡◌, ◌⊎◌, inl, inr, refl, arith, Bool, true, false, not, ◌&&◌, ◌||◌,
  List, [], ◌∷◌, Option, none, some, if◌then◌else◌, ◌==◌, All, length, take, keep_if, nat_eq,
  string_eq, Bool-cases, if_both, length-take,
}
use Prim.Native.Char.{Char, code}
use quantum_bunker.Shared.Text.{trim, trim_start, trim_end, is_space, lower_code, starts_with_lower}
use quantum_bunker.Client.Network.{
  StunSetting, IceServer, IceEnv, is_custom, is_turned_off, is_relay_url, without_relays,
  strip_relay_servers, or_else, custom_servers, url_servers, split_urls, plain_server,
  parse_ice_servers, default_stun_servers, resolve_stun_servers,
}

-- The scheme is neither that of TURN nor that of TURN over TLS, in whatever case, after whatever space.
abbrev pub NotRelay : String → Type 0
NotRelay url =
    (starts_with_lower "turn:" (trim url) ≡ false) × (starts_with_lower "turns:" (trim url) ≡ false)

-- A server with URLs, none of which is that of a relay.
abbrev pub IsDirect : IceServer → Type 0
IsDirect s = (0 < length s.urls) × All NotRelay s.urls

is_relay_url-NotRelay : (url : String) → is_relay_url url ≡ false → NotRelay url
unfolding is_relay_url
is_relay_url-NotRelay url h = ground (arith, h)

without_relays_lem : (urls : List String) → All NotRelay (without_relays urls)
without_relays_lem [] = tt
without_relays_lem (u ∷ urls) = elim (Bool-cases (is_relay_url u)) [
  | inl relay ↦ rw (relay, All) (without_relays_lem urls)
  | inr stun ↦ rw (stun, All) (is_relay_url-NotRelay u stun, without_relays_lem urls)
]

strip_relay_servers-IsDirect :
    (servers : List IceServer) → All IsDirect (strip_relay_servers servers)
unfolding strip_relay_servers
strip_relay_servers-IsDirect [] = tt
strip_relay_servers-IsDirect (s ∷ servers) =
    let rest = strip_relay_servers-IsDirect servers in
    elim (Bool-cases (length (without_relays s.urls) == 0)) [
      | inl useless ↦ rw useless rest
      | inr usable ↦ rw usable ((ground (arith, usable), without_relays_lem s.urls), rest)
    ]

or_else-All {κ} :
    (P : IceServer → Type κ) (first next : List IceServer)
    → All P first
    → All P next
    → All P (or_else first next)
or_else-All P [] next all all' = all'
or_else-All P (s ∷ first) next all all' = all

url_servers-IsDirect : (raw : Option String) → All IsDirect (url_servers raw)
url_servers-IsDirect none = tt
url_servers-IsDirect (some raw) =
    elim (Bool-cases (trim raw == "" || length (without_relays (split_urls raw)) == 0)) [
      | inl useless ↦ rw (useless, All) tt
      | inr usable ↦
          rw (usable, All) ((ground (arith, usable), without_relays_lem (split_urls raw)), tt)
    ]

custom_servers-IsDirect : (setting : Option StunSetting) → All IsDirect (custom_servers setting)
custom_servers-IsDirect none = tt
custom_servers-IsDirect (some setting) =
    if_both (All IsDirect) (is_custom setting.mode)
      (strip_relay_servers-IsDirect (plain_server setting.urls ∷ [])) tt

abbrev IsFull : List IceServer → Type 0
IsFull servers = (length servers == 0) ≡ false

or_else-IsFull : (first next : List IceServer) → IsFull next → IsFull (or_else first next)
or_else-IsFull [] next full = full
or_else-IsFull (s ∷ first) next full = ground arith

other_scheme :
    (c : Char) (s : String)
    → is_space (code c) ≡ false
    → (lower_code (code c) == 116) ≡ false
    → is_relay_url (String.◌∷◌ c s) ≡ false
unfolding is_relay_url trim trim_start trim_end starts_with_lower
other_scheme c s not_space not_t = ground (arith, not_space, not_t)

abbrev first_default : String
first_default = "stun:stun.cloudflare.com:3478"

first_default-lem : is_relay_url first_default ≡ false
unfolding is_space quantum_bunker.Base.ℕ_discrete
first_default-lem = other_scheme "s" "tun:stun.cloudflare.com:3478" refl refl

strip_relay_servers-IsFull :
    (url : String) (servers : List IceServer)
    → is_relay_url url ≡ false
    → IsFull (strip_relay_servers (plain_server (url ∷ []) ∷ servers))
unfolding strip_relay_servers
strip_relay_servers-IsFull url servers stun = ground (arith, stun)

default_stun_servers-IsFull : IsFull (strip_relay_servers default_stun_servers)
default_stun_servers-IsFull = strip_relay_servers-IsFull first_default _ first_default-lem

resolved-lem :
    (turned_off : Bool) (chosen : List IceServer)
    → All IsDirect chosen
    → IsFull chosen
    → All IsDirect (if turned_off then [] else chosen)
      × ((length (if turned_off then [] else chosen) == 0) ≡ turned_off)
resolved-lem true chosen direct full = (tt, ground arith)
resolved-lem false chosen direct full = (direct, full)

-- Whatever is set, stored or configured: no server that a connection may use has the URL of a relay, and
-- each has a URL. There is none at all if the user has turned it off, and else there is one.
pub resolve_stun_servers-IsDirect :
    (read_servers : String → Option (List IceServer)) (env : IceEnv) (setting : Option StunSetting)
    → All IsDirect (resolve_stun_servers read_servers env setting)
      × ((length (resolve_stun_servers read_servers env setting) == 0) ≡ is_turned_off setting)
unfolding resolve_stun_servers
resolve_stun_servers-IsDirect read_servers env setting =
    let custom = custom_servers setting in
    let listed = strip_relay_servers (parse_ice_servers read_servers env.vite_ice_servers) in
    let given = url_servers env.vite_stun_url in
    let defaults = strip_relay_servers default_stun_servers in
    let chosen = or_else custom (or_else listed (or_else given defaults)) in
    let direct =
      or_else-All IsDirect custom (or_else listed (or_else given defaults))
        (custom_servers-IsDirect setting)
        (or_else-All IsDirect listed (or_else given defaults)
          (strip_relay_servers-IsDirect (parse_ice_servers read_servers env.vite_ice_servers))
          (or_else-All IsDirect given defaults (url_servers-IsDirect env.vite_stun_url)
            (strip_relay_servers-IsDirect default_stun_servers))) in
    let full = or_else-IsFull custom (or_else listed (or_else given defaults)) (
      or_else-IsFull listed (or_else given defaults)
        (or_else-IsFull given defaults default_stun_servers-IsFull)) in
    resolved-lem (is_turned_off setting) chosen direct full
