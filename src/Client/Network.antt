-- ===== src/Client/Network.antt =====
-- src/stun-settings.ts and src/transport/ice-config.ts: which STUN servers a connection may use. What the
-- JSON of a setting or of a list of servers holds is an argument; localStorage is left out.
use quantum_bunker.Base.{
  ℕ, String, Bool, true, false, not, ◌&&◌, ◌||◌, List, [], ◌∷◌, map, Option, none, some, ltb,
  if◌then◌else◌, ◌==◌, length, take, keep_if, string_eq, nat_eq,
}
use quantum_bunker.Shared.Text.{trim, is_space, starts_with_lower, split_on}
pub mod NoRelay

pub data StunMode : Type 0 where
  default custom off : StunMode

pub record StunSetting : Type 0 where
  pub mode : StunMode
  pub urls : List String

abbrev pub default_stun_setting : StunSetting
default_stun_setting = record { mode = default; urls = [] }

abbrev pub max_stun_urls : ℕ
max_stun_urls = 8

unfoldable pub is_stun_url : String → Bool
unfolding trim starts_with_lower
is_stun_url url = starts_with_lower "stun:" (trim url) || starts_with_lower "stuns:" (trim url)

abbrev pub not_empty : String → Bool
not_empty s = not (s == "")

unfoldable pub parse_stun_urls : String → List String
unfolding is_stun_url split_on is_space
parse_stun_urls raw =
    take max_stun_urls (
      keep_if is_stun_url
        (keep_if not_empty (map trim (split_on (λ c. is_space c || c == 44) raw))))

-- What the JSON of a setting holds: the mode where it is a text, and the texts among the entries of
-- `urls` where that is an array.
pub record StoredSetting : Type 0 where
  pub mode : Option String
  pub urls : Option (List String)

abbrev pub mode_of : Option String → StunMode
mode_of none = default
mode_of (some m) = if m == "custom" then custom else (if m == "off" then off else default)

abbrev pub is_custom : StunMode → Bool
is_custom custom = true
is_custom _ = false

abbrev pub is_off : StunMode → Bool
is_off off = true
is_off _ = false

abbrev pub urls_of : Option (List String) → List String
urls_of none = []
urls_of (some urls) = take max_stun_urls (keep_if is_stun_url urls)

-- None where nothing that is stored parses to an object.
unfoldable pub load_stun_setting : Option StoredSetting → StunSetting
unfolding is_stun_url
load_stun_setting none = default_stun_setting
load_stun_setting (some stored) =
    let mode = mode_of stored.mode in
    let urls = urls_of stored.urls in
    if is_custom mode && length urls == 0
    then default_stun_setting
    else record { mode = mode; urls = urls }

-- `urls` is one text or an array of texts; the model keeps the array. `rest` is what else the object of a
-- server holds.
pub record IceServer : Type 0 where
  pub urls : List String
  pub rest : String

abbrev pub plain_server : List String → IceServer
plain_server urls = record { urls = urls; rest = "" }

abbrev pub default_stun_servers : List IceServer
default_stun_servers =
    plain_server ("stun:stun.cloudflare.com:3478" ∷ [])
    ∷ plain_server ("stun:stun.l.google.com:19302" ∷ "stun:stun1.l.google.com:19302" ∷ [])
    ∷ []

unfoldable pub is_relay_url : String → Bool
unfolding trim starts_with_lower
is_relay_url url = starts_with_lower "turn:" (trim url) || starts_with_lower "turns:" (trim url)

abbrev pub without_relays : List String → List String
without_relays urls = keep_if (λ u. not (is_relay_url u)) urls

unfoldable pub strip_relay_servers : List IceServer → List IceServer
unfolding is_relay_url
strip_relay_servers [] = []
strip_relay_servers (s ∷ servers) =
    let rest = strip_relay_servers servers in
    let urls = without_relays s.urls in
    if length urls == 0 then rest else record s { urls = urls } ∷ rest

abbrev pub starts_array : String → Bool
starts_array s = starts_with_lower "[" s

abbrev pub split_urls : String → List String
split_urls text = keep_if not_empty (map trim (split_on (λ c. c == 44) text))

-- `read_servers` gives the entries of an array in JSON that are objects with `urls`; none where the text
-- is not the JSON of an array.
unfoldable pub parse_ice_servers :
    (read_servers : String → Option (List IceServer)) → Option String → List IceServer
unfolding trim split_on
parse_ice_servers read_servers none = []
parse_ice_servers read_servers (some raw) =
    if trim raw == ""
    then []
    else (if starts_array (trim raw)
        then (elim (read_servers (trim raw)) [ none ↦ [] | some servers ↦ servers ])
        else (if length (split_urls (trim raw)) == 0
            then []
            else plain_server (split_urls (trim raw)) ∷ []))

pub record IceEnv : Type 0 where
  pub vite_ice_servers : Option String
  pub vite_stun_url : Option String

-- The servers of the first source, or else those that follow.
abbrev pub or_else : List IceServer → List IceServer → List IceServer
or_else [] next = next
or_else (s ∷ servers) next = s ∷ servers

abbrev pub custom_servers : Option StunSetting → List IceServer
custom_servers none = []
custom_servers (some setting) =
    if is_custom setting.mode then strip_relay_servers (plain_server setting.urls ∷ []) else []

abbrev pub is_turned_off : Option StunSetting → Bool
is_turned_off none = false
is_turned_off (some setting) = is_off setting.mode

abbrev pub url_servers : Option String → List IceServer
url_servers none = []
url_servers (some raw) =
    let urls = without_relays (split_urls raw) in
    if trim raw == "" || length urls == 0 then [] else plain_server urls ∷ []

unfoldable pub resolve_stun_servers :
    (read_servers : String → Option (List IceServer)) → IceEnv → Option StunSetting → List IceServer
unfolding strip_relay_servers parse_ice_servers is_relay_url trim split_on
resolve_stun_servers read_servers env setting =
    if is_turned_off setting
    then []
    else or_else (custom_servers setting) (
        or_else (strip_relay_servers (parse_ice_servers read_servers env.vite_ice_servers))
          (or_else (url_servers env.vite_stun_url) (strip_relay_servers default_stun_servers)))
