-- ===== src/Server/Security.antt =====
-- src/backend/core/security.ts. SHA-256 and URL parsing are parameters.
use quantum_bunker.Base.{
  String, Bool, true, false, not, ◌&&◌, List, [], ◌∷◌, Option, none, some, if◌then◌else◌, ◌==◌,
  contains, string_eq,
}

-- A comparison of hashes; an absent or empty side never matches.
unfoldable pub safe_equal : (String → String) → Option String → Option String → Bool
safe_equal sha256 none b = false
safe_equal sha256 (some a) none = false
safe_equal sha256 (some a) (some b) = not (a == "") && (not (b == "") && sha256 a == sha256 b)

abbrev pub truthy : Option String → Bool
truthy none = false
truthy (some s) = not (s == "")

-- `isAllowedOrigin`: `url_host` gives the host of an origin, or none if it is no URL.
unfoldable pub is_allowed_origin :
    (url_host : String → Option String) (allowlist : List String) (origin host : Option String)
    → Bool
is_allowed_origin url_host allowlist none host = true
is_allowed_origin url_host [] (some origin) host =
    if origin == "" then true else (elim (url_host origin) [
      | none ↦ false
      | some h ↦ elim host [ none ↦ false | some h' ↦ h == h' ]
    ])
is_allowed_origin url_host (o ∷ os) (some origin) host =
    if origin == "" then true else contains (o ∷ os) origin
