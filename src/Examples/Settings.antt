-- ===== src/Examples/Settings.antt =====
-- Contacts and network settings, at concrete inputs.
use quantum_bunker.Base.{
  ℕ, String, ◌≡◌, refl, Bool, true, false, not, List, [], ◌∷◌, Option, none, some, if◌then◌else◌,
  ◌==◌, All, length, string_eq, nat_eq,
}
use quantum_bunker.Shared.Text.{trim}
use quantum_bunker.Shared.Fingerprints.{fingerprint_public_key}
use quantum_bunker.Client.Contacts.{
  Contact, find_contact, upsert_contact, revoke_contact, is_pin_intact,
}
use quantum_bunker.Client.Contacts.Trust.{
  entry_after, find_contact-upsert, Pinned, begin, upserted, revoked, Reach-intact,
}
use quantum_bunker.Client.Network.{
  StunSetting, IceServer, IceEnv, custom, is_turned_off, plain_server, resolve_stun_servers,
  parse_stun_urls,
}
use quantum_bunker.Client.Network.NoRelay.{IsDirect, resolve_stun_servers-IsDirect}

-- Only one key is base64.
abbrev digest_of : String → Option (List ℕ)
digest_of key = if key == "a2V5" then some (18 ∷ 171 ∷ 52 ∷ 205 ∷ []) else none

abbrev one_contact : List Contact
one_contact = upsert_contact digest_of 5 " a2V5 " "Ann" none []

find_contact-upsert_example :
    find_contact "a2V5" (upsert_contact digest_of 9 "a2V5" "" (some (some "token")) one_contact) ≡ (
      if trim "a2V5" == ""
      then find_contact "a2V5" one_contact
      else (if "a2V5" == trim "a2V5"
          then some (
              entry_after digest_of 9
                (trim "a2V5")
                ""
                (some (some "token"))
                (find_contact (trim "a2V5") one_contact))
          else find_contact "a2V5" one_contact))
find_contact-upsert_example =
    find_contact-upsert digest_of 9 "a2V5" "" "a2V5" (some (some "token")) one_contact

abbrev after_revoking : List Contact
after_revoking = revoke_contact "Zm9v" (upsert_contact digest_of 7 "Zm9v" "Bob" none one_contact)

Reach-intact_example :
    Pinned digest_of after_revoking
    × All
        (λ c. is_pin_intact digest_of c ≡ not (fingerprint_public_key digest_of c.public_key == ""))
        after_revoking
Reach-intact_example =
    Reach-intact digest_of after_revoking
      (revoked "Zm9v" (upserted 7 "Zm9v" "Bob" none (upserted 5 " a2V5 " "Ann" none begin)))

abbrev setting : StunSetting
setting = record { mode = custom; urls = "turn:a" ∷ "stun:b" ∷ [] }

abbrev env : IceEnv
env = record { vite_ice_servers = some "[]"; vite_stun_url = some " turns:c, stun:d " }

abbrev read_servers : String → Option (List IceServer)
read_servers text = some (plain_server ("TURN:e" ∷ []) ∷ [])

resolve_stun_servers-IsDirect_example :
    All IsDirect (resolve_stun_servers read_servers env (some setting))
    × ((length (resolve_stun_servers read_servers env (some setting)) == 0)
        ≡ is_turned_off (some setting))
resolve_stun_servers-IsDirect_example =
    resolve_stun_servers-IsDirect read_servers env (some setting)

parsed : parse_stun_urls "stun:a, turn:b" ≡ "stun:a" ∷ []
unfolding parse_stun_urls quantum_bunker.Base.ℕ_discrete string_eq
parsed = refl
