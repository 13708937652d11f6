-- ===== src/Examples/Membership.antt =====
-- Runs of src/shared/membership.ts.
use quantum_bunker.Base.{String, ◌≡◌, ◌↔◌, arith, string_eq}
use quantum_bunker.Shared.Membership.{valid, verify_membership}
use quantum_bunker.Shared.Membership.Verification.{IsAuthorized, SignsFor, verify_membership_iff}
use quantum_bunker.Examples.Values.{toy_ed25519, carol_token, carol_proof}

toy_signs : (k : String) → SignsFor toy_ed25519 k k
toy_signs k m = ground arith

verify_membership_iff_example :
    (verify_membership toy_ed25519 "hk" "vault" "carol" carol_token carol_proof 1000 ≡ valid "ck")
    ↔ (IsAuthorized toy_ed25519 "hk" "vault" "carol" carol_token carol_proof 1000
        × ("ck" ≡ carol_token.claims.mpk))
verify_membership_iff_example =
    verify_membership_iff toy_ed25519 "hk" "vault" "carol" carol_token carol_proof 1000 "ck"
