-- ===== src/Tests/Security.antt =====
-- src/security.rs at concrete inputs.
use update_delivery_system.Prelude.{
  ℕ, ◌≡◌, ◌≢◌, ◌↔◌, ◌⊎◌, refl, String, true, false, none, some, List, [], ◌∷◌,
}
use update_delivery_system.Prelude.Text.{strip_prefix, as_bytes}
use update_delivery_system.Errors.{ok, err, forbidden}
use update_delivery_system.Auth
use update_delivery_system.Auth.{verify_owner, owner_identity}
use update_delivery_system.Auth.Store.{authenticate}
use update_delivery_system.Security.{
  Parts, bearer, constant_time_eq, admin_auth, owner_auth, cluster_auth,
}
use update_delivery_system.Security.Admission.{
  IsAdmitted, IsLetIn, IsRefused, admin_auth_admits_iff, admin_auth_outcome, owner_auth_admits_iff,
}
use update_delivery_system.Security.Fleet.{comparisons_agree, cluster_auth_admits_iff}
use update_delivery_system.Tests.Auth.Fixtures.{crates, json, store_7, owner_verifier}

abbrev request : Parts
request = record {
  authorization = some (some "Bearer uds_admin_v1_0007_secret");
  request = some (record { method = "GET"; route = none });
}

abbrev bytes : List ℕ
bytes = 1 ∷ 2 ∷ []

comparisons_agree_example :
    ((constant_time_eq bytes bytes ≡ true) ↔ (bytes ≡ bytes))
    × (constant_time_eq bytes bytes ≡ Auth.constant_time_eq bytes bytes)
comparisons_agree_example = comparisons_agree bytes bytes

admin_auth_admits_iff_example :
    ((admin_auth crates json owner_verifier store_7 request).result ≡ ok owner_identity)
    ↔ IsAdmitted crates json owner_verifier store_7 request owner_identity
admin_auth_admits_iff_example =
    admin_auth_admits_iff crates json owner_verifier store_7 request owner_identity

admin_auth_outcome_example :
    IsLetIn request (admin_auth crates json owner_verifier store_7 request)
    ⊎ IsRefused (admin_auth crates json owner_verifier store_7 request)
admin_auth_outcome_example = admin_auth_outcome crates json owner_verifier store_7 request

owner_auth_admits_iff_example :
    (((owner_auth crates json owner_verifier store_7 request).result ≡ ok owner_identity) ↔ (
      (verify_owner crates "uds_admin_v1_0007_secret" owner_verifier ≡ true)
      × (owner_identity ≡ owner_identity)))
    × (((owner_auth crates json owner_verifier store_7 request).result ≡ err forbidden) ↔ (
        (verify_owner crates "uds_admin_v1_0007_secret" owner_verifier ≡ false)
        × (authenticate crates json "uds_admin_v1_0007_secret" store_7 ≢ none)))
unfolding bearer strip_prefix
owner_auth_admits_iff_example =
    owner_auth_admits_iff crates json owner_verifier store_7 request "uds_admin_v1_0007_secret"
      owner_identity refl

cluster_auth_admits_iff_example : ((cluster_auth (some "fleet") request).result ≡ ok tt) ↔ (
    (expected : String) × (token : String) × (some "fleet" ≡ some expected)
    × (bearer request.authorization ≡ some token)
    × (as_bytes token ≡ as_bytes expected))
cluster_auth_admits_iff_example = cluster_auth_admits_iff (some "fleet") request
