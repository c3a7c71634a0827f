-- ===== src/Security/Fleet.antt =====
-- Who the fleet extractor of src/security.rs lets in.
use Prim.Native.Nat.{bit_or, bit_xor}
use mathlib.Core.Path.{ap₂}
use update_delivery_system.Prelude.{
  ℕ, ◌≡◌, refl, sym, ap, ◌↔◌, inl, inr, String, Bool, true, false, Option, none, some, Option-cases,
  Bool-cases, List, [], ◌∷◌, length, arith, ◌==◌, ==_iff,
}
use update_delivery_system.Prelude.Bits.{bit_or-eq-zero_iff, bit_xor-eq-zero_iff}
use update_delivery_system.Prelude.Text.{strip_prefix, as_bytes}
use update_delivery_system.Errors.{ok}
use update_delivery_system.Auth
use update_delivery_system.Auth.{Crates, ActorIdentity, owner_identity, verify_owner}
use update_delivery_system.Auth.Digest.{constant_time_eq_iff}
use update_delivery_system.Security.{
  Parts, bearer, diff_loop, constant_time_eq, require_bearer, cluster_auth, cluster_checked,
  cluster_refused,
}

diff_loop_iff :
    (l r : List ℕ) (d : ℕ) → length l ≡ length r → (diff_loop l r d ≡ 0) ↔ ((d ≡ 0) × (l ≡ r))
unfolding diff_loop
diff_loop_iff [] [] d e = (λ h. (h, refl), λ h. h.0)
diff_loop_iff [] (y ∷ r) d e = absurd (omega arith)
diff_loop_iff (x ∷ l) [] d e = absurd (omega arith)
diff_loop_iff (x ∷ l) (y ∷ r) d e =
    let (to, from) = diff_loop_iff l r (bit_or d (bit_xor x y)) (omega arith) in
    let (apart, together) = bit_or-eq-zero_iff d (bit_xor x y) in
    let (same, equal) = bit_xor-eq-zero_iff x y in
    (
      λ h. ((apart (to h).0).0, ap₂ ◌∷◌ (same (apart (to h).0).1) (to h).1),
      λ h. from (together (h.0, equal (cc (h.1))), cc (h.1)),
    )

constant_time_eq_lem : (l r : List ℕ) → (constant_time_eq l r ≡ true) ↔ (l ≡ r)
unfolding constant_time_eq
constant_time_eq_lem l r = elim (Bool-cases (length l == length r)) [
  | inl same ↦
      let (to, from) = diff_loop_iff l r 0 ((==_iff (length l) (length r)).0 same) in
      (
        λ h. (to ((==_iff (diff_loop l r 0) 0).0 (rw same at h))).1,
        λ e. rw same ((==_iff (diff_loop l r 0) 0).1 (from (refl, e))),
      )
  | inr other ↦
      (λ h. absurd (let k = rw other at h in cc), λ e. absurd (ground (arith, ap length e)))
]

eq_of_iffs : {P : Type 0} (b c : Bool) → (b ≡ true) ↔ P → (c ≡ true) ↔ P → b ≡ c
eq_of_iffs true c f g = sym (g.1 (f.0 refl))
eq_of_iffs false true f g = f.1 (g.0 refl)
eq_of_iffs false false f g = refl

-- The comparison of the fleet credential decides equality of the bytes, and so agrees everywhere with
-- the comparison of digests in src/auth.rs.
pub comparisons_agree :
    (l r : List ℕ)
    → ((constant_time_eq l r ≡ true) ↔ (l ≡ r)) × (constant_time_eq l r ≡ Auth.constant_time_eq l r)
comparisons_agree l r =
    (constant_time_eq_lem l r, eq_of_iffs _ _ (constant_time_eq_lem l r) (constant_time_eq_iff l r))

require_bearer_lem :
    (header : Option (Option String)) (expected : String)
    → (require_bearer header expected ≡ none)
      ↔ ((token : String) × (bearer header ≡ some token) × (as_bytes token ≡ as_bytes expected))
unfolding require_bearer bearer
require_bearer_lem none expected = (λ h. cc, λ h. cc (h.1))
require_bearer_lem (some none) expected = (λ h. cc, λ h. cc (h.1))
require_bearer_lem (some (some value)) expected =
    elim (Option-cases (strip_prefix "Bearer " value)) [
      | inl absent ↦ rw absent (λ h. cc, λ h. cc (h.1))
      | inr (token, present) ↦ rw present (
        λ h. (
          token,
          refl,
          (constant_time_eq_lem (as_bytes token) (as_bytes expected)).0 (ground arith),
        ),
        λ (t, e, same).
            let p : token ≡ t = cc in
            let q : constant_time_eq (as_bytes token) (as_bytes expected) ≡ true =
              (constant_time_eq_lem (as_bytes token) (as_bytes expected)).1 (rw p same) in
            rw q refl,
      )
    ]

cluster_checked_lem :
    (parts : Parts) (o : Option String) → ((cluster_checked parts o).result ≡ ok tt) ↔ (o ≡ none)
unfolding cluster_checked cluster_refused
cluster_checked_lem parts none = (λ h. refl, λ h. refl)
cluster_checked_lem parts (some reason) = (λ h. cc, λ h. cc)

-- The fleet routes let a request in exactly when a credential is configured and the request's bearer
-- token has its bytes.
pub cluster_auth_admits_iff :
    (configured : Option String) (parts : Parts)
    → ((cluster_auth configured parts).result ≡ ok tt) ↔ (
        (expected : String) × (token : String) × (configured ≡ some expected)
        × (bearer parts.authorization ≡ some token)
        × (as_bytes token ≡ as_bytes expected))
unfolding cluster_auth
cluster_auth_admits_iff none parts = (λ h. cc, λ h. cc (h.2))
cluster_auth_admits_iff (some expected) parts =
    let (to, from) = cluster_checked_lem parts (require_bearer parts.authorization expected) in
    let (there, back) = require_bearer_lem parts.authorization expected in
    (
      λ h. let (token, e, same) = there (to h) in (expected, token, refl, e, same),
      λ (x, token, c, e, same). let p : x ≡ expected = cc in from (back (token, e, rw (← p) same)),
    )
