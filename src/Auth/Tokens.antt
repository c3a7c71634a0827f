-- ===== src/Auth/Tokens.antt =====
-- The texts of tokens and verifiers of src/auth.rs.
use text.Mathlib.TextLemmas.{nil-append, cons-append}
use update_delivery_system.Prelude.{
  ℕ, String, ◌≡◌, refl, ◌∙◌, ap, true, false, none, some, Option-cases, inl, inr, arith,
}
use update_delivery_system.Prelude.Text.{
  ◌<>◌, is_empty, contains_char, strip_prefix, split_once, as_bytes,
}
use update_delivery_system.Prelude.Text.Laws.{
  strip_prefix-append, eq_of_strip_prefix, split_once-append,
}
use update_delivery_system.Auth.{
  Crates, owner_prefix, admin_prefix, verifier, verify_token, verify_owner, parse_admin_token,
}
use update_delivery_system.Auth.Digest.{constant_time_eq_iff}

-- What `uuid` documents of the text form: it reads back, and it has no underscore.
pub record UuidText (crates : Crates) (id : ℕ) : Type 0 where
  pub reads_back : crates.parse_uuid (crates.show_uuid id) ≡ some id
  pub no_underscore : contains_char b'_' (crates.show_uuid id) ≡ false

prefix_mismatch : (rest : String) → strip_prefix admin_prefix (owner_prefix <> rest) ≡ none
unfolding strip_prefix
prefix_mismatch rest = rw (
  cons-append "u" "ds_owner_v1_" rest,
  cons-append "d" "s_owner_v1_" rest,
  cons-append "s" "_owner_v1_" rest,
  cons-append "_" "owner_v1_" rest,
  cons-append "o" "wner_v1_" rest,
)

module _ (crates : Crates) where
  pub verify-verifier : (token : String) → verify_token crates token (verifier crates token) ≡ true
  unfolding verify_token verifier
  verify-verifier token =
      rw strip_prefix-append
        ((constant_time_eq_iff (as_bytes (crates.sha512_hex (as_bytes token))) _).1 refl)

  pub parse-admin_token :
      (id : ℕ) (secret : String)
      → UuidText crates id
      → is_empty secret ≡ false
      → parse_admin_token crates (admin_prefix <> crates.show_uuid id <> "_" <> secret)
        ≡ some (id, secret)
  unfolding parse_admin_token
  parse-admin_token id secret u h =
      let joined : "_" <> secret ≡ String.◌∷◌ "_" secret =
        cons-append "_" "" secret ∙ ap (String.◌∷◌ "_") (nil-append secret) in
      let halves : split_once b'_' (crates.show_uuid id <> "_" <> secret)
          ≡ some (crates.show_uuid id, secret) =
        rw joined (split_once-append b'_' (crates.show_uuid id) secret u.no_underscore "_" refl) in
      let rest : strip_prefix admin_prefix (admin_prefix <> crates.show_uuid id <> "_" <> secret)
          ≡ some (crates.show_uuid id <> "_" <> secret) =
        strip_prefix-append admin_prefix (crates.show_uuid id <> "_" <> secret) in
      rw rest (rw halves (rw h (rw u.reads_back)))

  -- The credentials of the owner and of the administrators are disjoint: a token with which the owner
  -- is recognised is never taken for an administrator token.
  pub owner_token_is_no_admin_token :
      (token expected : String)
      → verify_owner crates token expected ≡ true
      → parse_admin_token crates token ≡ none
  unfolding verify_owner parse_admin_token
  owner_token_is_no_admin_token token expected h =
      elim (Option-cases (strip_prefix owner_prefix token)) [
        | inl absent ↦ ground arith
        | inr (rest, present) ↦
            rw (eq_of_strip_prefix owner_prefix token rest present) (rw (prefix_mismatch rest) refl)
      ]
