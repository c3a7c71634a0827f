-- ===== src/Config/Consistency.antt =====
-- The configurations that `validate` of src/config/mod.rs accepts.
use update_delivery_system.Prelude.{
  ℕ, ◌≤◌, ◌≡◌, refl, ap, ◌∙◌, ◌↔◌, ◌⊎◌, inl, inr, String, Bool, true, false, not, ◌&&◌, ◌||◌, ◌==◌,
  Option, none, some, is_some, unwrap_or, List, [], ◌∷◌, length, All, all, leb, ltb, arith,
}
use update_delivery_system.Prelude.Text.{◌<>◌, is_empty, trim, strip_prefix, as_bytes}
use update_delivery_system.Prelude.Text.Laws.{strip_prefix-append, eq_of_strip_prefix}
use update_delivery_system.Errors.{Result, ok, err, config, ◌>>◌}
use update_delivery_system.Errors.Outcomes.{>>-succeeds, true_of_ok}
use update_delivery_system.Config.{
  ServerMode, fleet, single_node, TlsMode, off, files, acme, TlsConfig, FleetApiConfig,
  ServerConfig,
}
use update_delivery_system.Config.Address.{is_unspecified}
use update_delivery_system.Config.Validation.{
  Url, Environment, fail_if, is_lowercase_hex, is_digest, valid_sha512_verifier, identity_checks,
  is_fleet, fleet_api_matches, mode_checks, require_existing_file, validate_mode, validate_tls,
}

pub fail_if_iff : (b : Bool) (message : String) → (fail_if b message ≡ ok tt) ↔ (b ≡ false)
fail_if_iff true message = (λ h. cc, λ h. cc)
fail_if_iff false message = (λ h. refl, λ h. refl)

-- Two checks pass if each does.
pub both_iff :
    {P Q : Type 0} (m n : Result (Unit {0}))
    → (m ≡ ok tt) ↔ P
    → (n ≡ ok tt) ↔ Q
    → ((m >> n) ≡ ok tt) ↔ (P × Q)
both_iff m n f g = (
  λ h. let (a, b) = >>-succeeds m n h in (f.0 a, g.0 b),
  λ h. ap (λ (r : Result (Unit {0})). r >> n) (f.1 h.0) ∙ g.1 h.1,
)

-- `sha512:` and 128 lowercase hexadecimal digits.
abbrev pub IsVerifier : String → Type 0
IsVerifier value =
    (digest : String) × (value ≡ "sha512:" <> digest)
    × (length (as_bytes digest) ≡ 128)
    × All (λ b. ((48 ≤ b) × (b ≤ 57)) ⊎ ((97 ≤ b) × (b ≤ 102))) (as_bytes digest)

hex_iff : (b : ℕ) → (is_lowercase_hex b ≡ true) ↔ (((48 ≤ b) × (b ≤ 57)) ⊎ ((97 ≤ b) × (b ≤ 102)))
hex_iff b = (forward (leb 48 b && leb b 57) refl, backward)
  where
    forward :
        (t : Bool)
        → (leb 48 b && leb b 57) ≡ t
        → (t || (leb 97 b && leb b 102)) ≡ true
        → ((48 ≤ b) × (b ≤ 57)) ⊎ ((97 ≤ b) × (b ≤ 102))
    forward true e h = inl (ground arith, ground arith)
    forward false e h = inr (ground arith, ground arith)

    backward : ((48 ≤ b) × (b ≤ 57)) ⊎ ((97 ≤ b) × (b ≤ 102)) → is_lowercase_hex b ≡ true
    backward (inl (l, h)) = ground arith
    backward (inr (l, h)) = ground arith

all_iff :
    (f : ℕ → Bool) (P : ℕ → Type 0) (xs : List ℕ)
    → ((b : ℕ) → (f b ≡ true) ↔ P b)
    → (all f xs ≡ true) ↔ All P xs
all_iff f P [] h = (λ e. tt, λ a. refl)
all_iff f P (x ∷ xs) h =
    let (i, j) = all_iff f P xs h in
    (λ e. ((h x).0 (ground arith), i (ground arith)), λ a. ground (arith, (h x).1 a.0, j a.1))

valid_sha512_verifier_iff :
    (value : String) → (valid_sha512_verifier value ≡ true) ↔ IsVerifier value
unfolding valid_sha512_verifier
valid_sha512_verifier_iff value = (forward (strip_prefix "sha512:" value) refl, backward)
  where
    forward :
        (o : Option String)
        → strip_prefix "sha512:" value ≡ o
        → is_digest o ≡ true
        → IsVerifier value
    forward none e h = cc
    forward (some digest) e h = (
      digest,
      eq_of_strip_prefix "sha512:" value digest e,
      ground arith,
      (all_iff is_lowercase_hex _ (as_bytes digest) hex_iff).0 (ground arith),
    )

    backward : IsVerifier value → is_digest (strip_prefix "sha512:" value) ≡ true
    backward (digest, e, l, h) =
        ap (λ (v : String). is_digest (strip_prefix "sha512:" v)) e
        ∙ ap is_digest (strip_prefix-append "sha512:" digest)
        ∙ ground (arith, (all_iff is_lowercase_hex _ (as_bytes digest) hex_iff).1 h)

-- The identity: an address for clients, a verifier of the owner's token, and a channel.
pub record IsIdentified (c : ServerConfig) : Type 0 where
  pub addressed : is_empty (trim c.public_base_url) ≡ false
  pub verified : IsVerifier c.owner_token_verifier
  pub channelled : 1 ≤ length c.channels

pub identity_iff : (c : ServerConfig) → (identity_checks c ≡ ok tt) ↔ IsIdentified c
unfolding identity_checks
identity_iff c =
    let checks =
      both_iff _ _
        (both_iff _ _
          (fail_if_iff (is_empty (trim c.public_base_url)) "public_base_url must not be empty")
          (fail_if_iff (not (valid_sha512_verifier c.owner_token_verifier))
            "owner_token_verifier must use the format sha512:<128 lowercase hex characters>"))
        (fail_if_iff (length c.channels == 0) "at least one channel must be configured") in
    (
      λ h.
          let ((a, v), l) = checks.0 h in
          record {
            addressed = a;
            verified = (valid_sha512_verifier_iff c.owner_token_verifier).0 (ground arith);
            channelled = ground arith;
          },
      λ (r : IsIdentified c).
          let v = (valid_sha512_verifier_iff c.owner_token_verifier).1 r.verified in
          checks.1 ((r.addressed, ground arith), ground (arith, r.channelled)),
    )

-- The mode: a fleet has a token of at least 16 bytes and an interface, a single node has none.
abbrev pub ModeFits : ServerMode → Option String → Option FleetApiConfig → Type 0
ModeFits fleet token api =
    ((t : String) × (token ≡ some t) × (16 ≤ length (as_bytes t)))
    × ((a : FleetApiConfig) × (api ≡ some a))
ModeFits single_node token api = api ≡ none

pub mode_iff :
    (c : ServerConfig) → (mode_checks c ≡ ok tt) ↔ ModeFits c.mode c.cluster_token c.fleet_api
unfolding mode_checks
mode_iff c = go c.mode c.cluster_token c.fleet_api
  where
    token_test : ServerMode → Option String → Bool
    token_test mode token = is_fleet mode && ltb (length (as_bytes (unwrap_or token ""))) 16

    nothing : {A : Type 0} {a : A} → none ≡ some a → ⊥
    nothing e = cc

    refused :
        (m : Result (Unit {0}))
        → ◌≡◌ {A = Result (Unit {0})}
            (m >> err (config "fleet_api is required in fleet mode"))
            (ok tt)
        → ⊥
    refused (ok _) h = cc
    refused (err e) h = cc

    go :
        (mode : ServerMode) (token : Option String) (api : Option FleetApiConfig)
        → ((fail_if
                (token_test mode token)
                "cluster_token must contain at least 16 characters in fleet mode"
              >> fleet_api_matches mode api)
            ≡ ok tt)
          ↔ ModeFits mode token api
    go fleet none api = (λ h. unfold as_bytes in cc, λ h. elim (nothing h.0.1) [ ])
    go fleet (some t) none = (λ h. elim (refused _ h) [ ], λ h. elim (nothing h.1.1) [ ])
    go fleet (some t) (some a) =
        let checks =
          fail_if_iff (ltb (length (as_bytes t)) 16)
            "cluster_token must contain at least 16 characters in fleet mode" in
        (
          λ h.
              let (l, b) = >>-succeeds _ _ h in
              let q = checks.0 l in ((t, refl, ground arith), (a, refl)),
          λ h.
              let l : ltb (length (as_bytes t)) 16 ≡ false = ground arith in
              ap (λ (r : Result (Unit {0})). r >> ok tt) (checks.1 l),
        )
    go single_node token none = (λ h. refl, λ h. refl)
    go single_node token (some a) = (λ h. cc, λ h. cc)

-- The files or the names that a listener with TLS needs.
abbrev pub TlsFits : Environment → TlsMode → TlsConfig → Type 0
TlsFits env off tls = Unit
TlsFits env files tls =
    ((cert : String) × (tls.cert_path ≡ some cert) × (env.file_exists cert ≡ true))
    × ((key : String) × (tls.key_path ≡ some key) × (env.file_exists key ≡ true))
TlsFits env acme tls =
    (1 ≤ length tls.acme_domains) × ((email : String) × (tls.acme_contact_email ≡ some email))

-- The address of a fleet node for the others: a bare HTTP address of which the host is not the text
-- of an unspecified IP address. The text with brackets, as in `http://[::]:8443/`, is none.
abbrev pub IsFleetUrl : Environment → String → Type 0
IsFleetUrl env value =
    (url : Url) × (env.parse_url value ≡ some url)
    × ((url.scheme ≡ "http") ⊎ (url.scheme ≡ "https"))
    × ((host : String) × (url.host ≡ some host) × (is_unspecified host ≡ false))
    × (url.query ≡ none)
    × (url.fragment ≡ none)
    × (url.path ≡ "/")

module _ (env : Environment) where
  file_iff :
      (path : Option String) (name : String)
      → (require_existing_file env path name ≡ ok tt)
        ↔ ((p : String) × (path ≡ some p) × (env.file_exists p ≡ true))
  file_iff none name = (λ h. cc, λ (p, e, f). cc)
  file_iff (some p) name =
      (λ h. (p, refl, true_of_ok _ _ h), λ (q, e, f). let g : env.file_exists p ≡ true = cc in rw g)

  pub tls_iff :
      (tls : TlsConfig) (name : String)
      → (validate_tls env tls name ≡ ok tt) ↔ TlsFits env tls.mode tls
  unfolding validate_tls
  tls_iff tls name = go tls.mode
    where
      domains :
          (n : ℕ) (email : Option String)
          → ((n == 0 || not (is_some email)) ≡ false)
            ↔ ((1 ≤ n) × ((e : String) × (email ≡ some e)))
      domains n none = (λ h. absurd (ground arith), λ (l, (e, q)). cc)
      domains n (some e) = (λ h. (ground arith, (e, refl)), λ (l, q). ground (arith, l))

      go : (mode : TlsMode) → (validate_mode env mode tls name ≡ ok tt) ↔ TlsFits env mode tls
      go off = (λ h. tt, λ h. refl)
      go files =
          both_iff _ _ (file_iff tls.cert_path (name <> ".cert_path"))
            (file_iff tls.key_path (name <> ".key_path"))
      go acme =
          let test =
            fail_if_iff (length tls.acme_domains == 0 || not (is_some tls.acme_contact_email))
              (name <> " requires domains and contact email in ACME mode") in
          let names = domains (length tls.acme_domains) tls.acme_contact_email in
          (λ h. names.0 (test.0 h), λ h. test.1 (names.1 h))
