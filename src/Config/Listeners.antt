-- ===== src/Config/Listeners.antt =====
-- The listeners in a configuration of src/config/mod.rs that is accepted.
use update_delivery_system.Prelude.{
  ◌≡◌, refl, sym, ap, ◌∙◌, ◌↔◌, ◌⊎◌, inl, inr, String, Bool, true, false, not, ◌||◌, Option, none,
  some, is_some, eq_iff, str_eq, arith,
}
use update_delivery_system.Errors.{ok}
use update_delivery_system.Errors.Outcomes.{>>-succeeds}
use update_delivery_system.Config.{FleetApiConfig, ServerConfig}
use update_delivery_system.Config.Address.{is_wildcard}
use update_delivery_system.Config.Validation.{
  Url, Environment, check_url, validate_fleet_base_url, fleet_checks, listener_checks,
}
use update_delivery_system.Config.Consistency.{fail_if_iff, both_iff, TlsFits, IsFleetUrl, tls_iff}

-- What the address of a fleet node is not.
url_test : Url → Bool
url_test url =
    not (str_eq url.scheme "http" || str_eq url.scheme "https")
    || not (is_some url.host)
    || is_some url.query
    || is_some url.fragment
    || not (str_eq url.path "/")

absent_iff : {A : Type 0} (o : Option A) → (is_some o ≡ false) ↔ (o ≡ none)
absent_iff none = (λ h. refl, λ h. refl)
absent_iff (some a) = (λ h. cc, λ h. cc)

present_iff : {A : Type 0} (o : Option A) → (is_some o ≡ true) ↔ ((a : A) × (o ≡ some a))
present_iff none = (λ h. cc, λ (a, e). cc)
present_iff (some a) = (λ h. (a, refl), λ h. refl)

scheme_iff :
    (s : String) → ((str_eq s "http" || str_eq s "https") ≡ true) ↔ ((s ≡ "http") ⊎ (s ≡ "https"))
scheme_iff s = (forward (str_eq s "http") refl, backward)
  where
    forward :
        (t : Bool)
        → str_eq s "http" ≡ t
        → (t || str_eq s "https") ≡ true
        → (s ≡ "http") ⊎ (s ≡ "https")
    forward true e h = inl ((eq_iff s "http").0 e)
    forward false e h = inr ((eq_iff s "https").0 h)

    backward : (s ≡ "http") ⊎ (s ≡ "https") → (str_eq s "http" || str_eq s "https") ≡ true
    backward (inl e) = ground (arith, (eq_iff s "http").1 e)
    backward (inr e) = ground (arith, (eq_iff s "https").1 e)

-- A disjunction fails if each part does.
neither_iff : (a b : Bool) → ((a || b) ≡ false) ↔ ((a ≡ false) × (b ≡ false))
neither_iff a b = ground arith

url_test_iff :
    (url : Url)
    → (url_test url ≡ false) ↔ (
        ((url.scheme ≡ "http") ⊎ (url.scheme ≡ "https"))
        × ((host : String) × (url.host ≡ some host))
        × (url.query ≡ none)
        × (url.fragment ≡ none)
        × (url.path ≡ "/"))
unfolding url_test
url_test_iff url = (
  λ h. (
    (scheme_iff url.scheme).0 (ground arith),
    (present_iff url.host).0 (ground arith),
    (absent_iff url.query).0 (ground arith),
    (absent_iff url.fragment).0 (ground arith),
    (eq_iff url.path "/").0 (ground arith),
  ),
  λ (s, o, q, f, p). ground (
    arith,
    (scheme_iff url.scheme).1 s,
    (present_iff url.host).1 o,
    (absent_iff url.query).1 q,
    (absent_iff url.fragment).1 f,
    (eq_iff url.path "/").1 p,
  ),
)

module _ (env : Environment) where
  url_iff : (value : String) → (validate_fleet_base_url env value ≡ ok tt) ↔ IsFleetUrl env value
  unfolding validate_fleet_base_url url_test
  url_iff value = (forward (env.parse_url value) refl, backward)
    where
      forward :
          (o : Option Url)
          → env.parse_url value ≡ o
          → check_url env value o ≡ ok tt
          → IsFleetUrl env value
      forward none e h = cc
      forward (some url) e h =
          let (a, b) = >>-succeeds _ _ h in
          let (s, o, q, f, p) = (url_test_iff url).0 ((fail_if_iff (url_test url) _).0 a) in
          let n = (fail_if_iff (is_wildcard url.host) _).0 b in
          let (host, k) = o in (url, e, s, (host, k, sym (ap is_wildcard k) ∙ n), q, f, p)

      backward : IsFleetUrl env value → check_url env value (env.parse_url value) ≡ ok tt
      backward (url, e, s, (host, k, u), q, f, p) =
          let n : is_wildcard url.host ≡ false = ap is_wildcard k ∙ u in
          ap (check_url env value) e
          ∙ (both_iff _ _ (fail_if_iff (url_test url) _) (fail_if_iff (is_wildcard url.host) _)).1
              ((url_test_iff url).1 (s, (host, k), q, f, p), n)

  -- The interface for the fleet, if there is one.
  abbrev pub FleetFits : Option FleetApiConfig → Type 0
  FleetFits none = Unit
  FleetFits (some api) = TlsFits env api.tls.mode api.tls × IsFleetUrl env api.fleet_base_url

  fleet_iff : (api : Option FleetApiConfig) → (fleet_checks env api ≡ ok tt) ↔ FleetFits api
  fleet_iff none = (λ h. tt, λ h. refl)
  fleet_iff (some api) =
      both_iff _ _ (tls_iff env api.tls "fleet_api.tls") (url_iff api.fleet_base_url)

  pub listener_iff :
      (c : ServerConfig)
      → (listener_checks env c ≡ ok tt) ↔ (
          (TlsFits env c.public_api.tls.mode c.public_api.tls
            × TlsFits env c.admin_api.tls.mode c.admin_api.tls)
          × FleetFits c.fleet_api)
  unfolding listener_checks
  listener_iff c =
      both_iff _ _
        (both_iff _ _ (tls_iff env c.public_api.tls "public_api.tls")
          (tls_iff env c.admin_api.tls "admin_api.tls"))
        (fleet_iff c.fleet_api)
