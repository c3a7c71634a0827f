-- ===== src/Security.antt =====
-- src/security.rs: the extractors that decide who a request comes from. An extractor returns its
-- result with the actor that it records for the request and the events that it emits.
pub mod Admission
pub mod Fleet
use Prim.Native.Nat.{bit_or, bit_xor}
use update_delivery_system.Prelude.{
  ℕ, String, Bool, true, false, not, Option, none, some, List, [], ◌∷◌, length, ◌==◌, if◌then◌else◌,
}
use update_delivery_system.Prelude.Text.{strip_prefix, as_bytes}
use update_delivery_system.Errors.{Result, ok, err, unauthorized, forbidden}
use update_delivery_system.Auth.{Crates, ActorIdentity, owner_identity, verify_owner}
use update_delivery_system.Auth.Store.{Json, TokenStore, authenticate}

-- The request: the `Authorization` header, which may be absent or not a text, and of its metadata the
-- method and the matched route, where the request carries metadata.
pub record RequestMetadata : Type 0 where
  pub method : String
  pub route : Option String

pub record Parts : Type 0 where
  pub authorization : Option (Option String)
  pub request : Option RequestMetadata

-- The two security events with their fields.
pub data SecurityEvent : Type 0 where
  disabled_token_used : ℕ → SecurityEvent
  authentication_failed : String → String → Option RequestMetadata → SecurityEvent

pub record Extracted {ℓ} (A : Type ℓ) : Type ℓ where
  pub result : Result A
  pub actor : Option ActorIdentity
  pub events : List SecurityEvent

-- The actor is recorded where the request has metadata to hold it.
abbrev pub record_actor : Parts → ActorIdentity → Option ActorIdentity
record_actor parts actor = elim parts.request [ none ↦ none | some _ ↦ some actor ]

abbrev security_failure : Parts → String → String → SecurityEvent
security_failure parts scope reason = authentication_failed scope reason parts.request

-- `header.to_str().ok()?.strip_prefix("Bearer ")` after the lookup.
unfoldable pub bearer : Option (Option String) → Option String
bearer none = none
bearer (some none) = none
bearer (some (some value)) = strip_prefix "Bearer " value

abbrev accepted : Parts → ActorIdentity → Extracted ActorIdentity
accepted parts actor = record { result = ok actor; actor = record_actor parts actor; events = [] }

abbrev refused : List SecurityEvent → Extracted ActorIdentity
refused events = record { result = err unauthorized; actor = none; events = events }

-- The loop of `constant_time_eq` over the zipped bytes.
diff_loop : List ℕ → List ℕ → ℕ → ℕ
diff_loop (l ∷ ls) (r ∷ rs) diff = diff_loop ls rs (bit_or diff (bit_xor l r))
diff_loop _ _ diff = diff

unfoldable pub constant_time_eq : List ℕ → List ℕ → Bool
unfolding diff_loop
constant_time_eq left right =
    if not (length left == length right) then false else diff_loop left right 0 == 0

-- The reason of a refusal, or `none`.
bearer_reason : String → Option String → Option String
bearer_reason expected none = some "malformed"
bearer_reason expected (some token) =
    if constant_time_eq (as_bytes token) (as_bytes expected) then none else some "invalid"

unfoldable pub require_bearer : Option (Option String) → String → Option String
unfolding bearer_reason
require_bearer none expected = some "missing"
require_bearer (some none) expected = some "malformed"
require_bearer (some (some value)) expected = bearer_reason expected (strip_prefix "Bearer " value)

module _ (crates : Crates) (json : Json) (owner_token_verifier : String) (auth : TokenStore json)
    (parts : Parts) where
  -- `disabled_token`; the identifier is there, as `authenticate` answers with one.
  disabled_events : Option ℕ → List SecurityEvent
  disabled_events none = security_failure parts "admin" "disabled" ∷ []
  disabled_events (some id) =
      disabled_token_used id ∷ security_failure parts "admin" "disabled" ∷ []

  admin_token : Option (ActorIdentity × Bool) → Extracted ActorIdentity
  admin_token none = refused (security_failure parts "admin" "invalid" ∷ [])
  admin_token (some (actor, enabled)) =
      if enabled then accepted parts actor else refused (disabled_events actor.token_id)

  admin_bearer : Option String → Extracted ActorIdentity
  admin_bearer none = refused (security_failure parts "admin" "missing" ∷ [])
  admin_bearer (some token) =
      if verify_owner crates token owner_token_verifier
      then accepted parts owner_identity
      else admin_token (authenticate crates json token auth)

  unfoldable pub admin_auth : Extracted ActorIdentity
  unfolding admin_bearer admin_token disabled_events
  admin_auth = admin_bearer (bearer parts.authorization)

  owner_token : Option (ActorIdentity × Bool) → Extracted ActorIdentity
  owner_token none = refused (security_failure parts "owner" "invalid" ∷ [])
  owner_token (some _) = record { result = err forbidden; actor = none; events = [] }

  owner_bearer : Option String → Extracted ActorIdentity
  owner_bearer none = refused (security_failure parts "owner" "missing" ∷ [])
  owner_bearer (some token) =
      if verify_owner crates token owner_token_verifier
      then accepted parts owner_identity
      else owner_token (authenticate crates json token auth)

  unfoldable pub owner_auth : Extracted ActorIdentity
  unfolding owner_bearer owner_token
  owner_auth = owner_bearer (bearer parts.authorization)

cluster_refused : Parts → String → Extracted (Unit {0})
cluster_refused parts reason = record {
  result = err unauthorized;
  actor = none;
  events = security_failure parts "cluster" reason ∷ [];
}

cluster_checked : Parts → Option String → Extracted (Unit {0})
cluster_checked parts none = record { result = ok tt; actor = none; events = [] }
cluster_checked parts (some reason) = cluster_refused parts reason

-- The first argument is `state.config.cluster_token`.
unfoldable pub cluster_auth : Option String → Parts → Extracted (Unit {0})
unfolding cluster_checked cluster_refused
cluster_auth none parts = cluster_refused parts "invalid"
cluster_auth (some token) parts = cluster_checked parts (require_bearer parts.authorization token)
