-- ===== src/Auth.antt =====
-- src/auth.rs: the owner and administrator tokens. The records, and the texts of tokens and
-- verifiers; the repository of records is in the child `Store`.
pub mod Digest
pub mod Tokens
pub mod Records
pub mod Store
pub mod Merge
pub mod Lifecycle
pub mod Durability
pub mod Restart
pub mod Credentials
use Prim.Native.Nat.{bit_or, bit_xor}
use mathlib.Core.List.{reverse}
use mathlib.Core.Option
use update_delivery_system.Prelude.{
  ℕ, ◌+◌, ◌-◌, String, Bool, true, false, not, ◌&&◌, Option, none, some, List, [], ◌∷◌, length, max,
  get_elem?, unwrap_or, ◌==◌, if◌then◌else◌,
}
use update_delivery_system.Prelude.Text.{
  ◌<>◌, is_empty, trim, strip_prefix, starts_with, split_once, as_bytes,
}
use update_delivery_system.Errors.{Result, ok, err, bad_request, ◌>>=◌}

abbrev pub owner_prefix : String
owner_prefix = "uds_owner_v1_"

abbrev pub admin_prefix : String
admin_prefix = "uds_admin_v1_"

abbrev pub verifier_prefix : String
verifier_prefix = "sha512:"

-- What the crates `sha2`, `hex` and `uuid` supply: the digest in hexadecimal, and the text form of
-- an identifier both ways.
pub record Crates : Type 0 where
  pub sha512_hex : List ℕ → String
  pub parse_uuid : String → Option ℕ
  pub show_uuid : ℕ → String

pub data ActorType : Type 0 where
  owner admin : ActorType

pub record ActorIdentity : Type 0 where
  pub actor_type : ActorType
  pub token_id : Option ℕ
  pub token_name : Option String

-- `ActorIdentity::owner()`.
abbrev pub owner_identity : ActorIdentity
owner_identity = record { actor_type = owner; token_id = none; token_name = none }

-- A time is the number that the library keeps for it.
pub record StatusHistoryEntry : Type 0 where
  pub enabled : Bool
  pub changed_at : ℕ
  pub reason : String
  pub mutation_id : ℕ

pub record AdminTokenRecord : Type 0 where
  pub id : ℕ
  pub verifier : String
  pub name : String
  pub created_at : ℕ
  pub creation_reason : String
  pub enabled : Bool
  pub status_history : List StatusHistoryEntry
  pub revision : ℕ
  pub last_mutation_id : ℕ

pub record AdminTokenMetadata : Type 0 where
  pub id : ℕ
  pub name : String
  pub created_at : ℕ
  pub creation_reason : String
  pub enabled : Bool
  pub status_history : List StatusHistoryEntry
  pub disabled_at : Option ℕ
  pub disabled_reason : Option String

-- `iter().find(|entry| !entry.enabled)`.
first_disabled : List StatusHistoryEntry → Option StatusHistoryEntry
first_disabled [] = none
first_disabled (e ∷ es) = if not e.enabled then some e else first_disabled es

-- `From<&AdminTokenRecord>`.
unfoldable pub to_metadata : AdminTokenRecord → AdminTokenMetadata
unfolding first_disabled
to_metadata r =
    let disabled = first_disabled (reverse r.status_history) in
    record {
      id = r.id;
      name = r.name;
      created_at = r.created_at;
      creation_reason = r.creation_reason;
      enabled = r.enabled;
      status_history = r.status_history;
      disabled_at = Option.map (λ (e : StatusHistoryEntry). e.changed_at) disabled;
      disabled_reason = Option.map (λ (e : StatusHistoryEntry). e.reason) disabled;
    }

-- The loop of `constant_time_eq`, over the indices still to come.
eq_loop : List ℕ → List ℕ → ℕ → ℕ → ℕ → ℕ
eq_loop left right index ℕ.zero diff = diff
eq_loop left right index (ℕ.suc left_over) diff = eq_loop left right (index + 1) left_over (
    bit_or diff
      (bit_xor (unwrap_or (get_elem? left index) 0) (unwrap_or (get_elem? right index) 0)))

unfoldable pub constant_time_eq : List ℕ → List ℕ → Bool
unfolding eq_loop
constant_time_eq left right =
    eq_loop left right 0 (max (length left) (length right)) (bit_xor (length left) (length right))
    == 0

unfoldable pub require_text : String → String → Result (Unit {0})
require_text field value =
    if is_empty (trim value) then err (bad_request (field <> " is required")) else ok tt

module _ (crates : Crates) where
  unfoldable pub verifier : String → String
  verifier token = verifier_prefix <> crates.sha512_hex (as_bytes token)

  matches_digest : String → Option String → Bool
  matches_digest token none = false
  matches_digest token (some expected_digest) =
      constant_time_eq (as_bytes (crates.sha512_hex (as_bytes token))) (as_bytes expected_digest)

  unfoldable pub verify_token : String → String → Bool
  unfolding matches_digest
  verify_token token expected = matches_digest token (strip_prefix verifier_prefix expected)

  unfoldable pub verify_owner : String → String → Bool
  verify_owner token expected = starts_with owner_prefix token && verify_token token expected

  identified : Option (String × String) → Option (ℕ × String)
  identified none = none
  identified (some (id, secret)) =
      if is_empty secret then none else Option.map (λ n. (n, secret)) (crates.parse_uuid id)

  split_token : Option String → Option (ℕ × String)
  unfolding identified
  split_token none = none
  split_token (some rest) = identified (split_once b'_' rest)

  unfoldable pub parse_admin_token : String → Option (ℕ × String)
  unfolding split_token
  parse_admin_token token = split_token (strip_prefix admin_prefix token)

  -- The argument is the outcome of `random_secret`.
  unfoldable pub generate_admin_token : ℕ → Result String → Result String
  generate_admin_token id random_secret = do
    secret ← random_secret
    ok (admin_prefix <> crates.show_uuid id <> "_" <> secret)

-- The argument is the outcome of `random_secret`.
unfoldable pub generate_owner_token : Result String → Result String
generate_owner_token random_secret = do secret ← random_secret; ok (owner_prefix <> secret)
