-- ===== src/Routes/Tokens.antt =====
-- The handlers of src/routes/mod.rs for administrator tokens. They run after `OwnerAuth` or
-- `ClusterAuth` has let the request in.
use update_delivery_system.Prelude.{
  ℕ, String, Bool, Option, none, some, List, [], ◌∷◌, ◌++◌, if◌then◌else◌,
}
use update_delivery_system.Errors.{Result, ok, err, fleet_unavailable}
use update_delivery_system.Auth.{Crates, AdminTokenRecord, AdminTokenMetadata}
use update_delivery_system.Auth.Store.{
  Json, PersistIo, TokenStore, create, set_enabled, fleet_snapshot, merge, list,
}
use update_delivery_system.Cluster.{ClusterState, Post, replicate_auth_snapshot}

-- The event of `emit_token_audit`.
pub record TokenAudit : Type 0 where
  pub action : String
  pub target_token_id : ℕ
  pub target_token_name : String
  pub enabled : Bool
  pub reason : Option String

unfoldable pub emit_token_audit : String → AdminTokenMetadata → Option String → TokenAudit
emit_token_audit action token reason = record {
  action = action;
  target_token_id = token.id;
  target_token_name = token.name;
  enabled = token.enabled;
  reason = reason;
}

module _ (crates : Crates) (json : Json) (post : Post) (cluster : ClusterState) where
  -- An answer with the store and the audit events that it leaves.
  abbrev pub Answer {ℓ} : Type ℓ → Type ℓ
  Answer A = Result A × TokenStore json × List TokenAudit

  -- The end of both handlers that change the tokens: the fleet confirms, and the change is audited.
  unfoldable pub confirmed :
      {A : Type 0} → (A → TokenAudit) → List TokenAudit → Result A × TokenStore json → Answer A
  confirmed audit audits (err e, s) = (err e, s, audits)
  confirmed audit audits (ok a, s) =
      if replicate_auth_snapshot post (fleet_snapshot json s) cluster
      then (ok a, s, audits ++ audit a ∷ [])
      else (err fleet_unavailable, s, audits)

  unfoldable pub create_admin_token :
      PersistIo
      → Result String
      → ℕ
      → ℕ
      → ℕ
      → String
      → String
      → TokenStore json
      → List TokenAudit
      → Answer (AdminTokenMetadata × String)
  unfolding confirmed
  create_admin_token fs secret id mutation_id now name reason s audits =
      confirmed (λ created. emit_token_audit "admin_token_created" created.0 none) audits
        (create crates json fs secret id mutation_id now name reason s)

  unfoldable pub set_admin_token_status :
      PersistIo
      → ℕ
      → ℕ
      → ℕ
      → Bool
      → String
      → TokenStore json
      → List TokenAudit
      → Answer AdminTokenMetadata
  unfolding confirmed
  set_admin_token_status fs mutation_id now id enabled reason s audits =
      confirmed (λ metadata. emit_token_audit "admin_token_status_changed" metadata (some reason))
        audits (set_enabled crates json fs mutation_id now id enabled reason s)

unfoldable pub list_admin_tokens : (json : Json) → TokenStore json → List AdminTokenMetadata
list_admin_tokens json s = list json s

unfoldable pub fleet_admin_tokens : (json : Json) → TokenStore json → List AdminTokenRecord
fleet_admin_tokens json s = fleet_snapshot json s

-- The status 204 is the result of a merge that succeeds.
unfoldable pub merge_fleet_admin_tokens :
    (json : Json)
    → PersistIo
    → List AdminTokenRecord
    → TokenStore json
    → Result (Unit {0}) × TokenStore json
merge_fleet_admin_tokens json fs records s = merge json fs records s
