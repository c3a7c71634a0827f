-- ===== src/Routes/Revealed.antt =====
-- What the answers of src/routes/mod.rs for administrator tokens stand for.
use mathlib.Core.Path.{subst}
use update_delivery_system.Prelude.{
  ℕ, ◌≡◌, refl, sym, ap, ◌∙◌, String, Bool, true, false, none, some, List, [], ◌∷◌, ◌++◌,
  if◌then◌else◌,
}
use update_delivery_system.Prelude.Text.{is_empty, trim}
use update_delivery_system.Errors.{Result, ok, err, fleet_unavailable}
use update_delivery_system.Auth.{Crates, admin, AdminTokenMetadata}
use update_delivery_system.Auth.Records.{find}
use update_delivery_system.Auth.Store.{
  Json, PersistIo, TokenStore, create, authenticate, fleet_snapshot,
}
use update_delivery_system.Auth.Tokens.{UuidText}
use update_delivery_system.Auth.Credentials.{created_token_authenticates}
use update_delivery_system.Cluster.{ClusterState, Post, replicate_auth_snapshot}
use update_delivery_system.Cluster.Confirmation.{IsConfirmed, replicate_auth_snapshot-IsConfirmed}
use update_delivery_system.Routes.Tokens.{
  TokenAudit, emit_token_audit, Answer, confirmed, create_admin_token,
}

module _ (json : Json) (post : Post) (cluster : ClusterState) where
  confirmed_ok :
      {A : Type 0} (crates : Crates) (audit : A → TokenAudit) (audits audits' : List TokenAudit)
      (done : Result A × TokenStore json) (a : A) (s : TokenStore json)
      → confirmed crates json post cluster audit audits done ≡ (ok a, s, audits')
      → (done ≡ (ok a, s))
        × IsConfirmed post (fleet_snapshot json s) cluster
        × (audits' ≡ audits ++ audit a ∷ [])
  unfolding confirmed
  confirmed_ok crates audit audits audits' (err e, t) a s h = cc
  confirmed_ok {A} crates audit audits audits' (ok b, t) a s h =
      go (replicate_auth_snapshot post (fleet_snapshot json t) cluster) refl h
    where
      go :
          (c : Bool)
          → replicate_auth_snapshot post (fleet_snapshot json t) cluster ≡ c
          → ◌≡◌ {A = Answer crates json post cluster A}
              (if c then (ok b, t, audits ++ audit b ∷ []) else (err fleet_unavailable, t, audits))
              (ok a, s, audits')
          → ◌≡◌ {A = Result A × TokenStore json} (ok b, t) (ok a, s)
            × IsConfirmed post (fleet_snapshot json s) cluster
            × (audits' ≡ audits ++ audit a ∷ [])
      go false e g = cc
      go true e g =
          let q : t ≡ s = cc in
          (
            cc,
            subst (λ (u : TokenStore json). IsConfirmed post (fleet_snapshot json u) cluster) q
                (replicate_auth_snapshot-IsConfirmed post (fleet_snapshot json t) cluster e),
            cc,
          )

-- A created token is revealed only if the store accepts it, enabled and under the trimmed name, and
-- the node is no part of a fleet or each known peer has accepted all the records of that store under
-- the credential of the fleet; the creation is then the one new event of the audit. The identifier
-- is fresh, its text form is that of the `uuid` crate, and the random part is not empty.
pub revealed_token_authenticates :
    (crates : Crates) (json : Json) (post : Post) (cluster : ClusterState) (fs : PersistIo)
    (id mutation_id now : ℕ) (name reason secret token : String) (metadata : AdminTokenMetadata)
    (s s' : TokenStore json) (audits audits' : List TokenAudit)
    → UuidText crates id
    → is_empty secret ≡ false
    → find id s.records ≡ none
    → create_admin_token crates json post cluster fs
        (ok secret)
        id
        mutation_id
        now
        name
        reason
        s
        audits
      ≡ (ok (metadata, token), s', audits')
    → (authenticate crates json token s'
        ≡ some (
          record { actor_type = admin; token_id = some id; token_name = some (trim name) },
          true,
        ))
      × IsConfirmed post (fleet_snapshot json s') cluster
      × (audits' ≡ audits ++ emit_token_audit "admin_token_created" metadata none ∷ [])
unfolding create_admin_token
revealed_token_authenticates crates json post cluster fs id mutation_id now name reason secret token
      metadata s s' audits audits' u long fresh h =
    let (done, c, a) =
      confirmed_ok json post cluster crates
        (λ (created : AdminTokenMetadata × String).
          emit_token_audit "admin_token_created" created.0 none)
        audits audits' (create crates json fs (ok secret) id mutation_id now name reason s)
        (metadata, token) s' h in
    let accepted =
      created_token_authenticates crates json fs id mutation_id now name reason secret token
        metadata s u long fresh
        (ap (λ (r : Result (AdminTokenMetadata × String) × TokenStore json). r.0) done) in
    (
      ap (authenticate crates json token)
            (ap (λ (r : Result (AdminTokenMetadata × String) × TokenStore json). r.1) (sym done))
          ∙ accepted,
      c,
      a,
    )
