-- ===== src/Auth/Store.antt =====
-- `AdminTokenStore` of src/auth.rs: the records in memory, and the file that holds them. An operation
-- returns its result and the store that it leaves, also where it fails.
use update_delivery_system.Prelude.{
  ℕ, String, Bool, true, false, Option, none, some, List, [], ◌∷◌, ◌++◌, map, if◌then◌else◌,
}
use update_delivery_system.Prelude.Text.{◌<>◌, trim}
use update_delivery_system.Errors.{Result, ok, err, not_found, ◌>>=◌, ◌>>◌}
use update_delivery_system.Auth.{
  Crates, admin, ActorIdentity, AdminTokenRecord, AdminTokenMetadata, to_metadata, require_text,
  verifier, verify_token, parse_admin_token, generate_admin_token,
}
use update_delivery_system.Auth.Records.{find, replace, merge_all, with_status, same_status}

-- What `serde_json` supplies for the file.
pub record Json : Type 1 where
  pub Bytes : Type 0
  pub encode : List AdminTokenRecord → Result Bytes
  pub decode : Bytes → Result (List AdminTokenRecord)

-- How the file system answers the calls of `persist`, in their order.
pub record PersistIo : Type 0 where
  pub write_tmp : Result (Unit {0})
  pub harden_tmp : Result (Unit {0})
  pub open_tmp : Result (Unit {0})
  pub sync_tmp : Result (Unit {0})
  pub rename : Result (Unit {0})
  pub harden_path : Result (Unit {0})
  pub open_parent : Result (Unit {0})
  pub sync_parent : Result (Unit {0})

-- The calls up to the rename, each made if the one before it succeeds; and those after it.
abbrev pub up_to_rename : PersistIo → Result (Unit {0})
up_to_rename fs = do fs.write_tmp; fs.harden_tmp; fs.open_tmp; fs.sync_tmp; fs.rename

abbrev pub after_rename : PersistIo → Result (Unit {0})
after_rename fs = do fs.harden_path; fs.open_parent; fs.sync_parent

abbrev pub healthy : PersistIo
healthy = record {
  write_tmp = ok tt;
  harden_tmp = ok tt;
  open_tmp = ok tt;
  sync_tmp = ok tt;
  rename = ok tt;
  harden_path = ok tt;
  open_parent = ok tt;
  sync_parent = ok tt;
}

module _ (json : Json) where
  open json use {Bytes, encode, decode}

  pub record TokenStore : Type 0 where
    -- What stands in the file, if there is one.
    pub file : Option Bytes
    pub records : List AdminTokenRecord

  unfoldable pub renamed :
      PersistIo → Bytes → Option Bytes → Result (Unit {0}) → Result (Unit {0}) × Option Bytes
  renamed fs bytes file (err e) = (err e, file)
  renamed fs bytes file (ok _) = (after_rename fs, some bytes)

  unfoldable pub encoded :
      PersistIo → Option Bytes → Result Bytes → Result (Unit {0}) × Option Bytes
  encoded fs file (err e) = (err e, file)
  encoded fs file (ok bytes) = renamed fs bytes file (up_to_rename fs)

  -- The file after `persist`: the rename alone changes it.
  unfoldable pub persist :
      PersistIo → List AdminTokenRecord → Option Bytes → Result (Unit {0}) × Option Bytes
  unfolding encoded renamed
  persist fs records file = encoded fs file (encode records)

  -- The tail of every mutation: the records are in memory already, and then they are persisted.
  unfoldable pub commit {ℓ} :
      {A : Type ℓ} → PersistIo → List AdminTokenRecord → A → Option Bytes → Result A × TokenStore
  commit fs records a file =
      let (done, file') = persist fs records file in
      (done >>= λ _. ok a, record { file = file'; records = records })

  -- The arguments are the outcome of `create_dir_all` with `harden_dir`, and the file, if it exists.
  unfoldable pub open_store : Result (Unit {0}) → Option Bytes → Result TokenStore
  open_store dirs none = dirs >>= λ _. ok (record { file = none; records = [] })
  open_store dirs (some bytes) = do
    _ ← dirs
    records ← decode bytes
    ok (record { file = some bytes; records = records })

  unfoldable pub list : TokenStore → List AdminTokenMetadata
  list s = map to_metadata s.records

  unfoldable pub fleet_snapshot : TokenStore → List AdminTokenRecord
  fleet_snapshot s = s.records

  unfoldable pub merge :
      PersistIo → List AdminTokenRecord → TokenStore → Result (Unit {0}) × TokenStore
  merge fs incoming s =
      let (records, changed) = merge_all incoming s.records false in
      if changed then commit fs records tt s.file else (ok tt, s)

module _ (crates : Crates) (json : Json) where
  unfoldable pub new_record : String → ℕ → ℕ → ℕ → String → String → AdminTokenRecord
  new_record token id mutation_id now name reason = record {
    id = id;
    verifier = verifier crates token;
    name = trim name;
    created_at = now;
    creation_reason = trim reason;
    enabled = true;
    status_history = [];
    revision = 1;
    last_mutation_id = mutation_id;
  }

  -- The token of `create`: the two texts are required first.
  unfoldable pub create_token : Result String → ℕ → String → String → Result String
  create_token secret id name reason = do
    _ ← require_text "name" name
    _ ← require_text "reason" reason
    generate_admin_token crates id secret

  unfoldable pub create_with :
      PersistIo
      → ℕ
      → ℕ
      → ℕ
      → String
      → String
      → TokenStore json
      → Result String
      → Result (AdminTokenMetadata × String) × TokenStore json
  create_with fs id mutation_id now name reason s (err e) = (err e, s)
  create_with fs id mutation_id now name reason s (ok token) =
      let r = new_record token id mutation_id now name reason in
      commit json fs (s.records ++ r ∷ []) (to_metadata r, token) s.file

  -- The identifiers and the outcome of `random_secret` are random, and `now` is the time.
  unfoldable pub create :
      PersistIo
      → Result String
      → ℕ
      → ℕ
      → ℕ
      → String
      → String
      → TokenStore json
      → Result (AdminTokenMetadata × String) × TokenStore json
  unfolding new_record create_with create_token
  create fs secret id mutation_id now name reason s =
      create_with fs id mutation_id now name reason s (create_token secret id name reason)

  unfoldable pub authenticate_record :
      String → ℕ → Option AdminTokenRecord → Option (ActorIdentity × Bool)
  authenticate_record token id none = none
  authenticate_record token id (some r) =
      if verify_token crates token r.verifier
      then some
          (record { actor_type = admin; token_id = some id; token_name = some r.name }, r.enabled)
      else none

  unfoldable pub authenticate_id :
      String → TokenStore json → Option (ℕ × String) → Option (ActorIdentity × Bool)
  unfolding authenticate_record
  authenticate_id token s none = none
  authenticate_id token s (some (id, secret)) = authenticate_record token id (find id s.records)

  unfoldable pub authenticate : String → TokenStore json → Option (ActorIdentity × Bool)
  unfolding authenticate_id
  authenticate token s = authenticate_id token s (parse_admin_token crates token)

  unfoldable pub set_found :
      PersistIo
      → ℕ
      → Bool
      → String
      → ℕ
      → ℕ
      → TokenStore json
      → Option AdminTokenRecord
      → Result AdminTokenMetadata × TokenStore json
  set_found fs id enabled reason mutation_id now s none =
      (err (not_found ("admin token " <> crates.show_uuid id <> " was not found")), s)
  set_found fs id enabled reason mutation_id now s (some r) =
      if same_status r.enabled enabled
      then (ok (to_metadata r), s)
      else let r' = with_status enabled reason mutation_id now r in
        commit json fs (replace id r' s.records) (to_metadata r') s.file

  -- The identifier `mutation_id` is random, and `now` is the time of the call.
  unfoldable pub set_enabled :
      PersistIo
      → ℕ
      → ℕ
      → ℕ
      → Bool
      → String
      → TokenStore json
      → Result AdminTokenMetadata × TokenStore json
  unfolding set_found same_status
  set_enabled fs mutation_id now id enabled reason s = elim (require_text "reason" reason) [
    | err e ↦ (err e, s)
    | ok _ ↦ set_found fs id enabled reason mutation_id now s (find id s.records)
  ]
