-- ===== src/Auth/Credentials.antt =====
-- Which tokens the store of src/auth.rs recognises.
use update_delivery_system.Prelude.{
  ℕ, ◌≡◌, refl, sym, ap, ◌∙◌, String, Bool, true, false, Option, none, some, ◌∷◌, [], ◌++◌, arith,
  Bool-cases, inl, inr,
}
use update_delivery_system.Prelude.Text.{◌<>◌, is_empty, trim}
use update_delivery_system.Auth.Durability.{ReadsBack, IsDurable}
use update_delivery_system.Auth.Restart.{set_enabled_survives_restart}
use update_delivery_system.Auth.Store.{open_store}
use update_delivery_system.Prelude.{◌⊎◌, inl, inr}
use update_delivery_system.Auth.{AdminTokenMetadata}
use update_delivery_system.Errors.{Result, ok, err, ◌>>=◌}
use update_delivery_system.Auth.{
  Crates, admin, admin_prefix, ActorIdentity, AdminTokenRecord, AdminTokenMetadata, require_text,
  generate_admin_token, verify_token, parse_admin_token,
}
use update_delivery_system.Auth.Records.{find, replace, with_status, same_status}
use update_delivery_system.Auth.Records.Lookup.{find-id, find-replace, find-concat}
use update_delivery_system.Auth.Tokens.{UuidText, verify-verifier, parse-admin_token}
use update_delivery_system.Auth.Store.{
  Json, PersistIo, TokenStore, commit, create, create_with, create_token, new_record, set_enabled,
  set_found, authenticate, authenticate_id, authenticate_record,
}

module _ (crates : Crates) (json : Json) where
  -- The token that is handed out is accepted, and names its record.
  authenticate_new :
      (fs : PersistIo) (id mutation_id now : ℕ) (name reason secret : String) (s : TokenStore json)
      → UuidText crates id
      → is_empty secret ≡ false
      → find id s.records ≡ none
      → let token = admin_prefix <> crates.show_uuid id <> "_" <> secret in
        authenticate crates json token
          (create_with crates json fs id mutation_id now name reason s (ok token)).1
        ≡ some
            (record { actor_type = admin; token_id = some id; token_name = some (trim name) }, true)
  unfolding create_with new_record commit authenticate
  authenticate_new fs id mutation_id now name reason secret s u long fresh =
      let token = admin_prefix <> crates.show_uuid id <> "_" <> secret in
      let r = new_record crates json token id mutation_id now name reason in
      let found : find id (s.records ++ r ∷ []) ≡ some r =
        find-concat r s.records id fresh ∙ ground arith in
      rw (parse-admin_token crates id secret u long)
        (rw found (rw (verify-verifier crates token) refl))

  -- What is known of an accepted token.
  pub record IsRecognised (token : String) (s : TokenStore json) (actor : ActorIdentity)
      (enabled : Bool) : Type 0 where
    pub id : ℕ
    pub secret : String
    pub found : AdminTokenRecord
    pub parsed : parse_admin_token crates token ≡ some (id, secret)
    pub listed : find id s.records ≡ some found
    pub verified : verify_token crates token found.verifier ≡ true
    pub named :
        actor ≡ record { actor_type = admin; token_id = some id; token_name = some found.name }
    pub status : enabled ≡ found.enabled

  authenticate_record-IsRecognised :
      (token : String) (id : ℕ) (secret : String) (s : TokenStore json)
      (o : Option AdminTokenRecord) (actor : ActorIdentity) (enabled : Bool)
      → parse_admin_token crates token ≡ some (id, secret)
      → find id s.records ≡ o
      → authenticate_record crates json token id o ≡ some (actor, enabled)
      → IsRecognised token s actor enabled
  unfolding authenticate_record
  authenticate_record-IsRecognised token id secret s none actor enabled p l h = cc
  authenticate_record-IsRecognised token id secret s (some r) actor enabled p l h = record {
    id = id;
    secret = secret;
    found = r;
    parsed = p;
    listed = l;
    verified = ground arith;
    named = ground arith;
    status = ground arith;
  }

  authenticate_id-IsRecognised :
      (token : String) (s : TokenStore json) (o : Option (ℕ × String)) (actor : ActorIdentity)
      (enabled : Bool)
      → parse_admin_token crates token ≡ o
      → authenticate_id crates json token s o ≡ some (actor, enabled)
      → IsRecognised token s actor enabled
  unfolding authenticate_id
  authenticate_id-IsRecognised token s none actor enabled p h = cc
  authenticate_id-IsRecognised token s (some (id, secret)) actor enabled p h =
      authenticate_record-IsRecognised token id secret s (find id s.records) actor enabled p refl h

  pub authenticate-IsRecognised :
      (token : String) (s : TokenStore json) (actor : ActorIdentity) (enabled : Bool)
      → authenticate crates json token s ≡ some (actor, enabled)
      → IsRecognised token s actor enabled
  unfolding authenticate
  authenticate-IsRecognised token s actor enabled h =
      authenticate_id-IsRecognised token s (parse_admin_token crates token) actor enabled refl h

  same_as_false : (b : Bool) → same_status b false ≡ true → b ≡ false
  unfolding same_status
  same_as_false true h = sym h
  same_as_false false h = refl

  set_found_disables :
      (fs : PersistIo) (id mutation_id now : ℕ) (reason : String) (s : TokenStore json)
      (o : Option AdminTokenRecord) (r' : AdminTokenRecord)
      → find id s.records ≡ o
      → find id (set_found crates json fs id false reason mutation_id now s o).1.records ≡ some r'
      → r'.enabled ≡ false
  unfolding set_found commit
  set_found_disables fs id mutation_id now reason s none r' e h = absurd (let k = sym e ∙ h in cc)
  set_found_disables fs id mutation_id now reason s (some r) r' e h =
      elim (Bool-cases (same_status r.enabled false)) [
        | inl same ↦
            let known : some r ≡ some r' = sym e ∙ (rw same at h) in
            let p : r ≡ r' = cc in rw (← p) (same_as_false r.enabled same)
        | inr other ↦
            let new = with_status false reason mutation_id now r in
            let placed : find id (replace id new s.records) ≡ some new =
              find-replace id new r s.records id (unfold with_status in find-id id s.records r e) e
              ∙ ground arith in
            let known : some new ≡ some r' = sym placed ∙ (rw other at h) in
            let p : new ≡ r' = cc in rw (← p) (unfold with_status in refl)
      ]

  token_of_then :
      (d : Result (Unit {0})) (a b : AdminTokenMetadata) (t token : String)
      → (let r : Result (AdminTokenMetadata × String) = d >>= λ _. ok (a, t) in r) ≡ ok (b, token)
      → t ≡ token
  token_of_then (ok u) a b t token h = cc
  token_of_then (err e) a b t token h = cc

  token_of_create :
      (fs : PersistIo) (id mutation_id now : ℕ) (name reason token : String)
      (metadata : AdminTokenMetadata) (s : TokenStore json) (m : Result String)
      → (create_with crates json fs id mutation_id now name reason s m).0 ≡ ok (metadata, token)
      → m ≡ ok token
  unfolding create_with commit
  token_of_create fs id mutation_id now name reason token metadata s (err e) h = cc
  token_of_create fs id mutation_id now name reason token metadata s (ok t) h =
      ap ok (token_of_then _ _ metadata t token h)

  token_text :
      (id : ℕ) (name reason secret token : String)
      → create_token crates json (ok secret) id name reason ≡ ok token
      → token ≡ admin_prefix <> crates.show_uuid id <> "_" <> secret
  unfolding create_token generate_admin_token
  token_text id name reason secret token h = ground arith

-- The token that a successful `create` hands out is accepted by the store that it leaves, enabled,
-- under the new identifier and the trimmed name; the identifier is fresh, its text form is that of
-- the `uuid` crate, and the random part is not empty.
pub created_token_authenticates :
    (crates : Crates) (json : Json) (fs : PersistIo) (id mutation_id now : ℕ)
    (name reason secret token : String) (metadata : AdminTokenMetadata) (s : TokenStore json)
    → UuidText crates id
    → is_empty secret ≡ false
    → find id s.records ≡ none
    → (create crates json fs (ok secret) id mutation_id now name reason s).0 ≡ ok (metadata, token)
    → authenticate crates json token
        (create crates json fs (ok secret) id mutation_id now name reason s).1
      ≡ some
          (record { actor_type = admin; token_id = some id; token_name = some (trim name) }, true)
unfolding create
created_token_authenticates crates json fs id mutation_id now name reason secret token metadata s u
      long fresh h =
    let m = create_token crates json (ok secret) id name reason in
    let made : m ≡ ok token =
      token_of_create crates json fs id mutation_id now name reason token metadata s m h in
    rw (made, create)
      (rw (token_text crates json id name reason secret token made)
        (authenticate_new crates json fs id mutation_id now name reason secret s u long fresh))

-- No credential is accepted as enabled under the identifier.
disabled_in_memory :
    (crates : Crates) (json : Json) (fs : PersistIo) (id mutation_id now : ℕ)
    (reason token : String) (s : TokenStore json) (actor : ActorIdentity) (enabled : Bool)
    → require_text "reason" reason ≡ ok tt
    → authenticate crates json token
        (set_enabled crates json fs mutation_id now id false reason s).1
      ≡ some (actor, enabled)
    → actor.token_id ≡ some id
    → enabled ≡ false
unfolding set_enabled
disabled_in_memory crates json fs id mutation_id now reason token s actor enabled text h t =
    let after : set_enabled crates json fs mutation_id now id false reason s
        ≡ set_found crates json fs id false reason mutation_id now s (find id s.records) =
      rw (text, set_enabled) refl in
    let known = authenticate-IsRecognised crates json token _ actor enabled (rw after at h) in
    let same : some known.id ≡ some id =
      ap (λ (a : ActorIdentity). a.token_id) (sym known.named) ∙ t in
    let e : known.id ≡ id = cc in
    known.status
    ∙ set_found_disables crates json fs id mutation_id now reason s (find id s.records) known.found
        refl (rw e at known.listed)

-- What a request to disable a token leaves: the store in memory and, if it is answered with success
-- and the file held the records in memory before, the store that a restart opens.
abbrev pub IsLeft :
    (json : Json)
    → Result AdminTokenMetadata × TokenStore json
    → TokenStore json
    → TokenStore json
    → Type 0
IsLeft json done s t =
    (t ≡ done.1)
    ⊎ ((m : AdminTokenMetadata) × (done.0 ≡ ok m)
        × IsDurable json s
        × (open_store json (ok tt) done.1.file ≡ ok t))

-- The store in memory that a request to disable a token leaves, whatever the outcome of its
-- persistence, accepts no credential as enabled under that identifier. If the request is answered with
-- success, and the store before it was that of the file, neither does the store that a restart opens.
-- The reason is not blank.
pub disabled_token_is_refused :
    (crates : Crates) (json : Json) (laws : ReadsBack json) (fs : PersistIo)
    (id mutation_id now : ℕ) (reason token : String) (s t : TokenStore json) (actor : ActorIdentity)
    (enabled : Bool)
    → require_text "reason" reason ≡ ok tt
    → IsLeft json (set_enabled crates json fs mutation_id now id false reason s) s t
    → authenticate crates json token t ≡ some (actor, enabled)
    → actor.token_id ≡ some id
    → enabled ≡ false
disabled_token_is_refused crates json laws fs id mutation_id now reason token s t actor enabled text
      (inl e) h n =
    disabled_in_memory crates json fs id mutation_id now reason token s actor enabled text
      (ap (authenticate crates json token) (sym e) ∙ h) n
disabled_token_is_refused crates json laws fs id mutation_id now reason token s t actor enabled text
      (inr (m, answered, durable, opened)) h n =
    let back =
      set_enabled_survives_restart crates json laws fs mutation_id now id false reason s m durable
        answered in
    let e : (set_enabled crates json fs mutation_id now id false reason s).1 ≡ t = cc in
    disabled_in_memory crates json fs id mutation_id now reason token s actor enabled text
      (ap (authenticate crates json token) e ∙ h) n
