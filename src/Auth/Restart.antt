-- ===== src/Auth/Restart.antt =====
-- Which changes of the token records in src/auth.rs survive a restart, and one that does not.
use update_delivery_system.Prelude.{
  ℕ, ◌≡◌, refl, ◌≢◌, ◌∙◌, String, Bool, true, false, some, List, arith, inl, inr,
}
use update_delivery_system.Errors.{UdsError, Result, ok, err, Result-cases}
use update_delivery_system.Auth.{
  Crates, AdminTokenRecord, AdminTokenMetadata, to_metadata, require_text,
}
use update_delivery_system.Auth.Records.{find, replace, with_status, same_status}
use update_delivery_system.Auth.Records.Lookup.{find-id, find-replace}
use update_delivery_system.Auth.Durability.{
  ReadsBack, IsDurable, IsDurable-open, set_found-IsDurable, create_with-IsDurable,
}
use update_delivery_system.Auth.Store.{
  Json, PersistIo, TokenStore, persist, commit, open_store, create, set_enabled, create_token,
  up_to_rename,
}

-- A status change that is answered with success survives a restart, when the store before it did:
-- opening the file gives exactly the store in memory.
pub set_enabled_survives_restart :
    (crates : Crates) (json : Json) (laws : ReadsBack json) (fs : PersistIo)
    (mutation_id now id : ℕ) (enabled : Bool) (reason : String) (s : TokenStore json)
    (m : AdminTokenMetadata)
    → IsDurable json s
    → (set_enabled crates json fs mutation_id now id enabled reason s).0 ≡ ok m
    → open_store json
        (ok tt)
        (set_enabled crates json fs mutation_id now id enabled reason s).1.file
      ≡ ok (set_enabled crates json fs mutation_id now id enabled reason s).1
unfolding set_enabled
set_enabled_survives_restart crates json laws fs mutation_id now id enabled reason s m d h =
    elim (Result-cases (require_text "reason" reason)) [
      | inl (u, e) ↦
          rw (e, set_enabled)
            (IsDurable-open json laws fs _ (
              set_found-IsDurable json crates laws fs id enabled reason mutation_id now s
                (find id s.records) d (rw (e, set_enabled) at h)))
      | inr (x, e) ↦ absurd (let k = rw (e, set_enabled) at h in cc)
    ]

-- So does a token whose creation is answered with success, whatever stood in the file before.
pub create_survives_restart :
    (crates : Crates) (json : Json) (laws : ReadsBack json) (fs : PersistIo)
    (secret : Result String) (id mutation_id now : ℕ) (name reason : String) (s : TokenStore json)
    (b : AdminTokenMetadata × String)
    → (create crates json fs secret id mutation_id now name reason s).0 ≡ ok b
    → open_store json (ok tt) (create crates json fs secret id mutation_id now name reason s).1.file
      ≡ ok (create crates json fs secret id mutation_id now name reason s).1
unfolding create
create_survives_restart crates json laws fs secret id mutation_id now name reason s b h =
    IsDurable-open json laws fs _ (
      create_with-IsDurable json crates laws fs id mutation_id now name reason s
        (create_token crates json secret id name reason) h)

same_status-ne : (a b : Bool) → a ≢ b → same_status a b ≡ false
unfolding same_status
same_status-ne true true h = absurd (h refl)
same_status-ne true false h = refl
same_status-ne false true h = refl
same_status-ne false false h = absurd (h refl)

same_status_self : (a : Bool) → same_status a a ≡ true
unfolding same_status
same_status_self true = refl
same_status_self false = refl

module _ (crates : Crates) (json : Json) (fs : PersistIo) (mutation_id now id : ℕ) (enabled : Bool)
    (reason : String) (s : TokenStore json) (r : AdminTokenRecord)
    (text : require_text "reason" reason ≡ ok tt) (found : find id s.records ≡ some r) where
  -- The request is answered from memory where the status is already the one asked for.
  set_enabled_same :
      r.enabled ≡ enabled
      → set_enabled crates json fs mutation_id now id enabled reason s ≡ (ok (to_metadata r), s)
  unfolding set_enabled
  set_enabled_same same =
      let e : same_status r.enabled enabled ≡ true = rw (← same) (same_status_self r.enabled) in
      rw (text, set_enabled) (rw found (rw e refl))

  abbrev changed : List AdminTokenRecord
  changed = replace id (with_status enabled reason mutation_id now r) s.records

  set_enabled_lost :
      (e : UdsError) (bytes : json.Bytes)
      → r.enabled ≢ enabled
      → json.encode changed ≡ ok bytes
      → up_to_rename fs ≡ err e
      → set_enabled crates json fs mutation_id now id enabled reason s
        ≡ (err e, record { file = s.file; records = changed })
  unfolding set_enabled commit persist
  set_enabled_lost e bytes other coded failed =
      rw (text, set_enabled)
        (rw found (rw (same_status-ne r.enabled enabled other) (rw coded (rw failed refl))))

-- A status change whose persistence fails before the rename is answered with the error, and the change
-- stands in memory alone. The same request again is then answered with success although nothing is
-- written, and if the file held the records in memory before, a restart brings exactly these back, with
-- the status of the token that the request was to end.
pub retry_answers_success_unwritten :
    (crates : Crates) (json : Json) (laws : ReadsBack json) (fs retry : PersistIo)
    (mutation_id now mutation_id' now' id : ℕ) (enabled : Bool) (reason : String)
    (s : TokenStore json) (r : AdminTokenRecord) (e : UdsError) (bytes : json.Bytes)
    → require_text "reason" reason ≡ ok tt
    → find id s.records ≡ some r
    → r.enabled ≢ enabled
    → json.encode (replace id (with_status enabled reason mutation_id now r) s.records) ≡ ok bytes
    → up_to_rename fs ≡ err e
    → IsDurable json s
    → let first = set_enabled crates json fs mutation_id now id enabled reason s in
      let second = set_enabled crates json retry mutation_id' now' id enabled reason first.1 in
      (first.0 ≡ err e)
      × (second.0 ≡ ok (to_metadata (with_status enabled reason mutation_id now r)))
      × (second.1.file ≡ s.file)
      × (open_store json (ok tt) second.1.file ≡ ok s)
retry_answers_success_unwritten crates json laws fs retry mutation_id now mutation_id' now' id
      enabled reason s r e bytes text found other coded failed durable =
    let r' = with_status enabled reason mutation_id now r in
    let t : TokenStore json = record { file = s.file; records = replace id r' s.records } in
    let first : set_enabled crates json fs mutation_id now id enabled reason s ≡ (err e, t) =
      set_enabled_lost crates json fs mutation_id now id enabled reason s r text found e bytes other
        coded failed in
    let again : find id t.records ≡ some r' =
      find-replace id r' r s.records id (unfold with_status in find-id id s.records r found) found
      ∙ ground arith in
    let second : set_enabled crates json retry mutation_id' now' id enabled reason t
        ≡ (ok (to_metadata r'), t) =
      set_enabled_same crates json retry mutation_id' now' id enabled reason t r' text again
        (unfold with_status in refl) in
    rw first
      (refl, rw second refl, rw second refl, rw second (IsDurable-open json laws fs s durable))
