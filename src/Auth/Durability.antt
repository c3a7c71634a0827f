-- ===== src/Auth/Durability.antt =====
-- What a restart finds of the token records in src/auth.rs.
use update_delivery_system.Prelude.{
  ℕ, ◌≡◌, refl, String, Bool, false, Option, none, some, List, arith, Bool-cases, inl, inr,
}
use update_delivery_system.Errors.{Result, ok, err, ◌>>=◌}
use update_delivery_system.Auth.{Crates, AdminTokenRecord, AdminTokenMetadata}
use update_delivery_system.Auth.Records.{same_status, merge_all}
use update_delivery_system.Auth.Store.{
  Json, PersistIo, TokenStore, persist, renamed, encoded, commit, open_store, merge, set_found,
  create_with, up_to_rename,
}

-- What `serde_json` documents: what was written reads back.
pub record ReadsBack (json : Json) : Type 0 where
  pub reads_back :
      (rs : List AdminTokenRecord) (bytes : json.Bytes)
      → json.encode rs ≡ ok bytes
      → json.decode bytes ≡ ok rs

module _ (json : Json) where
  abbrev Holds : List AdminTokenRecord → Option json.Bytes → Type 0
  Holds rs file = (bytes : json.Bytes) × (file ≡ some bytes) × (json.decode bytes ≡ ok rs)

  -- The file holds the records in memory.
  abbrev pub IsDurable : TokenStore json → Type 0
  IsDurable s = Holds s.records s.file

  module _ (laws : ReadsBack json) (fs : PersistIo) where
    renamed-Holds :
        (rs : List AdminTokenRecord) (bytes : json.Bytes) (file : Option json.Bytes)
        (m : Result (Unit {0})) {u : Unit {0}}
        → json.encode rs ≡ ok bytes
        → (renamed json fs bytes file m).0 ≡ ok u
        → Holds rs (renamed json fs bytes file m).1
    unfolding renamed
    renamed-Holds rs bytes file (err x) e h = cc
    renamed-Holds rs bytes file (ok v) e h = (bytes, refl, laws.reads_back rs bytes e)

    encoded-Holds :
        (rs : List AdminTokenRecord) (file : Option json.Bytes) (m : Result json.Bytes)
        {u : Unit {0}}
        → json.encode rs ≡ m
        → (encoded json fs file m).0 ≡ ok u
        → Holds rs (encoded json fs file m).1
    unfolding encoded
    encoded-Holds rs file (err x) e h = cc
    encoded-Holds rs file (ok bytes) e h = renamed-Holds rs bytes file (up_to_rename fs) e h

    then-eq-ok :
        {A : Type 0} (m : Result (Unit {0})) (a b : A) → (m >>= λ _. ok a) ≡ ok b → m ≡ ok tt
    then-eq-ok (ok u) a b h = refl
    then-eq-ok (err x) a b h = cc

    commit-IsDurable :
        (rs : List AdminTokenRecord) {A : Type 0} (a b : A) (file : Option json.Bytes)
        → (commit json fs rs a file).0 ≡ ok b
        → IsDurable (commit json fs rs a file).1
    unfolding commit persist
    commit-IsDurable rs a b file h =
        encoded-Holds rs file (json.encode rs) refl
          (then-eq-ok (encoded json fs file (json.encode rs)).0 a b h)

    -- What a restart finds is what was in memory.
    pub IsDurable-open : (s : TokenStore json) → IsDurable s → open_store json (ok tt) s.file ≡ ok s
    unfolding open_store
    IsDurable-open s (bytes, e, d) = rw e (rw d (ground arith))

  module _ (crates : Crates) (laws : ReadsBack json) (fs : PersistIo) where
    pub set_found-IsDurable :
        (id : ℕ) (enabled : Bool) (reason : String) (mutation_id now : ℕ) (s : TokenStore json)
        (o : Option AdminTokenRecord) {m : AdminTokenMetadata}
        → IsDurable s
        → (set_found crates json fs id enabled reason mutation_id now s o).0 ≡ ok m
        → IsDurable (set_found crates json fs id enabled reason mutation_id now s o).1
    unfolding set_found
    set_found-IsDurable id enabled reason mutation_id now s none d h = d
    set_found-IsDurable id enabled reason mutation_id now s (some r) {m} d h =
        elim (Bool-cases (same_status r.enabled enabled)) [
          | inl same ↦ rw same d
          | inr other ↦ rw other (commit-IsDurable laws fs _ _ m s.file (rw other at h))
        ]

    pub merge-IsDurable :
        (inc : List AdminTokenRecord) (s : TokenStore json) {u : Unit {0}}
        → IsDurable s
        → (merge json fs inc s).0 ≡ ok u
        → IsDurable (merge json fs inc s).1
    unfolding merge
    merge-IsDurable inc s {u} d h = elim (Bool-cases (merge_all inc s.records false).1) [
      | inl changed ↦ rw changed (commit-IsDurable laws fs _ tt u s.file (rw changed at h))
      | inr same ↦ rw same d
    ]

    pub create_with-IsDurable :
        (id mutation_id now : ℕ) (name reason : String) (s : TokenStore json) (m : Result String)
        {b : AdminTokenMetadata × String}
        → (create_with crates json fs id mutation_id now name reason s m).0 ≡ ok b
        → IsDurable (create_with crates json fs id mutation_id now name reason s m).1
    unfolding create_with
    create_with-IsDurable id mutation_id now name reason s (err e) h = cc
    create_with-IsDurable id mutation_id now name reason s (ok token) {b} h =
        commit-IsDurable laws fs _ _ b s.file h
