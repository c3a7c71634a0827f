-- ===== src/Auth/Lifecycle.antt =====
-- The life of an administrator token in src/auth.rs: creation, status changes and their history.
use update_delivery_system.Prelude.{
  ℕ, ◌+◌, ◌<◌, ◌^◌, ◌≡◌, refl, sym, String, Bool, true, false, Option, none, some, List, [], ◌∷◌,
  ◌++◌, length, length-append, All, All-append, arith, Bool-cases, inl, inr,
}
use update_delivery_system.Prelude.Words.{wrapping_add_small}
use update_delivery_system.Errors.{Result, ok, err, Result-cases}
use update_delivery_system.Auth.{
  Crates, StatusHistoryEntry, AdminTokenRecord, to_metadata, require_text,
}
use update_delivery_system.Auth.Records.{
  find, merge_found, merge_one, merge_all, with_status, same_status,
}
use update_delivery_system.Auth.Records.Lookup.{
  IsUnique, find-id, IsUnique-replace, IsUnique-concat, All-replace, All-find,
}
use update_delivery_system.Auth.Store.{
  Json, PersistIo, TokenStore, commit, merge, create, set_enabled, new_record, create_with,
  set_found,
}

-- The status after a history.
abbrev pub status_after : Bool → List StatusHistoryEntry → Bool
status_after b [] = b
status_after b (e ∷ es) = status_after e.enabled es

status_after-concat :
    (b : Bool) (es : List StatusHistoryEntry) (e : StatusHistoryEntry)
    → status_after b (es ++ e ∷ []) ≡ e.enabled
status_after-concat b [] e = refl
status_after-concat b (x ∷ es) e = status_after-concat x.enabled es e

-- A record's status is the last of its history, and its revision counts the changes.
pub record IsConsistent (r : AdminTokenRecord) : Type 0 where
  pub status : r.enabled ≡ status_after true r.status_history
  pub counted : r.revision ≡ length r.status_history + 1

with_status-IsConsistent :
    (enabled : Bool) (reason : String) (mutation_id now : ℕ) (r : AdminTokenRecord)
    → r.revision + 1 < 2 ^ 64
    → IsConsistent r
    → IsConsistent (with_status enabled reason mutation_id now r)
unfolding with_status
with_status-IsConsistent enabled reason mutation_id now r small h = record {
  status = sym (status_after-concat true r.status_history _);
  counted = omega (
    arith,
    h.counted,
    wrapping_add_small r.revision 1,
    length-append {0} r.status_history (_ ∷ []),
  );
}

merge_one-keeps :
    (c : AdminTokenRecord) (rs : List AdminTokenRecord) (b : Bool)
    → IsConsistent c
    → IsUnique rs
    → All IsConsistent rs
    → IsUnique (merge_one c rs b).0 × All IsConsistent (merge_one c rs b).0
unfolding merge_one
merge_one-keeps c rs b p u h = go (find c.id rs) refl
  where
    go :
        (o : Option AdminTokenRecord)
        → find c.id rs ≡ o
        → IsUnique (merge_found c rs b o).0 × All IsConsistent (merge_found c rs b o).0
    go none e = (IsUnique-concat c rs e u, All-append IsConsistent rs (c ∷ []) h (p, tt))
    go (some r) e =
        ground (arith, IsUnique-replace c.id c rs refl u, All-replace IsConsistent c.id c rs p h)

pub merge_all-keeps :
    (inc rs : List AdminTokenRecord) (b : Bool)
    → All IsConsistent inc
    → IsUnique rs
    → All IsConsistent rs
    → IsUnique (merge_all inc rs b).0 × All IsConsistent (merge_all inc rs b).0
unfolding merge_all
merge_all-keeps [] rs b ps u h = (u, h)
merge_all-keeps (c ∷ inc) rs b (p, ps) u h =
    let (u', h') = merge_one-keeps c rs b p u h in
    merge_all-keeps inc (merge_one c rs b).0 (merge_one c rs b).1 ps u' h'

-- What every operation keeps.
pub record IsSound {json : Json} (s : TokenStore json) : Type 0 where
  pub unique : IsUnique s.records
  pub consistent : All IsConsistent s.records

module _ (crates : Crates) (json : Json) (fs : PersistIo) where
  commit-IsSound {ℓ} :
      {A : Type ℓ} (rs : List AdminTokenRecord) (a : A) (file : Option json.Bytes)
      → IsUnique rs
      → All IsConsistent rs
      → IsSound (commit json fs rs a file).1
  unfolding commit
  commit-IsSound rs a file u h = record { unique = u; consistent = h }

  merge-IsSound :
      (inc : List AdminTokenRecord) (s : TokenStore json)
      → All IsConsistent inc
      → IsSound s
      → IsSound (merge json fs inc s).1
  unfolding merge
  merge-IsSound inc s ps h =
      let (u, c) = merge_all-keeps inc s.records false ps h.unique h.consistent in
      elim (Bool-cases (merge_all inc s.records false).1) [
        | inl changed ↦ rw changed (commit-IsSound _ tt s.file u c)
        | inr same ↦ rw same h
      ]

  -- The revision counter of the record has room for one more change.
  abbrev pub HasRoom : ℕ → TokenStore json → Type 0
  HasRoom id s = (r : AdminTokenRecord) → find id s.records ≡ some r → r.revision + 1 < 2 ^ 64

  set_found-IsSound :
      (id : ℕ) (enabled : Bool) (reason : String) (mutation_id now : ℕ) (s : TokenStore json)
      (o : Option AdminTokenRecord)
      → find id s.records ≡ o
      → HasRoom id s
      → IsSound s
      → IsSound (set_found crates json fs id enabled reason mutation_id now s o).1
  unfolding set_found
  set_found-IsSound id enabled reason mutation_id now s none e room h = h
  set_found-IsSound id enabled reason mutation_id now s (some r) e room h =
      elim (Bool-cases (same_status r.enabled enabled)) [
        | inl same ↦ rw same h
        | inr other ↦ rw other (
            commit-IsSound _ _ s.file
              (IsUnique-replace id (with_status enabled reason mutation_id now r) s.records
                (unfold with_status in find-id id s.records r e) h.unique)
              (All-replace IsConsistent id (with_status enabled reason mutation_id now r) s.records
                (with_status-IsConsistent enabled reason mutation_id now r (room r e)
                  (All-find IsConsistent id s.records r e h.consistent))
                h.consistent))
      ]

  set_enabled-IsSound :
      (mutation_id now id : ℕ) (enabled : Bool) (reason : String) (s : TokenStore json)
      → HasRoom id s
      → IsSound s
      → IsSound (set_enabled crates json fs mutation_id now id enabled reason s).1
  unfolding set_enabled
  set_enabled-IsSound mutation_id now id enabled reason s room h =
      elim (Result-cases (require_text "reason" reason)) [
        | inl (a, e) ↦
            rw (e, set_enabled)
              (set_found-IsSound id enabled reason mutation_id now s (find id s.records) refl room
                h)
        | inr (x, e) ↦ rw (e, set_enabled) h
      ]

  create_with-IsSound :
      (id mutation_id now : ℕ) (name reason : String) (s : TokenStore json) (m : Result String)
      → find id s.records ≡ none
      → IsSound s
      → IsSound (create_with crates json fs id mutation_id now name reason s m).1
  unfolding create_with new_record
  create_with-IsSound id mutation_id now name reason s (err e) fresh h = h
  create_with-IsSound id mutation_id now name reason s (ok token) fresh h =
      let r = new_record crates json token id mutation_id now name reason in
      commit-IsSound (s.records ++ r ∷ []) (to_metadata r, token) s.file
        (IsUnique-concat r s.records fresh h.unique)
        (All-append IsConsistent s.records (r ∷ []) h.consistent
          (record { status = refl; counted = refl }, tt))

-- From a sound store every mutation, successful or failing at any point of its persistence, leaves a
-- sound one: identifiers stand once, each status is the last of its history, and each revision is one
-- more than the number of changes. The fresh identifier of `create` is not in use, the revision of the
-- record of `set_enabled` has room, and the records that a peer sends to `merge` are consistent.
pub mutations-IsSound :
    (crates : Crates) (json : Json) (fs : PersistIo) (s : TokenStore json) (secret : Result String)
    (id known mutation_id now : ℕ) (name reason : String) (enabled : Bool)
    (incoming : List AdminTokenRecord)
    → IsSound s
    → find id s.records ≡ none
    → All IsConsistent incoming
    → HasRoom crates json fs known s
    → IsSound (create crates json fs secret id mutation_id now name reason s).1
      × IsSound (merge json fs incoming s).1
      × IsSound (set_enabled crates json fs mutation_id now known enabled reason s).1
mutations-IsSound crates json fs s secret id known mutation_id now name reason enabled incoming h
      fresh ps room =
    (
      unfold create in
          create_with-IsSound crates json fs id mutation_id now name reason s _ fresh h,
      merge-IsSound crates json fs incoming s ps h,
      set_enabled-IsSound crates json fs mutation_id now known enabled reason s room h,
    )
