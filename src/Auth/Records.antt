-- ===== src/Auth/Records.antt =====
-- The list of token records in src/auth.rs: lookup, the status change, and the merge of a list that
-- another node sent.
pub mod Lookup
use update_delivery_system.Prelude.{
  ℕ, ◌≡◌, String, Bool, true, false, ◌&&◌, ◌||◌, Option, none, some, List, [], ◌∷◌, ◌++◌, ltb, ◌==◌,
  if◌then◌else◌,
}
use update_delivery_system.Prelude.Text.{trim}
use update_delivery_system.Prelude.Words.{wrapping_add}
use update_delivery_system.Auth.{AdminTokenRecord}

-- `candidate` replaces `current` in a merge.
unfoldable pub newer : AdminTokenRecord → AdminTokenRecord → Bool
newer candidate current =
    ltb current.revision candidate.revision
    || (candidate.revision == current.revision
        && ltb current.last_mutation_id candidate.last_mutation_id)

-- `iter().find(|item| item.id == id)`.
unfoldable pub find : ℕ → List AdminTokenRecord → Option AdminTokenRecord
find id [] = none
find id (r ∷ rs) = if r.id == id then some r else find id rs

-- A write through the `iter_mut().find(…)` of the record with this identifier.
unfoldable pub replace : ℕ → AdminTokenRecord → List AdminTokenRecord → List AdminTokenRecord
replace id new [] = []
replace id new (r ∷ rs) = if r.id == id then new ∷ rs else r ∷ replace id new rs

-- One round of the loop of `merge`, by the record found.
abbrev pub merge_found :
    AdminTokenRecord
    → List AdminTokenRecord
    → Bool
    → Option AdminTokenRecord
    → List AdminTokenRecord × Bool
merge_found candidate records changed (some current) =
    if newer candidate current
    then (replace candidate.id candidate records, true)
    else (records, changed)
merge_found candidate records changed none = (records ++ candidate ∷ [], true)

unfoldable pub merge_one :
    AdminTokenRecord → List AdminTokenRecord → Bool → List AdminTokenRecord × Bool
merge_one candidate records changed =
    merge_found candidate records changed (find candidate.id records)

-- The loop: the records, and whether anything changed.
unfoldable pub merge_all :
    List AdminTokenRecord → List AdminTokenRecord → Bool → List AdminTokenRecord × Bool
merge_all [] records changed = (records, changed)
merge_all (c ∷ incoming) records changed =
    let (records', changed') = merge_one c records changed in merge_all incoming records' changed'

-- `set_enabled` on a record that has the other status.
unfoldable pub with_status : Bool → String → ℕ → ℕ → AdminTokenRecord → AdminTokenRecord
with_status enabled reason mutation_id now r = record r {
  enabled = enabled;
  revision = wrapping_add r.revision 1;
  last_mutation_id = mutation_id;
  status_history =
      r.status_history
      ++ record {
        enabled = enabled;
        changed_at = now;
        reason = trim reason;
        mutation_id = mutation_id;
      }
        ∷ [];
}

unfoldable pub same_status : Bool → Bool → Bool
same_status true b = b
same_status false true = false
same_status false false = true
