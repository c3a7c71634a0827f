-- ===== src/Auth/Merge.antt =====
-- The merge of token records between nodes, in src/auth.rs: by identifier, the record with the
-- higher revision, and then the higher mutation identifier, stands on every node in the end.
use update_delivery_system.Prelude.{
  ℕ, ◌≡◌, refl, sym, ap, ◌∙◌, Bool, false, Option, none, some, List, [], ◌∷◌, arith, ◌==◌, ==_iff,
  if◌then◌else◌, Option-cases, Bool-cases, inl, inr,
}
use update_delivery_system.Auth.{AdminTokenRecord}
use update_delivery_system.Auth.Records.{newer, find, merge_one, merge_all}
use update_delivery_system.Auth.Records.Lookup.{IsUnique, find-replace, find-concat}

abbrev pick : Option AdminTokenRecord → AdminTokenRecord → Option AdminTokenRecord
pick none c = some c
pick (some r) c = if newer c r then some c else some r

-- The record that two nodes agree on.
abbrev pub join : Option AdminTokenRecord → Option AdminTokenRecord → Option AdminTokenRecord
join o none = o
join o (some c) = pick o c

find-merge_one :
    (c : AdminTokenRecord) (rs : List AdminTokenRecord) (b : Bool) (j : ℕ)
    → find j (merge_one c rs b).0 ≡ (if c.id == j then pick (find c.id rs) c else find j rs)
unfolding merge_one
find-merge_one c rs b j = elim (Option-cases (find c.id rs)) [
  | inl absent ↦ rw absent (find-concat c rs j absent)
  | inr (r, present) ↦
      rw present (ground (arith, find-replace c.id c r rs j refl present, ap (λ i. find i rs)))
]

-- What a merge leaves at each identifier.
pub find-merge_all :
    (inc rs : List AdminTokenRecord) (b : Bool) (j : ℕ)
    → IsUnique inc
    → find j (merge_all inc rs b).0 ≡ join (find j rs) (find j inc)
unfolding merge_all find
find-merge_all [] rs b j u = refl
find-merge_all (c ∷ inc) rs b j (once, u) =
    let (rs', b') = merge_one c rs b in
    let ih = find-merge_all inc rs' b' j u in
    let this = find-merge_one c rs b j in
    elim (Bool-cases (c.id == j)) [
      | inl same ↦
          let e = (==_iff c.id j).0 same in
          ground (arith, ih, this, once, ap (λ i. find i inc) e, ap (λ i. find i rs) e)
      | inr other ↦ ground (arith, ih, this)
    ]

-- Records with one identifier and one stamp are one record: a stamp names the mutation.
abbrev pub Agree : List AdminTokenRecord → List AdminTokenRecord → Type 0
Agree left right =
    (id : ℕ) (r c : AdminTokenRecord)
    → find id left ≡ some r
    → find id right ≡ some c
    → r.revision ≡ c.revision
    → r.last_mutation_id ≡ c.last_mutation_id
    → r ≡ c

join_comm :
    (o p : Option AdminTokenRecord)
    → ((r c : AdminTokenRecord)
        → o ≡ some r
        → p ≡ some c
        → r.revision ≡ c.revision
        → r.last_mutation_id ≡ c.last_mutation_id
        → r ≡ c)
    → join o p ≡ join p o
unfolding newer
join_comm none none h = refl
join_comm none (some c) h = refl
join_comm (some r) none h = refl
join_comm (some r) (some c) h = ground (arith, h r c refl refl)

-- Two nodes with unique identifiers that agree, which is that two records of one identifier, one
-- revision and one mutation identifier are the same record, and that send each other their snapshots,
-- hold the same record, or none, at every identifier afterwards, in whichever order the records stand.
pub merge_converges :
    (left right : List AdminTokenRecord) (id : ℕ)
    → IsUnique left
    → IsUnique right
    → Agree left right
    → find id (merge_all right left false).0 ≡ find id (merge_all left right false).0
merge_converges left right id ul ur agree =
    find-merge_all right left false id ur
    ∙ join_comm (find id left) (find id right) (agree id)
    ∙ sym (find-merge_all left right false id ul)
