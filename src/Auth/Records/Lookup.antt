-- ===== src/Auth/Records/Lookup.antt =====
-- Lookup in a list of token records that is changed, and that no identifier stands twice.
use mathlib.Core.Path.{subst}
use update_delivery_system.Prelude.{
  ℕ, ◌≡◌, refl, ◌∙◌, false, none, some, List, [], ◌∷◌, ◌++◌, All, arith, ◌==◌, ==_iff,
  if◌then◌else◌, Bool-cases, inl, inr,
}
use update_delivery_system.Auth.{AdminTokenRecord}
use update_delivery_system.Auth.Records.{find, replace}

-- No identifier stands twice.
abbrev pub IsUnique : List AdminTokenRecord → Type 0
IsUnique [] = Unit
IsUnique (r ∷ rs) = (find r.id rs ≡ none) × IsUnique rs

pub find-id :
    (id : ℕ) (rs : List AdminTokenRecord) (r : AdminTokenRecord) → find id rs ≡ some r → r.id ≡ id
unfolding find
find-id id [] r h = cc
find-id id (x ∷ rs) r h = ground (arith, find-id id rs r)

pub find-replace :
    (id : ℕ) (new r : AdminTokenRecord) (rs : List AdminTokenRecord) (j : ℕ)
    → new.id ≡ id
    → find id rs ≡ some r
    → find j (replace id new rs) ≡ (if id == j then some new else find j rs)
unfolding find replace
find-replace id new r [] j e h = cc
find-replace id new r (x ∷ rs) j e h = ground (arith, find-replace id new r rs j e)

pub find-concat :
    (c : AdminTokenRecord) (rs : List AdminTokenRecord) (j : ℕ)
    → find c.id rs ≡ none
    → find j (rs ++ c ∷ []) ≡ (if c.id == j then some c else find j rs)
unfolding find
find-concat c [] j h = refl
find-concat c (x ∷ rs) j h = ground (arith, find-concat c rs j)

pub find-replace_ne :
    (id : ℕ) (new : AdminTokenRecord) (rs : List AdminTokenRecord) (j : ℕ)
    → new.id ≡ id
    → (id == j) ≡ false
    → find j (replace id new rs) ≡ find j rs
unfolding find replace
find-replace_ne id new [] j e ne = refl
find-replace_ne id new (x ∷ rs) j e ne = ground (arith, find-replace_ne id new rs j e ne)

pub IsUnique-replace :
    (id : ℕ) (new : AdminTokenRecord) (rs : List AdminTokenRecord)
    → new.id ≡ id
    → IsUnique rs
    → IsUnique (replace id new rs)
unfolding replace
IsUnique-replace id new [] e u = tt
IsUnique-replace id new (x ∷ rs) e (once, u) = elim (Bool-cases (x.id == id)) [
  | inl same ↦
      let p : x.id ≡ new.id = omega (arith, (==_iff x.id id).0 same) in rw same (rw (← p) once, u)
  | inr other ↦
      rw other
        (find-replace_ne id new rs x.id e (ground arith) ∙ once, IsUnique-replace id new rs e u)
]

pub IsUnique-concat :
    (c : AdminTokenRecord) (rs : List AdminTokenRecord)
    → find c.id rs ≡ none
    → IsUnique rs
    → IsUnique (rs ++ c ∷ [])
unfolding find
IsUnique-concat c [] absent u = (refl, tt)
IsUnique-concat c (x ∷ rs) absent (once, u) =
    let other : (c.id == x.id) ≡ false = ground arith in
    (find-concat c rs x.id (ground arith) ∙ rw other once, IsUnique-concat c rs (ground arith) u)

module _ (P : AdminTokenRecord → Type 0) where
  pub All-replace :
      (id : ℕ) (new : AdminTokenRecord) (rs : List AdminTokenRecord)
      → P new
      → All P rs
      → All P (replace id new rs)
  unfolding replace
  All-replace id new [] p h = tt
  All-replace id new (x ∷ rs) p (q, h) = ground (arith, All-replace id new rs p h)

  pub All-find :
      (id : ℕ) (rs : List AdminTokenRecord) (r : AdminTokenRecord)
      → find id rs ≡ some r
      → All P rs
      → P r
  unfolding find
  All-find id [] r e h = cc
  All-find id (x ∷ rs) r e (q, h) = elim (Bool-cases (x.id == id)) [
    | inl same ↦ let p : x ≡ r = ground arith in subst P p q
    | inr other ↦ All-find id rs r (ground arith) h
  ]
