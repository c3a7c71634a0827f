-- ===== src/Storage/Sorting.antt =====
-- The sort of `update_for` in src/storage.rs: its last item is one that no item exceeds.
use mathlib.Core.Option.{some-injective}
use update_delivery_system.Prelude.{
  ◌≡◌, refl, sym, ap, ◌∙◌, ◌⊎◌, inl, inr, Bool, true, false, some, List, [], ◌∷◌, All, Bool-cases,
  arith, if◌then◌else◌,
}
use update_delivery_system.Prelude.BTreeMap.Keys.{text_ord}
use update_delivery_system.Storage.{Libraries}
use update_delivery_system.Storage.Updates.{last, sort_insert, sort_by, Candidate, version_before}

-- `Version: Ord` is a total order.
pub record IsOrder (lib : Libraries) : Type 0 where
  pub irrefl : (a : lib.Version) → lib.version_lt a a ≡ false
  pub trans :
      (a b c : lib.Version)
      → lib.version_lt a b ≡ true
      → lib.version_lt b c ≡ true
      → lib.version_lt a c ≡ true
  pub total : (a b : lib.Version) → lib.version_lt a b ≡ false → lib.version_lt b a ≡ false → a ≡ b

module _ (lib : Libraries) (order : IsOrder lib) where
  pub lt_asym : (a b : lib.Version) → lib.version_lt a b ≡ true → lib.version_lt b a ≡ false
  lt_asym a b h = ground (arith, order.irrefl a, order.trans a b a, Bool-cases (lib.version_lt b a))

  pub not_lt_trans :
      (a b c : lib.Version)
      → lib.version_lt a b ≡ false
      → lib.version_lt b c ≡ false
      → lib.version_lt a c ≡ false
  not_lt_trans a b c h k = go (lib.version_lt b a) refl
    where
      go : (t : Bool) → lib.version_lt b a ≡ t → lib.version_lt a c ≡ false
      go true e = ground (arith, order.trans b a c, Bool-cases (lib.version_lt a c))
      go false e = ap (λ v. lib.version_lt v c) (order.total a b h e) ∙ k

  -- The last item, which no item exceeds.
  abbrev pub IsMax : Candidate lib → List (Candidate lib) → Type 0
  IsMax c ys = (last ys ≡ some c) × All (λ y. lib.version_lt c.0 y.0 ≡ false) ys

  last-cons :
      (y x : Candidate lib) (ys : List (Candidate lib)) → last ys ≡ some x → last (y ∷ ys) ≡ some x
  last-cons y x [] e = cc
  last-cons y x (z ∷ ys) e = e

  IsMax-sort_insert :
      (x : Candidate lib) (ys : List (Candidate lib)) (c : Candidate lib)
      → IsMax c ys
      → IsMax x (sort_insert (version_before lib) x ys)
        ⊎ IsMax c (sort_insert (version_before lib) x ys)
  IsMax-sort_insert x [] c (e, h) = inl (refl, (order.irrefl x.0, tt))
  IsMax-sort_insert x (y ∷ []) c m = go (lib.version_lt y.0 x.0) refl
    where
      go :
          (t : Bool)
          → lib.version_lt y.0 x.0 ≡ t
          → IsMax x (if t then y ∷ x ∷ [] else x ∷ y ∷ [])
            ⊎ IsMax c (if t then y ∷ x ∷ [] else x ∷ y ∷ [])
      go true e = inl (refl, (lt_asym y.0 x.0 e, (order.irrefl x.0, tt)))
      go false e = inr (m.0, (not_lt_trans c.0 y.0 x.0 m.1.0 e, m.1))
  IsMax-sort_insert x (y ∷ z ∷ ys) c m =
      go (IsMax-sort_insert x (z ∷ ys) c (m.0, m.1.1)) (lib.version_lt y.0 x.0) refl
    where
      rest : List (Candidate lib)
      rest = sort_insert (version_before lib) x (z ∷ ys)

      before :
          lib.version_lt y.0 x.0 ≡ true
          → IsMax x rest ⊎ IsMax c rest
          → IsMax x (y ∷ rest) ⊎ IsMax c (y ∷ rest)
      before e (inl (l, h)) = inl (last-cons y x rest l, (lt_asym y.0 x.0 e, h))
      before e (inr (l, h)) = inr (last-cons y c rest l, (m.1.0, h))

      go :
          IsMax x rest ⊎ IsMax c rest
          → (t : Bool) → lib.version_lt y.0 x.0 ≡ t
          → IsMax x (if t then y ∷ rest else x ∷ y ∷ z ∷ ys)
            ⊎ IsMax c (if t then y ∷ rest else x ∷ y ∷ z ∷ ys)
      go r true e = before e r
      go r false e = inr (m.0, (not_lt_trans c.0 y.0 x.0 m.1.0 e, m.1))

  pub IsMax-sort_by :
      (x : Candidate lib) (xs : List (Candidate lib))
      → (c : Candidate lib) × IsMax c (sort_by (version_before lib) (x ∷ xs))
  IsMax-sort_by x [] = (x, (refl, (order.irrefl x.0, tt)))
  IsMax-sort_by x (y ∷ xs) = let (c, m) = IsMax-sort_by y xs in either c (IsMax-sort_insert x _ c m)
    where
      either :
          (c : Candidate lib)
          → IsMax x (sort_by (version_before lib) (x ∷ y ∷ xs))
            ⊎ IsMax c (sort_by (version_before lib) (x ∷ y ∷ xs))
          → (d : Candidate lib) × IsMax d (sort_by (version_before lib) (x ∷ y ∷ xs))
      either c (inl m) = (x, m)
      either c (inr m) = (c, m)

-- What holds of all items holds of the sorted items, and conversely.
module _ {A : Type 0} (lt : A → A → Bool) (P : A → Type 0) where
  All-sort_insert : (x : A) (ys : List A) → P x → All P ys → All P (sort_insert lt x ys)
  All-sort_insert x [] p h = (p, tt)
  All-sort_insert x (y ∷ ys) p (q, h) = go (All-sort_insert x ys p h) (lt y x)
    where
      go :
          All P (sort_insert lt x ys)
          → (t : Bool) → All P (if t then y ∷ sort_insert lt x ys else x ∷ y ∷ ys)
      go r true = (q, r)
      go r false = (p, (q, h))

  pub All-sort_by : (xs : List A) → All P xs → All P (sort_by lt xs)
  All-sort_by [] h = tt
  All-sort_by (x ∷ xs) (p, h) = All-sort_insert x (sort_by lt xs) p (All-sort_by xs h)

  All-unsort_insert : (x : A) (ys : List A) → All P (sort_insert lt x ys) → P x × All P ys
  All-unsort_insert x [] h = h
  All-unsort_insert x (y ∷ ys) h = go (All-unsort_insert x ys) (lt y x) h
    where
      go :
          (All P (sort_insert lt x ys) → P x × All P ys)
          → (t : Bool) → All P (if t then y ∷ sort_insert lt x ys else x ∷ y ∷ ys)
          → P x × All P (y ∷ ys)
      go f true (q, k) = let (p, r) = f k in (p, (q, r))
      go f false k = k

  pub All-unsort_by : (xs : List A) → All P (sort_by lt xs) → All P xs
  All-unsort_by [] h = tt
  All-unsort_by (x ∷ xs) h =
      let (p, k) = All-unsort_insert x (sort_by lt xs) h in (p, All-unsort_by xs k)

  pub All-last : (xs : List A) (c : A) → All P xs → last xs ≡ some c → P c
  All-last [] c h e = cc
  All-last (x ∷ []) c (p, _) e = rw (sym (some-injective x c e)) p
  All-last (x ∷ y ∷ ys) c (p, h) e = All-last (y ∷ ys) c h e
