-- ===== src/Stats/Sums.antt =====
-- Saturating sums over the directories of src/stats.rs, of the entries that a test on the name picks.
use update_delivery_system.Prelude.{
  ℕ, ◌≤◌, ◌≡◌, refl, String, Bool, true, false, not, ◌||◌, Option, none, some, is_some, List, [],
  ◌∷◌, ◌++◌, ◌∙◌, arith, str_eq, eq_iff, if◌then◌else◌,
}
use update_delivery_system.Prelude.Words.{u64_max, saturating_add}
use update_delivery_system.Prelude.BTreeMap.{get, insert, remove, keys}
use update_delivery_system.Prelude.BTreeMap.Keys.{text_ord}
use update_delivery_system.Stats.{StatsEvent}
use update_delivery_system.Stats.Files.{EventFiles}
use update_delivery_system.Stats.Counters.{Counter, weight}

-- The test that a name has no entry.
abbrev pub absent : {V : Type 0} → List (String × V) → String → Bool
absent m k = not (is_some (get k m))

module _ {V : Type 0} (w : V → ℕ) where
  abbrev pub sum_where : (String → Bool) → List (String × V) → ℕ
  sum_where p [] = 0
  sum_where p ((k, v) ∷ m) =
      let rest = sum_where p m in if p k then saturating_add (w v) rest else rest

  pub sum_where-le : (p : String → Bool) (m : List (String × V)) → sum_where p m ≤ u64_max
  unfolding saturating_add
  sum_where-le p [] = omega arith
  sum_where-le p ((k, v) ∷ m) = ground (arith, sum_where-le p m)

  pub sum_where-cong :
      (p q : String → Bool) (m : List (String × V))
      → ((k : String) → p k ≡ q k)
      → sum_where p m ≡ sum_where q m
  sum_where-cong p q [] h = refl
  sum_where-cong p q ((k, v) ∷ m) h = ground (arith, h k, sum_where-cong p q m h)

  pub sum_where-remove :
      (p : String → Bool) (k : String) (m : List (String × V))
      → sum_where p (remove k m) ≡ sum_where (λ j. if str_eq j k then false else p j) m
  unfolding remove
  sum_where-remove p k [] = refl
  sum_where-remove p k ((j, v) ∷ m) = ground (arith, sum_where-remove p k m)

  pub sum_where-insert :
      (p : String → Bool) (k : String) (v : V) (m : List (String × V))
      → get k m ≡ none
      → sum_where p (insert k v m) ≡ saturating_add (if p k then w v else 0) (sum_where p m)
  unfolding insert get saturating_add
  sum_where-insert p k v [] e = ground arith
  sum_where-insert p k v ((j, x) ∷ m) e = ground (arith, sum_where-insert p k v m, sum_where-le p m)

  pub sum_where-none :
      (p : String → Bool) (m : List (String × V))
      → ((k : String) → is_some (get k m) ≡ true → p k ≡ false)
      → sum_where p m ≡ 0
  unfolding get
  sum_where-none p [] h = refl
  sum_where-none p ((k, v) ∷ m) h =
      ground (arith, h k, eq_iff k k, sum_where-none p m (λ j e. h j (ground arith)))

-- What the files of a directory count, for one counter of one channel.
abbrev pub file_weight : Counter → String → Option StatsEvent → ℕ
file_weight μ channel none = 0
file_weight μ channel (some e) = weight μ channel e

abbrev pub sum_files : Counter → String → EventFiles → ℕ
sum_files μ channel [] = 0
sum_files μ channel ((name, content) ∷ files) =
    saturating_add (file_weight μ channel content) (sum_files μ channel files)

pub sum_files-le :
    (μ : Counter) (channel : String) (files : EventFiles) → sum_files μ channel files ≤ u64_max
unfolding saturating_add
sum_files-le μ channel [] = omega arith
sum_files-le μ channel (file ∷ files) = omega arith

pub sum_files-append :
    (μ : Counter) (channel : String) (xs ys : EventFiles)
    → sum_files μ channel (xs ++ ys)
      ≡ saturating_add (sum_files μ channel xs) (sum_files μ channel ys)
unfolding saturating_add
sum_files-append μ channel [] ys = omega (arith, sum_files-le μ channel ys)
sum_files-append μ channel (x ∷ xs) ys = omega (arith, sum_files-append μ channel xs ys)

-- All the removals of `remove_included`.
abbrev pub remove_all : {V : Type 0} → List String → List (String × V) → List (String × V)
remove_all [] m = m
remove_all (k ∷ ks) m = remove_all ks (remove k m)

abbrev pub listed : String → List String → Bool
listed j [] = false
listed j (k ∷ ks) = str_eq k j || listed j ks

pub sum_where-remove_all :
    {V : Type 0} (w : V → ℕ) (p : String → Bool) (ks : List String) (m : List (String × V))
    → sum_where w p (remove_all ks m) ≡ sum_where w (λ j. if listed j ks then false else p j) m
sum_where-remove_all w p [] m = refl
sum_where-remove_all w p (k ∷ ks) m =
    sum_where-remove_all w p ks (remove k m)
    ∙ sum_where-remove w _ k m
    ∙ sum_where-cong w _ _ m (λ j. ground (arith, eq_iff j k, eq_iff k j))

pub listed-keys :
    {V : Type 0} (j : String) (m : List (String × V)) → listed j (keys m) ≡ is_some (get j m)
unfolding get
listed-keys j [] = refl
listed-keys j ((k, v) ∷ m) = ground (arith, listed-keys j m)
