-- ===== src/Prelude/BTreeMap.antt =====
-- `std::collections::BTreeMap` as a list of pairs in the order of the keys.
pub mod Keys
pub mod Sorted
use Prim.Native.Nat.{ℕ}
use mathlib.Core.Path.{◌≡◌, refl}
use mathlib.Core.Logic.{◌↔◌}
use mathlib.Core.Bool.{Bool, true, false}
use mathlib.Core.Option.{Option, none, some}
use mathlib.Core.List.{List, [], ◌∷◌, ◌++◌, map}
use native.Mathlib.Omega.{arith}
use update_delivery_system.Prelude.Tests.{if◌then◌else◌}

-- `Ord` of a key type, with the laws that the map relies on.
pub record Ord (K : Type 0) : Type 0 where
  pub beq : K → K → Bool
  pub beq_iff : (a b : K) → (beq a b ≡ true) ↔ (a ≡ b)
  pub lt : K → K → Bool
  pub lt_irrefl : (a : K) → lt a a ≡ false
  pub lt_trans : (a b c : K) → lt a b ≡ true → lt b c ≡ true → lt a c ≡ true
  pub lt_total : (a b : K) → beq a b ≡ false → lt a b ≡ false → lt b a ≡ true

module _ {K : Type 0} ⦃o : Ord K⦄ {V : Type 0} where
  unfoldable pub get : K → List (K × V) → Option V
  get k [] = none
  get k ((j, v) ∷ m) = if o.beq j k then some v else get k m

  unfoldable pub insert : K → V → List (K × V) → List (K × V)
  insert k v [] = (k, v) ∷ []
  insert k v ((j, w) ∷ m) =
      if o.beq j k
      then (k, v) ∷ m
      else if o.lt k j
      then (k, v) ∷ (j, w) ∷ m
      else (j, w) ∷ insert k v m

  unfoldable pub remove : K → List (K × V) → List (K × V)
  remove k [] = []
  remove k ((j, w) ∷ m) = let rest = remove k m in if o.beq j k then rest else (j, w) ∷ rest

  -- `*entry(k).or_default()` changed by `f`.
  unfoldable pub entry_or : K → V → (V → V) → List (K × V) → List (K × V)
  entry_or k d f [] = (k, f d) ∷ []
  entry_or k d f ((j, w) ∷ m) =
      if o.beq j k
      then (k, f w) ∷ m
      else if o.lt k j
      then (k, f d) ∷ (j, w) ∷ m
      else (j, w) ∷ entry_or k d f m

  pub get-insert :
      (k j : K) (v : V) (m : List (K × V))
      → get j (insert k v m) ≡ (if o.beq k j then some v else get j m)
  unfolding get insert
  get-insert k j v [] = refl
  get-insert k j v ((i, w) ∷ m) =
      ground (arith, o.beq_iff k j, o.beq_iff i k, o.beq_iff i j, get-insert k j v m)

  pub get-remove :
      (k j : K) (m : List (K × V)) → get j (remove k m) ≡ (if o.beq k j then none else get j m)
  unfolding get remove
  get-remove k j [] = ground arith
  get-remove k j ((i, w) ∷ m) =
      ground (arith, get-remove k j m, o.beq_iff i k, o.beq_iff i j, o.beq_iff k j)

-- `keys` and `values` in the map's order.
abbrev pub keys : {K V : Type 0} → List (K × V) → List K
keys [] = []
keys ((k, v) ∷ m) = k ∷ keys m

abbrev pub values : {K V : Type 0} → List (K × V) → List V
values [] = []
values ((k, v) ∷ m) = v ∷ values m

-- `values_mut` with one change for all.
abbrev pub map_values : {K V W : Type 0} → (V → W) → List (K × V) → List (K × W)
map_values f [] = []
map_values f ((k, v) ∷ m) = (k, f v) ∷ map_values f m
