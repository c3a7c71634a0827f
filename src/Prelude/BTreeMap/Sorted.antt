-- ===== src/Prelude/BTreeMap/Sorted.antt =====
-- The order of the keys: a map that starts empty stays strictly sorted, so that no key stands
-- twice and the number of entries is the number of keys.
use Prim.Native.Nat.{◌+◌}
use mathlib.Core.Path.{◌≡◌, refl}
use mathlib.Core.Bool.{true}
use mathlib.Core.Option.{none}
use mathlib.Core.List.{List, [], ◌∷◌}
use native.Mathlib.Omega.{arith}
use update_delivery_system.Prelude.Tests.{if◌then◌else◌, is_some}
use update_delivery_system.Prelude.Lists.{length}
use update_delivery_system.Prelude.BTreeMap.{Ord, get, insert, remove, map_values}

module _ {K : Type 0} ⦃o : Ord K⦄ {V : Type 0} where
  abbrev pub AllAbove : K → List (K × V) → Type 0
  AllAbove k [] = Unit
  AllAbove k ((j, v) ∷ m) = (o.lt k j ≡ true) × AllAbove k m

  abbrev pub IsSorted : List (K × V) → Type 0
  IsSorted [] = Unit
  IsSorted ((k, v) ∷ m) = AllAbove k m × IsSorted m

  AllAbove-trans : (i k : K) (m : List (K × V)) → o.lt i k ≡ true → AllAbove k m → AllAbove i m
  AllAbove-trans i k [] h a = tt
  AllAbove-trans i k ((j, v) ∷ m) h (p, a) = (o.lt_trans i k j h p, AllAbove-trans i k m h a)

  AllAbove-insert :
      (i k : K) (v : V) (m : List (K × V))
      → o.lt i k ≡ true
      → AllAbove i m
      → AllAbove i (insert k v m)
  unfolding insert
  AllAbove-insert i k v [] h a = (h, tt)
  AllAbove-insert i k v ((j, w) ∷ m) h (p, a) = ground (arith, AllAbove-insert i k v m h a)

  pub insert-IsSorted : (k : K) (v : V) (m : List (K × V)) → IsSorted m → IsSorted (insert k v m)
  unfolding insert
  insert-IsSorted k v [] s = (tt, tt)
  insert-IsSorted k v ((j, w) ∷ m) (a, s) = ground (
    arith,
    insert-IsSorted k v m s,
    o.beq_iff j k,
    o.lt_total k j,
    o.beq_iff k j,
    AllAbove-insert j k v m,
    AllAbove-trans k j m,
  )

  AllAbove-remove : (i k : K) (m : List (K × V)) → AllAbove i m → AllAbove i (remove k m)
  unfolding remove
  AllAbove-remove i k [] a = tt
  AllAbove-remove i k ((j, w) ∷ m) (p, a) = ground (arith, AllAbove-remove i k m a)

  pub remove-IsSorted : (k : K) (m : List (K × V)) → IsSorted m → IsSorted (remove k m)
  unfolding remove
  remove-IsSorted k [] s = tt
  remove-IsSorted k ((j, w) ∷ m) (a, s) =
      ground (arith, remove-IsSorted k m s, AllAbove-remove j k m a)

  pub get-AllAbove : (k : K) (m : List (K × V)) → AllAbove k m → get k m ≡ none
  unfolding get
  get-AllAbove k [] a = refl
  get-AllAbove k ((j, w) ∷ m) (p, a) =
      ground (arith, get-AllAbove k m a, o.beq_iff j k, o.lt_irrefl k)

  remove_absent : (k : K) (m : List (K × V)) → get k m ≡ none → remove k m ≡ m
  unfolding get remove
  remove_absent k [] h = refl
  remove_absent k ((j, w) ∷ m) h = ground (arith, remove_absent k m)

  pub length-remove :
      (k : K) (m : List (K × V))
      → IsSorted m
      → length m ≡ (if is_some (get k m) then length (remove k m) + 1 else length (remove k m))
  unfolding get remove
  length-remove k [] s = refl
  length-remove k ((j, w) ∷ m) (a, s) =
      ground (arith, length-remove k m s, o.beq_iff j k, get-AllAbove j m a, remove_absent j m)

  pub length-insert :
      (k : K) (v : V) (m : List (K × V))
      → IsSorted m
      → length (insert k v m) ≡ (if is_some (get k m) then length m else length m + 1)
  unfolding get insert
  length-insert k v [] s = omega arith
  length-insert k v ((j, w) ∷ m) (a, s) =
      ground (arith, length-insert k v m s, o.beq_iff j k, AllAbove-trans k j m, get-AllAbove k m)

pub length-map_values :
    {K V W : Type 0} (f : V → W) (m : List (K × V)) → length (map_values f m) ≡ length m
length-map_values f [] = refl
length-map_values f ((k, v) ∷ m) = omega (arith, length-map_values f m)

module _ {K : Type 0} ⦃o : Ord K⦄ {V W : Type 0} (f : V → W) where
  map_values-AllAbove : (k : K) (m : List (K × V)) → AllAbove k m → AllAbove k (map_values f m)
  map_values-AllAbove k [] a = tt
  map_values-AllAbove k ((j, v) ∷ m) (p, a) = (p, map_values-AllAbove k m a)

  pub map_values-IsSorted : (m : List (K × V)) → IsSorted m → IsSorted (map_values f m)
  map_values-IsSorted [] s = tt
  map_values-IsSorted ((k, v) ∷ m) (a, s) = (map_values-AllAbove k m a, map_values-IsSorted m s)
