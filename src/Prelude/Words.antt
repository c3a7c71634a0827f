-- ===== src/Prelude/Words.antt =====
-- Machine words: `u64` and `usize` arithmetic as the program uses it.
use Prim.Native.Nat.{ℕ, ◌+◌, ◌-◌, ◌^◌, ◌%◌, ◌≤◌, ◌<◌, min}
use mathlib.Core.Path.{◌≡◌}
use native.Mathlib.Omega.{arith}

abbrev pub u64_max : ℕ
u64_max = 2 ^ 64 - 1

-- `u64::saturating_add`.
unfoldable pub saturating_add : ℕ → ℕ → ℕ
saturating_add a b = min (a + b) u64_max

-- `+=` and `AtomicU64::fetch_add`, which wrap around in a release build.
unfoldable pub wrapping_add : ℕ → ℕ → ℕ
wrapping_add a b = (a + b) % 2 ^ 64

pub saturating_add_comm : (a b : ℕ) → saturating_add a b ≡ saturating_add b a
unfolding saturating_add
saturating_add_comm a b = omega arith

pub saturating_add_assoc :
    (a b c : ℕ) → saturating_add (saturating_add a b) c ≡ saturating_add a (saturating_add b c)
unfolding saturating_add
saturating_add_assoc a b c = omega arith

pub saturating_add-zero : (a : ℕ) → a ≤ u64_max → saturating_add a 0 ≡ a
unfolding saturating_add
saturating_add-zero a h = omega arith

pub zero-saturating_add : (a : ℕ) → a ≤ u64_max → saturating_add 0 a ≡ a
unfolding saturating_add
zero-saturating_add a h = omega arith

pub saturating_add-le : (a b : ℕ) → saturating_add a b ≤ u64_max
unfolding saturating_add
saturating_add-le a b = omega arith

pub wrapping_add_small : (a b : ℕ) → a + b < 2 ^ 64 → wrapping_add a b ≡ a + b
unfolding wrapping_add
wrapping_add_small a b h = omega arith
