-- ===== src/Prelude/BTreeMap/Keys.antt =====
-- The key types of the program's maps: identifiers, which are numbers, and texts, which Rust
-- orders by their bytes, and so by their code points.
use Prim.Native.Nat.{ℕ}
use Prim.Native.Char.{code}
use Prim.Native.String.{String}
use mathlib.Core.Path.{◌≡◌, refl, ap₂}
use mathlib.Core.Bool.{Bool, true, false}
use native.Mathlib.Omega.{arith}
use text.Mathlib.Text.{◌==◌ as str_eq}
use text.Mathlib.TextEquality.{eq_iff, Char-path}
use update_delivery_system.Prelude.Tests.{ltb, ◌==◌, ==_iff, if◌then◌else◌}
use update_delivery_system.Prelude.BTreeMap.{Ord}

pub ltb_irrefl : (a : ℕ) → ltb a a ≡ false
ltb_irrefl a = ground arith

pub ltb_trans : (a b c : ℕ) → ltb a b ≡ true → ltb b c ≡ true → ltb a c ≡ true
ltb_trans a b c h k = ground arith

pub ltb_total : (a b : ℕ) → (a == b) ≡ false → ltb a b ≡ false → ltb b a ≡ true
ltb_total a b h k = ground arith

instance abbrev pub id_ord : Ord ℕ
id_ord = record {
  beq = ◌==◌;
  beq_iff = ==_iff;
  lt = ltb;
  lt_irrefl = ltb_irrefl;
  lt_trans = ltb_trans;
  lt_total = ltb_total;
}

unfoldable pub str_lt : String → String → Bool
str_lt String.[] String.[] = false
str_lt String.[] (String.◌∷◌ d t) = true
str_lt (String.◌∷◌ c s) String.[] = false
str_lt (String.◌∷◌ c s) (String.◌∷◌ d t) =
    if code c == code d then str_lt s t else ltb (code c) (code d)

pub str_lt_irrefl : (s : String) → str_lt s s ≡ false
unfolding str_lt
str_lt_irrefl String.[] = refl
str_lt_irrefl (String.◌∷◌ c s) = ground (arith, str_lt_irrefl s)

pub str_lt_trans : (s t u : String) → str_lt s t ≡ true → str_lt t u ≡ true → str_lt s u ≡ true
unfolding str_lt
str_lt_trans String.[] String.[] u h k = cc
str_lt_trans String.[] (String.◌∷◌ d t) String.[] h k = cc
str_lt_trans String.[] (String.◌∷◌ d t) (String.◌∷◌ e u) h k = refl
str_lt_trans (String.◌∷◌ c s) String.[] u h k = cc
str_lt_trans (String.◌∷◌ c s) (String.◌∷◌ d t) String.[] h k = cc
str_lt_trans (String.◌∷◌ c s) (String.◌∷◌ d t) (String.◌∷◌ e u) h k =
    ground (arith, str_lt_trans s t u)

str_lt_antisymm : (s t : String) → str_lt s t ≡ false → str_lt t s ≡ false → s ≡ t
unfolding str_lt
str_lt_antisymm String.[] String.[] h k = refl
str_lt_antisymm String.[] (String.◌∷◌ d t) h k = cc
str_lt_antisymm (String.◌∷◌ c s) String.[] h k = cc
str_lt_antisymm (String.◌∷◌ c s) (String.◌∷◌ d t) h k =
    ap₂ String.◌∷◌ (Char-path c d (ground arith))
      (str_lt_antisymm s t (ground arith) (ground arith))

pub str_lt_total : (s t : String) → str_eq s t ≡ false → str_lt s t ≡ false → str_lt t s ≡ true
str_lt_total s t h k = ground (arith, eq_iff s t, str_lt_antisymm s t)

instance abbrev pub text_ord : Ord String
text_ord = record {
  beq = str_eq;
  beq_iff = eq_iff;
  lt = str_lt;
  lt_irrefl = str_lt_irrefl;
  lt_trans = str_lt_trans;
  lt_total = str_lt_total;
}
