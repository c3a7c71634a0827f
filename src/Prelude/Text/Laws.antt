-- ===== src/Prelude/Text/Laws.antt =====
-- Laws of the texts: a prefix that was put on comes off, and a separator is found where it stands.
use Prim.Native.Char.{code}
use Prim.Native.String.{String}
use text.Mathlib.TextLemmas.{nil-append, cons-append}
use mathlib.Core.Path.{◌≡◌, sym, ap₂}
use mathlib.Core.Bool.{false}
use mathlib.Core.Option.{some}
use native.Mathlib.Omega.{arith}
use text.Mathlib.TextEquality.{Char-path}
use Prim.Native.Nat.{ℕ, zero, suc, ◌≤◌}
use mathlib.Core.Bool.{Bool, true}
use update_delivery_system.Prelude.Tests.{if◌then◌else◌}
use update_delivery_system.Prelude.Text.{
  ◌<>◌, char_count, take_chars, drop_chars, trim_start, trim_end, cons_trimmed, is_whitespace,
  contains_char, strip_prefix, split_once,
}

pub strip_prefix-append : (p s : String) → strip_prefix p (p <> s) ≡ some s
unfolding strip_prefix
strip_prefix-append String.[] s = rw nil-append
strip_prefix-append (String.◌∷◌ c p) s = rw cons-append (ground (arith, strip_prefix-append p s))

pub eq_of_strip_prefix : (p s r : String) → strip_prefix p s ≡ some r → s ≡ p <> r
unfolding strip_prefix
eq_of_strip_prefix String.[] s r h = rw nil-append (ground arith)
eq_of_strip_prefix (String.◌∷◌ c p) String.[] r h = cc
eq_of_strip_prefix (String.◌∷◌ c p) (String.◌∷◌ d s) r h =
    rw cons-append (
      ap₂ String.◌∷◌ (sym (Char-path c d (ground arith))) (eq_of_strip_prefix p s r (ground arith)))

pub split_once-append :
    (k : _) (a b : String)
    → contains_char k a ≡ false
    → (c : _) → code c ≡ k
    → split_once k (a <> String.◌∷◌ c b) ≡ some (a, b)
unfolding split_once contains_char
split_once-append k String.[] b h c e = rw nil-append (ground arith)
split_once-append k (String.◌∷◌ d a) b h c e =
    rw cons-append (ground (arith, split_once-append k a b (ground arith) c e))

pub char_count-trim_start : (s : String) → char_count (trim_start s) ≤ char_count s
unfolding char_count trim_start
char_count-trim_start String.[] = omega arith
char_count-trim_start (String.◌∷◌ c s) = ground (arith, char_count-trim_start s)

char_count-cons_trimmed :
    (c : _) (s : String) → char_count (cons_trimmed c s) ≤ char_count (String.◌∷◌ c s)
unfolding char_count cons_trimmed
char_count-cons_trimmed c String.[] = go (is_whitespace (code c))
  where
    go : (b : Bool) → char_count (if b then "" else String.◌∷◌ c "") ≤ 1
    go true = omega arith
    go false = omega arith
char_count-cons_trimmed c (String.◌∷◌ d s) = omega arith

pub char_count-trim_end : (s : String) → char_count (trim_end s) ≤ char_count s
unfolding char_count trim_end
char_count-trim_end String.[] = omega arith
char_count-trim_end (String.◌∷◌ c s) =
    omega (arith, char_count-cons_trimmed c (trim_end s), char_count-trim_end s)

pub char_count-take_chars : (n : ℕ) (s : String) → char_count (take_chars n s) ≤ n
unfolding char_count take_chars
char_count-take_chars zero s = omega arith
char_count-take_chars (suc n) String.[] = omega arith
char_count-take_chars (suc n) (String.◌∷◌ c s) = omega (arith, char_count-take_chars n s)

pub char_count-drop_chars : (n : ℕ) (s : String) → char_count (drop_chars n s) ≤ char_count s
unfolding char_count drop_chars
char_count-drop_chars zero s = omega arith
char_count-drop_chars (suc n) String.[] = omega arith
char_count-drop_chars (suc n) (String.◌∷◌ c s) = omega (arith, char_count-drop_chars n s)
