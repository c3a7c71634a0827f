-- ===== src/Prelude/Text.antt =====
-- What the program takes from Rust's `str`, over the native `String`, character by character.
pub mod Laws
use Prim.Native.Nat.{ℕ, zero, suc, ◌+◌, ◌-◌, ◌/◌, ◌%◌}
use Prim.Native.Char.{Char, code}
use Prim.Native.String
use Prim.Native.String.{String}
use mathlib.Core.Path.{◌≡◌, refl}
use mathlib.Core.Bool.{Bool, true, false, ◌&&◌, ◌||◌}
use mathlib.Core.Option.{Option, none, some}
use mathlib.Core.List.{List, [], ◌∷◌, ◌++◌}
use update_delivery_system.Prelude.Tests.{ltb, leb, ◌==◌, if◌then◌else◌}

-- `+` of texts, as `format!` and `push_str` join them.
infixr 65 ◌<>◌
abbrev pub ◌<>◌ : String → String → String
s <> t = String.◌++◌ s t

unfoldable pub is_empty : String → Bool
is_empty String.[] = true
is_empty (String.◌∷◌ c s) = false

-- `s.contains(c)` for a character given by its code point.
unfoldable pub contains_char : ℕ → String → Bool
contains_char k String.[] = false
contains_char k (String.◌∷◌ c s) = (code c == k) || contains_char k s

-- `s.chars().any(p)`.
unfoldable pub any_char : (ℕ → Bool) → String → Bool
any_char p String.[] = false
any_char p (String.◌∷◌ c s) = p (code c) || any_char p s

unfoldable pub all_char : (ℕ → Bool) → String → Bool
all_char p String.[] = true
all_char p (String.◌∷◌ c s) = p (code c) && all_char p s

-- `s.chars().count()`.
unfoldable pub char_count : String → ℕ
char_count String.[] = 0
char_count (String.◌∷◌ c s) = suc (char_count s)

-- `char::is_control`: the category Cc.
unfoldable pub is_control : ℕ → Bool
is_control c = ltb c 32 || (leb 127 c && ltb c 160)

-- `char::is_whitespace`: the property White_Space.
unfoldable pub is_whitespace : ℕ → Bool
is_whitespace c =
    (leb 9 c && leb c 13)
    || c == 32
    || c == 0x85
    || c == 0xa0
    || c == 0x1680
    || (leb 0x2000 c && leb c 0x200a)
    || c == 0x2028
    || c == 0x2029
    || c == 0x202f
    || c == 0x205f
    || c == 0x3000

unfoldable pub trim_start : String → String
trim_start String.[] = ""
trim_start (String.◌∷◌ c s) = if is_whitespace (code c) then trim_start s else String.◌∷◌ c s

cons_trimmed : Char → String → String
cons_trimmed c String.[] = if is_whitespace (code c) then "" else String.◌∷◌ c ""
cons_trimmed c (String.◌∷◌ d s) = String.◌∷◌ c (String.◌∷◌ d s)

unfoldable pub trim_end : String → String
unfolding cons_trimmed
trim_end String.[] = ""
trim_end (String.◌∷◌ c s) = cons_trimmed c (trim_end s)

unfoldable pub trim : String → String
unfolding trim_start trim_end is_whitespace
trim s = trim_start (trim_end s)

-- `s.trim_start_matches(c)`.
unfoldable pub trim_start_matches : ℕ → String → String
trim_start_matches k String.[] = ""
trim_start_matches k (String.◌∷◌ c s) =
    if code c == k then trim_start_matches k s else String.◌∷◌ c s

cons_kept : ℕ → Char → String → String
cons_kept k c String.[] = if code c == k then "" else String.◌∷◌ c ""
cons_kept k c (String.◌∷◌ d s) = String.◌∷◌ c (String.◌∷◌ d s)

-- `s.trim_end_matches(c)`.
unfoldable pub trim_end_matches : ℕ → String → String
unfolding cons_kept
trim_end_matches k String.[] = ""
trim_end_matches k (String.◌∷◌ c s) = cons_kept k c (trim_end_matches k s)

-- `s.strip_prefix(p)`; the prefix comes first.
unfoldable pub strip_prefix : String → String → Option String
strip_prefix String.[] s = some s
strip_prefix (String.◌∷◌ p ps) String.[] = none
strip_prefix (String.◌∷◌ p ps) (String.◌∷◌ c s) =
    if code p == code c then strip_prefix ps s else none

-- `s.starts_with(p)`.
abbrev pub starts_with : String → String → Bool
starts_with p s = elim (strip_prefix p s) [ none ↦ false | some _ ↦ true ]

before : Char → Option (String × String) → Option (String × String)
before c none = none
before c (some (a, b)) = some (String.◌∷◌ c a, b)

-- `s.split_once(c)`.
unfoldable pub split_once : ℕ → String → Option (String × String)
unfolding before
split_once k String.[] = none
split_once k (String.◌∷◌ c s) = if code c == k then some ("", s) else before c (split_once k s)

-- The UTF-8 bytes of one code point.
unfoldable pub utf8_char : ℕ → List ℕ
utf8_char c =
    if ltb c 0x80
    then c ∷ []
    else if ltb c 0x800
    then (0xc0 + c / 64) ∷ (0x80 + c % 64) ∷ []
    else if ltb c 0x10000
    then (0xe0 + c / 4096) ∷ (0x80 + c / 64 % 64) ∷ (0x80 + c % 64) ∷ []
    else (0xf0 + c / 262144) ∷ (0x80 + c / 4096 % 64) ∷ (0x80 + c / 64 % 64) ∷ (0x80 + c % 64) ∷ []

-- `s.as_bytes()`.
unfoldable pub as_bytes : String → List ℕ
unfolding utf8_char
as_bytes String.[] = []
as_bytes (String.◌∷◌ c s) = utf8_char (code c) ++ as_bytes s

unfoldable pub take_chars : ℕ → String → String
take_chars zero s = ""
take_chars (suc n) String.[] = ""
take_chars (suc n) (String.◌∷◌ c s) = String.◌∷◌ c (take_chars n s)

unfoldable pub drop_chars : ℕ → String → String
drop_chars zero s = s
drop_chars (suc n) String.[] = ""
drop_chars (suc n) (String.◌∷◌ c s) = drop_chars n s

-- `s.lines().next()` of a text that is not empty: a line ends at a line feed, which a carriage
-- return may precede.
unfoldable pub first_line : String → String
first_line String.[] = ""
first_line (String.◌∷◌ c s) =
    if code c == 10
    then ""
    else if code c == 13 && starts_with "\n" s
    then ""
    else String.◌∷◌ c (first_line s)

to_ascii_lower : Char → Char
to_ascii_lower c =
    if leb 65 (code c) && leb (code c) 90
    then String.char_at "abcdefghijklmnopqrstuvwxyz" (code c - 65)
    else c

-- `s.to_ascii_lowercase()`.
unfoldable pub to_ascii_lowercase : String → String
unfolding to_ascii_lower
to_ascii_lowercase String.[] = ""
to_ascii_lowercase (String.◌∷◌ c s) = String.◌∷◌ (to_ascii_lower c) (to_ascii_lowercase s)

cons_first : Char → List String → List String
cons_first c [] = String.◌∷◌ c "" ∷ []
cons_first c (p ∷ ps) = String.◌∷◌ c p ∷ ps

-- `s.split(c)`.
unfoldable pub split : ℕ → String → List String
unfolding cons_first
split k String.[] = "" ∷ []
split k (String.◌∷◌ c s) = if code c == k then "" ∷ split k s else cons_first c (split k s)

trim_test : trim " v1.2 " ≡ "v1.2"
unfolding trim
trim_test = refl

split_test : split_once b'_' "ab_cd_e" ≡ some ("ab", "cd_e")
unfolding split_once
split_test = refl

lowercase_test : to_ascii_lowercase "AbZ9" ≡ "abz9"
unfolding to_ascii_lowercase
lowercase_test = refl

split_all_test : split b'/' "/a/b" ≡ "" ∷ "a" ∷ "b" ∷ []
unfolding split
split_all_test = refl

first_line_test : first_line "a\nb" ≡ "a"
unfolding first_line strip_prefix
first_line_test = refl
