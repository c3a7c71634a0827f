-- ===== src/Config/Address.antt =====
-- The texts that the check of the fleet address in src/config/mod.rs takes for a wildcard address: those
-- that `IpAddr::from_str` of the standard library parses to an unspecified address.
use Prim.Native.Char.{Char}
use update_delivery_system.Prelude.{
  ℕ, ◌+◌, String, Bool, true, false, ◌&&◌, ◌||◌, ◌==◌, leb, str_eq, Option, none, some, List, [],
  ◌∷◌, if◌then◌else◌,
}
use update_delivery_system.Prelude.Text.{is_empty, strip_prefix, split}

-- A group of up to four hexadecimal digits that is zero.
abbrev is_zero_group : String → Bool
is_zero_group part = str_eq part "0" || str_eq part "00" || str_eq part "000" || str_eq part "0000"

abbrev more : ℕ → Option ℕ → Option ℕ
more n none = none
more n (some m) = some (n + m)

-- The number of the groups; an IPv4 address, which stands for two, may be the last where it may occur.
unfoldable pub zero_groups : Bool → List String → Option ℕ
zero_groups v4 [] = some 0
zero_groups v4 (part ∷ parts) =
    let rest = zero_groups v4 parts in
    if is_zero_group part
    then more 1 rest
    else if v4 && str_eq part "0.0.0.0"
    then last parts
    else none
  where
    last : List String → Option ℕ
    last [] = some 2
    last (q ∷ qs) = none

abbrev zero_run : Bool → String → Option ℕ
zero_run v4 text = if is_empty text then some 0 else zero_groups v4 (split b':' text)

head_before : Char → Option (String × String) → Option (String × String)
head_before c none = none
head_before c (some (a, b)) = some (String.◌∷◌ c a, b)

-- The text before the first `::`, and the text after it.
unfoldable pub split_double : String → Option (String × String)
unfolding head_before
split_double String.[] = none
split_double (String.◌∷◌ c s) =
    let rest = split_double s in
    elim (strip_prefix "::" (String.◌∷◌ c s)) [
      | some tail ↦ some ("", tail)
      | none ↦ head_before c rest
    ]

abbrev fits : Option ℕ → Option ℕ → Bool
fits (some head) (some tail) = leb (head + tail) 7
fits _ _ = false

abbrev is_eight : Option ℕ → Bool
is_eight none = false
is_eight (some n) = n == 8

abbrev is_unspecified_v6 : String → Option (String × String) → Bool
is_unspecified_v6 text none = is_eight (zero_run true text)
is_unspecified_v6 text (some (head, tail)) = fits (zero_run false head) (zero_run true tail)

-- `parse::<IpAddr>().ok().is_some_and(|ip| ip.is_unspecified())`.
unfoldable pub is_unspecified : String → Bool
is_unspecified text = str_eq text "0.0.0.0" || is_unspecified_v6 text (split_double text)

abbrev pub is_wildcard : Option String → Bool
is_wildcard none = false
is_wildcard (some host) = is_unspecified host
