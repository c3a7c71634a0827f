-- ===== src/Changelog/Wrapping.antt =====
-- The wrapping of src/changelog.rs ends, and its lines fit.
use Prim.Native.Char.{Char, code}
use mathlib.Core.Option.{some-injective}
use update_delivery_system.Prelude.{
  ℕ, zero, suc, ◌+◌, ◌≤◌, ◌≡◌, max, refl, String, Bool, true, false, Option, none, some, unwrap_or,
  List, [], ◌∷◌, ◌++◌, All, All-append, leb, ltb, arith, if◌then◌else◌,
}
use update_delivery_system.Prelude.Text.{
  take_chars, drop_chars, is_whitespace, char_count, trim_start, trim_end,
}
use update_delivery_system.Prelude.Text.Laws.{
  char_count-trim_start, char_count-trim_end, char_count-take_chars, char_count-drop_chars,
}
use update_delivery_system.Changelog.{
  len_utf8, last_of, last_break, split_of, wrap_line, wrap_all, wrapped_lines, append_lines,
}

-- A found break is a position after the first, within the width, since a character has a byte.
last_break_bounds :
    (width index position p : ℕ) (s : String)
    → last_break width index position s ≡ some p
    → (position ≤ p) × (p + index ≤ width + position)
unfolding last_break
last_break_bounds width index position p String.[] e = cc
last_break_bounds width index position p (String.◌∷◌ c s) e =
    go (λ q r. last_break_bounds width (index + len_utf8 (code c)) (suc position) q s r)
      (last_break width (index + len_utf8 (code c)) (suc position) s) refl (leb index width) refl
      (is_whitespace (code c)) e
  where
    rest : Option ℕ
    rest = last_break width (index + len_utf8 (code c)) (suc position) s

    go :
        ((q : ℕ)
          → rest ≡ some q
          → (suc position ≤ q) × (q + (index + len_utf8 (code c)) ≤ width + suc position))
        → (o : Option ℕ) → rest ≡ o
        → (b : Bool) → leb index width ≡ b
        → (w : Bool) → (if b then last_of o w position else none) ≡ some p
        → (position ≤ p) × (p + index ≤ width + position)
    go ih o r false l w e = cc
    go ih none r true l false e = cc
    go ih none r true l true e = (ground arith, ground arith)
    go ih (some q) r true l w e =
        let (low, high) = ih q r in let n = some-injective q p e in (ground arith, ground arith)

last_break_whitespace :
    (width index position : ℕ) (c : Char) (s : String)
    → last_break width index position (String.◌∷◌ c s) ≡ some position
    → is_whitespace (code c) ≡ true
unfolding last_break
last_break_whitespace width index position c s e =
    go (last_break width (index + len_utf8 (code c)) (suc position) s) refl (leb index width)
      (is_whitespace (code c)) refl e
  where
    go :
        (o : Option ℕ)
        → last_break width (index + len_utf8 (code c)) (suc position) s ≡ o
        → (b w : Bool) → is_whitespace (code c) ≡ w
        → (if b then last_of o w position else none) ≡ some position
        → is_whitespace (code c) ≡ true
    go o r b true i e = i
    go o r false false i e = cc
    go none r true false i e = cc
    go (some q) r true false i e =
        let (low, high) =
          last_break_bounds width (index + len_utf8 (code c)) (suc position) q s r in
        let n = some-injective q position e in ground arith

split_of-le : (width : ℕ) (rest : String) → split_of width rest ≤ width
split_of-le width rest = go (last_break width 0 0 rest) refl
  where
    go : (o : Option ℕ) → last_break width 0 0 rest ≡ o → unwrap_or o width ≤ width
    go none e = omega arith
    go (some p) e = let (low, high) = last_break_bounds width 0 0 p rest e in omega arith

-- Each turn shortens the rest of the line.
wrap_progress :
    (width : ℕ) (c : Char) (s : String)
    → 1 ≤ width
    → char_count (trim_start (drop_chars (split_of width (String.◌∷◌ c s)) (String.◌∷◌ c s)))
      ≤ char_count s
wrap_progress width c s h = go (last_break width 0 0 (String.◌∷◌ c s)) refl
  where
    dropped :
        (n : ℕ) → 1 ≤ n → char_count (trim_start (drop_chars n (String.◌∷◌ c s))) ≤ char_count s
    dropped zero k = omega arith
    dropped (suc n) k =
        unfold drop_chars in
        omega (arith, char_count-trim_start (drop_chars n s), char_count-drop_chars n s)

    trimmed :
        is_whitespace (code c) ≡ true → char_count (trim_start (String.◌∷◌ c s)) ≤ char_count s
    trimmed i = unfold trim_start in rw i (char_count-trim_start s)

    go :
        (o : Option ℕ)
        → last_break width 0 0 (String.◌∷◌ c s) ≡ o
        → char_count (trim_start (drop_chars (unwrap_or o width) (String.◌∷◌ c s))) ≤ char_count s
    go none e = dropped width h
    go (some zero) e = unfold drop_chars in trimmed (last_break_whitespace width 0 0 c s e)
    go (some (suc p)) e = dropped (suc p) (omega arith)

none-lines : (xs : List String) → Path (Option (List String)) none (some xs) → ⊥
none-lines xs e = cc

-- The lines that have come out of a wrapping fit in the width.
abbrev pub Fits : ℕ → Option (List String) → Type 0
Fits width result =
    (lines : List String) × (result ≡ some lines) × All (λ line. char_count line ≤ width) lines

wrap_line-Fits :
    (fuel width : ℕ) (rest : String)
    → 1 ≤ width
    → char_count rest ≤ fuel
    → Fits width (wrap_line fuel width rest)
unfolding wrap_line
wrap_line-Fits zero width rest h k = go (ltb width (char_count rest)) refl
  where
    no_room : ltb width (char_count rest) ≡ true → ⊥
    no_room e = ground arith

    go :
        (b : Bool)
        → ltb width (char_count rest) ≡ b
        → Fits width (if b then none else some (rest ∷ []))
    go true e = elim (no_room e) [ ]
    go false e = (rest ∷ [], refl, (ground arith, tt))
wrap_line-Fits (suc fuel) width String.[] h k =
    unfold char_count in ("" ∷ [], ground arith, (omega arith, tt))
wrap_line-Fits (suc fuel) width (String.◌∷◌ c s) h k =
    go (ltb width (char_count line)) refl
      (wrap_line fuel width (trim_start (drop_chars (split_of width line) line)))
      (wrap_line-Fits fuel width (trim_start (drop_chars (split_of width line) line)) h
        (shorter (wrap_progress width c s h)))
  where
    line : String
    line = String.◌∷◌ c s

    first : String
    first = trim_end (take_chars (split_of width (String.◌∷◌ c s)) (String.◌∷◌ c s))

    shorter : {n : ℕ} → n ≤ char_count s → n ≤ fuel
    shorter i = unfold char_count in omega (arith, k)

    first_fits : char_count first ≤ width
    first_fits = omega (
      arith,
      char_count-trim_end (take_chars (split_of width (String.◌∷◌ c s)) (String.◌∷◌ c s)),
      char_count-take_chars (split_of width (String.◌∷◌ c s)) (String.◌∷◌ c s),
      split_of-le width (String.◌∷◌ c s),
    )

    go :
        (b : Bool)
        → ltb width (char_count (String.◌∷◌ c s)) ≡ b
        → (more : Option (List String)) → Fits width more
        → Fits width (
            if b
            then elim more [ none ↦ none | some lines ↦ some (first ∷ lines) ]
            else some (String.◌∷◌ c s ∷ []))
    go false e more f = (String.◌∷◌ c s ∷ [], refl, (ground arith, tt))
    go true e none (lines, i, f) = cc
    go true e (some out) (lines, i, f) =
        (first ∷ out, refl, (first_fits, rw (some-injective out lines i) f))

wrap_all-Fits : (width : ℕ) (lines : List String) → 1 ≤ width → Fits width (wrap_all width lines)
unfolding wrap_all
wrap_all-Fits width [] h = ([], refl, tt)
wrap_all-Fits width (line ∷ lines) h =
    join (wrap_line (char_count line) width line) (wrap_all width lines)
      (wrap_line-Fits (char_count line) width line h (omega arith)) (wrap_all-Fits width lines h)
  where
    join :
        (x y : Option (List String)) → Fits width x → Fits width y → Fits width (append_lines x y)
    join none y (xs, i, f) g = elim (none-lines xs i) [ ]
    join (some x) none f (ys, j, g) = elim (none-lines ys j) [ ]
    join (some x) (some y) (xs, i, f) (ys, j, g) = (
      x ++ y,
      refl,
      All-append (λ line. char_count line ≤ width) x y (rw (some-injective x xs i) f)
          (rw (some-injective y ys j) g),
    )

-- The wrapping of any lines ends, although each line only has as many turns as it has characters, and
-- each line that comes out has at most as many characters as the terminal is wide, or one when it has
-- no width.
pub wrapped_lines-Fits :
    (width : ℕ) (lines : List String) → Fits (max width 1) (wrapped_lines width lines)
unfolding wrapped_lines
wrapped_lines-Fits width lines = wrap_all-Fits (max width 1) lines (omega arith)
