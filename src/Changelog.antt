-- ===== src/Changelog.antt =====
-- src/changelog.rs: the state of the terminal viewer and the wrapping of lines.
pub mod Viewer
pub mod Wrapping
use Prim.Native.Char.{code}
use Prim.Native.String
use update_delivery_system.Prelude.{
  ℕ, zero, suc, ◌+◌, ◌-◌, ◌*◌, min, max, String, Bool, true, false, Option, none, some, unwrap_or,
  List, [], ◌∷◌, ◌++◌, length, leb, ltb, if◌then◌else◌,
}
use update_delivery_system.Prelude.Words.{saturating_add}
use update_delivery_system.Prelude.Text.{
  is_empty, is_whitespace, char_count, trim_start, trim_end, take_chars, drop_chars,
}

pub record ViewerState : Type 0 where
  pub section : ℕ
  pub scroll : ℕ

-- A scroll distance of type `isize` by its sign and magnitude.
pub data Delta : Type 0 where
  forward backward : ℕ → Delta

unfoldable pub older : ℕ → ViewerState → ViewerState
older count state = record { section = min (state.section + 1) (count - 1); scroll = 0 }

unfoldable pub newer : ViewerState → ViewerState
newer state = record { section = state.section - 1; scroll = 0 }

-- `usize::saturating_add_signed`.
abbrev saturating_add_signed : ℕ → Delta → ℕ
saturating_add_signed n (forward d) = saturating_add n d
saturating_add_signed n (backward d) = n - d

unfoldable pub scroll_by : Delta → ℕ → ViewerState → ViewerState
scroll_by delta max_scroll state = record state {
  scroll = min (saturating_add_signed state.scroll delta) max_scroll;
}

pub data KeyCode : Type 0 where
  left right up down page_up page_down home end other : KeyCode

-- The `match` on a pressed key that does not quit.
unfoldable pub press : ℕ → ℕ → ℕ → KeyCode → ViewerState → ViewerState
press count body_height max_scroll left state = older count state
press count body_height max_scroll right state = newer state
press count body_height max_scroll up state = scroll_by (backward 1) max_scroll state
press count body_height max_scroll down state = scroll_by (forward 1) max_scroll state
press count body_height max_scroll page_up state = scroll_by (backward body_height) max_scroll state
press count body_height max_scroll page_down state =
    scroll_by (forward body_height) max_scroll state
press count body_height max_scroll home state = record state { scroll = 0 }
press count body_height max_scroll end state = record state { scroll = max_scroll }
press count body_height max_scroll other state = state

-- The scroll limit that one turn of the viewer's loop computes from the wrapped lines.
abbrev pub scroll_limit : ℕ → ℕ → ℕ
scroll_limit lines height = lines - (height - 3)

-- One turn of the loop: the section has `lines` wrapped lines, and the terminal has `height` rows.
unfoldable pub turn : ℕ → ℕ → ℕ → KeyCode → ViewerState → ViewerState
turn count lines height key state =
    press count (height - 3) (scroll_limit lines height) key
      (record state { scroll = min state.scroll (scroll_limit lines height) })

-- `char::len_utf8`.
abbrev pub len_utf8 : ℕ → ℕ
len_utf8 c = if ltb c 0x80 then 1 else if ltb c 0x800 then 2 else if ltb c 0x10000 then 3 else 4

abbrev last_of : Option ℕ → Bool → ℕ → Option ℕ
last_of (some p) here position = some p
last_of none true position = some position
last_of none false position = none

-- The last white space whose byte index is at most `width`, as a number of characters.
unfoldable pub last_break : ℕ → ℕ → ℕ → String → Option ℕ
last_break width index position String.[] = none
last_break width index position (String.◌∷◌ c s) =
    let rest = last_break width (index + len_utf8 (code c)) (suc position) s in
    if leb index width then last_of rest (is_whitespace (code c)) position else none

-- `rest[..split]` and `rest[split..]`.
-- Where a line that is longer than `width` is split.
abbrev pub split_of : ℕ → String → ℕ
split_of width rest = unwrap_or (last_break width 0 0 rest) width

-- The inner loop with a limit on its turns; `none` when the limit is reached.
unfoldable pub wrap_line : ℕ → ℕ → String → Option (List String)
wrap_line zero width rest = if ltb width (char_count rest) then none else some (rest ∷ [])
wrap_line (suc fuel) width rest =
    let more = wrap_line fuel width (trim_start (drop_chars (split_of width rest) rest)) in
    if ltb width (char_count rest)
    then elim more [
      | none ↦ none
      | some lines ↦ some (trim_end (take_chars (split_of width rest) rest) ∷ lines)
    ]
    else some (rest ∷ [])

abbrev append_lines : Option (List String) → Option (List String) → Option (List String)
append_lines (some xs) (some ys) = some (xs ++ ys)
append_lines _ _ = none

-- The lines of the text are given; a line takes at most as many turns as it has characters.
unfoldable pub wrap_all : ℕ → List String → Option (List String)
wrap_all width [] = some []
wrap_all width (line ∷ lines) =
    append_lines (wrap_line (char_count line) width line) (wrap_all width lines)

unfoldable pub wrapped_lines : ℕ → List String → Option (List String)
wrapped_lines width lines = wrap_all (max width 1) lines
