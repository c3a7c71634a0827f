-- ===== src/Tests/Changelog.antt =====
-- src/changelog.rs at concrete inputs.
use update_delivery_system.Prelude.{◌<◌, ◌≤◌, ◌≡◌, refl, max, some, List, [], ◌∷◌, String, arith}
use update_delivery_system.Prelude.Text.{
  take_chars, drop_chars, char_count, trim_start, trim_end, is_whitespace,
}
use update_delivery_system.Changelog.{
  ViewerState, left, down, page_down, turn, scroll_limit, wrapped_lines, wrap_all, wrap_line,
  last_break,
}
use update_delivery_system.Changelog.Viewer.{Session, view, view_stays_in_bounds}
use update_delivery_system.Changelog.Wrapping.{Fits, wrapped_lines-Fits}

abbrev opened : ViewerState
opened = record { section = 0; scroll = 0 }

abbrev session : Session
session = (left, 40, 20) ∷ (page_down, 30, 10) ∷ (left, 30, 10) ∷ []

in_first : 0 < 2
in_first = omega arith

view_stays_in_bounds_example :
    ((turn 2 5 7 down (view 2 session opened)).section < 2)
    × ((turn 2 5 7 down (view 2 session opened)).scroll ≤ scroll_limit 5 7)
view_stays_in_bounds_example = view_stays_in_bounds 2 session down 5 7 opened in_first

abbrev paragraph : List String
paragraph = "one two three" ∷ "" ∷ "abcdef" ∷ []

wrapped_lines-Fits_example : Fits (max 5 1) (wrapped_lines 5 paragraph)
wrapped_lines-Fits_example = wrapped_lines-Fits 5 paragraph

wrapped_paragraph :
    wrapped_lines 5 paragraph ≡ some ("one" ∷ "two" ∷ "three" ∷ "" ∷ "abcde" ∷ "f" ∷ [])
unfolding wrapped_lines wrap_all wrap_line last_break take_chars drop_chars char_count trim_start
    trim_end is_whitespace
wrapped_paragraph = refl
