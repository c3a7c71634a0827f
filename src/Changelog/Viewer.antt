-- ===== src/Changelog/Viewer.antt =====
-- The viewer of src/changelog.rs stays within the sections and the lines.
use update_delivery_system.Prelude.{ℕ, ◌-◌, ◌≤◌, ◌<◌, List, [], ◌∷◌, arith}
use update_delivery_system.Prelude.Words.{saturating_add}
use update_delivery_system.Changelog.{
  ViewerState, KeyCode, left, right, up, down, page_up, page_down, home, end, other, older, newer,
  scroll_by, press, scroll_limit, turn,
}

-- The keys pressed, with the number of wrapped lines and the height of the terminal at each.
abbrev pub Session : Type 0
Session = List (KeyCode × ℕ × ℕ)

abbrev pub view : ℕ → Session → ViewerState → ViewerState
view count [] state = state
view count ((key, lines, height) ∷ session) state =
    view count session (turn count lines height key state)

press-section :
    (count body_height limit : ℕ) (key : KeyCode) (state : ViewerState)
    → state.section < count
    → (press count body_height limit key state).section < count
unfolding press older newer scroll_by
press-section count body limit left state h = omega arith
press-section count body limit right state h = omega arith
press-section count body limit up state h = h
press-section count body limit down state h = h
press-section count body limit page_up state h = h
press-section count body limit page_down state h = h
press-section count body limit home state h = h
press-section count body limit end state h = h
press-section count body limit other state h = h

press-scroll :
    (count body_height limit : ℕ) (key : KeyCode) (state : ViewerState)
    → state.scroll ≤ limit
    → (press count body_height limit key state).scroll ≤ limit
unfolding press older newer scroll_by saturating_add
press-scroll count body limit left state h = omega arith
press-scroll count body limit right state h = omega arith
press-scroll count body limit up state h = omega arith
press-scroll count body limit down state h = ground arith
press-scroll count body limit page_up state h = omega arith
press-scroll count body limit page_down state h = ground arith
press-scroll count body limit home state h = omega arith
press-scroll count body limit end state h = omega arith
press-scroll count body limit other state h = h

-- When the viewer shows one of the sections, it shows one of them after any keys, whatever the size of
-- the terminal and the number of lines are at each key; and the last key leaves the scroll position
-- within the limit that its turn has computed.
pub view_stays_in_bounds :
    (count : ℕ) (session : Session) (key : KeyCode) (lines height : ℕ) (state : ViewerState)
    → state.section < count
    → ((turn count lines height key (view count session state)).section < count)
      × ((turn count lines height key (view count session state)).scroll
          ≤ scroll_limit lines height)
unfolding turn
view_stays_in_bounds count [] key lines height state h = (
  press-section count (height - 3) (scroll_limit lines height) key _ h,
  press-scroll count (height - 3) (scroll_limit lines height) key _ (omega arith),
)
view_stays_in_bounds count ((k, l, r) ∷ session) key lines height state h =
    view_stays_in_bounds count session key lines height (turn count l r k state)
      (press-section count (r - 3) (scroll_limit l r) k _ h)
