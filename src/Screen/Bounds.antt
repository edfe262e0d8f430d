-- ===== src/Screen/Bounds.antt =====
-- The cursor stays inside the 25 rows of the screen, and what typing and erasing do to it.
use late_os.Common.{ℕ, ◌+◌, ◌*◌, ◌≤◌, ◌<◌, ◌≡◌, ◌≢◌, arith, ◌==◌, update, if◌then◌else◌}
use late_os.Screen.{Screen, base, max_width, write_to_sbush, backspace}

-- `temp2` is at most `to_left` cells into the row `num_lines`, or into row 24 once the screen is full.
pub record InScreen (s : Screen) : Type 0 where
  pub low : base ≤ s.temp2
  pub column : s.to_left ≤ 79
  pub row : s.num_lines ≤ 23
  pub high : s.num_lines < 23 → s.temp2 ≤ base + 160 * s.num_lines + 2 * s.to_left
  pub last : s.temp2 ≤ base + 160 * 24 + 2 * s.to_left

-- Every character leaves the cursor in the screen: also line ends, and writing in the last cell.
pub write_to_sbush-InScreen : (ch : ℕ) (s : Screen) → InScreen s → InScreen (write_to_sbush ch s)
unfolding write_to_sbush
write_to_sbush-InScreen ch s v = ground arith

-- In the screen the next character goes to one of the 2000 cells.
pub InScreen-bound : (s : Screen) → InScreen s → s.temp2 < base + 25 * (2 * max_width)
InScreen-bound s v = omega arith

-- An ordinary character typed before column 79 and erased again: the cursor and both counters are as
-- before, the character's cell holds a blank, and no other byte has changed.
pub backspace-write_to_sbush :
    (ch : ℕ) (s : Screen)
    → ch ≢ b'\n'
    → ch ≢ b'\r'
    → s.to_left < 79
    → let t = backspace (write_to_sbush ch s) in
      (t.temp2 ≡ s.temp2)
      × (t.to_left ≡ s.to_left)
      × (t.num_lines ≡ s.num_lines)
      × ((a : ℕ) → t.memory a ≡ (if s.temp2 == a then b' ' else s.memory a))
unfolding backspace write_to_sbush update
backspace-write_to_sbush ch s n r l = (ground arith, ground arith, ground arith, λ a. ground arith)
