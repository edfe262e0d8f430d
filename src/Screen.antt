-- ===== src/Screen.antt =====
-- The text screen (sys/kprintf.c): video memory, the cursor, and the output of one character.
--
-- `memory` is indexed by address, and `temp2` is the address that the next character goes to.
pub mod Bounds
pub mod Scroll
pub mod Clock
pub mod Format
pub mod Digits
pub mod Tests
use late_os.Common.{ℕ, zero, suc, ◌+◌, ◌-◌, ◌*◌, ◌==◌, ◌&&◌, not, if◌then◌else◌, update}

-- `kernbase + videomem`
abbrev pub base : ℕ
base = 0xffffffff800b8000

abbrev pub max_width : ℕ
max_width = 80

abbrev pub max_height : ℕ
max_height = 24

pub record Screen : Type 0 where
  pub memory : ℕ → ℕ
  pub temp2 : ℕ
  pub to_left : ℕ
  pub num_lines : ℕ

-- One cell blanked: the character at the cursor, and the byte in front of it.
unfoldable pub clear_cells : ℕ → (ℕ → ℕ) → ℕ → ℕ → ℕ
clear_cells zero memory temp2 = memory
clear_cells (suc n) memory temp2 =
    clear_cells n (update (update memory temp2 b' ') (temp2 - 1) 0x07) (temp2 + 2)

-- `clearScreen`: (maxheight + 1) * maxwidth cells.
unfoldable pub clear_screen : Screen → Screen
unfolding clear_cells
clear_screen s = record {
  memory = clear_cells ((max_height + 1) * max_width) s.memory base;
  temp2 = base;
  to_left = 0;
  num_lines = 0;
}

-- Cells `from`, `from` + 1, … of a row: `n` characters are copied from the row below.
unfoldable pub copy_cells : ℕ → ℕ → (ℕ → ℕ) → ℕ → ℕ
copy_cells zero prev memory = memory
copy_cells (suc n) prev memory =
    copy_cells n (prev + 2) (update memory prev (memory (prev + max_width * 2)))

unfoldable pub blank_cells : ℕ → ℕ → (ℕ → ℕ) → ℕ → ℕ
blank_cells zero address memory = memory
blank_cells (suc n) address memory = blank_cells n (address + 2) (update memory address 0)

-- `rollUP`: rows 1 to 24 move up, row 23 is blanked. Its `temp2` is a local variable.
unfoldable pub roll_up : (ℕ → ℕ) → ℕ → ℕ
roll_up memory =
    blank_cells max_width (base + max_width * 2 * (max_height - 1))
      (copy_cells (max_height * max_width) base memory)

-- `writeToSbush`
unfoldable pub new_line : Screen → Screen
new_line s =
    let moved = record s { temp2 = base + 2 * (max_width * (s.num_lines + 1)); to_left = 0 } in
    if s.num_lines == max_height - 1
    then record moved { memory = roll_up s.memory }
    else record moved { num_lines = s.num_lines + 1 }

-- The line break behind column 79, and the count of columns otherwise.
unfoldable pub advance : Screen → Screen
advance s =
    if (s.to_left == 79) && (s.num_lines == max_height - 1)
    then record s { memory = roll_up s.memory; temp2 = base + max_width * 2 * 22; to_left = 0 }
    else if (s.to_left == 79) && not (s.num_lines == max_height - 1)
    then record s { num_lines = s.num_lines + 1; to_left = 0 }
    else record s { to_left = s.to_left + 1 }

unfoldable pub write_to_sbush : ℕ → Screen → Screen
unfolding new_line advance
write_to_sbush ch s =
    if ch == b'\n'
    then new_line s
    else if ch == b'\r'
    then advance (record s { temp2 = base + 2 * (max_width * s.num_lines); to_left = 0 })
    else advance (record s { memory = update s.memory s.temp2 ch; temp2 = s.temp2 + 2 })

unfoldable pub backspace : Screen → Screen
backspace s =
    if s.to_left == 0
    then s
    else let t = write_to_sbush b' ' (record s { to_left = s.to_left - 1; temp2 = s.temp2 - 2 }) in
      record t { to_left = t.to_left - 1; temp2 = t.temp2 - 2 }
