-- ===== src/Screen/Tests.antt =====
-- The screen behind a clear, with its last line full, and numbers that are printed.
use late_os.Common.{ℕ, ◌+◌, ◌*◌, ◌≡◌, refl, arith, ◌==◌, if◌then◌else◌, some}
use late_os.Common.Int.{pos}
use late_os.Screen.{Screen, base, roll_up, write_to_sbush, backspace}
use late_os.Screen.Bounds.{InScreen, write_to_sbush-InScreen, backspace-write_to_sbush}
use late_os.Screen.Scroll.{cell, roll_up-rows}
use late_os.Screen.Format.{number_d}
use late_os.Screen.Clock.{draw_clock, clock_end, Clock, draw_clock-Clock}
use late_os.Screen.Digits.{number_d-fifths}

abbrev dots : ℕ → ℕ
dots a = b'.'

-- The cursor is behind the last cell of row 23.
abbrev last_row : Screen
last_row = record { memory = dots; temp2 = base + 160 * 23 + 2 * 79; to_left = 79; num_lines = 23 }

abbrev first_row : Screen
first_row = record { memory = dots; temp2 = base + 6; to_left = 3; num_lines = 0 }

last_row-InScreen : InScreen last_row
last_row-InScreen = record {
  low = omega arith;
  column = omega arith;
  row = omega arith;
  high = λ h. absurd (omega arith);
  last = omega arith;
}

write_to_sbush-InScreen_example : InScreen (write_to_sbush b'x' last_row)
write_to_sbush-InScreen_example = write_to_sbush-InScreen b'x' last_row last_row-InScreen

backspace-write_to_sbush_example :
    ((backspace (write_to_sbush b'x' first_row)).temp2 ≡ base + 6)
    × ((backspace (write_to_sbush b'x' first_row)).to_left ≡ 3)
    × ((backspace (write_to_sbush b'x' first_row)).num_lines ≡ 0)
    × ((a : ℕ)
        → (backspace (write_to_sbush b'x' first_row)).memory a
          ≡ (if (base + 6) == a then b' ' else b'.'))
backspace-write_to_sbush_example =
    backspace-write_to_sbush b'x' first_row (λ e. absurd (omega arith)) (λ e. absurd (omega arith))
      (omega arith)

roll_up-rows_example :
    (roll_up dots (cell 5 7) ≡ b'.')
    × (roll_up dots (cell 23 7) ≡ 0)
    × (roll_up dots (cell 24 7) ≡ b'.')
roll_up-rows_example = roll_up-rows dots 5 7 (omega arith) (omega arith)

-- 10 and 14 are both printed as 2.
ten_as_fourteen : number_d (pos 10) ≡ number_d (pos 14)
ten_as_fourteen = number_d-fifths 9 13 refl

draw_clock-Clock_example :
    (screen' : ℕ → ℕ) × (n : ℕ) × (draw_clock 107 (λ a. 32) ≡ some screen')
    × Clock n clock_end 107 (λ a. 32) screen'
draw_clock-Clock_example = draw_clock-Clock 107 (λ a. 32) (omega arith)
