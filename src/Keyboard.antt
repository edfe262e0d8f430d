-- ===== src/Keyboard.antt =====
-- The keyboard (sys/keyboard.c): the interrupt that collects scan codes into lines, and the reader
-- that takes a line.
pub mod Lines
pub mod Erasing
pub mod Tests
use late_os.Common.{
  ℕ, zero, suc, ◌+◌, ◌-◌, Bool, true, false, Option, none, some, List, [], ◌∷◌, ◌==◌, ◌||◌, ltb,
  if◌then◌else◌, update,
}
use late_os.Screen.{Screen, write_to_sbush, backspace}
use late_os.Process.{Kernel, State, running}
use late_os.Process.Wait.{set_state}
use late_os.Process.Timer.{wake_process}

-- `code_map`: the character without and with shift, by the scan code.
abbrev pub code_map : List (ℕ × ℕ)
code_map =
    (0, 0)
    ∷ (0, 0)
    ∷ (b'1', b'!')
    ∷ (b'2', b'@')
    ∷ (b'3', b'#')
    ∷ (b'4', b'$')
    ∷ (b'5', b'%')
    ∷ (b'6', b'^')
    ∷ (b'7', b'&')
    ∷ (b'8', b'*')
    ∷ (b'9', b'(')
    ∷ (b'0', b')')
    ∷ (b'-', b'_')
    ∷ (b'=', b'+')
    ∷ (8, 8)
    ∷ (9, 9)
    ∷ (b'q', b'Q')
    ∷ (b'w', b'W')
    ∷ (b'e', b'E')
    ∷ (b'r', b'R')
    ∷ (b't', b'T')
    ∷ (b'y', b'Y')
    ∷ (b'u', b'U')
    ∷ (b'i', b'I')
    ∷ (b'o', b'O')
    ∷ (b'p', b'P')
    ∷ (b'[', b'{')
    ∷ (b']', b'}')
    ∷ (b'^', b'M')
    ∷ (b' ', b'^')
    ∷ (b'a', b'A')
    ∷ (b's', b'S')
    ∷ (b'd', b'D')
    ∷ (b'f', b'F')
    ∷ (b'g', b'G')
    ∷ (b'h', b'H')
    ∷ (b'j', b'J')
    ∷ (b'k', b'K')
    ∷ (b'l', b'L')
    ∷ (b';', b':')
    ∷ (39, 34)
    ∷ (b'`', b'~')
    ∷ (0, 0)
    ∷ (92, b'|')
    ∷ (b'z', b'Z')
    ∷ (b'x', b'X')
    ∷ (b'c', b'C')
    ∷ (b'v', b'V')
    ∷ (b'b', b'B')
    ∷ (b'n', b'N')
    ∷ (b'm', b'M')
    ∷ (b',', b'<')
    ∷ (b'.', b'>')
    ∷ (b'/', b'?')
    ∷ (0, 0)
    ∷ (0, 0)
    ∷ (0, 0)
    ∷ (b' ', b' ')
    ∷ []

unfoldable pub row_at : List (ℕ × ℕ) → ℕ → Option (ℕ × ℕ)
row_at [] i = none
row_at (r ∷ rows) zero = some r
row_at (r ∷ rows) (suc i) = row_at rows i

-- `code_map[code][column]`; `none` outside the table, which has the rows 0 to 57.
unfoldable pub key : ℕ → Bool → Option ℕ
unfolding row_at
key code shift = elim (row_at code_map code) [
  | none ↦ none
  | some (plain, shifted) ↦ some (if shift then shifted else plain)
]

-- The statics of keyboard.c. `inp_str` is indexed without a bound, as the code does.
pub record Keys : Type 0 where
  pub caps : Bool
  pub control_value : Bool
  pub offset : ℕ
  pub str_offset : ℕ
  pub line_count : ℕ
  pub inp_str : ℕ → ℕ

pub record Console : Type 0 where
  pub keys : Keys
  pub screen : Screen

-- `kprintf("%c", c)` and the store behind the typed text.
unfoldable pub type_key : ℕ → Console → Console
type_key c con =
    let k = con.keys in
    record {
      keys = record k { inp_str = update k.inp_str k.str_offset c; str_offset = k.str_offset + 1 };
      screen = write_to_sbush c con.screen;
    }

-- Backspace, code 14: nothing behind the start of the text that was not read.
unfoldable pub erase_key : Console → Console
erase_key con =
    let k = con.keys in
    if k.offset == k.str_offset then con else record {
      keys = record k {
        inp_str = update k.inp_str (k.str_offset - 1) 0;
        str_offset = k.str_offset - 1;
      };
      screen = backspace con.screen;
    }

-- Enter, code 28: `kprintf("\n")`, and a line more.
unfoldable pub enter_key : Console → Console
enter_key con =
    let k = con.keys in
    record {
      keys = record k {
        inp_str = update k.inp_str k.str_offset b'\n';
        line_count = k.line_count + 1;
        str_offset = k.str_offset + 1;
      };
      screen = write_to_sbush b'\n' con.screen;
    }

-- `intWrite` with the scan code that it reads from the port; `none` is a read outside code_map.
unfoldable pub int_write : ℕ → Console → Kernel → Option (Console × Kernel)
int_write code con k =
    let keys = con.keys in
    if ltb 58 code
    then some (con, k)
    else if code == 14
    then some (erase_key con, k)
    else if code == 28
    then some (enter_key con, wake_process k)
    else if code == 29
    then (elim (key code true) [
      | none ↦ none
      | some c ↦ some (type_key c (record con { keys = record keys { control_value = true } }), k)
    ])
    else if (code == 42) || (code == 54)
    then some (record con { keys = record keys { caps = true } }, k)
    else if ltb 0 code
    then (elim (key code (keys.control_value || keys.caps)) [
      | none ↦ none
      | some c ↦ some (
        type_key c (record con { keys = record keys { control_value = false; caps = false } }),
        k,
      )
    ])
    else some (con, k)

-- The scan of `intRead` from `offset` on; the fuel is what is left of the 4096 places. The result is
-- what was copied out, the buffer with the places of that cleared, and the place of the line end.
unfoldable pub scan_line : (fuel start : ℕ) → (ℕ → ℕ) → List ℕ × (ℕ → ℕ) × Option ℕ
scan_line zero start buffer = ([], buffer, none)
scan_line (suc fuel) start buffer =
    let (cs, buffer', end) = scan_line fuel (start + 1) (update buffer start 0) in
    if buffer start == b'\n' then ([], buffer, some start) else (buffer start ∷ cs, buffer', end)

-- One pass of the loop of `intRead`. Behind `missed` and `sleeps` the code calls `schedule` and begins
-- the next pass. The characters are stored with no NUL behind them.
pub data Pass : Type 0 where
  line : List ℕ → Keys → Kernel → Pass
  missed : List ℕ → Keys → Kernel → Pass
  sleeps : Keys → Kernel → Pass

unfoldable pub int_read : Keys → Kernel → Pass
int_read keys k =
    let (cs, buffer, end) = scan_line (4096 - keys.offset) keys.offset keys.inp_str in
    if ltb 0 keys.line_count
    then (elim end [
      | none ↦ missed cs (record keys { inp_str = buffer }) k
      | some e ↦
          line cs
            (record keys { inp_str = buffer; offset = e + 1; line_count = keys.line_count - 1 })
            (set_state running k.current_task k)
    ])
    else sleeps keys (set_state State.sleep k.current_task k)
