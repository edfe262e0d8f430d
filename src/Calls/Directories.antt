-- ===== src/Calls/Directories.antt =====
-- Directories in the C library (opendir, readdir and closedir in libc/file.c), on the handler's operations
-- on files.
use late_os.Common.{ℕ, ◌-◌, ◌^◌, ◌==◌, Option, none, some, List, if◌then◌else◌, update}
use late_os.Calls.{Registers, int, decode}
use late_os.Calls.Library.{open_dir_file, direccall, close, registers}
use late_os.Calls.Serve.{Machine, text, serve}

-- `dir`: the field `fd` of each place, and the name that was opened there. A DIR is the index of a place.
pub record Directories : Type 0 where
  pub fd : ℕ → ℕ
  pub d_name : ℕ → List ℕ

-- The calls; `r` are the registers in front of each. Where the place `d[fd].d_name` lies is a parameter.
module _ (fuel : ℕ) (r : Registers) (d_name : ℕ → ℕ) where
  unfoldable pub opendir : (name : ℕ) → Directories → Machine → Option (ℕ × Directories × Machine)
  opendir name dirs m = elim (serve fuel (decode (registers (open_dir_file name) r)) m) [
    | none ↦ none
    | some (ret_val, m') ↦
        let fd = int ret_val in
        let index = if fd == 2 ^ 32 - 1 then 0 else fd in
        some (
          index,
          record { fd = update dirs.fd index fd; d_name = update dirs.d_name index (text m' name) },
          m',
        )
  ]

  -- The address of the name of the entry; the inner `none` is NULL.
  unfoldable pub readdir : (pointer : ℕ) → Directories → Machine → Option (Option ℕ × Machine)
  readdir pointer dirs m =
      let fd = dirs.fd pointer in
      elim (serve fuel (decode (registers (direccall fd (d_name fd) 4096) r)) m) [
        | none ↦ none
        | some (ret_val, m') ↦ some (if int ret_val == 0 then none else some (d_name fd), m')
      ]

  unfoldable pub closedir : (pointer : ℕ) → Directories → Machine → Option (ℕ × Machine)
  closedir pointer dirs m = elim (serve fuel (decode (registers (close (dirs.fd pointer)) r)) m) [
    | none ↦ none
    | some (ret_val, m') ↦ some (int ret_val, m')
  ]
