-- ===== src/Files/Descriptors.antt =====
-- The file descriptors of a task (sys/tarfs.c). A descriptor is the number `fd`, and `none` is -1. Where
-- opening writes behind the array of descriptors the outcome is the outer `none`; reading and closing
-- are modelled for the numbers that the array has.
use late_os.Common.{
  ℕ, zero, suc, ◌+◌, ◌-◌, ◌%◌, ◌^◌, ◌==◌, Option, none, some, List, [], ◌∷◌, if◌then◌else◌, ltb,
  update,
}
use late_os.Process.{File, Task, Kernel}
use late_os.Text.{to_binary_file}
use late_os.Files.{Archive, name, same, size_field}
use late_os.Files.Paths.{is_file_exists, is_valid_directory}

abbrev pub current : Kernel → Task
current k = k.task_queue k.current_task

abbrev pub set_current : Task → Kernel → Kernel
set_current task k = record k { task_queue = update k.task_queue k.current_task task }

abbrev pub set_file : ℕ → File → Task → Task
set_file fd file task = record task { fd = update task.fd fd file }

-- The number of places of `fd`. The code does not compare `fd_c` with it.
abbrev pub file_count : ℕ
file_count = 100

unfoldable pub set_current_task_val :
    (fuel : ℕ) → Archive → (setflag header flags : ℕ) → Kernel → Option (ℕ × Kernel)
set_current_task_val fuel archive setflag header flags k =
    let task = current k in
    let counter = task.fd_c + 3 in
    let file = task.fd counter in
    let opened : Option (ℕ × Kernel) =
      elim (to_binary_file fuel archive.memory (header + size_field)) [
        | none ↦ none
        | some size ↦ some (
          counter,
          set_current
              (record (set_file counter
                (record file {
                  file_name = name archive header;
                  entry = 0;
                  aval = 1;
                  size = size;
                  address = header;
                  fd = counter;
                  flags = if setflag == 10 then file.flags else flags;
                })
                task) { fd_c = task.fd_c + 1 })
              k,
        )
      ] in
    if ltb counter file_count then opened else none

unfoldable pub open_dir_file :
    (fuel : ℕ) → Archive → (path : List ℕ) → Kernel → Option (Option ℕ × Kernel)
unfolding set_current_task_val
open_dir_file fuel archive path k =
    let task = current k in
    let counter = task.fd_c + 3 in
    let root =
      record (set_file counter (record (task.fd counter) { entry = 0; file_name = b'/' ∷ [] })
        task) { fd_c = task.fd_c + 1 } in
    let other : Option (Option ℕ × Kernel) = elim (is_valid_directory archive task.curr_dir path) [
      | none ↦ some (none, k)
      | some (i, header) ↦ elim (set_current_task_val fuel archive 10 header 0 k) [
        | none ↦ none
        | some (fd, k') ↦ some (some fd, k')
      ]
    ] in
    if same path (b'/' ∷ [])
    then (if ltb counter file_count then some (some counter, set_current root k) else none)
    else other

unfoldable pub open_tarfs_file :
    (fuel : ℕ) → Archive → (path : List ℕ) → (flags : ℕ) → Kernel → Option (Option ℕ × Kernel)
unfolding set_current_task_val
open_tarfs_file fuel archive path flags k =
    elim (is_file_exists archive (current k).curr_dir path) [
      | none ↦ some (none, k)
      | some (i, header) ↦ elim (set_current_task_val fuel archive 2 header flags k) [
        | none ↦ none
        | some (fd, k') ↦ some (some fd, k')
      ]
    ]

-- The loop of `setFilePath`, from `i` on with `n` bytes to go.
unfoldable pub copy_header : (n : ℕ) → (ℕ → ℕ) → (path header i : ℕ) → (ℕ → ℕ)
copy_header zero memory path header i = memory
copy_header (suc n) memory path header i =
    copy_header n (update memory (path + i) (memory (header + 1 + i))) path header (i + 1)

-- `count` is an `int`, given by its 32 bits: a negative one copies nothing.
unfoldable pub set_file_path : (ℕ → ℕ) → (path count header : ℕ) → (ℕ → ℕ)
unfolding copy_header
set_file_path memory path count header =
    if ltb count (2 ^ 31)
    then update (copy_header count memory path header 0) (path + count) 0
    else update memory (path + count - 2 ^ 32) 0

-- The result and the memory. A negative `count` extends to 64 bits for the comparison.
unfoldable pub read_tarfs_file : (ℕ → ℕ) → (fd buf count : ℕ) → Kernel → ℕ × (ℕ → ℕ)
unfolding set_file_path
read_tarfs_file memory fd buf count k =
    let file = (current k).fd fd in
    let extended = if ltb count (2 ^ 31) then count else count + 2 ^ 64 - 2 ^ 32 in
    let count' = if ltb file.size extended then file.size % 2 ^ 32 else count in
    (count', set_file_path memory buf count' file.address)

-- The result is the field `fd`.
unfoldable pub close_tarfs_file : (fp : ℕ) → Kernel → ℕ × Kernel
close_tarfs_file fp k =
    let task = current k in
    let file = task.fd fp in
    (
      file.fd,
      set_current
          (set_file fp (record file { file_name = []; offset = 0; size = 0; aval = 0 }) task) k,
    )

-- A program that opens a file and closes it again, `n` times.
unfoldable pub open_close :
    (n fuel : ℕ) → Archive → (path : List ℕ) → (flags : ℕ) → Kernel → Option Kernel
open_close zero fuel archive path flags k = some k
open_close (suc n) fuel archive path flags k = elim (open_tarfs_file fuel archive path flags k) [
  | none ↦ none
  | some (none, k') ↦ none
  | some (some fd, k') ↦ open_close n fuel archive path flags (close_tarfs_file fd k').1
]
