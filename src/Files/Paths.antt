-- ===== src/Files/Paths.antt =====
-- Paths (deriveRelative and the tests on files in sys/tarfs.c, chdir in sys/process.c).
use late_os.Common.{
  ℕ, ◌+◌, ◌-◌, ◌==◌, ◌&&◌, Bool, true, false, Option, none, some, List, [], ◌∷◌, ◌++◌,
  if◌then◌else◌, ltb, update, length,
}
use late_os.Process.{Kernel}
use late_os.Files.{Archive, name, same, check_file}

-- The path that `deriveRelative` has written, the last character first, by how much `pathOffset` is
-- negative, which is when the code writes in front of the buffer, and whether the buffer then starts
-- with a '/' that no step has cleared.
pub record Written : Type 0 where
  pub text : List ℕ
  pub in_front : ℕ
  pub kept : Bool

unfoldable pub write : ℕ → Written → Written
write c w =
    if w.in_front == 0
    then (record { text = c ∷ w.text; in_front = 0; kept = false })
    else record w { in_front = w.in_front - 1 }

-- The loop that clears back to the last '/', which it keeps under `pathOffset`, to be overwritten.
unfoldable pub clear_back : List ℕ → Written
clear_back [] = record { text = []; in_front = 1; kept = false }
clear_back (c ∷ cs) =
    if c == b'/' then (record { text = cs; in_front = 0; kept = true }) else clear_back cs

-- What a ".." does: the last character is cleared, then those back to a '/'.
unfoldable pub previous : Written → Written
unfolding clear_back
previous w = elim w.text [ [] ↦ record w { in_front = w.in_front + 1 } | (c ∷ cs) ↦ clear_back cs ]

-- The loop over `file_path`. The branch of a ".." skips the second dot.
unfoldable pub derive : List ℕ → Written → Written
unfolding write previous
derive [] w = w
derive (c ∷ []) w = write c w
derive (c ∷ d ∷ rest) w =
    let up = derive rest (previous w) in
    let on = derive (d ∷ rest) (write c w) in if (c == b'.') && (d == b'.') then up else on

abbrev pub tail : List ℕ → List ℕ
tail [] = []
tail (c ∷ cs) = cs

-- `file_path`: the path behind its '/', or behind the current directory without its '/'.
unfoldable pub file_path : (curr_dir path : List ℕ) → List ℕ
file_path curr_dir [] = tail curr_dir
file_path curr_dir (c ∷ cs) = if c == b'/' then cs else tail curr_dir ++ c ∷ cs

abbrev pub reverse_onto : List ℕ → List ℕ → List ℕ
reverse_onto [] ys = ys
reverse_onto (x ∷ xs) ys = reverse_onto xs (x ∷ ys)

abbrev pub nothing : Written
nothing = record { text = []; in_front = 0; kept = false }

-- The string in the buffer after the last NULs, at `pathOffset` and behind it.
unfoldable pub finish : Written → List ℕ
finish w = if ltb 1 w.in_front && w.kept then b'/' ∷ [] else reverse_onto w.text []

unfoldable pub derive_relative : (curr_dir path : List ℕ) → List ℕ
unfolding derive file_path finish
derive_relative curr_dir path = finish (derive (file_path curr_dir path) nothing)

-- `isfileexists`: number and header of the file; `none` is the code's -1.
unfoldable pub is_file_exists : Archive → (curr_dir path : List ℕ) → Option (ℕ × ℕ)
is_file_exists archive curr_dir path = check_file archive (derive_relative curr_dir path)

-- `isValidDirectory`: the last byte of the name is a '/'; of an empty name it is the byte in front.
unfoldable pub is_valid_directory : Archive → (curr_dir path : List ℕ) → Option (ℕ × ℕ)
unfolding is_file_exists
is_valid_directory archive curr_dir path = elim (is_file_exists archive curr_dir path) [
  | none ↦ none
  | some (i, header) ↦
      if archive.memory (header + length (name archive header) - 1) == b'/'
      then some (i, header)
      else none
]

abbrev pub set_dir : List ℕ → Kernel → Kernel
set_dir dir k = record k {
  task_queue =
      update k.task_queue k.current_task (record (k.task_queue k.current_task) { curr_dir = dir });
}

-- `chdir`: whether it returns 0, not -1.
unfoldable pub chdir : Archive → (path : List ℕ) → Kernel → Bool × Kernel
chdir archive path k =
    let dir = (k.task_queue k.current_task).curr_dir in
    let derived = derive_relative dir path in
    let change : Bool × Kernel = elim (is_valid_directory archive dir path) [
      | none ↦ (false, k)
      | some _ ↦ (true, set_dir (b'/' ∷ derived) k)
    ] in
    if same (b'.' ∷ b'.' ∷ b'/' ∷ []) path && same derived []
    then (true, set_dir (b'/' ∷ []) k)
    else change
