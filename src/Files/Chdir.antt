-- ===== src/Files/Chdir.antt =====
-- Changing the directory (chdir in sys/process.c).
use late_os.Common.{
  ℕ, zero, suc, ◌+◌, ◌-◌, ◌≡◌, refl, sym, ap, ap₂, subst, ◌∙◌, inl, inr, Bool, true, false, Option,
  none, some, some-injective, List, [], ◌∷◌, ◌++◌, All, arith, ◌==◌, Bool-cases, length, ◌&&◌,
  Option-cases, length-append, append_assoc, append-nil, eq→==,
}
use late_os.Process.{Kernel}
use late_os.Files.{Archive, chars, name, same, find_header, check_file}
use late_os.Files.Paths.{derive_relative, is_file_exists, is_valid_directory, chdir, set_dir}
use late_os.Files.Moves.{flat, path_of, go, IsName, AreMoves, IsRelative, derive_relative-path_of}

same→eq : (xs ys : List ℕ) → same xs ys ≡ true → xs ≡ ys
same→eq [] [] h = refl
same→eq (x ∷ xs) (y ∷ ys) h =
    let r : xs ≡ ys = same→eq xs ys (ground arith) in let e : x ≡ y = ground arith in cc
same→eq [] (y ∷ ys) h = absurd cc
same→eq (x ∷ xs) [] h = absurd cc

find_header-name :
    (archive : Archive) (i : ℕ) (path headers : List ℕ) (found : ℕ × ℕ)
    → find_header archive i path headers ≡ some found
    → path ≡ name archive found.1
unfolding find_header
find_header-name archive i path [] found h = absurd cc
find_header-name archive i path (header ∷ headers) found h =
    elim (Bool-cases (same path (name archive header))) [
      | inl e ↦
          let here : some (i, header) ≡ some found = sym (rw e refl) ∙ h in
          same→eq path (name archive header) e
          ∙ ap (λ f. name archive f.1) (some-injective (i, header) found here)
      | inr e ↦ find_header-name archive (i + 1) path headers found (sym (rw e refl) ∙ h)
    ]

-- The byte behind `cs` in a name that goes on.
chars-at :
    (n : ℕ) (memory : ℕ → ℕ) (at : ℕ) (cs : List ℕ) (c : ℕ) (ds : List ℕ)
    → chars n memory at ≡ cs ++ c ∷ ds
    → memory (at + length cs) ≡ c
unfolding chars
chars-at zero memory at [] c ds h = absurd cc
chars-at zero memory at (d ∷ cs) c ds h = absurd cc
chars-at (suc n) memory at [] c ds h =
    let e : memory at ≡ c = ground arith in
    let p : at + length {A = ℕ} [] ≡ at = omega arith in ap memory p ∙ e
chars-at (suc n) memory at (d ∷ cs) c ds h =
    let rest : chars n memory (at + 1) ≡ cs ++ c ∷ ds = ground arith in
    let p : at + length (d ∷ cs) ≡ at + 1 + length cs = omega arith in
    ap memory p ∙ chars-at n memory (at + 1) cs c ds rest

-- A listed file whose name is a path of directories is a directory.
is_directory :
    (archive : Archive) (dir : List ℕ) (dirs : List (List ℕ)) (i header : ℕ)
    → flat (dir ∷ dirs) ≡ name archive header
    → (archive.memory (header + length (name archive header) - 1) == b'/') ≡ true
is_directory archive dir dirs i header h =
    let cs = flat dirs ++ dir in
    let e : name archive header ≡ cs ++ b'/' ∷ [] =
      sym h ∙ sym (append_assoc (flat dirs) dir (b'/' ∷ [])) in
    let n : length (name archive header) ≡ length cs + 1 =
      ap length e ∙ length-append cs (b'/' ∷ []) in
    let c = chars-at 512 archive.memory header cs b'/' [] e in
    let p : header + length (name archive header) - 1 ≡ header + length cs = omega arith in
    eq→== _ _ (ap archive.memory p ∙ c)

derived :
    (curr_dir : List ℕ) (dirs : List (List ℕ)) (moves : List (Option (List ℕ)))
    → curr_dir ≡ b'/' ∷ flat dirs
    → All IsName dirs
    → AreMoves moves
    → IsRelative (path_of moves)
    → derive_relative curr_dir (path_of moves) ≡ flat (go dirs moves)
derived curr_dir dirs moves c d m r =
    let plain = append-nil (path_of moves) in
    ap₂ derive_relative c (sym plain)
    ∙ (derive_relative-path_of dirs moves [] d m tt (subst IsRelative (sym plain) r)).0
    ∙ append-nil (flat (go dirs moves))

same-longer : (xs ys : List ℕ) (y : ℕ) (b : Bool) → b && same (xs ++ y ∷ ys) [] ≡ false
same-longer [] ys y true = refl
same-longer [] ys y false = refl
same-longer (x ∷ xs) ys y true = refl
same-longer (x ∷ xs) ys y false = refl

flat-root :
    (dir : List ℕ) (dirs : List (List ℕ)) (b : Bool) → b && same (flat (dir ∷ dirs)) [] ≡ false
flat-root dir dirs b =
    rw (← append_assoc (flat dirs) dir (b'/' ∷ [])) (same-longer (flat dirs ++ dir) [] b'/' b)

-- What `chdir` makes, in the directory of the path `dirs`, of a path of names and "../" without a '/' in
-- front that leads to the directory `dir` in `dirs'`: when one of the first 32 files has the name of that
-- directory, it becomes the current directory, otherwise nothing is changed and -1 is returned. No name
-- has a '/' or two dots side by side.
pub chdir-path_of :
    (archive : Archive) (k : Kernel) (dirs : List (List ℕ)) (moves : List (Option (List ℕ)))
    (dir : List ℕ) (dirs' : List (List ℕ))
    → (k.task_queue k.current_task).curr_dir ≡ b'/' ∷ flat dirs
    → All IsName dirs
    → AreMoves moves
    → IsRelative (path_of moves)
    → go dirs moves ≡ dir ∷ dirs'
    → chdir archive (path_of moves) k ≡ (elim (check_file archive (flat (dir ∷ dirs'))) [
      | none ↦ (false, k)
      | some _ ↦ (true, set_dir (b'/' ∷ flat (dir ∷ dirs')) k)
    ])
unfolding chdir is_valid_directory is_file_exists check_file
chdir-path_of archive k dirs moves dir dirs' c d m r g =
    let found = check_file archive (flat (dir ∷ dirs')) in
    let e = derived _ dirs moves c d m r ∙ ap flat g in
    elim (Option-cases found) [
      | inl n ↦ rw (e, flat-root dir dirs' (same _ _), n) refl
      | inr ((i, header), h) ↦
          rw (e, flat-root dir dirs' (same _ _), h)
            (rw (is_directory archive dir dirs' i header (find_header-name archive 0 _ _ _ h), e)
              refl)
    ]
