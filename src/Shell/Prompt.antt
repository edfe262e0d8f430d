-- ===== src/Shell/Prompt.antt =====
-- The command `cd` on the kernel's file system, and the prompt (changeDirectory and setprompt in
-- bin/sbush/sbush.c).
use late_os.Common.{
  ℕ, ◌≡◌, refl, sym, ap, ◌∙◌, arith, inl, inr, Bool, true, false, Option, none, some, List, [], ◌∷◌,
  ◌++◌, ◌==◌, if◌then◌else◌, All, append_assoc, codes, update_self, Option-cases,
}
use late_os.Process.{Kernel}
use late_os.Process.Areas.{cut_last, get_current_directory}
use late_os.Files.{Archive, same, check_file}
use late_os.Files.Paths.{chdir, set_dir}
use late_os.Files.Moves.{flat, path_of, go, IsName, AreMoves, IsRelative}
use late_os.Files.Chdir.{chdir-path_of}
use late_os.Shell.{Split, ampersand, strtok, cleared}
use late_os.Shell.Commands.{System, Shell, set_prompt, change_directory, run_command, parse_input}
use late_os.Shell.Tokens.{IsWord, line, strtok-Filled}

abbrev pub ends_in_slash : List ℕ → Bool
ends_in_slash [] = false
ends_in_slash (c ∷ []) = c == b'/'
ends_in_slash (c ∷ d ∷ cs) = ends_in_slash (d ∷ cs)

-- What the library's `chdir` (libc/file.c) passes on: the path, with a '/' where it does not end in one.
-- Of an empty path the code reads the byte in front.
abbrev pub with_slash : List ℕ → List ℕ
with_slash path = if ends_in_slash path then path else path ++ b'/' ∷ []

-- The buffer that `getCurrentDirectory` fills.
abbrev pub directory : Kernel → List ℕ
directory k = elim (get_current_directory k) [ none ↦ [] | some path ↦ path ]

-- A system whose directories are the kernel's.
abbrev pub on_kernel : Archive → System Kernel → System Kernel
on_kernel archive system = record system {
  chdir = λ path. chdir archive (with_slash path);
  get_current_directory = directory;
}

cut_last-append : (c : ℕ) (cs : List ℕ) (d : ℕ) → cut_last (c ∷ cs ++ d ∷ []) ≡ c ∷ cs
unfolding cut_last
cut_last-append c [] d = refl
cut_last-append c (e ∷ cs) d = ap (λ l. c ∷ l) (cut_last-append e cs d)

directory-longer :
    (c d : ℕ) (cs : List ℕ) (k : Kernel)
    → (k.task_queue k.current_task).curr_dir ≡ c ∷ cs ++ d ∷ []
    → directory k ≡ c ∷ cs
unfolding get_current_directory cut_last
directory-longer c d [] k h = rw (directory, get_current_directory, h) refl
directory-longer c d (e ∷ cs) k h =
    rw (directory, get_current_directory, h) (ap (λ l. c ∷ l) (cut_last-append e cs d))

set_dir-current :
    (dir : List ℕ) (dirs : List (List ℕ)) (k : Kernel)
    → directory (set_dir (b'/' ∷ flat (dir ∷ dirs)) k) ≡ b'/' ∷ flat dirs ++ dir
set_dir-current dir dirs k =
    let path = b'/' ∷ flat (dir ∷ dirs) in
    directory-longer b'/' b'/' (flat dirs ++ dir) (set_dir path k) (
      ap (λ t. t.curr_dir)
        (update_self k.task_queue k.current_task
          (record (k.task_queue k.current_task) { curr_dir = path }))
      ∙ ap (λ l. b'/' ∷ l) (sym (append_assoc (flat dirs) dir (b'/' ∷ []))))

module _ (archive : Archive) (system : System Kernel) where
  -- The shell after "cd", when the directory is changed, and when it is not.
  abbrev pub changed : List ℕ → List (List ℕ) → Shell Kernel → Shell Kernel
  changed dir dirs shell = record {
    prompt = shell.prompt ++ b':' ∷ b'/' ∷ (flat dirs ++ dir) ++ b'>' ∷ [];
    is_background = false;
    world = set_dir (b'/' ∷ flat (dir ∷ dirs)) shell.world;
  }

  abbrev pub refused : Shell Kernel → Shell Kernel
  refused shell =
      let world = system.puts (codes "Invalid path\n") shell.world in
      record {
        prompt = shell.prompt ++ b':' ∷ directory world ++ b'>' ∷ [];
        is_background = false;
        world = world;
      }

  run_command-cd :
      (parts : Split) (path : List ℕ) (shell : Shell Kernel) (dir : List ℕ) (dirs' : List (List ℕ))
      → parts.strs 0 ≡ some (codes "cd")
      → parts.strs 1 ≡ some path
      → parts.is_background ≡ false
      → chdir archive (with_slash path) shell.world
        ≡ (elim (check_file archive (flat (dir ∷ dirs'))) [
          | none ↦ (false, shell.world)
          | some _ ↦ (true, set_dir (b'/' ∷ flat (dir ∷ dirs')) shell.world)
        ])
      → run_command (on_kernel archive system) parts shell
        ≡ some (elim (check_file archive (flat (dir ∷ dirs'))) [
          | none ↦ refused shell
          | some _ ↦ changed dir dirs' shell
        ])
  unfolding run_command change_directory set_prompt
  run_command-cd parts path shell dir dirs' zeroth first bg cd =
      elim (Option-cases (check_file archive (flat (dir ∷ dirs')))) [
        | inl n ↦
            let e : chdir archive (with_slash path) shell.world ≡ (false, shell.world) =
              cd ∙ rw n refl in
            rw (run_command, zeroth, first, bg, n, ap (λ p. p.0) e, ap (λ p. p.1) e) refl
        | inr (found, h) ↦
            let world = set_dir (b'/' ∷ flat (dir ∷ dirs')) shell.world in
            let e : chdir archive (with_slash path) shell.world ≡ (true, world) = cd ∙ rw h refl in
            rw
              (
                run_command,
                zeroth,
                first,
                bg,
                h,
                ap (λ p. p.0) e,
                ap (λ p. p.1) e,
                set_dir-current dir dirs' shell.world,
              )
              refl
      ]

  cd-IsWord : IsWord (codes "cd")
  cd-IsWord = ground arith

  -- The line "cd word" in the directory of the path `dirs`, where the word is not "&" and, with a '/' that
  -- the library puts behind it if none is there, is a path of names and "../" without a '/' in front that
  -- leads to the directory `dir` in `dirs'`: when one of the first 32 files of the archive has its name, it
  -- is the task's current directory after that, and the prompt is the old prompt, ':', the path of the
  -- directory without its last '/', and '>'; otherwise a message is written, and the prompt is the old one,
  -- ':', the current directory and '>'. No name has a '/' or two dots side by side.
  pub parse_input-cd :
      (shell : Shell Kernel) (word : List ℕ) (dirs : List (List ℕ)) (moves : List (Option (List ℕ)))
      (dir : List ℕ) (dirs' : List (List ℕ))
      → (shell.world.task_queue shell.world.current_task).curr_dir ≡ b'/' ∷ flat dirs
      → All IsName dirs
      → AreMoves moves
      → IsRelative (path_of moves)
      → IsWord word
      → same word ampersand ≡ false
      → with_slash word ≡ path_of moves
      → go dirs moves ≡ dir ∷ dirs'
      → parse_input (on_kernel archive system) (line (codes "cd" ∷ word ∷ [])) shell
        ≡ some (elim (check_file archive (flat (dir ∷ dirs'))) [
          | none ↦ refused shell
          | some _ ↦ changed dir dirs' shell
        ])
  unfolding parse_input
  parse_input-cd shell word dirs moves dir dirs' c d m r w other p g =
      let piped =
        strtok b'|' (line (codes "cd" ∷ word ∷ []))
          (record { strs = cleared; is_background = shell.is_background }) in
      let filled =
        (strtok-Filled (codes "cd") (word ∷ []) (record piped { strs = cleared })
          (cd-IsWord, (w, tt))).0 in
      run_command-cd _ word shell dir dirs' (filled.strings 0 (omega arith))
        (filled.strings 1 (omega arith) ∙ rw other refl) (filled.background ∙ other)
        (ap (λ path. chdir archive path shell.world) p
          ∙ chdir-path_of archive shell.world dirs moves dir dirs' c d m r g)
