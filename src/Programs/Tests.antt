-- ===== src/Programs/Tests.antt =====
-- Runs of the small programs: "echo hi to", and a kill without a number.
use late_os.Common.{ℕ, ◌≡◌, refl, some, arith, [], ◌∷◌, ◌++◌, ◌==◌, if◌then◌else◌, codes}
use late_os.Text.Strings.{IsString}
use late_os.Programs.Echo.{spaced, echo-spaced}
use late_os.Files.Tests as Files
use late_os.Calls.{Registers}
use late_os.Calls.Directories.{Directories}
use late_os.Calls.Serve.{Machine}
use late_os.Programs.Contents.{Contents}
use late_os.Programs.{echo, kill_main, directory_name, prints}

-- "echo" at 8, "hi" at 64, "to" at 88, and " " at 200.
abbrev memory : ℕ → ℕ
memory a =
    if a == 64
    then b'h'
    else if a == 65
    then b'i'
    else if a == 88
    then b't'
    else if a == 89
    then b'o'
    else if a == 200
    then b' '
    else 0

abbrev argv : ℕ → ℕ
argv i = if i == 0 then 8 else if i == 1 then 64 else if i == 2 then 88 else 0

kill_usage : kill_main 10 memory 2 argv ≡ some (prints (codes "Must use : kill -9 PID\n"))
unfolding kill_main
kill_usage = refl

-- A path that ends in a slash gets another one.
second_slash : directory_name 2 (codes "/") (codes "bin/") ≡ codes "bin//"
unfolding directory_name
second_slash = refl

hi_and_to :
    (after : ℕ → ℕ) × (echo 10 200 memory 3 argv
      ≡ some (0, spaced (codes "hi" ∷ codes "to" ∷ []) ++ codes "\n", after))
unfolding IsString
hi_and_to =
    echo-spaced 10 200 memory 3 argv (codes "hi" ∷ codes "to" ∷ []) (omega arith) (ground arith)
      (ground arith) (ground arith)

-- The directory "d/" of the tests of files is open as descriptor 3, and the entries go to 9000.
abbrev machine : Machine
machine = record { kernel = Files.in_d; bytes = Files.memory; headers = Files.archive.headers }

abbrev directories : Directories
directories = record { fd = λ i. 3; d_name = λ i. codes "d/" }

abbrev old : Registers
old = record { rax = 5; rbx = 6; rcx = 7; rdx = 8 }
