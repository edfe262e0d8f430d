-- ===== src/Calls/Tests.antt =====
-- Calls of the task table of the tests of tasks.
use late_os.Common.{ℕ, ◌+◌, ◌≡◌, ◌≢◌, refl, arith, inl, some, [], ◌∷◌, ◌++◌, codes}
use late_os.Process.{Kernel}
use late_os.Process.Wait.{returned}
use late_os.Process.Forked.{Forked, fork-Forked}
use late_os.Process.Tests.{places, kernel, in_child, space, enough}
use late_os.Calls.{Registers, Call, decode}
use late_os.Calls.Library.{forkcall, kill_call, registers}
use late_os.Calls.Numbers.{decode-registers}
use late_os.Calls.Perform.{fork_result, perform}
use late_os.Calls.Serve.{Machine}
use late_os.Calls.Streams.{fgets, fgets-stored, fgets-second, stored}
use late_os.Calls.Reads.{Reads, open_call-Reads}
use late_os.Files.{chars}
use late_os.Files.Tests.{archive, at_root, listed, sized}
use late_os.Calls.Twice.{perform-forkcall, fork_result-child}

abbrev old : Registers
old = record { rax = 5; rbx = 6; rcx = 7; rdx = 8 }

decode-registers_example : decode (registers (kill_call 3) old) ≡ Call.kill 3
decode-registers_example = decode-registers (kill_call 3) old

abbrev Child : Type 0
Child =
    (child : ℕ) × (k' : Kernel) × (perform places 77 12000 (decode (registers forkcall old))
        (kernel 2)
      ≡ some (returned child k'))
    × Forked places 77 12000 (kernel 2) child k'

forkcall_forks : Child
forkcall_forks =
    perform-forkcall places 77 12000 old (kernel 2) 5 space in_child refl (omega arith) refl enough
      (λ e. absurd (omega arith))

-- The child of a fork runs next.
the_fork : (child : ℕ) × (k' : Kernel) × Forked places 77 12000 (kernel 2) child k'
the_fork =
    let (child, k', runs, forked) =
      fork-Forked places 77 12000 (kernel 2) 5 space in_child refl (omega arith) refl enough in
    (child, k', forked)

abbrev in_fork : Kernel
in_fork = record the_fork.1 { current_task = the_fork.0 }

child_gets_zero :
    ((fork_result 99 in_fork).0 ≡ 0)
    × (((fork_result 99 in_fork).1.task_queue the_fork.0).kstack 14 ≡ 0)
    × ((j : ℕ) → j ≢ the_fork.0 → (fork_result 99 in_fork).1.task_queue j ≡ in_fork.task_queue j)
child_gets_zero =
    fork_result-child places 77 12000 99 the_fork.0 (kernel 2) the_fork.1 in_fork the_fork.2 refl
      refl

abbrev machine : Machine
machine = record { kernel = at_root; bytes = archive.memory; headers = archive.headers }

-- The path is the name in the header itself.
open_call-Reads_example : Reads 20 machine 4608 0 3 100 8 4608 101 old old
unfolding chars
open_call-Reads_example =
    open_call-Reads 20 machine 4608 0 100 8 1 4608 101 old old listed sized (omega arith)
      (omega arith) (omega arith) (inl (omega arith))

-- Two lines are typed; the second one is left.
first_line :
    fgets 8 (codes "hi" ++ 10 ∷ codes "to\n") (λ a. 0)
    ≡ some (codes "to\n", stored 8 (codes "hi" ++ 10 ∷ 10 ∷ []) (λ a. 0))
first_line = fgets-stored 8 (codes "hi") (codes "to\n") (λ a. 0) (ground arith)

not_nul : stored 8 (codes "hi" ++ 10 ∷ 10 ∷ []) (λ a. 0) (8 + 2 + 1) ≡ 10
not_nul = fgets-second 8 (codes "hi") (λ a. 0)
