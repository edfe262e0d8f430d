-- ===== src/Calls/Twice.antt =====
-- The library's fork returns twice (libc/process_sys.c, sys/idt.c, sys/process.c).
use late_os.Common.{
  ℕ, ◌<◌, ◌≡◌, ◌≢◌, sym, ap, ◌∙◌, false, some, List, inl, inr, ◌==◌, Bool-cases, ==→eq, eq→==,
  update, update_self, update-ne,
}
use late_os.Memory.{Memory}
use late_os.Process.{Task, VmArea, Kernel, Layout, ready, is, max}
use late_os.Process.Create.{copy_space, pos_infinity}
use late_os.Process.Wait.{returned}
use late_os.Process.Invariant.{IsValid}
use late_os.Process.Forked.{Forked, fork-Forked}
use late_os.Calls.{Registers, decode}
use late_os.Calls.Library.{forkcall, registers}
use late_os.Calls.Numbers.{decode-registers}
use late_os.Calls.Perform.{fork_result, perform}

unmarked :
    (x : ℕ) (k : Kernel)
    → (k.task_queue k.current_task).kstack 14 ≢ pos_infinity
    → fork_result x k ≡ (x, k)
unfolding fork_result
unmarked x k ne = elim (Bool-cases ((k.task_queue k.current_task).kstack 14 == pos_infinity)) [
  | inl e ↦ absurd (ne (==→eq ((k.task_queue k.current_task).kstack 14) pos_infinity e))
  | inr e ↦ rw e
]

marked :
    (x : ℕ) (k : Kernel)
    → (k.task_queue k.current_task).kstack 14 ≡ pos_infinity
    → let t = k.task_queue k.current_task in
      fork_result x k ≡ (
        0,
        record k {
          task_queue =
              update k.task_queue k.current_task (record t { kstack = update t.kstack 14 0 });
        },
      )
unfolding fork_result
marked x k e = rw (eq→== ((k.task_queue k.current_task).kstack 14) pos_infinity e)

-- The library's `fork`, called by a live task of a valid table whose kernel stack does not hold the
-- child's mark, with a free slot and memory for the copy: it returns the child's pid in the caller,
-- and the table is that of a fork.
pub perform-forkcall :
    (layout : Layout) (ra rsp : ℕ) (r : Registers) (k : Kernel) (slot : ℕ)
    (space : (ℕ × List VmArea) × Memory)
    → IsValid k
    → is (k.task_queue k.current_task).state ready ≡ false
    → slot < max
    → (k.task_queue slot).state ≡ ready
    → copy_space (k.task_queue k.current_task) k.memory ≡ some space
    → (k.task_queue k.current_task).kstack 14 ≢ pos_infinity
    → (child : ℕ) × (k' : Kernel) × (perform layout ra rsp (decode (registers forkcall r)) k
        ≡ some (returned child k'))
      × Forked layout ra rsp k child k'
unfolding perform
perform-forkcall layout ra rsp r k slot space valid live b free enough plain =
    let (child, k', runs, forked) =
      fork-Forked layout ra rsp k slot space valid live b free enough in
    let stack : (k'.task_queue k'.current_task).kstack 14 ≢ pos_infinity = λ e. plain (
      sym (ap (λ (t : Task). t.kstack 14) forked.parent)
      ∙ ap (λ j. (k'.task_queue j).kstack 14) (sym forked.current)
      ∙ e) in
    (child, k', rw (decode-registers forkcall r, runs, perform, unmarked child k' stack), forked)

-- The child of that fork, when it first runs, with its slot as the fork has left it: `fork` returns 0
-- in it whatever the register held, the mark is gone from its kernel stack, and no other task has
-- changed.
pub fork_result-child :
    (layout : Layout) (ra rsp x child : ℕ) (k k' later : Kernel)
    → Forked layout ra rsp k child k'
    → later.current_task ≡ child
    → later.task_queue child ≡ k'.task_queue child
    → ((fork_result x later).0 ≡ 0)
      × (((fork_result x later).1.task_queue child).kstack 14 ≡ 0)
      × ((j : ℕ) → j ≢ child → (fork_result x later).1.task_queue j ≡ later.task_queue j)
fork_result-child layout ra rsp x child k k' later forked at same =
    let i = later.current_task in
    let t = later.task_queue i in
    let mark : t.kstack 14 ≡ pos_infinity =
      ap (λ j. (later.task_queue j).kstack 14) at
      ∙ ap (λ (u : Task). u.kstack 14) same
      ∙ forked.marked in
    let runs = marked x later mark in
    let new : Task = record t { kstack = update t.kstack 14 0 } in
    (
      ap (λ p. p.0) runs,
      ap (λ p. (p.1.task_queue child).kstack 14) runs
          ∙ ap (λ j. (update later.task_queue i new j).kstack 14) (sym at)
          ∙ ap (λ (u : Task). u.kstack 14) (update_self later.task_queue i new)
          ∙ update_self t.kstack 14 0,
      λ j ne.
          ap (λ p. p.1.task_queue j) runs
          ∙ update-ne later.task_queue i j new (λ e. ne (sym e ∙ at)),
    )
