-- ===== src/Calls/Perform.antt =====
-- The handler's cases that are operations on tasks (isr128 in sys/idt.c).
use late_os.Common.{ℕ, ◌==◌, Option, none, some, if◌then◌else◌, update}
use late_os.Process.{Kernel, Layout, current_pid}
use late_os.Process.Create
use late_os.Process.Exit
use late_os.Process.Wait
use late_os.Process.Wait.{Outcome, returned, stuck, block}
use late_os.Process.Areas
use late_os.Calls.{
  Call, malloc, sleep, get_task_pid, fork, exit, kill, get_task_ppid, waitpid, nothing,
}

-- What follows the call of `fork`, which returns in the parent and, when the child first runs, in the
-- child: the child knows itself by the mark on its kernel stack, and takes it off.
unfoldable pub fork_result : (ret_val : ℕ) → Kernel → ℕ × Kernel
fork_result ret_val k =
    let i = k.current_task in
    let t = k.task_queue i in
    if t.kstack 14 == Create.pos_infinity
    then (
      0,
      record k { task_queue = update k.task_queue i (record t { kstack = update t.kstack 14 0 }) },
    )
    else (ret_val, k)

abbrev pub answer : Option (ℕ × Kernel) → Outcome
answer none = stuck
answer (some (n, k)) = returned n k

abbrev fork_answer : Option (ℕ × Kernel) → Outcome
fork_answer none = stuck
fork_answer (some (pid, k)) = let (n, k') = fork_result pid k in returned n k'

-- `none` for the operations on files and the screen. A call that blocks does so in the kernel, and
-- `exit` does not come back.
unfoldable pub perform : Layout → (return_address rsp_address : ℕ) → Call → Kernel → Option Outcome
perform layout ra rsp (malloc bytes) k = some (answer (Areas.malloc bytes k))
perform layout ra rsp (sleep seconds) k = some (Wait.sleep layout seconds k)
perform layout ra rsp get_task_pid k = some (returned (current_pid k) k)
perform layout ra rsp fork k = some (fork_answer (Create.fork layout ra rsp k))
perform layout ra rsp exit k = some (block (Exit.exit layout k))
perform layout ra rsp (kill pid) k = some (returned 1 (Exit.kill pid k))
perform layout ra rsp get_task_ppid k = some (returned (Areas.get_task_ppid k) k)
perform layout ra rsp (waitpid pid) k = some (Wait.waitpid layout pid k)
perform layout ra rsp nothing k = some (returned 0 k)
perform layout ra rsp _ k = none
