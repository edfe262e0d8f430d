-- ===== src/Process/Wait.antt =====
-- wait, waitpid and sleep (sys/process.c). A call that blocks is cut at `schedule`: `blocked` holds
-- the state in which another task runs, and a second function continues when the caller runs again.
use late_os.Common.{ℕ, zero, suc, ◌+◌, Option, none, some, ◌==◌, ◌&&◌, Bool, if◌then◌else◌, update}
use late_os.Process.{Task, Kernel, Layout, State, ready, zombie, hang, is, max, current_pid}
use late_os.Process.Schedule.{schedule}
use late_os.Memory.Cow.{dealloc_task}

pub data Outcome : Type 0 where
  returned : ℕ → Kernel → Outcome
  blocked : Kernel → Outcome
  stuck : Outcome  -- `schedule` never ends, or a fault

abbrev pub set_state : State → ℕ → Kernel → Kernel
set_state s i k =
    let t = k.task_queue i in
    record k { task_queue = update k.task_queue i (record t { state = s }) }

-- `(taskQueue + i)->ppid == currentTask->pid && (taskQueue + i)->state == ZOMBIE`
abbrev pub is_dead_child : ℕ → Task → Bool
is_dead_child pid t = (t.ppid == pid) && is t.state zombie

-- The first loop index from `from` on, of `n`, that holds a dead child of `pid`.
unfoldable pub find_zombie : (n from pid : ℕ) → (ℕ → Task) → Option ℕ
find_zombie zero from pid queue = none
find_zombie (suc n) from pid queue =
    let rest = find_zombie n (from + 1) pid queue in
    if is_dead_child pid (queue from) then some from else rest

-- removeProcess(i), the state set to READY, and the return of i.
unfoldable pub reap : ℕ → Kernel → Outcome
reap i k = elim (dealloc_task (k.task_queue i).pml4e k.memory) [
  | none ↦ stuck
  | some (_, memory) ↦ returned i (set_state ready i (record k { memory = memory }))
]

abbrev pub block : Option Kernel → Outcome
block none = stuck
block (some k) = blocked k

-- `wait` from its entry, or from the head of its loop, to a return or the switch.
unfoldable pub wait : Layout → Kernel → Outcome
wait layout k = elim (find_zombie max 0 (current_pid k) k.task_queue) [
  | none ↦ block (schedule layout (set_state State.wait k.current_task k))
  | some i ↦ reap i k
]

-- `wait` from behind its `schedule`: the second scan, and the head of the loop.
unfoldable pub wait_resume : Layout → Kernel → Outcome
wait_resume layout k = elim (find_zombie max 0 (current_pid k) k.task_queue) [
  | none ↦ wait layout k
  | some i ↦ reap i k
]

unfoldable pub waitpid : Layout → ℕ → Kernel → Outcome
waitpid layout pid k =
    if is_dead_child (current_pid k) (k.task_queue pid)
    then reap pid k
    else block (schedule layout (set_state State.wait k.current_task k))

-- Behind its `schedule`, `waitpid` does not set the state again.
unfoldable pub waitpid_resume : Layout → ℕ → Kernel → Outcome
waitpid_resume layout pid k =
    if is_dead_child (current_pid k) (k.task_queue pid)
    then reap pid k
    else block (schedule layout k)

unfoldable pub sleep : Layout → ℕ → Kernel → Outcome
sleep layout seconds k =
    let i = k.current_task in
    let t = k.task_queue i in
    if seconds == 0
    then returned 0 k
    else block (
        schedule layout (record k {
          task_queue = update k.task_queue i (record t { time = seconds; state = hang });
        }))
