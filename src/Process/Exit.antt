-- ===== src/Process/Exit.antt =====
-- exit and kill (sys/process.c).
use late_os.Common.{ℕ, Option, ◌==◌, if◌then◌else◌, update, for_each}
use late_os.Process.{Task, Kernel, Layout, running, zombie, State, is, max, current_pid}
use late_os.Process.Schedule.{schedule}

-- A child of `pid` becomes one of task 0.
abbrev pub orphan : ℕ → Task → Task
orphan pid t = if t.ppid == pid then record t { ppid = 0 } else t

-- Task `i` becomes a zombie, the children of `pid` orphans, and a waiting parent runs again.
unfoldable pub end_task : (i pid : ℕ) → (ℕ → Task) → ℕ → Task
end_task i pid queue =
    let task = queue i in
    let ended = update queue i (record task { state = zombie }) in
    let queue' = for_each max 0 (orphan pid) ended in
    let parent = (queue' i).ppid in
    let waiting = queue' parent in
    if is waiting.state State.wait
    then update queue' parent (record waiting { state = running })
    else queue'

unfoldable pub exit : Layout → Kernel → Option Kernel
exit layout k =
    schedule layout (record k { task_queue = end_task k.current_task (current_pid k) k.task_queue })

-- The caller goes on running, also if it killed itself.
unfoldable pub kill : ℕ → Kernel → Kernel
kill pid k = record k { task_queue = end_task pid pid k.task_queue }
