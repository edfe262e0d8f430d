-- ===== src/Process/Schedule.antt =====
-- schedule (sys/process.c): the next runnable task in cyclic order, and the switch to it.
use late_os.Common.{ℕ, zero, suc, ◌+◌, ◌%◌, Option, none, some, ◌==◌, if◌then◌else◌, update}
use late_os.Process.{Task, Kernel, Layout, running, is, max, current_pid}

-- The `while` loop over nextPID; `none` where the fuel runs out.
unfoldable pub next_running : ℕ → (ℕ → Task) → (pid next : ℕ) → Option ℕ
next_running zero queue pid next = none
next_running (suc fuel) queue pid next =
    let rest = next_running fuel queue pid ((next + 1) % max) in
    if next == pid then some next else if is (queue next).state running then some next else rest

-- `task->regs.rsp = rsp` and `task->regs.rip = rip`
unfoldable pub save_rsp : ℕ → Task → Task
save_rsp rsp t = record t { regs = record { rsp = rsp; rip = t.regs.rip } }

unfoldable pub save_rip : ℕ → Task → Task
save_rip rip t = record t { regs = record { rsp = t.regs.rsp; rip = rip } }

-- Stack and instruction pointer of the old task are saved in turn, those of the new one loaded.
unfoldable pub switch_to : Layout → ℕ → Kernel → Kernel
switch_to layout next k =
    let final = k.current_task in
    let queue = update k.task_queue final (save_rsp k.cpu.rsp (k.task_queue final)) in
    let queue' = update queue final (save_rip layout.resume (queue final)) in
    record k {
      task_queue = queue';
      current_task = next;
      cpu = record {
        rsp = (queue next).regs.rsp;
        rip = (queue' next).regs.rip;
        cr3 = (queue next).pml4e;
        tss_rsp0 = layout.kstack_top next;
      };
    }

-- `none`: the loop never ends.
unfoldable pub schedule : Layout → Kernel → Option Kernel
schedule layout k =
    let pid = current_pid k in
    elim (next_running max k.task_queue pid ((pid + 1) % max)) [
      | none ↦ none
      | some next ↦ some (switch_to layout next k)
    ]
