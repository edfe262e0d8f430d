-- ===== src/Process/Timer.antt =====
-- Sleeping tasks: taskTimer and the timer interrupt (sys/idt.c), wake_process (sys/keyboard.c).
use late_os.Common.{
  ℕ, zero, suc, ◌+◌, ◌-◌, ◌^◌, ◌%◌, Bool, Option, none, some, ◌==◌, ◌&&◌, ltb, if◌then◌else◌,
  for_each,
}
use late_os.Process.{Task, Kernel, Layout, State, running, hang, is, max}
use late_os.Process.Schedule.{schedule}
use late_os.Process.Wait.{set_state}

-- `time > 0` of an `int`.
abbrev pub positive : ℕ → Bool
positive time = ltb 0 time && ltb time (2 ^ 31)

-- One round of the loop of `taskTimer`.
unfoldable pub tick_task : Task → Task
tick_task t =
    let t' = if is t.state hang && positive t.time then record t { time = t.time - 1 } else t in
    if is t'.state hang && t'.time == 0 then record t' { state = running } else t'

unfoldable pub task_timer : (ℕ → Task) → ℕ → Task
unfolding tick_task
task_timer queue = for_each max 0 tick_task queue

unfoldable pub find_sleeper : (n from : ℕ) → (ℕ → Task) → Option ℕ
find_sleeper zero from queue = none
find_sleeper (suc n) from queue =
    let rest = find_sleeper n (from + 1) queue in
    if is (queue from).state State.sleep then some from else rest

-- The first task that sleeps on the keyboard runs again.
unfoldable pub wake_process : Kernel → Kernel
wake_process k = elim (find_sleeper max 0 k.task_queue) [
  | none ↦ k
  | some i ↦ set_state running i k
]

-- The counters of the timer interrupt.
pub record Timer : Type 0 where
  pub timer_count : ℕ
  pub total_secs : ℕ

-- `intTimer` up to its `schedule`: the 20th tick switches tasks, and `true` says that it did.
unfoldable pub int_timer : Layout → Timer → Kernel → Option (Timer × Kernel × Bool)
int_timer layout timer k =
    let timer' = record timer { timer_count = (timer.timer_count + 1) % 2 ^ 32 } in
    if timer'.timer_count == 20
    then elim (schedule layout k) [ none ↦ none | some k' ↦ some (timer', k', Bool.true) ]
    else some (timer', k, Bool.false)

-- The rest of `intTimer`, when the task that it interrupted runs again.
unfoldable pub int_timer_resume : Timer → Kernel → Timer × Kernel
int_timer_resume timer k = (
  record { timer_count = 0; total_secs = (timer.total_secs + 1) % 2 ^ 32 },
  record k { task_queue = task_timer k.task_queue },
)
