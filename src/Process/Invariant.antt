-- ===== src/Process/Invariant.antt =====
-- The invariant of the task table: a task that is not READY carries its index as its pid, so does
-- the current one, and parents are indices of the table.
use late_os.Common.{ℕ, ◌<◌, ◌≡◌, false}
use late_os.Process.{Task, Kernel, ready, is, max}

pub record IsTable (queue : ℕ → Task) (current : ℕ) : Type 0 where
  pub current_bound : current < max
  pub current_own : (queue current).pid ≡ current
  pub own : (i : ℕ) → i < max → is (queue i).state ready ≡ false → (queue i).pid ≡ i
  pub parent : (i : ℕ) → i < max → (queue i).ppid < max

abbrev pub IsValid : Kernel → Type 0
IsValid k = IsTable k.task_queue k.current_task
