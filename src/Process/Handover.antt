-- ===== src/Process/Handover.antt =====
-- A child that ends while its parent sleeps in waitpid.
use late_os.Common.{ℕ, ◌≡◌, ◌≢◌, ap, ◌∙◌, true, arith, ◌==◌, ◌&&◌, if◌then◌else◌, ==_refl}
use late_os.Process.{Task, Kernel, Layout, State, running, zombie, is, current_pid}
use late_os.Process.Wait.{returned, is_dead_child, waitpid_resume}
use late_os.Process.Invariant.{IsValid}
use late_os.Process.Round.{RunsAt}
use late_os.Process.Ending.{Exited}
use late_os.Process.Life.{parent_of}
use late_os.Process.Reaping.{Reaped, reap-Reaped}

module _ (layout : Layout) (k : Kernel) (valid : IsValid k) (e : Exited layout k) (p : ℕ)
    (child : (k.task_queue k.current_task).ppid ≡ p) (other : p ≢ k.current_task) where
  -- The parent is runnable again.
  pub exit-wakes : (k.task_queue p).state ≡ State.wait → RunsAt e.after.task_queue p
  exit-wakes w = ap (λ s. is s running) (e.state p ∙ told)
    where
      told :
          (if k.current_task == p
            then zombie
            else if (parent_of k.current_task k.current_task k.task_queue == p)
                && is (k.task_queue p).state State.wait
            then running
            else (k.task_queue p).state)
          ≡ running
      told = ground arith

  -- The child is a zombie and still the parent's.
  exit-dead : is_dead_child p (e.after.task_queue k.current_task) ≡ true
  exit-dead =
      let state = e.state k.current_task in
      let ppid = e.ppid k.current_task valid.current_bound in
      dead (e.after.task_queue k.current_task) (state ∙ rw (==_refl k.current_task)) (ppid ∙ kept)
    where
      kept :
          (if (k.task_queue k.current_task).ppid == k.current_task
            then 0
            else (k.task_queue k.current_task).ppid)
          ≡ p
      kept = ground arith

      dead : (t : Task) → t.state ≡ zombie → t.ppid ≡ p → is_dead_child p t ≡ true
      dead t s q = ground arith

  -- A task that exits while its parent, another task, sleeps in `waitpid` for it: the parent is
  -- runnable at once, and when it runs again, in any state that has kept the table, `waitpid` returns
  -- the child's pid and its slot is free, all other slots unchanged.
  pub exit-waitpid :
      (k.task_queue p).state ≡ State.wait
      → (later : Kernel) → later.current_task ≡ p
      → current_pid later ≡ p
      → later.task_queue k.current_task ≡ e.after.task_queue k.current_task
      → RunsAt e.after.task_queue p
        × ((final : Kernel) × (waitpid_resume layout k.current_task later
              ≡ returned k.current_task final)
            × Reaped k.current_task later final)
  unfolding waitpid_resume
  exit-waitpid w later at own same =
      let (final, runs, freed) = reap-Reaped k.current_task later in
      let dead : is_dead_child (current_pid later) (later.task_queue k.current_task) ≡ true =
        rw (own, same) exit-dead in
      (exit-wakes w, (final, rw (dead, runs), freed))
