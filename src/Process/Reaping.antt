-- ===== src/Process/Reaping.antt =====
-- A parent collects its dead children: wait and waitpid.
use late_os.Common.{
  ℕ, zero, suc, ◌+◌, ◌≤◌, ◌<◌, ◌≡◌, ◌≢◌, refl, sym, ap, ◌∙◌, subst, inl, inr, true, false, Option,
  none, some, arith, ◌==◌, Bool-cases, ==→eq, eq→==, update_self, update-ne, update-keeps,
}
use late_os.Memory.Release.{dealloc_task-Keeps}
use late_os.Process.{Task, Kernel, Layout, State, ready, is, max, current_pid}
use late_os.Process.Schedule.{schedule}
use late_os.Process.Wait.{
  Outcome, returned, blocked, is_dead_child, find_zombie, reap, set_state, wait, block,
}
use late_os.Process.Invariant.{IsValid}
use late_os.Process.Round.{schedule-Scheduled, schedule-IsValid, switch_to-keeps}

-- The slot of `i` is free again; nothing else of the table has changed, and the memory only in words.
pub record Reaped (i : ℕ) (k k' : Kernel) : Type 0 where
  pub free_again : (k'.task_queue i).state ≡ ready
  pub others : (j : ℕ) → j ≢ i → k'.task_queue j ≡ k.task_queue j
  pub current : k'.current_task ≡ k.current_task
  pub frames : k'.memory.head ≡ k.memory.head

pub reap-Reaped : (i : ℕ) (k : Kernel) → (k' : Kernel) × (reap i k ≡ returned i k') × Reaped i k k'
unfolding reap
reap-Reaped i k =
    let d = dealloc_task-Keeps (k.task_queue i).pml4e k.memory in
    (
      set_state ready i (record k { memory = d.after }),
      rw (d.runs, reap),
      record {
        free_again = ap (λ t. t.state) (update_self k.task_queue i _);
        others = λ j ne. update-ne k.task_queue i j _ (λ e. ne (sym e));
        current = refl;
        frames = d.head;
      },
    )

pub data Found (n from pid : ℕ) (queue : ℕ → Task) : Option ℕ → Type 0 where
  first :
      {i : ℕ}
      → from ≤ i
      → i < from + n
      → is_dead_child pid (queue i) ≡ true
      → ((j : ℕ) → from ≤ j → j < i → is_dead_child pid (queue j) ≡ false)
      → Found n from pid queue (some i)
  nobody :
      ((j : ℕ) → from ≤ j → j < from + n → is_dead_child pid (queue j) ≡ false)
      → Found n from pid queue none

Found-later :
    (n from pid : ℕ) (queue : ℕ → Task) {r : Option ℕ}
    → is_dead_child pid (queue from) ≡ false
    → Found n (from + 1) pid queue r
    → Found (suc n) from pid queue r
Found-later n from pid queue e (first lo hi dead before) =
    first (omega arith) (omega arith) dead (λ j a b. elim (Bool-cases (j == from)) [
      | inl here ↦ subst (λ x. is_dead_child pid (queue x) ≡ false) (sym (==→eq j from here)) e
      | inr later ↦ before j (ground arith) b
    ])
Found-later n from pid queue e (nobody none_dead) = nobody (λ j a b. elim (Bool-cases (j == from)) [
  | inl here ↦ subst (λ x. is_dead_child pid (queue x) ≡ false) (sym (==→eq j from here)) e
  | inr later ↦ none_dead j (ground arith) (omega arith)
])

find_zombie-Found :
    (n from pid : ℕ) (queue : ℕ → Task) → Found n from pid queue (find_zombie n from pid queue)
unfolding find_zombie
find_zombie-Found zero from pid queue = nobody (λ j a b. absurd (omega arith))
find_zombie-Found (suc n) from pid queue = elim (Bool-cases (is_dead_child pid (queue from))) [
  | inl e ↦ rw e (first (omega arith) (omega arith) e (λ j a b. absurd (omega arith)))
  | inr e ↦ rw e (Found-later n from pid queue e (find_zombie-Found n (from + 1) pid queue))
]

-- How a call of `wait` ends or blocks.
pub data Waited (k : Kernel) : Outcome → Type 0 where
  collects :
      {i : ℕ} {k' : Kernel}
      → i < max
      → is_dead_child (current_pid k) (k.task_queue i) ≡ true
      → ((j : ℕ) → j < i → is_dead_child (current_pid k) (k.task_queue j) ≡ false)
      → Reaped i k k'
      → Waited k (returned i k')
  sleeps :
      {k' : Kernel}
      → ((j : ℕ) → j < max → is_dead_child (current_pid k) (k.task_queue j) ≡ false)
      → (k'.task_queue k.current_task).state ≡ State.wait
      → IsValid k'
      → Waited k (blocked k')

-- The state of the current task may be set to anything.
pub set_state-IsValid :
    (s : State) (k : Kernel) → IsValid k → IsValid (set_state s k.current_task k)
set_state-IsValid s k valid =
    let i = k.current_task in
    let pids = λ (j : ℕ). update-keeps (λ t. t.pid) k.task_queue i _ j refl in
    record {
      current_bound = valid.current_bound;
      current_own = pids i ∙ valid.current_own;
      own = λ j b r. pids j ∙ elim (Bool-cases (i == j)) [
        | inl e ↦ subst (λ x. (k.task_queue x).pid ≡ x) (==→eq i j e) valid.current_own
        | inr e ↦ valid.own j b (
            sym (ap (λ t. is t.state ready) (update-ne k.task_queue i j _ (λ x. cc (eq→== i j x))))
            ∙ r)
      ];
      parent = λ j b.
          subst (λ x. x < max) (sym (update-keeps (λ t. t.ppid) k.task_queue i _ j refl))
            (valid.parent j b);
    }

wait-scan :
    (layout : Layout) (k : Kernel) (o : Option ℕ)
    → find_zombie max 0 (current_pid k) k.task_queue ≡ o
    → wait layout k ≡ (elim o [
      | none ↦ block (schedule layout (set_state State.wait k.current_task k))
      | some i ↦ reap i k
    ])
unfolding wait
wait-scan layout k o e = rw (e, wait)

-- Called in a valid table, `wait` either frees the slot of the first dead child of the caller and
-- returns its index, or finds no dead child and sleeps as WAIT, and the table stays valid.
pub wait-Waited : (layout : Layout) (k : Kernel) → IsValid k → Waited k (wait layout k)
wait-Waited layout k valid =
    outcome (find_zombie max 0 (current_pid k) k.task_queue) refl
      (find_zombie-Found max 0 (current_pid k) k.task_queue)
  where
    outcome :
        (o : Option ℕ)
        → find_zombie max 0 (current_pid k) k.task_queue ≡ o
        → Found max 0 (current_pid k) k.task_queue o
        → Waited k (wait layout k)
    outcome (some i) e (first lo hi dead before) =
        let (k', runs, freed) = reap-Reaped i k in
        rw (wait-scan layout k (some i) e, runs)
          (collects (omega arith) dead (λ j b. before j (omega arith) b) freed)
    outcome none e (nobody none_dead) =
        let asleep = set_state State.wait k.current_task k in
        let s = schedule-Scheduled layout asleep (set_state-IsValid State.wait k valid) in
        rw (wait-scan layout k none e, s.runs)
          (sleeps (λ j b. none_dead j (omega arith) (omega arith))
            (switch_to-keeps (λ t. t.state) (λ t r. refl) layout s.to asleep k.current_task
              ∙ ap (λ t. t.state) (update_self k.task_queue k.current_task _))
            (schedule-IsValid layout asleep (set_state-IsValid State.wait k valid) s))
