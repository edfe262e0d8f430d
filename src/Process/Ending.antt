-- ===== src/Process/Ending.antt =====
-- The end of a task: exit and kill keep the table valid, and what they leave for the parent.
use late_os.Common.{
  ℕ, ◌<◌, ◌≡◌, ◌≢◌, ◌+◌, ◌-◌, ◌%◌, ==_refl, refl, sym, ap, ◌∙◌, subst, inl, inr, false, some,
  some-injective, arith, ◌==◌, ◌&&◌, if◌then◌else◌, Bool-cases, ==→eq,
}
use late_os.Process.{Task, Kernel, Layout, State, running, zombie, ready, is, max}
use late_os.Process.Schedule.{schedule, switch_to}
use late_os.Process.Exit.{end_task, exit, kill}
use late_os.Process.Invariant.{IsTable, IsValid}
use late_os.Process.Life.{parent_of, end_task-pid, end_task-ppid, end_task-state}
use late_os.Process.Round.{
  behind, RunsAt, IsNext, schedule-Scheduled, schedule-IsValid, switch_to-keeps, switch_to-current,
}

-- The table behind the end of task `i`, whose pid is `i`.
end_task-IsTable :
    (i current : ℕ) (queue : ℕ → Task)
    → i < max
    → (queue i).pid ≡ i
    → IsTable queue current
    → IsTable (end_task i i queue) current
end_task-IsTable i current queue b p valid = record {
  current_bound = valid.current_bound;
  current_own = end_task-pid i i queue current ∙ valid.current_own;
  own = λ j bj r.
      end_task-pid i i queue j
      ∙ own_pid j bj (sym (ap (λ s. is s ready) (end_task-state i i queue j b)) ∙ r);
  parent = λ j bj.
      subst (λ x. x < max) (sym (end_task-ppid i i queue j bj)) (small j (valid.parent j bj));
}
  where
    small :
        (j : ℕ) → (queue j).ppid < max → (if (queue j).ppid == i then 0 else (queue j).ppid) < max
    small j h = ground arith

    own_pid :
        (j : ℕ)
        → j < max
        → is
            (if i == j
              then zombie
              else if (parent_of i i queue == j) && is (queue j).state State.wait
              then running
              else (queue j).state)
            ready
          ≡ false
        → (queue j).pid ≡ j
    own_pid j bj r = elim (Bool-cases (is (queue j).state ready)) [
      | inr live ↦ valid.own j bj live
      | inl unused ↦ elim (Bool-cases (i == j)) [
        | inl e ↦ subst (λ x. (queue x).pid ≡ x) (==→eq i j e) p
        | inr e ↦ ground arith
      ]
    ]

-- What `exit` leaves: a valid table in which the caller is a zombie, a waiting parent runs, the
-- caller's children are those of task 0, and nothing else has changed in states, pids and parents;
-- the next task is the first runnable one of that table behind the caller, or the caller itself where
-- none is runnable.
pub record Exited (layout : Layout) (k : Kernel) : Type 0 where
  pub after : Kernel
  pub runs : exit layout k ≡ some after
  pub valid : IsValid after
  pub state :
      (j : ℕ)
      → (after.task_queue j).state ≡ (
          if k.current_task == j
          then zombie
          else if (parent_of k.current_task k.current_task k.task_queue == j)
              && is (k.task_queue j).state State.wait
          then running
          else (k.task_queue j).state)
  pub ppid :
      (j : ℕ)
      → j < max
      → (after.task_queue j).ppid
        ≡ (if (k.task_queue j).ppid == k.current_task then 0 else (k.task_queue j).ppid)
  pub pid : (j : ℕ) → (after.task_queue j).pid ≡ (k.task_queue j).pid
  pub next : IsNext after.task_queue k.current_task 1 (some after.current_task)
  pub leaves :
      (j : ℕ)
      → j < max
      → RunsAt after.task_queue j
      → (after.current_task ≢ k.current_task) × RunsAt after.task_queue after.current_task

exit-schedule :
    (layout : Layout) (k : Kernel)
    → (k.task_queue k.current_task).pid ≡ k.current_task
    → exit layout k
      ≡ schedule layout
          (record k { task_queue = end_task k.current_task k.current_task k.task_queue })
unfolding exit
exit-schedule layout k e =
    ap (λ p. schedule layout (record k { task_queue = end_task k.current_task p k.task_queue })) e

-- If any task is runnable, the task that `schedule` finds from a zombie is another one.
other-task :
    (queue : ℕ → Task) (current to j : ℕ)
    → current < max
    → (queue current).state ≡ zombie
    → IsNext queue current 1 (some to)
    → j < max
    → RunsAt queue j
    → to ≢ current
other-task queue current to j c dead next b r same =
    let found : to ≡ behind current next.steps = some-injective _ _ next.found in
    let lo = next.from in
    let hi = next.within in
    let round : next.steps ≡ max = omega arith in
    let not_dead : j ≢ current =
      λ e. cc (r, ap (λ x. is (queue x).state running) e, ap (λ s. is s running) dead) in
    let e : ℕ = (j + max - current) % max in
    let at : behind current e ≡ j = omega arith in
    cc (next.skipped e (omega arith) (omega arith), ap (λ x. is (queue x).state running) at, r)

-- The choice of `schedule` depends on the states only.
IsNext-states :
    (a b : ℕ → Task) (pid d : ℕ) (to : ℕ)
    → ((j : ℕ) → (a j).state ≡ (b j).state)
    → IsNext b pid d (some to)
    → IsNext a pid d (some to)
IsNext-states a b pid d to same n = record {
  steps = n.steps;
  from = n.from;
  within = n.within;
  found = n.found;
  skipped = λ e l u. ap (λ s. is s running) (same (behind pid e)) ∙ n.skipped e l u;
  stops = elim n.stops [
    | inl round ↦ inl round
    | inr r ↦ inr (ap (λ s. is s running) (same (behind pid n.steps)) ∙ r)
  ];
}

-- Where some task is runnable, a choice that is another task is a runnable one.
choice-RunsAt :
    (queue : ℕ → Task) (current to : ℕ)
    → current < max
    → IsNext queue current 1 (some to)
    → to ≢ current
    → RunsAt queue to
choice-RunsAt queue current to c n ne =
    let found : to ≡ behind current n.steps = some-injective _ _ n.found in
    elim n.stops [
      | inl round ↦ let home : to ≡ current = omega arith in absurd (ne home)
      | inr r ↦ ap (λ x. is (queue x).state running) found ∙ r
    ]

-- `exit` from a valid table switches to the first runnable task behind the caller, in cyclic order, and
-- comes back to the caller only if no task is runnable: the table is valid, the caller is a zombie, its parent runs if it waited, the caller's children are
-- those of task 0, and every other state, pid and parent is as before.
pub exit-Exited : (layout : Layout) (k : Kernel) → IsValid k → Exited layout k
exit-Exited layout k valid =
    let i = k.current_task in
    let q = end_task i i k.task_queue in
    let k₁ : Kernel = record k { task_queue = q } in
    let v₁ : IsValid k₁ =
      end_task-IsTable i i k.task_queue valid.current_bound valid.current_own valid in
    let s = schedule-Scheduled layout k₁ v₁ in
    let states = switch_to-keeps (λ t. t.state) (λ t r. refl) layout s.to k₁ in
    let here = switch_to-current layout s.to k₁ in
    let next' = IsNext-states (switch_to layout s.to k₁).task_queue q i 1 s.to states s.next in
    let dead : (q i).state ≡ zombie =
      end_task-state i i k.task_queue i valid.current_bound ∙ rw (==_refl i) in
    record {
      after = switch_to layout s.to k₁;
      runs = exit-schedule layout k valid.current_own ∙ s.runs;
      valid = schedule-IsValid layout k₁ v₁ s;
      state = λ j. states j ∙ end_task-state i i k.task_queue j valid.current_bound;
      ppid = λ j b.
          switch_to-keeps (λ t. t.ppid) (λ t r. refl) layout s.to k₁ j
          ∙ end_task-ppid i i k.task_queue j b;
      pid = λ j.
          switch_to-keeps (λ t. t.pid) (λ t r. refl) layout s.to k₁ j
          ∙ end_task-pid i i k.task_queue j;
      next =
          subst (λ x. IsNext (switch_to layout s.to k₁).task_queue i 1 (some x)) (sym here) next';
      leaves = λ j b r.
          let away =
            other-task q i s.to j valid.current_bound dead s.next b
              (sym (ap (λ x. is x running) (states j)) ∙ r) in
          (
            λ e. away (sym here ∙ e),
            subst (RunsAt (switch_to layout s.to k₁).task_queue) (sym here) (
                choice-RunsAt (switch_to layout s.to k₁).task_queue i s.to valid.current_bound next'
                  away),
          );
    }

-- `kill` of a live task keeps the table valid: the task is a zombie, its parent runs if it waited,
-- its children are those of task 0, every other state is as before, and the caller goes on.
pub kill-IsValid :
    (i j : ℕ) (k : Kernel)
    → IsValid k
    → i < max
    → j < max
    → is (k.task_queue i).state ready ≡ false
    → IsValid (kill i k)
      × ((kill i k).current_task ≡ k.current_task)
      × (((kill i k).task_queue j).state ≡ (
          if i == j
          then zombie
          else if (parent_of i i k.task_queue == j) && is (k.task_queue j).state State.wait
          then running
          else (k.task_queue j).state))
      × (((kill i k).task_queue j).ppid
          ≡ (if (k.task_queue j).ppid == i then 0 else (k.task_queue j).ppid))
unfolding kill
kill-IsValid i j k valid b bj live = (
  end_task-IsTable i k.current_task k.task_queue b (valid.own i b live) valid,
  refl,
  end_task-state i i k.task_queue j b,
  end_task-ppid i i k.task_queue j bj,
)
