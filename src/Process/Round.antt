-- ===== src/Process/Round.antt =====
-- The choice of `schedule`: the first runnable task behind the current one, in cyclic order, so that
-- every runnable task has its turn.
use late_os.Common.{
  ℕ, zero, suc, ◌+◌, ◌%◌, ◌≤◌, ◌<◌, ◌≡◌, ◌⊎◌, refl, sym, ap, ◌∙◌, inl, inr, true, false, Option,
  some, arith, ◌==◌, Bool-cases, ==→eq, update-keeps, some-injective,
}
use late_os.Process.{Task, Registers, Kernel, Layout, State, running, ready, is, max, current_pid}
use late_os.Process.Schedule.{next_running, switch_to, schedule, save_rsp, save_rip}
use late_os.Process.Invariant.{IsTable, IsValid}

-- The index that is `d` places behind `pid`.
abbrev pub behind : ℕ → ℕ → ℕ
behind pid d = (pid + d) % max

abbrev pub RunsAt : (ℕ → Task) → ℕ → Type 0
RunsAt queue i = is (queue i).state running ≡ true

-- `result` is the first runnable task from `d` places behind `pid` on, or `pid` itself after a round.
pub record IsNext (queue : ℕ → Task) (pid d : ℕ) (result : Option ℕ) : Type 0 where
  pub steps : ℕ
  pub from : d ≤ steps
  pub within : steps ≤ max
  pub found : result ≡ some (behind pid steps)
  pub skipped : (e : ℕ) → d ≤ e → e < steps → is (queue (behind pid e)).state running ≡ false
  pub stops : (steps ≡ max) ⊎ RunsAt queue (behind pid steps)

IsNext-later :
    (queue : ℕ → Task) (pid d : ℕ) (result : Option ℕ)
    → is (queue (behind pid d)).state running ≡ false
    → IsNext queue pid (d + 1) result
    → IsNext queue pid d result
IsNext-later queue pid d result r rest = record {
  steps = rest.steps;
  from = let h = rest.from in omega arith;
  within = rest.within;
  found = rest.found;
  skipped = λ e h h'. elim (Bool-cases (e == d)) [
    | inl same ↦ rw (==→eq e d same) r
    | inr other ↦ rest.skipped e (ground arith) h'
  ];
  stops = rest.stops;
}

IsNext-here :
    (queue : ℕ → Task) (pid d : ℕ)
    → d ≤ max
    → (d ≡ max) ⊎ RunsAt queue (behind pid d)
    → IsNext queue pid d (some (behind pid d))
IsNext-here queue pid d l stops = record {
  steps = d;
  from = omega arith;
  within = l;
  found = refl;
  skipped = λ x h h'. absurd (omega arith);
  stops = stops;
}

next_running-IsNext :
    (fuel d pid : ℕ) (queue : ℕ → Task)
    → pid < max
    → 0 < d
    → d ≤ max
    → d + fuel ≡ max + 1
    → IsNext queue pid d (next_running fuel queue pid (behind pid d))
unfolding next_running
next_running-IsNext zero d pid queue b p l e = absurd (omega arith)
next_running-IsNext (suc fuel) d pid queue b p l e = elim (Bool-cases (behind pid d == pid)) [
  | inl home ↦
      rw home
        (IsNext-here queue pid d l (inl (let h = ==→eq (behind pid d) pid home in omega arith)))
  | inr away ↦ rw away (elim (Bool-cases (is (queue (behind pid d)).state running)) [
    | inl r ↦ rw r (IsNext-here queue pid d l (inr r))
    | inr r ↦
        let l' : d < max = ground arith in
        let step : (behind pid d + 1) % max ≡ behind pid (d + 1) = omega arith in
        rw (r, step)
          (IsNext-later queue pid d _ r (
            next_running-IsNext fuel (d + 1) pid queue b (omega arith) (omega arith) (omega arith)))
  ])
]

schedule-some :
    (layout : Layout) (k : Kernel) (i : ℕ)
    → next_running max k.task_queue (current_pid k) ((current_pid k + 1) % max) ≡ some i
    → schedule layout k ≡ some (switch_to layout i k)
unfolding schedule
schedule-some layout k i e = rw (e, schedule)

pub record Scheduled (layout : Layout) (k : Kernel) : Type 0 where
  pub to : ℕ
  pub runs : schedule layout k ≡ some (switch_to layout to k)
  pub next : IsNext k.task_queue k.current_task 1 (some to)

-- From a valid table `schedule` ends. The task that it switches to is the first runnable one behind
-- the current task in cyclic order, and the current task itself only if no other is runnable.
pub schedule-Scheduled : (layout : Layout) (k : Kernel) → IsValid k → Scheduled layout k
schedule-Scheduled layout k valid =
    let first =
      next_running-IsNext max 1 k.current_task k.task_queue valid.current_bound (omega arith)
        (omega arith) refl in
    record {
      to = behind k.current_task first.steps;
      runs = schedule-some layout k _ (
          ap (λ p. next_running max k.task_queue p ((p + 1) % max)) valid.current_own
          ∙ first.found);
      next = record {
        steps = first.steps;
        from = first.from;
        within = first.within;
        found = refl;
        skipped = first.skipped;
        stops = first.stops;
      };
    }

-- The switch keeps all of a task but its saved registers.
pub switch_to-keeps {ℓ} :
    {B : Type ℓ} (g : Task → B)
    → ((t : Task) (r : Registers) → g (record t { regs = r }) ≡ g t)
    → (layout : Layout) (n : ℕ) (k : Kernel) (i : ℕ)
    → g ((switch_to layout n k).task_queue i) ≡ g (k.task_queue i)
unfolding switch_to save_rsp save_rip
switch_to-keeps g same layout n k i =
    update-keeps g _ k.current_task _ i (same _ _)
    ∙ update-keeps g k.task_queue k.current_task _ i (same _ _)

pub switch_to-current :
    (layout : Layout) (n : ℕ) (k : Kernel) → (switch_to layout n k).current_task ≡ n
unfolding switch_to
switch_to-current layout n k = refl

-- What holds of an index that `schedule` may choose.
next-valid :
    (queue : ℕ → Task) (current to : ℕ)
    → IsTable queue current
    → IsNext queue current 1 (some to)
    → (to < max) × ((queue to).pid ≡ to)
next-valid queue current to valid next =
    let found : to ≡ behind current next.steps = some-injective _ _ next.found in
    let small : behind current next.steps < max = omega arith in
    elim (next.stops) [
      | inl round ↦
          let home : to ≡ current = let b = valid.current_bound in omega arith in
          (rw home valid.current_bound, rw home valid.current_own)
      | inr runs ↦
          let at : is (queue to).state ready ≡ false = rw found (not_ready _ runs) in
          (rw found small, valid.own to (rw found small) at)
    ]
  where
    not_ready : (s : State) → is s running ≡ true → is s ready ≡ false
    not_ready s h = ground arith

pub schedule-IsValid :
    (layout : Layout) (k : Kernel)
    → IsValid k
    → (s : Scheduled layout k) → IsValid (switch_to layout s.to k)
schedule-IsValid layout k valid s =
    let q = (switch_to layout s.to k).task_queue in
    let here = switch_to-current layout s.to k in
    let (bound, own_pid) = next-valid k.task_queue k.current_task s.to valid s.next in
    let pids = switch_to-keeps (λ t. t.pid) (λ t r. refl) layout s.to k in
    let states = switch_to-keeps (λ t. t.state) (λ t r. refl) layout s.to k in
    let ppids = switch_to-keeps (λ t. t.ppid) (λ t r. refl) layout s.to k in
    record {
      current_bound = rw here bound;
      current_own = rw here (pids s.to ∙ own_pid);
      own = λ i b r. pids i ∙ valid.own i b (sym (ap (λ x. is x ready) (states i)) ∙ r);
      parent = λ i b. rw (ppids i) (valid.parent i b);
    }
