-- ===== src/Process/Turns.antt =====
-- Fairness of `schedule` (sys/process.c).
use late_os.Common.{
  ℕ, zero, suc, ◌+◌, ◌-◌, ◌%◌, ◌≤◌, ◌<◌, ◌≡◌, ◌≢◌, refl, sym, ap, ◌∙◌, inl, inr, Option, none, some,
  some-injective, arith, ◌==◌, Bool-cases, ==→eq, eq→==, ltb_cases,
}
use late_os.Process.{Kernel, Layout, running, is, max}
use late_os.Process.Schedule.{switch_to, schedule}
use late_os.Process.Invariant.{IsValid}
use late_os.Process.Round.{
  behind, RunsAt, Scheduled, schedule-Scheduled, schedule-IsValid, switch_to-keeps,
  switch_to-current,
}

-- How many places `j` is behind `i`.
abbrev pub gap : ℕ → ℕ → ℕ
gap i j = (j + max - i) % max

-- A runnable task that has not its turn comes nearer to it.
schedule-nearer :
    (layout : Layout) (k : Kernel) (j : ℕ) (s : Scheduled layout k)
    → IsValid k
    → j < max
    → j ≢ k.current_task
    → RunsAt k.task_queue j
    → gap s.to j < gap k.current_task j
schedule-nearer layout k j s valid b ne r =
    let found : s.to ≡ behind k.current_task s.next.steps = some-injective _ _ s.next.found in
    let cb = valid.current_bound in
    let at_gap : behind k.current_task (gap k.current_task j) ≡ j = omega arith in
    let reached : s.next.steps ≤ gap k.current_task j =
      elim (ltb_cases (gap k.current_task j) s.next.steps) [
        | inl far ↦ cc (
          s.next.skipped (gap k.current_task j) (omega arith) far,
          ap (λ i. is (k.task_queue i).state running) at_gap,
        )
        | inr near ↦ near
      ] in
    let lo = s.next.from in rw found (omega arith)

-- `n` calls of `schedule`, with nothing between them.
pub turns : Layout → ℕ → Kernel → Option Kernel
turns layout zero k = some k
turns layout (suc n) k = elim (schedule layout k) [ none ↦ none | some k' ↦ turns layout n k' ]

turns-from :
    (layout : Layout) (fuel j : ℕ) (k : Kernel)
    → IsValid k
    → j < max
    → RunsAt k.task_queue j
    → gap k.current_task j < fuel
    → (n : ℕ) × (k' : Kernel) × (n < fuel) × (turns layout n k ≡ some k') × (k'.current_task ≡ j)
unfolding turns
turns-from layout zero j k valid b r f = absurd (omega arith)
turns-from layout (suc fuel) j k valid b r f = elim (Bool-cases (j == k.current_task)) [
  | inl e ↦ (0, k, omega arith, refl, sym (==→eq j k.current_task e))
  | inr e ↦
      let s = schedule-Scheduled layout k valid in
      let k' = switch_to layout s.to k in
      let nearer = schedule-nearer layout k j s valid b (λ x. cc (eq→== j k.current_task x)) r in
      let states = switch_to-keeps (λ t. t.state) (λ t q. refl) layout s.to k in
      let r' : RunsAt k'.task_queue j = ap (λ x. is x running) (states j) ∙ r in
      let closer : gap k'.current_task j < fuel =
        rw (switch_to-current layout s.to k) (omega arith) in
      let (n, final, short, runs, there) =
        turns-from layout fuel j k' (schedule-IsValid layout k valid s) b r' closer in
      (suc n, final, omega arith, step layout k s.to n final s.runs runs, there)
]
  where
    step :
        (layout : Layout) (k : Kernel) (i n : ℕ) (final : Kernel)
        → schedule layout k ≡ some (switch_to layout i k)
        → turns layout n (switch_to layout i k) ≡ some final
        → turns layout (suc n) k ≡ some final
    step layout k i n final a b = rw (a, turns) b

-- From a valid table, if nothing but `schedule` happens, every runnable task is the current one
-- after fewer than MAX calls: no task starves.
pub turns-reach :
    (layout : Layout) (j : ℕ) (k : Kernel)
    → IsValid k
    → j < max
    → RunsAt k.task_queue j
    → (n : ℕ) × (k' : Kernel) × (n < max) × (turns layout n k ≡ some k') × (k'.current_task ≡ j)
turns-reach layout j k valid b r =
    turns-from layout max j k valid b r (let c = valid.current_bound in omega arith)
