-- ===== src/Process/Sleepers.antt =====
-- How long `sleep` lasts, and when the timer switches tasks.
use late_os.Common.{
  ℕ, zero, suc, ◌+◌, ◌-◌, ◌^◌, ◌%◌, ◌≤◌, ◌<◌, ◌≡◌, ap, ◌∙◌, inl, inr, true, false, Bool, Option,
  none, some, ==→eq, ◌≢◌, arith, ◌==◌, Bool-cases, for_each-inside,
}
use late_os.Process.{Task, Kernel, Layout, running, hang, is, max}
use late_os.Process.Timer.{tick_task, task_timer, Timer, int_timer}

-- `n` calls of `taskTimer`.
pub ticks : ℕ → (ℕ → Task) → ℕ → Task
ticks zero queue = queue
ticks (suc n) queue = ticks n (task_timer queue)

tick-hang :
    (t : Task) (n : ℕ)
    → t.state ≡ hang
    → t.time ≡ suc (suc n)
    → suc (suc n) < 2 ^ 31
    → ((tick_task t).state ≡ hang) × ((tick_task t).time ≡ suc n)
unfolding tick_task
tick-hang t n s e b = ground arith

tick-last : (t : Task) → t.state ≡ hang → t.time ≡ 1 → (tick_task t).state ≡ running
unfolding tick_task
tick-last t s e = ground arith

tick-other : (t : Task) → is t.state hang ≡ false → tick_task t ≡ t
unfolding tick_task
tick-other t s = ground arith

task_timer-at : (queue : ℕ → Task) (i : ℕ) → i < max → task_timer queue i ≡ tick_task (queue i)
unfolding task_timer
task_timer-at queue i b = for_each-inside max tick_task queue i (ground arith)

asleep :
    (m n i : ℕ) (queue : ℕ → Task)
    → i < max
    → (queue i).state ≡ hang
    → (queue i).time ≡ suc n
    → suc n < 2 ^ 31
    → m ≤ n
    → ((ticks m queue i).state ≡ hang) × ((ticks m queue i).time ≡ suc n - m)
unfolding ticks
asleep zero n i queue b s e l h = (s, omega arith)
asleep (suc m) zero i queue b s e l h = absurd (omega arith)
asleep (suc m) (suc n) i queue b s e l h =
    let (s', e') = tick-hang (queue i) n s e l in
    let at = task_timer-at queue i b in
    let (u, v) =
      asleep m n i (task_timer queue) b (ap (λ t. t.state) at ∙ s') (ap (λ t. t.time) at ∙ e')
        (omega arith) (omega arith) in
    (u, v ∙ omega arith)

awake :
    (n i : ℕ) (queue : ℕ → Task)
    → i < max
    → (queue i).state ≡ hang
    → (queue i).time ≡ suc n
    → suc n < 2 ^ 31
    → (ticks (suc n) queue i).state ≡ running
unfolding ticks
awake zero i queue b s e l = ap (λ t. t.state) (task_timer-at queue i b) ∙ tick-last (queue i) s e
awake (suc n) i queue b s e l =
    let (s', e') = tick-hang (queue i) n s e l in
    let at = task_timer-at queue i b in
    awake n i (task_timer queue) b (ap (λ t. t.state) at ∙ s') (ap (λ t. t.time) at ∙ e')
      (omega arith)

-- A task that sleeps for n + 1 seconds, fewer than 2 ^ 31, is asleep with n + 1 - m to go after
-- m ≤ n calls of `taskTimer`, and runnable after n + 1.
pub ticks-sleep :
    (n m i : ℕ) (queue : ℕ → Task)
    → i < max
    → (queue i).state ≡ hang
    → (queue i).time ≡ suc n
    → suc n < 2 ^ 31
    → m ≤ n
    → ((ticks m queue i).state ≡ hang)
      × ((ticks m queue i).time ≡ suc n - m)
      × ((ticks (suc n) queue i).state ≡ running)
ticks-sleep n m i queue b s e l h =
    let (u, v) = asleep m n i queue b s e l h in (u, v, awake n i queue b s e l)

-- `n` timer interrupts that interrupt tasks which `intTimer` has not suspended.
pub interrupts : Layout → ℕ → Timer → Kernel → Option (Timer × Kernel × Bool)
interrupts layout zero timer k = some (timer, k, false)
interrupts layout (suc n) timer k = elim (int_timer layout timer k) [
  | none ↦ none
  | some (timer', k', true) ↦ some (timer', k', true)
  | some (timer', k', false) ↦ interrupts layout n timer' k'
]

int_timer-quiet :
    (layout : Layout) (timer : Timer) (k : Kernel)
    → timer.timer_count + 1 < 2 ^ 32
    → timer.timer_count + 1 ≢ 20
    → int_timer layout timer k
      ≡ some (record timer { timer_count = timer.timer_count + 1 }, k, false)
unfolding int_timer
int_timer-quiet layout timer k b ne =
    let same : (timer.timer_count + 1) % 2 ^ 32 ≡ timer.timer_count + 1 = omega arith in
    elim (Bool-cases ((timer.timer_count + 1) == 20)) [
      | inl e ↦ absurd (ne (==→eq (timer.timer_count + 1) 20 e))
      | inr e ↦ rw (same, e)
    ]

counted :
    (timer : Timer) (k : Kernel) (a b : ℕ)
    → a ≡ b
    → ◌≡◌ {A = Option (Timer × Kernel × Bool)}
        (some (record timer { timer_count = a }, k, false))
        (some (record timer { timer_count = b }, k, false))
counted timer k a b e = rw e

-- Once the counter is at 20 or more and is not set back by the interrupted task's return into
-- `intTimer`, no further interrupt switches tasks, until the counter has run through 2 ^ 32.
pub interrupts-quiet :
    (layout : Layout) (n : ℕ) (timer : Timer) (k : Kernel)
    → 20 ≤ timer.timer_count
    → timer.timer_count + n < 2 ^ 32
    → interrupts layout n timer k
      ≡ some (record timer { timer_count = timer.timer_count + n }, k, false)
unfolding interrupts
interrupts-quiet layout zero timer k lo hi =
    counted timer k timer.timer_count (timer.timer_count + 0) (omega arith)
interrupts-quiet layout (suc n) timer k lo hi =
    let next : Timer = record timer { timer_count = timer.timer_count + 1 } in
    rw (int_timer-quiet layout timer k (omega arith) (omega arith), interrupts)
      (interrupts-quiet layout n next k (omega arith) (omega arith)
        ∙ counted timer k (next.timer_count + n) (timer.timer_count + suc n) (omega arith))
