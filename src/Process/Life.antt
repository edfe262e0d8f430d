-- ===== src/Process/Life.antt =====
-- What exit and kill do to every task of the table.
use late_os.Common.{
  ℕ, ◌<◌, ◌≡◌, refl, sym, ap, ◌∙◌, subst, inl, inr, true, false, arith, ◌==◌, ◌&&◌, if◌then◌else◌,
  Bool-cases, update, update-keeps, update-at, for_each, for_each-keeps, for_each-inside,
}
use late_os.Process.{Task, State, running, zombie, is, max}
use late_os.Process.Exit.{orphan, end_task}

told :
    (i j p : ℕ) (s : ℕ → State)
    → is (if i == p then zombie else s p) State.wait ≡ true
    → (if p == j then running else if i == j then zombie else s j)
      ≡ (if i == j then zombie else if (p == j) && is (s j) State.wait then running else s j)
told i j p s w = ground arith

untold :
    (i j p : ℕ) (s : ℕ → State)
    → is (if i == p then zombie else s p) State.wait ≡ false
    → (if i == j then zombie else s j)
      ≡ (if i == j then zombie else if (p == j) && is (s j) State.wait then running else s j)
untold i j p s w = ground arith

module _ (i pid : ℕ) (queue : ℕ → Task) where
  -- The task that is told: task 0 if the ended task was its own parent.
  abbrev pub parent_of : ℕ
  parent_of = if (queue i).ppid == pid then 0 else (queue i).ppid

  abbrev ended : ℕ → Task
  ended = let task = queue i in update queue i (record task { state = zombie })

  abbrev orphaned : ℕ → Task
  orphaned = for_each max 0 (orphan pid) ended

  orphan-state : (t : Task) → (orphan pid t).state ≡ t.state
  orphan-state t = ground arith

  orphan-pid : (t : Task) → (orphan pid t).pid ≡ t.pid
  orphan-pid t = ground arith

  orphaned-state : (j : ℕ) → (orphaned j).state ≡ (ended j).state
  orphaned-state j = for_each-keeps (λ t. t.state) max 0 (orphan pid) ended j orphan-state

  orphaned-ppid :
      (j : ℕ) → j < max → (orphaned j).ppid ≡ (if (queue j).ppid == pid then 0 else (queue j).ppid)
  orphaned-ppid j b =
      ap (λ t. t.ppid) (for_each-inside max (orphan pid) ended j (ground arith))
      ∙ same (ended j) (queue j) (update-keeps (λ t. t.ppid) queue i _ j refl)
    where
      same :
          (t u : Task)
          → t.ppid ≡ u.ppid
          → (orphan pid t).ppid ≡ (if u.ppid == pid then 0 else u.ppid)
      same t u e = ground arith

  -- The pid stays; the children of the ended task are those of task 0.
  pub end_task-pid : (j : ℕ) → (end_task i pid queue j).pid ≡ (queue j).pid
  unfolding end_task
  end_task-pid j =
      let kept =
        for_each-keeps (λ t. t.pid) max 0 (orphan pid) ended j orphan-pid
        ∙ update-keeps (λ t. t.pid) queue i _ j refl in
      elim (Bool-cases (is (orphaned (orphaned i).ppid).state State.wait)) [
        | inl w ↦ rw w (update-keeps (λ t. t.pid) orphaned (orphaned i).ppid _ j refl ∙ kept)
        | inr w ↦ rw w kept
      ]

  pub end_task-ppid :
      (j : ℕ)
      → j < max
      → (end_task i pid queue j).ppid ≡ (if (queue j).ppid == pid then 0 else (queue j).ppid)
  unfolding end_task
  end_task-ppid j b = elim (Bool-cases (is (orphaned (orphaned i).ppid).state State.wait)) [
    | inl w ↦
        rw w (update-keeps (λ t. t.ppid) orphaned (orphaned i).ppid _ j refl ∙ orphaned-ppid j b)
    | inr w ↦ rw w (orphaned-ppid j b)
  ]

  ended-state : (j : ℕ) → (orphaned j).state ≡ (if i == j then zombie else (queue j).state)
  ended-state j = orphaned-state j ∙ update-at (λ t. t.state) queue i _ j

  -- The ended task is a zombie, its parent runs if it waited, and no other state changes.
  pub end_task-state :
      (j : ℕ)
      → i < max
      → (end_task i pid queue j).state ≡ (
          if i == j
          then zombie
          else if (parent_of == j) && is (queue j).state State.wait
          then running
          else (queue j).state)
  unfolding end_task
  end_task-state j b =
      let p = (orphaned i).ppid in
      let at : p ≡ parent_of = orphaned-ppid i b in
      let s : ℕ → State = λ x. (queue x).state in
      elim (Bool-cases (is (orphaned p).state State.wait)) [
        | inl w ↦ rw w (
            update-at (λ t. t.state) orphaned p _ j
            ∙ rw (ended-state j, at)
                (told i j parent_of s (
                  subst (λ x. is (if i == x then zombie else (queue x).state) State.wait ≡ true) at
                    (sym (ap (λ x. is x State.wait) (ended-state p)) ∙ w))))
        | inr w ↦ rw w (
            ended-state j
            ∙ untold i j parent_of s (
                subst (λ x. is (if i == x then zombie else (queue x).state) State.wait ≡ false) at
                  (sym (ap (λ x. is x State.wait) (ended-state p)) ∙ w)))
      ]
