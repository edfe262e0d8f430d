-- ===== src/Process/Forked.antt =====
-- The table behind a fork (sys/process.c).
use late_os.Common.{
  ℕ, ◌+◌, ◌<◌, ◌≡◌, ◌≢◌, refl, sym, ap, ◌∙◌, subst, inl, inr, false, Option, none, some, ◌==◌,
  Bool-cases, ==→eq, eq→==, update, update_self, update-ne, List, some_pair,
}
use late_os.Memory.{Memory}
use late_os.Process.{Task, VmArea, Kernel, Layout, State, running, ready, is, max, current_pid}
use late_os.Process.Create.{
  create_child, fork, copy_space, pos_infinity, fork_child, increase_child_count,
}
use late_os.Process.Invariant.{IsTable, IsValid}
use late_os.Process.Born.{Created, create_child-Created, create_child-returns, new_pid-found}

-- The table behind a fork.
pub record Forked (layout : Layout) (ra rsp : ℕ) (k : Kernel) (child : ℕ) (k' : Kernel)
    : Type 0 where
  pub valid : IsValid k'
  pub was_free : (k.task_queue child).state ≡ ready
  pub state : (k'.task_queue child).state ≡ running
  pub ppid : (k'.task_queue child).ppid ≡ k.current_task
  pub areas : (k'.task_queue child).vm ≡ (k.task_queue k.current_task).vm
  pub marked : (k'.task_queue child).kstack 14 ≡ pos_infinity
  pub returns_to : (k'.task_queue child).regs.rip ≡ ra
  pub stack :
      (i : ℕ) → i ≢ 14 → (k'.task_queue child).kstack i ≡ (k.task_queue k.current_task).kstack i
  pub parent : k'.task_queue k.current_task ≡ record (k.task_queue k.current_task) {
    child_count = (k.task_queue k.current_task).child_count + 1;
  }
  pub others : (j : ℕ) → j ≢ child → j ≢ k.current_task → k'.task_queue j ≡ k.task_queue j
  pub current : k'.current_task ≡ k.current_task

module _ (layout : Layout) (ra rsp : ℕ) (k k₁ : Kernel) (dup : ℕ) (valid : IsValid k)
    (live : is (k.task_queue k.current_task).state ready ≡ false) (c : Created k dup k₁) where
  apart : dup ≢ k.current_task
  apart e = cc (live, ap (λ x. is (k.task_queue x).state ready) e, ap (λ s. is s ready) c.was_free)

  abbrev counted : ℕ → Task
  counted =
      update k₁.task_queue k₁.current_task (increase_child_count (k₁.task_queue k₁.current_task))

  abbrev forked : ℕ → Task
  forked =
      update counted dup
        (fork_child layout k₁.current_task dup ra rsp (counted k₁.current_task) (counted dup))

  counted-dup : counted dup ≡ k₁.task_queue dup
  counted-dup = update-ne k₁.task_queue k₁.current_task dup _ (λ e. apart (sym e ∙ c.current))

  counted-current : counted k₁.current_task ≡ increase_child_count (k.task_queue k.current_task)
  counted-current =
      update_self k₁.task_queue k₁.current_task _
      ∙ ap increase_child_count
          (ap k₁.task_queue c.current ∙ c.others k.current_task (λ e. apart (sym e)))

  forked-child :
      forked dup
      ≡ fork_child layout k₁.current_task dup ra rsp
          (increase_child_count (k.task_queue k.current_task))
          (k₁.task_queue dup)
  forked-child =
      update_self counted dup _
      ∙ ap (λ p. fork_child layout k₁.current_task dup ra rsp p (counted dup)) counted-current
      ∙ ap
          (fork_child layout k₁.current_task dup ra rsp
            (increase_child_count (k.task_queue k.current_task)))
          counted-dup

  forked-current : forked k.current_task ≡ increase_child_count (k.task_queue k.current_task)
  forked-current =
      update-ne counted dup k.current_task _ apart ∙ ap counted (sym c.current) ∙ counted-current

  forked-other : (j : ℕ) → j ≢ dup → j ≢ k.current_task → forked j ≡ k.task_queue j
  forked-other j ne ne' =
      update-ne counted dup j _ (λ e. ne (sym e))
      ∙ update-ne k₁.task_queue k₁.current_task j _ (λ e. ne' (sym e ∙ c.current))
      ∙ c.others j ne

  child_pid : (forked dup).pid ≡ dup
  unfolding fork_child
  child_pid = ap (λ t. t.pid) forked-child ∙ c.pid

  child_ppid : (forked dup).ppid ≡ current_pid k
  unfolding fork_child
  child_ppid = ap (λ t. t.ppid) forked-child ∙ c.ppid

  forked-keeps :
      (B : Type 0) (g : Task → B)
      → ((t : Task) → g (increase_child_count t) ≡ g t)
      → (j : ℕ) → j ≢ dup
      → g (forked j) ≡ g (k.task_queue j)
  forked-keeps B g kept j ne = elim (Bool-cases (j == k.current_task)) [
    | inl e ↦
        let same = ==→eq j k.current_task e in
        ap (λ x. g (forked x)) same
        ∙ ap g forked-current
        ∙ kept (k.task_queue k.current_task)
        ∙ ap (λ x. g (k.task_queue x)) (sym same)
    | inr e ↦ ap g (forked-other j ne (λ x. cc (eq→== j k.current_task x)))
  ]

  forked-pid : (j : ℕ) → j ≢ dup → (forked j).pid ≡ (k.task_queue j).pid
  unfolding increase_child_count
  forked-pid = forked-keeps ℕ (λ t. t.pid) (λ t. refl)

  forked-ppid : (j : ℕ) → j ≢ dup → (forked j).ppid ≡ (k.task_queue j).ppid
  unfolding increase_child_count
  forked-ppid = forked-keeps ℕ (λ t. t.ppid) (λ t. refl)

  forked-ready : (j : ℕ) → j ≢ dup → (forked j).state ≡ (k.task_queue j).state
  unfolding increase_child_count
  forked-ready = forked-keeps State (λ t. t.state) (λ t. refl)

  forked-IsTable : IsTable forked k₁.current_task
  forked-IsTable = record {
    current_bound = rw c.current valid.current_bound;
    current_own =
        ap (λ x. (forked x).pid) c.current
        ∙ forked-pid k.current_task (λ e. apart (sym e))
        ∙ valid.current_own
        ∙ sym c.current;
    own = λ j b r. elim (Bool-cases (j == dup)) [
      | inl e ↦ subst (λ x. (forked x).pid ≡ x) (sym (==→eq j dup e)) child_pid
      | inr e ↦
          let ne : j ≢ dup = λ x. cc (eq→== j dup x) in
          forked-pid j ne ∙ valid.own j b (sym (ap (λ s. is s ready) (forked-ready j ne)) ∙ r)
    ];
    parent = λ j b. elim (Bool-cases (j == dup)) [
      | inl e ↦
          subst (λ x. (forked x).ppid < max) (sym (==→eq j dup e))
            (subst (λ x. x < max) (sym (child_ppid ∙ valid.current_own)) valid.current_bound)
      | inr e ↦
          subst (λ x. x < max) (sym (forked-ppid j (λ x. cc (eq→== j dup x)))) (valid.parent j b)
    ];
  }

  forked-Forked : Forked layout ra rsp k dup (record k₁ { task_queue = forked })
  unfolding fork_child increase_child_count
  forked-Forked = record {
    valid = forked-IsTable;
    was_free = c.was_free;
    state = ap (λ t. t.state) forked-child ∙ c.state;
    ppid = child_ppid ∙ valid.current_own;
    areas = ap (λ t. t.vm) forked-child ∙ c.areas;
    marked =
        ap (λ t. t.kstack 14) forked-child
        ∙ update_self (k.task_queue k.current_task).kstack 14 pos_infinity;
    returns_to = ap (λ t. t.regs.rip) forked-child;
    stack = λ i ne.
        ap (λ t. t.kstack i) forked-child
        ∙ update-ne (k.task_queue k.current_task).kstack 14 i pos_infinity (λ e. ne (sym e));
    parent = forked-current;
    others = forked-other;
    current = c.current;
  }

returned-Forked :
    (layout : Layout) (ra rsp : ℕ) (k k' : Kernel) (child : ℕ)
    → IsValid k
    → is (k.task_queue k.current_task).state ready ≡ false
    → fork layout ra rsp k ≡ some (child, k')
    → Forked layout ra rsp k child k'
unfolding fork
returned-Forked layout ra rsp k k' child valid live e = created (create_child k) refl e
  where
    created :
        (o : Option (ℕ × Kernel))
        → create_child k ≡ o
        → ◌≡◌ {A = Option (ℕ × Kernel)}
            (elim o [
              | none ↦ none
              | some (dup, k₁) ↦
                  let i = k₁.current_task in
                  let queue = update k₁.task_queue i (increase_child_count (k₁.task_queue i)) in
                  some (
                    (queue dup).pid,
                    record k₁ {
                      task_queue =
                          update queue dup (fork_child layout i dup ra rsp (queue i) (queue dup));
                    },
                  )
            ])
            (some (child, k'))
        → Forked layout ra rsp k child k'
    created none h e' = cc
    created (some (dup, k₁)) h e' =
        let c = create_child-Created k k₁ dup h in
        let f = forked-Forked layout ra rsp k k₁ dup valid live c in
        let pid = ap (λ t. t.pid) (counted-dup layout ra rsp k k₁ dup valid live c) ∙ c.pid in
        let table = forked layout ra rsp k k₁ dup valid live c in
        let queue = counted layout ra rsp k k₁ dup valid live c in
        let (same, same') =
          some_pair (queue dup).pid child (record k₁ { task_queue = table }) k' e' in
        subst (λ x. Forked layout ra rsp k child x) same'
          (subst (λ x. Forked layout ra rsp k x (record k₁ { task_queue = table })) (sym pid ∙ same)
            f)

fork-returns :
    (layout : Layout) (ra rsp : ℕ) (k k₁ : Kernel) (dup : ℕ)
    → create_child k ≡ some (dup, k₁)
    → (r : ℕ × Kernel) × (fork layout ra rsp k ≡ some r)
unfolding fork
fork-returns layout ra rsp k k₁ dup e = rw (e, fork) (_, refl)

-- Called by a live task of a valid table with a free slot, and memory for the copy of the caller's
-- address space, `fork` returns the child's pid: the child's slot was free, it is a runnable child of
-- the caller with the caller's areas and a copy of its kernel stack but for the mark that it is the
-- child, it starts at the return address of `fork`, the caller has one child more, and all other
-- tasks and the validity are kept.
pub fork-Forked :
    (layout : Layout) (ra rsp : ℕ) (k : Kernel) (slot : ℕ) (space : (ℕ × List VmArea) × Memory)
    → IsValid k
    → is (k.task_queue k.current_task).state ready ≡ false
    → slot < max
    → (k.task_queue slot).state ≡ ready
    → copy_space (k.task_queue k.current_task) k.memory ≡ some space
    → (child : ℕ) × (k' : Kernel) × (fork layout ra rsp k ≡ some (child, k'))
      × Forked layout ra rsp k child k'
fork-Forked layout ra rsp k slot space valid live b free enough =
    let (dup, found) = new_pid-found k.task_queue slot b free in
    let (r, e) =
      fork-returns layout ra rsp k _ dup (create_child-returns k dup space found enough) in
    (r.0, r.1, e, returned-Forked layout ra rsp k r.1 r.0 valid live e)
