-- ===== src/Process/Born.antt =====
-- The slot that a new task takes, and what createChild puts there (sys/process.c).
use late_os.Common.{
  ℕ, zero, suc, ◌+◌, ◌-◌, ◌≤◌, ◌<◌, ◌≡◌, ◌≢◌, refl, sym, ap, ◌∙◌, subst, inl, inr, false, Option,
  none, some, arith, ◌==◌, Bool-cases, ==→eq, update_self, update-ne, List, some_pair,
  some-injective, [], ◌∷◌,
}
use late_os.Memory.{Memory, pure, kernbase, memset_page, bind-some}
use late_os.Memory.Kernel.{kmalloc, get_new_page}
use late_os.Memory.Cow.{copytables}
use late_os.Process.{Task, VmArea, Kernel, running, ready, is, is→eq, max, current_pid}
use late_os.Process.Create.{
  find_ready, new_pid, create_child, copy_space, with_child, copy_vma, vma_size,
}

-- The first READY slot, or none is READY.
pub data FreeSlot (n from : ℕ) (queue : ℕ → Task) : Option ℕ → Type 0 where
  slot :
      {i : ℕ}
      → from ≤ i
      → i < from + n
      → (queue i).state ≡ ready
      → ((j : ℕ) → from ≤ j → j < i → is (queue j).state ready ≡ false)
      → FreeSlot n from queue (some i)
  full :
      ((j : ℕ) → from ≤ j → j < from + n → is (queue j).state ready ≡ false)
      → FreeSlot n from queue none

FreeSlot-later :
    (n from : ℕ) (queue : ℕ → Task) {r : Option ℕ}
    → is (queue from).state ready ≡ false
    → FreeSlot n (from + 1) queue r
    → FreeSlot (suc n) from queue r
FreeSlot-later n from queue e (slot lo hi free before) =
    slot (omega arith) (omega arith) free (λ j a b. elim (Bool-cases (j == from)) [
      | inl here ↦ subst (λ x. is (queue x).state ready ≡ false) (sym (==→eq j from here)) e
      | inr later ↦ before j (ground arith) b
    ])
FreeSlot-later n from queue e (full used) = full (λ j a b. elim (Bool-cases (j == from)) [
  | inl here ↦ subst (λ x. is (queue x).state ready ≡ false) (sym (==→eq j from here)) e
  | inr later ↦ used j (ground arith) (omega arith)
])

find_ready-FreeSlot :
    (n from : ℕ) (queue : ℕ → Task) → FreeSlot n from queue (find_ready n from queue)
unfolding find_ready
find_ready-FreeSlot zero from queue = full (λ j a b. absurd (omega arith))
find_ready-FreeSlot (suc n) from queue = elim (Bool-cases (is (queue from).state ready)) [
  | inl e ↦ rw e (
      slot (omega arith) (omega arith) (is→eq (queue from).state ready e)
        (λ j a b. absurd (omega arith)))
  | inr e ↦ rw e (FreeSlot-later n from queue e (find_ready-FreeSlot n (from + 1) queue))
]

pub new_pid-ready :
    (queue : ℕ → Task) (i : ℕ) → new_pid queue ≡ some i → (i < max) × ((queue i).state ≡ ready)
unfolding new_pid
new_pid-ready queue i e = free (find_ready max 0 queue) e (find_ready-FreeSlot max 0 queue)
  where
    free :
        (o : Option ℕ) → o ≡ some i → FreeSlot max 0 queue o → (i < max) × ((queue i).state ≡ ready)
    free (some j) e' (slot lo hi r before) =
        let same : j ≡ i = some-injective _ _ e' in (rw (← same) (omega arith), rw (← same) r)
    free none e' (full used) = cc

-- A free slot is found if there is one.
pub new_pid-found :
    (queue : ℕ → Task) (i : ℕ)
    → i < max
    → (queue i).state ≡ ready
    → (d : ℕ) × (new_pid queue ≡ some d)
unfolding new_pid
new_pid-found queue i b r = found (find_ready max 0 queue) (find_ready-FreeSlot max 0 queue)
  where
    found : (o : Option ℕ) → FreeSlot max 0 queue o → (d : ℕ) × (o ≡ some d)
    found (some d) s = (d, refl)
    found none (full used) = cc (used i (omega arith) (omega arith), r)

-- What a successful `createChild` has done.
pub record Created (k : Kernel) (dup : ℕ) (k' : Kernel) : Type 0 where
  pub bound : dup < max
  pub was_free : (k.task_queue dup).state ≡ ready
  pub state : (k'.task_queue dup).state ≡ running
  pub pid : (k'.task_queue dup).pid ≡ dup
  pub ppid : (k'.task_queue dup).ppid ≡ current_pid k
  pub areas : (k'.task_queue dup).vm ≡ (k.task_queue k.current_task).vm
  pub others : (j : ℕ) → j ≢ dup → k'.task_queue j ≡ k.task_queue j
  pub current : k'.current_task ≡ k.current_task

copy_vma-same : (vm vm' : List VmArea) (m m' : Memory) → copy_vma vm m ≡ some (vm', m') → vm' ≡ vm
unfolding copy_vma
copy_vma-same [] vm' m m' e = sym (some_pair [] vm' m m' e).0
copy_vma-same (a ∷ areas) vm' m m' e =
    let (node, m₁, got, e₁) = bind-some (kmalloc vma_size) _ m e in
    let (copied, m₂, rest, e₂) = bind-some (copy_vma areas) (λ bs. pure (a ∷ bs)) m₁ e₁ in
    sym (some_pair (a ∷ copied) vm' m₂ m' e₂).0
    ∙ ap (λ bs. a ∷ bs) (copy_vma-same areas copied m₁ m₂ rest)

copy_space-vm :
    (parent : Task) (pml4 : ℕ) (vm : List VmArea) (m m' : Memory)
    → copy_space parent m ≡ some ((pml4, vm), m')
    → vm ≡ parent.vm
unfolding copy_space
copy_space-vm parent pml4 vm m m' e =
    let (page, m₁, got, e₁) = bind-some get_new_page _ m e in
    let (u, m₂, set, e₂) = bind-some (memset_page (page - kernbase)) _ m₁ e₁ in
    let (u', m₃, tables, e₃) = bind-some (copytables parent.pml4e (page - kernbase)) _ m₂ e₂ in
    let (copied, m₄, areas, e₄) =
      bind-some (copy_vma parent.vm) (λ bs. pure (page - kernbase, bs)) m₃ e₃ in
    let same = (some_pair (page - kernbase, copied) (pml4, vm) m₄ m' e₄).0 in
    sym (ap (λ t. t.1) same) ∙ copy_vma-same parent.vm copied m₃ m₄ areas

with_child-Created :
    (k : Kernel) (dup pml4 : ℕ) (vm : List VmArea) (memory : Memory)
    → dup < max
    → (k.task_queue dup).state ≡ ready
    → vm ≡ (k.task_queue k.current_task).vm
    → Created k dup (with_child k dup pml4 vm memory)
unfolding with_child
with_child-Created k dup pml4 vm memory b r e = record {
  bound = b;
  was_free = r;
  state = ap (λ t. t.state) (update_self k.task_queue dup _);
  pid = ap (λ t. t.pid) (update_self k.task_queue dup _);
  ppid = ap (λ t. t.ppid) (update_self k.task_queue dup _);
  areas = ap (λ t. t.vm) (update_self k.task_queue dup _) ∙ e;
  others = λ j ne. update-ne k.task_queue dup j _ (λ x. ne (sym x));
  current = refl;
}

pub create_child-Created :
    (k k' : Kernel) (dup : ℕ) → create_child k ≡ some (dup, k') → Created k dup k'
unfolding create_child
create_child-Created k k' dup e = chosen (new_pid k.task_queue) refl e
  where
    copied :
        (d : ℕ) (o : Option ((ℕ × List VmArea) × Memory))
        → new_pid k.task_queue ≡ some d
        → copy_space (k.task_queue k.current_task) k.memory ≡ o
        → ◌≡◌ {A = Option (ℕ × Kernel)}
            (elim o [
              | none ↦ none
              | some ((pml4, vm), memory) ↦ some (d, with_child k d pml4 vm memory)
            ])
            (some (dup, k'))
        → Created k dup k'
    copied d none got c h = cc
    copied d (some ((pml4, vm), memory)) got c h =
        let (same, same') = some_pair d dup (with_child k d pml4 vm memory) k' h in
        let (b, r) = new_pid-ready k.task_queue d got in
        let made =
          with_child-Created k d pml4 vm memory b r (copy_space-vm _ pml4 vm k.memory memory c) in
        subst (λ x. Created k dup x) same'
          (subst (λ x. Created k x (with_child k d pml4 vm memory)) same made)

    chosen :
        (o : Option ℕ)
        → new_pid k.task_queue ≡ o
        → ◌≡◌ {A = Option (ℕ × Kernel)}
            (elim o [
              | none ↦ none
              | some d ↦ elim (copy_space (k.task_queue k.current_task) k.memory) [
                | none ↦ none
                | some ((pml4, vm), memory) ↦ some (d, with_child k d pml4 vm memory)
              ]
            ])
            (some (dup, k'))
        → Created k dup k'
    chosen none got h = cc
    chosen (some d) got h = copied d (copy_space (k.task_queue k.current_task) k.memory) got refl h

pub create_child-returns :
    (k : Kernel) (dup : ℕ) (space : (ℕ × List VmArea) × Memory)
    → new_pid k.task_queue ≡ some dup
    → copy_space (k.task_queue k.current_task) k.memory ≡ some space
    → create_child k ≡ some (dup, with_child k dup space.0.0 space.0.1 space.1)
unfolding create_child
create_child-returns k dup space found enough = rw (found, enough, create_child) refl
