-- ===== src/Fault/Areas.antt =====
-- A fault outside the areas of a task ends it (sys/idt.c).
use late_os.Common.{
  ℕ, ◌+◌, ◌%◌, ◌^◌, ◌≤◌, ◌≡◌, ◌≢◌, ◌<◌, ◌==◌, ap, Bool-cases, refl, ◌∙◌, false, List, [], ◌∷◌,
  arith, All, ltb, ◌&&◌, ◌⊎◌, inl, inr,
}
use late_os.Memory.{page_size}
use late_os.Process.{VmArea, Kernel, Layout, State, running, is, max}
use late_os.Process.Life.{parent_of}
use late_os.Process.Round.{RunsAt}
use late_os.Process.Exit.{exit}
use late_os.Process.Invariant.{IsValid}
use late_os.Process.Ending.{Exited, exit-Exited}
use late_os.Fault.{check_for_vm, check_valid, fault_entry, isr14, ended, finish}

-- `address` is not behind the first byte of the area and in front of its end.
abbrev pub Outside : ℕ → VmArea → Type 0
Outside address vm = (address ≤ vm.begin_address) ⊎ (vm.last_address ≤ address)

check_for_vm-Outside :
    (areas : List VmArea) (address : ℕ)
    → All (Outside address) areas
    → check_for_vm areas address ≡ false
unfolding check_for_vm
check_for_vm-Outside [] address out = refl
check_for_vm-Outside (vm ∷ areas) address (o, out) =
    let not_here : (ltb vm.begin_address address && ltb address vm.last_address) ≡ false = elim o [
      | inl a ↦ ground arith
      | inr b ↦ ground arith
    ] in
    rw not_here (check_for_vm-Outside areas address out)

-- `address` is not between the ends of the area as one that grows down, with its first page.
abbrev pub NotBelow : ℕ → VmArea → Type 0
NotBelow address vm =
    (address ≤ vm.last_address) ⊎ ((vm.begin_address + page_size) % 2 ^ 64 ≤ address)

check_valid-Outside :
    (vm : VmArea) (areas : List VmArea) (address : ℕ)
    → All (Outside address) (vm ∷ areas)
    → NotBelow address vm
    → check_valid vm areas address ≡ false
unfolding check_valid
check_valid-Outside vm areas address out above =
    let not_stack : (ltb address ((vm.begin_address + page_size) % 2 ^ 64)
          && ltb vm.last_address address)
        ≡ false =
      elim above [ inl a ↦ ground arith | inr b ↦ ground arith ] in
    rw not_stack (check_for_vm-Outside (vm ∷ areas) address out)

isr14-finish :
    (layout : Layout) (address : ℕ) (k : Kernel) (vm : VmArea) (areas : List VmArea)
    → (k.task_queue k.current_task).vm ≡ vm ∷ areas
    → check_valid vm areas address ≡ false
    → isr14 layout address k ≡ finish k (fault_entry layout vm address) (exit layout k)
unfolding isr14
isr14-finish layout address k vm areas e invalid = rw (e, invalid, isr14) refl

-- A fault of the current task of a valid table in which another task is runnable, at an address that is
-- behind the first byte of none of its areas and in front of its end, nor between the ends of a front area
-- that grows down, ends the task as `exit` does, and another task runs.
pub isr14-Exited :
    (layout : Layout) (address : ℕ) (k : Kernel) (vm : VmArea) (areas : List VmArea) (j : ℕ)
    → IsValid k
    → j < max
    → j ≢ k.current_task
    → RunsAt k.task_queue j
    → (k.task_queue k.current_task).vm ≡ vm ∷ areas
    → All (Outside address) (vm ∷ areas)
    → NotBelow address vm
    → (e : Exited layout k) × (isr14 layout address k ≡ ended e.after)
      × (e.after.current_task ≢ k.current_task)
isr14-Exited layout address k vm areas j valid b other r here out above =
    let e = exit-Exited layout k valid in
    let no_caller : (k.current_task == j) ≡ false = ground arith in
    let still : RunsAt e.after.task_queue j =
      ap (λ s. is s running) (e.state j)
      ∙ rw no_caller
          (elim (Bool-cases (
            (parent_of k.current_task k.current_task k.task_queue == j)
            && is (k.task_queue j).state State.wait)) [ inl w ↦ rw w refl | inr w ↦ rw w r ]) in
    let away = (e.leaves j b still).0 in
    let left : (e.after.current_task == k.current_task) ≡ false = ground arith in
    (
      e,
      isr14-finish layout address k vm areas here (check_valid-Outside vm areas address out above)
          ∙ rw (e.runs, left) refl,
      away,
    )
