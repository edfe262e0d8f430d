-- ===== src/Fault.antt =====
-- Page faults (isr14 in sys/idt.c, getPTE in sys/paging.c).
--
-- CR2, the address of the fault, is an argument. A fault is served in the address space of the current
-- task, whose pages are read and written by their physical addresses.
pub mod Areas
pub mod Private
pub mod Served
pub mod Tests
use late_os.Common.{
  ℕ, zero, suc, ◌+◌, ◌*◌, ◌/◌, ◌%◌, ◌^◌, ◌==◌, ◌&&◌, ◌||◌, Bool, true, false, Option, none, some,
  List, [], ◌∷◌, ltb, not, if◌then◌else◌, update,
}
use late_os.Memory.{
  M, pure, ◌>>=◌, ◌>>◌, Memory, slot, frame, present, index4, index3, index2, index1, load,
  get_free_frame, page_size,
}
use late_os.Memory.Tables.{init_task_pagetables}
use late_os.Process.{VmArea, Kernel, Layout}
use late_os.Process.Exit.{exit}

-- `checkForVM`
unfoldable pub check_for_vm : List VmArea → ℕ → Bool
check_for_vm [] cr2 = false
check_for_vm (vm ∷ areas) cr2 =
    let rest = check_for_vm areas cr2 in
    if ltb vm.begin_address cr2 && ltb cr2 vm.last_address then true else rest

-- `isValid` of `checkValid`, whose task has the area `vm` in front.
unfoldable pub check_valid : VmArea → List VmArea → ℕ → Bool
unfolding check_for_vm
check_valid vm areas vmem =
    if ltb vmem ((vm.begin_address + page_size) % 2 ^ 64) && ltb vm.last_address vmem
    then true
    else check_for_vm (vm ∷ areas) vmem

-- The physical address of the last table of the walk, by entries that are not tested.
unfoldable pub get_pte : (pml4e address : ℕ) → M ℕ
get_pte pml4e address = do
  e4 ← load (slot pml4e (index4 address))
  e3 ← load (slot (frame e4) (index3 address))
  e2 ← load (slot (frame e3) (index2 address))
  pure (frame e2)

-- `memcpy` of a page to a page above it, from the last word down.
unfoldable pub copy_words : (n source dest : ℕ) → (ℕ → ℕ) → ℕ → ℕ
copy_words zero source dest word = word
copy_words (suc n) source dest word =
    copy_words n source dest (update word (dest + n) (word (source + n)))

unfoldable pub copy_page : (source dest : ℕ) → M (Unit {0})
unfolding copy_words
copy_page source dest m = some (tt, record m { word = copy_words 512 source dest m.word })

-- The page of `vaddr` is read where the entry `addr` has it.
unfoldable pub copy_new_memory : (pml4e vaddr addr : ℕ) → M (Unit {0})
unfolding copy_page
copy_new_memory pml4e vaddr addr = do
  copy_frame ← get_free_frame
  copy_page (addr / 8) (copy_frame / 8)
  init_task_pagetables (frame vaddr) copy_frame pml4e

unfoldable pub copy_from_pml4 : (pml4e vaddr : ℕ) → M (Unit {0})
copy_from_pml4 pml4e vaddr = do
  copy_frame ← get_free_frame
  init_task_pagetables (frame vaddr) copy_frame pml4e

-- What a page fault comes to: the handler goes back to the task, or the task has ended and another one
-- runs.
pub data Fault : Type 0 where
  served : Kernel → Fault
  ended : Kernel → Fault
  stuck : Fault

-- `exit` of the current task of `k`, and the code behind it, to which it comes back where no task is
-- runnable.
abbrev pub finish : Kernel → (Kernel → Fault) → Option Kernel → Fault
finish k behind none = stuck
finish k behind (some k') = if k'.current_task == k.current_task then behind k' else ended k'

abbrev pub serve : M (Unit {0}) → Kernel → Fault
serve c k = elim (c k.memory) [
  | none ↦ stuck
  | some (_, memory) ↦ served (record k { memory = memory })
]

-- The part of `isr14` behind `checkValid`, for the entry of the page.
unfoldable pub serve_entry : Layout → VmArea → (vaddr e : ℕ) → Kernel → Fault
serve_entry layout vm vaddr e k =
    let pml4e = (k.task_queue k.current_task).pml4e in
    if not (e / 512 % 2 == 0)
    then (if present e then serve (copy_new_memory pml4e vaddr (frame e)) k else stuck)
    else if ltb vaddr vm.begin_address && ltb vm.last_address vaddr
    then serve (copy_from_pml4 pml4e vaddr) k
    else finish k served (exit layout k)

-- `isr14` from `getPTE` on, for a task with the area `vm` in front.
unfoldable pub fault_entry : Layout → VmArea → (vaddr : ℕ) → Kernel → Fault
fault_entry layout vm vaddr k = elim (get_pte (k.task_queue k.current_task).pml4e vaddr k.memory) [
  | none ↦ stuck
  | some (pte, m) ↦ serve_entry layout vm vaddr (m.word (slot pte (index1 vaddr))) k
]

-- `isr14`; a task with no area is a null dereference.
unfoldable pub isr14 : Layout → (vaddr : ℕ) → Kernel → Fault
isr14 layout vaddr k =
    let t = k.task_queue k.current_task in
    elim t.vm [
      | [] ↦ stuck
      | (vm ∷ areas) ↦
          if check_valid vm areas vaddr
          then fault_entry layout vm vaddr k
          else finish k (fault_entry layout vm vaddr) (exit layout k)
    ]
