-- ===== src/Process/Areas.antt =====
-- The areas of a task, its heap, and what the kernel tells of tasks (sys/process.c).
use late_os.Common.{
  ℕ, zero, suc, ◌+◌, ◌-◌, ◌*◌, ◌/◌, ◌%◌, ◌^◌, ◌==◌, ◌&&◌, ◌||◌, Bool, Option, none, some, List, [],
  ◌∷◌, if◌then◌else◌, update,
}
use late_os.Memory.{M, pure, ◌>>=◌, ◌>>◌, slot, frame, load, get_free_frame, page_size, kernbase}
use late_os.Memory.Kernel.{kmalloc}
use late_os.Memory.Tables.{init_task_pagetables}
use late_os.Process.{Task, VmArea, Kernel, State, running, hang, is, max}
use late_os.Process.Create.{new_pid, vma_size}

-- `initTaskVariables`; with no slot left the code writes in front of the array, a fault here.
unfoldable pub init_task_variables : List ℕ → Kernel → Option (ℕ × Kernel)
init_task_variables filename k = elim (new_pid k.task_queue) [
  | none ↦ none
  | some pid ↦
      let t = k.task_queue pid in
      some (
        pid,
        record k {
          task_queue = update k.task_queue pid (record t {
            name = filename;
            curr_dir = b'/' ∷ [];
            ppid = 0;
            pid = pid;
            vm = [];
            state = running;
          });
        },
      )
]

-- `setupVMA` of a program header: the ends of the area, and the page at which its mapping begins.
unfoldable pub setup_vma : (p_vaddr p_memsz : ℕ) → ℕ × ℕ × ℕ
setup_vma p_vaddr p_memsz = (
  p_vaddr,
  (p_vaddr + p_memsz) % 2 ^ 64,
  if p_vaddr % page_size == 0 then p_vaddr else frame p_vaddr,
)

-- A new area in front. The code does not set its offset, which is what the new page holds there.
unfoldable pub set_my_vma : (from to_end : ℕ) → List VmArea → M (List VmArea)
set_my_vma from to_end vm = do
  node ← kmalloc vma_size
  offset ← load (slot (node - kernbase) 2)
  pure (record { begin_address = from; last_address = to_end; offset = offset } ∷ vm)

-- The stack of a program: `ustack`, `rsp` and the areas behind `setNewVMA`.
unfoldable pub set_new_vma : (pml4e from to_end : ℕ) → Task → M Task
unfolding set_my_vma
set_new_vma pml4e from to_end t = do
  physical ← get_free_frame
  init_task_pagetables from physical pml4e
  vm ← set_my_vma from to_end t.vm
  pure (record t { ustack = from; rsp = (from + 510 * 8) % 2 ^ 64; vm = vm })

-- The loop of `malloc`: pages mapped from `last` on; the new end.
unfoldable pub grow : (n last pml4e : ℕ) → M ℕ
grow zero last pml4e = pure last
grow (suc n) last pml4e = do
  s_add ← get_free_frame
  init_task_pagetables last s_add pml4e
  grow n ((last + page_size) % 2 ^ 64) pml4e

-- `malloc`: the second area is the heap; the task faults where there is none.
unfoldable pub malloc : (no_of_bytes : ℕ) → Kernel → Option (ℕ × Kernel)
unfolding grow
malloc no_of_bytes k =
    let i = k.current_task in
    let t = k.task_queue i in
    elim t.vm [
      | [] ↦ none
      | (a ∷ []) ↦ none
      | (a ∷ vm ∷ areas) ↦
          elim (grow (no_of_bytes / page_size + 1) vm.last_address t.pml4e k.memory) [
            | none ↦ none
            | some (last, memory) ↦
                let t' = record t { vm = a ∷ record vm { last_address = last } ∷ areas } in
                some (
                  vm.last_address,
                  record k { task_queue = update k.task_queue i t'; memory = memory },
                )
          ]
    ]

unfoldable pub still_alive : Task → Bool
still_alive t =
    is t.state running || is t.state State.sleep || is t.state State.wait || is t.state hang

-- The tasks that `ps` lists, with pid and name, of the `n` from `from` on.
unfoldable pub listed : (n from : ℕ) → (ℕ → Task) → List (ℕ × List ℕ)
unfolding still_alive
listed zero from queue = []
listed (suc n) from queue =
    let rest = listed n (from + 1) queue in
    let t = queue from in if still_alive t then (t.pid, t.name) ∷ rest else rest

unfoldable pub ps : (ℕ → Task) → List (ℕ × List ℕ)
unfolding listed
ps queue = listed max 0 queue

-- `getTaskPPID`
unfoldable pub get_task_ppid : Kernel → ℕ
get_task_ppid k = (k.task_queue k.current_task).ppid

-- All but the last character.
unfoldable pub cut_last : List ℕ → List ℕ
cut_last [] = []
cut_last (c ∷ []) = []
cut_last (c ∷ d ∷ cs) = c ∷ cut_last (d ∷ cs)

-- `getCurrentDirectory`: the directory without its last character, but for a single one. An empty name
-- is cut in front of the buffer.
unfoldable pub get_current_directory : Kernel → Option (List ℕ)
unfolding cut_last
get_current_directory k = elim (k.task_queue k.current_task).curr_dir [
  | [] ↦ none
  | (c ∷ []) ↦ some (c ∷ [])
  | (c ∷ d ∷ cs) ↦ some (c ∷ cut_last (d ∷ cs))
]

unfoldable pub valid_path : List ℕ → Bool
valid_path [] = Bool.false
valid_path (c ∷ []) = Bool.false
valid_path (c ∷ d ∷ cs) = (c == b'.') && (d == b'/')
