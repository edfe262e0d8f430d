-- ===== src/Process/Create.antt =====
-- New tasks: newPID, initFirstTask, initTask, and fork with what it calls (sys/process.c).
use late_os.Common.{
  ℕ, zero, suc, ◌+◌, ◌-◌, ◌*◌, ◌%◌, ◌^◌, Option, none, some, List, [], ◌∷◌, if◌then◌else◌, update,
  for_each,
}
use late_os.Memory.{Memory, M, pure, ◌>>=◌, ◌>>◌, kernbase, memset_page}
use late_os.Memory.Kernel.{get_new_page, kmalloc}
use late_os.Memory.Cow.{copytables}
use late_os.Process.{Task, VmArea, Kernel, Layout, running, ready, is, max}

-- The first free slot of the `n` from `from` on.
unfoldable pub find_ready : (n from : ℕ) → (ℕ → Task) → Option ℕ
find_ready zero from queue = none
find_ready (suc n) from queue =
    let rest = find_ready n (from + 1) queue in
    if is (queue from).state ready then some from else rest

-- `none` is the code's -1.
unfoldable pub new_pid : (ℕ → Task) → Option ℕ
new_pid queue = find_ready max 0 queue

unfoldable pub init_first_task : Kernel → Kernel
init_first_task k = record k {
  task_queue = for_each max 0 (λ t. record t { state = ready; fd_c = 0; time = 0 }) k.task_queue;
}

-- A kernel task that starts at the address `function`. With no slot left the code writes in front of
-- the array, which is a fault here.
unfoldable pub setup_task : Layout → List ℕ → ℕ → Kernel → Option Kernel
setup_task layout name function k = elim (new_pid k.task_queue) [
  | none ↦ none
  | some pid ↦
      let t = k.task_queue pid in
      some (record k {
        task_queue = update k.task_queue pid (record t {
          pid = pid;
          name = name;
          state = running;
          regs = record { rip = function; rsp = layout.kstack_top pid };
          pml4e = k.cpu.cr3;
        });
      })
]

-- `initTask`; the arguments are the addresses of the functions `in` and `idle`.
unfoldable pub init_task : Layout → (in_address idle_address : ℕ) → Kernel → Option Kernel
init_task layout in_address idle_address k =
    elim (setup_task layout (b'i' ∷ b'n' ∷ b'i' ∷ b't' ∷ []) in_address k) [
      | none ↦ none
      | some k' ↦ setup_task layout (b'i' ∷ b'd' ∷ b'l' ∷ b'e' ∷ []) idle_address k'
    ]

-- `sizeof(struct vmaStruct)`
abbrev pub vma_size : ℕ
vma_size = 32

-- A node is allocated for each area of the parent.
unfoldable pub copy_vma : List VmArea → M (List VmArea)
copy_vma [] = pure []
copy_vma (a ∷ areas) = do node ← kmalloc vma_size; copied ← copy_vma areas; pure (a ∷ copied)

-- The memory part of `copytask`: a cleared top table, the tables below it, the areas. The result is
-- the physical address of the top table and the areas.
unfoldable pub copy_space : Task → M (ℕ × List VmArea)
copy_space parent = do
  page ← get_new_page
  memset_page (page - kernbase)
  copytables parent.pml4e (page - kernbase)
  vm ← copy_vma parent.vm
  pure (page - kernbase, vm)

-- `STACK_S`
abbrev pub stack_s : ℕ
stack_s = 0x100FFFFF0000

-- The fields that `createChild` and `copytask` set. Open files and the rest of the slot stay.
unfoldable pub with_child : Kernel → (dup pml4 : ℕ) → List VmArea → Memory → Kernel
with_child k dup pml4 vm memory =
    let parent = k.task_queue k.current_task in
    let t = k.task_queue dup in
    record k {
      memory = memory;
      task_queue = update k.task_queue dup (record t {
        pid = dup;
        ppid = parent.pid;
        pml4e = pml4;
        name = parent.name;
        curr_dir = parent.curr_dir;
        vm = vm;
        ustack = stack_s;
        rsp = stack_s + 511 * 8;
        state = running;
      });
    }

-- `createChild`: the pid of the new task.
unfoldable pub create_child : Kernel → Option (ℕ × Kernel)
create_child k = elim (new_pid k.task_queue) [
  | none ↦ none
  | some dup ↦ elim (copy_space (k.task_queue k.current_task) k.memory) [
    | none ↦ none
    | some ((pml4, vm), memory) ↦ some (dup, with_child k dup pml4 vm memory)
  ]
]

-- `posInfinity`, by which the child of a fork knows itself.
abbrev pub pos_infinity : ℕ
pos_infinity = 9999

-- What `fork` does to the child's slot behind `createChild`. The last two arguments are what its
-- assembly reads: its return address and the stack pointer, as far above which the child's saved stack
-- pointer lies below the end of its own kernel stack.
unfoldable pub fork_child :
    Layout → (current dup return_address rsp_address : ℕ) → Task → Task → Task
fork_child layout current dup return_address rsp_address parent child =
    let depth = (layout.kstack_top current + 2 ^ 64 - rsp_address) % 2 ^ 64 in
    record child {
      kstack = update parent.kstack 14 pos_infinity;
      regs = record {
        rip = return_address;
        rsp = (layout.kstack_top dup + 2 ^ 64 - depth) % 2 ^ 64;
      };
    }

-- `increaseChildCount`
unfoldable pub increase_child_count : Task → Task
increase_child_count t = record t { child_count = t.child_count + 1 }

unfoldable pub fork : Layout → (return_address rsp_address : ℕ) → Kernel → Option (ℕ × Kernel)
fork layout return_address rsp_address k = elim (create_child k) [
  | none ↦ none
  | some (dup, k₁) ↦
      let i = k₁.current_task in
      let queue = update k₁.task_queue i (increase_child_count (k₁.task_queue i)) in
      some (
        (queue dup).pid,
        record k₁ {
          task_queue =
              update queue dup
                (fork_child layout i dup return_address rsp_address (queue i) (queue dup));
        },
      )
]
