-- ===== src/Fault/Tests.antt =====
-- A task with the area of its code behind that of its stack, and a fault at the address 0.
use late_os.Common.{
  if◌then◌else◌, ◌==◌, ◌+◌, ℕ, ◌*◌, ◌≡◌, ◌≢◌, refl, arith, inl, some, none, List, [], ◌∷◌, All,
}
use late_os.Memory.{Memory}
use late_os.Memory.Emptied.{Freed, dealloc_task-Freed}
use late_os.Memory.Link.{bound-le}
use late_os.Memory.Walk.{next_page, Roles, IsTree, Space}
use late_os.Process.{Task, File, VmArea, Kernel, Layout, State}
use late_os.Process.Create.{stack_s}
use late_os.Process.Invariant.{IsValid}
use late_os.Process.Ending.{Exited}
use late_os.Common.{update}
use late_os.Memory.Walk.{walk}
use late_os.Process.Areas.{malloc}
use late_os.Process.Heap.{Grown, malloc-Grown}
use late_os.Fault.{isr14, ended, served, check_valid}
use late_os.Fault.Private.{Private}
use late_os.Fault.Served.{isr14-Private}
use late_os.Fault.Areas.{Outside, isr14-Exited}

abbrev stack_area : VmArea
stack_area = record { begin_address = stack_s; last_address = 0x100FFEFF0000; offset = 0 }

abbrev code_area : VmArea
code_area = record { begin_address = 0x400000; last_address = 0x402000; offset = 0 }

abbrev no_file : File
no_file = record {
  fd = 0;
  file_name = [];
  aval = 0;
  offset = 0;
  entry = 0;
  flags = 0;
  inode_num = 0;
  size = 0;
  address = 0;
}

abbrev programs : ℕ → Task
programs i = record {
  name = [];
  kstack = λ j. 0;
  ustack = stack_s;
  time = 0;
  state = State.running;
  pid = i;
  ppid = 0;
  rsp = 0;
  pml4e = 4096 * i;
  child_count = 0;
  vm = stack_area ∷ code_area ∷ [];
  curr_dir = [];
  fd = λ j. no_file;
  fd_c = 0;
  regs = record { rsp = 0; rip = 0 };
}

abbrev kernel : Kernel
kernel = record {
  task_queue = programs;
  current_task = 3;
  cpu = record { rsp = 0; rip = 0; cr3 = 0; tss_rsp0 = 0 };
  memory = record {
    word = λ i. 0;
    page_list = λ i. record { address = i * 4096; ref_count = 0; next = none };
    head = some 9;
    k_cr3 = 0;
    k_pdpte = 0;
  };
}

abbrev places : Layout
places = record { kstack_top = λ i. 4096 * i; resume = 9 }

kernel-IsValid : IsValid kernel
kernel-IsValid = record {
  current_bound = omega arith;
  current_own = refl;
  own = λ i b live. refl;
  parent = λ i b. omega arith;
}

outside : All (Outside 0) (stack_area ∷ code_area ∷ [])
outside = (inl (omega arith), (inl (omega arith), tt))

isr14-Exited_example :
    (e : Exited places kernel) × (isr14 places 0 kernel ≡ ended e.after)
    × (e.after.current_task ≢ 3)
isr14-Exited_example =
    isr14-Exited places 0 kernel stack_area (code_area ∷ []) 4 kernel-IsValid (omega arith)
      (omega arith) refl refl outside (inl (omega arith))

-- The tables of task 3 in the pages 3 to 6, and its page of 0x400000 in page 7, marked as shared.
abbrev table_words : ℕ → ℕ
table_words w =
    if w == 3 * 512
    then 4 * 4096 + 7
    else if w == 4 * 512
    then 5 * 4096 + 7
    else if w == 5 * 512 + 2
    then 6 * 4096 + 7
    else if w == 6 * 512
    then 7 * 4096 + 512 + 5
    else 0

abbrev roles : Roles
roles p =
    if p == 3
    then some []
    else if p == 4
    then some (0 ∷ [])
    else if p == 5
    then some (0 ∷ 0 ∷ [])
    else if p == 6
    then some (2 ∷ 0 ∷ 0 ∷ [])
    else none

abbrev shared_memory : Memory
shared_memory = record {
  word = table_words;
  page_list = λ i. record { address = i * 4096; ref_count = 0; next = some (i + 1) };
  head = some 9;
  k_cr3 = 0;
  k_pdpte = 0;
}

abbrev forked : Kernel
forked = record kernel { memory = shared_memory }

abbrev eight : List ℕ
eight = 9 ∷ 10 ∷ 11 ∷ 12 ∷ 13 ∷ 14 ∷ 15 ∷ 16 ∷ []

tables-IsTree : IsTree roles table_words 3
unfolding next_page
tables-IsTree = record {
  top_role = refl;
  linked = λ p i q path r n b e. ground (arith, bound-le path i b);
}

eight-Space : Space roles eight 3 shared_memory
eight-Space = record { tree = tables-IsTree; chain = ground arith; fresh = ground arith }

isr14-Private_example :
    (p : Private roles eight 3 0x400123 7 shared_memory) × (isr14 places 0x400123 forked
      ≡ served (record forked { memory = p.after }))
unfolding check_valid walk next_page
isr14-Private_example =
    isr14-Private places 0x400123 3 6 (7 * 4096 + 517) 7 forked stack_area (code_area ∷ []) roles
      eight refl refl refl eight-Space (omega arith) (omega arith) refl refl refl refl refl
      (ground arith)

-- The area behind the stack's is also the one that malloc grows.
malloc-Grown_example :
    (g : Grown 2 roles eight 3 0x402000 shared_memory) × (malloc 5000 forked
      ≡ some (
        0x402000,
        record forked {
          task_queue = update programs 3 (record (programs 3) {
            vm = stack_area ∷ record code_area { last_address = 0x404000 } ∷ [];
          });
          memory = g.after;
        },
      ))
malloc-Grown_example =
    malloc-Grown 5000 forked roles eight 3 stack_area code_area [] refl refl eight-Space
      (omega arith) (omega arith)

dealloc_task-Freed_example : Freed roles 3 shared_memory
dealloc_task-Freed_example = dealloc_task-Freed roles eight 3 shared_memory eight-Space
