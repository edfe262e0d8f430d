-- ===== src/Loader/Tests.antt =====
-- A program of three bytes and two zeros at 0x400000, in a file whose only program header says that
-- they stand at the offset 2, and a machine with sixteen frames.
use late_os.Common.{
  ℕ, zero, suc, ◌+◌, ◌*◌, ◌≤◌, ◌<◌, ◌≡◌, refl, arith, some, none, List, [], ◌∷◌, if◌then◌else◌,
  ◌==◌, ltb, codes, ◌-◌,
}
use late_os.Memory.{Memory, FreeFrame, page_size}
use late_os.Memory.Walk.{next_page, Roles, Space}
use late_os.Memory.Pages.{IsKernel, Paged}
use late_os.Memory.NewPage.{get_new_page-Paged}
use late_os.Process.{Task, File, State}
use late_os.Loader.{Phdr, read_ehdr, little}
use late_os.Loader.Segment.{Loadable}
use late_os.Loader.Program.{IsProgram, header, all_frames, frames}
use late_os.Process.Create.{stack_s}
use late_os.Process.Heap.{Grown, grow-Grown}
use late_os.Loader.Areas.{Grown-Mapping}
use late_os.Loader.Lists.{room}
use late_os.Loader.Arguments.{Entered, set_rsp_and_exec-Entered}
use late_os.Loader.Running.{Running, new_space-Running}
use late_os.Loader.NewTask.{Started, read_elf_and_fork-Started}

abbrev elf : ℕ → ℕ
elf a =
    if a == 26
    then 0x40
    else if a == 32
    then 64
    else if a == 56
    then 1
    else if a == 64
    then 1
    else if a == 72
    then 2
    else if a == 82
    then 0x40
    else if a == 96
    then 3
    else if a == 104
    then 5
    else if a == 128
    then b'a'
    else if a == 129
    then b'b'
    else if a == 130
    then b'c'
    else 0

abbrev segment : Phdr
segment = record { p_type = 1; p_offset = 2; p_vaddr = 0x400000; p_filesz = 3; p_memsz = 5 }

only_segment : header elf 64 0 ≡ segment
unfolding little
only_segment = refl

one_header : (read_ehdr elf 0).e_phnum ≡ 1
unfolding little
one_header = refl

-- The frames 10 to 25, the kernel's tables in pages 1 to 3, and the top table of a task in page 4.
abbrev nodes : ℕ → FreeFrame
nodes i = record {
  address = (10 + i) * page_size;
  ref_count = 0;
  next = if ltb i 15 then some (i + 1) else none;
}

abbrev machine : Memory
machine = record {
  word = λ w. if w == 1023 then 2 * 4096 + 3 else if w == 1534 then 3 * 4096 + 3 else 0;
  page_list = nodes;
  head = some 0;
  k_cr3 = 4096;
  k_pdpte = 8192;
}

abbrev task_top : Roles
task_top q = if q == 4 then some [] else none

abbrev sixteen : List ℕ
sixteen = 0 ∷ 1 ∷ 2 ∷ 3 ∷ 4 ∷ 5 ∷ 6 ∷ 7 ∷ 8 ∷ 9 ∷ 10 ∷ 11 ∷ 12 ∷ 13 ∷ 14 ∷ 15 ∷ []

machine-Space : Space task_top sixteen 4 machine
unfolding next_page
machine-Space = record {
  tree = record { top_role = refl; linked = λ p i q path r n b e. ground arith };
  chain = ground arith;
  fresh = ground arith;
}

machine-IsKernel : IsKernel task_top sixteen 3 machine
unfolding next_page
machine-IsKernel = record {
  pml4_aligned = refl;
  pdpte_aligned = refl;
  top_link = refl;
  pdpe_link = refl;
  pml4_unused = ground arith;
  pdpte_unused = ground arith;
  pdpe_unused = ground arith;
  not_pml4 = ground arith;
  not_pdpte = ground arith;
  leaf_unused = λ i q b e. ground arith;
  leaf_apart = λ i q b e. ground arith;
  low = λ q l. ground arith;
}

elf-IsProgram : IsProgram (read_ehdr elf 0).e_phnum elf (0 + (read_ehdr elf 0).e_phoff)
unfolding little
elf-IsProgram = record {
  loadable = loadable;
  apart = λ i j l b. absurd (let n = one_header in omega arith);
}
  where
    loadable :
        (i : ℕ)
        → i < (read_ehdr elf 0).e_phnum
        → (header elf 64 i).p_type ≡ 1
        → Loadable (header elf 64 i)
    loadable zero b k =
        rw only_segment (record { file = omega arith; small = omega arith; below = omega arith })
    loadable (suc i) b k = absurd (let n = one_header in omega arith)

abbrev no_file : File
no_file = record {
  fd = 0;
  file_name = [];
  aval = 0;
  offset = 0;
  entry = 0;
  flags = 0;
  inode_num = 0;
  size = 0;
  address = 0;
}

abbrev new_task : Task
new_task = record {
  name = [];
  kstack = λ j. 0;
  ustack = 0;
  time = 0;
  state = State.running;
  pid = 2;
  ppid = 0;
  rsp = 0;
  pml4e = 0;
  child_count = 0;
  vm = [];
  curr_dir = b'/' ∷ [];
  fd = λ j. no_file;
  fd_c = 0;
  regs = record { rsp = 0; rip = 0 };
}

enough_frames : 10 + all_frames (read_ehdr elf 0).e_phnum elf (0 + (read_ehdr elf 0).e_phoff) ≤ 16
unfolding little all_frames frames
enough_frames = omega arith

get_new_page-Paged_example : Paged task_top sixteen 4 3 machine
get_new_page-Paged_example = get_new_page-Paged machine-IsKernel machine-Space (omega arith)

read_elf_and_fork-Started_example : Started elf 0 new_task task_top sixteen 4 3 machine
read_elf_and_fork-Started_example =
    read_elf_and_fork-Started elf 0 new_task task_top sixteen 4 3 machine machine-Space
      machine-IsKernel elf-IsProgram (let e = enough_frames in omega arith)

segment_below :
    (i : ℕ)
    → i < (read_ehdr elf 0).e_phnum
    → (header elf (0 + (read_ehdr elf 0).e_phoff) i).p_type ≡ 1
    → (header elf (0 + (read_ehdr elf 0).e_phoff) i).p_vaddr
        + (header elf (0 + (read_ehdr elf 0).e_phoff) i).p_memsz
      ≤ stack_s
unfolding little
segment_below zero b k = omega arith
segment_below (suc i) b k = absurd (let n = one_header in omega arith)

new_space-Running_example : Running elf 0 (codes "bin/sbush") new_task 3 machine
new_space-Running_example =
    new_space-Running elf 0 (codes "bin/sbush") new_task task_top sixteen 4 3 machine machine-Space
      machine-IsKernel elf-IsProgram segment_below enough_frames (omega arith)

-- One page for a stack, from 0x1000 on.
one_page : Grown 1 task_top sixteen 4 (1 * page_size) machine
one_page =
    grow-Grown 1 task_top sixteen 4 (1 * page_size) machine machine-Space (omega arith)
      (omega arith)

set_rsp_and_exec-Entered_example :
    Entered one_page.role' one_page.free' 4 1 1
      (λ j. one_page.page (j - 1))
      one_page.after
      0x1F00
      (codes "ls" ∷ codes "/bin" ∷ [])
      (codes "PATH=/bin" ∷ [])
unfolding room
set_rsp_and_exec-Entered_example =
    set_rsp_and_exec-Entered 0x1F00 (omega arith) (omega arith)
      (Grown-Mapping 1 one_page (omega arith)) 0x1F00 (codes "ls" ∷ codes "/bin" ∷ [])
      (codes "PATH=/bin" ∷ []) (omega arith) (omega arith) (omega arith) (ground arith)
      (ground arith)
