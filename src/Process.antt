-- ===== src/Process.antt =====
-- Tasks and the table of them (include/sys/process.h, sys/process.c).
--
-- `taskQueue` is a function from the index, `currentTask` the index of the task that it points to.
-- A task's VMAs, which the code links through kmalloc'd nodes, are a list, and a char array is the
-- list of the characters before its NUL.
pub mod Schedule
pub mod Exit
pub mod Wait
pub mod Create
pub mod Timer
pub mod Areas
pub mod Heap
pub mod Invariant
pub mod Round
pub mod Turns
pub mod Resume
pub mod Life
pub mod Ending
pub mod Reaping
pub mod Handover
pub mod Born
pub mod Forked
pub mod Sleepers
pub mod Tests
use late_os.Common.{ℕ, suc, Bool, List, ◌==◌, ◌≡◌, arith, true}
use late_os.Memory.{Memory}

pub data State : Type 0 where
  running sleep zombie idle ready wait hang : State

-- The enumerator's value.
abbrev pub code : State → ℕ
code running = 0
code sleep = 1
code zombie = 2
code idle = 3
code ready = 4
code wait = 5
code hang = 6

abbrev pub is : State → State → Bool
is a b = code a == code b

pub is→eq : (a b : State) → is a b ≡ true → a ≡ b
is→eq a b h = ground arith

pub record Registers : Type 0 where
  pub rsp : ℕ
  pub rip : ℕ

pub record VmArea : Type 0 where
  pub begin_address : ℕ
  pub last_address : ℕ
  pub offset : ℕ

-- `struct file_t`
pub record File : Type 0 where
  pub fd : ℕ
  pub file_name : List ℕ
  pub aval : ℕ
  pub offset : ℕ
  pub entry : ℕ
  pub flags : ℕ
  pub inode_num : ℕ
  pub size : ℕ
  pub address : ℕ

pub record Task : Type 0 where
  pub name : List ℕ
  pub kstack : ℕ → ℕ
  pub ustack : ℕ
  pub time : ℕ
  pub state : State
  pub pid : ℕ
  pub ppid : ℕ
  pub rsp : ℕ
  pub pml4e : ℕ
  pub child_count : ℕ
  pub vm : List VmArea
  pub curr_dir : List ℕ
  pub fd : ℕ → File
  pub fd_c : ℕ
  pub regs : Registers

-- The registers that the switch between tasks writes, and `tss.rsp0`.
pub record Cpu : Type 0 where
  pub rsp : ℕ
  pub rip : ℕ
  pub cr3 : ℕ
  pub tss_rsp0 : ℕ

pub record Kernel : Type 0 where
  pub task_queue : ℕ → Task
  pub current_task : ℕ
  pub cpu : Cpu
  pub memory : Memory

-- `MAX`
abbrev pub max : ℕ
max = 1100

-- Addresses that the linker chooses: of `&taskQueue[i].kstack[511]`, and of the label `1:` behind
-- the switch in `schedule`.
pub record Layout : Type 0 where
  pub kstack_top : ℕ → ℕ
  pub resume : ℕ

-- `currentTask->pid`
abbrev pub current_pid : Kernel → ℕ
current_pid k = (k.task_queue k.current_task).pid
