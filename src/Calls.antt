-- ===== src/Calls.antt =====
-- System calls (isr128 in sys/idt.c): which operation of the kernel the registers ask for.
pub mod Stubs
pub mod Library
pub mod Numbers
pub mod Perform
pub mod Twice
pub mod Serve
pub mod Environment
pub mod Reads
pub mod Directories
pub mod Streams
pub mod Tests
use late_os.Common.{ℕ, ◌%◌, ◌^◌, ◌==◌, if◌then◌else◌}

-- What the handler reads: `syscode`, and `regs`, of which it uses these three.
pub record Registers : Type 0 where
  pub rax : ℕ
  pub rbx : ℕ
  pub rcx : ℕ
  pub rdx : ℕ

-- The operations of the kernel, with their arguments; an address stands for what is stored there.
pub data Call : Type 0 where
  int_read : (string : ℕ) → Call
  read_tarfs_file : (fd buf count : ℕ) → Call
  print : (string : ℕ) → Call
  open_tarfs_file : (path flags : ℕ) → Call
  close_tarfs_file : (fd : ℕ) → Call
  clear_screen : Call
  malloc : (bytes : ℕ) → Call
  open_dir_file : (path : ℕ) → Call
  sleep : (seconds : ℕ) → Call
  get_task_pid : Call
  fork : Call
  execvpe : (path argv env : ℕ) → Call
  exit : Call
  kill : (pid : ℕ) → Call
  read_dir_tarfs_file : (fd buf : ℕ) → Call
  get_current_directory : (buf size : ℕ) → Call
  chdir : (path : ℕ) → Call
  get_task_ppid : Call
  waitpid : (pid : ℕ) → Call
  ps : Call
  nothing : Call

-- `(int) r`, by its 32 bits.
abbrev pub int : ℕ → ℕ
int r = r % 2 ^ 32

-- The `switch` over `syscode`.
unfoldable pub decode : Registers → Call
decode r =
    if r.rax == 0
    then (if r.rbx == 0 then int_read r.rcx else read_tarfs_file (int r.rbx) r.rcx (int r.rdx))
    else if r.rax == 1
    then (if r.rbx == 1 then print r.rcx else nothing)
    else if r.rax == 2
    then open_tarfs_file r.rbx (int r.rcx)
    else if r.rax == 3
    then close_tarfs_file (int r.rbx)
    else if r.rax == 7
    then clear_screen
    else if r.rax == 9
    then malloc (int r.rbx)
    else if r.rax == 16
    then open_dir_file r.rbx
    else if r.rax == 35
    then sleep (int r.rbx)
    else if r.rax == 39
    then get_task_pid
    else if r.rax == 57
    then fork
    else if r.rax == 59
    then execvpe r.rbx r.rcx r.rdx
    else if r.rax == 60
    then exit
    else if r.rax == 62
    then kill (int r.rbx)
    else if r.rax == 78
    then read_dir_tarfs_file (int r.rbx) r.rcx
    else if r.rax == 79
    then get_current_directory r.rbx (int r.rcx)
    else if r.rax == 80
    then chdir r.rbx
    else if r.rax == 110
    then get_task_ppid
    else if r.rax == 247
    then waitpid (int r.rbx)
    else if r.rax == 299
    then ps
    else nothing
