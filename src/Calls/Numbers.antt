-- ===== src/Calls/Numbers.antt =====
-- The library's calls arrive in the kernel (libc, isr128 in sys/idt.c).
use late_os.Common.{◌==◌, ◌≡◌, arith, if◌then◌else◌}
use late_os.Calls.{
  Registers, Call, int_read, read_tarfs_file, print, open_tarfs_file, close_tarfs_file,
  clear_screen, get_task_pid, execvpe, read_dir_tarfs_file, get_current_directory, chdir, ps,
  nothing, int, decode,
}
use late_os.Calls.Library.{
  Stub, read_call, readcall_string, puts, fputchar, read_f_call, clear_screen_sys, chdirsyscall,
  current_dir_sys, closecall, dup2, lseek, open_call, close, direccall, sleep_call, ps_call,
  getpid_call, getppid_call, kill_call, forkcall, exitcall, writecall, execvp, pipe, wait,
  sbrk_call, read_str_sys, registers,
}

-- The operation of the kernel for each stub: none for pipe, dup2, lseek and wait, and none for a
-- character that is put to a file.
abbrev pub meaning : Stub → Call
meaning (read_call char_ret) = int_read char_ret
meaning (readcall_string s) = int_read s
meaning (puts s length) = print s
meaning (fputchar c fd) = if int fd == 1 then print c else nothing
meaning (read_f_call fd char_ret) =
    if int fd == 0 then int_read char_ret else read_tarfs_file (int fd) char_ret 1
meaning clear_screen_sys = clear_screen
meaning (chdirsyscall inp) = chdir inp
meaning (current_dir_sys buf size) = get_current_directory buf (int size)
meaning (closecall inp) = close_tarfs_file (int inp)
meaning (dup2 fd1 fd2) = nothing
meaning (lseek fd offset p) = nothing
meaning (open_call path flags) = open_tarfs_file path (int flags)
meaning (close fd) = close_tarfs_file (int fd)
meaning (Stub.open_dir_file path) = Call.open_dir_file path
meaning (direccall fd buff size) = read_dir_tarfs_file (int fd) buff
meaning (sleep_call seconds) = Call.sleep (int seconds)
meaning ps_call = ps
meaning getpid_call = get_task_pid
meaning getppid_call = Call.get_task_ppid
meaning (kill_call pid) = Call.kill (int pid)
meaning forkcall = Call.fork
meaning (exitcall inp) = Call.exit
meaning (writecall c) = print c
meaning (execvp file argv env) = execvpe file argv env
meaning (pipe fd) = nothing
meaning (wait status) = nothing
meaning (Stub.waitpid pid status) = Call.waitpid (int pid)
meaning (sbrk_call increment) = Call.malloc (int increment)
meaning (read_str_sys fd buf size) =
    if int fd == 0 then int_read buf else read_tarfs_file (int fd) buf (int size)

-- Whatever the other registers hold, the handler takes each stub's registers for the operation of the
-- kernel of that name, with the stub's arguments; those of pipe, dup2, lseek and wait, and a character
-- that is put to a file, it takes for nothing, and returns 0.
pub decode-registers : (stub : Stub) (r : Registers) → decode (registers stub r) ≡ meaning stub
unfolding decode registers
decode-registers _ r = ground arith
