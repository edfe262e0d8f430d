-- ===== src/Calls/Library.antt =====
-- The stubs of the C library (libc): what each puts into the registers in front of `int $0x80`.
use late_os.Common.{ℕ}
use late_os.Calls.{Registers}
use late_os.Calls.Stubs as Stubs

-- The stubs, each with its C arguments: an `int` by its 32 bits, a pointer by its address.
pub data Stub : Type 0 where
  -- string_sys.c
  read_call : (char_ret : ℕ) → Stub
  readcall_string : (s : ℕ) → Stub
  puts : (s length : ℕ) → Stub
  fputchar : (c fd : ℕ) → Stub
  read_f_call : (fd char_ret : ℕ) → Stub
  clear_screen_sys : Stub
  -- file.c
  chdirsyscall : (inp : ℕ) → Stub
  current_dir_sys : (buf size : ℕ) → Stub
  closecall : (inp : ℕ) → Stub
  dup2 : (fd1 fd2 : ℕ) → Stub
  lseek : (fd offset p : ℕ) → Stub
  open_call : (path flags : ℕ) → Stub
  close : (fd : ℕ) → Stub
  open_dir_file : (path : ℕ) → Stub
  direccall : (fd buff size : ℕ) → Stub
  -- process_sys.c
  sleep_call : (seconds : ℕ) → Stub
  ps_call : Stub
  getpid_call : Stub
  getppid_call : Stub
  kill_call : (pid : ℕ) → Stub
  forkcall : Stub
  exitcall : (inp : ℕ) → Stub
  writecall : (c : ℕ) → Stub
  execvp : (file argv env : ℕ) → Stub
  -- util_sys.c
  pipe : (fd : ℕ) → Stub
  wait : (status : ℕ) → Stub
  waitpid : (pid status : ℕ) → Stub
  sbrk_call : (increment : ℕ) → Stub
  -- sbush.c
  read_str_sys : (fd buf size : ℕ) → Stub

-- The registers in front of the interrupt; `r` are those that the stub was called with.
unfoldable pub registers : Stub → Registers → Registers
registers (read_call char_ret) r = Stubs.read_call char_ret r
registers (readcall_string s) r = Stubs.readcall_string s r
registers (puts s length) r = Stubs.puts s length r
registers (fputchar c fd) r = Stubs.fputchar c fd r
registers (read_f_call fd char_ret) r = Stubs.read_f_call fd char_ret r
registers clear_screen_sys r = Stubs.clear_screen_sys r
registers (chdirsyscall inp) r = Stubs.chdirsyscall inp r
registers (current_dir_sys buf size) r = Stubs.current_dir_sys buf size r
registers (closecall inp) r = Stubs.closecall inp r
registers (dup2 fd1 fd2) r = Stubs.dup2 fd1 fd2 r
registers (lseek fd offset p) r = Stubs.lseek fd offset p r
registers (open_call path flags) r = Stubs.open_call path flags r
registers (close fd) r = Stubs.close fd r
registers (open_dir_file path) r = Stubs.open_dir_file path r
registers (direccall fd buff size) r = Stubs.direccall fd buff size r
registers (sleep_call seconds) r = Stubs.sleep_call seconds r
registers ps_call r = Stubs.ps_call r
registers getpid_call r = Stubs.getpid_call r
registers getppid_call r = Stubs.getppid_call r
registers (kill_call pid) r = Stubs.kill_call pid r
registers forkcall r = Stubs.forkcall r
registers (exitcall inp) r = Stubs.exitcall inp r
registers (writecall c) r = Stubs.writecall c r
registers (execvp file argv env) r = Stubs.execvp file argv env r
registers (pipe fd) r = Stubs.pipe fd r
registers (wait status) r = Stubs.wait status r
registers (waitpid pid status) r = Stubs.waitpid pid status r
registers (sbrk_call increment) r = Stubs.sbrk_call increment r
registers (read_str_sys fd buf size) r = Stubs.read_str_sys fd buf size r
