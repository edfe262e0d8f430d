-- ===== src/Calls/Stubs.antt =====
-- The system calls of the C library (libc): what each puts into the registers in front of `int $0x80`,
-- for arguments as C passes them.
use late_os.Common.{ℕ, ◌+◌, ◌-◌, ◌^◌, ltb, if◌then◌else◌}
use late_os.Calls.{Registers, int}

-- `(long)` of an `int`.
abbrev pub long : ℕ → ℕ
long n = if ltb n (2 ^ 31) then n else n + 2 ^ 64 - 2 ^ 32

abbrev one : ℕ → Registers → Registers
one number r = record r { rax = number }

abbrev two : (number a : ℕ) → Registers → Registers
two number a r = record r { rax = number; rbx = a }

abbrev three : (number a b : ℕ) → Registers → Registers
three number a b r = record r { rax = number; rbx = a; rcx = b }

abbrev four : (number a b c : ℕ) → Registers → Registers
four number a b c r = record { rax = number; rbx = a; rcx = b; rdx = c }

abbrev pub read_call : (char_ret : ℕ) → Registers → Registers
read_call char_ret r = four 0 0 char_ret 1 r

abbrev pub readcall_string : (s : ℕ) → Registers → Registers
readcall_string s r = four 0 0 s 4096 r

abbrev pub puts : (s length : ℕ) → Registers → Registers
puts s length r = four 1 1 s (long (int length)) r

abbrev pub fputchar : (c fd : ℕ) → Registers → Registers
fputchar c fd r = four 1 (long (int fd)) c 1 r

abbrev pub read_f_call : (fd char_ret : ℕ) → Registers → Registers
read_f_call fd char_ret r = four 0 (long (int fd)) char_ret 1 r

abbrev pub clear_screen_sys : Registers → Registers
clear_screen_sys r = one 7 r

abbrev pub chdirsyscall : (inp : ℕ) → Registers → Registers
chdirsyscall inp r = two 80 inp r

abbrev pub current_dir_sys : (buf size : ℕ) → Registers → Registers
current_dir_sys buf size r = three 79 buf size r

abbrev pub closecall : (inp : ℕ) → Registers → Registers
closecall inp r = two 3 (long (int inp)) r

abbrev pub dup2 : (fd1 fd2 : ℕ) → Registers → Registers
dup2 fd1 fd2 r = three 33 (long (int fd1)) (long (int fd2)) r

abbrev pub lseek : (fd offset p : ℕ) → Registers → Registers
lseek fd offset p r = four 8 (long (int fd)) offset (long (int p)) r

abbrev pub open_call : (path flags : ℕ) → Registers → Registers
open_call path flags r = three 2 path (long (int flags)) r

abbrev pub close : (fd : ℕ) → Registers → Registers
close fd r = two 3 (long (int fd)) r

abbrev pub open_dir_file : (path : ℕ) → Registers → Registers
open_dir_file path r = two 16 path r

abbrev pub direccall : (fd buff size : ℕ) → Registers → Registers
direccall fd buff size r = four 78 (long (int fd)) buff (long (int size)) r

abbrev pub sleep_call : (seconds : ℕ) → Registers → Registers
sleep_call seconds r = two 35 (int seconds) r

abbrev pub ps_call : Registers → Registers
ps_call r = one 299 r

abbrev pub getpid_call : Registers → Registers
getpid_call r = one 39 r

abbrev pub getppid_call : Registers → Registers
getppid_call r = one 110 r

abbrev pub kill_call : (pid : ℕ) → Registers → Registers
kill_call pid r = two 62 (int pid) r

abbrev pub forkcall : Registers → Registers
forkcall r = one 57 r

abbrev pub exitcall : (inp : ℕ) → Registers → Registers
exitcall inp r = two 60 (long (int inp)) r

abbrev pub writecall : (c : ℕ) → Registers → Registers
writecall c r = four 1 1 c 1 r

abbrev pub execvp : (file argv env : ℕ) → Registers → Registers
execvp file argv env r = four 59 file argv env r

abbrev pub pipe : (fd : ℕ) → Registers → Registers
pipe fd r = two 22 fd r

abbrev pub wait : (status : ℕ) → Registers → Registers
wait status r = four 61 (2 ^ 64 - 1) status 0 r

abbrev pub waitpid : (pid status : ℕ) → Registers → Registers
waitpid pid status r = three 247 (int pid) status r

abbrev pub sbrk_call : (increment : ℕ) → Registers → Registers
sbrk_call increment r = two 9 (long (int increment)) r

abbrev pub read_str_sys : (fd buf size : ℕ) → Registers → Registers
read_str_sys fd buf size r = four 0 (long (int fd)) buf (long (int size)) r
