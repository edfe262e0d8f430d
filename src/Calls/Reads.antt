-- ===== src/Calls/Reads.antt =====
-- A file that is opened and read by the library's calls (libc, sys/idt.c, sys/tarfs.c).
use late_os.Common.{
  ℕ, ◌+◌, ◌^◌, ◌<◌, ◌≡◌, refl, sym, ap, ◌∙◌, arith, false, some, ltb, if◌then◌else◌, ◌==◌, subst,
}
use late_os.Text.{to_binary_file}
use late_os.Files.{size_field}
use late_os.Files.Paths.{is_file_exists}
use late_os.Files.Descriptors.{current, file_count, read_tarfs_file}
use late_os.Files.Reading.{AreApart, Copied, read_tarfs_file-Copied}
use late_os.Files.Opening
use late_os.Calls.{Registers, int, decode}
use late_os.Calls.Stubs.{long}
use late_os.Calls.Library.{open_call, read_str_sys, registers}
use late_os.Calls.Numbers.{decode-registers}
use late_os.Calls.Serve.{Machine, archive, text, serve}

-- A program opens the file, which gives it `fd`, and reads `count` of its bytes to `buf`.
pub record Reads (fuel : ℕ) (m : Machine) (path flags fd buf count header size : ℕ)
    (r r' : Registers) : Type 0 where
  pub between : Machine
  pub opens : serve fuel (decode (registers (open_call path flags) r)) m ≡ some (fd, between)
  pub given : ℕ
  pub after : Machine
  pub reads :
      serve fuel (decode (registers (read_str_sys fd buf count) r')) between ≡ some (given, after)
  pub smaller : given ≡ (if ltb size count then size else count)
  pub copied : Copied m.bytes after.bytes buf (header + 1) given

-- A program asks by the library's calls to open a file that is listed, and to read `count` bytes of it to
-- a buffer: it gets a descriptor that is not 0, and then the smaller one of `count` and the size, with so
-- many bytes of the header, from its second one on, and a NUL behind them in the buffer. No other byte is
-- changed: one more is written than the result says. The task has a place for a descriptor left, the size
-- and `count` are below 2³¹, and the buffer does not meet the header.
pub open_call-Reads :
    (fuel : ℕ) (m : Machine) (path flags buf count i header size : ℕ) (r r' : Registers)
    → is_file_exists (archive m) (current m.kernel).curr_dir (text m path) ≡ some (i, header)
    → to_binary_file fuel m.bytes (header + size_field) ≡ some size
    → (current m.kernel).fd_c + 3 < file_count
    → size < 2 ^ 31
    → count < 2 ^ 31
    → AreApart buf (header + 1) count
    → Reads fuel m path flags ((current m.kernel).fd_c + 3) buf count header size r r'
unfolding serve
open_call-Reads fuel m path flags buf count i header size r r' listed sized room s b apart =
    let fd = (current m.kernel).fd_c + 3 in
    let o =
      Opening.open_tarfs_file-Opens fuel (archive m) (text m path) (long (int flags))
        (current m.kernel).curr_dir i header size listed sized m.kernel refl room in
    let between : Machine = record m { kernel = o.after } in
    let file = (current o.after).fd fd in
    let same_size : file.size ≡ size = o.opened.sized in
    let same_header : file.address ≡ header = o.opened.placed in
    let (result, copied) =
      read_tarfs_file-Copied m.bytes fd buf count o.after b (omega arith)
        (subst (λ h. AreApart buf (h + 1) count) (sym same_header) apart) in
    let read = read_tarfs_file m.bytes fd buf count o.after in
    let smaller : read.0 ≡ (if ltb size count then size else count) =
      result ∙ ap (λ (n : ℕ). if ltb n count then n else count) same_size in
    let plain : long read.0 ≡ read.0 = rw smaller (ground arith) in
    let same_fd : int fd ≡ fd = omega arith in
    let long_fd : long fd ≡ fd = ground arith in
    let same_count : int count ≡ count = omega arith in
    let real : fd == 0 ≡ false = ground arith in
    record {
      between = between;
      opens = rw (decode-registers (open_call path flags) r, o.runs, long_fd) refl;
      given = read.0;
      after = record between { bytes = read.1 };
      reads =
          rw (decode-registers (read_str_sys fd buf count) r', same_fd, same_count, real, plain)
            refl;
      smaller = smaller;
      copied = subst (λ h. Copied m.bytes read.1 buf (h + 1) read.0) same_header copied;
    }
