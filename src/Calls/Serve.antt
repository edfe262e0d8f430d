-- ===== src/Calls/Serve.antt =====
-- The handler's cases that are operations on files (isr128 in sys/idt.c), on one memory of bytes, which
-- holds the archive, the paths and the buffers. The result is the value of `rax`.
use late_os.Common.{ℕ, ◌+◌, ◌-◌, ◌^◌, Option, none, some, List, [], ◌∷◌, if◌then◌else◌, update}
use late_os.Process.{Kernel}
use late_os.Process.Areas
use late_os.Files.{Archive, chars}
use late_os.Files.Paths
use late_os.Files.Descriptors
use late_os.Files.Directory
use late_os.Calls.Stubs.{long}
use late_os.Calls.{
  Call, read_tarfs_file, open_tarfs_file, close_tarfs_file, open_dir_file, read_dir_tarfs_file,
  get_current_directory, chdir,
}

pub record Machine : Type 0 where
  pub kernel : Kernel
  pub bytes : ℕ → ℕ
  pub headers : List ℕ

abbrev pub archive : Machine → Archive
archive m = record { memory = m.bytes; headers = m.headers }

-- A path, which the code copies to arrays of 100 characters.
abbrev pub text : Machine → ℕ → List ℕ
text m p = chars 100 m.bytes p

-- -1
abbrev pub minus_one : ℕ
minus_one = 2 ^ 64 - 1

abbrev descriptor : Option ℕ → ℕ
descriptor none = minus_one
descriptor (some fd) = long fd

-- The copy of a string to a buffer.
abbrev pub put_string : List ℕ → (ℕ → ℕ) → ℕ → (ℕ → ℕ)
put_string [] bytes p = update bytes p 0
put_string (c ∷ cs) bytes p = put_string cs (update bytes p c) (p + 1)

abbrev opened : Machine → Option (Option ℕ × Kernel) → Option (ℕ × Machine)
opened m none = none
opened m (some (fd, k)) = some (descriptor fd, record m { kernel = k })

abbrev entry : Machine → (buf : ℕ) → Option (List ℕ) × Kernel → ℕ × Machine
entry m buf (none, k) = (0, record m { kernel = k })
entry m buf (some name, k) = (1, record m { kernel = k; bytes = put_string name m.bytes buf })

-- A current directory without a character is cut in front of the buffer.
abbrev directory : Machine → (buf : ℕ) → Option (List ℕ) → Machine
directory m buf none = record m { bytes = update (update m.bytes buf 0) (buf - 1) 0 }
directory m buf (some path) = record m { bytes = put_string path m.bytes buf }

-- `none` for the operations that are not on files; `fuel` is for the digits of a size.
unfoldable pub serve : (fuel : ℕ) → Call → Machine → Option (ℕ × Machine)
serve fuel (read_tarfs_file fd buf count) m =
    let r = Descriptors.read_tarfs_file m.bytes fd buf count m.kernel in
    some (long r.0, record m { bytes = r.1 })
serve fuel (open_tarfs_file path flags) m =
    opened m (Descriptors.open_tarfs_file fuel (archive m) (text m path) (long flags) m.kernel)
serve fuel (close_tarfs_file fd) m =
    let r = Descriptors.close_tarfs_file fd m.kernel in some (long r.0, record m { kernel = r.1 })
serve fuel (open_dir_file path) m =
    opened m (Descriptors.open_dir_file fuel (archive m) (text m path) m.kernel)
serve fuel (read_dir_tarfs_file fd buf) m =
    some (entry m buf (Directory.read_dir_tarfs_file (archive m) fd m.kernel))
serve fuel (get_current_directory buf size) m =
    some (0, directory m buf (Areas.get_current_directory m.kernel))
serve fuel (chdir path) m =
    let r = Paths.chdir (archive m) (text m path) m.kernel in
    some (if r.0 then 0 else minus_one, record m { kernel = r.1 })
serve fuel _ m = none
