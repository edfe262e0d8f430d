-- ===== src/Programs/Listing.antt =====
-- What ls prints (printList in bin/ls/ls.c, readdir in libc/file.c, readDirTarfsFile in sys/tarfs.c).
use late_os.Common.{ℕ, ◌+◌, ◌^◌, ◌≡◌, ◌≤◌, ◌<◌, ◌⊎◌, List, [], ◌∷◌, ◌++◌, codes, All}
use late_os.Files.{take}
use late_os.Files.Descriptors.{current}
use late_os.Files.Listed.{entries}
use late_os.Calls.{Registers}
use late_os.Calls.Serve.{Machine}
use late_os.Calls.Directories.{Directories}
use late_os.Programs.Contents.{Contents}

-- The name of a header and the buffer of the entry, `buf`, do not meet.
abbrev pub IsApart : (buf header : ℕ) → Type 0
IsApart buf header = (header + 512 ≤ buf) ⊎ (buf + 512 < header)

-- What is printed for the entries.
pub listing : List (List ℕ) → List ℕ
listing [] = codes "\n"
listing (e ∷ es) = e ++ codes " " ++ listing es

module _ (fuel : ℕ) (r : Registers) (d_name : ℕ → ℕ) (pointer : ℕ) (dirs : Directories)
    (file_name headers : List ℕ) (bytes : ℕ → ℕ) (small : dirs.fd pointer < 2 ^ 32)
    (apart : All (IsApart (d_name (dirs.fd pointer))) (take 32 headers)) where
  abbrev fd : ℕ
  fd = dirs.fd pointer

  abbrev buf : ℕ
  buf = d_name fd

  abbrev es : List (List ℕ)
  es = entries (record { memory = bytes; headers = headers }) file_name (take 32 headers)

  -- The loop of printList in front of the entry number `entry`.
  record Reading (entry : ℕ) (m : Machine) : Type 0 where
    same_headers : m.headers ≡ headers
    kept : (i : ℕ) → (i < buf) ⊎ (buf + 512 < i) → m.bytes i ≡ bytes i
    named : ((current m.kernel).fd fd).file_name ≡ file_name
    next : ((current m.kernel).fd fd).entry ≡ entry
