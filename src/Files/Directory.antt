-- ===== src/Files/Directory.antt =====
-- Reading a directory (readDirTarfsFile in sys/tarfs.c).
use late_os.Common.{
  ℕ, zero, suc, ◌+◌, ◌==◌, ◌&&◌, ◌||◌, Bool, Option, none, some, List, [], ◌∷◌, if◌then◌else◌, ltb,
}
use late_os.Process.{Kernel}
use late_os.Files.{Archive, name, same, take}
use late_os.Files.Descriptors.{current, set_current, set_file}

-- The number of characters that two strings have in common; `starts_with` is one less.
abbrev pub shared : List ℕ → List ℕ → ℕ
shared [] ys = 0
shared (x ∷ xs) [] = 0
shared (x ∷ xs) (y ∷ ys) = if x == y then suc (shared xs ys) else 0

abbrev pub drop {ℓ} : {A : Type ℓ} → ℕ → List A → List A
drop zero xs = xs
drop (suc n) [] = []
drop (suc n) (x ∷ xs) = drop n xs

abbrev pub is_root_directory : List ℕ → Bool
is_root_directory path = same path (b'/' ∷ [])

-- Whether a file is listed: its name starts with two characters of `file_name`, or that is the root.
unfoldable pub is_listed : (file_name : List ℕ) → (header_name : List ℕ) → Bool
is_listed file_name header_name =
    ltb 1 (shared header_name file_name) || is_root_directory file_name

-- The loop over the headers: the name that is copied to the buffer, where it returns 1, and the entry.
unfoldable pub read_entry :
    Archive → (file_name : List ℕ) → (headers : List ℕ) → (count entry : ℕ) → Option (List ℕ) × ℕ
unfolding is_listed
read_entry archive file_name [] count entry = (none, entry)
read_entry archive file_name (header ∷ headers) count entry =
    let name' = name archive header in
    let first = read_entry archive file_name headers (count + 1) (entry + 1) in
    let next = read_entry archive file_name headers (count + 1) entry in
    let other = read_entry archive file_name headers count entry in
    if is_listed file_name name'
    then (if (count == 0) && (entry == 0)
        then first
        else if count == entry
        then (some (drop (shared name' file_name) name'), entry + 1)
        else next)
    else other

unfoldable pub read_dir_tarfs_file : Archive → (fd : ℕ) → Kernel → Option (List ℕ) × Kernel
read_dir_tarfs_file archive fd k =
    let task = current k in
    let file = task.fd fd in
    let (found, entry) = read_entry archive file.file_name (take 32 archive.headers) 0 file.entry in
    (found, set_current (set_file fd (record file { entry = entry }) task) k)

-- The program's loop that calls it until it returns 0; the fuel counts calls.
unfoldable pub read_all : (fuel : ℕ) → Archive → (fd : ℕ) → Kernel → Option (List (List ℕ))
read_all zero archive fd k = none
read_all (suc fuel) archive fd k =
    let called = read_dir_tarfs_file archive fd k in
    let rest = read_all fuel archive fd called.1 in
    elim called.0 [
      | none ↦ some []
      | some name' ↦ elim rest [ none ↦ none | some names ↦ some (name' ∷ names) ]
    ]
