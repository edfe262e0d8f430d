-- ===== src/Files/Tests.antt =====
-- An archive of the directory "d/" and the file "d/f" of five bytes, at address 4096.
use late_os.Common.{
  codes, ℕ, ◌+◌, ◌≡◌, ◌==◌, refl, arith, true, none, some, List, [], ◌∷◌, if◌then◌else◌,
}
use late_os.Process.{File, Kernel}
use late_os.Process.Tests.{five, kernel}
use late_os.Text.{to_binary_file, str_to_int, to_int, strlen, binary_loop, octal_dict}
use late_os.Files.{Archive, init_tarfs, chars, find_header, check_file}
use late_os.Files.Paths.{
  derive_relative, is_file_exists, derive, finish, file_path, write, chdir, set_dir,
}
use late_os.Files.Moves.{derive_relative-path_of, go}
use late_os.Files.Chdir.{chdir-path_of}
use late_os.Files.Size.{AreDigits}
use late_os.Files.Listing.{IsEnd, init_tarfs-Stored}
use late_os.Files.Directory.{is_listed, read_all}
use late_os.Files.Listed as Listed
use late_os.Files.Opening as Opening
use late_os.Files.Descriptors.{open_close}

-- The bytes `cs` at `at`, and 0 elsewhere.
abbrev put : List ℕ → ℕ → ℕ → ℕ
put [] at i = 0
put (c ∷ cs) at i = let rest = put cs (at + 1) i in if i == at then c else rest

abbrev size_of : ℕ → List ℕ
size_of d = 48 ∷ 48 ∷ 48 ∷ 48 ∷ 48 ∷ 48 ∷ 48 ∷ 48 ∷ 48 ∷ 48 ∷ d ∷ []

abbrev d : List ℕ
d = b'd' ∷ []

abbrev f : List ℕ
f = b'f' ∷ []

abbrev pub memory : ℕ → ℕ
memory i =
    put (b'd' ∷ b'/' ∷ []) 4096 i
    + put (size_of b'0') 4220 i
    + put (b'd' ∷ b'/' ∷ b'f' ∷ []) 4608 i
    + put (size_of b'5') 4732 i

abbrev pub archive : Archive
archive = record { memory = memory; headers = 4096 ∷ 4608 ∷ 5632 ∷ [] }

derive_relative-path_of_example :
    (derive_relative (codes "/d/") (codes "../e/f") ≡ codes "e/f")
    × (derive_relative (codes "/d/") (codes "/../e/f") ≡ codes "e/f")
unfolding go
derive_relative-path_of_example =
    derive_relative-path_of (d ∷ []) (none ∷ some (codes "e") ∷ []) f (((refl, tt), tt), tt)
      (((refl, tt), tt), tt) tt refl

is_file_5 : AreDigits 11 memory 4732
is_file_5 = ground arith

abbrev pub at_root : Kernel
at_root = record (kernel 2) { task_queue = λ i. record (five i) { curr_dir = b'/' ∷ [] } }

-- Task 2 has opened the directory, or a file of five bytes there, as descriptor 3.
abbrev opened : File
opened = record ((five 2).fd 3) { file_name = b'd' ∷ b'/' ∷ []; size = 5; address = 4608 }

abbrev pub in_d : Kernel
in_d = record (kernel 2) { task_queue = λ i. record (five i) { fd = λ j. opened } }

pub listed : is_file_exists archive (b'/' ∷ []) (b'd' ∷ b'/' ∷ b'f' ∷ []) ≡ some (1, 4608)
unfolding is_file_exists check_file derive_relative derive write finish file_path find_header chars
listed = refl

pub sized : to_binary_file 20 memory 4732 ≡ some 101
unfolding to_binary_file str_to_int to_int strlen binary_loop octal_dict
sized = refl

is_file_0 : AreDigits 11 memory 4220
is_file_0 = ground arith

is_end : IsEnd memory 5632
is_end i l = ground arith

init_tarfs-Stored_example : init_tarfs 4 memory 4096 6656 ≡ some (4096 ∷ 4608 ∷ 5632 ∷ [])
init_tarfs-Stored_example =
    init_tarfs-Stored (4096 ∷ 4608 ∷ []) 4 memory 4096 5632 6656 (omega arith)
      (refl, (is_file_0, omega arith), (refl, (is_file_5, omega arith), refl)) is_end (omega arith)
      (omega arith)

chdir-path_of_example :
    chdir archive (b'd' ∷ b'/' ∷ []) at_root ≡ (true, set_dir (b'/' ∷ b'd' ∷ b'/' ∷ []) at_root)
unfolding go find_header check_file chars
chdir-path_of_example =
    chdir-path_of archive at_root [] (some d ∷ []) d [] refl tt (((refl, tt), tt), tt) refl refl

entries_of_d : read_all 4 archive 3 in_d ≡ some (f ∷ [])
unfolding is_listed chars
entries_of_d =
    Listed.read_all-entries archive 3 (b'd' ∷ b'/' ∷ []) 4 in_d (omega arith)
      (record { named = refl; next = refl })

open_close-Opens_example :
    (after : Kernel) × (open_close 97 20 archive (b'd' ∷ b'/' ∷ b'f' ∷ []) 0 at_root ≡ some after)
    × Opening.Next 20 archive
        (b'd' ∷ b'/' ∷ b'f' ∷ [])
        0
        (b'/' ∷ [])
        1
        4608
        101
        listed
        sized
        100
        after
open_close-Opens_example =
    Opening.open_close-Opens 20 archive (b'd' ∷ b'/' ∷ b'f' ∷ []) 0 (b'/' ∷ []) 1 4608 101 listed
      sized 97 at_root refl (omega arith)
