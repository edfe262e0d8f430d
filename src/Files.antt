-- ===== src/Files.antt =====
-- The TAR file system (sys/tarfs.c, and chdir in sys/process.c).
--
-- The archive is a part of a memory of bytes, and `headers` the addresses of the headers in it, which
-- the code keeps in an array with room for 200. A char array is the list of the characters before its
-- NUL; arrays of 50 and 100 characters are copied to without a bound, here as in the code.
pub mod Size
pub mod Listing
pub mod Paths
pub mod Moves
pub mod Chdir
pub mod Descriptors
pub mod Directory
pub mod Listed
pub mod Reading
pub mod Opening
pub mod Tests
use late_os.Common.{
  ℕ, zero, suc, ◌+◌, ◌-◌, ◌*◌, ◌/◌, ◌%◌, ◌^◌, ◌==◌, ◌&&◌, Bool, true, false, Option, none, some,
  List, [], ◌∷◌, ◌++◌, ltb, if◌then◌else◌,
}

pub record Archive : Type 0 where
  pub memory : ℕ → ℕ
  pub headers : List ℕ

-- A `char` as an `int`, by its 32 bits.
abbrev pub char : ℕ → ℕ
char b = if ltb b 128 then b else b + 2 ^ 32 - 256

-- The loop of `getsize`: `j` digits are left, the last one first.
unfoldable pub size_loop : (j : ℕ) → (ℕ → ℕ) → (at size count : ℕ) → ℕ
size_loop zero memory at size count = size
size_loop (suc j) memory at size count =
    size_loop j memory at ((size + (char (memory (at + j)) + 2 ^ 32 - b'0') * count) % 2 ^ 32)
      (count * 8 % 2 ^ 32)

unfoldable pub get_size : (ℕ → ℕ) → (header_size : ℕ) → ℕ
unfolding size_loop
get_size memory header_size = size_loop 11 memory header_size 0 1

-- Where the field `size` stands in a header.
abbrev pub size_field : ℕ
size_field = 124

unfoldable pub move_tarfs_header : (ℕ → ℕ) → (tarfs_addr : ℕ) → ℕ
move_tarfs_header memory tarfs_addr =
    let size = get_size memory (tarfs_addr + size_field) in
    let behind = tarfs_addr + (size / 512 + 1) * 512 % 2 ^ 32 in
    if size % 512 == 0 then behind else behind + 512

-- The loop of `init_tarfs`; the fuel counts headers.
unfoldable pub init_tarfs : (fuel : ℕ) → (ℕ → ℕ) → (tarfs_addr end : ℕ) → Option (List ℕ)
init_tarfs zero memory tarfs_addr end = none
init_tarfs (suc fuel) memory tarfs_addr end =
    let rest = init_tarfs fuel memory (move_tarfs_header memory tarfs_addr) end in
    if ltb tarfs_addr end
    then (elim rest [ none ↦ none | some headers ↦ some (tarfs_addr ∷ headers) ])
    else some []

-- The characters of at most `n` bytes in front of the NUL.
unfoldable pub chars : (n : ℕ) → (ℕ → ℕ) → (at : ℕ) → List ℕ
chars zero memory at = []
chars (suc n) memory at =
    let rest = chars n memory (at + 1) in if memory at == 0 then [] else memory at ∷ rest

-- `header->name`: a name that fills its 100 bytes runs on into the next field, up to its NUL.
abbrev pub name : Archive → ℕ → List ℕ
name archive header = chars 512 archive.memory header

-- `strcmp(a, b) == 0`
abbrev pub same : List ℕ → List ℕ → Bool
same [] [] = true
same (x ∷ xs) (y ∷ ys) = (x == y) && same xs ys
same _ _ = false

-- The first of the headers from number `i` on with that name, and its number.
unfoldable pub find_header : Archive → (i : ℕ) → List ℕ → List ℕ → Option (ℕ × ℕ)
find_header archive i path [] = none
find_header archive i path (header ∷ headers) =
    let rest = find_header archive (i + 1) path headers in
    if same path (name archive header) then some (i, header) else rest

-- `get_file_address`; `none` is the code's -1.
unfoldable pub get_file_address : Archive → List ℕ → Option ℕ
unfolding find_header
get_file_address archive filename = elim (find_header archive 0 filename archive.headers) [
  | none ↦ none
  | some (i, header) ↦ some header
]

abbrev pub take : ℕ → List ℕ → List ℕ
take zero xs = []
take (suc n) [] = []
take (suc n) (x ∷ xs) = x ∷ take n xs

-- `checkFile` looks at the first 32 headers only.
unfoldable pub check_file : Archive → List ℕ → Option (ℕ × ℕ)
check_file archive path = find_header archive 0 path (take 32 archive.headers)
