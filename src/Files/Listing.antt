-- ===== src/Files/Listing.antt =====
-- The headers that the boot finds in an archive (init_tarfs in sys/tarfs.c).
use late_os.Common.{
  ℕ, zero, suc, ◌+◌, ◌-◌, ◌*◌, ◌/◌, ◌%◌, ◌^◌, ◌<◌, ◌≤◌, ◌≡◌, refl, sym, ap, subst, arith, some,
  List, [], ◌∷◌, ◌++◌, length, ltb, true, false, ◌==◌, if◌then◌else◌,
}
use late_os.Files.{get_size, size_loop, size_field, move_tarfs_header, init_tarfs}
use late_os.Files.Size.{octal, AreDigits, get_size-octal}

-- A file whose header is at `header`, and whose size, in digits, lets no 32-bit number overflow.
abbrev pub IsFile : (ℕ → ℕ) → ℕ → Type 0
IsFile memory header =
    AreDigits 11 memory (header + size_field)
    × (octal 11 memory (header + size_field) ≤ 2 ^ 32 - 1024)

-- The address behind a file: a block for the header, and as many as the data need.
abbrev pub behind : (ℕ → ℕ) → ℕ → ℕ
behind memory header = header + 512 * (1 + (octal 11 memory (header + size_field) + 511) / 512)

-- From `at` to `stop` lie files, without a gap, with these headers.
abbrev pub Stored : (ℕ → ℕ) → (at stop : ℕ) → List ℕ → Type 0
Stored memory at stop [] = at ≡ stop
Stored memory at stop (header ∷ headers) =
    (header ≡ at) × IsFile memory at × Stored memory (behind memory at) stop headers

-- The block of zeros that ends an archive, as far as the field with the size.
abbrev pub IsEnd : (ℕ → ℕ) → ℕ → Type 0
IsEnd memory at = (i : ℕ) → i < 11 → memory (at + size_field + i) ≡ 0

round_up :
    (size header : ℕ)
    → size ≤ 2 ^ 32 - 1024
    → (if size % 512 == 0
        then header + (size / 512 + 1) * 512 % 2 ^ 32
        else header + (size / 512 + 1) * 512 % 2 ^ 32 + 512)
      ≡ header + 512 * (1 + (size + 511) / 512)
round_up size header b = ground arith

move_tarfs_header-behind :
    (memory : ℕ → ℕ) (header : ℕ)
    → IsFile memory header
    → move_tarfs_header memory header ≡ behind memory header
unfolding move_tarfs_header
move_tarfs_header-behind memory header (d, b) =
    let size = octal 11 memory (header + size_field) in
    let small : size % 2 ^ 32 ≡ size = omega arith in
    rw (get_size-octal memory (header + size_field) d, small) (round_up size header b)

size_loop-same :
    (j : ℕ) (memory memory' : ℕ → ℕ) (at size count : ℕ)
    → ((i : ℕ) → i < j → memory (at + i) ≡ memory' (at + i))
    → size_loop j memory at size count ≡ size_loop j memory' at size count
unfolding size_loop
size_loop-same zero memory memory' at size count h = refl
size_loop-same (suc j) memory memory' at size count h =
    rw (h j (omega arith)) (size_loop-same j memory memory' at _ _ (λ i l. h i (omega arith)))

end-size :
    (memory : ℕ → ℕ) (at : ℕ) → IsEnd memory at → get_size memory (at + size_field) ≡ 1227133520
unfolding get_size
end-size memory at h = size_loop-same 11 memory (λ i. 0) (at + size_field) 0 1 h

behind-end : (memory : ℕ → ℕ) (at : ℕ) → IsEnd memory at → at + 2 ^ 30 ≤ move_tarfs_header memory at
unfolding move_tarfs_header
behind-end memory at h = rw (end-size memory at h) (omega arith)

Stored-le :
    (headers : List ℕ) (memory : ℕ → ℕ) (at stop : ℕ) → Stored memory at stop headers → at ≤ stop
Stored-le [] memory at stop s = omega arith
Stored-le (header ∷ headers) memory at stop (e, file, s) =
    let before = Stored-le headers memory (behind memory at) stop s in omega arith

-- The boot lists the headers of the files that lie in the archive, in their order. The block of zeros
-- behind the last one is listed as a file, too, and ends the list, since its size, read from zeros,
-- leads behind the archive. The files have sizes in octal digits for which no 32-bit number overflows.
pub init_tarfs-Stored :
    (headers : List ℕ) (fuel : ℕ) (memory : ℕ → ℕ) (at stop end : ℕ)
    → length headers + 1 < fuel
    → Stored memory at stop headers
    → IsEnd memory stop
    → stop < end
    → end ≤ stop + 2 ^ 30
    → init_tarfs fuel memory at end ≡ some (headers ++ stop ∷ [])
unfolding init_tarfs
init_tarfs-Stored headers zero memory at stop end f s z l u = absurd (omega arith)
init_tarfs-Stored [] (suc zero) memory at stop end f s z l u = absurd (omega arith)
init_tarfs-Stored [] (suc (suc fuel)) memory at stop end f s z l u =
    let here : ltb at end ≡ true = ground arith in
    let far = behind-end memory at (subst (IsEnd memory) (sym s) z) in
    let over : ltb (move_tarfs_header memory at) end ≡ false = ground arith in
    rw (here, over) (ap (λ h. some (h ∷ [])) s)
init_tarfs-Stored (header ∷ headers) (suc fuel) memory at stop end f (e, file, s) z l u =
    let before = Stored-le headers memory (behind memory at) stop s in
    let here : ltb at end ≡ true = ground arith in
    rw
      (
        here,
        move_tarfs_header-behind memory at file,
        init_tarfs-Stored headers fuel memory (behind memory at) stop end (omega arith) s z l u,
      )
      (ap (λ h. some (h ∷ headers ++ stop ∷ [])) (sym e))
