-- ===== src/Files/Size.antt =====
-- The sizes in the headers (getsize in sys/tarfs.c).
use late_os.Common.{ℕ, zero, suc, ◌+◌, ◌-◌, ◌*◌, ◌/◌, ◌%◌, ◌^◌, ◌<◌, ◌≤◌, ◌≡◌, sym, ap, ◌∙◌, arith}
use native.Mathlib.Nat.{mod-add-mod, add-mul-mod_self_left, div-add-mod}
use late_os.Files.{char, size_loop, get_size}

-- The number that the octal digits at `at` write.
abbrev pub octal : (j : ℕ) → (ℕ → ℕ) → ℕ → ℕ
octal zero memory at = 0
octal (suc j) memory at = octal j memory at * 8 + (memory (at + j) - b'0')

abbrev pub AreDigits : (j : ℕ) → (ℕ → ℕ) → ℕ → Type 0
AreDigits zero memory at = Unit
AreDigits (suc j) memory at =
    (b'0' ≤ memory (at + j)) × (memory (at + j) ≤ b'7') × AreDigits j memory at

times-mod : (a o x m : ℕ) → (a + o * (x % m)) % m ≡ (a + o * x) % m
times-mod a o x m =
    let d = div-add-mod x m in
    let split : a + o * x ≡ a + o * (x % m) + m * (o * (x / m)) = grind arith in
    sym (rw split (add-mul-mod_self_left (a + o * (x % m)) m (o * (x / m))))

round :
    (size o v count : ℕ)
    → ((size + (v + 2 ^ 32) * count) % 2 ^ 32 + o * (count * 8 % 2 ^ 32)) % 2 ^ 32
      ≡ (size + (o * 8 + v) * count) % 2 ^ 32
round size o v count =
    let split : size + (v + 2 ^ 32) * count + o * (count * 8)
        ≡ size + (o * 8 + v) * count + 2 ^ 32 * count =
      grind arith in
    mod-add-mod (size + (v + 2 ^ 32) * count) (2 ^ 32) (o * (count * 8 % 2 ^ 32))
    ∙ times-mod (size + (v + 2 ^ 32) * count) o (count * 8) (2 ^ 32)
    ∙ rw split (add-mul-mod_self_left (size + (o * 8 + v) * count) (2 ^ 32) count)

size_loop-octal :
    (j : ℕ) (memory : ℕ → ℕ) (at size count : ℕ)
    → size < 2 ^ 32
    → AreDigits j memory at
    → size_loop j memory at size count ≡ (size + octal j memory at * count) % 2 ^ 32
unfolding size_loop
size_loop-octal zero memory at size count s d = omega arith
size_loop-octal (suc j) memory at size count s (lo, hi, d) =
    let d_j = memory (at + j) in
    let e : char d_j + 2 ^ 32 - b'0' ≡ d_j - b'0' + 2 ^ 32 = ground arith in
    let size' = (size + (char d_j + 2 ^ 32 - b'0') * count) % 2 ^ 32 in
    size_loop-octal j memory at size' (count * 8 % 2 ^ 32) (omega arith) d
    ∙ ap (λ x. ((size + x * count) % 2 ^ 32 + octal j memory at * (count * 8 % 2 ^ 32)) % 2 ^ 32) e
    ∙ round size (octal j memory at) (d_j - b'0') count

-- The size in a header, eleven octal digits, is the number that they write, modulo 2³²: a file of 4 GiB
-- or more has another size for the kernel.
pub get_size-octal :
    (memory : ℕ → ℕ) (at : ℕ)
    → AreDigits 11 memory at
    → get_size memory at ≡ octal 11 memory at % 2 ^ 32
unfolding get_size
get_size-octal memory at d =
    size_loop-octal 11 memory at 0 1 (omega arith) d
    ∙ (let plain : (x : ℕ) → 0 + x * 1 ≡ x = λ x. omega arith in
        ap (λ x. x % 2 ^ 32) (plain (octal 11 memory at)))
