-- ===== src/Screen/Digits.antt =====
-- What the numbers that kprintf prints say of the value.
use late_os.Common.{ℕ, suc, ◌+◌, ◌-◌, ◌*◌, ◌/◌, ◌%◌, ◌≡◌, List, [], ◌∷◌, arith, ltb, if◌then◌else◌}
use late_os.Common.Int.{pos}
use late_os.Screen.Format.{number_d}

-- The value of a hexadecimal digit as %p prints it, and of a sequence of them, behind `acc`.
pub digit_value : ℕ → ℕ
digit_value c = if ltb c b'A' then c - b'0' else c - b'A' + 10

pub hex_value : ℕ → List ℕ → ℕ
hex_value acc [] = acc
hex_value acc (c ∷ cs) = hex_value (acc * 16 + digit_value c) cs

-- %d prints the quotient by 50 and, of the rest, the quotient by 5, a leading zero left out; what
-- is left modulo 5 is printed by nothing, so positive numbers with one quotient by 5 look the same.
pub number_d-fifths :
    (n m : ℕ) → suc n / 5 ≡ suc m / 5 → number_d (pos (suc n)) ≡ number_d (pos (suc m))
unfolding number_d
number_d-fifths n m h =
    let a : suc n / 50 ≡ suc m / 50 = omega arith in
    let b : suc n % 50 / 5 ≡ suc m % 50 / 5 = omega arith in rw (a, b, h)
