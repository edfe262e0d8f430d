-- ===== src/Screen/Format.antt =====
-- kprintf (sys/kprintf.c): the characters that a format and its arguments produce, each handed to
-- writeToSbush in turn.
--
-- A format is the list of its characters before the NUL. An `int` is an ℤ above -2 ^ 31, whose
-- negation does not overflow. Arguments that run out or do not fit their conversion are undefined in
-- C: `none`.
use late_os.Common.{
  ℕ, zero, suc, ◌+◌, ◌-◌, ◌/◌, ◌%◌, Bool, true, false, Option, none, some, List, [], ◌∷◌, ◌++◌,
  ◌==◌, ◌&&◌, ◌||◌, not, ltb, if◌then◌else◌,
}
use late_os.Common.Int.{ℤ, pos, negsuc}
use late_os.Screen.{Screen, write_to_sbush}

pub data Arg : Type 0 where
  int : ℤ → Arg
  ulong : ℕ → Arg
  string : List ℕ → Arg

-- The `while (offset != 0)` loop of %d; the fuel counts its rounds.
unfoldable pub d_loop : (fuel offset : ℕ) → Bool → ℕ → List ℕ
d_loop zero offset zeroes value = []
d_loop (suc fuel) offset zeroes value =
    let skip = d_loop fuel (offset / 10) true value in
    let rest = d_loop fuel (offset / 10) false (value % offset) in
    if offset == 0
    then []
    else if zeroes && value / offset == 0
    then skip
    else (b'0' + value / offset) ∷ rest

-- The code starts at `10*5`, which is 50; two rounds and the test that ends the loop.
abbrev pub first_offset : ℕ
first_offset = 50

unfoldable pub number_d : ℤ → List ℕ
unfolding d_loop
number_d (pos zero) = b'0' ∷ d_loop 3 first_offset true 0
number_d (pos (suc n)) = d_loop 3 first_offset true (suc n)
number_d (negsuc n) = b'-' ∷ d_loop 3 first_offset true (suc n)

-- A digit of %p, from `intVal % 16`.
unfoldable pub hex_digit : ℕ → ℕ
hex_digit d = if ltb d 10 then b'0' + d else b'A' + (d - 10)

-- The digits are collected from the last and printed backwards.
unfoldable pub hex_loop : (fuel value : ℕ) → List ℕ → List ℕ
hex_loop zero value out = out
hex_loop (suc fuel) value out =
    let rest = hex_loop fuel (value / 16) (hex_digit (value % 16) ∷ out) in
    if value == 0 then out else rest

-- An `unsigned long` has at most 16 digits.
unfoldable pub number_p : ℕ → List ℕ
number_p value = b'0' ∷ b'x' ∷ hex_loop 16 value []

-- %x of a negative `int`: the remainder is that of the absolute value, negated.
unfoldable pub negative_loop : (fuel magnitude : ℕ) → List ℕ → List ℕ
negative_loop zero m out = out
negative_loop (suc fuel) m out =
    let rest = negative_loop fuel (m / 16) ((b'0' - m % 16) ∷ out) in if m == 0 then out else rest

unfoldable pub number_x : ℤ → List ℕ
number_x (pos n) = hex_loop 8 n []
number_x (negsuc n) = negative_loop 8 (suc n) []

-- The characters of one conversion, and the arguments that are left.
unfoldable pub conversion : ℕ → List Arg → Option (List ℕ × List Arg)
conversion d [] = none
conversion d (int n ∷ args) =
    if d == b'd'
    then some (number_d n, args)
    else if d == b'x'
    then some (number_x n, args)
    else if d == b'c'
    then (elim n [
      | pos c ↦ some ((c % 256) ∷ [], args)
      | negsuc c ↦ some ((255 - c % 256) ∷ [], args)
    ])
    else none
conversion d (ulong n ∷ args) = if d == b'p' then some (number_p n, args) else none
conversion d (string s ∷ args) = if d == b's' then some (s, args) else none

abbrev pub is_conversion : ℕ → Bool
is_conversion d = (d == b'd') || (d == b'c') || (d == b's') || (d == b'x') || (d == b'p')

abbrev pub prepend : List ℕ → Option (List ℕ) → Option (List ℕ)
prepend out none = none
prepend out (some rest) = some (out ++ rest)

unfoldable pub formatted : List ℕ → List Arg → Option (List ℕ)
unfolding conversion
formatted [] args = some []
formatted (c ∷ []) args = if c == b'%' then some [] else some (c ∷ [])
formatted (c ∷ d ∷ fmt) args =
    let behind = λ (args' : List Arg). formatted fmt args' in
    let next = formatted (d ∷ fmt) args in
    if (c == b'\\') && (d == b'n')
    then prepend (b'\n' ∷ []) (behind args)
    else if (c == b'\\') && (d == b'r')
    then prepend (b'\r' ∷ []) (behind args)
    else if not (c == b'%')
    then prepend (c ∷ []) next
    else if is_conversion d
    then (elim (conversion d args) [ none ↦ none | some (out, args') ↦ prepend out (behind args') ])
    else next

unfoldable pub write_all : List ℕ → Screen → Screen
write_all [] s = s
write_all (c ∷ cs) s = write_all cs (write_to_sbush c s)

unfoldable pub kprintf : List ℕ → List Arg → Screen → Option Screen
kprintf fmt args s = elim (formatted fmt args) [ none ↦ none | some out ↦ some (write_all out s) ]
