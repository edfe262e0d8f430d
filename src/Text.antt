-- ===== src/Text.antt =====
-- The kernel's string functions (sys/string.c) over a memory of bytes.
--
-- A pointer is an address. A loop runs on fuel, `none` where it runs out: the bytes at and behind the
-- pointer hold no NUL that far. An `int` is its 32 bits.
pub mod Strings
pub mod Compare
pub mod Tests
use late_os.Common.{
  ℕ, zero, suc, ◌+◌, ◌-◌, ◌*◌, ◌/◌, ◌%◌, ◌^◌, Option, none, some, List, [], ◌∷◌, ◌==◌, ◌&&◌, not,
  ltb, if◌then◌else◌, update,
}
use late_os.Common.Int.{ℤ, pos, negsuc}

-- `a - b` of two `char`s, which are signed.
abbrev pub char_difference : ℕ → ℕ → ℤ
char_difference a b =
    let x = (a + 128) % 256 in
    let y = (b + 128) % 256 in if ltb x y then negsuc (y - x - 1) else pos (x - y)

unfoldable pub strcmp : (fuel : ℕ) → (ℕ → ℕ) → (s t : ℕ) → Option ℤ
strcmp zero memory s t = none
strcmp (suc fuel) memory s t =
    let rest = strcmp fuel memory (s + 1) (t + 1) in
    if memory s == memory t
    then (if memory s == 0 then some (pos 0) else rest)
    else some (char_difference (memory s) (memory t))

unfoldable pub strcpy : (fuel : ℕ) → (ℕ → ℕ) → (string2 string1 : ℕ) → Option (ℕ → ℕ)
strcpy zero memory string2 string1 = none
strcpy (suc fuel) memory string2 string1 =
    let rest = strcpy fuel (update memory string2 (memory string1)) (string2 + 1) (string1 + 1) in
    if memory string1 == 0 then some (update memory string2 0) else rest

unfoldable pub strlen : (fuel : ℕ) → (ℕ → ℕ) → ℕ → Option ℕ
strlen zero memory string = none
strlen (suc fuel) memory string =
    let rest = strlen fuel memory (string + 1) in
    if memory string == 0
    then some 0
    else (elim rest [ none ↦ none | some length ↦ some (length + 1) ])

-- The first loop of `strcat`: the address of the NUL.
unfoldable pub find_end : (fuel : ℕ) → (ℕ → ℕ) → ℕ → Option ℕ
find_end zero memory string1 = none
find_end (suc fuel) memory string1 =
    let rest = find_end fuel memory (string1 + 1) in
    if memory string1 == 0 then some string1 else rest

-- The second loop, the new NUL, and the pointer that is returned, which is to that NUL.
unfoldable pub append : (fuel : ℕ) → (ℕ → ℕ) → (string1 string2 : ℕ) → Option (ℕ × (ℕ → ℕ))
append zero memory string1 string2 = none
append (suc fuel) memory string1 string2 =
    let rest = append fuel (update memory string1 (memory string2)) (string1 + 1) (string2 + 1) in
    if memory string2 == 0 then some (string1, update memory string1 0) else rest

unfoldable pub strcat : (fuel : ℕ) → (ℕ → ℕ) → (string1 string2 : ℕ) → Option (ℕ × (ℕ → ℕ))
unfolding find_end append
strcat fuel memory string1 string2 = elim (find_end fuel memory string1) [
  | none ↦ none
  | some end ↦ append fuel memory end string2
]

-- `substring`: at most `index` + 1 characters are skipped; `i` counts them.
unfoldable pub skip : (n : ℕ) → (ℕ → ℕ) → ℕ → ℕ
skip zero memory string = string
skip (suc n) memory string =
    let rest = skip n memory (string + 1) in if memory string == 0 then string else rest

unfoldable pub substring : (ℕ → ℕ) → (string index : ℕ) → ℕ
unfolding skip
substring memory string index = skip (index + 1) memory string

-- The characters that two strings have in common, less one, as an `int`.
unfoldable pub common : (fuel : ℕ) → (ℕ → ℕ) → (string1 string2 : ℕ) → Option ℕ
common zero memory string1 string2 = none
common (suc fuel) memory string1 string2 =
    let rest = common fuel memory (string1 + 1) (string2 + 1) in
    if (memory string1 == memory string2) && not (memory string1 == 0)
    then (elim rest [ none ↦ none | some count ↦ some (count + 1) ])
    else some 0

unfoldable pub starts_with : (fuel : ℕ) → (ℕ → ℕ) → (string1 string2 : ℕ) → Option ℤ
unfolding common
starts_with fuel memory string1 string2 = elim (common fuel memory string1 string2) [
  | none ↦ none
  | some zero ↦ some (negsuc 0)
  | some (suc count) ↦ some (pos count)
]

unfoldable pub reset_string : (ℕ → ℕ) → ℕ → ℕ → ℕ
reset_string memory str = update memory str 0

-- One step of `dec * 10 + (num[i] - '0')`.
abbrev pub add_digit : ℕ → ℕ → ℕ
add_digit dec c = (dec * 10 + c + 2 ^ 32 - b'0') % 2 ^ 32

-- for (i = from; i < from + n; i++) dec = dec * 10 + (num[i] - '0');
unfoldable pub to_int : (n : ℕ) → (ℕ → ℕ) → (from dec : ℕ) → ℕ
to_int zero memory from dec = dec
to_int (suc n) memory from dec = to_int n memory (from + 1) (add_digit dec (memory from))

unfoldable pub str_to_int : (fuel : ℕ) → (ℕ → ℕ) → ℕ → Option ℕ
unfolding strlen to_int
str_to_int fuel memory num = elim (strlen fuel memory num) [
  | none ↦ none
  | some len ↦ some (to_int len memory num 0)
]

-- `octal_dict`: seven values are written for eight places, so the last is 0.
unfoldable pub octal_dict : ℕ → ℕ
octal_dict d =
    if d == 0
    then 0
    else if d == 1
    then 1
    else if d == 2
    then 10
    else if d == 3
    then 11
    else if d == 4
    then 100
    else if d == 5
    then 101
    else if d == 6
    then 111
    else 0

-- The loop of `toBinaryFile` over the decimal digits of `oct`, with the products of `int`s extended to
-- 64 bits. The digits 8 and 9 read behind the table, where the model reads 0.
unfoldable pub binary_loop : (fuel oct bin i : ℕ) → Option ℕ
unfolding octal_dict
binary_loop zero oct bin i = none
binary_loop (suc fuel) oct bin i =
    let product = octal_dict (oct % 10) * i % 2 ^ 32 in
    let extended = if ltb product (2 ^ 31) then product else product + 2 ^ 64 - 2 ^ 32 in
    let rest = binary_loop fuel (oct / 10) ((bin + extended) % 2 ^ 64) (i * 1000 % 2 ^ 32) in
    if oct == 0 then some bin else rest

-- `oct`: a 32-bit number has at most 10 digits.
unfoldable pub to_binary_file : (fuel : ℕ) → (ℕ → ℕ) → ℕ → Option ℕ
unfolding str_to_int binary_loop
to_binary_file fuel memory octal = elim (str_to_int fuel memory octal) [
  | none ↦ none
  | some oct ↦ binary_loop 11 oct 0 1
]
