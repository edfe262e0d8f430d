-- ===== src/Calls/Streams.antt =====
-- Reading a line in a program (fgets in libc/string_sys.c).
use late_os.Common.{
  ℕ, suc, ◌+◌, ◌-◌, ◌%◌, ◌^◌, ◌<◌, ◌≡◌, refl, ◌==◌, ◌||◌, Option, none, some, List, [], ◌∷◌, ◌++◌,
  All, if◌then◌else◌, arith, update, false, ◌≢◌, length, ap, ◌∙◌, update_self,
}

-- `nums` are the results of `getchar`; when there are no more, the program waits. The parameters
-- `num` and `fileDesc` have no effect.
unfoldable pub fgets : (str : ℕ) → (nums : List ℕ) → (ℕ → ℕ) → Option (List ℕ × (ℕ → ℕ))
fgets str [] memory = none
fgets str (num ∷ nums) memory =
    let memory' = update memory str (num % 2 ^ 8) in
    let rest = fgets (str + 1) nums memory' in
    if (num == 10) || (num == 2 ^ 32 - 1) then some (nums, update memory' (str + 1) 10) else rest

-- The memory with the characters at `str`.
pub stored : (str : ℕ) → List ℕ → (ℕ → ℕ) → ℕ → ℕ
stored str [] memory = memory
stored str (c ∷ cs) memory = stored (str + 1) cs (update memory str c)

abbrev pub IsInner : ℕ → Type 0
IsInner c = (c < 256) × (c ≢ 10)

-- fgets stores a typed line with its end and puts a second line end behind it where a string has its NUL;
-- it takes no character more, and changes no other byte.
pub fgets-stored :
    (str : ℕ) (line more : List ℕ) (memory : ℕ → ℕ)
    → All IsInner line
    → fgets str (line ++ 10 ∷ more) memory ≡ some (more, stored str (line ++ 10 ∷ 10 ∷ []) memory)
unfolding fgets stored
fgets-stored str [] more memory h = refl
fgets-stored str (c ∷ line) more memory ((small, inner), hs) =
    let byte : c % 2 ^ 8 ≡ c = omega arith in
    let other : ((c == 10) || (c == 2 ^ 32 - 1)) ≡ false = ground arith in
    rw (other, byte) (fgets-stored (str + 1) line more (update memory str c) hs)

-- The second line end stands behind the line.
pub fgets-second :
    (str : ℕ) (line : List ℕ) (memory : ℕ → ℕ)
    → stored str (line ++ 10 ∷ 10 ∷ []) memory (str + length line + 1) ≡ 10
unfolding stored
fgets-second str [] memory =
    let place : str + 0 + 1 ≡ str + 1 = omega arith in
    rw (place, update_self (update memory str 10) (str + 1) 10)
fgets-second str (c ∷ line) memory =
    let place : str + suc (length line) + 1 ≡ str + 1 + length line + 1 = omega arith in
    ap (stored (str + 1) (line ++ 10 ∷ 10 ∷ []) (update memory str c)) place
    ∙ fgets-second (str + 1) line (update memory str c)
