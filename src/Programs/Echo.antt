-- ===== src/Programs/Echo.antt =====
-- What echo prints (bin/echo/echo.c).
use late_os.Common.{
  ℕ, zero, suc, ◌+◌, ◌-◌, ◌<◌, ◌≡◌, ◌≢◌, refl, inl, inr, ◌⊎◌, some, List, [], ◌∷◌, ◌++◌, arith,
  length, ◌==◌, codes, eq→==, false,
}
use late_os.Text.Strings.{IsString, IsString-same, strcat-IsString}
use late_os.Files.{chars}
use late_os.Programs.{print_words, arguments, echo}

chars-IsString :
    (n : ℕ) (memory : ℕ → ℕ) (p : ℕ) (cs : List ℕ)
    → length cs < n
    → IsString memory p cs
    → chars n memory p ≡ cs
unfolding chars IsString
chars-IsString zero memory p cs f h = absurd (omega arith)
chars-IsString (suc n) memory p [] f h = rw (eq→== (memory p) 0 h)
chars-IsString (suc n) memory p (c ∷ cs) f (h, nz, hs) =
    let other : (memory p == 0) ≡ false = ground arith in
    rw (other, chars-IsString n memory (p + 1) cs (omega arith) hs, h)

-- The two bytes behind a word at `p`, its NUL and the next, are none of the string at `q`.
abbrev pub Clear : (p n q k : ℕ) → Type 0
Clear p n q k = (q + k < p + n) ⊎ (p + n + 1 < q)

abbrev pub AllClear : (p n : ℕ) → List ℕ → List (List ℕ) → Type 0
AllClear p n (q ∷ qs) (v ∷ vs) = Clear p n q (length v) × AllClear p n qs vs
AllClear p n _ _ = Unit {0}

-- The words stand at their places, and behind each there is a byte of no other word.
abbrev pub Roomy : (fuel space : ℕ) → (ℕ → ℕ) → List ℕ → List (List ℕ) → Type 0
Roomy fuel space memory [] [] = Unit {0}
Roomy fuel space memory (p ∷ ps) (w ∷ ws) =
    IsString memory p w
    × (length w + 1 < fuel)
    × Clear p (length w) space 1
    × AllClear p (length w) ps ws
    × Roomy fuel space memory ps ws
Roomy fuel space memory [] (w ∷ ws) = ⊥
Roomy fuel space memory (p ∷ ps) [] = ⊥

-- Each word with a space behind it.
pub spaced : List (List ℕ) → List ℕ
spaced [] = []
spaced (w ∷ ws) = (w ++ codes " ") ++ spaced ws

length-space : (w : List ℕ) → length (w ++ codes " ") ≡ length w + 1
length-space [] = refl
length-space (c ∷ w) = omega (arith, length-space w)

Roomy-same :
    (fuel space : ℕ) (memory memory' : ℕ → ℕ) (p n : ℕ) (ps : List ℕ) (ws : List (List ℕ))
    → ((i : ℕ) → (i < p + n) ⊎ (p + n + 1 < i) → memory' i ≡ memory i)
    → AllClear p n ps ws
    → Roomy fuel space memory ps ws
    → Roomy fuel space memory' ps ws
Roomy-same fuel space memory memory' p n [] [] same a h = tt
Roomy-same fuel space memory memory' p n (q ∷ qs) (v ∷ vs) same (a, others) (h, f, c, d, hs) = (
  IsString-same memory memory' q v
      (λ i l u. same i (elim a [ inl x ↦ inl (omega arith) | inr x ↦ inr (omega arith) ])) h,
  f,
  c,
  d,
  Roomy-same fuel space memory memory' p n qs vs same others hs,
)
Roomy-same fuel space memory memory' p n [] (v ∷ vs) same a h = absurd h
Roomy-same fuel space memory memory' p n (q ∷ qs) [] same a h = absurd h

print_words-spaced :
    (fuel space : ℕ) (memory : ℕ → ℕ) (ps : List ℕ) (ws : List (List ℕ))
    → 1 < fuel
    → IsString memory space (codes " ")
    → Roomy fuel space memory ps ws
    → (after : ℕ → ℕ) × (print_words fuel space memory ps ≡ some (spaced ws, after))
unfolding print_words spaced
print_words-spaced fuel space memory [] [] enough blank h = (memory, refl)
print_words-spaced fuel space memory (p ∷ ps) (w ∷ ws) enough blank (h, f, c, d, hs) =
    let (memory', runs, word, same) =
      strcat-IsString fuel memory p space w (codes " ") (omega arith) enough h blank
        (elim c [ inl x ↦ inr (omega arith) | inr x ↦ inl (omega arith) ]) in
    let blank' =
      IsString-same memory memory' space (codes " ")
        (λ i l u. same i (elim c [ inl x ↦ inl (omega arith) | inr x ↦ inr (omega arith) ]))
        blank in
    let hs' = Roomy-same fuel space memory memory' p (length w) ps ws (λ i o. same i o) d hs in
    let (after, rest) = print_words-spaced fuel space memory' ps ws enough blank' hs' in
    let shown =
      chars-IsString fuel memory' p (w ++ codes " ") (let e = length-space w in omega arith) word in
    (after, rw (print_words, runs, rest, shown))
print_words-spaced fuel space memory [] (w ∷ ws) enough blank h = absurd h
print_words-spaced fuel space memory (p ∷ ps) [] enough blank h = absurd h

-- echo with at least one argument, each with a byte to spare behind it: it prints the arguments, each
-- with a space behind it, and the line end, and returns 0.
pub echo-spaced :
    (fuel space : ℕ) (memory : ℕ → ℕ) (argc : ℕ) (argv : ℕ → ℕ) (ws : List (List ℕ))
    → 1 < fuel
    → argv 1 ≢ 0
    → IsString memory space (codes " ")
    → Roomy fuel space memory (arguments (argc - 1) 1 argv) ws
    → (after : ℕ → ℕ) × (echo fuel space memory argc argv
        ≡ some (0, spaced ws ++ codes "\n", after))
unfolding echo
echo-spaced fuel space memory argc argv ws enough given blank roomy =
    let (after, runs) =
      print_words-spaced fuel space memory (arguments (argc - 1) 1 argv) ws enough blank roomy in
    let some_word : (argv 1 == 0) ≡ false = ground arith in (after, rw (echo, some_word, runs))
