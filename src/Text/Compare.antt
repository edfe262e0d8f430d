-- ===== src/Text/Compare.antt =====
-- strcmp tells equal strings, and strtoInt reads a decimal number (sys/string.c).
use late_os.Common.{
  ℕ, zero, suc, ◌+◌, ◌-◌, ◌*◌, ◌^◌, ◌<◌, ◌≤◌, ◌≡◌, ◌≢◌, refl, sym, ap, ◌∙◌, inl, inr, true, false,
  Option, some, List, [], ◌∷◌, length, All, arith, ◌==◌, Bool-cases, eq→==, ==→eq,
}
use late_os.Common.Int.{ℤ, pos}
use late_os.Text.{strcmp, str_to_int, to_int, add_digit, char_difference}
use late_os.Text.Strings.{IsString, strlen-IsString}

-- The number that decimal digits write behind `dec`.
abbrev pub decimal : ℕ → List ℕ → ℕ
decimal dec [] = dec
decimal dec (c ∷ cs) = decimal (dec * 10 + (c - b'0')) cs

abbrev pub IsDigit : ℕ → Type 0
IsDigit c = (b'0' ≤ c) × (c ≤ b'9')

decimal_le : (cs : List ℕ) (dec : ℕ) → dec ≤ decimal dec cs
decimal_le [] dec = omega arith
decimal_le (c ∷ cs) dec = let h = decimal_le cs (dec * 10 + (c - b'0')) in omega arith

to_int-decimal :
    (cs : List ℕ) (memory : ℕ → ℕ) (p dec : ℕ)
    → IsString memory p cs
    → All IsDigit cs
    → decimal dec cs < 2 ^ 32
    → to_int (length cs) memory p dec ≡ decimal dec cs
unfolding to_int IsString
to_int-decimal [] memory p dec h d b = refl
to_int-decimal (c ∷ cs) memory p dec (h, nz, hs) ((lo, hi), ds) b =
    let next = dec * 10 + (c - b'0') in
    let fits = decimal_le cs next in
    let step : add_digit dec (memory p) ≡ next = rw h (omega arith) in
    ap (to_int (length cs) memory (p + 1)) step ∙ to_int-decimal cs memory (p + 1) next hs ds b

-- `strtoInt` of a string of decimal digits whose number an `int` can hold is that number.
pub str_to_int-decimal :
    (fuel : ℕ) (memory : ℕ → ℕ) (p : ℕ) (cs : List ℕ)
    → length cs < fuel
    → IsString memory p cs
    → All IsDigit cs
    → decimal 0 cs < 2 ^ 31
    → str_to_int fuel memory p ≡ some (decimal 0 cs)
unfolding str_to_int
str_to_int-decimal fuel memory p cs f h d b =
    rw (strlen-IsString fuel memory p cs f h, str_to_int)
      (ap some (to_int-decimal cs memory p 0 h d (omega arith)))

-- The result of a comparison of the strings `cs` and `ds`.
pub record Compared (cs ds : List ℕ) (result : Option ℤ) : Type 0 where
  pub difference : ℤ
  pub runs : result ≡ some difference
  pub same : cs ≡ ds → difference ≡ pos 0
  pub differ : difference ≡ pos 0 → cs ≡ ds

char_difference-differ : (a b : ℕ) → a < 256 → b < 256 → a ≢ b → char_difference a b ≢ pos 0
char_difference-differ a b la lb ne e = ground arith

unequal :
    (cs ds : List ℕ) (a b : ℕ)
    → a < 256
    → b < 256
    → a ≢ b
    → cs ≢ ds
    → Compared cs ds (some (char_difference a b))
unequal cs ds a b la lb ne apart = record {
  difference = char_difference a b;
  runs = refl;
  same = λ e. absurd (apart e);
  differ = λ z. absurd (char_difference-differ a b la lb ne z);
}

-- `strcmp` of two strings that end returns 0 for equal strings, and only for them.
pub strcmp-Compared :
    (fuel : ℕ) (memory : ℕ → ℕ) (s t : ℕ) (cs ds : List ℕ)
    → length cs < fuel
    → ((i : ℕ) → memory i < 256)
    → IsString memory s cs
    → IsString memory t ds
    → Compared cs ds (strcmp fuel memory s t)
unfolding strcmp IsString
strcmp-Compared zero memory s t cs ds f bytes h k = absurd (omega arith)
strcmp-Compared (suc fuel) memory s t [] [] f bytes h k =
    let same : (memory s == memory t) ≡ true = ground arith in
    let over : (memory s == 0) ≡ true = ground arith in
    rw (same, over)
      (record { difference = pos 0; runs = refl; same = λ e. refl; differ = λ e. refl })
strcmp-Compared (suc fuel) memory s t [] (d ∷ ds) f bytes h (k, nz, ks) =
    let other : (memory s == memory t) ≡ false = ground arith in
    rw other
      (unequal [] (d ∷ ds) (memory s) (memory t) (bytes s) (bytes t) (ground arith) (λ e. cc))
strcmp-Compared (suc fuel) memory s t (c ∷ cs) [] f bytes (h, nz, hs) k =
    let other : (memory s == memory t) ≡ false = ground arith in
    rw other
      (unequal (c ∷ cs) [] (memory s) (memory t) (bytes s) (bytes t) (ground arith) (λ e. cc))
strcmp-Compared (suc fuel) memory s t (c ∷ cs) (d ∷ ds) f bytes (h, nz, hs) (k, nz', ks) =
    elim (Bool-cases (memory s == memory t)) [
      | inl e ↦
          let more : (memory s == 0) ≡ false = ground arith in
          let head : c ≡ d = sym h ∙ ==→eq (memory s) (memory t) e ∙ k in
          let rest = strcmp-Compared fuel memory (s + 1) (t + 1) cs ds (omega arith) bytes hs ks in
          rw (e, more)
            (record {
              difference = rest.difference;
              runs = rest.runs;
              same = λ x. rest.same cc;
              differ = λ z. let y = rest.differ z in cc;
            })
      | inr e ↦
          let apart : memory s ≢ memory t = λ x. cc (e, eq→== (memory s) (memory t) x) in
          rw e (
            unequal (c ∷ cs) (d ∷ ds) (memory s) (memory t) (bytes s) (bytes t) apart
              (λ x. let y : c ≡ d = cc in apart (h ∙ y ∙ sym k)))
    ]
