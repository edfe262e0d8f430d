-- ===== src/Text/Tests.antt =====
-- "42" at 10, "4" at 20, and NUL elsewhere.
use late_os.Common.{
  ℕ, ◌<◌, ◌≡◌, refl, inr, ◌⊎◌, some, List, [], ◌∷◌, ◌++◌, All, arith, ◌==◌, if◌then◌else◌,
}
use late_os.Text.{strcmp, strcpy, strcat, str_to_int}
use late_os.Text.Strings.{IsString, strcpy-IsString, strcat-IsString}
use late_os.Text.Compare.{IsDigit, Compared, str_to_int-decimal, strcmp-Compared}

abbrev bytes : ℕ → ℕ
bytes i = if i == 10 then b'4' else if i == 11 then b'2' else if i == 20 then b'4' else 0

abbrev forty_two : List ℕ
forty_two = b'4' ∷ b'2' ∷ []

abbrev four : List ℕ
four = b'4' ∷ []

forty_two-IsString : IsString bytes 10 forty_two
unfolding IsString
forty_two-IsString = (refl, λ e. absurd (omega arith), (refl, λ e. absurd (omega arith), refl))

four-IsString : IsString bytes 20 four
unfolding IsString
four-IsString = (refl, λ e. absurd (omega arith), refl)

bytes-bound : (i : ℕ) → bytes i < 256
bytes-bound i = ground arith

strcpy-IsString_example :
    (after : ℕ → ℕ) × (strcpy 100 bytes 30 10 ≡ some after)
    × IsString after 30 forty_two
    × ((i : ℕ) → (i < 30) ⊎ (32 < i) → after i ≡ bytes i)
strcpy-IsString_example =
    strcpy-IsString 100 bytes 30 10 forty_two (omega arith) forty_two-IsString (inr (omega arith))

joined_words :
    (after : ℕ → ℕ) × (strcat 100 bytes 20 10 ≡ some (23, after))
    × IsString after 20 (four ++ forty_two)
    × ((i : ℕ) → (i < 21) ⊎ (23 < i) → after i ≡ bytes i)
joined_words =
    strcat-IsString 100 bytes 20 10 four forty_two (omega arith) (omega arith) four-IsString
      forty_two-IsString (inr (omega arith))

strcmp-Compared_example : Compared forty_two four (strcmp 100 bytes 10 20)
strcmp-Compared_example =
    strcmp-Compared 100 bytes 10 20 forty_two four (omega arith) bytes-bound forty_two-IsString
      four-IsString

forty_two-digits : All IsDigit forty_two
forty_two-digits = ((omega arith, omega arith), ((omega arith, omega arith), tt))

str_to_int-decimal_example : str_to_int 100 bytes 10 ≡ some 42
str_to_int-decimal_example =
    str_to_int-decimal 100 bytes 10 forty_two (omega arith) forty_two-IsString forty_two-digits
      (omega arith)
