-- ===== src/Text/Strings.antt =====
-- What the string functions do on strings that end.
use late_os.Common.{
  ℕ, zero, suc, ◌+◌, ◌<◌, ◌≤◌, ◌≡◌, ◌≢◌, refl, ap, ◌∙◌, subst, inl, inr, ◌⊎◌, false, Option, none,
  some, List, [], ◌∷◌, ◌++◌, length, arith, ◌==◌, Bool-cases, eq→==, update, update_self, update-ne,
}
use late_os.Text.{strcpy, strlen, find_end, append, strcat}

-- The characters `cs` stand at `p`, and a NUL behind them.
unfoldable pub IsString : (ℕ → ℕ) → ℕ → List ℕ → Type 0
IsString memory p [] = memory p ≡ 0
IsString memory p (c ∷ cs) = (memory p ≡ c) × (c ≢ 0) × IsString memory (p + 1) cs

pub IsString-same :
    (memory memory' : ℕ → ℕ) (p : ℕ) (cs : List ℕ)
    → ((i : ℕ) → p ≤ i → i ≤ p + length cs → memory' i ≡ memory i)
    → IsString memory p cs
    → IsString memory' p cs
unfolding IsString
IsString-same memory memory' p [] same h = same p (omega arith) (omega arith) ∙ h
IsString-same memory memory' p (c ∷ cs) same (h, nz, hs) = (
  same p (omega arith) (omega arith) ∙ h,
  nz,
  IsString-same memory memory' (p + 1) cs (λ i l u. same i (omega arith) (omega arith)) hs,
)

pub strlen-IsString :
    (fuel : ℕ) (memory : ℕ → ℕ) (p : ℕ) (cs : List ℕ)
    → length cs < fuel
    → IsString memory p cs
    → strlen fuel memory p ≡ some (length cs)
unfolding strlen IsString
strlen-IsString zero memory p cs f h = absurd (omega arith)
strlen-IsString (suc fuel) memory p [] f h = rw (eq→== (memory p) 0 h) refl
strlen-IsString (suc fuel) memory p (c ∷ cs) f (h, nz, hs) =
    let other : (memory p == 0) ≡ false = ground arith in
    rw (other, strlen-IsString fuel memory (p + 1) cs (omega arith) hs) (ap some (omega arith))

find_end-IsString :
    (fuel : ℕ) (memory : ℕ → ℕ) (p : ℕ) (cs : List ℕ)
    → length cs < fuel
    → IsString memory p cs
    → find_end fuel memory p ≡ some (p + length cs)
unfolding find_end IsString
find_end-IsString zero memory p cs f h = absurd (omega arith)
find_end-IsString (suc fuel) memory p [] f h = rw (eq→== (memory p) 0 h) (ap some (omega arith))
find_end-IsString (suc fuel) memory p (c ∷ cs) f (h, nz, hs) =
    let other : (memory p == 0) ≡ false = ground arith in
    rw (other, find_end-IsString fuel memory (p + 1) cs (omega arith) hs) (ap some (omega arith))

-- `result` is a memory with `cs` at `dest`, and as `memory` elsewhere, with the address of its NUL.
pub record Appended (memory : ℕ → ℕ) (dest : ℕ) (cs : List ℕ) (result : Option (ℕ × (ℕ → ℕ)))
    : Type 0 where
  pub after : ℕ → ℕ
  pub runs : result ≡ some (dest + length cs, after)
  pub copied : IsString after dest cs
  pub below : (i : ℕ) → i < dest → after i ≡ memory i
  pub above : (i : ℕ) → dest + length cs < i → after i ≡ memory i

append-Appended :
    (fuel : ℕ) (memory : ℕ → ℕ) (dest source : ℕ) (cs : List ℕ)
    → length cs < fuel
    → IsString memory source cs
    → (dest ≤ source) ⊎ (source + length cs < dest)
    → Appended memory dest cs (append fuel memory dest source)
unfolding append IsString
append-Appended zero memory dest source cs f h apart = absurd (omega arith)
append-Appended (suc fuel) memory dest source [] f h apart =
    rw (eq→== (memory source) 0 h) (record {
      after = update memory dest 0;
      runs = ap (λ d. some (d, update memory dest 0)) (omega arith);
      copied = update_self memory dest 0;
      below = λ i b. update-ne memory dest i 0 (λ e. absurd (omega arith));
      above = λ i b. update-ne memory dest i 0 (λ e. absurd (omega arith));
    })
append-Appended (suc fuel) memory dest source (c ∷ cs) f (h, nz, hs) apart =
    let other : (memory source == 0) ≡ false = ground arith in
    let memory' = update memory dest (memory source) in
    let rest : Appended memory' (dest + 1) cs (append fuel memory' (dest + 1) (source + 1)) =
      append-Appended fuel memory' (dest + 1) (source + 1) cs (omega arith)
        (IsString-same memory memory' (source + 1) cs
          (λ i l u. update-ne memory dest i (memory source) (λ e. grind arith)) hs)
        (elim apart [ inl a ↦ inl (omega arith) | inr b ↦ inr (omega arith) ]) in
    rw other (record {
      after = rest.after;
      runs = rest.runs ∙ ap (λ d. some (d, rest.after)) (omega arith);
      copied = (
        rest.below dest (omega arith) ∙ update_self memory dest (memory source) ∙ h,
        nz,
        rest.copied,
      );
      below = λ i b.
          rest.below i (omega arith)
          ∙ update-ne memory dest i (memory source) (λ e. absurd (omega arith));
      above = λ i b.
          rest.above i (omega arith)
          ∙ update-ne memory dest i (memory source) (λ e. absurd (omega arith));
    })

strcpy-append :
    (fuel : ℕ) (memory : ℕ → ℕ) (dest source : ℕ)
    → strcpy fuel memory dest source
      ≡ (elim (append fuel memory dest source) [ none ↦ none | some (end, after) ↦ some after ])
unfolding strcpy append
strcpy-append zero memory dest source = refl
strcpy-append (suc fuel) memory dest source = elim (Bool-cases (memory source == 0)) [
  | inl e ↦ rw e refl
  | inr e ↦ rw e (strcpy-append fuel (update memory dest (memory source)) (dest + 1) (source + 1))
]

-- `strcpy` of a string that ends, to a place that does not lie inside it behind its start: it ends, the
-- string stands at the destination with its NUL, and no other byte has changed.
pub strcpy-IsString :
    (fuel : ℕ) (memory : ℕ → ℕ) (dest source : ℕ) (cs : List ℕ)
    → length cs < fuel
    → IsString memory source cs
    → (dest ≤ source) ⊎ (source + length cs < dest)
    → (after : ℕ → ℕ) × (strcpy fuel memory dest source ≡ some after)
      × IsString after dest cs
      × ((i : ℕ) → (i < dest) ⊎ (dest + length cs < i) → after i ≡ memory i)
strcpy-IsString fuel memory dest source cs f h apart =
    let a = append-Appended fuel memory dest source cs f h apart in
    (
      a.after,
      strcpy-append fuel memory dest source ∙ rw a.runs refl,
      a.copied,
      λ i o. elim o [ inl b ↦ a.below i b | inr b ↦ a.above i b ],
    )

IsString-append :
    (memory memory' : ℕ → ℕ) (p : ℕ) (cs ds : List ℕ)
    → IsString memory p cs
    → ((i : ℕ) → i < p + length cs → memory' i ≡ memory i)
    → IsString memory' (p + length cs) ds
    → IsString memory' p (cs ++ ds)
unfolding IsString
IsString-append memory memory' p [] ds h same t = subst (λ q. IsString memory' q ds) (omega arith) t
IsString-append memory memory' p (c ∷ cs) ds (h, nz, hs) same t = (
  same p (omega arith) ∙ h,
  nz,
  IsString-append memory memory' (p + 1) cs ds hs (λ i b. same i (omega arith))
      (subst (λ q. IsString memory' q ds) (omega arith) t),
)

-- `strcat` of two strings that end, where the place behind the first does not lie inside the second
-- behind its start: it ends, the two stand one behind the other at the first, the pointer that is
-- returned is to their NUL, and no byte in front of the first string's NUL, or behind the new one,
-- has changed.
pub strcat-IsString :
    (fuel : ℕ) (memory : ℕ → ℕ) (p q : ℕ) (cs ds : List ℕ)
    → length cs < fuel
    → length ds < fuel
    → IsString memory p cs
    → IsString memory q ds
    → (p + length cs ≤ q) ⊎ (q + length ds < p + length cs)
    → (after : ℕ → ℕ) × (strcat fuel memory p q ≡ some (p + length cs + length ds, after))
      × IsString after p (cs ++ ds)
      × ((i : ℕ) → (i < p + length cs) ⊎ (p + length cs + length ds < i) → after i ≡ memory i)
unfolding strcat
strcat-IsString fuel memory p q cs ds f g h k apart =
    let a = append-Appended fuel memory (p + length cs) q ds g k apart in
    (
      a.after,
      rw (find_end-IsString fuel memory p cs f h, strcat) a.runs,
      IsString-append memory a.after p cs ds h a.below a.copied,
      λ i o. elim o [ inl b ↦ a.below i b | inr b ↦ a.above i b ],
    )
