-- ===== src/Programs/Buffer.antt =====
-- The entries of a directory as strings, and their copy to a buffer (readDirTarfsFile in sys/tarfs.c).
use late_os.Common.{
  ℕ, zero, suc, ◌+◌, ◌≡◌, ◌≢◌, ◌≤◌, ◌<◌, ◌⊎◌, inl, inr, refl, ◌∙◌, List, [], ◌∷◌, arith, length,
  ◌==◌, eq→==, false, Bool-cases, update, update_self, update-ne, All,
}
use late_os.Files.{Archive, chars, name}
use late_os.Files.Directory.{drop, shared, is_listed}
use late_os.Files.Listed.{entries}
use late_os.Calls.Serve.{put_string}

pub put_string-outside :
    (cs : List ℕ) (bytes : ℕ → ℕ) (p i : ℕ)
    → (i < p) ⊎ (p + length cs < i)
    → put_string cs bytes p i ≡ bytes i
put_string-outside [] bytes p i o =
    update-ne bytes p i 0 (elim o [ inl x ↦ ground arith | inr x ↦ ground arith ])
put_string-outside (c ∷ cs) bytes p i o =
    put_string-outside cs (update bytes p c) (p + 1) i
      (elim o [ inl x ↦ inl (omega arith) | inr x ↦ inr (omega arith) ])
    ∙ update-ne bytes p i c (elim o [ inl x ↦ ground arith | inr x ↦ ground arith ])

-- A string of at most `n` characters.
abbrev pub Fits : (n : ℕ) → List ℕ → Type 0
Fits n cs = (length cs ≤ n) × All (λ c. c ≢ 0) cs

chars-Fits : (n : ℕ) (memory : ℕ → ℕ) (p : ℕ) → Fits n (chars n memory p)
unfolding chars
chars-Fits zero memory p = (omega arith, tt)
chars-Fits (suc n) memory p =
    let (l, rest) = chars-Fits n memory (p + 1) in
    elim (Bool-cases (memory p == 0)) [
      | inl z ↦ rw z (omega arith, tt)
      | inr c ↦ rw c (omega arith, (ground arith, rest))
    ]

drop-Fits : (n k : ℕ) (cs : List ℕ) → Fits n cs → Fits n (drop k cs)
drop-Fits n zero cs h = h
drop-Fits n (suc k) [] h = h
drop-Fits n (suc k) (c ∷ cs) (l, (nz, h)) = drop-Fits n k cs (omega arith, h)

pub chars-put_string :
    (n : ℕ) (cs : List ℕ) (bytes : ℕ → ℕ) (p : ℕ)
    → Fits n cs
    → chars n (put_string cs bytes p) p ≡ cs
unfolding chars
chars-put_string zero [] bytes p h = refl
chars-put_string zero (c ∷ cs) bytes p (l, h) = absurd (omega arith)
chars-put_string (suc n) [] bytes p h = rw (eq→== (update bytes p 0 p) 0 (update_self bytes p 0))
chars-put_string (suc n) (c ∷ cs) bytes p (l, (nz, h)) =
    let first : put_string cs (update bytes p c) (p + 1) p ≡ c =
      put_string-outside cs (update bytes p c) (p + 1) p (inl (omega arith))
      ∙ update_self bytes p c in
    let other : (put_string cs (update bytes p c) (p + 1) p == 0) ≡ false = ground arith in
    rw (other, first, chars-put_string n cs (update bytes p c) (p + 1) (omega arith, h))

pub chars-same :
    (n : ℕ) (a b : ℕ → ℕ) (p : ℕ)
    → ((i : ℕ) → p ≤ i → i < p + n → a i ≡ b i)
    → chars n a p ≡ chars n b p
unfolding chars
chars-same zero a b p s = refl
chars-same (suc n) a b p s = rw (
  s p (omega arith) (omega arith),
  chars-same n a b (p + 1) (λ i l u. s i (omega arith) (omega arith)),
)

pub entries-same :
    (a b : Archive) (file_name hs : List ℕ)
    → All (λ h. name a h ≡ name b h) hs
    → entries a file_name hs ≡ entries b file_name hs
entries-same a b file_name [] s = refl
entries-same a b file_name (h ∷ hs) (e, s) = rw (e, entries-same a b file_name hs s) refl

pub entries-Fits : (a : Archive) (file_name hs : List ℕ) → All (Fits 512) (entries a file_name hs)
entries-Fits a file_name [] = tt
entries-Fits a file_name (h ∷ hs) = elim (Bool-cases (is_listed file_name (name a h))) [
  | inl l ↦ rw l (
    drop-Fits 512 (shared (name a h) file_name) (name a h) (chars-Fits 512 a.memory h),
    entries-Fits a file_name hs,
  )
  | inr l ↦ rw l (entries-Fits a file_name hs)
]
