-- ===== src/Loader/Found.antt =====
-- What a program reads on its stack (_start in crt/crt1.c).
use late_os.Common.{
  ℕ, zero, suc, ◌+◌, ◌*◌, ◌/◌, ◌%◌, ◌^◌, ◌≤◌, ◌<◌, ◌≡◌, refl, sym, ap, ◌∙◌, some, List, [], ◌∷◌,
  arith, length, All, ◌==◌, false, map, ap₂,
}
use late_os.Loader.{digit, byte_at}
use late_os.Loader.Stack.{char_at, number_at, string_at, start_argv, start_env, start, times}
use late_os.Loader.Pushes.{HasString, HasWord, Strings, Words}

-- The lowest `n` bytes of a number.
unfoldable low_bytes : (n x : ℕ) → ℕ
low_bytes zero x = 0
low_bytes (suc n) x = x % 256 + 256 * low_bytes n (x / 256)

number_at-low_bytes :
    (n : ℕ) (word : ℕ → ℕ) (top v x : ℕ)
    → ((i : ℕ) → i < n → byte_at word top (v + i) ≡ some (digit i x % 256))
    → number_at n word top v ≡ some (low_bytes n x)
unfolding number_at low_bytes digit
number_at-low_bytes zero word top v x bytes = refl
number_at-low_bytes (suc n) word top v x bytes =
    let here : v + 0 ≡ v = omega arith in
    let first : byte_at word top v ≡ some (x % 256) =
      ap (byte_at word top) (sym here)
      ∙ bytes 0 (omega arith)
      ∙ ap some (let e : x % 256 % 256 ≡ x % 256 = omega arith in e) in
    let rest = number_at-low_bytes n word top (v + 1) (x / 256) λ i h.
      let e : v + 1 + i ≡ v + suc i = omega arith in
      ap (byte_at word top) e ∙ bytes (suc i) (omega arith) in
    rw (number_at, first, rest)

low_bytes-eight : (x : ℕ) → x < 2 ^ 64 → low_bytes 8 x ≡ x
unfolding low_bytes
low_bytes-eight x h = omega arith

low_bytes-four : (x : ℕ) → x < 2 ^ 32 → low_bytes 4 x ≡ x
unfolding low_bytes
low_bytes-four x h = omega arith

pub number_at-HasWord :
    (low high top : ℕ) (word : ℕ → ℕ) (p x : ℕ)
    → HasWord low high top word p x
    → x < 2 ^ 64
    → number_at 8 word top p ≡ some x
number_at-HasWord low high top word p x h b =
    number_at-low_bytes 8 word top p x h.bytes ∙ ap some (low_bytes-eight x b)

-- An `int` in the lower half of a word.
pub number_at-int :
    (low high top : ℕ) (word : ℕ → ℕ) (p x : ℕ)
    → HasWord low high top word p x
    → x < 2 ^ 32
    → number_at 4 word top p ≡ some x
number_at-int low high top word p x h b =
    number_at-low_bytes 4 word top p x (λ i l. h.bytes i (omega arith))
    ∙ ap some (low_bytes-four x b)

-- A string of bytes other than NUL.
abbrev pub IsText : List ℕ → Type 0
IsText s = All (λ c. (0 < c) × (c < 256)) s

pub string_at-HasString :
    (n low high top : ℕ) (word : ℕ → ℕ) (p : ℕ) (s : List ℕ)
    → HasString low high top word p s
    → length s < n
    → IsText s
    → string_at n word top p ≡ some s
unfolding char_at string_at
string_at-HasString n low high top word p s h l t = go n p s h.bytes l t
  where
    go :
        (n p : ℕ) (s : List ℕ)
        → ((i : ℕ) → i ≤ length s → byte_at word top (p + i) ≡ some (char_at s i % 256))
        → length s < n
        → IsText s
        → string_at n word top p ≡ some s
    go zero p s bytes l t = absurd (omega arith)
    go (suc n) p [] bytes l t =
        let here : p + 0 ≡ p = omega arith in
        let first : byte_at word top p ≡ some 0 =
          ap (byte_at word top) (sym here) ∙ bytes 0 (omega arith) in
        rw (string_at, first)
    go (suc n) p (c ∷ cs) bytes l (tc, tcs) =
        let here : p + 0 ≡ p = omega arith in
        let first : byte_at word top p ≡ some c =
          ap (byte_at word top) (sym here)
          ∙ bytes 0 (omega arith)
          ∙ ap some (let e : c % 256 ≡ c = omega arith in e) in
        let other : (c == 0) ≡ false = ground arith in
        let rest =
          go n (p + 1) cs
            (λ i h.
              let e : p + 1 + i ≡ p + suc i = omega arith in
              ap (byte_at word top) e ∙ bytes (suc i) (omega arith))
            (omega arith) tcs in
        rw (string_at, first, other, rest)

-- The words of a list lie in the memory that a program can use.
abbrev pub Positive : List ℕ → Type 0
Positive xs = All (λ x. (0 < x) × (x < 2 ^ 63)) xs

pub Strings-Positive :
    (low high top : ℕ) (word : ℕ → ℕ) (ps : List ℕ) (ss : List (List ℕ))
    → Strings low high top word ps ss
    → 0 < low
    → high < 2 ^ 63
    → Positive ps
Strings-Positive low high top word [] [] h a b = tt
Strings-Positive low high top word (p ∷ ps) (s ∷ ss) (h, hs) a b =
    let above = h.above in
    let below = h.below in
    ((omega arith, omega arith), Strings-Positive low high top word ps ss hs a b)
Strings-Positive low high top word [] (s ∷ ss) h a b = absurd h
Strings-Positive low high top word (p ∷ ps) [] h a b = absurd h

pub Strings-length :
    (low high top : ℕ) (word : ℕ → ℕ) (ps : List ℕ) (ss : List (List ℕ))
    → Strings low high top word ps ss
    → length ps ≡ length ss
Strings-length low high top word [] [] h = refl
Strings-length low high top word (p ∷ ps) (s ∷ ss) (h, hs) =
    ap suc (Strings-length low high top word ps ss hs)
Strings-length low high top word [] (s ∷ ss) h = absurd h
Strings-length low high top word (p ∷ ps) [] h = absurd h

-- Strings of text that an array of 100 characters holds.
abbrev pub AreArguments : List (List ℕ) → Type 0
AreArguments ss = All (λ s. (length s < 100) × IsText s) ss

pub string_at-Strings :
    (low high top : ℕ) (word : ℕ → ℕ) (ps : List ℕ) (ss : List (List ℕ))
    → Strings low high top word ps ss
    → AreArguments ss
    → map (string_at 100 word top) ps ≡ map some ss
string_at-Strings low high top word [] [] h a = refl
string_at-Strings low high top word (p ∷ ps) (s ∷ ss) (h, hs) ((l, t), others) =
    ap₂ ◌∷◌ (string_at-HasString 100 low high top word p s h l t)
      (string_at-Strings low high top word ps ss hs others)
string_at-Strings low high top word [] (s ∷ ss) h a = absurd h
string_at-Strings low high top word (p ∷ ps) [] h a = absurd h

pub start_argv-Words :
    (low high top : ℕ) (word : ℕ → ℕ) (v : ℕ) (ps : List ℕ)
    → Words low high top word v ps
    → Positive ps
    → start_argv (length ps) word top v ≡ some ps
unfolding start_argv
start_argv-Words low high top word v [] h a = refl
start_argv-Words low high top word v (p ∷ ps) (h, hs) ((a, b), others) = rw (
  start_argv,
  number_at-HasWord low high top word v p h (omega arith),
  start_argv-Words low high top word (v + 8) ps hs others,
)

-- The loop ends at the word 0 behind the words.
pub start_env-Words :
    (fuel low high top : ℕ) (word : ℕ → ℕ) (v : ℕ) (ps : List ℕ)
    → Words low high top word v ps
    → HasWord low high top word (v + 8 * length ps) 0
    → Positive ps
    → length ps < fuel
    → start_env fuel word top v ≡ some ps
unfolding start_env
start_env-Words zero low high top word v ps h z a l = absurd (omega arith)
start_env-Words (suc fuel) low high top word v [] h z a l =
    let here : v + 8 * 0 ≡ v = omega arith in
    let null : number_at 8 word top v ≡ some 0 =
      ap (number_at 8 word top) (sym here)
      ∙ number_at-HasWord low high top word _ 0 z (omega arith) in
    rw (start_env, null)
start_env-Words (suc fuel) low high top word v (p ∷ ps) (h, hs) z ((a, b), others) l =
    let next : v + 8 * suc (length ps) ≡ v + 8 + 8 * length ps = omega arith in
    let other : (p == 0) ≡ false = ground arith in
    rw (
      start_env,
      number_at-HasWord low high top word v p h (omega arith),
      other,
      start_env-Words fuel low high top word (v + 8) ps hs (rw next at z) others (omega arith),
    )

-- The parts of what `_start` finds.
pub start-parts :
    (fuel : ℕ) (word : ℕ → ℕ) (top stack argc : ℕ) (argv env : List ℕ)
    → number_at 4 word top (stack + 8) ≡ some argc
    → start_argv (times argc) word top (stack + 16) ≡ some argv
    → start_env fuel word top (stack + 16 + 8 * times argc + 8) ≡ some env
    → start fuel word top stack ≡ some (argc, argv, env)
unfolding start
start-parts fuel word top stack argc argv env a b c = rw (start, a, b, c)
