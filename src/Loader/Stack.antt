-- ===== src/Loader/Stack.antt =====
-- The stack that a program starts with (setTaskRSP and setRSPandExec in sys/process.c), and how the
-- program finds its arguments there (crt/crt1.c).
--
-- `rsp` is a `uint64_t *`, so `rsp - l` is 8 * l bytes lower. What is stored lies in the arrays of the
-- kernel's stack, above every address of the program, so memcpy copies upwards.
use late_os.Common.{
  ℕ, zero, suc, ◌+◌, ◌-◌, ◌*◌, ◌%◌, ◌^◌, ◌==◌, Option, none, some, List, [], ◌∷◌, length, ltb,
  if◌then◌else◌,
}
use late_os.Memory.{M, pure, ◌>>=◌, ◌>>◌}
use late_os.Loader.{digit, byte_at, copy_up}

-- Character `i` of a string, behind which its NUL stands.
unfoldable pub char_at : List ℕ → ℕ → ℕ
char_at [] i = 0
char_at (c ∷ cs) zero = c
char_at (c ∷ cs) (suc i) = char_at cs i

-- `rsp - n`
abbrev pub lower : (rsp n : ℕ) → ℕ
lower rsp n = (rsp + 2 ^ 64 - 8 * n) % 2 ^ 64

-- `ts->rsp -= 1; *(ts->rsp) = x;`
unfoldable pub push_word : (pml4 rsp x : ℕ) → M ℕ
unfolding copy_up
push_word pml4 rsp x = copy_up 8 (λ i. digit i x) pml4 (lower rsp 1) 0 >> pure (lower rsp 1)

-- l = strlen(s) + 1; ts->rsp = ts->rsp - l; memcpy(ts->rsp, s, l);
unfoldable pub push_string : (pml4 rsp : ℕ) → List ℕ → M ℕ
unfolding copy_up char_at
push_string pml4 rsp s =
    copy_up (length s + 1) (char_at s) pml4 (lower rsp (length s + 1)) 0
    >> pure (lower rsp (length s + 1))

-- The strings, the last one first, and where each of them stands.
unfoldable pub push_strings : (pml4 rsp : ℕ) → List (List ℕ) → M (ℕ × List ℕ)
unfolding push_string
push_strings pml4 rsp [] = pure (rsp, [])
push_strings pml4 rsp (s ∷ ss) = do
  below ← push_strings pml4 rsp ss
  at ← push_string pml4 below.0 s
  pure (at, at ∷ below.1)

-- The words, the last one first.
unfoldable pub push_words : (pml4 rsp : ℕ) → List ℕ → M ℕ
unfolding push_word
push_words pml4 rsp [] = pure rsp
push_words pml4 rsp (x ∷ xs) = do at ← push_words pml4 rsp xs; push_word pml4 at x

-- `setRSPandExec` up to the jump into the program: its stack pointer.
unfoldable pub set_rsp_and_exec : (pml4 rsp : ℕ) → (args envs : List (List ℕ)) → M ℕ
unfolding push_strings push_words
set_rsp_and_exec pml4 rsp args envs = do
  temp1 ← push_strings pml4 rsp envs
  temp ← push_strings pml4 temp1.0 args
  end ← push_word pml4 temp.0 0
  env ← push_words pml4 end temp1.1
  null ← push_word pml4 env 0
  argv ← push_words pml4 null temp.1
  push_word pml4 argv (length args)

-- `setTaskRSP`: the name, two zeros, the address of the word above, and 1.
unfoldable pub set_task_rsp : (pml4 rsp : ℕ) → List ℕ → M ℕ
unfolding push_string push_word
set_task_rsp pml4 rsp name = do
  rsp₁ ← push_string pml4 rsp name
  rsp₂ ← push_word pml4 rsp₁ 0
  rsp₃ ← push_word pml4 rsp₂ 0
  rsp₄ ← push_word pml4 rsp₃ rsp₃
  push_word pml4 rsp₄ 1

-- A number of `n` bytes in the program's memory; `none` is a page fault.
unfoldable pub number_at : (n : ℕ) → (ℕ → ℕ) → (top v : ℕ) → Option ℕ
number_at zero word top v = some 0
number_at (suc n) word top v = elim (byte_at word top v) [
  | none ↦ none
  | some b ↦ elim (number_at n word top (v + 1)) [ none ↦ none | some r ↦ some (b + 256 * r) ]
]

-- The string at `v`, if its NUL is among the first `n` bytes.
unfoldable pub string_at : (n : ℕ) → (ℕ → ℕ) → (top v : ℕ) → Option (List ℕ)
string_at zero word top v = none
string_at (suc n) word top v =
    let rest = string_at n word top (v + 1) in
    elim (byte_at word top v) [
      | none ↦ none
      | some b ↦ if b == 0 then some [] else elim rest [ none ↦ none | some cs ↦ some (b ∷ cs) ]
    ]

-- The loop over the arguments, `n` of them left.
unfoldable pub start_argv : (n : ℕ) → (ℕ → ℕ) → (top v : ℕ) → Option (List ℕ)
unfolding number_at
start_argv zero word top v = some []
start_argv (suc n) word top v = elim (number_at 8 word top v) [
  | none ↦ none
  | some p ↦ elim (start_argv n word top (v + 8)) [ none ↦ none | some ps ↦ some (p ∷ ps) ]
]

-- The loop over the environment, which ends at NULL; the fuel counts its entries.
unfoldable pub start_env : (fuel : ℕ) → (ℕ → ℕ) → (top v : ℕ) → Option (List ℕ)
unfolding number_at
start_env zero word top v = none
start_env (suc fuel) word top v =
    let rest = start_env fuel word top (v + 8) in
    elim (number_at 8 word top v) [
      | none ↦ none
      | some p ↦ if p == 0 then some [] else elim rest [ none ↦ none | some ps ↦ some (p ∷ ps) ]
    ]

-- How often a loop `iter < n` from 0 on runs, for an `int` n by its 32 bits.
abbrev pub times : ℕ → ℕ
times n = if ltb n (2 ^ 31) then n else 0

-- The arguments of `main` that `_start` finds: argc, argv and env, in arrays that the code fills without
-- a bound. `stack` is rsp where the code reads it: one word below the stack pointer that the program is
-- entered with, since the prologue of `_start` pushes a word.
unfoldable pub start : (fuel : ℕ) → (ℕ → ℕ) → (top stack : ℕ) → Option (ℕ × List ℕ × List ℕ)
unfolding start_argv start_env
start fuel word top stack = elim (number_at 4 word top (stack + 8)) [
  | none ↦ none
  | some argc ↦ elim (start_argv (times argc) word top (stack + 16)) [
    | none ↦ none
    | some argv ↦ elim (start_env fuel word top (stack + 16 + 8 * times argc + 8)) [
      | none ↦ none
      | some env ↦ some (argc, argv, env)
    ]
  ]
]
