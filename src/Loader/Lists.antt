-- ===== src/Loader/Lists.antt =====
-- Strings and words that are pushed one after the other (setRSPandExec in sys/process.c).
use late_os.Common.{
  ℕ, suc, ◌+◌, ◌-◌, ◌*◌, ◌^◌, ◌≤◌, ◌<◌, ◌≡◌, refl, ap, some, List, [], ◌∷◌, arith, length, subst,
}
use late_os.Memory.{Memory, page_size, ◌>>=◌, pure}
use late_os.Memory.Walk.{Roles}
use late_os.Loader.Bytes.{Mapping}
use late_os.Loader.Stack.{push_word, push_string, push_strings, push_words}
use late_os.Loader.Pushes.{
  Strings, Words, Strings-Same, Words-Same, Pushed, Pushed-then, Pushed-pure, push_word-Pushed,
  push_string-Pushed,
}

-- The words that strings take on the stack.
unfoldable pub room : List (List ℕ) → ℕ
room [] = 0
room (s ∷ ss) = room ss + (length s + 1)

module _ {role : Roles} {free : List ℕ} {top first count : ℕ} {page : ℕ → ℕ} (high : ℕ)
    (inside : high ≤ (first + count) * page_size) (user : high < 2 ^ 63) where
  pub push_strings-Pushed :
      {m : Memory}
      → Mapping role free top first count page m
      → (rsp : ℕ) (ss : List (List ℕ)) → first * page_size + 8 * room ss ≤ rsp
      → rsp ≤ high
      → (ps : List ℕ) × (word' : ℕ → ℕ) × Pushed role free top first count page m rsp high
          (push_strings (top * page_size) rsp ss)
          (rsp - 8 * room ss, ps)
          word'
        × Strings (rsp - 8 * room ss) high top word' ps ss
  unfolding push_strings room
  push_strings-Pushed {m} r rsp [] low top_end = (
    [],
    m.word,
    record {
      runs = ap (λ at. some ((at, []), m)) (let e : rsp ≡ rsp - 8 * 0 = omega arith in e);
      region = r;
      same = record { byte = λ u l h. refl };
      words = λ w ne. refl;
      translates = λ u h. refl;
    },
    tt,
  )
  push_strings-Pushed {m} r rsp (s ∷ ss) low top_end =
      let (ps, word', p, strings) = push_strings-Pushed r rsp ss (omega arith) top_end in
      let (word'', q, string) =
        push_string-Pushed high inside user p.region (rsp - 8 * room ss) s (omega arith)
          (omega arith) in
      let at : rsp - 8 * room ss - 8 * (length s + 1) ≡ rsp - 8 * (room ss + (length s + 1)) =
        omega arith in
      (
        (rsp - 8 * (room ss + (length s + 1))) ∷ ps,
        word'',
        rw (← at) (
            Pushed-then
              (λ below. push_string (top * page_size) below.0 s >>= λ at. pure (at, at ∷ below.1)) p
              (Pushed-pure (λ at. (at, at ∷ ps)) q) (omega arith)),
        (rw (← at) string, Strings-Same ps ss strings q.same (omega arith)),
      )

  pub push_words-Pushed :
      {m : Memory}
      → Mapping role free top first count page m
      → (rsp : ℕ) (xs : List ℕ) → first * page_size + 8 * length xs ≤ rsp
      → rsp ≤ high
      → (word' : ℕ → ℕ) × Pushed role free top first count page m rsp high
          (push_words (top * page_size) rsp xs)
          (rsp - 8 * length xs)
          word'
        × Words (rsp - 8 * length xs) high top word' (rsp - 8 * length xs) xs
  unfolding push_words
  push_words-Pushed {m} r rsp [] low top_end = (
    m.word,
    record {
      runs = ap (λ at. some (at, m)) (let e : rsp ≡ rsp - 8 * 0 = omega arith in e);
      region = r;
      same = record { byte = λ u l h. refl };
      words = λ w ne. refl;
      translates = λ u h. refl;
    },
    tt,
  )
  push_words-Pushed {m} r rsp (x ∷ xs) low top_end =
      let (word', p, words) = push_words-Pushed r rsp xs (omega arith) top_end in
      let (word'', q, word) =
        push_word-Pushed high inside user p.region (rsp - 8 * length xs) x (omega arith)
          (omega arith) in
      let at : rsp - 8 * length xs - 8 ≡ rsp - 8 * suc (length xs) = omega arith in
      let next' : rsp - 8 * length xs ≡ rsp - 8 * suc (length xs) + 8 = omega arith in
      (
        word'',
        rw (← at) (Pushed-then (λ at. push_word (top * page_size) at x) p q (omega arith)),
        (
          rw (← at) word,
          subst (λ v. Words (rsp - 8 * suc (length xs)) high top word'' v xs) next'
              (Words-Same (rsp - 8 * length xs) xs words q.same (omega arith)),
        ),
      )
