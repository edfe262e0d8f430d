-- ===== src/Loader/Pushes.antt =====
-- What is pushed to the stack of a program stays there (setTaskRSP and setRSPandExec in
-- sys/process.c).
use late_os.Common.{
  ℕ, ◌+◌, ◌-◌, ◌*◌, ◌/◌, ◌%◌, ◌^◌, ◌≤◌, ◌<◌, ◌≡◌, ◌≢◌, ap, ◌∙◌, inr, some, List, [], ◌∷◌, arith,
  length,
}
use late_os.Memory.{Memory, M, page_size, index4, ◌>>=◌, ◌>>◌, pure}
use late_os.Memory.Walk.{translate, Roles}
use late_os.Loader.{digit, byte_at, copy_up}
use late_os.Loader.Bytes.{Mapping, Stored}
use late_os.Loader.Runs.{copy_up-Stored}
use late_os.Loader.Stack.{char_at, lower, push_word, push_string}

-- The bytes from `low` to `high` are the same.
pub record Same (low high top : ℕ) (word word' : ℕ → ℕ) : Type 0 where
  pub byte : (u : ℕ) → low ≤ u → u < high → byte_at word' top u ≡ byte_at word top u

pub Same-then :
    {low low' high top : ℕ} {word word' word'' : ℕ → ℕ}
    → Same low high top word word'
    → Same low' high top word' word''
    → low' ≤ low
    → Same low high top word word''
Same-then s t le = record { byte = λ u l h. t.byte u (omega arith) h ∙ s.byte u l h }

-- A string that stands at `p`, between `low` and `high`, with its NUL.
pub record HasString (low high top : ℕ) (word : ℕ → ℕ) (p : ℕ) (s : List ℕ) : Type 0 where
  pub above : low ≤ p
  pub below : p + length s < high
  pub bytes : (i : ℕ) → i ≤ length s → byte_at word top (p + i) ≡ some (char_at s i % 256)

-- A word that stands at `p`, between `low` and `high`.
pub record HasWord (low high top : ℕ) (word : ℕ → ℕ) (p x : ℕ) : Type 0 where
  pub above : low ≤ p
  pub below : p + 8 ≤ high
  pub bytes : (i : ℕ) → i < 8 → byte_at word top (p + i) ≡ some (digit i x % 256)

pub HasString-Same :
    {low low' high top : ℕ} {word word' : ℕ → ℕ} {p : ℕ} {s : List ℕ}
    → HasString low high top word p s
    → Same low high top word word'
    → low' ≤ low
    → HasString low' high top word' p s
HasString-Same {p = p} h same le =
    let a = h.above in
    let b = h.below in
    record {
      above = omega arith;
      below = omega arith;
      bytes = λ i l. same.byte (p + i) (omega arith) (omega arith) ∙ h.bytes i l;
    }

pub HasWord-Same :
    {low low' high top : ℕ} {word word' : ℕ → ℕ} {p x : ℕ}
    → HasWord low high top word p x
    → Same low high top word word'
    → low' ≤ low
    → HasWord low' high top word' p x
HasWord-Same {p = p} h same le =
    let a = h.above in
    let b = h.below in
    record {
      above = omega arith;
      below = omega arith;
      bytes = λ i l. same.byte (p + i) (omega arith) (omega arith) ∙ h.bytes i l;
    }

-- The strings stand at the places of a list.
abbrev pub Strings : (low high top : ℕ) → (ℕ → ℕ) → List ℕ → List (List ℕ) → Type 0
Strings low high top word [] [] = Unit {0}
Strings low high top word (p ∷ ps) (s ∷ ss) =
    HasString low high top word p s × Strings low high top word ps ss
Strings low high top word [] (s ∷ ss) = ⊥
Strings low high top word (p ∷ ps) [] = ⊥

-- The words stand one behind the other from `p` on.
abbrev pub Words : (low high top : ℕ) → (ℕ → ℕ) → (p : ℕ) → List ℕ → Type 0
Words low high top word p [] = Unit {0}
Words low high top word p (x ∷ xs) =
    HasWord low high top word p x × Words low high top word (p + 8) xs

pub Strings-Same :
    {low low' high top : ℕ} {word word' : ℕ → ℕ} (ps : List ℕ) (ss : List (List ℕ))
    → Strings low high top word ps ss
    → Same low high top word word'
    → low' ≤ low
    → Strings low' high top word' ps ss
Strings-Same [] [] h same le = tt
Strings-Same (p ∷ ps) (s ∷ ss) (h, hs) same le =
    (HasString-Same h same le, Strings-Same ps ss hs same le)
Strings-Same [] (s ∷ ss) h same le = absurd h
Strings-Same (p ∷ ps) [] h same le = absurd h

pub Words-Same :
    {low low' high top : ℕ} {word word' : ℕ → ℕ} (p : ℕ) (xs : List ℕ)
    → Words low high top word p xs
    → Same low high top word word'
    → low' ≤ low
    → Words low' high top word' p xs
Words-Same p [] h same le = tt
Words-Same p (x ∷ xs) (h, hs) same le = (HasWord-Same h same le, Words-Same (p + 8) xs hs same le)

-- A run that changes no byte from `low` to `high` and nothing but bytes.
pub record Pushed (role : Roles) (free : List ℕ) (top first count : ℕ) (page : ℕ → ℕ) (m : Memory)
    (low high : ℕ) {A : Type 0} (run : M A) (r : A) (word' : ℕ → ℕ) : Type 0 where
  pub runs : run m ≡ some (r, record m { word = word' })
  pub region : Mapping role free top first count page (record m { word = word' })
  pub same : Same low high top m.word word'
  pub words :
      (w : ℕ) → ((j : ℕ) → first ≤ j → j < first + count → w / 512 ≢ page j) → word' w ≡ m.word w
  pub translates : (u : ℕ) → index4 u < 511 → translate word' top u ≡ translate m.word top u

-- One run behind another that has moved the stack pointer down.
pub Pushed-then :
    {role : Roles} {free : List ℕ} {top first count : ℕ} {page : ℕ → ℕ} {m : Memory}
    {rsp rsp' high : ℕ} {A B : Type 0} {run : M A} {a : A} {b : B} {word' word'' : ℕ → ℕ}
    (next : A → M B)
    → Pushed role free top first count page m rsp high run a word'
    → Pushed role free top first count page (record m { word = word' }) rsp' high (next a) b word''
    → rsp' ≤ rsp
    → Pushed role free top first count page m rsp high (run >>= next) b word''
Pushed-then next p q le = record {
  runs = rw (◌>>=◌, p.runs) q.runs;
  region = q.region;
  same = Same-then p.same q.same le;
  words = λ w ne. q.words w ne ∙ p.words w ne;
  translates = λ u h. q.translates u h ∙ p.translates u h;
}

pub Pushed-pure :
    {role : Roles} {free : List ℕ} {top first count : ℕ} {page : ℕ → ℕ} {m : Memory} {rsp high : ℕ}
    {A B : Type 0} {run : M A} {a : A} {word' : ℕ → ℕ} (g : A → B)
    → Pushed role free top first count page m rsp high run a word'
    → Pushed role free top first count page m rsp high (run >>= λ a. pure (g a)) (g a) word'
Pushed-pure g p = record {
  runs = rw (◌>>=◌, p.runs);
  region = p.region;
  same = p.same;
  words = p.words;
  translates = p.translates;
}

module _ {role : Roles} {free : List ℕ} {top first count : ℕ} {page : ℕ → ℕ} (high : ℕ)
    (inside : high ≤ (first + count) * page_size) (user : high < 2 ^ 63) where
  -- The bytes of a run of stores below `rsp`, behind which `rsp` is `rsp'`.
  module _ {m : Memory} (r : Mapping role free top first count page m) (n k rsp : ℕ) (f : ℕ → ℕ)
      (low : first * page_size + 8 * k ≤ rsp) (top_end : rsp ≤ high) (fits : n ≤ 8 * k) where
    pub lower-sub : lower rsp k ≡ rsp - 8 * k
    lower-sub = omega arith

    abbrev to : ℕ
    to = rsp - 8 * k

    stored :
        Stored role free top first count page m n to
          (λ u. f (u - to))
          (copy_up n f (top * page_size) to 0)
    stored =
        copy_up-Stored n r f to 0 (λ u. f (u - to))
          (λ i h. ap f (let e : to + i - to ≡ 0 + i = omega arith in e)) (omega arith, omega arith)

    pub below-Pushed :
        (word' : ℕ → ℕ) × Pushed role free top first count page m rsp high
          (copy_up n f (top * page_size) (lower rsp k) 0 >> pure (lower rsp k))
          to
          word'
        × ((i : ℕ) → i < n → byte_at word' top (to + i) ≡ some (f i % 256))
    below-Pushed = (
      stored.word',
      record {
        runs = rw (lower-sub, ◌>>=◌, stored.runs, lower-sub);
        region = stored.region;
        same = record {
          byte = λ u l h. stored.outside u (omega arith) (omega arith) (inr (omega arith));
        };
        words = stored.words;
        translates = stored.translates;
      },
      λ i h.
          stored.inside (to + i) (omega arith) (omega arith)
          ∙ ap (λ j. some (f j % 256)) (let e : to + i - to ≡ i = omega arith in e),
    )

  pub push_word-Pushed :
      {m : Memory}
      → Mapping role free top first count page m
      → (rsp x : ℕ) → first * page_size + 8 ≤ rsp
      → rsp ≤ high
      → (word' : ℕ → ℕ) × Pushed role free top first count page m rsp high
          (push_word (top * page_size) rsp x)
          (rsp - 8)
          word'
        × HasWord (rsp - 8) high top word' (rsp - 8) x
  unfolding push_word
  push_word-Pushed r rsp x low top_end =
      let (word', p, bytes) =
        below-Pushed r 8 1 rsp (λ i. digit i x) (omega arith) top_end (omega arith) in
      (word', p, record { above = omega arith; below = omega arith; bytes = bytes })

  pub push_string-Pushed :
      {m : Memory}
      → Mapping role free top first count page m
      → (rsp : ℕ) (s : List ℕ) → first * page_size + 8 * (length s + 1) ≤ rsp
      → rsp ≤ high
      → (word' : ℕ → ℕ) × Pushed role free top first count page m rsp high
          (push_string (top * page_size) rsp s)
          (rsp - 8 * (length s + 1))
          word'
        × HasString (rsp - 8 * (length s + 1)) high top word' (rsp - 8 * (length s + 1)) s
  unfolding push_string
  push_string-Pushed r rsp s low top_end =
      let (word', p, bytes) =
        below-Pushed r (length s + 1) (length s + 1) rsp (char_at s) low top_end (omega arith) in
      (
        word',
        p,
        record { above = omega arith; below = omega arith; bytes = λ i h. bytes i (omega arith) },
      )
