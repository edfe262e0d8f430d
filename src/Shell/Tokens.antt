-- ===== src/Shell/Tokens.antt =====
-- How a line is split into words (strtokBeta in bin/sbush/sbush.c).
use late_os.Common.{
  ℕ, zero, suc, ◌+◌, ◌<◌, ◌≤◌, ◌≡◌, ◌≢◌, refl, sym, ap, ◌∙◌, arith, inl, inr, Bool, true, false,
  ◌&&◌, Option, none, some, List, [], ◌∷◌, ◌++◌, length, All, append_assoc, append-nil, ◌==◌,
  Bool-cases, subst, if◌then◌else◌, update, update_self, update-ne,
}
use late_os.Files.{same}
use late_os.Shell.{Strings, ampersand, Split, end_string, make_null_execvp, strtok_loop, strtok}

-- No space and no end of line stand in it.
abbrev pub IsPlain : List ℕ → Type 0
IsPlain cs = All (λ c. (c ≢ b' ') × (c ≢ 10)) cs

abbrev pub IsWord : List ℕ → Type 0
IsWord [] = ⊥
IsWord (c ∷ cs) = IsPlain (c ∷ cs)

-- The words with a space between each two.
abbrev pub line : List (List ℕ) → List ℕ
line [] = []
line (w ∷ []) = w
line (w ∷ w' ∷ ws) = w ++ b' ' ∷ line (w' ∷ ws)

abbrev pub last : List (List ℕ) → List ℕ
last [] = []
last (w ∷ []) = w
last (w ∷ w' ∷ ws) = last (w' ∷ ws)

-- A '&' is NULL, and so is what is behind the last word.
abbrev shown : List ℕ → Option (List ℕ)
shown w = if same w ampersand then none else some w

abbrev pub argument : List (List ℕ) → ℕ → Option (List ℕ)
argument [] i = none
argument (w ∷ ws) zero = shown w
argument (w ∷ ws) (suc i) = argument ws i

-- The words stand in the array from number `i` on.
pub record Filled (i : ℕ) (words : List (List ℕ)) (before : Strings) (after : Split) : Type 0 where
  pub strings : (j : ℕ) → j ≤ length words → after.strs (i + j) ≡ argument words j
  pub below : (p : ℕ) → p < i → after.strs p ≡ before p
  pub background : after.is_background ≡ same (last words) ampersand

pub no_quote : (b : Bool) → b && false ≡ false
no_quote true = refl
no_quote false = refl

strtok_loop-plain :
    (cs rest : List ℕ) (c i : ℕ) (checked : Bool) (word : List ℕ) (s : Split)
    → IsPlain (c ∷ cs)
    → strtok_loop b' ' checked (c ∷ cs ++ rest) i word s
      ≡ strtok_loop b' ' false rest i (word ++ c ∷ cs) s
unfolding strtok_loop
strtok_loop-plain [] rest c i checked word s ((space, end), h) =
    let e : c == 10 ≡ false = ground arith in
    let e' : c == b' ' ≡ false = ground arith in rw (e, e', no_quote (c == b'"')) refl
strtok_loop-plain (d ∷ cs) rest c i checked word s ((space, end), h) =
    let e : c == 10 ≡ false = ground arith in
    let e' : c == b' ' ≡ false = ground arith in
    rw (e, e', no_quote (c == b'"'))
      (strtok_loop-plain cs rest d i false (word ++ c ∷ []) s h
        ∙ ap (λ w. strtok_loop b' ' false rest i w s) (append_assoc word (c ∷ []) (d ∷ cs)))

strtok_loop-IsWord :
    (w rest : List ℕ) (i : ℕ) (checked : Bool) (s : Split)
    → IsWord w
    → strtok_loop b' ' checked (w ++ rest) i [] s ≡ strtok_loop b' ' false rest i w s
strtok_loop-IsWord [] rest i checked s h = absurd h
strtok_loop-IsWord (c ∷ cs) rest i checked s h = strtok_loop-plain cs rest c i checked [] s h

-- What the end of a word writes.
record Ended (i : ℕ) (w : List ℕ) (before : Strings) (after : Split) : Type 0 where
  here : after.strs i ≡ shown w
  others : (p : ℕ) → i ≢ p → after.strs p ≡ before p
  tests : after.is_background ≡ same w ampersand

end_string-Ended : (i : ℕ) (w : List ℕ) (strs : Strings) → Ended i w strs (end_string i w strs)
unfolding end_string
end_string-Ended i w strs = elim (Bool-cases (same w ampersand)) [
  | inl e ↦ rw e (record {
    here = update_self strs i none ∙ rw e refl;
    others = λ p n. update-ne strs i p none n;
    tests = sym e;
  })
  | inr e ↦ rw e (record {
    here = update_self strs i (some w) ∙ rw e refl;
    others = λ p n. update-ne strs i p (some w) n;
    tests = sym e;
  })
]

last-strings :
    (i : ℕ) (w : List ℕ) (s after : Split) (j : ℕ)
    → Ended i w s.strs after
    → j ≤ 1
    → update after.strs (i + 1) none (i + j) ≡ argument (w ∷ []) j
last-strings i w s after zero e l =
    update-ne after.strs (i + 1) (i + 0) none (λ x. absurd (omega arith))
    ∙ (let none_added : i + 0 ≡ i = omega arith in ap after.strs none_added)
    ∙ e.here
last-strings i w s after (suc zero) e l = update_self after.strs (i + 1) none
last-strings i w s after (suc (suc j)) e l = absurd (omega arith)

Filled-last :
    (i : ℕ) (w : List ℕ) (s : Split)
    → IsWord w
    → Filled i (w ∷ []) s.strs (strtok_loop b' ' false [] i w s)
unfolding strtok_loop make_null_execvp
Filled-last i [] s h = absurd h
Filled-last i (c ∷ cs) s h =
    let after = end_string i (c ∷ cs) s.strs in
    let e = end_string-Ended i (c ∷ cs) s.strs in
    record {
      strings = λ j l. last-strings i (c ∷ cs) s after j e l;
      below = λ p l.
          update-ne after.strs (i + 1) p none (λ x. absurd (omega arith))
          ∙ e.others p (λ x. absurd (omega arith));
      background = e.tests;
    }

more-strings :
    (i : ℕ) (w : List ℕ) (ws : List (List ℕ)) (before : Strings) (ended after : Split)
    → Ended i w before ended
    → Filled (i + 1) ws ended.strs after
    → (j : ℕ) → j ≤ length (w ∷ ws)
    → after.strs (i + j) ≡ argument (w ∷ ws) j
more-strings i w ws before ended after e f zero l =
    let none_added : i + 0 ≡ i = omega arith in
    ap after.strs none_added ∙ f.below i (omega arith) ∙ e.here
more-strings i w ws before ended after e f (suc j) l =
    let moved : i + suc j ≡ i + 1 + j = omega arith in
    ap after.strs moved ∙ f.strings j (omega arith)

strtok_loop-Filled :
    (w : List ℕ) (ws : List (List ℕ)) (i : ℕ) (checked : Bool) (s : Split)
    → All IsWord (w ∷ ws)
    → Filled i (w ∷ ws) s.strs (strtok_loop b' ' checked (line (w ∷ ws)) i [] s)
unfolding strtok_loop
strtok_loop-Filled w [] i checked s (h, hs) =
    let e =
      ap (λ l. strtok_loop b' ' checked l i [] s) (sym (append-nil w))
      ∙ strtok_loop-IsWord w [] i checked s h in
    subst (Filled i (w ∷ []) s.strs) (sym e) (Filled-last i w s h)
strtok_loop-Filled w (w' ∷ ws) i checked s (h, hs) =
    let ended = end_string i w s.strs in
    let e = end_string-Ended i w s.strs in
    let f = strtok_loop-Filled w' ws (i + 1) false ended hs in
    subst (Filled i (w ∷ w' ∷ ws) s.strs)
      (sym (strtok_loop-IsWord w (b' ' ∷ line (w' ∷ ws)) i checked s h))
      (record {
        strings = more-strings i w (w' ∷ ws) s.strs ended _ e f;
        below = λ p l. f.below p (omega arith) ∙ e.others p (λ x. absurd (omega arith));
        background = f.background;
      })

strtok-plain :
    (c : ℕ) (cs : List ℕ) (s : Split)
    → c ≢ b' '
    → strtok b' ' (c ∷ cs) s ≡ strtok_loop b' ' false (c ∷ cs) 0 [] s
unfolding strtok
strtok-plain c cs s n = let e : c == b' ' ≡ false = ground arith in rw (strtok, e) refl

strtok-line :
    (w : List ℕ) (ws : List (List ℕ)) (s : Split)
    → IsWord w
    → strtok b' ' (line (w ∷ ws)) s ≡ strtok_loop b' ' false (line (w ∷ ws)) 0 [] s
strtok-line [] ws s h = absurd h
strtok-line (c ∷ cs) [] s ((n, e), h) = strtok-plain c cs s n
strtok-line (c ∷ cs) (w ∷ ws) s ((n, e), h) = strtok-plain c (cs ++ b' ' ∷ line (w ∷ ws)) s n

-- A line of words with one space between each two, and perhaps one in front, is split into these words:
-- each is an argument at its own number, but a word "&" is NULL, a NULL stands behind the last one, and
-- the command is a background task when the last word is "&". No word has a space or an end of line.
pub strtok-Filled :
    (w : List ℕ) (ws : List (List ℕ)) (s : Split)
    → All IsWord (w ∷ ws)
    → Filled 0 (w ∷ ws) s.strs (strtok b' ' (line (w ∷ ws)) s)
      × Filled 0 (w ∷ ws) s.strs (strtok b' ' (b' ' ∷ line (w ∷ ws)) s)
unfolding strtok
strtok-Filled w ws s h = (
  subst (Filled 0 (w ∷ ws) s.strs) (sym (strtok-line w ws s h.0))
      (strtok_loop-Filled w ws 0 false s h),
  strtok_loop-Filled w ws 0 true s h,
)
