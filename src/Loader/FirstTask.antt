-- ===== src/Loader/FirstTask.antt =====
-- The name that createNewTask leaves to the first program (setTaskRSP in sys/process.c).
use late_os.Common.{
  ℕ, ◌+◌, ◌-◌, ◌*◌, ◌/◌, ◌^◌, ◌≤◌, ◌<◌, ◌≡◌, ◌≢◌, ◌∙◌, some, List, [], ◌∷◌, arith, length,
}
use late_os.Memory.{Memory, page_size, index4, ◌>>=◌}
use late_os.Memory.Walk.{translate, Roles}
use late_os.Loader.{digit}
use late_os.Loader.Bytes.{Mapping}
use late_os.Loader.Stack.{char_at, string_at, start, set_task_rsp, push_word, push_string}
use late_os.Loader.Found.{
  start-parts, start_env-Words, number_at-int, string_at-HasString, start_argv-Words,
}
use late_os.Loader.Pushes.{
  Same-then, HasString, HasWord, HasWord-Same, Pushed, push_word-Pushed, push_string-Pushed,
}

-- A program that finds one argument, which is empty.
pub record Nameless (role : Roles) (free : List ℕ) (top first count : ℕ) (page : ℕ → ℕ) (m : Memory)
    (rsp : ℕ) (name : List ℕ) : Type 0 where
  pub word' : ℕ → ℕ
  pub entry : ℕ
  pub at : ℕ
  pub runs : set_task_rsp (top * page_size) rsp name m ≡ some (entry, record m { word = word' })
  pub found : start 1 word' top (entry - 8) ≡ some (1, at ∷ [], [])
  pub region : Mapping role free top first count page (record m { word = word' })
  pub words :
      (w : ℕ) → ((j : ℕ) → first ≤ j → j < first + count → w / 512 ≢ page j) → word' w ≡ m.word w
  pub translates : (u : ℕ) → index4 u < 511 → translate word' top u ≡ translate m.word top u
  pub argument : string_at 100 word' top at ≡ some []

HasWord-empty :
    {low high top : ℕ} {word : ℕ → ℕ} {p : ℕ}
    → HasWord low high top word p 0
    → HasString low high top word p []
unfolding digit char_at
HasWord-empty {p = p} h =
    let a = h.above in
    let b = h.below in
    record {
      above = a;
      below = omega arith;
      bytes = λ i l. let e : i ≡ 0 = omega arith in rw e (h.bytes 0 (omega arith));
    }

module _ {role : Roles} {free : List ℕ} {top first count : ℕ} {page : ℕ → ℕ} {m : Memory} (rsp : ℕ)
    (name : List ℕ) (a : ℕ) (low : 40 ≤ a) (top_end : a ≤ rsp) (user : rsp < 2 ^ 63)
    (w₁ w₂ w₃ w₄ w₅ : ℕ → ℕ)
    (p₁ : Pushed role free top first count page m rsp rsp
      (push_string (top * page_size) rsp name)
      a
      w₁)
    (p₂ : Pushed role free top first count page
      (record m { word = w₁ })
      a
      rsp
      (push_word (top * page_size) a 0)
      (a - 8)
      w₂)
    (p₃ : Pushed role free top first count page
      (record m { word = w₂ })
      (a - 8)
      rsp
      (push_word (top * page_size) (a - 8) 0)
      (a - 8 - 8)
      w₃)
    (p₄ : Pushed role free top first count page
      (record m { word = w₃ })
      (a - 8 - 8)
      rsp
      (push_word (top * page_size) (a - 8 - 8) (a - 8 - 8))
      (a - 8 - 8 - 8)
      w₄)
    (p₅ : Pushed role free top first count page
      (record m { word = w₄ })
      (a - 8 - 8 - 8)
      rsp
      (push_word (top * page_size) (a - 8 - 8 - 8) 1)
      (a - 8 - 8 - 8 - 8)
      w₅) where
  abbrev at : ℕ
  at = a - 8 - 8

  abbrev entry : ℕ
  entry = at - 8 - 8

  name_runs : set_task_rsp (top * page_size) rsp name m ≡ some (entry, record m { word = w₅ })
  unfolding set_task_rsp
  name_runs = rw (set_task_rsp, ◌>>=◌, p₁.runs, p₂.runs, p₃.runs, p₄.runs, p₅.runs)

  module _ (h₂ : HasWord (a - 8) rsp top w₂ (a - 8) 0) (h₃ : HasWord at rsp top w₃ at 0)
      (h₄ : HasWord (at - 8) rsp top w₄ (at - 8) at) (h₅ : HasWord entry rsp top w₅ entry 1) where
    z₃ : HasWord entry rsp top w₅ at 0
    z₃ = HasWord-Same h₃ (Same-then p₄.same p₅.same (omega arith)) (omega arith)

    z₂ : HasWord entry rsp top w₅ (at + 8) 0
    z₂ =
        let e : a - 8 ≡ at + 8 = omega arith in
        rw (← e) (
          HasWord-Same h₂
            (Same-then p₃.same (Same-then p₄.same p₅.same (omega arith)) (omega arith))
            (omega arith))

    z₄ : HasWord entry rsp top w₅ (at - 8) at
    z₄ = HasWord-Same h₄ p₅.same (omega arith)

    name_found : start 1 w₅ top (entry - 8) ≡ some (1, at ∷ [], [])
    name_found =
        let e : entry - 8 + 8 ≡ entry = omega arith in
        let e' : entry - 8 + 16 ≡ at - 8 = omega arith in
        let e'' : at - 8 + 8 * 1 + 8 ≡ at + 8 = omega arith in
        let at_end : at + 8 + 8 * 0 ≡ at + 8 = omega arith in
        start-parts 1 w₅ top (entry - 8) 1 (at ∷ []) []
          (rw e (number_at-int entry rsp top w₅ entry 1 h₅ (omega arith)))
          (rw e' (
            start_argv-Words entry rsp top w₅ (at - 8) (at ∷ []) (z₄, tt)
              ((omega arith, omega arith), tt)))
          (rw (e', e'')
            (start_env-Words 1 entry rsp top w₅ (at + 8) [] tt (rw at_end z₂) tt (omega arith)))

    nameless : Nameless role free top first count page m rsp name
    nameless = record {
      word' = w₅;
      entry = entry;
      at = at;
      runs = name_runs;
      found = name_found;
      region = p₅.region;
      words = λ w ne. p₅.words w ne ∙ p₄.words w ne ∙ p₃.words w ne ∙ p₂.words w ne ∙ p₁.words w ne;
      translates = λ u h.
          p₅.translates u h
          ∙ p₄.translates u h
          ∙ p₃.translates u h
          ∙ p₂.translates u h
          ∙ p₁.translates u h;
      argument = string_at-HasString 100 entry rsp top w₅ at [] (HasWord-empty z₃) (omega arith) tt;
    }

-- setTaskRSP with room for the name and five words more: whatever the name is, the program finds
-- one argument and no environment, and the argument is the empty string.
pub set_task_rsp-Nameless :
    {role : Roles} {free : List ℕ} {top first count : ℕ} {page : ℕ → ℕ} {m : Memory}
    → Mapping role free top first count page m
    → (rsp : ℕ) (name : List ℕ) → first * page_size + 8 * (length name + 6) ≤ rsp
    → rsp ≤ (first + count) * page_size
    → Nameless role free top first count page m rsp name
set_task_rsp-Nameless {top = top} {first} {count} {m = m} r rsp name low top_end =
    let user : rsp < 2 ^ 63 = (let b = r.below in omega arith) in
    let (w₁, p₁, s₁) = push_string-Pushed rsp top_end user r rsp name (omega arith) (omega arith) in
    let (w₂, p₂, h₂) =
      push_word-Pushed rsp top_end user p₁.region (rsp - 8 * (length name + 1)) 0 (omega arith)
        (omega arith) in
    let (w₃, p₃, h₃) =
      push_word-Pushed rsp top_end user p₂.region (rsp - 8 * (length name + 1) - 8) 0 (omega arith)
        (omega arith) in
    let (w₄, p₄, h₄) =
      push_word-Pushed rsp top_end user p₃.region (rsp - 8 * (length name + 1) - 8 - 8)
        (rsp - 8 * (length name + 1) - 8 - 8) (omega arith) (omega arith) in
    let (w₅, p₅, h₅) =
      push_word-Pushed rsp top_end user p₄.region (rsp - 8 * (length name + 1) - 8 - 8 - 8) 1
        (omega arith) (omega arith) in
    nameless rsp name (rsp - 8 * (length name + 1)) (omega arith) (omega arith) user w₁ w₂ w₃ w₄ w₅
      p₁ p₂ p₃ p₄ p₅ h₂ h₃ h₄ h₅
