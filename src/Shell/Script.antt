-- ===== src/Shell/Script.antt =====
-- The lines of a script (makeCommandList and main in bin/sbush/sbush.c).
use late_os.Common.{
  ℕ, ◌≡◌, ◌≢◌, refl, sym, ap, ◌∙◌, some, List, [], ◌∷◌, ◌++◌, All, arith, ◌==◌, codes, false,
  append_assoc, append-nil,
}
use late_os.Shell.{make_command_list}
use late_os.Shell.Commands.{System, Shell, set_prompt, run_lines, sbush_main}

-- No character is a line end.
abbrev pub OneLine : List ℕ → Type 0
OneLine cs = All (λ c. (c == 10) ≡ false) cs

-- The lines, each with its end, and the rest of the text.
pub script : List (List ℕ) → (rest : List ℕ) → List ℕ
script [] rest = rest
script (line ∷ lines) rest = line ++ 10 ∷ script lines rest

ended-line :
    (cs more line : List ℕ) (lines : List (List ℕ))
    → OneLine cs
    → make_command_list (cs ++ 10 ∷ more) line lines
      ≡ make_command_list more [] (lines ++ (line ++ cs) ∷ [])
unfolding make_command_list
ended-line [] more line lines h =
    ap (λ l. make_command_list more [] (lines ++ l ∷ [])) (sym (append-nil line))
ended-line (c ∷ cs) more line lines (hc, hs) = rw (hc) (
    ended-line cs more (line ++ c ∷ []) lines hs
    ∙ ap (λ l. make_command_list more [] (lines ++ l ∷ [])) (append_assoc line (c ∷ []) cs))

last-line :
    (cs line : List ℕ) (lines : List (List ℕ))
    → OneLine cs
    → (make_command_list cs line lines).0 ≡ lines
unfolding make_command_list
last-line [] line lines h = refl
last-line (c ∷ cs) line lines (hc, hs) = rw (hc) (last-line cs (line ++ c ∷ []) lines hs)

commands :
    (lines : List (List ℕ)) (rest : List ℕ) (done : List (List ℕ))
    → All OneLine lines
    → OneLine rest
    → (make_command_list (script lines rest) [] done).0 ≡ done ++ lines
unfolding script
commands [] rest done h hr = last-line rest [] done hr ∙ sym (append-nil done)
commands (line ∷ lines) rest done (h, hs) hr =
    ap (λ p. p.0) (ended-line line (script lines rest) [] done h)
    ∙ commands lines rest (done ++ line ∷ []) hs hr
    ∙ append_assoc done (line ∷ []) lines

-- The shell with a script runs the lines of the script in their order, after the prompt is set, and then
-- ends; what stands behind the last line end is not run.
pub sbush_main-script :
    {W : Type 0} (system : System W) (argc : ℕ) (lines : List (List ℕ)) (rest : List ℕ)
    (typed : List (List ℕ)) (shell : Shell W)
    → argc ≢ 1
    → All OneLine lines
    → OneLine rest
    → sbush_main system argc (some (script lines rest)) typed shell
      ≡ run_lines system lines (set_prompt system (codes "sbush") shell)
unfolding sbush_main
sbush_main-script system argc lines rest typed shell given hs hr =
    let other : (argc == 1) ≡ false = ground arith in
    rw (other) (
      ap (λ l. run_lines system l (set_prompt system (codes "sbush") shell))
        (commands lines rest [] hs hr))
