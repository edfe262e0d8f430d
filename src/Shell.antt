-- ===== src/Shell.antt =====
-- The shell (bin/sbush/sbush.c).
--
-- A string is the list of the characters before its NUL, and `none` a NULL pointer. `args`, an array of
-- 1000 strings of 1000 characters, is a function from the index. Where the code would read at NULL, the
-- result is `none`.
pub mod Commands
pub mod Tokens
pub mod Script
pub mod Prompt
pub mod Tests
use late_os.Common.{
  ℕ, zero, suc, ◌+◌, ◌==◌, ◌&&◌, not, Bool, true, false, Option, none, some, List, [], ◌∷◌, ◌++◌,
  if◌then◌else◌, update,
}
use late_os.Files.{same}

abbrev pub Strings : Type 0
Strings = ℕ → Option (List ℕ)

-- `&`
abbrev pub ampersand : List ℕ
ampersand = b'&' ∷ []

-- What `strtokBeta` has written, and `isBackground`.
pub record Split : Type 0 where
  pub strs : Strings
  pub is_background : Bool

-- The end of the string number `i`: a single '&' becomes NULL.
unfoldable pub end_string : (i : ℕ) → (word : List ℕ) → Strings → Split
end_string i word strs =
    if same word ampersand
    then (record { strs = update strs i none; is_background = true })
    else (record { strs = update strs i (some word); is_background = false })

abbrev pub is_empty : List ℕ → Bool
is_empty [] = true
is_empty (c ∷ cs) = false

unfoldable pub make_null_execvp : (i : ℕ) → (word : List ℕ) → Strings → Strings
make_null_execvp i word strs =
    let first = if is_empty word then update strs i none else strs in update first (i + 1) none

-- The loop of `strtokBeta`: `word` stands in string number `i`. Where `checked` holds, the loop's test
-- of the first character has passed, for the space in front of it.
unfoldable pub strtok_loop :
    (delimiter : ℕ) → (checked : Bool) → (str : List ℕ) → (i : ℕ) → (word : List ℕ) → Split → Split
unfolding end_string make_null_execvp
strtok_loop delimiter checked [] i word s =
    let ended = end_string i word s.strs in
    record ended { strs = make_null_execvp i word ended.strs }
strtok_loop delimiter checked (c ∷ cs) i word s =
    let next = strtok_loop delimiter false cs (i + 1) [] (end_string i word s.strs) in
    let quote = strtok_loop delimiter false cs i word s in
    let longer = strtok_loop delimiter false cs i (word ++ c ∷ []) s in
    if (c == 10) && not checked
    then record s { strs = update s.strs i (some word) }
    else if c == delimiter
    then next
    else if (c == b'"') && (delimiter == b'=')
    then quote
    else longer

-- `strtokBeta`; `skipspaces` passes over one space at the start.
unfoldable pub strtok : (delimiter : ℕ) → (str : List ℕ) → Split → Split
unfolding strtok_loop
strtok delimiter [] s = strtok_loop delimiter false [] 0 [] s
strtok delimiter (c ∷ cs) s =
    let behind = strtok_loop delimiter true cs 0 [] s in
    let whole = strtok_loop delimiter false (c ∷ cs) 0 [] s in if c == b' ' then behind else whole

-- The arguments after `clearArguments`: 1000 pointers to empty strings.
abbrev pub cleared : Strings
cleared i = some []

-- `getInputArgCounts`, with the number of places as fuel.
unfoldable pub get_input_arg_counts : (fuel : ℕ) → (i : ℕ) → Strings → Option ℕ
get_input_arg_counts zero i args = none
get_input_arg_counts (suc fuel) i args =
    let rest = get_input_arg_counts fuel (i + 1) args in
    elim (args i) [ none ↦ some i | some _ ↦ rest ]

-- `makeCommandList`: the lines that end, and the one that does not, which `cmdNum` does not count.
unfoldable pub make_command_list :
    (inp_string line : List ℕ) → (lines : List (List ℕ)) → List (List ℕ) × List ℕ
make_command_list [] line lines = (lines, line)
make_command_list (c ∷ cs) line lines =
    let ended = make_command_list cs [] (lines ++ line ∷ []) in
    let longer = make_command_list cs (line ++ c ∷ []) lines in if c == 10 then ended else longer
