-- ===== src/Programs.antt =====
-- The small programs (bin/echo, bin/cat, bin/kill, bin/ls, bin/sleep). A program's memory is an array of
-- bytes, `argv` a function from the index to the address of an argument, or 0, and what a program
-- prints is the list of its characters. `ps` is one call.
pub mod Echo
pub mod Buffer
pub mod Contents
pub mod Listing
pub mod Tests
use late_os.Common.{
  ℕ, zero, suc, ◌+◌, ◌-◌, ◌^◌, Bool, ◌==◌, ◌&&◌, ◌||◌, Option, none, some, List, [], ◌∷◌, ◌++◌, ltb,
  not, if◌then◌else◌, codes,
}
use late_os.Text.{strcat, str_to_int}
use late_os.Files.{chars}
use late_os.Calls.{Registers, int, decode}
use late_os.Calls.Library.{open_call, close, read_str_sys, registers}
use late_os.Calls.Serve.{Machine, serve, put_string}
use late_os.Calls.Directories.{Directories, opendir, readdir}

-- `n < 2` and the like for a count, an `int` by its 32 bits.
abbrev pub below : (bound n : ℕ) → Bool
below bound n = ltb n bound || not (ltb n (2 ^ 31))

-- The loop of `printEmAll` in echo, over the addresses of the arguments; `space` is where " " stands.
unfoldable pub print_words : (fuel space : ℕ) → (ℕ → ℕ) → List ℕ → Option (List ℕ × (ℕ → ℕ))
unfolding strcat chars
print_words fuel space memory [] = some ([], memory)
print_words fuel space memory (p ∷ ps) = elim (strcat fuel memory p space) [
  | none ↦ none
  | some (end, memory') ↦ elim (print_words fuel space memory' ps) [
    | none ↦ none
    | some (out, memory'') ↦ some (chars fuel memory' p ++ out, memory'')
  ]
]

-- argv[from], …, of `n` of them.
abbrev pub arguments : (n from : ℕ) → (ℕ → ℕ) → List ℕ
arguments zero from argv = []
arguments (suc n) from argv = argv from ∷ arguments n (from + 1) argv

-- `main` of echo: what it returns and prints, and its memory.
unfoldable pub echo :
    (fuel space : ℕ) → (ℕ → ℕ) → (argc : ℕ) → (argv : ℕ → ℕ) → Option (ℕ × List ℕ × (ℕ → ℕ))
unfolding print_words
echo fuel space memory argc argv =
    if argv 1 == 0
    then some (2 ^ 32 - 1, codes "Usage : echo <type-something>\n", memory)
    else elim (print_words fuel space memory (arguments (argc - 1) 1 argv)) [
      | none ↦ none
      | some (out, memory') ↦ some (0, out ++ codes "\n", memory')
    ]

-- What kill and sleep do: print a line, or ask the kernel.
pub data Action : Type 0 where
  prints : List ℕ → Action
  kills : (pid : ℕ) → Action
  sleeps : (seconds : ℕ) → Action

-- `main` of kill.
unfoldable pub kill_main : (fuel : ℕ) → (ℕ → ℕ) → (argc : ℕ) → (argv : ℕ → ℕ) → Option Action
unfolding str_to_int
kill_main fuel memory argc argv =
    if below 3 argc
    then some (prints (codes "Must use : kill -9 PID\n"))
    else elim (str_to_int fuel memory (argv 2)) [
      | none ↦ none
      | some pid ↦ some (if ltb pid (2 ^ 31) then kills pid else prints (codes "Incorrect PID\n"))
    ]

-- `main` of sleep.
unfoldable pub sleep_main : (fuel : ℕ) → (ℕ → ℕ) → (argv : ℕ → ℕ) → Option Action
unfolding str_to_int
sleep_main fuel memory argv = elim (str_to_int fuel memory (argv 1)) [
  | none ↦ none
  | some seconds ↦ some (sleeps seconds)
]

-- The directory that `openDirectory` of ls opens. Behind an argument a '/' is always put: the
-- character that is tested is the NUL.
unfoldable pub directory_name : (argc : ℕ) → (cwd argument : List ℕ) → List ℕ
directory_name argc cwd argument =
    if below 2 argc
    then elim cwd [ [] ↦ [] | (c ∷ []) ↦ c ∷ [] | (c ∷ d ∷ cs) ↦ (c ∷ d ∷ cs) ++ codes "/" ]
    else argument ++ codes "/"

-- The library's calls; `r` are the registers in front of each, `d_name` and `dir` the places of the name
-- of an entry and of the array `dir`.
module _ (fuel : ℕ) (r : Registers) (d_name : ℕ → ℕ) (dir : ℕ) where
  -- `printList`; the rounds count entries.
  unfoldable pub print_list :
      (rounds : ℕ) → (pointer : ℕ) → Directories → Machine → Option (List ℕ × Machine)
  unfolding readdir
  print_list zero pointer dirs m = none
  print_list (suc rounds) pointer dirs m = elim (readdir fuel r d_name pointer dirs m) [
    | none ↦ none
    | some (none, m') ↦ some (codes "\n", m')
    | some (some file, m') ↦ elim (print_list rounds pointer dirs m') [
      | none ↦ none
      | some (out, m'') ↦ some (chars 512 m'.bytes file ++ codes " " ++ out, m'')
    ]
  ]

  -- `main` of ls, with the current directory and its first argument.
  unfoldable pub ls_main :
      (rounds argc : ℕ)
      → (cwd argument : List ℕ) → Directories
      → Machine
      → Option (List ℕ × Machine)
  unfolding directory_name opendir print_list
  ls_main rounds argc cwd argument dirs m =
      let m₁ = record m { bytes = put_string (directory_name argc cwd argument) m.bytes dir } in
      elim (opendir fuel r d_name dir dirs m₁) [
        | none ↦ none
        | some (pointer, dirs', m₂) ↦
            if dirs'.fd pointer == 2 ^ 32 - 1
            then some (codes "Incorrect parameter\n", m₂)
            else elim (print_list rounds pointer dirs' m₂) [
              | none ↦ none
              | some (out, m₃) ↦
                  elim (serve fuel (decode (registers (close (dirs'.fd pointer)) r)) m₃) [
                    | none ↦ none
                    | some (ret_val, m₄) ↦ some (out, m₄)
                  ]
            ]
      ]

  -- `main` of cat: the file is opened, closed, opened again and read; `inp_string` is the place of
  -- the array.
  unfoldable pub cat_main : (argc argv1 inp_string : ℕ) → Machine → Option (List ℕ × Machine)
  cat_main argc argv1 inp_string m =
      if below 2 argc
      then some (codes "Usage : cat <file nama>\n", m)
      else elim (serve fuel (decode (registers (open_call argv1 0) r)) m) [
        | none ↦ none
        | some (file, m₁) ↦
            if ltb (int file) (2 ^ 31)
            then elim (serve fuel (decode (registers (close (int file)) r)) m₁) [
              | none ↦ none
              | some (closed, m₂) ↦
                  elim (serve fuel (decode (registers (open_call argv1 0) r)) m₂) [
                    | none ↦ none
                    | some (file', m₃) ↦
                        elim (serve fuel
                          (decode (registers (read_str_sys (int file') inp_string 4096) r)) m₃) [
                            | none ↦ none
                            | some (count, m₄) ↦
                                elim (serve fuel (decode (registers (close (int file')) r)) m₄) [
                                  | none ↦ none
                                  | some (closed', m₅) ↦ some (chars 4097 m₄.bytes inp_string, m₅)
                                ]
                          ]
                  ]
            ]
            else some (codes "File not found\n", m₁)
      ]
