-- ===== src/Calls/Environment.antt =====
-- The environment of a program (libc/util_sys.c). `env_var` has room for 1000 variables of 1000
-- characters; it is the list of the first `env_length` of them, each the characters before its NUL.
use late_os.Common.{
  ℕ, ◌==◌, ◌≡◌, refl, ap, Bool, true, false, Option, none, some, List, [], ◌∷◌, ◌++◌, codes, length,
  All, arith, if◌then◌else◌,
}
use late_os.Files.{same}
use late_os.Files.Directory.{drop}

-- What `getvar` puts into `envBuffer`: the name in front of the '='. Without one it reads on behind the
-- variable, which is `none` here.
unfoldable pub getvar : List ℕ → Option (List ℕ)
getvar [] = none
getvar (c ∷ cs) =
    if c == b'=' then some [] else (elim (getvar cs) [ none ↦ none | some name ↦ some (c ∷ name) ])

-- The outer `none` is a variable without a '=', the inner one the code's NULL.
unfoldable pub getenv : (name : List ℕ) → List (List ℕ) → Option (Option (List ℕ))
unfolding getvar
getenv name [] = some none
getenv name (variable ∷ variables) = elim (getvar variable) [
  | none ↦ none
  | some buffer ↦ some (some (drop (length buffer) variable))
]

-- `strcpy(&env_var[i][strlen(&envBuffer[0]) + 1], value)`
abbrev assign : (buffer value : List ℕ) → List ℕ
assign buffer value = buffer ++ b'=' ∷ value

-- The result tells whether there is a variable with that name.
unfoldable pub setenv : (name value : List ℕ) → List (List ℕ) → Option (Bool × List (List ℕ))
unfolding getvar
setenv name value [] = some (false, [])
setenv name value (variable ∷ variables) = elim (getvar variable) [
  | none ↦ none
  | some buffer ↦
      let rest : Option (Bool × List (List ℕ)) = elim (setenv name value variables) [
        | none ↦ none
        | some (found, variables') ↦ some (found, variable ∷ variables')
      ] in
      if same name buffer then some (true, assign buffer value ∷ variables) else rest
]

-- The name of a variable has no '='.
abbrev IsName : List ℕ → Type 0
IsName cs = All (λ c. (c == b'=') ≡ false) cs

getvar-assign : (name value : List ℕ) → IsName name → getvar (assign name value) ≡ some name
unfolding getvar
getvar-assign [] value h = refl
getvar-assign (c ∷ cs) value (h, hs) = rw (h, getvar-assign cs value hs) refl

drop-append : (xs ys : List ℕ) → drop (length xs) (xs ++ ys) ≡ ys
drop-append [] ys = refl
drop-append (x ∷ xs) ys = drop-append xs ys

-- `getenv` returns what stands behind the name of the first variable, from its '=' on, whatever the
-- name that it is asked for.
getenv-first :
    (name key value : List ℕ) (variables : List (List ℕ))
    → IsName key
    → getenv name (assign key value ∷ variables) ≡ some (some (b'=' ∷ value))
unfolding getenv
getenv-first name key value variables h =
    rw (getenv, getvar-assign key value h)
      (ap (λ v. some (some v)) (drop-append key (b'=' ∷ value)))

path_is_home :
    getenv (codes "HOME") (codes "PATH=/bin" ∷ codes "HOME=/" ∷ []) ≡ some (some (codes "=/bin"))
path_is_home =
    getenv-first (codes "HOME") (codes "PATH") (codes "/bin") (codes "HOME=/" ∷ []) (ground arith)
