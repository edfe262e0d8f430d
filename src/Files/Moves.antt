-- ===== src/Files/Moves.antt =====
-- A path as moves between directories, and what `deriveRelative` and `chdir` make of it.
use late_os.Common.{
  ℕ, ◌≡◌, refl, sym, ap, ◌∙◌, false, Option, none, some, List, [], ◌∷◌, ◌++◌, All, arith,
  append_assoc, append-nil, ◌==◌, ◌&&◌,
}
use late_os.Files.Paths.{
  Written, nothing, write, clear_back, previous, derive, reverse_onto, finish, file_path,
  derive_relative,
}

-- The path of the directories `dirs`, the outermost last: each with a '/' behind it.
abbrev pub flat : List (List ℕ) → List ℕ
flat [] = []
flat (dir ∷ dirs) = flat dirs ++ (dir ++ b'/' ∷ [])

-- A path: `none` is "../", and a directory goes with its '/'.
abbrev pub path_of : List (Option (List ℕ)) → List ℕ
path_of [] = []
path_of (none ∷ moves) = b'.' ∷ b'.' ∷ b'/' ∷ path_of moves
path_of (some dir ∷ moves) = dir ++ b'/' ∷ path_of moves

abbrev up : List (List ℕ) → List (List ℕ)
up [] = []
up (dir ∷ dirs) = dirs

-- Where the moves lead from the directory of the path `dirs`. The root is its own parent.
unfoldable pub go : List (List ℕ) → List (Option (List ℕ)) → List (List ℕ)
go dirs [] = dirs
go dirs (none ∷ moves) = go (up dirs) moves
go dirs (some dir ∷ moves) = go (dir ∷ dirs) moves

-- No two dots stand side by side.
abbrev pub NoDots : List ℕ → Type 0
NoDots [] = Unit
NoDots (c ∷ []) = Unit
NoDots (c ∷ d ∷ cs) = ((c == b'.') && (d == b'.') ≡ false) × NoDots (d ∷ cs)

-- The name of a directory: no '/', and no two dots side by side.
abbrev pub IsName : List ℕ → Type 0
IsName cs = All (λ c. (c == b'/') ≡ false) cs × NoDots cs

abbrev pub AreMoves : List (Option (List ℕ)) → Type 0
AreMoves [] = Unit
AreMoves (none ∷ moves) = AreMoves moves
AreMoves (some dir ∷ moves) = IsName dir × AreMoves moves

-- What is written of directories, the last character first.
abbrev backwards : List (List ℕ) → List ℕ
backwards [] = []
backwards (dir ∷ dirs) = b'/' ∷ reverse_onto dir (backwards dirs)

abbrev clean : List ℕ → Written
clean text = record { text = text; in_front = 0; kept = false }

abbrev Apart : ℕ → List ℕ → Type 0
Apart c [] = Unit
Apart c (d ∷ cs) = (c == b'.') && (d == b'.') ≡ false

derive-step :
    (c : ℕ) (cs : List ℕ) (w : Written) → Apart c cs → derive (c ∷ cs) w ≡ derive cs (write c w)
unfolding derive
derive-step c [] w h = refl
derive-step c (d ∷ cs) w h = rw h refl

slash-Apart : (cs : List ℕ) → Apart b'/' cs
slash-Apart [] = tt
slash-Apart (c ∷ cs) = refl

derive-name :
    (dir rest text : List ℕ)
    → NoDots dir
    → derive (dir ++ b'/' ∷ rest) (clean text) ≡ derive rest (clean (b'/' ∷ reverse_onto dir text))
unfolding write
derive-name [] rest text h = derive-step b'/' rest (clean text) (slash-Apart rest)
derive-name (c ∷ []) rest text h =
    derive-step c (b'/' ∷ rest) (clean text) (ground arith) ∙ derive-name [] rest (c ∷ text) tt
derive-name (c ∷ d ∷ cs) rest text (h, hs) =
    derive-step c (d ∷ cs ++ b'/' ∷ rest) (clean text) h ∙ derive-name (d ∷ cs) rest (c ∷ text) hs

derive-file :
    (file text : List ℕ) → NoDots file → derive file (clean text) ≡ clean (reverse_onto file text)
unfolding derive write
derive-file [] text h = refl
derive-file (c ∷ []) text h = derive-step c [] (clean text) tt
derive-file (c ∷ d ∷ cs) text (h, hs) =
    derive-step c (d ∷ cs) (clean text) h ∙ derive-file (d ∷ cs) (c ∷ text) hs

clear_back-name :
    (dir text : List ℕ)
    → All (λ c. (c == b'/') ≡ false) dir
    → clear_back (reverse_onto dir text) ≡ clear_back text
unfolding clear_back
clear_back-name [] text h = refl
clear_back-name (c ∷ cs) text (h, hs) = clear_back-name cs (c ∷ text) hs ∙ rw h refl

previous-backwards :
    (dirs : List (List ℕ))
    → All IsName dirs
    → write b'/' (previous (clean (backwards dirs))) ≡ clean (backwards (up dirs))
unfolding previous write clear_back
previous-backwards [] h = refl
previous-backwards (dir ∷ []) ((h, n), hs) = rw (clear_back-name dir [] h) refl
previous-backwards (dir ∷ dir' ∷ dirs) ((h, n), hs) =
    rw (clear_back-name dir (backwards (dir' ∷ dirs)) h) refl

up-IsName : (dirs : List (List ℕ)) → All IsName dirs → All IsName (up dirs)
up-IsName [] h = tt
up-IsName (dir ∷ dirs) (h, hs) = hs

derive-up :
    (rest : List ℕ) (dirs : List (List ℕ))
    → All IsName dirs
    → derive (b'.' ∷ b'.' ∷ b'/' ∷ rest) (clean (backwards dirs))
      ≡ derive rest (clean (backwards (up dirs)))
unfolding derive
derive-up rest dirs d =
    derive-step b'/' rest (previous (clean (backwards dirs))) (slash-Apart rest)
    ∙ ap (derive rest) (previous-backwards dirs d)

derive-path_of :
    (moves : List (Option (List ℕ))) (file : List ℕ) (dirs : List (List ℕ))
    → AreMoves moves
    → NoDots file
    → All IsName dirs
    → derive (path_of moves ++ file) (clean (backwards dirs))
      ≡ clean (reverse_onto file (backwards (go dirs moves)))
unfolding go
derive-path_of [] file dirs h n d = derive-file file (backwards dirs) n
derive-path_of (none ∷ moves) file dirs h n d =
    derive-up (path_of moves ++ file) dirs d
    ∙ derive-path_of moves file (up dirs) h n (up-IsName dirs d)
derive-path_of (some dir ∷ moves) file dirs (h, hs) n d =
    ap (λ p. derive p (clean (backwards dirs))) (append_assoc dir (b'/' ∷ path_of moves) file)
    ∙ derive-name dir (path_of moves ++ file) (backwards dirs) h.1
    ∙ derive-path_of moves file (dir ∷ dirs) hs n (h, d)

reverse_onto-twice :
    (xs ys zs : List ℕ) → reverse_onto (reverse_onto xs ys) zs ≡ reverse_onto ys (xs ++ zs)
reverse_onto-twice [] ys zs = refl
reverse_onto-twice (x ∷ xs) ys zs = reverse_onto-twice xs (x ∷ ys) zs

reverse_onto-backwards :
    (dirs : List (List ℕ)) (rest : List ℕ) → reverse_onto (backwards dirs) rest ≡ flat dirs ++ rest
reverse_onto-backwards [] rest = refl
reverse_onto-backwards (dir ∷ dirs) rest =
    reverse_onto-twice dir (backwards dirs) (b'/' ∷ rest)
    ∙ reverse_onto-backwards dirs (dir ++ b'/' ∷ rest)
    ∙ sym (
        append_assoc (flat dirs) (dir ++ b'/' ∷ []) rest
        ∙ ap (λ l. flat dirs ++ l) (append_assoc dir (b'/' ∷ []) rest))

finish-clean :
    (dirs : List (List ℕ)) (file : List ℕ)
    → finish (clean (reverse_onto file (backwards dirs))) ≡ flat dirs ++ file
unfolding finish
finish-clean dirs file =
    reverse_onto-twice file (backwards dirs) []
    ∙ ap (reverse_onto (backwards dirs)) (append-nil file)
    ∙ reverse_onto-backwards dirs file

derive-flat :
    (dirs : List (List ℕ)) (rest : List ℕ)
    → All IsName dirs
    → derive (flat dirs ++ rest) nothing ≡ derive rest (clean (backwards dirs))
derive-flat [] rest h = refl
derive-flat (dir ∷ dirs) rest ((h, n), hs) =
    ap (λ l. derive l nothing)
      (append_assoc (flat dirs) (dir ++ b'/' ∷ []) rest
        ∙ ap (λ l. flat dirs ++ l) (append_assoc dir (b'/' ∷ []) rest))
    ∙ derive-flat dirs (dir ++ b'/' ∷ rest) hs
    ∙ derive-name dir rest (backwards dirs) n

abbrev pub IsRelative : List ℕ → Type 0
IsRelative [] = Unit
IsRelative (c ∷ cs) = (c == b'/') ≡ false

file_path-IsRelative :
    (dir path : List ℕ) → IsRelative path → file_path (b'/' ∷ dir) path ≡ dir ++ path
unfolding file_path
file_path-IsRelative dir [] h = sym (append-nil dir)
file_path-IsRelative dir (c ∷ cs) h = rw h refl

-- From the current directory with the path `dirs`, `deriveRelative` follows a path of names and "../",
-- which has no '/' in front, to the directory where they lead, and keeps the file name behind them; with
-- a '/' put in front it starts at the root. A "../" at the root stays there. This holds when no name has
-- a '/' or two dots side by side.
pub derive_relative-path_of :
    (dirs : List (List ℕ)) (moves : List (Option (List ℕ))) (file : List ℕ)
    → All IsName dirs
    → AreMoves moves
    → NoDots file
    → IsRelative (path_of moves ++ file)
    → (derive_relative (b'/' ∷ flat dirs) (path_of moves ++ file) ≡ flat (go dirs moves) ++ file)
      × (derive_relative (b'/' ∷ flat dirs) (b'/' ∷ path_of moves ++ file)
          ≡ flat (go [] moves) ++ file)
unfolding derive_relative file_path
derive_relative-path_of dirs moves file d m n r =
    let path = path_of moves ++ file in
    (
      ap (λ p. finish (derive p nothing)) (file_path-IsRelative (flat dirs) path r)
          ∙ ap finish (derive-flat dirs path d ∙ derive-path_of moves file dirs m n d)
          ∙ finish-clean (go dirs moves) file,
      ap finish (derive-path_of moves file [] m n tt) ∙ finish-clean (go [] moves) file,
    )
