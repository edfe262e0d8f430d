-- ===== src/Programs/Contents.antt =====
-- The entries of a directory, read off the names of the archive (readDirTarfsFile in sys/tarfs.c).
use late_os.Common.{
  ℕ, ◌≡◌, ◌≢◌, ◌≤◌, ◌<◌, ◌⊎◌, inl, inr, refl, List, [], ◌∷◌, ◌++◌, arith, length, ◌==◌, ==_refl,
  Bool-cases, ltb, true, false,
}
use late_os.Files.{Archive, name}
use late_os.Files.Directory.{shared, drop, is_listed, is_root_directory}
use late_os.Files.Listed.{entries}

-- The two strings do not begin with the same two characters.
abbrev pub Differ : List ℕ → List ℕ → Type 0
Differ (a ∷ b ∷ xs) (c ∷ d ∷ ys) = (a ≢ c) ⊎ (b ≢ d)
Differ _ _ = Unit {0}

-- The headers' names in order: what follows the directory's name in those that begin with it; the others do
-- not begin with the same two characters.
pub data Contents (archive : Archive) (file_name : List ℕ) : List ℕ → List (List ℕ) → Type 0 where
  nothing : Contents archive file_name [] []
  inside :
      {h : ℕ} {hs : List ℕ} {r : List ℕ} {es : List (List ℕ)}
      → name archive h ≡ file_name ++ r
      → Contents archive file_name hs es
      → Contents archive file_name (h ∷ hs) (r ∷ es)
  outside :
      {h : ℕ} {hs : List ℕ} {es : List (List ℕ)}
      → Differ file_name (name archive h)
      → Contents archive file_name hs es
      → Contents archive file_name (h ∷ hs) es

shared-append : (xs r : List ℕ) → shared (xs ++ r) xs ≡ length xs
shared-append [] [] = refl
shared-append [] (y ∷ r) = refl
shared-append (x ∷ xs) r = rw (==_refl x, shared-append xs r)

drop-append : (xs r : List ℕ) → drop (length xs) (xs ++ r) ≡ r
drop-append [] r = refl
drop-append (x ∷ xs) r = drop-append xs r

shared-Differ : (fs ns : List ℕ) → 2 ≤ length fs → Differ fs ns → shared ns fs < 2
shared-Differ fs [] l d = omega arith
shared-Differ [] (n ∷ ns) l d = omega arith
shared-Differ (a ∷ fs) (n ∷ []) l d = elim (Bool-cases (n == a)) [
  | inl y ↦ rw y (omega arith)
  | inr y ↦ rw y (omega arith)
]
shared-Differ (a ∷ []) (n ∷ m ∷ ns) l d = absurd (omega arith)
shared-Differ (a ∷ b ∷ fs) (n ∷ m ∷ ns) l d = elim (Bool-cases (n == a)) [
  | inr y ↦ rw y (omega arith)
  | inl y ↦
      let other : (m == b) ≡ false = elim d [ inl x ↦ ground arith | inr x ↦ ground arith ] in
      rw (y, other) (omega arith)
]

not_root : (fs : List ℕ) → 2 ≤ length fs → is_root_directory fs ≡ false
not_root [] l = refl
not_root (a ∷ []) l = absurd (omega arith)
not_root (a ∷ b ∷ fs) l = elim (Bool-cases (a == b'/')) [ inl y ↦ rw y refl | inr y ↦ rw y refl ]

pub entries-Contents :
    (archive : Archive) (file_name hs : List ℕ) (es : List (List ℕ))
    → 2 ≤ length file_name
    → Contents archive file_name hs es
    → entries archive file_name hs ≡ es
unfolding is_listed
entries-Contents archive file_name [] _ l nothing = refl
entries-Contents archive file_name (h ∷ hs) (r ∷ es) l (inside e c) =
    let long : ltb 1 (length file_name) ≡ true = ground arith in
    rw
      (
        e,
        shared-append file_name r,
        long,
        drop-append file_name r,
        entries-Contents archive file_name hs es l c,
      )
      refl
entries-Contents archive file_name (h ∷ hs) es l (outside d c) =
    let few = shared-Differ file_name (name archive h) l d in
    let short : ltb 1 (shared (name archive h) file_name) ≡ false = ground arith in
    rw (short, not_root file_name l) (entries-Contents archive file_name hs es l c)
