-- ===== src/Memory/Walk.antt =====
-- The walk that the processor makes through the four levels of page tables, and the invariant
-- under which the functions of sys/paging.c are proved: a map from page numbers to the roles that
-- pages play in one address space.
use late_os.Common.{
  ℕ, ◌+◌, ◌*◌, ◌/◌, ◌%◌, ◌<◌, ◌≡◌, ◌≢◌, Option, none, some, List, [], ◌∷◌, if◌then◌else◌, length,
  All,
}
use late_os.Memory.{FreeFrame, Memory, page_size, present, index4, index3, index2, index1}

-- The page that entry `i` of the table in page `p` refers to.
unfoldable pub next_page : (ℕ → ℕ) → ℕ → ℕ → Option ℕ
next_page word p i = let e = word (p * 512 + i) in if present e then some (e / page_size) else none

unfoldable pub walk : (ℕ → ℕ) → ℕ → List ℕ → Option ℕ
walk word p [] = some p
walk word p (i ∷ is) = elim (next_page word p i) [ none ↦ none | some q ↦ walk word q is ]

abbrev pub indices : ℕ → List ℕ
indices v = index4 v ∷ index3 v ∷ index2 v ∷ index1 v ∷ []

-- The physical page of a virtual address, `none` where the processor faults.
abbrev pub translate : (ℕ → ℕ) → ℕ → ℕ → Option ℕ
translate word top v = walk word top (indices v)

-- The role of a page: the indices that lead to the table in it, the last one first; `none` for a
-- page that holds no table of this address space.
abbrev pub Roles : Type 0
Roles = ℕ → Option (List ℕ)

-- Entry 511 of the top table is the kernel's half, which address spaces share.
abbrev pub bound : List ℕ → ℕ
bound [] = 511
bound (i ∷ is) = 512

abbrev pub Fits : List ℕ → List ℕ → Type 0
Fits path [] = Unit
Fits path (i ∷ is) = (i < bound path) × Fits (i ∷ path) is

-- Every table that is linked below `top` has the role of its place.
pub record IsTree (role : Roles) (word : ℕ → ℕ) (top : ℕ) : Type 0 where
  pub top_role : role top ≡ some []
  pub linked :
      (p i q : ℕ) (path : List ℕ)
      → role p ≡ some path
      → length path < 3
      → i < bound path
      → next_page word p i ≡ some q
      → role q ≡ some (i ∷ path)

-- The nodes that the free list runs through, in order.
abbrev pub Chain : (ℕ → FreeFrame) → Option ℕ → List ℕ → Type 0
Chain list head [] = Unit
Chain list head (n ∷ ns) = (head ≡ some n) × Chain list (list n).next ns

-- The frames of the free list are aligned, distinct, and play no role.
abbrev pub Fresh : Roles → (ℕ → ℕ) → List ℕ → Type 0
Fresh role address [] = Unit
Fresh role address (n ∷ ns) =
    (address n % page_size ≡ 0)
    × (role (address n / page_size) ≡ none)
    × All (λ k. address k / page_size ≢ address n / page_size) ns
    × Fresh role address ns

-- A page that is no table of the address space, and no frame of the free list.
abbrev pub Unused : Roles → (ℕ → ℕ) → List ℕ → ℕ → Type 0
Unused role address free q = (role q ≡ none) × All (λ n. address n / page_size ≢ q) free

abbrev pub addresses : (ℕ → FreeFrame) → ℕ → ℕ
addresses list n = (list n).address

pub record Space (role : Roles) (free : List ℕ) (top : ℕ) (m : Memory) : Type 0 where
  pub tree : IsTree role m.word top
  pub chain : Chain m.page_list m.head free
  pub fresh : Fresh role (addresses m.page_list) free
