-- ===== src/Memory/Free.antt =====
-- The free list of the boot: initializeFreelist (sys/paging.c), over the memory map that the loader
-- passes. The regions of the map come as a list; the code finds it by its module's tag. Addresses are
-- those of physical memory, whose sums here stay below 2 ^ 64.
use late_os.Common.{
  ℕ, zero, suc, ◌+◌, ◌/◌, Option, none, some, List, [], ◌∷◌, ◌==◌, ◌&&◌, ltb, not, if◌then◌else◌,
  update,
}
use late_os.Memory.{FreeFrame, page_size}

-- `struct smap_t`
pub record Region : Type 0 where
  pub base : ℕ
  pub length : ℕ
  pub kind : ℕ

-- The size of `pagelist`.
abbrev pub page_count : ℕ
page_count = 75000

-- `last` is read only behind a head.
pub record FreeList : Type 0 where
  pub page_list : ℕ → FreeFrame
  pub head : Option ℕ
  pub last : ℕ

-- The page goes behind the last one. For a page that `pagelist` has no place for, the code writes behind
-- the array, which is `none`.
unfoldable pub add_frame : ℕ → FreeList → Option FreeList
add_frame base list =
    let i = base / page_size in
    let fresh : FreeFrame = record { address = base; ref_count = 0; next = none } in
    let listed = update list.page_list i fresh in
    if ltb i page_count
    then (elim list.head [
      | none ↦ some (record { page_list = listed; head = some i; last = i })
      | some h ↦ some (record {
        page_list = update listed list.last (record (listed list.last) { next = some i });
        head = some h;
        last = i;
      })
    ])
    else none

-- The pages of a region from `base` to `end`, for at most `n` pages.
unfoldable pub add_pages : (n base end physfree : ℕ) → FreeList → Option FreeList
add_pages zero base end physfree list = some list
add_pages (suc n) base end physfree list =
    let usable = ltb (physfree + 0x1000) base && ltb (base + page_size) end in
    let added = if usable then add_frame base list else some list in
    let rest : Option FreeList = elim added [
      | none ↦ none
      | some list' ↦ add_pages n (base + page_size) end physfree list'
    ] in
    if ltb base end then rest else some list

unfoldable pub add_region : (physfree : ℕ) → Region → FreeList → Option FreeList
unfolding add_pages
add_region physfree r list =
    if (r.kind == 1) && not (r.length == 0)
    then add_pages (r.length / page_size + 1) r.base (r.base + r.length) physfree list
    else some list

unfoldable pub initialize_freelist : (physfree : ℕ) → List Region → FreeList → Option FreeList
initialize_freelist physfree [] list = some list
initialize_freelist physfree (r ∷ rs) list = elim (add_region physfree r list) [
  | none ↦ none
  | some list' ↦ initialize_freelist physfree rs list'
]
