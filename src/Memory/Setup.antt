-- ===== src/Memory/Setup.antt =====
-- The kernel's own page tables at the boot: setupPageTables (sys/paging.c). The boot loader's tables
-- map physical memory to itself, so tables are written at their physical addresses.
use late_os.Common.{ℕ, zero, suc, ◌+◌, ◌*◌, ◌/◌, ◌%◌, ◌^◌, ◌==◌, some, if◌then◌else◌, ltb}
use late_os.Memory.{
  M, pure, ◌>>=◌, ◌>>◌, slot, entry, index4, index3, index2, index1, store, get_free_frame,
  kernbase, page_size,
}

-- `mapCurrentPageTable`: the virtual address is returned.
unfoldable pub map_current_page_table : (pte virtual num physical : ℕ) → M ℕ
map_current_page_table pte virtual num physical =
    let at = (virtual + num * page_size) % 2 ^ 64 in
    store (slot pte (index1 at)) (entry physical 3) >>= λ _. pure at

-- The loop that maps physical memory from `physbase` on at `virtual`. The result is the address behind
-- it, and the last table. The fuel counts pages.
unfoldable pub map_physical : (n pde pte virtual physbase physfree : ℕ) → M (ℕ × ℕ)
map_physical zero pde pte virtual physbase physfree = pure (virtual, pte)
map_physical (suc n) pde pte virtual physbase physfree =
    let go_on = λ (pte' : ℕ). store (slot pte' (index1 virtual)) (entry physbase 3) >>= λ _.
    map_physical n pde pte' ((virtual + page_size) % 2 ^ 64) (physbase + page_size) physfree in
    let same_table = go_on pte in
    let next_table = get_free_frame >>= λ pte'.
    store (slot pde (index2 virtual)) (entry pte' 3) >>= λ _. go_on pte' in
    if ltb physbase physfree
    then (if index1 virtual == 0 then next_table else same_table)
    else pure (virtual, pte)

-- `k_cr3`, and the frame of the global `pdpte`.
abbrev set_tables : (pml4e pdpte : ℕ) → M (Unit {0})
set_tables pml4e pdpte m = some (tt, record m { k_cr3 = pml4e; k_pdpte = pdpte })

unfoldable pub setup_page_tables : (physbase physfree : ℕ) → M (Unit {0})
unfolding map_physical map_current_page_table
setup_page_tables physbase physfree = do
  pml4e ← get_free_frame
  pdpte ← get_free_frame
  store (slot pml4e (index4 kernbase)) (entry pdpte 3)
  pde ← get_free_frame
  store (slot pdpte (index3 kernbase)) (entry pde 3)
  pte ← get_free_frame
  store (slot pde (index2 kernbase)) (entry pte 3)
  (virtual, pte') ← map_physical (physfree / page_size + 1) pde pte kernbase physbase physfree
  set_tables pml4e pdpte
  at₁ ← map_current_page_table pte' virtual 1 pml4e
  at₂ ← map_current_page_table pte' virtual 2 pdpte
  at₃ ← map_current_page_table pte' virtual 3 pde
  at₄ ← map_current_page_table pte' virtual 4 pte'
  pure tt
