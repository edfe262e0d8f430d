-- ===== src/Memory/Tables.antt =====
-- A page of a task's address space: initTaskPagetables and the functions that it calls
-- (sys/paging.c). The last argument of each is the physical address of the task's pml4.
use late_os.Common.{ℕ, if◌then◌else◌}
use late_os.Memory.{
  M, ◌>>=◌, ◌>>◌, slot, frame, entry, present, index4, index3, index2, index1, load, store,
  memset_page, get_free_frame, kernel_pml4, pure,
}

-- A new page table for the slot `parent`, cleared after it is linked.
unfoldable pub new_table : ℕ → M ℕ
new_table parent = do
  table ← get_free_frame
  store parent (entry table 7)
  memset_page table
  pure table

unfoldable pub set_new_page_pdpte : (virtual physical pml4 : ℕ) → M (Unit {0})
set_new_page_pdpte virtual physical pml4 = do
  pdpte ← new_table (slot pml4 (index4 virtual))
  pdpe ← new_table (slot pdpte (index3 virtual))
  pte ← new_table (slot pdpe (index2 virtual))
  store (slot pte (index1 virtual)) (entry physical 7)

unfoldable pub set_new_page_pdpe : (virtual physical pdpte : ℕ) → M (Unit {0})
set_new_page_pdpe virtual physical pdpte = do
  pdpe ← new_table (slot pdpte (index3 virtual))
  pte ← new_table (slot pdpe (index2 virtual))
  store (slot pte (index1 virtual)) (entry physical 7)

unfoldable pub set_existing_page_pdpe : (virtual physical pdpte : ℕ) → M (Unit {0})
set_existing_page_pdpe virtual physical pdpte = do
  e3 ← load (slot pdpte (index3 virtual))
  e2 ← load (slot (frame e3) (index2 virtual))
  if present e2 then store (slot (frame e2) (index1 virtual)) (entry physical 7) else (do
    pte ← new_table (slot (frame e3) (index2 virtual))
    store (slot pte (index1 virtual)) (entry physical 7))

unfoldable pub set_existing_page_pdpte : (virtual physical pml4 : ℕ) → M (Unit {0})
unfolding set_new_page_pdpe set_existing_page_pdpe
set_existing_page_pdpte virtual physical pml4 = do
  e4 ← load (slot pml4 (index4 virtual))
  e3 ← load (slot (frame e4) (index3 virtual))
  if present e3
      then set_existing_page_pdpe virtual physical (frame e4)
      else set_new_page_pdpe virtual physical (frame e4)

-- Maps the page of `virtual` to `physical`; the kernel's half is shared first.
unfoldable pub init_task_pagetables : (virtual physical pml4 : ℕ) → M (Unit {0})
unfolding set_new_page_pdpte set_existing_page_pdpte
init_task_pagetables virtual physical pml4 = do
  k_pml4 ← kernel_pml4
  k ← load (slot k_pml4 511)
  store (slot pml4 511) (entry k 7)
  e4 ← load (slot pml4 (index4 virtual))
  if present e4
      then set_existing_page_pdpte virtual physical pml4
      else set_new_page_pdpte virtual physical pml4
