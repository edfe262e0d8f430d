-- ===== src/Memory/Kernel.antt =====
-- Pages of the kernel's own address space: mapNewFrame and the functions that it calls, getNewPage
-- and kmalloc (sys/paging.c).
use late_os.Common.{ℕ, ◌+◌, ◌/◌, if◌then◌else◌}
use late_os.Memory.{
  M, pure, ◌>>=◌, ◌>>◌, slot, frame, entry, present, index4, index3, index2, index1, load, store,
  for_loop, get_free_frame, kernel_pml4, kernel_pdpte, page_size, kernbase,
}

-- A new table for the slot `parent`. Unlike the tables of a task it is not cleared.
unfoldable pub link_table : ℕ → M ℕ
link_table parent = do table ← get_free_frame; store parent (entry table 3); pure table

unfoldable pub map_new_frame_new : (virtual physical : ℕ) → M (Unit {0})
map_new_frame_new virtual physical = do
  pml4 ← kernel_pml4
  pdpte ← link_table (slot pml4 (index4 virtual))
  pdpe ← link_table (slot pdpte (index3 virtual))
  pte ← link_table (slot pdpe (index2 virtual))
  store (slot pte (index1 virtual)) (entry physical 3)

-- The two functions below take the table of the third level from the global `pdpte`.
unfoldable pub map_free_frame_exist_yes : (virtual physical : ℕ) → M (Unit {0})
map_free_frame_exist_yes virtual physical = do
  pdpte ← kernel_pdpte
  pdpe ← link_table (slot pdpte (index3 virtual))
  pte ← link_table (slot pdpe (index2 virtual))
  store (slot pte (index1 virtual)) (entry physical 3)

unfoldable pub map_free_frame_exist_no : (virtual physical : ℕ) → M (Unit {0})
map_free_frame_exist_no virtual physical = do
  pdpte ← kernel_pdpte
  e3 ← load (slot pdpte (index3 virtual))
  e2 ← load (slot (frame e3) (index2 virtual))
  if present e2 then store (slot (frame e2) (index1 virtual)) (entry physical 3) else (do
    pte ← link_table (slot (frame e3) (index2 virtual))
    store (slot pte (index1 virtual)) (entry physical 3))

unfoldable pub map_free_frame_exist : (virtual physical : ℕ) → M (Unit {0})
unfolding map_free_frame_exist_yes map_free_frame_exist_no
map_free_frame_exist virtual physical = do
  pml4 ← kernel_pml4
  e4 ← load (slot pml4 (index4 virtual))
  e3 ← load (slot (frame e4) (index3 virtual))
  if present e3
      then map_free_frame_exist_no virtual physical
      else map_free_frame_exist_yes virtual physical

unfoldable pub map_new_frame : (virtual physical : ℕ) → M (Unit {0})
unfolding map_new_frame_new map_free_frame_exist
map_new_frame virtual physical = do
  pml4 ← kernel_pml4
  e4 ← load (slot pml4 (index4 virtual))
  if present e4 then map_free_frame_exist virtual physical else map_new_frame_new virtual physical

-- A frame, mapped at kernbase + its address, which is returned.
unfoldable pub get_new_page : M ℕ
get_new_page = do
  new_frame ← get_free_frame
  map_new_frame (kernbase + new_frame) new_frame
  pure (kernbase + new_frame)

-- The address of the first of size / pageSize + 1 pages.
unfoldable pub kmalloc : ℕ → M ℕ
kmalloc size = do
  add ← get_new_page
  for_loop (size / page_size) 0 λ _. get_new_page >>= λ _. pure tt
  pure add
