-- ===== src/Memory/Cow.antt =====
-- The address space of a fork and its end: copytables and deallocTask (sys/paging.c). The arguments
-- are physical addresses of tables of the parent and of the child.
use late_os.Common.{ℕ, ◌+◌, ◌-◌, ◌*◌, ◌/◌, ◌%◌, some, if◌then◌else◌, ◌==◌, update}
use late_os.Memory.{
  M, pure, ◌>>=◌, ◌>>◌, slot, frame, entry, present, load, store, for_loop, when, memset_page,
  page_size, kernbase,
}
use late_os.Memory.Kernel.{get_new_page}

-- `(e & 0xFFFFFFFFFFFFFFFD) | 0x200`: not writable, and marked as shared.
abbrev pub copy_on_write : ℕ → ℕ
copy_on_write e =
    let read_only = e - e / 2 % 2 * 2 in read_only + (if read_only / 512 % 2 == 0 then 512 else 0)

-- `pagelist[(e & validatebits) / pageSize].ref_count += 1`
unfoldable pub share_frame : ℕ → M (Unit {0})
share_frame e m =
    let i = e / page_size in
    let node = m.page_list i in
    some (
      tt,
      record m {
        page_list = update m.page_list i (record node { ref_count = node.ref_count + 1 });
      },
    )

unfoldable pub copy_entry : (pte pte_child l : ℕ) → M (Unit {0})
unfolding share_frame
copy_entry pte pte_child l = do
  e ← load (slot pte l)
  when (present e) (do
    share_frame e
    store (slot pte l) (copy_on_write e)
    store (slot pte_child l) (copy_on_write e))

-- A cleared table for the child in `child[i]`, by its physical address.
unfoldable pub child_table : (child i : ℕ) → M ℕ
child_table child i = do
  page ← get_new_page
  memset_page (page - kernbase)
  store (slot child i) (entry (page - kernbase) 7)
  pure (page - kernbase)

unfoldable pub copy_directory : (pdpe pdpe_child k : ℕ) → M (Unit {0})
copy_directory pdpe pdpe_child k = do
  e ← load (slot pdpe k)
  when (present e) (do
    pte_child ← child_table pdpe_child k
    e' ← load (slot pdpe k)
    for_loop 512 0 (copy_entry (frame e') pte_child))

unfoldable pub copy_pointers : (pdpte pdpte_child j : ℕ) → M (Unit {0})
copy_pointers pdpte pdpte_child j = do
  e ← load (slot pdpte j)
  when (present e) (do
    pdpe_child ← child_table pdpte_child j
    e' ← load (slot pdpte j)
    for_loop 512 0 (copy_directory (frame e') pdpe_child))

unfoldable pub copy_top : (pml4_parent pml4_child i : ℕ) → M (Unit {0})
copy_top pml4_parent pml4_child i = do
  e ← load (slot pml4_parent i)
  when (present e) (do
    pdpte_child ← child_table pml4_child i
    e' ← load (slot pml4_parent i)
    for_loop 512 0 (copy_pointers (frame e') pdpte_child))

unfoldable pub copytables : (pml4_parent pml4_child : ℕ) → M (Unit {0})
copytables pml4_parent pml4_child = do
  k ← load (slot pml4_parent 511)
  store (slot pml4_child 511) k
  for_loop 511 0 (copy_top pml4_parent pml4_child)

-- deallocTask. A table is read and written at the address that its entry gives; that the kernel maps this
-- address, as it does for the frames of the free list, is left out, so no step here faults.

-- The kernel's `free` gives nothing back.
unfoldable pub free : ℕ → M (Unit {0})
free add = pure tt

unfoldable pub dealloc_entry : (pte l : ℕ) → M (Unit {0})
unfolding free
dealloc_entry pte l = do
  e ← load (slot pte l)
  when (present e) (free (frame e))
  store (slot pte l) 0

unfoldable pub dealloc_directory : (pdpe k : ℕ) → M (Unit {0})
unfolding free
dealloc_directory pdpe k = do
  e ← load (slot pdpe k)
  when (present e)
      (do for_loop 512 0 (dealloc_entry (frame e)); e' ← load (slot pdpe k); free (frame e'))
  store (slot pdpe k) 0

unfoldable pub dealloc_pointers : (pdpte j : ℕ) → M (Unit {0})
unfolding free
dealloc_pointers pdpte j = do
  e ← load (slot pdpte j)
  when (present e)
      (do for_loop 512 0 (dealloc_directory (frame e)); e' ← load (slot pdpte j); free (frame e'))
  store (slot pdpte j) 0

unfoldable pub dealloc_top : (pml4 i : ℕ) → M (Unit {0})
unfolding free
dealloc_top pml4 i = do
  e ← load (slot pml4 i)
  when (present e)
      (do for_loop 512 0 (dealloc_pointers (frame e)); e' ← load (slot pml4 i); free (frame e'))
  store (slot pml4 i) 0

unfoldable pub dealloc_task : ℕ → M (Unit {0})
dealloc_task pml4 = for_loop 511 0 (dealloc_top pml4)
