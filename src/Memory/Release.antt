-- ===== src/Memory/Release.antt =====
-- deallocTask keeps the free list (sys/paging.c).
use late_os.Common.{ℕ, zero, suc, ◌+◌, ◌≡◌, refl, ◌∙◌, Bool, true, false, some}
use late_os.Memory.{Memory, M, pure, ◌>>=◌, ◌>>◌, slot, frame, present, load, store, for_loop, when}
use late_os.Memory.Cow.{
  free, dealloc_entry, dealloc_directory, dealloc_pointers, dealloc_top, dealloc_task,
}

-- A command that succeeds and leaves the free list and the page descriptors as they are.
pub record Keeps (c : M (Unit {0})) (m : Memory) : Type 0 where
  pub after : Memory
  pub runs : c m ≡ some (tt, after)
  pub head : after.head ≡ m.head
  pub page_list : after.page_list ≡ m.page_list

abbrev KeepsAll : M (Unit {0}) → Type 0
KeepsAll c = (m : Memory) → Keeps c m

keep : (m : Memory) → Keeps (pure tt) m
keep m = record { after = m; runs = refl; head = refl; page_list = refl }

store-Keeps : (i v : ℕ) → KeepsAll (store i v)
store-Keeps i v m = record { after = _; runs = refl; head = refl; page_list = refl }

seq-Keeps : (c d : M (Unit {0})) → KeepsAll c → KeepsAll d → KeepsAll (c >> d)
seq-Keeps c d hc hd m =
    let a = hc m in
    let b = hd a.after in
    record {
      after = b.after;
      runs = rw (a.runs, ◌>>=◌) b.runs;
      head = b.head ∙ a.head;
      page_list = b.page_list ∙ a.page_list;
    }

load-Keeps : (i : ℕ) (c : ℕ → M (Unit {0})) → ((e : ℕ) → KeepsAll (c e)) → KeepsAll (load i >>= c)
load-Keeps i c h m =
    let a = h (m.word i) m in
    record { after = a.after; runs = a.runs; head = a.head; page_list = a.page_list }

when-Keeps : (b : Bool) (c : M (Unit {0})) → KeepsAll c → KeepsAll (when b c)
when-Keeps true c h = h
when-Keeps false c h = keep

for_loop-Keeps :
    (n from : ℕ) (body : ℕ → M (Unit {0}))
    → ((i : ℕ) → KeepsAll (body i))
    → KeepsAll (for_loop n from body)
unfolding for_loop
for_loop-Keeps zero from body h = keep
for_loop-Keeps (suc n) from body h =
    seq-Keeps (body from) (for_loop n (from + 1) body) (h from) (for_loop-Keeps n (from + 1) body h)

free-Keeps : (add : ℕ) → KeepsAll (free add)
unfolding free
free-Keeps add = keep

entry-Keeps : (pte l : ℕ) → KeepsAll (dealloc_entry pte l)
unfolding dealloc_entry
entry-Keeps pte l = load-Keeps (slot pte l) _ λ e.
    seq-Keeps (when (present e) (free (frame e))) (store (slot pte l) 0)
      (when-Keeps (present e) (free (frame e)) (free-Keeps (frame e))) (store-Keeps (slot pte l) 0)

-- A level above: the tables below it, its own table, its entry.
level-Keeps :
    (table i : ℕ) (below : ℕ → ℕ → M (Unit {0}))
    → ((t j : ℕ) → KeepsAll (below t j))
    → KeepsAll (
        load (slot table i) >>= λ e.
        when
          (present e)
          (for_loop 512 0 (below (frame e)) >> (load (slot table i) >>= λ e'. free (frame e')))
        >> store (slot table i) 0)
level-Keeps table i below h = load-Keeps (slot table i) _ λ e.
    seq-Keeps _ (store (slot table i) 0)
      (when-Keeps (present e) _ (
        seq-Keeps (for_loop 512 0 (below (frame e))) _
          (for_loop-Keeps 512 0 (below (frame e)) (h (frame e)))
          (load-Keeps (slot table i) (λ e'. free (frame e')) (λ e'. free-Keeps (frame e')))))
      (store-Keeps (slot table i) 0)

directory-Keeps : (pdpe k : ℕ) → KeepsAll (dealloc_directory pdpe k)
unfolding dealloc_directory
directory-Keeps pdpe k = level-Keeps pdpe k dealloc_entry entry-Keeps

pointers-Keeps : (pdpte j : ℕ) → KeepsAll (dealloc_pointers pdpte j)
unfolding dealloc_pointers
pointers-Keeps pdpte j = level-Keeps pdpte j dealloc_directory directory-Keeps

top-Keeps : (pml4 i : ℕ) → KeepsAll (dealloc_top pml4 i)
unfolding dealloc_top
top-Keeps pml4 i = level-Keeps pml4 i dealloc_pointers pointers-Keeps

-- Whatever the memory holds, neither the free list nor any page descriptor changes, for no step of the
-- model faults.
pub dealloc_task-Keeps : (pml4 : ℕ) (m : Memory) → Keeps (dealloc_task pml4) m
unfolding dealloc_task
dealloc_task-Keeps pml4 m = for_loop-Keeps 511 0 (dealloc_top pml4) (top-Keeps pml4) m
