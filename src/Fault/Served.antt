-- ===== src/Fault/Served.antt =====
-- isr14 at a page that a fork has shared (sys/idt.c).
use late_os.Common.{
  ℕ, ◌+◌, ◌*◌, ◌/◌, ◌%◌, ◌≤◌, ◌<◌, ◌≡◌, sym, ap, ◌∙◌, inl, inr, true, false, Option, none, some,
  some-injective, List, [], ◌∷◌, arith, length, Bool-cases, Option-cases, ◌==◌,
}
use late_os.Memory.{Memory, page_size, index4, index3, index2, index1, slot, frame, present}
use late_os.Memory.Walk.{next_page, walk, Roles, Space, Unused, addresses}
use late_os.Memory.Link.{walk-none, walk-some}
use late_os.Process.{VmArea, Kernel, Layout}
use late_os.Fault.{
  check_valid, get_pte, copy_new_memory, serve, serve_entry, fault_entry, isr14, Fault, served,
}
use late_os.Fault.Private.{Private, copy_new_memory-Private}

next_page-frame :
    (word : ℕ → ℕ) (p i q : ℕ)
    → next_page word p i ≡ some q
    → frame (word (slot (p * page_size) i)) ≡ q * page_size
unfolding next_page
next_page-frame word p i q e = elim (Bool-cases (present (word (p * 512 + i)))) [
  | inl here ↦
      let at : slot (p * page_size) i ≡ p * 512 + i = omega arith in
      let page : word (p * 512 + i) / page_size ≡ q = some-injective _ _ (sym (rw here) ∙ e) in
      rw (at, page)
  | inr absent ↦ let h : ◌≡◌ {A = Option ℕ} none (some q) = sym (rw absent) ∙ e in cc
]

walk-step :
    (word : ℕ → ℕ) (p i r : ℕ) (is : List ℕ)
    → walk word p (i ∷ is) ≡ some r
    → (q : ℕ) × (next_page word p i ≡ some q) × (walk word q is ≡ some r)
walk-step word p i r is e = elim (Option-cases (next_page word p i)) [
  | inl n ↦ cc (walk-none word p i is n)
  | inr (q, h) ↦ (q, h, sym (walk-some word p i q is h) ∙ e)
]

-- The last table of the walk.
get_pte-walk :
    (top v table : ℕ) (m : Memory)
    → walk m.word top (index4 v ∷ index3 v ∷ index2 v ∷ []) ≡ some table
    → get_pte (top * page_size) v m ≡ some (table * page_size, m)
unfolding get_pte walk
get_pte-walk top v table m e =
    let (a, ea, wa) = walk-step m.word top (index4 v) table (index3 v ∷ index2 v ∷ []) e in
    let (b, eb, wb) = walk-step m.word a (index3 v) table (index2 v ∷ []) wa in
    let (c, ec, wc) = walk-step m.word b (index2 v) table [] wb in
    rw
      (
        next_page-frame m.word top (index4 v) a ea,
        next_page-frame m.word a (index3 v) b eb,
        next_page-frame m.word b (index2 v) c ec,
      )
      (ap (λ t. some (t * page_size, m)) (some-injective _ _ wc))

serve_entry-shared :
    (layout : Layout) (vm : VmArea) (v e : ℕ) (k : Kernel) (after : Memory)
    → present e ≡ true
    → e / 512 % 2 ≡ 1
    → copy_new_memory (k.task_queue k.current_task).pml4e v (frame e) k.memory ≡ some (tt, after)
    → serve_entry layout vm v e k ≡ served (record k { memory = after })
unfolding serve_entry
serve_entry-shared layout vm v e k after here shared runs =
    let marked : (e / 512 % 2 == 0) ≡ false = ground arith in rw (marked, here, runs, serve)

fault_entry-served :
    (layout : Layout) (v table : ℕ) (k : Kernel) (vm : VmArea) (f : Fault)
    → get_pte (k.task_queue k.current_task).pml4e v k.memory ≡ some (table * page_size, k.memory)
    → serve_entry layout vm v (k.memory.word (slot (table * page_size) (index1 v))) k ≡ f
    → fault_entry layout vm v k ≡ f
unfolding fault_entry
fault_entry-served layout v table k vm f found answer = rw (found, answer, fault_entry)

isr14-served :
    (layout : Layout) (v table : ℕ) (k : Kernel) (vm : VmArea) (areas : List VmArea) (f : Fault)
    → (k.task_queue k.current_task).vm ≡ vm ∷ areas
    → check_valid vm areas v ≡ true
    → get_pte (k.task_queue k.current_task).pml4e v k.memory ≡ some (table * page_size, k.memory)
    → serve_entry layout vm v (k.memory.word (slot (table * page_size) (index1 v))) k ≡ f
    → isr14 layout v k ≡ f
unfolding isr14
isr14-served layout v table k vm areas f here valid found answer =
    rw (here, valid, fault_entry-served layout v table k vm f found answer, isr14)

-- A fault of the current task at an address that checkValid accepts (in an area, behind its first byte),
-- whose entry refers to page `s` and is marked as shared, in a well-formed address space with four frames left: `isr14` serves it, the page
-- of the address is then a copy of page `s` in a frame that was free, with an entry in the last table that
-- lets programs read and write it, all other pages of the task are
-- translated as before, pages that are neither tables nor free frames keep their words, and only the
-- memory has changed.
pub isr14-Private :
    (layout : Layout) (v top table e s : ℕ) (k : Kernel) (vm : VmArea) (areas : List VmArea)
    (role : Roles) (free : List ℕ)
    → (k.task_queue k.current_task).vm ≡ vm ∷ areas
    → (k.task_queue k.current_task).pml4e ≡ top * page_size
    → check_valid vm areas v ≡ true
    → Space role free top k.memory
    → 4 ≤ length free
    → index4 v < 511
    → walk k.memory.word top (index4 v ∷ index3 v ∷ index2 v ∷ []) ≡ some table
    → k.memory.word (table * 512 + index1 v) ≡ e
    → present e ≡ true
    → e / 512 % 2 ≡ 1
    → e / page_size ≡ s
    → Unused role (addresses k.memory.page_list) free s
    → (p : Private role free top v s k.memory) × (isr14 layout v k
        ≡ served (record k { memory = p.after }))
isr14-Private layout v top table e s k vm areas role free here at valid space enough user walks
      entry is_present shared to source =
    let p = copy_new_memory-Private role free top v s k.memory space source enough user in
    let word : k.memory.word (slot (table * page_size) (index1 v)) ≡ e =
      ap k.memory.word (omega arith) ∙ entry in
    let runs : copy_new_memory (k.task_queue k.current_task).pml4e v (frame e) k.memory
        ≡ some (tt, p.after) =
      rw (at, to) p.runs in
    (
      p,
      isr14-served layout v table k vm areas _ here valid
          (ap (λ x. get_pte x v k.memory) at ∙ get_pte-walk top v table k.memory walks)
          (ap (λ x. serve_entry layout vm v x k) word
            ∙ serve_entry-shared layout vm v e k p.after is_present shared runs),
    )
