-- ===== src/Memory/Map.antt =====
-- initTaskPagetables is one step for each level of the tables, and what one step does.
use late_os.Common.{
  ℕ, ◌/◌, ◌<◌, ◌≡◌, sym, ◌∙◌, inl, inr, true, false, none, some, arith, if◌then◌else◌, Bool-cases,
  Option-cases, some_pair, update, for_each, for_each_lem,
}
use late_os.Memory.{
  Memory, M, pure, ◌>>=◌, ◌>>◌, slot, frame, entry, present, index4, index3, index2, index1, load,
  store, memset_page, get_free_frame, kernel_pml4,
}
use late_os.Memory.Tables.{
  new_table, init_task_pagetables, set_new_page_pdpte, set_existing_page_pdpte, set_new_page_pdpe,
  set_existing_page_pdpe,
}

-- The table that an entry refers to, made if the entry is empty.
pub ensure : ℕ → M ℕ
ensure parent = do e ← load parent; if present e then pure (frame e) else new_table parent

unfoldable pub share_kernel : ℕ → M (Unit {0})
share_kernel pml4 = do
  k_pml4 ← kernel_pml4
  k ← load (slot k_pml4 511)
  store (slot pml4 511) (entry k 7)

-- The levels from the page directory `table` down, and from the directory pointer table `table`.
levels2 : (virtual physical table : ℕ) → M (Unit {0})
levels2 virtual physical table = do
  pte ← ensure (slot table (index2 virtual))
  store (slot pte (index1 virtual)) (entry physical 7)

levels3 : (virtual physical table : ℕ) → M (Unit {0})
levels3 virtual physical table = do
  pdpe ← ensure (slot table (index3 virtual))
  levels2 virtual physical pdpe

unfoldable pub map_by_levels : (virtual physical pml4 : ℕ) → M (Unit {0})
unfolding levels2 levels3
map_by_levels virtual physical pml4 = do
  share_kernel pml4
  pdpte ← ensure (slot pml4 (index4 virtual))
  levels3 virtual physical pdpte

-- The memory after a table is made in the frame of node `n`.
abbrev pub with_table : Memory → ℕ → ℕ → Memory
with_table m n parent =
    let node = m.page_list n in
    record m {
      word = for_each 512 (node.address / 8) (λ _. 0) (update m.word parent (entry node.address 7));
      page_list = update m.page_list n (record node { ref_count = 1 });
      head = node.next;
    }

pub new_table-some :
    (parent n : ℕ) (m : Memory)
    → m.head ≡ some n
    → new_table parent m ≡ some ((m.page_list n).address, with_table m n parent)
unfolding new_table get_free_frame memset_page
new_table-some parent n m e = rw (e, get_free_frame)

new_table-none : (parent : ℕ) (m : Memory) → m.head ≡ none → new_table parent m ≡ none
unfolding new_table get_free_frame
new_table-none parent m e = rw (e, get_free_frame)

pub cleared :
    (table i : ℕ) (f : ℕ → ℕ) → i < 512 → for_each 512 (table / 8) (λ _. 0) f (slot table i) ≡ 0
cleared table i f h = ground (arith, for_each_lem 512 (table / 8) (λ (_ : ℕ). 0) f (slot table i))

pub ensure-present :
    (w : ℕ) (m : Memory) → present (m.word w) ≡ true → ensure w m ≡ some (frame (m.word w), m)
unfolding ensure
ensure-present w m e = rw e

pub ensure-absent : (w : ℕ) (m : Memory) → present (m.word w) ≡ false → ensure w m ≡ new_table w m
unfolding ensure
ensure-absent w m e = rw e

-- In a table that was just made every entry is empty.
new_table-cleared :
    (w t i : ℕ) (m m' : Memory) → new_table w m ≡ some (t, m') → i < 512 → m'.word (slot t i) ≡ 0
new_table-cleared w t i m m' e h = elim (Option-cases m.head) [
  | inl gone ↦ cc (new_table-none w m gone)
  | inr (n, got) ↦
      let (at_t, at_m) =
        some_pair t (m.page_list n).address m' (with_table m n w)
          (sym e ∙ new_table-some w n m got) in
      rw (at_t, at_m) (cleared (m.page_list n).address i _ h)
]

ensure-new_table :
    (w t i : ℕ) (m m' : Memory)
    → new_table w m ≡ some (t, m')
    → i < 512
    → ensure (slot t i) m' ≡ new_table (slot t i) m'
ensure-new_table w t i m m' e h =
    ensure-absent (slot t i) m' (ground (arith, new_table-cleared w t i m m' e h))

new-levels2 :
    (virtual physical w t : ℕ) (m m' : Memory)
    → new_table w m ≡ some (t, m')
    → (new_table (slot t (index2 virtual)) >>= λ pte.
          store (slot pte (index1 virtual)) (entry physical 7))
        m'
      ≡ levels2 virtual physical t m'
unfolding levels2
new-levels2 v p w t m m' e = rw (ensure-new_table w t (index2 v) m m' e (omega arith), ◌>>=◌)

existing-levels2 :
    (virtual physical pdpte : ℕ) (m : Memory)
    → present (m.word (slot pdpte (index3 virtual))) ≡ true
    → set_existing_page_pdpe virtual physical pdpte m ≡ levels3 virtual physical pdpte m
unfolding set_existing_page_pdpe levels3 levels2 ensure
existing-levels2 v p t m e = ground arith

new-levels3 :
    (virtual physical pdpte : ℕ) (m : Memory)
    → present (m.word (slot pdpte (index3 virtual))) ≡ false
    → set_new_page_pdpe virtual physical pdpte m ≡ levels3 virtual physical pdpte m
unfolding set_new_page_pdpe levels3
new-levels3 v p t m e = elim (Option-cases (new_table (slot t (index3 v)) m)) [
  | inl none_left ↦ rw (ensure-absent (slot t (index3 v)) m e, none_left, ◌>>=◌)
  | inr ((pdpe, m'), made) ↦
      rw (ensure-absent (slot t (index3 v)) m e, made, ◌>>=◌)
        (new-levels2 v p (slot t (index3 v)) pdpe m m' made)
]

-- The first table is new: so are the two below it.
new-levels4 :
    (virtual physical pml4 : ℕ) (m : Memory)
    → present (m.word (slot pml4 (index4 virtual))) ≡ false
    → set_new_page_pdpte virtual physical pml4 m
      ≡ (ensure (slot pml4 (index4 virtual)) >>= levels3 virtual physical) m
unfolding set_new_page_pdpte levels3
new-levels4 v p top m e = elim (Option-cases (new_table (slot top (index4 v)) m)) [
  | inl none_left ↦ rw (ensure-absent (slot top (index4 v)) m e, none_left, ◌>>=◌)
  | inr ((t, m'), made) ↦
      rw (ensure-absent (slot top (index4 v)) m e, made, ◌>>=◌) (below t m' made)
]
  where
    below :
        (t : ℕ) (m' : Memory)
        → new_table (slot top (index4 v)) m ≡ some (t, m')
        → (new_table (slot t (index3 v)) >>= λ pdpe.
              new_table (slot pdpe (index2 v)) >>= λ pte. store (slot pte (index1 v)) (entry p 7))
            m'
          ≡ levels3 v p t m'
    below t m' made =
        let absent = ensure-new_table (slot top (index4 v)) t (index3 v) m m' made (omega arith) in
        elim (Option-cases (new_table (slot t (index3 v)) m')) [
          | inl none_left ↦ rw (absent, none_left, ◌>>=◌)
          | inr ((pdpe, m''), made') ↦
              rw (absent, made', ◌>>=◌) (new-levels2 v p (slot t (index3 v)) pdpe m' m'' made')
        ]

existing-levels4 :
    (virtual physical pml4 : ℕ) (m : Memory)
    → present (m.word (slot pml4 (index4 virtual))) ≡ true
    → set_existing_page_pdpte virtual physical pml4 m
      ≡ (ensure (slot pml4 (index4 virtual)) >>= levels3 virtual physical) m
unfolding set_existing_page_pdpte
existing-levels4 v p top m e =
    let t = frame (m.word (slot top (index4 v))) in
    elim (Bool-cases (present (m.word (slot t (index3 v))))) [
      | inl e3 ↦
          rw (e3, ensure-present (slot top (index4 v)) m e, ◌>>=◌) (existing-levels2 v p t m e3)
      | inr e3 ↦ rw (e3, ensure-present (slot top (index4 v)) m e, ◌>>=◌) (new-levels3 v p t m e3)
    ]

-- The code's four functions, one for each number of missing tables, do one step for each level.
pub init_task_pagetables-by_levels :
    (virtual physical pml4 : ℕ) (m : Memory)
    → init_task_pagetables virtual physical pml4 m ≡ map_by_levels virtual physical pml4 m
unfolding init_task_pagetables map_by_levels share_kernel
init_task_pagetables-by_levels v p top m =
    let k = m.word (slot m.k_cr3 511) in
    let m' : Memory = record m { word = update m.word (slot top 511) (entry k 7) } in
    elim (Bool-cases (present (m'.word (slot top (index4 v))))) [
      | inl e ↦ rw e (existing-levels4 v p top m' e)
      | inr e ↦ rw e (new-levels4 v p top m' e)
    ]
