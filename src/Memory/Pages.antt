-- ===== src/Memory/Pages.antt =====
-- The kernel's own address space and the pages that kmalloc adds to it (mapNewFrame, getNewPage and
-- kmalloc in sys/paging.c).
use late_os.Common.{
  ℕ, ◌+◌, ◌*◌, ◌/◌, ◌%◌, ◌^◌, ◌≤◌, ◌<◌, ◌≡◌, ◌≢◌, refl, sym, ap, ◌∙◌, inl, inr, some, List, arith,
  length, true, ltb, Bool-cases,
}
use late_os.Memory.{Memory, page_size, kernbase, present, index4}
use late_os.Memory.Kernel.{get_new_page}
use late_os.Memory.Walk.{next_page, translate, Roles, Space, Unused, addresses}
use late_os.Memory.Link.{next_page-word}
use late_os.Memory.Take.{Taken}

-- What a link says of the entry.
pub link-parts :
    (word : ℕ → ℕ) (p i q : ℕ)
    → next_page word p i ≡ some q
    → (present (word (p * 512 + i)) ≡ true) × (word (p * 512 + i) / page_size ≡ q)
unfolding next_page
link-parts word p i q e = ground arith

-- The kernel's tables, of which page `pdpe` holds the entries of the first GB behind kernbase. The
-- tables are not those of the task's address space, and no frame lies behind that GB.
pub record IsKernel (role : Roles) (free : List ℕ) (pdpe : ℕ) (m : Memory) : Type 0 where
  pub pml4_aligned : m.k_cr3 % page_size ≡ 0
  pub pdpte_aligned : m.k_pdpte % page_size ≡ 0
  pub top_link : next_page m.word (m.k_cr3 / page_size) 511 ≡ some (m.k_pdpte / page_size)
  pub pdpe_link : next_page m.word (m.k_pdpte / page_size) 510 ≡ some pdpe
  pub pml4_unused : Unused role (addresses m.page_list) free (m.k_cr3 / page_size)
  pub pdpte_unused : Unused role (addresses m.page_list) free (m.k_pdpte / page_size)
  pub pdpe_unused : Unused role (addresses m.page_list) free pdpe
  pub not_pml4 : pdpe ≢ m.k_cr3 / page_size
  pub not_pdpte : pdpe ≢ m.k_pdpte / page_size
  pub leaf_unused :
      (i q : ℕ)
      → i < 512
      → next_page m.word pdpe i ≡ some q
      → Unused role (addresses m.page_list) free q
  pub leaf_apart :
      (i q : ℕ)
      → i < 512
      → next_page m.word pdpe i ≡ some q
      → (q ≢ m.k_cr3 / page_size) × (q ≢ m.k_pdpte / page_size) × (q ≢ pdpe)
  pub low : (q : ℕ) → 2 ^ 18 ≤ q → Unused role (addresses m.page_list) free q

-- A page that holds data: it is no table of the task, no frame of the free list, and no table of the
-- kernel.
pub record IsData (role : Roles) (free : List ℕ) (pdpe : ℕ) (m : Memory) (q : ℕ) : Type 0 where
  pub unused : Unused role (addresses m.page_list) free q
  pub not_pml4 : q ≢ m.k_cr3 / page_size
  pub not_pdpte : q ≢ m.k_pdpte / page_size
  pub not_pdpe : q ≢ pdpe
  pub not_leaf : (i : ℕ) → i < 512 → next_page m.word pdpe i ≢ some q

-- The outcome of getNewPage: a page of the kernel, at its place behind kernbase.
pub record Paged (role : Roles) (free : List ℕ) (top pdpe : ℕ) (m : Memory) : Type 0 where
  pub page : ℕ
  pub rest : List ℕ
  pub after : Memory
  pub runs : get_new_page m ≡ some (kernbase + page * page_size, after)
  pub maps :
      translate after.word (after.k_cr3 / page_size) (kernbase + page * page_size) ≡ some page
  pub space : Space role rest top after
  pub kernel : IsKernel role rest pdpe after
  pub own : IsData role rest pdpe after page
  pub in_range : page < 2 ^ 18
  pub was_free : (q : ℕ) → Unused role (addresses m.page_list) free q → page ≢ q
  pub stays :
      (q : ℕ)
      → IsData role free pdpe m q
      → IsData role rest pdpe after q
        × ((j : ℕ) → j < 512 → after.word (q * 512 + j) ≡ m.word (q * 512 + j))
  pub keeps :
      (q : ℕ)
      → Unused role (addresses m.page_list) free q
      → Unused role (addresses after.page_list) rest q
  pub walks : (u : ℕ) → index4 u < 511 → translate after.word top u ≡ translate m.word top u
  pub spent : length free ≤ length rest + 2

-- A change that touches none of the kernel's upper tables keeps them, and keeps data.
module _ (role role' : Roles) (free free' : List ℕ) (pdpe : ℕ) (m m' : Memory)
    (cr3 : m'.k_cr3 ≡ m.k_cr3) (pdpte : m'.k_pdpte ≡ m.k_pdpte)
    (stays : (q : ℕ)
      → Unused role (addresses m.page_list) free q
      → Unused role' (addresses m'.page_list) free' q)
    (leaves : (j : ℕ) → j < 512 → m'.word (pdpe * 512 + j) ≡ m.word (pdpe * 512 + j)) where
  same_leaf :
      (i q : ℕ) → i < 512 → next_page m'.word pdpe i ≡ some q → next_page m.word pdpe i ≡ some q
  same_leaf i q b e = sym (next_page-word m.word m'.word pdpe i (leaves i b)) ∙ e

  pub IsKernel-kept :
      IsKernel role free pdpe m
      → m'.word (m.k_cr3 / page_size * 512 + 511) ≡ m.word (m.k_cr3 / page_size * 512 + 511)
      → m'.word (m.k_pdpte / page_size * 512 + 510) ≡ m.word (m.k_pdpte / page_size * 512 + 510)
      → IsKernel role' free' pdpe m'
  IsKernel-kept k top second = record {
    pml4_aligned = rw cr3 k.pml4_aligned;
    pdpte_aligned = rw pdpte k.pdpte_aligned;
    top_link =
        rw (cr3, pdpte) (next_page-word m.word m'.word (m.k_cr3 / page_size) 511 top ∙ k.top_link);
    pdpe_link =
        rw pdpte (next_page-word m.word m'.word (m.k_pdpte / page_size) 510 second ∙ k.pdpe_link);
    pml4_unused = rw cr3 (stays (m.k_cr3 / page_size) k.pml4_unused);
    pdpte_unused = rw pdpte (stays (m.k_pdpte / page_size) k.pdpte_unused);
    pdpe_unused = stays pdpe k.pdpe_unused;
    not_pml4 = rw cr3 k.not_pml4;
    not_pdpte = rw pdpte k.not_pdpte;
    leaf_unused = λ i q b e. stays q (k.leaf_unused i q b (same_leaf i q b e));
    leaf_apart = λ i q b e. rw (cr3, pdpte) (k.leaf_apart i q b (same_leaf i q b e));
    low = λ q h. stays q (k.low q h);
  }

  pub IsData-kept : (q : ℕ) → IsData role free pdpe m q → IsData role' free' pdpe m' q
  IsData-kept q d = record {
    unused = stays q d.unused;
    not_pml4 = rw cr3 d.not_pml4;
    not_pdpte = rw pdpte d.not_pdpte;
    not_pdpe = d.not_pdpe;
    not_leaf = λ i b e. d.not_leaf i b (same_leaf i q b e);
  }

-- A frame that is taken leaves the kernel's tables and all data, and is free for data.
module _ {role : Roles} {free : List ℕ} {top pdpe : ℕ} {m : Memory} (k : IsKernel role free pdpe m)
    (t : Taken role free top m) where
  pub taken_words : (w : ℕ) → t.after.word w ≡ m.word w
  taken_words w = ap (λ f. f w) t.words

  pub taken-IsKernel : IsKernel role t.rest pdpe t.after
  taken-IsKernel =
      IsKernel-kept role role free t.rest pdpe m t.after t.kernel t.pdpte t.stays
        (λ j b. taken_words _) k (taken_words _) (taken_words _)

  pub taken-keeps : (q : ℕ) → IsData role free pdpe m q → IsData role t.rest pdpe t.after q
  taken-keeps =
      IsData-kept role role free t.rest pdpe m t.after t.kernel t.pdpte t.stays
        (λ j b. taken_words _)

  pub taken-IsData : IsData role t.rest pdpe t.after t.page
  taken-IsData = record {
    unused = t.unused;
    not_pml4 = rw t.kernel (t.was_free _ k.pml4_unused);
    not_pdpte = rw t.pdpte (t.was_free _ k.pdpte_unused);
    not_pdpe = t.was_free _ k.pdpe_unused;
    not_leaf = λ i b e.
        t.was_free t.page
          (k.leaf_unused i t.page b
            (sym (next_page-word m.word t.after.word pdpe i (taken_words _)) ∙ e))
          refl;
  }

  pub taken_low : t.page < 2 ^ 18
  taken_low = elim (Bool-cases (ltb t.page (2 ^ 18))) [
    | inl y ↦ ground arith
    | inr n ↦ absurd (t.was_free t.page (k.low t.page (ground arith)) refl)
  ]
