-- ===== src/Memory/Leaves.antt =====
-- The words that mapFreeFrameExistNo writes to the kernel's tables (sys/paging.c).
use late_os.Common.{
  ℕ, ◌+◌, ◌*◌, ◌/◌, ◌<◌, ◌≡◌, ◌≢◌, refl, sym, ap, ◌∙◌, inl, inr, some, none, List, arith,
  Bool-cases, update, update-ne, update_self, ◌==◌, ==→eq, ◌⊎◌,
}
use late_os.Memory.{Memory, page_size, entry, index4}
use late_os.Memory.Walk.{next_page, translate, Roles, Space}
use late_os.Memory.Link.{next_page-word}
use late_os.Memory.Fill.{filled-Space, filled-translate}
use late_os.Memory.Ensure.{next_page-present}
use late_os.Memory.Pages.{IsKernel, IsData, IsKernel-kept, IsData-kept}

-- A word is written to page `p`, which is no table of the task and none of the kernel's upper tables.
module _ {role : Roles} {free : List ℕ} {top pdpe : ℕ} {m : Memory} (k : IsKernel role free pdpe m)
    (space : Space role free top m) (p i x : ℕ) (b : i < 512) (no_table : role p ≡ none) where
  abbrev pub written : Memory
  written = record m { word = update m.word (p * 512 + i) x }

  pub written-ne : (q j : ℕ) → q ≢ p → j < 512 → written.word (q * 512 + j) ≡ m.word (q * 512 + j)
  written-ne q j ne h = update-ne m.word (p * 512 + i) (q * 512 + j) x (λ e. ne (omega arith))

  pub written-outside : (w : ℕ) → w / 512 ≢ p → written.word w ≡ m.word w
  written-outside w ne = update-ne m.word (p * 512 + i) w x (λ e. ne (omega arith))

  pub written-Space : Space role free top written
  written-Space = filled-Space role free top m written.word p space no_table written-outside

  pub written-translate :
      (u : ℕ) → index4 u < 511 → translate written.word top u ≡ translate m.word top u
  written-translate = filled-translate role free top m written.word p space no_table written-outside

  module _ (apart : (p ≢ m.k_cr3 / page_size) × (p ≢ m.k_pdpte / page_size) × (p ≢ pdpe)) where
    pub written-IsKernel : IsKernel role free pdpe written
    written-IsKernel =
        IsKernel-kept role role free free pdpe m written refl refl (λ q u. u)
          (λ j h. written-ne pdpe j (λ e. apart.2 (sym e)) h) k
          (written-ne (m.k_cr3 / page_size) 511 (λ e. apart.0 (sym e)) (omega arith))
          (written-ne (m.k_pdpte / page_size) 510 (λ e. apart.1 (sym e)) (omega arith))

    pub written-IsData : (q : ℕ) → IsData role free pdpe m q → IsData role free pdpe written q
    written-IsData =
        IsData-kept role role free free pdpe m written refl refl (λ q u. u)
          (λ j h. written-ne pdpe j (λ e. apart.2 (sym e)) h)

-- A page of leaves for the entry `i` of the kernel's table is linked.
module _ {role : Roles} {free : List ℕ} {top pdpe : ℕ} {m : Memory} (k : IsKernel role free pdpe m)
    (space : Space role free top m) (t i : ℕ) (b : i < 512) (d : IsData role free pdpe m t) where
  abbrev x : ℕ
  x = entry (t * page_size) 3

  abbrev pub linked : Memory
  linked = written k space pdpe i x b k.pdpe_unused.0

  pub link_there : next_page linked.word pdpe i ≡ some t
  link_there =
      let w : linked.word (pdpe * 512 + i) ≡ x = update_self m.word _ x in
      next_page-present linked.word pdpe i (rw w (ground arith)) ∙ ap some (rw w (omega arith))

  -- A link is the new one, or an old one.
  link_split :
      (j p : ℕ)
      → j < 512
      → next_page linked.word pdpe j ≡ some p
      → (p ≡ t) ⊎ (next_page m.word pdpe j ≡ some p)
  link_split j p h e = elim (Bool-cases (j == i)) [
    | inl y ↦ let same = ==→eq j i y in inl (cc (link_there, ap (next_page linked.word pdpe) same))
    | inr n ↦ inr (
        sym (
          next_page-word m.word linked.word pdpe j
            (update-ne m.word (pdpe * 512 + i) (pdpe * 512 + j) x (λ y. ground arith)))
        ∙ e)
  ]

  pub linked-IsKernel : IsKernel role free pdpe linked
  linked-IsKernel = record {
    pml4_aligned = k.pml4_aligned;
    pdpte_aligned = k.pdpte_aligned;
    top_link =
        next_page-word m.word linked.word (m.k_cr3 / page_size) 511 (
          written-ne k space pdpe i x b k.pdpe_unused.0 (m.k_cr3 / page_size) 511
            (λ e. k.not_pml4 (sym e)) (omega arith))
        ∙ k.top_link;
    pdpe_link =
        next_page-word m.word linked.word (m.k_pdpte / page_size) 510 (
          written-ne k space pdpe i x b k.pdpe_unused.0 (m.k_pdpte / page_size) 510
            (λ e. k.not_pdpte (sym e)) (omega arith))
        ∙ k.pdpe_link;
    pml4_unused = k.pml4_unused;
    pdpte_unused = k.pdpte_unused;
    pdpe_unused = k.pdpe_unused;
    not_pml4 = k.not_pml4;
    not_pdpte = k.not_pdpte;
    leaf_unused = λ j p h e. elim (link_split j p h e) [
      | inl y ↦ rw y d.unused
      | inr y ↦ k.leaf_unused j p h y
    ];
    leaf_apart = λ j p h e. elim (link_split j p h e) [
      | inl y ↦ rw y (d.not_pml4, d.not_pdpte, d.not_pdpe)
      | inr y ↦ k.leaf_apart j p h y
    ];
    low = k.low;
  }

  pub linked-IsData : (p : ℕ) → IsData role free pdpe m p → p ≢ t → IsData role free pdpe linked p
  linked-IsData p d' ne = record {
    unused = d'.unused;
    not_pml4 = d'.not_pml4;
    not_pdpte = d'.not_pdpte;
    not_pdpe = d'.not_pdpe;
    not_leaf = λ j h e. elim (link_split j p h e) [ inl y ↦ ne y | inr y ↦ d'.not_leaf j h y ];
  }
