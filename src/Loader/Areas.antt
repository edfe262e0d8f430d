-- ===== src/Loader/Areas.antt =====
-- The pages that the loader maps for a segment (readELFandFork, readELFandExec and setupVMA in
-- sys/process.c).
use late_os.Common.{
  ℕ, zero, suc, ◌+◌, ◌-◌, ◌*◌, ◌/◌, ◌%◌, ◌^◌, ◌≤◌, ◌<◌, ◌≡◌, refl, sym, ap, ◌∙◌, fun_ext, inl, inr,
  Option, some, none, List, arith, ltb, ◌==◌, Bool-cases, true, false,
}
use late_os.Memory.{Memory, M, page_size, frame, ◌>>=◌, ◌>>◌, pure, get_free_frame}
use late_os.Memory.Tables.{init_task_pagetables}
use late_os.Memory.Walk.{translate, Roles, Unused, addresses}
use late_os.Memory.Fill.{translate-frame}
use late_os.Memory.Link.{next_page-word}
use late_os.Memory.Pages.{IsKernel, IsData, IsKernel-kept, IsData-kept}
use late_os.Process.Areas.{grow, setup_vma}
use late_os.Process.Heap.{Grown}
use late_os.Loader.{map_pages}
use late_os.Loader.Bytes.{Mapping}

bind_assoc :
    {A B C : Type 0} (c : M A) (f : A → M B) (g : B → M C)
    → ((c >>= f) >>= g) ≡ (c >>= λ a. f a >>= g)
bind_assoc {A} {B} {C} c f g = fun_ext λ m. cases (c m)
  where
    cases :
        (o : Option (A × Memory))
        → elim (elim o as (λ _. Option (B × Memory)) [ none ↦ none | some (a, m') ↦ f a m' ])
            as (λ _. Option (C × Memory)) [ none ↦ none | some (b, m') ↦ g b m' ]
          ≡ elim o as (λ _. Option (C × Memory)) [
            | none ↦ none
            | some (a, m') ↦ elim (f a m') as (λ _. Option (C × Memory)) [
              | none ↦ none
              | some (b, m'') ↦ g b m''
            ]
          ]
    cases none = refl
    cases (some (a, m')) = refl

abbrev done : ℕ → M (Unit {0})
done _ = pure tt

-- The loop maps as many pages as reach the end of the area.
pub map_pages-grow :
    (n fuel k last pml4 : ℕ)
    → n < fuel
    → last ≤ k + n * page_size
    → (0 < n → k + n * page_size < last + page_size)
    → k + n * page_size < 2 ^ 64
    → map_pages fuel k last pml4 ≡ (grow n k pml4 >>= done)
unfolding map_pages grow
map_pages-grow n zero k last pml4 h a b c = absurd (omega arith)
map_pages-grow zero (suc fuel) k last pml4 h a b c =
    let past : ltb k last ≡ false = ground arith in rw past
map_pages-grow (suc n) (suc fuel) k last pml4 h a b c =
    let before : ltb k last ≡ true = (let b' = b (omega arith) in ground arith) in
    let next : (k + page_size) % 2 ^ 64 ≡ k + page_size = omega arith in
    let rest =
      map_pages-grow n fuel (k + page_size) last pml4 (omega arith) (omega arith)
        (λ _. let b' = b (omega arith) in omega arith) (omega arith) in
    rw (before, next, rest)
      (sym (
        bind_assoc get_free_frame
          (λ yy. init_task_pagetables k yy pml4 >> grow n (k + page_size) pml4) done
        ∙ ap (λ c. get_free_frame >>= c)
            (fun_ext λ yy. bind_assoc (init_task_pagetables k yy pml4) _ done)))

-- The number of pages between the ends of an area.
abbrev pub pages : (p_vaddr p_memsz : ℕ) → ℕ
pages p_vaddr p_memsz = (p_vaddr % page_size + p_memsz + 4095) / page_size

pub setup_vma-start :
    (p_vaddr p_memsz : ℕ) → (setup_vma p_vaddr p_memsz).2 ≡ p_vaddr / page_size * page_size
unfolding setup_vma
setup_vma-start p_vaddr p_memsz = elim (Bool-cases (p_vaddr % page_size == 0)) [
  | inl e ↦ rw e (ground arith)
  | inr e ↦ rw e
]

pub setup_vma-end :
    (p_vaddr p_memsz : ℕ)
    → p_vaddr + p_memsz < 2 ^ 64
    → (setup_vma p_vaddr p_memsz).1 ≡ p_vaddr + p_memsz
unfolding setup_vma
setup_vma-end p_vaddr p_memsz h = omega arith

pub setup_vma-map_pages :
    (p_vaddr p_memsz pml4 : ℕ)
    → p_vaddr + p_memsz + 2 * page_size ≤ 2 ^ 64
    → map_pages
        (p_memsz / page_size + 3)
        (setup_vma p_vaddr p_memsz).2
        (setup_vma p_vaddr p_memsz).1
        pml4
      ≡ (grow (pages p_vaddr p_memsz) (p_vaddr / page_size * page_size) pml4 >>= done)
setup_vma-map_pages p_vaddr p_memsz pml4 h =
    let end : (setup_vma p_vaddr p_memsz).1 ≡ p_vaddr + p_memsz =
      setup_vma-end p_vaddr p_memsz (omega arith) in
    rw (setup_vma-start p_vaddr p_memsz, end)
      (map_pages-grow (pages p_vaddr p_memsz) (p_memsz / page_size + 3)
        (p_vaddr / page_size * page_size) (p_vaddr + p_memsz) pml4 (omega arith) (omega arith)
        (λ _. omega arith) (omega arith))

-- The pages that `grow` maps are a region, all of them data, and the kernel's tables stay.
pub Grown-Mapping :
    {n : ℕ} {role : Roles} {free : List ℕ} {top : ℕ} {m : Memory}
    → (first : ℕ) (g : Grown n role free top (first * page_size) m) → first + n ≤ 511 * 2 ^ 27
    → Mapping g.role' g.free' top first n (λ j. g.page (j - first)) g.after
Grown-Mapping {top = top} first g below = record {
  space = g.space;
  below = below;
  maps = λ u l h.
      let at : frame u ≡ first * page_size + (u / page_size - first) * page_size = omega arith in
      sym (translate-frame g.after.word top u)
      ∙ ap (translate g.after.word top) at
      ∙ g.maps (u / page_size - first) (omega arith);
  no_table = λ j l h. (g.own (j - first) (omega arith)).0;
  apart = λ i j l h b e. g.apart (i - first) (j - first) (omega arith) (omega arith) (sym e);
}

module _ {n : ℕ} {role : Roles} {free : List ℕ} {top last : ℕ} {m : Memory}
    (g : Grown n role free top last m) where
  module _ {pdpe : ℕ} (k : IsKernel role free pdpe m) where
    abbrev unused_stays :
        (q : ℕ)
        → Unused role (addresses m.page_list) free q
        → Unused g.role' (addresses g.after.page_list) g.free' q
    unused_stays q u = (g.stays q u).0

    leaves_stay : (j : ℕ) → j < 512 → g.after.word (pdpe * 512 + j) ≡ m.word (pdpe * 512 + j)
    leaves_stay j h = (g.stays pdpe k.pdpe_unused).1 j h

    pub Grown-IsKernel : IsKernel g.role' g.free' pdpe g.after
    Grown-IsKernel =
        IsKernel-kept role g.role' free g.free' pdpe m g.after g.kernel.0 g.kernel.1 unused_stays
          leaves_stay k ((g.stays _ k.pml4_unused).1 511 (omega arith))
          ((g.stays _ k.pdpte_unused).1 510 (omega arith))

    pub Grown-keeps : (q : ℕ) → IsData role free pdpe m q → IsData g.role' g.free' pdpe g.after q
    Grown-keeps =
        IsData-kept role g.role' free g.free' pdpe m g.after g.kernel.0 g.kernel.1 unused_stays
          leaves_stay

    pub Grown-IsData : (i : ℕ) → i < n → IsData g.role' g.free' pdpe g.after (g.page i)
    Grown-IsData i h = record {
      unused = g.own i h;
      not_pml4 = rw (g.kernel.0) (g.new i _ h k.pml4_unused);
      not_pdpte = rw (g.kernel.1) (g.new i _ h k.pdpte_unused);
      not_pdpe = g.new i pdpe h k.pdpe_unused;
      not_leaf = λ j b e.
          g.new i (g.page i) h
            (k.leaf_unused j (g.page i) b
              (sym (next_page-word m.word g.after.word pdpe j (leaves_stay j b)) ∙ e))
            refl;
    }
