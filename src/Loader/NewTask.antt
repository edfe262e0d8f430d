-- ===== src/Loader/NewTask.antt =====
-- The address space of a new program (readELFandFork in sys/process.c).
use late_os.Common.{
  ℕ, ◌+◌, ◌-◌, ◌*◌, ◌/◌, ◌^◌, ◌≤◌, ◌<◌, ◌≡◌, ◌≢◌, refl, sym, ap, ◌∙◌, inl, inr, some, none, List,
  [], ◌∷◌, ◌++◌, arith, length, ◌==◌, Bool-cases, if◌then◌else◌, map, ==→eq, for_each, for_each_lem,
  All,
}
use late_os.Memory.{Memory, page_size, kernbase, index4, ◌>>=◌, memset_page}
use late_os.Memory.Mapping.{fits}
use late_os.Memory.Walk.{next_page, indices, translate, Roles, Space, Fresh, Unused, addresses}
use late_os.Memory.Link.{bound-le, next_page-word, walk-agree}
use late_os.Memory.Pages.{IsKernel, IsData, Paged}
use late_os.Memory.NewPage.{get_new_page-Paged}
use late_os.Process.{Task, VmArea}
use late_os.Loader.{read_ehdr, read_elf_and_fork}
use late_os.Loader.Segment.{Holds}
use late_os.Loader.Program.{
  AllLoaded, IsProgram, header, all_frames, spans, span, load_segments-AllLoaded,
}

-- The address space whose only table is page `p`.
abbrev pub alone : ℕ → Roles
alone p q = if q == p then some [] else none

alone-ne : (p q : ℕ) → p ≢ q → alone p q ≡ none
alone-ne p q ne = ground arith

alone-Fresh :
    (role : Roles) (p : ℕ) (address : ℕ → ℕ) (free : List ℕ)
    → Fresh role address free
    → All (λ n. address n / page_size ≢ p) free
    → Fresh (alone p) address free
alone-Fresh role p address [] f a = tt
alone-Fresh role p address (n ∷ ns) (aligned, none_role, apart, rest) (ne, nes) = (
  aligned,
  alone-ne p (address n / page_size) (λ e. ne (sym e)),
  apart,
  alone-Fresh role p address ns rest nes,
)

module _ {role : Roles} {free : List ℕ} {pdpe : ℕ} {m : Memory} {top : ℕ}
    (space : Space role free top m) (k : IsKernel role free pdpe m) (p : ℕ)
    (d : IsData role free pdpe m p) where
  -- The page, cleared.
  abbrev cleared : Memory
  cleared = record m { word = for_each 512 (p * page_size / 8) (λ _. 0) m.word }

  cleared_zero : (i : ℕ) → i < 512 → cleared.word (p * 512 + i) ≡ 0
  cleared_zero i h =
      ground (arith, for_each_lem 512 (p * page_size / 8) (λ (_ : ℕ). 0) m.word (p * 512 + i))

  cleared-ne : (q i : ℕ) → q ≢ p → i < 512 → cleared.word (q * 512 + i) ≡ m.word (q * 512 + i)
  cleared-ne q i ne h =
      ground (arith, for_each_lem 512 (p * page_size / 8) (λ (_ : ℕ). 0) m.word (q * 512 + i))

  empty : (i : ℕ) → i < 512 → next_page cleared.word p i ≡ none
  unfolding next_page
  empty i h = rw (cleared_zero i h)

  pub cleared-Space : Space (alone p) free p cleared
  cleared-Space = record {
    tree = record {
      top_role = ground arith;
      linked = λ q i t path r n b e. elim (Bool-cases (q == p)) [
        | inl y ↦
            let same = ==→eq q p y in
            cc (empty i (bound-le path i b), ap (λ x. next_page cleared.word x i) same)
        | inr y ↦ cc (alone-ne p q (λ x. ground arith))
      ];
    };
    chain = space.chain;
    fresh = alone-Fresh role p (addresses m.page_list) free space.fresh d.unused.1;
  }

  -- What is not the new table is as it was.
  still_unused :
      (q : ℕ)
      → q ≢ p
      → Unused role (addresses m.page_list) free q
      → Unused (alone p) (addresses m.page_list) free q
  still_unused q ne u = (alone-ne p q (λ e. ne (sym e)), u.1)

  cleared_leaf :
      (i q : ℕ)
      → i < 512
      → next_page cleared.word pdpe i ≡ some q
      → next_page m.word pdpe i ≡ some q
  cleared_leaf i q b e =
      sym
        (next_page-word m.word cleared.word pdpe i (cleared-ne pdpe i (λ x. d.not_pdpe (sym x)) b))
      ∙ e

  cleared-IsKernel : p < 2 ^ 18 → IsKernel (alone p) free pdpe cleared
  cleared-IsKernel h = record {
    pml4_aligned = k.pml4_aligned;
    pdpte_aligned = k.pdpte_aligned;
    top_link =
        next_page-word m.word cleared.word (m.k_cr3 / page_size) 511
          (cleared-ne _ 511 (λ x. d.not_pml4 (sym x)) (omega arith))
        ∙ k.top_link;
    pdpe_link =
        next_page-word m.word cleared.word (m.k_pdpte / page_size) 510
          (cleared-ne _ 510 (λ x. d.not_pdpte (sym x)) (omega arith))
        ∙ k.pdpe_link;
    pml4_unused = still_unused _ (λ x. d.not_pml4 (sym x)) k.pml4_unused;
    pdpte_unused = still_unused _ (λ x. d.not_pdpte (sym x)) k.pdpte_unused;
    pdpe_unused = still_unused pdpe (λ x. d.not_pdpe (sym x)) k.pdpe_unused;
    not_pml4 = k.not_pml4;
    not_pdpte = k.not_pdpte;
    leaf_unused = λ i q b e.
        let e' = cleared_leaf i q b e in
        still_unused q (λ x. d.not_leaf i b (e' ∙ ap some x)) (k.leaf_unused i q b e');
    leaf_apart = λ i q b e. k.leaf_apart i q b (cleared_leaf i q b e);
    low = λ q l. still_unused q (omega arith) (k.low q l);
  }

  -- Data of the old address space is data beside the new one.
  cleared-IsData :
      (q : ℕ) → q ≢ p → IsData role free pdpe m q → IsData (alone p) free pdpe cleared q
  cleared-IsData q ne d' = record {
    unused = still_unused q ne d'.unused;
    not_pml4 = d'.not_pml4;
    not_pdpte = d'.not_pdpte;
    not_pdpe = d'.not_pdpe;
    not_leaf = λ i b e. d'.not_leaf i b (cleared_leaf i q b e);
  }

  -- A table of the old address space is data beside the new one.
  table-IsData : (q : ℕ) (path : List ℕ) → role q ≡ some path → IsData (alone p) free pdpe cleared q
  table-IsData q path r = record {
    unused = (alone-ne p q (λ e. cc (ap role e, d.unused.0)), table_taken free space.fresh);
    not_pml4 = λ e. cc (ap role e, k.pml4_unused.0);
    not_pdpte = λ e. cc (ap role e, k.pdpte_unused.0);
    not_pdpe = λ e. cc (ap role e, k.pdpe_unused.0);
    not_leaf = λ i b e. cc (r, (k.leaf_unused i q b (cleared_leaf i q b e)).0);
  }
    where
      table_taken :
          (ns : List ℕ)
          → Fresh role (addresses m.page_list) ns
          → All (λ n. addresses m.page_list n / page_size ≢ q) ns
      table_taken [] f = tt
      table_taken (n ∷ ns) (aligned, none_role, apart, rest) =
          (λ e. cc (ap role e, r), table_taken ns rest)

-- The outcome of readELFandFork: the table in `page` is the top of an address space of its own that
-- holds the segments of the program, and the address space below `top` is as it was.
pub record Started (memory : ℕ → ℕ) (file_address : ℕ) (ts : Task) (role : Roles) (free : List ℕ)
    (top pdpe : ℕ) (m : Memory) : Type 0 where
  pub page : ℕ
  pub after : Memory
  pub role' : Roles
  pub free' : List ℕ
  pub vm : List VmArea
  pub runs :
      read_elf_and_fork memory file_address ts m
      ≡ some (
        (
          kernbase + page * page_size,
          record ts {
            pml4e = page * page_size;
            regs = record ts.regs { rip = (read_ehdr memory file_address).e_entry };
            vm = vm;
          },
        ),
        after,
      )
  pub areas :
      map span vm
      ≡ spans
          (read_ehdr memory file_address).e_phnum
          memory
          (file_address + (read_ehdr memory file_address).e_phoff)
        ++ map span ts.vm
  pub holds :
      (i : ℕ)
      → i < (read_ehdr memory file_address).e_phnum
      → (header memory (file_address + (read_ehdr memory file_address).e_phoff) i).p_type ≡ 1
      → Holds memory file_address
          (header memory (file_address + (read_ehdr memory file_address).e_phoff) i)
          role'
          free'
          page
          pdpe
          after
  pub others : (u : ℕ) → index4 u < 511 → translate after.word top u ≡ translate m.word top u
  pub data_stays :
      (q : ℕ)
      → IsData role free pdpe m q
      → (j : ℕ) → j < 512
      → after.word (q * 512 + j) ≡ m.word (q * 512 + j)
  pub space : Space role' free' page after
  pub kernel : IsKernel role' free' pdpe after
  pub spent :
      length free
      ≤ length free'
        + (2
            + all_frames
                (read_ehdr memory file_address).e_phnum
                memory
                (file_address + (read_ehdr memory file_address).e_phoff))

module _ (memory : ℕ → ℕ) (file_address : ℕ) (ts : Task) (role : Roles) (free : List ℕ)
    (top pdpe : ℕ) (m : Memory) (p : Paged role free top pdpe m) where
  abbrev count : ℕ
  count = (read_ehdr memory file_address).e_phnum

  abbrev table : ℕ
  table = file_address + (read_ehdr memory file_address).e_phoff

  abbrev m₁ : Memory
  m₁ = cleared p.space p.kernel p.page p.own

  module _
      (a : AllLoaded count memory file_address table ts.vm
        (alone p.page)
        p.rest
        p.page
        pdpe
        m₁) where
    start_runs :
        read_elf_and_fork memory file_address ts m
        ≡ some (
          (
            kernbase + p.page * page_size,
            record ts {
              pml4e = p.page * page_size;
              regs = record ts.regs { rip = (read_ehdr memory file_address).e_entry };
              vm = a.vm';
            },
          ),
          a.after,
        )
    unfolding memset_page read_elf_and_fork
    start_runs =
        let back : kernbase + p.page * page_size - kernbase ≡ p.page * page_size = omega arith in
        rw (read_elf_and_fork, ◌>>=◌, p.runs, back, a.runs, back)

    old_word :
        (q i : ℕ) (path : List ℕ)
        → role q ≡ some path
        → i < 512
        → a.after.word (q * 512 + i) ≡ p.after.word (q * 512 + i)
    old_word q i path r b =
        (a.stays q (table-IsData p.space p.kernel p.page p.own q path r)).1 i b
        ∙ cleared-ne p.space p.kernel p.page p.own q i (λ e. cc (ap role e, p.own.unused.0)) b

    started : Started memory file_address ts role free top pdpe m
    started = record {
      page = p.page;
      after = a.after;
      role' = a.role';
      free' = a.free';
      vm = a.vm';
      runs = start_runs;
      areas = a.areas;
      holds = a.holds;
      others = λ u h.
          walk-agree p.space.tree a.after.word
            (λ q i path r b.
              next_page-word p.after.word a.after.word q i
                (old_word q i path r (bound-le path i b)))
            top [] (indices u) (λ _. p.space.tree.top_role) refl (fits u h)
          ∙ p.walks u h;
      data_stays = λ q d j h.
          let (d', w') = p.stays q d in
          let ne : q ≢ p.page = (λ e. p.was_free q d.unused (sym e)) in
          (a.stays q (cleared-IsData p.space p.kernel p.page p.own q ne d')).1 j h
          ∙ cleared-ne p.space p.kernel p.page p.own q j ne h
          ∙ w' j h;
      space = a.space;
      kernel = a.kernel;
      spent = let x = p.spent in let y = a.spent in omega arith;
    }

-- readELFandFork, for a program whose loadable segments lie below the kernel's half and share no
-- page, and with enough frames, gives the task a new address space. There, byte `i` of each segment
-- is byte `i` behind the place `file_address` + 64 * `p_offset` of the archive, or 0 where `i` is
-- `p_filesz` or more: the code takes 64 times the offset, so these are the file's bytes of the segment
-- where the offset is 0. The areas of the task are those of the segments, and it starts at the entry. The address space that was
-- in use translates as before, and pages of data keep their words.
pub read_elf_and_fork-Started :
    (memory : ℕ → ℕ) (file_address : ℕ) (ts : Task) (role : Roles) (free : List ℕ) (top pdpe : ℕ)
    (m : Memory)
    → Space role free top m
    → IsKernel role free pdpe m
    → IsProgram
        (read_ehdr memory file_address).e_phnum
        memory
        (file_address + (read_ehdr memory file_address).e_phoff)
    → 2
        + all_frames
            (read_ehdr memory file_address).e_phnum
            memory
            (file_address + (read_ehdr memory file_address).e_phoff)
      ≤ length free
    → Started memory file_address ts role free top pdpe m
read_elf_and_fork-Started memory file_address ts role free top pdpe m space kernel program enough =
    let p = get_new_page-Paged kernel space (omega arith) in
    let left = p.spent in
    started memory file_address ts role free top pdpe m p (
      load_segments-AllLoaded memory file_address
        (file_address + (read_ehdr memory file_address).e_phoff) p.page pdpe
        (read_ehdr memory file_address).e_phnum ts.vm (alone p.page) p.rest
        (cleared p.space p.kernel p.page p.own) program (omega arith)
        (cleared-Space p.space p.kernel p.page p.own)
        (cleared-IsKernel p.space p.kernel p.page p.own p.in_range))
