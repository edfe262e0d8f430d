-- ===== src/Loader/Segment.antt =====
-- A segment that is loaded (readELFandFork and readELFandExec in sys/process.c).
use late_os.Common.{
  ℕ, ◌+◌, ◌-◌, ◌*◌, ◌/◌, ◌%◌, ◌^◌, ◌≤◌, ◌<◌, ◌≡◌, ◌≢◌, refl, ◌∙◌, inl, inr, ◌⊎◌, some, List, ◌∷◌,
  arith, length, ltb, ◌==◌, if◌then◌else◌, true, false,
}
use late_os.Memory.{Memory, page_size, kernbase, index4, slot, ◌>>=◌, ◌>>◌}
use late_os.Memory.Walk.{translate, Roles, Space, Unused, addresses}
use late_os.Memory.Pages.{IsKernel, IsData, IsKernel-kept, IsData-kept, Paged}
use late_os.Memory.NewPage.{get_new_page-Paged, kmalloc-get_new_page}
use late_os.Process.{VmArea}
use late_os.Process.Create.{vma_size}
use late_os.Process.Heap.{Grown, grow-Grown}
use late_os.Loader.{Phdr, byte_at, load_segment, load_area, fill_segment, memcpy, memset, source_of}
use late_os.Loader.Bytes.{Mapping, Stored}
use late_os.Loader.Runs.{Stored-both, memcpy-Stored, memset-Stored}
use late_os.Loader.Areas.{
  pages, setup_vma-map_pages, setup_vma-end, Grown-Mapping, Grown-IsKernel, Grown-keeps,
  Grown-IsData,
}

-- The byte that a segment has at the address `u`: of the archive, at 64 times the segment's offset from the
-- start of the file, or 0 behind what the file gives.
unfoldable pub content : (ℕ → ℕ) → (file_address : ℕ) → Phdr → ℕ → ℕ
content memory file_address ep u =
    if ltb u (ep.p_vaddr + ep.p_filesz)
    then memory ((file_address + 64 * ep.p_offset) % 2 ^ 64 + (u - ep.p_vaddr))
    else 0

-- A segment that can be loaded: it lies below the kernel's half, and its file is no longer than itself
-- and fits an `int`.
pub record Loadable (ep : Phdr) : Type 0 where
  pub file : ep.p_filesz ≤ ep.p_memsz
  pub small : ep.p_filesz < 2 ^ 31
  pub below : ep.p_vaddr + ep.p_memsz + 2 * page_size ≤ 511 * 2 ^ 39

-- Each byte of the segment stands in a page of data and is what it should be.
abbrev pub Holds :
    (ℕ → ℕ) → (file_address : ℕ) → Phdr → Roles → List ℕ → (top pdpe : ℕ) → Memory → Type 0
Holds memory file_address ep role free top pdpe m =
    (u : ℕ)
    → ep.p_vaddr ≤ u
    → u < ep.p_vaddr + ep.p_memsz
    → (q : ℕ) × (translate m.word top u ≡ some q)
      × IsData role free pdpe m q
      × (byte_at m.word top u ≡ some (content memory file_address ep u % 256))

-- The outcome of loading a segment.
pub record Loaded (memory : ℕ → ℕ) (file_address : ℕ) (ep : Phdr) (vm : List VmArea) (role : Roles)
    (free : List ℕ) (top pdpe : ℕ) (m : Memory) : Type 0 where
  pub after : Memory
  pub role' : Roles
  pub free' : List ℕ
  pub offset : ℕ
  pub runs :
      load_segment memory file_address (top * page_size) ep vm m
      ≡ some (
        record {
          begin_address = ep.p_vaddr;
          last_address = ep.p_vaddr + ep.p_memsz;
          offset = offset;
        }
            ∷ vm,
        after,
      )
  pub holds : Holds memory file_address ep role' free' top pdpe after
  pub others :
      (u : ℕ)
      → index4 u < 511
      → u < 2 ^ 48
      → (u / page_size < ep.p_vaddr / page_size)
        ⊎ (ep.p_vaddr / page_size + pages ep.p_vaddr ep.p_memsz ≤ u / page_size)
      → translate after.word top u ≡ translate m.word top u
  pub stays :
      (q : ℕ)
      → IsData role free pdpe m q
      → IsData role' free' pdpe after q
        × ((j : ℕ) → j < 512 → after.word (q * 512 + j) ≡ m.word (q * 512 + j))
  pub space : Space role' free' top after
  pub kernel : IsKernel role' free' pdpe after
  pub spent : length free ≤ length free' + (2 + 4 * pages ep.p_vaddr ep.p_memsz)

module _ (memory : ℕ → ℕ) (file_address : ℕ) (ep : Phdr) (vm : List VmArea) (role : Roles)
    (free : List ℕ) (top pdpe : ℕ) (m : Memory) (ok : Loadable ep) (kind : ep.p_type ≡ 1) where
  abbrev first : ℕ
  first = ep.p_vaddr / page_size

  abbrev count : ℕ
  count = pages ep.p_vaddr ep.p_memsz

  module _ (p : Paged role free top pdpe m)
      (g : Grown count role p.rest top (first * page_size) p.after) where
    abbrev region : Mapping g.role' g.free' top first count (λ j. g.page (j - first)) g.after
    region = Grown-Mapping first g (let b = ok.below in omega arith)

    abbrev source : ℕ
    source = source_of file_address ep

    from_file :
        (i : ℕ)
        → i < ep.p_filesz
        → content memory file_address ep (ep.p_vaddr + i) ≡ memory (source + i)
    unfolding content
    from_file i h =
        let inside : ltb (ep.p_vaddr + i) (ep.p_vaddr + ep.p_filesz) ≡ true = ground arith in
        let offset : ep.p_vaddr + i - ep.p_vaddr ≡ i = omega arith in rw (inside, offset)

    behind_file : (i : ℕ) → content memory file_address ep (ep.p_vaddr + ep.p_filesz + i) ≡ 0
    unfolding content
    behind_file i =
        let behind : ltb (ep.p_vaddr + ep.p_filesz + i) (ep.p_vaddr + ep.p_filesz) ≡ false =
          ground arith in
        rw behind

    abbrev copied :
        Stored g.role' g.free' top first count
          (λ j. g.page (j - first))
          g.after
          ep.p_filesz
          ep.p_vaddr
          (content memory file_address ep)
          (memcpy memory (top * page_size) ep.p_vaddr source ep.p_filesz)
    copied =
        memcpy-Stored ep.p_filesz region memory ep.p_vaddr source (content memory file_address ep)
          from_file (let a = ok.file in (omega arith, omega arith))

    abbrev cleared :
        Stored g.role' g.free' top first count
          (λ j. g.page (j - first))
          (record g.after { word = copied.word' })
          (ep.p_memsz - ep.p_filesz)
          (ep.p_vaddr + ep.p_filesz)
          (content memory file_address ep)
          (memset (ep.p_memsz - ep.p_filesz) (top * page_size) (ep.p_vaddr + ep.p_filesz) 0)
    cleared =
        memset-Stored (ep.p_memsz - ep.p_filesz) copied.region (ep.p_vaddr + ep.p_filesz) 0
          (content memory file_address ep) (λ i h. behind_file i)
          (let a = ok.file in (omega arith, omega arith))

    filled :
        Stored g.role' g.free' top first count
          (λ j. g.page (j - first))
          g.after
          ep.p_memsz
          ep.p_vaddr
          (content memory file_address ep)
          (memcpy memory (top * page_size) ep.p_vaddr source ep.p_filesz
            >> memset (ep.p_memsz - ep.p_filesz) (top * page_size) (ep.p_vaddr + ep.p_filesz) 0)
    filled =
        Stored-both copied cleared ep.p_memsz ep.p_vaddr (inl (refl, refl))
          (let a = ok.file in omega arith) (let a = ok.file in (omega arith, omega arith))

    module _
        (s : Stored g.role' g.free' top first count
          (λ j. g.page (j - first))
          g.after
          ep.p_memsz
          ep.p_vaddr
          (content memory file_address ep)
          (memcpy memory (top * page_size) ep.p_vaddr source ep.p_filesz
            >> memset
                (ep.p_memsz - ep.p_filesz)
                (top * page_size)
                (ep.p_vaddr + ep.p_filesz)
                0)) where
      abbrev after : Memory
      after = record g.after { word = s.word' }

      fill_runs : fill_segment memory file_address (top * page_size) ep g.after ≡ some (tt, after)
      unfolding fill_segment
      fill_runs =
          let size : ep.p_filesz % 2 ^ 32 ≡ ep.p_filesz = (let b = ok.small in omega arith) in
          let rest : (ep.p_memsz + 2 ^ 64 - ep.p_filesz) % 2 ^ 64 ≡ ep.p_memsz - ep.p_filesz =
            (let a = ok.file in let b = ok.below in omega arith) in
          let behind : (ep.p_vaddr + ep.p_filesz) % 2 ^ 64 ≡ ep.p_vaddr + ep.p_filesz =
            (let a = ok.file in let b = ok.below in omega arith) in
          rw (size, rest, behind) s.runs

      -- Pages of data that are not the segment's keep their words.
      keep_words :
          (q : ℕ)
          → ((i : ℕ) → i < count → g.page i ≢ q)
          → (j : ℕ) → j < 512
          → s.word' (q * 512 + j) ≡ g.after.word (q * 512 + j)
      keep_words q ne j h =
          s.words (q * 512 + j) λ i l b e. ne (i - first) (omega arith) (omega arith)

      module _ (k : IsKernel role p.rest pdpe p.after) where
        keep_upper :
            (q : ℕ)
            → Unused role (addresses p.after.page_list) p.rest q
            → (j : ℕ) → j < 512
            → s.word' (q * 512 + j) ≡ g.after.word (q * 512 + j)
        keep_upper q u = keep_words q (λ i b. g.new i q b u)

        after-IsKernel : IsKernel g.role' g.free' pdpe after
        after-IsKernel =
            IsKernel-kept g.role' g.role' g.free' g.free' pdpe g.after after refl refl (λ q u. u)
              (keep_upper pdpe k.pdpe_unused) (Grown-IsKernel g k)
              (rw (g.kernel.0) (keep_upper _ k.pml4_unused 511 (omega arith)))
              (rw (g.kernel.1) (keep_upper _ k.pdpte_unused 510 (omega arith)))

        after-IsData :
            (q : ℕ) → IsData g.role' g.free' pdpe g.after q → IsData g.role' g.free' pdpe after q
        after-IsData =
            IsData-kept g.role' g.role' g.free' g.free' pdpe g.after after refl refl (λ q u. u)
              (keep_upper pdpe k.pdpe_unused)

        after-Holds : Holds memory file_address ep g.role' g.free' top pdpe after
        after-Holds u l h = (
          g.page (u / page_size - first),
          s.region.maps u (omega arith) (omega arith),
          after-IsData _ (Grown-IsData g k (u / page_size - first) (omega arith)),
          s.inside u l h,
        )

        after-stays :
            (q : ℕ)
            → IsData role free pdpe m q
            → IsData g.role' g.free' pdpe after q
              × ((j : ℕ) → j < 512 → s.word' (q * 512 + j) ≡ m.word (q * 512 + j))
        after-stays q d =
            let (d', w') = p.stays q d in
            (
              after-IsData q (Grown-keeps g k q d'),
              λ j h. keep_upper q d'.unused j h ∙ (g.stays q d'.unused).1 j h ∙ w' j h,
            )

        after-others :
            (u : ℕ)
            → index4 u < 511
            → u < 2 ^ 48
            → (u / page_size < first) ⊎ (first + count ≤ u / page_size)
            → translate s.word' top u ≡ translate m.word top u
        after-others u h b o =
            s.translates u h
            ∙ g.others u h (elim o [ inl x ↦ inl (omega arith) | inr x ↦ inr (omega arith) ]) b
            ∙ p.walks u h

        area_runs :
            load_area memory file_address (top * page_size) ep vm m
            ≡ some (
              record {
                begin_address = ep.p_vaddr;
                last_address = ep.p_vaddr + ep.p_memsz;
                offset = p.after.word (slot (kernbase + p.page * page_size - kernbase) 2);
              }
                  ∷ vm,
              after,
            )
        unfolding load_area
        area_runs =
            let got = kmalloc-get_new_page vma_size m (omega arith) ∙ p.runs in
            let maps =
              setup_vma-map_pages ep.p_vaddr ep.p_memsz (top * page_size)
                (let b = ok.below in omega arith) in
            let last = setup_vma-end ep.p_vaddr ep.p_memsz (let b = ok.below in omega arith) in
            rw (load_area, ◌>>=◌, got, maps, g.runs, fill_runs, last)

        segment_runs :
            load_segment memory file_address (top * page_size) ep vm m
            ≡ load_area memory file_address (top * page_size) ep vm m
        unfolding load_segment
        segment_runs = let is_load : (ep.p_type == 1) ≡ true = ground arith in rw is_load

        loaded : Loaded memory file_address ep vm role free top pdpe m
        loaded = record {
          after = after;
          role' = g.role';
          free' = g.free';
          offset = p.after.word (slot (kernbase + p.page * page_size - kernbase) 2);
          runs = segment_runs ∙ area_runs;
          holds = after-Holds;
          others = after-others;
          stays = after-stays;
          space = s.region.space;
          kernel = after-IsKernel;
          spent = let a = p.spent in let b = g.spent in omega arith;
        }

-- readELFandFork's and readELFandExec's loop body.
pub load_segment-Loaded :
    (memory : ℕ → ℕ) (file_address : ℕ) (ep : Phdr) (vm : List VmArea) (role : Roles)
    (free : List ℕ) (top pdpe : ℕ) (m : Memory)
    → Loadable ep
    → ep.p_type ≡ 1
    → 2 + 4 * pages ep.p_vaddr ep.p_memsz ≤ length free
    → Space role free top m
    → IsKernel role free pdpe m
    → Loaded memory file_address ep vm role free top pdpe m
load_segment-Loaded memory file_address ep vm role free top pdpe m ok kind enough space kernel =
    let below = ok.below in
    let p = get_new_page-Paged kernel space (omega arith) in
    let left = p.spent in
    let g =
      grow-Grown (pages ep.p_vaddr ep.p_memsz) role p.rest top (ep.p_vaddr / page_size * page_size)
        p.after p.space (omega arith) (omega arith) in
    loaded memory file_address ep vm role free top pdpe m ok kind p g
      (filled memory file_address ep vm role free top pdpe m ok kind p g) p.kernel
