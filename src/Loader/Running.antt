-- ===== src/Loader/Running.antt =====
-- The first program as it is entered (createNewTask in sys/process.c).
use late_os.Common.{
  ℕ, ◌+◌, ◌-◌, ◌*◌, ◌/◌, ◌≤◌, ◌<◌, ◌≡◌, ◌≢◌, refl, sym, ap, ◌∙◌, some, List, [], ◌∷◌, ◌++◌, arith,
  length, map,
}
use late_os.Memory.{Memory, page_size, kernbase, frame, slot, ◌>>=◌}
use late_os.Memory.Fill.{translate-frame}
use late_os.Memory.Walk.{translate, Roles, Space}
use late_os.Memory.Pages.{IsKernel, IsData-kept, Paged, taken-IsKernel, taken-keeps}
use late_os.Memory.NewPage.{get_new_page-Paged}
use late_os.Memory.Take.{Taken, get_free_frame-Taken}
use late_os.Memory.Mapping.{Mapped, init_task_pagetables-Mapped}
use late_os.Process.{Task, VmArea}
use late_os.Process.Create.{stack_s}
use late_os.Loader.{read_ehdr}
use late_os.Loader.Bytes.{Mapping}
use late_os.Loader.Segment.{Holds}
use late_os.Loader.Program.{IsProgram, header, all_frames, span, spans, Holds-stays}
use late_os.Loader.NewTask.{Started, read_elf_and_fork-Started}
use late_os.Loader.Stack.{string_at, start}
use late_os.Loader.FirstTask.{Nameless, set_task_rsp-Nameless}
use late_os.Loader.Exec.{new_space}
use late_os.Loader.Created.{
  set_my_vma-runs, Mapped-IsKernel, Mapped-IsData, Step, Step-then, Paged-Step,
}

abbrev table_of : (ℕ → ℕ) → (file_address : ℕ) → ℕ
table_of memory file_address = file_address + (read_ehdr memory file_address).e_phoff

-- A program that can be entered: its segments are in place, and on its stack it finds one argument,
-- which is empty.
pub record Running (memory : ℕ → ℕ) (file_address : ℕ) (filename : List ℕ) (ts : Task) (pdpe : ℕ)
    (m : Memory) : Type 0 where
  pub page : ℕ
  pub after : Memory
  pub role' : Roles
  pub free' : List ℕ
  pub ts' : Task
  pub rsp : ℕ
  pub at : ℕ
  pub runs : new_space memory file_address filename ts m ≡ some ((rsp, ts'), after)
  pub rip : ts'.regs.rip ≡ (read_ehdr memory file_address).e_entry
  pub pml4e : ts'.pml4e ≡ page * page_size
  pub areas :
      map span ts'.vm
      ≡ (stack_s, 0x100FFEFF0000)
        ∷ (0x4B0FFFFF0000, 0x4B0FFFFF0000)
        ∷ (spans (read_ehdr memory file_address).e_phnum memory (table_of memory file_address)
            ++ map span ts.vm)
  pub holds :
      (i : ℕ)
      → i < (read_ehdr memory file_address).e_phnum
      → (header memory (table_of memory file_address) i).p_type ≡ 1
      → Holds memory file_address
          (header memory (table_of memory file_address) i)
          role'
          free'
          page
          pdpe
          after
  pub found : start 1 after.word page (rsp - 8) ≡ some (1, at ∷ [], [])
  pub argument : string_at 100 after.word page at ≡ some []

module _ (memory : ℕ → ℕ) (file_address : ℕ) (filename : List ℕ) (ts : Task) (role : Roles)
    (free : List ℕ) (top pdpe : ℕ) (m : Memory)
    (s : Started memory file_address ts role free top pdpe m)
    (p₁ : Paged s.role' s.free' s.page pdpe s.after) (t : Taken s.role' p₁.rest s.page p₁.after)
    (mp : Mapped s.role' t.rest s.page stack_s (t.page * page_size) t.after)
    (p₂ : Paged mp.role' mp.free' s.page pdpe mp.after) where
  abbrev first : ℕ
  first = stack_s / page_size

  stack : Mapping mp.role' p₂.rest s.page first 1 (λ _. t.page) p₂.after
  stack = record {
    space = p₂.space;
    below = omega arith;
    maps = λ u l h.
        let e : frame u ≡ stack_s = omega arith in
        let e' : t.page * page_size / page_size ≡ t.page = omega arith in
        p₂.walks u (omega arith)
        ∙ sym (translate-frame mp.after.word s.page u)
        ∙ ap (translate mp.after.word s.page) e
        ∙ mp.maps
        ∙ ap some e';
    no_table = λ j l h. (mp.stays t.page t.unused).0.0;
    apart = λ i j l h b e. absurd (omega arith);
  }

  module _
      (n : Nameless mp.role' p₂.rest s.page first 1
        (λ _. t.page)
        p₂.after
        (stack_s + 510 * 8)
        filename) where
    abbrev final : Memory
    final = record p₂.after { word = n.word' }

    outside : (q j : ℕ) → t.page ≢ q → j < 512 → n.word' (q * 512 + j) ≡ p₂.after.word (q * 512 + j)
    outside q j ne h = n.words (q * 512 + j) (λ i l b e. ne (omega arith))

    last-Step : Step s.role' mp.role' p₁.rest p₂.rest s.page pdpe p₁.after final
    last-Step = record {
      walks = λ u h.
          n.translates u (omega arith)
          ∙ p₂.walks u (omega arith)
          ∙ mp.others u (omega arith) (λ e. omega arith)
          ∙ ap (λ w. translate w s.page u) t.words;
      stays = λ q d.
          let k = taken-IsKernel p₁.kernel t in
          let d' = taken-keeps p₁.kernel t q d in
          let (d'', w'') = p₂.stays q (Mapped-IsData mp k q d') in
          let ne = t.was_free q d.unused in
          (
            IsData-kept mp.role' mp.role' p₂.rest p₂.rest pdpe p₂.after final refl refl (λ q u. u)
                (λ j h. outside pdpe j (t.was_free pdpe p₁.kernel.pdpe_unused) h) q d'',
            λ j h.
                outside q j ne h
                ∙ w'' j h
                ∙ (mp.stays q d'.unused).1 j h
                ∙ ap (λ w. w (q * 512 + j)) t.words,
          );
    }

    all-Step : Step s.role' mp.role' s.free' p₂.rest s.page pdpe s.after final
    all-Step = Step-then (Paged-Step p₁) last-Step

    abbrev heap_area : VmArea
    heap_area = record {
      begin_address = 0x4B0FFFFF0000;
      last_address = 0x4B0FFFFF0000;
      offset = p₁.after.word (slot (kernbase + p₁.page * page_size - kernbase) 2);
    }

    abbrev stack_area : VmArea
    stack_area = record {
      begin_address = stack_s;
      last_address = 0x100FFEFF0000;
      offset = p₂.after.word (slot (kernbase + p₂.page * page_size - kernbase) 2);
    }

    abbrev loaded : Task
    loaded = record ts {
      pml4e = s.page * page_size;
      regs = record ts.regs { rip = (read_ehdr memory file_address).e_entry };
      vm = s.vm;
    }

    abbrev entered : Task
    entered = record loaded { ustack = stack_s; vm = stack_area ∷ heap_area ∷ s.vm; rsp = n.entry }

    space_runs : new_space memory file_address filename ts m ≡ some ((n.entry, entered), final)
    unfolding new_space
    space_runs = rw (
      new_space,
      ◌>>=◌,
      s.runs,
      set_my_vma-runs 0x4B0FFFFF0000 0x4B0FFFFF0000 s.vm p₁,
      t.runs,
      mp.runs,
      set_my_vma-runs stack_s 0x100FFEFF0000 (heap_area ∷ s.vm) p₂,
      n.runs,
    )

    running :
        ((i : ℕ)
          → i < (read_ehdr memory file_address).e_phnum
          → (header memory (table_of memory file_address) i).p_type ≡ 1
          → (header memory (table_of memory file_address) i).p_vaddr
              + (header memory (table_of memory file_address) i).p_memsz
            ≤ stack_s)
        → Running memory file_address filename ts pdpe m
    running below = record {
      page = s.page;
      after = final;
      role' = mp.role';
      free' = p₂.rest;
      ts' = entered;
      rsp = n.entry;
      at = n.at;
      runs = space_runs;
      rip = refl;
      pml4e = refl;
      areas = ap (λ l. (stack_s, 0x100FFEFF0000) ∷ (0x4B0FFFFF0000, 0x4B0FFFFF0000) ∷ l) s.areas;
      holds = λ i b k.
          Holds-stays memory file_address (header memory (table_of memory file_address) i) s.page
            (s.holds i b k) (λ u l h. all-Step.walks u (let x = below i b k in omega arith))
            all-Step.stays;
      found = n.found;
      argument = n.argument;
    }

-- createNewTask's address space, for a program whose loadable segments lie below the stack and share no
-- page, with enough frames and a name of at most 504 characters: the code runs to its jump into the
-- program. There, byte `i` of each segment is byte `i` behind the place `file_address` + 64 * `p_offset`
-- of the archive, or 0 where `i` is `p_filesz` or more: the code takes 64 times the offset, so these are the
-- file's bytes of the segment where the offset is 0. The areas are the stack, the heap and the segments,
-- and the program starts at its entry with one argument, the empty string.
pub new_space-Running :
    (memory : ℕ → ℕ) (file_address : ℕ) (filename : List ℕ) (ts : Task) (role : Roles)
    (free : List ℕ) (top pdpe : ℕ) (m : Memory)
    → Space role free top m
    → IsKernel role free pdpe m
    → IsProgram (read_ehdr memory file_address).e_phnum memory (table_of memory file_address)
    → ((i : ℕ)
        → i < (read_ehdr memory file_address).e_phnum
        → (header memory (table_of memory file_address) i).p_type ≡ 1
        → (header memory (table_of memory file_address) i).p_vaddr
            + (header memory (table_of memory file_address) i).p_memsz
          ≤ stack_s)
    → 10 + all_frames (read_ehdr memory file_address).e_phnum memory (table_of memory file_address)
      ≤ length free
    → length filename ≤ 504
    → Running memory file_address filename ts pdpe m
new_space-Running memory file_address filename ts role free top pdpe m space kernel program below
      enough short =
    let s =
      read_elf_and_fork-Started memory file_address ts role free top pdpe m space kernel program
        (omega arith) in
    let left₀ = s.spent in
    let p₁ = get_new_page-Paged s.kernel s.space (omega arith) in
    let left₁ = p₁.spent in
    let t = get_free_frame-Taken s.role' p₁.rest s.page p₁.after p₁.space (omega arith) in
    let left₂ = t.left in
    let mp =
      init_task_pagetables-Mapped s.role' t.rest s.page t.after stack_s (t.page * page_size) t.space
        (omega arith) (omega arith) in
    let left₃ = mp.spent in
    let p₂ =
      get_new_page-Paged (Mapped-IsKernel mp (taken-IsKernel p₁.kernel t)) mp.space (omega arith) in
    running memory file_address filename ts role free top pdpe m s p₁ t mp p₂
      (set_task_rsp-Nameless
        (stack memory file_address filename ts role free top pdpe m s p₁ t mp p₂)
        (stack_s + 510 * 8) filename (omega arith) (omega arith))
      below
