-- ===== src/Memory/Tests.antt =====
-- An empty address space whose top table is in page 1, and three free frames.
use late_os.Common.{ℕ, ◌+◌, ◌*◌, ◌≡◌, refl, arith, none, some, List, [], ◌∷◌, ◌==◌, if◌then◌else◌}
use late_os.Memory.{Memory, FreeFrame}
use late_os.Memory.Cow.{dealloc_task}
use late_os.Memory.Tables.{init_task_pagetables}
use late_os.Memory.Free.{Region, FreeList, initialize_freelist}
use late_os.Memory.Rising.{Listed, Builds}
use late_os.Memory.Boot.{usable_all, initialize_freelist-Listed}
use late_os.Memory.Walk.{next_page, Roles, IsTree, Space}
use late_os.Memory.Map.{map_by_levels, init_task_pagetables-by_levels}
use late_os.Memory.Mapping.{Mapped, init_task_pagetables-Mapped}
use late_os.Memory.Release.{Keeps, dealloc_task-Keeps}

abbrev frames : ℕ → FreeFrame
frames i = record { address = i * 4096; ref_count = 0; next = some (i + 1) }

abbrev blank : Memory
blank = record { word = λ i. 0; page_list = frames; head = some 2; k_cr3 = 0; k_pdpte = 0 }

abbrev only_top : Roles
only_top p = if p == 1 then some [] else none

abbrev three : List ℕ
three = 2 ∷ 3 ∷ 4 ∷ []

blank-IsTree : IsTree only_top (λ i. 0) 1
unfolding next_page
blank-IsTree = record { top_role = refl; linked = λ p i q path r l b e. cc }

blank-Space : Space only_top three 1 blank
blank-Space = record {
  tree = blank-IsTree;
  chain = (refl, (refl, (refl, tt)));
  fresh = (
    refl,
    refl,
    (λ e. absurd (omega arith), (λ e. absurd (omega arith), tt)),
    (refl, refl, (λ e. absurd (omega arith), tt), (refl, refl, tt, tt)),
  );
}

blank_by_levels :
    init_task_pagetables 0x400000 0x9000 4096 blank ≡ map_by_levels 0x400000 0x9000 4096 blank
blank_by_levels = init_task_pagetables-by_levels 0x400000 0x9000 4096 blank

init_task_pagetables-Mapped_example : Mapped only_top three 1 0x400000 0x9000 blank
init_task_pagetables-Mapped_example =
    init_task_pagetables-Mapped only_top three 1 blank 0x400000 0x9000 blank-Space (omega arith)
      (omega arith)

-- The top table's entry 0 is present, and refers to page 5.
abbrev one_table : Memory
one_table = record blank { word = λ i. if i == 512 then 5 * 4096 + 7 else 0 }

kept_list : Keeps (dealloc_task 4096) one_table
kept_list = dealloc_task-Keeps 4096 one_table

abbrev low_region : Region
low_region = record { base = 0; length = 0x9000; kind = 1 }

abbrev high_region : Region
high_region = record { base = 0x100000; length = 0x4000; kind = 1 }

abbrev nothing : FreeList
nothing = record { page_list = frames; head = none; last = 0 }

initialize_freelist-Listed_example :
    (top : ℕ) × Builds top
      (initialize_freelist 0x2000 (low_region ∷ high_region ∷ []) nothing)
      (usable_all 0x2000 (low_region ∷ high_region ∷ []))
initialize_freelist-Listed_example =
    initialize_freelist-Listed 0x2000 0 (low_region ∷ high_region ∷ []) nothing []
      (Listed.empty refl)
      (refl, omega arith, (λ e. omega arith), (refl, omega arith, (λ e. omega arith), tt))
