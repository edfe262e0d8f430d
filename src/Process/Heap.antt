-- ===== src/Process/Heap.antt =====
-- The heap that malloc grows (sys/process.c).
use late_os.Common.{
  ℕ, zero, suc, ◌+◌, ◌*◌, ◌/◌, ◌%◌, ◌^◌, ◌≤◌, ◌<◌, ◌≡◌, ◌≢◌, refl, ap, ◌∙◌, inl, inr, ◌⊎◌, some,
  List, ◌∷◌, arith, length, update,
}
use late_os.Memory.{Memory, page_size, index4, ◌>>=◌}
use late_os.Memory.Walk.{translate, Roles, Space, Unused, addresses}
use late_os.Memory.Take.{Taken, get_free_frame-Taken}
use late_os.Memory.Mapping.{Mapped, init_task_pagetables-Mapped}
use late_os.Process.{VmArea, Kernel}
use late_os.Process.Areas.{grow, malloc}

-- `n` pages from `last` on are mapped, page i of them to the frame `page i`.
pub record Grown (n : ℕ) (role : Roles) (free : List ℕ) (top last : ℕ) (m : Memory) : Type 0 where
  pub after : Memory
  pub role' : Roles
  pub free' : List ℕ
  pub page : ℕ → ℕ
  pub runs : grow n last (top * page_size) m ≡ some (last + n * page_size, after)
  pub maps : (i : ℕ) → i < n → translate after.word top (last + i * page_size) ≡ some (page i)
  pub own : (i : ℕ) → i < n → Unused role' (addresses after.page_list) free' (page i)
  pub new : (i q : ℕ) → i < n → Unused role (addresses m.page_list) free q → page i ≢ q
  pub apart : (i j : ℕ) → i < j → j < n → page j ≢ page i
  pub others :
      (u : ℕ)
      → index4 u < 511
      → (u / page_size < last / page_size) ⊎ (last / page_size + n ≤ u / page_size)
      → u < 2 ^ 48
      → translate after.word top u ≡ translate m.word top u
  pub space : Space role' free' top after
  pub stays :
      (q : ℕ)
      → Unused role (addresses m.page_list) free q
      → Unused role' (addresses after.page_list) free' q
        × ((j : ℕ) → j < 512 → after.word (q * 512 + j) ≡ m.word (q * 512 + j))
  pub kernel : (after.k_cr3 ≡ m.k_cr3) × (after.k_pdpte ≡ m.k_pdpte)
  pub spent : length free ≤ length free' + 4 * n

grow-zero :
    (role : Roles) (free : List ℕ) (top last : ℕ) (m : Memory)
    → Space role free top m
    → Grown zero role free top last m
unfolding grow
grow-zero role free top last m space = record {
  after = m;
  role' = role;
  free' = free;
  page = λ i. 0;
  runs = ap (λ l. some (l, m)) (omega arith);
  maps = λ i b. absurd (omega arith);
  own = λ i b. absurd (omega arith);
  new = λ i q b u. absurd (omega arith);
  apart = λ i j l b. absurd (omega arith);
  others = λ u h o b. refl;
  space = space;
  stays = λ q u. (u, λ j h. refl);
  kernel = (refl, refl);
  spent = omega arith;
}

-- The frame of page 0, and of the pages behind it.
abbrev behind : ℕ → (ℕ → ℕ) → ℕ → ℕ
behind first page zero = first
behind first page (suc i) = page i

module _ (n : ℕ) (role : Roles) (free : List ℕ) (top last : ℕ) (m : Memory)
    (below : last + suc n * page_size ≤ 511 * 2 ^ 39) (t : Taken role free top m)
    (p : Mapped role t.rest top last (t.page * page_size) t.after)
    (g : Grown n p.role' p.free' top (last + page_size) p.after) where
  abbrev page : ℕ → ℕ
  page = behind t.page g.page

  first-Unused : Unused p.role' (addresses p.after.page_list) p.free' t.page
  first-Unused = (p.stays t.page t.unused).0

  grow-runs : grow (suc n) last (top * page_size) m ≡ some (last + suc n * page_size, g.after)
  unfolding grow
  grow-runs =
      let next : (last + page_size) % 2 ^ 64 ≡ last + page_size = omega arith in
      let end : last + page_size + n * page_size ≡ last + suc n * page_size = omega arith in
      rw (t.runs, p.runs, next, g.runs, ◌>>=◌) (ap (λ l. some (l, g.after)) end)

  grow-maps :
      (i : ℕ) → i < suc n → translate g.after.word top (last + i * page_size) ≡ some (page i)
  grow-maps zero b =
      let here : last + 0 * page_size ≡ last = omega arith in
      let frame : t.page * page_size / page_size ≡ t.page = omega arith in
      rw here
        (g.others last (omega arith) (inl (omega arith)) (omega arith) ∙ p.maps ∙ ap some frame)
  grow-maps (suc i) b =
      let there : last + suc i * page_size ≡ last + page_size + i * page_size = omega arith in
      rw there (g.maps i (omega arith))

  grow-own : (i : ℕ) → i < suc n → Unused g.role' (addresses g.after.page_list) g.free' (page i)
  grow-own zero b = (g.stays t.page first-Unused).0
  grow-own (suc i) b = g.own i (omega arith)

  grow-new : (i q : ℕ) → i < suc n → Unused role (addresses m.page_list) free q → page i ≢ q
  grow-new zero q b u = t.was_free q u
  grow-new (suc i) q b u = g.new i q (omega arith) (p.stays q (t.stays q u)).0

  grow-apart : (i j : ℕ) → i < j → j < suc n → page j ≢ page i
  grow-apart i zero l b = absurd (omega arith)
  grow-apart zero (suc j) l b = g.new j t.page (omega arith) first-Unused
  grow-apart (suc i) (suc j) l b = g.apart i j (omega arith) (omega arith)

  grow-stays :
      (q : ℕ)
      → Unused role (addresses m.page_list) free q
      → Unused g.role' (addresses g.after.page_list) g.free' q
        × ((j : ℕ) → j < 512 → g.after.word (q * 512 + j) ≡ m.word (q * 512 + j))
  grow-stays q u =
      let (u', w') = p.stays q (t.stays q u) in
      let (u'', w'') = g.stays q u' in
      (u'', λ j h. w'' j h ∙ w' j h ∙ ap (λ w. w (q * 512 + j)) t.words)

  grow-others :
      (u : ℕ)
      → index4 u < 511
      → (u / page_size < last / page_size) ⊎ (last / page_size + suc n ≤ u / page_size)
      → u < 2 ^ 48
      → translate g.after.word top u ≡ translate m.word top u
  grow-others u h o b =
      let apart : u / page_size % 2 ^ 36 ≢ last / page_size % 2 ^ 36 = elim o [
        | inl x ↦ λ e. absurd (omega arith)
        | inr x ↦ λ e. absurd (omega arith)
      ] in
      let outside : (u / page_size < (last + page_size) / page_size)
          ⊎ ((last + page_size) / page_size + n ≤ u / page_size) =
        elim o [ inl x ↦ inl (omega arith) | inr x ↦ inr (omega arith) ] in
      g.others u h outside b ∙ p.others u h apart ∙ ap (λ w. translate w top u) t.words

  grow-suc : Grown (suc n) role free top last m
  grow-suc = record {
    after = g.after;
    role' = g.role';
    free' = g.free';
    page = page;
    runs = grow-runs;
    maps = grow-maps;
    own = grow-own;
    new = grow-new;
    apart = grow-apart;
    others = grow-others;
    space = g.space;
    stays = grow-stays;
    kernel = (g.kernel.0 ∙ p.kernel.0 ∙ t.kernel, g.kernel.1 ∙ p.kernel.1 ∙ t.pdpte);
    spent = let a = t.left in let b = p.spent in let c = g.spent in omega arith;
  }

pub grow-Grown :
    (n : ℕ) (role : Roles) (free : List ℕ) (top last : ℕ) (m : Memory)
    → Space role free top m
    → 4 * n ≤ length free
    → last + n * page_size ≤ 511 * 2 ^ 39
    → Grown n role free top last m
grow-Grown zero role free top last m space enough below = grow-zero role free top last m space
grow-Grown (suc n) role free top last m space enough below =
    let t = get_free_frame-Taken role free top m space (omega arith) in
    let a = t.left in
    let p =
      init_task_pagetables-Mapped role t.rest top t.after last (t.page * page_size) t.space
        (omega arith) (omega arith) in
    let b = p.spent in
    let g =
      grow-Grown n p.role' p.free' top (last + page_size) p.after p.space (omega arith)
        (omega arith) in
    grow-suc n role free top last m below t p g

-- `malloc` in a well-formed address space with four frames for each page asked for, below the kernel's
-- half: it returns the old end of the heap, the second area; every page of the new part is translated
-- to a frame of its own that was unused; all other pages are translated as before, and pages that are
-- neither tables nor free frames keep their words; the area ends behind the new part, and nothing else
-- of any task has changed.
pub malloc-Grown :
    (no_of_bytes : ℕ) (k : Kernel) (role : Roles) (free : List ℕ) (top : ℕ) (a vm : VmArea)
    (areas : List VmArea)
    → (k.task_queue k.current_task).vm ≡ a ∷ vm ∷ areas
    → (k.task_queue k.current_task).pml4e ≡ top * page_size
    → Space role free top k.memory
    → 4 * (no_of_bytes / page_size + 1) ≤ length free
    → vm.last_address + (no_of_bytes / page_size + 1) * page_size ≤ 511 * 2 ^ 39
    → (g : Grown (no_of_bytes / page_size + 1) role free top vm.last_address k.memory) × (malloc
          no_of_bytes k
        ≡ some (
          vm.last_address,
          record k {
            task_queue = update k.task_queue k.current_task (record (k.task_queue k.current_task) {
              vm =
                  a
                  ∷ record vm {
                    last_address = vm.last_address + (no_of_bytes / page_size + 1) * page_size;
                  }
                  ∷ areas;
            });
            memory = g.after;
          },
        ))
unfolding malloc
malloc-Grown no_of_bytes k role free top a vm areas here at space enough below =
    let g =
      grow-Grown (no_of_bytes / page_size + 1) role free top vm.last_address k.memory space enough
        below in
    let runs =
      ap (λ p. grow (no_of_bytes / page_size + 1) vm.last_address p k.memory) at ∙ g.runs in
    (g, rw (here, runs, malloc))
