-- ===== src/Memory/Mapping.antt =====
-- initTaskPagetables maps the page that it is asked for, and no other.
use late_os.Common.{
  ℕ, ◌+◌, ◌*◌, ◌/◌, ◌%◌, ◌^◌, ◌≤◌, ◌<◌, ◌≡◌, ◌≢◌, refl, sym, ap, ◌∙◌, some, List, [], ◌∷◌, arith,
  length, update, update-ne, update_self,
}
use late_os.Memory.{Memory, page_size, slot, entry, index4, index3, index2, index1, ◌>>=◌}
use late_os.Memory.Tables.{init_task_pagetables}
use late_os.Memory.Walk.{
  next_page, walk, indices, translate, Roles, bound, Fits, Space, Unused, addresses,
}
use late_os.Memory.Link.{walk-agree, next_page-word, walk-store, IsTree-store, bound-le}
use late_os.Memory.Map.{share_kernel, map_by_levels, init_task_pagetables-by_levels}
use late_os.Memory.Ensure.{Ensured, ensure-Ensured, next_page-present}

module _ (role : Roles) (free : List ℕ) (top : ℕ) (m : Memory) (x : ℕ)
    (space : Space role free top m) where
  -- The memory after the kernel's half is shared.
  abbrev pub shared : Memory
  shared = record m { word = update m.word (top * 512 + 511) x }

  shared_same :
      (p i : ℕ) (path : List ℕ)
      → role p ≡ some path
      → i < bound path
      → next_page shared.word p i ≡ next_page m.word p i
  shared_same p i path r b =
      next_page-word m.word shared.word p i
        (update-ne m.word (top * 512 + 511) (p * 512 + i) x (outside p i path r b))
    where
      outside :
          (p i : ℕ) (path : List ℕ)
          → role p ≡ some path
          → i < bound path
          → top * 512 + 511 ≢ p * 512 + i
      outside p i [] r b e = absurd (omega arith)
      outside p i (j ∷ js) r b e =
          let same : p ≡ top = omega arith in cc (ap role same, space.tree.top_role)

  pub shared-Space : Space role free top shared
  shared-Space = record {
    tree = record {
      top_role = space.tree.top_role;
      linked = λ p i q path r n b e.
          space.tree.linked p i q path r n b (sym (shared_same p i path r b) ∙ e);
    };
    chain = space.chain;
    fresh = space.fresh;
  }

  pub shared-walk :
      (is : List ℕ) → length is ≡ 4 → Fits [] is → walk shared.word top is ≡ walk m.word top is
  shared-walk is n f =
      walk-agree space.tree shared.word shared_same top [] is (λ _. space.tree.top_role)
        (omega arith) f

-- The outcome of mapping the page of `virtual` to that of `physical`.
pub record Mapped (role : Roles) (free : List ℕ) (top virtual physical : ℕ) (m : Memory)
    : Type 0 where
  pub after : Memory
  pub role' : Roles
  pub free' : List ℕ
  pub runs : init_task_pagetables virtual physical (top * page_size) m ≡ some (tt, after)
  pub maps : translate after.word top virtual ≡ some (physical / page_size)
  pub leaf :
      (table : ℕ) × (walk after.word top (index4 virtual ∷ index3 virtual ∷ index2 virtual ∷ [])
        ≡ some table)
      × (after.word (table * 512 + index1 virtual) % 8 ≡ 7)
  pub others :
      (u : ℕ)
      → index4 u < 511
      → u / page_size % 2 ^ 36 ≢ virtual / page_size % 2 ^ 36
      → translate after.word top u ≡ translate m.word top u
  pub space : Space role' free' top after
  pub stays :
      (q : ℕ)
      → Unused role (addresses m.page_list) free q
      → Unused role' (addresses after.page_list) free' q
        × ((j : ℕ) → j < 512 → after.word (q * 512 + j) ≡ m.word (q * 512 + j))
  pub kernel : (after.k_cr3 ≡ m.k_cr3) × (after.k_pdpte ≡ m.k_pdpte)
  pub spent : length free ≤ length free' + 3

pub slot-page : (p i : ℕ) → slot (p * page_size) i ≡ p * 512 + i
slot-page p i = omega arith

pub fits : (v : ℕ) → index4 v < 511 → Fits [] (indices v)
fits v h = (h, (omega arith, (omega arith, (omega arith, tt))))

distinct_indices :
    (u v : ℕ) → u / page_size % 2 ^ 36 ≢ v / page_size % 2 ^ 36 → indices u ≢ indices v
distinct_indices u v ne e =
    let a : index4 u ≡ index4 v = cc in
    let b : index3 u ≡ index3 v = cc in
    let c : index2 u ≡ index2 v = cc in let d : index1 u ≡ index1 v = cc in ne (omega arith)

module _ (role : Roles) (free : List ℕ) (top : ℕ) (m : Memory) (v physical : ℕ)
    (space : Space role free top m) (enough : 3 ≤ length free) (user : index4 v < 511) where
  abbrev m₁ : Memory
  m₁ = shared role free top m (entry (m.word (slot m.k_cr3 511)) 7) space

  level4 : Ensured role free top m₁ top (index4 v) []
  level4 =
      ensure-Ensured role free top m₁ top (index4 v) [] (shared-Space role free top m _ space)
        space.tree.top_role (omega arith) user (omega arith)

  level3 :
      (a : Ensured role free top m₁ top (index4 v) [])
      → Ensured a.role' a.free' top a.after a.table (index3 v) (index4 v ∷ [])
  level3 a =
      ensure-Ensured a.role' a.free' top a.after a.table (index3 v) (index4 v ∷ []) a.space a.plays
        (omega arith) (omega arith) (let s = a.spent in omega arith)

  level2 :
      (a : Ensured role free top m₁ top (index4 v) [])
      (b : Ensured a.role' a.free' top a.after a.table (index3 v) (index4 v ∷ []))
      → Ensured b.role' b.free' top b.after b.table (index2 v) (index3 v ∷ index4 v ∷ [])
  level2 a b =
      ensure-Ensured b.role' b.free' top b.after b.table (index2 v) (index3 v ∷ index4 v ∷ [])
        b.space b.plays (omega arith) (omega arith)
        (let s = a.spent in let s' = b.spent in omega arith)

  module _ (a : Ensured role free top m₁ top (index4 v) [])
      (b : Ensured a.role' a.free' top a.after a.table (index3 v) (index4 v ∷ []))
      (c : Ensured b.role' b.free' top b.after b.table (index2 v) (index3 v ∷ index4 v ∷ [])) where
    abbrev last : ℕ
    last = c.table * 512 + index1 v

    abbrev final : Memory
    final = record c.after { word = update c.after.word last (entry physical 7) }

    path_runs : init_task_pagetables v physical (top * page_size) m ≡ some (tt, final)
    unfolding map_by_levels share_kernel
    path_runs =
        init_task_pagetables-by_levels v physical (top * page_size) m
        ∙ rw (
          slot-page top 511,
          slot-page top (index4 v),
          a.runs,
          slot-page a.table (index3 v),
          b.runs,
          slot-page b.table (index2 v),
          c.runs,
          slot-page c.table (index1 v),
          ◌>>=◌,
        )

    untouched : (w : ℕ) → w ≢ last → final.word w ≡ c.after.word w
    untouched w ne = update-ne c.after.word last w _ (λ e. ne (sym e))

    -- The three links above the last table stay.
    kept :
        (p i q : ℕ) (path : List ℕ)
        → c.role' p ≡ some path
        → length path < 3
        → i < bound path
        → next_page c.after.word p i ≡ some q
        → next_page final.word p i ≡ some q
    kept p i q path r n h e =
        next_page-word c.after.word final.word p i (untouched (p * 512 + i) off) ∙ e
      where
        off : p * 512 + i ≢ last
        off x =
            let same : p ≡ c.table = let h' = bound-le path i h in omega arith in
            let same_path : path ≡ index2 v ∷ index3 v ∷ index4 v ∷ [] = cc (c.plays) in
            let l = ap length same_path in absurd (omega arith)

    through4 : next_page final.word top (index4 v) ≡ some a.table
    through4 =
        let r' = a.keeps top [] space.tree.top_role in
        let r'' = b.keeps top [] r' in
        kept top (index4 v) a.table [] (c.keeps top [] r'') (omega arith) user (
          c.keeps_next top (index4 v) a.table [] r'' user
            (b.keeps_next top (index4 v) a.table [] r' user a.here))

    through3 : next_page final.word a.table (index3 v) ≡ some b.table
    through3 =
        let path = index4 v ∷ [] in
        let r'' = b.keeps a.table path a.plays in
        kept a.table (index3 v) b.table path (c.keeps a.table path r'') (omega arith) (omega arith)
          (c.keeps_next a.table (index3 v) b.table path r'' (omega arith) b.here)

    through2 : next_page final.word b.table (index2 v) ≡ some c.table
    through2 =
        let path = index3 v ∷ index4 v ∷ [] in
        kept b.table (index2 v) c.table path (c.keeps b.table path b.plays) (omega arith)
          (omega arith) c.here

    through1 : next_page final.word c.table (index1 v) ≡ some (physical / page_size)
    through1 =
        let w : final.word last ≡ entry physical 7 = update_self c.after.word last _ in
        next_page-present final.word c.table (index1 v) (rw w (ground arith))
        ∙ ap some (rw w (omega arith))

    through : walk final.word top (indices v) ≡ some (physical / page_size)
    unfolding walk
    through = rw (through4, through3, through2, through1, walk)

    above : walk final.word top (index4 v ∷ index3 v ∷ index2 v ∷ []) ≡ some c.table
    unfolding walk
    above = rw (through4, through3, through2, walk)

    granted : final.word last % 8 ≡ 7
    granted =
        let w : final.word last ≡ entry physical 7 = update_self c.after.word last _ in
        rw w (ground arith)

    elsewhere :
        (u : ℕ)
        → index4 u < 511
        → u / page_size % 2 ^ 36 ≢ v / page_size % 2 ^ 36
        → translate final.word top u ≡ translate m.word top u
    elsewhere u h ne =
        walk-store c.space.tree final.word c.table (index1 v) (index2 v ∷ index3 v ∷ index4 v ∷ [])
          c.plays refl (omega arith) untouched top [] (indices u) (λ _. c.space.tree.top_role) refl
          (fits u h) (distinct_indices u v ne)
        ∙ c.walks (indices u) refl (fits u h)
        ∙ b.walks (indices u) refl (fits u h)
        ∙ a.walks (indices u) refl (fits u h)
        ∙ shared-walk role free top m _ space (indices u) refl (fits u h)

    stays-Unused :
        (q : ℕ)
        → Unused role (addresses m.page_list) free q
        → Unused c.role' (addresses final.page_list) c.free' q
          × ((j : ℕ) → j < 512 → final.word (q * 512 + j) ≡ m.word (q * 512 + j))
    stays-Unused q u =
        let (ua, wa) = a.stays q u in
        let (ub, wb) = b.stays q ua in
        let (uc, wc) = c.stays q ub in
        let no_table : c.table ≢ q = λ e. cc (ap c.role' e, c.plays) in
        let no_top : top ≢ q = λ e. cc (ap role e, space.tree.top_role) in
        (
          uc,
          λ j h.
              untouched (q * 512 + j) (λ e. no_table (omega arith))
              ∙ wc j h
              ∙ wb j h
              ∙ wa j h
              ∙ update-ne m.word (top * 512 + 511) (q * 512 + j) _ (λ e. no_top (omega arith)),
        )

    mapped : Mapped role free top v physical m
    mapped = record {
      after = final;
      role' = c.role';
      free' = c.free';
      runs = path_runs;
      maps = through;
      leaf = (c.table, above, granted);
      others = elsewhere;
      space = record {
        tree =
            IsTree-store c.space.tree final.word c.table (index1 v)
              (index2 v ∷ index3 v ∷ index4 v ∷ []) c.plays refl (omega arith) untouched;
        chain = c.space.chain;
        fresh = c.space.fresh;
      };
      stays = stays-Unused;
      kernel = (c.kernel.0 ∙ b.kernel.0 ∙ a.kernel.0, c.kernel.1 ∙ b.kernel.1 ∙ a.kernel.1);
      spent = let s = a.spent in let s' = b.spent in let s'' = c.spent in omega arith;
    }

  -- In a well-formed address space with three frames left, initTaskPagetables succeeds: the page of
  -- `v` (an address below the kernel's half) is then translated to the page of `physical`, every
  -- other page of that half is translated as before, the entry of `v` in the last table is one of a
  -- present page that programs may read and write, the address space is still well formed, pages that
  -- are neither tables nor free frames keep their words, and at most three frames are taken.
  pub init_task_pagetables-Mapped : Mapped role free top v physical m
  init_task_pagetables-Mapped = let a = level4 in let b = level3 a in mapped a b (level2 a b)
