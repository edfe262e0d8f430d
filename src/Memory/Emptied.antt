-- ===== src/Memory/Emptied.antt =====
-- deallocTask empties the address space of a task (sys/paging.c).
use late_os.Common.{
  ℕ, zero, suc, ◌+◌, ◌*◌, ◌/◌, ◌≤◌, ◌<◌, ◌≡◌, ◌⊎◌, inl, inr, refl, sym, ap, ◌∙◌, true, Option, none,
  some, List, [], ◌∷◌, length, arith, update, update_self, update-ne, Bool-cases, ◌==◌, ==→eq,
}
use late_os.Memory.{
  Memory, M, pure, ◌>>=◌, ◌>>◌, page_size, slot, frame, present, load, store, for_loop, when,
  index4, index3, index2, index1,
}
use late_os.Memory.Walk.{next_page, translate, Roles, bound, IsTree, Space}
use late_os.Memory.Link.{walk-none}
use late_os.Memory.Cow.{
  free, dealloc_entry, dealloc_directory, dealloc_pointers, dealloc_top, dealloc_task,
}

module _ (role : Roles) (top : ℕ) where
  -- A table that `d` or more indices lead to.
  abbrev pub Deep : (d p : ℕ) → Type 0
  Deep d p = (path : List ℕ) × (role p ≡ some path) × (d ≤ length path)

  -- Only words of tables of the depth `d` or more have changed, and those to 0.
  abbrev pub Clears : (d : ℕ) → (ℕ → ℕ) → (ℕ → ℕ) → Type 0
  Clears d word word' = (w : ℕ) → (word' w ≡ word w) ⊎ ((word' w ≡ 0) × Deep d (w / 512))

  Clears-then : (d : ℕ) (a b c : ℕ → ℕ) → Clears d a b → Clears d b c → Clears d a c
  Clears-then d a b c ab bc w = elim (bc w) [
    | inr z ↦ inr z
    | inl e ↦ elim (ab w) [ inl e' ↦ inl (e ∙ e') | inr (z, deep) ↦ inr (e ∙ z, deep) ]
  ]

  Clears-more : (d d' : ℕ) (a b : ℕ → ℕ) → d ≤ d' → Clears d' a b → Clears d a b
  Clears-more d d' a b l c w = elim (c w) [
    | inl e ↦ inl e
    | inr (z, (path, r, deep)) ↦ inr (z, (path, r, omega arith))
  ]

  -- What was 0 stays 0.
  stays_zero : (d : ℕ) (a b : ℕ → ℕ) (w : ℕ) → Clears d a b → a w ≡ 0 → b w ≡ 0
  stays_zero d a b w c z = elim (c w) [ inl e ↦ e ∙ z | inr (z', deep) ↦ z' ]

  empty_link : (word : ℕ → ℕ) (p i : ℕ) → word (p * 512 + i) ≡ 0 → next_page word p i ≡ none
  unfolding next_page
  empty_link word p i e = rw e refl

  Clears-IsTree : (d : ℕ) (a b : ℕ → ℕ) → Clears d a b → IsTree role a top → IsTree role b top
  unfolding next_page
  Clears-IsTree d a b c t = record {
    top_role = t.top_role;
    linked = λ p i q path r n h e. elim (c (p * 512 + i)) [
      | inl same ↦ t.linked p i q path r n h (rw (← same) e)
      | inr (z, deep) ↦
          let no : ◌≡◌ {A = Option ℕ} none (some q) = sym (empty_link b p i z) ∙ e in cc
    ];
  }

  -- A command that ends, changes the words so, and leaves the free list as it is.
  pub record Done (d : ℕ) (c : M (Unit {0})) (m : Memory) : Type 0 where
    pub after : Memory
    pub runs : c m ≡ some (tt, after)
    pub clears : Clears d m.word after.word
    pub head : after.head ≡ m.head
    pub page_list : after.page_list ≡ m.page_list

  Done-pure : (d : ℕ) (m : Memory) → Done d (pure tt) m
  Done-pure d m = record {
    after = m;
    runs = refl;
    clears = λ w. inl refl;
    head = refl;
    page_list = refl;
  }

  Done-then :
      (d : ℕ) (c c' : M (Unit {0})) (m : Memory) (a : Done d c m)
      → Done d c' a.after
      → Done d (c >> c') m
  Done-then d c c' m a b = record {
    after = b.after;
    runs = rw (a.runs, ◌>>=◌) b.runs;
    clears = Clears-then d m.word a.after.word b.after.word a.clears b.clears;
    head = b.head ∙ a.head;
    page_list = b.page_list ∙ a.page_list;
  }

  -- The loop over the entries of the table in page `p`, each of which its round empties.
  record Emptied (d p n from : ℕ) (c : M (Unit {0})) (m : Memory) : Type 0 where
    done : Done d c m
    zeros : (i : ℕ) → from ≤ i → i < from + n → done.after.word (p * 512 + i) ≡ 0

  -- A command that empties entry `i` of the table in page `p`.
  record One (d p i : ℕ) (c : M (Unit {0})) (m : Memory) : Type 0 where
    done : Done d c m
    zero_entry : done.after.word (p * 512 + i) ≡ 0

  loop-Emptied :
      (d p n from : ℕ) (body : ℕ → M (Unit {0})) (m : Memory)
      → ((i : ℕ) (m : Memory)
          → from ≤ i
          → i < from + n
          → IsTree role m.word top
          → One d p i (body i) m)
      → IsTree role m.word top
      → Emptied d p n from (for_loop n from body) m
  unfolding for_loop Done-then
  loop-Emptied d p zero from body m each t = record {
    done = Done-pure d m;
    zeros = λ i l u. absurd (omega arith);
  }
  loop-Emptied d p (suc n) from body m each t =
      let a = each from m (omega arith) (omega arith) t in
      let t' = Clears-IsTree d m.word a.done.after.word a.done.clears t in
      let b =
        loop-Emptied d p n (from + 1) body a.done.after
          (λ i m l u. each i m (omega arith) (omega arith)) t' in
      record {
        done = Done-then d (body from) (for_loop n (from + 1) body) m a.done b.done;
        zeros = λ i l u. elim (Bool-cases (i == from)) [
          | inl e ↦
              let same = ==→eq i from e in
              ap (λ i. b.done.after.word (p * 512 + i)) same
              ∙ stays_zero d a.done.after.word b.done.after.word (p * 512 + from) b.done.clears
                  a.zero_entry
          | inr e ↦ b.zeros i (ground arith) (omega arith)
        ];
      }

  store-One :
      (d p i w : ℕ) (path : List ℕ) (m : Memory)
      → w ≡ p * 512 + i
      → i < 512
      → role p ≡ some path
      → d ≤ length path
      → One d p i (store w 0) m
  store-One d p i w path m at b r l = record {
    done = record {
      after = record m { word = update m.word w 0 };
      runs = refl;
      clears = λ x. elim (Bool-cases (x == w)) [
        | inl e ↦
            let same = ==→eq x w e in
            let page : x / 512 ≡ p = omega arith in
            inr (ap (update m.word w 0) same ∙ update_self m.word w 0, (path, ap role page ∙ r, l))
        | inr e ↦ inl (update-ne m.word w x 0 (ground arith))
      ];
      head = refl;
      page_list = refl;
    };
    zero_entry = ap (update m.word w 0) (sym at) ∙ update_self m.word w 0;
  }

  Done-less : (d d' : ℕ) (c : M (Unit {0})) (m : Memory) → d ≤ d' → Done d' c m → Done d c m
  Done-less d d' c m l a = record {
    after = a.after;
    runs = a.runs;
    clears = Clears-more d d' m.word a.after.word l a.clears;
    head = a.head;
    page_list = a.page_list;
  }

  One-then :
      (d p i : ℕ) (c c' : M (Unit {0})) (m : Memory) (a : Done d c m)
      → One d p i c' a.after
      → One d p i (c >> c') m
  unfolding Done-then
  One-then d p i c c' m a b = record {
    done = Done-then d c c' m a b.done;
    zero_entry = b.zero_entry;
  }

  free-Done : (d add : ℕ) (m : Memory) → Done d (free add) m
  unfolding free
  free-Done d add m = Done-pure d m

  loaded_done :
      (d w : ℕ) (c : ℕ → M (Unit {0})) (m : Memory)
      → Done d (c (m.word w)) m
      → Done d (load w >>= c) m
  loaded_done d w c m a = record {
    after = a.after;
    runs = a.runs;
    clears = a.clears;
    head = a.head;
    page_list = a.page_list;
  }

  loaded :
      (d p i w : ℕ) (c : ℕ → M (Unit {0})) (m : Memory)
      → One d p i (c (m.word w)) m
      → One d p i (load w >>= c) m
  unfolding loaded_done
  loaded d p i w c m a = record { done = loaded_done d w c m a.done; zero_entry = a.zero_entry }

  linked-present :
      (word : ℕ → ℕ) (p i e : ℕ)
      → word (p * 512 + i) ≡ e
      → present e ≡ true
      → next_page word p i ≡ some (e / page_size)
  unfolding next_page
  linked-present word p i e at y = rw (at, y) refl

  entry-One :
      (q j : ℕ) (path : List ℕ) (m : Memory)
      → role q ≡ some path
      → length path ≡ 3
      → j < 512
      → One 3 q j (dealloc_entry (q * page_size) j) m
  unfolding dealloc_entry
  entry-One q j path m r n b =
      let e = m.word (slot (q * page_size) j) in
      let freed : Done 3 (when (present e) (free (frame e))) m = elim (Bool-cases (present e)) [
        | inl y ↦ rw y (free-Done 3 (frame e) m)
        | inr y ↦ rw y (Done-pure 3 m)
      ] in
      let one =
        One-then 3 q j (when (present e) (free (frame e))) (store (slot (q * page_size) j) 0) m
          freed
          (store-One 3 q j (slot (q * page_size) j) path freed.after (omega arith) b r
            (omega arith)) in
      loaded 3 q j (slot (q * page_size) j)
        (λ e. when (present e) (free (frame e)) >> store (slot (q * page_size) j) 0) m one

  -- A level above: the tables that the entry leads to, its own table, the entry.
  abbrev level : (w : ℕ) → (ℕ → ℕ → M (Unit {0})) → M (Unit {0})
  level w below = load w >>= λ e.
      when (present e) (for_loop 512 0 (below (frame e)) >> (load w >>= λ e'. free (frame e')))
      >> store w 0

  level-One :
      (d p i : ℕ) (path : List ℕ) (below : ℕ → ℕ → M (Unit {0})) (m : Memory)
      → role p ≡ some path
      → length path ≡ d
      → d < 3
      → i < bound path
      → i < 512
      → IsTree role m.word top
      → ((q j : ℕ) (m : Memory)
          → role q ≡ some (i ∷ path)
          → j < 512
          → IsTree role m.word top
          → One (d + 1) q j (below (q * page_size) j) m)
      → One d p i (level (slot (p * page_size) i) below) m
  level-One d p i path below m r n l b b' t each =
      let w = slot (p * page_size) i in
      let e = m.word w in
      let rest = for_loop 512 0 (below (frame e)) >> (load w >>= λ e'. free (frame e')) in
      let at : w ≡ p * 512 + i = omega arith in
      let emptied : Done d (when (present e) rest) m = elim (Bool-cases (present e)) [
        | inr y ↦ rw y (Done-pure d m)
        | inl y ↦
            let link : next_page m.word p i ≡ some (e / page_size) =
              linked-present m.word p i e (ap m.word (sym at)) y in
            let r' = t.linked p i (e / page_size) path r (omega arith) b link in
            let inner =
              loop-Emptied (d + 1) (e / page_size) 512 0 (below (frame e)) m
                (λ j m l u t. each (e / page_size) j m r' (omega arith) t) t in
            let inner' =
              Done-less d (d + 1) (for_loop 512 0 (below (frame e))) m (omega arith) inner.done in
            rw y (
              Done-then d (for_loop 512 0 (below (frame e))) (load w >>= λ e'. free (frame e')) m
                inner'
                (loaded_done d w (λ e'. free (frame e')) inner'.after
                  (free-Done d (frame (inner'.after.word w)) inner'.after)))
      ] in
      loaded d p i w
        (λ e.
          when (present e) (for_loop 512 0 (below (frame e)) >> (load w >>= λ e'. free (frame e')))
          >> store w 0)
        m
        (One-then d p i (when (present e) rest) (store w 0) m emptied
          (store-One d p i w path emptied.after at b' r (omega arith)))

  directory-One :
      (q j : ℕ) (path : List ℕ) (m : Memory)
      → role q ≡ some path
      → length path ≡ 2
      → j < bound path
      → j < 512
      → IsTree role m.word top
      → One 2 q j (dealloc_directory (q * page_size) j) m
  unfolding dealloc_directory
  directory-One q j path m r n b b' t =
      level-One 2 q j path dealloc_entry m r n (omega arith) b b' t
        (λ q' j' m r' b t. entry-One q' j' (j ∷ path) m r' (omega arith) b)

  pointers-One :
      (q j : ℕ) (path : List ℕ) (m : Memory)
      → role q ≡ some path
      → length path ≡ 1
      → j < bound path
      → j < 512
      → IsTree role m.word top
      → One 1 q j (dealloc_pointers (q * page_size) j) m
  unfolding dealloc_pointers
  pointers-One q j path m r n b b' t =
      level-One 1 q j path dealloc_directory m r n (omega arith) b b' t
        (λ q' j' m r' b t. directory-One q' j' (j ∷ path) m r' (omega arith) b b t)

  top-One :
      (i : ℕ) (m : Memory)
      → i < 511
      → IsTree role m.word top
      → One 0 top i (dealloc_top (top * page_size) i) m
  unfolding dealloc_top
  top-One i m b t =
      level-One 0 top i [] dealloc_pointers m t.top_role refl (omega arith) b (omega arith) t
        (λ q' j' m r' b t. pointers-One q' j' (i ∷ []) m r' refl b b t)

-- The outcome of deallocTask: no page of the half below the kernel's is mapped, only words of the address
-- space's tables have changed, each to 0, and no frame is back on the free list.
pub record Freed (role : Roles) (top : ℕ) (m : Memory) : Type 0 where
  pub after : Memory
  pub runs : dealloc_task (top * page_size) m ≡ some (tt, after)
  pub unmapped : (v : ℕ) → index4 v < 511 → translate after.word top v ≡ none
  pub words :
      (w : ℕ)
      → (after.word w ≡ m.word w)
        ⊎ ((after.word w ≡ 0) × (path : List ℕ) × (role (w / 512) ≡ some path))
  pub head : after.head ≡ m.head
  pub page_list : after.page_list ≡ m.page_list

-- deallocTask, for the tables of a well-formed address space: no page of the half below the kernel's is mapped
-- any more; each word that has changed is an entry of one of these tables, and is 0; and the free list is as
-- before, so neither the task's frames nor its tables are given back.
pub dealloc_task-Freed :
    (role : Roles) (free : List ℕ) (top : ℕ) (m : Memory) → Space role free top m → Freed role top m
unfolding dealloc_task
dealloc_task-Freed role frames top m space =
    let e =
      loop-Emptied role top 0 top 511 0 (dealloc_top (top * page_size)) m
        (λ i m l u t. top-One role top i m (omega arith) t) space.tree in
    record {
      after = e.done.after;
      runs = e.done.runs;
      unmapped = λ v u.
          walk-none e.done.after.word top (index4 v) (index3 v ∷ index2 v ∷ index1 v ∷ []) (
            empty_link role top e.done.after.word top (index4 v)
              (e.zeros (index4 v) (omega arith) u));
      words = λ w. elim (e.done.clears w) [
        | inl same ↦ inl same
        | inr (z, (path, r, d)) ↦ inr (z, path, r)
      ];
      head = e.done.head;
      page_list = e.done.page_list;
    }
