-- ===== src/Memory/NewPage.antt =====
-- The page that getNewPage maps for the kernel (sys/paging.c).
use late_os.Common.{
  ℕ, ◌+◌, ◌*◌, ◌/◌, ◌^◌, ◌≤◌, ◌<◌, ◌≡◌, ◌≢◌, refl, sym, ap, ◌∙◌, inl, inr, some, none, List, arith,
  length, true, false, if◌then◌else◌, Bool-cases, Option, update, update_self,
}
use late_os.Memory.{
  Memory, page_size, kernbase, slot, entry, present, frame, index4, index3, index2, index1, ◌>>=◌,
  for_loop, store, M,
}
use late_os.Memory.Kernel.{
  map_new_frame, map_free_frame_exist, map_free_frame_exist_no, link_table, get_new_page, kmalloc,
}
use late_os.Memory.Walk.{next_page, walk, translate, Roles, Space, Unused, addresses}
use late_os.Memory.Link.{next_page-word}
use late_os.Memory.Take.{Taken, get_free_frame-Taken}
use late_os.Memory.Mapping.{slot-page}
use late_os.Memory.Ensure.{next_page-present}
use late_os.Memory.Pages.{
  IsKernel, IsData, Paged, link-parts, taken-IsKernel, taken-keeps, taken-IsData, taken_low,
  taken_words,
}
use late_os.Memory.Leaves.{
  written, written-ne, written-Space, written-translate, written-IsKernel, written-IsData, linked,
  link_there, linked-IsKernel, linked-IsData,
}

-- The store that mapFreeFrameExistNo ends in, behind the table of leaves that it may need.
abbrev store_leaf : (pdpe i j x : ℕ) → M (Unit {0})
store_leaf pdpe i j x m =
    (if present (m.word (pdpe * 512 + i))
        then store (slot (frame (m.word (pdpe * 512 + i))) j) x
        else (do pte ← link_table (slot (pdpe * page_size) i); store (slot pte j) x))
      m

-- The memory in which the leaf is stored: entry `i` of the kernel's table leads to the page `leaf`.
record Opened (role : Roles) (free : List ℕ) (top pdpe i p : ℕ) (m : Memory) : Type 0 where
  after : Memory
  rest : List ℕ
  leaf : ℕ
  link : next_page after.word pdpe i ≡ some leaf
  kernel : IsKernel role rest pdpe after
  space : Space role rest top after
  own : IsData role rest pdpe after p
  runs :
      (j x : ℕ)
      → store_leaf pdpe i j x m
        ≡ some (tt, record after { word = update after.word (leaf * 512 + j) x })
  stays :
      (q : ℕ)
      → IsData role free pdpe m q
      → IsData role rest pdpe after q
        × ((j : ℕ) → j < 512 → after.word (q * 512 + j) ≡ m.word (q * 512 + j))
  keeps :
      (q : ℕ)
      → Unused role (addresses m.page_list) free q
      → Unused role (addresses after.page_list) rest q
  walks : (u : ℕ) → index4 u < 511 → translate after.word top u ≡ translate m.word top u
  spent : length free ≤ length rest + 1

module _ {role : Roles} {free : List ℕ} {top pdpe : ℕ} {m : Memory} (k : IsKernel role free pdpe m)
    (space : Space role free top m) (i p : ℕ) (b : i < 512) (d : IsData role free pdpe m p)
    (enough : 0 < length free) where
  open_old : present (m.word (pdpe * 512 + i)) ≡ true → Opened role free top pdpe i p m
  open_old e = record {
    after = m;
    rest = free;
    leaf = m.word (pdpe * 512 + i) / page_size;
    link = next_page-present m.word pdpe i e;
    kernel = k;
    space = space;
    own = d;
    runs = λ j x. rw (e, slot-page (m.word (pdpe * 512 + i) / page_size) j);
    stays = λ q d'. (d', λ j h. refl);
    keeps = λ q u. u;
    walks = λ u h. refl;
    spent = omega arith;
  }

  open_new : present (m.word (pdpe * 512 + i)) ≡ false → Opened role free top pdpe i p m
  unfolding link_table
  open_new e =
      let t = get_free_frame-Taken role free top m space enough in
      let k' = taken-IsKernel k t in
      let own = taken-IsData k t in
      let words : (w : ℕ) → t.after.word w ≡ m.word w = λ w. ap (λ f. f w) t.words in
      record {
        after = linked k' t.space t.page i b own;
        rest = t.rest;
        leaf = t.page;
        link = link_there k' t.space t.page i b own;
        kernel = linked-IsKernel k' t.space t.page i b own;
        space = written-Space k' t.space pdpe i _ b k'.pdpe_unused.0;
        own =
            linked-IsData k' t.space t.page i b own p (taken-keeps k t p d)
              (λ y. t.was_free p d.unused (sym y));
        runs = λ j x. rw (e, link_table, t.runs, slot-page pdpe i, slot-page t.page j, ◌>>=◌);
        stays = λ q d'. (
          linked-IsData k' t.space t.page i b own q (taken-keeps k t q d')
              (λ y. t.was_free q d'.unused (sym y)),
          λ j h.
              written-ne k' t.space pdpe i _ b k'.pdpe_unused.0 q j d'.not_pdpe h
              ∙ words (q * 512 + j),
        );
        keeps = t.stays;
        walks = λ u h.
            written-translate k' t.space pdpe i _ b k'.pdpe_unused.0 u h
            ∙ ap (λ w. translate w top u) t.words;
        spent = let l = t.left in omega arith;
      }

  opened : Opened role free top pdpe i p m
  opened = elim (Bool-cases (present (m.word (pdpe * 512 + i)))) [
    | inl e ↦ open_old e
    | inr e ↦ open_new e
  ]

map_new_frame-exist :
    (v physical : ℕ) (m : Memory)
    → present (m.word (slot m.k_cr3 (index4 v))) ≡ true
    → map_new_frame v physical m ≡ map_free_frame_exist v physical m
unfolding map_new_frame
map_new_frame-exist v physical m e = rw (e, if◌then◌else◌)

map_free_frame_exist-no :
    (v physical : ℕ) (m : Memory)
    → present (m.word (slot (frame (m.word (slot m.k_cr3 (index4 v)))) (index3 v))) ≡ true
    → map_free_frame_exist v physical m ≡ map_free_frame_exist_no v physical m
unfolding map_free_frame_exist
map_free_frame_exist-no v physical m e = rw (e, if◌then◌else◌)

map_free_frame_exist_no-store_leaf :
    (v physical pdpe : ℕ) (m : Memory)
    → frame (m.word (slot m.k_pdpte (index3 v))) ≡ pdpe * page_size
    → map_free_frame_exist_no v physical m
      ≡ store_leaf pdpe (index2 v) (index1 v) (entry physical 3) m
unfolding map_free_frame_exist_no
map_free_frame_exist_no-store_leaf v physical pdpe m e = rw (e, slot-page pdpe (index2 v))

-- The entries of the kernel's tables on the way to its first GB.
module _ {role : Roles} {free : List ℕ} {pdpe : ℕ} {m : Memory}
    (k : IsKernel role free pdpe m) where
  slot_pml4 : slot m.k_cr3 511 ≡ m.k_cr3 / page_size * 512 + 511
  slot_pml4 = let a = k.pml4_aligned in omega arith

  slot_pdpte : slot m.k_pdpte 510 ≡ m.k_pdpte / page_size * 512 + 510
  slot_pdpte = let a = k.pdpte_aligned in omega arith

  map_new_frame-store_leaf :
      (v physical : ℕ)
      → index4 v ≡ 511
      → index3 v ≡ 510
      → map_new_frame v physical m ≡ store_leaf pdpe (index2 v) (index1 v) (entry physical 3) m
  map_new_frame-store_leaf v physical h4 h3 =
      let (p4, f4) = link-parts m.word (m.k_cr3 / page_size) 511 _ k.top_link in
      let (p3, f3) = link-parts m.word (m.k_pdpte / page_size) 510 _ k.pdpe_link in
      let to_pdpte : frame (m.word (m.k_cr3 / page_size * 512 + 511)) ≡ m.k_pdpte =
        (let a = k.pdpte_aligned in omega arith) in
      let to_pdpe : frame (m.word (m.k_pdpte / page_size * 512 + 510)) ≡ pdpe * page_size =
        ap (λ p. p * page_size) f3 in
      map_new_frame-exist v physical m (rw (h4, slot_pml4) p4)
      ∙ map_free_frame_exist-no v physical m (rw (h4, h3, slot_pml4, to_pdpte, slot_pdpte) p3)
      ∙ map_free_frame_exist_no-store_leaf v physical pdpe m (rw (h3, slot_pdpte) to_pdpe)

module _ {role : Roles} {free : List ℕ} {top pdpe : ℕ} {m : Memory} (k : IsKernel role free pdpe m)
    (space : Space role free top m) (enough : 2 ≤ length free) (t : Taken role free top m) where
  abbrev v : ℕ
  v = kernbase + t.page * page_size

  low_page : t.page < 2 ^ 18
  low_page = taken_low k t

  v4 : index4 v ≡ 511
  v4 = let l = low_page in omega arith

  v3 : index3 v ≡ 510
  v3 = let l = low_page in omega arith

  module _ (o : Opened role t.rest top pdpe (index2 v) t.page t.after) where
    unused_leaf : Unused role (addresses o.after.page_list) o.rest o.leaf
    unused_leaf = o.kernel.leaf_unused (index2 v) o.leaf (omega arith) o.link

    apart_leaf :
        (o.leaf ≢ o.after.k_cr3 / page_size)
        × (o.leaf ≢ o.after.k_pdpte / page_size)
        × (o.leaf ≢ pdpe)
    apart_leaf = o.kernel.leaf_apart (index2 v) o.leaf (omega arith) o.link

    abbrev final : Memory
    final =
        written o.kernel o.space o.leaf (index1 v) (entry (t.page * page_size) 3) (omega arith)
          unused_leaf.0

    final_kernel : IsKernel role o.rest pdpe final
    final_kernel =
        written-IsKernel o.kernel o.space o.leaf (index1 v) (entry (t.page * page_size) 3)
          (omega arith) unused_leaf.0 apart_leaf

    final-IsData : (q : ℕ) → IsData role o.rest pdpe o.after q → IsData role o.rest pdpe final q
    final-IsData =
        written-IsData o.kernel o.space o.leaf (index1 v) (entry (t.page * page_size) 3)
          (omega arith) unused_leaf.0 apart_leaf

    final_words :
        (q j : ℕ)
        → IsData role o.rest pdpe o.after q
        → j < 512
        → final.word (q * 512 + j) ≡ o.after.word (q * 512 + j)
    final_words q j d h =
        written-ne o.kernel o.space o.leaf (index1 v) (entry (t.page * page_size) 3) (omega arith)
          unused_leaf.0 q j (λ e. d.not_leaf (index2 v) (omega arith) (o.link ∙ ap some (sym e))) h

    new_runs : get_new_page m ≡ some (v, final)
    unfolding get_new_page
    new_runs =
        let a = map_new_frame-store_leaf (taken-IsKernel k t) v (t.page * page_size) v4 v3 in
        rw (t.runs, a, o.runs (index1 v) (entry (t.page * page_size) 3), ◌>>=◌)

    last_link : next_page final.word o.leaf (index1 v) ≡ some t.page
    last_link =
        let w : final.word (o.leaf * 512 + index1 v) ≡ entry (t.page * page_size) 3 =
          update_self o.after.word _ _ in
        next_page-present final.word o.leaf (index1 v) (rw w (ground arith))
        ∙ ap some (rw w (omega arith))

    leaf_link : next_page final.word pdpe (index2 v) ≡ some o.leaf
    leaf_link =
        next_page-word o.after.word final.word pdpe (index2 v) (
          written-ne o.kernel o.space o.leaf (index1 v) (entry (t.page * page_size) 3) (omega arith)
            unused_leaf.0 pdpe (index2 v) (λ e. apart_leaf.2 (sym e)) (omega arith))
        ∙ o.link

    new_maps : translate final.word (final.k_cr3 / page_size) v ≡ some t.page
    unfolding walk
    new_maps =
        rw (v4, final_kernel.top_link, v3, final_kernel.pdpe_link, leaf_link, last_link, walk)

    paged : Paged role free top pdpe m
    paged = record {
      page = t.page;
      rest = o.rest;
      after = final;
      runs = new_runs;
      maps = new_maps;
      space =
          written-Space o.kernel o.space o.leaf (index1 v) (entry (t.page * page_size) 3)
            (omega arith) unused_leaf.0;
      kernel = final_kernel;
      own = final-IsData t.page o.own;
      in_range = low_page;
      was_free = t.was_free;
      stays = λ q d.
          let (d', w') = o.stays q (taken-keeps k t q d) in
          (final-IsData q d', λ j h. final_words q j d' h ∙ w' j h ∙ taken_words k t (q * 512 + j));
      keeps = λ q u. o.keeps q (t.stays q u);
      walks = λ u h.
          written-translate o.kernel o.space o.leaf (index1 v) (entry (t.page * page_size) 3)
            (omega arith) unused_leaf.0 u h
          ∙ o.walks u h
          ∙ ap (λ w. translate w top u) t.words;
      spent = let a = t.left in let b = o.spent in omega arith;
    }

-- getNewPage, in the kernel's tables and with two frames left, takes a frame and returns an address that
-- the kernel's tables then translate to this frame. The task's translations are as before, and every
-- page of data keeps its words.
pub get_new_page-Paged :
    {role : Roles} {free : List ℕ} {top pdpe : ℕ} {m : Memory}
    → IsKernel role free pdpe m
    → Space role free top m
    → 2 ≤ length free
    → Paged role free top pdpe m
get_new_page-Paged {role} {free} {top} {pdpe} {m} k space enough =
    let t = get_free_frame-Taken role free top m space (omega arith) in
    let l = t.left in
    paged k space enough t (
      opened (taken-IsKernel k t) t.space (index2 (kernbase + t.page * page_size)) t.page
        (omega arith) (taken-IsData k t) (omega arith))

-- An object of less than a page gets a page.
pub kmalloc-get_new_page :
    (size : ℕ) (m : Memory) → size < page_size → kmalloc size m ≡ get_new_page m
unfolding kmalloc for_loop
kmalloc-get_new_page size m h =
    let one : size / page_size ≡ 0 = omega arith in rw one (same (get_new_page m))
  where
    same : (o : Option (ℕ × Memory)) → (elim o [ none ↦ none | some (a, m') ↦ some (a, m') ]) ≡ o
    same none = refl
    same (some (a, m')) = refl
