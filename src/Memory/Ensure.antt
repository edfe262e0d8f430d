-- ===== src/Memory/Ensure.antt =====
-- One level of initTaskPagetables keeps the address space well formed and changes no translation.
use late_os.Common.{
  ℕ, ◌+◌, ◌*◌, ◌/◌, ◌≤◌, ◌<◌, ◌≡◌, ◌≢◌, refl, sym, ap, ◌∙◌, fun_ext, inl, inr, true, false, Option,
  none, some, List, [], ◌∷◌, arith, length, All, Bool-cases, update, update-ne, update_self,
  for_each_lem, subst,
}
use late_os.Memory.{FreeFrame, Memory, page_size, present, entry}
use late_os.Memory.Walk.{
  next_page, walk, Roles, bound, Fits, Chain, Fresh, Space, addresses, Unused,
}
use late_os.Memory.Link.{walk-link, IsTree-link, next_page-link, bound-le}
use late_os.Memory.Map.{ensure, with_table, new_table-some, ensure-present, ensure-absent}

pub Chain-next :
    (list list' : ℕ → FreeFrame) (head : Option ℕ) (ns : List ℕ)
    → ((j : ℕ) → (list' j).next ≡ (list j).next)
    → Chain list head ns
    → Chain list' head ns
Chain-next list list' head [] same c = tt
Chain-next list list' head (n ∷ ns) same (h, c) = (
  h,
  Chain-next list list' (list' n).next ns same (subst (λ x. Chain list x ns) (sym (same n)) c),
)

Fresh-update :
    (role : Roles) (address : ℕ → ℕ) (k : ℕ) (path : Option (List ℕ)) (ns : List ℕ)
    → All (λ j. address j / page_size ≢ k) ns
    → Fresh role address ns
    → Fresh (update role k path) address ns
Fresh-update role address k path [] a f = tt
Fresh-update role address k path (n ∷ ns) a f = (
  f.0,
  update-ne role k (address n / page_size) path (λ e. a.0 (sym e)) ∙ f.1,
  f.2,
  Fresh-update role address k path ns a.1 f.3,
)

pub next_page-present :
    (word : ℕ → ℕ) (p i : ℕ)
    → present (word (p * 512 + i)) ≡ true
    → next_page word p i ≡ some (word (p * 512 + i) / page_size)
unfolding next_page
next_page-present word p i e = rw e

next_page-absent :
    (word : ℕ → ℕ) (p i : ℕ) → present (word (p * 512 + i)) ≡ false → next_page word p i ≡ none
unfolding next_page
next_page-absent word p i e = rw e

pub record Ensured (role : Roles) (free : List ℕ) (top : ℕ) (m : Memory) (p i : ℕ) (path : List ℕ)
    : Type 0 where
  pub table : ℕ
  pub after : Memory
  pub role' : Roles
  pub free' : List ℕ
  pub runs : ensure (p * 512 + i) m ≡ some (table * page_size, after)
  pub space : Space role' free' top after
  pub plays : role' table ≡ some (i ∷ path)
  pub here : next_page after.word p i ≡ some table
  pub keeps : (q : ℕ) (js : List ℕ) → role q ≡ some js → role' q ≡ some js
  pub keeps_next :
      (q j r : ℕ) (js : List ℕ)
      → role q ≡ some js
      → j < bound js
      → next_page m.word q j ≡ some r
      → next_page after.word q j ≡ some r
  pub walks :
      (is : List ℕ) → length is ≡ 4 → Fits [] is → walk after.word top is ≡ walk m.word top is
  pub stays :
      (q : ℕ)
      → Unused role (addresses m.page_list) free q
      → Unused role' (addresses after.page_list) free' q
        × ((j : ℕ) → j < 512 → after.word (q * 512 + j) ≡ m.word (q * 512 + j))
  pub kernel : (after.k_cr3 ≡ m.k_cr3) × (after.k_pdpte ≡ m.k_pdpte)
  pub spent : length free ≤ length free' + 1

module _ (role : Roles) (free : List ℕ) (top : ℕ) (m : Memory) (p i : ℕ) (path : List ℕ)
    (space : Space role free top m) (r : role p ≡ some path) (n : length path < 3)
    (b : i < bound path) where
  Ensured-present : present (m.word (p * 512 + i)) ≡ true → Ensured role free top m p i path
  Ensured-present e = record {
    table = m.word (p * 512 + i) / page_size;
    after = m;
    role' = role;
    free' = free;
    runs = ensure-present (p * 512 + i) m e;
    space = space;
    plays = space.tree.linked p i _ path r n b (next_page-present m.word p i e);
    here = next_page-present m.word p i e;
    keeps = λ q js h. h;
    keeps_next = λ q j t js rq bj h. h;
    walks = λ is l f. refl;
    stays = λ q u. (u, λ j h. refl);
    kernel = (refl, refl);
    spent = omega arith;
  }

  module _ (c : ℕ) (cs : List ℕ) (absent : present (m.word (p * 512 + i)) ≡ false)
      (ch : Chain m.page_list m.head (c ∷ cs))
      (fr : Fresh role (addresses m.page_list) (c ∷ cs)) where
    abbrev k : ℕ
    k = (m.page_list c).address / page_size

    abbrev m' : Memory
    m' = with_table m c (p * 512 + i)

    aligned : (m.page_list c).address ≡ k * page_size
    aligned = let h = fr.0 in omega arith

    word_zero : (j : ℕ) → j < 512 → m'.word (k * 512 + j) ≡ 0
    word_zero j h = ground (
      arith,
      aligned,
      for_each_lem 512 ((m.page_list c).address / 8) (λ (_ : ℕ). 0)
          (update m.word (p * 512 + i) (entry (m.page_list c).address 7)) (k * 512 + j),
    )

    word_same : (w : ℕ) → w ≢ p * 512 + i → w / 512 ≢ k → m'.word w ≡ m.word w
    unfolding update
    word_same w ne out = ground (
      arith,
      aligned,
      for_each_lem 512 ((m.page_list c).address / 8) (λ (_ : ℕ). 0)
          (update m.word (p * 512 + i) (entry (m.page_list c).address 7)) w,
    )

    apart : p ≢ k
    apart e = cc (fr.1)

    word_link : m'.word (p * 512 + i) ≡ k * page_size + 7
    unfolding update
    word_link = ground (
      arith,
      aligned,
      apart,
      bound-le path i b,
      for_each_lem 512 ((m.page_list c).address / 8) (λ (_ : ℕ). 0)
          (update m.word (p * 512 + i) (entry (m.page_list c).address 7)) (p * 512 + i),
    )

    next_zero : (j : ℕ) → j < 512 → next_page m'.word k j ≡ none
    next_zero j h = next_page-absent m'.word k j (ground (arith, word_zero j h))

    next_link : next_page m'.word p i ≡ some k
    next_link =
        next_page-present m'.word p i (ground (arith, word_link))
        ∙ ap some (omega (arith, word_link))

    link_keeps :
        (q j t : ℕ) (js : List ℕ)
        → role q ≡ some js
        → j < bound js
        → next_page m.word q j ≡ some t
        → next_page m'.word q j ≡ some t
    link_keeps q j t js rq bj h =
        next_page-link space.tree m'.word p i k path r n b (next_page-absent m.word p i absent) fr.1
          next_zero next_link word_same q j js rq (bound-le js j bj)
          (λ (eq, ej). cc (
            next_page-absent m.word p i absent,
            ap (λ x. next_page m.word x j) eq,
            ap (λ x. next_page m.word p x) ej,
          ))
        ∙ h

    same_address : addresses m'.page_list ≡ addresses m.page_list
    unfolding update
    same_address = fun_ext λ x. ground arith

    same_next : (x : ℕ) → (m'.page_list x).next ≡ (m.page_list x).next
    unfolding update
    same_next x = ground arith

    new_space : Space (update role k (some (i ∷ path))) cs top m'
    new_space = record {
      tree =
          IsTree-link space.tree m'.word p i k path r n b (next_page-absent m.word p i absent) fr.1
            next_zero next_link word_same;
      chain = Chain-next m.page_list m'.page_list (m.page_list c).next cs same_next ch.1;
      fresh =
          subst (λ a. Fresh (update role k (some (i ∷ path))) a cs) (sym same_address)
            (Fresh-update role (addresses m.page_list) k (some (i ∷ path)) cs fr.2 fr.3);
    }

    new_stays :
        (q : ℕ)
        → Unused role (addresses m.page_list) (c ∷ cs) q
        → Unused (update role k (some (i ∷ path))) (addresses m'.page_list) cs q
          × ((j : ℕ) → j < 512 → m'.word (q * 512 + j) ≡ m.word (q * 512 + j))
    new_stays q (none_role, (not_k, not_free)) =
        let table : p ≢ q = λ e. cc (ap role e) in
        let page : (j : ℕ) → j < 512 → (q * 512 + j) / 512 ≡ q = λ j h. omega arith in
        (
          (
            update-ne role k q _ not_k ∙ none_role,
            subst (λ a. All (λ n. a n / page_size ≢ q) cs) (sym same_address) not_free,
          ),
          λ j h.
              word_same (q * 512 + j) (λ e. table (let b' = bound-le path i b in omega arith))
                (λ e. not_k (sym (sym (page j h) ∙ e))),
        )

    Ensured-new : Ensured role (c ∷ cs) top m p i path
    Ensured-new = record {
      table = k;
      after = m';
      role' = update role k (some (i ∷ path));
      free' = cs;
      runs =
          ensure-absent (p * 512 + i) m absent
          ∙ new_table-some (p * 512 + i) c m ch.0
          ∙ ap (λ a. some (a, m')) aligned;
      space = new_space;
      plays = update_self role k _;
      here = next_link;
      keeps = λ q js h. update-ne role k q _ (λ e. cc (fr.1)) ∙ h;
      keeps_next = link_keeps;
      walks = λ is l f.
          walk-link space.tree m'.word p i k path r n b (next_page-absent m.word p i absent) fr.1
            next_zero next_link word_same top [] is (λ _. space.tree.top_role) (omega arith) f;
      stays = new_stays;
      kernel = (refl, refl);
      spent = omega arith;
    }

-- One level, whether its table exists or not, when a frame is left.
pub ensure-Ensured :
    (role : Roles) (free : List ℕ) (top : ℕ) (m : Memory) (p i : ℕ) (path : List ℕ)
    → Space role free top m
    → role p ≡ some path
    → length path < 3
    → i < bound path
    → 0 < length free
    → Ensured role free top m p i path
ensure-Ensured role [] top m p i path space r n b left = absurd (omega arith)
ensure-Ensured role (c ∷ cs) top m p i path space r n b left =
    elim (Bool-cases (present (m.word (p * 512 + i)))) [
      | inl e ↦ Ensured-present role (c ∷ cs) top m p i path space r n b e
      | inr e ↦ Ensured-new role (c ∷ cs) top m p i path space r n b c cs e space.chain space.fresh
    ]
