-- ===== src/Memory/Link.antt =====
-- What a change of one word does to walks: a table linked into an empty entry, and an entry of the
-- last level written.
use late_os.Common.{
  ℕ, suc, ◌+◌, ◌*◌, ◌/◌, ◌<◌, ◌≡◌, ◌≢◌, refl, sym, ap, ap₂, ◌∙◌, inl, inr, none, some, List, [],
  ◌∷◌, arith, ◌==◌, length, Bool-cases, Option-cases, both, ==→eq, eq→==, update, update-ne,
  update_self,
}
use mathlib.Core.List.{reverse_aux}
use late_os.Memory.Walk.{next_page, walk, Roles, bound, Fits, IsTree}

pub bound-le : (path : List ℕ) (i : ℕ) → i < bound path → i < 512
bound-le [] i h = omega arith
bound-le (j ∷ path) i h = h

-- Two slots are one word only if table and index agree.
slot_injective : (p q i j : ℕ) → i < 512 → j < 512 → p * 512 + i ≡ q * 512 + j → (p ≡ q) × (i ≡ j)
slot_injective p q i j hi hj e = omega arith

pub next_page-word :
    (word word' : ℕ → ℕ) (p i : ℕ)
    → word' (p * 512 + i) ≡ word (p * 512 + i)
    → next_page word' p i ≡ next_page word p i
unfolding next_page
next_page-word word word' p i e = rw e

pub walk-none :
    (word : ℕ → ℕ) (p i : ℕ) (is : List ℕ) → next_page word p i ≡ none → walk word p (i ∷ is) ≡ none
unfolding walk
walk-none word p i is e = rw (e, walk)

pub walk-some :
    (word : ℕ → ℕ) (p i q : ℕ) (is : List ℕ)
    → next_page word p i ≡ some q
    → walk word p (i ∷ is) ≡ walk word q is
unfolding walk
walk-some word p i q is e = rw (e, walk)

module _ {role : Roles} {word : ℕ → ℕ} {top : ℕ} (tree : IsTree role word top) (word' : ℕ → ℕ) where
  -- The table at the end of one step plays its role, unless the walk is at its end.
  pub next-role :
      (p i q : ℕ) (path is : List ℕ)
      → role p ≡ some path
      → length path + suc (length is) ≡ 4
      → i < bound path
      → next_page word p i ≡ some q
      → 0 < length is
      → role q ≡ some (i ∷ path)
  next-role p i q path is r n b e h = tree.linked p i q path r (omega arith) b e

  -- Walks agree where the entries of the tables do.
  pub walk-agree :
      ((p i : ℕ) (path : List ℕ)
        → role p ≡ some path
        → i < bound path
        → next_page word' p i ≡ next_page word p i)
      → (p : ℕ) (path is : List ℕ) → (0 < length is → role p ≡ some path)
      → length path + length is ≡ 4
      → Fits path is
      → walk word' p is ≡ walk word p is
  unfolding walk
  walk-agree same p path [] r n f = refl
  walk-agree same p path (i ∷ is) r n f =
      let r' = r (omega arith) in
      let e' = same p i path r' f.0 in
      elim (Option-cases (next_page word p i)) [
        | inl e ↦ rw (e', e, walk)
        | inr (q, e) ↦
            rw (e', e, walk)
              (walk-agree same q (i ∷ path) is (next-role p i q path is r' n f.0 e) (omega arith)
                f.1)
      ]

  module _ (p₀ i₀ k : ℕ) (path₀ : List ℕ) (r₀ : role p₀ ≡ some path₀) (n₀ : length path₀ < 3)
      (b₀ : i₀ < bound path₀) (empty : next_page word p₀ i₀ ≡ none) (unused : role k ≡ none)
      (zeroed : (i : ℕ) → i < 512 → next_page word' k i ≡ none)
      (linked' : next_page word' p₀ i₀ ≡ some k)
      (same : (w : ℕ) → w ≢ p₀ * 512 + i₀ → w / 512 ≢ k → word' w ≡ word w) where
    -- Entries of tables other than the new link.
    pub next_page-link :
        (p i : ℕ) (path : List ℕ)
        → role p ≡ some path
        → i < 512
        → ¬ ((p ≡ p₀) × (i ≡ i₀))
        → next_page word' p i ≡ next_page word p i
    next_page-link p i path r b other =
        let apart : p ≢ k = λ e. cc (ap role e) in
        let b' = bound-le path₀ i₀ b₀ in
        next_page-word word word' p i
          (same (p * 512 + i) (λ e. other (slot_injective p p₀ i i₀ b b' e)) (omega arith))

    walk-zeroed :
        (i : ℕ) (path is : List ℕ) → 0 < length is → Fits (i ∷ path) is → walk word' k is ≡ none
    walk-zeroed i path [] h f = absurd (omega arith)
    walk-zeroed i path (j ∷ is) h f = walk-none word' k j is (zeroed j f.0)

    walk-new_link :
        (p i : ℕ) (path is : List ℕ)
        → role p ≡ some path
        → p ≡ p₀
        → i ≡ i₀
        → length path + suc (length is) ≡ 4
        → Fits path (i ∷ is)
        → walk word' p (i ∷ is) ≡ walk word p (i ∷ is)
    walk-new_link p i path is r ep ei n f =
        let same_path : path ≡ path₀ = cc in
        let short : length path ≡ length path₀ = ap length same_path in
        let there : next_page word' p i ≡ some k = rw (ep, ei) linked' in
        let gone : next_page word p i ≡ none = rw (ep, ei) empty in
        walk-some word' p i k is there
        ∙ walk-zeroed i path is (omega arith) f.1
        ∙ sym (walk-none word p i is gone)

    -- The link changes no walk: where it leads, the walk ended before and ends one table later.
    pub walk-link :
        (p : ℕ) (path is : List ℕ)
        → (0 < length is → role p ≡ some path)
        → length path + length is ≡ 4
        → Fits path is
        → walk word' p is ≡ walk word p is
    unfolding walk
    walk-link p path [] r n f = refl
    walk-link p path (i ∷ is) r n f =
        let r' = r (omega arith) in
        elim (both (p == p₀) (i == i₀)) [
          | inl (ep, ei) ↦ walk-new_link p i path is r' (==→eq p p₀ ep) (==→eq i i₀ ei) n f
          | inr other ↦
              let e' =
                next_page-link p i path r' (bound-le path i f.0)
                  λ (a, b). other (eq→== p p₀ a, eq→== i i₀ b) in
              elim (Option-cases (next_page word p i)) [
                | inl e ↦ rw (e', e, walk)
                | inr (q, e) ↦
                    rw (e', e, walk)
                      (walk-link q (i ∷ path) is (next-role p i q path is r' n f.0 e) (omega arith)
                        f.1)
              ]
        ]

    linked-link :
        (p i q : ℕ) (path : List ℕ)
        → role p ≡ some path
        → i < bound path
        → length path < 3
        → next_page word' p i ≡ some q
        → update role k (some (i₀ ∷ path₀)) q ≡ some (i ∷ path)
    linked-link p i q path r b n e = elim (both (p == p₀) (i == i₀)) [
      | inl (ep, ei) ↦
          let here : next_page word' p i ≡ some k = rw (==→eq p p₀ ep, ==→eq i i₀ ei) linked' in
          let target : q ≡ k = cc in
          let same_path : path ≡ path₀ = cc (==→eq p p₀ ep) in
          rw target (
            update_self role k _
            ∙ ap₂ (λ j js. some (j ∷ js)) (sym (==→eq i i₀ ei)) (sym same_path))
      | inr other ↦
          let old =
            next_page-link p i path r (bound-le path i b)
              λ (x, y). other (eq→== p p₀ x, eq→== i i₀ y) in
          let role_q = tree.linked p i q path r n b (sym old ∙ e) in
          update-ne role k q _ (λ x. cc (ap role x, role_q)) ∙ role_q
    ]

    -- The new table has the role of its place, and the old ones keep theirs.
    pub IsTree-link : IsTree (update role k (some (i₀ ∷ path₀))) word' top
    IsTree-link = record {
      top_role = update-ne role k top _ (λ e. cc (ap role e, tree.top_role)) ∙ tree.top_role;
      linked = λ p i q path r n b e. elim (Bool-cases (p == k)) [
        | inl ep ↦ cc (zeroed i (bound-le path i b), ap (λ t. next_page word' t i) (==→eq p k ep))
        | inr ne ↦
            linked-link p i q path (sym (update-ne role k p _ (λ x. cc (eq→== p k (sym x)))) ∙ r) b
              n e
      ];
    }

  -- An entry of the last level is written.
  module _ (p₀ i₀ : ℕ) (path₀ : List ℕ) (r₀ : role p₀ ≡ some path₀) (n₀ : length path₀ ≡ 3)
      (b₀ : i₀ < 512) (same : (w : ℕ) → w ≢ p₀ * 512 + i₀ → word' w ≡ word w) where
    next_page-store :
        (p i : ℕ) → i < 512 → ¬ ((p ≡ p₀) × (i ≡ i₀)) → next_page word' p i ≡ next_page word p i
    next_page-store p i b other =
        next_page-word word word' p i
          (same (p * 512 + i) (λ e. other (slot_injective p p₀ i i₀ b b₀ e)))

    -- Walks along other indices are not changed.
    pub walk-store :
        (p : ℕ) (path is : List ℕ)
        → (0 < length is → role p ≡ some path)
        → length path + length is ≡ 4
        → Fits path is
        → reverse_aux path is ≢ reverse_aux path₀ (i₀ ∷ [])
        → walk word' p is ≡ walk word p is
    unfolding walk
    walk-store p path [] r n f ne = refl
    walk-store p path (i ∷ is) r n f ne =
        let r' = r (omega arith) in
        let e' = next_page-store p i (bound-le path i f.0) (λ (ep, ei). ne (at_entry r' ep ei)) in
        elim (Option-cases (next_page word p i)) [
          | inl e ↦ rw (e', e, walk)
          | inr (q, e) ↦
              rw (e', e, walk)
                (walk-store q (i ∷ path) is (next-role p i q path is r' n f.0 e) (omega arith) f.1
                  ne)
        ]
      where
        last : (js : List ℕ) → length js ≡ 0 → js ≡ []
        last [] h = refl
        last (j ∷ js) h = absurd (omega arith)

        at_entry :
            role p ≡ some path
            → p ≡ p₀
            → i ≡ i₀
            → reverse_aux (i ∷ path) is ≡ reverse_aux path₀ (i₀ ∷ [])
        at_entry r ep ei =
            let same_path : path ≡ path₀ = cc in
            let short : length path ≡ length path₀ = ap length same_path in
            rw (same_path, ei, last is (omega arith))

    -- The tables above keep their places.
    pub IsTree-store : IsTree role word' top
    IsTree-store = record {
      top_role = tree.top_role;
      linked = λ p i q path r n b e.
          tree.linked p i q path r n b
            (sym (next_page-store p i (bound-le path i b) (λ (x, _). higher p path r n x)) ∙ e);
    }
      where
        higher : (p : ℕ) (path : List ℕ) → role p ≡ some path → length path < 3 → ¬ (p ≡ p₀)
        higher p path r n x =
            let same_path : path ≡ path₀ = cc in
            let short : length path ≡ length path₀ = ap length same_path in absurd (omega arith)
