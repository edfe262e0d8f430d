-- ===== src/Memory/Fill.antt =====
-- What is written to a page that is no table changes no translation.
use late_os.Common.{
  ℕ, ◌+◌, ◌*◌, ◌/◌, ◌<◌, ◌≡◌, ◌≢◌, refl, sym, ap, ◌∙◌, none, some, List, [], arith,
}
use late_os.Memory.{Memory, index4, index3, index2, index1, frame}
use late_os.Memory.Walk.{next_page, indices, translate, Roles, bound, Space}
use late_os.Memory.Link.{walk-agree, next_page-word, bound-le}

module _ (role : Roles) (free : List ℕ) (top : ℕ) (m : Memory) (word' : ℕ → ℕ) (q : ℕ)
    (space : Space role free top m) (no_table : role q ≡ none)
    (outside : (w : ℕ) → w / 512 ≢ q → word' w ≡ m.word w) where
  filled-next :
      (p i : ℕ) (path : List ℕ)
      → role p ≡ some path
      → i < bound path
      → next_page word' p i ≡ next_page m.word p i
  filled-next p i path r b = next_page-word m.word word' p i (
      outside (p * 512 + i)
        (λ e. let same : p ≡ q = let b' = bound-le path i b in omega arith in cc (ap role same)))

  pub filled-Space : Space role free top (record m { word = word' })
  filled-Space = record {
    tree = record {
      top_role = space.tree.top_role;
      linked = λ p i t path r n b e.
          space.tree.linked p i t path r n b (sym (filled-next p i path r b) ∙ e);
    };
    chain = space.chain;
    fresh = space.fresh;
  }

  pub filled-translate : (u : ℕ) → index4 u < 511 → translate word' top u ≡ translate m.word top u
  filled-translate u h =
      walk-agree space.tree word' filled-next top [] (indices u) (λ _. space.tree.top_role) refl
        (h, (omega arith, (omega arith, (omega arith, tt))))

-- The page of an address is translated as the address.
pub translate-frame :
    (word : ℕ → ℕ) (top v : ℕ) → translate word top (frame v) ≡ translate word top v
translate-frame word top v =
    let a : index4 (frame v) ≡ index4 v = omega arith in
    let b : index3 (frame v) ≡ index3 v = omega arith in
    let c : index2 (frame v) ≡ index2 v = omega arith in
    let d : index1 (frame v) ≡ index1 v = omega arith in rw (a, b, c, d)
