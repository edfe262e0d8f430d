-- ===== src/Screen/Scroll.antt =====
-- What rollUP does to the rows of the screen.
use late_os.Common.{
  ℕ, zero, suc, ◌+◌, ◌-◌, ◌*◌, ◌≤◌, ◌<◌, ◌≡◌, ◌⊎◌, refl, ap, ◌∙◌, arith, update, update_self,
  update-ne,
}
use late_os.Screen.{base, max_width, max_height, copy_cells, blank_cells, roll_up}

copy_cells-outside :
    (n prev : ℕ) (m : ℕ → ℕ) (a : ℕ) → (a < prev) ⊎ (prev + 2 * n ≤ a) → copy_cells n prev m a ≡ m a
unfolding copy_cells
copy_cells-outside zero prev m a o = refl
copy_cells-outside (suc n) prev m a o =
    copy_cells-outside n (prev + 2) _ a (omega arith)
    ∙ update-ne m prev a _ (λ e. absurd (omega arith))

copy_cells-inside :
    (n prev : ℕ) (m : ℕ → ℕ) (k : ℕ)
    → k < n
    → copy_cells n prev m (prev + 2 * k) ≡ m (prev + 2 * k + max_width * 2)
unfolding copy_cells
copy_cells-inside zero prev m k h = absurd (omega arith)
copy_cells-inside (suc n) prev m zero h =
    copy_cells-outside n (prev + 2) _ (prev + 2 * 0) (omega arith)
    ∙ ap (update m prev (m (prev + max_width * 2))) (omega arith)
    ∙ update_self m prev _
    ∙ ap m (omega arith)
copy_cells-inside (suc n) prev m (suc k) h =
    let m₁ = update m prev (m (prev + max_width * 2)) in
    ap (copy_cells n (prev + 2) m₁) (omega arith)
    ∙ copy_cells-inside n (prev + 2) m₁ k (omega arith)
    ∙ update-ne m prev (prev + 2 + 2 * k + max_width * 2) _ (λ e. absurd (omega arith))
    ∙ ap m (omega arith)

blank_cells-outside :
    (n address : ℕ) (m : ℕ → ℕ) (a : ℕ)
    → (a < address) ⊎ (address + 2 * n ≤ a)
    → blank_cells n address m a ≡ m a
unfolding blank_cells
blank_cells-outside zero address m a o = refl
blank_cells-outside (suc n) address m a o =
    blank_cells-outside n (address + 2) _ a (omega arith)
    ∙ update-ne m address a _ (λ e. absurd (omega arith))

blank_cells-inside :
    (n address : ℕ) (m : ℕ → ℕ) (k : ℕ) → k < n → blank_cells n address m (address + 2 * k) ≡ 0
unfolding blank_cells
blank_cells-inside zero address m k h = absurd (omega arith)
blank_cells-inside (suc n) address m zero h =
    blank_cells-outside n (address + 2) _ (address + 2 * 0) (omega arith)
    ∙ ap (update m address 0) (omega arith)
    ∙ update_self m address _
blank_cells-inside (suc n) address m (suc k) h =
    ap (blank_cells n (address + 2) (update m address 0)) (omega arith)
    ∙ blank_cells-inside n (address + 2) _ k (omega arith)

-- The address of a cell's character.
abbrev pub cell : ℕ → ℕ → ℕ
cell row column = base + 160 * row + 2 * column

-- `rollUP` moves row r + 1 to row r for r < 23, blanks row 23 and leaves row 24: so what stood in
-- row 24, where the cursor is after a line end on a full screen, reaches none of the rows above.
pub roll_up-rows :
    (m : ℕ → ℕ) (r c : ℕ)
    → r < 23
    → c < max_width
    → (roll_up m (cell r c) ≡ m (cell (r + 1) c))
      × (roll_up m (cell 23 c) ≡ 0)
      × (roll_up m (cell 24 c) ≡ m (cell 24 c))
unfolding roll_up
roll_up-rows m r c b h =
    let copied = copy_cells (max_height * max_width) base m in
    (
      blank_cells-outside max_width (base + max_width * 2 * (max_height - 1)) copied (cell r c)
            (omega arith)
          ∙ ap copied (omega arith)
          ∙ copy_cells-inside (max_height * max_width) base m (80 * r + c) (omega arith)
          ∙ ap m (omega arith),
      ap (blank_cells max_width (base + max_width * 2 * (max_height - 1)) copied) (omega arith)
          ∙ blank_cells-inside max_width (base + max_width * 2 * (max_height - 1)) copied c h,
      blank_cells-outside max_width (base + max_width * 2 * (max_height - 1)) copied (cell 24 c)
            (omega arith)
          ∙ copy_cells-outside (max_height * max_width) base m (cell 24 c) (omega arith),
    )
