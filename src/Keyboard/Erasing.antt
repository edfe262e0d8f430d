-- ===== src/Keyboard/Erasing.antt =====
-- A line end that is erased before the line is read.
use late_os.Common.{
  ℕ, zero, suc, ◌+◌, ◌-◌, ◌≤◌, ◌<◌, ◌≡◌, ◌≢◌, refl, sym, ◌∙◌, inl, inr, true, none, List, [], ◌∷◌,
  ap, ◌⊎◌, update_self, arith, ◌==◌, ltb, if◌then◌else◌, Bool-cases, ==→eq, update, update-ne,
}
use late_os.Process.{Kernel}
use late_os.Keyboard.{Keys, Console, erase_key, enter_key, scan_line, int_read, missed}

-- No line end in the `n` places from `start` on.
abbrev pub Endless : (n start : ℕ) → (ℕ → ℕ) → Type 0
Endless n start buffer = (i : ℕ) → start ≤ i → i < start + n → buffer i ≢ b'\n'

-- The `n` characters from `start` on.
pub places : (n start : ℕ) → (ℕ → ℕ) → List ℕ
places zero start buffer = []
places (suc n) start buffer = buffer start ∷ places n (start + 1) buffer

places-same :
    (n start : ℕ) (a b : ℕ → ℕ)
    → ((i : ℕ) → start ≤ i → a i ≡ b i)
    → places n start a ≡ places n start b
unfolding places
places-same zero start a b s = refl
places-same (suc n) start a b s =
    rw (s start (omega arith), places-same n (start + 1) a b (λ i l. s i (omega arith)))

-- Without a line end the scan copies all places, in order, and clears these and no other.
scan_line-places :
    (n start : ℕ) (buffer : ℕ → ℕ)
    → Endless n start buffer
    → ((scan_line n start buffer).0 ≡ places n start buffer)
      × ((i : ℕ) → start ≤ i → i < start + n → (scan_line n start buffer).1 i ≡ 0)
      × ((i : ℕ) → (i < start) ⊎ (start + n ≤ i) → (scan_line n start buffer).1 i ≡ buffer i)
unfolding scan_line places
scan_line-places zero start buffer h = (refl, λ i l u. absurd (omega arith), λ i o. refl)
scan_line-places (suc n) start buffer h = elim (Bool-cases (buffer start == b'\n')) [
  | inl nl ↦ absurd (h start (omega arith) (omega arith) (==→eq (buffer start) b'\n' nl))
  | inr other ↦
      let same : (i : ℕ) → start + 1 ≤ i → update buffer start 0 i ≡ buffer i =
        λ i l. update-ne buffer start i 0 (λ x. absurd (omega arith)) in
      let (copied, inside, outside) =
        scan_line-places n (start + 1) (update buffer start 0)
          (λ i lo hi e. h i (omega arith) (omega arith) (sym (same i lo) ∙ e)) in
      rw other (
        rw (copied, places-same n (start + 1) (update buffer start 0) buffer same),
        λ i l u. elim (Bool-cases (i == start)) [
          | inl e ↦
              outside i (inl (ground arith))
              ∙ ap (update buffer start 0) (==→eq i start e)
              ∙ update_self buffer start 0
          | inr e ↦ inside i (ground arith) (omega arith)
        ],
        λ i o.
            outside i (elim o [ inl x ↦ inl (omega arith) | inr x ↦ inr (omega arith) ])
            ∙ update-ne buffer start i 0
                (λ x. elim o [ inl y ↦ absurd (omega arith) | inr y ↦ absurd (omega arith) ]),
      )
]

scan_line-Endless :
    (n start : ℕ) (buffer : ℕ → ℕ) → Endless n start buffer → (scan_line n start buffer).2 ≡ none
unfolding scan_line
scan_line-Endless zero start buffer h = refl
scan_line-Endless (suc n) start buffer h = elim (Bool-cases (buffer start == b'\n')) [
  | inl nl ↦ absurd (h start (omega arith) (omega arith) (==→eq (buffer start) b'\n' nl))
  | inr other ↦ rw other (
      scan_line-Endless n (start + 1) (update buffer start 0) (λ i lo hi e.
        h i (omega arith) (omega arith)
          (sym (update-ne buffer start i 0 (λ x. absurd (omega arith))) ∙ e)))
]

int_read-missed :
    (keys : Keys) (k : Kernel)
    → ltb 0 keys.line_count ≡ true
    → (scan_line (4096 - keys.offset) keys.offset keys.inp_str).2 ≡ none
    → int_read keys k
      ≡ missed
          (scan_line (4096 - keys.offset) keys.offset keys.inp_str).0
          (record keys { inp_str = (scan_line (4096 - keys.offset) keys.offset keys.inp_str).1 })
          k
unfolding int_read
int_read-missed keys k counted end = rw (counted, end) refl

erase_key-enter_key :
    (con : Console)
    → con.keys.offset ≤ con.keys.str_offset
    → let keys = (erase_key (enter_key con)).keys in
      (keys.offset ≡ con.keys.offset)
      × (keys.line_count ≡ con.keys.line_count + 1)
      × ((i : ℕ) → keys.inp_str i ≡ (if con.keys.str_offset == i then 0 else con.keys.inp_str i))
unfolding erase_key enter_key update
erase_key-enter_key con behind = (ground arith, ground arith, λ i. ground arith)

-- Enter and then Backspace, before a line is read: the buffer holds no line end, if it held none
-- before, but a line is still counted, so the next pass of `intRead` finds none. It copies out what
-- stands in each of the places from the offset to the end of the buffer, clears these and no other
-- place, keeps the count and the offset, and does not sleep.
pub int_read-erased :
    (con : Console) (k : Kernel)
    → con.keys.offset ≤ con.keys.str_offset
    → Endless (4096 - con.keys.offset) con.keys.offset con.keys.inp_str
    → let keys = (erase_key (enter_key con)).keys in
      (after : Keys) × (int_read keys k
        ≡ missed (places (4096 - con.keys.offset) con.keys.offset keys.inp_str) after k)
      × ((i : ℕ) → con.keys.offset ≤ i → i < 4096 → after.inp_str i ≡ 0)
      × ((i : ℕ) → (i < con.keys.offset) ⊎ (4096 ≤ i) → after.inp_str i ≡ keys.inp_str i)
      × (after.offset ≡ con.keys.offset)
      × (after.line_count ≡ con.keys.line_count + 1)
int_read-erased con k behind endless =
    let keys = (erase_key (enter_key con)).keys in
    let (from, counted, at) = erase_key-enter_key con behind in
    let none_left : Endless (4096 - keys.offset) keys.offset keys.inp_str = λ i lo hi e.
      let e' = sym (at i) ∙ e in
      let old = endless i (omega arith) (omega arith) in old (ground arith) in
    let scan = scan_line (4096 - keys.offset) keys.offset keys.inp_str in
    let (copied, inside, outside) =
      scan_line-places (4096 - keys.offset) keys.offset keys.inp_str none_left in
    let copied' : scan.0 ≡ places (4096 - con.keys.offset) con.keys.offset keys.inp_str =
      copied ∙ ap (λ o. places (4096 - o) o keys.inp_str) from in
    (
      record keys { inp_str = scan.1 },
      int_read-missed keys k (ground arith)
            (scan_line-Endless (4096 - keys.offset) keys.offset keys.inp_str none_left)
          ∙ ap (λ cs. missed cs (record keys { inp_str = scan.1 }) k) copied',
      λ i l u. inside i (omega arith) (omega arith),
      λ i o. outside i (elim (Bool-cases (ltb i keys.offset)) [
        | inl l ↦ inl (ground arith)
        | inr l ↦
            let g : keys.offset ≤ i = ground arith in
            inr (elim o [ inl x ↦ absurd (omega arith) | inr x ↦ omega arith ])
      ]),
      from,
      counted,
    )
