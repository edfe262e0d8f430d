-- ===== src/Fault/Private.antt =====
-- A write to a page that a fork has shared gets a copy of it (copyNewMemory in sys/idt.c).
use late_os.Common.{
  ℕ, zero, suc, ◌+◌, ◌*◌, ◌/◌, ◌%◌, ◌^◌, ◌≤◌, ◌<◌, ◌≡◌, ◌≢◌, refl, sym, ap, ◌∙◌, inl, inr, ◌⊎◌,
  some, List, [], ◌∷◌, arith, length, update, update-ne, update_self, Bool-cases, ltb, ==→eq, ◌==◌,
}
use late_os.Memory.Fill.{filled-Space, filled-translate, translate-frame}
use late_os.Memory.{Memory, frame, page_size, index4, index3, index2, index1, ◌>>=◌}
use late_os.Memory.Walk.{walk, translate, Roles, Space, Unused, addresses}
use late_os.Memory.Take.{Taken, get_free_frame-Taken}
use late_os.Memory.Mapping.{Mapped, init_task_pagetables-Mapped}
use late_os.Fault.{copy_words, copy_page, copy_new_memory}

split_ne : (a b : ℕ) → a ≢ b → (a < b) ⊎ (b < a)
split_ne a b ne = elim (Bool-cases (ltb a b)) [
  | inl l ↦ inl (ground arith)
  | inr g ↦ inr (ground arith)
]

copy_words-outside :
    (n source dest : ℕ) (word : ℕ → ℕ) (w : ℕ)
    → (w < dest) ⊎ (dest + n ≤ w)
    → copy_words n source dest word w ≡ word w
unfolding copy_words
copy_words-outside zero source dest word w o = refl
copy_words-outside (suc n) source dest word w o =
    copy_words-outside n source dest (update word (dest + n) (word (source + n))) w
      (elim o [ inl b ↦ inl b | inr b ↦ inr (omega arith) ])
    ∙ update-ne word (dest + n) w _
        (λ e. elim o [ inl b ↦ absurd (omega arith) | inr b ↦ absurd (omega arith) ])

-- Two pages do not overlap, so each word of the source arrives.
copy_words-inside :
    (n source dest : ℕ) (word : ℕ → ℕ) (i : ℕ)
    → i < n
    → (source + n ≤ dest) ⊎ (dest + n ≤ source)
    → copy_words n source dest word (dest + i) ≡ word (source + i)
unfolding copy_words
copy_words-inside zero source dest word i b o = absurd (omega arith)
copy_words-inside (suc n) source dest word i b o =
    let word' = update word (dest + n) (word (source + n)) in
    elim (Bool-cases (i == n)) [
      | inl e ↦
          let same = ==→eq i n e in
          rw same (
            copy_words-outside n source dest word' (dest + n) (inr (omega arith))
            ∙ update_self word (dest + n) _)
      | inr e ↦
          copy_words-inside n source dest word' i (ground arith)
            (elim o [ inl x ↦ inl (omega arith) | inr x ↦ inr (omega arith) ])
          ∙ update-ne word (dest + n) (source + i) _
              (λ x. elim o [ inl y ↦ absurd (omega arith) | inr y ↦ absurd (omega arith) ])
    ]

-- The page of `v` is a copy of page `s`, to which nothing else refers.
pub record Private (role : Roles) (free : List ℕ) (top v s : ℕ) (m : Memory) : Type 0 where
  pub after : Memory
  pub role' : Roles
  pub free' : List ℕ
  pub page : ℕ
  pub runs : copy_new_memory (top * page_size) v (s * page_size) m ≡ some (tt, after)
  pub maps : translate after.word top v ≡ some page
  pub leaf :
      (table : ℕ) × (walk after.word top (index4 v ∷ index3 v ∷ index2 v ∷ []) ≡ some table)
      × (after.word (table * 512 + index1 v) % 8 ≡ 7)
  pub copied : (i : ℕ) → i < 512 → after.word (page * 512 + i) ≡ m.word (s * 512 + i)
  pub own : Unused role' (addresses after.page_list) free' page
  pub apart : (q : ℕ) → Unused role (addresses m.page_list) free q → page ≢ q
  pub others :
      (u : ℕ)
      → index4 u < 511
      → u / page_size % 2 ^ 36 ≢ v / page_size % 2 ^ 36
      → translate after.word top u ≡ translate m.word top u
  pub space : Space role' free' top after
  pub stays :
      (q : ℕ)
      → Unused role (addresses m.page_list) free q
      → Unused role' (addresses after.page_list) free' q
        × ((j : ℕ) → j < 512 → after.word (q * 512 + j) ≡ m.word (q * 512 + j))
  pub spent : length free ≤ length free' + 4

module _ (role : Roles) (free : List ℕ) (top v s : ℕ) (m : Memory)
    (source : Unused role (addresses m.page_list) free s) (user : index4 v < 511)
    (t : Taken role free top m) where
  abbrev copied_words : ℕ → ℕ
  copied_words = copy_words 512 (s * page_size / 8) (t.page * page_size / 8) t.after.word

  abbrev filled : Memory
  filled = record t.after { word = copied_words }

  filled-outside : (w : ℕ) → w / 512 ≢ t.page → copied_words w ≡ t.after.word w
  filled-outside w ne =
      copy_words-outside 512 (s * page_size / 8) (t.page * page_size / 8) t.after.word w
        (elim (split_ne (w / 512) t.page ne) [
          | inl l ↦ inl (omega arith)
          | inr l ↦ inr (omega arith)
        ])

  filled-copied : (i : ℕ) → i < 512 → copied_words (t.page * 512 + i) ≡ m.word (s * 512 + i)
  filled-copied i b =
      let from : s * page_size / 8 ≡ s * 512 = omega arith in
      let to : t.page * page_size / 8 ≡ t.page * 512 = omega arith in
      rw (from, to)
        (copy_words-inside 512 (s * 512) (t.page * 512) t.after.word i b
            (elim (split_ne s t.page (λ e. t.was_free s source (sym e))) [
              | inl l ↦ inl (omega arith)
              | inr l ↦ inr (omega arith)
            ])
          ∙ ap (λ w. w (s * 512 + i)) t.words)

  module _ (p : Mapped role t.rest top (frame v) (t.page * page_size) filled) where
    private_runs : copy_new_memory (top * page_size) v (s * page_size) m ≡ some (tt, p.after)
    unfolding copy_new_memory copy_page
    private_runs = rw (t.runs, ◌>>=◌) p.runs

    page-Private : Private role free top v s m
    page-Private = record {
      after = p.after;
      role' = p.role';
      free' = p.free';
      page = t.page;
      runs = private_runs;
      maps = sym (translate-frame p.after.word top v) ∙ p.maps ∙ ap some (omega arith);
      leaf =
          let i4 : index4 (frame v) ≡ index4 v = omega arith in
          let i3 : index3 (frame v) ≡ index3 v = omega arith in
          let i2 : index2 (frame v) ≡ index2 v = omega arith in
          let i1 : index1 (frame v) ≡ index1 v = omega arith in
          let (table, above, granted) = p.leaf in
          (
            table,
            sym (ap (λ is. walk p.after.word top is) (rw (i4, i3, i2) refl)) ∙ above,
            sym (ap (λ i. p.after.word (table * 512 + i) % 8) i1) ∙ granted,
          );
      copied = λ i b. (p.stays t.page t.unused).1 i b ∙ filled-copied i b;
      own = (p.stays t.page t.unused).0;
      apart = t.was_free;
      others = λ u h ne.
          p.others u h (λ e. ne (omega arith))
          ∙ filled-translate role t.rest top t.after copied_words t.page t.space t.unused.0
              filled-outside u h
          ∙ ap (λ w. translate w top u) t.words;
      space = p.space;
      stays = λ q u.
          let (u', w') = p.stays q (t.stays q u) in
          (
            u',
            λ j h.
                w' j h
                ∙ filled-outside (q * 512 + j) (λ e. t.was_free q u (omega arith))
                ∙ ap (λ w. w (q * 512 + j)) t.words,
          );
      spent = let a = t.left in let b = p.spent in omega arith;
    }

-- In a well-formed address space with four frames left, copyNewMemory ends: the page of `v` is then
-- translated to a frame that was free, which holds a copy of page `s`; all other pages are translated
-- as before; and pages that are neither tables nor free frames, page `s` among them, keep their words.
pub copy_new_memory-Private :
    (role : Roles) (free : List ℕ) (top v s : ℕ) (m : Memory)
    → Space role free top m
    → Unused role (addresses m.page_list) free s
    → 4 ≤ length free
    → index4 v < 511
    → Private role free top v s m
copy_new_memory-Private role free top v s m space source enough user =
    let t = get_free_frame-Taken role free top m space (omega arith) in
    let l = t.left in
    let user' : index4 (frame v) < 511 = omega arith in
    let p =
      init_task_pagetables-Mapped role t.rest top (filled role free top v s m source user t)
        (frame v) (t.page * page_size)
        (filled-Space role t.rest top t.after (copied_words role free top v s m source user t)
          t.page t.space t.unused.0 (filled-outside role free top v s m source user t))
        (omega arith) user' in
    page-Private role free top v s m source user t p
