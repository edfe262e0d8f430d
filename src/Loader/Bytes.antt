-- ===== src/Loader/Bytes.antt =====
-- Bytes that are written through the page tables of a task (memcpy in sys/process.c and memset in
-- sys/paging.c, as the loader calls them).
use late_os.Common.{
  ℕ, zero, suc, ◌+◌, ◌*◌, ◌/◌, ◌%◌, ◌^◌, ◌≤◌, ◌<◌, ◌≡◌, ◌≢◌, refl, sym, ap, ◌∙◌, inl, inr, ◌⊎◌,
  some, none, List, arith, update, update-ne, update_self, Bool-cases, ltb, ==→eq, eq→==, ◌==◌,
  true, false,
}
use late_os.Memory.{Memory, M, page_size, index4}
use late_os.Memory.Walk.{translate, Roles, Space}
use late_os.Memory.Fill.{filled-Space, filled-translate}
use late_os.Loader.{digit, set_digit, word_of, byte_at, store_byte}

digit-set : (k w b : ℕ) → digit k (set_digit k w b) ≡ b % 256
unfolding digit set_digit
digit-set zero w b = omega arith
digit-set (suc k) w b =
    let e : (w % 256 + set_digit k (w / 256) b * 256) / 256 ≡ set_digit k (w / 256) b =
      omega arith in
    rw e (digit-set k (w / 256) b)

digit-set_other : (i k w b : ℕ) → i ≢ k → digit i (set_digit k w b) ≡ digit i w
unfolding digit set_digit
digit-set_other zero zero w b ne = absurd (ne refl)
digit-set_other zero (suc k) w b ne = omega arith
digit-set_other (suc i) zero w b ne =
    let e : (w / 256 * 256 + b % 256) / 256 ≡ w / 256 = omega arith in rw e
digit-set_other (suc i) (suc k) w b ne =
    let e : (w % 256 + set_digit k (w / 256) b * 256) / 256 ≡ set_digit k (w / 256) b =
      omega arith in
    rw e (digit-set_other i k (w / 256) b (λ x. ne (ap suc x)))

pub byte_at-some :
    (word : ℕ → ℕ) (top v q : ℕ)
    → translate word top v ≡ some q
    → byte_at word top v ≡ some (digit (v % 8) (word (word_of q v)))
byte_at-some word top v q e = rw (byte_at, e)

-- Pages of virtual addresses, `count` from number `first` on, that are translated each to a page of its
-- own which holds no table.
pub record Mapping (role : Roles) (free : List ℕ) (top first count : ℕ) (page : ℕ → ℕ) (m : Memory)
    : Type 0 where
  pub space : Space role free top m
  pub below : first + count ≤ 511 * 2 ^ 27
  pub maps :
      (u : ℕ)
      → first ≤ u / page_size
      → u / page_size < first + count
      → translate m.word top u ≡ some (page (u / page_size))
  pub no_table : (j : ℕ) → first ≤ j → j < first + count → role (page j) ≡ none
  pub apart : (i j : ℕ) → first ≤ i → i < j → j < first + count → page i ≢ page j

-- The `n` bytes from `v` on become those of `f`, and no other byte of the region, no word outside
-- its pages, and no translation changes.
pub record Stored (role : Roles) (free : List ℕ) (top first count : ℕ) (page : ℕ → ℕ) (m : Memory)
    (n v : ℕ) (f : ℕ → ℕ) (run : M (Unit {0})) : Type 0 where
  pub word' : ℕ → ℕ
  pub runs : run m ≡ some (tt, record m { word = word' })
  pub region : Mapping role free top first count page (record m { word = word' })
  pub inside : (u : ℕ) → v ≤ u → u < v + n → byte_at word' top u ≡ some (f u % 256)
  pub outside :
      (u : ℕ)
      → first ≤ u / page_size
      → u / page_size < first + count
      → (u < v) ⊎ (v + n ≤ u)
      → byte_at word' top u ≡ byte_at m.word top u
  pub words :
      (w : ℕ) → ((j : ℕ) → first ≤ j → j < first + count → w / 512 ≢ page j) → word' w ≡ m.word w
  pub translates : (u : ℕ) → index4 u < 511 → translate word' top u ≡ translate m.word top u

module _ {role : Roles} {free : List ℕ} {top first count : ℕ} {page : ℕ → ℕ} where
  module _ {m : Memory} (r : Mapping role free top first count page m) (v b : ℕ)
      (low : first ≤ v / page_size) (high : v / page_size < first + count) where
    abbrev q : ℕ
    q = page (v / page_size)

    abbrev word' : ℕ → ℕ
    word' = update m.word (word_of q v) (set_digit (v % 8) (m.word (word_of q v)) b)

    changed : (w : ℕ) → w / 512 ≢ q → word' w ≡ m.word w
    changed w ne = update-ne m.word (word_of q v) w _ (λ e. ne (omega arith))

    kept-translate : (u : ℕ) → index4 u < 511 → translate word' top u ≡ translate m.word top u
    kept-translate u h =
        filled-translate role free top m word' q r.space (r.no_table (v / page_size) low high)
          changed u h

    kept-Mapping : Mapping role free top first count page (record m { word = word' })
    kept-Mapping = record {
      space =
          filled-Space role free top m word' q r.space (r.no_table (v / page_size) low high)
            changed;
      below = r.below;
      maps = λ u l h. kept-translate u (let below = r.below in omega arith) ∙ r.maps u l h;
      no_table = r.no_table;
      apart = r.apart;
    }

    here : byte_at word' top v ≡ some (b % 256)
    here =
        byte_at-some word' top v q (kept-Mapping.maps v low high)
        ∙ ap some (
            ap (digit (v % 8)) (update_self m.word (word_of q v) _)
            ∙ digit-set (v % 8) (m.word (word_of q v)) b)

    same_page :
        (i j : ℕ)
        → first ≤ i
        → i < first + count
        → first ≤ j
        → j < first + count
        → page i ≡ page j
        → i ≡ j
    same_page i j a a' b b' e = elim (Bool-cases (i == j)) [
      | inl y ↦ ==→eq i j y
      | inr n ↦ elim (Bool-cases (ltb i j)) [
        | inl y ↦ absurd (r.apart i j a (ground arith) b' e)
        | inr y ↦ absurd (r.apart j i b (ground arith) a' (sym e))
      ]
    ]

    there :
        (u : ℕ)
        → first ≤ u / page_size
        → u / page_size < first + count
        → u ≢ v
        → byte_at word' top u ≡ byte_at m.word top u
    there u l h ne =
        let p = page (u / page_size) in
        byte_at-some word' top u p (kept-Mapping.maps u l h)
        ∙ ap some (digits (Bool-cases (word_of q v == word_of p u)))
        ∙ sym (byte_at-some m.word top u p (r.maps u l h))
      where
        digits :
            ((word_of q v == word_of (page (u / page_size)) u) ≡ true)
              ⊎ ((word_of q v == word_of (page (u / page_size)) u) ≡ false)
            → digit (u % 8) (word' (word_of (page (u / page_size)) u))
              ≡ digit (u % 8) (m.word (word_of (page (u / page_size)) u))
        digits (inr n) =
            ap (digit (u % 8)) (update-ne m.word (word_of q v) _ _ (λ e. cc (eq→== _ _ e)))
        digits (inl y) =
            let e = ==→eq (word_of q v) (word_of (page (u / page_size)) u) y in
            let pages : page (u / page_size) ≡ q = omega arith in
            let numbers = same_page (u / page_size) (v / page_size) l h low high pages in
            rw (← e) (
              ap (digit (u % 8)) (update_self m.word (word_of q v) _)
              ∙ digit-set_other (u % 8) (v % 8) (m.word (word_of q v)) b (λ x. ne (omega arith)))

    pub store_byte-Stored :
        (f : ℕ → ℕ)
        → f v ≡ b
        → Stored role free top first count page m 1 v f (store_byte (top * page_size) v b)
    unfolding store_byte
    store_byte-Stored f fv =
        let at : top * page_size / page_size ≡ top = omega arith in
        record {
          word' = word';
          runs = rw (store_byte, at, r.maps v low high);
          region = kept-Mapping;
          inside = λ u l h. let e : u ≡ v = omega arith in rw (e, fv) here;
          outside =
              λ u l h o. there u l h (λ e. elim o [ inl x ↦ omega arith | inr x ↦ omega arith ]);
          words = λ w ne. changed w (ne (v / page_size) low high);
          translates = kept-translate;
        }
