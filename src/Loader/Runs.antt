-- ===== src/Loader/Runs.antt =====
-- The loops that write runs of bytes through the page tables of a task (memcpy in sys/process.c and
-- memset in sys/paging.c, as the loader calls them).
use late_os.Common.{
  ℕ, zero, suc, ◌+◌, ◌*◌, ◌%◌, ◌≤◌, ◌<◌, ◌≡◌, refl, sym, ap, ◌∙◌, inl, inr, ◌⊎◌, some, List, arith,
  Bool-cases, ltb, ◌&&◌, leb,
}
use late_os.Memory.{Memory, M, page_size, ◌>>=◌, ◌>>◌}
use late_os.Memory.Walk.{Roles}
use late_os.Loader.{byte_at, store_byte, copy_up, copy_down, memcpy, memset}
use late_os.Loader.Bytes.{Mapping, Stored, store_byte-Stored}

-- The `n` bytes from `v` on lie in the pages of the region.
abbrev pub Inside : (first count n v : ℕ) → Type 0
Inside first count n v = (first * page_size ≤ v) × (v + n ≤ (first + count) * page_size)

module _ {role : Roles} {free : List ℕ} {top first count : ℕ} {page : ℕ → ℕ} where
  pub Stored-none :
      {m : Memory}
      → Mapping role free top first count page m
      → (v : ℕ) (f : ℕ → ℕ) → Stored role free top first count page m 0 v f (λ m. some (tt, m))
  Stored-none {m} r v f = record {
    word' = m.word;
    runs = refl;
    region = r;
    inside = λ u l h. absurd (omega arith);
    outside = λ u l h o. refl;
    words = λ w ne. refl;
    translates = λ u h. refl;
  }

  -- Two runs of bytes side by side are one.
  pub Stored-both :
      {m : Memory} {n₁ v₁ n₂ v₂ : ℕ} {f : ℕ → ℕ} {run₁ run₂ : M (Unit {0})}
      (s : Stored role free top first count page m n₁ v₁ f run₁)
      → Stored role free top first count page (record m { word = s.word' }) n₂ v₂ f run₂
      → (n v : ℕ) → ((v ≡ v₁) × (v₂ ≡ v₁ + n₁)) ⊎ ((v ≡ v₂) × (v₁ ≡ v₂ + n₂))
      → n ≡ n₁ + n₂
      → Inside first count n v
      → Stored role free top first count page m n v f (run₁ >> run₂)
  Stored-both {m} {n₁} {v₁} {n₂} {v₂} {f} s t n v side total bounds = record {
    word' = t.word';
    runs = rw (◌>>=◌, s.runs) t.runs;
    region = t.region;
    inside = within;
    outside = λ u l h o.
        t.outside u l h (let x = side in ground arith)
        ∙ s.outside u l h (let x = side in ground arith);
    words = λ w ne. t.words w ne ∙ s.words w ne;
    translates = λ u h. t.translates u h ∙ s.translates u h;
  }
    where
      within : (u : ℕ) → v ≤ u → u < v + n → byte_at t.word' top u ≡ some (f u % 256)
      within u l h = elim (Bool-cases (leb v₂ u && ltb u (v₂ + n₂))) [
        | inl y ↦ t.inside u (ground arith) (ground arith)
        | inr y ↦
            t.outside u (let b = bounds in omega arith) (let b = bounds in omega arith)
              (ground arith)
            ∙ s.inside u (ground arith) (ground arith)
      ]

  pub one-Stored :
      {m : Memory}
      → Mapping role free top first count page m
      → (v b : ℕ) (f : ℕ → ℕ) → Inside first count 1 v
      → f v ≡ b
      → Stored role free top first count page m 1 v f (store_byte (top * page_size) v b)
  one-Stored r v b f inside e =
      store_byte-Stored r v b (let i = inside in omega arith) (let i = inside in omega arith) f e

  pub copy_up-Stored :
      (n : ℕ) {m : Memory}
      → Mapping role free top first count page m
      → (memory : ℕ → ℕ) (dest source : ℕ) (f : ℕ → ℕ)
      → ((i : ℕ) → i < n → f (dest + i) ≡ memory (source + i))
      → Inside first count n dest
      → Stored role free top first count page m n dest f
          (copy_up n memory (top * page_size) dest source)
  unfolding copy_up
  copy_up-Stored zero r memory dest source f same inside = Stored-none r dest f
  copy_up-Stored (suc n) r memory dest source f same inside =
      let a : dest + 0 ≡ dest = omega arith in
      let b : source + 0 ≡ source = omega arith in
      let s =
        one-Stored r dest (memory source) f (let i = inside in (omega arith, omega arith))
          (ap f (sym a) ∙ same 0 (omega arith) ∙ ap memory b) in
      let t =
        copy_up-Stored n s.region memory (dest + 1) (source + 1) f
          (λ i h.
            let c : dest + 1 + i ≡ dest + suc i = omega arith in
            let d : source + 1 + i ≡ source + suc i = omega arith in
            rw (c, d) (same (suc i) (omega arith)))
          (let i = inside in (omega arith, omega arith)) in
      Stored-both s t (suc n) dest (inl (refl, refl)) (omega arith) inside

  copy_down-Stored :
      (n : ℕ) {m : Memory}
      → Mapping role free top first count page m
      → (memory : ℕ → ℕ) (dest source : ℕ) (f : ℕ → ℕ)
      → ((i : ℕ) → i < n → f (dest + i) ≡ memory (source + i))
      → Inside first count n dest
      → Stored role free top first count page m n dest f
          (copy_down n memory (top * page_size) dest source)
  unfolding copy_down
  copy_down-Stored zero r memory dest source f same inside = Stored-none r dest f
  copy_down-Stored (suc n) r memory dest source f same inside =
      let s =
        one-Stored r (dest + n) (memory (source + n)) f
          (let i = inside in (omega arith, omega arith)) (same n (omega arith)) in
      let t =
        copy_down-Stored n s.region memory dest source f (λ i h. same i (omega arith))
          (let i = inside in (omega arith, omega arith)) in
      Stored-both s t (suc n) dest (inr (refl, refl)) (omega arith) inside

  -- Whichever way memcpy runs, each byte of the source arrives.
  pub memcpy-Stored :
      (n : ℕ) {m : Memory}
      → Mapping role free top first count page m
      → (memory : ℕ → ℕ) (dest source : ℕ) (f : ℕ → ℕ)
      → ((i : ℕ) → i < n → f (dest + i) ≡ memory (source + i))
      → Inside first count n dest
      → Stored role free top first count page m n dest f
          (memcpy memory (top * page_size) dest source n)
  unfolding memcpy
  memcpy-Stored n r memory dest source f same inside = elim (Bool-cases (ltb source dest)) [
    | inl y ↦ rw y (copy_down-Stored n r memory dest source f same inside)
    | inr y ↦ rw y (copy_up-Stored n r memory dest source f same inside)
  ]

  pub memset-Stored :
      (n : ℕ) {m : Memory}
      → Mapping role free top first count page m
      → (dest c : ℕ) (f : ℕ → ℕ) → ((i : ℕ) → i < n → f (dest + i) ≡ c)
      → Inside first count n dest
      → Stored role free top first count page m n dest f (memset n (top * page_size) dest c)
  unfolding memset
  memset-Stored zero r dest c f same inside = Stored-none r dest f
  memset-Stored (suc n) r dest c f same inside =
      let a : dest + 0 ≡ dest = omega arith in
      let s =
        one-Stored r dest c f (let i = inside in (omega arith, omega arith))
          (ap f (sym a) ∙ same 0 (omega arith)) in
      let t =
        memset-Stored n s.region (dest + 1) c f
          (λ i h.
            let e : dest + 1 + i ≡ dest + suc i = omega arith in rw e (same (suc i) (omega arith)))
          (let i = inside in (omega arith, omega arith)) in
      Stored-both s t (suc n) dest (inl (refl, refl)) (omega arith) inside
