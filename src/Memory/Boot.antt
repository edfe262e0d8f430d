-- ===== src/Memory/Boot.antt =====
-- The free list that the boot builds (sys/paging.c).
use late_os.Common.{
  ℕ, zero, suc, ◌+◌, ◌*◌, ◌/◌, ◌%◌, ◌≤◌, ◌<◌, ◌≡◌, refl, ap, ◌∙◌, subst, some, List, [], ◌∷◌, ◌++◌,
  ◌==◌, ◌&&◌, ltb, Bool-cases, inl, inr, not, if◌then◌else◌, arith, false,
}
use late_os.Memory.{page_size}
use late_os.Memory.Rising.{Listed, Builds, add_frame-Listed, Listed-le}
use late_os.Memory.Free.{Region, FreeList, page_count, add_pages, add_region, initialize_freelist}

append_assoc :
    {A : Type 0} (xs : List A) (y : A) (zs : List A) → (xs ++ y ∷ []) ++ zs ≡ xs ++ y ∷ zs
append_assoc [] y zs = refl
append_assoc (x ∷ xs) y zs = ap (λ l. x ∷ l) (append_assoc xs y zs)

append_none : {A : Type 0} (xs : List A) → xs ≡ xs ++ []
append_none [] = refl
append_none (x ∷ xs) = ap (λ l. x ∷ l) (append_none xs)

-- The pages from `b` on, of `n`, that lie behind the kernel and end before `end`.
pub usable : (n b end physfree : ℕ) → List ℕ
usable zero b end physfree = []
usable (suc n) b end physfree =
    let rest = usable n (b + 1) end physfree in
    if ltb (physfree + 0x1000) (b * page_size) && ltb (b * page_size + page_size) end
    then b ∷ rest
    else rest

usable_none : (n b end physfree : ℕ) → end ≤ b * page_size → usable n b end physfree ≡ []
unfolding usable
usable_none zero b end physfree o = refl
usable_none (suc n) b end physfree o =
    let late : (ltb (physfree + 0x1000) (b * page_size) && ltb (b * page_size + page_size) end)
        ≡ false =
      ground arith in
    rw late (usable_none n (b + 1) end physfree (omega arith))

built :
    {high : ℕ} {list : FreeList} {ns : List ℕ} → Listed high list ns → Builds high (some list) ns
built {list = list} l = record { list = list; is = refl; listed = l }

add_pages-Listed :
    (n b high end physfree : ℕ) (list : FreeList) (ns : List ℕ)
    → Listed high list ns
    → high ≤ b
    → high ≤ end / page_size
    → end ≤ (b + n) * page_size
    → end ≤ page_count * page_size
    → Builds
        (end / page_size)
        (add_pages n (b * page_size) end physfree list)
        (ns ++ usable n b end physfree)
unfolding add_pages usable
add_pages-Listed zero b high end physfree list ns l h t f c =
    rw (← append_none ns) (built (Listed-le high (end / page_size) list ns t l))
add_pages-Listed (suc n) b high end physfree list ns l h t f c =
    let next : b * page_size + page_size ≡ (b + 1) * page_size = omega arith in
    elim (Bool-cases (ltb (b * page_size) end)) [
      | inl more ↦
          elim (Bool-cases
            (ltb (physfree + 0x1000) (b * page_size) && ltb (b * page_size + page_size) end)) [
              | inl good ↦
                  let fits : b < page_count = ground arith in
                  let added = add_frame-Listed b high list ns l h fits in
                  rw
                    (
                      more,
                      good,
                      added.is,
                      next,
                      ← append_assoc ns b (usable n (b + 1) end physfree),
                    )
                    (add_pages-Listed n (b + 1) (b + 1) end physfree added.list (ns ++ b ∷ [])
                      added.listed (omega arith) (ground arith) (omega arith) c)
              | inr bad ↦
                  rw (more, bad, next)
                    (add_pages-Listed n (b + 1) high end physfree list ns l (omega arith) t
                      (omega arith) c)
            ]
      | inr over ↦
          let past : end ≤ b * page_size = ground arith in
          let late : (ltb (physfree + 0x1000) (b * page_size)
                && ltb (b * page_size + page_size) end)
              ≡ false =
            ground arith in
          rw (over, late, usable_none n (b + 1) end physfree (omega arith), ← append_none ns)
            (built (Listed-le high (end / page_size) list ns t l))
    ]

-- The usable pages of a memory map.
pub usable_all : (physfree : ℕ) → List Region → List ℕ
usable_all physfree [] = []
usable_all physfree (r ∷ rs) =
    let here =
      usable (r.length / page_size + 1) (r.base / page_size) (r.base + r.length) physfree in
    (if (r.kind == 1) && not (r.length == 0) then here else []) ++ usable_all physfree rs

-- The regions begin at pages, in rising order, and none begins before the one in front of it ends; those
-- of usable memory end in front of the pages that `pagelist` has no place for.
abbrev pub Ascending : ℕ → List Region → Type 0
Ascending high [] = Unit
Ascending high (r ∷ rs) =
    (r.base % page_size ≡ 0)
    × (high * page_size ≤ r.base)
    × (r.kind ≡ 1 → r.base + r.length ≤ page_count * page_size)
    × Ascending ((r.base + r.length) / page_size) rs

add_region-Listed :
    (physfree high : ℕ) (r : Region) (list : FreeList) (ns : List ℕ)
    → Listed high list ns
    → r.base % page_size ≡ 0
    → high * page_size ≤ r.base
    → (r.kind ≡ 1 → r.base + r.length ≤ page_count * page_size)
    → Builds ((r.base + r.length) / page_size) (add_region physfree r list) (
        ns
        ++ (if (r.kind == 1) && not (r.length == 0)
            then usable (r.length / page_size + 1) (r.base / page_size) (r.base + r.length) physfree
            else []))
unfolding add_region
add_region-Listed physfree high r list ns l aligned behind room =
    elim (Bool-cases ((r.kind == 1) && not (r.length == 0))) [
      | inl free ↦
          let b = r.base / page_size in
          let at : b * page_size ≡ r.base = omega arith in
          let kind : r.kind ≡ 1 = ground arith in
          let end = room kind in
          rw free (
            subst
              (λ x.
                Builds ((r.base + r.length) / page_size)
                  (add_pages (r.length / page_size + 1) x (r.base + r.length) physfree list)
                  (ns ++ usable (r.length / page_size + 1) b (r.base + r.length) physfree))
              at
              (add_pages-Listed (r.length / page_size + 1) b high (r.base + r.length) physfree list
                ns l (omega arith) (omega arith) (omega arith) end))
      | inr reserved ↦
          rw (reserved, ← append_none ns)
            (built (Listed-le high ((r.base + r.length) / page_size) list ns (omega arith) l))
    ]

append_append : {A : Type 0} (xs ys zs : List A) → (xs ++ ys) ++ zs ≡ xs ++ (ys ++ zs)
append_append [] ys zs = refl
append_append (x ∷ xs) ys zs = ap (λ l. x ∷ l) (append_append xs ys zs)

initialize_freelist-step :
    (physfree : ℕ) (r : Region) (rs : List Region) (list list' : FreeList)
    → add_region physfree r list ≡ some list'
    → initialize_freelist physfree (r ∷ rs) list ≡ initialize_freelist physfree rs list'
unfolding initialize_freelist
initialize_freelist-step physfree r rs list list' e = rw (initialize_freelist, e) refl

-- For regions that begin at pages, rise without overlap, and whose usable memory ends within the 75000
-- pages that `pagelist` has places for: to an empty free list, or one that rises below the regions,
-- initializeFreelist adds the map's usable pages in order, and writes to no place behind the array: each node has the address of its page, the nodes' indices rise, so no
-- page comes twice, and the chain ends behind the last.
pub initialize_freelist-Listed :
    (physfree high : ℕ) (rs : List Region) (list : FreeList) (ns : List ℕ)
    → Listed high list ns
    → Ascending high rs
    → (top : ℕ) × Builds top (initialize_freelist physfree rs list) (ns ++ usable_all physfree rs)
unfolding initialize_freelist usable_all
initialize_freelist-Listed physfree high [] list ns l a = (high, rw (← append_none ns) (built l))
initialize_freelist-Listed physfree high (r ∷ rs) list ns l (aligned, behind, room, a) =
    let here =
      if (r.kind == 1) && not (r.length == 0)
      then usable (r.length / page_size + 1) (r.base / page_size) (r.base + r.length) physfree
      else [] in
    let added = add_region-Listed physfree high r list ns l aligned behind room in
    let (top, rest) =
      initialize_freelist-Listed physfree ((r.base + r.length) / page_size) rs added.list
        (ns ++ here) added.listed a in
    (
      top,
      record {
        list = rest.list;
        is = initialize_freelist-step physfree r rs list added.list added.is ∙ rest.is;
        listed = rw (← append_append ns here (usable_all physfree rs)) rest.listed;
      },
    )
