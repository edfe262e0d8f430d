-- ===== src/Memory/Rising.antt =====
-- A free list whose pages rise, and one page more (initializeFreelist in sys/paging.c).
use late_os.Common.{
  ℕ, ◌+◌, ◌*◌, ◌/◌, ◌<◌, ◌≤◌, ◌≡◌, refl, ap, ◌∙◌, subst, Option, none, some, List, [], ◌∷◌, ◌++◌,
  update, update_self, update-ne, arith, ltb, true,
}
use late_os.Memory.{FreeFrame, page_size}
use late_os.Memory.Free.{FreeList, page_count, add_frame}

-- The nodes from `head` on are `ns` in rising order below `high`, the last one is `last`, each has the
-- address of its page, and the chain ends behind it.
pub data Rising (pages : ℕ → FreeFrame) (last high : ℕ) : Option ℕ → List ℕ → Type 0 where
  single :
      last < high
      → (pages last).address ≡ last * page_size
      → (pages last).next ≡ none
      → Rising pages last high (some last) (last ∷ [])
  linked :
      {n : ℕ} {ns : List ℕ} {next : Option ℕ}
      → n < last
      → (pages n).address ≡ n * page_size
      → (pages n).next ≡ next
      → Rising pages last high next ns
      → Rising pages last high (some n) (n ∷ ns)

last-below :
    (pages : ℕ → FreeFrame) (last high : ℕ) {head : Option ℕ} {ns : List ℕ}
    → Rising pages last high head ns
    → last < high
last-below pages last high (single l a e) = l
last-below pages last high (linked l a e r) = last-below pages last high r

abbrev node : ℕ → FreeFrame
node i = record { address = i * page_size; ref_count = 0; next = none }

-- The descriptors with page `base` behind page `last`.
abbrev extended : (ℕ → FreeFrame) → ℕ → ℕ → ℕ → FreeFrame
extended pages last base =
    let listed = update pages base (node base) in
    update listed last (record (listed last) { next = some base })

extended-below :
    (pages : ℕ → FreeFrame) (last base n : ℕ)
    → last < base
    → n < last
    → extended pages last base n ≡ pages n
extended-below pages last base n b l =
    update-ne (update pages base (node base)) last n _ (λ e. absurd (omega arith))
    ∙ update-ne pages base n (node base) (λ e. absurd (omega arith))

extended-last :
    (pages : ℕ → FreeFrame) (last base : ℕ)
    → last < base
    → extended pages last base last ≡ record (pages last) { next = some base }
extended-last pages last base b =
    update_self (update pages base (node base)) last _
    ∙ ap (λ (f : FreeFrame). record f { next = some base })
        (update-ne pages base last (node base) (λ e. absurd (omega arith)))

extended-base :
    (pages : ℕ → FreeFrame) (last base : ℕ)
    → last < base
    → extended pages last base base ≡ node base
extended-base pages last base b =
    update-ne (update pages base (node base)) last base _ (λ e. absurd (omega arith))
    ∙ update_self pages base (node base)

-- One more page behind the last.
Rising-more :
    (pages : ℕ → FreeFrame) (last high base : ℕ) {head : Option ℕ} {ns : List ℕ}
    → Rising pages last high head ns
    → high ≤ base
    → Rising (extended pages last base) base (base + 1) head (ns ++ base ∷ [])
Rising-more pages last high base (single l a e) b =
    let here = extended-last pages last base (omega arith) in
    let new = extended-base pages last base (omega arith) in
    linked (omega arith) (ap (λ f. f.address) here ∙ a) (ap (λ f. f.next) here)
      (single (omega arith) (ap (λ f. f.address) new) (ap (λ f. f.next) new))
Rising-more pages last high base (linked {n} l a e r) b =
    let top = last-below pages last high r in
    let kept = extended-below pages last base n (omega arith) l in
    linked (omega arith) (ap (λ f. f.address) kept ∙ a) (ap (λ f. f.next) kept ∙ e)
      (Rising-more pages last high base r b)

-- The free list is empty, or a rising chain of pages below `high`.
pub data Listed (high : ℕ) (list : FreeList) : List ℕ → Type 0 where
  empty : list.head ≡ none → Listed high list []
  rising : {ns : List ℕ} → Rising list.page_list list.last high list.head ns → Listed high list ns

-- The result is a list, a rising chain of pages below `high`.
pub record Builds (high : ℕ) (result : Option FreeList) (ns : List ℕ) : Type 0 where
  pub list : FreeList
  pub is : result ≡ some list
  pub listed : Listed high list ns

head-some :
    (pages : ℕ → FreeFrame) (last high : ℕ) {head : Option ℕ} {ns : List ℕ}
    → Rising pages last high head ns
    → (h : ℕ) × (head ≡ some h)
head-some pages last high (single l a e) = (last, refl)
head-some pages last high (linked {n} l a e r) = (n, refl)

add_frame-none :
    (base : ℕ) (list : FreeList)
    → base < page_count
    → list.head ≡ none
    → add_frame (base * page_size) list
      ≡ some (record {
        page_list = update list.page_list base (node base);
        head = some base;
        last = base;
      })
unfolding add_frame
add_frame-none base list c e =
    let i : base * page_size / page_size ≡ base = omega arith in
    let room : ltb base page_count ≡ true = ground arith in rw (e, i, room) refl

add_frame-some :
    (base h : ℕ) (list : FreeList)
    → base < page_count
    → list.head ≡ some h
    → add_frame (base * page_size) list
      ≡ some (record {
        page_list = extended list.page_list list.last base;
        head = some h;
        last = base;
      })
unfolding add_frame
add_frame-some base h list c e =
    let i : base * page_size / page_size ≡ base = omega arith in
    let room : ltb base page_count ≡ true = ground arith in rw (e, i, room) refl

pub add_frame-Listed :
    (base high : ℕ) (list : FreeList) (ns : List ℕ)
    → Listed high list ns
    → high ≤ base
    → base < page_count
    → Builds (base + 1) (add_frame (base * page_size) list) (ns ++ base ∷ [])
add_frame-Listed base high list ns (empty e) b c =
    let here = update_self list.page_list base (node base) in
    record {
      list = _;
      is = add_frame-none base list c e;
      listed = rising (single (omega arith) (ap (λ f. f.address) here) (ap (λ f. f.next) here));
    }
add_frame-Listed base high list ns (rising r) b c =
    let (h, e) = head-some list.page_list list.last high r in
    record {
      list = _;
      is = add_frame-some base h list c e;
      listed = rising (
          subst
            (λ x.
              Rising (extended list.page_list list.last base) base (base + 1) x (ns ++ base ∷ []))
            e (Rising-more list.page_list list.last high base r b));
    }

Rising-le :
    (pages : ℕ → FreeFrame) (last low high : ℕ) {head : Option ℕ} {ns : List ℕ}
    → low ≤ high
    → Rising pages last low head ns
    → Rising pages last high head ns
Rising-le pages last low high le (single l a e) = single (omega arith) a e
Rising-le pages last low high le (linked l a e r) =
    linked l a e (Rising-le pages last low high le r)

pub Listed-le :
    (low high : ℕ) (list : FreeList) (ns : List ℕ)
    → low ≤ high
    → Listed low list ns
    → Listed high list ns
Listed-le low high list ns le (empty e) = empty e
Listed-le low high list ns le (rising r) = rising (Rising-le list.page_list list.last low high le r)
