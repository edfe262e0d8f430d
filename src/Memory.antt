-- ===== src/Memory.antt =====
-- The machine's physical memory and the free list of page frames (sys/paging.c, include/sys/mem.h).
--
-- Memory is an array of 64-bit words: `word i` stands at the physical address 8 * i. The kernel
-- reaches a frame at the virtual address kernbase + address, so `pml4[i]` for a table at the
-- physical address `p` is the word `slot p i`. A command is a function from the memory to its
-- result and the new memory; `none` is a fault, the null dereference of an empty free list.
pub mod Tables
pub mod Kernel
pub mod Cow
pub mod Walk
pub mod Free
pub mod Rising
pub mod Setup
pub mod Boot
pub mod Link
pub mod Map
pub mod Ensure
pub mod Mapping
pub mod Take
pub mod Fill
pub mod Pages
pub mod Leaves
pub mod NewPage
pub mod Release
pub mod Emptied
pub mod Tests
use late_os.Common.{
  ℕ, zero, suc, ◌+◌, ◌*◌, ◌/◌, ◌%◌, ◌^◌, Bool, true, false, Option, none, some, ◌==◌, ◌≡◌, refl,
  update, for_each,
}

-- `struct freelist`; `next` is the index of a node in the array `pagelist`.
pub record FreeFrame : Type 0 where
  pub address : ℕ
  pub ref_count : ℕ
  pub next : Option ℕ

pub record Memory : Type 0 where
  pub word : ℕ → ℕ
  pub page_list : ℕ → FreeFrame
  pub head : Option ℕ
  pub k_cr3 : ℕ  -- the physical address of the kernel's pml4
  pub k_pdpte : ℕ  -- the physical address of the table behind the global `pdpte`

abbrev pub page_size : ℕ
page_size = 4096

abbrev pub kernbase : ℕ
kernbase = 0xffffffff80000000

abbrev pub M : Type 0 → Type 0
M A = Memory → Option (A × Memory)

abbrev pub pure : {A : Type 0} → A → M A
pure a m = some (a, m)

infixl 5 ◌>>=◌ ◌>>◌
abbrev pub ◌>>=◌ : {A B : Type 0} → M A → (A → M B) → M B
◌>>=◌ c k m = elim (c m) [ none ↦ none | some (a, m') ↦ k a m' ]

abbrev pub ◌>>◌ : {B : Type 0} → M (Unit {0}) → M B → M B
c >> k = c >>= λ _. k

-- The parts of a successful sequence.
pub bind-some :
    {A B : Type 0} (c : M A) (k : A → M B) (m : Memory) {r : B × Memory}
    → (c >>= k) m ≡ some r
    → (a : A) × (m' : Memory) × (c m ≡ some (a, m')) × (k a m' ≡ some r)
bind-some {A} {B} c k m {r} e = parts (c m) refl e
  where
    parts :
        (o : Option (A × Memory))
        → c m ≡ o
        → (elim o [ none ↦ none | some (a, m') ↦ k a m' ]) ≡ some r
        → (a : A) × (m' : Memory) × (c m ≡ some (a, m')) × (k a m' ≡ some r)
    parts none e' h = cc
    parts (some (a, m')) e' h = (a, m', e', h)

-- for (i = from; i < from + n; i++) body(i);
unfoldable pub for_loop : ℕ → ℕ → (ℕ → M (Unit {0})) → M (Unit {0})
for_loop zero from body = pure tt
for_loop (suc n) from body = body from >> for_loop n (from + 1) body

-- The word `table[i]` of a table of 64-bit entries.
abbrev pub slot : ℕ → ℕ → ℕ
slot table i = table / 8 + i

-- `entry & validatebits`
abbrev pub frame : ℕ → ℕ
frame e = e / page_size * page_size

-- `(address & validatebits) | flags`, for flags in the low 12 bits.
abbrev pub entry : ℕ → ℕ → ℕ
entry address flags = frame address + flags

-- `entry & 1`
abbrev pub present : ℕ → Bool
present e = e % 2 == 1

-- The four indices of a virtual address: `(virtual >> (12+9+9+9)) & 511` and so on down.
abbrev pub index4 : ℕ → ℕ
index4 v = v / 2 ^ 39 % 512

abbrev pub index3 : ℕ → ℕ
index3 v = v / 2 ^ 30 % 512

abbrev pub index2 : ℕ → ℕ
index2 v = v / 2 ^ 21 % 512

abbrev pub index1 : ℕ → ℕ
index1 v = v / 2 ^ 12 % 512

abbrev pub load : ℕ → M ℕ
load i m = some (m.word i, m)

abbrev pub store : ℕ → ℕ → M (Unit {0})
store i v m = some (tt, record m { word = update m.word i v })

abbrev pub when : Bool → M (Unit {0}) → M (Unit {0})
when true c = c
when false c = pure tt

-- `memset(table, 0, pageSize)` on a frame.
unfoldable pub memset_page : ℕ → M (Unit {0})
memset_page table m = some (tt, record m { word = for_each 512 (table / 8) (λ _. 0) m.word })

-- `static uint64_t *pml4e` and `*pdpte`, by their frames.
abbrev pub kernel_pml4 : M ℕ
kernel_pml4 m = some (m.k_cr3, m)

abbrev pub kernel_pdpte : M ℕ
kernel_pdpte m = some (m.k_pdpte, m)

-- Takes the first node off the list, marks it used and returns its address.
unfoldable pub get_free_frame : M ℕ
get_free_frame m = elim m.head [
  | none ↦ none
  | some i ↦
      let node = m.page_list i in
      some (
        node.address,
        record m {
          page_list = update m.page_list i (record node { ref_count = 1 });
          head = node.next;
        },
      )
]
