-- ===== src/Memory/Take.antt =====
-- A frame taken from the free list (getFreeFrame) leaves the address space well formed.
use late_os.Common.{
  ℕ, ◌+◌, ◌*◌, ◌/◌, ◌<◌, ◌≡◌, ◌≢◌, refl, sym, ap, fun_ext, some, List, [], ◌∷◌, arith, length, All,
  update, subst,
}
use late_os.Memory.{Memory, page_size, get_free_frame}
use late_os.Memory.Walk.{Roles, Space, Fresh, addresses, Unused}
use late_os.Memory.Ensure.{Chain-next}

-- The page `page` is taken: it is in no use, and nothing else has changed.
pub record Taken (role : Roles) (free : List ℕ) (top : ℕ) (m : Memory) : Type 0 where
  pub page : ℕ
  pub rest : List ℕ
  pub after : Memory
  pub runs : get_free_frame m ≡ some (page * page_size, after)
  pub words : after.word ≡ m.word
  pub kernel : after.k_cr3 ≡ m.k_cr3
  pub pdpte : after.k_pdpte ≡ m.k_pdpte
  pub space : Space role rest top after
  pub unused : Unused role (addresses after.page_list) rest page
  pub was_free : (q : ℕ) → Unused role (addresses m.page_list) free q → page ≢ q
  pub stays :
      (q : ℕ)
      → Unused role (addresses m.page_list) free q
      → Unused role (addresses after.page_list) rest q
  pub left : length free ≡ length rest + 1

pub get_free_frame-Taken :
    (role : Roles) (free : List ℕ) (top : ℕ) (m : Memory)
    → Space role free top m
    → 0 < length free
    → Taken role free top m
unfolding get_free_frame update
get_free_frame-Taken role [] top m space enough = absurd (omega arith)
get_free_frame-Taken role (c ∷ cs) top m space enough =
    let node = m.page_list c in
    let list = update m.page_list c (record node { ref_count = 1 }) in
    let after : Memory = record m { page_list = list; head = node.next } in
    let aligned : node.address / page_size * page_size ≡ node.address =
      (let h = space.fresh.0 in omega arith) in
    let same_address : addresses list ≡ addresses m.page_list = (fun_ext λ x. ground arith) in
    let same_next : (x : ℕ) → (list x).next ≡ (m.page_list x).next = (λ x. ground arith) in
    record {
      page = node.address / page_size;
      rest = cs;
      after = after;
      runs = rw space.chain.0 (ap (λ a. some (a, after)) (sym aligned));
      words = refl;
      kernel = refl;
      pdpte = refl;
      space = record {
        tree = space.tree;
        chain = Chain-next m.page_list list node.next cs same_next space.chain.1;
        fresh = subst (λ a. Fresh role a cs) (sym same_address) space.fresh.3;
      };
      unused = (
        space.fresh.1,
        subst (λ a. All (λ n. a n / page_size ≢ node.address / page_size) cs) (sym same_address)
            space.fresh.2,
      );
      was_free = λ q (none_role, (not_here, not_free)) e. not_here e;
      stays = λ q (none_role, (not_here, not_free)).
          (none_role, subst (λ a. All (λ n. a n / page_size ≢ q) cs) (sym same_address) not_free);
      left = omega arith;
    }
