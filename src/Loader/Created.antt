-- ===== src/Loader/Created.antt =====
-- The first program, from the archive to its entry (createNewTask in sys/process.c).
use late_os.Common.{ℕ, ◌+◌, ◌-◌, ◌*◌, ◌<◌, ◌≡◌, ap, ◌∙◌, some, List, ◌∷◌, arith}
use late_os.Memory.{Memory, page_size, kernbase, slot, ◌>>=◌}
use late_os.Memory.Walk.{translate, Roles, Unused, addresses}
use late_os.Memory.Pages.{IsKernel, IsData, IsKernel-kept, IsData-kept, Paged, taken-keeps}
use late_os.Memory.NewPage.{kmalloc-get_new_page}
use late_os.Memory.Take.{Taken}
use late_os.Memory.Mapping.{Mapped}
use late_os.Process.{VmArea}
use late_os.Process.Create.{stack_s, vma_size}
use late_os.Process.Areas.{set_my_vma}

-- An area whose node kmalloc has allocated.
pub set_my_vma-runs :
    {role : Roles} {free : List ℕ} {top pdpe : ℕ} {m : Memory}
    → (from to_end : ℕ) (vm : List VmArea) (p : Paged role free top pdpe m)
    → set_my_vma from to_end vm m
      ≡ some (
        record {
          begin_address = from;
          last_address = to_end;
          offset = p.after.word (slot (kernbase + p.page * page_size - kernbase) 2);
        }
            ∷ vm,
        p.after,
      )
unfolding set_my_vma
set_my_vma-runs {m = m} from to_end vm p =
    rw (set_my_vma, ◌>>=◌, kmalloc-get_new_page vma_size m (omega arith) ∙ p.runs)

-- A page of an address space is mapped in another of its pages; data and the kernel's tables stay.
module _ {role : Roles} {free : List ℕ} {top pdpe virtual physical : ℕ} {m : Memory}
    (p : Mapped role free top virtual physical m) (k : IsKernel role free pdpe m) where
  abbrev unused_stays :
      (q : ℕ)
      → Unused role (addresses m.page_list) free q
      → Unused p.role' (addresses p.after.page_list) p.free' q
  unused_stays q u = (p.stays q u).0

  leaves_stay : (j : ℕ) → j < 512 → p.after.word (pdpe * 512 + j) ≡ m.word (pdpe * 512 + j)
  leaves_stay j h = (p.stays pdpe k.pdpe_unused).1 j h

  pub Mapped-IsKernel : IsKernel p.role' p.free' pdpe p.after
  Mapped-IsKernel =
      IsKernel-kept role p.role' free p.free' pdpe m p.after p.kernel.0 p.kernel.1 unused_stays
        leaves_stay k ((p.stays _ k.pml4_unused).1 511 (omega arith))
        ((p.stays _ k.pdpte_unused).1 510 (omega arith))

  pub Mapped-IsData : (q : ℕ) → IsData role free pdpe m q → IsData p.role' p.free' pdpe p.after q
  Mapped-IsData =
      IsData-kept role p.role' free p.free' pdpe m p.after p.kernel.0 p.kernel.1 unused_stays
        leaves_stay

-- What one step leaves of a segment: it is translated as before, and data stays.
pub record Step (role role' : Roles) (free free' : List ℕ) (top pdpe : ℕ) (m m' : Memory)
    : Type 0 where
  pub walks : (u : ℕ) → u < stack_s → translate m'.word top u ≡ translate m.word top u
  pub stays :
      (q : ℕ)
      → IsData role free pdpe m q
      → IsData role' free' pdpe m' q
        × ((j : ℕ) → j < 512 → m'.word (q * 512 + j) ≡ m.word (q * 512 + j))

pub Step-then :
    {r₁ r₂ r₃ : Roles} {f₁ f₂ f₃ : List ℕ} {top pdpe : ℕ} {m₁ m₂ m₃ : Memory}
    → Step r₁ r₂ f₁ f₂ top pdpe m₁ m₂
    → Step r₂ r₃ f₂ f₃ top pdpe m₂ m₃
    → Step r₁ r₃ f₁ f₃ top pdpe m₁ m₃
Step-then s t = record {
  walks = λ u h. t.walks u h ∙ s.walks u h;
  stays = λ q d.
      let (d', w') = s.stays q d in let (d'', w'') = t.stays q d' in (d'', λ j h. w'' j h ∙ w' j h);
}

pub Paged-Step :
    {role : Roles} {free : List ℕ} {top pdpe : ℕ} {m : Memory} (p : Paged role free top pdpe m)
    → Step role role free p.rest top pdpe m p.after
Paged-Step p = record { walks = λ u h. p.walks u (omega arith); stays = p.stays }

Taken-Step :
    {role : Roles} {free : List ℕ} {top pdpe : ℕ} {m : Memory} (k : IsKernel role free pdpe m)
    (t : Taken role free top m)
    → Step role role free t.rest top pdpe m t.after
Taken-Step {top = top} k t = record {
  walks = λ u h. ap (λ w. translate w top u) t.words;
  stays = λ q d. (taken-keeps k t q d, λ j h. ap (λ w. w (q * 512 + j)) t.words);
}

-- The stack lies above all that a step speaks of.
Mapped-Step :
    {role : Roles} {free : List ℕ} {top pdpe physical : ℕ} {m : Memory}
    (k : IsKernel role free pdpe m) (p : Mapped role free top stack_s physical m)
    → Step role p.role' free p.free' top pdpe m p.after
Mapped-Step k p = record {
  walks = λ u h. p.others u (omega arith) (λ e. omega arith);
  stays = λ q d. (Mapped-IsData p k q d, (p.stays q d.unused).1);
}
