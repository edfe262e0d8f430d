-- ===== src/Common/Arrays.antt =====
-- A C array as a function from the index, with assignment and the counted loop over it.
use Prim.Native.Nat.{ℕ, zero, suc, ◌+◌}
use mathlib.Core.Path.{◌≡◌, ap, ◌∙◌}
use mathlib.Core.Logic.{◌≢◌}
use mathlib.Core.Bool.{◌&&◌, true}
use native.Mathlib.Omega.{arith}
use mathlib.Core.Logic.{inl, inr}
use late_os.Common.Tests.{Bool-cases, ==→eq, ◌==◌, ltb, leb, if◌then◌else◌}

module _ {ℓ} {A : Type ℓ} where
  -- `f[p] = v`
  unfoldable pub update : (ℕ → A) → ℕ → A → ℕ → A
  update f p v q = if p == q then v else f q

  pub update_self : (f : ℕ → A) (p : ℕ) (v : A) → update f p v p ≡ v
  unfolding update
  update_self f p v = ground arith

  pub update-ne : (f : ℕ → A) (p q : ℕ) (v : A) → p ≢ q → update f p v q ≡ f q
  unfolding update
  update-ne f p q v h = ground arith

  -- for (i = from; i < from + n; i++) f[i] = body(f[i]);
  unfoldable pub for_each : ℕ → ℕ → (A → A) → (ℕ → A) → ℕ → A
  for_each zero from body f = f
  for_each (suc n) from body f = for_each n (from + 1) body (update f from (body (f from)))

  -- The loop changes each entry in its range once, and no other.
  pub for_each_lem :
      (n from : ℕ) (body : A → A) (f : ℕ → A) (i : ℕ)
      → for_each n from body f i ≡ (if leb from i && ltb i (from + n) then body (f i) else f i)
  unfolding for_each update
  for_each_lem zero from body f i = ground arith
  for_each_lem (suc n) from body f i =
      ground (arith, for_each_lem n (from + 1) body (update f from (body (f from))) i)

-- An assignment that keeps a property of the entry keeps it everywhere.
pub update-keeps {ℓ κ} :
    {A : Type ℓ} {B : Type κ} (g : A → B) (f : ℕ → A) (p : ℕ) (v : A) (i : ℕ)
    → g v ≡ g (f p)
    → g (update f p v i) ≡ g (f i)
unfolding update
update-keeps g f p v i h = elim (Bool-cases (p == i)) [
  | inl e ↦ rw e (h ∙ ap (λ j. g (f j)) (==→eq p i e))
  | inr e ↦ rw e
]

-- A loop whose body keeps a property of the entries keeps it everywhere.
pub for_each-keeps {ℓ κ} :
    {A : Type ℓ} {B : Type κ} (g : A → B) (n from : ℕ) (body : A → A) (f : ℕ → A) (i : ℕ)
    → ((a : A) → g (body a) ≡ g a)
    → g (for_each n from body f i) ≡ g (f i)
for_each-keeps g n from body f i same = elim (Bool-cases (leb from i && ltb i (from + n))) [
  | inl e ↦ rw (for_each_lem n from body f i, e) (same (f i))
  | inr e ↦ rw (for_each_lem n from body f i, e)
]

pub for_each-inside {ℓ} :
    {A : Type ℓ} (n : ℕ) (body : A → A) (f : ℕ → A) (i : ℕ)
    → ltb i n ≡ true
    → for_each n 0 body f i ≡ body (f i)
for_each-inside n body f i h = ground (arith, for_each_lem n 0 body f i)

pub update-at {ℓ κ} :
    {A : Type ℓ} {B : Type κ} (g : A → B) (f : ℕ → A) (p : ℕ) (v : A) (i : ℕ)
    → g (update f p v i) ≡ (if p == i then g v else g (f i))
unfolding update
update-at g f p v i = elim (Bool-cases (p == i)) [ inl e ↦ rw e | inr e ↦ rw e ]
