-- ===== src/Vectors/Gates.antt =====
-- Which handler the processor calls for which interrupt (sys/idt.c).
use late_os.Common.{
  ◌⊎◌, inl, inr, Bool-cases, ==→eq, true, ℕ, zero, suc, ◌+◌, ◌*◌, ◌^◌, ◌<◌, ◌≡◌, refl, ◌∙◌, ap,
  arith, ◌==◌, ltb, leb, ◌&&◌, if◌then◌else◌, update,
}
use late_os.Vectors.{Gate, gate, Handlers, init_isr, init_all, idt_initialise}

-- The address that the processor puts together from the three parts of a gate.
abbrev pub target : Gate → ℕ
target g = g.lower_offset + g.mid_offset * 2 ^ 16 + g.high_offset * 2 ^ 32

-- The handler of an interrupt that has one.
abbrev pub handler : Handlers → ℕ → ℕ
handler h i =
    if 128 == i
    then h.isr128
    else if 33 == i
    then h.keyboard
    else if 32 == i
    then h.timer
    else if 14 == i
    then h.isr14
    else h.isr0

target-gate : (i f : ℕ) → f < 2 ^ 64 → target (gate i f) ≡ f
unfolding gate
target-gate i f h = omega arith

init_all_lem :
    (n from f : ℕ) (table : ℕ → Gate) (i : ℕ)
    → init_all n from f table i ≡ (if leb from i && ltb i (from + n) then gate i f else table i)
unfolding init_all init_isr update
init_all_lem zero from f table i = ground arith
init_all_lem (suc n) from f table i =
    ground (arith, init_all_lem n (from + 1) f (update table from (gate from f)) i)

idt_initialise-gate :
    (h : Handlers) (table : ℕ → Gate) (i : ℕ)
    → (i < 34) ⊎ (i ≡ 128)
    → idt_initialise h table i ≡ gate i (handler h i)
unfolding idt_initialise init_isr update
idt_initialise-gate h table i handled = elim (Bool-cases (128 == i)) [
  | inl e ↦ rw e (ap (λ j. gate j h.isr128) (==→eq 128 i e))
  | inr a ↦ elim (Bool-cases (33 == i)) [
    | inl e ↦ rw (a, e) (ap (λ j. gate j h.keyboard) (==→eq 33 i e))
    | inr b ↦ elim (Bool-cases (32 == i)) [
      | inl e ↦ rw (a, b, e) (ap (λ j. gate j h.timer) (==→eq 32 i e))
      | inr c ↦ elim (Bool-cases (14 == i)) [
        | inl e ↦ rw (a, b, c, e) (ap (λ j. gate j h.isr14) (==→eq 14 i e))
        | inr d ↦
            let low : (leb 0 i && ltb i (0 + 32)) ≡ true = elim handled [
              | inl l ↦ ground arith
              | inr l ↦ ground arith
            ] in
            rw (a, b, c, d, init_all_lem 32 0 h.isr0 table i, low) refl
      ]
    ]
  ]
]

-- Each interrupt below 34, and 128, gets a gate to its handler, whose 64-bit address the processor
-- puts together again from the gate, and of these only the gate of 128 may be called by user code.
pub idt_initialise-target :
    (h : Handlers) (table : ℕ → Gate) (i : ℕ)
    → (i < 34) ⊎ (i ≡ 128)
    → handler h i < 2 ^ 64
    → (target (idt_initialise h table i) ≡ handler h i)
      × ((idt_initialise h table i).kind ≡ (if i == 128 then 0xEE else 0x8E))
unfolding gate
idt_initialise-target h table i handled fits =
    let e = idt_initialise-gate h table i handled in
    (ap target e ∙ target-gate i (handler h i) fits, ap (λ g. g.kind) e)
