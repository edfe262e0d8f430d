-- ===== src/Screen/Clock.antt =====
-- The clock that the timer draws (intTimer in sys/idt.c). The bytes of the screen's memory are a
-- function from the address.
use native.Mathlib.Nat.{pow-suc}
use late_os.Common.{
  ℕ, zero, suc, ◌+◌, ◌-◌, ◌*◌, ◌/◌, ◌%◌, ◌^◌, ◌≤◌, ◌<◌, ◌≡◌, ◌≢◌, refl, sym, ◌∙◌, inl, inr, ◌⊎◌,
  arith, ltb, if◌then◌else◌, Bool-cases, update, update-ne, update_self, true, false, Option, some,
  none,
}

-- The loop, from the last digit on; the fuel counts digits.
unfoldable pub clock_loop : (fuel temp reg : ℕ) → (ℕ → ℕ) → Option (ℕ → ℕ)
clock_loop zero temp reg screen = none
clock_loop (suc fuel) temp reg screen =
    let rest =
      clock_loop fuel (temp / 10) (reg - 2) (update screen reg ((b'0' + temp % 10) % 256)) in
    if ltb 0 temp then rest else some screen

-- `reg`: where the last digit stands, as an offset in the memory of the screen.
abbrev pub clock_end : ℕ
clock_end = 0xF9E

-- The digits of `totalSecs`, an `int` by its 32 bits, which has none where it is negative.
unfoldable pub draw_clock : (total_secs : ℕ) → (ℕ → ℕ) → Option (ℕ → ℕ)
unfolding clock_loop
draw_clock total_secs screen =
    clock_loop 11 (if ltb total_secs (2 ^ 31) then total_secs else 0) clock_end screen

-- The number that `n` digits show, the last one at `reg`.
unfoldable pub shown : (n reg : ℕ) → (ℕ → ℕ) → ℕ
shown zero reg screen = 0
shown (suc n) reg screen = (screen reg - b'0') + 10 * shown n (reg - 2) screen

-- The digits of a number.
pub record Clock (n reg temp : ℕ) (screen screen' : ℕ → ℕ) : Type 0 where
  pub reads : shown n reg screen' ≡ temp
  pub others : (a : ℕ) → (reg < a) ⊎ (a + 2 * n ≤ reg) → screen' a ≡ screen a
  pub spread : (a : ℕ) → a % 2 ≢ reg % 2 → screen' a ≡ screen a

-- The digits of a number behind its last one.
module _ (n reg temp : ℕ) (screen screen' : ℕ → ℕ) (room : 2 ≤ reg)
    (c : Clock n (reg - 2) (temp / 10) (update screen reg ((b'0' + temp % 10) % 256)) screen') where
  last_digit : screen' reg ≡ b'0' + temp % 10
  last_digit =
      c.others reg (inl (omega arith))
      ∙ update_self screen reg _
      ∙ (let e : (b'0' + temp % 10) % 256 ≡ b'0' + temp % 10 = omega arith in e)

  Clock-digit : Clock (suc n) reg temp screen screen'
  unfolding shown
  Clock-digit = record {
    reads = rw (last_digit, c.reads) (omega arith);
    others = λ a o.
        let apart : (reg - 2 < a) ⊎ (a + 2 * n ≤ reg - 2) = elim o [
          | inl x ↦ inl (omega arith)
          | inr x ↦ inr (omega arith)
        ] in
        c.others a apart
        ∙ update-ne screen reg a _ (λ e. elim o [ inl x ↦ omega arith | inr x ↦ omega arith ]);
    spread = λ a o. c.spread a (omega arith) ∙ update-ne screen reg a _ (λ e. omega arith);
  }

Clock-none : (temp reg : ℕ) (screen : ℕ → ℕ) → temp ≡ 0 → Clock 0 reg temp screen screen
unfolding shown
Clock-none temp reg screen e = record { reads = sym e; others = λ a o. refl; spread = λ a o. refl }

clock_loop-Clock :
    (fuel temp reg : ℕ) (screen : ℕ → ℕ)
    → temp < 10 ^ fuel
    → 2 * fuel ≤ reg
    → (screen' : ℕ → ℕ) × (n : ℕ) × (clock_loop (suc fuel) temp reg screen ≡ some screen')
      × Clock n reg temp screen screen'
unfolding clock_loop
clock_loop-Clock zero temp reg screen h room =
    let none_left : ltb 0 temp ≡ false = ground arith in
    (screen, 0, rw none_left, Clock-none temp reg screen (omega arith))
clock_loop-Clock (suc fuel) temp reg screen h room = elim (Bool-cases (ltb 0 temp)) [
  | inl more ↦
      let p = pow-suc 10 fuel in
      let (screen', n, runs, c) =
        clock_loop-Clock fuel (temp / 10) (reg - 2) (update screen reg ((b'0' + temp % 10) % 256))
          (omega arith) (omega arith) in
      (screen', suc n, rw more runs, Clock-digit n reg temp screen screen' (omega arith) c)
  | inr over ↦ (screen, 0, rw over, Clock-none temp reg screen (ground arith))
]

-- Once a second the clock is drawn for every time below 2 ^ 31: the digits that end at the clock's
-- place then read as the seconds, in base 10, and no byte behind the last digit, in front of the
-- first one, or between two of them has changed.
pub draw_clock-Clock :
    (total_secs : ℕ) (screen : ℕ → ℕ)
    → total_secs < 2 ^ 31
    → (screen' : ℕ → ℕ) × (n : ℕ) × (draw_clock total_secs screen ≡ some screen')
      × Clock n clock_end total_secs screen screen'
unfolding draw_clock
draw_clock-Clock total_secs screen h =
    let positive : ltb total_secs (2 ^ 31) ≡ true = ground arith in
    let (screen', n, runs, c) =
      clock_loop-Clock 10 total_secs clock_end screen (omega arith) (omega arith) in
    (screen', n, rw positive runs, c)
