-- ===== src/Keyboard/Lines.antt =====
-- A line that is typed is the line that is read.
use late_os.Common.{
  ℕ, zero, suc, ◌+◌, ◌-◌, ◌≤◌, ◌<◌, ◌≡◌, ◌≢◌, refl, sym, ap, ◌∙◌, inl, inr, true, some, List, [],
  ◌∷◌, arith, ◌==◌, ltb, Bool-cases, ==→eq, eq→==, update, update_self, update-ne, length, All,
}
use late_os.Process.{Kernel, running}
use late_os.Process.Wait.{set_state}
use late_os.Keyboard.{Keys, Console, type_key, enter_key, scan_line, int_read, line}

-- The characters of a text typed one after the other.
pub type_all : List ℕ → Console → Console
type_all [] con = con
type_all (c ∷ cs) con = type_all cs (type_key c con)

-- The buffer holds `cs` from `start` on.
pub Holds : (ℕ → ℕ) → ℕ → List ℕ → Type 0
Holds buffer start [] = Unit
Holds buffer start (c ∷ cs) = (buffer start ≡ c) × Holds buffer (start + 1) cs

pub record Typed (cs : List ℕ) (con con' : Console) : Type 0 where
  pub str_offset : con'.keys.str_offset ≡ con.keys.str_offset + length cs
  pub offset : con'.keys.offset ≡ con.keys.offset
  pub line_count : con'.keys.line_count ≡ con.keys.line_count
  pub before : (i : ℕ) → i < con.keys.str_offset → con'.keys.inp_str i ≡ con.keys.inp_str i
  pub holds : Holds con'.keys.inp_str con.keys.str_offset cs

Holds-same :
    (buffer buffer' : ℕ → ℕ) (start : ℕ) (cs : List ℕ)
    → ((i : ℕ) → start ≤ i → i < start + length cs → buffer' i ≡ buffer i)
    → Holds buffer start cs
    → Holds buffer' start cs
unfolding Holds
Holds-same buffer buffer' start [] same h = tt
Holds-same buffer buffer' start (c ∷ cs) same (h, hs) = (
  same start (omega arith) (omega arith) ∙ h,
  Holds-same buffer buffer' (start + 1) cs (λ i l b. same i (omega arith) (omega arith)) hs,
)

type_all-Typed : (cs : List ℕ) (con : Console) → Typed cs con (type_all cs con)
unfolding type_all Holds type_key
type_all-Typed [] con = record {
  str_offset = omega arith;
  offset = refl;
  line_count = refl;
  before = λ i h. refl;
  holds = tt;
}
type_all-Typed (c ∷ cs) con =
    let next = type_all-Typed cs (type_key c con) in
    let at = con.keys.str_offset in
    record {
      str_offset = let e = next.str_offset in omega arith;
      offset = next.offset;
      line_count = next.line_count;
      before = λ i h.
          next.before i (omega arith)
          ∙ update-ne con.keys.inp_str at i c (λ e. absurd (omega arith));
      holds = (next.before at (omega arith) ∙ update_self con.keys.inp_str at c, next.holds);
    }

-- The scan of a held line.
scan_line-Holds :
    (fuel start : ℕ) (cs : List ℕ) (buffer : ℕ → ℕ)
    → length cs < fuel
    → Holds buffer start cs
    → All (λ c. c ≢ b'\n') cs
    → buffer (start + length cs) ≡ b'\n'
    → ((scan_line fuel start buffer).0 ≡ cs)
      × ((scan_line fuel start buffer).2 ≡ some (start + length cs))
unfolding scan_line Holds
scan_line-Holds zero start cs buffer f h a e = absurd (omega arith)
scan_line-Holds (suc fuel) start [] buffer f h a e =
    let here : start + 0 ≡ start = omega arith in
    let at_end = eq→== (buffer start) b'\n' (ap buffer (sym here) ∙ e) in
    rw (at_end, here) (refl, refl)
scan_line-Holds (suc fuel) start (c ∷ cs) buffer f h a e =
    elim (Bool-cases (buffer start == b'\n')) [
      | inl nl ↦ absurd (a.0 (sym h.0 ∙ ==→eq (buffer start) b'\n' nl))
      | inr other ↦
          let cleared = update buffer start 0 in
          let next = start + 1 in
          let there : next + length cs ≡ start + suc (length cs) = omega arith in
          let (read, end) =
            scan_line-Holds fuel next cs cleared (omega arith)
              (Holds-same buffer cleared next cs
                (λ i l b. update-ne buffer start i 0 (λ x. absurd (omega arith))) h.1)
              a.1
              (update-ne buffer start (next + length cs) 0 (λ x. absurd (omega arith))
                ∙ ap buffer there
                ∙ e) in
          rw (other, h.0) (ap (λ l. c ∷ l) read, end ∙ ap some there)
    ]

int_read-found :
    (keys : Keys) (k : Kernel) (e : ℕ) (cs : List ℕ)
    → ltb 0 keys.line_count ≡ true
    → (scan_line (4096 - keys.offset) keys.offset keys.inp_str).0 ≡ cs
    → (scan_line (4096 - keys.offset) keys.offset keys.inp_str).2 ≡ some e
    → int_read keys k
      ≡ line cs
          (record keys {
            inp_str = (scan_line (4096 - keys.offset) keys.offset keys.inp_str).1;
            offset = e + 1;
            line_count = keys.line_count - 1;
          })
          (set_state running k.current_task k)
unfolding int_read
int_read-found keys k e cs counted read end = rw (counted, end, read) refl

-- A line typed on an empty queue and ended by Enter, if it fits what is left of the 4096 places, is
-- what the next pass of `intRead` copies out; the queue is then empty again, and the reader runs.
pub int_read-type_all :
    (cs : List ℕ) (con : Console) (k : Kernel)
    → con.keys.offset ≡ con.keys.str_offset
    → con.keys.line_count ≡ 0
    → All (λ c. c ≢ b'\n') cs
    → con.keys.str_offset + length cs < 4096
    → let typed = (enter_key (type_all cs con)).keys in
      (after : Keys) × (int_read typed k ≡ line cs after (set_state running k.current_task k))
      × (after.offset ≡ after.str_offset)
      × (after.line_count ≡ 0)
unfolding enter_key
int_read-type_all cs con k same none_left plain fits =
    let t = type_all-Typed cs con in
    let full = type_all cs con in
    let start = con.keys.str_offset in
    let keys = (enter_key full).keys in
    let so = t.str_offset in
    let counted = t.line_count ∙ none_left in
    let from = t.offset ∙ same in
    let held : Holds keys.inp_str keys.offset cs = rw from (
      Holds-same full.keys.inp_str keys.inp_str start cs
        (λ i l b.
          update-ne full.keys.inp_str full.keys.str_offset i b'\n' (λ e. absurd (omega arith)))
        t.holds) in
    let ended : keys.inp_str (keys.offset + length cs) ≡ b'\n' =
      ap keys.inp_str (ap (λ n. n + length cs) from ∙ sym so)
      ∙ update_self full.keys.inp_str full.keys.str_offset b'\n' in
    let (read, end) =
      scan_line-Holds (4096 - keys.offset) keys.offset cs keys.inp_str (omega arith) held plain
        ended in
    (
      _,
      int_read-found keys k (keys.offset + length cs) cs (ground arith) read end,
      ap (λ n. n + length cs + 1) from ∙ ap (λ n. n + 1) (sym so),
      omega arith,
    )
