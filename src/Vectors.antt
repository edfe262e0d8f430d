-- ===== src/Vectors.antt =====
-- The interrupt descriptor table (sys/idt.c, include/sys/idt.h). The addresses of the handlers, which
-- are assembly, are arguments.
pub mod Gates
pub mod Segments
pub mod Tests
use late_os.Common.{ℕ, ◌/◌, ◌%◌, ◌^◌, ◌==◌, zero, suc, ◌+◌, if◌then◌else◌, update}

-- `struct idt`
pub record Gate : Type 0 where
  pub lower_offset : ℕ
  pub selector : ℕ
  pub zero_1 : ℕ
  pub kind : ℕ
  pub mid_offset : ℕ
  pub high_offset : ℕ
  pub zero_2 : ℕ

-- `setIDTtype`: the gate of 128 may be called by user code.
abbrev pub gate_type : ℕ → ℕ
gate_type interrupt = if interrupt == 128 then 0xEE else 0x8E

unfoldable pub gate : (interrupt function : ℕ) → Gate
gate interrupt function = record {
  lower_offset = function % 2 ^ 16;
  selector = 0x08;
  zero_1 = 0;
  kind = gate_type interrupt;
  mid_offset = function / 2 ^ 16 % 2 ^ 16;
  high_offset = function / 2 ^ 32 % 2 ^ 32;
  zero_2 = 0;
}

-- `initISR`
unfoldable pub init_isr : (interrupt function : ℕ) → (ℕ → Gate) → ℕ → Gate
unfolding gate
init_isr interrupt function table = update table interrupt (gate interrupt function)

pub record Handlers : Type 0 where
  pub isr0 : ℕ
  pub isr14 : ℕ
  pub timer : ℕ
  pub keyboard : ℕ
  pub isr128 : ℕ

-- The loop of `IDTinitialise`.
unfoldable pub init_all : (n from function : ℕ) → (ℕ → Gate) → ℕ → Gate
unfolding init_isr
init_all zero from function table = table
init_all (suc n) from function table = init_all n (from + 1) function (init_isr from function table)

-- `IDTinitialise`, before the table is loaded.
unfoldable pub idt_initialise : Handlers → (ℕ → Gate) → ℕ → Gate
idt_initialise h table = init_isr 128 h.isr128 (
    init_isr 33 h.keyboard (init_isr 32 h.timer (init_isr 14 h.isr14 (init_all 32 0 h.isr0 table))))
