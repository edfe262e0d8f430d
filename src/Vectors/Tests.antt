-- ===== src/Vectors/Tests.antt =====
-- Handlers at the kernel's addresses, and the gate of a system call.
use late_os.Common.{◌≡◌, ◌+◌, inr, refl, arith}
use late_os.Vectors.{Gate, Handlers, idt_initialise}
use late_os.Vectors.Segments.{
  base, limit, kind, is_present, is_segment, selected, gdt, init_gdt, tss_size, IsCode, IsData,
  init_gdt-selectors,
}
use late_os.Vectors.Gates.{target, idt_initialise-target}

abbrev some_handlers : Handlers
some_handlers = record {
  isr0 = 0xffffffff80200000;
  isr14 = 0xffffffff80200040;
  timer = 0xffffffff80200080;
  keyboard = 0xffffffff802000c0;
  isr128 = 0xffffffff80212345;
}

abbrev no_gate : Gate
no_gate = record {
  lower_offset = 0;
  selector = 0;
  zero_1 = 0;
  kind = 0;
  mid_offset = 0;
  high_offset = 0;
  zero_2 = 0;
}

idt_initialise-target_example :
    (target (idt_initialise some_handlers (λ i. no_gate) 128) ≡ 0xffffffff80212345)
    × ((idt_initialise some_handlers (λ i. no_gate) 128).kind ≡ 0xEE)
idt_initialise-target_example =
    idt_initialise-target some_handlers (λ i. no_gate) 128 (inr refl) (omega arith)

init_gdt-selectors_example :
    (base (selected 0x30 0x200040) (init_gdt 0x200040 gdt 7) ≡ 0x200040)
    × (limit (selected 0x30 0x200040) + 1 ≡ tss_size)
    × (kind (selected 0x30 0x200040) ≡ 9)
    × (is_present (selected 0x30 0x200040) ≡ 1)
    × (is_segment (selected 0x30 0x200040) ≡ 0)
    × IsCode 0 (selected 8 0x200040)
    × IsData 0 (selected 16 0x200040)
    × IsCode 3 (selected 0x2B 0x200040)
    × IsData 3 (selected 0x23 0x200040)
init_gdt-selectors_example = init_gdt-selectors 0x200040 (omega arith)
