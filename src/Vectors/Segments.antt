-- ===== src/Vectors/Segments.antt =====
-- The segment descriptors of the processor (sys/gdt.c); the address of the task state segment is the
-- linker's.
use late_os.Common.{
  ℕ, ◌+◌, ◌-◌, ◌*◌, ◌==◌, if◌then◌else◌, ◌/◌, ◌%◌, ◌^◌, ◌<◌, ◌≡◌, refl, arith, update,
}

-- `GDT_CS`, `GDT_DS`, `DPL0`, `DPL3`, `P`, `L` and `W`: bits that no two of them share.
abbrev pub gdt_cs : ℕ
gdt_cs = 0x00180000000000

abbrev pub gdt_ds : ℕ
gdt_ds = 0x00100000000000

abbrev pub dpl3 : ℕ
dpl3 = 0x00600000000000

abbrev pub bit_p : ℕ
bit_p = 0x00800000000000

abbrev pub bit_l : ℕ
bit_l = 0x20000000000000

abbrev pub bit_w : ℕ
bit_w = 0x00020000000000

-- The initial value of the array `gdt`.
unfoldable pub gdt : ℕ → ℕ
gdt i =
    if i == 1
    then gdt_cs + bit_p + bit_l
    else if i == 2
    then gdt_ds + bit_p + bit_w
    else if i == 4
    then gdt_ds + bit_p + bit_w + dpl3
    else if i == 5
    then gdt_cs + bit_p + dpl3 + bit_l
    else 0

-- `struct sys_segment_descriptor`, as far as it is not reserved.
pub record Descriptor : Type 0 where
  pub sd_lolimit : ℕ
  pub sd_lobase : ℕ
  pub sd_type : ℕ
  pub sd_dpl : ℕ
  pub sd_p : ℕ
  pub sd_hilimit : ℕ
  pub sd_gran : ℕ
  pub sd_hibase : ℕ

-- `sizeof(struct tss_t)`
abbrev pub tss_size : ℕ
tss_size = 104

-- What `init_gdt` assigns, cut to the widths of the fields.
unfoldable pub tss_descriptor : (tss : ℕ) → Descriptor
tss_descriptor tss = record {
  sd_lolimit = (tss_size + 2 ^ 64 - 1) % 2 ^ 16;
  sd_lobase = tss % 2 ^ 24;
  sd_type = 9;
  sd_dpl = 0;
  sd_p = 1;
  sd_hilimit = 0;
  sd_gran = 0;
  sd_hibase = tss / 2 ^ 24 % 2 ^ 40;
}

-- The fields stand one behind the other, from the lowest bit on, in two entries of the table; the
-- reserved ones keep the zeros of the array.
abbrev pub low_word : Descriptor → ℕ
low_word d =
    d.sd_lolimit
    + d.sd_lobase * 2 ^ 16
    + d.sd_type * 2 ^ 40
    + d.sd_dpl * 2 ^ 45
    + d.sd_p * 2 ^ 47
    + d.sd_hilimit * 2 ^ 48
    + d.sd_gran * 2 ^ 55
    + d.sd_hibase % 2 ^ 8 * 2 ^ 56

abbrev pub high_word : Descriptor → ℕ
high_word d = d.sd_hibase / 2 ^ 8

-- `init_gdt`, before the tables are loaded.
unfoldable pub init_gdt : (tss : ℕ) → (ℕ → ℕ) → ℕ → ℕ
unfolding tss_descriptor
init_gdt tss table =
    update (update table 6 (low_word (tss_descriptor tss))) 7 (high_word (tss_descriptor tss))

-- What the processor reads of a descriptor of 16 bytes: base, limit, type and present bit.
abbrev pub base : (low high : ℕ) → ℕ
base low high = low / 2 ^ 16 % 2 ^ 24 + low / 2 ^ 56 % 2 ^ 8 * 2 ^ 24 + high % 2 ^ 32 * 2 ^ 32

abbrev pub limit : ℕ → ℕ
limit low = low % 2 ^ 16 + low / 2 ^ 48 % 2 ^ 4 * 2 ^ 16

abbrev pub kind : ℕ → ℕ
kind low = low / 2 ^ 40 % 2 ^ 4

abbrev pub privilege : ℕ → ℕ
privilege low = low / 2 ^ 45 % 2 ^ 2

abbrev pub is_present : ℕ → ℕ
is_present low = low / 2 ^ 47 % 2

-- The bit S, which tells a segment of code or data from one of the system.
abbrev pub is_segment : ℕ → ℕ
is_segment word = word / 2 ^ 44 % 2

-- A segment of code in long mode (L is set, D is not), or a writable one of data, for a privilege level.
abbrev pub IsCode : (level word : ℕ) → Type 0
IsCode level word =
    (privilege word ≡ level)
    × (is_present word ≡ 1)
    × (is_segment word ≡ 1)
    × (kind word / 2 ^ 3 ≡ 1)
    × (word / 2 ^ 53 % 2 ≡ 1)
    × (word / 2 ^ 54 % 2 ≡ 0)

abbrev pub IsData : (level word : ℕ) → Type 0
IsData level word =
    (privilege word ≡ level)
    × (is_present word ≡ 1)
    × (is_segment word ≡ 1)
    × (kind word / 2 ^ 3 ≡ 0)
    × (kind word / 2 % 2 ≡ 1)

-- The entry that a selector names.
abbrev pub selected : (selector tss : ℕ) → ℕ
selected selector tss = init_gdt tss gdt (selector / 8)

-- Behind init_gdt, for each address of the task state segment, the entry that ltr is given describes
-- a free 64-bit task state segment, one of the system, of 104 bytes at this address; the selectors of the kernel name its code and
-- data of level 0, and those of the frames that enter a program, 0x2B and 0x23, its code and data of
-- level 3: present segments that are not the system's, code of 64 bits and writable data.
pub init_gdt-selectors :
    (tss : ℕ)
    → tss < 2 ^ 64
    → (base (selected 0x30 tss) (init_gdt tss gdt 7) ≡ tss)
      × (limit (selected 0x30 tss) + 1 ≡ tss_size)
      × (kind (selected 0x30 tss) ≡ 9)
      × (is_present (selected 0x30 tss) ≡ 1)
      × (is_segment (selected 0x30 tss) ≡ 0)
      × IsCode 0 (selected 8 tss)
      × IsData 0 (selected 16 tss)
      × IsCode 3 (selected 0x2B tss)
      × IsData 3 (selected 0x23 tss)
unfolding init_gdt tss_descriptor gdt update
init_gdt-selectors tss h = (
  omega arith,
  omega arith,
  omega arith,
  omega arith,
  omega arith,
  (refl, refl, refl, refl, refl, refl),
  (refl, refl, refl, refl, refl),
  (refl, refl, refl, refl, refl, refl),
  (refl, refl, refl, refl, refl),
)
