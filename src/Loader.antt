-- ===== src/Loader.antt =====
-- Programs that are loaded (include/sys/elf64.h, and in sys/process.c memcpy, readELFandFork,
-- readELFandExec; memset in sys/paging.c).
--
-- The archive that holds the programs is a memory of bytes. While the code writes to a program's
-- memory it has loaded cr3 with that program's page tables, so a byte is written through them, and
-- the write faults where they translate nothing. cr3 itself is put back and left out.
pub mod Bytes
pub mod Runs
pub mod Areas
pub mod Segment
pub mod Program
pub mod NewTask
pub mod Stack
pub mod Pushes
pub mod Found
pub mod Lists
pub mod Arguments
pub mod FirstTask
pub mod Exec
pub mod Created
pub mod Running
pub mod Tests
use late_os.Common.{
  ℕ, zero, suc, ◌+◌, ◌-◌, ◌*◌, ◌/◌, ◌%◌, ◌^◌, ◌==◌, Option, none, some, List, [], ◌∷◌, ltb,
  if◌then◌else◌, update,
}
use late_os.Memory.{
  M, pure, ◌>>=◌, ◌>>◌, slot, load, get_free_frame, page_size, kernbase, memset_page,
}
use late_os.Memory.Kernel.{get_new_page, kmalloc}
use late_os.Memory.Tables.{init_task_pagetables}
use late_os.Memory.Cow.{dealloc_task}
use late_os.Memory.Walk.{translate}
use late_os.Process.{Task, VmArea}
use late_os.Process.Create.{vma_size}
use late_os.Process.Areas.{setup_vma}

-- Byte `k` of a word, the lowest one first.
unfoldable pub digit : (k w : ℕ) → ℕ
digit zero w = w % 256
digit (suc k) w = digit k (w / 256)

unfoldable pub set_digit : (k w b : ℕ) → ℕ
set_digit zero w b = w / 256 * 256 + b % 256
set_digit (suc k) w b = w % 256 + set_digit k (w / 256) b * 256

-- The word in page `q` that holds the byte at the virtual address `v`.
abbrev pub word_of : (q v : ℕ) → ℕ
word_of q v = q * 512 + v % page_size / 8

-- The byte at a virtual address, `none` where nothing is mapped.
abbrev pub byte_at : (ℕ → ℕ) → (top v : ℕ) → Option ℕ
byte_at word top v = elim (translate word top v) [
  | none ↦ none
  | some q ↦ some (digit (v % 8) (word (word_of q v)))
]

-- `*p = b` for an `unsigned char *p`.
unfoldable pub store_byte : (pml4 v b : ℕ) → M (Unit {0})
store_byte pml4 v b m = elim (translate m.word (pml4 / page_size) v) [
  | none ↦ none
  | some q ↦
      let w = word_of q v in
      some (tt, record m { word = update m.word w (set_digit (v % 8) (m.word w) b) })
]

-- The two loops of `memcpy` from the archive.
unfoldable pub copy_up : (n : ℕ) → (ℕ → ℕ) → (pml4 dest source : ℕ) → M (Unit {0})
copy_up zero memory pml4 dest source = pure tt
copy_up (suc n) memory pml4 dest source =
    store_byte pml4 dest (memory source) >> copy_up n memory pml4 (dest + 1) (source + 1)

unfoldable pub copy_down : (n : ℕ) → (ℕ → ℕ) → (pml4 dest source : ℕ) → M (Unit {0})
copy_down zero memory pml4 dest source = pure tt
copy_down (suc n) memory pml4 dest source =
    store_byte pml4 (dest + n) (memory (source + n)) >> copy_down n memory pml4 dest source

unfoldable pub memcpy : (ℕ → ℕ) → (pml4 dest source n : ℕ) → M (Unit {0})
unfolding copy_up copy_down
memcpy memory pml4 dest source n =
    if ltb source dest
    then copy_down n memory pml4 dest source
    else copy_up n memory pml4 dest source

unfoldable pub memset : (n pml4 dest c : ℕ) → M (Unit {0})
memset zero pml4 dest c = pure tt
memset (suc n) pml4 dest c = store_byte pml4 dest c >> memset n pml4 (dest + 1) c

-- A number of `n` bytes, the lowest one first.
unfoldable pub little : (n : ℕ) → (ℕ → ℕ) → (at : ℕ) → ℕ
little zero memory at = 0
little (suc n) memory at = memory at + 256 * little n memory (at + 1)

-- The fields of `Elf64_Phdr` that the loader reads.
pub record Phdr : Type 0 where
  pub p_type : ℕ
  pub p_offset : ℕ
  pub p_vaddr : ℕ
  pub p_filesz : ℕ
  pub p_memsz : ℕ

abbrev pub read_phdr : (ℕ → ℕ) → ℕ → Phdr
read_phdr memory at = record {
  p_type = little 4 memory at;
  p_offset = little 8 memory (at + 8);
  p_vaddr = little 8 memory (at + 16);
  p_filesz = little 8 memory (at + 32);
  p_memsz = little 8 memory (at + 40);
}

-- The fields of `Elf64_Ehdr` that the loader reads.
pub record Ehdr : Type 0 where
  pub e_entry : ℕ
  pub e_phoff : ℕ
  pub e_phnum : ℕ

abbrev pub read_ehdr : (ℕ → ℕ) → ℕ → Ehdr
read_ehdr memory at = record {
  e_entry = little 8 memory (at + 24);
  e_phoff = little 8 memory (at + 32);
  e_phnum = little 2 memory (at + 56);
}

-- `while (k < vm->lastAddress)`: the loop that maps the pages of an area.
unfoldable pub map_pages : (fuel k last pml4 : ℕ) → M (Unit {0})
map_pages zero k last pml4 = λ m. none
map_pages (suc fuel) k last pml4 =
    let rest = map_pages fuel ((k + page_size) % 2 ^ 64) last pml4 in
    if ltb k last then (do yy ← get_free_frame; init_task_pagetables k yy pml4; rest) else pure tt

-- `eh + ep->p_offset`, where `eh` points to a struct of 64 bytes.
abbrev pub source_of : (file_address : ℕ) → Phdr → ℕ
source_of file_address ep = (file_address + 64 * ep.p_offset) % 2 ^ 64

-- The bytes of the file and the zeros behind them; the size is an `int` for `memcpy`.
unfoldable pub fill_segment : (ℕ → ℕ) → (file_address pml4 : ℕ) → Phdr → M (Unit {0})
unfolding memcpy memset
fill_segment memory file_address pml4 ep =
    memcpy memory pml4 ep.p_vaddr (source_of file_address ep) (ep.p_filesz % 2 ^ 32)
    >> memset ((ep.p_memsz + 2 ^ 64 - ep.p_filesz) % 2 ^ 64) pml4
        ((ep.p_vaddr + ep.p_filesz) % 2 ^ 64) 0

-- A segment and its area. The code does not set the area's offset, which is what the new page holds
-- there.
unfoldable pub load_area : (ℕ → ℕ) → (file_address pml4 : ℕ) → Phdr → List VmArea → M (List VmArea)
unfolding setup_vma map_pages fill_segment
load_area memory file_address pml4 ep vm = do
  node ← kmalloc vma_size
  offset ← load (slot (node - kernbase) 2)
  map_pages (ep.p_memsz / page_size + 3) (setup_vma ep.p_vaddr ep.p_memsz).2
      (setup_vma ep.p_vaddr ep.p_memsz).1 pml4
  fill_segment memory file_address pml4 ep
  pure (
      record {
        begin_address = ep.p_vaddr;
        last_address = (setup_vma ep.p_vaddr ep.p_memsz).1;
        offset = offset;
      }
      ∷ vm)

-- The body of the loops over program headers.
unfoldable pub load_segment :
    (ℕ → ℕ) → (file_address pml4 : ℕ) → Phdr → List VmArea → M (List VmArea)
unfolding load_area
load_segment memory file_address pml4 ep vm =
    if ep.p_type == 1 then load_area memory file_address pml4 ep vm else pure vm

-- for (int i = eh->e_phnum; i > 0; i--), with the header number i - 1.
unfoldable pub load_segments :
    (i : ℕ) → (ℕ → ℕ) → (file_address table pml4 : ℕ) → List VmArea → M (List VmArea)
unfolding load_segment
load_segments zero memory file_address table pml4 vm = pure vm
load_segments (suc i) memory file_address table pml4 vm = do
  vm' ← load_segment memory file_address pml4 (read_phdr memory (table + i * 56)) vm
  load_segments i memory file_address table pml4 vm'

-- The address of the new top table, as the kernel reaches it, and the task.
unfoldable pub read_elf_and_fork : (ℕ → ℕ) → (file_address : ℕ) → Task → M (ℕ × Task)
unfolding load_segments
read_elf_and_fork memory file_address ts = do
  pml4 ← get_new_page
  memset_page (pml4 - kernbase)
  vm ←
      load_segments (read_ehdr memory file_address).e_phnum memory file_address
        (file_address + (read_ehdr memory file_address).e_phoff) (pml4 - kernbase) ts.vm
  pure (
    pml4,
    record ts {
      pml4e = pml4 - kernbase;
      regs = record ts.regs { rip = (read_ehdr memory file_address).e_entry };
      vm = vm;
    },
  )

-- The tables of the task are emptied and used again; its areas stay in the list.
unfoldable pub read_elf_and_exec : (ℕ → ℕ) → (file_address : ℕ) → Task → M (ℕ × Task)
unfolding load_segments
read_elf_and_exec memory file_address ts = do
  dealloc_task ts.pml4e
  vm ←
      load_segments (read_ehdr memory file_address).e_phnum memory file_address
        (file_address + (read_ehdr memory file_address).e_phoff) ts.pml4e ts.vm
  pure (
    ts.pml4e + kernbase,
    record ts { regs = record ts.regs { rip = (read_ehdr memory file_address).e_entry }; vm = vm },
  )
