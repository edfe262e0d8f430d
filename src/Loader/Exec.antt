-- ===== src/Loader/Exec.antt =====
-- The programs that createNewTask and execvpe start (sys/process.c).
use late_os.Common.{
  ℕ, zero, suc, ◌+◌, ◌*◌, ◌%◌, ◌^◌, ◌==◌, ◌&&◌, Option, none, some, List, [], ◌∷◌, ◌++◌, ltb,
  if◌then◌else◌, update, codes,
}
use late_os.Memory.{M, pure, ◌>>=◌, ◌>>◌, get_free_frame}
use late_os.Memory.Tables.{init_task_pagetables}
use late_os.Process.{Task, Kernel, Layout}
use late_os.Process.Create.{stack_s}
use late_os.Process.Areas.{init_task_variables, set_my_vma, set_new_vma, valid_path}
use late_os.Files.Paths.{tail}
use late_os.Files.{Archive, get_file_address}
use late_os.Loader.{read_elf_and_fork, read_elf_and_exec}
use late_os.Loader.Stack.{set_task_rsp, set_rsp_and_exec}

-- `get_file_address(filename) + 512`: behind the header, or 511 without a file.
unfoldable pub address_of : Archive → List ℕ → ℕ
address_of archive filename = elim (get_file_address archive filename) [
  | none ↦ 511
  | some header ↦ (header + 512) % 2 ^ 64
]

-- A program that the processor is about to run, by the registers that iretq pops.
pub record Entry : Type 0 where
  pub rip : ℕ
  pub rsp : ℕ

-- The address space and the stack of the first program, of which `setTaskRSP` writes the name.
unfoldable pub new_space : (ℕ → ℕ) → (file_address : ℕ) → List ℕ → Task → M (ℕ × Task)
unfolding read_elf_and_fork set_my_vma set_task_rsp
new_space memory file_address filename ts = do
  loaded ← read_elf_and_fork memory file_address ts
  vm ← set_my_vma 0x4B0FFFFF0000 0x4B0FFFFF0000 loaded.1.vm
  physical ← get_free_frame
  init_task_pagetables stack_s physical loaded.1.pml4e
  vm' ← set_my_vma stack_s 0x100FFEFF0000 vm
  rsp ← set_task_rsp loaded.1.pml4e (stack_s + 510 * 8) filename
  pure (rsp, record loaded.1 { ustack = stack_s; vm = vm'; rsp = rsp })

-- `createNewTask`. With no slot left, or no frame, the code faults.
unfoldable pub create_new_task : Layout → Archive → List ℕ → Kernel → Option (Entry × Kernel)
unfolding init_task_variables new_space address_of
create_new_task layout archive filename k = elim (init_task_variables filename k) [
  | none ↦ none
  | some (pid, k₁) ↦
      elim (new_space archive.memory (address_of archive filename) filename (k₁.task_queue pid)
        k₁.memory) [
          | none ↦ none
          | some ((rsp, ts), memory) ↦ some (
            record { rip = ts.regs.rip; rsp = rsp },
            record k₁ {
              memory = memory;
              current_task = pid;
              task_queue = update k₁.task_queue pid ts;
              cpu = record k₁.cpu { cr3 = ts.pml4e; tss_rsp0 = layout.kstack_top pid };
            },
          )
        ]
]

-- The characters of a line up to its end, but for spaces; the fuel counts bytes.
unfoldable pub script_name : (fuel : ℕ) → (ℕ → ℕ) → (at : ℕ) → Option (List ℕ)
script_name zero memory at = none
script_name (suc fuel) memory at =
    let rest = script_name fuel memory (at + 1) in
    if memory at == b'\n' then some [] else elim rest [
      | none ↦ none
      | some cs ↦ some (if memory at == b' ' then cs else memory at ∷ cs)
    ]

-- What a string has before its NUL.
unfoldable pub to_nul : List ℕ → List ℕ
to_nul [] = []
to_nul (c ∷ cs) = let rest = to_nul cs in if c == 0 then [] else c ∷ rest

-- What `setFileAddress` returns but for -1, with the address and the arguments that it writes.
pub record Target : Type 0 where
  pub bin_value : ℕ
  pub file_address : ℕ
  pub args : ℕ → List ℕ

-- `strcpy(args[*argc++], argv[0]); strcpy(args[*argc++], path + 2);` where `*argc++` moves the pointer:
-- `argc` is what it points to first, and `beyond` the number that stands behind that.
abbrev pub script_args : (argc beyond : ℕ) → (argv0 path : List ℕ) → (ℕ → List ℕ) → ℕ → List ℕ
script_args argc beyond argv0 path args = update (update args argc argv0) beyond (tail (tail path))

-- The interpreter of a file: the one that it names behind "!#", or the shell.
unfoldable pub interpreter : (fuel : ℕ) → Archive → (script : ℕ) → Option (List ℕ)
unfolding script_name to_nul
interpreter fuel archive script =
    if (archive.memory script == b'!') && (archive.memory (script + 1) == b'#')
    then elim (script_name fuel archive.memory (script + 2)) [
      | none ↦ none
      | some line ↦ some (elim (to_nul line) [ [] ↦ codes "bin/sbush" | (c ∷ cs) ↦ c ∷ cs ])
    ]
    else some (codes "bin/sbush")

-- `setFileAddress`: the inner `none` is its -1, and the outer one a script without an end. The name of
-- the task is set before the file is looked for.
unfoldable pub set_file_address :
    (fuel : ℕ)
    → Archive
    → (beyond : ℕ) → (path argv0 cwd : List ℕ) → (ℕ → List ℕ)
    → Task
    → Option (Option Target × Task)
unfolding interpreter address_of valid_path
set_file_address fuel archive beyond path argv0 cwd args ts =
    let file = tail cwd ++ tail (tail path) in
    let script : Option (Option Target × Task) =
      elim (interpreter fuel archive (address_of archive file)) [
        | none ↦ none
        | some name ↦ some (
          some record {
            bin_value = 1;
            file_address = address_of archive name;
            args = script_args 0 beyond argv0 path args;
          },
          ts,
        )
      ] in
    let program = codes "bin/" ++ path in
    let renamed = record ts { name = program } in
    if valid_path path
    then (if ltb (address_of archive file) 512 then some (none, ts) else script)
    else if ltb (address_of archive program) 512
    then some (none, renamed)
    else some (
      some record { bin_value = 0; file_address = address_of archive program; args = args },
      renamed,
    )

-- `execvpe` behind the search for the file: the space is used again, and the stack is new.
unfoldable pub exec_space :
    (ℕ → ℕ) → (file_address : ℕ) → (args : List (List ℕ)) → Task → M (ℕ × Task)
unfolding read_elf_and_exec set_my_vma set_new_vma set_rsp_and_exec
exec_space memory file_address args ts = do
  loaded ← read_elf_and_exec memory file_address ts
  vm ← set_my_vma 0x4B0FFFFF0000 0x4B0FFFFF0000 loaded.1.vm
  ts' ← set_new_vma loaded.1.pml4e stack_s 0x100FFEFF0000 (record loaded.1 { vm = vm })
  rsp ← set_rsp_and_exec ts'.pml4e ts'.rsp args []
  pure (rsp, record ts' { rsp = rsp })

abbrev with_task : Kernel → Task → Kernel
with_task k ts = record k { task_queue = update k.task_queue k.current_task ts }

-- `execvpe`; the program that is entered, or `none` where -1 is returned. The outer `none` is a call
-- that does not return: a fault, and a non-empty environment, whose loop does not advance. A script's
-- interpreter gets no arguments, since argc stays 0.
unfoldable pub execvpe :
    Layout
    → (fuel : ℕ) → Archive
    → (beyond : ℕ) → (path : List ℕ) → (argv env : List (List ℕ)) → (ℕ → List ℕ)
    → Kernel
    → Option (Option Entry × Kernel)
unfolding set_file_address exec_space
execvpe layout fuel archive beyond path argv env args k =
    let ts = k.task_queue k.current_task in
    let argv0 : List ℕ = elim argv [ [] ↦ [] | (s ∷ ss) ↦ s ] in
    elim (set_file_address fuel archive beyond path argv0 ts.curr_dir args ts) [
      | none ↦ none
      | some (none, ts₁) ↦ some (none, with_task k ts₁)
      | some (some target, ts₁) ↦ elim env [
        | (e ∷ es) ↦ none
        | [] ↦
            if ltb target.file_address 512
            then some (none, with_task k ts₁)
            else elim (exec_space archive.memory target.file_address
                (if target.bin_value == 0 then argv else []) ts₁ k.memory) [
                  | none ↦ none
                  | some ((rsp, ts₂), memory) ↦ some (
                    some record { rip = ts₂.regs.rip; rsp = rsp },
                    record (with_task k ts₂) {
                      memory = memory;
                      cpu = record k.cpu { tss_rsp0 = layout.kstack_top k.current_task };
                    },
                  )
                ]
      ]
    ]
