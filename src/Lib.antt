-- ===== src/Lib.antt =====
-- lateOS, a small 64-bit kernel and its shell: tasks, page tables and page faults, the screen, the
-- keyboard and strings, system calls, the TAR file system and the command line.
--
-- The kernel keeps a table of 1100 tasks (sys/process.c, include/sys/process.h). The timer interrupt
-- (sys/idt.c) and the calls that block (wait, waitpid, sleep, and reading the keyboard) switch between
-- them by `schedule`. Each task has its own page tables (sys/paging.c), made by `fork` and released
-- when the parent collects the task. Text goes to video memory (sys/kprintf.c), and comes from the
-- keyboard's interrupt (sys/keyboard.c), which wakes a reader. A program is an ELF file of the
-- archive: createNewTask and execvpe load its segments, put its arguments on a stack, and enter it
-- (sys/process.c); its first code (crt/crt1.c) finds the arguments there. Programs call the kernel through the
-- stubs of the C library (libc) and the interrupt 128. Files lie in an archive that is linked into the
-- kernel (sys/tarfs.c). The shell (bin/sbush/sbush.c) splits a line into words and runs a command.
--
-- Files:
--   Common.antt        tests into Bool, arrays as functions, lists and integers over native numbers
--   Memory.antt        physical memory as an array of 64-bit words, the list of free frames
--                      (include/sys/mem.h, getFreeFrame); below it
--     Tables           initTaskPagetables, setNewPagePDPTE, setExistingPagePDPTE and the like
--     Kernel           mapNewFrame, getNewPage, kmalloc
--     Pages, Leaves, NewPage   the kernel's own tables, and proofs about the pages added to them
--     Cow              copytables, deallocTask
--     Free, Setup      initializeFreelist; setupPageTables
--     Walk             the processor's walk through four levels, and a well-formed address space
--     Link, Map, Ensure, Mapping, Take, Fill, Release, Emptied, Rising, Boot   proofs
--   Process.antt       the task table (include/sys/process.h); below it
--     Schedule, Exit, Wait, Create   schedule; exit and kill; wait, waitpid and sleep; fork and the
--                      tasks of the boot
--     Areas            the areas of a task, malloc, ps, getCurrentDirectory
--     Timer            taskTimer and intTimer (sys/idt.c), wake_process (sys/keyboard.c)
--     Invariant        what a valid table is
--     Round, Turns, Resume, Life, Ending, Reaping, Handover, Born, Forked, Sleepers,
--                      Heap   proofs
--   Loader.antt        the ELF headers (include/sys/elf64.h), memcpy and memset through page tables,
--                      readELFandFork and readELFandExec (sys/process.c); below it
--     Stack            setTaskRSP, setRSPandExec, and _start (crt/crt1.c)
--     Exec             createNewTask, setFileAddress, execvpe
--     Bytes, Runs, Areas, Segment, Program, NewTask   proofs: from one byte to all segments
--     Pushes, Lists, Found, Arguments, FirstTask   proofs: what a program finds on its stack
--     Created, Running   proofs: the first program
--   Screen.antt        video memory and the cursor; below it Format (kprintf), Clock (the
--                      seconds that intTimer draws, sys/idt.c), and the proofs Bounds, Scroll and
--                      Digits
--   Keyboard.antt      intWrite and intRead; the proofs Lines and Erasing
--   Text.antt          the string functions (sys/string.c); the proofs Strings and Compare
--   Fault.antt         page faults, isr14 (sys/idt.c); the proofs Areas, Private and Served
--   Vectors.antt       the interrupt descriptor table (sys/idt.c); the proof Gates; Segments: the
--                      segment descriptors (sys/gdt.c)
--   Calls.antt         system calls: which operation the registers ask for (isr128 in sys/idt.c); below
--                      it Stubs and Library (the stubs in libc), Perform (the operations on tasks),
--                      Serve (those on files), Environment (libc/util_sys.c), Directories
--                      (libc/file.c), Streams (fgets in libc/string_sys.c),
--                      and the proofs Numbers, Twice and Reads
--   Files.antt         the archive's headers (sys/tarfs.c); below it
--     Paths            deriveRelative, isfileexists, isValidDirectory, and chdir (sys/process.c)
--     Descriptors, Directory   opening, reading and closing files; reading directories
--     Moves, Chdir, Size, Listing, Listed, Reading, Opening   proofs
--   Shell.antt         the words of a line (strtokBeta in bin/sbush/sbush.c); below it Commands
--                      (parseInput and what it calls), the proofs Tokens, Script, and Prompt, which joins
--                      the shell to Files
--   Programs.antt      echo, cat, kill, ls and sleep (bin); the proofs Echo, Buffer,
--                      Contents and Listing, which joins ls to the library and Files
--   Tests of each part hold the concrete runs.
--
-- How the code is modelled. A function of the kernel is a function from the state to its result and
-- the new state; `none` stands for a fault or a loop that never ends. Numbers are natural numbers, and
-- where a C type wraps around, the remainder is written out. A call that blocks is cut at `schedule`
-- into the part up to the switch and the part behind it, so any other code may run in between. The
-- switch itself is the effect of its assembly on the stack pointer, the instruction pointer, CR3 and
-- the TSS; where the linker places stacks and labels is a parameter (`Layout`).
--
-- Fuel. The loop of `schedule` runs on 1100 rounds, which is enough in a valid table; %p, %x and %d run
-- on 16, 8 and 3 rounds, the digits that a 64-bit or 32-bit number and the first divisor can have; the
-- scan of `intRead` on the places that are left of its 4096. The string functions take fuel from their
-- caller, and more than the length of the string is enough. `init_tarfs` runs on as many rounds as it
-- finds headers, and one more; a name is read up to the end of its block of 512 bytes. The
-- loop that maps the pages of a segment runs on two rounds more than the whole pages of its size, the
-- loop over the environment in `_start` on one more than its entries, the clock on the ten digits of
-- an `int` and one more; the loop of ls runs on rounds from the caller. All other loops have fixed bounds, or go through a list.
--
-- A program's memory. The loader writes bytes through the page tables that it has loaded, so a byte
-- is in the word of the page that the walk ends in. The archive is a separate memory, which is only
-- read. The jump into a program ends the model of createNewTask and execvpe; `_start` is read from the
-- stack pointer that they leave, with one word that the prologue of a C function pushes.
--
-- Arrays. Where the free list or the descriptors of a task go behind their arrays (75000 pages, 100
-- descriptors), the result is `none`; the other arrays of the code have no end in the model. A
-- word of memory can be read and written at every address: that a page is one that the kernel maps is
-- not checked.
--
-- Not modelled: interrupt stubs (assembly), the instructions that load descriptor tables, the C
-- library's malloc and free (copied from a book, as their comment says). What
-- the shell calls is a record of operations, of which the proof Prompt fills in chdir and
-- getCurrentDirectory. Files under rootfs/boot are the boot loader's scripts.
pub mod Common
pub mod Memory
pub mod Loader
pub mod Process
pub mod Screen
pub mod Keyboard
pub mod Text
pub mod Fault
pub mod Vectors
pub mod Calls
pub mod Files
pub mod Shell
pub mod Programs
