-- ===== src/Process/Tests.antt =====
-- A table of five tasks: init, a parent that waits for its runnable child, a zombie and a sleeper.
use late_os.Common.{
  ℕ, ◌+◌, ◌*◌, ◌<◌, ◌≡◌, ◌≢◌, refl, arith, false, Option, none, some, List, [], ◌==◌, if◌then◌else◌,
}
use late_os.Memory.{Memory, FreeFrame}
use late_os.Process.{Task, File, Kernel, Layout, State, running, zombie, ready, hang, max}
use late_os.Process.Schedule.{switch_to}
use late_os.Process.Exit.{kill}
use late_os.Process.Wait.{wait, waitpid_resume, returned}
use late_os.Common.{for_each, update}
use late_os.Memory.{get_free_frame, memset_page, for_loop}
use late_os.Memory.Kernel.{get_new_page, map_new_frame, map_new_frame_new, link_table}
use late_os.Memory.Cow.{copytables, copy_top}
use late_os.Process.{VmArea}
use late_os.Process.Create.{copy_space, copy_vma, fork}
use late_os.Process.Forked.{Forked, fork-Forked}
use late_os.Process.Timer.{Timer}
use late_os.Process.Invariant.{IsValid}
use late_os.Process.Round.{Scheduled, schedule-Scheduled, RunsAt}
use late_os.Process.Turns.{turns, turns-reach}
use late_os.Process.Resume.{switch_to-resumes}
use late_os.Process.Ending.{Exited, exit-Exited, kill-IsValid}
use late_os.Process.Reaping.{Reaped, Waited, wait-Waited}
use late_os.Process.Handover.{exit-waitpid}
use late_os.Process.Sleepers.{ticks, ticks-sleep, interrupts, interrupts-quiet}

abbrev state_at : ℕ → State
state_at i =
    if i == 0
    then running
    else if i == 1
    then State.wait
    else if i == 2
    then running
    else if i == 3
    then zombie
    else if i == 4
    then hang
    else ready

abbrev parent_at : ℕ → ℕ
parent_at i = if i == 2 then 1 else 0

abbrev no_file : File
no_file = record {
  fd = 0;
  file_name = [];
  aval = 0;
  offset = 0;
  entry = 0;
  flags = 0;
  inode_num = 0;
  size = 0;
  address = 0;
}

abbrev pub five : ℕ → Task
five i = record {
  name = [];
  kstack = λ j. 0;
  ustack = 0;
  time = 3;
  state = state_at i;
  pid = i;
  ppid = parent_at i;
  rsp = 0;
  pml4e = 0x100000 + i * 4096;
  child_count = 0;
  vm = [];
  curr_dir = [];
  fd = λ j. no_file;
  fd_c = 0;
  regs = record { rsp = 100 + i; rip = 200 + i };
}

-- The free frames 2, 3, …
abbrev pub frames : ℕ → FreeFrame
frames i = record { address = i * 4096; ref_count = 0; next = some (i + 1) }

abbrev pub memory : Memory
memory = record { word = λ i. 0; page_list = frames; head = some 2; k_cr3 = 0; k_pdpte = 0 }

abbrev pub kernel : ℕ → Kernel
kernel current = record {
  task_queue = five;
  current_task = current;
  cpu = record { rsp = 7; rip = 8; cr3 = 0; tss_rsp0 = 0 };
  memory = memory;
}

abbrev pub places : Layout
places = record { kstack_top = λ i. 4096 * i + 4088; resume = 9 }

parent-bound : (i : ℕ) → parent_at i < max
parent-bound i = ground arith

kernel-IsValid : (current : ℕ) → current < max → IsValid (kernel current)
kernel-IsValid current b = record {
  current_bound = b;
  current_own = refl;
  own = λ i b live. refl;
  parent = λ i b. parent-bound i;
}

pub in_child : IsValid (kernel 2)
in_child = kernel-IsValid 2 (omega arith)

pub in_init : IsValid (kernel 0)
in_init = kernel-IsValid 0 (omega arith)

schedule-Scheduled_example : Scheduled places (kernel 2)
schedule-Scheduled_example = schedule-Scheduled places (kernel 2) in_child

turns-reach_example :
    (n : ℕ) × (k' : Kernel) × (n < max)
    × (turns places n (kernel 0) ≡ some k')
    × (k'.current_task ≡ 2)
turns-reach_example = turns-reach places 2 (kernel 0) in_init (omega arith) refl

in_another : (switch_to places 0 (kernel 2)).current_task ≢ 2
unfolding switch_to
in_another e = absurd (omega arith)

switch_to-resumes_example :
    (switch_to places 2 (switch_to places 0 (kernel 2))).cpu
    ≡ record { rsp = 7; rip = 9; cr3 = 0x102000; tss_rsp0 = 12280 }
switch_to-resumes_example =
    switch_to-resumes places 0 (kernel 2) (switch_to places 0 (kernel 2)) refl in_another

exit-Exited_example : Exited places (kernel 2)
exit-Exited_example = exit-Exited places (kernel 2) in_child

wait-Waited_example : Waited (kernel 0) (wait places (kernel 0))
wait-Waited_example = wait-Waited places (kernel 0) in_init

ticks-sleep_example :
    ((ticks 1 five 4).state ≡ hang)
    × ((ticks 1 five 4).time ≡ 2)
    × ((ticks 3 five 4).state ≡ running)
ticks-sleep_example = ticks-sleep 2 1 4 five (omega arith) refl refl (omega arith) (omega arith)

abbrev full_timer : ℕ → Timer
full_timer n = record { timer_count = n; total_secs = 5 }

interrupts-quiet_example :
    interrupts places 100 (full_timer 20) (kernel 2) ≡ some (full_timer 120, kernel 2, false)
interrupts-quiet_example =
    interrupts-quiet places 100 (full_timer 20) (kernel 2) (omega arith) (omega arith)

kill-IsValid_example :
    IsValid (kill 2 (kernel 0))
    × ((kill 2 (kernel 0)).current_task ≡ 0)
    × (((kill 2 (kernel 0)).task_queue 1).state ≡ running)
    × (((kill 2 (kernel 0)).task_queue 1).ppid ≡ 0)
kill-IsValid_example = kill-IsValid 2 1 (kernel 0) in_init (omega arith) (omega arith) refl

abbrev ended : Kernel
ended = (exit-Exited places (kernel 2) in_child).after

abbrev in_parent : Kernel
in_parent = record ended { current_task = 1 }

exit-waitpid_example :
    RunsAt ended.task_queue 1
    × ((final : Kernel) × (waitpid_resume places 2 in_parent ≡ returned 2 final)
        × Reaped 2 in_parent final)
exit-waitpid_example =
    exit-waitpid places (kernel 2) in_child (exit-Exited places (kernel 2) in_child) 1 refl
      (omega arith) refl in_parent refl ((exit-Exited places (kernel 2) in_child).pid 1) refl

-- A copy of the address space of task 2, which has no page.
abbrev space_found : Option ((ℕ × List VmArea) × Memory) → (ℕ × List VmArea) × Memory
space_found none = ((0, []), memory)
space_found (some r) = r

abbrev pub space : (ℕ × List VmArea) × Memory
space = space_found (copy_space (five 2) memory)

pub enough : copy_space (five 2) memory ≡ some space
unfolding copy_space get_new_page get_free_frame map_new_frame map_new_frame_new link_table
    memset_page copytables copy_top copy_vma for_loop for_each update
enough = refl

fork-Forked_example :
    (child : ℕ) × (k' : Kernel) × (fork places 77 12000 (kernel 2) ≡ some (child, k'))
    × Forked places 77 12000 (kernel 2) child k'
fork-Forked_example =
    fork-Forked places 77 12000 (kernel 2) 5 space in_child refl (omega arith) refl enough
