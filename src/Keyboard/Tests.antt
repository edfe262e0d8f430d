-- ===== src/Keyboard/Tests.antt =====
-- A console on which nothing is typed yet.
use late_os.Common.{ℕ, ◌≤◌, ◌<◌, ◌⊎◌, ◌*◌, ◌≡◌, ◌≢◌, refl, arith, false, none, List, [], ◌∷◌, All}
use late_os.Memory.{Memory}
use late_os.Screen.{base}
use late_os.Process.{Task, File, Kernel, State}
use late_os.Process.Wait.{set_state}
use late_os.Keyboard.{Keys, Console, erase_key, enter_key, int_read, line, missed}
use late_os.Keyboard.Lines.{type_all, int_read-type_all}
use late_os.Keyboard.Erasing.{places, Endless, int_read-erased}

abbrev no_file : File
no_file = record {
  fd = 0;
  file_name = [];
  aval = 0;
  offset = 0;
  entry = 0;
  flags = 0;
  inode_num = 0;
  size = 0;
  address = 0;
}

abbrev shell : ℕ → Task
shell i = record {
  name = [];
  kstack = λ j. 0;
  ustack = 0;
  time = 0;
  state = State.running;
  pid = i;
  ppid = 0;
  rsp = 0;
  pml4e = 0;
  child_count = 0;
  vm = [];
  curr_dir = [];
  fd = λ j. no_file;
  fd_c = 0;
  regs = record { rsp = 0; rip = 0 };
}

abbrev memory : Memory
memory = record {
  word = λ i. 0;
  page_list = λ i. record { address = i * 4096; ref_count = 0; next = none };
  head = none;
  k_cr3 = 0;
  k_pdpte = 0;
}

abbrev kernel : Kernel
kernel = record {
  task_queue = shell;
  current_task = 1;
  cpu = record { rsp = 0; rip = 0; cr3 = 0; tss_rsp0 = 0 };
  memory = memory;
}

abbrev console : Console
console = record {
  keys = record {
    caps = false;
    control_value = false;
    offset = 10;
    str_offset = 10;
    line_count = 0;
    inp_str = λ i. 0;
  };
  screen = record { memory = λ a. 0; temp2 = base; to_left = 0; num_lines = 0 };
}

abbrev text : List ℕ
text = b'l' ∷ b's' ∷ []

text-plain : All (λ c. c ≢ b'\n') text
text-plain = (λ e. absurd (omega arith), (λ e. absurd (omega arith), tt))

int_read-type_all_example :
    (after : Keys) × (int_read (enter_key (type_all text console)).keys kernel
      ≡ line text after (set_state State.running 1 kernel))
    × (after.offset ≡ after.str_offset)
    × (after.line_count ≡ 0)
int_read-type_all_example = int_read-type_all text console kernel refl refl text-plain (omega arith)

console-Endless : Endless 4086 10 (λ i. 0)
console-Endless i lo hi e = absurd (omega arith)

int_read-erased_example :
    (after : Keys) × (int_read (erase_key (enter_key console)).keys kernel
      ≡ missed (places 4086 10 (erase_key (enter_key console)).keys.inp_str) after kernel)
    × ((i : ℕ) → 10 ≤ i → i < 4096 → after.inp_str i ≡ 0)
    × ((i : ℕ)
        → (i < 10) ⊎ (4096 ≤ i)
        → after.inp_str i ≡ (erase_key (enter_key console)).keys.inp_str i)
    × (after.offset ≡ 10)
    × (after.line_count ≡ 1)
int_read-erased_example = int_read-erased console kernel (omega arith) console-Endless
