-- ===== src/Files/Opening.antt =====
-- The descriptors that opening gives (openTarfsFile and closeTarfsFile in sys/tarfs.c).
use late_os.Common.{
  ℕ, zero, suc, ◌+◌, ◌≡◌, ◌≤◌, ◌<◌, ◌⊎◌, inl, inr, refl, ap, subst, ◌∙◌, arith, none, some, List,
  [], update_self, ltb, true, false, Bool-cases,
}
use late_os.Process.{File, Kernel}
use late_os.Text.{to_binary_file}
use late_os.Files.{Archive, name, size_field}
use late_os.Files.Paths.{is_file_exists}
use late_os.Files.Descriptors.{
  current, set_current, set_file, file_count, set_current_task_val, open_tarfs_file,
  close_tarfs_file, open_close,
}

module _ (fuel : ℕ) (archive : Archive) (path : List ℕ) (flags : ℕ) (dir : List ℕ)
    (i header size : ℕ) (listed : is_file_exists archive dir path ≡ some (i, header))
    (has_size : to_binary_file fuel archive.memory (header + size_field) ≡ some size) where
  record At (c : ℕ) (k : Kernel) : Type 0 where
    stays : (current k).curr_dir ≡ dir
    next : (current k).fd_c ≡ c

  -- What an open descriptor of the file holds.
  pub record Opened (fd : ℕ) (file : File) : Type 0 where
    pub numbered : file.fd ≡ fd
    pub named : file.file_name ≡ name archive header
    pub placed : file.address ≡ header
    pub sized : file.size ≡ size
    pub flagged : file.flags ≡ flags
    pub begun : file.entry ≡ 0

  open_tarfs_file-At :
      (k : Kernel)
      → (current k).curr_dir ≡ dir
      → (current k).fd_c + 3 < file_count
      → (k' : Kernel) × (open_tarfs_file fuel archive path flags k
          ≡ some (some ((current k).fd_c + 3), k'))
        × At ((current k).fd_c + 1) k'
        × Opened ((current k).fd_c + 3) ((current k').fd ((current k).fd_c + 3))
  unfolding open_tarfs_file set_current_task_val
  open_tarfs_file-At k h room =
      let task = current k in
      let c = task.fd_c in
      let file = task.fd (c + 3) in
      let below : ltb (c + 3) file_count ≡ true = ground arith in
      let found = ap (λ d. is_file_exists archive d path) h ∙ listed in
      let file' = record file {
        file_name = name archive header;
        entry = 0;
        aval = 1;
        size = size;
        address = header;
        fd = c + 3;
        flags = flags;
      } in
      let task' = record (set_file (c + 3) file' task) { fd_c = c + 1 } in
      let same = update_self k.task_queue k.current_task task' in
      let written : task'.fd (c + 3) ≡ file' = update_self task.fd (c + 3) file' in
      let after : (current (set_current task' k)).fd (c + 3) ≡ file' =
        ap (λ t. t.fd (c + 3)) same ∙ written in
      (
        set_current task' k,
        rw (open_tarfs_file, found, set_current_task_val, has_size, below) refl,
        record { stays = ap (λ t. t.curr_dir) same ∙ h; next = ap (λ t. t.fd_c) same },
        record {
          numbered = ap (λ f. f.fd) after;
          named = ap (λ f. f.file_name) after;
          placed = ap (λ f. f.address) after;
          sized = ap (λ f. f.size) after;
          flagged = ap (λ f. f.flags) after;
          begun = ap (λ f. f.entry) after;
        },
      )

  close_tarfs_file-At : (c fd : ℕ) (k : Kernel) → At c k → At c (close_tarfs_file fd k).1
  unfolding close_tarfs_file
  close_tarfs_file-At c fd k h =
      let task = current k in
      let file' = record (task.fd fd) { file_name = []; offset = 0; size = 0; aval = 0 } in
      let same = update_self k.task_queue k.current_task (set_file fd file' task) in
      record { stays = ap (λ t. t.curr_dir) same ∙ h.stays; next = ap (λ t. t.fd_c) same ∙ h.next }

  -- Opening the file gives the descriptor `fd`.
  pub record Opens (fd : ℕ) (k : Kernel) : Type 0 where
    pub after : Kernel
    pub runs : open_tarfs_file fuel archive path flags k ≡ some (some fd, after)
    pub opened : Opened fd ((current after).fd fd)

  pub open_tarfs_file-Opens :
      (k : Kernel)
      → (current k).curr_dir ≡ dir
      → (current k).fd_c + 3 < file_count
      → Opens ((current k).fd_c + 3) k
  open_tarfs_file-Opens k h room =
      let (k', r, h', o) = open_tarfs_file-At k h room in
      record { after = k'; runs = r; opened = o }

  -- Behind the last place of the array, opening writes to other fields of the task.
  open_tarfs_file-full :
      (k : Kernel)
      → (current k).curr_dir ≡ dir
      → (current k).fd_c + 3 ≡ file_count
      → open_tarfs_file fuel archive path flags k ≡ none
  unfolding open_tarfs_file set_current_task_val
  open_tarfs_file-full k h e =
      let found = ap (λ d. is_file_exists archive d path) h ∙ listed in
      let full : ltb ((current k).fd_c + 3) file_count ≡ false = ground arith in
      rw (open_tarfs_file, found, set_current_task_val, has_size, full) refl

  -- Whether `fd` is a place of the array: opening the file gives it, or writes behind the array.
  abbrev pub Next : (fd : ℕ) → Kernel → Type 0
  Next fd k =
      ((fd < file_count) × Opens fd k)
      ⊎ ((fd ≡ file_count) × (open_tarfs_file fuel archive path flags k ≡ none))

  open_close-At :
      (n fd : ℕ) (k : Kernel)
      → (current k).curr_dir ≡ dir
      → fd ≡ (current k).fd_c + n + 3
      → fd ≤ file_count
      → (after : Kernel) × (open_close n fuel archive path flags k ≡ some after) × Next fd after
  unfolding open_close
  open_close-At zero fd k h e b =
      let s : (current k).fd_c + 3 ≡ fd = omega arith in
      (
        k,
        refl,
        elim (Bool-cases (ltb fd file_count)) [
          | inl l ↦
              inl (
                ground arith,
                subst (λ fd. Opens fd k) s (open_tarfs_file-Opens k h (ground arith)),
              )
          | inr l ↦ inr (ground arith, open_tarfs_file-full k h (ground arith))
        ],
      )
  open_close-At (suc n) fd k h e b =
      let (k', r, h', o) = open_tarfs_file-At k h (omega arith) in
      let c = (current k).fd_c in
      let k'' = (close_tarfs_file (c + 3) k').1 in
      let closed = close_tarfs_file-At (c + 1) (c + 3) k' h' in
      let counted = closed.next in
      let (after, r', opens) = open_close-At n fd k'' closed.stays (omega arith) b in
      (after, rw (open_close, r) r', opens)

  -- A task opens a listed file and closes it again, `n` times, where `fd_c` + `n` + 3 is at most 100. If that
  -- number is below 100, opening the file once more gives it as the descriptor, with the name, address and
  -- size of the file: the number of a closed file is not given again. If it is 100, opening the file writes
  -- behind the array of descriptors, though no file is open.
  pub open_close-Opens :
      (n : ℕ) (k : Kernel)
      → (current k).curr_dir ≡ dir
      → (current k).fd_c + n + 3 ≤ file_count
      → (after : Kernel) × (open_close n fuel archive path flags k ≡ some after)
        × Next ((current k).fd_c + n + 3) after
  open_close-Opens n k h b = open_close-At n _ k h refl b
