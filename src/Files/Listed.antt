-- ===== src/Files/Listed.antt =====
-- Which names a directory's entries are (readDirTarfsFile in sys/tarfs.c).
use late_os.Common.{
  ℕ, zero, suc, ◌+◌, ◌<◌, ◌≡◌, refl, sym, ap, ◌∙◌, arith, inl, inr, true, false, Option, none, some,
  List, [], ◌∷◌, length, ◌==◌, ◌&&◌, Bool-cases, if◌then◌else◌, update_self,
}
use late_os.Process.{Kernel}
use late_os.Files.{Archive, name, take}
use late_os.Files.Descriptors.{current, set_current, set_file}
use late_os.Files.Directory.{shared, drop, is_listed, read_entry, read_dir_tarfs_file, read_all}

-- The entries that the headers give: of each name that is listed, what follows the shared characters.
abbrev pub entries : Archive → (file_name : List ℕ) → List ℕ → List (List ℕ)
entries archive file_name [] = []
entries archive file_name (header ∷ headers) =
    let rest = entries archive file_name headers in
    let name' = name archive header in
    if is_listed file_name name' then drop (shared name' file_name) name' ∷ rest else rest

-- Entry number `d` of those, and the new value of the counter.
abbrev pub answer : (entry d : ℕ) → List (List ℕ) → Option (List ℕ) × ℕ
answer entry d [] = (none, entry)
answer entry zero (e ∷ es) = (some e, entry + 1)
answer entry (suc d) (e ∷ es) = answer entry d es

pub read_entry-answer :
    (archive : Archive) (file_name headers : List ℕ) (count entry d : ℕ)
    → entry ≡ count + d
    → 0 < entry
    → read_entry archive file_name headers count entry
      ≡ answer entry d (entries archive file_name headers)
unfolding read_entry
read_entry-answer archive file_name [] count entry d e p = refl
read_entry-answer archive file_name (header ∷ headers) count entry zero e p =
    elim (Bool-cases (is_listed file_name (name archive header))) [
      | inl l ↦
          let later : (count == 0) && (entry == 0) ≡ false = ground arith in
          let here : count == entry ≡ true = ground arith in rw (l, later, here) refl
      | inr l ↦ rw l (read_entry-answer archive file_name headers count entry zero e p)
    ]
read_entry-answer archive file_name (header ∷ headers) count entry (suc d) e p =
    elim (Bool-cases (is_listed file_name (name archive header))) [
      | inl l ↦
          let later : (count == 0) && (entry == 0) ≡ false = ground arith in
          let other : count == entry ≡ false = ground arith in
          rw (l, later, other)
            (read_entry-answer archive file_name headers (count + 1) entry d (omega arith) p)
      | inr l ↦ rw l (read_entry-answer archive file_name headers count entry (suc d) e p)
    ]

-- The first call passes over the first entry, which is the directory itself.
abbrev pub begin : List (List ℕ) → Option (List ℕ) × ℕ
begin [] = (none, 0)
begin (e ∷ es) = answer 1 0 es

pub read_entry-begin :
    (archive : Archive) (file_name headers : List ℕ)
    → read_entry archive file_name headers 0 0 ≡ begin (entries archive file_name headers)
unfolding read_entry
read_entry-begin archive file_name [] = refl
read_entry-begin archive file_name (header ∷ headers) =
    elim (Bool-cases (is_listed file_name (name archive header))) [
      | inl l ↦ rw l (read_entry-answer archive file_name headers 1 1 0 refl (omega arith))
      | inr l ↦ rw l (read_entry-begin archive file_name headers)
    ]

pub answer-drop :
    (entry n : ℕ) (es : List (List ℕ)) → answer entry n es ≡ answer entry 0 (drop n es)
answer-drop entry zero es = refl
answer-drop entry (suc n) [] = refl
answer-drop entry (suc n) (e ∷ es) = answer-drop entry n es

pub drop-suc : (n : ℕ) (es : List (List ℕ)) → drop (suc n) es ≡ drop 1 (drop n es)
drop-suc zero es = refl
drop-suc (suc n) [] = refl
drop-suc (suc n) (e ∷ es) = drop-suc n es

module _ (archive : Archive) (fd : ℕ) (file_name : List ℕ) where
  -- The entries that the directory `file_name` has.
  abbrev pub all_entries : List (List ℕ)
  all_entries = entries archive file_name (take 32 archive.headers)

  -- A descriptor whose next entry is number `entry` of these.
  pub record At (entry : ℕ) (k : Kernel) : Type 0 where
    pub named : ((current k).fd fd).file_name ≡ file_name
    pub next : ((current k).fd fd).entry ≡ entry

  pub read-At :
      (k : Kernel) (result : Option (List ℕ)) (entry entry' : ℕ)
      → At entry k
      → read_entry archive file_name (take 32 archive.headers) 0 entry ≡ (result, entry')
      → (k' : Kernel) × (read_dir_tarfs_file archive fd k ≡ (result, k')) × At entry' k'
  unfolding read_dir_tarfs_file
  read-At k result entry entry' h e =
      let task = current k in
      let file = task.fd fd in
      let e' : read_entry archive file.file_name (take 32 archive.headers) 0 file.entry
          ≡ (result, entry') =
        rw (h.named, h.next) e in
      let file' = record file { entry = entry' } in
      let task' = set_file fd file' task in
      let same = update_self k.task_queue k.current_task task' in
      let written : (task'.fd fd) ≡ file' = update_self task.fd fd file' in
      let after : (current (set_current task' k)).fd fd ≡ file' =
        ap (λ t. t.fd fd) same ∙ written in
      (
        set_current task' k,
        ap (λ r. (r.0, set_current (set_file fd (record file { entry = r.1 }) task) k)) e',
        record { named = ap (λ g. g.file_name) after ∙ h.named; next = ap (λ g. g.entry) after },
      )

  read_all-step :
      (fuel : ℕ) (k k' : Kernel) (e : List ℕ) (rest : List (List ℕ))
      → read_dir_tarfs_file archive fd k ≡ (some e, k')
      → read_all fuel archive fd k' ≡ some rest
      → read_all (suc fuel) archive fd k ≡ some (e ∷ rest)
  unfolding read_all
  read_all-step fuel k k' e rest r later =
      let further = ap (λ c. read_all fuel archive fd c.1) r ∙ later in
      rw (read_all, ap (λ c. c.0) r, further) refl

  read_all-At :
      (rest : List (List ℕ)) (fuel entry : ℕ) (k : Kernel)
      → length rest < fuel
      → 0 < entry
      → At entry k
      → drop entry all_entries ≡ rest
      → read_all fuel archive fd k ≡ some rest
  unfolding read_all
  read_all-At rest zero entry k f p h d = absurd (omega arith)
  read_all-At [] (suc fuel) entry k f p h d =
      let none_left : read_entry archive file_name (take 32 archive.headers) 0 entry
          ≡ (none, entry) =
        read_entry-answer archive file_name (take 32 archive.headers) 0 entry entry (omega arith) p
        ∙ answer-drop entry entry all_entries
        ∙ ap (answer entry 0) d in
      let (k', r, h') = read-At k none entry entry h none_left in rw (read_all, r) refl
  read_all-At (e ∷ rest) (suc fuel) entry k f p h d =
      let found : read_entry archive file_name (take 32 archive.headers) 0 entry
          ≡ (some e, entry + 1) =
        read_entry-answer archive file_name (take 32 archive.headers) 0 entry entry (omega arith) p
        ∙ answer-drop entry entry all_entries
        ∙ ap (answer entry 0) d in
      let (k', r, h') = read-At k (some e) entry (entry + 1) h found in
      let left : drop (entry + 1) all_entries ≡ rest =
        let one_more : entry + 1 ≡ suc entry = omega arith in
        rw one_more (drop-suc entry all_entries ∙ ap (drop 1) d) in
      read_all-step fuel k k' e rest r
        (read_all-At rest fuel (entry + 1) k' (omega arith) (omega arith) h' left)

  read_all-begin :
      (es : List (List ℕ)) (fuel : ℕ) (k : Kernel)
      → length es < suc fuel
      → At 0 k
      → read_entry archive file_name (take 32 archive.headers) 0 0 ≡ begin es
      → es ≡ all_entries
      → read_all (suc fuel) archive fd k ≡ some (drop 1 es)
  unfolding read_all
  read_all-begin [] fuel k f h b e =
      let (k', r, h') = read-At k none 0 0 h b in rw (read_all, r) refl
  read_all-begin (x ∷ []) fuel k f h b e =
      let (k', r, h') = read-At k none 0 1 h b in rw (read_all, r) refl
  read_all-begin (x ∷ y ∷ es) fuel k f h b e =
      let (k', r, h') = read-At k (some y) 0 2 h b in
      read_all-step fuel k k' y es r
        (read_all-At es fuel 2 k' (omega arith) (omega arith) h' (ap (drop 2) (sym e)))

  -- A program that reads the entries of an open directory until none is left, from its entry 0 on, gets
  -- all entries that the first 32 files give but the first one, once and in their order. A file gives an
  -- entry when its name shares two characters or more with the name of the directory, or when that is the
  -- root: what follows the shared characters.
  pub read_all-entries :
      (fuel : ℕ) (k : Kernel)
      → length all_entries < fuel
      → At 0 k
      → read_all fuel archive fd k ≡ some (drop 1 all_entries)
  unfolding read_all
  read_all-entries zero k f h = absurd (omega arith)
  read_all-entries (suc fuel) k f h =
      let e = read_entry-begin archive file_name (take 32 archive.headers) in
      read_all-begin all_entries fuel k f h e refl
