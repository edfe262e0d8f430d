-- ===== src/Loader/Program.antt =====
-- All segments of a program (the loops of readELFandFork and readELFandExec in sys/process.c).
use late_os.Common.{
  ℕ, zero, suc, ◌+◌, ◌*◌, ◌/◌, ◌%◌, ◌^◌, ◌≤◌, ◌<◌, ◌≡◌, ◌≢◌, refl, sym, ap, ◌∙◌, inl, inr, ◌⊎◌,
  some, List, [], ◌∷◌, ◌++◌, arith, length, ◌==◌, if◌then◌else◌, Bool-cases, true, false, map,
  append_assoc, append-nil, ==→eq,
}
use late_os.Memory.{Memory, page_size, ◌>>=◌}
use late_os.Memory.Walk.{translate, Roles, Space}
use late_os.Memory.Pages.{IsKernel, IsData}
use late_os.Process.{VmArea}
use late_os.Loader.{Phdr, read_phdr, load_segment, load_segments, digit}
use late_os.Loader.Bytes.{byte_at-some}
use late_os.Loader.Areas.{pages}
use late_os.Loader.Segment.{Loadable, Loaded, Holds, load_segment-Loaded}

abbrev pub header : (ℕ → ℕ) → (table i : ℕ) → Phdr
header memory table i = read_phdr memory (table + i * 56)

-- The frames that a header needs, and those of the first `n` headers.
unfoldable pub frames : Phdr → ℕ
frames ep = if ep.p_type == 1 then 2 + 4 * pages ep.p_vaddr ep.p_memsz else 0

unfoldable pub all_frames : (n : ℕ) → (ℕ → ℕ) → (table : ℕ) → ℕ
all_frames zero memory table = 0
all_frames (suc n) memory table = frames (header memory table n) + all_frames n memory table

-- The page of `u` is none of the segment's.
abbrev pub Apart : (u : ℕ) → Phdr → Type 0
Apart u ep =
    (u / page_size < ep.p_vaddr / page_size)
    ⊎ (ep.p_vaddr / page_size + pages ep.p_vaddr ep.p_memsz ≤ u / page_size)

-- The first `n` headers describe segments that can be loaded and share no page.
pub record IsProgram (n : ℕ) (memory : ℕ → ℕ) (table : ℕ) : Type 0 where
  pub loadable :
      (i : ℕ) → i < n → (header memory table i).p_type ≡ 1 → Loadable (header memory table i)
  pub apart :
      (i j : ℕ)
      → i < j
      → j < n
      → (header memory table i).p_type ≡ 1
      → (header memory table j).p_type ≡ 1
      → (u : ℕ) → (header memory table j).p_vaddr ≤ u
      → u < (header memory table j).p_vaddr + (header memory table j).p_memsz
      → Apart u (header memory table i)

abbrev pub span : VmArea → ℕ × ℕ
span a = (a.begin_address, a.last_address)

-- The ends of the segments, in the order of their headers.
unfoldable pub spans : (n : ℕ) → (ℕ → ℕ) → (table : ℕ) → List (ℕ × ℕ)
spans zero memory table = []
spans (suc n) memory table =
    let ep = header memory table n in
    spans n memory table
    ++ (if ep.p_type == 1 then (ep.p_vaddr, ep.p_vaddr + ep.p_memsz) ∷ [] else [])

pub record AllLoaded (n : ℕ) (memory : ℕ → ℕ) (file_address table : ℕ) (vm : List VmArea)
    (role : Roles) (free : List ℕ) (top pdpe : ℕ) (m : Memory) : Type 0 where
  pub after : Memory
  pub role' : Roles
  pub free' : List ℕ
  pub vm' : List VmArea
  pub runs : load_segments n memory file_address table (top * page_size) vm m ≡ some (vm', after)
  pub areas : map span vm' ≡ spans n memory table ++ map span vm
  pub holds :
      (i : ℕ)
      → i < n
      → (header memory table i).p_type ≡ 1
      → Holds memory file_address (header memory table i) role' free' top pdpe after
  pub others :
      (u : ℕ)
      → u < 511 * 2 ^ 39
      → ((i : ℕ) → i < n → (header memory table i).p_type ≡ 1 → Apart u (header memory table i))
      → translate after.word top u ≡ translate m.word top u
  pub stays :
      (q : ℕ)
      → IsData role free pdpe m q
      → IsData role' free' pdpe after q
        × ((j : ℕ) → j < 512 → after.word (q * 512 + j) ≡ m.word (q * 512 + j))
  pub space : Space role' free' top after
  pub kernel : IsKernel role' free' pdpe after
  pub spent : length free ≤ length free' + all_frames n memory table

-- A segment stays in place while its pages are translated as before and data stays.
pub Holds-stays :
    (memory : ℕ → ℕ) (file_address : ℕ) (ep : Phdr) {role role' : Roles} {free free' : List ℕ}
    (top : ℕ) {pdpe : ℕ} {m m' : Memory}
    → Holds memory file_address ep role free top pdpe m
    → ((u : ℕ)
        → ep.p_vaddr ≤ u
        → u < ep.p_vaddr + ep.p_memsz
        → translate m'.word top u ≡ translate m.word top u)
    → ((q : ℕ)
        → IsData role free pdpe m q
        → IsData role' free' pdpe m' q
          × ((j : ℕ) → j < 512 → m'.word (q * 512 + j) ≡ m.word (q * 512 + j)))
    → Holds memory file_address ep role' free' top pdpe m'
Holds-stays memory file_address ep top {m = m} {m'} holds same stays u l h =
    let (q, there, d, byte) = holds u l h in
    let (d', w') = stays q d in
    let there' = same u l h ∙ there in
    (
      q,
      there',
      d',
      byte_at-some m'.word top u q there'
          ∙ ap (λ w. some (digit (u % 8) w)) (w' (u % page_size / 8) (omega arith))
          ∙ sym (byte_at-some m.word top u q there)
          ∙ byte,
    )

module _ (memory : ℕ → ℕ) (file_address table top pdpe : ℕ) where
  none-AllLoaded :
      (vm : List VmArea) (role : Roles) (free : List ℕ) (m : Memory)
      → Space role free top m
      → IsKernel role free pdpe m
      → AllLoaded 0 memory file_address table vm role free top pdpe m
  unfolding load_segments spans all_frames
  none-AllLoaded vm role free m space kernel = record {
    after = m;
    role' = role;
    free' = free;
    vm' = vm;
    runs = refl;
    areas = refl;
    holds = λ i b. absurd (omega arith);
    others = λ u b a. refl;
    stays = λ q d. (d, λ j h. refl);
    space = space;
    kernel = kernel;
    spent = omega arith;
  }

  module _ (n : ℕ) (vm : List VmArea) (role : Roles) (free : List ℕ) (m : Memory)
      (program : IsProgram (suc n) memory table) where
    abbrev ep : Phdr
    ep = header memory table n

    module _ (other : ep.p_type ≢ 1)
        (r : AllLoaded n memory file_address table vm role free top pdpe m) where
      not_load : (ep.p_type == 1) ≡ false
      not_load = ground arith

      skip_runs :
          load_segments (suc n) memory file_address table (top * page_size) vm m
          ≡ some (r.vm', r.after)
      unfolding load_segments load_segment
      skip_runs = rw not_load r.runs

      skip_areas : map span r.vm' ≡ spans (suc n) memory table ++ map span vm
      unfolding spans
      skip_areas = rw (not_load, append-nil (spans n memory table)) r.areas

      skip_spent : length free ≤ length r.free' + all_frames (suc n) memory table
      unfolding all_frames frames
      skip_spent = rw not_load (let s = r.spent in omega arith)

      skipped-Holds :
          (i : ℕ)
          → i < suc n
          → (header memory table i).p_type ≡ 1
          → Holds memory file_address (header memory table i) r.role' r.free' top pdpe r.after
      skipped-Holds i b kind = elim (Bool-cases (i == n)) [
        | inl e ↦
            absurd (other (ap (λ j. (header memory table j).p_type) (sym (==→eq i n e)) ∙ kind))
        | inr e ↦ r.holds i (ground arith) kind
      ]

      skipped : AllLoaded (suc n) memory file_address table vm role free top pdpe m
      skipped = record {
        after = r.after;
        role' = r.role';
        free' = r.free';
        vm' = r.vm';
        runs = skip_runs;
        areas = skip_areas;
        holds = skipped-Holds;
        others = λ u b a. r.others u b (λ i h. a i (omega arith));
        stays = r.stays;
        space = r.space;
        kernel = r.kernel;
        spent = skip_spent;
      }

    module _ (kind : ep.p_type ≡ 1)
        (l : Loaded memory file_address ep vm role free top pdpe m) where
      abbrev area : VmArea
      area = record {
        begin_address = ep.p_vaddr;
        last_address = ep.p_vaddr + ep.p_memsz;
        offset = l.offset;
      }

      module _
          (r : AllLoaded n memory file_address table
            (area ∷ vm)
            l.role'
            l.free'
            top
            pdpe
            l.after) where
        is_load : (ep.p_type == 1) ≡ true
        is_load = ground arith

        both_runs :
            load_segments (suc n) memory file_address table (top * page_size) vm m
            ≡ some (r.vm', r.after)
        unfolding load_segments
        both_runs = rw (load_segments, ◌>>=◌, l.runs) r.runs

        both_areas : map span r.vm' ≡ spans (suc n) memory table ++ map span vm
        unfolding spans
        both_areas =
            rw is_load (r.areas ∙ sym (append_assoc (spans n memory table) _ (map span vm)))

        both_spent : length free ≤ length r.free' + all_frames (suc n) memory table
        unfolding all_frames frames
        both_spent = rw is_load (let s = l.spent in let s' = r.spent in omega arith)

        first-Holds : Holds memory file_address ep r.role' r.free' top pdpe r.after
        first-Holds =
            Holds-stays memory file_address ep top l.holds
              (λ u low high.
                r.others u (let b = (program.loadable n (omega arith) kind).below in omega arith)
                  (λ i b k. program.apart i n b (omega arith) k kind u low high))
              r.stays

        both-Holds :
            (i : ℕ)
            → i < suc n
            → (header memory table i).p_type ≡ 1
            → Holds memory file_address (header memory table i) r.role' r.free' top pdpe r.after
        both-Holds i b k = elim (Bool-cases (i == n)) [
          | inl e ↦ rw (==→eq i n e) first-Holds
          | inr e ↦ r.holds i (ground arith) k
        ]

        both_others :
            (u : ℕ)
            → u < 511 * 2 ^ 39
            → ((i : ℕ)
                → i < suc n
                → (header memory table i).p_type ≡ 1
                → Apart u (header memory table i))
            → translate r.after.word top u ≡ translate m.word top u
        both_others u b a =
            r.others u b (λ i h. a i (omega arith))
            ∙ l.others u (omega arith) (omega arith) (a n (omega arith) kind)

        both : AllLoaded (suc n) memory file_address table vm role free top pdpe m
        both = record {
          after = r.after;
          role' = r.role';
          free' = r.free';
          vm' = r.vm';
          runs = both_runs;
          areas = both_areas;
          holds = both-Holds;
          others = both_others;
          stays = λ q d.
              let (d', w') = l.stays q d in
              let (d'', w'') = r.stays q d' in (d'', λ j h. w'' j h ∙ w' j h);
          space = r.space;
          kernel = r.kernel;
          spent = both_spent;
        }

  -- The first headers of a program are a program.
  fewer : (n : ℕ) → IsProgram (suc n) memory table → IsProgram n memory table
  fewer n program = record {
    loadable = λ i b k. program.loadable i (omega arith) k;
    apart = λ i j l b. program.apart i j l (omega arith);
  }

  pub load_segments-AllLoaded :
      (n : ℕ) (vm : List VmArea) (role : Roles) (free : List ℕ) (m : Memory)
      → IsProgram n memory table
      → all_frames n memory table ≤ length free
      → Space role free top m
      → IsKernel role free pdpe m
      → AllLoaded n memory file_address table vm role free top pdpe m
  unfolding all_frames frames
  load_segments-AllLoaded zero vm role free m program enough space kernel =
      none-AllLoaded vm role free m space kernel
  load_segments-AllLoaded (suc n) vm role free m program enough space kernel =
      elim (Bool-cases ((header memory table n).p_type == 1)) [
        | inl e ↦
            let kind = ==→eq (header memory table n).p_type 1 e in
            let enough' : 2
                  + 4 * pages (header memory table n).p_vaddr (header memory table n).p_memsz
                  + all_frames n memory table
                ≤ length free =
              rw e at enough in
            let l =
              load_segment-Loaded memory file_address (header memory table n) vm role free top pdpe
                m (program.loadable n (omega arith) kind) kind (omega arith) space kernel in
            let spent = l.spent in
            both n vm role free m program kind l (
              load_segments-AllLoaded n _ l.role' l.free' l.after (fewer n program) (omega arith)
                l.space l.kernel)
        | inr e ↦
            skipped n vm role free m program (ground arith) (
              load_segments-AllLoaded n vm role free m (fewer n program) (omega arith) space kernel)
      ]
