-- ===== src/Files/Reading.antt =====
-- What reading an open file gives, and which descriptors there are (sys/tarfs.c).
use late_os.Common.{
  ℕ, zero, suc, ◌+◌, ◌-◌, ◌%◌, ◌^◌, ◌<◌, ◌≤◌, ◌≡◌, ◌⊎◌, refl, sym, ap, ◌∙◌, arith, inl, inr, true,
  ltb, ltb_cases, if◌then◌else◌, update, update_self, update-ne,
}
use late_os.Process.{Kernel}
use late_os.Files.Descriptors.{current, copy_header, set_file_path, read_tarfs_file}

-- Two stretches of `count` bytes that do not meet; the first has a NUL behind it.
abbrev pub AreApart : (buf from count : ℕ) → Type 0
AreApart buf from count = (buf + count < from) ⊎ (from + count ≤ buf)

-- In `after`, `count` bytes from `from` on are copied to `buf`, with a NUL behind them.
pub record Copied (memory after : ℕ → ℕ) (buf from count : ℕ) : Type 0 where
  pub bytes : (i : ℕ) → i < count → after (buf + i) ≡ memory (from + i)
  pub ended : after (buf + count) ≡ 0
  pub apart : (p : ℕ) → (p < buf) ⊎ (buf + count < p) → after p ≡ memory p

copy_header-outside :
    (n : ℕ) (memory : ℕ → ℕ) (path header i p : ℕ)
    → (p < path + i) ⊎ (path + (i + n) ≤ p)
    → copy_header n memory path header i p ≡ memory p
unfolding copy_header
copy_header-outside zero memory path header i p o = refl
copy_header-outside (suc n) memory path header i p o =
    let b = memory (header + 1 + i) in
    copy_header-outside n (update memory (path + i) b) path header (i + 1) p (omega arith)
    ∙ update-ne memory (path + i) p b (λ e. absurd (omega arith))

copy_header-inside :
    (n : ℕ) (memory : ℕ → ℕ) (path header i j : ℕ)
    → AreApart path (header + 1) (i + n)
    → i ≤ j
    → j < i + n
    → copy_header n memory path header i (path + j) ≡ memory (header + 1 + j)
unfolding copy_header
copy_header-inside zero memory path header i j a l u = absurd (omega arith)
copy_header-inside (suc n) memory path header i j a l u =
    let b = memory (header + 1 + i) in
    let memory' = update memory (path + i) b in
    elim (ltb_cases i j) [
      | inl later ↦
          copy_header-inside n memory' path header (i + 1) j (omega arith) (omega arith)
            (omega arith)
          ∙ update-ne memory (path + i) (header + 1 + j) b (λ e. absurd (omega arith))
      | inr now ↦
          let e : j ≡ i = omega arith in
          copy_header-outside n memory' path header (i + 1) (path + j) (omega arith)
          ∙ ap (λ j. memory' (path + j)) e
          ∙ update_self memory (path + i) b
          ∙ ap (λ j. memory (header + 1 + j)) (sym e)
    ]

set_file_path-Copied :
    (memory : ℕ → ℕ) (path count header : ℕ)
    → count < 2 ^ 31
    → AreApart path (header + 1) count
    → Copied memory (set_file_path memory path count header) path (header + 1) count
unfolding set_file_path
set_file_path-Copied memory path count header b a =
    let positive : ltb count (2 ^ 31) ≡ true = ground arith in
    let copied = copy_header count memory path header 0 in
    rw positive (record {
      bytes = λ i l.
          update-ne copied (path + count) (path + i) 0 (λ e. absurd (omega arith))
          ∙ copy_header-inside count memory path header 0 i (omega arith) (omega arith)
              (omega arith);
      ended = update_self copied (path + count) 0;
      apart = λ p o.
          update-ne copied (path + count) p 0 (λ e. absurd (omega arith))
          ∙ copy_header-outside count memory path header 0 p (omega arith);
    })

-- Reading `count` bytes of an open file returns the smaller one of `count` and the size; so many bytes of
-- the header, from its second one on, stand in the buffer, with a NUL behind them, and no other byte is
-- changed: one more byte is written than the count says. The numbers are below 2³¹, and the buffer does
-- not meet the header.
pub read_tarfs_file-Copied :
    (memory : ℕ → ℕ) (fd buf count : ℕ) (k : Kernel)
    → count < 2 ^ 31
    → ((current k).fd fd).size < 2 ^ 31
    → AreApart buf (((current k).fd fd).address + 1) count
    → (read_tarfs_file memory fd buf count k).0
        ≡ (if ltb ((current k).fd fd).size count then ((current k).fd fd).size else count)
      × Copied memory
          (read_tarfs_file memory fd buf count k).1
          buf
          (((current k).fd fd).address + 1)
          (read_tarfs_file memory fd buf count k).0
unfolding read_tarfs_file
read_tarfs_file-Copied memory fd buf count k b s a =
    let file = (current k).fd fd in
    let extended : (if ltb count (2 ^ 31) then count else count + 2 ^ 64 - 2 ^ 32) ≡ count =
      ground arith in
    let small : file.size % 2 ^ 32 ≡ file.size = omega arith in
    let n = if ltb file.size count then file.size else count in
    let bound : n ≤ count = ground arith in
    rw (extended, small)
      (refl, set_file_path-Copied memory buf n file.address (omega arith) (omega arith))
