-- ===== src/Versioning/Copying.antt =====
-- engine/internal/versioning/versioning.go: what `copyFile` leaves behind a success.
use syncy.Base.{
  ℕ, Bytes, true, false, [], ◌==◌, nat_eq, list_eq, Option, none, some, ◌≡◌, refl, ◌∙◌, inl, inr,
  if◌then◌else◌, Bool-cases,
}
use syncy.Fs.{Fs, file, set_file, path_eq}
use syncy.Fs.Laws.{file-set_file}
use syncy.Fsafe.{FilePath}
use syncy.Versioning.{Disk, copy_file, filled}

-- The files behind a copy that succeeds.
abbrev pub stored : FilePath → Bytes → Fs → Fs
stored p body fs = set_file (set_file fs p []) p body

pub file-stored :
    (p q : FilePath) (body : Bytes) (fs : Fs)
    → file (stored p body fs) q ≡ (if q == p then some body else file fs q)
file-stored p q body fs = elim (Bool-cases (q == p)) [
  | inl here ↦ rw here (file-set_file (set_file fs p []) p q body ∙ rw here)
  | inr other ↦
      rw other
        (file-set_file (set_file fs p []) p q body ∙ rw other (file-set_file fs p q [] ∙ rw other))
]

module _ (disk : Disk) where
  filled_ok :
      (src dst : FilePath) (fs : Fs) (body : Bytes) (stops : Option ℕ)
      → (filled disk dst fs stops (some body)).0 ≡ true
      → (filled disk dst fs stops (some body)).1 ≡ set_file fs dst body
  filled_ok src dst fs body none h = refl
  filled_ok src dst fs body (some n) h = cc h

  source_kept :
      (src dst : FilePath) (fs : Fs) (body : Bytes)
      → (src == dst) ≡ false
      → file fs src ≡ some body
      → file (set_file fs dst []) src ≡ some body
  source_kept src dst fs body ne found = file-set_file fs dst src [] ∙ rw ne found

  pub copy_file_ok :
      (src dst : FilePath) (fs : Fs) (body : Bytes)
      → (src == dst) ≡ false
      → file fs src ≡ some body
      → (copy_file disk src dst fs).0 ≡ true
      → (copy_file disk src dst fs).1 ≡ stored dst body fs
  unfolding copy_file
  copy_file_ok src dst fs body ne found h = elim (Bool-cases (disk.create dst)) [
    | inr bad ↦ cc (rw (copy_file, found, bad) at h)
    | inl made ↦
        rw (copy_file, found, made, source_kept src dst fs body ne found)
          (filled_ok src dst (set_file fs dst []) body (disk.copy_stops dst)
            (rw (copy_file, found, made, source_kept src dst fs body ne found) at h))
  ]

  -- The system lets a file be written.
  pub record Writable (p : FilePath) : Type 0 where
    pub makes : disk.mkdir p ≡ true
    pub creates : disk.create p ≡ true
    pub copies : disk.copy_stops p ≡ none
    pub closes : disk.close p ≡ true

  pub copy_file_runs :
      (src dst : FilePath) (fs : Fs) (body : Bytes)
      → (src == dst) ≡ false
      → file fs src ≡ some body
      → Writable dst
      → copy_file disk src dst fs ≡ (true, stored dst body fs)
  unfolding copy_file
  copy_file_runs src dst fs body ne found w =
      rw (copy_file, found, w.creates, source_kept src dst fs body ne found, w.copies, w.closes)
