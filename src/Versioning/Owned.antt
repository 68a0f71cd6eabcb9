-- ===== src/Versioning/Owned.antt =====
-- Where the version store writes: below its directory, whatever path it is given.
use mathlib.Core.Path.{subst}
use mathlib.Core.Option.{some-injective}
use syncy.Base.{
  ℕ, Bytes, Bool, true, false, List, [], ◌∷◌, ◌==◌, nat_eq, list_eq, ◌≡◌, ◌≢◌, refl, sym, ◌∙◌, inl,
  inr, Option, none, some, Bool-cases, Option-cases, take, arith, All, All-drop, sort, sort-All,
  min, length, drop,
}
use syncy.Fs.{Fs, file, set_file, remove_file, path_eq}
use syncy.Fs.Laws.{file-set_file, file-remove_file}
use syncy.Fsafe.{FilePath, local, join_paths}
use syncy.Session.Install.{IsLawful}
use syncy.Versioning.{
  VersionStore, Version, Disk, child, version_dir, version_name, version_path, unique_path,
  copy_file, filled, prune, versions, versions_in, listed, entry_of, name_under, remove_all,
  archive, archive_as, pruned, newer, add_entry, tag,
}
use syncy.Session.Transfer.{Archiver}
use syncy.Fsafe.Below.{below_dir_apart}
use syncy.Versioning.Naming.{unique_from-Fresh}
use syncy.Versioning.Location.{below_store, version-below_store}

filled-file :
    (disk : Disk) (dst : FilePath) (fs : Fs) (stops : Option ℕ) (o : Option Bytes) (q : FilePath)
    → (q == dst) ≡ false
    → file (filled disk dst fs stops o).1 q ≡ file fs q
filled-file disk dst fs stops none q ne = refl
filled-file disk dst fs none (some body) q ne = file-set_file fs dst q body ∙ rw ne
filled-file disk dst fs (some n) (some body) q ne = file-set_file fs dst q (take n body) ∙ rw ne

-- A copy changes its destination and no other file.
pub copy_file-file :
    (disk : Disk) (src dst : FilePath) (fs : Fs) (q : FilePath)
    → (q == dst) ≡ false
    → file (copy_file disk src dst fs).1 q ≡ file fs q
unfolding copy_file
copy_file-file disk src dst fs q ne = elim (Option-cases (file fs src)) [
  | inl missing ↦ rw (copy_file, missing)
  | inr (body, found) ↦ elim (Bool-cases (disk.create dst)) [
    | inr bad ↦ rw (copy_file, found, bad)
    | inl made ↦
        rw (copy_file, found, made)
          (filled-file disk dst (set_file fs dst []) (disk.copy_stops dst)
              (file (set_file fs dst []) src) q ne
            ∙ file-set_file fs dst q []
            ∙ rw ne)
  ]
]

-- The path of a listed version is a file of the version directory.
abbrev pub InDir : FilePath → Version → Type 0
InDir dir v = (name : Bytes) × (v.path ≡ child dir name)

entry_of-InDir :
    (rel : Bytes) (dir p : FilePath) (o : Option Bytes) (body : Bytes) (v : Version)
    → entry_of rel dir p o body ≡ some v
    → InDir dir v
entry_of-InDir rel dir p none body v h = cc h
entry_of-InDir rel dir p (some name) body v h = (name, ground arith)

add_entry-All :
    (P : Version → Type 0) (info : FilePath → Bool) (o : Option Version) (r : Option (List Version))
    (vs : List Version)
    → ((v : Version) → o ≡ some v → P v)
    → ((us : List Version) → r ≡ some us → All P us)
    → add_entry info o r ≡ some vs
    → All P vs
add_entry-All P info none r vs h all e = all vs e
add_entry-All P info (some v) none vs h all e = elim (Bool-cases (info v.path)) [
  | inl fine ↦ cc (rw fine at e)
  | inr bad ↦ cc (rw bad at e)
]
add_entry-All P info (some v) (some us) vs h all e = elim (Bool-cases (info v.path)) [
  | inr bad ↦ cc (rw bad at e)
  | inl fine ↦ subst (All P) (some-injective _ _ (rw fine at e)) (h v refl, all us refl)
]

-- What holds of every entry that is a version holds of every listed version.
listed-All :
    (P : Version → Type 0) (info : FilePath → Bool) (rel : Bytes) (dir : FilePath)
    → ((p : FilePath) (o : Option Bytes) (body : Bytes) (v : Version)
        → entry_of rel dir p o body ≡ some v
        → P v)
    → (fs : Fs) (vs : List Version) → listed info rel dir fs ≡ some vs
    → All P vs
unfolding listed
listed-All P info rel dir h [] vs e = subst (All P) (some-injective _ _ e) tt
listed-All P info rel dir h ((p, body) ∷ fs) vs e =
    let name = name_under dir.elems p.elems in
    add_entry-All P info (entry_of rel dir p name body) (listed info rel dir fs) vs (h p name body)
      (λ us found. listed-All P info rel dir h fs us found) e

module _ (disk : Disk) (s : VersionStore) where
  -- What `Versions` returns is the list of the directory, sorted.
  pub versions-listed :
      (rel : Bytes) (fs : Fs) (vs : List Version)
      → versions disk s rel fs ≡ some vs
      → (us : List Version) × (listed disk.info rel (version_dir s rel) fs ≡ some us)
        × (vs ≡ sort newer us)
  unfolding versions versions_in
  versions-listed rel fs vs h = elim (Bool-cases (local rel)) [
    | inr bad ↦ cc (rw bad at h)
    | inl good ↦ elim (Bool-cases (disk.read_dir (version_dir s rel))) [
      | inr bad ↦ cc (rw (good, bad) at h)
      | inl fine ↦ elim (Option-cases (listed disk.info rel (version_dir s rel) fs)) [
        | inl bad ↦ cc (rw (good, fine, bad) at h)
        | inr (us, found) ↦ (us, found, sym (some-injective _ _ (rw (good, fine, found) at h)))
      ]
    ]
  ]

  pub versions-All :
      (P : Version → Type 0) (rel : Bytes) (fs : Fs) (vs : List Version)
      → ((p : FilePath) (o : Option Bytes) (body : Bytes) (v : Version)
          → entry_of rel (version_dir s rel) p o body ≡ some v
          → P v)
      → versions disk s rel fs ≡ some vs
      → All P vs
  versions-All P rel fs vs every h =
      let (us, found, e) = versions-listed rel fs vs h in
      subst (All P) (sym e)
        (sort-All newer P us (listed-All P disk.info rel (version_dir s rel) every fs us found))

  versions-InDir :
      (rel : Bytes) (fs : Fs) (vs : List Version)
      → versions disk s rel fs ≡ some vs
      → All (InDir (version_dir s rel)) vs
  versions-InDir rel fs vs h =
      versions-All (InDir (version_dir s rel)) rel fs vs (entry_of-InDir rel (version_dir s rel)) h

  pub remove_all-file :
      (vs : List Version) (fs : Fs) (q : FilePath)
      → All (λ v. (q == v.path) ≡ false) vs
      → file (remove_all disk s vs fs).1 q ≡ file fs q
  unfolding remove_all
  remove_all-file [] fs q all = refl
  remove_all-file (v ∷ vs) fs q (ne, all) = elim (Bool-cases (disk.remove v.path)) [
    | inr bad ↦ rw bad
    | inl gone ↦
        rw gone
          (remove_all-file vs (remove_file fs v.path) q all ∙ file-remove_file fs v.path q ∙ rw ne)
  ]

  outside-versions :
      (rel : Bytes) (q : FilePath) (vs : List Version)
      → s.dir ≢ []
      → local rel ≡ true
      → below_store s q ≡ false
      → All (InDir (version_dir s rel)) vs
      → All (λ v. (q == v.path) ≡ false) vs
  outside-versions rel q [] nonempty good out all = tt
  outside-versions rel q (v ∷ vs) nonempty good out ((name, shape), all) = (
    below_dir_apart s.dir v.path q (rw shape (version-below_store s rel name nonempty good)) out,
    outside-versions rel q vs nonempty good out all,
  )

  prune-file :
      (rel : Bytes) (fs : Fs) (q : FilePath)
      → s.dir ≢ []
      → local rel ≡ true
      → below_store s q ≡ false
      → file (prune disk s rel fs).1 q ≡ file fs q
  unfolding prune
  prune-file rel fs q nonempty good out = elim (Bool-cases (s.keep == 0)) [
    | inl all ↦ rw all
    | inr some_kept ↦ elim (Option-cases (versions disk s rel fs)) [
      | inl failed ↦ rw (some_kept, failed)
      | inr (vs, found) ↦
          rw (some_kept, found)
            (remove_all-file (drop (min s.keep (length vs)) vs) fs q (
              All-drop (λ v. (q == v.path) ≡ false) (min s.keep (length vs)) vs
                (outside-versions rel q vs nonempty good out (versions-InDir rel fs vs found))))
    ]
  ]

  pruned-file :
      (rel : Bytes) (r : Bool × Fs) (q : FilePath)
      → s.dir ≢ []
      → local rel ≡ true
      → below_store s q ≡ false
      → file (pruned disk s rel r).1 q ≡ file r.1 q
  pruned-file rel (false, fs) q nonempty good out = refl
  pruned-file rel (true, fs) q nonempty good out = prune-file rel fs q nonempty good out

module _ (disk : Disk) (s : VersionStore) (nonempty : s.dir ≢ []) where
  archive_as-file :
      (rel : Bytes) (src : FilePath) (o : Option FilePath) (fs : Fs) (q : FilePath)
      → local rel ≡ true
      → below_store s q ≡ false
      → ((dst : FilePath) → o ≡ some dst → below_store s dst ≡ true)
      → file (archive_as disk s rel src o fs).1 q ≡ file fs q
  archive_as-file rel src none fs q good out inside = refl
  archive_as-file rel src (some dst) fs q good out inside = elim (Bool-cases (disk.mkdir dst)) [
    | inr bad ↦ rw bad
    | inl made ↦ rw made (
        pruned-file disk s rel (copy_file disk src dst fs) q nonempty good out
        ∙ copy_file-file disk src dst fs q (below_dir_apart s.dir dst q (inside dst refl) out))
  ]

  unique_path-below :
      (rel stamp : Bytes) (fs : Fs) (dst : FilePath)
      → local rel ≡ true
      → unique_path s disk rel stamp fs ≡ some dst
      → below_store s dst ≡ true
  unfolding unique_path version_path
  unique_path-below rel stamp fs dst good h =
      let (j, shape, free) = unique_from-Fresh s disk disk.rounds rel stamp 0 fs dst h in
      rw shape (version-below_store s rel (version_name s rel (tag stamp j)) nonempty good)

  -- Archiving a file, for any path and whichever system calls fail, changes no file outside the
  -- store's directory; the directory is not the empty path.
  pub archive-file :
      (root rel : Bytes) (fs : Fs) (q : FilePath)
      → below_store s q ≡ false
      → file (archive disk s root rel fs).1 q ≡ file fs q
  unfolding archive
  archive-file root rel fs q out = elim (Bool-cases (local rel)) [
    | inr bad ↦ rw bad
    | inl good ↦ elim (Option-cases (file fs (join_paths root rel))) [
      | inl missing ↦ rw (good, missing)
      | inr (body, found) ↦
          rw (good, found)
            (archive_as-file rel (join_paths root rel)
              (unique_path s disk rel (disk.stamp_of (join_paths root rel)) fs) fs q good out
              (λ dst h. unique_path-below rel (disk.stamp_of (join_paths root rel)) fs dst good h))
    ]
  ]

-- The version store as the one that a session archives with.
abbrev pub archiver : Disk → VersionStore → Archiver
archiver disk s = record { archive = archive disk s; owns = below_store s }

-- It meets what a session asks of its version store: it changes only its own files. The directory
-- of the store is not the empty path.
pub archiver-IsLawful :
    (disk : Disk) (s : VersionStore) → s.dir ≢ [] → IsLawful (some (archiver disk s))
archiver-IsLawful disk s nonempty =
    λ root rel fs q out. archive-file disk s nonempty root rel fs q out
