-- ===== src/Versioning/Recovery.antt =====
-- engine/internal/versioning/versioning.go: what the version store gives back: `Restore` behind `Archive`.
use mathlib.Core.Path.{subst}
use syncy.Base.{
  All, Any, ◌∷◌, ℕ, ◌≤◌, Bytes, Bool, not, true, false, List, [], ◌==◌, nat_eq, list_eq, none, some,
  ◌≡◌, ◌⊎◌, refl, sym, ap, ◌∙◌, inl, inr, if◌then◌else◌, length, drop, drop-all, min, leb, arith,
  Bool-cases, Option-cases, eq_of_beq, eq_refl,
}
use syncy.Fs.{Fs, file, path_eq}
use syncy.Fsafe.{FilePath, local, join_paths}
use syncy.Versioning.{
  VersionStore, Version, Disk, version_path, unique_path, tag, copy_file, prune, pruned, versions,
  archive, archive_found, archive_as,
}
use syncy.Versioning.Copying.{stored, file-stored, copy_file_ok}
use syncy.Versioning.Naming.{unique_from-Fresh}
use syncy.Versioning.Owned.{remove_all-file}
use syncy.Versioning.Ranking.{Outranked, drop-Outranked}

module _ (disk : Disk) where
  module _ (s : VersionStore) where
    Any-or_all :
        (p : FilePath) (vs : List Version)
        → Any (λ v. v.path ≡ p) vs ⊎ All (λ v. (p == v.path) ≡ false) vs
    Any-or_all p [] = inr tt
    Any-or_all p (v ∷ vs) = elim (Any-or_all p vs) [
      | inl later ↦ inl (inr later)
      | inr others ↦ elim (Bool-cases (p == v.path)) [
        | inl here ↦ inl (inl (sym (eq_of_beq p v.path here)))
        | inr other ↦ inr (other, others)
      ]
    ]

    drop_min :
        (P : Version → Type 0) (n : ℕ) (vs : List Version)
        → Any P (drop (min n (length vs)) vs)
        → Any P (drop n vs)
    drop_min P n vs h = elim (Bool-cases (leb n (length vs))) [
      | inl le ↦
          let e : min n (length vs) ≡ n = ground arith in subst (λ (k : ℕ). Any P (drop k vs)) e h
      | inr gt ↦
          let all : length vs ≤ min n (length vs) = ground arith in
          elim (subst (Any P) (drop-all (min n (length vs)) vs all) h) [ ]
    ]

    -- Pruning keeps a version unless `keep` others outrank it.
    prune_keeps :
        (rel t : Bytes) (fs : Fs)
        → (file (prune disk s rel fs).1 (version_path s rel t) ≡ file fs (version_path s rel t))
          ⊎ Outranked disk s rel t fs
    unfolding prune
    prune_keeps rel t fs =
        let p = version_path s rel t in
        elim (Bool-cases (s.keep == 0)) [
          | inl all ↦ inl (rw (prune, all))
          | inr some_kept ↦ elim (Option-cases (versions disk s rel fs)) [
            | inl failed ↦ inl (rw (prune, some_kept, failed))
            | inr (vs, found) ↦ elim (Any-or_all p (drop (min s.keep (length vs)) vs)) [
              | inr others ↦ inl (
                  rw (prune, some_kept, found)
                    (remove_all-file disk s (drop (min s.keep (length vs)) vs) fs p others))
              | inl gone ↦ inr (
                  drop-Outranked disk s rel t fs vs some_kept found
                    (drop_min (λ v. v.path ≡ p) s.keep vs gone))
            ]
          ]
        ]

    pruned_ok :
        (rel : Bytes) (r : Bool × Fs)
        → (pruned disk s rel r).0 ≡ true
        → (r.0 ≡ true) × ((pruned disk s rel r).1 ≡ (prune disk s rel r.1).1)
    pruned_ok rel (false, fs) h = cc h
    pruned_ok rel (true, fs) h = (refl, refl)

    -- What a successful archive leaves: a version with the file's bytes under a name that was
    -- free, unless the store keeps other versions in its place.
    abbrev pub Stores : Bytes → Bytes → Fs → Fs → Type 0
    Stores rel body fs fs' =
        (t : Bytes) × (file fs (version_path s rel t) ≡ none)
        × ((file fs' (version_path s rel t) ≡ some body)
            ⊎ Outranked disk s rel t (stored (version_path s rel t) body fs))

    archive_as-Stores :
        (rel t : Bytes) (src : FilePath) (fs : Fs) (body : Bytes)
        → file fs src ≡ some body
        → (src == version_path s rel t) ≡ false
        → (archive_as disk s rel src (some (version_path s rel t)) fs).0 ≡ true
        → (file
              (archive_as disk s rel src (some (version_path s rel t)) fs).1
              (version_path s rel t)
            ≡ some body)
          ⊎ Outranked disk s rel t (stored (version_path s rel t) body fs)
    archive_as-Stores rel t src fs body found ne h =
        let dst = version_path s rel t in
        elim (Bool-cases (disk.mkdir dst)) [
          | inr bad ↦ cc (rw bad at h)
          | inl made ↦
              let (copied, left) = pruned_ok rel (copy_file disk src dst fs) (rw made at h) in
              let behind = copy_file_ok disk src dst fs body ne found copied in
              elim (prune_keeps rel t (stored dst body fs)) [
                | inr over ↦ inr over
                | inl same ↦ inl (
                    rw made (
                      ap (λ gs. file gs dst) (left ∙ ap (λ gs. (prune disk s rel gs).1) behind)
                      ∙ same
                      ∙ file-stored dst dst body fs
                      ∙ rw (eq_refl dst)))
              ]
        ]

    other_path :
        (fs : Fs) (p q : FilePath) (body : Bytes)
        → file fs p ≡ some body
        → file fs q ≡ none
        → (p == q) ≡ false
    other_path fs p q body here free = elim (Bool-cases (p == q)) [
      | inr ne ↦ ne
      | inl e ↦ cc (here, free, eq_of_beq p q e)
    ]

    archive_run :
        (root rel : Bytes) (fs : Fs) (body : Bytes) (dst : FilePath)
        → local rel ≡ true
        → file fs (join_paths root rel) ≡ some body
        → unique_path s disk rel (disk.stamp_of (join_paths root rel)) fs ≡ some dst
        → archive disk s root rel fs ≡ archive_as disk s rel (join_paths root rel) (some dst) fs
    unfolding archive
    archive_run root rel fs body dst good found named =
        let start : archive disk s root rel fs
            ≡ archive_found disk s rel (join_paths root rel) (file fs (join_paths root rel)) fs =
          ap
            (λ b.
              if not b
              then (false, fs)
              else archive_found disk s rel (join_paths root rel) (file fs (join_paths root rel))
                  fs)
            good in
        start
        ∙ ap (λ f. archive_found disk s rel (join_paths root rel) f fs) found
        ∙ ap (λ o. archive_as disk s rel (join_paths root rel) o fs) named

    pub archive-Stores :
        (root rel : Bytes) (fs : Fs) (body : Bytes)
        → file fs (join_paths root rel) ≡ some body
        → (archive disk s root rel fs).0 ≡ true
        → (local rel ≡ true) × Stores rel body fs (archive disk s root rel fs).1
    unfolding archive unique_path
    archive-Stores root rel fs body found h =
        let src = join_paths root rel in
        let o = unique_path s disk rel (disk.stamp_of src) fs in
        elim (Bool-cases (local rel)) [
          | inr bad ↦ cc (rw bad at h)
          | inl good ↦ elim (Option-cases o) [
            | inl full ↦ cc (rw (good, found, full) at h)
            | inr (dst, named) ↦
                let (j, shape, free) =
                  unique_from-Fresh s disk disk.rounds rel (disk.stamp_of src) 0 fs dst named in
                let t = tag (disk.stamp_of src) j in
                let free_t : file fs (version_path s rel t) ≡ none =
                  ap (file fs) (sym shape) ∙ free in
                let run =
                  archive_run root rel fs body (version_path s rel t) good found
                    (named ∙ ap some shape) in
                let done =
                  archive_as-Stores rel t src fs body found
                    (other_path fs src (version_path s rel t) body found free_t)
                    (sym (ap (λ r. r.0) run) ∙ h) in
                (
                  good,
                  (
                    t,
                    free_t,
                    subst
                        (λ r.
                          (file r.1 (version_path s rel t) ≡ some body)
                          ⊎ Outranked disk s rel t (stored (version_path s rel t) body fs))
                        (sym run) done,
                  ),
                )
          ]
        ]
