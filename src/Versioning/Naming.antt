-- ===== src/Versioning/Naming.antt =====
-- The names of versions: `uniquePath` finds one that is free.
use mathlib.Core.Option.{some-injective}
use syncy.Base.{
  ℕ, zero, suc, ◌+◌, ◌-◌, ◌*◌, Bytes, List, [], ◌∷◌, nat_eq, list_eq, none, some, ◌≡◌, sym, ap, inl,
  inr, Bool-cases, Option-cases, append_cancel_left,
}
use syncy.Fs.{Fs, file, path_eq}
use syncy.Fsafe.{FilePath}
use syncy.Versioning.{VersionStore, Disk, child, tag, version_path, unique_from}

-- The number that digits stand for, behind the digits of `k`.
number : ℕ → Bytes → ℕ
number k [] = k
number k (c ∷ cs) = number (k * 10 + (c - b'0')) cs

first : Bytes → List Bytes → Bytes
first d [] = d
first d (e ∷ es) = e

pub child_injective : (dir : FilePath) (a b : Bytes) → child dir a ≡ child dir b → a ≡ b
unfolding first
child_injective dir a b e =
    ap (first a) (append_cancel_left dir.elems (a ∷ []) (b ∷ []) (ap (λ p. p.elems) e))

-- The name that the store finds is one of a version, and no file has it.
pub unique_from-Fresh :
    (s : VersionStore) (disk : Disk) (fuel : ℕ) (rel stamp : Bytes) (i : ℕ) (fs : Fs)
    (dst : FilePath)
    → unique_from s disk fuel rel stamp i fs ≡ some dst
    → (j : ℕ) × (dst ≡ version_path s rel (tag stamp j)) × (file fs dst ≡ none)
unfolding unique_from
unique_from-Fresh s disk zero rel stamp i fs dst h = cc h
unique_from-Fresh s disk (suc fuel) rel stamp i fs dst h =
    let p = version_path s rel (tag stamp i) in
    elim (Bool-cases (disk.stat_fails p)) [
      | inl fails ↦ unique_from-Fresh s disk fuel rel stamp (suc i) fs dst (rw fails at h)
      | inr answers ↦ elim (Option-cases (file fs p)) [
        | inl free ↦
            let e : p ≡ dst = some-injective _ _ (rw (answers, free) at h) in
            (i, sym e, rw (sym e) free)
        | inr (body, taken) ↦
            unique_from-Fresh s disk fuel rel stamp (suc i) fs dst (rw (answers, taken) at h)
      ]
    ]
