-- ===== src/Fs/Laws.antt =====
-- Reading a file back behind a write or a removal; a suffix makes another path.
use syncy.Base.{
  ℕ, ◌+◌, ◌<◌, Bytes, Bool, true, false, List, [], ◌∷◌, none, some, ◌==◌, ◌≡◌, ◌≢◌, ap,
  if◌then◌else◌, length, length-append, arith,
}
use syncy.Base.Dict.{lookup-insert, lookup-erase}
use syncy.Fs.{Fs, file, set_file, remove_file, path_eq, add_suffix, suffixed}
use syncy.Fsafe.{FilePath}

pub file-set_file :
    (fs : Fs) (p q : FilePath) (body : Bytes)
    → file (set_file fs p body) q ≡ (if q == p then some body else file fs q)
unfolding file set_file
file-set_file fs p q body = lookup-insert q p body fs

pub file-remove_file :
    (fs : Fs) (p q : FilePath) → file (remove_file fs p) q ≡ (if q == p then none else file fs q)
unfolding file remove_file
file-remove_file fs p q = lookup-erase q p fs

-- The bytes of all elements together.
total : List Bytes → ℕ
total [] = 0
total (e ∷ es) = length e + total es

suffixed-longer :
    (rooted : Bool) (es : List Bytes) (suffix : Bytes)
    → 0 < length suffix
    → total es < total (suffixed rooted es suffix)
unfolding total
suffixed-longer true [] suffix h = omega arith
suffixed-longer false [] suffix h = omega arith
suffixed-longer rooted (e ∷ []) suffix h = omega (arith, length-append e suffix)
suffixed-longer rooted (e ∷ d ∷ es) suffix h =
    omega (arith, suffixed-longer rooted (d ∷ es) suffix h)

pub add_suffix-ne : (p : FilePath) (suffix : Bytes) → 0 < length suffix → add_suffix p suffix ≢ p
unfolding add_suffix
add_suffix-ne p suffix h e = absurd (
    omega
      (arith, suffixed-longer p.rooted p.elems suffix h, ap (λ (t : FilePath). total t.elems) e))
