-- ===== src/Fs.antt =====
-- The part of the operating system's file system that the engine uses: files by cleaned path.
pub mod Laws
use syncy.Base.{
  ℕ, ◌+◌, Bytes, Bool, List, [], ◌∷◌, ◌++◌, Option, none, some, Eq, ◌==◌, ◌||◌, nat_eq, leb, length,
  take, drop, if◌then◌else◌, ◌≡◌, refl, ap, ℕ_discrete, true, false, str, list_dec, dite,
}
use mathlib.Core.Bool.{Bool-discrete}
use syncy.Base.Dict.{Dict, lookup, insert, erase}
use syncy.Fsafe.{FilePath}

unfoldable pub path_dec : Discrete FilePath
path_dec p q =
    dite (Bool-discrete p.rooted q.rooted)
      (λ a.
        dite (list_dec (list_dec ℕ_discrete) p.elems q.elems)
          (λ b. yes (λ i. record { rooted = a i; elems = b i }))
          (λ n. no (λ e. n (ap (λ t. t.elems) e))))
      (λ n. no (λ e. n (ap (λ t. t.rooted) e)))

instance unfoldable pub path_eq : Eq FilePath
unfolding path_dec
path_eq = record { dec = path_dec }

-- The regular files and their contents.
abbrev pub Fs : Type 0
Fs = Dict FilePath Bytes

unfoldable pub file : Fs → FilePath → Option Bytes
file fs p = lookup p fs

unfoldable pub set_file : Fs → FilePath → Bytes → Fs
set_file fs p body = insert p body fs

unfoldable pub remove_file : Fs → FilePath → Fs
remove_file fs p = erase p fs

abbrev bytes_at : Option Bytes → ℕ → ℕ → Option Bytes
bytes_at none offset n = none
bytes_at (some body) offset n =
    if (n == 0) || leb (offset + n) (length body) then some (take n (drop offset body)) else none

-- `os.Open` and `ReadAt` of `n` bytes: an error when the file is missing or ends before them.
unfoldable pub read_at : Fs → FilePath → ℕ → ℕ → Option Bytes
read_at fs p offset n = bytes_at (file fs p) offset n

abbrev pub suffixed : Bool → List Bytes → Bytes → List Bytes
suffixed rooted [] suffix = (if rooted then suffix else str "." ++ suffix) ∷ []
suffixed rooted (e ∷ []) suffix = (e ++ suffix) ∷ []
suffixed rooted (e ∷ d ∷ es) suffix = e ∷ suffixed rooted (d ∷ es) suffix

-- A suffix behind the text of a path.
unfoldable pub add_suffix : FilePath → Bytes → FilePath
add_suffix p suffix = record p { elems = suffixed p.rooted p.elems suffix }
