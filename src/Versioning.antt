-- ===== src/Versioning.antt =====
-- engine/internal/versioning/versioning.go: the version store of a folder.
pub mod Naming
pub mod Location
pub mod Owned
pub mod Copying
pub mod Ranking
pub mod Recovery
use syncy.Base.{
  ℕ, zero, suc, ◌+◌, ◌-◌, ◌/◌, ◌%◌, Bytes, Bool, not, true, false, List, [], ◌∷◌, ◌++◌, ◌&&◌, ◌||◌,
  ◌==◌, nat_eq, list_eq, Option, none, some, if◌then◌else◌, length, take, drop, leb, min, str,
  bytes_lt, sort,
}
use syncy.Conflict.Name.{ext, stem}
use syncy.Fs.{Fs, file, set_file, remove_file, path_eq}
use syncy.Fsafe.{FilePath, clean, is_abs, local, join_paths}
use syncy.Fsafe.Below.{same}
use syncy.Metadata.{nonzero}

-- The fields of `Store`; a negative `keep` does what 0 does.
pub record VersionStore : Type 0 where
  pub dir : Bytes
  pub keep : ℕ

-- `Version`, but for the time of modification, which only the interface shows.
pub record Version : Type 0 where
  pub stamp : Bytes
  pub path : FilePath
  pub size : ℕ

-- What the operating system answers: the time of modification of a file in `stampLayout`, which
-- calls succeed, and after how many bytes a copy to a file fails, if it does.
pub record Disk : Type 0 where
  pub stamp_of : FilePath → Bytes
  pub mkdir : FilePath → Bool
  pub create : FilePath → Bool
  pub copy_stops : FilePath → Option ℕ
  pub close : FilePath → Bool
  pub remove : FilePath → Bool
  pub read_dir : FilePath → Bool
  pub info : FilePath → Bool
  -- `os.Stat` of the path fails with another error than `ErrNotExist`
  pub stat_fails : FilePath → Bool
  -- how many rounds of `uniquePath` are followed
  pub rounds : ℕ

-- A path cut behind its last slash.
unfoldable pub cut_last : Bytes → Bytes × Bytes
cut_last [] = ([], [])
cut_last (c ∷ p) =
    let (d, b) = cut_last p in if (c == b'/') || not (d == []) then (c ∷ d, b) else ([], c ∷ b)

-- A path without the slashes at its end.
unfoldable pub trim_slashes : Bytes → Bytes
trim_slashes [] = []
trim_slashes (c ∷ p) =
    let rest = trim_slashes p in if (c == b'/') && (rest == []) then [] else c ∷ rest

abbrev last_name : Bytes → Bytes
last_name [] = str "/"
last_name (c ∷ p) = c ∷ p

-- `filepath.Base` of a path that is not empty.
unfoldable pub base_name : Bytes → Bytes
unfolding cut_last trim_slashes
base_name p = last_name (cut_last (trim_slashes p)).1

-- A file of a directory; `name` has no slash and is neither `.` nor `..`.
abbrev pub child : FilePath → Bytes → FilePath
child dir name = record dir { elems = dir.elems ++ name ∷ [] }

-- The name of a file of the directory.
unfoldable pub name_under : List Bytes → List Bytes → Option Bytes
name_under [] [] = none
name_under [] (n ∷ []) = some n
name_under [] (n ∷ m ∷ es) = none
name_under (d ∷ ds) [] = none
name_under (d ∷ ds) (e ∷ es) = let rest = name_under ds es in if d == e then rest else none

-- The digits of `strconv.Itoa`, the last one first, put before `acc`.
unfoldable pub digits : ℕ → ℕ → Bytes → Bytes
digits zero n acc = acc
digits (suc fuel) n acc =
    let rest = digits fuel (n / 10) ((b'0' + n % 10) ∷ acc) in
    if leb n 9 then (b'0' + n % 10) ∷ acc else rest

unfoldable pub itoa : ℕ → Bytes
unfolding digits
itoa n = digits (suc n) n []

-- The tag that `uniquePath` tries in round `i`.
unfoldable pub tag : Bytes → ℕ → Bytes
tag stamp zero = stamp
tag stamp (suc i) = stamp ++ (str "-" ++ itoa (suc i))

unfoldable pub has_prefix : Bytes → Bytes → Bool
has_prefix s [] = true
has_prefix [] (d ∷ t) = false
has_prefix (c ∷ s) (d ∷ t) = let rest = has_prefix s t in if c == d then rest else false

unfoldable pub has_suffix : Bytes → Bytes → Bool
has_suffix s t = leb (length t) (length s) && drop (length s - length t) s == t

module _ (s : VersionStore) where
  -- `filepath.Join(s.dir, filepath.Dir(rel))`
  unfoldable pub version_dir : Bytes → FilePath
  unfolding cut_last
  version_dir rel = join_paths s.dir (cut_last rel).0

  -- The name of a version of a file: `prefix + "~" + tag + ext`.
  unfoldable pub version_name : Bytes → Bytes → Bytes
  version_name rel t = stem (base_name rel) ++ (str "~" ++ (t ++ ext (base_name rel)))

  unfoldable pub version_path : Bytes → Bytes → FilePath
  unfolding version_dir version_name
  version_path rel t = child (version_dir rel) (version_name rel t)

  -- One round of the loop of `uniquePath`: a name that `Stat` says no file has, or the following
  -- round, behind a name that is taken and behind any other error of `Stat`.
  abbrev pub try_name : Option FilePath → FilePath → Bool → Option Bytes → Option FilePath
  try_name next p true found = next
  try_name next p false none = some p
  try_name next p false (some body) = next

  -- The loop, from round `i`.
  unfoldable pub unique_from : Disk → ℕ → Bytes → Bytes → ℕ → Fs → Option FilePath
  unique_from disk zero rel stamp i fs = none
  unique_from disk (suc fuel) rel stamp i fs =
      try_name (unique_from disk fuel rel stamp (suc i) fs) (version_path rel (tag stamp i))
        (disk.stat_fails (version_path rel (tag stamp i)))
        (file fs (version_path rel (tag stamp i)))

  -- None where the rounds that are followed find no name; the loop of the code then goes on, and
  -- the `Archive` that waits for it changes nothing.
  unfoldable pub unique_path : Disk → Bytes → Bytes → Fs → Option FilePath
  unfolding unique_from
  unique_path disk rel stamp fs = unique_from disk disk.rounds rel stamp 0 fs

-- One entry of the loop of `Versions`. Where the two parts overlap in a name, which takes an
-- extension with a `~`, the slice of the code panics, and the stamp is empty here.
abbrev pub version_of : Bytes → FilePath → Bytes → Bytes → Option Version
version_of rel dir name body =
    let front = stem (base_name rel) ++ str "~" in
    let back = ext (base_name rel) in
    if not (has_prefix name front) || not (has_suffix name back)
    then none
    else some (record {
      stamp = drop (length front) (take (length name - length back) name);
      path = child dir name;
      size = length body;
    })

abbrev pub entry_of : Bytes → FilePath → FilePath → Option Bytes → Bytes → Option Version
entry_of rel dir p none body = none
entry_of rel dir p (some name) body =
    if same p.rooted dir.rooted then version_of rel dir name body else none

abbrev pub prepend : Version → Option (List Version) → Option (List Version)
prepend v none = none
prepend v (some vs) = some (v ∷ vs)

-- An entry that is a version is asked for its `Info`, whose error ends `Versions`.
abbrev pub add_entry :
    (FilePath → Bool) → Option Version → Option (List Version) → Option (List Version)
add_entry info none vs = vs
add_entry info (some v) vs = if info v.path then prepend v vs else none

-- The loop of `Versions`, over the files of the directory.
unfoldable pub listed : (FilePath → Bool) → Bytes → FilePath → Fs → Option (List Version)
unfolding name_under has_prefix has_suffix base_name
listed info rel dir [] = some []
listed info rel dir ((p, body) ∷ fs) =
    add_entry info (entry_of rel dir p (name_under dir.elems p.elems) body) (listed info rel dir fs)

abbrev pub newer : Version → Version → Bool
newer v w = bytes_lt w.stamp v.stamp

abbrev pub sorted_versions : Option (List Version) → Option (List Version)
sorted_versions none = none
sorted_versions (some vs) = some (sort newer vs)

module _ (disk : Disk) where
  -- `copyFile`: the destination is truncated before the source is read.
  abbrev pub filled : FilePath → Fs → Option ℕ → Option Bytes → Bool × Fs
  filled dst fs stops none = (false, fs)
  filled dst fs none (some body) = (disk.close dst, set_file fs dst body)
  filled dst fs (some n) (some body) = (false, set_file fs dst (take n body))

  abbrev pub copy_found : FilePath → FilePath → Fs → Option Bytes → Bool × Fs
  copy_found src dst fs none = (false, fs)
  copy_found src dst fs (some body) =
      if not (disk.create dst)
      then (false, fs)
      else filled dst (set_file fs dst []) (disk.copy_stops dst) (file (set_file fs dst []) src)

  unfoldable pub copy_file : FilePath → FilePath → Fs → Bool × Fs
  copy_file src dst fs = copy_found src dst fs (file fs src)

  module _ (s : VersionStore) where
    -- `Versions` behind the check of the path. A directory that is not there has no files.
    unfoldable pub versions_in : Bytes → Fs → Option (List Version)
    unfolding listed version_dir
    versions_in rel fs =
        if not (disk.read_dir (version_dir s rel))
        then none
        else sorted_versions (listed disk.info rel (version_dir s rel) fs)

    unfoldable pub versions : Bytes → Fs → Option (List Version)
    unfolding versions_in
    versions rel fs = if not (local rel) then none else versions_in rel fs

    -- The loop of `prune`.
    unfoldable pub remove_all : List Version → Fs → Bool × Fs
    remove_all [] fs = (true, fs)
    remove_all (v ∷ vs) fs =
        let rest = remove_all vs (remove_file fs v.path) in
        if not (disk.remove v.path) then (false, fs) else rest

    abbrev pub prune_listed : Option (List Version) → Fs → Bool × Fs
    prune_listed none fs = (false, fs)
    prune_listed (some vs) fs = remove_all (drop (min s.keep (length vs)) vs) fs

    unfoldable pub prune : Bytes → Fs → Bool × Fs
    unfolding versions remove_all
    prune rel fs = if s.keep == 0 then (true, fs) else prune_listed (versions rel fs) fs

    -- `Archive`, step by step: behind the copy, behind the choice of the name, behind the look at
    -- the file.
    abbrev pub pruned : Bytes → Bool × Fs → Bool × Fs
    pruned rel (false, fs) = (false, fs)
    pruned rel (true, fs) = prune rel fs

    abbrev pub archive_as : Bytes → FilePath → Option FilePath → Fs → Bool × Fs
    archive_as rel src none fs = (false, fs)
    archive_as rel src (some dst) fs =
        if not (disk.mkdir dst) then (false, fs) else pruned rel (copy_file src dst fs)

    abbrev pub archive_found : Bytes → FilePath → Option Bytes → Fs → Bool × Fs
    archive_found rel src none fs = (false, fs)
    archive_found rel src (some body) fs =
        archive_as rel src (unique_path s disk rel (disk.stamp_of src) fs) fs

    unfoldable pub archive : Bytes → Bytes → Fs → Bool × Fs
    unfolding prune copy_file unique_path
    archive root rel fs =
        if not (local rel)
        then (false, fs)
        else archive_found rel (join_paths root rel) (file fs (join_paths root rel)) fs

    abbrev pub restore_found : FilePath → FilePath → Option Bytes → Fs → Bool × Fs
    restore_found archived dst none fs = (false, fs)
    restore_found archived dst (some body) fs =
        if not (disk.mkdir dst) then (false, fs) else copy_file archived dst fs

    unfoldable pub restore : Bytes → Bytes → Bytes → Fs → Bool × Fs
    unfolding copy_file version_path
    restore root rel t fs =
        if not (local rel)
        then (false, fs)
        else restore_found (version_path s rel t) (join_paths root rel)
            (file fs (version_path s rel t)) fs
