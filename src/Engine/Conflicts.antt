-- ===== src/Engine/Conflicts.antt =====
-- engine/internal/syncengine/syncengine.go: the files that `Conflicts` lists.
use syncy.Base.{
  Bytes, Bool, true, List, [], ◌∷◌, ◌++◌, ◌==◌, ◌||◌, nat_eq, list_eq, Option, some, if◌then◌else◌,
  str,
}
use syncy.Core.{Folder}
use syncy.Fs.{Fs}
use syncy.Scanner.{Node, Nodes, regular, special, directory, end, entry, child_path}
use syncy.Versioning.{has_prefix}

abbrev pub conflict_mark : Bytes
conflict_mark = str ".sync-conflict-"

-- `strings.Contains`
unfoldable pub contains : Bytes → Bytes → Bool
contains [] t = t == []
contains (c ∷ s) t = let rest = contains s t in has_prefix (c ∷ s) t || rest

abbrev pub if_marked : Bytes → Bytes → List Bytes
if_marked name rel = if contains name conflict_mark then rel ∷ [] else []

-- The walk of `Conflicts` in a folder: the files whose names have the mark. An unreadable
-- directory is passed over.
unfoldable mutual
  unfolding contains has_prefix

  pub conflicts_at : Bytes → Bytes → Node → List Bytes
  conflicts_at name rel (regular st) = if_marked name rel
  conflicts_at name rel special = if_marked name rel
  conflicts_at name rel (directory readable entries) =
      if readable then conflicts_in rel entries else []

  pub conflicts_in : Bytes → Nodes → List Bytes
  conflicts_in rel end = []
  conflicts_in rel (entry name node more) =
      conflicts_at name (child_path rel name) node ++ conflicts_in rel more

pub record Conflict : Type 0 where
  pub folder_id : Bytes
  pub path : Bytes

abbrev pub conflicts_of : Bytes → List Bytes → List Conflict
conflicts_of id [] = []
conflicts_of id (p ∷ ps) = record { folder_id = id; path = p } ∷ conflicts_of id ps

-- The folder of a path that is a directory, or is not there; a file that is shared as a folder is
-- not in the model.
abbrev pub conflicts_root : Option Node → List Bytes
conflicts_root (some (directory true entries)) = conflicts_in [] entries
conflicts_root other = []

-- The loop of `Conflicts` over what `ListFolders` returns.
unfoldable pub conflicts : (Fs → Bytes → Option Node) → Fs → List Folder → List Conflict
unfolding conflicts_at conflicts_in
conflicts walk fs [] = []
conflicts walk fs (f ∷ fds) =
    conflicts_of f.id (conflicts_root (walk fs f.path)) ++ conflicts walk fs fds
