-- ===== src/Scanner/Diff.antt =====
-- engine/internal/scanner/diff.go: the changes between two indexes.
use syncy.Base.{
  ℕ, Bytes, Bool, not, false, List, [], ◌∷◌, ◌++◌, ◌||◌, ◌==◌, nat_eq, list_eq, if◌then◌else◌, ltb,
  Option, none, some, str, bytes_lt, sort,
}
use syncy.Base.Dict.{Dict, lookup, insert}
use syncy.Core.{zero_time}
use syncy.Hashing.{Hash, zero_hash}
use syncy.Scanner.{FileInfo, Index}

pub data ChangeKind : Type 0 where
  added modified deleted renamed : ChangeKind

-- `ChangeKind.String`, at the four kinds.
unfoldable pub kind_name : ChangeKind → Bytes
kind_name added = str "added"
kind_name modified = str "modified"
kind_name deleted = str "deleted"
kind_name renamed = str "renamed"

-- The value of the constant.
abbrev pub kind_value : ChangeKind → ℕ
kind_value added = 0
kind_value modified = 1
kind_value deleted = 2
kind_value renamed = 3

pub record Change : Type 0 where
  pub kind : ChangeKind
  pub path : Bytes
  pub old_path : Bytes
  pub file : FileInfo

-- Go's zero `FileInfo`, which a map gives at a key that it does not hold.
abbrev pub no_file : FileInfo
no_file = record {
  path = [];
  size = 0;
  mod_time = zero_time;
  mode = 0;
  hash = zero_hash;
  blocks = [];
}

abbrev pub or_no_file : Option FileInfo → FileInfo
or_no_file none = no_file
or_no_file (some fi) = fi

unfoldable pub file_at : Index → Bytes → FileInfo
file_at idx p = or_no_file (lookup p idx)

-- What the first loop makes of one file of the new index: its path among the added ones, or a
-- change among the modified ones.
abbrev pub modification : Bytes → FileInfo → Option FileInfo → List Change → List Change
modification p nf none rest = rest
modification p nf (some of) rest =
    if of.hash == nf.hash
    then rest
    else record { kind = modified; path = p; old_path = []; file = nf } ∷ rest

unfoldable pub modifications : Index → Index → List Change
modifications old [] = []
modifications old ((p, nf) ∷ files) = modification p nf (lookup p old) (modifications old files)

abbrev pub missing_path : Bytes → Option FileInfo → List Bytes → List Bytes
missing_path p none rest = p ∷ rest
missing_path p (some fi) rest = rest

-- The paths of an index that another one does not hold: the added ones, and the deleted ones.
unfoldable pub paths_not_in : Index → Index → List Bytes
paths_not_in other [] = []
paths_not_in other ((p, fi) ∷ files) = missing_path p (lookup p other) (paths_not_in other files)

abbrev pub or_empty : Option (List Bytes) → List Bytes
or_empty none = []
or_empty (some ps) = ps

-- The loop that fills `addedByHash`.
unfoldable pub by_hash : Index → List Bytes → Dict Hash (List Bytes) → Dict Hash (List Bytes)
unfolding file_at
by_hash new [] m = m
by_hash new (p ∷ ps) m = by_hash new ps (
    if (file_at new p).size == 0
    then m
    else insert (file_at new p).hash (or_empty (lookup (file_at new p).hash m) ++ p ∷ []) m)

unfoldable pub contains : Bytes → List Bytes → Bool
contains p [] = false
contains p (q ∷ qs) = (p == q) || contains p qs

-- The matches so far: `matchedAdded`, `matchedDeleted`, and the changes.
pub record Matches : Type 0 where
  pub matched_added : List Bytes
  pub matched_deleted : List Bytes
  pub changes : List Change

-- The inner loop: the first candidate that is free and as long as the deleted file.
unfoldable pub first_match : Index → ℕ → List Bytes → List Bytes → Option Bytes
unfolding file_at contains
first_match new size taken [] = none
first_match new size taken (ap ∷ aps) =
    let rest = first_match new size taken aps in
    if contains ap taken || not ((file_at new ap).size == size) then rest else some ap

abbrev pub matched : Index → Bytes → Option Bytes → Matches → Matches
matched new dp none ms = ms
matched new dp (some ap) ms = record {
  matched_added = ap ∷ ms.matched_added;
  matched_deleted = dp ∷ ms.matched_deleted;
  changes =
      ms.changes ++ record { kind = renamed; path = ap; old_path = dp; file = file_at new ap } ∷ [];
}

-- One round of the outer loop, at a deleted path.
unfoldable pub match_one : Index → Index → Dict Hash (List Bytes) → Bytes → Matches → Matches
unfolding first_match
match_one old new m dp ms =
    if (file_at old dp).size == 0
    then ms
    else matched new dp
        (first_match new (file_at old dp).size ms.matched_added
          (or_empty (lookup (file_at old dp).hash m)))
        ms

unfoldable pub match_all : Index → Index → Dict Hash (List Bytes) → List Bytes → Matches → Matches
unfolding match_one
match_all old new m [] ms = ms
match_all old new m (dp ∷ dps) ms = match_all old new m dps (match_one old new m dp ms)

-- The loops over the paths that no rename took.
unfoldable pub unmatched : ChangeKind → Index → List Bytes → List Bytes → List Change
unfolding contains
unmatched kind idx taken [] = []
unmatched kind idx taken (p ∷ ps) =
    let rest = unmatched kind idx taken ps in
    if contains p taken
    then rest
    else record { kind = kind; path = p; old_path = []; file = file_at idx p } ∷ rest

-- The order of the final `sort.Slice`.
abbrev pub change_lt : Change → Change → Bool
change_lt a b =
    if not (a.path == b.path)
    then bytes_lt a.path b.path
    else ltb (kind_value a.kind) (kind_value b.kind)

-- The lists that `Diff` works with.
abbrev pub added_paths : Index → Index → List Bytes
added_paths old new = sort bytes_lt (paths_not_in old new)

abbrev pub deleted_paths : Index → Index → List Bytes
deleted_paths old new = sort bytes_lt (paths_not_in new old)

abbrev pub matches : Index → Index → Matches
matches old new =
    match_all old new (by_hash new (added_paths old new) []) (deleted_paths old new)
      (record { matched_added = []; matched_deleted = []; changes = modifications old new })

unfoldable pub unsorted_diff : Index → Index → List Change
unfolding match_all by_hash paths_not_in modifications unmatched
unsorted_diff old new =
    (matches old new).changes
    ++ (unmatched added new (matches old new).matched_added (added_paths old new)
        ++ unmatched deleted old (matches old new).matched_deleted (deleted_paths old new))

unfoldable pub diff : Index → Index → List Change
unfolding unsorted_diff
diff old new = sort change_lt (unsorted_diff old new)
