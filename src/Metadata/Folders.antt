-- ===== src/Metadata/Folders.antt =====
-- engine/internal/metadata/folders.go
use syncy.Base.{
  Bytes, not, ◌==◌, nat_eq, list_eq, [], if◌then◌else◌, Option, none, some, Result, ok, err,
}
use syncy.Core.{Folder, send_receive, valid_direction}
use syncy.Metadata.{
  Database, FolderRow, StoreError, M, not_found, database, empty_id, empty_path, invalid_direction,
  bool_to_int, nonzero, unix_or_zero, time_from_unix, require_affected,
}

-- The direction that `PutFolder` stores: an empty one stands for send and receive.
unfoldable pub default_direction : Folder → Folder
default_direction f = if f.direction == [] then record f { direction = send_receive } else f

unfoldable pub folder_row : Folder → FolderRow
unfolding bool_to_int unix_or_zero
folder_row f = record {
  label = f.label;
  path = f.path;
  direction = f.direction;
  paused = bool_to_int f.paused;
  added_at = unix_or_zero f.added_at;
}

abbrev pub update_folder : FolderRow → FolderRow → FolderRow
update_folder excluded old = record excluded { added_at = old.added_at }

-- `scanFolder`
unfoldable pub scan_folder : Bytes → FolderRow → Folder
unfolding time_from_unix
scan_folder id row = record {
  id = id;
  label = row.label;
  path = row.path;
  direction = row.direction;
  paused = nonzero row.paused;
  added_at = time_from_unix row.added_at;
}

module _ (db : Database) where
  abbrev pub inserted : Option db.folders.State → M db (Unit {0})
  inserted none s = (err database, s)
  inserted (some t) s = (ok tt, record s { folders = t })

  unfoldable pub insert_folder : Folder → M db (Unit {0})
  insert_folder f s =
      inserted (db.folders.upsert s.folders f.id (folder_row f) (update_folder (folder_row f))) s

  unfoldable pub put_folder : Folder → M db (Unit {0})
  unfolding default_direction insert_folder
  put_folder f s =
      if f.id == []
      then (err empty_id, s)
      else if f.path == []
      then (err empty_path, s)
      else if not (valid_direction (default_direction f).direction)
      then (err invalid_direction, s)
      else insert_folder (default_direction f) s

  abbrev pub found_folder : Bytes → Option (Option FolderRow) → Result StoreError Folder
  found_folder id none = err database
  found_folder id (some none) = err not_found
  found_folder id (some (some row)) = ok (scan_folder id row)

  unfoldable pub get_folder : Bytes → M db Folder
  get_folder id s = (found_folder id (db.folders.select s.folders id), s)

  unfoldable pub remove_folder : Bytes → M db (Unit {0})
  unfolding require_affected
  remove_folder id s = elim (db.folders.delete s.folders id) [
    | none ↦ (err database, s)
    | some (t, n) ↦ (require_affected n, record s { folders = t })
  ]
