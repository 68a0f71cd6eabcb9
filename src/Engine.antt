-- ===== src/Engine.antt =====
-- engine/internal/syncengine/syncengine.go: scanning, pulling and recording a folder.
pub mod Conflicts
pub mod Records
pub mod Confinement
use syncy.Base.{
  ℕ, zero, Bytes, Bool, true, false, not, List, [], ◌∷◌, ◌++◌, ◌==◌, ◌&&◌, ◌||◌, nat_eq, list_eq,
  Option, none, some, if◌then◌else◌, Result, ok, err, str,
}
use syncy.Base.Dict.{Dict, insert}
use syncy.Chunker.{Chunker, ConfigError, default_config, new}
use syncy.Core.{DeviceId, Folder}
use syncy.Fs.{Fs}
use syncy.Hashing.{Hash}
use syncy.Metadata.{Database, Store, StoreError}
use syncy.Metadata.Folders.{get_folder}
use syncy.Metadata.Synced.{SyncedTable, BaselineError, get_synced_baseline, set_synced_baseline}
use syncy.Scanner.{
  FileInfo, Index, Node, Nodes, regular, special, directory, end, entry, ScanError, scan,
  child_path,
}
use syncy.Session.{Stats, SessionError}
use syncy.Session.Serving
use syncy.Session.Transfer.{Env, Peer, Faults, Archiver, Outcome, pull}
use syncy.Versioning.{VersionStore, Version, Disk, has_prefix, has_suffix, versions}
use syncy.Versioning.Owned.{archiver}

abbrev pub versions_dir : Bytes
versions_dir = str ".syncy-versions"

abbrev pub max_versions : ℕ
max_versions = 10

-- `filepath.Join(folder.Path, versionsDir)`, not cleaned: whatever uses it joins it and cleans.
abbrev pub versions_path : Bytes → Bytes
versions_path [] = versions_dir
versions_path (c ∷ dir) = (c ∷ dir) ++ (b'/' ∷ versions_dir)

abbrev pub version_store : Bytes → VersionStore
version_store dir = record { dir = versions_path dir; keep = max_versions }

-- The paths that `scan` leaves out.
unfoldable pub skipped : Bytes → Bool → Bool
unfolding has_prefix has_suffix
skipped rel is_dir =
    (rel == versions_dir)
    || has_prefix rel (versions_dir ++ b'/' ∷ [])
    || has_suffix rel (str ".syncy-tmp")

unfoldable pub index_hashes : Index → Dict Bytes Hash
index_hashes [] = []
index_hashes ((path, fi) ∷ files) = insert path fi.hash (index_hashes files)

-- What the engine finds around it: SHA-256, the device's id and the time in names, a connection,
-- what the operating system answers, and what stands at a path of the file system.
pub record Site : Type 0 where
  pub of_bytes : Bytes → Hash
  pub local_id : DeviceId
  pub stamp : Bytes
  pub peer : Peer
  pub faults : Faults
  pub disk : Disk
  pub walk : Fs → Bytes → Option Node

abbrev pub nothing_done : Stats
nothing_done = record { files_updated = 0; blocks_fetched = 0; blocks_reused = 0; conflicts = 0 }

pub data EngineError : Type 0 where
  chunking : ConfigError → EngineError
  scanning : ScanError → EngineError
  storing : StoreError → EngineError
  baseline : BaselineError → EngineError
  session : SessionError → EngineError

module _ (db : Database) (tbl : SyncedTable) where
  pub record World : Type 0 where
    pub store : Store db
    pub synced : tbl.State
    pub fs : Fs

module _ (site : Site) where
  abbrev pub scanned : Result ScanError Index → Result EngineError Index
  scanned (ok idx) = ok idx
  scanned (err e) = err (scanning e)

  abbrev pub scan_by : Result ConfigError Chunker → Option Node → Result EngineError Index
  scan_by (err e) root = err (chunking e)
  scan_by (ok ch) root = scanned (scan site.of_bytes ch skipped root)

  -- `Engine.scan`
  unfoldable pub scan_folder : Fs → Bytes → Result EngineError Index
  unfolding skipped
  scan_folder fs dir = scan_by (new default_config) (site.walk fs dir)

  abbrev pub add_snapshot :
      Folder → Result EngineError Index → Dict Bytes Serving.Folder → Dict Bytes Serving.Folder
  add_snapshot f (err e) out = out
  add_snapshot f (ok idx) out = insert f.id (record { id = f.id; dir = f.path; index = idx }) out

  -- The loop of `FolderSnapshot` over what `ListFolders` returns.
  unfoldable pub folder_snapshot :
      Fs → List Folder → Dict Bytes Serving.Folder → Dict Bytes Serving.Folder
  unfolding scan_folder
  folder_snapshot fs [] out = out
  folder_snapshot fs (f ∷ fds) out =
      folder_snapshot fs fds (add_snapshot f (scan_folder fs f.path) out)

  abbrev pub versions_of :
      Fs → Bytes → Result StoreError Folder → Result EngineError (Option (List Version))
  versions_of fs rel (err e) = err (storing e)
  versions_of fs rel (ok folder) = ok (versions site.disk (version_store folder.path) rel fs)

  -- `FolderVersions`, from what `GetFolder` returns.
  unfoldable pub folder_versions :
      Fs → Bytes → Result StoreError Folder → Result EngineError (Option (List Version))
  folder_versions fs rel folder = versions_of fs rel folder

  -- The pull of `PullFolder`, with its options.
  abbrev pub pull_env : Folder → Dict Bytes Hash → Env
  pull_env folder base = record {
    of_bytes = site.of_bytes;
    peer = site.peer;
    faults = site.faults;
    folder_id = folder.id;
    dest_dir = folder.path;
    versions = some (archiver site.disk (version_store folder.path));
    baseline = some base;
    local_id = site.local_id;
    stamp = site.stamp;
  }

  module _ (db : Database) (tbl : SyncedTable) where
    abbrev pub PullResult : Type 0
    PullResult = Result EngineError (Unit {0}) × Stats × World db tbl

    abbrev pub recorded :
        Stats → World db tbl → Result BaselineError (Unit {0}) × tbl.State → PullResult
    recorded stats w (err e, synced) = (err (baseline e), stats, record w { synced = synced })
    recorded stats w (ok _, synced) = (ok tt, stats, record w { synced = synced })

    abbrev pub rescanned : Bytes → Stats → World db tbl → Result EngineError Index → PullResult
    rescanned folder_id stats w (err e) = (err e, stats, w)
    rescanned folder_id stats w (ok idx) =
        recorded stats w (set_synced_baseline tbl folder_id (index_hashes idx) w.synced)

    abbrev pub pulled : Folder → Bytes → World db tbl → Outcome → PullResult
    pulled folder folder_id w (err e, fs, stats) = (err (session e), stats, record w { fs = fs })
    pulled folder folder_id w (ok _, fs, stats) =
        rescanned folder_id stats (record w { fs = fs }) (scan_folder fs folder.path)

    abbrev pub pull_known :
        Folder
        → Bytes
        → World db tbl
        → Result EngineError Index
        → Result BaselineError (Dict Bytes Hash)
        → PullResult
    pull_known folder folder_id w (err e) base = (err e, nothing_done, w)
    pull_known folder folder_id w (ok idx) (err e) = (err (baseline e), nothing_done, w)
    pull_known folder folder_id w (ok idx) (ok base) =
        pulled folder folder_id w (pull (pull_env folder base) idx w.fs)

    abbrev pub pull_found : Bytes → World db tbl → Result StoreError Folder → PullResult
    pull_found folder_id w (err e) = (err (storing e), nothing_done, w)
    pull_found folder_id w (ok folder) =
        pull_known folder folder_id w (scan_folder w.fs folder.path)
          (get_synced_baseline tbl folder_id w.synced)

    -- `PullFolder`
    unfoldable pub pull_folder : Bytes → World db tbl → PullResult
    unfolding scan_folder index_hashes
    pull_folder folder_id w = pull_found folder_id w (get_folder db folder_id w.store).0
