-- ===== src/Engine/Confinement.antt =====
-- engine/internal/syncengine/syncengine.go: the files that `PullFolder` can reach.
use syncy.Base.{
  Bytes, false, [], ◌∷◌, ◌==◌, nat_eq, list_eq, ◌≡◌, ◌≢◌, refl, ap, ◌∙◌, Result, ok, err,
  ℕ_discrete,
}
use syncy.Base.Dict.{Dict}
use syncy.Core.{Folder}
use syncy.Fs.{Fs, file, path_eq}
use syncy.Fsafe.{FilePath, clean, clean_onto, elements, keep}
use syncy.Fsafe.Below.{below_dir, below_dir_nested}
use syncy.Hashing.{Hash}
use syncy.Metadata.{Database}
use syncy.Metadata.Folders.{get_folder}
use syncy.Metadata.Synced.{SyncedTable, BaselineError, get_synced_baseline, set_synced_baseline}
use syncy.Scanner.{Index}
use syncy.Session.{Stats}
use syncy.Session.Install.{tmp_of}
use syncy.Session.Confined.{pull-Kept}
use syncy.Session.Transfer
use syncy.Versioning.Owned.{archiver-IsLawful}
use syncy.Engine.{
  Site, World, index_hashes, EngineError, scan_folder, pull_env, PullResult, recorded, rescanned,
  pulled, pull_known, pull_found, pull_folder, versions_dir, versions_path, version_store,
}

versions_path-nonempty : (dir : Bytes) → versions_path dir ≢ []
versions_path-nonempty [] = λ e. cc e
versions_path-nonempty (c ∷ dir) = λ e. cc e

-- The version store lies in its folder.
outside-versions :
    (dir : Bytes) (q : FilePath)
    → dir ≢ []
    → below_dir dir q ≡ false
    → below_dir (versions_path dir) q ≡ false
unfolding clean_onto elements keep list_eq ℕ_discrete
outside-versions [] q ne out = absurd (ne refl)
outside-versions (c ∷ dir) q ne out = below_dir_nested c dir versions_dir q (λ e. cc e) refl out

module _ (site : Site) (db : Database) (tbl : SyncedTable) (id : Bytes) (w : World db tbl)
    (q : FilePath) where
  abbrev Keeps : PullResult site db tbl → Type 0
  Keeps out = file out.2.fs q ≡ file w.fs q

  recorded-fs :
      (stats : Stats) (fs : Fs) (out : Result BaselineError (Unit {0}) × tbl.State)
      → (recorded site db tbl stats (record w { fs = fs }) out).2.fs ≡ fs
  recorded-fs stats fs (err e, synced) = refl
  recorded-fs stats fs (ok _, synced) = refl

  rescanned-fs :
      (stats : Stats) (fs : Fs) (r : Result EngineError Index)
      → (rescanned site db tbl id stats (record w { fs = fs }) r).2.fs ≡ fs
  rescanned-fs stats fs (err e) = refl
  rescanned-fs stats fs (ok idx) =
      recorded-fs stats fs (set_synced_baseline tbl id (index_hashes idx) w.synced)

  pulled-fs :
      (folder : Folder) (out : Transfer.Outcome) → (pulled site db tbl folder id w out).2.fs ≡ out.1
  pulled-fs folder (err e, fs, stats) = refl
  pulled-fs folder (ok _, fs, stats) = rescanned-fs stats fs (scan_folder site fs folder.path)

  module _ (folder : Folder) (nonempty : folder.path ≢ [])
      (outside : below_dir folder.path q ≡ false)
      (other : (q == tmp_of (clean folder.path)) ≡ false) where
    pull_known-Keeps :
        (scan : Result EngineError Index) (base : Result BaselineError (Dict Bytes Hash))
        → Keeps (pull_known site db tbl folder id w scan base)
    pull_known-Keeps (err e) base = refl
    pull_known-Keeps (ok idx) (err e) = refl
    pull_known-Keeps (ok idx) (ok base) =
        ap (λ fs. file fs q) (pulled-fs folder (Transfer.pull (pull_env site folder base) idx w.fs))
        ∙ pull-Kept (pull_env site folder base)
            (archiver-IsLawful site.disk (version_store folder.path)
              (versions_path-nonempty folder.path))
            nonempty q (outside-versions folder.path q nonempty outside) outside other idx w.fs

    -- Whatever the peer sends, whichever calls fail and whatever is conflicting or archived on the
    -- way, `PullFolder` changes no file outside the folder it pulls but one: the folder's own path
    -- with the suffix of a temporary file. The folder's path is not empty.
    -- The store has the folder under the id that is pulled.
    pub pull_folder-Keeps :
        (get_folder db id w.store).0 ≡ ok folder
        → file (pull_folder site db tbl id w).2.fs q ≡ file w.fs q
    unfolding pull_folder
    pull_folder-Keeps known =
        ap (λ r. file (pull_found site db tbl id w r).2.fs q) known
        ∙ pull_known-Keeps (scan_folder site w.fs folder.path) (get_synced_baseline tbl id w.synced)
