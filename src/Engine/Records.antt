-- ===== src/Engine/Records.antt =====
-- engine/internal/syncengine/syncengine.go: what `PullFolder` records.
use syncy.Base.{
  Bytes, false, [], ◌∷◌, ◌==◌, nat_eq, list_eq, ◌≡◌, refl, ap, ◌∙◌, inl, inr, Result, ok, err,
  Bool-cases,
}
use syncy.Base.Dict.{Dict, lookup, NodupKeys, insert-NodupKeys, lookup-insert}
use syncy.Core.{Folder}
use syncy.Fs.{Fs}
use syncy.Hashing.{Hash}
use syncy.Metadata.{Database, StoreError}
use syncy.Metadata.Folders.{get_folder}
use syncy.Metadata.Synced.{
  SyncedTable, BaselineError, get_synced_baseline, set_synced_baseline, Outcome,
}
use syncy.Metadata.Synced.Rounds.{Writes, hex_of, set_synced_baseline-Writes}
use syncy.Scanner.{Index}
use syncy.Scanner.Apply.{hash_at}
use syncy.Session.{Stats}
use syncy.Session.Transfer
use syncy.Engine.{
  Site, World, EngineError, index_hashes, scan_folder, pull_env, PullResult, recorded, rescanned,
  pulled, pull_known, pull_found, pull_folder,
}

lookup-index_hashes : (p : Bytes) (idx : Index) → lookup p (index_hashes idx) ≡ hash_at p idx
unfolding index_hashes lookup hash_at
lookup-index_hashes p [] = refl
lookup-index_hashes p ((k, fi) ∷ idx) =
    lookup-insert p k fi.hash (index_hashes idx) ∙ elim (Bool-cases (p == k)) [
      | inl same ↦ rw same refl
      | inr other ↦ rw other (lookup-index_hashes p idx)
    ]

index_hashes-NodupKeys : (idx : Index) → NodupKeys (index_hashes idx)
unfolding index_hashes
index_hashes-NodupKeys [] = tt
index_hashes-NodupKeys ((k, fi) ∷ idx) =
    insert-NodupKeys k fi.hash (index_hashes idx) (index_hashes-NodupKeys idx)

module _ (site : Site) (db : Database) (tbl : SyncedTable) where
  -- What a call leaves in the table of baselines: on success the folder's rows are the hashes of a
  -- scan of the files that the call left; on an error the table is as it was.
  abbrev pub Records : Bytes → World db tbl → PullResult site db tbl → Type 0
  Records id w (err e, stats, w') = w'.synced ≡ w.synced
  Records id w (ok _, stats, w') =
      (folder : Folder) × (idx : Index) × ((get_folder db id w.store).0 ≡ ok folder)
      × (scan_folder site w'.fs folder.path ≡ ok idx)
      × ((p : Bytes) → tbl.rows w'.synced id p ≡ hex_of (hash_at p idx))
      × ((g p : Bytes) → (g == id) ≡ false → tbl.rows w'.synced g p ≡ tbl.rows w.synced g p)

  module _ (id : Bytes) (w : World db tbl) (folder : Folder)
      (known : (get_folder db id w.store).0 ≡ ok folder) where
    recorded-Records :
        (stats : Stats) (fs : Fs) (idx : Index) (out : Outcome tbl)
        → scan_folder site fs folder.path ≡ ok idx
        → Writes tbl id (index_hashes idx) w.synced out
        → Records id w (recorded site db tbl stats (record w { fs = fs }) out)
    recorded-Records stats fs idx (err e, synced) seen same = same
    recorded-Records stats fs idx (ok _, synced) seen (here, there) =
        (folder, idx, known, seen, (λ p. here p ∙ ap hex_of (lookup-index_hashes p idx)), there)

    rescanned-Records :
        (stats : Stats) (fs : Fs) (r : Result EngineError Index)
        → scan_folder site fs folder.path ≡ r
        → Records id w (rescanned site db tbl id stats (record w { fs = fs }) r)
    rescanned-Records stats fs (err e) seen = refl
    rescanned-Records stats fs (ok idx) seen =
        recorded-Records stats fs idx (set_synced_baseline tbl id (index_hashes idx) w.synced) seen
          (set_synced_baseline-Writes tbl id (index_hashes idx) w.synced
            (index_hashes-NodupKeys idx))

    pulled-Records : (out : Transfer.Outcome) → Records id w (pulled site db tbl folder id w out)
    pulled-Records (err e, fs, stats) = refl
    pulled-Records (ok _, fs, stats) =
        rescanned-Records stats fs (scan_folder site fs folder.path) refl

    pull_known-Records :
        (scan : Result EngineError Index) (base : Result BaselineError (Dict Bytes Hash))
        → Records id w (pull_known site db tbl folder id w scan base)
    pull_known-Records (err e) base = refl
    pull_known-Records (ok idx) (err e) = refl
    pull_known-Records (ok idx) (ok base) =
        pulled-Records (Transfer.pull (pull_env site folder base) idx w.fs)

  pull_found-Records :
      (id : Bytes) (w : World db tbl) (r : Result StoreError Folder)
      → (get_folder db id w.store).0 ≡ r
      → Records id w (pull_found site db tbl id w r)
  pull_found-Records id w (err e) known = refl
  pull_found-Records id w (ok folder) known =
      pull_known-Records id w folder known (scan_folder site w.fs folder.path)
        (get_synced_baseline tbl id w.synced)

  -- A round of `PullFolder` that succeeds records, as the folder's baseline, exactly the paths and
  -- hashes of a scan of the files that it leaves, and no other folder's rows change. A round that
  -- fails, at whatever point, leaves every baseline as it was.
  pub pull_folder-Records :
      (id : Bytes) (w : World db tbl) → Records id w (pull_folder site db tbl id w)
  unfolding pull_folder
  pull_folder-Records id w = pull_found-Records id w (get_folder db id w.store).0 refl
