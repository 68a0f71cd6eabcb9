-- ===== src/Session/Pulling.antt =====
-- `pullFile` of session.go as a whole: fetching, resolving the destination, writing, installing.
use syncy.Base.{Bytes, Result, ok, err, ◌≡◌, refl}
use syncy.Base.Dict.{Dict}
use syncy.Fs.{Fs}
use syncy.Fsafe.{FilePath, join}
use syncy.Hashing.{Hash}
use syncy.Session.{FileMeta, Stats, SessionError, BlockIndex}
use syncy.Session.Transfer.{Env, pull_fetched, pull_file, needed, fetch}
use syncy.Session.Install.{IsLawful, Unowned, IsPulled, tmp_of, pull_to-IsPulled}

module _ (env : Env) (law : IsLawful env.versions) where
  pull_fetched-IsPulled :
      (m : BlockIndex) (rf : FileMeta) (target : Bytes)
      (fetched : Result SessionError (Dict Hash Bytes)) (dest : FilePath) (fs : Fs) (stats : Stats)
      → Unowned env.versions (tmp_of dest)
      → Unowned env.versions dest
      → IsPulled env rf
          (tmp_of dest)
          dest
          fs
          (pull_fetched env m rf target fetched (ok dest) fs stats)
  pull_fetched-IsPulled m rf target (err e) dest fs stats free_tmp free_dest = record {
    success = λ h. cc h;
    failure = λ _ _. refl;
    others = λ q _ _ _. refl;
  }
  pull_fetched-IsPulled m rf target (ok fetched) dest fs stats free_tmp free_dest =
      pull_to-IsPulled env law m fetched rf target dest fs stats free_tmp free_dest

  -- Pulling a file under a name that the folder resolves to a destination, with a version store
  -- that changes only its own files and owns neither the destination nor its temporary file, either
  -- succeeds, and then the destination is the concatenation of blocks each of which has its
  -- announced hash, the whole has the announced file hash, and the temporary file is gone; or fails, and then the destination
  -- holds what it held. Whatever the peer sends and whichever system calls fail, no file changes
  -- but the destination, the temporary file and those of the version store.
  pub pull_file-IsPulled :
      (m : BlockIndex) (rf : FileMeta) (target : Bytes) (dest : FilePath) (fs : Fs) (stats : Stats)
      → join env.dest_dir target ≡ ok dest
      → Unowned env.versions (tmp_of dest)
      → Unowned env.versions dest
      → IsPulled env rf (tmp_of dest) dest fs (pull_file env m rf target fs stats)
  unfolding pull_file
  pull_file-IsPulled m rf target dest fs stats joined free_tmp free_dest =
      rw (pull_file, joined)
        (pull_fetched-IsPulled m rf target (fetch env rf.path (needed env m rf.blocks)) dest fs
          stats free_tmp free_dest)
