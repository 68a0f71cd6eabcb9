-- ===== src/Session/Confined.antt =====
-- engine/internal/session/session.go: the files that `Pull` can reach.
use mathlib.Core.List.{append-nil}
use syncy.Base.{
  ◌+◌, Bytes, Bool, true, false, not, List, [], ◌∷◌, ◌++◌, ◌==◌, nat_eq, list_eq, Option, none,
  some, ◌≡◌, ◌≢◌, ◌⊎◌, inl, inr, refl, ap, ◌∙◌, Result, ok, err, eq_refl, if_elim, if◌then◌else◌,
}
use syncy.Base.Dict.{Dict}
use syncy.Fs.{Fs, file, set_file, remove_file, path_eq, add_suffix, suffixed}
use syncy.Fs.Laws.{file-set_file, file-remove_file}
use syncy.Fsafe.{FilePath, PathError, unsafe_path, join, clean, is_abs}
use syncy.Fsafe.Below.{below_dir, below_dir-shape, below_dir_apart}
use syncy.Fsafe.Containment.{join-below}
use syncy.Hashing.{Hash}
use syncy.Scanner.{Index}
use syncy.Session.{
  FileMeta, Stats, SessionError, BlockIndex, tmp_suffix, filesystem, archiving, file_mismatch,
  build_block_index,
}
use syncy.Session.Transfer.{
  Env, Outcome, Decision, skip, pull_as, write_blocks, install, finish, finish_written, archived,
  pull_to, pull_fetched, pull_file, pull_files, then_next, pull_decided, pull_remote, decide,
  counted, fetch, needed, pull, index_from, no_stats,
}
use syncy.Session.Files.{Writes, write_blocks-Writes}
use syncy.Session.Install.{IsLawful, Unowned, archived-file, tmp_of}

module _ (env : Env) (law : IsLawful env.versions) (q : FilePath)
    (free : Unowned env.versions q) where
  -- The outcome has left the file as it was.
  abbrev pub Kept : Fs → Outcome → Type 0
  Kept fs out = file out.1 q ≡ file fs q

  removed-Kept :
      (tmp : FilePath) (fs : Fs) → (q == tmp) ≡ false → file (remove_file fs tmp) q ≡ file fs q
  removed-Kept tmp fs nt = rw (file-remove_file fs tmp q, nt) refl

  install-Kept :
      (tmp dest : FilePath) (fs : Fs) (stats : Stats)
      → (q == tmp) ≡ false
      → (q == dest) ≡ false
      → Kept fs (install env tmp dest fs stats)
  unfolding install
  install-Kept tmp dest fs stats nt nd =
      if_elim (Kept fs) (not (env.faults.rename dest)) (err filesystem, fs, stats)
        (elim (file fs tmp) [
          | none ↦ (err filesystem, fs, stats)
          | some body ↦ (ok tt, set_file (remove_file fs tmp) dest body, stats)
        ])
        (λ bad. refl) (λ fine. moved (file fs tmp))
    where
      moved :
          (o : Option Bytes)
          → Kept fs (elim o [
            | none ↦ (err filesystem, fs, stats)
            | some body ↦ (ok tt, set_file (remove_file fs tmp) dest body, stats)
          ])
      moved none = refl
      moved (some body) =
          rw (file-set_file (remove_file fs tmp) dest q body, nd) (removed-Kept tmp fs nt)

  finish-Kept :
      (rf : FileMeta) (target : Bytes) (tmp dest : FilePath) (t : Bytes) (fs : Fs) (stats : Stats)
      → (q == tmp) ≡ false
      → (q == dest) ≡ false
      → Kept fs (finish env rf target tmp dest t fs stats)
  unfolding finish
  finish-Kept rf target tmp dest t fs stats nt nd =
      let a = archived env env.versions target dest fs in
      let kept : file a.1 q ≡ file fs q =
        archived-file env env.versions target dest fs q law free in
      if_elim (Kept fs) (not (env.faults.close tmp)) (err filesystem, remove_file fs tmp, stats)
        (if not (env.of_bytes t == rf.hash)
          then (err file_mismatch, remove_file fs tmp, stats)
          else if a.0
          then install env tmp dest a.1 stats
          else (err archiving, remove_file a.1 tmp, stats))
        (λ bad. removed-Kept tmp fs nt)
        (λ closed.
          if_elim (Kept fs) (not (env.of_bytes t == rf.hash))
            (err file_mismatch, remove_file fs tmp, stats)
            (if a.0
              then install env tmp dest a.1 stats
              else (err archiving, remove_file a.1 tmp, stats))
            (λ differs. removed-Kept tmp fs nt)
            (λ whole.
              if_elim (Kept fs) a.0 (install env tmp dest a.1 stats)
                (err archiving, remove_file a.1 tmp, stats)
                (λ saved. install-Kept tmp dest a.1 stats nt nd ∙ kept)
                (λ unsaved. removed-Kept tmp a.1 nt ∙ kept)))

  finish_written-Kept :
      (m : BlockIndex) (fetched : Dict Hash Bytes) (rf : FileMeta) (target : Bytes)
      (tmp dest : FilePath) (fs : Fs) (w : Result SessionError Bytes × Fs × Stats)
      → (q == tmp) ≡ false
      → (q == dest) ≡ false
      → Writes env m fetched tmp rf.blocks [] fs w
      → Kept fs (finish_written env rf target tmp dest w)
  finish_written-Kept m fetched rf target tmp dest fs (err e, fs', stats) nt nd cleared =
      cleared q ∙ rw nt refl
  finish_written-Kept m fetched rf target tmp dest fs (ok t, fs', stats) nt nd
        (here, shape, others) =
      finish-Kept rf target tmp dest t fs' stats nt nd ∙ others q nt

  pull_to-Kept :
      (m : BlockIndex) (fetched : Dict Hash Bytes) (rf : FileMeta) (target : Bytes)
      (dest : FilePath) (fs : Fs) (stats : Stats)
      → (q == tmp_of dest) ≡ false
      → (q == dest) ≡ false
      → Kept fs (pull_to env m fetched rf target dest fs stats)
  unfolding pull_to
  pull_to-Kept m fetched rf target dest fs stats nt nd =
      let tmp = tmp_of dest in
      let fs₁ = set_file fs tmp [] in
      let w = write_blocks env m fetched tmp rf.blocks [] fs₁ stats in
      if_elim (Kept fs) (not (env.faults.mkdir dest)) (err filesystem, fs, stats)
        (if not (env.faults.create tmp)
          then (err filesystem, fs, stats)
          else finish_written env rf target tmp dest w)
        (λ bad. refl)
        (λ made.
          if_elim (Kept fs) (not (env.faults.create tmp)) (err filesystem, fs, stats)
            (finish_written env rf target tmp dest w) (λ bad. refl)
            (λ created.
              finish_written-Kept m fetched rf target tmp dest fs₁ w nt nd (
                write_blocks-Writes env m fetched tmp rf.blocks [] fs₁ stats
                  (file-set_file fs tmp tmp [] ∙ rw (eq_refl tmp)))
              ∙ file-set_file fs tmp q []
              ∙ rw nt refl))

suffixed-append :
    (rooted : Bool) (ds : List Bytes) (b : Bytes) (bs : List Bytes) (suffix : Bytes)
    → suffixed rooted (ds ++ b ∷ bs) suffix ≡ ds ++ suffixed rooted (b ∷ bs) suffix
suffixed-append rooted [] b bs suffix = refl
suffixed-append rooted (d ∷ []) b bs suffix = refl
suffixed-append rooted (d ∷ e ∷ ds) b bs suffix =
    ap (λ es. d ∷ es) (suffixed-append rooted (e ∷ ds) b bs suffix)

-- The temporary file of a destination lies below the folder, unless the destination is the folder.
tmp_of-below :
    (dir : Bytes) (below : List Bytes)
    → let dest : FilePath = record { rooted = is_abs dir; elems = (clean dir).elems ++ below } in
      (below_dir dir (tmp_of dest) ≡ true) ⊎ (tmp_of dest ≡ tmp_of (clean dir))
unfolding add_suffix
tmp_of-below dir [] = inr (
    unfold clean in
    ap (λ es. add_suffix (record { rooted = is_abs dir; elems = es }) tmp_suffix)
      (append-nil (clean dir).elems))
tmp_of-below dir (b ∷ bs) = inl (
    below_dir-shape dir
      (tmp_of (record { rooted = is_abs dir; elems = (clean dir).elems ++ b ∷ bs }))
      (suffixed (is_abs dir) (b ∷ bs) tmp_suffix)
      (ap (λ es. record { rooted = is_abs dir; elems = es })
        (suffixed-append (is_abs dir) (clean dir).elems b bs tmp_suffix)))

module _ (env : Env) (law : IsLawful env.versions) (nonempty : env.dest_dir ≢ []) (q : FilePath)
    (free : Unowned env.versions q) (outside : below_dir env.dest_dir q ≡ false)
    (other : (q == tmp_of (clean env.dest_dir)) ≡ false) where
  joined-Kept :
      (m : BlockIndex) (rf : FileMeta) (target : Bytes)
      (fetched : Result SessionError (Dict Hash Bytes)) (dest : Result PathError FilePath) (fs : Fs)
      (stats : Stats)
      → join env.dest_dir target ≡ dest
      → file (pull_fetched env m rf target fetched dest fs stats).1 q ≡ file fs q
  joined-Kept m rf target (err e) dest fs stats j = refl
  joined-Kept m rf target (ok fetched) (err unsafe_path) fs stats j = refl
  joined-Kept m rf target (ok fetched) (ok dest) fs stats j =
      let (below, climbing, same, shape) = join-below env.dest_dir target dest nonempty j in
      pull_to-Kept env law q free m fetched rf target dest fs stats
        (elim (tmp_of-below env.dest_dir below) [
          | inl inside ↦
              below_dir_apart env.dest_dir (tmp_of dest) q
                (ap (λ p. below_dir env.dest_dir (tmp_of p)) shape ∙ inside) outside
          | inr folder ↦ ap (λ p. q == p) (ap tmp_of shape ∙ folder) ∙ other
        ])
        (below_dir_apart env.dest_dir dest q (below_dir-shape env.dest_dir dest below shape)
          outside)

  pull_file-Kept :
      (m : BlockIndex) (rf : FileMeta) (target : Bytes) (fs : Fs) (stats : Stats)
      → file (pull_file env m rf target fs stats).1 q ≡ file fs q
  unfolding pull_file
  pull_file-Kept m rf target fs stats =
      joined-Kept m rf target (fetch env rf.path (needed env m rf.blocks))
        (join env.dest_dir target) fs stats refl

  then_next-Kept :
      (out : Outcome) (next : Fs → Stats → Outcome) (fs : Fs)
      → file out.1 q ≡ file fs q
      → ((gs : Fs) (st : Stats) → file (next gs st).1 q ≡ file gs q)
      → file (then_next env out next).1 q ≡ file fs q
  then_next-Kept (err e, fs', stats) next fs same later = same
  then_next-Kept (ok _, fs', stats) next fs same later =
      later fs' (record stats { files_updated = stats.files_updated + 1 }) ∙ same

  pull_decided-Kept :
      (m : BlockIndex) (rf : FileMeta) (d : Decision) (next : Fs → Stats → Outcome) (fs : Fs)
      (stats : Stats)
      → ((gs : Fs) (st : Stats) → file (next gs st).1 q ≡ file gs q)
      → file (pull_decided env m rf d next fs stats).1 q ≡ file fs q
  pull_decided-Kept m rf skip next fs stats later = later fs stats
  pull_decided-Kept m rf (pull_as target conflict) next fs stats later =
      then_next-Kept (pull_file env m rf target fs (counted env conflict stats)) next fs
        (pull_file-Kept m rf target fs (counted env conflict stats)) later

  pull_files-Kept :
      (idx : Index) (m : BlockIndex) (rfs : List FileMeta) (fs : Fs) (stats : Stats)
      → file (pull_files env idx m rfs fs stats).1 q ≡ file fs q
  unfolding pull_files
  pull_files-Kept idx m [] fs stats = refl
  pull_files-Kept idx m (rf ∷ rfs) fs stats =
      pull_decided-Kept m rf (decide env idx rf) (pull_files env idx m rfs) fs stats
        (pull_files-Kept idx m rfs)

  pull_remote-Kept :
      (idx : Index) (r : Result SessionError (List FileMeta)) (fs : Fs)
      → file (pull_remote env idx r fs).1 q ≡ file fs q
  pull_remote-Kept idx (err e) fs = refl
  pull_remote-Kept idx (ok remote) fs =
      pull_files-Kept idx (build_block_index idx) remote fs (no_stats env)

  -- Whatever the peer sends and whichever system calls fail, `Pull` changes no file outside the
  -- folder but those of the version store and one: the path of the folder itself with the suffix of
  -- a temporary file.
  pub pull-Kept : (idx : Index) (fs : Fs) → file (pull env idx fs).1 q ≡ file fs q
  unfolding pull
  pull-Kept idx fs = pull_remote-Kept idx (index_from env (env.peer.open_index env.folder_id)) fs
