-- ===== src/Session/Transfer.antt =====
-- `pullFile` and `Pull` of session.go, over a file system whose calls may fail.
use syncy.Base.{
  ℕ, suc, ◌+◌, Bytes, Bool, not, true, false, List, [], ◌∷◌, ◌++◌, ◌||◌, ◌==◌, nat_eq, list_eq,
  Option, none, some, if◌then◌else◌, length, Result, ok, err,
}
use syncy.Base.Dict.{Dict, lookup}
use syncy.Chunker.{Chunk}
use syncy.Conflict.Name.{conflict_name}
use syncy.Core.{DeviceId}
use syncy.Fs.{Fs, file, set_file, remove_file, read_at, add_suffix}
use syncy.Fsafe.{FilePath, local, join, PathError, unsafe_path}
use syncy.Hashing.{Hash, zero_hash}
use syncy.Io.{Reader, content}
use syncy.Session.{
  FileMeta, IndexUpdate, Stats, SessionError, stream, missing_block, block_mismatch, file_mismatch,
  local_read, filesystem, archiving, unsafe, Resolution, classify, take_remote, keep_local,
  conflict_copy, BlockLoc, BlockIndex, build_block_index, read_index, read_blocks, tmp_suffix,
}
use syncy.Scanner.{FileInfo, Index}

-- A version store: whether a file could be archived, and the files behind it. It touches none but
-- its own.
pub record Archiver : Type 0 where
  pub archive : Bytes → Bytes → Fs → Bool × Fs
  pub owns : FilePath → Bool

-- The peer's streams: the answers to an index request and to a block request, if a stream opens.
pub record Peer : Type 0 where
  pub open_index : Bytes → Option Reader
  pub open_blocks : Bytes → Bytes → List Chunk → Option Reader
  pub decode : Bytes → Option IndexUpdate

-- Which calls of the operating system succeed.
pub record Faults : Type 0 where
  pub mkdir : FilePath → Bool
  pub create : FilePath → Bool
  pub write : Bytes → Bool
  pub close : FilePath → Bool
  pub rename : FilePath → Bool

-- What a pull is given: SHA-256, the peer, the folder, and the options of `config`.
pub record Env : Type 0 where
  pub of_bytes : Bytes → Hash
  pub peer : Peer
  pub faults : Faults
  pub folder_id : Bytes
  pub dest_dir : Bytes
  pub versions : Option Archiver
  pub baseline : Option (Dict Bytes Hash)
  pub local_id : DeviceId
  pub stamp : Bytes

abbrev pub Outcome : Type 0
Outcome = Result SessionError (Unit {0}) × Fs × Stats

abbrev pub Data : Type 0
Data = Result SessionError (Bytes × Stats)

-- What to do with a remote file: nothing, or pull it under a name, as a conflict copy or not.
pub data Decision : Type 0 where
  skip : Decision
  pull_as : Bytes → Bool → Decision

module _ (env : Env) where
  open env use {of_bytes, peer, faults, dest_dir}

  -- The blocks to request.
  unfoldable pub needed : BlockIndex → List Chunk → List Chunk
  needed m [] = []
  needed m (b ∷ bs) =
      let rest = needed m bs in elim (lookup b.hash m) [ some loc ↦ rest | none ↦ b ∷ rest ]

  abbrev pub blocks_from : Option Reader → ℕ → Result SessionError (Dict Hash Bytes)
  blocks_from none wanted = err stream
  blocks_from (some r) wanted = read_blocks wanted (suc (length (content r))) [] r

  unfoldable pub fetch : Bytes → List Chunk → Result SessionError (Dict Hash Bytes)
  fetch path [] = ok []
  fetch path (b ∷ bs) = blocks_from (peer.open_blocks env.folder_id path (b ∷ bs)) (length (b ∷ bs))

  abbrev pub bytes_of : Option Bytes → Stats → Data
  bytes_of none stats = err local_read
  bytes_of (some body) stats = ok (body, record stats { blocks_reused = stats.blocks_reused + 1 })

  -- `readLocalBlock`
  unfoldable pub read_local_block : BlockLoc → Fs → Stats → Data
  read_local_block loc fs stats = elim (join dest_dir loc.path) [
    | err e ↦ err unsafe
    | ok p ↦ bytes_of (read_at fs p loc.offset loc.length_of) stats
  ]

  abbrev pub delivered : Option Bytes → Stats → Data
  delivered none stats = err missing_block
  delivered (some body) stats =
      ok (body, record stats { blocks_fetched = stats.blocks_fetched + 1 })

  abbrev pub local_or_fetched : Option BlockLoc → Dict Hash Bytes → Hash → Fs → Stats → Data
  local_or_fetched (some loc) fetched h fs stats = read_local_block loc fs stats
  local_or_fetched none fetched h fs stats = delivered (lookup h fetched) stats

  -- The bytes of a block, from a local file or from the peer.
  unfoldable pub block_data : BlockIndex → Dict Hash Bytes → Hash → Fs → Stats → Data
  block_data m fetched h fs stats = local_or_fetched (lookup h m) fetched h fs stats

  abbrev pub Written : Type 0
  Written = Result SessionError Bytes × Fs × Stats

  -- One round of the loop of `pullFile` that fills the temporary file, from the bytes of the block;
  -- `written` is in the file, and `next` is the following round.
  unfoldable pub write_block :
      FilePath → (Bytes → Fs → Stats → Written) → Chunk → Data → Bytes → Fs → Stats → Written
  write_block tmp next b (err e) written fs stats = (err e, remove_file fs tmp, stats)
  write_block tmp next b (ok (body, stats')) written fs stats =
      let grown = written ++ body in
      if not (of_bytes body == b.hash)
      then (err block_mismatch, remove_file fs tmp, stats')
      else if not (faults.write grown)
      then (err filesystem, remove_file fs tmp, stats')
      else next grown (set_file fs tmp grown) stats'

  unfoldable pub write_blocks :
      BlockIndex → Dict Hash Bytes → FilePath → List Chunk → Bytes → Fs → Stats → Written
  unfolding write_block
  write_blocks m fetched tmp [] written fs stats = (ok written, fs, stats)
  write_blocks m fetched tmp (b ∷ bs) written fs stats =
      write_block tmp (write_blocks m fetched tmp bs) b (block_data m fetched b.hash fs stats)
        written fs stats

  -- The rename at the end.
  unfoldable pub install : FilePath → FilePath → Fs → Stats → Outcome
  install tmp dest fs stats =
      if not (faults.rename dest) then (err filesystem, fs, stats) else elim (file fs tmp) [
        | none ↦ (err filesystem, fs, stats)
        | some body ↦ (ok tt, set_file (remove_file fs tmp) dest body, stats)
      ]

  abbrev pub exists : Option Bytes → Bool
  exists none = false
  exists (some body) = true

  abbrev pub archived : Option Archiver → Bytes → FilePath → Fs → Bool × Fs
  archived none target dest fs = (true, fs)
  archived (some a) target dest fs =
      if exists (file fs dest) then a.archive dest_dir target fs else (true, fs)

  unfoldable pub finish : FileMeta → Bytes → FilePath → FilePath → Bytes → Fs → Stats → Outcome
  unfolding install
  finish rf target tmp dest written fs stats =
      if not (faults.close tmp)
      then (err filesystem, remove_file fs tmp, stats)
      else if not (of_bytes written == rf.hash)
      then (err file_mismatch, remove_file fs tmp, stats)
      else (let (kept, fs') = archived env.versions target dest fs in
          if kept then install tmp dest fs' stats else (err archiving, remove_file fs' tmp, stats))

  abbrev pub finish_written :
      FileMeta → Bytes → FilePath → FilePath → Result SessionError Bytes × Fs × Stats → Outcome
  finish_written rf target tmp dest (err e, fs, stats) = (err e, fs, stats)
  finish_written rf target tmp dest (ok written, fs, stats) =
      finish rf target tmp dest written fs stats

  -- `pullFile` once the destination is known.
  unfoldable pub pull_to :
      BlockIndex → Dict Hash Bytes → FileMeta → Bytes → FilePath → Fs → Stats → Outcome
  pull_to m fetched rf target dest fs stats =
      let tmp = add_suffix dest tmp_suffix in
      if not (faults.mkdir dest)
      then (err filesystem, fs, stats)
      else if not (faults.create tmp)
      then (err filesystem, fs, stats)
      else finish_written rf target tmp dest
          (write_blocks m fetched tmp rf.blocks [] (set_file fs tmp []) stats)

  abbrev pub pull_fetched :
      BlockIndex
      → FileMeta
      → Bytes
      → Result SessionError (Dict Hash Bytes)
      → Result PathError FilePath
      → Fs
      → Stats
      → Outcome
  pull_fetched m rf target (err e) dest fs stats = (err e, fs, stats)
  pull_fetched m rf target (ok fetched) (err unsafe_path) fs stats = (err unsafe, fs, stats)
  pull_fetched m rf target (ok fetched) (ok dest) fs stats =
      pull_to m fetched rf target dest fs stats

  unfoldable pub pull_file : BlockIndex → FileMeta → Bytes → Fs → Stats → Outcome
  pull_file m rf target fs stats =
      pull_fetched m rf target (fetch rf.path (needed m rf.blocks)) (join dest_dir target) fs stats

  abbrev pub or_zero_hash : Option Hash → Hash
  or_zero_hash none = zero_hash
  or_zero_hash (some h) = h

  abbrev pub by_resolution : FileMeta → Resolution → Decision
  by_resolution rf keep_local = skip
  by_resolution rf conflict_copy = pull_as (conflict_name rf.path env.local_id env.stamp) true
  by_resolution rf take_remote = pull_as rf.path false

  abbrev pub resolved : FileMeta → FileInfo → Option (Dict Bytes Hash) → Decision
  resolved rf lf none = pull_as rf.path false
  resolved rf lf (some base) =
      by_resolution rf (classify lf.hash rf.hash (or_zero_hash (lookup rf.path base)))

  abbrev pub against : FileMeta → Option FileInfo → Decision
  against rf none = pull_as rf.path false
  against rf (some lf) = if lf.hash == rf.hash then skip else resolved rf lf env.baseline

  -- What the body of the loop of `Pull` does with one remote file.
  unfoldable pub decide : Index → FileMeta → Decision
  decide idx rf =
      if rf.deleted || not (local rf.path) then skip else against rf (lookup rf.path idx)

  abbrev pub counted : Bool → Stats → Stats
  counted conflict stats =
      if conflict then record stats { conflicts = stats.conflicts + 1 } else stats

  -- What follows a pulled file: nothing after an error.
  abbrev pub then_next : Outcome → (Fs → Stats → Outcome) → Outcome
  then_next (err e, fs, stats) next = (err e, fs, stats)
  then_next (ok _, fs, stats) next =
      next fs (record stats { files_updated = stats.files_updated + 1 })

  abbrev pub pull_decided :
      BlockIndex → FileMeta → Decision → (Fs → Stats → Outcome) → Fs → Stats → Outcome
  pull_decided m rf skip next fs stats = next fs stats
  pull_decided m rf (pull_as target conflict) next fs stats =
      then_next (pull_file m rf target fs (counted conflict stats)) next

  -- The loop of `Pull`, which stops at the first error.
  unfoldable pub pull_files : Index → BlockIndex → List FileMeta → Fs → Stats → Outcome
  pull_files idx m [] fs stats = (ok tt, fs, stats)
  pull_files idx m (rf ∷ rfs) fs stats =
      pull_decided m rf (decide idx rf) (pull_files idx m rfs) fs stats

  abbrev pub index_from : Option Reader → Result SessionError (List FileMeta)
  index_from none = err stream
  index_from (some r) = read_index peer.decode (suc (length (content r))) [] r

  abbrev pub no_stats : Stats
  no_stats = record { files_updated = 0; blocks_fetched = 0; blocks_reused = 0; conflicts = 0 }

  abbrev pub pull_remote : Index → Result SessionError (List FileMeta) → Fs → Outcome
  pull_remote idx (err e) fs = (err e, fs, no_stats)
  pull_remote idx (ok remote) fs = pull_files idx (build_block_index idx) remote fs no_stats

  unfoldable pub pull : Index → Fs → Outcome
  pull idx fs = pull_remote idx (index_from (peer.open_index env.folder_id)) fs
