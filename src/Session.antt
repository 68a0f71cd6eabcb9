-- ===== src/Session.antt =====
-- engine/internal/session/session.go: pulling a folder from a peer.
pub mod Transfer
pub mod Resolve
pub mod Requests
pub mod Serving
pub mod Files
pub mod Install
pub mod Pulling
pub mod Confined
use syncy.Base.{
  ℕ, zero, suc, ◌+◌, Bytes, Bool, not, true, false, List, [], ◌∷◌, ◌++◌, ◌&&◌, ◌||◌, ◌==◌, nat_eq,
  list_eq, Option, none, some, if◌then◌else◌, length, Result, ok, err, str,
}
use syncy.Base.Dict.{Dict, lookup, insert}
use syncy.Chunker.{Chunk}
use syncy.Conflict.Name.{conflict_name}
use syncy.Core.{DeviceId}
use syncy.Fs.{Fs, file, set_file, remove_file, read_at, add_suffix}
use syncy.Fsafe.{FilePath, local, join}
use syncy.Hashing.{Hash, is_zero}
use syncy.Io.{Reader, eof}
use syncy.Scanner.{FileInfo, Index}
use syncy.Protocol.{
  Frame, ProtocolError, io, read_frame, parse_block_data, type_index_update, type_block_data,
}

abbrev pub tmp_suffix : Bytes
tmp_suffix = str ".syncy-tmp"

-- The fields of `protocol.FileMeta` that a pull reads.
pub record FileMeta : Type 0 where
  pub path : Bytes
  pub hash : Hash
  pub deleted : Bool
  pub blocks : List Chunk

pub record IndexUpdate : Type 0 where
  pub files : List FileMeta
  pub final : Bool

pub record Stats : Type 0 where
  pub files_updated : ℕ
  pub blocks_fetched : ℕ
  pub blocks_reused : ℕ
  pub conflicts : ℕ

pub data SessionError : Type 0 where
  stream unexpected_frame malformed missing_block block_mismatch file_mismatch : SessionError
  local_read filesystem archiving unsafe out_of_fuel : SessionError
  wire : ProtocolError → SessionError

-- `resolution` and `classify`
pub data Resolution : Type 0 where
  take_remote keep_local conflict_copy : Resolution

unfoldable pub classify : Hash → Hash → Hash → Resolution
classify mine theirs baseline =
    if not (is_zero baseline) && (mine == baseline)
    then take_remote
    else if not (is_zero baseline) && (theirs == baseline)
    then keep_local
    else conflict_copy

pub record BlockLoc : Type 0 where
  pub path : Bytes
  pub offset : ℕ
  pub length_of : ℕ

abbrev pub BlockIndex : Type 0
BlockIndex = Dict Hash BlockLoc

abbrev add_if_missing : Option BlockLoc → Bytes → Chunk → BlockIndex → BlockIndex
add_if_missing (some loc) path b m = m
add_if_missing none path b m =
    insert b.hash (record { path = path; offset = b.offset; length_of = b.length_of }) m

-- The inner and the outer loop of `buildBlockIndex`.
unfoldable pub index_blocks : Bytes → List Chunk → BlockIndex → BlockIndex
index_blocks path [] m = m
index_blocks path (b ∷ bs) m = index_blocks path bs (add_if_missing (lookup b.hash m) path b m)

unfoldable pub index_files : Index → BlockIndex → BlockIndex
unfolding index_blocks
index_files [] m = m
index_files ((key, fi) ∷ files) m = index_files files (index_blocks fi.path fi.blocks m)

unfoldable pub build_block_index : Index → BlockIndex
unfolding index_files
build_block_index idx = index_files idx []

-- What a failed read of a frame means to a request: the answer is complete if the stream ended.
abbrev pub stream_end : {A : Type 0} → A → ProtocolError → Result SessionError A
stream_end a (io eof) = ok a
stream_end a e = err (wire e)

abbrev pub IndexRead : Type 0
IndexRead = List FileMeta → Reader → Result SessionError (List FileMeta)

module _ (decode : Bytes → Option IndexUpdate) where
  -- One round of the loop of `requestIndex`; `next` is the following round.
  unfoldable pub index_update :
      IndexRead → List FileMeta → Option IndexUpdate → Reader → Result SessionError (List FileMeta)
  index_update next files none r = err malformed
  index_update next files (some iu) r =
      if iu.final then ok (files ++ iu.files) else next (files ++ iu.files) r

  unfoldable pub index_frame :
      IndexRead
      → List FileMeta
      → Result ProtocolError Frame
      → Reader
      → Result SessionError (List FileMeta)
  unfolding index_update
  index_frame next files (err e) r = stream_end files e
  index_frame next files (ok f) r =
      if not (f.typ == type_index_update)
      then err unexpected_frame
      else index_update next files (decode f.payload) r

  -- The loop of `requestIndex` over the peer's stream; `decode` is `protocol.Decode`.
  unfoldable pub read_index : ℕ → IndexRead
  unfolding index_frame
  read_index zero files r = err out_of_fuel
  read_index (suc fuel) files r =
      index_frame (read_index fuel) files (read_frame r).0 (read_frame r).1

abbrev pub Blocks : Type 0
Blocks = Dict Hash Bytes

abbrev pub BlockRead : Type 0
BlockRead = Blocks → Reader → Result SessionError Blocks

-- One round of the loop of `requestBlocks`: blocks by the hash that they are sent under.
unfoldable pub block_body :
    ℕ
    → BlockRead
    → Blocks
    → Result ProtocolError (Bytes × Bytes)
    → Reader
    → Result SessionError Blocks
block_body wanted next out (err e) r = err (wire e)
block_body wanted next out (ok (h, body)) r =
    let out' = insert h body out in if length out' == wanted then ok out' else next out' r

unfoldable pub block_frame :
    ℕ → BlockRead → Blocks → Result ProtocolError Frame → Reader → Result SessionError Blocks
unfolding block_body
block_frame wanted next out (err e) r = stream_end out e
block_frame wanted next out (ok f) r =
    if not (f.typ == type_block_data)
    then err unexpected_frame
    else block_body wanted next out (parse_block_data f.payload) r

unfoldable pub read_blocks : ℕ → ℕ → BlockRead
unfolding block_frame
read_blocks wanted zero out r = err out_of_fuel
read_blocks wanted (suc fuel) out r =
    block_frame wanted (read_blocks wanted fuel) out (read_frame r).0 (read_frame r).1
