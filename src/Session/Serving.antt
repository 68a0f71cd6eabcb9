-- ===== src/Session/Serving.antt =====
-- `ServeFrame` of session.go: what a peer is answered. Lengths and offsets of a request are
-- natural numbers here.
use syncy.Base.{
  ℕ, Bytes, Bool, not, true, false, List, [], ◌∷◌, ◌==◌, nat_eq, list_eq, Option, none, some, ◌≡◌,
  inl, inr, if◌then◌else◌, Result, ok, err, All, Bool-cases, Option-cases, Result-cases,
}
use syncy.Base.Dict.{Dict, lookup}
use syncy.Chunker.{Chunk}
use syncy.Fs.{Fs, read_at}
use syncy.Fsafe.{FilePath, join, PathError}
use syncy.Hashing.{Hash}
use syncy.Io.{Reader}
use syncy.Protocol.{
  Frame, ProtocolError, read_frame, type_folder_summary, type_block_request,
  type_folder_list_response,
}
use syncy.Protocol.Messages.{SharedFolder, FolderListResponse}
use syncy.Session.{FileMeta, IndexUpdate, SessionError, malformed, wire, unexpected_frame, stream}
use syncy.Scanner.{Index}

pub record Folder : Type 0 where
  pub id : Bytes
  pub dir : Bytes
  pub index : Index

-- `protocol.BlockRequest`
pub record BlockRequest : Type 0 where
  pub folder_id : Bytes
  pub path : Bytes
  pub blocks : List Chunk

abbrev pub FolderSource : Type 0
FolderSource = Bytes → Option Folder

unfoldable pub single_folder : Folder → FolderSource
single_folder f id = if id == f.id then some f else none

unfoldable pub folders : Dict Bytes Folder → FolderSource
folders m id = lookup id m

-- `indexToFileMeta`, in the order of the map.
unfoldable pub index_to_file_meta : Index → List FileMeta
index_to_file_meta [] = []
index_to_file_meta ((key, fi) ∷ files) =
    record { path = fi.path; hash = fi.hash; deleted = false; blocks = fi.blocks }
    ∷ index_to_file_meta files

-- A block message.
abbrev pub Served : Type 0
Served = Hash × Bytes

pub data Answer : Type 0 where
  nothing : Answer
  index_answer : IndexUpdate → Answer
  blocks_answer : List Served → Answer

-- `fs` holds the files, `sent` says whether the write of a block to the stream succeeds, and the
-- two decoders are `protocol.Decode`.
module _ (fs : Fs) (sent : Served → Bool) where
  -- One round of the loop of `serveBlocks`, from the bytes that are read; `rest` are the
  -- following blocks.
  abbrev pub serve_read : Hash → Option Bytes → List Served → List Served
  serve_read h none rest = []
  serve_read h (some body) rest = if sent (h, body) then (h, body) ∷ rest else []

  unfoldable pub serve_refs : FilePath → List Chunk → List Served
  serve_refs p [] = []
  serve_refs p (b ∷ bs) = serve_read b.hash (read_at fs p b.offset b.length_of) (serve_refs p bs)

  abbrev pub serve_joined : List Chunk → Result PathError FilePath → List Served
  serve_joined blocks (err e) = []
  serve_joined blocks (ok p) = serve_refs p blocks

  unfoldable pub serve_blocks : Bytes → BlockRequest → List Served
  unfolding serve_refs
  serve_blocks dir req = serve_joined req.blocks (join dir req.path)

  module _ (source : FolderSource) (decode_summary : Bytes → Option Bytes)
      (decode_request : Bytes → Option BlockRequest) where
    abbrev pub answer_index : Option Folder → Answer
    answer_index none = nothing
    answer_index (some f) =
        index_answer (record { files = index_to_file_meta f.index; final = true })

    abbrev pub answer_summary : Option Bytes → Answer
    answer_summary none = nothing
    answer_summary (some id) = answer_index (source id)

    abbrev pub answer_blocks : BlockRequest → Option Folder → Answer
    answer_blocks req none = nothing
    answer_blocks req (some f) = blocks_answer (serve_blocks f.dir req)

    abbrev pub answer_request : Option BlockRequest → Answer
    answer_request none = nothing
    answer_request (some req) = answer_blocks req (source req.folder_id)

    unfoldable pub serve_frame : Frame → Answer
    serve_frame frame =
        if frame.typ == type_folder_summary
        then answer_summary (decode_summary frame.payload)
        else if frame.typ == type_block_request
        then answer_request (decode_request frame.payload)
        else nothing

  -- The block is read from a file that the request's path joins to below the folder.
  abbrev pub FromFile : Bytes → Bytes → Served → Type 0
  FromFile dir path a =
      (p : FilePath) × (join dir path ≡ ok p)
      × ((offset : ℕ) × (n : ℕ) × (read_at fs p offset n ≡ some a.1))

  serve_refs-FromFile :
      (dir path : Bytes) (p : FilePath) (bs : List Chunk)
      → join dir path ≡ ok p
      → All (FromFile dir path) (serve_refs p bs)
  unfolding serve_refs
  serve_refs-FromFile dir path p [] h = tt
  serve_refs-FromFile dir path p (b ∷ bs) h =
      elim (Option-cases (read_at fs p b.offset b.length_of)) [
        | inl missing ↦ rw missing tt
        | inr (body, found) ↦ elim (Bool-cases (sent (b.hash, body))) [
          | inr stuck ↦ rw (found, stuck) tt
          | inl taken ↦
              rw (found, taken)
                ((p, h, (b.offset, b.length_of, found)), serve_refs-FromFile dir path p bs h)
        ]
      ]

  -- Whatever a peer requests, each block that it is sent is read from the file to which the
  -- requested path joins below the folder's directory; a path that leaves it gets no block.
  pub serve_blocks-FromFile :
      (dir : Bytes) (req : BlockRequest) → All (FromFile dir req.path) (serve_blocks dir req)
  unfolding serve_blocks
  serve_blocks-FromFile dir req = elim (Result-cases (join dir req.path)) [
    | inr (e, refused) ↦ rw (serve_blocks, refused) tt
    | inl (p, joined) ↦
        rw (serve_blocks, joined) (serve_refs-FromFile dir req.path p req.blocks joined)
  ]

-- `RequestFolderList`: `opened` is the peer's stream, if one opens and the request can be written,
-- and `decode` is `protocol.Decode`.
module _ (decode : Bytes → Option FolderListResponse) where
  abbrev pub listed : Option FolderListResponse → Result SessionError (List SharedFolder)
  listed none = err malformed
  listed (some resp) = ok resp.folders

  abbrev pub list_frame : Result ProtocolError Frame → Result SessionError (List SharedFolder)
  list_frame (err e) = err (wire e)
  list_frame (ok f) =
      if not (f.typ == type_folder_list_response)
      then err unexpected_frame
      else listed (decode f.payload)

  unfoldable pub request_folder_list : Option Reader → Result SessionError (List SharedFolder)
  request_folder_list none = err stream
  request_folder_list (some r) = list_frame (read_frame r).0
