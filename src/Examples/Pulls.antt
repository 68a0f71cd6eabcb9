-- ===== src/Examples/Pulls.antt =====
-- Pulling one file of one block into an empty folder, and a file that both sides have edited.
use syncy.Base.{
  All, ℕ, zero, suc, ◌<◌, Bytes, List, [], ◌∷◌, ◌++◌, ◌≡◌, ◌≢◌, ◌&&◌, ◌==◌, nat_eq, list_eq, not,
  refl, ok, err, Result, Option, none, some, Bool, true, false, str, length, arith, replicate, ap,
}
use syncy.Base.Dict.{Dict, lookup}
use syncy.Io.{Reader, Event, piece, content}
use syncy.Hashing.{Hash, is_zero}
use syncy.Core.{zero_time}
use syncy.Chunker.{Chunk}
use syncy.Fs.{Fs}
use syncy.Fsafe.{FilePath, join}
use syncy.Protocol.{header, write_frame}
use syncy.Session.{FileMeta, IndexUpdate, Stats, SessionError, read_index, read_blocks}
use syncy.Scanner.{FileInfo, Index}
use syncy.Session.Transfer.{Env, Peer, Faults, Decision, decide, pull_file, no_stats, or_zero_hash}
use syncy.Session.Install.{IsPulled, tmp_of}
use syncy.Session.Serving.{BlockRequest, FromFile, serve_blocks, serve_blocks-FromFile}
use syncy.Session.Pulling.{pull_file-IsPulled}
use syncy.Session.Resolve.{Spares, decide-Spares}
use syncy.Session.Requests.{Ends, read_index-Ends, read_blocks-Ends}

-- In place of SHA-256: the bytes themselves, behind 28 bytes, for texts of four bytes.
abbrev pub padded : Bytes → Hash
padded bs = replicate 28 1 ++ bs

abbrev pub data_chunk : Chunk
data_chunk = record { offset = 0; length_of = 4; hash = padded (str "data") }

abbrev remote : FileMeta
remote = record {
  path = str "a.txt";
  hash = padded (str "data");
  deleted = false;
  blocks = data_chunk ∷ [];
}

-- The peer's answer to the block request: one frame with the hash and the block.
abbrev pub answer : Reader
answer = piece (5 ∷ 0 ∷ 0 ∷ 0 ∷ 0 ∷ 36 ∷ []) ∷ piece (padded (str "data") ++ str "data") ∷ []

abbrev pub peer_of : Peer
peer_of = record {
  open_index = λ folder. none;
  open_blocks = λ folder path blocks. some answer;
  decode = λ payload. none;
}

abbrev pub no_faults : Faults
no_faults = record {
  mkdir = λ p. true;
  create = λ p. true;
  write = λ bs. true;
  close = λ p. true;
  rename = λ p. true;
}

abbrev folder : Env
folder = record {
  of_bytes = padded;
  peer = peer_of;
  faults = no_faults;
  folder_id = str "f";
  dest_dir = str "/f";
  versions = none;
  baseline = some ((str "a.txt", padded (str "base")) ∷ []);
  local_id = str "DEVICE-1";
  stamp = str "20260102-030405";
}

abbrev a_txt : FilePath
a_txt = record { rooted = true; elems = str "f" ∷ str "a.txt" ∷ [] }

a_txt-join : join (str "/f") (str "a.txt") ≡ ok a_txt
unfolding join syncy.Fsafe.is_local syncy.Fsafe.is_abs syncy.Base.ℕ_discrete list_eq
    syncy.Fsafe.elements syncy.Fsafe.join_paths syncy.Fsafe.clean syncy.Fsafe.clean_onto
    syncy.Fsafe.keep
a_txt-join = refl

pull_file-IsPulled_example :
    IsPulled folder remote
      (tmp_of a_txt)
      a_txt
      []
      (pull_file folder [] remote (str "a.txt") [] (no_stats folder))
pull_file-IsPulled_example =
    pull_file-IsPulled folder tt [] remote (str "a.txt") a_txt [] (no_stats folder) a_txt-join tt tt

-- The local file was edited since the last sync.
abbrev edited : FileInfo
edited = record {
  path = str "a.txt";
  size = 4;
  mod_time = zero_time;
  mode = 420;
  hash = padded (str "mine");
  blocks = [];
}

abbrev index : Index
index = (str "a.txt", edited) ∷ []

index-lookup : lookup (str "a.txt") index ≡ some edited
unfolding lookup list_eq syncy.Base.ℕ_discrete
index-lookup = refl

edited_since :
    (not (
        is_zero
          (or_zero_hash folder (lookup (str "a.txt") ((str "a.txt", padded (str "base")) ∷ []))))
      && (padded (str "mine")
          == or_zero_hash folder (lookup (str "a.txt") ((str "a.txt", padded (str "base")) ∷ []))))
    ≡ false
unfolding lookup is_zero list_eq syncy.Base.ℕ_discrete
edited_since = refl

decide-Spares_example : Spares folder (str "a.txt") (decide folder index remote)
decide-Spares_example =
    decide-Spares folder index remote edited ((str "a.txt", padded (str "base")) ∷ []) index-lookup
      refl edited_since

answer-content : length (content answer) < 43
unfolding content
answer-content = omega arith

read_index-Ends_example : Ends (read_index (λ payload. none) 43 [] answer)
read_index-Ends_example = read_index-Ends (λ payload. none) 43 [] answer answer-content

read_blocks-Ends_example : Ends (read_blocks 1 43 [] answer)
read_blocks-Ends_example = read_blocks-Ends 1 43 [] answer answer-content

-- The pull of the example succeeds.
pull_file_run : (pull_file folder [] remote (str "a.txt") [] (no_stats folder)).0 ≡ ok tt
unfolding pull_file syncy.Session.Transfer.fetch syncy.Session.Transfer.needed read_blocks
    syncy.Protocol.read_frame syncy.Base.ℕ_discrete syncy.Protocol.parse_block_data
    syncy.Base.Dict.insert join syncy.Fsafe.is_local syncy.Fsafe.is_abs list_eq syncy.Fsafe.elements
    syncy.Session.Transfer.pull_to syncy.Session.Transfer.write_blocks
    syncy.Session.Transfer.block_data syncy.Base.Dict.erase syncy.Fs.add_suffix syncy.Fs.file
    syncy.Fs.path_dec syncy.Fs.path_eq syncy.Fs.remove_file syncy.Fs.set_file syncy.Fsafe.clean
    syncy.Fsafe.clean_onto syncy.Fsafe.go_up syncy.Fsafe.join_paths syncy.Fsafe.keep content
    syncy.Io.read_full syncy.Io.read_full_from syncy.Protocol.be_get syncy.Protocol.read_payload
    syncy.Session.Transfer.finish syncy.Session.Transfer.install syncy.Session.Transfer.write_block
    syncy.Session.block_body syncy.Session.block_frame lookup
pull_file_run = refl

-- A request for the first four bytes of a served file.
abbrev shared : Fs
shared = (a_txt, str "data!") ∷ []

abbrev wanted : BlockRequest
wanted = record { folder_id = str "f"; path = str "a.txt"; blocks = data_chunk ∷ [] }

serve_blocks-FromFile_example :
    All
      (FromFile shared (λ a. true) (str "/f") (str "a.txt"))
      (serve_blocks shared (λ a. true) (str "/f") wanted)
serve_blocks-FromFile_example = serve_blocks-FromFile shared (λ a. true) (str "/f") wanted
