-- ===== src/Scanner.antt =====
-- engine/internal/scanner/scanner.go: the index of a folder's files.
pub mod Reading
pub mod Indexing
pub mod Diff
pub mod Changes
pub mod Renames
pub mod Naming
pub mod Coverage
pub mod Apply
pub mod Paths
use syncy.Base.{
  ℕ, suc, Bytes, Bool, not, true, false, List, [], ◌∷◌, ◌++◌, ◌==◌, nat_eq, list_eq, if◌then◌else◌,
  length, Option, none, some, Result, ok, err, str,
}
use syncy.Base.Dict.{Dict, insert}
use syncy.Chunker.{Chunk, Chunker, split, collect}
use syncy.Core.{Time}
use syncy.Hashing.{Hash}
use syncy.Io.{Reader, content}

pub record FileInfo : Type 0 where
  pub path : Bytes
  pub size : ℕ
  pub mod_time : Time
  pub mode : ℕ
  pub hash : Hash
  pub blocks : List Chunk

-- `Index`, the map of its field.
abbrev pub Index : Type 0
Index = Dict Bytes FileInfo

-- A file as the walk finds it: whether it opens and can be looked at, what that shows, and what
-- reading it gives.
pub record FileStat : Type 0 where
  pub opens : Bool
  pub stats : Bool
  pub size : ℕ
  pub mod_time : Time
  pub perm : ℕ
  pub reader : Reader

-- What stands in a folder. A directory may be unreadable; its entries are in lexical order.
mutual
  pub data Node : Type 0 where
    regular : FileStat → Node
    special : Node
    directory : Bool → Nodes → Node

  pub data Nodes : Type 0 where
    end : Nodes
    entry : Bytes → Node → Nodes → Nodes

pub data ScanError : Type 0 where
  no_root not_a_directory unreadable open_failed stat_failed split_failed : ScanError

abbrev pub child_path : Bytes → Bytes → Bytes
child_path [] name = name
child_path (c ∷ rel) name = (c ∷ rel) ++ (b'/' ∷ name)

-- `of_bytes` is SHA-256; `skip` takes the path and whether it is a directory.
module _ (of_bytes : Bytes → Hash) (ch : Chunker) where
  abbrev pub info_of :
      Bytes → FileStat → Bytes → Result ScanError (List Chunk) → Result ScanError FileInfo
  info_of rel st all (err e) = err e
  info_of rel st all (ok blocks) = ok (record {
    path = rel;
    size = st.size;
    mod_time = st.mod_time;
    mode = st.perm;
    hash = of_bytes all;
    blocks = blocks;
  })

  -- `Split` with the callback that appends each block. It takes fewer rounds than there are bytes
  -- and one.
  unfoldable pub split_file : Reader → Result ScanError (List Chunk)
  split_file r = elim (split of_bytes {E = Unit {0}} collect ch (suc (length (content r))) r []) [
    | ok blocks ↦ ok blocks
    | err e ↦ err split_failed
  ]

  -- `scanFile`: when `Split` has succeeded, the tee has hashed the whole content.
  unfoldable pub scan_file : Bytes → FileStat → Result ScanError FileInfo
  unfolding split_file
  scan_file rel st =
      if not st.opens
      then err open_failed
      else if not st.stats
      then err stat_failed
      else info_of rel st (content st.reader) (split_file st.reader)

  module _ (skip : Bytes → Bool → Bool) where
    abbrev pub add_info : Bytes → Result ScanError FileInfo → Index → Result ScanError Index
    add_info rel (err e) idx = err e
    add_info rel (ok fi) idx = ok (insert rel fi idx)

    -- The callback of the walk at a regular file.
    unfoldable pub visit_regular : Bytes → FileStat → Index → Result ScanError Index
    unfolding scan_file
    visit_regular rel st idx =
        if skip rel false then ok idx else add_info rel (scan_file rel st) idx

    -- At a directory, with the walk of its entries: `SkipDir` leaves the entries out.
    abbrev pub visit_directory :
        Bytes → Bool → Result ScanError Index → Index → Result ScanError Index
    visit_directory rel readable inside idx =
        if skip rel true then ok idx else if not readable then err unreadable else inside

    abbrev pub after :
        Result ScanError Index → (Index → Result ScanError Index) → Result ScanError Index
    after (err e) next = err e
    after (ok idx) next = next idx

    -- `filepath.WalkDir` with the callback of `Scan`.
    unfoldable mutual
      unfolding visit_regular

      pub walk_node : Bytes → Node → Index → Result ScanError Index
      walk_node rel (regular st) idx = visit_regular rel st idx
      walk_node rel special idx = ok idx
      walk_node rel (directory readable entries) idx =
          visit_directory rel readable (walk_nodes rel entries idx) idx

      pub walk_nodes : Bytes → Nodes → Index → Result ScanError Index
      walk_nodes rel end idx = ok idx
      walk_nodes rel (entry name node more) idx =
          after (walk_node (child_path rel name) node idx) (walk_nodes rel more)

    -- `Scan`, from what stands at the root, if anything does.
    unfoldable pub scan : Option Node → Result ScanError Index
    unfolding walk_node walk_nodes
    scan none = err no_root
    scan (some (regular st)) = err not_a_directory
    scan (some special) = err not_a_directory
    scan (some (directory readable entries)) =
        if not readable then err unreadable else walk_nodes [] entries []
