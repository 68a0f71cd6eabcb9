-- ===== src/Scanner/Paths.antt =====
-- engine/internal/scanner/scanner.go: the paths of the index that a scan gives.
use syncy.Base.{
  Bytes, Bool, true, false, [], Result, ok, err, if◌then◌else◌, if_elim, list_eq, nat_eq, not,
  Option, none, some,
}
use syncy.Base.Dict.{NodupKeys, insert-NodupKeys}
use syncy.Chunker.{Chunker}
use syncy.Hashing.{Hash}
use syncy.Scanner.{
  FileInfo, Index, FileStat, Node, Nodes, regular, special, directory, end, entry, ScanError,
  unreadable, child_path, scan_file, add_info, visit_regular, visit_directory, after, walk_node,
  walk_nodes, scan,
}

-- What a walk may return.
abbrev pub Once : Result ScanError Index → Type 0
Once (err e) = Unit
Once (ok idx) = NodupKeys idx

module _ (of_bytes : Bytes → Hash) (ch : Chunker) (skip : Bytes → Bool → Bool) where
  add_info-Once :
      (rel : Bytes) (r : Result ScanError FileInfo) (idx : Index)
      → NodupKeys idx
      → Once (add_info of_bytes ch skip rel r idx)
  add_info-Once rel (err e) idx u = tt
  add_info-Once rel (ok fi) idx u = insert-NodupKeys rel fi idx u

  visit_regular-Once :
      (rel : Bytes) (st : FileStat) (idx : Index)
      → NodupKeys idx
      → Once (visit_regular of_bytes ch skip rel st idx)
  unfolding visit_regular
  visit_regular-Once rel st idx u =
      if_elim Once (skip rel false) (ok idx)
        (add_info of_bytes ch skip rel (scan_file of_bytes ch rel st) idx) (λ skipped. u)
        (λ shared. add_info-Once rel (scan_file of_bytes ch rel st) idx u)

  visit_directory-Once :
      (rel : Bytes) (readable : Bool) (inside : Result ScanError Index) (idx : Index)
      → NodupKeys idx
      → Once inside
      → Once (visit_directory of_bytes ch skip rel readable inside idx)
  visit_directory-Once rel readable inside idx u h =
      if_elim Once (skip rel true) (ok idx) (if not readable then err unreadable else inside)
        (λ skipped. u)
        (λ shared. if_elim Once (not readable) (err unreadable) inside (λ bad. tt) (λ fine. h))

  after-Once :
      (r : Result ScanError Index) (next : Index → Result ScanError Index)
      → Once r
      → ((idx : Index) → NodupKeys idx → Once (next idx))
      → Once (after of_bytes ch skip r next)
  after-Once (err e) next h later = tt
  after-Once (ok idx) next h later = later idx h

  mutual
    unfolding walk_node walk_nodes

    walk_node-Once :
        (rel : Bytes) (n : Node) (idx : Index)
        → NodupKeys idx
        → Once (walk_node of_bytes ch skip rel n idx)
    walk_node-Once rel (regular st) idx u = visit_regular-Once rel st idx u
    walk_node-Once rel special idx u = u
    walk_node-Once rel (directory readable entries) idx u =
        visit_directory-Once rel readable (walk_nodes of_bytes ch skip rel entries idx) idx u
          (walk_nodes-Once rel entries idx u)

    walk_nodes-Once :
        (rel : Bytes) (ns : Nodes) (idx : Index)
        → NodupKeys idx
        → Once (walk_nodes of_bytes ch skip rel ns idx)
    walk_nodes-Once rel end idx u = u
    walk_nodes-Once rel (entry name node more) idx u =
        after-Once (walk_node of_bytes ch skip (child_path rel name) node idx)
          (walk_nodes of_bytes ch skip rel more) (walk_node-Once (child_path rel name) node idx u)
          (λ next v. walk_nodes-Once rel more next v)

  -- The index of a scan holds each path once.
  pub scan-Once : (root : Option Node) → Once (scan of_bytes ch skip root)
  unfolding scan
  scan-Once none = tt
  scan-Once (some (regular st)) = tt
  scan-Once (some special) = tt
  scan-Once (some (directory readable entries)) =
      if_elim Once (not readable) (err unreadable) (walk_nodes of_bytes ch skip [] entries [])
        (λ bad. tt) (λ fine. walk_nodes-Once [] entries [] tt)
