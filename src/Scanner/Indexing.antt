-- ===== src/Scanner/Indexing.antt =====
-- engine/internal/scanner/scanner.go: what stands in an index that a scan returns.
use mathlib.Core.Path.{subst}
use syncy.Base.{
  Bytes, Bool, true, false, [], ◌∷◌, ◌≡◌, refl, inl, inr, some, Result, ok, err, All, Bool-cases,
  Result-cases, ◌==◌, nat_eq, list_eq, eq_of_beq, eq_refl, ◌⊎◌, ◌∙◌,
}
use syncy.Base.Dict.{insert, lookup, lookup-insert}
use syncy.Chunker.{Chunker}
use syncy.Hashing.{Hash}
use syncy.Io.{content}
use syncy.Scanner.{
  FileInfo, Index, FileStat, Node, regular, special, directory, Nodes, end, entry, ScanError,
  split_file, scan_file, visit_regular, visit_directory, after, child_path, walk_node, walk_nodes,
  scan,
}

mutual
  -- The walk from `rel` reaches this file at the path `p`, through directories that are not skipped.
  pub FileAt : (Bytes → Bool → Bool) → Bytes → FileStat → Bytes → Node → Type 0
  FileAt skip p st rel (regular found) = (p ≡ rel) × (st ≡ found)
  FileAt skip p st rel special = ⊥
  FileAt skip p st rel (directory readable entries) =
      (skip rel true ≡ false) × FilesAt skip p st rel entries

  pub FilesAt : (Bytes → Bool → Bool) → Bytes → FileStat → Bytes → Nodes → Type 0
  FilesAt skip p st rel end = ⊥
  FilesAt skip p st rel (entry name node more) =
      FileAt skip p st (child_path rel name) node ⊎ FilesAt skip p st rel more

module _ (of_bytes : Bytes → Hash) (ch : Chunker) (skip : Bytes → Bool → Bool) where
  -- What an index says of a file: its own path, which is not skipped, and what stands in the tree
  -- at that path, with the hash of its content and the blocks into which `Split` cuts it.
  pub record IsScanned (At : Bytes → FileStat → Type 0) (e : Bytes × FileInfo) : Type 0 where
    pub keyed : e.1.path ≡ e.0
    pub shared : skip e.0 false ≡ false
    pub stat : FileStat
    pub found : At e.0 stat
    pub sized : e.1.size ≡ stat.size
    pub hashed : e.1.hash ≡ of_bytes (content stat.reader)
    pub cut : split_file of_bytes ch stat.reader ≡ ok e.1.blocks

  -- The index has the path.
  abbrev pub Indexed : Bytes → Index → Type 0
  Indexed p idx = (fi : FileInfo) × (lookup p idx ≡ some fi)

  -- A walk that adds to `idx`, where it succeeds, gives scanned files only, keeps the paths of
  -- `idx`, and has the path of every file of `Here` that is not skipped.
  abbrev Walks :
      (Bytes → FileStat → Type 0)
      → (Bytes → FileStat → Type 0)
      → Index
      → Result ScanError Index
      → Type 0
  Walks At Here idx (err e) = Unit {0}
  Walks At Here idx (ok out) =
      All (IsScanned At) out
      × ((p : Bytes) → Indexed p idx → Indexed p out)
      × ((p : Bytes) (st : FileStat) → Here p st → skip p false ≡ false → Indexed p out)

  module _ (At : Bytes → FileStat → Type 0) where
    insert-IsScanned :
        (rel : Bytes) (fi : FileInfo) (idx : Index)
        → IsScanned At (rel, fi)
        → All (IsScanned At) idx
        → All (IsScanned At) (insert rel fi idx)
    unfolding insert
    insert-IsScanned rel fi [] h all = (h, tt)
    insert-IsScanned rel fi ((k, v) ∷ idx) h (hk, all) = elim (Bool-cases (rel == k)) [
      | inr other ↦ rw other (hk, insert-IsScanned rel fi idx h all)
      | inl same ↦ rw same (subst (λ j. IsScanned At (j, fi)) (eq_of_beq rel k same) h, all)
    ]

    insert-Indexed :
        (rel : Bytes) (fi : FileInfo) (idx : Index) (p : Bytes)
        → Indexed p idx
        → Indexed p (insert rel fi idx)
    insert-Indexed rel fi idx p (v, h) = elim (Bool-cases (p == rel)) [
      | inl same ↦ (fi, lookup-insert p rel fi idx ∙ rw same)
      | inr other ↦ (v, lookup-insert p rel fi idx ∙ rw other h)
    ]

    unchanged :
        (Here : Bytes → FileStat → Type 0) (idx : Index)
        → All (IsScanned At) idx
        → ((p : Bytes) (st : FileStat) → Here p st → skip p false ≡ false → ⊥)
        → Walks At Here idx (ok idx)
    unchanged Here idx all none_here = (all, (λ p h. h), λ p st h sh. absurd (none_here p st h sh))

    -- The files at the node are files of the tree.
    abbrev Within : (Bytes → FileStat → Type 0) → Type 0
    Within Here = (p : Bytes) (st : FileStat) → Here p st → At p st

    visit_regular-Walks :
        (Here : Bytes → FileStat → Type 0) (rel : Bytes) (st : FileStat) (idx : Index)
        → ((p : Bytes) (st' : FileStat) → Here p st' → p ≡ rel)
        → At rel st
        → All (IsScanned At) idx
        → Walks At Here idx (visit_regular of_bytes ch skip rel st idx)
    unfolding visit_regular scan_file
    visit_regular-Walks Here rel st idx only there all = elim (Bool-cases (skip rel false)) [
      | inl skipped ↦
          rw skipped
            (unchanged Here idx all (λ p st' h sh. absurd (cc (skipped, sh, only p st' h))))
      | inr shared ↦ elim (Bool-cases st.opens) [
        | inr bad ↦ rw (shared, bad) tt
        | inl opens ↦ elim (Bool-cases st.stats) [
          | inr bad ↦ rw (shared, opens, bad) tt
          | inl stats ↦ elim (Result-cases (split_file of_bytes ch st.reader)) [
            | inr (e, failed) ↦ rw (shared, opens, stats, failed) tt
            | inl (chs, cut) ↦
                let fi : FileInfo = record {
                  path = rel;
                  size = st.size;
                  mod_time = st.mod_time;
                  mode = st.perm;
                  hash = of_bytes (content st.reader);
                  blocks = chs;
                } in
                let here : IsScanned At (rel, fi) = record {
                  keyed = refl;
                  shared = shared;
                  stat = st;
                  found = there;
                  sized = refl;
                  hashed = refl;
                  cut = cut;
                } in
                rw (shared, opens, stats, cut)
                  (
                    insert-IsScanned rel fi idx here all,
                    insert-Indexed rel fi idx,
                    λ p st' h sh. (fi, lookup-insert p rel fi idx ∙ rw (only p st' h, eq_refl rel)),
                  )
          ]
        ]
      ]
    ]

    visit_directory-Walks :
        (Here Inside : Bytes → FileStat → Type 0) (rel : Bytes) (readable : Bool)
        (inside : Result ScanError Index) (idx : Index)
        → ((p : Bytes) (st : FileStat) → Here p st → (skip rel true ≡ false) × Inside p st)
        → All (IsScanned At) idx
        → (skip rel true ≡ false → Walks At Inside idx inside)
        → Walks At Here idx (visit_directory of_bytes ch skip rel readable inside idx)
    visit_directory-Walks Here Inside rel readable inside idx split all h =
        elim (Bool-cases (skip rel true)) [
          | inl skipped ↦
              rw skipped
                (unchanged Here idx all (λ p st h sh. absurd (cc (skipped, (split p st h).0))))
          | inr shared ↦ elim (Bool-cases readable) [
            | inr bad ↦ rw (shared, bad) tt
            | inl fine ↦ rw (shared, fine) (inside_of inside (h shared))
          ]
        ]
      where
        inside_of : (r : Result ScanError Index) → Walks At Inside idx r → Walks At Here idx r
        inside_of (err e) w = tt
        inside_of (ok out) (scanned, kept, complete) =
            (scanned, kept, λ p st h sh. complete p st (split p st h).1 sh)

    after-Walks :
        (rel name : Bytes) (node : Node) (more : Nodes) (idx : Index) (r : Result ScanError Index)
        (next : Index → Result ScanError Index)
        → Walks At (λ p st. FileAt skip p st (child_path rel name) node) idx r
        → ((mid : Index)
            → All (IsScanned At) mid
            → Walks At (λ p st. FilesAt skip p st rel more) mid (next mid))
        → Walks At
            (λ p st. FilesAt skip p st rel (entry name node more))
            idx
            (after of_bytes ch skip r next)
    unfolding FilesAt
    after-Walks rel name node more idx (err e) next h later = tt
    after-Walks rel name node more idx (ok mid) next (all, kept, complete) later =
        both (next mid) (later mid all)
      where
        both :
            (out : Result ScanError Index)
            → Walks At (λ p st. FilesAt skip p st rel more) mid out
            → Walks At (λ p st. FilesAt skip p st rel (entry name node more)) idx out
        both (err e) w = tt
        both (ok out) (all', kept', complete') = (
          all',
          (λ p h. kept' p (kept p h)),
          λ p st h sh. elim h [
            | inl here ↦ kept' p (complete p st here sh)
            | inr there ↦ complete' p st there sh
          ],
        )

    mutual
      unfolding walk_node walk_nodes FileAt FilesAt

      walk_node-Walks :
          (rel : Bytes) (node : Node) (idx : Index)
          → Within (λ p st. FileAt skip p st rel node)
          → All (IsScanned At) idx
          → Walks At
              (λ p st. FileAt skip p st rel node)
              idx
              (walk_node of_bytes ch skip rel node idx)
      walk_node-Walks rel (regular st) idx within all =
          visit_regular-Walks (λ p st'. FileAt skip p st' rel (regular st)) rel st idx
            (λ p st' h. h.0) (within rel st (refl, refl)) all
      walk_node-Walks rel special idx within all =
          unchanged (λ p st. FileAt skip p st rel special) idx all (λ p st h sh. h)
      walk_node-Walks rel (directory readable entries) idx within all =
          visit_directory-Walks (λ p st. FileAt skip p st rel (directory readable entries))
            (λ p st. FilesAt skip p st rel entries) rel readable
            (walk_nodes of_bytes ch skip rel entries idx) idx (λ p st h. h) all
            (λ shared. walk_nodes-Walks rel entries idx (λ p st h. within p st (shared, h)) all)

      walk_nodes-Walks :
          (rel : Bytes) (nodes : Nodes) (idx : Index)
          → Within (λ p st. FilesAt skip p st rel nodes)
          → All (IsScanned At) idx
          → Walks At
              (λ p st. FilesAt skip p st rel nodes)
              idx
              (walk_nodes of_bytes ch skip rel nodes idx)
      walk_nodes-Walks rel end idx within all =
          unchanged (λ p st. FilesAt skip p st rel end) idx all (λ p st h sh. h)
      walk_nodes-Walks rel (entry name node more) idx within all =
          after-Walks rel name node more idx
            (walk_node of_bytes ch skip (child_path rel name) node idx)
            (walk_nodes of_bytes ch skip rel more)
            (walk_node-Walks (child_path rel name) node idx (λ p st h. within p st (inl h)) all)
            (λ mid all'. walk_nodes-Walks rel more mid (λ p st h. within p st (inr h)) all')

  -- The files of the tree that the walk can reach; the root itself is not asked for.
  abbrev pub InTree : Node → Bytes → FileStat → Type 0
  InTree (regular found) p st = ⊥
  InTree special p st = ⊥
  InTree (directory readable entries) p st = FilesAt skip p st [] entries

  -- `Scan` of a tree whose root can be read, where it succeeds: every entry of the index is a
  -- regular file of the tree at its own path, not skipped, with the size that `Stat` gives for that
  -- file, the hash of that file's content and the blocks into which `Split` cuts it; and every
  -- regular file of the tree that is not skipped, below directories that are not, is in the index.
  pub scan-Scans :
      (root : Node) (idx : Index)
      → scan of_bytes ch skip (some root) ≡ ok idx
      → All (IsScanned (InTree root)) idx
        × ((p : Bytes) (st : FileStat) → InTree root p st → skip p false ≡ false → Indexed p idx)
  unfolding scan
  scan-Scans (regular st) idx h = cc h
  scan-Scans special idx h = cc h
  scan-Scans (directory readable entries) idx h = elim (Bool-cases readable) [
    | inr bad ↦ cc (rw bad at h)
    | inl fine ↦
        let Here = InTree (directory readable entries) in
        let (all, kept, complete) =
          subst (Walks Here (λ p st. FilesAt skip p st [] entries) []) (rw fine at h)
            (walk_nodes-Walks Here [] entries [] (λ p st found. found) tt) in
        (all, complete)
  ]
