-- ===== src/Scanner/Reading.antt =====
-- engine/internal/scanner/scanner.go: what a scan takes of one file.
use syncy.Base.{suc, Bytes, true, ◌≡◌, refl, length, ok, nat_eq, list_eq, arith, ◌≤◌}
use syncy.Chunker.{Chunker}
use syncy.Chunker.Cover.{Covers, split-Covers}
use syncy.Hashing.{Hash}
use syncy.Io.{content, ending, eof}
use syncy.Scanner.{FileInfo, FileStat, split_file, scan_file}

module _ (of_bytes : Bytes → Hash) (ch : Chunker) (positive : 1 ≤ ch.cfg.min)
    (ordered : ch.cfg.min ≤ ch.cfg.max) where
  -- A file that opens and is read without an error is scanned: the result has its path, the hash
  -- of its bytes, and blocks that cover the bytes, with their hashes. The sizes of the chunker
  -- are positive and ordered.
  pub scan_file-Covers :
      (rel : Bytes) (st : FileStat)
      → st.opens ≡ true
      → st.stats ≡ true
      → ending st.reader ≡ eof
      → (fi : FileInfo) × (scan_file of_bytes ch rel st ≡ ok fi)
        × (fi.path ≡ rel)
        × (fi.hash ≡ of_bytes (content st.reader))
        × Covers of_bytes ch 0 (content st.reader) fi.blocks
  unfolding scan_file split_file
  scan_file-Covers rel st opens stats ended =
      let (chs, run, covers) =
        split-Covers of_bytes ch positive ordered (suc (length (content st.reader))) st.reader ended
          (omega arith) in
      (
        record {
          path = rel;
          size = st.size;
          mod_time = st.mod_time;
          mode = st.perm;
          hash = of_bytes (content st.reader);
          blocks = chs;
        },
        rw (scan_file, opens, stats, split_file, run),
        refl,
        refl,
        covers,
      )
