-- ===== src/Examples/Cuts.antt =====
-- Cutting streams into blocks, and confining paths, at concrete inputs.
use syncy.Base.{
  ℕ, suc, ◌≤◌, ◌<◌, ◌⊎◌, ◌^◌, ◌+◌, Bytes, List, [], ◌∷◌, ◌++◌, ◌≡◌, ◌≢◌, refl, ok, err, Result,
  length, str, arith, Bool, true, false, ap,
}
use syncy.Io.{Reader, piece, content, ending, eof}
use syncy.Hashing.{Hash}
use syncy.Chunker.{
  Config, Chunker, Chunk, new, word, trailing_zeros, boundary, refill, split, split_bytes, collect,
  SplitError,
}
use syncy.Chunker.Settings.{IsValid, new-IsValid}
use syncy.Chunker.Boundary.{boundary_bounds}
use syncy.Chunker.Blocks.{blocks, feed, split-feed}
use syncy.Chunker.Cover.{Covers, split_bytes-Covers}
use syncy.Fsafe.{FilePath, join, is_abs, clean}
use syncy.Fsafe.Cleaning.{NoClimb}
use syncy.Fsafe.Containment.{join-below}

abbrev small : Config
small = record { min = 2; avg = 4; max = 6 }

abbrev small_chunker : Chunker
small_chunker = record { cfg = small; mask = 3 }

small_chunker-new : new small ≡ ok small_chunker
unfolding new syncy.Chunker.validate syncy.Base.ℕ_discrete syncy.Chunker.ones_count
    syncy.Chunker.mask_of trailing_zeros
small_chunker-new = refl

new-IsValid_example :
    (small ≡ small) × IsValid small × (3 + 1 ≡ 4) × (2 ^ trailing_zeros word 4 ≡ 4)
new-IsValid_example = new-IsValid small small_chunker (omega arith) small_chunker-new

abbrev text : Bytes
text = str "syncing"

boundary_bounds_example :
    (0 < boundary small_chunker text)
    × (boundary small_chunker text ≤ length text)
    × (boundary small_chunker text ≤ 6)
    × ((2 ≤ boundary small_chunker text) ⊎ (boundary small_chunker text ≡ length text))
boundary_bounds_example =
    boundary_bounds small_chunker text (omega arith) (omega arith) (omega arith)

cut_early : boundary small_chunker text < length text
cut_early = omega (arith, boundary_bounds_example)

-- `text` in two reads.
abbrev two_reads : Reader
two_reads = piece (str "sync") ∷ piece (str "ing") ∷ []

two_reads-ending : ending two_reads ≡ eof
unfolding ending
two_reads-ending = refl

two_reads-content : content two_reads ≡ text
unfolding content
two_reads-content = refl

-- In place of SHA-256.
abbrev checksum : Bytes → Hash
checksum bs = length bs ∷ []

split-feed_example :
    split checksum {E = Unit {0}} collect small_chunker 8 two_reads []
    ≡ feed collect [] (blocks checksum small_chunker (content two_reads))
split-feed_example =
    split-feed checksum collect small_chunker (omega arith) (omega arith) 8 two_reads []
      two_reads-ending (omega (arith, ap length two_reads-content))

split_bytes-Covers_example :
    (chs : List Chunk) × (split_bytes checksum small_chunker 8 text ≡ ok chs)
    × Covers checksum small_chunker 0 text chs
split_bytes-Covers_example =
    split_bytes-Covers checksum small_chunker (omega arith) (omega arith) 8 text (omega arith)

abbrev notes : FilePath
notes = record { rooted = true; elems = str "home" ∷ str "notes.txt" ∷ [] }

notes-join : join (str "/home") (str "docs/../notes.txt") ≡ ok notes
unfolding join syncy.Fsafe.is_local is_abs syncy.Base.ℕ_discrete syncy.Base.list_eq
    syncy.Fsafe.elements clean syncy.Fsafe.clean_onto syncy.Fsafe.keep syncy.Fsafe.join_paths
notes-join = refl

join-below_example :
    (below : List Bytes) × NoClimb below
    × (below ≡ (clean (str "docs/../notes.txt")).elems)
    × (notes
        ≡ record { rooted = is_abs (str "/home"); elems = (clean (str "/home")).elems ++ below })
join-below_example =
    join-below (str "/home") (str "docs/../notes.txt") notes
      (λ e. absurd (omega (arith, ap length e))) notes-join
