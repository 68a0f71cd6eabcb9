-- ===== src/Chunker/Cover.antt =====
-- engine/internal/chunker/chunker.go: the blocks of some bytes and how they cover them.
use syncy.Base.{
  ℕ, zero, suc, ◌+◌, ◌≤◌, ◌<◌, ◌≡◌, ◌⊎◌, inl, inr, refl, ap, sym, ◌∙◌, Bytes, List, [], ◌∷◌, ◌++◌,
  arith, length, take, drop, ok, append_assoc, append-nil, length-drop, take-append-drop,
  drop-append_left, length-append, length-take,
}
use syncy.Hashing.{Hash}
use syncy.Io.{Reader, piece, content, ending, eof}
use syncy.Chunker.{Chunk, Chunker, boundary, split, split_bytes, collect}
use syncy.Chunker.Boundary.{boundary_bounds}
use syncy.Chunker.Blocks.{cut, blocks, cut-cons, cut-nil, feed, split-feed}

module _ (of_bytes : Bytes → Hash) (c : Chunker) where
  -- One block at the head of the bytes that are left.
  pub record IsBlock (offset : ℕ) (bs : Bytes) (ch : Chunk) (more : List Chunk) : Type 0 where
    pub here : ch.offset ≡ offset
    pub nonempty : 0 < ch.length_of
    pub fits : ch.length_of ≤ length bs
    pub at_most : ch.length_of ≤ c.cfg.max
    pub at_least : (c.cfg.min ≤ ch.length_of) ⊎ (more ≡ [])
    pub hashed : ch.hash ≡ of_bytes (take ch.length_of bs)

  -- The blocks lie one behind the other from an offset, and nothing is left behind the last.
  abbrev pub Covers : ℕ → Bytes → List Chunk → Type 0
  Covers offset bs [] = bs ≡ []
  Covers offset bs (ch ∷ more) =
      IsBlock offset bs ch more × Covers (offset + ch.length_of) (drop ch.length_of bs) more

  module _ (positive : 1 ≤ c.cfg.min) (ordered : c.cfg.min ≤ c.cfg.max) where
    cut-Covers :
        (n offset : ℕ) (bs : Bytes) → length bs ≤ n → Covers offset bs (cut of_bytes c n offset bs)
    cut-Covers n offset [] h = rw (cut-nil of_bytes c n offset [] refl)
    cut-Covers zero offset (b ∷ bs) h = absurd (omega arith)
    cut-Covers (suc n) offset (b ∷ bs) h =
        let whole : Bytes = b ∷ bs in
        let k = boundary c whole in
        let (pos, fits, most, least) = boundary_bounds c whole positive ordered (omega arith) in
        rw (cut-cons of_bytes c n offset whole (omega arith)) (
          record {
            here = refl;
            nonempty = pos;
            fits = fits;
            at_most = most;
            at_least = elim least [
              | inl p ↦ inl p
              | inr all ↦ inr (
                  cut-nil of_bytes c n (offset + k) (drop k whole)
                    (omega (arith, length-drop k whole)))
            ];
            hashed = refl;
          },
          cut-Covers n (offset + k) (drop k whole) (omega (arith, length-drop k whole)),
        )

    feed-collect : (acc chs : List Chunk) → feed {E = Unit {0}} collect acc chs ≡ ok (acc ++ chs)
    unfolding feed collect
    feed-collect acc [] = ap ok (sym (append-nil acc))
    feed-collect acc (ch ∷ chs) =
        feed-collect (acc ++ ch ∷ []) chs ∙ ap ok (append_assoc acc (ch ∷ []) chs)

    -- A stream that ends without an error is split into blocks that cover its bytes.
    pub split-Covers :
        (fuel : ℕ) (r : Reader)
        → ending r ≡ eof
        → length (content r) < fuel
        → (chs : List Chunk) × (split of_bytes {E = Unit {0}} collect c fuel r [] ≡ ok chs)
          × Covers 0 (content r) chs
    split-Covers fuel r ended h = (
      blocks of_bytes c (content r),
      split-feed of_bytes collect c positive ordered fuel r [] ended h
          ∙ feed-collect [] (blocks of_bytes c (content r)),
      (unfold blocks in cut-Covers (length (content r)) 0 (content r) (omega arith)),
    )

    -- `SplitBytes` returns, with more rounds than bytes, blocks that cover the bytes: each starts
    -- where the one before it ends, is not empty, is at most the maximum and, but for the last, at
    -- least the minimum, and carries the hash of its bytes; the sizes are positive and ordered.
    pub split_bytes-Covers :
        (fuel : ℕ) (bs : Bytes)
        → length bs < fuel
        → (chs : List Chunk) × (split_bytes of_bytes c fuel bs ≡ ok chs) × Covers 0 bs chs
    unfolding split_bytes
    split_bytes-Covers fuel bs h =
        let one : Reader = piece bs ∷ [] in
        let all : content one ≡ bs = unfold content in append-nil bs in
        let (chs, run, covers) = split-Covers fuel one (unfold ending in refl) (rw all h) in
        (chs, run, rw all at covers)

-- The bytes of a block, as a reader of the file finds them.
abbrev pub slice : Bytes → Chunk → Bytes
slice bs ch = take ch.length_of (drop ch.offset bs)

abbrev pub joined : Bytes → List Chunk → Bytes
joined bs [] = []
joined bs (ch ∷ chs) = slice bs ch ++ joined bs chs

module _ (of_bytes : Bytes → Hash) (c : Chunker) where
  joined-Covers :
      (front bs : Bytes) (chs : List Chunk)
      → Covers of_bytes c (length front) bs chs
      → joined (front ++ bs) chs ≡ bs
  joined-Covers front bs [] e = sym e
  joined-Covers front bs (ch ∷ chs) (block, rest) =
      let k = ch.length_of in
      let head : slice (front ++ bs) ch ≡ take k bs =
        rw block.here (ap (take k) (drop-append_left (length front) front bs refl)) in
      let front' : Bytes = front ++ take k bs in
      let same : front' ++ drop k bs ≡ front ++ bs =
        append_assoc front (take k bs) (drop k bs) ∙ ap (λ t. front ++ t) (take-append-drop k bs) in
      let len : length front' ≡ length front + k =
        omega (arith, length-append front (take k bs), length-take k bs, block.fits) in
      let ih = joined-Covers front' (drop k bs) chs (rw len rest) in
      ap (λ t. t ++ joined (front ++ bs) chs) head
      ∙ ap (λ t. take k bs ++ t) (ap (λ w. joined w chs) (sym same) ∙ ih)
      ∙ take-append-drop k bs

  -- Reading the blocks one after the other, each at its offset and length, gives the bytes back.
  pub joined-blocks :
      (bs : Bytes) → 1 ≤ c.cfg.min → c.cfg.min ≤ c.cfg.max → joined bs (blocks of_bytes c bs) ≡ bs
  joined-blocks bs positive ordered =
      joined-Covers [] bs (blocks of_bytes c bs)
        (unfold blocks in cut-Covers of_bytes c positive ordered (length bs) 0 bs (omega arith))
