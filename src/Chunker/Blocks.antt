-- ===== src/Chunker/Blocks.antt =====
-- `Split` against the blocks that the bytes of the stream determine.
use syncy.Base.{
  ℕ, zero, suc, ◌+◌, ◌-◌, ◌≤◌, ◌<◌, ◌≡◌, inl, inr, refl, ap, sym, ◌∙◌, Bytes, List, [], ◌∷◌, ◌++◌,
  ◌&&◌, true, false, Bool, arith, ◌==◌, nat_eq, if◌then◌else◌, length, take, drop, Bool-cases,
  length-append, append-nil, Result, ok, err, Result-cases, length-drop, take-append_short,
  drop-append_short,
}
use syncy.Hashing.{Hash}
use syncy.Io.{Reader, content, ending, eof}
use syncy.Chunker.{
  Chunk, Chunker, SplitError, callback, boundary, round, split_loop, split, chunk_at,
}
use syncy.Chunker.Boundary.{boundary_bounds, boundary-append_full}
use syncy.Chunker.Filling.{IsFilled, refill-Fills}

module _ (of_bytes : Bytes → Hash) (c : Chunker) where
  -- The blocks of some bytes at an offset: cut the first one and go on behind it. The number
  -- bounds the blocks; one for each byte is enough.
  unfoldable pub cut : ℕ → ℕ → Bytes → List Chunk
  cut zero offset bs = []
  cut (suc n) offset [] = []
  cut (suc n) offset (b ∷ bs) =
      let k = boundary c (b ∷ bs) in
      record { offset = offset; length_of = k; hash = of_bytes (take k (b ∷ bs)) }
      ∷ cut n (offset + k) (drop k (b ∷ bs))

  unfoldable pub blocks : Bytes → List Chunk
  blocks bs = cut (length bs) 0 bs

  pub cut-cons :
      (n offset : ℕ) (bs : Bytes)
      → 0 < length bs
      → cut (suc n) offset bs
        ≡ record {
          offset = offset;
          length_of = boundary c bs;
          hash = of_bytes (take (boundary c bs) bs);
        }
          ∷ cut n (offset + boundary c bs) (drop (boundary c bs) bs)
  unfolding cut
  cut-cons n offset [] h = absurd (omega arith)
  cut-cons n offset (b ∷ bs) h = refl

  pub cut-nil : (n offset : ℕ) (bs : Bytes) → length bs ≡ 0 → cut n offset bs ≡ []
  unfolding cut
  cut-nil zero offset bs h = refl
  cut-nil (suc n) offset [] h = refl
  cut-nil (suc n) offset (b ∷ bs) h = absurd (omega arith)

-- The callback called on each block in turn, up to its first error.
unfoldable pub feed :
    {S E : Type 0} → (S → Chunk → Result E S) → S → List Chunk → Result (SplitError E) S
feed fn s [] = ok s
feed fn s (ch ∷ chs) = elim (fn s ch) [ ok s' ↦ feed fn s' chs | err e ↦ err (callback e) ]

module _ {S E : Type 0} (fn : S → Chunk → Result E S) where
  feed-ok :
      (s s' : S) (ch : Chunk) (chs : List Chunk)
      → fn s ch ≡ ok s'
      → feed fn s (ch ∷ chs) ≡ feed fn s' chs
  unfolding feed
  feed-ok s s' ch chs e = rw (e, feed)

  feed-err :
      (s : S) (e : E) (ch : Chunk) (chs : List Chunk)
      → fn s ch ≡ err e
      → feed fn s (ch ∷ chs) ≡ err (callback e)
  unfolding feed
  feed-err s e ch chs h = rw (h, feed)

module _ (of_bytes : Bytes → Hash) {S E : Type 0} (fn : S → Chunk → Result E S) (c : Chunker)
    (positive : 1 ≤ c.cfg.min) (ordered : c.cfg.min ≤ c.cfg.max) where
  -- The first block of a filled buffer is the first block of all the bytes that are left.
  boundary-IsFilled :
      (whole buf : Bytes) (ended : Bool) (r : Reader)
      → IsFilled c.cfg.max whole buf ended r
      → boundary c whole ≡ boundary c buf
  boundary-IsFilled whole buf ended r filled = elim filled.full [
    | inl full ↦
        ap (boundary c) (sym filled.bytes)
        ∙ boundary-append_full c buf (content r) ordered (omega arith)
    | inr done ↦
        ap (boundary c)
          (sym filled.bytes ∙ ap (λ t. buf ++ t) (filled.drained done) ∙ append-nil buf)
  ]

  IsFilled-empty :
      (whole buf : Bytes) (ended : Bool) (r : Reader)
      → IsFilled c.cfg.max whole buf ended r
      → length buf ≡ 0
      → length whole ≡ 0
  IsFilled-empty whole buf ended r filled h = elim filled.full [
    | inl full ↦ absurd (omega arith)
    | inr done ↦ omega (
      arith,
      ap length filled.bytes,
      length-append buf (content r),
      ap length (filled.drained done),
    )
  ]

  abbrev Agrees : ℕ → Type 0
  Agrees fuel =
      (offset : ℕ) (buf : Bytes) (ended : Bool) (r : Reader) (s : S) (n : ℕ)
      → length buf ≤ c.cfg.max
      → (ended ≡ true → content r ≡ [])
      → ending r ≡ eof
      → length (buf ++ content r) < fuel
      → length (buf ++ content r) ≤ n
      → split_loop of_bytes fn c fuel offset buf ended r s
        ≡ feed fn s (cut of_bytes c n offset (buf ++ content r))

  abbrev first : ℕ → Bytes → Chunk
  first offset buf = chunk_at of_bytes fn c offset (boundary c buf) buf

  cut-IsFilled :
      (n offset : ℕ) (whole buf : Bytes) (ended : Bool) (r : Reader)
      → IsFilled c.cfg.max whole buf ended r
      → 0 < length buf
      → cut of_bytes c (suc n) offset whole
        ≡ first offset buf
          ∷ cut of_bytes c n (offset + boundary c buf) (drop (boundary c buf) buf ++ content r)
  cut-IsFilled n offset whole buf ended r filled some_bytes =
      let k = boundary c buf in
      let (_, fits, _, _) = boundary_bounds c buf positive ordered some_bytes in
      let same = boundary-IsFilled whole buf ended r filled in
      let nonempty : 0 < length whole =
        omega (arith, ap length filled.bytes, length-append buf (content r)) in
      cut-cons of_bytes c n offset whole nonempty
      ∙ rw (
        same,
        ← filled.bytes,
        take-append_short k buf (content r) fits,
        drop-append_short k buf (content r) fits,
      )

  -- The end of a round, behind the callback.
  round_end :
      (fuel : ℕ)
      → Agrees fuel
      → (offset : ℕ) (rest : Bytes) (ended : Bool) (r : Reader) (s : S) (n : ℕ)
      → length rest ≤ c.cfg.max
      → (ended ≡ true → content r ≡ [])
      → ending r ≡ eof
      → length (rest ++ content r) < fuel
      → length (rest ++ content r) ≤ n
      → (if (length rest == 0) && ended
          then ok s
          else split_loop of_bytes fn c fuel offset rest ended r s)
        ≡ feed fn s (cut of_bytes c n offset (rest ++ content r))
  round_end fuel next offset rest ended r s n fits drained e lf ln =
      elim (Bool-cases ((length rest == 0) && ended)) [
        | inl done ↦
            let none_left : length rest ≡ 0 = ground arith in
            let over : ended ≡ true = ground arith in
            let nil =
              cut-nil of_bytes c n offset (rest ++ content r)
                (omega (arith, length-append rest (content r), ap length (drained over))) in
            rw (done, nil) (unfold feed in refl)
        | inr more ↦ rw more (next offset rest ended r s n fits drained e lf ln)
      ]

  -- One round, if the next ones agree with the blocks that are left.
  round-feed :
      (fuel : ℕ)
      → Agrees fuel
      → (offset : ℕ) (whole buf : Bytes) (ended : Bool) (r : Reader) (s : S) (n : ℕ)
      → IsFilled c.cfg.max whole buf ended r
      → length whole ≤ fuel
      → length whole ≤ n
      → round of_bytes fn c (split_loop of_bytes fn c fuel) offset buf ended r s
        ≡ feed fn s (cut of_bytes c n offset whole)
  unfolding round
  round-feed fuel next offset whole buf ended r s n filled lf ln =
      elim (Bool-cases (length buf == 0)) [
        | inl empty ↦
            let none_left : length buf ≡ 0 = ground arith in
            let nil = IsFilled-empty whole buf ended r filled none_left in
            rw (empty, cut-nil of_bytes c n offset whole nil) (unfold feed in refl)
        | inr some_bytes ↦
            let pos : 0 < length buf = ground arith in
            let total = ap length filled.bytes in
            let k = boundary c buf in
            let (kpos, kfits, _, _) = boundary_bounds c buf positive ordered pos in
            let nz : n ≡ suc (n - 1) = omega (arith, total, length-append buf (content r)) in
            let cuts =
              ap (λ (m : ℕ). cut of_bytes c m offset whole) nz
              ∙ cut-IsFilled (n - 1) offset whole buf ended r filled pos in
            elim (Result-cases (fn s (first offset buf))) [
              | inr (e, failed) ↦
                  rw (some_bytes, cuts, failed) (sym (feed-err fn s e (first offset buf) _ failed))
              | inl (s', called) ↦
                  let len = length-append (drop k buf) (content r) in
                  let shorter : suc (length (drop k buf ++ content r)) ≤ length whole =
                    omega (arith, total, length-append buf (content r), len, length-drop k buf) in
                  let ends =
                    round_end fuel next (offset + k) (drop k buf) ended r s' (n - 1)
                      (omega (arith, length-drop k buf, filled.fits)) filled.drained filled.end
                      (omega arith) (omega arith) in
                  rw (some_bytes, cuts, called)
                    (ends ∙ sym (feed-ok fn s s' (first offset buf) _ called))
            ]
      ]

  split_loop-feed : (fuel : ℕ) → Agrees fuel
  unfolding split_loop
  split_loop-feed zero offset buf ended r s n fits drained e lf ln = absurd (omega arith)
  split_loop-feed (suc fuel) offset buf ended r s n fits drained e lf ln =
      let (full, ended', r', out, filled) = refill-Fills c.cfg.max buf ended r fits drained e in
      rw (out, split_loop)
        (round-feed fuel (split_loop-feed fuel) offset (buf ++ content r) full ended' r' s n filled
          (omega arith) ln)

  -- `Split` of a stream that ends without an error calls the callback on the blocks of the
  -- stream's bytes, in order, and stops at the callback's first error. The blocks depend on the
  -- bytes alone, not on how the reads cut the stream. Rounds above the number of bytes are enough
  -- for the loop to end; the sizes are positive and ordered.
  pub split-feed :
      (fuel : ℕ) (r : Reader) (s : S)
      → ending r ≡ eof
      → length (content r) < fuel
      → split of_bytes fn c fuel r s ≡ feed fn s (blocks of_bytes c (content r))
  unfolding split blocks
  split-feed fuel r s e lf =
      split_loop-feed fuel 0 [] false r s (length (content r)) (omega arith) (λ p. cc) e lf
        (omega arith)
