-- ===== src/Chunker/Boundary.antt =====
-- engine/internal/chunker/chunker.go: where `boundary` cuts.
use Prim.Native.Nat.{bit_and}
use syncy.Base.{
  ℕ, ◌+◌, ◌≤◌, ◌<◌, ◌≡◌, ◌⊎◌, inl, inr, ap, sym, ◌∙◌, Bytes, [], ◌∷◌, ◌++◌, ◌&&◌, true, false, ltb,
  leb, ◌==◌, nat_eq, length, take, arith, Bool-cases, length-append, length-take, take-append_short,
  take-append_long, take-all, leb→le, ◌-◌, Bool,
}
use syncy.Chunker.{Chunker, scan, roll, boundary}

module _ (low mask : ℕ) where
  -- The test of the loop at index `i`.
  abbrev cuts : ℕ → ℕ → ℕ → Bool
  cuts i fp b = leb low (i + 1) && (bit_and (roll fp b) mask == 0)

  scan_bounds :
      (i fp : ℕ) (bs : Bytes)
      → (i ≤ scan low mask i fp bs)
        × (scan low mask i fp bs ≤ i + length bs)
        × ((low ≤ scan low mask i fp bs) ⊎ (scan low mask i fp bs ≡ i + length bs))
        × ((0 < length bs) → i < scan low mask i fp bs)
  unfolding scan
  scan_bounds i fp [] = (omega arith, omega arith, inr (omega arith), λ h. absurd (omega arith))
  scan_bounds i fp (b ∷ bs) = elim (Bool-cases (cuts i fp b)) [
    | inl cut ↦ rw cut (omega arith, omega arith, inl (ground arith), λ h. omega arith)
    | inr on ↦
        let (above, below, kind, more) = scan_bounds (i + 1) (roll fp b) bs in
        rw on (
          omega arith,
          omega arith,
          (elim kind [ inl p ↦ inl p | inr p ↦ inr (omega arith) ]),
          λ h. omega arith,
        )
  ]

  -- A cut before the end stays where it is when more bytes follow.
  scan-append :
      (i fp : ℕ) (bs more : Bytes)
      → scan low mask i fp bs < i + length bs
      → scan low mask i fp (bs ++ more) ≡ scan low mask i fp bs
  unfolding scan
  scan-append i fp [] more h = absurd (omega arith)
  scan-append i fp (b ∷ bs) more h = elim (Bool-cases (cuts i fp b)) [
    | inl cut ↦ rw cut
    | inr on ↦
        let later : scan low mask (i + 1) (roll fp b) bs < i + 1 + length bs =
          omega (arith, rw on at h) in
        rw on (scan-append (i + 1) (roll fp b) bs more later)
  ]

-- `boundary` of a buffer, as the scan of a part of it or its length.
boundary_short : (c : Chunker) (bs : Bytes) → length bs ≤ c.cfg.min → boundary c bs ≡ length bs
unfolding boundary
boundary_short c bs h = let e : leb (length bs) c.cfg.min ≡ true = ground arith in rw e

boundary_long :
    (c : Chunker) (bs : Bytes)
    → c.cfg.min < length bs
    → boundary c bs ≡ scan c.cfg.min c.mask 0 0 (take c.cfg.max bs)
unfolding boundary
boundary_long c bs h = let e : leb (length bs) c.cfg.min ≡ false = ground arith in rw e

-- A block of a non-empty buffer is not empty, not longer than the buffer or the maximum, and
-- below the minimum only if it is the whole buffer; the minimum is positive and at most the
-- maximum.
pub boundary_bounds :
    (c : Chunker) (bs : Bytes)
    → 1 ≤ c.cfg.min
    → c.cfg.min ≤ c.cfg.max
    → 0 < length bs
    → (0 < boundary c bs)
      × (boundary c bs ≤ length bs)
      × (boundary c bs ≤ c.cfg.max)
      × ((c.cfg.min ≤ boundary c bs) ⊎ (boundary c bs ≡ length bs))
boundary_bounds c bs pos ord some_bytes = elim (Bool-cases (leb (length bs) c.cfg.min)) [
  | inl le ↦
      let e = boundary_short c bs (ground arith) in
      let fits : length bs ≤ c.cfg.min = ground arith in
      (omega (arith, e), omega (arith, e), omega (arith, e), inr e)
  | inr gt ↦
      let long : c.cfg.min < length bs = ground arith in
      let e = boundary_long c bs long in
      let (_, below, kind, more) = scan_bounds c.cfg.min c.mask 0 0 (take c.cfg.max bs) in
      let len = length-take c.cfg.max bs in
      (
        omega (arith, e, len, more),
        omega (arith, e, len, below),
        omega (arith, e, len, below),
        elim kind [ inl p ↦ inl (omega (arith, e)) | inr p ↦ inl (omega (arith, e, len)) ],
      )
]

-- More bytes behind a full buffer change nothing.
pub boundary-append_full :
    (c : Chunker) (bs more : Bytes)
    → c.cfg.min ≤ c.cfg.max
    → c.cfg.max ≤ length bs
    → boundary c (bs ++ more) ≡ boundary c bs
boundary-append_full c bs more ord full = elim (Bool-cases (ltb c.cfg.min (length bs))) [
  | inl long ↦
      let lt : c.cfg.min < length bs = ground arith in
      boundary_long c (bs ++ more) (omega (arith, length-append bs more))
      ∙ ap (scan c.cfg.min c.mask 0 0) (take-append_short c.cfg.max bs more full)
      ∙ sym (boundary_long c bs lt)
  | inr tight ↦
      let small : length bs ≤ c.cfg.min = ground arith in
      let e = boundary_short c bs small in
      elim (Bool-cases (ltb c.cfg.min (length (bs ++ more)))) [
        | inl long ↦
            let lt : c.cfg.min < length (bs ++ more) = ground arith in
            let (_, below, kind, _) =
              scan_bounds c.cfg.min c.mask 0 0 (take c.cfg.max (bs ++ more)) in
            let len = length-take c.cfg.max (bs ++ more) in
            let e' = boundary_long c (bs ++ more) lt in
            elim kind [
              | inl p ↦ omega (arith, e, e', len, below)
              | inr p ↦ omega (arith, e, e', len)
            ]
        | inr same ↦
            let le : length (bs ++ more) ≤ c.cfg.min = ground arith in
            omega (arith, e, boundary_short c (bs ++ more) le, length-append bs more)
      ]
]

-- A cut before the end of the data does not depend on what follows the data: equal beginnings
-- give equal blocks.
pub boundary-append :
    (c : Chunker) (bs more : Bytes)
    → c.cfg.min ≤ c.cfg.max
    → boundary c bs < length bs
    → boundary c (bs ++ more) ≡ boundary c bs
boundary-append c bs more ord cut = elim (Bool-cases (leb c.cfg.max (length bs))) [
  | inl full ↦ boundary-append_full c bs more ord (leb→le c.cfg.max (length bs) full)
  | inr open_end ↦
      let short : length bs ≤ c.cfg.max = ground arith in
      elim (Bool-cases (leb (length bs) c.cfg.min)) [
        | inl small ↦ absurd (omega (arith, boundary_short c bs (leb→le _ _ small)))
        | inr large ↦
            let lt : c.cfg.min < length bs = ground arith in
            let e =
              boundary_long c bs lt
              ∙ ap (scan c.cfg.min c.mask 0 0) (take-all c.cfg.max bs short) in
            boundary_long c (bs ++ more) (omega (arith, length-append bs more))
            ∙ ap (scan c.cfg.min c.mask 0 0) (take-append_long c.cfg.max bs more short)
            ∙ scan-append c.cfg.min c.mask 0 0 bs (take (c.cfg.max - length bs) more)
                (omega (arith, e))
            ∙ sym e
      ]
]
