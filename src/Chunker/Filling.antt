-- ===== src/Chunker/Filling.antt =====
-- engine/internal/chunker/chunker.go: the inner loop of `Split`, which fills the buffer.
use syncy.Base.{
  ℕ, ◌-◌, ◌≤◌, ◌≡◌, ◌⊎◌, inl, inr, refl, ap, sym, ◌∙◌, Bytes, [], ◌∷◌, ◌++◌, true, false, Bool,
  arith, ltb, leb, length, take, drop, Bool-cases, length-append, append_assoc, take-append-drop,
  length-take,
}
use syncy.Io.{Reader, piece, fail, content, ending, eof}
use syncy.Chunker.{Filled, buffer, fill, refill}

-- The state behind the loop, for the bytes `whole` that were buffered or still to be read.
pub record IsFilled (max : ℕ) (whole buf : Bytes) (ended : Bool) (r : Reader) : Type 0 where
  pub bytes : buf ++ content r ≡ whole
  pub fits : length buf ≤ max
  pub full : (length buf ≡ max) ⊎ (ended ≡ true)
  pub drained : ended ≡ true → content r ≡ []
  pub end : ending r ≡ eof

abbrev pub Fills : ℕ → Bytes → Filled → Type 0
Fills max whole out =
    (buf : Bytes) × (ended : Bool) × (r : Reader) × (out ≡ buffer buf ended r)
    × IsFilled max whole buf ended r

fill-Fills :
    (max : ℕ) (buf : Bytes) (r : Reader)
    → length buf ≤ max
    → ending r ≡ eof
    → Fills max (buf ++ content r) (fill max buf r)
unfolding fill content ending
fill-Fills max buf [] fits e = (
  buf,
  ltb (length buf) max,
  [],
  refl,
  record { bytes = refl; fits = fits; full = ground arith; drained = λ _. refl; end = refl },
)
fill-Fills max buf (fail ∷ r) fits e = cc
fill-Fills max buf (piece bs ∷ r) fits e = elim (Bool-cases (leb max (length buf))) [
  | inl full ↦ rw full (
    buf,
    false,
    piece bs ∷ r,
    refl,
    record { bytes = refl; fits = fits; full = inl (ground arith); drained = λ p. cc; end = e },
  )
  | inr room ↦ elim (Bool-cases (leb (length bs) (max - length buf))) [
    | inl whole ↦
        let fits' : length (buf ++ bs) ≤ max = ground (arith, length-append buf bs) in
        let (buf', ended, r', out, filled) = fill-Fills max (buf ++ bs) r fits' e in
        rw (room, whole)
          (
            buf',
            ended,
            r',
            out,
            record {
              bytes = filled.bytes ∙ append_assoc buf bs (content r);
              fits = filled.fits;
              full = filled.full;
              drained = filled.drained;
              end = filled.end;
            },
          )
    | inr part ↦
        let n : ℕ = max - length buf in
        let len : length (buf ++ take n bs) ≡ max =
          ground (arith, length-append buf (take n bs), length-take n bs) in
        rw (room, part)
          (
            buf ++ take n bs,
            false,
            piece (drop n bs) ∷ r,
            refl,
            record {
              bytes =
                  append_assoc buf (take n bs) (drop n bs ++ content r)
                  ∙ ap (λ t. buf ++ t)
                      (sym (append_assoc (take n bs) (drop n bs) (content r))
                        ∙ ap (λ t. t ++ content r) (take-append-drop n bs));
              fits = omega (arith, len);
              full = inl len;
              drained = λ p. cc;
              end = e;
            },
          )
  ]
]

-- A stream whose reads do not fail fills the buffer, from any earlier state.
pub refill-Fills :
    (max : ℕ) (buf : Bytes) (ended : Bool) (r : Reader)
    → length buf ≤ max
    → (ended ≡ true → content r ≡ [])
    → ending r ≡ eof
    → Fills max (buf ++ content r) (refill max buf ended r)
unfolding refill
refill-Fills max buf true r fits drained e = (
  buf,
  true,
  r,
  refl,
  record { bytes = refl; fits = fits; full = inr refl; drained = drained; end = e },
)
refill-Fills max buf false r fits drained e = fill-Fills max buf r fits e
