-- ===== src/Io/Laws.antt =====
-- `io.ReadFull` by the bytes of the stream.
use syncy.Base.{
  ℕ, zero, suc, ◌-◌, ◌≤◌, ◌<◌, Bytes, [], ◌∷◌, ◌++◌, ◌≡◌, refl, ap, sym, ◌∙◌, leb, length, take,
  drop, true, ok, err, arith, append_assoc, append-nil, Bool-cases, inl, inr, length-append,
  take-append_short, drop-append_short, leb→le, take-append_long, drop-append_long,
}
use syncy.Io.{
  piece, fail, Reader, content, ending, read_full, read_full_from, Read, IoError, eof,
  unexpected_eof, failed, at_eof,
}

-- The outcome of wanting `n` bytes more of a stream, by its content alone.
pub record ReadsFull (got : Bytes) (n : ℕ) (r : Reader) (out : Read Bytes) : Type 0 where
  pub value : out.0 ≡ ok (got ++ take n (content r))
  pub left : content out.1 ≡ drop n (content r)
  pub end : ending out.1 ≡ ending r

read_full_from-ReadsFull :
    (got : Bytes) (n : ℕ) (r : Reader)
    → n ≤ length (content r)
    → ReadsFull got n r (read_full_from got n r)
unfolding read_full_from content ending
read_full_from-ReadsFull got zero r h = record {
  value = ap ok (sym (append-nil got));
  left = refl;
  end = refl;
}
read_full_from-ReadsFull got (suc n) [] h = absurd (omega arith)
read_full_from-ReadsFull got (suc n) (fail ∷ r) h = absurd (omega arith)
read_full_from-ReadsFull got (suc n) (piece bs ∷ r) h =
    elim (Bool-cases (leb (length bs) (suc n))) [
      | inl le ↦
          let fits : length bs ≤ suc n = leb→le (length bs) (suc n) le in
          let ih =
            read_full_from-ReadsFull (got ++ bs) (suc n - length bs) r
              (omega (arith, length-append bs (content r))) in
          rw le (record {
            value =
                ih.value
                ∙ ap ok (
                    append_assoc got bs (take (suc n - length bs) (content r))
                    ∙ ap (λ t. got ++ t) (sym (take-append_long (suc n) bs (content r) fits)));
            left = ih.left ∙ sym (drop-append_long (suc n) bs (content r) fits);
            end = ih.end;
          })
      | inr gt ↦
          let short : suc n ≤ length bs = ground arith in
          rw gt (record {
            value = ap (λ t. ok (got ++ t)) (sym (take-append_short (suc n) bs (content r) short));
            left = sym (drop-append_short (suc n) bs (content r) short);
            end = refl;
          })
    ]

-- `io.ReadFull` of a stream that holds enough bytes takes them and leaves the rest, however the
-- stream is cut into reads.
pub read_full-ReadsFull :
    (n : ℕ) (r : Reader) → n ≤ length (content r) → ReadsFull [] n r (read_full n r)
unfolding read_full
read_full-ReadsFull n r h = read_full_from-ReadsFull [] n r h

-- The error of a stream that ends too soon, by what was read of it.
abbrev pub short_error : IoError → Bytes → IoError
short_error eof got = at_eof got
short_error unexpected_eof got = unexpected_eof
short_error failed got = failed

read_full_from_short :
    (got : Bytes) (n : ℕ) (r : Reader)
    → length (content r) < n
    → (read_full_from got n r).0 ≡ err (short_error (ending r) (got ++ content r))
unfolding read_full_from content ending
read_full_from_short got zero r h = absurd (omega arith)
read_full_from_short got (suc n) [] h = ap (λ t. err (at_eof t)) (sym (append-nil got))
read_full_from_short got (suc n) (fail ∷ r) h = refl
read_full_from_short got (suc n) (piece bs ∷ r) h =
    let fits : length bs ≤ suc n = omega (arith, length-append bs (content r)) in
    let le : leb (length bs) (suc n) ≡ true = ground arith in
    rw le (
      read_full_from_short (got ++ bs) (suc n - length bs) r
        (omega (arith, length-append bs (content r)))
      ∙ ap (λ t. err (short_error (ending r) t)) (append_assoc got bs (content r)))

-- `io.ReadFull` of a stream that holds too few bytes is an error: a clean end only before the
-- first byte.
pub read_full_short :
    (n : ℕ) (r : Reader)
    → length (content r) < n
    → (read_full n r).0 ≡ err (short_error (ending r) (content r))
unfolding read_full
read_full_short n r h = read_full_from_short [] n r h

read_full_from_drained :
    (got : Bytes) (n : ℕ) (r : Reader)
    → length (content r) < n
    → content (read_full_from got n r).1 ≡ []
unfolding read_full_from content
read_full_from_drained got zero r h = absurd (omega arith)
read_full_from_drained got (suc n) [] h = refl
read_full_from_drained got (suc n) (fail ∷ r) h = refl
read_full_from_drained got (suc n) (piece bs ∷ r) h =
    let fits : length bs ≤ suc n = omega (arith, length-append bs (content r)) in
    let le : leb (length bs) (suc n) ≡ true = ground arith in
    rw le (
      read_full_from_drained (got ++ bs) (suc n - length bs) r
        (omega (arith, length-append bs (content r))))

-- Then nothing is left of it before its end.
pub read_full_drained :
    (n : ℕ) (r : Reader) → length (content r) < n → content (read_full n r).1 ≡ []
unfolding read_full
read_full_drained n r h = read_full_from_drained [] n r h
