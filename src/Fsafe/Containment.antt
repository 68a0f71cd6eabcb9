-- ===== src/Fsafe/Containment.antt =====
-- engine/internal/fsafe/fsafe.go: where the paths that `Join` accepts lie.
use mathlib.Core.List.{reverse, reverse-append}
use syncy.Base.{
  ℕ, Bytes, true, false, List, [], ◌∷◌, ◌++◌, ◌≡◌, ◌≢◌, refl, ap, ◌∙◌, nat_eq, list_eq, ok, sym,
  append-nil, arith,
}
use syncy.Fsafe.{
  elements, is_abs, keep, clean_onto, FilePath, clean, climbs, is_local, join_paths, join,
}
use syncy.Fsafe.Cleaning.{
  NoClimb, clean_onto-append, reverse-NoClimb, is_local-climbs, elements-append, clean_onto-concat,
}

pub join-ok :
    (base rel : Bytes) (p : FilePath)
    → join base rel ≡ ok p
    → (is_local rel ≡ true) × (p ≡ join_paths base rel)
unfolding join
join-ok base rel p h = ground arith

pub join_paths-cons :
    (b : ℕ) (base rel : Bytes)
    → rel ≢ []
    → join_paths (b ∷ base) rel ≡ clean ((b ∷ base) ++ b'/' ∷ rel)
unfolding join_paths
join_paths-cons b base [] ne = absurd (ne refl)
join_paths-cons b base (r ∷ rel) ne = refl

-- A relative path that does not climb, below a base.
pub join_paths-below :
    (b : ℕ) (base rel : Bytes)
    → climbs (reverse (clean_onto false [] (elements rel))) ≡ false
    → join_paths (b ∷ base) rel ≡ record {
      rooted = is_abs (b ∷ base);
      elems = (clean (b ∷ base)).elems ++ reverse (clean_onto false [] (elements rel));
    }
unfolding is_abs list_eq
join_paths-below b base [] calm =
    unfold join_paths clean elements clean_onto keep in
    ap (λ es. record { rooted = is_abs (b ∷ base); elems = es })
      (sym (append-nil (clean (b ∷ base)).elems))
join_paths-below b base (r ∷ rel) calm =
    let whole : Bytes = b ∷ base in
    let kept = clean_onto (is_abs whole) [] (elements whole) in
    let (stacked, real) = clean_onto-append (is_abs whole) kept [] (elements (r ∷ rel)) tt calm in
    join_paths-cons b base (r ∷ rel) (λ e. cc e)
    ∙ (unfold clean in
        ap (λ es. record { rooted = is_abs whole; elems = reverse es })
          (ap (clean_onto (is_abs whole) []) (elements-append whole (r ∷ rel))
            ∙ clean_onto-concat (is_abs whole) [] (elements whole) (elements (r ∷ rel))
            ∙ stacked)
        ∙ ap (λ es. record { rooted = is_abs whole; elems = es })
            (reverse-append (clean_onto false [] (elements (r ∷ rel))) kept))

-- A path that `Join` returns is the cleaned base with the cleaned relative path behind it, and
-- that part climbs nowhere: the result lies below the base. The base is not empty.
pub join-below :
    (base rel : Bytes) (p : FilePath)
    → base ≢ []
    → join base rel ≡ ok p
    → (below : List Bytes) × NoClimb below
      × (below ≡ (clean rel).elems)
      × (p ≡ record { rooted = is_abs base; elems = (clean base).elems ++ below })
unfolding is_abs
join-below [] rel p nonempty h = absurd (nonempty refl)
join-below (b ∷ base) rel p nonempty h =
    let (good, shape) = join-ok (b ∷ base) rel p h in
    let (relative, some_bytes, calm) = is_local-climbs rel good in
    let (stacked, real) = clean_onto-append false [] [] (elements rel) tt calm in
    (
      reverse (clean_onto false [] (elements rel)),
      reverse-NoClimb (clean_onto false [] (elements rel)) real,
      unfold clean in rw relative,
      shape ∙ join_paths-below b base rel calm,
    )
