-- ===== src/Fsafe/Below.antt =====
-- The paths below a directory, by their cleaned elements.
use mathlib.Core.List.{reverse}
use syncy.Base.{
  ℕ, Bytes, Bool, true, false, not, List, [], ◌∷◌, ◌++◌, ◌&&◌, ◌==◌, ◌≡◌, ◌≢◌, refl, sym, ap, ◌∙◌,
  nat_eq, list_eq, if◌then◌else◌, eq_refl, eq_of_beq, Bool-cases, inl, inr,
}
use syncy.Fs.{path_eq}
use syncy.Fsafe.{FilePath, clean, is_abs, climbs, elements, clean_onto}
use syncy.Fsafe.Containment.{join_paths-below, join_paths-cons}

abbrev pub same : Bool → Bool → Bool
same true b = b
same false b = not b

-- The elements begin with those of a directory.
unfoldable pub starts : List Bytes → List Bytes → Bool
starts [] es = true
starts (d ∷ ds) [] = false
starts (d ∷ ds) (e ∷ es) = let rest = starts ds es in if d == e then rest else false

-- The path is the directory or lies below it.
unfoldable pub below_dir : Bytes → FilePath → Bool
unfolding starts
below_dir dir q = same q.rooted (is_abs dir) && starts (clean dir).elems q.elems

starts-append : (ds es : List Bytes) → starts ds (ds ++ es) ≡ true
unfolding starts
starts-append [] es = refl
starts-append (d ∷ ds) es = rw (eq_refl d) (starts-append ds es)

starts_part : (ds es fs : List Bytes) → starts (ds ++ es) fs ≡ true → starts ds fs ≡ true
unfolding starts
starts_part [] es fs h = refl
starts_part (d ∷ ds) es [] h = cc h
starts_part (d ∷ ds) es (f ∷ fs) h = elim (Bool-cases (d == f)) [
  | inl e ↦ rw e (starts_part ds es fs (rw e at h))
  | inr ne ↦ absurd (cc (rw ne at h))
]

same_refl : (b : Bool) → same b b ≡ true
same_refl true = refl
same_refl false = refl

-- A path that is the directory with elements behind it.
pub below_dir-shape :
    (dir : Bytes) (p : FilePath) (below : List Bytes)
    → p ≡ record { rooted = is_abs dir; elems = (clean dir).elems ++ below }
    → below_dir dir p ≡ true
unfolding below_dir
below_dir-shape dir p below shape =
    rw shape (rw (same_refl (is_abs dir)) (starts-append (clean dir).elems below))

-- A path that is not below the directory is none of those below it.
pub below_dir_apart :
    (dir : Bytes) (p q : FilePath)
    → below_dir dir p ≡ true
    → below_dir dir q ≡ false
    → (q == p) ≡ false
below_dir_apart dir p q inside outside = elim (Bool-cases (q == p)) [
  | inr ne ↦ ne
  | inl e ↦ absurd (cc (inside, outside, eq_of_beq q p e))
]

below_dir-elems :
    (dir : Bytes) (q : FilePath) (es : List Bytes)
    → (clean dir).elems ≡ es
    → below_dir dir q ≡ same q.rooted (is_abs dir) && starts es q.elems
unfolding below_dir
below_dir-elems dir q es e = ap (λ ds. same q.rooted (is_abs dir) && starts ds q.elems) e

narrower : (a x y : Bool) → (y ≡ true → x ≡ true) → a && x ≡ false → a && y ≡ false
narrower false x y f h = refl
narrower true x false f h = refl
narrower true x true f h = absurd (cc (f refl, h))

-- What lies below a directory of a directory lies below that one.
pub below_dir_nested :
    (b : ℕ) (base rel : Bytes) (q : FilePath)
    → rel ≢ []
    → climbs (reverse (clean_onto false [] (elements rel))) ≡ false
    → below_dir (b ∷ base) q ≡ false
    → below_dir ((b ∷ base) ++ b'/' ∷ rel) q ≡ false
unfolding is_abs
below_dir_nested b base rel q ne calm out =
    let es = (clean (b ∷ base)).elems in
    let deeper = reverse (clean_onto false [] (elements rel)) in
    below_dir-elems ((b ∷ base) ++ b'/' ∷ rel) q (es ++ deeper)
      (ap (λ p. p.elems) (sym (join_paths-cons b base rel ne) ∙ join_paths-below b base rel calm))
    ∙ narrower (same q.rooted (is_abs (b ∷ base))) (starts es q.elems)
        (starts (es ++ deeper) q.elems) (starts_part es deeper q.elems)
        (sym (below_dir-elems (b ∷ base) q es refl) ∙ out)
