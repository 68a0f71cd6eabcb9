-- ===== src/Versioning/Location.antt =====
-- Where the files of a version store lie: below its directory, whatever path it is given.
use mathlib.Core.List.{reverse}
use syncy.Base.{
  ℕ, Bytes, Bool, true, false, not, List, [], ◌∷◌, ◌++◌, ◌||◌, ◌==◌, nat_eq, list_eq, ◌≡◌, ◌≢◌, ◌⊎◌,
  refl, sym, ap, ◌∙◌, inl, inr, Bool-cases, eq_refl, eq_of_beq, append_assoc, arith,
}
use syncy.Fs.{path_eq}
use syncy.Fsafe.{FilePath, clean, clean_onto, elements, is_abs, keep, local, join_paths, climbs}
use syncy.Fsafe.Cleaning.{is_local-climbs, elements-append, climbs_prefix, clean_onto-concat}
use syncy.Fsafe.Below.{below_dir, below_dir-shape}
use syncy.Fsafe.Containment.{join_paths-below}
use syncy.Versioning.{VersionStore, cut_last, child, version_dir}

-- The paths below the directory of the store.
abbrev pub below_store : VersionStore → FilePath → Bool
below_store s q = below_dir s.dir q

-- The directory part of a path, and its name, make up the path.
cut_last-append : (p : Bytes) → (cut_last p).0 ++ (cut_last p).1 ≡ p
unfolding cut_last
cut_last-append [] = refl
cut_last-append (c ∷ p) = elim (Bool-cases ((c == b'/') || not ((cut_last p).0 == []))) [
  | inl slash ↦ rw slash (ap (◌∷◌ c) (cut_last-append p))
  | inr plain ↦
      let none_before : (cut_last p).0 ≡ [] = ground arith in
      rw plain (ap (◌∷◌ c) (ap (λ d. d ++ (cut_last p).1) (sym none_before) ∙ cut_last-append p))
]

-- The directory part is empty or ends with a slash.
cut_last-slash :
    (p : Bytes) → ((cut_last p).0 ≡ []) ⊎ ((x : Bytes) × ((cut_last p).0 ≡ x ++ b'/' ∷ []))
unfolding cut_last
cut_last-slash [] = inl refl
cut_last-slash (c ∷ p) = elim (Bool-cases ((c == b'/') || not ((cut_last p).0 == []))) [
  | inr plain ↦ rw plain (inl refl)
  | inl slash ↦ elim (cut_last-slash p) [
    | inr (x, shape) ↦ rw slash (inr (c ∷ x, ap (◌∷◌ c) shape))
    | inl bare ↦
        let is_slash : (c == b'/') ≡ true =
          ground (arith, ap (λ d. d == []) bare, eq_refl {A = Bytes} []) in
        rw slash
          (inr ([], ap (λ d. c ∷ d) bare ∙ ap (λ (k : ℕ). k ∷ []) (eq_of_beq c b'/' is_slash)))
  ]
]

root_calm : climbs (reverse (clean_onto false [] (elements []))) ≡ false
unfolding elements clean_onto keep list_eq
root_calm = refl

last_slash :
    (es : List Bytes)
    → climbs (reverse (clean_onto false [] es)) ≡ false
    → climbs (reverse (clean_onto false [] (es ++ elements []))) ≡ false
unfolding elements clean_onto keep list_eq
last_slash es h = ap (λ k. climbs (reverse k)) (clean_onto-concat false [] es (elements [])) ∙ h

-- The directory part of a path that does not climb does not climb.
cut_last-climbs :
    (p : Bytes)
    → climbs (reverse (clean_onto false [] (elements p))) ≡ false
    → climbs (reverse (clean_onto false [] (elements (cut_last p).0))) ≡ false
cut_last-climbs p h = elim (cut_last-slash p) [
  | inl bare ↦ rw bare root_calm
  | inr (x, shape) ↦
      let whole : elements p ≡ elements x ++ elements (cut_last p).1 =
        ap elements (
          sym (cut_last-append p)
          ∙ ap (λ d. d ++ (cut_last p).1) shape
          ∙ append_assoc x (b'/' ∷ []) (cut_last p).1)
        ∙ elements-append x (cut_last p).1 in
      let calm = climbs_prefix (elements x) (elements (cut_last p).1) (rw whole at h) in
      rw (shape, elements-append x []) (last_slash (elements x) calm)
]

-- The directory of a file's versions lies below the store.
version_dir-below :
    (s : VersionStore) (rel : Bytes)
    → s.dir ≢ []
    → local rel ≡ true
    → (below : List Bytes) × (version_dir s rel
        ≡ record { rooted = is_abs s.dir; elems = (clean s.dir).elems ++ below })
unfolding version_dir local
version_dir-below s rel nonempty good = at_dir s.dir nonempty
  where
    at_dir :
        (dir : Bytes)
        → dir ≢ []
        → (below : List Bytes) × (join_paths dir (cut_last rel).0
            ≡ record { rooted = is_abs dir; elems = (clean dir).elems ++ below })
    at_dir [] ne = absurd (ne refl)
    at_dir (b ∷ dir) ne =
        let (relative, some_bytes, calm) = is_local-climbs rel good in
        (
          reverse (clean_onto false [] (elements (cut_last rel).0)),
          join_paths-below b dir (cut_last rel).0 (cut_last-climbs rel calm),
        )

below_store-child :
    (s : VersionStore) (dir : FilePath) (below : List Bytes) (name : Bytes)
    → dir ≡ record { rooted = is_abs s.dir; elems = (clean s.dir).elems ++ below }
    → below_store s (child dir name) ≡ true
below_store-child s dir below name shape =
    below_dir-shape s.dir (child dir name) (below ++ name ∷ []) (
      rw shape (
        ap (λ es. record { rooted = is_abs s.dir; elems = es })
          (append_assoc (clean s.dir).elems below (name ∷ []))))

pub version-below_store :
    (s : VersionStore) (rel name : Bytes)
    → s.dir ≢ []
    → local rel ≡ true
    → below_store s (child (version_dir s rel) name) ≡ true
version-below_store s rel name nonempty good =
    let (below, shape) = version_dir-below s rel nonempty good in
    below_store-child s (version_dir s rel) below name shape
