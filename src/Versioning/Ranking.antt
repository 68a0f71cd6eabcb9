-- ===== src/Versioning/Ranking.antt =====
-- engine/internal/versioning/versioning.go: which versions stand before a given one.
use syncy.Base.{
  ℕ, Bytes, false, List, [], ◌∷◌, ◌++◌, ◌==◌, nat_eq, list_eq, Option, none, some, ◌≡◌, refl, sym,
  ap, ◌∙◌, inl, inr, ◌-◌, length, take, drop, All, Any, All-drop, str, arith, bytes_lt,
  bytes_lt-asym, bytes_lt-chain, Sorted, sort-Sorted, Sorted-take, append_assoc, drop-append_left,
  take-append_left, length-append, Bool-cases,
}
use mathlib.Core.Path.{subst}
use mathlib.Core.Option.{some-injective}
use syncy.Conflict.Name.{ext, stem}
use syncy.Fs.{Fs, path_eq}
use syncy.Fsafe.{FilePath}
use syncy.Versioning.{
  VersionStore, Version, Disk, base_name, child, version_dir, version_name, version_path,
  version_of, entry_of, versions, newer, has_prefix, has_suffix,
}
use syncy.Versioning.Naming.{child_injective}
use syncy.Versioning.Owned.{versions-listed, versions-All}

-- The slice of `Versions` gives the stamp back from which the name was made.
stamp_of_name :
    (front t back : Bytes)
    → drop
        (length front)
        (take (length (front ++ (t ++ back)) - length back) (front ++ (t ++ back)))
      ≡ t
stamp_of_name front t back =
    let cut : length (front ++ (t ++ back)) - length back ≡ length (front ++ t) =
      omega (arith, length-append front (t ++ back), length-append t back, length-append front t) in
    ap (λ (n : ℕ). drop (length front) (take n (front ++ (t ++ back)))) cut
    ∙ ap (λ bs. drop (length front) (take (length (front ++ t)) bs))
        (sym (append_assoc front t back))
    ∙ ap (drop (length front)) (take-append_left (length (front ++ t)) (front ++ t) back refl)
    ∙ drop-append_left (length front) front t refl

-- A listed version that stands at the path of a stamp has that stamp.
abbrev StampedAt : VersionStore → Bytes → Bytes → Version → Type 0
StampedAt s rel t v = v.path ≡ version_path s rel t → v.stamp ≡ t

version_of-stamp :
    (rel : Bytes) (dir : FilePath) (name body : Bytes) (v : Version)
    → version_of rel dir name body ≡ some v
    → (v.path ≡ child dir name)
      × (v.stamp
          ≡ drop
              (length (stem (base_name rel) ++ str "~"))
              (take (length name - length (ext (base_name rel))) name))
version_of-stamp rel dir name body v h =
    elim (Bool-cases (has_prefix name (stem (base_name rel) ++ str "~"))) [
      | inr bad ↦ cc (rw bad at h)
      | inl front ↦ elim (Bool-cases (has_suffix name (ext (base_name rel)))) [
        | inr bad ↦ cc (rw (front, bad) at h)
        | inl back ↦
            let e = some-injective _ _ (rw (front, back) at h) in
            (sym (ap (λ u. u.path) e), sym (ap (λ u. u.stamp) e))
      ]
    ]

entry_of-StampedAt :
    (s : VersionStore) (rel t : Bytes) (p : FilePath) (o : Option Bytes) (body : Bytes)
    (v : Version)
    → entry_of rel (version_dir s rel) p o body ≡ some v
    → StampedAt s rel t v
unfolding version_path version_name
entry_of-StampedAt s rel t p none body v h at_path = cc h
entry_of-StampedAt s rel t p (some name) body v h at_path =
    let dir = version_dir s rel in
    let found : version_of rel dir name body ≡ some v = ground arith in
    let (path, stamp) = version_of-stamp rel dir name body v found in
    let front = stem (base_name rel) ++ str "~" in
    let back = ext (base_name rel) in
    let e : name ≡ front ++ (t ++ back) =
      child_injective dir name (version_name s rel t) (sym path ∙ at_path)
      ∙ sym (append_assoc (stem (base_name rel)) (str "~") (t ++ back)) in
    stamp
    ∙ ap (λ n. drop (length front) (take (length n - length back) n)) e
    ∙ stamp_of_name front t back

module _ (disk : Disk) (s : VersionStore) where
  -- The version of a stamp stands behind `keep` others in the list, whose stamps are not smaller.
  pub record Outranked (rel t : Bytes) (fs : Fs) : Type 0 where
    pub vs : List Version
    pub found : versions disk s rel fs ≡ some vs
    pub limited : (s.keep == 0) ≡ false
    pub before : All (λ v. bytes_lt v.stamp t ≡ false) (take s.keep vs)
    pub behind : Any (λ v. v.path ≡ version_path s rel t) (drop s.keep vs)

  weaken :
      (rel t : Bytes) (vs : List Version)
      → All
          (λ v.
            (w : Version) × ((w.path ≡ version_path s rel t) × (w.stamp ≡ t)) × (newer w v ≡ false))
          vs
      → All (λ v. bytes_lt v.stamp t ≡ false) vs
  weaken rel t [] h = tt
  weaken rel t (v ∷ vs) ((w, (_, e), ranked), h) =
      (subst (λ k. bytes_lt v.stamp k ≡ false) e ranked, weaken rel t vs h)

  stamped-Any :
      (rel t : Bytes) (vs : List Version)
      → All (StampedAt s rel t) vs
      → Any (λ v. v.path ≡ version_path s rel t) vs
      → Any (λ v. (v.path ≡ version_path s rel t) × (v.stamp ≡ t)) vs
  stamped-Any rel t [] all h = h
  stamped-Any rel t (v ∷ vs) (stamped, all) (inl e) = inl (e, stamped e)
  stamped-Any rel t (v ∷ vs) (stamped, all) (inr q) = inr (stamped-Any rel t vs all q)

  -- A version that stands behind the first `keep` is outranked by them.
  pub drop-Outranked :
      (rel t : Bytes) (fs : Fs) (vs : List Version)
      → (s.keep == 0) ≡ false
      → versions disk s rel fs ≡ some vs
      → Any (λ v. v.path ≡ version_path s rel t) (drop s.keep vs)
      → Outranked rel t fs
  drop-Outranked rel t fs vs limited found behind =
      let stamped =
        versions-All disk s (StampedAt s rel t) rel fs vs (entry_of-StampedAt s rel t) found in
      let (us, listing, e) = versions-listed disk s rel fs vs found in
      let sorted : Sorted newer vs = subst (Sorted newer) (sym e) (
        sort-Sorted newer (λ a b. bytes_lt-asym b.stamp a.stamp)
          (λ a b c h k. bytes_lt-chain c.stamp b.stamp a.stamp k h) us) in
      record {
        vs = vs;
        found = found;
        limited = limited;
        before = weaken rel t (take s.keep vs) (
            Sorted-take newer (λ v. (v.path ≡ version_path s rel t) × (v.stamp ≡ t)) s.keep vs
              sorted
              (stamped-Any rel t (drop s.keep vs) (All-drop (StampedAt s rel t) s.keep vs stamped)
                behind));
        behind = behind;
      }
