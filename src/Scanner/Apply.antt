-- ===== src/Scanner/Apply.antt =====
-- engine/internal/scanner/diff.go: `Diff` against a reader that makes its changes one by one.
use syncy.Base.{
  Bytes, List, [], ◌∷◌, ◌++◌, ◌==◌, nat_eq, list_eq, Option, none, some, ◌≡◌, ◌⊎◌, refl, ap, ◌∙◌,
  inl, inr, All, Any, Bool-cases, Option-cases, eq_of_beq, eq_refl,
}
use syncy.Base.Dict.{lookup, insert, erase, NodupKeys, lookup-insert, lookup-erase}
use syncy.Hashing.{Hash}
use syncy.Scanner.{FileInfo, Index}
use syncy.Scanner.Diff.{ChangeKind, added, modified, deleted, renamed, Change, diff}
use syncy.Scanner.Changes.{IsTrue, Means}
use syncy.Scanner.Renames.{diff-IsTrue}
use syncy.Scanner.Naming.{NamesAs, Names}
use syncy.Scanner.Coverage.{added-Names, deleted-Names, modified-Names}

-- What a change asks of an index.
abbrev pub apply_as : ChangeKind → Change → Index → Index
apply_as added c idx = insert c.path c.file idx
apply_as modified c idx = insert c.path c.file idx
apply_as deleted c idx = erase c.path idx
apply_as renamed c idx = insert c.path c.file (erase c.old_path idx)

unfoldable pub apply_all : List Change → Index → Index
apply_all [] idx = idx
apply_all (c ∷ cs) idx = apply_all cs (apply_as c.kind c idx)

abbrev pub digest : Option FileInfo → Option Hash
digest none = none
digest (some fi) = some fi.hash

-- The hash that an index holds at a path.
unfoldable pub hash_at : Bytes → Index → Option Hash
hash_at q idx = digest (lookup q idx)

module _ (old new : Index) where
  insert-settles :
      (p q : Bytes) (fi : FileInfo) (idx : Index)
      → lookup p new ≡ some fi
      → (p ≡ q) ⊎ (hash_at q idx ≡ hash_at q new)
      → hash_at q (insert p fi idx) ≡ hash_at q new
  unfolding hash_at
  insert-settles p q fi idx here h = elim (Bool-cases (q == p)) [
    | inl same ↦ rw (lookup-insert q p fi idx, same, eq_of_beq q p same, here) refl
    | inr other ↦
        rw (lookup-insert q p fi idx, other)
          (elim h [ inl e ↦ absurd (cc (other, eq_refl q, e)) | inr kept ↦ kept ])
  ]

  erase-settles :
      (p q : Bytes) (idx : Index)
      → lookup p new ≡ none
      → (p ≡ q) ⊎ (hash_at q idx ≡ hash_at q new)
      → hash_at q (erase p idx) ≡ hash_at q new
  unfolding hash_at
  erase-settles p q idx gone h = elim (Bool-cases (q == p)) [
    | inl same ↦ rw (lookup-erase q p idx, same, eq_of_beq q p same, gone) refl
    | inr other ↦
        rw (lookup-erase q p idx, other)
          (elim h [ inl e ↦ absurd (cc (other, eq_refl q, e)) | inr kept ↦ kept ])
  ]

  apply-settles :
      (k : ChangeKind) (c : Change) (q : Bytes) (idx : Index)
      → Means old new k c
      → NamesAs k q c ⊎ (hash_at q idx ≡ hash_at q new)
      → hash_at q (apply_as k c idx) ≡ hash_at q new
  apply-settles added c q idx (gone, here) h = insert-settles c.path q c.file idx here h
  apply-settles modified c q idx (of, before, here, differ) h =
      insert-settles c.path q c.file idx here h
  apply-settles deleted c q idx (here, gone) h = erase-settles c.path q idx gone h
  apply-settles renamed c q idx (of, before, gone, fresh, here, same, long) h =
      insert-settles c.path q c.file (erase c.old_path idx) here (elim h [
        | inl (inl e) ↦ inl e
        | inl (inr e) ↦ inr (erase-settles c.old_path q idx gone (inl e))
        | inr kept ↦ inr (erase-settles c.old_path q idx gone (inr kept))
      ])

  apply_all-settled :
      (cs : List Change) (q : Bytes) (idx : Index)
      → All (IsTrue old new) cs
      → hash_at q idx ≡ hash_at q new
      → hash_at q (apply_all cs idx) ≡ hash_at q new
  unfolding apply_all
  apply_all-settled [] q idx all h = h
  apply_all-settled (c ∷ cs) q idx (p, all) h =
      apply_all-settled cs q (apply_as c.kind c idx) all (apply-settles c.kind c q idx p (inr h))

  apply_all-settles :
      (cs : List Change) (q : Bytes) (idx : Index)
      → All (IsTrue old new) cs
      → Any (Names q) cs
      → hash_at q (apply_all cs idx) ≡ hash_at q new
  unfolding apply_all
  apply_all-settles [] q idx all h = elim h [ ]
  apply_all-settles (c ∷ cs) q idx (p, all) (inl h) =
      apply_all-settled cs q (apply_as c.kind c idx) all (apply-settles c.kind c q idx p (inl h))
  apply_all-settles (c ∷ cs) q idx (p, all) (inr h) =
      apply_all-settles cs q (apply_as c.kind c idx) all h

  diff-Names : (q : Bytes) → Any (Names q) (diff old new) ⊎ (hash_at q old ≡ hash_at q new)
  unfolding hash_at
  diff-Names q = elim (Option-cases (lookup q old)) [
    | inl gone ↦ elim (Option-cases (lookup q new)) [
      | inl absent ↦ inr (rw (gone, absent) refl)
      | inr (nf, here) ↦ inl (added-Names old new q nf here gone)
    ]
    | inr (of, before) ↦ elim (Option-cases (lookup q new)) [
      | inl gone ↦ inl (deleted-Names old new q of before gone)
      | inr (nf, here) ↦ elim (Bool-cases (of.hash == nf.hash)) [
        | inl same ↦ inr (rw (before, here) (ap some (eq_of_beq of.hash nf.hash same)))
        | inr differ ↦ inl (modified-Names old new q nf of here before differ)
      ]
    ]
  ]

  -- The changes do the same to any index with the hashes of the old one.
  pub apply_all-diff_on :
      (q : Bytes) (idx : Index)
      → NodupKeys old
      → NodupKeys new
      → hash_at q idx ≡ hash_at q old
      → hash_at q (apply_all (diff old new) idx) ≡ hash_at q new
  apply_all-diff_on q idx uo un start = elim (diff-Names q) [
    | inl named ↦ apply_all-settles (diff old new) q idx (diff-IsTrue old new uo un) named
    | inr same ↦ apply_all-settled (diff old new) q idx (diff-IsTrue old new uo un) (start ∙ same)
  ]

  -- `Diff` is a recipe: the changes it reports, made one after the other in the order reported on
  -- the old index, give the new one, with the same paths and, at each, the same hash.
  -- Each index holds a path once.
  pub apply_all-diff :
      NodupKeys old
      → NodupKeys new
      → (q : Bytes) → hash_at q (apply_all (diff old new) old) ≡ hash_at q new
  apply_all-diff uo un q = apply_all-diff_on q old uo un refl

pub apply_all-append :
    (cs ds : List Change) (idx : Index) → apply_all (cs ++ ds) idx ≡ apply_all ds (apply_all cs idx)
unfolding apply_all
apply_all-append [] ds idx = refl
apply_all-append (c ∷ cs) ds idx = apply_all-append cs ds (apply_as c.kind c idx)
