-- ===== src/Scanner/Changes.antt =====
-- engine/internal/scanner/diff.go: what the changes of `Diff` say of the two indexes.
use syncy.Base.{
  Bytes, false, List, [], ◌∷◌, ◌==◌, nat_eq, list_eq, Option, none, some, ◌≡◌, refl, ◌∙◌, inl, inr,
  All, Bool-cases,
}
use syncy.Base.Dict.{lookup}
use syncy.Scanner.{FileInfo, Index}
use syncy.Scanner.Diff.{
  ChangeKind, added, modified, deleted, renamed, Change, file_at, modification, modifications,
  missing_path, paths_not_in, contains, unmatched,
}

-- The entries of a list are what a map holds at their keys.
abbrev pub Holds : Index → Index → Type 0
Holds idx = All (λ e. lookup e.0 idx ≡ some e.1)

module _ (old new : Index) where
  -- What a change of each kind says.
  abbrev pub Means : ChangeKind → Change → Type 0
  Means added c = (lookup c.path old ≡ none) × (lookup c.path new ≡ some c.file)
  Means modified c =
      (of : FileInfo) × (lookup c.path old ≡ some of)
      × (lookup c.path new ≡ some c.file)
      × ((of.hash == c.file.hash) ≡ false)
  Means deleted c = (lookup c.path old ≡ some c.file) × (lookup c.path new ≡ none)
  Means renamed c =
      (of : FileInfo) × (lookup c.old_path old ≡ some of)
      × (lookup c.old_path new ≡ none)
      × (lookup c.path old ≡ none)
      × (lookup c.path new ≡ some c.file)
      × (of.hash ≡ c.file.hash)
      × (of.size ≡ c.file.size)

  abbrev pub IsTrue : Change → Type 0
  IsTrue c = Means c.kind c

  modification-IsTrue :
      (p : Bytes) (nf : FileInfo) (o : Option FileInfo) (rest : List Change)
      → lookup p old ≡ o
      → lookup p new ≡ some nf
      → All IsTrue rest
      → All IsTrue (modification p nf o rest)
  modification-IsTrue p nf none rest before now all = all
  modification-IsTrue p nf (some of) rest before now all = elim (Bool-cases (of.hash == nf.hash)) [
    | inl same ↦ rw same all
    | inr differ ↦ rw differ ((of, before, now, differ), all)
  ]

  pub modifications-IsTrue :
      (files : Index) → Holds new files → All IsTrue (modifications old files)
  unfolding modifications
  modifications-IsTrue [] all = tt
  modifications-IsTrue ((p, nf) ∷ files) (h, all) =
      modification-IsTrue p nf (lookup p old) (modifications old files) refl h
        (modifications-IsTrue files all)

-- The paths that one index holds and another does not.
abbrev pub Only : Index → Index → Bytes → Type 0
Only idx other p = (lookup p idx ≡ some (file_at idx p)) × (lookup p other ≡ none)

missing_path-Only :
    (idx other : Index) (p : Bytes) (o : Option FileInfo) (fi : FileInfo) (rest : List Bytes)
    → lookup p other ≡ o
    → lookup p idx ≡ some fi
    → All (Only idx other) rest
    → All (Only idx other) (missing_path p o rest)
unfolding file_at
missing_path-Only idx other p none fi rest gone here all = ((here ∙ rw here, gone), all)
missing_path-Only idx other p (some x) fi rest gone here all = all

pub paths_not_in-Only :
    (idx other files : Index) → Holds idx files → All (Only idx other) (paths_not_in other files)
unfolding paths_not_in
paths_not_in-Only idx other [] all = tt
paths_not_in-Only idx other ((p, fi) ∷ files) (h, all) =
    missing_path-Only idx other p (lookup p other) fi (paths_not_in other files) refl h
      (paths_not_in-Only idx other files all)

pub unmatched-All :
    (Q : Bytes → Type 0) (P : Change → Type 0) (kind : ChangeKind) (idx : Index)
    (taken ps : List Bytes)
    → ((p : Bytes)
        → Q p
        → P (record { kind = kind; path = p; old_path = []; file = file_at idx p }))
    → All Q ps
    → All P (unmatched kind idx taken ps)
unfolding unmatched
unmatched-All Q P kind idx taken [] f all = tt
unmatched-All Q P kind idx taken (p ∷ ps) f (q, all) = elim (Bool-cases (contains p taken)) [
  | inl gone ↦ rw gone (unmatched-All Q P kind idx taken ps f all)
  | inr free ↦ rw free (f p q, unmatched-All Q P kind idx taken ps f all)
]
