-- ===== src/Scanner/Naming.antt =====
-- engine/internal/scanner/diff.go: what the loops of `Diff` name.
use syncy.Base.{
  Bytes, false, List, [], ◌∷◌, ◌==◌, nat_eq, list_eq, Option, none, some, ◌≡◌, ◌⊎◌, refl, sym, inl,
  inr, Any, Bool-cases, eq_of_beq,
}
use mathlib.Core.Path.{subst}
use mathlib.Core.Option.{some-injective}
use syncy.Base.Dict.{lookup}
use syncy.Scanner.{FileInfo, Index}
use syncy.Scanner.Diff.{
  ChangeKind, added, modified, deleted, renamed, Change, file_at, modification, modifications,
  missing_path, paths_not_in, contains, unmatched,
}

-- A change names a path: as the one it is about or, when it renames, as the one before.
abbrev pub NamesAs : ChangeKind → Bytes → Change → Type 0
NamesAs added q c = c.path ≡ q
NamesAs modified q c = c.path ≡ q
NamesAs deleted q c = c.path ≡ q
NamesAs renamed q c = (c.path ≡ q) ⊎ (c.old_path ≡ q)

abbrev pub Names : Bytes → Change → Type 0
Names q c = NamesAs c.kind q c

pub modification-Names :
    (q : Bytes) (nf of : FileInfo) (rest : List Change)
    → (of.hash == nf.hash) ≡ false
    → Any (Names q) (modification q nf (some of) rest)
modification-Names q nf of rest differ = rw differ (inl refl)

modification-keeps :
    (q p : Bytes) (nf : FileInfo) (o : Option FileInfo) (rest : List Change)
    → Any (Names q) rest
    → Any (Names q) (modification p nf o rest)
modification-keeps q p nf none rest h = h
modification-keeps q p nf (some of) rest h = elim (Bool-cases (of.hash == nf.hash)) [
  | inl same ↦ rw same h
  | inr differ ↦ rw differ (inr h)
]

pub modifications-Names :
    (old files : Index) (q : Bytes) (nf of : FileInfo)
    → lookup q files ≡ some nf
    → lookup q old ≡ some of
    → (of.hash == nf.hash) ≡ false
    → Any (Names q) (modifications old files)
unfolding modifications lookup
modifications-Names old [] q nf of here before differ = cc here
modifications-Names old ((p, fi) ∷ files) q nf of here before differ = elim (Bool-cases (q == p)) [
  | inl same ↦
      subst (λ r. Any (Names q) (modification r fi (lookup r old) (modifications old files)))
        (eq_of_beq q p same)
        (rw before (
          modification-Names q fi of (modifications old files) (
            subst (λ f. (of.hash == f.hash) ≡ false) (sym (some-injective fi nf (rw same at here)))
              differ)))
  | inr other ↦
      modification-keeps q p fi (lookup p old) (modifications old files)
        (modifications-Names old files q nf of (rw other at here) before differ)
]

missing_path-keeps :
    (q p : Bytes) (o : Option FileInfo) (rest : List Bytes)
    → Any (λ r. r ≡ q) rest
    → Any (λ r. r ≡ q) (missing_path p o rest)
missing_path-keeps q p none rest h = inr h
missing_path-keeps q p (some fi) rest h = h

pub paths_not_in-Any :
    (other files : Index) (q : Bytes) (fi : FileInfo)
    → lookup q files ≡ some fi
    → lookup q other ≡ none
    → Any (λ r. r ≡ q) (paths_not_in other files)
unfolding paths_not_in lookup
paths_not_in-Any other [] q fi here gone = cc here
paths_not_in-Any other ((p, x) ∷ files) q fi here gone = elim (Bool-cases (q == p)) [
  | inl same ↦
      subst (λ r. Any (λ s. s ≡ q) (missing_path r (lookup r other) (paths_not_in other files)))
        (eq_of_beq q p same) (rw gone (inl refl))
  | inr later ↦
      missing_path-keeps q p (lookup p other) (paths_not_in other files)
        (paths_not_in-Any other files q fi (rw later at here) gone)
]

pub unmatched-Names :
    (kind : ChangeKind) (idx : Index) (taken ps : List Bytes) (q : Bytes)
    → NamesAs kind q (record { kind = kind; path = q; old_path = []; file = file_at idx q })
    → Any (λ r. r ≡ q) ps
    → contains q taken ≡ false
    → Any (Names q) (unmatched kind idx taken ps)
unfolding unmatched
unmatched-Names kind idx taken [] q names h free = elim h [ ]
unmatched-Names kind idx taken (p ∷ ps) q names (inl same) free = rw (same, free) (inl names)
unmatched-Names kind idx taken (p ∷ ps) q names (inr h) free =
    elim (Bool-cases (contains p taken)) [
      | inl gone ↦ rw gone (unmatched-Names kind idx taken ps q names h free)
      | inr kept ↦ rw kept (inr (unmatched-Names kind idx taken ps q names h free))
    ]
