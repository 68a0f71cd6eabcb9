-- ===== src/Scanner/Coverage.antt =====
-- engine/internal/scanner/diff.go: which paths the changes of `Diff` name.
use syncy.Base.{
  Bytes, true, false, List, [], ◌∷◌, ◌++◌, ◌==◌, nat_eq, list_eq, Option, none, some, ◌≡◌, refl,
  sym, inl, inr, Any, Any-append_left, Any-append_right, sort-Any, bytes_lt, Bool-cases, eq_of_beq,
}
use syncy.Base.Dict.{Dict, lookup}
use syncy.Hashing.{Hash}
use syncy.Scanner.{FileInfo, Index}
use syncy.Scanner.Diff.{
  added, deleted, renamed, Change, file_at, modifications, paths_not_in, or_empty, by_hash,
  contains, Matches, first_match, matched, match_one, match_all, unmatched, change_lt, added_paths,
  deleted_paths, matches, unsorted_diff, diff,
}
use syncy.Scanner.Naming.{Names, modifications-Names, paths_not_in-Any, unmatched-Names}

-- The paths that a rename took are named by the changes.
abbrev Taken : Matches → Type 0
Taken ms =
    ((q : Bytes) → contains q ms.matched_added ≡ true → Any (Names q) ms.changes)
    × ((q : Bytes) → contains q ms.matched_deleted ≡ true → Any (Names q) ms.changes)

module _ (old new : Index) where
  matched-keeps :
      (P : Change → Type 0) (dp : Bytes) (o : Option Bytes) (ms : Matches)
      → Any P ms.changes
      → Any P (matched new dp o ms).changes
  matched-keeps P dp none ms h = h
  matched-keeps P dp (some a) ms h =
      Any-append_left P ms.changes
        (record { kind = renamed; path = a; old_path = dp; file = file_at new a } ∷ []) h

  matched-Taken :
      (dp : Bytes) (o : Option Bytes) (ms : Matches) → Taken ms → Taken (matched new dp o ms)
  unfolding contains
  matched-Taken dp none ms t = t
  matched-Taken dp (some a) ms t = (
    (λ q h. elim (Bool-cases (q == a)) [
      | inl same ↦
          Any-append_right (Names q) ms.changes
            (record { kind = renamed; path = a; old_path = dp; file = file_at new a } ∷ [])
            (inl (inl (sym (eq_of_beq q a same))))
      | inr other ↦ matched-keeps (Names q) dp (some a) ms (t.0 q (rw other at h))
    ]),
    λ q h. elim (Bool-cases (q == dp)) [
      | inl same ↦
          Any-append_right (Names q) ms.changes
            (record { kind = renamed; path = a; old_path = dp; file = file_at new a } ∷ [])
            (inl (inr (sym (eq_of_beq q dp same))))
      | inr other ↦ matched-keeps (Names q) dp (some a) ms (t.1 q (rw other at h))
    ],
  )

  match_one-keeps :
      (P : Change → Type 0) (m : Dict Hash (List Bytes)) (dp : Bytes) (ms : Matches)
      → Any P ms.changes
      → Any P (match_one old new m dp ms).changes
  unfolding match_one
  match_one-keeps P m dp ms h = elim (Bool-cases ((file_at old dp).size == 0)) [
    | inl empty ↦ rw empty h
    | inr full ↦ rw full (
        matched-keeps P dp
          (first_match new (file_at old dp).size ms.matched_added
            (or_empty (lookup (file_at old dp).hash m)))
          ms h)
  ]

  match_one-Taken :
      (m : Dict Hash (List Bytes)) (dp : Bytes) (ms : Matches)
      → Taken ms
      → Taken (match_one old new m dp ms)
  unfolding match_one
  match_one-Taken m dp ms t = elim (Bool-cases ((file_at old dp).size == 0)) [
    | inl empty ↦ rw empty t
    | inr full ↦ rw full (
        matched-Taken dp
          (first_match new (file_at old dp).size ms.matched_added
            (or_empty (lookup (file_at old dp).hash m)))
          ms t)
  ]

  match_all-keeps :
      (P : Change → Type 0) (m : Dict Hash (List Bytes)) (dps : List Bytes) (ms : Matches)
      → Any P ms.changes
      → Any P (match_all old new m dps ms).changes
  unfolding match_all
  match_all-keeps P m [] ms h = h
  match_all-keeps P m (dp ∷ dps) ms h =
      match_all-keeps P m dps (match_one old new m dp ms) (match_one-keeps P m dp ms h)

  match_all-Taken :
      (m : Dict Hash (List Bytes)) (dps : List Bytes) (ms : Matches)
      → Taken ms
      → Taken (match_all old new m dps ms)
  unfolding match_all
  match_all-Taken m [] ms t = t
  match_all-Taken m (dp ∷ dps) ms t =
      match_all-Taken m dps (match_one old new m dp ms) (match_one-Taken m dp ms t)

  matches-Taken : Taken (matches old new)
  unfolding contains
  matches-Taken =
      match_all-Taken (by_hash new (added_paths old new) []) (deleted_paths old new)
        (record { matched_added = []; matched_deleted = []; changes = modifications old new })
        ((λ q h. cc h), λ q h. cc h)

  paired-Names :
      (q : Bytes) → Any (Names q) (matches old new).changes → Any (Names q) (diff old new)
  unfolding diff unsorted_diff
  paired-Names q h = sort-Any change_lt (Names q) (unsorted_diff old new) (
      Any-append_left (Names q) (matches old new).changes
        (unmatched added new (matches old new).matched_added (added_paths old new)
          ++ unmatched deleted old (matches old new).matched_deleted (deleted_paths old new))
        h)

  -- A path that only the new index holds.
  pub added-Names :
      (q : Bytes) (fi : FileInfo)
      → lookup q new ≡ some fi
      → lookup q old ≡ none
      → Any (Names q) (diff old new)
  unfolding diff unsorted_diff
  added-Names q fi here gone = elim (Bool-cases (contains q (matches old new).matched_added)) [
    | inl taken ↦ paired-Names q (matches-Taken.0 q taken)
    | inr free ↦ sort-Any change_lt (Names q) (unsorted_diff old new) (
        Any-append_right (Names q) (matches old new).changes
          (unmatched added new (matches old new).matched_added (added_paths old new)
            ++ unmatched deleted old (matches old new).matched_deleted (deleted_paths old new))
          (Any-append_left (Names q)
            (unmatched added new (matches old new).matched_added (added_paths old new))
            (unmatched deleted old (matches old new).matched_deleted (deleted_paths old new))
            (unmatched-Names added new (matches old new).matched_added (added_paths old new) q refl
              (sort-Any bytes_lt (λ r. r ≡ q) (paths_not_in old new)
                (paths_not_in-Any old new q fi here gone))
              free)))
  ]

  -- A path that only the old index holds.
  pub deleted-Names :
      (q : Bytes) (fi : FileInfo)
      → lookup q old ≡ some fi
      → lookup q new ≡ none
      → Any (Names q) (diff old new)
  unfolding diff unsorted_diff
  deleted-Names q fi here gone = elim (Bool-cases (contains q (matches old new).matched_deleted)) [
    | inl taken ↦ paired-Names q (matches-Taken.1 q taken)
    | inr free ↦ sort-Any change_lt (Names q) (unsorted_diff old new) (
        Any-append_right (Names q) (matches old new).changes
          (unmatched added new (matches old new).matched_added (added_paths old new)
            ++ unmatched deleted old (matches old new).matched_deleted (deleted_paths old new))
          (Any-append_right (Names q)
            (unmatched added new (matches old new).matched_added (added_paths old new))
            (unmatched deleted old (matches old new).matched_deleted (deleted_paths old new))
            (unmatched-Names deleted old (matches old new).matched_deleted (deleted_paths old new) q
              refl
              (sort-Any bytes_lt (λ r. r ≡ q) (paths_not_in new old)
                (paths_not_in-Any new old q fi here gone))
              free)))
  ]

  -- A path that both hold, with other contents.
  pub modified-Names :
      (q : Bytes) (nf of : FileInfo)
      → lookup q new ≡ some nf
      → lookup q old ≡ some of
      → (of.hash == nf.hash) ≡ false
      → Any (Names q) (diff old new)
  modified-Names q nf of here before differ = paired-Names q (
      match_all-keeps (Names q) (by_hash new (added_paths old new) []) (deleted_paths old new)
        (record { matched_added = []; matched_deleted = []; changes = modifications old new })
        (modifications-Names old new q nf of here before differ))
