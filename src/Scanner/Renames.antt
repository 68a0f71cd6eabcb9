-- ===== src/Scanner/Renames.antt =====
-- engine/internal/scanner/diff.go: the pairing of deleted and added paths, and the whole of `Diff`.
use syncy.Base.{
  ℕ, Bytes, Bool, not, true, false, List, [], ◌∷◌, ◌++◌, ◌||◌, ◌==◌, nat_eq, list_eq, Option, none,
  some, ◌≡◌, refl, sym, inl, inr, All, All-append, sort-All, bytes_lt, Bool-cases, eq_of_beq,
}
use mathlib.Core.Path.{subst}
use syncy.Base.Dict.{NodupKeys-All, Dict, lookup, insert, NodupKeys, lookup-insert}
use syncy.Hashing.{Hash}
use syncy.Scanner.{Index}
use syncy.Scanner.Diff.{
  added, deleted, renamed, file_at, paths_not_in, or_empty, by_hash, contains, Matches, first_match,
  matched, match_one, match_all, unmatched, change_lt, added_paths, deleted_paths, matches,
  unsorted_diff, diff, modifications,
}
use syncy.Scanner.Changes.{IsTrue, modifications-IsTrue, Only, paths_not_in-Only, unmatched-All}

or_not-false : (x y : Bool) → (x || not y) ≡ false → y ≡ true
or_not-false true y e = cc e
or_not-false false true e = refl
or_not-false false false e = cc e

first_match-some :
    (P : Bytes → Type 0) (new : Index) (size : ℕ) (taken aps : List Bytes) (a : Bytes)
    → All P aps
    → first_match new size taken aps ≡ some a
    → P a × ((file_at new a).size ≡ size)
unfolding first_match
first_match-some P new size taken [] a all e = absurd (cc e)
first_match-some P new size taken (b ∷ bs) a (h, all) e =
    elim (Bool-cases (contains b taken || not ((file_at new b).size == size))) [
      | inl skip ↦ first_match-some P new size taken bs a all (rw skip at e)
      | inr free ↦
          subst (λ r. P r × ((file_at new r).size ≡ size)) (cc (rw free at e))
            (
              h,
              eq_of_beq (file_at new b).size size
                  (or_not-false (contains b taken) ((file_at new b).size == size) free),
            )
    ]

module _ (old new : Index) where
  abbrev pub Candidate : Hash → Bytes → Type 0
  Candidate h p = Only new old p × ((file_at new p).hash ≡ h)

  abbrev pub Grouped : Dict Hash (List Bytes) → Type 0
  Grouped m = (h : Hash) → All (Candidate h) (or_empty (lookup h m))

  insert-Grouped :
      (p : Bytes) (m : Dict Hash (List Bytes))
      → Only new old p
      → Grouped m
      → Grouped (insert (file_at new p).hash (or_empty (lookup (file_at new p).hash m) ++ p ∷ []) m)
  insert-Grouped p m only g h = elim (Bool-cases (h == (file_at new p).hash)) [
    | inl same ↦
        rw
          (
            lookup-insert h (file_at new p).hash
                (or_empty (lookup (file_at new p).hash m) ++ p ∷ []) m,
            same,
          )
          (All-append (Candidate h) (or_empty (lookup (file_at new p).hash m)) (p ∷ [])
            (subst (λ k. All (Candidate h) (or_empty (lookup k m)))
              (eq_of_beq h (file_at new p).hash same) (g h))
            ((only, sym (eq_of_beq h (file_at new p).hash same)), tt))
    | inr other ↦
        rw
          (
            lookup-insert h (file_at new p).hash
                (or_empty (lookup (file_at new p).hash m) ++ p ∷ []) m,
            other,
          )
          (g h)
  ]

  by_hash-Grouped :
      (ps : List Bytes) (m : Dict Hash (List Bytes))
      → All (Only new old) ps
      → Grouped m
      → Grouped (by_hash new ps m)
  unfolding by_hash
  by_hash-Grouped [] m all g = g
  by_hash-Grouped (p ∷ ps) m (only, all) g = elim (Bool-cases ((file_at new p).size == 0)) [
    | inl empty ↦ rw empty (by_hash-Grouped ps m all g)
    | inr full ↦ rw full (
        by_hash-Grouped ps
          (insert (file_at new p).hash (or_empty (lookup (file_at new p).hash m) ++ p ∷ []) m) all
          (insert-Grouped p m only g))
  ]

  matched-IsTrue :
      (dp : Bytes) (o : Option Bytes) (ms : Matches)
      → Only old new dp
      → ((a : Bytes)
          → o ≡ some a
          → Candidate (file_at old dp).hash a × ((file_at new a).size ≡ (file_at old dp).size))
      → All (IsTrue old new) ms.changes
      → All (IsTrue old new) (matched new dp o ms).changes
  matched-IsTrue dp none ms only good all = all
  matched-IsTrue dp (some a) ms only good all =
      let ((here, same), long) = good a refl in
      All-append (IsTrue old new) ms.changes
        (record { kind = renamed; path = a; old_path = dp; file = file_at new a } ∷ []) all
        ((file_at old dp, only.0, only.1, here.1, here.0, sym same, sym long), tt)

  match_one-IsTrue :
      (m : Dict Hash (List Bytes)) (dp : Bytes) (ms : Matches)
      → Grouped m
      → Only old new dp
      → All (IsTrue old new) ms.changes
      → All (IsTrue old new) (match_one old new m dp ms).changes
  unfolding match_one
  match_one-IsTrue m dp ms g only all = elim (Bool-cases ((file_at old dp).size == 0)) [
    | inl empty ↦ rw empty all
    | inr full ↦ rw full (
        matched-IsTrue dp
          (first_match new (file_at old dp).size ms.matched_added
            (or_empty (lookup (file_at old dp).hash m)))
          ms only
          (λ a e.
            first_match-some (Candidate (file_at old dp).hash) new (file_at old dp).size
              ms.matched_added (or_empty (lookup (file_at old dp).hash m)) a
              (g (file_at old dp).hash) e)
          all)
  ]

  match_all-IsTrue :
      (m : Dict Hash (List Bytes)) (dps : List Bytes) (ms : Matches)
      → Grouped m
      → All (Only old new) dps
      → All (IsTrue old new) ms.changes
      → All (IsTrue old new) (match_all old new m dps ms).changes
  unfolding match_all
  match_all-IsTrue m [] ms g onlys all = all
  match_all-IsTrue m (dp ∷ dps) ms g (only, onlys) all =
      match_all-IsTrue m dps (match_one old new m dp ms) g onlys
        (match_one-IsTrue m dp ms g only all)

  -- Each change that `Diff` reports of two indexes is true of them: an added file is in the new
  -- index only, a deleted one in the old index only, a modified one is in both under different
  -- hashes, and the two paths of a renamed one hold the same hash and size, the old path in the old
  -- index only and the new path in the new index only.
  -- Each index holds a path once.
  pub diff-IsTrue : NodupKeys old → NodupKeys new → All (IsTrue old new) (diff old new)
  unfolding diff unsorted_diff lookup
  diff-IsTrue uo un =
      let adds =
        sort-All bytes_lt (Only new old) (paths_not_in old new)
          (paths_not_in-Only new old new (NodupKeys-All new un)) in
      let dels =
        sort-All bytes_lt (Only old new) (paths_not_in new old)
          (paths_not_in-Only old new old (NodupKeys-All old uo)) in
      sort-All change_lt (IsTrue old new) (unsorted_diff old new) (
        All-append (IsTrue old new) (matches old new).changes
          (unmatched added new (matches old new).matched_added (added_paths old new)
            ++ unmatched deleted old (matches old new).matched_deleted (deleted_paths old new))
          (match_all-IsTrue (by_hash new (added_paths old new) []) (deleted_paths old new)
            (record { matched_added = []; matched_deleted = []; changes = modifications old new })
            (by_hash-Grouped (added_paths old new) [] adds (λ h. tt)) dels
            (modifications-IsTrue old new new (NodupKeys-All new un)))
          (All-append (IsTrue old new)
            (unmatched added new (matches old new).matched_added (added_paths old new))
            (unmatched deleted old (matches old new).matched_deleted (deleted_paths old new))
            (unmatched-All (Only new old) (IsTrue old new) added new (matches old new).matched_added
              (added_paths old new) (λ p h. (h.1, h.0)) adds)
            (unmatched-All (Only old new) (IsTrue old new) deleted old
              (matches old new).matched_deleted (deleted_paths old new) (λ p h. h) dels)))
