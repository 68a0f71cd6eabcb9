-- ===== src/Metadata/Synced/Reading.antt =====
-- engine/internal/metadata/synced.go: a baseline that is read back.
use mathlib.Core.Path.{subst}
use mathlib.Core.Option.{some-injective}
use syncy.Base.{
  Bytes, [], ◌∷◌, ◌≡◌, ◌⊎◌, ◌==◌, nat_eq, list_eq, Option, none, some, Result, ok, err, All,
  Bool-cases, refl, sym, ◌∙◌, inl, inr, eq_refl, eq_of_beq,
}
use syncy.Base.Dict.{Dict, lookup, insert, NodupKeys, NodupKeys-All, lookup-All, lookup-insert}
use syncy.Hashing.{Hash, IsHash, to_string}
use syncy.Hashing.Hex.{parse-to_string}
use syncy.Metadata.Synced.{
  SyncedTable, BaselineError, database, scan_rows, selected, get_synced_baseline,
  set_synced_baseline,
}
use syncy.Metadata.Synced.Rounds.{hex_of, Writes, set_synced_baseline-Writes}

module _ (tbl : SyncedTable) (folder : Bytes) where
  -- A row as a baseline asks for it.
  abbrev Row : Dict Bytes Hash → Bytes × Bytes → Type 0
  Row base e = (h : Hash) × IsHash h × (e.1 ≡ to_string h) × (lookup e.0 base ≡ some h)

  hex_of-some :
      (o : Option Hash) (hex : Bytes)
      → hex_of o ≡ some hex
      → (h : Hash) × (o ≡ some h) × (hex ≡ to_string h)
  hex_of-some none hex e = absurd (cc e)
  hex_of-some (some h) hex e = (h, refl, sym (some-injective (to_string h) hex e))

  hex_of-none : (o : Option Hash) → hex_of o ≡ none → o ≡ none
  hex_of-none none e = refl
  hex_of-none (some h) e = absurd (cc e)

  rows-Row :
      (base : Dict Bytes Hash) (all rs : Dict Bytes Bytes)
      → All (λ e. IsHash e.1) base
      → ((p : Bytes) → lookup p all ≡ hex_of (lookup p base))
      → All (λ e. lookup e.0 all ≡ some e.1) rs
      → All (Row base) rs
  rows-Row base all [] good same h = tt
  rows-Row base all ((p, hex) ∷ rs) good same (e, h) =
      let (x, found, text) = hex_of-some (lookup p base) hex (sym (same p) ∙ e) in
      (
        (x, lookup-All (λ e. IsHash e.1) p x base good found, text, found),
        rows-Row base all rs good same h,
      )

  -- What the loop over such rows returns.
  abbrev Read :
      Dict Bytes Hash
      → Dict Bytes Bytes
      → Dict Bytes Hash
      → Result BaselineError (Dict Bytes Hash)
      → Type 0
  Read base rs out (err e) = ⊥
  Read base rs out (ok got) =
      (p : Bytes)
      → (lookup p got ≡ lookup p base) ⊎ ((lookup p rs ≡ none) × (lookup p got ≡ lookup p out))

  Read-cons :
      (base : Dict Bytes Hash) (k hex : Bytes) (x : Hash) (rs : Dict Bytes Bytes)
      (out : Dict Bytes Hash) (r : Result BaselineError (Dict Bytes Hash))
      → lookup k base ≡ some x
      → Read base rs (insert k x out) r
      → Read base ((k, hex) ∷ rs) out r
  unfolding lookup
  Read-cons base k hex x rs out (err e) found h = h
  Read-cons base k hex x rs out (ok got) found h = λ p. elim (h p) [
    | inl e ↦ inl e
    | inr (absent, e) ↦ elim (Bool-cases (p == k)) [
      | inl same ↦ inl (e ∙ rw (lookup-insert p k x out, eq_of_beq p k same, eq_refl k) (sym found))
      | inr other ↦ inr (rw other absent, e ∙ rw (lookup-insert p k x out, other) refl)
    ]
  ]

  scan_rows-Read :
      (base : Dict Bytes Hash) (rs : Dict Bytes Bytes) (out : Dict Bytes Hash)
      → All (Row base) rs
      → Read base rs out (scan_rows tbl rs out)
  unfolding scan_rows lookup
  scan_rows-Read base [] out h = λ p. inr (refl, refl)
  scan_rows-Read base ((k, hex) ∷ rs) out ((x, good, text, found), h) =
      rw (text, parse-to_string x good)
        (Read-cons base k (to_string x) x rs out (scan_rows tbl rs (insert k x out)) found
          (scan_rows-Read base rs (insert k x out) h))

  -- What is read of a folder whose rows are those of a baseline: the baseline, or the failure of
  -- the query.
  abbrev pub ReadsBack : Dict Bytes Hash → Result BaselineError (Dict Bytes Hash) → Type 0
  ReadsBack base (err e) = e ≡ database
  ReadsBack base (ok got) = (p : Bytes) → lookup p got ≡ lookup p base

  Read-ReadsBack :
      (base : Dict Bytes Hash) (rs : Dict Bytes Bytes) (r : Result BaselineError (Dict Bytes Hash))
      → ((p : Bytes) → lookup p rs ≡ hex_of (lookup p base))
      → Read base rs [] r
      → ReadsBack base r
  unfolding lookup
  Read-ReadsBack base rs (err e) same h = elim h [ ]
  Read-ReadsBack base rs (ok got) same h = λ p. elim (h p) [
    | inl e ↦ e
    | inr (absent, e) ↦ e ∙ sym (hex_of-none (lookup p base) (sym (same p) ∙ absent))
  ]

  selected-ReadsBack :
      (base : Dict Bytes Hash) (s : tbl.State) (o : Option (Dict Bytes Bytes))
      → All (λ e. IsHash e.1) base
      → ((p : Bytes) → tbl.rows s folder p ≡ hex_of (lookup p base))
      → tbl.select s folder ≡ o
      → ReadsBack base (selected tbl o)
  selected-ReadsBack base s none good h e = refl
  selected-ReadsBack base s (some rs) good h e =
      let same : (p : Bytes) → lookup p rs ≡ hex_of (lookup p base) =
        λ p. tbl.select-rows s folder rs e p ∙ h p in
      Read-ReadsBack base rs (scan_rows tbl rs []) same (
        scan_rows-Read base rs []
          (rows-Row base rs rs good same (NodupKeys-All rs (tbl.select-NodupKeys s folder rs e))))

  -- A baseline that `SetSyncedBaseline` has stored is what `GetSyncedBaseline` returns: the same
  -- paths with the same hashes, unless the query itself fails. The baseline holds a path once, and
  -- its hashes are 32 bytes.
  pub get_synced_baseline-set_synced_baseline :
      (base : Dict Bytes Hash) (s s' : tbl.State)
      → NodupKeys base
      → All (λ e. IsHash e.1) base
      → set_synced_baseline tbl folder base s ≡ (ok tt, s')
      → ReadsBack base (get_synced_baseline tbl folder s')
  unfolding get_synced_baseline
  get_synced_baseline-set_synced_baseline base s s' u good e =
      selected-ReadsBack base s' (tbl.select s' folder) good
        (subst (Writes tbl folder base s) e (set_synced_baseline-Writes tbl folder base s u)).0 refl
