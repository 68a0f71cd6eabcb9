-- ===== src/Metadata/Synced/Rounds.antt =====
-- engine/internal/metadata/synced.go: a baseline that is written.
use mathlib.Core.Option.{some-injective}
use syncy.Base.{
  Bytes, false, [], ◌∷◌, ◌≡◌, ◌==◌, nat_eq, list_eq, Option, none, some, ok, err, Bool-cases,
  Option-cases, refl, sym, ap, ◌∙◌, inl, inr, eq_refl, eq_of_beq, if_elim,
}
use syncy.Base.Dict.{Dict, lookup, NodupKeys}
use syncy.Hashing.{Hash, to_string}
use syncy.Metadata.Synced.{
  SyncedTable, database, insert_rows, committed, filled, cleared, begun, set_synced_baseline,
  Outcome,
}

-- The column that a baseline asks for.
abbrev pub hex_of : Option Hash → Option Bytes
hex_of none = none
hex_of (some h) = some (to_string h)

module _ (tbl : SyncedTable) (folder : Bytes) where
  -- The rows that a baseline asks for, and the others as they were.
  abbrev pub Sets :
      Dict Bytes Hash → (Bytes → Bytes → Option Bytes) → (Bytes → Bytes → Option Bytes) → Type 0
  Sets base before now =
      ((p : Bytes) → now folder p ≡ hex_of (lookup p base))
      × ((g p : Bytes) → (g == folder) ≡ false → now g p ≡ before g p)

  abbrev or_else : Option Hash → Option Bytes → Option Bytes
  or_else none o = o
  or_else (some h) o = some (to_string h)

  or_else-none : (o : Option Hash) → or_else o none ≡ hex_of o
  or_else-none none = refl
  or_else-none (some h) = refl

  -- What the insertions leave in the folder's rows.
  insert_rows-here :
      (base : Dict Bytes Hash) (t t' : tbl.Tx)
      → NodupKeys base
      → insert_rows tbl folder base t ≡ some t'
      → (p : Bytes) → tbl.tx_rows t' folder p ≡ or_else (lookup p base) (tbl.tx_rows t folder p)
  unfolding insert_rows lookup
  insert_rows-here [] t t' u e p = ap (λ x. tbl.tx_rows x folder p) (sym (some-injective t t' e))
  insert_rows-here ((k, h) ∷ base) t t' (fresh, u) e p =
      elim (Option-cases (tbl.insert_row t folder k (to_string h))) [
        | inl failed ↦ absurd (cc (rw failed at e))
        | inr (t1, done) ↦
            insert_rows-here base t1 t' u (rw done at e) p ∙ elim (Bool-cases (p == k)) [
              | inl same ↦
                  rw
                    (
                      eq_of_beq p k same,
                      fresh,
                      tbl.rows-insert t t1 folder k (to_string h) done folder k,
                      eq_refl folder,
                      eq_refl k,
                    )
                    refl
              | inr other ↦
                  rw
                    (
                      other,
                      tbl.rows-insert t t1 folder k (to_string h) done folder p,
                      eq_refl folder,
                      other,
                    )
                    refl
            ]
      ]

  insert_rows-elsewhere :
      (base : Dict Bytes Hash) (t t' : tbl.Tx) (g : Bytes)
      → (g == folder) ≡ false
      → insert_rows tbl folder base t ≡ some t'
      → (p : Bytes) → tbl.tx_rows t' g p ≡ tbl.tx_rows t g p
  unfolding insert_rows
  insert_rows-elsewhere [] t t' g other e p =
      ap (λ x. tbl.tx_rows x g p) (sym (some-injective t t' e))
  insert_rows-elsewhere ((k, h) ∷ base) t t' g other e p =
      elim (Option-cases (tbl.insert_row t folder k (to_string h))) [
        | inl failed ↦ absurd (cc (rw failed at e))
        | inr (t1, done) ↦
            insert_rows-elsewhere base t1 t' g other (rw done at e) p
            ∙ rw (tbl.rows-insert t t1 folder k (to_string h) done g p, other) refl
      ]

  -- All or nothing: the rows of the baseline, or the state as it was.
  abbrev pub Writes : Dict Bytes Hash → tbl.State → Outcome tbl → Type 0
  Writes base s (ok _, s') = Sets base (tbl.rows s) (tbl.rows s')
  Writes base s (err e, s') = s' ≡ s

  committed-Writes :
      (base : Dict Bytes Hash) (s : tbl.State) (t : tbl.Tx) (o : Option tbl.State)
      → tbl.commit s t ≡ o
      → Sets base (tbl.rows s) (tbl.tx_rows t)
      → Writes base s (committed tbl s o)
  committed-Writes base s t none e h = refl
  committed-Writes base s t (some s') e (here, there) = (
    (λ p. tbl.rows-commit s s' t e folder p ∙ here p),
    λ g p other. tbl.rows-commit s s' t e g p ∙ there g p other,
  )

  filled-Writes :
      (base : Dict Bytes Hash) (s : tbl.State) (o : Option tbl.Tx)
      → ((t : tbl.Tx) → o ≡ some t → Sets base (tbl.rows s) (tbl.tx_rows t))
      → Writes base s (filled tbl s o)
  filled-Writes base s none h = refl
  filled-Writes base s (some t) h = committed-Writes base s t (tbl.commit s t) refl (h t refl)

  -- A cleared folder takes the rows of the baseline.
  insert_rows-Sets :
      (base : Dict Bytes Hash) (s : tbl.State) (t t' t'' : tbl.Tx)
      → NodupKeys base
      → tbl.begin s ≡ some t
      → tbl.delete_folder t folder ≡ some t'
      → insert_rows tbl folder base t' ≡ some t''
      → Sets base (tbl.rows s) (tbl.tx_rows t'')
  insert_rows-Sets base s t t' t'' u opened deleted done = (
    (λ p.
        insert_rows-here base t' t'' u done p
        ∙ rw (tbl.rows-delete t t' folder deleted folder p, eq_refl folder)
            (or_else-none (lookup p base))),
    λ g p other.
        insert_rows-elsewhere base t' t'' g other done p
        ∙ rw (tbl.rows-delete t t' folder deleted g p, other) (tbl.rows-begin s t opened g p),
  )

  cleared-Writes :
      (base : Dict Bytes Hash) (s : tbl.State) (t : tbl.Tx) (o : Option tbl.Tx)
      → NodupKeys base
      → tbl.begin s ≡ some t
      → tbl.delete_folder t folder ≡ o
      → Writes base s (cleared tbl folder base s o)
  cleared-Writes base s t none u opened e = refl
  cleared-Writes base s t (some t') u opened e =
      if_elim (Writes base s) (tbl.prepares t') (filled tbl s (insert_rows tbl folder base t'))
        (err database, s)
        (λ prepared.
          filled-Writes base s (insert_rows tbl folder base t')
            (λ t'' done. insert_rows-Sets base s t t' t'' u opened e done))
        (λ not_prepared. refl)

  begun-Writes :
      (base : Dict Bytes Hash) (s : tbl.State) (o : Option tbl.Tx)
      → NodupKeys base
      → tbl.begin s ≡ o
      → Writes base s (begun tbl folder base s o)
  begun-Writes base s none u e = refl
  begun-Writes base s (some t) u e = cleared-Writes base s t (tbl.delete_folder t folder) u e refl

  -- `SetSyncedBaseline` is all or nothing, whichever statement fails: on an error the table is as
  -- it was; otherwise the folder has exactly the rows of the baseline, each hash in hexadecimal, and
  -- every other folder has the rows it had. The baseline holds a path once.
  pub set_synced_baseline-Writes :
      (base : Dict Bytes Hash) (s : tbl.State)
      → NodupKeys base
      → Writes base s (set_synced_baseline tbl folder base s)
  unfolding set_synced_baseline
  set_synced_baseline-Writes base s u = begun-Writes base s (tbl.begin s) u refl
