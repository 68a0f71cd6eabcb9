-- ===== src/Metadata/Roundtrip.antt =====
-- engine/internal/metadata/folders.go: what `GetFolder` reads behind `PutFolder`.
use syncy.Base.{
  Bytes, Bool, true, false, not, ◌==◌, nat_eq, list_eq, Option, none, some, ◌≡◌, refl, ap, ◌∙◌, inl,
  inr, ◌⊎◌, Result, ok, err, Bool-cases, eq_refl, [],
}
use syncy.Core.{Folder, valid_direction}
use syncy.Metadata.{
  Database, FolderRow, Store, StoreError, upserted, bool_to_int, nonzero, unix_or_zero,
  time_from_unix, database,
}
use syncy.Metadata.Folders.{
  default_direction, folder_row, update_folder, scan_folder, inserted, insert_folder, put_folder,
  found_folder, get_folder,
}

nonzero-bool_to_int : (b : Bool) → nonzero (bool_to_int b) ≡ b
unfolding bool_to_int
nonzero-bool_to_int true = refl
nonzero-bool_to_int false = refl

-- The folder read back after `f` was stored over `old`: `f`, but with the time of `old`.
abbrev pub kept_time : Option FolderRow → Folder → Folder
kept_time none f = record f { added_at = time_from_unix (unix_or_zero f.added_at) }
kept_time (some old) f = record f { added_at = time_from_unix old.added_at }

scan_folder-upserted :
    (f : Folder) (old : Option FolderRow)
    → scan_folder f.id (upserted (folder_row f) (update_folder (folder_row f)) old)
      ≡ kept_time old f
unfolding scan_folder folder_row
scan_folder-upserted f none =
    ap (λ b. record f { paused = b; added_at = time_from_unix (unix_or_zero f.added_at) })
      (nonzero-bool_to_int f.paused)
scan_folder-upserted f (some old) =
    ap (λ b. record f { paused = b; added_at = time_from_unix old.added_at })
      (nonzero-bool_to_int f.paused)

module _ (db : Database) where
  -- What a table that holds a row of a key is read as: the row, if the read succeeds.
  found_row :
      (id : Bytes) (t : db.folders.State) (o : Option (Option FolderRow))
      → db.folders.select t id ≡ o
      → (found_folder db id o ≡ err database)
        ⊎ (found_folder db id o ≡ found_folder db id (some (db.folders.rows t id)))
  found_row id t none h = inl refl
  found_row id t (some row) h =
      inr (ap (λ o. found_folder db id (some o)) (db.folders.select-rows t id row h))

  -- What a read of the folder after a write finds: the written folder, unless the read fails; or
  -- the write failed, and the store is what it was.
  abbrev pub Reads : Folder → Store db → Result StoreError (Unit {0}) × Store db → Type 0
  Reads f s (ok _, s') =
      ((get_folder db f.id s').0 ≡ err database)
      ⊎ ((get_folder db f.id s').0 ≡ ok (kept_time (db.folders.rows s.folders f.id) f))
  Reads f s (err e, s') = s' ≡ s

  inserted-Reads :
      (f : Folder) (s : Store db) (u : Option db.folders.State)
      → db.folders.upsert s.folders f.id (folder_row f) (update_folder (folder_row f)) ≡ u
      → Reads f s (inserted db u s)
  unfolding get_folder
  inserted-Reads f s none h = refl
  inserted-Reads f s (some t) h =
      let row =
        upserted (folder_row f) (update_folder (folder_row f)) (db.folders.rows s.folders f.id) in
      let there : db.folders.rows t f.id ≡ some row =
        db.folders.rows-upsert s.folders t f.id (folder_row f) (update_folder (folder_row f)) h f.id
        ∙ rw (eq_refl f.id) in
      elim (found_row f.id t (db.folders.select t f.id) refl) [
        | inl bad ↦ inl bad
        | inr fine ↦ inr (
            fine
            ∙ ap (λ o. found_folder db f.id (some o)) there
            ∙ ap ok (scan_folder-upserted f (db.folders.rows s.folders f.id)))
      ]

  -- Storing a folder, over any database, either fails and leaves the store as it was; or what is
  -- read back, unless that read fails, is the folder with its direction defaulted and with the time
  -- that its row holds: for a new folder its own time cut to whole seconds, where the second 0 of
  -- 1970 reads as the zero time; for one that was there already the time at which it was added.
  pub put_folder-Reads :
      (f : Folder) (s : Store db) → Reads (default_direction f) s (put_folder db f s)
  unfolding put_folder
  put_folder-Reads f s = elim (Bool-cases (f.id == [])) [
    | inl bad ↦ rw (put_folder, bad) refl
    | inr named ↦ elim (Bool-cases (f.path == [])) [
      | inl bad ↦ rw (put_folder, named, bad) refl
      | inr placed ↦ elim (Bool-cases (not (valid_direction (default_direction f).direction))) [
        | inl bad ↦ rw (put_folder, named, placed, bad) refl
        | inr valid ↦
            rw (put_folder, insert_folder, named, placed, valid)
              (inserted-Reads (default_direction f) s
                (db.folders.upsert s.folders (default_direction f).id
                  (folder_row (default_direction f))
                  (update_folder (folder_row (default_direction f))))
                refl)
      ]
    ]
  ]
