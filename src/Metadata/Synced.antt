-- ===== src/Metadata/Synced.antt =====
-- engine/internal/metadata/synced.go: the hashes of the last round that a folder was synced in.
-- The table and its transactions are an interface with the documented behaviour of SQLite's.
pub mod Rounds
pub mod Reading
pub mod Memory
use syncy.Base.{
  Bytes, Bool, true, false, List, [], ◌∷◌, ◌≡◌, ◌==◌, ◌&&◌, nat_eq, list_eq, Option, none, some,
  if◌then◌else◌, Result, ok, err,
}
use syncy.Base.Dict.{Dict, lookup, insert, NodupKeys}
use syncy.Hashing.{Hash, HashError, to_string, parse}

-- The table `synced`, with the primary key (folder_id, path).
pub record SyncedTable : Type 1 where
  pub State : Type 0
  -- what a transaction sees
  pub Tx : Type 0
  -- the committed rows: the text of the hash
  pub rows : State → Bytes → Bytes → Option Bytes
  pub tx_rows : Tx → Bytes → Bytes → Option Bytes
  -- `SELECT path, hash FROM synced WHERE folder_id = ?`
  pub select : State → Bytes → Option (Dict Bytes Bytes)
  pub begin : State → Option Tx
  -- `DELETE FROM synced WHERE folder_id = ?`
  pub delete_folder : Tx → Bytes → Option Tx
  -- `Prepare` of the insertion succeeds
  pub prepares : Tx → Bool
  -- `INSERT INTO synced (folder_id, path, hash) VALUES (?, ?, ?)`
  pub insert_row : Tx → Bytes → Bytes → Bytes → Option Tx
  -- the state behind a commit; a commit that fails leaves the state as it was
  pub commit : State → Tx → Option State
  pub select-NodupKeys :
      (s : State) (f : Bytes) (rs : Dict Bytes Bytes) → select s f ≡ some rs → NodupKeys rs
  pub select-rows :
      (s : State) (f : Bytes) (rs : Dict Bytes Bytes)
      → select s f ≡ some rs
      → (p : Bytes) → lookup p rs ≡ rows s f p
  pub rows-begin :
      (s : State) (t : Tx) → begin s ≡ some t → (g p : Bytes) → tx_rows t g p ≡ rows s g p
  pub rows-delete :
      (t t' : Tx) (f : Bytes)
      → delete_folder t f ≡ some t'
      → (g p : Bytes) → tx_rows t' g p ≡ (if g == f then none else tx_rows t g p)
  pub rows-insert :
      (t t' : Tx) (f p h : Bytes)
      → insert_row t f p h ≡ some t'
      → (g q : Bytes) → tx_rows t' g q ≡ (if (g == f) && (q == p) then some h else tx_rows t g q)
  pub rows-commit :
      (s s' : State) (t : Tx) → commit s t ≡ some s' → (g p : Bytes) → rows s' g p ≡ tx_rows t g p

pub data BaselineError : Type 0 where
  database : BaselineError
  bad_hash : HashError → BaselineError

module _ (tbl : SyncedTable) where
  -- The loop over the rows.
  abbrev pub scan_row :
      Bytes
      → Result HashError Hash
      → (Dict Bytes Hash → Result BaselineError (Dict Bytes Hash))
      → Dict Bytes Hash
      → Result BaselineError (Dict Bytes Hash)
  scan_row path (err e) next out = err (bad_hash e)
  scan_row path (ok h) next out = next (insert path h out)

  unfoldable pub scan_rows :
      Dict Bytes Bytes → Dict Bytes Hash → Result BaselineError (Dict Bytes Hash)
  scan_rows [] out = ok out
  scan_rows ((path, hash_hex) ∷ rows) out = scan_row path (parse hash_hex) (scan_rows rows) out

  abbrev pub selected : Option (Dict Bytes Bytes) → Result BaselineError (Dict Bytes Hash)
  selected none = err database
  selected (some rs) = scan_rows rs []

  unfoldable pub get_synced_baseline : Bytes → tbl.State → Result BaselineError (Dict Bytes Hash)
  unfolding scan_rows
  get_synced_baseline folder s = selected (tbl.select s folder)

  abbrev pub inserted : Option tbl.Tx → (tbl.Tx → Option tbl.Tx) → Option tbl.Tx
  inserted none next = none
  inserted (some t) next = next t

  -- The loop over the map.
  unfoldable pub insert_rows : Bytes → Dict Bytes Hash → tbl.Tx → Option tbl.Tx
  insert_rows folder [] t = some t
  insert_rows folder ((path, h) ∷ rest) t =
      inserted (tbl.insert_row t folder path (to_string h)) (insert_rows folder rest)

  abbrev pub Outcome : Type 0
  Outcome = Result BaselineError (Unit {0}) × tbl.State

  abbrev pub committed : tbl.State → Option tbl.State → Outcome
  committed s none = (err database, s)
  committed s (some s') = (ok tt, s')

  abbrev pub filled : tbl.State → Option tbl.Tx → Outcome
  filled s none = (err database, s)
  filled s (some t) = committed s (tbl.commit s t)

  abbrev pub cleared : Bytes → Dict Bytes Hash → tbl.State → Option tbl.Tx → Outcome
  cleared folder baseline s none = (err database, s)
  cleared folder baseline s (some t) =
      if tbl.prepares t then filled s (insert_rows folder baseline t) else (err database, s)

  abbrev pub begun : Bytes → Dict Bytes Hash → tbl.State → Option tbl.Tx → Outcome
  begun folder baseline s none = (err database, s)
  begun folder baseline s (some t) = cleared folder baseline s (tbl.delete_folder t folder)

  -- `SetSyncedBaseline`: on an error the transaction is rolled back.
  unfoldable pub set_synced_baseline : Bytes → Dict Bytes Hash → tbl.State → Outcome
  unfolding insert_rows
  set_synced_baseline folder baseline s = begun folder baseline s (tbl.begin s)
