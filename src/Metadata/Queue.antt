-- ===== src/Metadata/Queue.antt =====
-- engine/internal/metadata/queue.go: the operations that wait for a device. The table is an
-- interface with the documented behaviour of the statements of SQL; their conditions and changes
-- are those that the methods give.
pub mod Fifo
pub mod Refinement
pub mod Memory
use syncy.Base.{
  ℕ, suc, ◌+◌, ◌<◌, Bytes, Bool, true, false, not, List, [], ◌∷◌, ◌++◌, ◌≡◌, ◌⊎◌, ◌==◌, nat_eq,
  list_eq, Option, none, some, if◌then◌else◌, Result, ok, err, length, map, All,
}
use syncy.Core.{Time, DeviceId, QueuedOp}
use syncy.Metadata.{StoreError, database, unix_or_zero, time_from_unix, require_affected}

pub record QueueRow : Type 0 where
  pub device_id : Bytes
  pub folder_id : Bytes
  pub kind : Bytes
  pub payload : Bytes
  pub created_at : ℕ
  pub attempts : ℕ

abbrev pub Rows : Type 0
Rows = List (ℕ × QueueRow)

-- `WHERE` on the rows.
unfoldable pub where_row : {A : Type 0} → (A → Bool) → List A → List A
where_row p [] = []
where_row p (r ∷ rs) = let rest = where_row p rs in if p r then r ∷ rest else rest

-- `UPDATE … SET` on the rows.
unfoldable pub updated : (ℕ × QueueRow → Bool) → (QueueRow → QueueRow) → Rows → Rows
updated p f [] = []
updated p f ((j, row) ∷ rs) =
    let rest = updated p f rs in if p (j, row) then (j, f row) ∷ rest else (j, row) ∷ rest

abbrev pub for_device : Bytes → ℕ × QueueRow → Bool
for_device d r = r.1.device_id == d

abbrev pub has_id : ℕ → ℕ × QueueRow → Bool
has_id id r = r.0 == id

-- `attempts = attempts + 1`
abbrev pub bump : QueueRow → QueueRow
bump row = record row { attempts = row.attempts + 1 }

-- The ids grow along the rows.
abbrev pub Ascending : Rows → Type 0
Ascending [] = Unit
Ascending (r ∷ rs) = All (λ s. r.0 < s.0) rs × Ascending rs

-- What `LastInsertId` or `RowsAffected` says: it can fail behind the change.
abbrev pub Tells : ℕ → Option ℕ → Type 0
Tells n told = (told ≡ none) ⊎ (told ≡ some n)

-- The table `queue`, by the statements of SQL: the conditions and the changes are arguments. Its
-- key is `AUTOINCREMENT`: an inserted row stands behind all others. A statement that fails changes
-- nothing. The rows of a query are in the order of their ids where it says `ORDER BY id`, and in
-- any order where it does not.
pub record QueueTable : Type 1 where
  pub State : Type 0
  pub rows : State → Rows
  pub insert : State → QueueRow → Option (State × Option ℕ)
  pub query : State → (ℕ × QueueRow → Bool) → Bool → Option Rows
  pub delete_where : State → (ℕ × QueueRow → Bool) → Option (State × Option ℕ)
  pub update_where :
      State → (ℕ × QueueRow → Bool) → (QueueRow → QueueRow) → Option (State × Option ℕ)
  pub count_where : State → (ℕ × QueueRow → Bool) → Option ℕ
  pub rows-Ascending : (s : State) → Ascending (rows s)
  pub rows-insert :
      (s s' : State) (row : QueueRow) (told : Option ℕ)
      → insert s row ≡ some (s', told)
      → (id : ℕ) × (rows s' ≡ rows s ++ (id, row) ∷ []) × Tells id told
  pub query-rows :
      (s : State) (p : ℕ × QueueRow → Bool) (rs : Rows)
      → query s p true ≡ some rs
      → rs ≡ where_row p (rows s)
  pub rows-delete :
      (s s' : State) (p : ℕ × QueueRow → Bool) (told : Option ℕ)
      → delete_where s p ≡ some (s', told)
      → (rows s' ≡ where_row (λ r. not (p r)) (rows s)) × Tells (length (where_row p (rows s))) told
  pub rows-update :
      (s s' : State) (p : ℕ × QueueRow → Bool) (f : QueueRow → QueueRow) (told : Option ℕ)
      → update_where s p f ≡ some (s', told)
      → (rows s' ≡ updated p f (rows s)) × Tells (length (where_row p (rows s))) told
  pub count-rows :
      (s : State) (p : ℕ × QueueRow → Bool) (n : ℕ)
      → count_where s p ≡ some n
      → n ≡ length (where_row p (rows s))

-- The row that `EnqueueOp` inserts, and the operation that `queryOps` reads.
unfoldable pub row_of : QueuedOp → QueueRow
unfolding unix_or_zero
row_of op = record {
  device_id = op.device_id;
  folder_id = op.folder_id;
  kind = op.kind;
  payload = op.payload;
  created_at = unix_or_zero op.created_at;
  attempts = op.attempts;
}

unfoldable pub op_of : ℕ × QueueRow → QueuedOp
unfolding time_from_unix
op_of (id, row) = record {
  id = id;
  device_id = row.device_id;
  folder_id = row.folder_id;
  kind = row.kind;
  payload = row.payload;
  created_at = time_from_unix row.created_at;
  attempts = row.attempts;
}

module _ (tbl : QueueTable) where
  abbrev pub M : Type 0 → Type 0
  M A = tbl.State → Result StoreError A × tbl.State

  abbrev pub enqueued : tbl.State → Option (tbl.State × Option ℕ) → Result StoreError ℕ × tbl.State
  enqueued s none = (err database, s)
  enqueued s (some (s', none)) = (err database, s')
  enqueued s (some (s', some id)) = (ok id, s')

  unfoldable pub enqueue_op : QueuedOp → M ℕ
  unfolding row_of
  enqueue_op op s = enqueued s (tbl.insert s (row_of op))

  -- `queryOps`
  abbrev pub query_ops : Option Rows → Result StoreError (List QueuedOp)
  query_ops none = err database
  query_ops (some rs) = ok (map op_of rs)

  -- `WHERE device_id = ? ORDER BY id`
  unfoldable pub pending_ops : DeviceId → M (List QueuedOp)
  unfolding op_of
  pending_ops d s = (query_ops (tbl.query s (for_device d) true), s)

  -- `ORDER BY id`
  unfoldable pub all_pending_ops : M (List QueuedOp)
  unfolding op_of
  all_pending_ops s = (query_ops (tbl.query s (λ r. true) true), s)

  abbrev pub changed :
      tbl.State → Option (tbl.State × Option ℕ) → Result StoreError (Unit {0}) × tbl.State
  changed s none = (err database, s)
  changed s (some (s', told)) = (require_affected told, s')

  -- `DELETE FROM queue WHERE id = ?`
  unfoldable pub complete_op : ℕ → M (Unit {0})
  unfolding require_affected
  complete_op id s = changed s (tbl.delete_where s (has_id id))

  -- `UPDATE queue SET attempts = attempts + 1 WHERE id = ?`
  unfoldable pub increment_attempts : ℕ → M (Unit {0})
  unfolding require_affected
  increment_attempts id s = changed s (tbl.update_where s (has_id id) bump)

  abbrev pub counted : Option ℕ → Result StoreError ℕ
  counted none = err database
  counted (some n) = ok n

  -- `SELECT COUNT(*) FROM queue WHERE device_id = ?`
  unfoldable pub queue_len : DeviceId → M ℕ
  queue_len d s = (counted (tbl.count_where s (for_device d)), s)
