-- ===== src/Metadata.antt =====
-- engine/internal/metadata: the store, over the tables of a database. SQLite is not the
-- program's: a table is an interface with the documented behaviour of its statements.
pub mod Memory
pub mod Devices
pub mod Folders
pub mod Friends
pub mod Roundtrip
pub mod Synced
pub mod Queue
use syncy.Base.{
  ℕ, zero, suc, Bytes, Bool, true, false, List, [], ◌∷◌, ◌≡◌, ◌==◌, Eq, nat_eq, list_eq, Option,
  none, some, if◌then◌else◌, Result, ok, err,
}
use syncy.Core.{Time, zero_time, at}

-- What `INSERT … ON CONFLICT DO UPDATE` leaves in the row of its key.
abbrev pub upserted {ℓ} : {R : Type ℓ} → R → (R → R) → Option R → R
upserted row update none = row
upserted row update (some old) = update old

abbrev pub affected {ℓ} : {R : Type ℓ} → Option R → ℕ
affected none = 0
affected (some r) = 1

-- A table with a primary key. A statement can fail, and leaves the table as it was then.
pub record Table (K R : Type 0) ⦃e : Eq K⦄ : Type 1 where
  pub State : Type 0
  -- the committed rows
  pub rows : State → K → Option R
  -- `SELECT … WHERE key = ?`: none where there are no rows
  pub select : State → K → Option (Option R)
  pub upsert : State → K → R → (R → R) → Option State
  -- `DELETE … WHERE key = ?`, with what `RowsAffected` gives, which can fail behind the change
  pub delete : State → K → Option (State × Option ℕ)
  pub select-rows : (s : State) (k : K) (o : Option R) → select s k ≡ some o → o ≡ rows s k
  pub rows-upsert :
      (s s' : State) (k : K) (row : R) (update : R → R)
      → upsert s k row update ≡ some s'
      → (j : K) → rows s' j ≡ (if j == k then some (upserted row update (rows s k)) else rows s j)
  pub rows-delete :
      (s s' : State) (k : K) (n : Option ℕ)
      → delete s k ≡ some (s', n)
      → (j : K) → rows s' j ≡ (if j == k then none else rows s j)
  pub delete_count :
      (s s' : State) (k : K) (n : ℕ) → delete s k ≡ some (s', some n) → n ≡ affected (rows s k)

-- The columns.
pub record DeviceRow : Type 0 where
  pub name : Bytes
  pub trusted : ℕ
  pub pending_outgoing : ℕ
  pub endpoints : Bytes
  pub last_seen : ℕ
  pub added_at : ℕ

pub record FolderRow : Type 0 where
  pub label : Bytes
  pub path : Bytes
  pub direction : Bytes
  pub paused : ℕ
  pub added_at : ℕ

pub record RequestRow : Type 0 where
  pub name : Bytes
  pub endpoints : Bytes
  pub created_at : ℕ

-- The tables of `migrations` that the model uses.
pub record Database : Type 1 where
  pub devices : Table Bytes DeviceRow
  pub folders : Table Bytes FolderRow
  pub requests : Table Bytes RequestRow
  pub settings : Table Bytes Bytes

-- `encoding/json` at lists of strings.
pub record Json : Type 0 where
  pub marshal : List Bytes → Option Bytes
  pub unmarshal : Bytes → Option (List Bytes)

pub data StoreError : Type 0 where
  not_found database empty_id empty_path invalid_direction empty_key : StoreError

-- The state of every table.
pub record Store (db : Database) : Type 0 where
  pub devices : db.devices.State
  pub folders : db.folders.State
  pub requests : db.requests.State
  pub settings : db.settings.State

-- A method of the store: a result, and the store behind it.
abbrev pub M : Database → Type 0 → Type 0
M db A = Store db → Result StoreError A × Store db

infixl 5 ◌>>=◌ ◌>>◌
unfoldable pub ◌>>=◌ : {db : Database} {A B : Type 0} → M db A → (A → M db B) → M db B
◌>>=◌ m f s = let (r, s') = m s in elim r [ ok a ↦ f a s' | err e ↦ (err e, s') ]

unfoldable pub ◌>>◌ : {db : Database} {A B : Type 0} → M db A → M db B → M db B
unfolding ◌>>=◌
m >> k = m >>= λ _. k

unfoldable pub bool_to_int : Bool → ℕ
bool_to_int true = 1
bool_to_int false = 0

abbrev pub nonzero : ℕ → Bool
nonzero zero = false
nonzero (suc n) = true

unfoldable pub unix_or_zero : Time → ℕ
unix_or_zero zero_time = 0
unix_or_zero (at sec nanos) = sec

unfoldable pub time_from_unix : ℕ → Time
time_from_unix zero = zero_time
time_from_unix (suc sec) = at (suc sec) 0

abbrev json_text : Option Bytes → Bytes
json_text none = []
json_text (some b) = b

unfoldable pub list_to_json : Json → List Bytes → Bytes
list_to_json j [] = []
list_to_json j (v ∷ vs) = json_text (j.marshal (v ∷ vs))

abbrev json_list : Option (List Bytes) → List Bytes
json_list none = []
json_list (some vs) = vs

unfoldable pub list_from_json : Json → Bytes → List Bytes
list_from_json j [] = []
list_from_json j (c ∷ s) = json_list (j.unmarshal (c ∷ s))

-- `requireAffected`
unfoldable pub require_affected : Option ℕ → Result StoreError (Unit {0})
require_affected none = err database
require_affected (some zero) = err not_found
require_affected (some (suc n)) = ok tt
