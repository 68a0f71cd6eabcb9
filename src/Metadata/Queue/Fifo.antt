-- ===== src/Metadata/Queue/Fifo.antt =====
-- engine/internal/metadata/queue.go: the queue against a list of operations, the oldest one first.
use syncy.Base.{
  ℕ, suc, ◌+◌, ◌<◌, Bool, not, List, [], ◌∷◌, ◌++◌, ◌≡◌, ◌≢◌, ◌==◌, nat_eq, list_eq, if◌then◌else◌,
  length, map, All, refl, ap, inl, inr, Bool-cases,
}
use syncy.Core.{DeviceId, QueuedOp}
use syncy.Metadata.{unix_or_zero, time_from_unix}
use syncy.Metadata.Queue.{
  QueueRow, Rows, where_row, updated, bump, for_device, has_id, Ascending, row_of, op_of,
}

-- The abstract queue.
abbrev pub Ops : Type 0
Ops = List QueuedOp

abbrev pub of_device : DeviceId → QueuedOp → Bool
of_device d op = op.device_id == d

abbrev pub is_op : ℕ → QueuedOp → Bool
is_op id op = op.id == id

-- One more attempt at the operation of an id.
unfoldable pub attempted : ℕ → Ops → Ops
attempted id [] = []
attempted id (op ∷ ops) =
    let rest = attempted id ops in
    if is_op id op then record op { attempts = op.attempts + 1 } ∷ rest else op ∷ rest

-- An operation as the queue keeps it: with its id, and its time in seconds.
unfoldable pub kept : ℕ → QueuedOp → QueuedOp
kept id op = record op { id = id; created_at = time_from_unix (unix_or_zero op.created_at) }

pub map-append :
    {A B : Type 0} (f : A → B) (xs ys : List A) → map f (xs ++ ys) ≡ map f xs ++ map f ys
map-append f [] ys = refl
map-append f (x ∷ xs) ys = ap (λ r. f x ∷ r) (map-append f xs ys)

pub map-where_row :
    (p : ℕ × QueueRow → Bool) (q : QueuedOp → Bool) (rs : Rows)
    → ((r : ℕ × QueueRow) → q (op_of r) ≡ p r)
    → map op_of (where_row p rs) ≡ where_row q (map op_of rs)
unfolding where_row
map-where_row p q [] same = refl
map-where_row p q (r ∷ rs) same = elim (Bool-cases (p r)) [
  | inl kept ↦ rw (same r, kept) (ap (λ t. op_of r ∷ t) (map-where_row p q rs same))
  | inr gone ↦ rw (same r, gone) (map-where_row p q rs same)
]

pub map-bumped :
    (id : ℕ) (rs : Rows) → map op_of (updated (has_id id) bump rs) ≡ attempted id (map op_of rs)
unfolding updated attempted op_of
map-bumped id [] = refl
map-bumped id ((j, row) ∷ rs) = elim (Bool-cases (j == id)) [
  | inl same ↦
      rw same
        (ap (λ t. op_of (j, record row { attempts = row.attempts + 1 }) ∷ t) (map-bumped id rs))
  | inr other ↦ rw other (ap (λ t. op_of (j, row) ∷ t) (map-bumped id rs))
]

pub length-map : {A B : Type 0} (f : A → B) (xs : List A) → length (map f xs) ≡ length xs
length-map f [] = refl
length-map f (x ∷ xs) = ap suc (length-map f xs)

pub op_of-device : (d : DeviceId) (r : ℕ × QueueRow) → of_device d (op_of r) ≡ for_device d r
unfolding op_of
op_of-device d (id, row) = refl

pub op_of-id : (id : ℕ) (r : ℕ × QueueRow) → is_op id (op_of r) ≡ has_id id r
unfolding op_of
op_of-id id (j, row) = refl

pub op_of-row_of : (id : ℕ) (op : QueuedOp) → op_of (id, row_of op) ≡ kept id op
unfolding op_of row_of kept
op_of-row_of id op = refl

-- Rows in ascending order, the last one of an id above all the others.
pub Ascending-last :
    (rs : Rows) (id : ℕ) (row : QueueRow)
    → Ascending (rs ++ (id, row) ∷ [])
    → All (λ op. op.id < id) (map op_of rs)
unfolding op_of
Ascending-last [] id row h = tt
Ascending-last ((j, r) ∷ rs) id row (below, h) = (last_of rs below, Ascending-last rs id row h)
  where
    last_of : (ss : Rows) → All (λ s. j < s.0) (ss ++ (id, row) ∷ []) → j < id
    last_of [] (lt, _) = lt
    last_of (s ∷ ss) (_, lts) = last_of ss lts

pub nonempty : {A : Type 0} (xs : List A) (n : ℕ) → length xs ≡ suc n → xs ≢ []
nonempty [] n e = cc e
nonempty (x ∷ xs) n e = λ h. cc h

pub empty : {A : Type 0} (xs : List A) → length xs ≡ 0 → xs ≡ []
empty [] e = refl
empty (x ∷ xs) e = cc e

pub none_left :
    (id : ℕ) (ops : Ops)
    → where_row (is_op id) ops ≡ []
    → (where_row (λ op. not (is_op id op)) ops ≡ ops) × (attempted id ops ≡ ops)
unfolding where_row attempted
none_left id [] e = (refl, refl)
none_left id (op ∷ ops) e = elim (Bool-cases (is_op id op)) [
  | inl here ↦ absurd (cc (rw here at e))
  | inr other ↦
      let (a, b) = none_left id ops (rw other at e) in
      (rw other (ap (λ t. op ∷ t) a), rw other (ap (λ t. op ∷ t) b))
]
