-- ===== src/Metadata/Queue/Refinement.antt =====
-- engine/internal/metadata/queue.go: the methods of the queue against the list of its operations.
use mathlib.Core.Path.{subst}
use mathlib.Core.Option.{some-injective}
use syncy.Base.{
  true, inl, inr, ◌⊎◌, ℕ, zero, suc, ◌<◌, not, [], ◌∷◌, ◌++◌, ◌≡◌, ◌≢◌, nat_eq, list_eq, Option,
  none, some, Result, ok, err, length, map, All, refl, sym, ap, ◌∙◌,
}
use syncy.Core.{DeviceId, QueuedOp}
use syncy.Metadata.{StoreError, database, not_found, require_affected}
use syncy.Metadata.Queue.{
  Rows, where_row, for_device, has_id, Ascending, QueueTable, Tells, bump, row_of, op_of, enqueued,
  enqueue_op, query_ops, pending_ops, all_pending_ops, changed, complete_op, increment_attempts,
  counted, queue_len,
}
use syncy.Metadata.Queue.Fifo.{
  Ops, of_device, is_op, attempted, kept, map-append, map-where_row, map-bumped, length-map,
  op_of-device, op_of-id, op_of-row_of, Ascending-last, nonempty, empty, none_left,
}

-- A call of one of the methods, and what it returns.
pub data Call : Type 0 where
  enqueue : QueuedOp → Call
  pending : DeviceId → Call
  all_pending : Call
  complete increment : ℕ → Call
  count : DeviceId → Call

pub data Answer : Type 0 where
  new_id : ℕ → Answer
  listed : Ops → Answer
  done : Answer
  counted_ops : ℕ → Answer

-- What a call does to the list of operations: `before` it, what it returns, and behind it.
abbrev pub Agrees : Call → Ops → Result StoreError Answer → Ops → Type 0
Agrees (enqueue op) before (ok (new_id id)) after =
    (after ≡ before ++ kept id op ∷ []) × All (λ o. o.id < id) before
Agrees (pending d) before (ok (listed ops)) after =
    (after ≡ before) × (ops ≡ where_row (of_device d) before)
Agrees all_pending before (ok (listed ops)) after = (after ≡ before) × (ops ≡ before)
Agrees (complete id) before (ok done) after =
    (after ≡ where_row (λ o. not (is_op id o)) before) × (where_row (is_op id) before ≢ [])
Agrees (increment id) before (ok done) after =
    (after ≡ attempted id before) × (where_row (is_op id) before ≢ [])
Agrees (count d) before (ok (counted_ops n)) after =
    (after ≡ before) × (n ≡ length (where_row (of_device d) before))
Agrees (complete id) before (err not_found) after =
    (after ≡ before) × (where_row (is_op id) before ≡ [])
Agrees (increment id) before (err not_found) after =
    (after ≡ before) × (where_row (is_op id) before ≡ [])
Agrees (enqueue op) before (err database) after =
    (after ≡ before)
    ⊎ ((id : ℕ) × (after ≡ before ++ kept id op ∷ []) × All (λ o. o.id < id) before)
Agrees (complete id) before (err database) after =
    (after ≡ before) ⊎ (after ≡ where_row (λ o. not (is_op id o)) before)
Agrees (increment id) before (err database) after = (after ≡ before) ⊎ (after ≡ attempted id before)
Agrees (pending d) before (err database) after = after ≡ before
Agrees all_pending before (err database) after = after ≡ before
Agrees (count d) before (err database) after = after ≡ before
Agrees c before r after = ⊥

module _ (tbl : QueueTable) where
  abbrev pub with_answer :
      {A : Type 0}
      → (A → Answer)
      → Result StoreError A × tbl.State
      → Result StoreError Answer × tbl.State
  with_answer f (ok a, s) = (ok (f a), s)
  with_answer f (err e, s) = (err e, s)

  unfoldable pub call : Call → tbl.State → Result StoreError Answer × tbl.State
  call (enqueue op) s = with_answer new_id (enqueue_op tbl op s)
  call (pending d) s = with_answer listed (pending_ops tbl d s)
  call all_pending s = with_answer listed (all_pending_ops tbl s)
  call (complete id) s = with_answer (λ _. done) (complete_op tbl id s)
  call (increment id) s = with_answer (λ _. done) (increment_attempts tbl id s)
  call (count d) s = with_answer counted_ops (queue_len tbl d s)

  -- The list that the table stands for.
  unfoldable pub ops_of : tbl.State → Ops
  ops_of s = map op_of (tbl.rows s)

  told_some : (n m : ℕ) → Tells n (some m) → m ≡ n
  told_some n m (inl e) = cc e
  told_some n m (inr e) = some-injective m n e

  appended :
      (op : QueuedOp) (s s' : tbl.State) (told : Option ℕ)
      → tbl.insert s (row_of op) ≡ some (s', told)
      → (id : ℕ) × (ops_of s' ≡ ops_of s ++ kept id op ∷ [])
        × All (λ o. o.id < id) (ops_of s)
        × Tells id told
  unfolding ops_of
  appended op s s' told e =
      let (id, added, tells) = tbl.rows-insert s s' (row_of op) told e in
      (
        id,
        ap (map op_of) added
            ∙ map-append op_of (tbl.rows s) ((id, row_of op) ∷ [])
            ∙ ap (λ r. map op_of (tbl.rows s) ++ r ∷ []) (op_of-row_of id op),
        Ascending-last (tbl.rows s) id (row_of op) (subst Ascending added (tbl.rows-Ascending s')),
        tells,
      )

  enqueue-Agrees :
      (op : QueuedOp) (s : tbl.State) (o : Option (tbl.State × Option ℕ))
      → tbl.insert s (row_of op) ≡ o
      → Agrees
          (enqueue op)
          (ops_of s)
          (with_answer new_id (enqueued tbl s o)).0
          (ops_of (with_answer new_id (enqueued tbl s o)).1)
  enqueue-Agrees op s none e = inl refl
  enqueue-Agrees op s (some (s', none)) e =
      let (id, added, below, tells) = appended op s s' none e in inr (id, added, below)
  enqueue-Agrees op s (some (s', some n)) e =
      let (id, added, below, tells) = appended op s s' (some n) e in
      subst (λ (k : ℕ). (ops_of s' ≡ ops_of s ++ kept k op ∷ []) × All (λ o. o.id < k) (ops_of s))
        (sym (told_some id n tells)) (added, below)

  of_device-rows :
      (d : DeviceId) (rs : Rows)
      → map op_of (where_row (for_device d) rs) ≡ where_row (of_device d) (map op_of rs)
  of_device-rows d rs = map-where_row (for_device d) (of_device d) rs (op_of-device d)

  is_op-rows :
      (id : ℕ) (rs : Rows)
      → map op_of (where_row (has_id id) rs) ≡ where_row (is_op id) (map op_of rs)
  is_op-rows id rs = map-where_row (has_id id) (is_op id) rs (op_of-id id)

  pending-Agrees :
      (d : DeviceId) (s : tbl.State) (o : Option Rows)
      → tbl.query s (for_device d) true ≡ o
      → Agrees
          (pending d)
          (ops_of s)
          (with_answer listed (query_ops tbl o, s)).0
          (ops_of (with_answer listed (query_ops tbl o, s)).1)
  unfolding ops_of
  pending-Agrees d s none e = refl
  pending-Agrees d s (some rs) e =
      (refl, ap (map op_of) (tbl.query-rows s (for_device d) rs e) ∙ of_device-rows d (tbl.rows s))

  where_all : (rs : Rows) → where_row (λ r. true) rs ≡ rs
  unfolding where_row
  where_all [] = refl
  where_all (r ∷ rs) = ap (◌∷◌ r) (where_all rs)

  all-Agrees :
      (s : tbl.State) (o : Option Rows)
      → tbl.query s (λ r. true) true ≡ o
      → Agrees all_pending
          (ops_of s)
          (with_answer listed (query_ops tbl o, s)).0
          (ops_of (with_answer listed (query_ops tbl o, s)).1)
  unfolding ops_of
  all-Agrees s none e = refl
  all-Agrees s (some rs) e =
      (refl, ap (map op_of) (tbl.query-rows s (λ r. true) rs e ∙ where_all (tbl.rows s)))

  count-Agrees :
      (d : DeviceId) (s : tbl.State) (o : Option ℕ)
      → tbl.count_where s (for_device d) ≡ o
      → Agrees
          (count d)
          (ops_of s)
          (with_answer counted_ops (counted tbl o, s)).0
          (ops_of (with_answer counted_ops (counted tbl o, s)).1)
  unfolding ops_of
  count-Agrees d s none e = refl
  count-Agrees d s (some n) e = (
    refl,
    tbl.count-rows s (for_device d) n e
        ∙ sym (length-map op_of (where_row (for_device d) (tbl.rows s)))
        ∙ ap length (of_device-rows d (tbl.rows s)),
  )

  -- The number of affected rows tells whether the operation is there.
  affected-ops :
      (id n : ℕ) (s : tbl.State)
      → n ≡ length (where_row (has_id id) (tbl.rows s))
      → n ≡ length (where_row (is_op id) (ops_of s))
  unfolding ops_of
  affected-ops id n s e =
      e
      ∙ sym (length-map op_of (where_row (has_id id) (tbl.rows s)))
      ∙ ap length (is_op-rows id (tbl.rows s))

  complete-affected :
      (id : ℕ) (told : Option ℕ) (s s' : tbl.State)
      → ops_of s' ≡ where_row (λ o. not (is_op id o)) (ops_of s)
      → Tells (length (where_row (is_op id) (ops_of s))) told
      → Agrees
          (complete id)
          (ops_of s)
          (with_answer (λ _. done) (require_affected told, s')).0
          (ops_of (with_answer (λ _. done) (require_affected told, s')).1)
  unfolding require_affected
  complete-affected id none s s' e m = inr e
  complete-affected id (some zero) s s' e m =
      let found = where_row (is_op id) (ops_of s) in
      let gone = empty found (sym (told_some (length found) zero m)) in
      (e ∙ (none_left id (ops_of s) gone).0, gone)
  complete-affected id (some (suc n)) s s' e m =
      let found = where_row (is_op id) (ops_of s) in
      (e, nonempty found n (sym (told_some (length found) (suc n) m)))

  increment-affected :
      (id : ℕ) (told : Option ℕ) (s s' : tbl.State)
      → ops_of s' ≡ attempted id (ops_of s)
      → Tells (length (where_row (is_op id) (ops_of s))) told
      → Agrees
          (increment id)
          (ops_of s)
          (with_answer (λ _. done) (require_affected told, s')).0
          (ops_of (with_answer (λ _. done) (require_affected told, s')).1)
  unfolding require_affected
  increment-affected id none s s' e m = inr e
  increment-affected id (some zero) s s' e m =
      let found = where_row (is_op id) (ops_of s) in
      let gone = empty found (sym (told_some (length found) zero m)) in
      (e ∙ (none_left id (ops_of s) gone).1, gone)
  increment-affected id (some (suc n)) s s' e m =
      let found = where_row (is_op id) (ops_of s) in
      (e, nonempty found n (sym (told_some (length found) (suc n) m)))

  complete-Agrees :
      (id : ℕ) (s : tbl.State) (o : Option (tbl.State × Option ℕ))
      → tbl.delete_where s (has_id id) ≡ o
      → Agrees
          (complete id)
          (ops_of s)
          (with_answer (λ _. done) (changed tbl s o)).0
          (ops_of (with_answer (λ _. done) (changed tbl s o)).1)
  unfolding ops_of
  complete-Agrees id s none e = inl refl
  complete-Agrees id s (some (s', told)) e =
      let (left, m) = tbl.rows-delete s s' (has_id id) told e in
      complete-affected id told s s'
        (ap (map op_of) left
          ∙ map-where_row (λ r. not (has_id id r)) (λ o. not (is_op id o)) (tbl.rows s)
              (λ r. ap not (op_of-id id r)))
        (subst (λ (k : ℕ). Tells k told)
          (affected-ops id (length (where_row (has_id id) (tbl.rows s))) s refl) m)

  increment-Agrees :
      (id : ℕ) (s : tbl.State) (o : Option (tbl.State × Option ℕ))
      → tbl.update_where s (has_id id) bump ≡ o
      → Agrees
          (increment id)
          (ops_of s)
          (with_answer (λ _. done) (changed tbl s o)).0
          (ops_of (with_answer (λ _. done) (changed tbl s o)).1)
  unfolding ops_of
  increment-Agrees id s none e = inl refl
  increment-Agrees id s (some (s', told)) e =
      let (left, m) = tbl.rows-update s s' (has_id id) bump told e in
      increment-affected id told s s' (ap (map op_of) left ∙ map-bumped id (tbl.rows s)) (
        subst (λ (k : ℕ). Tells k told)
          (affected-ops id (length (where_row (has_id id) (tbl.rows s))) s refl) m)

  -- The queue is a list of operations, the oldest one first. `EnqueueOp` appends its operation under
  -- an id above all others; `PendingOps` and `QueueLen` give a device's operations in that order and
  -- their number, `AllPendingOps` gives all; `CompleteOp` and `IncrementAttempts` take out, or count
  -- one more attempt at, the operation of the id: they succeed only when it is there, and report
  -- `ErrNotFound` only when it is not, with the list as it was. With any other error a method that
  -- reads changes nothing, and one that writes has made its whole change or none of it.
  pub call-Agrees :
      (c : Call) (s : tbl.State) → Agrees c (ops_of s) (call c s).0 (ops_of (call c s).1)
  unfolding call enqueue_op pending_ops all_pending_ops complete_op increment_attempts queue_len
  call-Agrees (enqueue op) s = enqueue-Agrees op s (tbl.insert s (row_of op)) refl
  call-Agrees (pending d) s = pending-Agrees d s (tbl.query s (for_device d) true) refl
  call-Agrees all_pending s = all-Agrees s (tbl.query s (λ r. true) true) refl
  call-Agrees (complete id) s = complete-Agrees id s (tbl.delete_where s (has_id id)) refl
  call-Agrees (increment id) s = increment-Agrees id s (tbl.update_where s (has_id id) bump) refl
  call-Agrees (count d) s = count-Agrees d s (tbl.count_where s (for_device d)) refl
