-- ===== src/Metadata/Queue/Memory.antt =====
-- The table of waiting operations kept in memory, which meets the interface.
use mathlib.Core.Option.{some-injective}
use syncy.Base.{
  inr, ℕ, suc, ◌<◌, Bool, not, [], ◌∷◌, ◌++◌, ◌≡◌, nat_eq, list_eq, Option, some, length, All,
  All-append, sym, ap, if_elim, arith,
}
use syncy.Metadata.Queue.{QueueRow, Rows, where_row, updated, Ascending, QueueTable}

-- The rows, and the next id.
pub record State : Type 0 where
  pub rows : Rows
  pub next : ℕ
  pub below : All (λ r. r.0 < next) rows
  pub ordered : Ascending rows

pub where_row-All :
    (p : ℕ × QueueRow → Bool) (Q : ℕ × QueueRow → Type 0) (rs : Rows)
    → All Q rs
    → All Q (where_row p rs)
unfolding where_row
where_row-All p Q [] h = tt
where_row-All p Q (r ∷ rs) (q, h) =
    if_elim (All Q) (p r) (r ∷ where_row p rs) (where_row p rs)
      (λ kept. (q, where_row-All p Q rs h)) (λ gone. where_row-All p Q rs h)

pub where_row-Ascending :
    (p : ℕ × QueueRow → Bool) (rs : Rows) → Ascending rs → Ascending (where_row p rs)
unfolding where_row
where_row-Ascending p [] h = tt
where_row-Ascending p (r ∷ rs) (b, h) =
    if_elim Ascending (p r) (r ∷ where_row p rs) (where_row p rs)
      (λ kept. (where_row-All p (λ s. r.0 < s.0) rs b, where_row-Ascending p rs h))
      (λ gone. where_row-Ascending p rs h)

pub updated-All :
    (Q : ℕ → Type 0) (p : ℕ × QueueRow → Bool) (f : QueueRow → QueueRow) (rs : Rows)
    → All (λ r. Q r.0) rs
    → All (λ r. Q r.0) (updated p f rs)
unfolding updated
updated-All Q p f [] h = tt
updated-All Q p f ((j, row) ∷ rs) (q, h) =
    if_elim (All (λ r. Q r.0)) (p (j, row)) ((j, f row) ∷ updated p f rs)
      ((j, row) ∷ updated p f rs) (λ same. (q, updated-All Q p f rs h))
      (λ other. (q, updated-All Q p f rs h))

pub updated-Ascending :
    (p : ℕ × QueueRow → Bool) (f : QueueRow → QueueRow) (rs : Rows)
    → Ascending rs
    → Ascending (updated p f rs)
unfolding updated
updated-Ascending p f [] h = tt
updated-Ascending p f ((j, row) ∷ rs) (b, h) =
    if_elim Ascending (p (j, row)) ((j, f row) ∷ updated p f rs) ((j, row) ∷ updated p f rs)
      (λ same. (updated-All (λ k. j < k) p f rs b, updated-Ascending p f rs h))
      (λ other. (updated-All (λ k. j < k) p f rs b, updated-Ascending p f rs h))

pub append-Ascending :
    (rs : Rows) (id : ℕ) (row : QueueRow)
    → All (λ r. r.0 < id) rs
    → Ascending rs
    → Ascending (rs ++ (id, row) ∷ [])
append-Ascending [] id row b h = (tt, tt)
append-Ascending (r ∷ rs) id row (lt, b) (a, h) =
    (All-append (λ s. r.0 < s.0) rs ((id, row) ∷ []) a (lt, tt), append-Ascending rs id row b h)

pub below-suc : (rs : Rows) (n : ℕ) → All (λ r. r.0 < n) rs → All (λ r. r.0 < suc n) rs
below-suc [] n h = tt
below-suc (r ∷ rs) n (lt, h) = (omega (arith, lt), below-suc rs n h)

abbrev pub appended : State → QueueRow → State
appended s row = record {
  rows = s.rows ++ (s.next, row) ∷ [];
  next = suc s.next;
  below =
      All-append (λ r. r.0 < suc s.next) s.rows ((s.next, row) ∷ [])
        (below-suc s.rows s.next s.below) (omega arith, tt);
  ordered = append-Ascending s.rows s.next row s.below s.ordered;
}

abbrev pub deleted : State → (ℕ × QueueRow → Bool) → State
deleted s p = record s {
  rows = where_row (λ r. not (p r)) s.rows;
  below = where_row-All (λ r. not (p r)) (λ r. r.0 < s.next) s.rows s.below;
  ordered = where_row-Ascending (λ r. not (p r)) s.rows s.ordered;
}

abbrev pub changed_rows : State → (ℕ × QueueRow → Bool) → (QueueRow → QueueRow) → State
changed_rows s p f = record s {
  rows = updated p f s.rows;
  below = updated-All (λ k. k < s.next) p f s.rows s.below;
  ordered = updated-Ascending p f s.rows s.ordered;
}

pub paired_first :
    {A B : Type 0} (a b : A) (n m : B)
    → ◌≡◌ {A = Option (A × B)} (some (a, n)) (some (b, m))
    → a ≡ b
paired_first a b n m e = ap (λ p. p.0) (some-injective (a, n) (b, m) e)

pub paired_second :
    {A B : Type 0} (a b : A) (n m : B)
    → ◌≡◌ {A = Option (A × B)} (some (a, n)) (some (b, m))
    → n ≡ m
paired_second a b n m e = ap (λ p. p.1) (some-injective (a, n) (b, m) e)

abbrev pub affected_by : State → (ℕ × QueueRow → Bool) → ℕ
affected_by s p = length (where_row p s.rows)

abbrev pub empty_queue : State
empty_queue = record { rows = []; next = 1; below = tt; ordered = tt }

abbrev pub memory_queue : QueueTable
memory_queue = record {
  State = State;
  rows = λ s. s.rows;
  insert = λ s row. some (appended s row, some s.next);
  query = λ s p ordered. some (where_row p s.rows);
  delete_where = λ s p. some (deleted s p, some (affected_by s p));
  update_where = λ s p f. some (changed_rows s p f, some (affected_by s p));
  count_where = λ s p. some (length (where_row p s.rows));
  rows-Ascending = λ s. s.ordered;
  rows-insert = λ s s' row told e. (
    s.next,
    ap (λ t. t.rows) (sym (paired_first (appended s row) s' (some s.next) told e)),
    inr (sym (paired_second (appended s row) s' (some s.next) told e)),
  );
  query-rows = λ s p rs e. sym (some-injective (where_row p s.rows) rs e);
  rows-delete = λ s s' p told e. (
    ap (λ t. t.rows) (sym (paired_first (deleted s p) s' (some (affected_by s p)) told e)),
    inr (sym (paired_second (deleted s p) s' (some (affected_by s p)) told e)),
  );
  rows-update = λ s s' p f told e. (
    ap (λ t. t.rows) (sym (paired_first (changed_rows s p f) s' (some (affected_by s p)) told e)),
    inr (sym (paired_second (changed_rows s p f) s' (some (affected_by s p)) told e)),
  );
  count-rows = λ s p n e. sym (some-injective (length (where_row p s.rows)) n e);
}
