-- ===== src/Metadata/Synced/Memory.antt =====
-- The table of baselines kept in memory, which meets the interface.
use mathlib.Core.Path.{subst}
use mathlib.Core.Option.{some-injective}
use syncy.Base.{
  Bytes, Bool, true, false, [], ◌≡◌, ◌==◌, ◌&&◌, nat_eq, list_eq, Option, none, some, if◌then◌else◌,
  Bool-cases, refl, sym, ap, ◌∙◌, inl, inr,
}
use syncy.Base.Dict.{Dict, lookup, insert, NodupKeys, insert-NodupKeys, lookup-insert}
use syncy.Metadata.Synced.{SyncedTable}

abbrev pub Rows : Type 0
Rows = (d : Dict Bytes Bytes) × NodupKeys d

abbrev pub State : Type 0
State = Bytes → Rows

abbrev pub without : State → Bytes → State
without t f = λ g. if g == f then ([], tt) else t g

abbrev pub with_row : State → Bytes → Bytes → Bytes → State
with_row t f p h =
    λ g. if g == f then (insert p h (t g).0, insert-NodupKeys p h (t g).0 (t g).1) else t g

-- The primary key: a row that is there already is refused.
abbrev pub fresh_only : Option Bytes → State → Option State
fresh_only none t = some t
fresh_only (some h) t = none

row_at :
    (r s : Rows) (b : Bool) (p : Bytes)
    → lookup p (if b then r else s).0 ≡ (if b then lookup p r.0 else lookup p s.0)
row_at r s true p = refl
row_at r s false p = refl

pub without-rows :
    (t t' : State) (f : Bytes)
    → some (without t f) ≡ some t'
    → (g p : Bytes) → lookup p (t' g).0 ≡ (if g == f then none else lookup p (t g).0)
unfolding lookup
without-rows t t' f e g p =
    ap (λ u. lookup p (u g).0) (sym (some-injective (without t f) t' e))
    ∙ row_at ([], tt) (t g) (g == f) p

pub with_row-rows :
    (t t' : State) (f p h : Bytes) (o : Option Bytes)
    → fresh_only o (with_row t f p h) ≡ some t'
    → (g q : Bytes)
    → lookup q (t' g).0 ≡ (if (g == f) && (q == p) then some h else lookup q (t g).0)
with_row-rows t t' f p h (some old) e g q = cc e
with_row-rows t t' f p h none e g q =
    ap (λ u. lookup q (u g).0) (sym (some-injective (with_row t f p h) t' e))
    ∙ elim (Bool-cases (g == f)) [
      | inl here ↦ rw (here) (lookup-insert q p h (t g).0)
      | inr there ↦ rw there refl
    ]

abbrev pub memory_synced : SyncedTable
memory_synced = record {
  State = State;
  Tx = State;
  rows = λ s f p. lookup p (s f).0;
  tx_rows = λ t f p. lookup p (t f).0;
  select = λ s f. some (s f).0;
  begin = λ s. some s;
  delete_folder = λ t f. some (without t f);
  prepares = λ t. true;
  insert_row = λ t f p h. fresh_only (lookup p (t f).0) (with_row t f p h);
  commit = λ s t. some t;
  select-NodupKeys = λ s f rs e. subst NodupKeys (some-injective (s f).0 rs e) (s f).1;
  select-rows = λ s f rs e p. ap (lookup p) (sym (some-injective (s f).0 rs e));
  rows-begin = λ s t e g p. ap (λ u. lookup p (u g).0) (sym (some-injective s t e));
  rows-delete = without-rows;
  rows-insert = λ t t' f p h. with_row-rows t t' f p h (lookup p (t f).0);
  rows-commit = λ s s' t e g p. ap (λ u. lookup p (u g).0) (sym (some-injective t s' e));
}
