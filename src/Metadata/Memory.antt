-- ===== src/Metadata/Memory.antt =====
-- A table kept in memory, which meets the interface and never fails.
use mathlib.Core.Option.{some-injective}
use syncy.Base.{ℕ, Eq, Option, none, some, ◌≡◌, sym, ap, ◌∙◌, list_eq, nat_eq, ◌==◌, if◌then◌else◌}
use syncy.Base.Dict.{Dict, lookup, insert, erase, lookup-insert, lookup-erase}
use syncy.Metadata.{Table, upserted, affected, Database}

module _ {K R : Type 0} ⦃e : Eq K⦄ where
  pub selected : (d : Dict K R) (k : K) (o : Option R) → some (lookup k d) ≡ some o → o ≡ lookup k d
  selected d k o h = sym (some-injective (lookup k d) o h)

  pub inserted :
      (d d' : Dict K R) (k : K) (row : R) (update : R → R)
      → some (insert k (upserted row update (lookup k d)) d) ≡ some d'
      → (j : K)
      → lookup j d' ≡ (if j == k then some (upserted row update (lookup k d)) else lookup j d)
  inserted d d' k row update h j =
      ap (lookup j) (sym (some-injective (insert k (upserted row update (lookup k d)) d) d' h))
      ∙ lookup-insert j k (upserted row update (lookup k d)) d

  abbrev pub erased : Dict K R → K → Dict K R × Option ℕ
  erased d k = (erase k d, some (affected (lookup k d)))

  pub deleted :
      (d d' : Dict K R) (k : K) (n : Option ℕ)
      → some (erased d k) ≡ some (d', n)
      → (j : K) → lookup j d' ≡ (if j == k then none else lookup j d)
  deleted d d' k n h j =
      ap (λ p. lookup j p.0) (sym (some-injective (erased d k) (d', n) h)) ∙ lookup-erase j k d

  pub counted :
      (d d' : Dict K R) (k : K) (n : ℕ)
      → some (erased d k) ≡ some (d', some n)
      → n ≡ affected (lookup k d)
  counted d d' k n h =
      some-injective n (affected (lookup k d))
        (ap (λ p. p.1) (sym (some-injective (erased d k) (d', some n) h)))

  abbrev pub memory_table : Table K R
  memory_table = record {
    State = Dict K R;
    rows = λ d k. lookup k d;
    select = λ d k. some (lookup k d);
    upsert = λ d k row update. some (insert k (upserted row update (lookup k d)) d);
    delete = λ d k. some (erased d k);
    select-rows = selected;
    rows-upsert = inserted;
    rows-delete = deleted;
    delete_count = counted;
  }

abbrev pub memory_database : Database
memory_database = record {
  devices = memory_table;
  folders = memory_table;
  requests = memory_table;
  settings = memory_table;
}
