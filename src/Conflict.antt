-- ===== src/Conflict.antt =====
-- engine/internal/conflict/conflict.go: version vectors, their comparison, conflict names.
pub mod Order
pub mod Merge
pub mod Name
use syncy.Base.{
  ℕ, ◌+◌, ◌%◌, ◌^◌, ◌<◌, Option, none, some, Bool, true, false, [], ◌∷◌, ◌&&◌, ltb, if◌then◌else◌,
  Bytes, str, list_eq, nat_eq,
}
use syncy.Base.Dict.{Dict, lookup, insert}

abbrev pub DeviceId : Type 0
DeviceId = Bytes

-- `type Vector map[core.DeviceID]uint64`
abbrev pub Vector : Type 0
Vector = Dict DeviceId ℕ

pub data Ordering : Type 0 where
  equal greater less concurrent : Ordering

-- `Ordering.String`, at the four orderings.
unfoldable pub ordering_name : Ordering → Bytes
ordering_name equal = str "equal"
ordering_name greater = str "greater"
ordering_name less = str "less"
ordering_name concurrent = str "concurrent"

abbrev or_zero : Option ℕ → ℕ
or_zero none = 0
or_zero (some n) = n

-- `v[k]`: zero where the key is missing.
unfoldable pub get : Vector → DeviceId → ℕ
unfolding lookup
get v k = or_zero (lookup k v)

-- The loop of `Clone`, which copies each entry.
unfoldable pub clone_into : Vector → Vector → Vector
clone_into [] out = out
clone_into ((k, n) ∷ v) out = clone_into v (insert k n out)

unfoldable pub clone : Vector → Vector
unfolding clone_into
clone v = clone_into v []

-- `v[id]++` on a uint64.
unfoldable pub increment : Vector → DeviceId → Vector
unfolding get
increment v id = insert id ((get v id + 1) % 2 ^ 64) v

-- `v.Merge(other)`: the loop over the entries of `other`, which updates `v`.
unfoldable pub merge : Vector → Vector → Vector
unfolding get
merge v [] = v
merge v ((k, n) ∷ other) = merge (if ltb (get v k) n then insert k n v else v) other

-- The flags of `Compare`.
pub record Flags : Type 0 where
  pub greater : Bool
  pub less : Bool

-- The body of the first loop of `Compare`, at one entry of `v`.
unfoldable pub compare_entry : Vector → DeviceId → ℕ → Flags → Flags
unfolding get
compare_entry other k n f =
    if ltb (get other k) n
    then record f { greater = true }
    else if ltb n (get other k)
    then record f { less = true }
    else f

unfoldable pub compare_own : Vector → Vector → Flags → Flags
unfolding compare_entry
compare_own [] other f = f
compare_own ((k, n) ∷ v) other f = compare_own v other (compare_entry other k n f)

abbrev missing : Option ℕ → Bool
missing none = true
missing (some n) = false

-- The second loop of `Compare`: positive entries of `other` that `v` lacks.
unfoldable pub compare_rest : Vector → Vector → Flags → Flags
compare_rest v [] f = f
compare_rest v ((k, n) ∷ other) f =
    compare_rest v other (if missing (lookup k v) && ltb 0 n then record f { less = true } else f)

abbrev pub ordering_of : Flags → Ordering
ordering_of f =
    if f.greater && f.less
    then Ordering.concurrent
    else if f.greater
    then Ordering.greater
    else if f.less
    then Ordering.less
    else Ordering.equal

unfoldable pub flags : Vector → Vector → Flags
unfolding compare_own compare_rest
flags v other =
    compare_rest v other (compare_own v other (record { greater = false; less = false }))

unfoldable pub compare : Vector → Vector → Ordering
unfolding flags
compare v other = ordering_of (flags v other)

unfoldable pub concurrent_with : Vector → Vector → Bool
unfolding compare
concurrent_with v other = elim (compare v other) [ Ordering.concurrent ↦ true | _ ↦ false ]
