-- ===== src/Conflict/Merge.antt =====
-- `Merge`, `Increment` and `Clone` of version vectors.
use native.Mathlib.Nat.{mod-eq_of_lt}
use syncy.Base.{
  ℕ, sym, ◌∙◌, ◌+◌, ◌^◌, ◌<◌, ◌≡◌, refl, [], ◌∷◌, ltb, arith, list_eq, nat_eq, inl, inr, ◌%◌, true,
  ◌≢◌, ◌==◌, if◌then◌else◌, Option-cases,
}
use syncy.Base.Dict.{lookup, insert, NodupKeys, lookup-insert, insert-NodupKeys}
use syncy.Conflict.{
  DeviceId, Vector, Ordering, get, missing, concurrent_with, clone, clone_into, increment, merge,
  compare,
}
use syncy.Conflict.Order.{Below, compare-Describes, get-cons, get-none, Describes-unique}

get-insert :
    (j k : DeviceId) (n : ℕ) (v : Vector) → get (insert k n v) j ≡ (if j == k then n else get v j)
unfolding get
get-insert j k n v = ground (arith, lookup-insert j k n v)

abbrev pub larger : ℕ → ℕ → ℕ
larger a b = if ltb a b then b else a

-- After `v.Merge(o)` the vector holds, at every device, the larger of the two counts.
pub get-merge :
    (v o : Vector) → NodupKeys o → (j : DeviceId) → get (merge v o) j ≡ larger (get v j) (get o j)
unfolding merge
get-merge v [] u j = rw (get-none j [] (unfold lookup in refl)) (ground arith)
get-merge v ((k, n) ∷ o) (fresh, u) j =
    let v' : Vector = if ltb (get v k) n then insert k n v else v in
    ground (arith, get-merge v' o u j, get-cons j k n o, get-none k o fresh, get-insert j k n v)

pub merge-NodupKeys : (v o : Vector) → NodupKeys v → NodupKeys (merge v o)
unfolding merge
merge-NodupKeys v [] u = u
merge-NodupKeys v ((k, n) ∷ o) u = ground (
  arith,
  insert-NodupKeys k n v u,
  merge-NodupKeys (if ltb (get v k) n then insert k n v else v) o,
)

-- `Merge` gives the least vector above both: above each of the two, and below every other such
-- vector.
pub merge-Below :
    (v o : Vector)
    → NodupKeys o
    → Below v (merge v o)
      × Below o (merge v o)
      × ((w : Vector) → Below v w → Below o w → Below (merge v o) w)
merge-Below v o u = (
  λ k. ground (arith, get-merge v o u k),
  λ k. ground (arith, get-merge v o u k),
  λ w p q k. ground (arith, get-merge v o u k, p k, q k),
)

-- Two devices that merge each other's vectors end with vectors that compare equal.
pub merge_comm :
    (v o : Vector) → NodupKeys v → NodupKeys o → compare (merge v o) (merge o v) ≡ Ordering.equal
merge_comm v o u w =
    Describes-unique (compare (merge v o) (merge o v)) Ordering.equal (merge v o) (merge o v)
      (compare-Describes (merge v o) (merge o v) (merge-NodupKeys v o u) (merge-NodupKeys o v w))
      (λ k. ground (arith, get-merge v o w k, get-merge o v u k))

get-increment :
    (j id : DeviceId) (v : Vector)
    → get v id + 1 < 2 ^ 64
    → get (increment v id) j ≡ (if j == id then get v id + 1 else get v j)
unfolding increment
get-increment j id v h = ground (
  arith,
  get-insert j id ((get v id + 1) % 2 ^ 64) v,
  mod-eq_of_lt {n = get v id + 1} {m = 2 ^ 64} h,
)

increment-NodupKeys : (v : Vector) (id : DeviceId) → NodupKeys v → NodupKeys (increment v id)
unfolding increment
increment-NodupKeys v id u = insert-NodupKeys id _ v u

-- A local edit makes the vector strictly greater, while the device's counter is below 2^64 - 1.
pub compare-increment :
    (v : Vector) (id : DeviceId)
    → NodupKeys v
    → get v id + 1 < 2 ^ 64
    → compare (increment v id) v ≡ Ordering.greater
compare-increment v id u h =
    Describes-unique (compare (increment v id) v) Ordering.greater (increment v id) v
      (compare-Describes (increment v id) v (increment-NodupKeys v id u) u)
      ((λ k. ground (arith, get-increment k id v h)), (id, ground (arith, get-increment id id v h)))

get-clone_into :
    (v out : Vector)
    → NodupKeys v
    → (j : DeviceId)
    → get (clone_into v out) j ≡ (if missing (lookup j v) then get out j else get v j)
unfolding clone_into lookup
get-clone_into [] out u j = refl
get-clone_into ((k, n) ∷ v) out (fresh, u) j = ground (
  arith,
  get-clone_into v (insert k n out) u j,
  get-insert j k n out,
  get-cons j k n v,
  get-none k v fresh,
)

-- A clone reads as the vector that was cloned, at every device.
pub get-clone : (v : Vector) → NodupKeys v → (j : DeviceId) → get (clone v) j ≡ get v j
unfolding clone
get-clone v u j = elim (Option-cases (lookup j v)) [
  | inl e ↦
      get-clone_into v [] u j ∙ rw e (get-none j [] (unfold lookup in refl) ∙ sym (get-none j v e))
  | inr (n, e) ↦ get-clone_into v [] u j ∙ rw e
]

clone_into-NodupKeys : (v out : Vector) → NodupKeys out → NodupKeys (clone_into v out)
unfolding clone_into
clone_into-NodupKeys [] out u = u
clone_into-NodupKeys ((k, n) ∷ v) out u =
    clone_into-NodupKeys v (insert k n out) (insert-NodupKeys k n out u)

clone-NodupKeys : (v : Vector) → NodupKeys (clone v)
unfolding clone
clone-NodupKeys v = clone_into-NodupKeys v [] tt

-- Two devices that edit copies of one version without seeing each other's edit get concurrent
-- vectors; each counter is below 2^64 - 1.
pub edits_concurrent :
    (v : Vector) (a b : DeviceId)
    → NodupKeys v
    → a ≢ b
    → get v a + 1 < 2 ^ 64
    → get v b + 1 < 2 ^ 64
    → concurrent_with (increment (clone v) a) (increment (clone v) b) ≡ true
unfolding concurrent_with
edits_concurrent v a b u ne ha hb =
    let c : Vector = clone v in
    let ca = get-clone v u a in
    let cb = get-clone v u b in
    let ga : get c a + 1 < 2 ^ 64 = rw ca ha in
    let gb : get c b + 1 < 2 ^ 64 = rw cb hb in
    let e : compare (increment c a) (increment c b) ≡ Ordering.concurrent =
      Describes-unique (compare (increment c a) (increment c b)) Ordering.concurrent (increment c a)
        (increment c b)
        (compare-Describes (increment c a) (increment c b)
          (increment-NodupKeys c a (clone-NodupKeys v))
          (increment-NodupKeys c b (clone-NodupKeys v)))
        (
          (a, ground (arith, get-increment a a c ga, get-increment a b c gb)),
          (b, ground (arith, get-increment b b c gb, get-increment b a c ga)),
        ) in
    rw (concurrent_with, e)
