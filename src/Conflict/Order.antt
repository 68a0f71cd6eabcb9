-- ===== src/Conflict/Order.antt =====
-- engine/internal/conflict/conflict.go: `Compare` and the pointwise order of version vectors.
use native.Mathlib.Nat.{le_antisymm}
use syncy.Base.{
  ℕ, Bool, sym, ◌∙◌, ◌≤◌, ◌<◌, ◌≡◌, ◌⊎◌, inl, inr, refl, none, some, true, false, [], ◌∷◌, ltb,
  arith, list_eq, nat_eq, Option-cases, Bool-cases, ◌&&◌, ◌==◌, if◌then◌else◌,
}
use syncy.Base.Dict.{lookup, NodupKeys}
use syncy.Conflict.{
  DeviceId, Vector, Flags, Ordering, get, ordering_of, compare_entry, compare_own, compare_rest,
  compare, flags, missing,
}

-- `v` knows no more than `w` of any device.
abbrev pub Below : Vector → Vector → Type 0
Below v w = (k : DeviceId) → get v k ≤ get w k

-- `v` knows more than `w` of some device.
abbrev pub Exceeds : Vector → Vector → Type 0
Exceeds v w = (k : DeviceId) × (get w k < get v k)

-- What each result says of the two vectors. The four cases exclude one another.
abbrev pub Describes : Ordering → Vector → Vector → Type 0
Describes Ordering.equal v w = (k : DeviceId) → get v k ≡ get w k
Describes Ordering.greater v w = Below w v × Exceeds v w
Describes Ordering.less v w = Below v w × Exceeds w v
Describes Ordering.concurrent v w = Exceeds v w × Exceeds w v

pub get-cons :
    (j k : DeviceId) (n : ℕ) (v : Vector) → get ((k, n) ∷ v) j ≡ (if j == k then n else get v j)
unfolding get lookup
get-cons j k n v = ground arith

pub get-none : (k : DeviceId) (v : Vector) → lookup k v ≡ none → get v k ≡ 0
unfolding get
get-none k v h = ground arith

get-some : (k : DeviceId) (n : ℕ) (v : Vector) → lookup k v ≡ some n → get v k ≡ n
unfolding get
get-some k n v h = ground arith

lookup-cons :
    (j k : DeviceId) (n : ℕ) (v : Vector)
    → lookup j ((k, n) ∷ v) ≡ (if j == k then some n else lookup j v)
unfolding lookup
lookup-cons j k n v = refl

get_self : (k : DeviceId) (n : ℕ) (v : Vector) → get ((k, n) ∷ v) k ≡ n
get_self k n v = ground (arith, get-cons k k n v)

entry_greater :
    (o : Vector) (k : DeviceId) (n : ℕ) (f : Flags)
    → (compare_entry o k n f).greater ≡ true
    → (f.greater ≡ true) ⊎ (get o k < n)
unfolding compare_entry
entry_greater o k n f h = ground arith

entry_less :
    (o : Vector) (k : DeviceId) (n : ℕ) (f : Flags)
    → (compare_entry o k n f).less ≡ true
    → (f.less ≡ true) ⊎ (n < get o k)
unfolding compare_entry
entry_less o k n f h = ground arith

module _ (o : Vector) where
  own_greater_clear :
      (v : Vector) (f : Flags)
      → (compare_own v o f).greater ≡ false
      → (f.greater ≡ false) × ((k : DeviceId) → get v k ≤ get o k)
  unfolding compare_own
  own_greater_clear [] f h = (h, λ k. rw (get-none k [] (unfold lookup in refl)) (omega arith))
  own_greater_clear ((k, n) ∷ v) f h =
      let (c, ih) = own_greater_clear v (compare_entry o k n f) h in
      unfold compare_entry in (ground arith, λ j. ground (arith, get-cons j k n v, ih j))

  own_less_clear :
      (v : Vector) (f : Flags)
      → (compare_own v o f).less ≡ false
      → (f.less ≡ false) × ((k : DeviceId) (n : ℕ) → lookup k v ≡ some n → get o k ≤ n)
  unfolding compare_own
  own_less_clear [] f h = (h, λ k n p. unfold lookup in cc)
  own_less_clear ((k, n) ∷ v) f h =
      let (c, ih) = own_less_clear v (compare_entry o k n f) h in
      unfold compare_entry in (ground arith, λ j m p. ground (arith, lookup-cons j k n v, ih j m))

  own_greater_set :
      (v : Vector) (f : Flags)
      → NodupKeys v
      → (compare_own v o f).greater ≡ true
      → (f.greater ≡ true) ⊎ Exceeds v o
  unfolding compare_own
  own_greater_set [] f u h = inl h
  own_greater_set ((k, n) ∷ v) f (fresh, u) h =
      elim (own_greater_set v (compare_entry o k n f) u h) [
        | inl g ↦ elim (entry_greater o k n f g) [
          | inl old ↦ inl old
          | inr lt ↦ inr (k, rw get_self lt)
        ]
        | inr (j, lt) ↦ inr (j, ground (arith, get-cons j k n v, get-none k v fresh))
      ]

  -- A key of `v` whose count `o` exceeds.
  abbrev Behind : Vector → Type 0
  Behind v = (k : DeviceId) × (get v k < get o k)

  own_less_set :
      (v : Vector) (f : Flags)
      → NodupKeys v
      → (compare_own v o f).less ≡ true
      → (f.less ≡ true) ⊎ ((k : DeviceId) × (m : ℕ) × (lookup k v ≡ some m) × (m < get o k))
  unfolding compare_own
  own_less_set [] f u h = inl h
  own_less_set ((k, n) ∷ v) f (fresh, u) h = elim (own_less_set v (compare_entry o k n f) u h) [
    | inl g ↦ elim (entry_less o k n f g) [
      | inl old ↦ inl old
      | inr lt ↦ inr (k, n, ground (arith, lookup-cons k k n v), lt)
    ]
    | inr (j, m, found, lt) ↦ inr (j, m, ground (arith, lookup-cons j k n v), lt)
  ]

module _ (v : Vector) where
  rest_greater : (o : Vector) (f : Flags) → (compare_rest v o f).greater ≡ f.greater
  unfolding compare_rest
  rest_greater [] f = refl
  rest_greater ((k, n) ∷ o) f =
      ground (arith, rest_greater o f, rest_greater o (record f { less = true }))

  rest_less_clear :
      (o : Vector) (f : Flags)
      → (compare_rest v o f).less ≡ false
      → (f.less ≡ false) × ((k : DeviceId) → lookup k v ≡ none → get o k ≡ 0)
  unfolding compare_rest
  rest_less_clear [] f h = (h, λ k _. get-none k [] (unfold lookup in refl))
  rest_less_clear ((k, n) ∷ o) f h =
      let f' : Flags = if missing (lookup k v) && ltb 0 n then record f { less = true } else f in
      let (c, ih) = rest_less_clear o f' h in
      (ground arith, λ j none_of. ground (arith, get-cons j k n o, ih j none_of))

  rest_less_set :
      (o : Vector) (f : Flags)
      → NodupKeys o
      → (compare_rest v o f).less ≡ true
      → (f.less ≡ true) ⊎ ((k : DeviceId) × (lookup k v ≡ none) × (0 < get o k))
  unfolding compare_rest
  rest_less_set [] f u h = inl h
  rest_less_set ((k, n) ∷ o) f (fresh, u) h =
      let f' : Flags = if missing (lookup k v) && ltb 0 n then record f { less = true } else f in
      elim (rest_less_set o f' u h) [
        | inl g ↦ elim (Bool-cases (missing (lookup k v) && ltb 0 n)) [
          | inl t ↦ inr (k, ground arith, rw get_self (ground arith))
          | inr t ↦ inl (ground arith)
        ]
        | inr (j, gone, lt) ↦ inr (j, gone, ground (arith, get-cons j k n o, get-none k o fresh))
      ]

-- The two flags at the end of `Compare`.
module _ (v o : Vector) where
  greater_flag_clear : (flags v o).greater ≡ false → Below v o
  unfolding flags
  greater_flag_clear h = (own_greater_clear o v _ (sym (rest_greater v o _) ∙ h)).1

  less_flag_clear : (flags v o).less ≡ false → Below o v
  unfolding flags
  less_flag_clear h k =
      let (own, rest) = rest_less_clear v o _ h in
      let (_, mine) = own_less_clear o v _ own in
      elim (Option-cases (lookup k v)) [
        | inl e ↦ rw (rest k e) (omega arith)
        | inr (n, e) ↦ rw (get-some k n v e) (mine k n e)
      ]

  greater_flag_set : NodupKeys v → (flags v o).greater ≡ true → Exceeds v o
  unfolding flags
  greater_flag_set u h = elim (own_greater_set o v _ u (sym (rest_greater v o _) ∙ h)) [
    | inl e ↦ cc
    | inr x ↦ x
  ]

  less_flag_set : NodupKeys v → NodupKeys o → (flags v o).less ≡ true → Exceeds o v
  unfolding flags
  less_flag_set u w h = elim (rest_less_set v o _ w h) [
    | inl own ↦ elim (own_less_set o v _ u own) [
      | inl e ↦ cc
      | inr (k, n, found, lt) ↦ (k, rw (get-some k n v found) lt)
    ]
    | inr (k, gone, lt) ↦ (k, rw (get-none k v gone) lt)
  ]

-- The last switch of `Compare`, from what its flags mean.
switch_Describes :
    (v o : Vector) (g l : Bool)
    → (g ≡ true → Exceeds v o)
    → (g ≡ false → Below v o)
    → (l ≡ true → Exceeds o v)
    → (l ≡ false → Below o v)
    → Describes (ordering_of (record { greater = g; less = l })) v o
switch_Describes v o true true gt gf lt lf = (gt refl, lt refl)
switch_Describes v o true false gt gf lt lf = (lf refl, gt refl)
switch_Describes v o false true gt gf lt lf = (gf refl, lt refl)
switch_Describes v o false false gt gf lt lf = λ k. le_antisymm (gf refl k) (lf refl k)

-- `Compare` returns the one ordering that describes the two vectors, missing devices counting
-- as zero; the maps hold each device once.
pub compare-Describes : (v o : Vector) → NodupKeys v → NodupKeys o → Describes (compare v o) v o
unfolding compare
compare-Describes v o u w =
    switch_Describes v o (flags v o).greater (flags v o).less (greater_flag_set v o u)
      (greater_flag_clear v o) (less_flag_set v o u w) (less_flag_clear v o)

-- No two descriptions hold of the same vectors, so the description determines the result.
pub Describes-unique : (a b : Ordering) (v o : Vector) → Describes a v o → Describes b v o → a ≡ b
Describes-unique Ordering.equal Ordering.equal v o p q = refl
Describes-unique Ordering.greater Ordering.greater v o p q = refl
Describes-unique Ordering.less Ordering.less v o p q = refl
Describes-unique Ordering.concurrent Ordering.concurrent v o p q = refl
Describes-unique Ordering.equal Ordering.greater v o p (_, (k, q)) = absurd (omega (arith, p k))
Describes-unique Ordering.equal Ordering.less v o p (_, (k, q)) = absurd (omega (arith, p k))
Describes-unique Ordering.equal Ordering.concurrent v o p ((k, q), _) = absurd (omega (arith, p k))
Describes-unique Ordering.greater Ordering.equal v o (_, (k, q)) p = absurd (omega (arith, p k))
Describes-unique Ordering.less Ordering.equal v o (_, (k, q)) p = absurd (omega (arith, p k))
Describes-unique Ordering.concurrent Ordering.equal v o ((k, q), _) p = absurd (omega (arith, p k))
Describes-unique Ordering.greater Ordering.less v o (b, _) (_, (k, q)) = absurd (omega (arith, b k))
Describes-unique Ordering.greater Ordering.concurrent v o (b, _) (_, (k, q)) =
    absurd (omega (arith, b k))
Describes-unique Ordering.less Ordering.greater v o (b, _) (_, (k, q)) = absurd (omega (arith, b k))
Describes-unique Ordering.less Ordering.concurrent v o (b, _) ((k, q), _) =
    absurd (omega (arith, b k))
Describes-unique Ordering.concurrent Ordering.greater v o (_, (k, q)) (b, _) =
    absurd (omega (arith, b k))
Describes-unique Ordering.concurrent Ordering.less v o ((k, q), _) (b, _) =
    absurd (omega (arith, b k))

-- What the other side computes.
abbrev pub flip : Ordering → Ordering
flip Ordering.equal = Ordering.equal
flip Ordering.greater = Ordering.less
flip Ordering.less = Ordering.greater
flip Ordering.concurrent = Ordering.concurrent

flip-Describes : (a : Ordering) (v o : Vector) → Describes a v o → Describes (flip a) o v
flip-Describes Ordering.equal v o p = λ k. sym (p k)
flip-Describes Ordering.greater v o p = p
flip-Describes Ordering.less v o p = p
flip-Describes Ordering.concurrent v o (p, q) = (q, p)

-- The two sides of an exchange reach opposite verdicts: `other.Compare(v)` is `v.Compare(other)`
-- with greater and less exchanged; the maps hold each device once.
pub compare-flip : (v o : Vector) → NodupKeys v → NodupKeys o → compare o v ≡ flip (compare v o)
compare-flip v o u w =
    Describes-unique (compare o v) (flip (compare v o)) o v (compare-Describes o v w u)
      (flip-Describes (compare v o) v o (compare-Describes v o u w))
