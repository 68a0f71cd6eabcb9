-- ===== src/Base/Order.antt =====
-- Go's order on strings, and the sorting that `sort` does with a strict order: keys that differ
-- have one sorted sequence.
use Prim.Native.Nat.{ℕ, zero, suc}
use mathlib.Core.Path.{◌≡◌, refl}
use native.Mathlib.Omega.{arith}
use mathlib.Core.Logic.{◌⊎◌, inl, inr}
use mathlib.Core.Bool.{Bool, true, false}
use mathlib.Core.List.{List, [], ◌∷◌}
use syncy.Base.Tests.{ltb, if◌then◌else◌, Bool-cases, if_elim}
use syncy.Base.Lists.{All, Any, take, drop}

-- `s < t` on strings.
unfoldable pub bytes_lt : List ℕ → List ℕ → Bool
bytes_lt s [] = false
bytes_lt [] (d ∷ t) = true
bytes_lt (c ∷ s) (d ∷ t) =
    let rest = bytes_lt s t in if ltb c d then true else if ltb d c then false else rest

module _ {ℓ} {A : Type ℓ} (before : A → A → Bool) where
  unfoldable pub insert_sorted : A → List A → List A
  insert_sorted a [] = a ∷ []
  insert_sorted a (b ∷ bs) =
      let rest = insert_sorted a bs in if before b a then b ∷ rest else a ∷ b ∷ bs

  unfoldable pub sort : List A → List A
  unfolding insert_sorted
  sort [] = []
  sort (a ∷ as') = insert_sorted a (sort as')

  pub insert_sorted-All {κ} :
      (P : A → Type κ) (a : A) (bs : List A) → P a → All P bs → All P (insert_sorted a bs)
  unfolding insert_sorted
  insert_sorted-All P a [] h all = (h, tt)
  insert_sorted-All P a (b ∷ bs) h (hb, all) = elim (Bool-cases (before b a)) [
    | inl later ↦ rw later (hb, insert_sorted-All P a bs h all)
    | inr now ↦ rw now (h, (hb, all))
  ]

  -- Sorting keeps what holds of every element.
  pub sort-All {κ} : (P : A → Type κ) (bs : List A) → All P bs → All P (sort bs)
  unfolding sort
  sort-All P [] all = tt
  sort-All P (b ∷ bs) (hb, all) = insert_sorted-All P b (sort bs) hb (sort-All P bs all)

  pub insert_sorted-Any :
      (P : A → Type 0) (a : A) (bs : List A) → P a ⊎ Any P bs → Any P (insert_sorted a bs)
  unfolding insert_sorted
  insert_sorted-Any P a [] h = h
  insert_sorted-Any P a (b ∷ bs) h = elim (Bool-cases (before b a)) [
    | inr now ↦ rw now h
    | inl later ↦ rw later (elim h [
      | inl p ↦ inr (insert_sorted-Any P a bs (inl p))
      | inr (inl p) ↦ inl p
      | inr (inr q) ↦ inr (insert_sorted-Any P a bs (inr q))
    ])
  ]

  -- Sorting keeps what holds of some element.
  pub sort-Any : (P : A → Type 0) (bs : List A) → Any P bs → Any P (sort bs)
  unfolding sort
  sort-Any P [] h = elim h [ ]
  sort-Any P (b ∷ bs) (inl p) = insert_sorted-Any P b (sort bs) (inl p)
  sort-Any P (b ∷ bs) (inr q) = insert_sorted-Any P b (sort bs) (inr (sort-Any P bs q))

  insert_sorted-Any_back :
      (P : A → Type 0) (a : A) (bs : List A) → Any P (insert_sorted a bs) → P a ⊎ Any P bs
  unfolding insert_sorted
  insert_sorted-Any_back P a [] h = h
  insert_sorted-Any_back P a (b ∷ bs) h =
      if_elim (λ l. Any P l → P a ⊎ Any P (b ∷ bs)) (before b a) (b ∷ insert_sorted a bs)
        (a ∷ b ∷ bs)
        (λ later k. elim k [
          | inl p ↦ inr (inl p)
          | inr q ↦ elim (insert_sorted-Any_back P a bs q) [ inl r ↦ inl r | inr r ↦ inr (inr r) ]
        ])
        (λ now k. k) h

  -- Sorting adds no element.
  pub sort-Any_back : (P : A → Type 0) (bs : List A) → Any P (sort bs) → Any P bs
  unfolding sort
  sort-Any_back P [] h = h
  sort-Any_back P (b ∷ bs) h = elim (insert_sorted-Any_back P b (sort bs) h) [
    | inl p ↦ inl p
    | inr q ↦ inr (sort-Any_back P bs q)
  ]

  -- No element stands behind one that it comes before.
  abbrev pub Sorted : List A → Type 0
  Sorted [] = Unit
  Sorted (a ∷ as') = All (λ b. before b a ≡ false) as' × Sorted as'

  module _ (asym : (a b : A) → before a b ≡ true → before b a ≡ false)
      (chain : (a b c : A) → before a b ≡ false → before b c ≡ false → before a c ≡ false) where
    all_chain :
        (a b : A) (cs : List A)
        → before b a ≡ false
        → All (λ c. before c b ≡ false) cs
        → All (λ c. before c a ≡ false) cs
    all_chain a b [] h all = tt
    all_chain a b (c ∷ cs) h (hc, all) = (chain c b a hc h, all_chain a b cs h all)

    insert_sorted-Sorted : (a : A) (bs : List A) → Sorted bs → Sorted (insert_sorted a bs)
    unfolding insert_sorted
    insert_sorted-Sorted a [] h = (tt, tt)
    insert_sorted-Sorted a (b ∷ bs) (least, h) =
        if_elim Sorted (before b a) (b ∷ insert_sorted a bs) (a ∷ b ∷ bs)
          (λ later. (
            insert_sorted-All (λ c. before c b ≡ false) a bs (asym b a later) least,
            insert_sorted-Sorted a bs h,
          ))
          (λ now. ((now, all_chain a b bs now least), (least, h)))

    pub sort-Sorted : (bs : List A) → Sorted (sort bs)
    unfolding sort
    sort-Sorted [] = tt
    sort-Sorted (b ∷ bs) = insert_sorted-Sorted b (sort bs) (sort-Sorted bs)

  all_behind :
      (P : A → Type 0) (a : A) (bs : List A)
      → All (λ b. before b a ≡ false) bs
      → Any P bs
      → (b : A) × P b × (before b a ≡ false)
  all_behind P a [] all h = elim h [ ]
  all_behind P a (b ∷ bs) (hb, all) (inl p) = (b, p, hb)
  all_behind P a (b ∷ bs) (hb, all) (inr q) = all_behind P a bs all q

  Any-dropped : (P : A → Type 0) (n : ℕ) (bs : List A) → Any P (drop n bs) → Any P bs
  Any-dropped P zero bs h = h
  Any-dropped P (suc n) [] h = h
  Any-dropped P (suc n) (b ∷ bs) h = inr (Any-dropped P n bs h)

  -- The first elements of a sorted list do not come behind one of the others.
  pub Sorted-take :
      (P : A → Type 0) (n : ℕ) (bs : List A)
      → Sorted bs
      → Any P (drop n bs)
      → All (λ a. (b : A) × P b × (before b a ≡ false)) (take n bs)
  Sorted-take P zero bs h q = tt
  Sorted-take P (suc n) [] h q = tt
  Sorted-take P (suc n) (b ∷ bs) (least, h) q =
      (all_behind P b bs least (Any-dropped P n bs q), Sorted-take P n bs h q)

pub bytes_lt-asym : (s t : List ℕ) → bytes_lt s t ≡ true → bytes_lt t s ≡ false
unfolding bytes_lt
bytes_lt-asym s [] h = cc h
bytes_lt-asym [] (d ∷ t) h = refl
bytes_lt-asym (c ∷ s) (d ∷ t) h = ground (arith, bytes_lt-asym s t)

pub bytes_lt-chain :
    (s t u : List ℕ) → bytes_lt s t ≡ false → bytes_lt t u ≡ false → bytes_lt s u ≡ false
unfolding bytes_lt
bytes_lt-chain s t [] h k = refl
bytes_lt-chain [] [] (e ∷ u) h k = k
bytes_lt-chain [] (d ∷ t) (e ∷ u) h k = h
bytes_lt-chain (c ∷ s) [] (e ∷ u) h k = cc k
bytes_lt-chain (c ∷ s) (d ∷ t) (e ∷ u) h k = ground (arith, bytes_lt-chain s t u)
