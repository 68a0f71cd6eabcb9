-- ===== src/Base/Dict.antt =====
-- Go maps as association lists with the keys in some order of iteration.
use Prim.Native.Nat.{◌≤◌, ◌<◌}
use mathlib.Core.Logic.{inl, inr}
use syncy.Base.Lists.{length, All}
use syncy.Base.Tests.{if◌then◌else◌, Bool-cases}
use syncy.Base.Equality.{Eq, ◌==◌, eq_refl, eq_of_beq}
use mathlib.Core.Path.{subst}
use mathlib.Core.Path.{◌≡◌, refl, sym}
use mathlib.Core.Option.{Option, none, some}
use mathlib.Core.List.{List, [], ◌∷◌}
use native.Mathlib.Omega.{arith}

abbrev pub Dict {ℓ κ} : Type ℓ → Type κ → Type (ℓ ⊔ κ)
Dict K V = List (K × V)

module _ {ℓ κ} {K : Type ℓ} {V : Type κ} ⦃e : Eq K⦄ where
  -- `v, ok := m[k]`
  unfoldable pub lookup : K → Dict K V → Option V
  lookup k [] = none
  lookup k ((j, v) ∷ d) = if k == j then some v else lookup k d

  -- `m[k] = v`
  unfoldable pub insert : K → V → Dict K V → Dict K V
  insert k v [] = (k, v) ∷ []
  insert k v ((j, w) ∷ d) = if k == j then (j, v) ∷ d else (j, w) ∷ insert k v d

  -- `delete(m, k)`
  unfoldable pub erase : K → Dict K V → Dict K V
  erase k [] = []
  erase k ((j, w) ∷ d) = let rest = erase k d in if k == j then rest else (j, w) ∷ rest

  -- A map holds a key once.
  abbrev pub NodupKeys : Dict K V → Type κ
  NodupKeys [] = Unit
  NodupKeys ((k, _) ∷ d) = (lookup k d ≡ none) × NodupKeys d

  pub lookup-insert :
      (j k : K) (v : V) (d : Dict K V)
      → lookup j (insert k v d) ≡ (if j == k then some v else lookup j d)
  unfolding lookup insert
  lookup-insert j k v [] = refl
  lookup-insert j k v ((i, w) ∷ d) = ground (arith, lookup-insert j k v d)

  pub lookup-erase :
      (j k : K) (d : Dict K V) → lookup j (erase k d) ≡ (if j == k then none else lookup j d)
  unfolding lookup erase
  lookup-erase j k [] = ground arith
  lookup-erase j k ((i, w) ∷ d) = ground (arith, lookup-erase j k d)

  pub insert-NodupKeys : (k : K) (v : V) (d : Dict K V) → NodupKeys d → NodupKeys (insert k v d)
  unfolding lookup insert
  insert-NodupKeys k v [] h = (refl, tt)
  insert-NodupKeys k v ((j, w) ∷ d) (fresh, h) =
      ground (arith, insert-NodupKeys k v d h, lookup-insert j k v d)

  pub erase-NodupKeys : (k : K) (d : Dict K V) → NodupKeys d → NodupKeys (erase k d)
  unfolding erase
  erase-NodupKeys k [] h = tt
  erase-NodupKeys k ((j, w) ∷ d) (fresh, h) =
      ground (arith, erase-NodupKeys k d h, lookup-erase j k d)

  length-erase_le : (k : K) (d : Dict K V) → length (erase k d) ≤ length d
  unfolding erase
  length-erase_le k [] = omega arith
  length-erase_le k ((j, w) ∷ d) = ground (arith, length-erase_le k d)

  -- Erasing a key that is there makes the map smaller.
  pub length-erase-lt :
      (k : K) (v : V) (d : Dict K V) → lookup k d ≡ some v → length (erase k d) < length d
  unfolding erase lookup
  length-erase-lt k v [] h = cc h
  length-erase-lt k v ((j, w) ∷ d) h = elim (Bool-cases (k == j)) [
    | inl here ↦ rw here (omega (arith, length-erase_le k d))
    | inr later ↦ rw later (omega (arith, length-erase-lt k v d (rw later at h)))
  ]

  Holds-cons :
      (k : K) (v : V) (d files : Dict K V)
      → lookup k d ≡ none
      → All (λ e. lookup e.0 d ≡ some e.1) files
      → All (λ e. lookup e.0 ((k, v) ∷ d) ≡ some e.1) files
  unfolding lookup
  Holds-cons k v d [] fresh all = tt
  Holds-cons k v d ((p, w) ∷ files) fresh (h, all) = elim (Bool-cases (p == k)) [
    | inl same ↦ absurd (cc (fresh, h, eq_of_beq p k same))
    | inr other ↦ (rw other h, Holds-cons k v d files fresh all)
  ]

  -- The entries of a map are what it holds at their keys.
  pub NodupKeys-All : (d : Dict K V) → NodupKeys d → All (λ e. lookup e.0 d ≡ some e.1) d
  unfolding lookup
  NodupKeys-All [] u = tt
  NodupKeys-All ((k, v) ∷ d) (fresh, u) =
      (rw (eq_refl k), Holds-cons k v d d fresh (NodupKeys-All d u))

  pub lookup-All :
      (P : K × V → Type 0) (k : K) (v : V) (d : Dict K V) → All P d → lookup k d ≡ some v → P (k, v)
  unfolding lookup
  lookup-All P k v [] all e = absurd (cc e)
  lookup-All P k v ((j, w) ∷ d) (h, all) e = elim (Bool-cases (k == j)) [
    | inl same ↦ subst P (sym (cc (eq_of_beq k j same, rw same at e))) h
    | inr other ↦ lookup-All P k v d all (rw other at e)
  ]
