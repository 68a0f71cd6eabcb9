-- ===== src/Base/Equality.antt =====
-- Go's `==` at the types whose equality the program tests.
use Prim.Native.Nat.{ℕ}
use mathlib.Core.Path.{◌≡◌, refl, ap}
use mathlib.Core.Logic.{◌≢◌, ite, dite}
use mathlib.Core.Bool.{Bool, true, false}
use mathlib.Core.List.{List, [], ◌∷◌}
use native.Mathlib.Omega.{arith}
use native.Mathlib.Decide.{ℕ_discrete}

pub record Eq {ℓ} (A : Type ℓ) : Type ℓ where
  pub dec : Discrete A

infix 50 ◌==◌
abbrev pub ◌==◌ {ℓ} : {A : Type ℓ} ⦃e : Eq A⦄ → A → A → Bool
◌==◌ ⦃e⦄ a b = ite (e.dec a b) true false

instance abbrev pub nat_eq : Eq ℕ
nat_eq = record { dec = ℕ_discrete }

head_of {ℓ} : {A : Type ℓ} → A → List A → A
head_of d [] = d
head_of d (x ∷ xs) = x

tail_of {ℓ} : {A : Type ℓ} → List A → List A
tail_of [] = []
tail_of (x ∷ xs) = xs

unfoldable pub list_dec {ℓ} : {A : Type ℓ} → Discrete A → Discrete (List A)
unfolding head_of tail_of
list_dec d [] [] = yes refl
list_dec d [] (y ∷ ys) = no (λ p. cc)
list_dec d (x ∷ xs) [] = no (λ p. cc)
list_dec d (x ∷ xs) (y ∷ ys) =
    let rest = list_dec d xs ys in
    dite (d x y) (λ p. dite rest (λ q. yes (λ i. p i ∷ q i)) (λ n. no (λ r. n (ap tail_of r))))
      (λ n. no (λ r. n (ap (head_of x) r)))

instance unfoldable pub list_eq {ℓ} : {A : Type ℓ} ⦃e : Eq A⦄ → Eq (List A)
unfolding list_dec
list_eq ⦃e⦄ = record { dec = list_dec e.dec }

module _ {ℓ} {A : Type ℓ} ⦃e : Eq A⦄ where
  pub eq_refl : (a : A) → (a == a) ≡ true
  eq_refl a = ground arith

  pub eq_of_beq : (a b : A) → (a == b) ≡ true → a ≡ b
  eq_of_beq a b h = ground arith

  pub ne_of_beq : (a b : A) → (a == b) ≡ false → a ≢ b
  ne_of_beq a b h = ground arith
