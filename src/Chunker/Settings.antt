-- ===== src/Chunker/Settings.antt =====
-- `Validate` and `New`: what an accepted configuration is, and the mask of its average size.
use native.Mathlib.Nat.{pow-suc}
use syncy.Base.{
  ℕ, zero, suc, ◌+◌, ◌-◌, ◌/◌, ◌%◌, ◌^◌, ◌≤◌, ◌<◌, ◌≡◌, ap, ◌∙◌, none, ◌==◌, nat_eq, ok, arith,
  Bool-cases, inl, inr,
}
use syncy.Chunker.{Config, Chunker, ones_count, trailing_zeros, word, validate, mask_of, new}

-- What `Validate` promises of a configuration.
pub record IsValid (c : Config) : Type 0 where
  pub positive : 1 ≤ c.min
  pub ordered : c.min ≤ c.avg
  pub bounded : c.avg ≤ c.max
  pub power : ones_count word c.avg ≡ 1

validate-IsValid : (c : Config) → validate c ≡ none → IsValid c
unfolding validate
validate-IsValid c h = ground arith

ones_count-zero : (w n : ℕ) → n < 2 ^ w → ones_count w n ≡ 0 → n ≡ 0
unfolding ones_count
ones_count-zero zero n h e = omega arith
ones_count-zero (suc w) n h e =
    omega (arith, pow-suc 2 w, ones_count-zero w (n / 2) (omega (arith, pow-suc 2 w)) (omega arith))

-- A number with one bit set is the power of two of its trailing zeros.
pow-trailing_zeros : (w n : ℕ) → n < 2 ^ w → ones_count w n ≡ 1 → 2 ^ trailing_zeros w n ≡ n
unfolding ones_count trailing_zeros
pow-trailing_zeros zero n h e = absurd (omega arith)
pow-trailing_zeros (suc w) n h e = elim (Bool-cases (n % 2 == 1)) [
  | inl odd ↦
      let below : n / 2 < 2 ^ w = omega (arith, pow-suc 2 w) in
      let one : n % 2 ≡ 1 = ground arith in
      let none_left = ones_count-zero w (n / 2) below (omega arith) in rw odd (omega arith)
  | inr even ↦
      let below : n / 2 < 2 ^ w = omega (arith, pow-suc 2 w) in
      let nil : n % 2 ≡ 0 = ground arith in
      let ih = pow-trailing_zeros w (n / 2) below (omega arith) in
      rw even (omega (arith, pow-suc 2 (trailing_zeros w (n / 2)), ih))
]

wrapped : (p a : ℕ) → p ≡ a → 1 ≤ a → a < 2 ^ 64 → (p % 2 ^ 64 + 2 ^ 64 - 1) % 2 ^ 64 + 1 ≡ a
wrapped p a e h lt = omega arith

mask_of-suc :
    (avg : ℕ) → 2 ^ trailing_zeros word avg ≡ avg → 1 ≤ avg → avg < 2 ^ 64 → mask_of avg + 1 ≡ avg
unfolding mask_of
mask_of-suc avg e h lt = wrapped (2 ^ trailing_zeros word avg) avg e h lt

new-ok :
    (cfg : Config) (c : Chunker)
    → new cfg ≡ ok c
    → (validate cfg ≡ none) × (c ≡ record { cfg = cfg; mask = mask_of cfg.avg })
unfolding new
new-ok cfg c e = ground arith

-- A configuration from which `New` makes a chunker has sizes that are positive and ordered, and its mask is one below the average size, a power of two (the
-- size is a 64-bit integer).
pub new-IsValid :
    (cfg : Config) (c : Chunker)
    → cfg.avg < 2 ^ 64
    → new cfg ≡ ok c
    → (c.cfg ≡ cfg)
      × IsValid cfg
      × (c.mask + 1 ≡ cfg.avg)
      × (2 ^ trailing_zeros word cfg.avg ≡ cfg.avg)
new-IsValid cfg c h e =
    let (v, shape) = new-ok cfg c e in
    let valid = validate-IsValid cfg v in
    let power = pow-trailing_zeros word cfg.avg h valid.power in
    let small : 1 ≤ cfg.avg = omega (arith, valid.positive, valid.ordered) in
    (
      ap (λ (t : Chunker). t.cfg) shape,
      valid,
      ap (λ (t : Chunker). t.mask + 1) shape ∙ mask_of-suc cfg.avg power small h,
      power,
    )
