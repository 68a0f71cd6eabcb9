-- ===== src/Fsafe/Cleaning.antt =====
-- engine/internal/fsafe/fsafe.go: the elements of a cleaned path.
use mathlib.Core.List.{reverse, reverse-append, reverse-reverse}
use syncy.Base.{
  ℕ, Bytes, Bool, true, false, List, [], ◌∷◌, ◌++◌, ◌||◌, ◌≡◌, ◌≢◌, inl, inr, refl, ap, ◌∙◌, ◌==◌,
  nat_eq, list_eq, eq_refl, eq_of_beq, sym, arith, All, All-append, Bool-cases,
}
use syncy.Fsafe.{
  elements, dot, dot_dot, is_abs, go_up, keep, clean_onto, clean, put_byte, has_dots, climbs,
  is_local,
}

-- No element of a path is `..`.
abbrev pub NoClimb : List Bytes → Type 0
NoClimb = All (λ e. (e == dot_dot) ≡ false)

-- Once a relative path has climbed, its cleaned form begins with `..`.
pub keep-climbed :
    (e : Bytes) (kept : List Bytes)
    → (rest : List Bytes) × (keep false e (kept ++ dot_dot ∷ []) ≡ rest ++ dot_dot ∷ [])
unfolding keep go_up
keep-climbed e [] = elim (Bool-cases ((e == []) || (e == dot))) [
  | inl skip ↦ ([], rw skip)
  | inr other ↦ elim (Bool-cases (e == dot_dot)) [
    | inl up ↦ (dot_dot ∷ [], rw (other, up, eq_refl dot_dot))
    | inr name ↦ (e ∷ [], rw (other, name))
  ]
]
keep-climbed e (t ∷ kept) = elim (Bool-cases ((e == []) || (e == dot))) [
  | inl skip ↦ (t ∷ kept, rw skip)
  | inr other ↦ elim (Bool-cases (e == dot_dot)) [
    | inl up ↦ elim (Bool-cases (t == dot_dot)) [
      | inl top ↦ (dot_dot ∷ t ∷ kept, rw (other, up, top))
      | inr real ↦ (kept, rw (other, up, real))
    ]
    | inr name ↦ (e ∷ t ∷ kept, rw (other, name))
  ]
]

pub clean_onto-climbed :
    (kept es : List Bytes)
    → (rest : List Bytes) × (clean_onto false (kept ++ dot_dot ∷ []) es ≡ rest ++ dot_dot ∷ [])
unfolding clean_onto
clean_onto-climbed kept [] = (kept, refl)
clean_onto-climbed kept (e ∷ es) =
    let (kept', step) = keep-climbed e kept in rw step (clean_onto-climbed kept' es)

pub climbs-reverse : (kept : List Bytes) → climbs (reverse (kept ++ dot_dot ∷ [])) ≡ true
climbs-reverse kept = rw (reverse-append kept (dot_dot ∷ [])) (eq_refl dot_dot)

keep_skip :
    (rooted : Bool) (e : Bytes) (kept : List Bytes)
    → ((e == []) || (e == dot)) ≡ true
    → keep rooted e kept ≡ kept
unfolding keep
keep_skip rooted e kept skip = rw skip

keep_name :
    (rooted : Bool) (e : Bytes) (kept : List Bytes)
    → ((e == []) || (e == dot)) ≡ false
    → (e == dot_dot) ≡ false
    → keep rooted e kept ≡ e ∷ kept
unfolding keep
keep_name rooted e kept other name = rw (other, name)

keep_up :
    (rooted : Bool) (e t : Bytes) (kept : List Bytes)
    → ((e == []) || (e == dot)) ≡ false
    → (e == dot_dot) ≡ true
    → (t == dot_dot) ≡ false
    → keep rooted e (t ∷ kept) ≡ kept
unfolding keep go_up
keep_up rooted e t kept other up real = rw (other, up, real)

-- A relative path that does not climb cleans to the same elements on top of any others.
pub clean_onto-append :
    (rooted : Bool) (below kept es : List Bytes)
    → NoClimb kept
    → climbs (reverse (clean_onto false kept es)) ≡ false
    → (clean_onto rooted (kept ++ below) es ≡ clean_onto false kept es ++ below)
      × NoClimb (clean_onto false kept es)
unfolding clean_onto
clean_onto-append rooted below kept [] real h = (refl, real)
clean_onto-append rooted below [] (e ∷ es) real h = elim (Bool-cases ((e == []) || (e == dot))) [
  | inl skip ↦
      rw (keep_skip rooted e below skip, keep_skip false e [] skip)
        (clean_onto-append rooted below [] es real (rw (keep_skip false e [] skip) at h))
  | inr other ↦ elim (Bool-cases (e == dot_dot)) [
    | inl up ↦
        let (rest, climbed) = clean_onto-climbed [] es in
        let start : keep false e [] ≡ dot_dot ∷ [] = unfold keep go_up in rw (other, up) in
        let h' : climbs (reverse (rest ++ dot_dot ∷ [])) ≡ false = rw (start, climbed) at h in
        cc (h', climbs-reverse rest)
    | inr name ↦
        rw (keep_name rooted e below other name, keep_name false e [] other name)
          (clean_onto-append rooted below (e ∷ []) es (name, tt)
            (rw (keep_name false e [] other name) at h))
  ]
]
clean_onto-append rooted below (t ∷ kept) (e ∷ es) (top, real) h =
    elim (Bool-cases ((e == []) || (e == dot))) [
      | inl skip ↦
          rw (keep_skip rooted e (t ∷ (kept ++ below)) skip, keep_skip false e (t ∷ kept) skip)
            (clean_onto-append rooted below (t ∷ kept) es (top, real)
              (rw (keep_skip false e (t ∷ kept) skip) at h))
      | inr other ↦ elim (Bool-cases (e == dot_dot)) [
        | inl up ↦
            rw
              (keep_up rooted e t (kept ++ below) other up top, keep_up false e t kept other up top)
              (clean_onto-append rooted below kept es real
                (rw (keep_up false e t kept other up top) at h))
        | inr name ↦
            rw
              (
                keep_name rooted e (t ∷ (kept ++ below)) other name,
                keep_name false e (t ∷ kept) other name,
              )
              (clean_onto-append rooted below (e ∷ t ∷ kept) es (name, (top, real))
                (rw (keep_name false e (t ∷ kept) other name) at h))
      ]
    ]

keep-NoClimb :
    (e : Bytes) (kept : List Bytes)
    → (e == dot_dot) ≡ false
    → NoClimb kept
    → NoClimb (keep false e kept)
unfolding keep
keep-NoClimb e kept name real = elim (Bool-cases ((e == []) || (e == dot))) [
  | inl skip ↦ rw skip real
  | inr other ↦ rw (other, name) (name, real)
]

clean_onto-NoClimb :
    (kept es : List Bytes) → has_dots es ≡ false → NoClimb kept → NoClimb (clean_onto false kept es)
unfolding clean_onto has_dots
clean_onto-NoClimb kept [] h real = real
clean_onto-NoClimb kept (e ∷ es) h real =
    clean_onto-NoClimb (keep false e kept) es (ground arith)
      (keep-NoClimb e kept (ground arith) real)

pub reverse-NoClimb : (es : List Bytes) → NoClimb es → NoClimb (reverse es)
reverse-NoClimb [] h = tt
reverse-NoClimb (e ∷ es) (name, h) = rw (reverse-append (e ∷ []) es) (
    All-append (λ t. (t == dot_dot) ≡ false) (reverse es) (e ∷ []) (reverse-NoClimb es h)
      (name, tt))

climbs-NoClimb : (es : List Bytes) → NoClimb es → climbs es ≡ false
climbs-NoClimb [] h = refl
climbs-NoClimb (e ∷ es) (name, h) = name

local_dots :
    (rel : Bytes)
    → is_local rel ≡ true
    → (is_abs rel || (rel == [])) ≡ false
    → has_dots (elements rel) ≡ true
    → climbs (reverse (clean_onto (is_abs rel) [] (elements rel))) ≡ false
unfolding is_local clean
local_dots rel h good dots = ground arith

-- What `IsLocal` promises.
pub is_local-climbs :
    (rel : Bytes)
    → is_local rel ≡ true
    → (is_abs rel ≡ false)
      × (rel ≢ [])
      × (climbs (reverse (clean_onto false [] (elements rel))) ≡ false)
unfolding is_local clean
is_local-climbs rel h = elim (Bool-cases (is_abs rel || (rel == []))) [
  | inl bad ↦ absurd (cc (h, bad))
  | inr good ↦
      let relative : is_abs rel ≡ false = ground arith in
      (
        relative,
        (λ e. ground arith),
        elim (Bool-cases (has_dots (elements rel))) [
          | inl dots ↦ rw relative at (local_dots rel h good dots)
          | inr plain ↦ climbs-NoClimb (reverse (clean_onto false [] (elements rel))) (
              reverse-NoClimb (clean_onto false [] (elements rel))
                (clean_onto-NoClimb [] (elements rel) plain tt))
        ],
      )
]

elements-cons : (p : Bytes) → (e : Bytes) × (es : List Bytes) × (elements p ≡ e ∷ es)
unfolding elements
elements-cons [] = ([], [], refl)
elements-cons (c ∷ p) =
    let (e, es, shape) = elements-cons p in
    elim (Bool-cases (c == b'/')) [
      | inl slash ↦ ([], e ∷ es, rw (shape, slash))
      | inr byte ↦ (c ∷ e, es, rw (shape, byte))
    ]

pub elements-append : (p q : Bytes) → elements (p ++ b'/' ∷ q) ≡ elements p ++ elements q
unfolding elements
elements-append [] q = let (e, es, shape) = elements-cons q in rw (shape, eq_refl {A = ℕ} b'/')
elements-append (c ∷ p) q =
    let (e, es, shape) = elements-cons p in
    ap (put_byte c) (elements-append p q)
    ∙ elim (Bool-cases (c == b'/')) [ inl slash ↦ rw (shape, slash) | inr byte ↦ rw (shape, byte) ]

pub clean_onto-concat :
    (rooted : Bool) (kept es fs : List Bytes)
    → clean_onto rooted kept (es ++ fs) ≡ clean_onto rooted (clean_onto rooted kept es) fs
unfolding clean_onto
clean_onto-concat rooted kept [] fs = refl
clean_onto-concat rooted kept (e ∷ es) fs = clean_onto-concat rooted (keep rooted e kept) es fs

reverse-last :
    (k r : List Bytes)
    → reverse k ≡ r
    → climbs r ≡ true
    → (rest : List Bytes) × (k ≡ rest ++ dot_dot ∷ [])
reverse-last k [] shape h = cc h
reverse-last k (e ∷ t) shape h = (
  reverse t,
  sym (reverse-reverse k)
      ∙ ap reverse shape
      ∙ reverse-append (e ∷ []) t
      ∙ ap (λ d. reverse t ++ d ∷ []) (eq_of_beq e dot_dot h),
)

-- A part of a path that does not climb does not climb.
pub climbs_prefix :
    (es fs : List Bytes)
    → climbs (reverse (clean_onto false [] (es ++ fs))) ≡ false
    → climbs (reverse (clean_onto false [] es)) ≡ false
climbs_prefix es fs h = elim (Bool-cases (climbs (reverse (clean_onto false [] es)))) [
  | inr calm ↦ calm
  | inl up ↦
      let (rest, shape) =
        reverse-last (clean_onto false [] es) (reverse (clean_onto false [] es)) refl up in
      let (rest', shape') = clean_onto-climbed rest fs in
      absurd (
        cc (
          h,
          ap (λ k. climbs (reverse k))
              (clean_onto-concat false [] es fs ∙ ap (λ k. clean_onto false k fs) shape ∙ shape'),
          climbs-reverse rest',
        ))
]
