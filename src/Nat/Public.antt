-- ===== src/Nat/Public.antt =====
-- engine/internal/nat/nat.go: which addresses are announced.
use syncy.Base.{
  ℕ, ◌/◌, ◌%◌, ◌^◌, ◌<◌, Bytes, Bool, true, false, not, List, [], ◌∷◌, ◌==◌, ◌&&◌, ◌||◌, ◌≡◌, ◌≢◌,
  ◌⊎◌, nat_eq, list_eq, Option, none, some, if◌then◌else◌, arith, refl, if_elim, leb, eq_refl, Eq,
  eq_of_beq, Bool-cases, inl, inr,
}
use syncy.Nat.{
  Ip, to4, is_unspecified, is_loopback, is_private, is_link_local_multicast, is_link_local_unicast,
  shared_range, public_ip, endpoint, Igd, Pmp, mapped, usable, reported, upnp_endpoint, pmp_mapped,
  pmp_reported, pmp_endpoint, first_of, external_endpoint,
}

-- An IPv4 address outside the private, loopback and link-local ranges, the shared range of
-- RFC 6598 and the link-local multicast range, and not 0.0.0.0. Addresses that are reserved in
-- other ways (240.0.0.0/4, 255.255.255.255, most of 0.0.0.0/8) are not excluded.
abbrev pub Unlisted : ℕ → ℕ → ℕ → ℕ → Type 0
Unlisted a b c d =
    (a ≢ 10)
    × (a ≢ 127)
    × ((a ≡ 172) → (b < 16) ⊎ (31 < b))
    × ((a ≡ 192) → b ≢ 168)
    × ((a ≡ 169) → b ≢ 254)
    × ((a ≡ 100) → (b < 64) ⊎ (127 < b))
    × ((a ≡ 224) → (b ≡ 0) → c ≢ 0)
    × ((a ∷ b ∷ c ∷ d ∷ []) ≢ (0 ∷ 0 ∷ 0 ∷ 0 ∷ []))

public_ip-flags :
    (lo pr lu lm un sh : Bool)
    → (if lo || pr || lu || lm || un then false else not sh) ≡ true
    → (lo ≡ false) × (pr ≡ false) × (lu ≡ false) × (lm ≡ false) × (un ≡ false) × (sh ≡ false)
public_ip-flags false false false false false false h = (refl, refl, refl, refl, refl, refl)
public_ip-flags false false false false false true h = cc h
public_ip-flags false false false false true sh h = cc h
public_ip-flags false false false true un sh h = cc h
public_ip-flags false false true lm un sh h = cc h
public_ip-flags false true lu lm un sh h = cc h
public_ip-flags true pr lu lm un sh h = cc h

or_false : (x y : Bool) → x || y ≡ false → (x ≡ false) × (y ≡ false)
or_false false y h = (refl, h)
or_false true y h = cc h

and_false : (x y : Bool) → x && y ≡ false → x ≡ true → y ≡ false
and_false true y h e = h
and_false false y h e = cc e

not_equal : (a n : ℕ) → (a == n) ≡ false → a ≢ n
not_equal a n h = λ e. absurd (cc (h, e, eq_refl n))

equal : (a n : ℕ) → a ≡ n → (a == n) ≡ true
equal a n e = rw e (eq_refl n)

block_16 : (b : ℕ) → (b / 16 == 1) ≡ false → (b < 16) ⊎ (31 < b)
block_16 b h = let ne = not_equal (b / 16) 1 h in grind (arith, ne)

outside_range : (b lo hi : ℕ) → leb lo b && leb b hi ≡ false → (b < lo) ⊎ (hi < b)
outside_range b lo hi h = ground (arith, h)

-- The six tests of `publicIP` on four bytes.
abbrev Passes : ℕ → ℕ → ℕ → ℕ → Type 0
Passes a b c d =
    ((a == 127) ≡ false)
    × ((a == 10) || ((a == 172) && (b / 16 == 1)) || ((a == 192) && (b == 168)) ≡ false)
    × ((a == 169) && (b == 254) ≡ false)
    × ((a == 224) && (b == 0) && (c == 0) ≡ false)
    × ((a ∷ b ∷ c ∷ d ∷ []) == (0 ∷ 0 ∷ 0 ∷ 0 ∷ []) ≡ false)
    × ((a == 100) && (leb 64 b && leb b 127) ≡ false)

Passes-Unlisted : (a b c d : ℕ) → Passes a b c d → Unlisted a b c d
Passes-Unlisted a b c d (lo, pr, lu, lm, un, sh) =
    let (more, home) =
      or_false ((a == 10) || ((a == 172) && (b / 16 == 1))) ((a == 192) && (b == 168)) pr in
    let (ten, block) = or_false (a == 10) ((a == 172) && (b / 16 == 1)) more in
    (
      not_equal a 10 ten,
      not_equal a 127 lo,
      (λ e. block_16 b (and_false (a == 172) (b / 16 == 1) block (equal a 172 e))),
      (λ e. not_equal b 168 (and_false (a == 192) (b == 168) home (equal a 192 e))),
      (λ e. not_equal b 254 (and_false (a == 169) (b == 254) lu (equal a 169 e))),
      (λ e.
          outside_range b 64 127 (and_false (a == 100) (leb 64 b && leb b 127) sh (equal a 100 e))),
      (λ e e'.
          not_equal c 0
            (and_false ((a == 224) && (b == 0)) (c == 0) lm (rw (equal a 224 e) (equal b 0 e')))),
      λ e. absurd (cc (un, e, eq_refl {A = Bytes} (0 ∷ 0 ∷ 0 ∷ 0 ∷ []))),
    )

unequal {ℓ} : {A : Type ℓ} → ⦃eq : Eq A⦄ → (a n : A) → a ≢ n → (a == n) ≡ false
unequal a n h = elim (Bool-cases (a == n)) [ inl t ↦ absurd (h (eq_of_beq a n t)) | inr f ↦ f ]

and_true : (x y : Bool) → x && y ≡ true → (x ≡ true) × (y ≡ true)
and_true true y h = (refl, h)
and_true false y h = cc h

and_false_of : (x y : Bool) → (x ≡ true → y ≡ false) → x && y ≡ false
and_false_of true y h = h refl
and_false_of false y h = refl

or_false_of : (x y : Bool) → x ≡ false → y ≡ false → x || y ≡ false
or_false_of true y h k = cc h
or_false_of false y h k = k

not_block_16 : (b : ℕ) → (b < 16) ⊎ (31 < b) → (b / 16 == 1) ≡ false
not_block_16 b h = unequal (b / 16) 1 (λ e. omega (arith, h, e))

not_in_range : (b lo hi : ℕ) → (b < lo) ⊎ (hi < b) → leb lo b && leb b hi ≡ false
not_in_range b lo hi h = ground (arith, h)

Unlisted-Passes : (a b c d : ℕ) → Unlisted a b c d → Passes a b c d
Unlisted-Passes a b c d (ten, lo, block, home, lu, sh, lm, un) = (
  unequal a 127 lo,
  or_false_of ((a == 10) || ((a == 172) && (b / 16 == 1))) ((a == 192) && (b == 168))
      (or_false_of (a == 10) ((a == 172) && (b / 16 == 1)) (unequal a 10 ten)
        (and_false_of (a == 172) (b / 16 == 1) (λ e. not_block_16 b (block (eq_of_beq a 172 e)))))
      (and_false_of (a == 192) (b == 168) (λ e. unequal b 168 (home (eq_of_beq a 192 e)))),
  and_false_of (a == 169) (b == 254) (λ e. unequal b 254 (lu (eq_of_beq a 169 e))),
  and_false_of ((a == 224) && (b == 0)) (c == 0) (λ e.
      let (high, low) = and_true (a == 224) (b == 0) e in
      unequal c 0 (lm (eq_of_beq a 224 high) (eq_of_beq b 0 low))),
  unequal (a ∷ b ∷ c ∷ d ∷ []) (0 ∷ 0 ∷ 0 ∷ 0 ∷ []) un,
  and_false_of (a == 100) (leb 64 b && leb b 127)
      (λ e. not_in_range b 64 127 (sh (eq_of_beq a 100 e))),
)

-- An IPv4 address, in four bytes or in sixteen, counts as public exactly when it is outside the
-- private, loopback, link-local (unicast and multicast) and shared ranges and is not 0.0.0.0.
pub public_ip-Unlisted :
    (ip : Ip) (a b c d : ℕ)
    → to4 ip ≡ some (a ∷ b ∷ c ∷ d ∷ [])
    → (public_ip (some ip) ≡ true → Unlisted a b c d)
      × (Unlisted a b c d → public_ip (some ip) ≡ true)
unfolding public_ip is_loopback is_private is_link_local_unicast is_link_local_multicast
    is_unspecified
public_ip-Unlisted ip a b c d e = (
  (λ h.
      let (lo, pr, lu, lm, un, sh) =
        public_ip-flags (is_loopback ip) (is_private ip) (is_link_local_unicast ip)
          (is_link_local_multicast ip) (is_unspecified ip) (shared_range (to4 ip)) h in
      Passes-Unlisted a b c d
        (rw e at lo, rw e at pr, rw e at lu, rw e at lm, rw e at un, rw e at sh)),
  λ h.
      let (lo, pr, lu, lm, un, sh) = Unlisted-Passes a b c d h in
      rw (e, lo, pr, lu, lm, un, sh) refl,
)

module _ (parse_ip : Bytes → Option Ip) (print_ip : Ip → Bytes) where
  -- The text is a public address with a port.
  abbrev pub IsPublic : Bytes → Type 0
  IsPublic ep =
      (ip : Ip) × (port : ℕ) × (public_ip (some ip) ≡ true) × (ep ≡ endpoint (print_ip ip) port)

  abbrev pub Announced : Option Bytes → Type 0
  Announced none = Unit
  Announced (some ep) = IsPublic ep

  not-not : (b : Bool) → not b ≡ false → b ≡ true
  not-not true h = refl
  not-not false h = cc h

  mapped-Announced :
      (c : Igd) (ip : Ip) (local : Option Ip) (port : ℕ) (rest : Option Bytes)
      → public_ip (some ip) ≡ true
      → Announced rest
      → Announced (mapped parse_ip print_ip c ip local port rest)
  mapped-Announced c ip none port rest good h = h
  mapped-Announced c ip (some addr) port rest good h =
      if_elim Announced (c.maps (port % 2 ^ 16) (print_ip addr))
        (some (endpoint (print_ip ip) port)) rest (λ took. (ip, port, good, refl)) (λ refused. h)

  usable-Announced :
      (c : Igd) (ip : Option Ip) (port : ℕ) (rest : Option Bytes)
      → Announced rest
      → Announced (usable parse_ip print_ip c ip port rest)
  usable-Announced c none port rest h = h
  usable-Announced c (some ip) port rest h =
      if_elim Announced (not (public_ip (some ip))) rest
        (mapped parse_ip print_ip c ip c.local_addr port rest) (λ hidden. h)
        (λ shown.
          mapped-Announced c ip c.local_addr port rest (not-not (public_ip (some ip)) shown) h)

  reported-Announced :
      (c : Igd) (ext : Option Bytes) (port : ℕ) (rest : Option Bytes)
      → Announced rest
      → Announced (reported parse_ip print_ip c ext port rest)
  reported-Announced c none port rest h = h
  reported-Announced c (some ext) port rest h = usable-Announced c (parse_ip ext) port rest h

  upnp_endpoint-Announced :
      (igds : List Igd) (port : ℕ) → Announced (upnp_endpoint parse_ip print_ip igds port)
  unfolding upnp_endpoint
  upnp_endpoint-Announced [] port = tt
  upnp_endpoint-Announced (c ∷ cs) port =
      reported-Announced c c.external port (upnp_endpoint parse_ip print_ip cs port)
        (upnp_endpoint-Announced cs port)

  pmp_mapped-Announced :
      (ip : Ip) (port : Option ℕ)
      → public_ip (some ip) ≡ true
      → Announced (pmp_mapped parse_ip print_ip ip port)
  pmp_mapped-Announced ip none good = tt
  pmp_mapped-Announced ip (some port) good = (ip, port, good, refl)

  pmp_reported-Announced :
      (c : Pmp) (port : ℕ) (ip : Option Ip) → Announced (pmp_reported parse_ip print_ip c port ip)
  pmp_reported-Announced c port none = tt
  pmp_reported-Announced c port (some ip) =
      if_elim Announced (not (public_ip (some ip))) none
        (pmp_mapped parse_ip print_ip ip (c.maps port)) (λ hidden. tt)
        (λ shown. pmp_mapped-Announced ip (c.maps port) (not-not (public_ip (some ip)) shown))

  pmp_endpoint-Announced :
      (pmp : Option Pmp) (port : ℕ) → Announced (pmp_endpoint parse_ip print_ip pmp port)
  unfolding pmp_endpoint
  pmp_endpoint-Announced none port = tt
  pmp_endpoint-Announced (some c) port = pmp_reported-Announced c port c.external

  first_of-Announced :
      (a b : Option Bytes) → Announced a → Announced b → Announced (first_of parse_ip print_ip a b)
  first_of-Announced none b h k = k
  first_of-Announced (some ep) b h k = h

  -- Whatever the routers report and accept, an endpoint that `ExternalEndpoint` finds is the text of
  -- a public address with a port.
  pub external_endpoint-Announced :
      (igds : List Igd) (pmp : Option Pmp) (port : ℕ)
      → Announced (external_endpoint parse_ip print_ip igds pmp port)
  unfolding external_endpoint
  external_endpoint-Announced igds pmp port =
      first_of-Announced (upnp_endpoint parse_ip print_ip igds port)
        (pmp_endpoint parse_ip print_ip pmp port) (upnp_endpoint-Announced igds port)
        (pmp_endpoint-Announced pmp port)
