-- ===== src/Hashing/Hex.antt =====
-- engine/internal/hashing/hashing.go: `Parse` and `String`.
use mathlib.Core.Option.{some-injective}
use syncy.Base.{
  ℕ, suc, ◌+◌, ◌*◌, ◌/◌, ◌%◌, ◌<◌, ◌≡◌, refl, ap, Bytes, true, [], ◌∷◌, ◌&&◌, Option, none, some,
  leb, ◌==◌, nat_eq, if◌then◌else◌, length, ok, AreBytes, arith, map,
}
use syncy.Hashing.{
  hex_len, Hash, IsHash, hex_digit, encode, hex_value, pair_value, decode, to_string, parse,
  unmarshal_text, marshal_text,
}

hex_value-hex_digit : (n : ℕ) → n < 16 → hex_value (hex_digit n) ≡ some n
unfolding hex_value hex_digit
hex_value-hex_digit n h = ground arith

decode-encode : (bs : Bytes) → AreBytes bs → decode (encode bs) ≡ some bs
unfolding encode decode
decode-encode [] h = refl
decode-encode (b ∷ bs) (lt, h) =
    rw
      (
        hex_value-hex_digit (b / 16) (omega arith),
        hex_value-hex_digit (b % 16) (omega arith),
        decode-encode bs h,
      )
      (ap (λ (c : ℕ). some (c ∷ bs)) (omega arith))

length-encode : (bs : Bytes) → length (encode bs) ≡ 2 * length bs
unfolding encode
length-encode [] = refl
length-encode (b ∷ bs) = omega (arith, length-encode bs)

-- `Parse` of a hash's text gives the hash back.
pub parse-to_string : (h : Hash) → IsHash h → parse (to_string h) ≡ ok h
unfolding parse to_string
parse-to_string h (len, bytes) =
    let whole : (length (encode h) == hex_len) ≡ true = ground (arith, length-encode h) in
    rw (whole, decode-encode h bytes)

-- A letter of a hexadecimal text, in lower case.
abbrev pub lower : ℕ → ℕ
lower c = if leb b'A' c && leb c b'F' then c + 32 else c

hex_value-some : (c v : ℕ) → hex_value c ≡ some v → (v < 16) × (hex_digit v ≡ lower c)
unfolding hex_value hex_digit
hex_value-some c v h = ground arith

pair_value-some :
    (a b : Option ℕ) (r : Option Bytes) (h : Bytes)
    → pair_value a b r ≡ some h
    → (x : ℕ) × (y : ℕ) × (bs : Bytes) × (a ≡ some x)
      × (b ≡ some y)
      × (r ≡ some bs)
      × ((x * 16 + y) ∷ bs ≡ h)
pair_value-some (some a) (some b) (some bs) h e = (a, b, bs, refl, refl, refl, ground arith)
pair_value-some (some a) (some b) none h e = cc
pair_value-some (some a) none r h e = cc
pair_value-some none b r h e = cc

encode-decode : (s h : Bytes) → decode s ≡ some h → (encode h ≡ map lower s) × AreBytes h
unfolding decode encode
encode-decode [] h e = rw (← some-injective [] h e) (refl, tt)
encode-decode (c ∷ []) h e = cc
encode-decode (c ∷ d ∷ s) h e =
    let (x, y, bs, ex, ey, es, eh) = pair_value-some (hex_value c) (hex_value d) (decode s) h e in
    let (lx, dx) = hex_value-some c x ex in
    let (ly, dy) = hex_value-some d y ey in
    let (ih, bytes) = encode-decode s bs es in
    let q : (x * 16 + y) / 16 ≡ x = omega arith in
    let m : (x * 16 + y) % 16 ≡ y = omega arith in
    rw (← eh) (rw (q, m, dx, dy, ih), (omega arith, bytes))

length-map-lower : (s : Bytes) → length (map lower s) ≡ length s
length-map-lower [] = refl
length-map-lower (c ∷ s) = ap suc (length-map-lower s)

parse-ok : (s h : Bytes) → parse s ≡ ok h → (length s ≡ hex_len) × (decode s ≡ some h)
unfolding parse
parse-ok s h e = ground arith

-- An accepted text has the text of its hash, up to the case of its letters, and the hash is 32
-- bytes: nothing else parses.
pub to_string-parse : (s h : Bytes) → parse s ≡ ok h → IsHash h × (to_string h ≡ map lower s)
unfolding to_string
to_string-parse s h e =
    let (len, d) = parse-ok s h e in
    let (text, bytes) = encode-decode s h d in
    ((omega (arith, ap length text, length-encode h, length-map-lower s, len), bytes), text)

parse-marshal_text : (h : Hash) → IsHash h → parse (marshal_text h) ≡ ok h
unfolding marshal_text to_string
parse-marshal_text h valid = parse-to_string h valid

-- `UnmarshalText` of a marshalled hash stores that hash, whatever the receiver held.
pub unmarshal_text-marshal_text :
    (old h : Hash) → IsHash h → unmarshal_text old (marshal_text h) ≡ (ok tt, h)
unfolding unmarshal_text
unmarshal_text-marshal_text old h valid = rw (parse-marshal_text h valid, unmarshal_text)
