-- ===== src/Hashing.antt =====
-- engine/internal/hashing/hashing.go: content hashes and their hexadecimal text. SHA-256 is a
-- parameter of the modules that hash; here a hash is its 32 bytes.
pub mod Hex
use syncy.Base.{
  ℕ, ◌+◌, ◌*◌, ◌-◌, ◌/◌, ◌%◌, ◌<◌, ◌≡◌, Bytes, Bool, [], ◌∷◌, ◌&&◌, Option, none, some, leb, ltb,
  ◌==◌, nat_eq, list_eq, if◌then◌else◌, length, take, replicate, Result, ok, err, AreBytes,
}

abbrev pub size : ℕ
size = 32

abbrev pub hex_len : ℕ
hex_len = size * 2

abbrev pub short_len : ℕ
short_len = 12

abbrev pub Hash : Type 0
Hash = Bytes

-- The values of `type Hash [Size]byte`.
abbrev pub IsHash : Hash → Type 0
IsHash h = (length h ≡ size) × AreBytes h

pub data HashError : Type 0 where
  invalid_hash : HashError

-- `hextable[n]`
unfoldable pub hex_digit : ℕ → ℕ
hex_digit n = if ltb n 10 then b'0' + n else b'a' + n - 10

-- `hex.EncodeToString`
unfoldable pub encode : Bytes → Bytes
unfolding hex_digit
encode [] = []
encode (b ∷ bs) = hex_digit (b / 16) ∷ hex_digit (b % 16) ∷ encode bs

-- `reverseHexTable[c]`
unfoldable pub hex_value : ℕ → Option ℕ
hex_value c =
    if leb b'0' c && leb c b'9'
    then some (c - b'0')
    else if leb b'a' c && leb c b'f'
    then some (c - b'a' + 10)
    else if leb b'A' c && leb c b'F'
    then some (c - b'A' + 10)
    else none

abbrev pub pair_value : Option ℕ → Option ℕ → Option Bytes → Option Bytes
pair_value (some a) (some b) (some bs) = some ((a * 16 + b) ∷ bs)
pair_value _ _ _ = none

-- `hex.Decode`: none on a byte that is no digit, and on an odd length.
unfoldable pub decode : Bytes → Option Bytes
unfolding hex_value
decode [] = some []
decode (c ∷ []) = none
decode (c ∷ d ∷ s) = pair_value (hex_value c) (hex_value d) (decode s)

unfoldable pub to_string : Hash → Bytes
to_string h = encode h

unfoldable pub short : Hash → Bytes
unfolding encode
short h = take short_len (encode h)

abbrev pub zero_hash : Hash
zero_hash = replicate size 0

unfoldable pub is_zero : Hash → Bool
is_zero h = h == zero_hash

unfoldable pub equal : Hash → Hash → Bool
equal h other = h == other

abbrev decoded : Option Bytes → Result HashError Hash
decoded none = err invalid_hash
decoded (some h) = ok h

unfoldable pub parse : Bytes → Result HashError Hash
parse s = if length s == hex_len then decoded (decode s) else err invalid_hash

unfoldable pub marshal_text : Hash → Bytes
marshal_text h = encode h

-- `UnmarshalText` returns the receiver behind the call: on an error it is as it was.
unfoldable pub unmarshal_text : Hash → Bytes → Result HashError (Unit {0}) × Hash
unmarshal_text h text = elim (parse text) [ ok parsed ↦ (ok tt, parsed) | err e ↦ (err e, h) ]
