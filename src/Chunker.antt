-- ===== src/Chunker.antt =====
-- engine/internal/chunker/chunker.go: content-defined blocks of a stream.
pub mod Settings
pub mod Boundary
pub mod Filling
pub mod Blocks
pub mod Cover
use Prim.Native.Nat.{bit_and, bit_xor}
use syncy.Base.{
  ℕ, zero, suc, ◌+◌, ◌-◌, ◌*◌, ◌/◌, ◌%◌, ◌^◌, Bytes, Bool, not, true, false, List, [], ◌∷◌, ◌++◌,
  ◌&&◌, Option, none, some, ltb, leb, ◌==◌, nat_eq, if◌then◌else◌, length, take, drop, get_elem?,
  Result, ok, err,
}
use syncy.Hashing.{Hash}
use syncy.Io.{Reader, Event, piece, fail}

-- The sizes are Go ints; a negative one is refused by `Validate` as 0 is.
pub record Config : Type 0 where
  pub min : ℕ
  pub avg : ℕ
  pub max : ℕ

abbrev pub default_config : Config
default_config = record { min = 128 * 2 ^ 10; avg = 512 * 2 ^ 10; max = 2 * 2 ^ 20 }

pub data ConfigError : Type 0 where
  min_too_small avg_below_min max_below_avg avg_no_power : ConfigError

-- `bits.OnesCount` and `bits.TrailingZeros` of the low `w` bits.
unfoldable pub ones_count : ℕ → ℕ → ℕ
ones_count zero n = 0
ones_count (suc w) n = n % 2 + ones_count w (n / 2)

unfoldable pub trailing_zeros : ℕ → ℕ → ℕ
trailing_zeros zero n = 0
trailing_zeros (suc w) n = let rest = trailing_zeros w (n / 2) in if n % 2 == 1 then 0 else suc rest

abbrev pub word : ℕ
word = 64

unfoldable pub validate : Config → Option ConfigError
validate c =
    if ltb c.min 1
    then some min_too_small
    else if ltb c.avg c.min
    then some avg_below_min
    else if ltb c.max c.avg
    then some max_below_avg
    else if not (ones_count word c.avg == 1)
    then some avg_no_power
    else none

pub record Chunk : Type 0 where
  pub offset : ℕ
  pub length_of : ℕ
  pub hash : Hash

pub record Chunker : Type 0 where
  pub cfg : Config
  pub mask : ℕ

-- `(uint64(1) << maskBits) - 1`
unfoldable pub mask_of : ℕ → ℕ
mask_of avg = (2 ^ trailing_zeros word avg % 2 ^ 64 + 2 ^ 64 - 1) % 2 ^ 64

unfoldable pub new : Config → Result ConfigError Chunker
new cfg = elim (validate cfg) [
  | some e ↦ err e
  | none ↦ ok (record { cfg = cfg; mask = mask_of cfg.avg })
]

-- The body of the loop of `init`: the mixed value of one state.
unfoldable pub mix : ℕ → ℕ
mix x =
    let y = bit_xor x (x / 2 ^ 30) * 0xBF58476D1CE4E5B9 % 2 ^ 64 in
    let z = bit_xor y (y / 2 ^ 27) * 0x94D049BB133111EB % 2 ^ 64 in bit_xor z (z / 2 ^ 31)

unfoldable pub gear_from : ℕ → ℕ → List ℕ
unfolding mix
gear_from zero x = []
gear_from (suc n) x = let x' = (x + 0x9E3779B97F4A7C15) % 2 ^ 64 in mix x' ∷ gear_from n x'

unfoldable pub gear_table : List ℕ
unfolding gear_from
gear_table = gear_from 256 0x2545F4914F6CDD1D

abbrev or_zero : Option ℕ → ℕ
or_zero none = 0
or_zero (some n) = n

-- `gear[b]`
unfoldable pub gear : ℕ → ℕ
gear b = or_zero (get_elem? gear_table b)

-- `fp = (fp << 1) + gear[data[i]]` on a uint64.
unfoldable pub roll : ℕ → ℕ → ℕ
roll fp b = (fp * 2 + gear b) % 2 ^ 64

-- The loop of `boundary` at index `i`, over the bytes that it has not seen.
unfoldable pub scan : ℕ → ℕ → ℕ → ℕ → Bytes → ℕ
scan min mask i fp [] = i
scan min mask i fp (b ∷ bs) =
    let fp' = roll fp b in
    let rest = scan min mask (i + 1) fp' bs in
    if leb min (i + 1) && (bit_and fp' mask == 0) then i + 1 else rest

unfoldable pub boundary : Chunker → Bytes → ℕ
boundary c data_bytes =
    if leb (length data_bytes) c.cfg.min
    then length data_bytes
    else scan c.cfg.min c.mask 0 0 (take c.cfg.max data_bytes)

-- The buffer behind the inner loop of `Split`, which reads until it is full or the stream ends.
pub data Filled : Type 0 where
  buffer : Bytes → Bool → Reader → Filled
  read_error : Filled

unfoldable pub fill : ℕ → Bytes → Reader → Filled
fill max buf [] = buffer buf (ltb (length buf) max) []
fill max buf (fail ∷ r) = if ltb (length buf) max then read_error else buffer buf false (fail ∷ r)
fill max buf (piece bs ∷ r) =
    let space = max - length buf in
    let rest = fill max (buf ++ bs) r in
    if leb max (length buf)
    then buffer buf false (piece bs ∷ r)
    else if leb (length bs) space
    then rest
    else buffer (buf ++ take space bs) false (piece (drop space bs) ∷ r)

unfoldable pub refill : ℕ → Bytes → Bool → Reader → Filled
unfolding fill
refill max buf true r = buffer buf true r
refill max buf false r = fill max buf r

pub data SplitError (E : Type 0) : Type 0 where
  reading : SplitError E
  callback : E → SplitError E
  out_of_fuel : SplitError E

-- `of_bytes` is SHA-256; `fn` is the callback, which keeps its state in `S`.
module _ (of_bytes : Bytes → Hash) {S E : Type 0} (fn : S → Chunk → Result E S) (c : Chunker) where
  abbrev pub chunk_at : ℕ → ℕ → Bytes → Chunk
  chunk_at offset b buf = record { offset = offset; length_of = b; hash = of_bytes (take b buf) }

  abbrev pub Next : Type 0
  Next = ℕ → Bytes → Bool → Reader → S → Result (SplitError E) S

  -- One round of the outer loop of `Split` behind its reads; `next` is the following round.
  unfoldable pub round : Next → Next
  round next offset buf eof r s =
      let b = boundary c buf in
      if length buf == 0 then ok s else elim (fn s (chunk_at offset b buf)) [
        | err e ↦ err (callback e)
        | ok s' ↦
            if (length (drop b buf) == 0) && eof
            then ok s'
            else next (offset + b) (drop b buf) eof r s'
      ]

  unfoldable pub split_loop : ℕ → Next
  unfolding round
  split_loop zero offset buf eof r s = err out_of_fuel
  split_loop (suc fuel) offset buf eof r s = elim (refill c.cfg.max buf eof r) [
    | read_error ↦ err reading
    | buffer full eof' r' ↦ round (split_loop fuel) offset full eof' r' s
  ]

  unfoldable pub split : ℕ → Reader → S → Result (SplitError E) S
  unfolding split_loop
  split fuel r s = split_loop fuel 0 [] false r s

-- The callback of `SplitBytes`, which appends to a slice.
unfoldable pub collect : List Chunk → Chunk → Result (Unit {0}) (List Chunk)
collect chunks ch = ok (chunks ++ ch ∷ [])

unfoldable pub split_bytes :
    (Bytes → Hash) → Chunker → ℕ → Bytes → Result (SplitError Unit) (List Chunk)
unfolding split collect
split_bytes of_bytes c fuel b = split of_bytes collect c fuel (piece b ∷ []) []
