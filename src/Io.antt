-- ===== src/Io.antt =====
-- The readers and writers of Go's `io` package, as the engine uses them.
pub mod Laws
use syncy.Base.{
  ℕ, zero, suc, ◌-◌, ◌≤◌, Bytes, Bool, true, false, List, [], ◌∷◌, ◌++◌, ◌≡◌, Option, none, some,
  leb, if◌then◌else◌, length, take, drop, Result, ok, err,
}

pub data IoError : Type 0 where
  eof unexpected_eof failed : IoError

-- What the calls of `Read` on a stream find: some bytes, or a failure that stays. An empty list
-- is the end of the stream.
pub data Event : Type 0 where
  piece : Bytes → Event
  fail : Event

abbrev pub Reader : Type 0
Reader = List Event

-- The bytes that can still be read, and how the stream ends after them.
unfoldable pub content : Reader → Bytes
content [] = []
content (piece bs ∷ r) = bs ++ content r
content (fail ∷ r) = []

unfoldable pub ending : Reader → IoError
ending [] = eof
ending (piece bs ∷ r) = ending r
ending (fail ∷ r) = failed

abbrev pub Read : Type 0 → Type 0
Read A = Result IoError A × Reader

abbrev pub at_eof : Bytes → IoError
at_eof [] = eof
at_eof (b ∷ bs) = unexpected_eof

-- The loop of `io.ReadFull`: `got` is read and `need` bytes are wanted still.
unfoldable pub read_full_from : Bytes → ℕ → Reader → Read Bytes
read_full_from got zero r = (ok got, r)
read_full_from got (suc n) [] = (err (at_eof got), [])
read_full_from got (suc n) (fail ∷ r) = (err failed, fail ∷ r)
read_full_from got (suc n) (piece bs ∷ r) =
    let rest = read_full_from (got ++ bs) (suc n - length bs) r in
    if leb (length bs) (suc n)
    then rest
    else (ok (got ++ take (suc n) bs), piece (drop (suc n) bs) ∷ r)

unfoldable pub read_full : ℕ → Reader → Read Bytes
unfolding read_full_from
read_full n r = read_full_from [] n r

-- An `io.Writer`: `write` reports whether all bytes were taken; `written` is what reached the
-- other side.
pub record Writer : Type 1 where
  pub State : Type 0
  pub write : State → Bytes → State × Bool
  pub written : State → Bytes
  pub write_all :
      (s : State) (bs : Bytes) → (write s bs).1 ≡ true → written (write s bs).0 ≡ written s ++ bs
  pub write_part :
      (s : State) (bs : Bytes)
      → (n : ℕ) × (n ≤ length bs) × (written (write s bs).0 ≡ written s ++ take n bs)
