-- ===== src/Fsafe.antt =====
-- engine/internal/fsafe/fsafe.go over Unix paths, where `FromSlash` changes nothing.
pub mod Cleaning
pub mod Containment
pub mod Below
use mathlib.Core.List.{reverse}
use syncy.Base.{
  ℕ, Bytes, Bool, not, true, false, List, [], ◌∷◌, ◌++◌, ◌&&◌, ◌||◌, ◌==◌, nat_eq, list_eq,
  if◌then◌else◌, Result, ok, err, str,
}

abbrev put_byte : ℕ → List Bytes → List Bytes
put_byte c [] = []
put_byte c (e ∷ es) = if c == b'/' then [] ∷ e ∷ es else (c ∷ e) ∷ es

-- The elements between the slashes of a path, empty ones included.
unfoldable pub elements : Bytes → List Bytes
elements [] = [] ∷ []
elements (c ∷ p) = put_byte c (elements p)

abbrev pub dot : Bytes
dot = str "."

abbrev pub dot_dot : Bytes
dot_dot = str ".."

-- `filepath.IsAbs`
unfoldable pub is_abs : Bytes → Bool
is_abs [] = false
is_abs (c ∷ p) = c == b'/'

-- `filepath.Clean`, on the elements kept so far, the last one first: `..` takes back an element.
unfoldable pub go_up : Bool → List Bytes → List Bytes
go_up rooted [] = if rooted then [] else dot_dot ∷ []
go_up rooted (t ∷ kept) = if t == dot_dot then dot_dot ∷ t ∷ kept else kept

unfoldable pub keep : Bool → Bytes → List Bytes → List Bytes
unfolding go_up
keep rooted e kept =
    if (e == []) || (e == dot) then kept else if e == dot_dot then go_up rooted kept else e ∷ kept

unfoldable pub clean_onto : Bool → List Bytes → List Bytes → List Bytes
clean_onto rooted kept [] = kept
clean_onto rooted kept (e ∷ es) = clean_onto rooted (keep rooted e kept) es

-- A cleaned path.
pub record FilePath : Type 0 where
  pub rooted : Bool
  pub elems : List Bytes

unfoldable pub clean : Bytes → FilePath
clean p = record { rooted = is_abs p; elems = reverse (clean_onto (is_abs p) [] (elements p)) }

has_dots : List Bytes → Bool
has_dots [] = false
has_dots (e ∷ es) = (e == dot) || (e == dot_dot) || has_dots es

-- The path is `..` or begins with `../`.
abbrev pub climbs : List Bytes → Bool
climbs [] = false
climbs (e ∷ es) = e == dot_dot

-- `filepath.IsLocal`
unfoldable pub is_local : Bytes → Bool
unfolding has_dots
is_local p =
    if is_abs p || (p == [])
    then false
    else if has_dots (elements p)
    then not (climbs (clean p).elems)
    else not (climbs (elements p))

-- `Local`
unfoldable pub local : Bytes → Bool
local rel = is_local rel

-- `filepath.Join` of two paths.
unfoldable pub join_paths : Bytes → Bytes → FilePath
join_paths [] rel = clean rel
join_paths (b ∷ base) [] = clean (b ∷ base)
join_paths (b ∷ base) (r ∷ rel) = clean ((b ∷ base) ++ (b'/' ∷ r ∷ rel))

pub data PathError : Type 0 where
  unsafe_path : PathError

-- `Join`
unfoldable pub join : Bytes → Bytes → Result PathError FilePath
join base rel = if not (is_local rel) then err unsafe_path else ok (join_paths base rel)
