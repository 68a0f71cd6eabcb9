-- ===== src/Conflict/Name.antt =====
-- `ConflictName` of conflict.go. The formatted time is an argument: formatting is the `time` package's.
use syncy.Base.{
  ℕ, suc, ◌+◌, ◌-◌, ◌≤◌, ◌≡◌, ◌≢◌, ap, refl, ◌∙◌, Bool, false, [], ◌∷◌, ◌++◌, ◌||◌, ltb, Bool-cases,
  inl, inr, arith, ◌==◌, nat_eq, list_eq, if◌then◌else◌, Bytes, str, length, take, length-append,
  not, ◌&&◌,
}
use syncy.Conflict.{DeviceId}

has_slash : Bytes → Bool
has_slash [] = false
has_slash (c ∷ p) = c == b'/' || has_slash p

-- `path.Ext`: the suffix from the last dot of the last element; `stem` is what is cut from it.
unfoldable pub ext : Bytes → Bytes
unfolding has_slash
ext [] = []
ext (c ∷ p) =
    let rest = ext p in if c == b'.' && not (has_slash p) && rest == [] then c ∷ p else rest

-- `relPath[:len(relPath)-len(ext)]`
unfoldable pub stem : Bytes → Bytes
unfolding ext
stem p = take (length p - length (ext p)) p

-- `short[:7]` of a longer device ID.
unfoldable pub short_id : DeviceId → Bytes
short_id id = if ltb 7 (length id) then take 7 id else id

abbrev pub marker : Bytes
marker = str ".sync-conflict-"

unfoldable pub conflict_name : Bytes → DeviceId → Bytes → Bytes
unfolding ext stem short_id
conflict_name rel id stamp =
    stem rel ++ (marker ++ (stamp ++ (str "-" ++ (short_id id ++ ext rel))))

length-ext : (p : Bytes) → length (ext p) ≤ length p
unfolding ext
length-ext [] = omega arith
length-ext (c ∷ p) = ground (arith, length-ext p)

-- Cutting the extension and putting it back gives the path.
ext-cut : (p : Bytes) → take (length p - length (ext p)) p ++ ext p ≡ p
unfolding ext
ext-cut [] = refl
ext-cut (c ∷ p) = elim (Bool-cases (c == b'.' && not (has_slash p) && ext p == [])) [
  | inl whole ↦
      let none_left : suc (length p) - suc (length p) ≡ 0 = omega arith in
      rw whole (ap (λ (k : ℕ). take k (c ∷ p) ++ c ∷ p) none_left)
  | inr part ↦
      let one_more : suc (length p) - length (ext p) ≡ suc (length p - length (ext p)) =
        omega (arith, length-ext p) in
      rw part (ap (λ (k : ℕ). take k (c ∷ p) ++ ext p) one_more ∙ ap (◌∷◌ c) (ext-cut p))
]

stem-append-ext : (p : Bytes) → stem p ++ ext p ≡ p
unfolding stem
stem-append-ext p = ext-cut p

length-conflict_name :
    (rel : Bytes) (id : DeviceId) (stamp : Bytes)
    → length rel + 16 + length stamp ≤ length (conflict_name rel id stamp)
unfolding conflict_name
length-conflict_name rel id stamp = omega (
  arith,
  ap length (stem-append-ext rel),
  length-append (stem rel) (ext rel),
  length-append (stem rel) (marker ++ (stamp ++ (str "-" ++ (short_id id ++ ext rel)))),
  length-append marker (stamp ++ (str "-" ++ (short_id id ++ ext rel))),
  length-append stamp (str "-" ++ (short_id id ++ ext rel)),
  length-append (str "-") (short_id id ++ ext rel),
  length-append (short_id id) (ext rel),
)

-- The conflict copy of a file is never the file itself, and its name is the file's name cut
-- before its extension, with the marker, the time and the device between the two parts.
pub conflict_name-ne :
    (rel : Bytes) (id : DeviceId) (stamp : Bytes)
    → (conflict_name rel id stamp ≢ rel)
      × ((before : Bytes) × (before ++ ext rel ≡ rel)
          × (conflict_name rel id stamp
              ≡ before ++ (marker ++ (stamp ++ (str "-" ++ (short_id id ++ ext rel))))))
conflict_name-ne rel id stamp = (
  λ e. absurd (omega (arith, length-conflict_name rel id stamp, ap length e)),
  (stem rel, stem-append-ext rel, unfold conflict_name in refl),
)
