-- ===== src/Examples/Vectors.antt =====
-- engine/internal/conflict/conflict.go at two devices.
use syncy.Base.{
  ℕ, ◌+◌, ◌<◌, ◌^◌, Bytes, [], ◌∷◌, ◌++◌, ◌≡◌, ◌≢◌, refl, true, str, arith, ap, list_eq, nat_eq,
}
use syncy.Base.Dict.{NodupKeys}
use syncy.Protocol.{head_byte}
use syncy.Conflict.{Vector, Ordering, get, increment, merge, compare}
use syncy.Conflict.Order.{Describes, compare-Describes}
use syncy.Conflict.Merge.{larger, get-merge, compare-increment}

abbrev laptop : Vector
laptop = (str "L", 3) ∷ (str "D", 1) ∷ []

abbrev desktop : Vector
desktop = (str "D", 2) ∷ (str "L", 2) ∷ []

laptop-NodupKeys : NodupKeys laptop
unfolding syncy.Base.Dict.lookup list_eq syncy.Base.ℕ_discrete
laptop-NodupKeys = (refl, (refl, tt))

desktop-NodupKeys : NodupKeys desktop
unfolding syncy.Base.Dict.lookup list_eq syncy.Base.ℕ_discrete
desktop-NodupKeys = (refl, (refl, tt))

compare-Describes_example : Describes (compare laptop desktop) laptop desktop
compare-Describes_example = compare-Describes laptop desktop laptop-NodupKeys desktop-NodupKeys

get-merge_example :
    get (merge laptop desktop) (str "D") ≡ larger (get laptop (str "D")) (get desktop (str "D"))
get-merge_example = get-merge laptop desktop desktop-NodupKeys (str "D")

count-laptop : (id : Bytes) → id ≡ str "L" → get laptop id + 1 < 2 ^ 64
unfolding get syncy.Base.list_eq syncy.Base.ℕ_discrete
count-laptop id e = rw e (omega arith)

count-laptop_other : get laptop (str "D") + 1 < 2 ^ 64
unfolding get syncy.Base.list_eq syncy.Base.ℕ_discrete
count-laptop_other = omega arith

compare-increment_example : compare (increment laptop (str "L")) laptop ≡ Ordering.greater
compare-increment_example =
    compare-increment laptop (str "L") laptop-NodupKeys (count-laptop (str "L") refl)

ids_differ : str "L" ≢ str "D"
ids_differ = λ e. absurd (omega (arith, ap head_byte e))
