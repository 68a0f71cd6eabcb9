-- ===== src/Daemon/Syncing.antt =====
-- engine/internal/daemon/daemon.go: one sync with a device at a time, and the endpoints that the
-- daemon announces.
use syncy.Base.{
  Bytes, Bool, not, true, false, List, [], ◌∷◌, ◌++◌, ◌≡◌, ◌==◌, nat_eq, list_eq, if◌then◌else◌,
  Bool-cases, inl, inr, ◌&&◌, eq_refl, arith,
}
use syncy.Core.{DeviceId}

-- `d.syncing`: a missing key reads as false.
abbrev pub Syncing : Type 0
Syncing = DeviceId → Bool

unfoldable pub begin_sync : DeviceId → Syncing → Bool × Syncing
begin_sync id s = if s id then (false, s) else (true, λ j. if j == id then true else s j)

unfoldable pub end_sync : DeviceId → Syncing → Syncing
end_sync id s j = if j == id then false else s j

-- The calls of the loops that sync, in the order in which they take the lock. A loop calls
-- `endSync` after a `beginSync` that returned true.
pub data Call : Type 0 where
  begin end : DeviceId → Call

-- What the `beginSync` calls return, and which syncs run behind the calls.
unfoldable pub calls : List Call → Syncing → List Bool × Syncing
calls [] s = ([], s)
calls (begin id ∷ cs) s =
    let (won, s') = begin_sync id s in let (rest, s'') = calls cs s' in (won ∷ rest, s'')
calls (end id ∷ cs) s = calls cs (end_sync id s)

-- The calls hold no end of the sync with a device.
abbrev pub unended : DeviceId → List Call → Bool
unended id [] = true
unended id (begin j ∷ cs) = unended id cs
unended id (end j ∷ cs) = not (id == j) && unended id cs

begin_sync-keeps : (id j : DeviceId) (s : Syncing) → s id ≡ true → (begin_sync j s).1 id ≡ true
unfolding begin_sync
begin_sync-keeps id j s h = elim (Bool-cases (s j)) [
  | inl busy ↦ rw (begin_sync, busy) h
  | inr idle ↦ rw (begin_sync, idle) (ground (arith, h))
]

calls_keep :
    (cs : List Call) (id : DeviceId) (s : Syncing)
    → unended id cs ≡ true
    → s id ≡ true
    → (calls cs s).1 id ≡ true
unfolding calls
calls_keep [] id s u h = h
calls_keep (begin j ∷ cs) id s u h =
    calls_keep cs id (begin_sync j s).1 u (begin_sync-keeps id j s h)
calls_keep (end j ∷ cs) id s u h = elim (Bool-cases (id == j)) [
  | inl same ↦ cc (rw same at u)
  | inr other ↦ calls_keep cs id (end_sync j s) (rw other at u) (unfold end_sync in rw other h)
]

begun : (id : DeviceId) (s : Syncing) → (begin_sync id s).1 id ≡ true
unfolding begin_sync
begun id s = elim (Bool-cases (s id)) [
  | inl busy ↦ rw (begin_sync, busy) busy
  | inr idle ↦ rw (begin_sync, idle) (rw (eq_refl id))
]

-- After a `beginSync` of a device has returned, whatever other calls follow, the next `beginSync`
-- of that device returns false unless an `endSync` of it came between. It is a statement about the
-- lock alone: which loops hold it while they sync is not part of it.
pub begin_sync_once :
    (cs : List Call) (id : DeviceId) (s : Syncing)
    → unended id cs ≡ true
    → (begin_sync id (calls cs (begin_sync id s).1).1).0 ≡ false
unfolding begin_sync
begin_sync_once cs id s u =
    let held = calls_keep cs id (begin_sync id s).1 u (begun id s) in rw held

-- `endpoints`: the local ones, and the external one if it is known.
unfoldable pub endpoints : List Bytes → Bytes → List Bytes
endpoints lan_eps external = if external == [] then lan_eps else lan_eps ++ external ∷ []
