-- ===== src/Daemon/Dialing.antt =====
-- engine/internal/daemon/daemon.go: which peers the daemon dials, which folders it pulls from them,
-- and the endpoints that it announces.
use syncy.Base.{
  ℕ, ◌-◌, ◌*◌, Bytes, Bool, true, false, not, List, [], ◌∷◌, ◌==◌, ◌||◌, ◌&&◌, ◌≡◌, refl, nat_eq,
  list_eq, Option, none, some, if◌then◌else◌, leb, map, All, Any, inl, inr, if_elim,
}
use syncy.Core.{Device, DeviceId, Folder, DiscoverySettings}
use syncy.Daemon.Syncing.{Syncing, begin_sync}
use syncy.Nat.{endpoint}

-- What a loop starts after it has taken the lock of a device.
pub data Start : Type 0 where
  ask : Device → Start
  sync_with : DeviceId → List Bytes → Start

-- One peer of `dialLoop`, as discovered with an address.
unfoldable pub dial_peer : DeviceId → DeviceId → Bytes → Syncing → List Start × Syncing
unfolding begin_sync
dial_peer self peer addr s =
    if peer == self
    then ([], s)
    else (let (won, s') = begin_sync peer s in
        if won then (sync_with peer (addr ∷ []) ∷ [], s') else ([], s'))

-- The tests of `remoteDialLoop` before it takes the lock.
unfoldable pub wants_dial : DeviceId → DiscoverySettings → Device → Bool
wants_dial self settings dev =
    if (dev.id == self) || (dev.endpoints == [])
    then false
    else if dev.trusted && not settings.internet
    then false
    else not (not dev.trusted && not dev.pending_outgoing)

abbrev pub start_of : Device → Start
start_of dev = if dev.trusted then sync_with dev.id dev.endpoints else ask dev

-- The loop of `remoteDialLoop` over the devices of one tick.
unfoldable pub remote_tick :
    DeviceId → DiscoverySettings → List Device → Syncing → List Start × Syncing
unfolding wants_dial begin_sync
remote_tick self settings [] s = ([], s)
remote_tick self settings (dev ∷ devs) s =
    let (rest, kept) = remote_tick self settings devs s in
    let (won, s') = begin_sync dev.id s in
    let (later, s'') = remote_tick self settings devs s' in
    if wants_dial self settings dev
    then (if won then (start_of dev ∷ later, s'') else (later, s''))
    else (rest, kept)

-- The folders that `syncWithAddr` pulls, once it is connected.
unfoldable pub pulled_folders : List Folder → List Bytes
pulled_folders [] = []
pulled_folders (f ∷ fs) = let rest = pulled_folders fs in if f.paused then rest else f.id ∷ rest

-- `syncWithAddr`: the folders it pulls, from what `GetDevice` says of the peer, whether the dial
-- succeeds, and what `ListFolders` returns; none where it returns false.
abbrev pub sync_connected : Bool → Option (List Folder) → Option (List Bytes)
sync_connected false folders = none
sync_connected true none = none
sync_connected true (some fs) = some (pulled_folders fs)

unfoldable pub sync_with_addr : Option Device → Bool → Option (List Folder) → Option (List Bytes)
unfolding pulled_folders
sync_with_addr none dials folders = none
sync_with_addr (some dev) dials folders =
    if not dev.trusted then none else sync_connected dials folders

-- The addresses that a sync tries: until one succeeds.
unfoldable pub first_address : (Bytes → Bool) → List Bytes → Option Bytes
first_address works [] = none
first_address works (ep ∷ eps) =
    let rest = first_address works eps in if works ep then some ep else rest

-- The tick's device list has the device with these endpoints, and it is trusted.
abbrev pub TrustsAt : DeviceId → List Bytes → Device → Type 0
TrustsAt id eps dev = (dev.id ≡ id) × (dev.endpoints ≡ eps) × (dev.trusted ≡ true)

-- Whom a started sync or ask may be with.
abbrev pub Allowed : DeviceId → DiscoverySettings → List Device → Start → Type 0
Allowed self settings devs (ask dev) =
    ((dev.id == self) ≡ false)
    × (dev.trusted ≡ false)
    × (dev.pending_outgoing ≡ true)
    × Any (λ d. d ≡ dev) devs
Allowed self settings devs (sync_with id eps) =
    ((id == self) ≡ false) × (settings.internet ≡ true) × Any (TrustsAt id eps) devs

dial_flags :
    (s e t i p : Bool)
    → (if s || e then false else if t && not i then false else not (not t && not p)) ≡ true
    → (s ≡ false) × (t ≡ true → i ≡ true) × (t ≡ false → p ≡ true)
dial_flags true e t i p h = cc h
dial_flags false true t i p h = cc h
dial_flags false false true true p h = (refl, (λ _. refl), λ f. cc f)
dial_flags false false true false p h = cc h
dial_flags false false false i true h = (refl, (λ f. cc f), λ _. refl)
dial_flags false false false i false h = cc h

start_of-Allowed :
    (self : DeviceId) (settings : DiscoverySettings) (dev : Device) (devs : List Device)
    → wants_dial self settings dev ≡ true
    → Allowed self settings (dev ∷ devs) (start_of dev)
unfolding wants_dial
start_of-Allowed self settings dev devs h =
    let (other, internet, pending) =
      dial_flags (dev.id == self) (dev.endpoints == []) dev.trusted settings.internet
        dev.pending_outgoing h in
    if_elim (Allowed self settings (dev ∷ devs)) dev.trusted (sync_with dev.id dev.endpoints)
      (ask dev) (λ t. (other, internet t, inl (refl, refl, t)))
      (λ f. (other, f, pending f, inl refl))

Allowed-later :
    (self : DeviceId) (settings : DiscoverySettings) (dev : Device) (devs : List Device)
    (starts : List Start)
    → All (Allowed self settings devs) starts
    → All (Allowed self settings (dev ∷ devs)) starts
Allowed-later self settings dev devs [] h = tt
Allowed-later self settings dev devs (ask d ∷ ss) ((other, f, p, known), h) =
    ((other, f, p, inr known), Allowed-later self settings dev devs ss h)
Allowed-later self settings dev devs (sync_with id eps ∷ ss) ((other, on, known), h) =
    ((other, on, inr known), Allowed-later self settings dev devs ss h)

-- A tick of `remoteDialLoop` starts a sync only with a device that the tick's list holds as
-- trusted, at the endpoints of that row and while the setting for the internet is on; it asks only
-- devices of the list that are not trusted and that the user has asked to befriend; and it never
-- dials this device itself.
pub remote_tick-Allowed :
    (self : DeviceId) (settings : DiscoverySettings) (devs : List Device) (s : Syncing)
    → All (Allowed self settings devs) (remote_tick self settings devs s).0
unfolding remote_tick
remote_tick-Allowed self settings [] s = tt
remote_tick-Allowed self settings (dev ∷ devs) s =
    let Good = All (Allowed self settings (dev ∷ devs)) in
    let took = begin_sync dev.id s in
    let later = remote_tick self settings devs took.1 in
    let skipped =
      Allowed-later self settings dev devs later.0
        (remote_tick-Allowed self settings devs took.1) in
    if_elim (λ out. Good out.0) (wants_dial self settings dev)
      (if took.0 then (start_of dev ∷ later.0, later.1) else later)
      (remote_tick self settings devs s)
      (λ wanted.
        if_elim (λ out. Good out.0) took.0 (start_of dev ∷ later.0, later.1) later
          (λ won. (start_of-Allowed self settings dev devs wanted, skipped)) (λ busy. skipped))
      (λ unwanted.
        Allowed-later self settings dev devs (remote_tick self settings devs s).0
          (remote_tick-Allowed self settings devs s))

-- The state of `natLoop`: the external endpoint, and the time of the last attempt, if it is not
-- zero. Times are in seconds.
pub record NatState : Type 0 where
  pub external : Bytes
  pub last_attempt : Option ℕ

abbrev pub nat_refresh_interval : ℕ
nat_refresh_interval = 40 * 60

abbrev pub is_due : ℕ → Option ℕ → Bool
is_due now none = true
is_due now (some last) = leb nat_refresh_interval (now - last)

abbrev pub or_empty : Option Bytes → Bytes
or_empty none = []
or_empty (some ep) = ep

abbrev pub internet_on : Option DiscoverySettings → Bool
internet_on none = false
internet_on (some settings) = settings.internet

-- A round of `natLoop`: the time, the settings, and what `ExternalEndpoint` would find.
unfoldable pub nat_round : ℕ → Option DiscoverySettings → Option Bytes → NatState → NatState
nat_round now settings ep s =
    if not (internet_on settings)
    then record { external = []; last_attempt = none }
    else if is_due now s.last_attempt
    then record { external = or_empty ep; last_attempt = some now }
    else s

-- `setLANEndpoints`, from what `LANIPs` returns; the endpoints stay on an error.
abbrev pub set_lan_endpoints : Option (List Bytes) → ℕ → List Bytes → List Bytes
set_lan_endpoints none port eps = eps
set_lan_endpoints (some ips) port eps = map (λ ip. endpoint ip port) ips
