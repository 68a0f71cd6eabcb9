-- ===== src/Friends/Settings.antt =====
-- engine/internal/syncengine/friends.go: the discovery settings, the invite code, and the folders
-- of a friend.
use syncy.Base.{
  if◌then◌else◌, not, Bytes, true, false, Option, none, some, Result, ok, err, str, List, [], ◌∷◌,
}
use syncy.Core.{Device, DiscoverySettings, DeviceId}
use syncy.Metadata.{Database, Store, StoreError, Json, M, not_found}
use syncy.Metadata.Devices.{get_device}
use syncy.Protocol.Messages.{SharedFolder}
use syncy.Metadata.Friends.{get_setting, set_setting}
use syncy.Friends.{Code}

abbrev pub discovery_key : Bytes
discovery_key = str "discovery"

abbrev pub local_only : DiscoverySettings
local_only = record { local = true; internet = false }

-- What `e.endpoints` of `LocalEndpoints` gives: nothing before a source is set.
unfoldable pub local_endpoints : Option (List Bytes) → List Bytes
local_endpoints none = []
local_endpoints (some eps) = eps

-- The code that `InviteCode` encodes; `hostname` is what `os.Hostname` returns, if it can.
abbrev pub device_name : Option Bytes → Bytes
device_name none = []
device_name (some name) = name

unfoldable pub invite_code : DeviceId → Option Bytes → Option (List Bytes) → Code
unfolding local_endpoints
invite_code id hostname source = record {
  device_id = id;
  name = device_name hostname;
  endpoints = local_endpoints source;
}

-- `encode` and `decode` are `encoding/json` at the settings.
module _ (encode : DiscoverySettings → Option Bytes) (decode : Bytes → Option DiscoverySettings)
    (db : Database) where
  abbrev pub decoded_settings : Option DiscoverySettings → DiscoverySettings
  decoded_settings none = local_only
  decoded_settings (some s) = s

  abbrev pub settings_from : Result StoreError Bytes → Result StoreError DiscoverySettings
  settings_from (ok raw) = ok (decoded_settings (decode raw))
  settings_from (err not_found) = ok local_only
  settings_from (err e) = err e

  unfoldable pub discovery_settings : M db DiscoverySettings
  discovery_settings s = let (r, s') = get_setting db discovery_key s in (settings_from r, s')

  abbrev pub store_settings : Option Bytes → M db (Unit {0})
  store_settings none s = (err StoreError.database, s)
  store_settings (some raw) s = set_setting db discovery_key raw s

  unfoldable pub set_discovery_settings : DiscoverySettings → M db (Unit {0})
  set_discovery_settings d s = store_settings (encode d) s

pub data FoldersError : Type 0 where
  not_friend unreachable : FoldersError
  device_store : StoreError → FoldersError

-- `FriendFolders`: `ask` dials a device at an address and requests its list of folders, and gives
-- none when a step of that fails.
module _ (ask : DeviceId → Bytes → Option (List SharedFolder)) (j : Json) (db : Database) where
  abbrev pub or_next :
      Option (List SharedFolder)
      → Result FoldersError (List SharedFolder)
      → Result FoldersError (List SharedFolder)
  or_next none next = next
  or_next (some folders) next = ok folders

  -- The loop over the endpoints: the first that answers.
  unfoldable pub ask_each : DeviceId → List Bytes → Result FoldersError (List SharedFolder)
  ask_each id [] = err unreachable
  ask_each id (ep ∷ eps) = or_next (ask id ep) (ask_each id eps)

  abbrev pub folders_of :
      Result StoreError Device → DeviceId → Result FoldersError (List SharedFolder)
  folders_of (err e) id = err (device_store e)
  folders_of (ok dev) id = if not dev.trusted then err not_friend else ask_each id dev.endpoints

  unfoldable pub friend_folders : DeviceId → Store db → Result FoldersError (List SharedFolder)
  unfolding ask_each
  friend_folders id s = folders_of (get_device j db id s).0 id
