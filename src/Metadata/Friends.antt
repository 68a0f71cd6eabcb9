-- ===== src/Metadata/Friends.antt =====
-- engine/internal/metadata/friends.go: friend requests and settings.
use syncy.Base.{
  Bytes, ◌==◌, nat_eq, list_eq, [], if◌then◌else◌, Option, none, some, Result, ok, err,
}
use syncy.Core.{FriendRequest, DeviceId}
use syncy.Metadata.{
  Database, RequestRow, StoreError, Json, M, not_found, database, empty_id, empty_key, unix_or_zero,
  time_from_unix, list_to_json, list_from_json, require_affected,
}

module _ (j : Json) where
  unfoldable pub request_row : FriendRequest → RequestRow
  unfolding unix_or_zero list_to_json
  request_row fr = record {
    name = fr.name;
    endpoints = list_to_json j fr.endpoints;
    created_at = unix_or_zero fr.created_at;
  }

  abbrev pub update_request : RequestRow → RequestRow → RequestRow
  update_request excluded old = record excluded { created_at = old.created_at }

  -- `scanFriendRequest`
  unfoldable pub scan_request : DeviceId → RequestRow → FriendRequest
  unfolding list_from_json time_from_unix
  scan_request id row = record {
    from_id = id;
    name = row.name;
    endpoints = list_from_json j row.endpoints;
    created_at = time_from_unix row.created_at;
  }

  module _ (db : Database) where
    unfoldable pub put_friend_request : FriendRequest → M db (Unit {0})
    put_friend_request fr s =
        if fr.from_id == []
        then (err empty_id, s)
        else elim (db.requests.upsert s.requests fr.from_id (request_row fr)
            (update_request (request_row fr))) [
              | none ↦ (err database, s)
              | some t ↦ (ok tt, record s { requests = t })
            ]

    abbrev pub found_request :
        DeviceId → Option (Option RequestRow) → Result StoreError FriendRequest
    found_request id none = err database
    found_request id (some none) = err not_found
    found_request id (some (some row)) = ok (scan_request id row)

    unfoldable pub get_friend_request : DeviceId → M db FriendRequest
    get_friend_request id s = (found_request id (db.requests.select s.requests id), s)

module _ (db : Database) where
  unfoldable pub remove_friend_request : DeviceId → M db (Unit {0})
  unfolding require_affected
  remove_friend_request id s = elim (db.requests.delete s.requests id) [
    | none ↦ (err database, s)
    | some (t, n) ↦ (require_affected n, record s { requests = t })
  ]

  abbrev pub found_setting : Option (Option Bytes) → Result StoreError Bytes
  found_setting none = err database
  found_setting (some none) = err not_found
  found_setting (some (some value)) = ok value

  unfoldable pub get_setting : Bytes → M db Bytes
  get_setting key s = (found_setting (db.settings.select s.settings key), s)

  unfoldable pub set_setting : Bytes → Bytes → M db (Unit {0})
  set_setting key value s =
      if key == []
      then (err empty_key, s)
      else elim (db.settings.upsert s.settings key value (λ _. value)) [
        | none ↦ (err database, s)
        | some t ↦ (ok tt, record s { settings = t })
      ]
