-- ===== src/Metadata/Devices.antt =====
-- engine/internal/metadata/devices.go
use syncy.Base.{◌==◌, nat_eq, list_eq, [], if◌then◌else◌, Option, none, some, Result, ok, err}
use syncy.Core.{Device, DeviceId}
use syncy.Metadata.{
  Database, DeviceRow, StoreError, Json, M, not_found, database, empty_id, bool_to_int, nonzero,
  unix_or_zero, time_from_unix, list_to_json, list_from_json, require_affected,
}

module _ (j : Json) where
  -- The values that `PutDevice` inserts.
  unfoldable pub device_row : Device → DeviceRow
  unfolding bool_to_int unix_or_zero list_to_json
  device_row d = record {
    name = d.name;
    trusted = bool_to_int d.trusted;
    pending_outgoing = bool_to_int d.pending_outgoing;
    endpoints = list_to_json j d.endpoints;
    last_seen = unix_or_zero d.last_seen;
    added_at = unix_or_zero d.added_at;
  }

  -- Its `DO UPDATE SET`: every column but `added_at`.
  abbrev pub update_device : DeviceRow → DeviceRow → DeviceRow
  update_device excluded old = record excluded { added_at = old.added_at }

  -- `scanDevice`
  unfoldable pub scan_device : DeviceId → DeviceRow → Device
  unfolding list_from_json time_from_unix
  scan_device id row = record {
    id = id;
    name = row.name;
    trusted = nonzero row.trusted;
    pending_outgoing = nonzero row.pending_outgoing;
    endpoints = list_from_json j row.endpoints;
    last_seen = time_from_unix row.last_seen;
    added_at = time_from_unix row.added_at;
  }

  module _ (db : Database) where
    unfoldable pub put_device : Device → M db (Unit {0})
    put_device d s =
        if d.id == []
        then (err empty_id, s)
        else elim (db.devices.upsert s.devices d.id (device_row d) (update_device (device_row d))) [
          | none ↦ (err database, s)
          | some t ↦ (ok tt, record s { devices = t })
        ]

    abbrev pub found_device : DeviceId → Option (Option DeviceRow) → Result StoreError Device
    found_device id none = err database
    found_device id (some none) = err not_found
    found_device id (some (some row)) = ok (scan_device id row)

    unfoldable pub get_device : DeviceId → M db Device
    get_device id s = (found_device id (db.devices.select s.devices id), s)

    unfoldable pub remove_device : DeviceId → M db (Unit {0})
    unfolding require_affected
    remove_device id s = elim (db.devices.delete s.devices id) [
      | none ↦ (err database, s)
      | some (t, n) ↦ (require_affected n, record s { devices = t })
    ]
