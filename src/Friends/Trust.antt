-- ===== src/Friends/Trust.antt =====
-- Which devices the operations of friends.go can make trusted, whatever the database and the
-- network do.
use syncy.Base.{
  Bool, true, false, [], ◌≡◌, ◌⊎◌, inl, inr, refl, sym, ◌∙◌, ◌==◌, nat_eq, list_eq, if◌then◌else◌,
  Option, none, some, ok, arith, Bool-cases, Option-cases, eq_of_beq, ◌||◌,
}
use syncy.Core.{Device, DeviceId}
use syncy.Metadata.{Database, DeviceRow, Store, Json, bool_to_int, nonzero, upserted}
use syncy.Metadata.Devices.{
  put_device, get_device, device_row, update_device, scan_device, found_device,
}

abbrev pub trusted_row : Option DeviceRow → Bool
trusted_row none = false
trusted_row (some r) = nonzero r.trusted

-- Trusted, or asked to become a friend.
abbrev pub marked_row : Option DeviceRow → Bool
marked_row none = false
marked_row (some r) = nonzero r.trusted || nonzero r.pending_outgoing

abbrev pub device_at : (db : Database) → Store db → DeviceId → Option DeviceRow
device_at db s j = db.devices.rows s.devices j

abbrev pub IsTrusted : (db : Database) → Store db → DeviceId → Type 0
IsTrusted db s j = trusted_row (device_at db s j) ≡ true

abbrev pub IsMarked : (db : Database) → Store db → DeviceId → Type 0
IsMarked db s j = marked_row (device_at db s j) ≡ true

pub Trusted-Marked :
    (db : Database) (s : Store db) (j : DeviceId) → IsTrusted db s j → IsMarked db s j
Trusted-Marked db s j h = ground arith

nonzero-bool_to_int : (b : Bool) → nonzero (bool_to_int b) ≡ b
unfolding bool_to_int
nonzero-bool_to_int true = refl
nonzero-bool_to_int false = refl

module _ (json : Json) (db : Database) where
  device_row_flags :
      (d : Device)
      → (nonzero (device_row json d).trusted ≡ d.trusted)
        × (nonzero (device_row json d).pending_outgoing ≡ d.pending_outgoing)
  unfolding device_row
  device_row_flags d = (nonzero-bool_to_int d.trusted, nonzero-bool_to_int d.pending_outgoing)

  found_device-ok :
      (id : DeviceId) (s : Store db) (d : Device) (o : Option (Option DeviceRow))
      → db.devices.select s.devices id ≡ o
      → found_device json db id o ≡ ok d
      → (d.id ≡ id)
        × (d.trusted ≡ trusted_row (device_at db s id))
        × ((d.trusted || d.pending_outgoing) ≡ marked_row (device_at db s id))
  unfolding scan_device
  found_device-ok id s d none e h = cc h
  found_device-ok id s d (some none) e h = cc h
  found_device-ok id s d (some (some row)) e h =
      let seen = db.devices.select-rows s.devices id (some row) e in rw (← seen) (ground arith)

  -- A successful read shows the committed flags.
  pub get_device-ok :
      (id : DeviceId) (s : Store db) (d : Device)
      → (get_device json db id s).0 ≡ ok d
      → (d.id ≡ id)
        × (d.trusted ≡ trusted_row (device_at db s id))
        × ((d.trusted || d.pending_outgoing) ≡ marked_row (device_at db s id))
  unfolding get_device
  get_device-ok id s d h = found_device-ok id s d (db.devices.select s.devices id) refl h

  pub store-get_device : (id : DeviceId) (s : Store db) → (get_device json db id s).1 ≡ s
  unfolding get_device
  store-get_device id s = refl

  -- A write leaves the store alone, or it changes the row of its own device.
  put_device-rows :
      (d : Device) (s : Store db)
      → ((put_device json db d s).1 ≡ s)
        ⊎ ((j : DeviceId)
            → device_at db (put_device json db d s).1 j ≡ (
                if j == d.id
                then some (
                    upserted
                      (device_row json d)
                      (update_device json (device_row json d))
                      (device_at db s d.id))
                else device_at db s j))
  unfolding put_device
  put_device-rows d s = elim (Bool-cases (d.id == [])) [
    | inl empty ↦ inl (rw empty)
    | inr named ↦
        let row = device_row json d in
        elim (Option-cases (db.devices.upsert s.devices d.id row (update_device json row))) [
          | inl failed ↦ inl (rw (named, failed))
          | inr (t, done) ↦ inr (λ j.
              rw (named, done)
                (db.devices.rows-upsert s.devices t d.id row (update_device json row) done j))
        ]
  ]

  upserted_flags :
      (d : Device) (o : Option DeviceRow)
      → (trusted_row
            (some (upserted (device_row json d) (update_device json (device_row json d)) o))
          ≡ d.trusted)
        × (marked_row
              (some (upserted (device_row json d) (update_device json (device_row json d)) o))
            ≡ (d.trusted || d.pending_outgoing))
  upserted_flags d none = ground (arith, device_row_flags d)
  upserted_flags d (some old) = ground (arith, device_row_flags d)

  -- A write changes the flags of its own device only.
  pub put_device-Marked :
      (d : Device) (s : Store db) (j : DeviceId)
      → IsMarked db (put_device json db d s).1 j
      → IsMarked db s j ⊎ ((j ≡ d.id) × ((d.trusted || d.pending_outgoing) ≡ true))
  put_device-Marked d s j h = elim (put_device-rows d s) [
    | inl same ↦ inl (rw same at h)
    | inr rows ↦ elim (Bool-cases (j == d.id)) [
      | inl own ↦ inr (
        eq_of_beq j d.id own,
        sym (upserted_flags d (device_at db s d.id)).1 ∙ (rw (rows j, own) at h),
      )
      | inr other ↦ inl (rw (rows j, other) at h)
    ]
  ]

  pub put_device-Trusted :
      (d : Device) (s : Store db) (j : DeviceId)
      → IsTrusted db (put_device json db d s).1 j
      → IsTrusted db s j ⊎ ((j ≡ d.id) × (d.trusted ≡ true))
  put_device-Trusted d s j h = elim (put_device-rows d s) [
    | inl same ↦ inl (rw same at h)
    | inr rows ↦ elim (Bool-cases (j == d.id)) [
      | inl own ↦ inr (
        eq_of_beq j d.id own,
        sym (upserted_flags d (device_at db s d.id)).0 ∙ (rw (rows j, own) at h),
      )
      | inr other ↦ inl (rw (rows j, other) at h)
    ]
  ]
