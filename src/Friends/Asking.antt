-- ===== src/Friends/Asking.antt =====
-- What the user's own decisions do: accepting a request, and adding a friend by an invite code.
use syncy.Base.{
  Bytes, Bool, true, ◌≡◌, ◌⊎◌, inl, inr, refl, ap, sym, ◌∙◌, ◌==◌, nat_eq, list_eq, Option, none,
  some, Result, ok, err, Bool-cases,
}
use mathlib.Core.Path.{subst}
use syncy.Core.{Device, DeviceId, FriendRequest}
use syncy.Metadata.{Database, Store, StoreError}
use syncy.Metadata.Devices.{put_device, get_device}
use syncy.Metadata.Friends.{get_friend_request, remove_friend_request}
use syncy.Friends.{
  World, Code, accept_removed, accept_put, accept_found, accepted_device, new_device, reread,
  add_decoded, accept_friend_request, add_friend_by_code, asked, ask_or_accept, add_unless_trusted,
  send_friend_request,
}
use syncy.Friends.Trust.{IsMarked, marked_row, put_device-Marked}
use syncy.Friends.Effects.{send_friend_request-Marked, remove_friend_request-devices}

module _ (w : World) (db : Database) where
  -- A change that marks no device but one.
  abbrev pub MarksOnly : DeviceId → Store db → Store db → Type 0
  MarksOnly id s s' = (j : DeviceId) → IsMarked db s' j → IsMarked db s j ⊎ (j ≡ id)

  accept_removed-devices :
      (dev : Device) (p : Result StoreError (Unit {0}) × Store db)
      → (accept_removed w db dev p).1 ≡ p.1
  accept_removed-devices dev (ok u, s) = refl
  accept_removed-devices dev (err e, s) = refl

  accept_put-devices :
      (dev : Device) (p : Result StoreError (Unit {0}) × Store db)
      → (accept_put w db dev p).1.devices ≡ p.1.devices
  accept_put-devices dev (err e, s) = refl
  accept_put-devices dev (ok u, s) =
      ap (λ t. t.devices) (accept_removed-devices dev (remove_friend_request db dev.id s))
      ∙ remove_friend_request-devices db dev.id s

  -- Storing a device marks no other one.
  pub put-MarksOnly : (d : Device) (s : Store db) → MarksOnly d.id s (put_device w.json db d s).1
  put-MarksOnly d s j h = elim (put_device-Marked w.json db d s j h) [
    | inl before ↦ inl before
    | inr (e, _) ↦ inr e
  ]

  accept_found-MarksOnly :
      (from : DeviceId) (r : Result StoreError FriendRequest) (s : Store db)
      → MarksOnly from s (accept_found w db from (r, s)).1
  accept_found-MarksOnly from (err e) s j h = inl h
  accept_found-MarksOnly from (ok fr) s j h =
      let dev = accepted_device w db from fr in
      put-MarksOnly dev s j (
        subst (λ t. marked_row (db.devices.rows t j) ≡ true)
          (accept_put-devices dev (put_device w.json db dev s)) h)

  -- Accepting a request marks only the device that it is from.
  pub accept_friend_request-MarksOnly :
      (from : DeviceId) (s : Store db) → MarksOnly from s (accept_friend_request w db from s).1
  unfolding accept_friend_request get_friend_request
  accept_friend_request-MarksOnly from s =
      accept_found-MarksOnly from (get_friend_request w.json db from s).0 s

  reread-state :
      (delivered : Bool) (p : Result StoreError Device × Store db)
      → (reread w db delivered p).1 ≡ p.1
  reread-state delivered (ok d, s) = refl
  reread-state delivered (err e, s) = refl

  asked-state :
      (dev : Device) (r : Result StoreError (Unit {0})) (s : Store db) (j : DeviceId)
      → IsMarked db (asked w db dev (r, s)).1 j
      → IsMarked db s j
  unfolding asked get_device
  asked-state dev (err e) s j h = h
  asked-state dev (ok u) s j h =
      let sent = send_friend_request w db dev s in
      send_friend_request-Marked w db dev s j
        (subst (λ t. IsMarked db t j) (reread-state sent.0 (get_device w.json db dev.id sent.1)) h)

  ask_or_accept-MarksOnly :
      (id : DeviceId) (code : Code) (r : Result StoreError FriendRequest) (s : Store db)
      → MarksOnly id s (ask_or_accept w db id code (r, s)).1
  unfolding ask_or_accept
  ask_or_accept-MarksOnly id code (ok fr) s j h = accept_friend_request-MarksOnly id s j h
  ask_or_accept-MarksOnly id code (err e) s j h =
      let dev = new_device w db id code in
      let p = put_device w.json db dev s in put-MarksOnly dev s j (asked-state dev p.0 p.1 j h)

  add_unless_trusted-MarksOnly :
      (id : DeviceId) (code : Code) (r : Result StoreError Device) (s : Store db)
      → MarksOnly id s (add_unless_trusted w db id code (r, s)).1
  unfolding add_unless_trusted get_friend_request
  add_unless_trusted-MarksOnly id code (err e) s j h =
      ask_or_accept-MarksOnly id code (get_friend_request w.json db id s).0 s j h
  add_unless_trusted-MarksOnly id code (ok d) s j h = elim (Bool-cases d.trusted) [
    | inl already ↦ inl (rw (already, add_unless_trusted) at h)
    | inr other ↦
        ask_or_accept-MarksOnly id code (get_friend_request w.json db id s).0 s j
          (rw (other, add_unless_trusted) at h)
  ]

  -- The device that an invite code names, if it can be read.
  abbrev pub Names : Bytes → DeviceId → Type 0
  Names token j = (code : Code) × (w.decode_invite token ≡ some code) × (code.device_id ≡ j)

  -- Adding a friend by code marks only the device that the code names.
  pub add_friend_by_code-MarksOnly :
      (token : Bytes) (s : Store db) (j : DeviceId)
      → IsMarked db (add_friend_by_code w db token s).1 j
      → IsMarked db s j ⊎ Names token j
  unfolding add_friend_by_code
  add_friend_by_code-MarksOnly token s j h = decoded (w.decode_invite token) refl h
    where
      decoded :
          (o : Option Code)
          → w.decode_invite token ≡ o
          → IsMarked db (add_decoded w db o s).1 j
          → IsMarked db s j ⊎ Names token j
      decoded none e p = inl p
      decoded (some code) e p = elim (Bool-cases (code.device_id == w.self)) [
        | inl own ↦ inl (rw own at p)
        | inr other ↦
            let id = code.device_id in
            elim (add_unless_trusted-MarksOnly id code (get_device w.json db id s).0 s j
              (unfold get_device in (rw other at p))) [
                | inl before ↦ inl before
                | inr same ↦ inr (code, e, sym same)
              ]
      ]
