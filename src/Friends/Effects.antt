-- ===== src/Friends/Effects.antt =====
-- What each operation of friends.go does to the trust in a device.
use mathlib.Core.Path.{subst}
use syncy.Base.{
  Bytes, not, true, false, List, [], ◌∷◌, ◌≡◌, ◌⊎◌, inl, inr, refl, ap, sym, ◌∙◌, ◌==◌, nat_eq,
  list_eq, if◌then◌else◌, Option, none, some, Result, ok, err, arith, Bool-cases, Option-cases,
  ◌||◌,
}
use syncy.Core.{Device, DeviceId, FriendRequest}
use syncy.Metadata.{Database, Store, StoreError, Json}
use syncy.Metadata.Devices.{put_device, get_device, remove_device}
use syncy.Metadata.Friends.{put_friend_request, remove_friend_request}
use syncy.Friends.{
  succeeded, World, Response, apply_friend_response, apply_to, refreshed, refresh_friend,
  refresh_to, record_friend_request, send_friend_request, send_to, after_response,
}
use syncy.Protocol.{type_ack, type_friend_request, type_friend_response}
use syncy.Friends.Trust.{
  IsTrusted, IsMarked, get_device-ok, put_device-Marked, put_device-Trusted, marked_row,
}

module _ (db : Database) where
  pub put_friend_request-devices :
      (json : Json) (fr : FriendRequest) (s : Store db)
      → (put_friend_request json db fr s).1.devices ≡ s.devices
  unfolding put_friend_request
  put_friend_request-devices json fr s = ground arith

  pub remove_friend_request-devices :
      (id : DeviceId) (s : Store db) → (remove_friend_request db id s).1.devices ≡ s.devices
  unfolding remove_friend_request
  remove_friend_request-devices id s = ground arith

  pub remove_device-Marked :
      (json : Json) (id : DeviceId) (s : Store db) (j : DeviceId)
      → IsMarked db (remove_device json db id s).1 j
      → IsMarked db s j
  unfolding remove_device
  remove_device-Marked json id s j h = elim (Option-cases (db.devices.delete s.devices id)) [
    | inl failed ↦ rw (failed, remove_device) at h
    | inr ((t, n), done) ↦
        let left : marked_row (db.devices.rows t j) ≡ true = rw (done, remove_device) at h in
        elim (Bool-cases (j == id)) [
          | inl own ↦ cc (rw (db.devices.rows-delete s.devices t id n done j, own) at left)
          | inr other ↦ rw (db.devices.rows-delete s.devices t id n done j, other) at left
        ]
  ]

module _ (w : World) (db : Database) where
  -- A device that was read before it is written back with trust set only if it is asked or trusted.
  write_back-Trusted :
      (from : DeviceId) (d d' : Device) (s : Store db) (j : DeviceId)
      → (get_device w.json db from s).0 ≡ ok d
      → (d.trusted || d.pending_outgoing) ≡ true
      → d'.id ≡ d.id
      → IsTrusted db (put_device w.json db d' s).1 j
      → IsTrusted db s j ⊎ ((j ≡ from) × IsMarked db s j)
  write_back-Trusted from d d' s j read flag same h =
      let (own, _, marked) = get_device-ok w.json db from s d read in
      elim (put_device-Trusted w.json db d' s j h) [
        | inl before ↦ inl before
        | inr (e, _) ↦
            let here : j ≡ from = e ∙ same ∙ own in inr (here, rw here (sym marked ∙ flag))
      ]

  write_back-Marked :
      (from : DeviceId) (d d' : Device) (s : Store db) (j : DeviceId)
      → (get_device w.json db from s).0 ≡ ok d
      → (d.trusted || d.pending_outgoing) ≡ true
      → d'.id ≡ d.id
      → IsMarked db (put_device w.json db d' s).1 j
      → IsMarked db s j
  write_back-Marked from d d' s j read flag same h =
      let (own, _, marked) = get_device-ok w.json db from s d read in
      elim (put_device-Marked w.json db d' s j h) [
        | inl before ↦ before
        | inr (e, _) ↦ rw (e ∙ same ∙ own) (sym marked ∙ flag)
      ]

  succeeded-state : (p : Result StoreError (Unit {0}) × Store db) → (succeeded w db p).1 ≡ p.1
  succeeded-state (ok u, s) = refl
  succeeded-state (err e, s) = refl

  -- What `ApplyFriendResponse` leaves: the store as it was, or the device written back.
  apply_to-cases :
      (from : DeviceId) (r : Result StoreError Device) (name : Bytes) (eps : List Bytes)
      (s : Store db)
      → (get_device w.json db from s).0 ≡ r
      → ((apply_to w db r name eps s).1 ≡ s)
        ⊎ ((d d' : Device) × ((get_device w.json db from s).0 ≡ ok d)
            × ((d.trusted || d.pending_outgoing) ≡ true)
            × (d'.id ≡ d.id)
            × ((apply_to w db r name eps s).1 ≡ (put_device w.json db d' s).1))
  unfolding apply_to refreshed
  apply_to-cases from (err e) name eps s read = inl refl
  apply_to-cases from (ok d) name eps s read = elim (Bool-cases d.trusted) [
    | inl already ↦ inl (rw already)
    | inr fresh ↦ elim (Bool-cases d.pending_outgoing) [
      | inr unasked ↦ inl (rw (fresh, unasked))
      | inl pending ↦
          let d' = refreshed w (record d { trusted = true; pending_outgoing = false }) name eps in
          inr (
            d,
            d',
            read,
            ground arith,
            refl,
            (rw (fresh, pending) (succeeded-state (put_device w.json db d' s))),
          )
    ]
  ]

  -- `ApplyFriendResponse` trusts nobody but the sender, and the sender only if it was asked.
  pub apply_friend_response-Trusted :
      (from : DeviceId) (name : Bytes) (eps : List Bytes) (s : Store db) (j : DeviceId)
      → IsTrusted db (apply_friend_response w db from name eps s).1 j
      → IsTrusted db s j ⊎ ((j ≡ from) × IsMarked db s j)
  unfolding apply_friend_response get_device
  apply_friend_response-Trusted from name eps s j h =
      elim (apply_to-cases from (get_device w.json db from s).0 name eps s refl) [
        | inl same ↦ inl (rw same at h)
        | inr (d, d', read, flag, own, wrote) ↦
            write_back-Trusted from d d' s j read flag own (rw wrote at h)
      ]

  pub apply_friend_response-Marked :
      (from : DeviceId) (name : Bytes) (eps : List Bytes) (s : Store db) (j : DeviceId)
      → IsMarked db (apply_friend_response w db from name eps s).1 j
      → IsMarked db s j
  unfolding apply_friend_response get_device
  apply_friend_response-Marked from name eps s j h =
      elim (apply_to-cases from (get_device w.json db from s).0 name eps s refl) [
        | inl same ↦ rw same at h
        | inr (d, d', read, flag, own, wrote) ↦
            write_back-Marked from d d' s j read flag own (rw wrote at h)
      ]

  refresh_to-Marked :
      (from : DeviceId) (r : Result StoreError Device) (name : Bytes) (eps : List Bytes)
      (s : Store db) (j : DeviceId)
      → (get_device w.json db from s).0 ≡ r
      → IsMarked db (refresh_to w db r name eps s) j
      → IsMarked db s j
  unfolding refresh_to refreshed
  refresh_to-Marked from (err e) name eps s j read h = h
  refresh_to-Marked from (ok d) name eps s j read h = elim (Bool-cases d.trusted) [
    | inr stranger ↦
        subst (λ t. IsMarked db t j)
          (ap (λ b. if not b then s else (put_device w.json db (refreshed w d name eps) s).1)
            stranger)
          h
    | inl friend ↦ write_back-Marked from d (refreshed w d name eps) s j read (ground arith) refl (
        subst (λ t. IsMarked db t j)
          (ap (λ b. if not b then s else (put_device w.json db (refreshed w d name eps) s).1)
            friend)
          h)
  ]

  pub refresh_friend-Marked :
      (from : DeviceId) (name : Bytes) (eps : List Bytes) (s : Store db) (j : DeviceId)
      → IsMarked db (refresh_friend w db from name eps s) j
      → IsMarked db s j
  unfolding refresh_friend get_device
  refresh_friend-Marked from name eps s j h =
      refresh_to-Marked from (get_device w.json db from s).0 name eps s j refl h

  -- Recording a request does not touch the devices.
  pub record_friend_request-devices :
      (from : DeviceId) (name : Bytes) (eps : List Bytes) (s : Store db)
      → (record_friend_request w db from name eps s).1.devices ≡ s.devices
  unfolding record_friend_request
  record_friend_request-devices from name eps s = put_friend_request-devices db w.json _ s

  after_response-Marked :
      (id : DeviceId) (o : Option Response) (s : Store db) (j : DeviceId)
      → IsMarked db (after_response w db id o s) j
      → IsMarked db s j
  after_response-Marked id none s j h = h
  after_response-Marked id (some resp) s j h = elim (Bool-cases resp.accepted) [
    | inl yes_it_is ↦
        apply_friend_response-Marked id resp.name resp.endpoints s j (rw yes_it_is at h)
    | inr refused ↦ rw refused at h
  ]

  send_to-Marked :
      (id : DeviceId) (eps : List Bytes) (s : Store db) (j : DeviceId)
      → IsMarked db (send_to w db id eps s).1 j
      → IsMarked db s j
  unfolding send_to
  send_to-Marked id [] s j h = h
  send_to-Marked id (ep ∷ eps) s j h = elim (Option-cases (w.exchange id ep type_friend_request)) [
    | inl silent ↦ send_to-Marked id eps s j (rw (silent, send_to) at h)
    | inr (frame, answer) ↦ elim (Bool-cases (frame.typ == type_ack)) [
      | inl acked ↦ rw (answer, acked, send_to) at h
      | inr other ↦ elim (Bool-cases (frame.typ == type_friend_response)) [
        | inl responded ↦
            after_response-Marked id (w.decode_response frame.payload) s j
              (rw (answer, other, responded, send_to) at h)
        | inr unknown ↦ send_to-Marked id eps s j (rw (answer, other, unknown, send_to) at h)
      ]
    ]
  ]

  -- Asking a device, and what comes of it at once, marks nobody new.
  pub send_friend_request-Marked :
      (dev : Device) (s : Store db) (j : DeviceId)
      → IsMarked db (send_friend_request w db dev s).1 j
      → IsMarked db s j
  unfolding send_friend_request
  send_friend_request-Marked dev s j h = send_to-Marked dev.id dev.endpoints s j h
