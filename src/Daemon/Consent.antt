-- ===== src/Daemon/Consent.antt =====
-- engine/internal/daemon/daemon.go: where trust comes from, over any run of the daemon.
use syncy.Base.{
  Bytes, if◌then◌else◌, if_elim, true, List, [], ◌∷◌, ◌≡◌, ◌⊎◌, inl, inr, ◌==◌, nat_eq, list_eq,
  Option, none, some, arith, Bool-cases,
}
use mathlib.Core.Path.{subst}
use syncy.Core.{DeviceId}
use syncy.Metadata.Devices.{put_device}
use syncy.Metadata.{Database, Store}
use syncy.Protocol.{Frame, type_friend_request, type_friend_response}
use syncy.Friends.{World, Request, Response, apply_friend_response, reject_friend_request}
use syncy.Friends.Trust.{IsTrusted, IsMarked, marked_row, Trusted-Marked}
use syncy.Friends.Effects.{
  apply_friend_response-Marked, refresh_friend-Marked, remove_friend_request-devices,
  remove_device-Marked, send_friend_request-Marked,
}
use syncy.Friends.Asking.{
  MarksOnly, put-MarksOnly, Names, accept_friend_request-MarksOnly, add_friend_by_code-MarksOnly,
}
use syncy.Daemon.{
  Event, connection, redial, add_friend, add_device, added_device, add_by_id, accept, reject,
  remove, step, run, untrusted_response, serve_untrusted, trusted_request, serve_trusted_stream,
  serve_trusted, serve_conn, is_trusted, first_stream,
}
use syncy.Daemon.Access.{unexpected-state, untrusted_request-devices}

module _ (w : World) (db : Database) where
  -- A change of the store that marks no new device.
  abbrev NoNewMark : Store db → Store db → Type 0
  NoNewMark s s' = (j : DeviceId) → IsMarked db s' j → IsMarked db s j

  untrusted_response-mark :
      (peer : DeviceId) (o : Option Response) (s : Store db)
      → NoNewMark s (untrusted_response w db peer o s).1
  unfolding untrusted_response
  untrusted_response-mark peer none s j h = h
  untrusted_response-mark peer (some resp) s j h = elim (Bool-cases resp.accepted) [
    | inr refused ↦ rw (refused, untrusted_response) at h
    | inl accepted ↦
        let p = apply_friend_response w db peer resp.name resp.endpoints s in
        apply_friend_response-Marked w db peer resp.name resp.endpoints s j (
          subst (λ t. IsMarked db t j) (unexpected-state w db p)
            (rw (accepted, untrusted_response) at h))
  ]

  serve_untrusted-mark :
      (peer : DeviceId) (o : Option Frame) (s : Store db)
      → NoNewMark s (serve_untrusted w db peer o s).1
  unfolding serve_untrusted
  serve_untrusted-mark peer none s j h = h
  serve_untrusted-mark peer (some frame) s j h =
      elim (Bool-cases (frame.typ == type_friend_request)) [
        | inl asks ↦
            subst (λ t. marked_row (db.devices.rows t j) ≡ true)
              (untrusted_request-devices w db peer (w.decode_request frame.payload) s)
              (rw (asks, serve_untrusted) at h)
        | inr other ↦ elim (Bool-cases (frame.typ == type_friend_response)) [
          | inr unknown ↦ rw (other, unknown, serve_untrusted) at h
          | inl answers ↦
              untrusted_response-mark peer (w.decode_response frame.payload) s j
                (rw (other, answers, serve_untrusted) at h)
        ]
      ]

  trusted_request-mark :
      (peer : DeviceId) (o : Option Request) (s : Store db)
      → NoNewMark s (trusted_request w db peer o s).1
  unfolding trusted_request
  trusted_request-mark peer none s j h = h
  trusted_request-mark peer (some req) s j h = elim (Bool-cases (req.from_id == peer)) [
    | inl own ↦
        refresh_friend-Marked w db peer req.name req.endpoints s j (rw (own, trusted_request) at h)
    | inr forged ↦ rw (forged, trusted_request) at h
  ]

  serve_trusted_stream-mark :
      (peer : DeviceId) (o : Option Frame) (s : Store db)
      → NoNewMark s (serve_trusted_stream w db peer o s).1
  unfolding serve_trusted_stream
  serve_trusted_stream-mark peer none s j h = h
  serve_trusted_stream-mark peer (some frame) s j h =
      elim (Bool-cases (frame.typ == type_friend_request)) [
        | inl asks ↦
            trusted_request-mark peer (w.decode_request frame.payload) s j
              (rw (asks, serve_trusted_stream) at h)
        | inr other ↦ ground arith
      ]

  serve_trusted-mark :
      (peer : DeviceId) (frames : List (Option Frame)) (s : Store db)
      → NoNewMark s (serve_trusted w db peer frames s).1
  unfolding serve_trusted
  serve_trusted-mark peer [] s j h = h
  serve_trusted-mark peer (f ∷ fs) s j h =
      serve_trusted_stream-mark peer f s j
        (serve_trusted-mark peer fs (serve_trusted_stream w db peer f s).1 j h)

  first_stream-mark :
      (peer : DeviceId) (frames : List (Option Frame)) (s : Store db)
      → NoNewMark s (first_stream w db peer frames s).1
  first_stream-mark peer [] s j h = h
  first_stream-mark peer (f ∷ fs) s j h = serve_untrusted-mark peer f s j h

  -- No connection marks a device that was not asked or trusted before.
  serve_conn-mark :
      (peer : DeviceId) (frames : List (Option Frame)) (s : Store db)
      → NoNewMark s (serve_conn w db peer frames s).1
  unfolding serve_conn
  serve_conn-mark peer frames s j h = elim (Bool-cases (is_trusted w db peer s)) [
    | inl t ↦ serve_trusted-mark peer frames s j (rw (t, serve_conn) at h)
    | inr f ↦ first_stream-mark peer frames s j (rw (f, serve_conn) at h)
  ]

  -- The user's decisions that name a device: accepting its request, or adding its invite code or
  -- its id.
  abbrev pub Decides : Event → DeviceId → Type 0
  Decides (add_friend token) j = Names w db token j
  Decides (add_device id name) j = j ≡ id
  Decides (accept id) j = j ≡ id
  Decides _ j = ⊥

  add_by_id-mark :
      (id : DeviceId) (name : Bytes) (s : Store db) → MarksOnly w db id s (add_by_id w db id name s)
  unfolding add_by_id
  add_by_id-mark id name s =
      let put = (put_device w.json db (added_device w db id name) s).1 in
      if_elim (MarksOnly w db id s) (id == []) s (if id == w.self then s else put)
        (λ missing j h. inl h)
        (λ given.
          if_elim (MarksOnly w db id s) (id == w.self) s put (λ own j h. inl h)
            (λ other. put-MarksOnly w db (added_device w db id name) s))

  step-Decides :
      (e : Event) (s : Store db) (j : DeviceId)
      → IsMarked db (step w db e s) j
      → IsMarked db s j ⊎ Decides e j
  unfolding step
  step-Decides (connection peer frames) s j h = inl (serve_conn-mark peer frames s j h)
  step-Decides (redial dev) s j h = inl (send_friend_request-Marked w db dev s j h)
  step-Decides (add_friend token) s j h = add_friend_by_code-MarksOnly w db token s j h
  step-Decides (add_device id name) s j h = add_by_id-mark id name s j h
  step-Decides (accept id) s j h = accept_friend_request-MarksOnly w db id s j h
  step-Decides (reject id) s j h = inl (
      subst (λ t. marked_row (db.devices.rows t j) ≡ true) (remove_friend_request-devices db id s)
        (unfold reject_friend_request in h))
  step-Decides (remove id) s j h = inl (remove_device-Marked db w.json id s j h)

  -- Some event of a run is a decision for the device.
  abbrev pub Decided : List Event → DeviceId → Type 0
  Decided [] j = ⊥
  Decided (e ∷ es) j = Decides e j ⊎ Decided es j

  run-Marked :
      (es : List Event) (s : Store db) (j : DeviceId)
      → IsMarked db (run w db es s) j
      → IsMarked db s j ⊎ Decided es j
  unfolding run
  run-Marked [] s j h = inl h
  run-Marked (e ∷ es) s j h = elim (run-Marked es (step w db e s) j h) [
    | inr later ↦ inr (inr later)
    | inl now ↦ elim (step-Decides e s j now) [
      | inl before ↦ inl before
      | inr decided ↦ inr (inl decided)
    ]
  ]

  -- After any sequence of connections, dialing and user actions, with any frames, replies and
  -- database failures, a device is trusted only if it was trusted or asked at the start, or the
  -- user has accepted its request, or added its invite code or its id, since.
  pub run-Decided :
      (es : List Event) (s : Store db) (j : DeviceId)
      → IsTrusted db (run w db es s) j
      → IsMarked db s j ⊎ Decided es j
  run-Decided es s j h = run-Marked es s j (Trusted-Marked db (run w db es s) j h)
