-- ===== src/Daemon/Access.antt =====
-- What a connection of an untrusted device can see and change.
use syncy.Base.{
  Bool, true, false, List, [], ◌∷◌, ◌≡◌, ◌⊎◌, inl, inr, refl, sym, ◌∙◌, ◌==◌, nat_eq, list_eq,
  Option, none, some, eq_of_beq, arith, Bool-cases, Result-cases,
}
use mathlib.Core.Path.{subst}
use syncy.Core.{DeviceId}
use syncy.Metadata.{Database, Store}
use syncy.Metadata.Devices.{get_device}
use syncy.Protocol.{Frame, type_friend_request, type_friend_response}
use syncy.Friends.{World, Request, Response, apply_friend_response}
use syncy.Friends.Trust.{IsTrusted, IsMarked, trusted_row, device_at, get_device-ok}
use syncy.Friends.Effects.{apply_friend_response-Trusted, record_friend_request-devices}
use syncy.Daemon.{
  Reply, has_folder_data, is_trusted, untrusted_request, untrusted_response, unexpected,
  serve_untrusted, serve_conn, first_stream,
}

module _ (w : World) (db : Database) where
  -- The daemon's test reads the committed row.
  is_trusted-Trusted :
      (id : DeviceId) (s : Store db) → is_trusted w db id s ≡ true → IsTrusted db s id
  unfolding is_trusted
  is_trusted-Trusted id s h = elim (Result-cases (get_device w.json db id s).0) [
    | inl (d, read) ↦
        let (_, flag, _) = get_device-ok w.json db id s d read in sym flag ∙ (rw read at h)
    | inr (e, failed) ↦ cc (rw failed at h)
  ]

  untrusted_request-reply :
      (peer : DeviceId) (o : Option Request) (s : Store db)
      → has_folder_data (untrusted_request w db peer o s).0 ≡ false
  unfolding untrusted_request
  untrusted_request-reply peer none s = refl
  untrusted_request-reply peer (some req) s = ground arith

  unexpected-reply : (p : Bool × Store db) → has_folder_data (unexpected w db p).0 ≡ false
  unexpected-reply (true, s) = refl
  unexpected-reply (false, s) = refl

  untrusted_response-reply :
      (peer : DeviceId) (o : Option Response) (s : Store db)
      → has_folder_data (untrusted_response w db peer o s).0 ≡ false
  unfolding untrusted_response
  untrusted_response-reply peer none s = refl
  untrusted_response-reply peer (some resp) s = unexpected-reply _

  serve_untrusted-reply :
      (peer : DeviceId) (o : Option Frame) (s : Store db)
      → has_folder_data (serve_untrusted w db peer o s).0 ≡ false
  unfolding serve_untrusted
  serve_untrusted-reply peer none s = refl
  serve_untrusted-reply peer (some frame) s = elim (Bool-cases (frame.typ == type_friend_request)) [
    | inl asks ↦ rw asks (untrusted_request-reply peer (w.decode_request frame.payload) s)
    | inr other ↦ elim (Bool-cases (frame.typ == type_friend_response)) [
      | inl answers ↦
          rw (other, answers) (untrusted_response-reply peer (w.decode_response frame.payload) s)
      | inr unknown ↦ rw (other, unknown)
    ]
  ]

  first_stream-reply :
      (peer : DeviceId) (frames : List (Option Frame)) (s : Store db)
      → ((first_stream w db peer frames s).0 ≡ [])
        ⊎ ((reply : Reply) × ((first_stream w db peer frames s).0 ≡ reply ∷ [])
            × (has_folder_data reply ≡ false))
  first_stream-reply peer [] s = inl refl
  first_stream-reply peer (f ∷ fs) s =
      inr ((serve_untrusted w db peer f s).0, refl, serve_untrusted-reply peer f s)

  -- A device that the store does not trust gets at most one reply on a connection, and no folder
  -- data in it, whatever frames it sends.
  pub serve_conn-untrusted :
      (peer : DeviceId) (frames : List (Option Frame)) (s : Store db)
      → trusted_row (device_at db s peer) ≡ false
      → ((serve_conn w db peer frames s).0 ≡ [])
        ⊎ ((reply : Reply) × ((serve_conn w db peer frames s).0 ≡ reply ∷ [])
            × (has_folder_data reply ≡ false))
  unfolding serve_conn
  serve_conn-untrusted peer frames s h = elim (Bool-cases (is_trusted w db peer s)) [
    | inl t ↦ cc (is_trusted-Trusted peer s t, h)
    | inr f ↦ rw (f, serve_conn) (first_stream-reply peer frames s)
  ]

  -- A frame that accepts a friend request of ours.
  abbrev pub Accepts : Option Frame → Type 0
  Accepts none = ⊥
  Accepts (some frame) =
      (frame.typ ≡ type_friend_response)
      × ((resp : Response) × (w.decode_response frame.payload ≡ some resp) × (resp.accepted ≡ true))

  pub unexpected-state : (p : Bool × Store db) → (unexpected w db p).1 ≡ p.1
  unexpected-state (true, s) = refl
  unexpected-state (false, s) = refl

  pub untrusted_request-devices :
      (peer : DeviceId) (o : Option Request) (s : Store db)
      → (untrusted_request w db peer o s).1.devices ≡ s.devices
  unfolding untrusted_request
  untrusted_request-devices peer none s = refl
  untrusted_request-devices peer (some req) s =
      ground (arith, record_friend_request-devices w db peer req.name req.endpoints s)

  untrusted_response-Trusted :
      (peer : DeviceId) (o : Option Response) (s : Store db) (j : DeviceId)
      → IsTrusted db (untrusted_response w db peer o s).1 j
      → IsTrusted db s j
        ⊎ ((j ≡ peer)
            × IsMarked db s j
            × ((resp : Response) × (o ≡ some resp) × (resp.accepted ≡ true)))
  unfolding untrusted_response
  untrusted_response-Trusted peer none s j h = inl h
  untrusted_response-Trusted peer (some resp) s j h = elim (Bool-cases resp.accepted) [
    | inr refused ↦ inl (rw (refused, untrusted_response) at h)
    | inl accepted ↦
        let p = apply_friend_response w db peer resp.name resp.endpoints s in
        let applied : IsTrusted db (unexpected w db p).1 j =
          rw (accepted, untrusted_response) at h in
        elim (apply_friend_response-Trusted w db peer resp.name resp.endpoints s j
          (subst (λ t. IsTrusted db t j) (unexpected-state p) applied)) [
            | inl before ↦ inl before
            | inr (e, marked) ↦ inr (e, marked, (resp, refl, accepted))
          ]
  ]

  -- On the one stream of an untrusted device, a device becomes trusted only if it is the device
  -- of the connection, this device was asked to become a friend, and the frame accepts that.
  pub serve_untrusted-Trusted :
      (peer : DeviceId) (o : Option Frame) (s : Store db) (j : DeviceId)
      → IsTrusted db (serve_untrusted w db peer o s).1 j
      → IsTrusted db s j ⊎ ((j ≡ peer) × IsMarked db s j × Accepts o)
  unfolding serve_untrusted
  serve_untrusted-Trusted peer none s j h = inl h
  serve_untrusted-Trusted peer (some frame) s j h =
      elim (Bool-cases (frame.typ == type_friend_request)) [
        | inl asks ↦ inl (
            subst (λ t. trusted_row (db.devices.rows t j) ≡ true)
              (untrusted_request-devices peer (w.decode_request frame.payload) s)
              (rw (asks, serve_untrusted) at h))
        | inr other ↦ elim (Bool-cases (frame.typ == type_friend_response)) [
          | inr unknown ↦ inl (rw (other, unknown, serve_untrusted) at h)
          | inl answers ↦
              elim (untrusted_response-Trusted peer (w.decode_response frame.payload) s j
                (rw (other, answers, serve_untrusted) at h)) [
                  | inl before ↦ inl before
                  | inr (e, marked, accepted) ↦
                      inr (e, marked, (eq_of_beq frame.typ type_friend_response answers, accepted))
                ]
        ]
      ]
