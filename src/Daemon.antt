-- ===== src/Daemon.antt =====
-- engine/internal/daemon/daemon.go: what a connection may do, and one sync at a time.
pub mod Access
pub mod Consent
pub mod Syncing
pub mod Dialing
use syncy.Base.{
  ℕ, Bytes, Bool, not, true, false, List, [], ◌∷◌, ◌++◌, ◌==◌, nat_eq, list_eq, if◌then◌else◌, ◌||◌,
  Option, none, some, Result, ok, err, str,
}
use syncy.Core.{Device, DeviceId, zero_time}
use syncy.Metadata.{Database, Store, StoreError}
use syncy.Metadata.Devices.{put_device, get_device, remove_device}
use syncy.Friends.{
  World, Request, Response, apply_friend_response, refresh_friend, record_friend_request,
  accept_friend_request, reject_friend_request, add_friend_by_code, send_friend_request,
}
use syncy.Protocol.{Frame, type_friend_request, type_friend_response, type_folder_list_request}

-- What the daemon sends back on a stream. `folder_list` and `session_frame` carry folder data:
-- the shared folders, or what `session.ServeFrame` answers.
pub data Reply : Type 0 where
  silent : Reply
  ack : Bytes → Reply
  error : Bytes → Reply
  friend_response : Reply
  folder_list : Reply
  session_frame : Frame → Reply

abbrev pub has_folder_data : Reply → Bool
has_folder_data folder_list = true
has_folder_data (session_frame f) = true
has_folder_data _ = false

-- What changes the devices of a running daemon: its connections, its own dialing, and what its
-- user asks for.
pub data Event : Type 0 where
  connection : DeviceId → List (Option Frame) → Event
  redial : Device → Event
  add_friend : Bytes → Event
  -- `POST /devices`, with the id and the name of its body, trimmed
  add_device : Bytes → Bytes → Event
  accept : DeviceId → Event
  reject : DeviceId → Event
  remove : DeviceId → Event

module _ (w : World) (db : Database) where
  -- `trusted`
  abbrev pub trusted_result : Result StoreError Device → Bool
  trusted_result (ok dev) = dev.trusted
  trusted_result (err e) = false

  unfoldable pub is_trusted : DeviceId → Store db → Bool
  is_trusted id s = trusted_result (get_device w.json db id s).0

  -- The case of `TypeFriendRequest` in `serveUntrusted`.
  unfoldable pub untrusted_request : DeviceId → Option Request → Store db → Reply × Store db
  untrusted_request peer none s = (error (str "bad-request"), s)
  untrusted_request peer (some req) s =
      if not (req.from_id == peer)
      then (error (str "bad-request"), s)
      else (let (recorded, s') = record_friend_request w db peer req.name req.endpoints s in
          elim recorded [ err e ↦ (error (str "internal"), s') | ok _ ↦ (ack (str "pending"), s') ])

  abbrev pub unexpected : Bool × Store db → Reply × Store db
  unexpected (true, s) = (ack (str "trusted"), s)
  unexpected (false, s) = (error (str "unexpected"), s)

  -- The case of `TypeFriendResponse` in `serveUntrusted`.
  unfoldable pub untrusted_response : DeviceId → Option Response → Store db → Reply × Store db
  untrusted_response peer none s = (silent, s)
  untrusted_response peer (some resp) s = unexpected (
      if resp.accepted
      then apply_friend_response w db peer resp.name resp.endpoints s
      else (false, s))

  -- `serveUntrusted`, from the frame of the one stream, if one can be read.
  unfoldable pub serve_untrusted : DeviceId → Option Frame → Store db → Reply × Store db
  unfolding untrusted_request untrusted_response
  serve_untrusted peer none s = (silent, s)
  serve_untrusted peer (some frame) s =
      if frame.typ == type_friend_request
      then untrusted_request peer (w.decode_request frame.payload) s
      else if frame.typ == type_friend_response
      then untrusted_response peer (w.decode_response frame.payload) s
      else (error (str "untrusted"), s)

  unfoldable pub trusted_request : DeviceId → Option Request → Store db → Reply × Store db
  trusted_request peer none s = (silent, s)
  trusted_request peer (some req) s =
      if not (req.from_id == peer)
      then (silent, s)
      else (friend_response, refresh_friend w db peer req.name req.endpoints s)

  -- `serveTrustedStream`
  unfoldable pub serve_trusted_stream : DeviceId → Option Frame → Store db → Reply × Store db
  unfolding trusted_request
  serve_trusted_stream peer none s = (silent, s)
  serve_trusted_stream peer (some frame) s =
      if frame.typ == type_friend_request
      then trusted_request peer (w.decode_request frame.payload) s
      else if frame.typ == type_friend_response
      then (silent, s)
      else if frame.typ == type_folder_list_request
      then (folder_list, s)
      else (session_frame frame, s)

  -- The loop of `serveTrusted`, one stream after the other.
  unfoldable pub serve_trusted : DeviceId → List (Option Frame) → Store db → List Reply × Store db
  unfolding serve_trusted_stream
  serve_trusted peer [] s = ([], s)
  serve_trusted peer (f ∷ fs) s =
      let (reply, s') = serve_trusted_stream peer f s in
      let (replies, s'') = serve_trusted peer fs s' in (reply ∷ replies, s'')

  abbrev pub first_stream : DeviceId → List (Option Frame) → Store db → List Reply × Store db
  first_stream peer [] s = ([], s)
  first_stream peer (f ∷ fs) s = let (reply, s') = serve_untrusted peer f s in (reply ∷ [], s')

  -- `serveConn`: the frames of the streams that the peer opens, in the order they are accepted.
  unfoldable pub serve_conn : DeviceId → List (Option Frame) → Store db → List Reply × Store db
  unfolding serve_trusted serve_untrusted
  serve_conn peer frames s =
      if is_trusted peer s then serve_trusted peer frames s else first_stream peer frames s

  abbrev pub added_device : DeviceId → Bytes → Device
  added_device id name = record {
    id = id;
    name = name;
    trusted = true;
    pending_outgoing = false;
    endpoints = [];
    last_seen = zero_time;
    added_at = w.now;
  }

  -- `handleAddDevice` of the API behind its parsing, with `AddDevice`: a device that the user adds
  -- by its id is stored as trusted.
  unfoldable pub add_by_id : DeviceId → Bytes → Store db → Store db
  add_by_id id name s =
      if id == []
      then s
      else if id == w.self
      then s
      else (put_device w.json db (added_device id name) s).1

  unfoldable pub step : Event → Store db → Store db
  unfolding add_by_id
  step (connection peer frames) s = (serve_conn peer frames s).1
  step (redial dev) s = (send_friend_request w db dev s).1
  step (add_friend token) s = (add_friend_by_code w db token s).1
  step (add_device id name) s = add_by_id id name s
  step (accept id) s = (accept_friend_request w db id s).1
  step (reject id) s = (reject_friend_request w db id s).1
  step (remove id) s = (remove_device w.json db id s).1

  unfoldable pub run : List Event → Store db → Store db
  unfolding step
  run [] s = s
  run (e ∷ es) s = run es (step e s)
