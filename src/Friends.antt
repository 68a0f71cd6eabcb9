-- ===== src/Friends.antt =====
-- engine/internal/syncengine/friends.go: becoming friends. The network, the decoding of messages
-- and the parsing of endpoints are parameters.
pub mod Trust
pub mod Effects
pub mod Asking
pub mod Clamp
pub mod Settings
use syncy.Base.{
  ℕ, Bytes, Bool, not, true, false, List, [], ◌∷◌, ◌++◌, ◌==◌, nat_eq, list_eq, if◌then◌else◌, ltb,
  ◌||◌, Option, none, some, Result, ok, err, length, take,
}
use syncy.Core.{Device, DeviceId, FriendRequest, Time, zero_time}
use syncy.Metadata.{Database, Store, StoreError, Json, M}
use syncy.Metadata.Devices.{put_device, get_device}
use syncy.Metadata.Friends.{put_friend_request, get_friend_request, remove_friend_request}
use syncy.Protocol.{Frame, MessageType, type_ack, type_friend_request, type_friend_response}

abbrev pub max_name_len : ℕ
max_name_len = 120

abbrev pub max_endpoints : ℕ
max_endpoints = 16

abbrev pub max_endpoint_len : ℕ
max_endpoint_len = 128

-- `protocol.FriendResponse`
pub record Response : Type 0 where
  pub accepted : Bool
  pub name : Bytes
  pub endpoints : List Bytes

-- `protocol.FriendRequest`
pub record Request : Type 0 where
  pub from_id : Bytes
  pub name : Bytes
  pub endpoints : List Bytes

-- `invite.Code`
pub record Code : Type 0 where
  pub device_id : Bytes
  pub name : Bytes
  pub endpoints : List Bytes

-- What the code calls of other packages.
pub record World : Type 0 where
  -- `e.id.ID()`
  pub self : DeviceId
  -- whether `net.SplitHostPort` accepts an endpoint
  pub host_port : Bytes → Bool
  -- `sendFriendFrame`: the answer of a device at an address, if one comes
  pub exchange : DeviceId → Bytes → MessageType → Option Frame
  -- `protocol.Decode`
  pub decode_response : Bytes → Option Response
  pub decode_request : Bytes → Option Request
  -- `invite.Decode`
  pub decode_invite : Bytes → Option Code
  pub json : Json
  -- `time.Now`
  pub now : Time

pub data EngineError : Type 0 where
  own_code bad_invite : EngineError
  store : StoreError → EngineError

unfoldable pub clamp_name : Bytes → Bytes
clamp_name s = if ltb max_name_len (length s) then take max_name_len s else s

module _ (w : World) where
  -- The loop of `clampEndpoints`.
  unfoldable pub clamp_into : List Bytes → List Bytes → List Bytes
  clamp_into out [] = out
  clamp_into out (ep ∷ eps) =
      let skipped = clamp_into out eps in
      let kept = clamp_into (out ++ ep ∷ []) eps in
      if length out == max_endpoints
      then out
      else if (ep == []) || ltb max_endpoint_len (length ep)
      then skipped
      else if not (w.host_port ep)
      then skipped
      else kept

  unfoldable pub clamp_endpoints : List Bytes → List Bytes
  clamp_endpoints eps = clamp_into [] eps

  -- The name and the endpoints of a friend message, if it has any.
  unfoldable pub refreshed : Device → Bytes → List Bytes → Device
  refreshed dev name endpoints =
      let eps = clamp_endpoints endpoints in
      record dev {
        name = (if name == [] then dev.name else clamp_name name);
        endpoints = (if length eps == 0 then dev.endpoints else eps);
        last_seen = w.now;
      }

  module _ (db : Database) where
    abbrev pub succeeded : Result StoreError (Unit {0}) × Store db → Bool × Store db
    succeeded (ok _, s) = (true, s)
    succeeded (err _, s) = (false, s)

    -- The rest of `ApplyFriendResponse`, behind the read of the device.
    unfoldable pub apply_to :
        Result StoreError Device → Bytes → List Bytes → Store db → Bool × Store db
    unfolding refreshed
    apply_to (err e) name endpoints s = (false, s)
    apply_to (ok dev) name endpoints s =
        if dev.trusted
        then (true, s)
        else if not dev.pending_outgoing
        then (false, s)
        else succeeded (
            put_device w.json db
              (refreshed (record dev { trusted = true; pending_outgoing = false }) name endpoints)
              s)

    unfoldable pub apply_friend_response :
        DeviceId → Bytes → List Bytes → Store db → Bool × Store db
    unfolding apply_to
    apply_friend_response from name endpoints s =
        let (dev, s') = get_device w.json db from s in apply_to dev name endpoints s'

    -- The rest of `RefreshFriend`, behind the read of the device.
    unfoldable pub refresh_to : Result StoreError Device → Bytes → List Bytes → Store db → Store db
    unfolding refreshed
    refresh_to (err e) name endpoints s = s
    refresh_to (ok dev) name endpoints s =
        if not dev.trusted then s else (put_device w.json db (refreshed dev name endpoints) s).1

    unfoldable pub refresh_friend : DeviceId → Bytes → List Bytes → Store db → Store db
    unfolding refresh_to
    refresh_friend from name endpoints s =
        let (dev, s') = get_device w.json db from s in refresh_to dev name endpoints s'

    unfoldable pub record_friend_request : DeviceId → Bytes → List Bytes → M db (Unit {0})
    record_friend_request from name endpoints = put_friend_request w.json db (record {
      from_id = from;
      name = clamp_name name;
      endpoints = clamp_endpoints endpoints;
      created_at = w.now;
    })

    abbrev pub after_response : DeviceId → Option Response → Store db → Store db
    after_response id none s = s
    after_response id (some resp) s =
        if resp.accepted then (apply_friend_response id resp.name resp.endpoints s).1 else s

    -- The loop of `SendFriendRequest` over the device's endpoints.
    unfoldable pub send_to : DeviceId → List Bytes → Store db → Bool × Store db
    send_to id [] s = (false, s)
    send_to id (ep ∷ eps) s =
        let rest = send_to id eps s in
        elim (w.exchange id ep type_friend_request) [
          | none ↦ rest
          | some frame ↦
              if frame.typ == type_ack
              then (true, s)
              else if frame.typ == type_friend_response
              then (true, after_response id (w.decode_response frame.payload) s)
              else rest
        ]

    unfoldable pub send_friend_request : Device → Store db → Bool × Store db
    unfolding send_to
    send_friend_request dev s = send_to dev.id dev.endpoints s

    -- The loop of `AcceptFriendRequest` that tells the peer: the first answer decides.
    unfoldable pub notify : DeviceId → List Bytes → Bool
    notify id [] = false
    notify id (ep ∷ eps) =
        let rest = notify id eps in
        elim (w.exchange id ep type_friend_response) [
          | none ↦ rest
          | some frame ↦ frame.typ == type_ack
        ]

    abbrev pub Outcome : Type 0
    Outcome = Result EngineError (Device × Bool) × Store db

    abbrev pub accepted_device : DeviceId → FriendRequest → Device
    accepted_device from fr = record {
      id = from;
      name = fr.name;
      trusted = true;
      pending_outgoing = false;
      endpoints = fr.endpoints;
      last_seen = w.now;
      added_at = w.now;
    }

    abbrev pub accept_removed : Device → Result StoreError (Unit {0}) × Store db → Outcome
    accept_removed dev (err e, s) = (err (store e), s)
    accept_removed dev (ok _, s) = (ok (dev, notify dev.id dev.endpoints), s)

    abbrev pub accept_put : Device → Result StoreError (Unit {0}) × Store db → Outcome
    accept_put dev (err e, s) = (err (store e), s)
    accept_put dev (ok _, s) = accept_removed dev (remove_friend_request db dev.id s)

    abbrev pub accept_found : DeviceId → Result StoreError FriendRequest × Store db → Outcome
    accept_found from (err e, s) = (err (store e), s)
    accept_found from (ok fr, s) =
        let dev = accepted_device from fr in accept_put dev (put_device w.json db dev s)

    unfoldable pub accept_friend_request : DeviceId → Store db → Outcome
    accept_friend_request from s = accept_found from (get_friend_request w.json db from s)

    unfoldable pub reject_friend_request : DeviceId → M db (Unit {0})
    reject_friend_request from = remove_friend_request db from

    abbrev pub new_device : DeviceId → Code → Device
    new_device id code = record {
      id = id;
      name = clamp_name code.name;
      trusted = false;
      pending_outgoing = true;
      endpoints = clamp_endpoints code.endpoints;
      last_seen = zero_time;
      added_at = w.now;
    }

    abbrev pub reread : Bool → Result StoreError Device × Store db → Outcome
    reread delivered (err e, s) = (err (store e), s)
    reread delivered (ok dev, s) = (ok (dev, delivered), s)

    -- `AddFriendByCode` behind the write of the new device.
    unfoldable pub asked : Device → Result StoreError (Unit {0}) × Store db → Outcome
    unfolding send_friend_request
    asked dev (err e, s) = (err (store e), s)
    asked dev (ok _, s) =
        let (delivered, s') = send_friend_request dev s in
        reread delivered (get_device w.json db dev.id s')

    -- `AddFriendByCode` behind the look for a request that crosses ours.
    unfoldable pub ask_or_accept :
        DeviceId → Code → Result StoreError FriendRequest × Store db → Outcome
    unfolding asked
    ask_or_accept id code (ok fr, s) = accept_friend_request id s
    ask_or_accept id code (err e, s) =
        let dev = new_device id code in asked dev (put_device w.json db dev s)

    -- `AddFriendByCode` behind the look for the device.
    unfoldable pub add_unless_trusted :
        DeviceId → Code → Result StoreError Device × Store db → Outcome
    unfolding ask_or_accept
    add_unless_trusted id code (err e, s) =
        ask_or_accept id code (get_friend_request w.json db id s)
    add_unless_trusted id code (ok existing, s) =
        if existing.trusted
        then (ok (existing, false), s)
        else ask_or_accept id code (get_friend_request w.json db id s)

    abbrev pub add_decoded : Option Code → Store db → Outcome
    add_decoded none s = (err bad_invite, s)
    add_decoded (some code) s =
        if code.device_id == w.self
        then (err own_code, s)
        else add_unless_trusted code.device_id code (get_device w.json db code.device_id s)

    unfoldable pub add_friend_by_code : Bytes → Store db → Outcome
    unfolding add_unless_trusted
    add_friend_by_code token s = add_decoded (w.decode_invite token) s
