-- ===== src/Core.antt =====
-- engine/internal/core/core.go: the domain types. A time is Go's zero time or one from 1970 on.
use syncy.Base.{ℕ, Bytes, Bool, List, ◌==◌, ◌||◌, nat_eq, list_eq, str}

pub data Time : Type 0 where
  zero_time : Time
  -- whole seconds since 1970, and nanoseconds within the second
  at : ℕ → ℕ → Time

abbrev pub DeviceId : Type 0
DeviceId = Bytes

pub record Device : Type 0 where
  pub id : DeviceId
  pub name : Bytes
  pub trusted : Bool
  pub pending_outgoing : Bool
  pub endpoints : List Bytes
  pub last_seen : Time
  pub added_at : Time

pub record FriendRequest : Type 0 where
  pub from_id : DeviceId
  pub name : Bytes
  pub endpoints : List Bytes
  pub created_at : Time

pub record DiscoverySettings : Type 0 where
  pub local : Bool
  pub internet : Bool

-- `type SyncDirection string`
abbrev pub SyncDirection : Type 0
SyncDirection = Bytes

abbrev pub send_receive : SyncDirection
send_receive = str "sendreceive"

abbrev pub send_only : SyncDirection
send_only = str "sendonly"

abbrev pub receive_only : SyncDirection
receive_only = str "receiveonly"

-- `Valid`
unfoldable pub valid_direction : SyncDirection → Bool
valid_direction d = (d == send_receive) || (d == send_only) || (d == receive_only)

pub record Folder : Type 0 where
  pub id : Bytes
  pub label : Bytes
  pub path : Bytes
  pub direction : SyncDirection
  pub paused : Bool
  pub added_at : Time

pub record QueuedOp : Type 0 where
  pub id : ℕ
  pub device_id : DeviceId
  pub folder_id : Bytes
  pub kind : Bytes
  pub payload : Bytes
  pub created_at : Time
  pub attempts : ℕ
