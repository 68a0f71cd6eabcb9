-- ===== src/Protocol/Messages.antt =====
-- The other messages of engine/internal/protocol/protocol.go, and the names of the message types.
use syncy.Base.{ℕ, Bytes, List, ◌==◌, nat_eq, if◌then◌else◌, str}
use syncy.Hashing.{Hash}
use syncy.Protocol.{
  MessageType, type_hello, type_folder_summary, type_index_update, type_block_request,
  type_block_data, type_ack, type_ping, type_pong, type_error, type_friend_request,
  type_friend_response, type_folder_list_request, type_folder_list_response,
}

pub record Hello : Type 0 where
  pub device_id : Bytes
  pub device_name : Bytes
  pub version : Bytes
  pub protocol : ℕ

pub record FolderSummary : Type 0 where
  pub folder_id : Bytes
  pub digest : Hash
  pub files : ℕ

pub record Ack : Type 0 where
  pub marker : Bytes

pub record Ping : Type 0 where
  pub nonce : ℕ

pub record Pong : Type 0 where
  pub nonce : ℕ

pub record ErrorMsg : Type 0 where
  pub code : Bytes
  pub message : Bytes

pub record SharedFolder : Type 0 where
  pub id : Bytes
  pub label : Bytes

pub record FolderListResponse : Type 0 where
  pub folders : List SharedFolder

-- `MessageType.String`; `unknown` renders any other type.
unfoldable pub type_name : (MessageType → Bytes) → MessageType → Bytes
type_name unknown t =
    if t == type_hello
    then str "hello"
    else if t == type_folder_summary
    then str "folder-summary"
    else if t == type_index_update
    then str "index-update"
    else if t == type_block_request
    then str "block-request"
    else if t == type_block_data
    then str "block-data"
    else if t == type_ack
    then str "ack"
    else if t == type_ping
    then str "ping"
    else if t == type_pong
    then str "pong"
    else if t == type_error
    then str "error"
    else if t == type_friend_request
    then str "friend-request"
    else if t == type_friend_response
    then str "friend-response"
    else if t == type_folder_list_request
    then str "folder-list-request"
    else if t == type_folder_list_response
    then str "folder-list-response"
    else unknown t
