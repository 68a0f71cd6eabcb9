-- ===== src/Protocol.antt =====
-- engine/internal/protocol/protocol.go: frames, their wire format and block payloads.
pub mod Framing
pub mod Blocks
pub mod Progress
pub mod Messages
pub mod Writing
use syncy.Base.{
  ℕ, ◌+◌, ◌*◌, ◌/◌, ◌%◌, ◌^◌, Bytes, Bool, true, false, [], ◌∷◌, ◌++◌, ◌==◌, nat_eq, ltb,
  if◌then◌else◌, length, take, drop, Result, ok, err, String, str,
}
use syncy.Io.{IoError, Reader, Read, read_full, Writer}

-- `type MessageType uint8` and its constants.
abbrev pub MessageType : Type 0
MessageType = ℕ

abbrev pub type_hello : MessageType
type_hello = 1

abbrev pub type_folder_summary : MessageType
type_folder_summary = 2

abbrev pub type_index_update : MessageType
type_index_update = 3

abbrev pub type_block_request : MessageType
type_block_request = 4

abbrev pub type_block_data : MessageType
type_block_data = 5

abbrev pub type_ack : MessageType
type_ack = 6

abbrev pub type_ping : MessageType
type_ping = 7

abbrev pub type_pong : MessageType
type_pong = 8

abbrev pub type_error : MessageType
type_error = 9

abbrev pub type_friend_request : MessageType
type_friend_request = 10

abbrev pub type_friend_response : MessageType
type_friend_response = 11

abbrev pub type_folder_list_request : MessageType
type_folder_list_request = 12

abbrev pub type_folder_list_response : MessageType
type_folder_list_response = 13

abbrev pub header_size : ℕ
header_size = 6

abbrev pub max_frame_size : ℕ
max_frame_size = 16 * 2 ^ 20

pub data ProtocolError : Type 0 where
  frame_too_large short_payload : ProtocolError
  io : IoError → ProtocolError
  write_failed : ProtocolError

pub record Frame : Type 0 where
  pub typ : MessageType
  pub payload : Bytes

-- `binary.BigEndian.PutUint32`
unfoldable pub be_put : ℕ → Bytes
be_put n = (n / 2 ^ 24 % 256) ∷ (n / 2 ^ 16 % 256) ∷ (n / 2 ^ 8 % 256) ∷ (n % 256) ∷ []

-- `binary.BigEndian.Uint32`
unfoldable pub be_get : Bytes → ℕ
be_get (a ∷ b ∷ c ∷ d ∷ r) = a * 2 ^ 24 + b * 2 ^ 16 + c * 2 ^ 8 + d
be_get r = 0

-- The header that `WriteFrame` fills: the type, a zero byte, the length as a uint32.
unfoldable pub header : MessageType → ℕ → Bytes
unfolding be_put
header typ n = (typ % 256) ∷ 0 ∷ be_put (n % 2 ^ 32)

module _ (W : Writer) where
  open W use {State, write}

  -- The second write of `WriteFrame`, made if the first succeeded.
  unfoldable pub write_payload : State → Bool → Bytes → Result ProtocolError (Unit {0}) × State
  write_payload s false payload = (err write_failed, s)
  write_payload s true payload =
      let (s', sent) = write s payload in (if sent then ok tt else err write_failed, s')

  unfoldable pub write_frame : MessageType → Bytes → State → Result ProtocolError (Unit {0}) × State
  unfolding write_payload header
  write_frame typ payload s =
      if ltb max_frame_size (length payload)
      then (err frame_too_large, s)
      else (let (s', sent) = write s (header typ (length payload)) in write_payload s' sent payload)

  -- `WriteBlockData`: the payload is the hash with the data behind it.
  unfoldable pub write_block_data : Bytes → Bytes → State → Result ProtocolError (Unit {0}) × State
  unfolding write_frame
  write_block_data hash body s = write_frame type_block_data (hash ++ body) s

abbrev pub head_byte : Bytes → ℕ
head_byte [] = 0
head_byte (b ∷ bs) = b

-- `ReadFrame` behind the header.
unfoldable pub read_payload : Bytes → Reader → Result ProtocolError Frame × Reader
unfolding be_get read_full
read_payload hdr r =
    let n = be_get (drop 2 hdr) in
    if ltb max_frame_size n
    then (err frame_too_large, r)
    else (let (payload, r') = read_full n r in
        elim payload [
          | ok bs ↦ (ok (record { typ = head_byte hdr; payload = bs }), r')
          | err e ↦ (err (io e), r')
        ])

unfoldable pub read_frame : Reader → Result ProtocolError Frame × Reader
unfolding read_payload read_full
read_frame r =
    let (hdr, r') = read_full header_size r in
    elim hdr [ ok bs ↦ read_payload bs r' | err e ↦ (err (io e), r') ]

abbrev pub hash_size : ℕ
hash_size = 32

unfoldable pub parse_block_data : Bytes → Result ProtocolError (Bytes × Bytes)
parse_block_data payload =
    if ltb (length payload) hash_size
    then err short_payload
    else ok (take hash_size payload, drop hash_size payload)
