-- ===== src/Wire/Defs.antt =====
-- Headers, chunks and messages (include/BVTCPCommon.hpp), with the code that writes them into a
-- buffer and reads them out of one (include/BVTCPSession.hpp).
use Prim.Native.Nat.{bit_and, bit_or}
use local_chat_xxx.Common.{
  ℕ, ◌+◌, ◌-◌, ◌*◌, ◌/◌, ◌%◌, ◌^◌, Bool, true, false, if◌then◌else◌, ltb, ◌==◌, [], ◌∷◌, Option,
  none, some, length, take, drop, replicate,
}
use local_chat_xxx.Common.Bytes.{Bytes, store, load, write_at, overlay}

abbrev pub message_frame_size_bytes : ℕ
message_frame_size_bytes = 138

abbrev pub header_size_bytes : ℕ
header_size_bytes = 10

abbrev pub payload_size_bytes : ℕ
payload_size_bytes = 128

abbrev pub file_header_size_bytes : ℕ
file_header_size_bytes = 21

-- What a file frame of the standard size has room for behind its header.
abbrev pub control_payload_bytes : ℕ
control_payload_bytes = message_frame_size_bytes - file_header_size_bytes

abbrev pub hello : ℕ
hello = 0

abbrev pub helloback : ℕ
helloback = 1

abbrev pub confirm_established : ℕ
confirm_established = 3

abbrev pub chatmessage : ℕ
chatmessage = 5

abbrev pub file_transfer_begin : ℕ
file_transfer_begin = 6

abbrev pub file_transfer_chunk_sent : ℕ
file_transfer_chunk_sent = 7

abbrev pub file_transfer_end : ℕ
file_transfer_end = 8

abbrev pub file_offer : ℕ
file_offer = 9

abbrev pub file_accept : ℕ
file_accept = 10

abbrev pub file_reject : ℕ
file_reject = 11

pub record FileHeader : Type 0 where
  pub correlation_key : ℕ
  pub timestamp : ℕ
  pub msg_type : ℕ
  pub metadata : ℕ

pub record FileChunk : Type 0 where
  pub header : FileHeader
  pub payload : Bytes

pub record FileData : Type 0 where
  pub correlation_key : ℕ
  pub csize : ℕ
  pub fsize : ℕ
  pub fdata : Bytes

pub record MessageHeader : Type 0 where
  pub data_len : ℕ
  pub timestamp : ℕ
  pub msg_type : ℕ

-- Every message of the program has a payload of 128 bytes.
pub record Message : Type 0 where
  pub header : MessageHeader
  pub payload : Bytes

pub record ChatMessage : Type 0 where
  pub text_data : Bytes
  pub sender : Bytes
  pub timestamp : ℕ

-- `now` is the system clock, in milliseconds.
unfoldable pub construct_file_header : ℕ → ℕ → ℕ → ℕ → FileHeader
construct_file_header now msg_type key metadata = record {
  correlation_key = key;
  timestamp = now;
  msg_type = msg_type;
  metadata = metadata;
}

-- `unset` is what the uninitialised field `dataLen` happens to hold.
unfoldable pub construct_message_header : ℕ → ℕ → ℕ → MessageHeader
construct_message_header unset now msg_type = record {
  data_len = unset;
  timestamp = now;
  msg_type = msg_type;
}

unfoldable pub construct_message : MessageHeader → Bytes → Message
construct_message header payload = record {
  header = record header { data_len = payload_size_bytes };
  payload = payload;
}

unfoldable pub construct_file_chunk : FileHeader → Bytes → FileChunk
construct_file_chunk header payload = record { header = header; payload = payload }

-- The copies that `WriteFileChunkSync` makes into its frame. What is not copied stays as it was.
unfoldable pub fill_file_frame : FileChunk → ℕ → Bytes → Bytes
fill_file_frame chunk payload_bytes frame =
    let with_header = write_at 13 (store 8 chunk.header.metadata) (
      write_at 12 (store 1 chunk.header.msg_type) (
        write_at 4 (store 8 chunk.header.timestamp)
          (write_at 0 (store 4 chunk.header.correlation_key) frame))) in
    let to_copy =
      if ltb payload_bytes (length chunk.payload) then payload_bytes else length chunk.payload in
    if ltb 0 payload_bytes
    then write_at file_header_size_bytes (take to_copy chunk.payload) with_header
    else with_header

-- The bytes that one file frame puts on the wire: zeros under the header and the payload.
unfoldable pub file_frame : FileChunk → ℕ → Bytes
file_frame chunk payload_bytes =
    fill_file_frame chunk payload_bytes (replicate (file_header_size_bytes + payload_bytes) 0)

-- `WriteFileChunkSync`: what it returns, and the bytes it hands to the socket. `failed` is the
-- error code of that blocking write.
unfoldable pub write_file_chunk_sync : Bool → FileChunk → ℕ → Bool × Option Bytes
write_file_chunk_sync failed chunk payload_bytes =
    if ltb (2 ^ 32 - 1) payload_bytes
    then (false, none)
    else ((if failed then false else true), some (file_frame chunk payload_bytes))

unfoldable pub get_file_header : Bytes → FileHeader
get_file_header buf = record {
  correlation_key = load 4 buf;
  timestamp = load 8 (drop 4 buf);
  msg_type = load 1 (drop 12 buf);
  metadata = load 8 (drop 13 buf);
}

-- `GetFileData(buf, csize)`.
unfoldable pub get_file_data : Bytes → ℕ → Bytes
get_file_data buf csize = take csize (drop file_header_size_bytes buf)

-- The bytes before the first NUL. In C++ the scan of a buffer with none runs past its end.
unfoldable pub until_nul : Bytes → Bytes
until_nul [] = []
until_nul (b ∷ bs) = if b == 0 then [] else (b ∷ until_nul bs)

-- `GetFileData(buf)`, which is meant for text.
unfoldable pub get_file_text : Bytes → Bytes
unfolding until_nul
get_file_text buf = until_nul (drop file_header_size_bytes buf)

unfoldable pub get_msg_header : Bytes → MessageHeader
get_msg_header buf = record {
  data_len = load 1 buf;
  timestamp = load 8 (drop 1 buf);
  msg_type = load 1 (drop 9 buf);
}

-- The copies that `WriteMessageFrame` makes into the session's write buffer.
unfoldable pub fill_message_frame : Message → Bytes → Bytes
fill_message_frame msg buf = write_at header_size_bytes msg.payload (
    write_at 9 (store 1 msg.header.msg_type)
      (write_at 1 (store 8 msg.header.timestamp) (write_at 0 (store 1 msg.header.data_len) buf)))

-- `((uint64_t)csize << 32) | (uint64_t)fsize`, as the sender of a file packs it.
unfoldable pub pack_metadata : ℕ → ℕ → ℕ
pack_metadata csize fsize = bit_or (csize * 2 ^ 32 % 2 ^ 64) fsize

-- `(metadata & 0xFFFFFFFF00000000) >> 32`, stored in 32 bits.
unfoldable pub metadata_csize : ℕ → ℕ
metadata_csize metadata = bit_and metadata 0xFFFFFFFF00000000 / 2 ^ 32 % 2 ^ 32

-- `(uint32_t)(metadata & 0x0000000FFFFFFFFF)`: the mask has 36 bits, the cast keeps 32.
unfoldable pub metadata_fsize : ℕ → ℕ
metadata_fsize metadata = bit_and metadata 0x0000000FFFFFFFFF % 2 ^ 32

-- `static_cast<uint32_t>(metadata & 0xFFFFFFFF)`, as the receiver of an offer reads the size.
unfoldable pub offer_fsize : ℕ → ℕ
offer_fsize metadata = bit_and metadata 0xFFFFFFFF % 2 ^ 32

-- `ConstructChatMessageFromInput`.
unfoldable pub construct_chat_message_from_input : ℕ → Bytes → Message
construct_chat_message_from_input now input =
    let copy_len =
      if ltb (length input) payload_size_bytes then length input else payload_size_bytes in
    record {
      header = record { data_len = copy_len % 256; timestamp = now; msg_type = chatmessage };
      payload = overlay (take copy_len input) (replicate payload_size_bytes 0);
    }

-- The text that `OnReceiveChatMessageFrame` makes of a frame: the payload is copied to an array of
-- 128 bytes and cut at `dataLen`. A `dataLen` above 128 reads past the array; here it stops.
unfoldable pub chat_text : Bytes → Bytes
unfolding get_msg_header
chat_text buf =
    take (get_msg_header buf).data_len (take payload_size_bytes (drop header_size_bytes buf))
