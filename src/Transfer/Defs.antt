-- ===== src/Transfer/Defs.antt =====
-- `BVFileTransferContext`: the chunk size, one step of the worker thread, and its loop.
use local_chat_xxx.Common.{
  ℕ, zero, suc, ◌+◌, ◌*◌, ◌/◌, ◌%◌, ◌^◌, Bool, true, false, ◌&&◌, ◌||◌, if◌then◌else◌, ltb, leb,
  ◌==◌, List, [], ◌∷◌, ◌++◌, length, take, drop, replicate,
}
use local_chat_xxx.Common.Bytes.{Bytes, overlay}
use local_chat_xxx.Wire.Defs.{
  FileChunk, control_payload_bytes, file_transfer_begin, file_transfer_chunk_sent,
  file_transfer_end, construct_file_header, construct_file_chunk, file_frame, pack_metadata,
}

abbrev pub max_file_chunk_size_bytes_1mb : ℕ
max_file_chunk_size_bytes_1mb = 1048676

-- `DetermineChunkSize`.
unfoldable pub determine_chunk_size : ℕ → ℕ
determine_chunk_size fsize =
    if ltb fsize 256
    then 64
    else if ltb fsize 1000
    then 256
    else if ltb 1024 fsize && ltb fsize 8000
    then 512
    else if ltb 8000 fsize && ltb fsize 64000
    then 4096
    else if ltb 64000 fsize && ltb fsize 256000
    then 32768
    else if ltb 256000 fsize && ltb fsize 1000000
    then 65536
    else if ltb 1000000 fsize && ltb fsize 5000000
    then 524288
    else max_file_chunk_size_bytes_1mb

pub data TransferState : Type 0 where
  first_chunk ongoing last_chunk : TransferState

-- `rest` is what the file stream has not read yet, and `good` is the stream's state. `sent` lists
-- the frames handed to the socket, oldest first; whether a write succeeds is not looked at.
pub record Transfer : Type 0 where
  pub fsize : ℕ
  pub ftcid : ℕ
  pub fname : Bytes
  pub this_machine_service_name : Bytes
  pub state : TransferState
  pub csize : ℕ
  pub bytes_sent : ℕ
  pub is_running : Bool
  pub rest : Bytes
  pub good : Bool
  pub sent : List Bytes

-- The constructor, for a file that could be opened.
unfoldable pub new_transfer : Bytes → ℕ → Bytes → Bytes → Transfer
new_transfer this_machine ftcid fname file = record {
  fsize = length file % 2 ^ 32;
  ftcid = ftcid;
  fname = fname;
  this_machine_service_name = this_machine;
  state = first_chunk;
  csize = determine_chunk_size (length file % 2 ^ 32);
  bytes_sent = 0;
  is_running = true;
  rest = file;
  good = true;
  sent = [];
}

-- `service|name` with its terminator, as offers and transfers carry it.
unfoldable pub name_payload : Bytes → Bytes → Bytes
name_payload service name = service ++ (b'|' ∷ (name ++ (0 ∷ [])))

unfoldable pub is_last : TransferState → Bool
is_last first_chunk = false
is_last ongoing = false
is_last last_chunk = true

unfoldable pub is_first : TransferState → Bool
is_first first_chunk = true
is_first ongoing = false
is_first last_chunk = false

unfoldable pub begin_chunk : ℕ → Transfer → FileChunk
begin_chunk now t =
    construct_file_chunk
      (construct_file_header now file_transfer_begin t.ftcid (pack_metadata t.csize t.fsize))
      (name_payload t.this_machine_service_name t.fname)

unfoldable pub data_chunk : ℕ → ℕ → ℕ → Bytes → FileChunk
data_chunk now msg_type ftcid payload =
    construct_file_chunk (construct_file_header now msg_type ftcid 0) payload

unfoldable pub transfer_begin : ℕ → Transfer → Transfer
transfer_begin now t = record t {
  state = ongoing;
  sent = t.sent ++ (file_frame (begin_chunk now t) control_payload_bytes ∷ []);
}

-- Reading the file: the buffer has `csize` zeros under what was read, and a short read fails the
-- stream.
unfoldable pub transfer_data : ℕ → Transfer → Transfer
transfer_data now t =
    let block = take t.csize t.rest in
    let buffer = overlay block (replicate t.csize 0) in
    let last = is_last t.state || leb t.fsize ((t.bytes_sent + t.csize) % 2 ^ 32) in
    let msg_type = if last then file_transfer_end else file_transfer_chunk_sent in
    let after : Transfer = record t {
      rest = drop t.csize t.rest;
      good = length block == t.csize;
    } in
    if length block == 0 then record after { is_running = false } else record after {
      state = ongoing;
      is_running = if last then false else t.is_running;
      bytes_sent = (t.bytes_sent + length block) % 2 ^ 32;
      sent = t.sent ++ (file_frame (data_chunk now msg_type t.ftcid buffer) t.csize ∷ []);
    }

unfoldable pub transfer_next_chunk : ℕ → Transfer → Transfer
transfer_next_chunk now t = if is_first t.state then transfer_begin now t else transfer_data now t

-- The loop of the worker thread, on fuel. `clock` gives the time at which the n-th frame is made.
-- While the stream has failed and the transfer runs, a round does nothing.
unfoldable pub worker : (ℕ → ℕ) → ℕ → Transfer → Transfer
worker clock zero t = t
worker clock (suc fuel) t = elim t.is_running [
  | true ↦ worker clock fuel (if t.good then transfer_next_chunk (clock (length t.sent)) t else t)
  | false ↦ t
]

-- The share that the sender reports, in percent.
unfoldable pub percent : ℕ → ℕ → ℕ
percent done total = if ltb 0 total then done * 100 % 2 ^ 64 / total % 2 ^ 32 else 100
