-- ===== src/Session/Defs.antt =====
-- The state of a session and the operations on its buffers (include/BVTCPSession.hpp). A buffer
-- that is a null pointer in the source is the empty list.
use local_chat_xxx.Common.{
  ℕ, ◌+◌, ◌-◌, Bool, true, false, ◌||◌, if◌then◌else◌, ltb, ◌==◌, List, [], ◌∷◌, ◌++◌, Option, none,
  some, length, replicate,
}
use local_chat_xxx.Common.Bytes.{Bytes}
use local_chat_xxx.Wire.Defs.{
  Message, FileData, ChatMessage, message_frame_size_bytes, fill_message_frame,
}

pub data SessionState : Type 0 where
  unprepared established closed : SessionState

pub data SessionOrigin : Type 0 where
  ingoing outgoing : SessionOrigin

-- What a session starts on its socket: a write of these bytes, a read of so many bytes into the
-- frame buffer or into the file buffer, or the cancellation of what is pending.
pub data Io : Type 0 where
  write : Bytes → Io
  read_frame : ℕ → Io
  read_chunk : ℕ → Io
  cancel : Io

-- What a session puts into the mailbox of the application.
pub data AppEvent : Type 0 where
  app_message_incoming : ChatMessage → AppEvent
  app_file_offer : FileData → AppEvent
  app_file_transfer_begin : FileData → AppEvent
  app_file_transfer_chunk_sent : FileData → AppEvent
  app_file_transfer_end : FileData → AppEvent

-- `BVTCPSession` with its `BVTCPNodeConnectionSessionData`. `io` lists what was started, oldest
-- first.
pub record Session : Type 0 where
  pub session_id : ℕ
  pub service_name : Bytes
  pub node_id : ℕ
  pub this_machine_service_name : Bytes
  pub state : SessionState
  pub origin : SessionOrigin
  pub read_buf : Bytes
  pub file_read_buf : Bytes
  pub write_buf : Bytes
  pub csize : ℕ
  pub fsize : ℕ
  pub total_bytes_read : ℕ
  pub total_bytes_written : ℕ
  pub io : List Io

unfoldable pub is_unprepared : SessionState → Bool
is_unprepared unprepared = true
is_unprepared established = false
is_unprepared closed = false

unfoldable pub is_closed : SessionState → Bool
is_closed unprepared = false
is_closed established = false
is_closed closed = true

unfoldable pub is_null : Bytes → Bool
is_null [] = true
is_null (b ∷ bs) = false

abbrev pub start : Session → Io → Session
start s a = record s { io = s.io ++ (a ∷ []) }

unfoldable pub clear_read_buffer : Session → Session
clear_read_buffer s = record s {
  read_buf = replicate message_frame_size_bytes 0;
  total_bytes_read = 0;
}

unfoldable pub clear_write_buffer : Session → Session
clear_write_buffer s = record s {
  total_bytes_written = 0;
  write_buf = replicate message_frame_size_bytes 0;
}

unfoldable pub clear_file_buffer : Session → Session
clear_file_buffer s = record s { file_read_buf = 0 ∷ [] }

-- The constructor, over session data with this id and this machine's name. The fields that the
-- source leaves uninitialised start at 0.
unfoldable pub new_session : ℕ → Bytes → Bytes → SessionOrigin → Session
new_session id service_name this_machine origin = record {
  session_id = id;
  service_name = service_name;
  node_id = 0;
  this_machine_service_name = this_machine;
  state = unprepared;
  origin = origin;
  read_buf = replicate message_frame_size_bytes 0;
  file_read_buf = 0 ∷ [];
  write_buf = replicate message_frame_size_bytes 0;
  csize = 0;
  fsize = 0;
  total_bytes_read = 0;
  total_bytes_written = 0;
  io = [];
}

unfoldable pub close : Session → Session
close s = record s { state = closed; read_buf = []; write_buf = []; io = s.io ++ (cancel ∷ []) }

unfoldable pub start_reading_frames : Session → Session
start_reading_frames s = start s (read_frame (message_frame_size_bytes - s.total_bytes_read))

unfoldable pub start_reading_chunks : ℕ → Session → Session
unfolding is_null
start_reading_chunks packet s =
    if is_null s.file_read_buf
    then s
    else if ltb packet s.total_bytes_read
    then s
    else if packet - s.total_bytes_read == 0
    then s
    else start s (read_chunk (packet - s.total_bytes_read))

-- `none` is the failed assertion on an empty write buffer.
unfoldable pub write_message_frame : Message → Session → Option Session
unfolding is_null
write_message_frame msg s =
    let filled = fill_message_frame msg s.write_buf in
    if is_null s.write_buf
    then none
    else some (start (record s { total_bytes_written = 0; write_buf = filled }) (write filled))

unfoldable pub write_message_frame_callback : Bool → ℕ → Session → Session
unfolding is_null is_closed clear_write_buffer
write_message_frame_callback ec bytes_transferred s =
    let total = s.total_bytes_written + bytes_transferred in
    let s' : Session = record s { total_bytes_written = total } in
    if ec
    then s
    else if total == length s.write_buf || is_null s.write_buf || total == message_frame_size_bytes
    then (if is_closed s.state then s' else clear_write_buffer s')
    else start s' (write s.write_buf)
