-- ===== src/Session/Reads.antt =====
-- How a prepared session handles a whole frame, and when it reads chunks.
use local_chat_xxx.Common.{
  ℕ, ◌<◌, ◌+◌, ◌≡◌, ap, false, if◌then◌else◌, ◌==◌, [], ◌∷◌, ◌++◌, arith, some, suc, replicate,
}
use local_chat_xxx.Common.Results.{◌>>=◌}
use local_chat_xxx.Wire.Defs.{chatmessage, get_msg_header, chat_text, ChatMessage}
use local_chat_xxx.Session.Defs.{
  Session, app_message_incoming, read_chunk, is_unprepared, is_null, start_reading_frames,
  start_reading_chunks,
}
use local_chat_xxx.Session.Handlers.{
  Env, ManagerOps, on_receive_chat_message_frame, dispatch_file_header, on_receive_standard_frame,
  finish_frame, read_message_frame_callback,
}

pub is_null_fresh : (n : ℕ) → is_null (replicate (n + 21) 0) ≡ false
unfolding is_null
is_null_fresh n = ap (λ k. is_null (replicate k 0)) e
  where
    e : n + 21 ≡ suc (n + 20)
    e = omega arith

-- With an empty count and a buffer the read is for the whole packet.
pub start_chunks_io :
    (p : ℕ) (s : Session)
    → is_null s.file_read_buf ≡ false
    → s.total_bytes_read ≡ 0
    → 0 < p
    → (start_reading_chunks p s) ≡ record s { io = s.io ++ (read_chunk p ∷ []) }
unfolding start_reading_chunks
start_chunks_io p s h e pos = ground arith

-- The message that a chat frame carries.
abbrev pub incoming : Session → ChatMessage
incoming s = record {
  text_data = chat_text s.read_buf;
  sender = s.service_name;
  timestamp = (get_msg_header s.read_buf).timestamp;
}

module _ {W : Type 0} (m : ManagerOps W) where
  -- A chat message is handed to the application, and then looked at as a file header.
  pub standard_chat :
      (s : Session) (w : W)
      → is_null s.read_buf ≡ false
      → (get_msg_header s.read_buf).msg_type ≡ chatmessage
      → on_receive_standard_frame m s w
        ≡ dispatch_file_header m
            (start_reading_frames s)
            (m.put_message_into_app_mailbox (app_message_incoming (incoming s)) w)
  unfolding on_receive_standard_frame on_receive_chat_message_frame
  standard_chat s w h e = rw (e, h)

  pub standard_other :
      (s : Session) (w : W)
      → ((get_msg_header s.read_buf).msg_type == chatmessage) ≡ false
      → on_receive_standard_frame m s w ≡ dispatch_file_header m s w
  unfolding on_receive_standard_frame
  standard_other s w e = rw e

  -- A whole frame on a prepared session.
  pub established_frame :
      (env : Env) (s : Session) (w : W)
      → is_unprepared s.state ≡ false
      → s.total_bytes_read ≡ 0
      → read_message_frame_callback m env false 138 s w ≡ (
          on_receive_standard_frame m (record s { total_bytes_read = 0 }) w >>= λ r.
          some ((if r.0 then r.1 else finish_frame m r.1), r.2))
  unfolding read_message_frame_callback
  established_frame env s w st t = rw (t, st)
