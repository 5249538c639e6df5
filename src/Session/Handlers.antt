-- ===== src/Session/Handlers.antt =====
-- What a session does with the frames that arrive (include/BVTCPSession.hpp, src/BVTCPSession.cpp).
use local_chat_xxx.Common.{
  ℕ, ◌+◌, ◌-◌, ◌%◌, ◌^◌, Bool, true, false, if◌then◌else◌, ltb, ◌==◌, ◌!=◌, [], Option, some,
  length, get_or, take, drop, replicate,
}
use local_chat_xxx.Common.Results.{◌>>=◌}
use local_chat_xxx.Common.Bytes.{Bytes, overlay}
use local_chat_xxx.Wire.Defs.{
  Message, message_frame_size_bytes, header_size_bytes, file_header_size_bytes, hello, helloback,
  confirm_established, chatmessage, file_transfer_begin, file_transfer_chunk_sent,
  file_transfer_end, file_offer, file_accept, file_reject, construct_message_header,
  construct_message, get_msg_header, get_file_header, get_file_data, get_file_text, chat_text,
  metadata_csize, metadata_fsize, offer_fsize,
}
use local_chat_xxx.Session.Defs.{
  Session, AppEvent, app_message_incoming, app_file_offer, app_file_transfer_begin,
  app_file_transfer_chunk_sent, app_file_transfer_end, established, read_frame, start,
  is_unprepared, is_closed, is_null, clear_read_buffer, clear_file_buffer, start_reading_frames,
  start_reading_chunks, write_message_frame,
}

-- What a handler finds on the machine: the clock, in milliseconds, and the leftovers in the 128
-- bytes of stack and the length field that it does not initialise.
pub record Env : Type 0 where
  pub now : ℕ
  pub stack : Bytes
  pub unset : ℕ

-- The connection manager as a session sees it, with its state `W`. `none` is an exception.
pub record ManagerOps (W : Type 0) : Type 0 where
  pub put_message_into_app_mailbox : AppEvent → W → W
  pub handle_session_identification : Env → Bytes → Session → W → Option (Session × W)
  pub signal_file_transfer : ℕ → Bool → W → Option W

module _ {W : Type 0} (m : ManagerOps W) where
  abbrev Outcome : Type 0
  Outcome = Option (Session × W)

  -- The type is read through the C++ struct, where alignment puts it at byte 16 and not at byte 9.
  unfoldable pub on_receive_hello_frame : Env → Session → W → Outcome
  on_receive_hello_frame env s w =
      let name = s.this_machine_service_name in
      let made =
        construct_message (construct_message_header env.unset env.now helloback)
          (overlay name env.stack) in
      let reply : Message = record made {
        header = record (made.header) { data_len = length name % 256 };
      } in
      if get_or s.read_buf 16 0 != hello
      then some (s, w)
      else (write_message_frame reply s >>= λ s'.
          some (start_reading_frames (record s' { write_buf = [] }), w))

  unfoldable pub on_receive_hello_back_frame : Env → Session → W → Outcome
  unfolding is_null
  on_receive_hello_back_frame env s w =
      let header = get_msg_header s.read_buf in
      if header.msg_type != helloback
      then some (s, w)
      else if ltb 128 header.data_len
      then some (s, w)
      else if is_null s.read_buf
      then some (s, w)
      else m.handle_session_identification env
          (take header.data_len (drop header_size_bytes s.read_buf)) s w

  unfoldable pub on_receive_confirm_established : Session → W → Outcome
  on_receive_confirm_established s w =
      some (start_reading_frames (record s { state = established }), w)

  unfoldable pub on_receive_chat_message_frame : Session → W → Outcome
  unfolding is_null
  on_receive_chat_message_frame s w =
      let header = get_msg_header s.read_buf in
      if header.msg_type != chatmessage
      then some (s, w)
      else if is_null s.read_buf
      then some (s, w)
      else some (
        start_reading_frames s,
        m.put_message_into_app_mailbox
            (app_message_incoming (record {
              text_data = chat_text s.read_buf;
              sender = s.service_name;
              timestamp = header.timestamp;
            }))
            w,
      )

  unfoldable pub on_receive_file_offer : Session → W → W
  on_receive_file_offer s w =
      let header = get_file_header s.read_buf in
      m.put_message_into_app_mailbox
        (app_file_offer (record {
          correlation_key = header.correlation_key;
          csize = 0;
          fsize = offer_fsize header.metadata;
          fdata = get_file_text s.read_buf;
        }))
        w

  unfoldable pub on_receive_file_transfer_begin : Session → W → Session × W
  on_receive_file_transfer_begin s w =
      let header = get_file_header s.read_buf in
      let cs = metadata_csize header.metadata in
      let fs = metadata_fsize header.metadata in
      let packet = cs + file_header_size_bytes in
      if header.msg_type != file_transfer_begin then (s, w) else (
        start_reading_chunks (packet % 2 ^ 32) (record (clear_read_buffer s) {
          csize = cs;
          fsize = fs;
          file_read_buf = replicate packet 0;
          total_bytes_read = 0;
        }),
        m.put_message_into_app_mailbox
            (app_file_transfer_begin (record {
              correlation_key = header.correlation_key;
              csize = cs;
              fsize = fs;
              fdata = get_file_text s.read_buf;
            }))
            w,
      )

  unfoldable pub on_receive_file_chunk_sent : Session → W → W
  on_receive_file_chunk_sent s w =
      let header = get_file_header s.file_read_buf in
      if header.msg_type != file_transfer_chunk_sent
      then w
      else m.put_message_into_app_mailbox
          (app_file_transfer_chunk_sent (record {
            correlation_key = header.correlation_key;
            csize = s.csize;
            fsize = s.fsize;
            fdata = get_file_data s.file_read_buf s.csize;
          }))
          w

  unfoldable pub on_receive_file_transfer_end : Session → W → W
  on_receive_file_transfer_end s w =
      let header = get_file_header s.file_read_buf in
      if header.msg_type != file_transfer_end
      then w
      else m.put_message_into_app_mailbox
          (app_file_transfer_end (record {
            correlation_key = header.correlation_key;
            csize = s.csize;
            fsize = s.fsize;
            fdata = get_file_data s.file_read_buf s.csize;
          }))
          w

  -- The switch on the type byte of a file header, in the frame that has just been looked at as a
  -- message. `true` asks the caller to return early.
  unfoldable pub dispatch_file_header : Session → W → Option (Bool × Session × W)
  dispatch_file_header s w =
      let file_header = get_file_header s.read_buf in
      let begun = on_receive_file_transfer_begin s w in
      if file_header.msg_type == file_transfer_begin
      then some (true, begun.0, begun.1)
      else if file_header.msg_type == file_offer
      then some (true, start_reading_frames s, on_receive_file_offer s w)
      else if file_header.msg_type == file_accept
      then (m.signal_file_transfer file_header.correlation_key true w >>= λ w'.
          some (true, start_reading_frames s, w'))
      else if file_header.msg_type == file_reject
      then (m.signal_file_transfer file_header.correlation_key false w >>= λ w'.
          some (true, start_reading_frames s, w'))
      else some (false, s, w)

  unfoldable pub on_receive_standard_frame : Session → W → Option (Bool × Session × W)
  on_receive_standard_frame s w =
      let looked =
        if (get_msg_header s.read_buf).msg_type == chatmessage
        then on_receive_chat_message_frame s w
        else some (s, w) in
      looked >>= λ r. dispatch_file_header r.0 r.1

  -- The three tests on a session that is not prepared yet.
  unfoldable pub on_receive_handshake_frame : Env → ℕ → Session → W → Outcome
  on_receive_handshake_frame env msg_type s w =
      (if msg_type == hello then on_receive_hello_frame env s w else some (s, w)) >>= λ a.
      (if msg_type == helloback then on_receive_hello_back_frame env a.0 a.1 else some (a.0, a.1))
      >>= λ b.
          if msg_type == confirm_established
          then on_receive_confirm_established b.0 b.1
          else some (b.0, b.1)

  unfoldable pub finish_frame : Session → Session
  unfolding is_closed
  finish_frame s = if is_closed s.state then s else clear_read_buffer s

  unfoldable pub read_message_frame_callback : Env → Bool → ℕ → Session → W → Outcome
  read_message_frame_callback env ec bytes_transferred s w =
      let total = s.total_bytes_read + bytes_transferred in
      let s' : Session = record s { total_bytes_read = 0 } in
      if ec
      then some (s, w)
      else if total == message_frame_size_bytes
      then (if is_unprepared s.state
          then (on_receive_handshake_frame env (get_msg_header s.read_buf).msg_type s' w >>= λ r.
              some (finish_frame r.0, r.1))
          else (on_receive_standard_frame s' w >>= λ r.
              some ((if r.0 then r.1 else finish_frame r.1), r.2)))
      else some (
        start (record s { total_bytes_read = total })
            (read_frame (message_frame_size_bytes - total)),
        w,
      )

  unfoldable pub read_file_chunk_callback : Bool → ℕ → Session → W → Outcome
  read_file_chunk_callback ec bytes_transferred s w =
      let header = get_file_header s.file_read_buf in
      let packet = s.csize + file_header_size_bytes in
      let again : Session = record s { total_bytes_read = 0; file_read_buf = replicate packet 0 } in
      if ec
      then some (s, w)
      else if header.msg_type == file_transfer_chunk_sent
      then some (start_reading_chunks (packet % 2 ^ 32) again, on_receive_file_chunk_sent s w)
      else if header.msg_type == file_transfer_end
      then some (
        start_reading_frames (clear_read_buffer (clear_file_buffer s)),
        on_receive_file_transfer_end s w,
      )
      else some (start_reading_chunks (packet % 2 ^ 32) again, w)
