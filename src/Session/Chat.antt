-- ===== src/Session/Chat.antt =====
-- Chat messages from the sender's frame to the receiver's mailbox.
use local_chat_xxx.Common.{
  ℕ, ◌^◌, ◌<◌, ◌≡◌, ap, ◌∙◌, Bool, true, false, if◌then◌else◌, ◌==◌, ◌||◌, arith, some, Option,
  length, take, get_or,
}
use local_chat_xxx.Common.Results.{◌>>=◌}
use local_chat_xxx.Common.Bytes.{Bytes}
use local_chat_xxx.Wire.Defs.{
  ChatMessage, chatmessage, file_transfer_begin, file_offer, file_accept, file_reject,
  get_msg_header, get_file_header, chat_text, fill_message_frame, construct_chat_message_from_input,
}
use local_chat_xxx.Wire.Text.{
  chat_frame, chat_frame_sent, chat_frame_header, chat_text_round_trip, chat_type_byte,
}
use local_chat_xxx.Session.Defs.{
  Session, established, app_message_incoming, is_unprepared, is_closed, is_null, clear_read_buffer,
  start_reading_frames,
}
use local_chat_xxx.Session.Handlers.{
  Env, ManagerOps, dispatch_file_header, on_receive_file_offer, on_receive_standard_frame,
  finish_frame, read_message_frame_callback,
}
use local_chat_xxx.Session.Reads.{incoming, standard_chat, established_frame}

-- The values of byte 12 that a prepared session takes for a file header.
unfoldable pub is_file_control : ℕ → Bool
is_file_control t =
    t == file_transfer_begin || (t == file_offer || (t == file_accept || t == file_reject))

-- A session whose frame buffer has just been filled by this frame.
pub record Holds (s : Session) (frame : Bytes) : Type 0 where
  pub is_established : s.state ≡ established
  pub buffered : s.read_buf ≡ frame
  pub counted : s.total_bytes_read ≡ 0

module _ {W : Type 0} (m : ManagerOps W) (env : Env) (s : Session) (w : W) where
  dispatch_none :
      (t : Session) (v : W)
      → is_file_control (get_file_header t.read_buf).msg_type ≡ false
      → dispatch_file_header m t v ≡ some (false, t, v)
  unfolding dispatch_file_header is_file_control
  dispatch_none t v h = ground arith

  dispatch_offer :
      (t : Session) (v : W)
      → (get_file_header t.read_buf).msg_type ≡ file_offer
      → dispatch_file_header m t v
        ≡ some (true, start_reading_frames t, on_receive_file_offer m t v)
  unfolding dispatch_file_header
  dispatch_offer t v h = rw h

  finish-established :
      (t : Session) → t.state ≡ established → finish_frame m t ≡ clear_read_buffer t
  unfolding finish_frame is_closed
  finish-established t h = ap (λ x. if is_closed x then t else clear_read_buffer t) h

  module _ (now : ℕ) (input buf : Bytes) (size : length buf ≡ 138) (stamp : now < 2 ^ 64)
      (holds : Holds s (fill_message_frame (construct_chat_message_from_input now input) buf)) where
    abbrev s' : Session
    s' = record s { total_bytes_read = 0 }

    abbrev message : ChatMessage
    message = record { text_data = take 128 input; sender = s.service_name; timestamp = now }

    as_sent : s.read_buf ≡ chat_frame now input
    as_sent = holds.buffered ∙ chat_frame_sent now input buf size

    header_facts :
        ((get_msg_header s.read_buf).timestamp ≡ now)
        × ((get_msg_header s.read_buf).msg_type ≡ chatmessage)
    header_facts = rw as_sent (chat_frame_header now input stamp)

    text_fact : chat_text s.read_buf ≡ take 128 input
    text_fact = ap chat_text holds.buffered ∙ chat_text_round_trip now input buf size

    incoming-message : incoming s' ≡ message
    incoming-message = λ i. record {
      text_data = text_fact i;
      sender = s.service_name;
      timestamp = header_facts.0 i;
    }

    not_null : is_null s.read_buf ≡ false
    unfolding is_null
    not_null = ap is_null as_sent

    prepared : is_unprepared s.state ≡ false
    unfolding is_unprepared
    prepared = ap is_unprepared holds.is_established

    third_byte : (get_file_header s.read_buf).msg_type ≡ get_or input 2 0
    third_byte = ap (λ f. (get_file_header f).msg_type) as_sent ∙ chat_type_byte now input

    standard_step :
        on_receive_standard_frame m s' w
        ≡ dispatch_file_header m
            (start_reading_frames s')
            (m.put_message_into_app_mailbox (app_message_incoming message) w)
    standard_step =
        standard_chat m s' w not_null header_facts.1
        ∙ ap
            (λ e.
              dispatch_file_header m (start_reading_frames s')
                (m.put_message_into_app_mailbox (app_message_incoming e) w))
            incoming-message

    -- A chat frame, with a 64-bit time, has filled the buffer of an established session.
    -- The message arrives as the sender's text cut to 128 bytes, with the sender's time and the
    -- session's peer, and the session goes on reading once. The third byte of the text must not
    -- be a file type.
    pub chat_delivered :
        is_file_control (get_or input 2 0) ≡ false
        → read_message_frame_callback m env false 138 s w
          ≡ some (
            clear_read_buffer (start_reading_frames (record s { total_bytes_read = 0 })),
            m.put_message_into_app_mailbox
                (app_message_incoming
                  (record { text_data = take 128 input; sender = s.service_name; timestamp = now }))
                w,
          )
    unfolding start_reading_frames
    chat_delivered plain =
        established_frame m env s w prepared holds.counted
        ∙ ap k (
            standard_step
            ∙ dispatch_none (start_reading_frames s') _ (ap is_file_control third_byte ∙ plain))
        ∙ ap (λ t. some (t, v)) (finish-established (start_reading_frames s') holds.is_established)
      where
        v : W
        v = m.put_message_into_app_mailbox (app_message_incoming message) w

        k : Option (Bool × Session × W) → Option (Session × W)
        k o = o >>= λ r. some ((if r.0 then r.1 else finish_frame m r.1), r.2)

    -- The same message with a tab as its third byte is also taken for a file offer: a second event
    -- is made of the text, and a second read is started on the same buffer.
    pub chat_taken_for_offer :
        get_or input 2 0 ≡ file_offer
        → read_message_frame_callback m env false 138 s w
          ≡ some (
            start_reading_frames (start_reading_frames (record s { total_bytes_read = 0 })),
            on_receive_file_offer m (start_reading_frames (record s { total_bytes_read = 0 })) (
                m.put_message_into_app_mailbox
                  (app_message_incoming (record {
                    text_data = take 128 input;
                    sender = s.service_name;
                    timestamp = now;
                  }))
                  w),
          )
    unfolding start_reading_frames
    chat_taken_for_offer tab =
        established_frame m env s w prepared holds.counted
        ∙ ap (λ o. o >>= λ r. some ((if r.0 then r.1 else finish_frame m r.1), r.2))
            (standard_step ∙ dispatch_offer (start_reading_frames s') _ (third_byte ∙ tab))
