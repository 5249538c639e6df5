-- ===== src/Manager/Handshake.antt =====
-- The three frames that two machines exchange before a connection is established: HELLO from the
-- machine that accepted, HELLOBACK with its name from the one that dialled, and the confirmation.
use local_chat_xxx.Common.{
  [], ap, arith, drop, false, length, length-replicate, refl, replicate, some, take, take-append, ℕ,
  ◌%◌, ◌++◌, ◌<◌, ◌^◌, ◌∙◌, ◌∷◌, ◌≡◌, ◌≤◌,
}
use local_chat_xxx.Session.Defs.{
  Session, clear_read_buffer, clear_write_buffer, established, ingoing, is_closed, is_null,
  is_unprepared, new_session, outgoing, read_frame, start_reading_frames, write,
  write_message_frame, write_message_frame_callback,
}
use local_chat_xxx.Session.Handlers.{
  Env, finish_frame, on_receive_confirm_established, on_receive_handshake_frame,
  on_receive_hello_back_frame, on_receive_hello_frame, read_message_frame_callback,
}
use local_chat_xxx.Wire.Defs.{
  Message, confirm_established, construct_message, construct_message_header, fill_message_frame,
  get_msg_header, hello, helloback,
}
use local_chat_xxx.Wire.Text.{
  fill_message_frame_layout, get_msg_header-layout, length-message, message_header_bytes,
}
use local_chat_xxx.Manager.Defs.{Manager, accept, accept_handler, control_message, manager_ops}
use local_chat_xxx.Session.Arrival.{arrive, arrive_frame}
use local_chat_xxx.Common.Bytes.{Bytes, length-overlay, overlay, overlay-drop}

-- What the dialling machine answers.
abbrev pub hello_reply : Env → Bytes → Message
hello_reply env name = record {
  header = record { data_len = length name % 256; timestamp = env.now; msg_type = helloback };
  payload = overlay name env.stack;
}

-- The sessions of the two machines when the connection is there.
abbrev pub accepted_session : Env → ℕ → Bytes → Session
accepted_session env id machine =
    let f = fill_message_frame (control_message env hello) (replicate 138 0) in
    record (new_session id [] machine ingoing) { write_buf = f; io = write f ∷ read_frame 138 ∷ [] }

abbrev pub dialled_session : ℕ → Bytes → Bytes → ℕ → Session
dialled_session id peer machine node_id = record (new_session id peer machine outgoing) {
  node_id = node_id;
  io = read_frame 138 ∷ [];
}

pub hello_sent :
    (env : Env) (id : ℕ) (m : Manager)
    → accept_handler env false id m
      ≡ some (some (accepted_session env id m.this_machine_name), accept m)
unfolding accept_handler write_message_frame start_reading_frames new_session is_null
hello_sent env id m = refl

abbrev pub hello_frame : Env → Bytes
hello_frame env = fill_message_frame (control_message env hello) (replicate 138 0)

-- The dialling session when it has handled HELLO, and the frame that it writes.
abbrev pub reply_frame : Env → Bytes → Bytes
reply_frame env name = fill_message_frame (hello_reply env name) (replicate 138 0)

abbrev pub replied_session : Env → ℕ → Bytes → Bytes → ℕ → Session
replied_session env id peer machine n = record (dialled_session id peer machine n) {
  write_buf = [];
  io = read_frame 138 ∷ write (reply_frame env machine) ∷ read_frame 138 ∷ [];
}

pub hello_taken :
    (mine env : Env) (id n : ℕ) (peer machine : Bytes) (w : Manager)
    → arrive manager_ops env (hello_frame mine) (dialled_session id peer machine n) w
      ≡ some (replied_session env id peer machine n, w)
unfolding new_session fill_message_frame control_message construct_message construct_message_header
    read_message_frame_callback is_unprepared on_receive_handshake_frame on_receive_hello_frame
    write_message_frame start_reading_frames clear_read_buffer finish_frame is_closed is_null
    get_msg_header on_receive_hello_back_frame on_receive_confirm_established
hello_taken mine env id n peer machine w =
    arrive_frame manager_ops env (hello_frame mine) (dialled_session id peer machine n) w refl refl
      refl
    ∙ handled
  where
    handled :
        read_message_frame_callback manager_ops env false 138
          (record (dialled_session id peer machine n) { read_buf = hello_frame mine })
          w
        ≡ some (replied_session env id peer machine n, w)
    handled = refl

-- The sessions when the socket has taken what they wrote.
abbrev pub greeted_session : Env → ℕ → Bytes → Session
greeted_session env id machine = record (accepted_session env id machine) {
  write_buf = replicate 138 0;
}

abbrev pub answered_session : Env → ℕ → Bytes → Bytes → ℕ → Session
answered_session env id peer machine n = record (replied_session env id peer machine n) {
  write_buf = replicate 138 0;
}

pub hello_written :
    (env : Env) (id : ℕ) (machine : Bytes)
    → write_message_frame_callback false 138 (accepted_session env id machine)
      ≡ greeted_session env id machine
unfolding write_message_frame_callback new_session is_closed is_null clear_write_buffer
    fill_message_frame control_message construct_message construct_message_header
hello_written env id machine = refl

pub reply_written :
    (env : Env) (id n : ℕ) (peer machine : Bytes)
    → write_message_frame_callback false 138 (replied_session env id peer machine n)
      ≡ answered_session env id peer machine n
unfolding write_message_frame_callback new_session is_closed is_null clear_write_buffer
reply_written env id n peer machine = refl

abbrev pub confirm_frame : Env → Bytes
confirm_frame env = fill_message_frame (control_message env confirm_established) (replicate 138 0)

abbrev pub confirmed_session : Env → ℕ → Bytes → Bytes → ℕ → Session
confirmed_session env id peer machine n = record (answered_session env id peer machine n) {
  state = established;
  io = read_frame 138 ∷ write (reply_frame env machine) ∷ read_frame 138 ∷ read_frame 138 ∷ [];
}

pub confirm_taken :
    (mine env : Env) (id n : ℕ) (peer machine : Bytes) (w : Manager)
    → arrive manager_ops env (confirm_frame mine) (answered_session env id peer machine n) w
      ≡ some (confirmed_session env id peer machine n, w)
unfolding new_session fill_message_frame control_message construct_message construct_message_header
    read_message_frame_callback is_unprepared on_receive_handshake_frame on_receive_hello_frame
    write_message_frame start_reading_frames clear_read_buffer finish_frame is_closed is_null
    get_msg_header on_receive_hello_back_frame on_receive_confirm_established
confirm_taken mine env id n peer machine w =
    arrive_frame manager_ops env (confirm_frame mine) (answered_session env id peer machine n) w
      refl refl refl
    ∙ handled
  where
    handled :
        read_message_frame_callback manager_ops env false 138
          (record (answered_session env id peer machine n) { read_buf = confirm_frame mine })
          w
        ≡ some (confirmed_session env id peer machine n, w)
    handled = refl

module _ (env : Env) (machine : Bytes) (stack : length env.stack ≡ 128) (stamp : env.now < 2 ^ 64)
    (short : length machine ≤ 128) where
  reply_payload : length (hello_reply env machine).payload ≡ 128
  reply_payload = length-overlay machine env.stack ∙ stack

  reply_layout :
      reply_frame env machine
      ≡ message_header_bytes (hello_reply env machine).header ++ (hello_reply env machine).payload
  reply_layout =
      fill_message_frame_layout (hello_reply env machine) (replicate 138 0)
        (length-replicate {A = ℕ} 138 0) reply_payload

  pub length-reply_frame : length (reply_frame env machine) ≡ 138
  length-reply_frame =
      ap length reply_layout ∙ length-message (hello_reply env machine) reply_payload

  pub reply_header : get_msg_header (reply_frame env machine) ≡ (hello_reply env machine).header
  reply_header =
      ap get_msg_header reply_layout
      ∙ get_msg_header-layout (hello_reply env machine) (omega arith) stamp (omega arith)

  pub reply_name : take (length machine % 256) (drop 10 (reply_frame env machine)) ≡ machine
  reply_name =
      ap (λ f. take (length machine % 256) (drop 10 f)) reply_layout
      ∙ ap (λ k. take k (overlay machine env.stack)) (omega (arith, short))
      ∙ ap (take (length machine)) (overlay-drop machine env.stack (omega arith))
      ∙ take-append machine (drop (length machine) env.stack) (length machine) refl
