-- ===== src/Manager/Identity.antt =====
-- What an accepted connection becomes when its peer has told its name.
use local_chat_xxx.Common.{
  ◌+◌, ◌-◌, ◌%◌, ◌≡◌, refl, ap, ◌∙◌, false, ltb, [], ◌∷◌, ◌++◌, Option, none, some, take, drop,
}
use local_chat_xxx.Common.Bytes.{Bytes}
use local_chat_xxx.Common.Assoc.{lookup, nat_eq, bytes_eq, insert, lookup-insert_self}
use local_chat_xxx.Wire.Defs.{helloback, confirm_established, get_msg_header, fill_message_frame}
use local_chat_xxx.Session.Defs.{
  clear_read_buffer, Session, write, read_frame, established, unprepared, is_null, is_unprepared,
  is_closed, start_reading_frames, write_message_frame,
}
use local_chat_xxx.Session.Handlers.{
  finish_frame, read_message_frame_callback, Env, on_receive_handshake_frame,
  on_receive_hello_back_frame,
}
use local_chat_xxx.Manager.Defs.{
  Manager, Node, manager_ops, add_node, add_node_to_nodes, control_message,
  get_session_id_from_service_name, handle_session_identification, is_session_already_present,
  put_session, start_communication_session_with_node,
}
use local_chat_xxx.Manager.Offers.{lookup-put_session}

-- A session that was taken in under this name: established, registered by id and by name, its
-- confirmation written and the next read started.
pub record IsTakenIn (env : Env) (name : Bytes) (s s' : Session) (m' : Manager) : Type 0 where
  pub prepared : s'.state ≡ established
  pub named : s'.service_name ≡ name
  pub by_name : get_session_id_from_service_name name m' ≡ some s.session_id
  pub by_id : lookup s.session_id m'.sessions ≡ some s'
  pub confirmed :
      s'.io
      ≡ (s.io
          ++ (write (fill_message_frame (control_message env confirm_established) s.write_buf)
              ∷ []))
        ++ (read_frame 138 ∷ [])

-- Noting a node leaves the names alone.
add_node-names :
    (o : Option Node) (name : Bytes) (node : Node) (m : Manager)
    → (add_node o name node m).service_sessionid ≡ m.service_sessionid
unfolding add_node
add_node-names none name node m = refl
add_node-names (some n) name node m = refl

module _ (env : Env) (s : Session) (m : Manager) (buffered : is_null s.write_buf ≡ false)
    (idle : s.total_bytes_read ≡ 0) where
  abbrev t : Bytes → Session
  t name = start_reading_frames (record s {
    state = established;
    node_id = m.current_node_id;
    service_name = name;
    total_bytes_written = 0;
    write_buf = fill_message_frame (control_message env confirm_established) s.write_buf;
    io =
        s.io
        ++ (write (fill_message_frame (control_message env confirm_established) s.write_buf) ∷ []);
  })

  abbrev after : Bytes → Manager
  after name =
      record (add_node_to_nodes name (record { id = m.current_node_id; service_name = name })
        (record m {
          current_node_id = m.current_node_id % 255 + 1;
          service_sessionid = insert name s.session_id m.service_sessionid;
        })) { sessions = put_session s.session_id (t name) m.sessions }

  -- A caller under a new name, with its write buffer in place, is taken in: it is established, found
  -- by its id and by its name, has written the confirmation and reads the next frame.
  pub identified_new :
      (name : Bytes)
      → is_session_already_present name m.sessions ≡ false
      → (handle_session_identification env name s m ≡ some (t name, after name))
        × IsTakenIn env name s (t name) (after name)
  unfolding handle_session_identification start_communication_session_with_node write_message_frame
      get_session_id_from_service_name start_reading_frames add_node_to_nodes
  identified_new name fresh = (
    rw (fresh, buffered),
    record {
      prepared = refl;
      named = refl;
      by_name =
          ap (lookup name) (add_node-names (lookup name m.nodes) name _ _)
          ∙ lookup-insert_self name s.session_id m.service_sessionid;
      by_id = lookup-put_session s.session_id (t name) m.sessions;
      confirmed =
          ap
            (λ k.
              (s.io
                ++ (write (fill_message_frame (control_message env confirm_established) s.write_buf)
                    ∷ []))
              ++ (read_frame (138 - k) ∷ []))
            idle;
    },
  )

-- A frame that answers HELLO with a new name, on a connection that is not prepared yet and has its
-- buffers: the session is established under that name and taken in by the manager.
pub hello_back_establishes :
    (env : Env) (s : Session) (m : Manager) (name : Bytes)
    → s.state ≡ unprepared
    → s.total_bytes_read ≡ 0
    → is_null s.read_buf ≡ false
    → is_null s.write_buf ≡ false
    → (get_msg_header s.read_buf).msg_type ≡ helloback
    → ltb 128 (get_msg_header s.read_buf).data_len ≡ false
    → take (get_msg_header s.read_buf).data_len (drop 10 s.read_buf) ≡ name
    → is_session_already_present name m.sessions ≡ false
    → (s' : Session) × (m' : Manager) × (read_message_frame_callback manager_ops env false 138 s m
        ≡ some (clear_read_buffer s', m'))
      × IsTakenIn env name (record s { total_bytes_read = 0 }) s' m'
unfolding read_message_frame_callback is_unprepared on_receive_handshake_frame
    on_receive_hello_back_frame finish_frame is_closed start_reading_frames clear_read_buffer
hello_back_establishes env s m name st idle rb wb ty len text fresh =
    let (e, _) =
      identified_new env (record s { state = unprepared; total_bytes_read = 0 }) m wb refl name
        fresh in
    let (_, taken) = identified_new env (record s { total_bytes_read = 0 }) m wb refl name fresh in
    (
      t env (record s { total_bytes_read = 0 }) m wb refl name,
      after env (record s { total_bytes_read = 0 }) m wb refl name,
      simp (idle, st, ty, len, rb, text, e),
      taken,
    )
