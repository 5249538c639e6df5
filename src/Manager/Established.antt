-- ===== src/Manager/Established.antt =====
-- A connection, from the moment it is there to two established sessions.
use local_chat_xxx.Session.Arrival.{arrive, arrive_frame, last_io}
use local_chat_xxx.Manager.Defs.{
  Dial, Manager, accept, accept_handler, connect_handler, get_session_id_from_service_name,
  is_session_already_present, manager_ops, start_communication_session_with_node,
}
use local_chat_xxx.Common.{
  [], ap, arith, drop, false, length, length-replicate, le→ltb, ltb, refl, some, sym, take, ℕ, ◌%◌,
  ◌++◌, ◌<◌, ◌^◌, ◌∙◌, ◌∷◌, ◌≡◌, ◌≤◌,
}
use local_chat_xxx.Manager.Handshake.{
  accepted_session, confirm_frame, confirm_taken, confirmed_session, dialled_session,
  greeted_session, hello_frame, hello_sent, hello_taken, hello_written, length-reply_frame,
  replied_session, reply_frame, reply_header, reply_name, reply_written,
}
use local_chat_xxx.Session.Defs.{
  Session, clear_read_buffer, is_null, new_session, read_frame, start_reading_frames, write,
  write_message_frame_callback,
}
use local_chat_xxx.Common.Bytes.{Bytes}
use local_chat_xxx.Session.Handlers.{Env, read_message_frame_callback}
use local_chat_xxx.Manager.Offers.{lookup-put_session}
use local_chat_xxx.Wire.Defs.{MessageHeader}
use local_chat_xxx.Session.Files.{IsReady}
use local_chat_xxx.Manager.Identity.{hello_back_establishes}
use local_chat_xxx.Common.Assoc.{bytes_eq, lookup, nat_eq}

-- The session on the accepting machine when the reply has come.
pub record IsGreeted (mine theirs : Env) (id : ℕ) (a : Manager) (name : Bytes) (s : Session)
    (m : Manager) : Type 0 where
  pub came :
      arrive manager_ops mine
        (reply_frame theirs name)
        (greeted_session mine id a.this_machine_name)
        (accept a)
      ≡ some (s, m)
  pub taken_as : s.service_name ≡ name
  pub ready : IsReady s
  pub by_name : get_session_id_from_service_name name m ≡ some id
  pub wrote :
      s.io
      ≡ write (hello_frame mine) ∷ read_frame 138 ∷ write (confirm_frame mine) ∷ read_frame 138 ∷ []

module _ (mine theirs : Env) (id : ℕ) (a : Manager) (name : Bytes)
    (stack : length theirs.stack ≡ 128) (stamp : theirs.now < 2 ^ 64) (short : length name ≤ 128)
    (fresh : is_session_already_present name a.sessions ≡ false) where
  holding : Session
  holding = record (greeted_session mine id a.this_machine_name) {
    read_buf = reply_frame theirs name;
  }

  no_null : (b : Bytes) → length b ≡ 138 → is_null b ≡ false
  unfolding is_null
  no_null [] e = absurd (omega arith)
  no_null (x ∷ xs) e = refl

  reply_taken : (s : Session) × (m : Manager) × IsGreeted mine theirs id a name s m
  unfolding holding new_session accept clear_read_buffer
  reply_taken =
      let size = length-reply_frame theirs name stack stamp short in
      let header = reply_header theirs name stack stamp short in
      let r =
        hello_back_establishes mine holding (accept a) name refl refl (no_null _ size)
          (no_null _ (length-replicate {A = ℕ} 138 0))
          (ap (λ (h : MessageHeader). h.msg_type) header)
          (ap (λ (h : MessageHeader). ltb 128 h.data_len) header
            ∙ le→ltb 128 (length name % 256) (omega (arith, short)))
          (ap (λ (h : MessageHeader). take h.data_len (drop 10 (reply_frame theirs name))) header
            ∙ reply_name theirs name stack stamp short)
          fresh in
      (
        clear_read_buffer r.0,
        r.1,
        record {
          came =
              arrive_frame manager_ops mine (reply_frame theirs name)
                (greeted_session mine id a.this_machine_name) (accept a)
                (ap (λ k. some (read_frame k)) (sym size)) refl (size ∙ refl)
              ∙ ap (λ k. read_message_frame_callback manager_ops mine false k holding (accept a))
                  size
              ∙ r.2;
          taken_as = r.3.named;
          ready = record {
            prepared = r.3.prepared;
            nothing_read = refl;
            room = length-replicate {A = ℕ} 138 0;
            waiting = ap last_io r.3.confirmed;
          };
          by_name = r.3.by_name;
          wrote = r.3.confirmed;
        },
      )

connected_session :
    (to : Dial) (d : Manager)
    → is_session_already_present to.node.service_name d.sessions ≡ false
    → lookup to.session_id (connect_handler false to d).sessions
      ≡ some
          (dialled_session to.session_id to.node.service_name d.this_machine_name d.current_node_id)
unfolding connect_handler start_communication_session_with_node start_reading_frames new_session
connected_session to d e = rw e (lookup-put_session to.session_id _ d.sessions)

-- A machine accepts a connection that another one has dialled, neither has a session with the
-- other, and the dialling machine has a name of at most 128 bytes. Three frames pass, each arriving
-- after the session that gets it has written what it had to: HELLO, the reply, the confirmation.
-- Then both sessions are established and wait for a frame. The accepting machine's is found under
-- the other's name, and the dialling machine's bears the name that was dialled.
pub handshake_establishes :
    (mine theirs : Env) (id : ℕ) (a d : Manager) (to : Dial)
    → is_session_already_present d.this_machine_name a.sessions ≡ false
    → is_session_already_present to.node.service_name d.sessions ≡ false
    → length d.this_machine_name ≤ 128
    → length theirs.stack ≡ 128
    → theirs.now < 2 ^ 64
    → let d' = connect_handler false to d in
      (sa sd sd' sa' sd'' : Session) × (a' : Manager) × (accept_handler mine false id a
        ≡ some (some sa, accept a))
      × (sa.io ≡ write (hello_frame mine) ∷ read_frame 138 ∷ [])
      × (lookup to.session_id d'.sessions ≡ some sd)
      × (arrive manager_ops theirs (hello_frame mine) sd d' ≡ some (sd', d'))
      × (sd'.io ≡ sd.io ++ (write (reply_frame theirs d.this_machine_name) ∷ read_frame 138 ∷ []))
      × (arrive manager_ops mine
            (reply_frame theirs d.this_machine_name)
            (write_message_frame_callback false 138 sa)
            (accept a)
          ≡ some (sa', a'))
      × (sa'.io ≡ sa.io ++ (write (confirm_frame mine) ∷ read_frame 138 ∷ []))
      × (arrive manager_ops theirs
            (confirm_frame mine)
            (write_message_frame_callback false 138 sd')
            d'
          ≡ some (sd'', d'))
      × IsReady sa'
      × (sa'.service_name ≡ d.this_machine_name)
      × (get_session_id_from_service_name d.this_machine_name a' ≡ some id)
      × IsReady sd''
      × (sd''.service_name ≡ to.node.service_name)
unfolding new_session
handshake_establishes mine theirs id a d to fresh fresh' short stack stamp =
    let peer = to.node.service_name in
    let name = d.this_machine_name in
    let d' = connect_handler false to d in
    let g = reply_taken mine theirs id a name stack stamp short fresh in
    (
      accepted_session mine id a.this_machine_name,
      dialled_session to.session_id peer name d.current_node_id,
      replied_session theirs to.session_id peer name d.current_node_id,
      g.0,
      confirmed_session theirs to.session_id peer name d.current_node_id,
      g.1,
      hello_sent mine id a,
      refl,
      connected_session to d fresh',
      hello_taken mine theirs to.session_id d.current_node_id peer name d',
      refl,
      ap (λ s. arrive manager_ops mine (reply_frame theirs name) s (accept a))
            (hello_written mine id a.this_machine_name)
          ∙ (g.2).came,
      (g.2).wrote,
      ap (λ s. arrive manager_ops theirs (confirm_frame mine) s d')
            (reply_written theirs to.session_id d.current_node_id peer name)
          ∙ confirm_taken mine theirs to.session_id d.current_node_id peer name d',
      (g.2).ready,
      (g.2).taken_as,
      (g.2).by_name,
      record { prepared = refl; nothing_read = refl; room = refl; waiting = refl },
      refl,
    )
