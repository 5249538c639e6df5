-- ===== src/Console/Arrives.antt =====
-- A line typed on one machine, up to the log of the other.
use local_chat_xxx.Client.Defs.{
  Client, add_to_log, checked, handle, handle_message_incoming, listen_to_mail, show_message,
}
use local_chat_xxx.Manager.Defs.{Manager, manager_ops, put_message_into_app_mailbox}
use local_chat_xxx.Common.{
  [], ap, arith, false, get_or, length, length-replicate, refl, some, sym, take_all, ℕ, ◌++◌, ◌<◌,
  ◌^◌, ◌∙◌, ◌∷◌, ◌≡◌, ◌≤◌,
}
use local_chat_xxx.Wire.Defs.{ChatMessage, construct_chat_message_from_input, fill_message_frame}
use local_chat_xxx.Session.Defs.{
  Session, app_message_incoming, clear_read_buffer, is_null, read_frame, start_reading_frames,
  write,
}
use local_chat_xxx.Session.Arrival.{arrive, arrive_frame, last_io-snoc}
use local_chat_xxx.Console.Typing.{IsChatting, IsText, line_frame, typed_line_sent, wrote_line}
use local_chat_xxx.Common.Bytes.{Bytes, length-write_at, store}
use local_chat_xxx.Common.Assoc.{bytes_eq, lookup, nat_eq}
use local_chat_xxx.Console.Defs.{App, Machine}
use local_chat_xxx.Session.Handlers.{Env, read_message_frame_callback}
use local_chat_xxx.Session.Files.{IsReady}
use local_chat_xxx.Console.Keys.{key_press, run}
use local_chat_xxx.Session.Chat.{chat_delivered, is_file_control}
use local_chat_xxx.Manager.Offers.{lookup-put_session}
use local_chat_xxx.Status.{is_ok}
use local_chat_xxx.Console.Loop.{keys}

length-line_frame :
    (now : ℕ) (line : Bytes) (s : Session) → length (line_frame now line s) ≡ length s.write_buf
unfolding fill_message_frame
length-line_frame now line s =
    let h = (construct_chat_message_from_input now line).header in
    length-write_at 10 (construct_chat_message_from_input now line).payload _
    ∙ length-write_at 9 (store 1 h.msg_type) _
    ∙ length-write_at 1 (store 8 h.timestamp) _
    ∙ length-write_at 0 (store 1 h.data_len) s.write_buf

abbrev pub line_message : ℕ → Bytes → Session → ChatMessage
line_message now line t = record { text_data = line; sender = t.service_name; timestamp = now }

module _ (env : Machine) (there : Env) (line : Bytes) (s t : Session) (w : Manager)
    (ready : IsReady t) (size : length s.write_buf ≡ 138) (stamp : env.now < 2 ^ 64)
    (short : length line ≤ 128) (plain : is_file_control (get_or line 2 0) ≡ false) where
  frame_arrives :
      (t' : Session) × (arrive manager_ops there (line_frame env.now line s) t w
        ≡ some (
          t',
          put_message_into_app_mailbox (app_message_incoming (line_message env.now line t)) w,
        ))
      × IsReady t'
  unfolding clear_read_buffer start_reading_frames
  frame_arrives =
      let f = line_frame env.now line s in
      let sized = length-line_frame env.now line s ∙ size in
      (
        _,
        arrive_frame manager_ops there f t w
              (ready.waiting ∙ ap (λ k. some (read_frame k)) (sym sized)) ready.nothing_read
              (sized ∙ sym ready.room)
            ∙ ap
                (λ k.
                  read_message_frame_callback manager_ops there false k (record t { read_buf = f })
                    w)
                sized
            ∙ chat_delivered manager_ops there (record t { read_buf = f }) w env.now line
                s.write_buf size stamp
                (record {
                  is_established = ready.prepared;
                  buffered = refl;
                  counted = ready.nothing_read;
                })
                plain
            ∙ ap
                (λ x. some (
                  clear_read_buffer
                      (start_reading_frames (record t { read_buf = f; total_bytes_read = 0 })),
                  put_message_into_app_mailbox
                      (app_message_incoming
                        (record { text_data = x; sender = t.service_name; timestamp = env.now }))
                      w,
                ))
                (take_all 128 line short),
        record {
          prepared = ready.prepared;
          nothing_read = refl;
          room = length-replicate {A = ℕ} 138 0;
          waiting = last_io-snoc t.io (read_frame 138);
        },
      )

-- Two machines have an established session with each other, the writer's buffer of the frame size,
-- the reader's waiting for a frame, and the writer has the chat open with an empty line. A text of
-- printable bytes that is no command, of at most 128 bytes, whose third byte is no file type, is
-- typed and entered. The writer's session then writes one frame, and when this frame arrives at the
-- reader, its client gets the text with the reader's name for the writer and the time of sending,
-- adds it to the log under this name, and the reader's session waits for the next frame.
pub typed_line_arrives :
    (env : Machine) (there : Env) (who line : Bytes) (sid : ℕ) (s t : Session) (a : App)
    (w : Manager) (c : Client)
    → IsText line
    → IsChatting who [] a
    → lookup who (a.manager).service_sessionid ≡ some sid
    → lookup sid (a.manager).sessions ≡ some s
    → length s.write_buf ≡ 138
    → IsReady t
    → env.now < 2 ^ 64
    → length line ≤ 128
    → is_file_control (get_or line 2 0) ≡ false
    → (b : App) × (s' : Session) × (f : Bytes) × (t' : Session) × (run env
          (keys line ++ (key_press 10 ∷ []))
          a
        ≡ some b)
      × (lookup sid (b.manager).sessions ≡ some s')
      × (s'.io ≡ s.io ++ (write f ∷ []))
      × (arrive manager_ops there f t w
          ≡ some (
            t',
            put_message_into_app_mailbox (app_message_incoming (line_message env.now line t)) w,
          ))
      × IsReady t'
      × (listen_to_mail (app_message_incoming (line_message env.now line t) ∷ []) c
          ≡ some (record c {
            chat_logs =
                add_to_log t.service_name
                  (line_message env.now line t)
                  (lookup t.service_name c.chat_logs)
                  c.chat_logs;
            posted = c.posted ++ (show_message t.service_name line ∷ []);
          }))
unfolding listen_to_mail handle handle_message_incoming checked is_null is_ok
typed_line_arrives env there who line sid s t a w c text chatting known found size ready stamp short
      plain =
    let sent =
      typed_line_sent env who line sid s a text known found (not_null s.write_buf size) chatting in
    let there' = frame_arrives env there line s t w ready size stamp short plain in
    (
      sent.0,
      wrote_line env.now line s,
      line_frame env.now line s,
      there'.0,
      sent.1,
      ap (λ (m : Manager). lookup sid m.sessions) sent.2
          ∙ lookup-put_session sid (wrote_line env.now line s) (a.manager).sessions,
      refl,
      there'.1,
      there'.2,
      refl,
    )
  where
    not_null : (b : Bytes) → length b ≡ 138 → is_null b ≡ false
    not_null [] e = absurd (omega arith)
    not_null (x ∷ xs) e = refl
