-- ===== src/Console/Typing.antt =====
-- What becomes of a line that is typed into a chat and entered.
use local_chat_xxx.Common.{
  List, [], ap, append-nil, append_assoc, arith, false, none, refl, some, sym, true, ℕ, ◌++◌, ◌∙◌,
  ◌∷◌, ◌≡◌,
}
use local_chat_xxx.Manager.Defs.{
  Manager, get_session_id_from_service_name, put_session, send_data_to_node, send_to,
}
use local_chat_xxx.Console.Keys.{
  Input, enter_line, handle_chat_key, is_print, key_on, key_press, on_key, quit_line, redraw_line,
  run, take_up, type_char,
}
use local_chat_xxx.Session.Defs.{Session, is_null, start, write, write_message_frame}
use local_chat_xxx.Client.Defs.{add_to_log, chat}
use local_chat_xxx.Console.Defs.{App, Item, Machine, line_break, print}
use local_chat_xxx.Wire.Defs.{ChatMessage, construct_chat_message_from_input, fill_message_frame}
use local_chat_xxx.Common.Bytes.{Bytes, bytes_beq}
use local_chat_xxx.Status.{ok}
use local_chat_xxx.Console.Lines.{
  after_file_command, log_own, send_chat_line, send_line_on, send_text,
}
use local_chat_xxx.Console.Screen.{print_all, render_chat}
use local_chat_xxx.Broker.Queue.{items}
use local_chat_xxx.Console.Loop.{keys, run_on}
use local_chat_xxx.Common.Assoc.{bytes_eq, lookup, nat_eq}
use local_chat_xxx.Common.Results.{◌>>=◌}

abbrev pub Printable : Bytes → Type 0
Printable [] = Unit
Printable (c ∷ cs) = (is_print c ≡ true) × Printable cs

-- The line is neither a command of the chat screen nor the command that sends a file.
pub record IsText (line : Bytes) : Type 0 where
  pub printable : Printable line
  pub filled : is_null line ≡ false
  pub no_quit : bytes_beq line quit_line ≡ false
  pub no_redraw : bytes_beq line redraw_line ≡ false
  pub no_file : after_file_command line ≡ none

-- The chat with `who` is on the screen, with this text in its line.
pub record IsChatting (who line : Bytes) (a : App) : Type 0 where
  pub shown : (a.client).ui_state ≡ chat
  pub peer : (a.client).active_chat_service ≡ who
  pub typed : (a.client).input_line ≡ line
  pub live : a.is_running ≡ true

-- After typing: more in the line, more on the screen.
abbrev pub with_line : Bytes → List Item → App → App
with_line line items a = record a { client = record (a.client) { input_line = line }; out = items }

-- The frame of the line, and the session that has started to write it.
abbrev pub line_frame : ℕ → Bytes → Session → Bytes
line_frame now line s = fill_message_frame (construct_chat_message_from_input now line) s.write_buf

abbrev pub wrote_line : ℕ → Bytes → Session → Session
wrote_line now line s =
    start (record s { total_bytes_written = 0; write_buf = line_frame now line s })
      (write (line_frame now line s))

module _ (env : Machine) where
  printable_key :
      (c : ℕ) (a : App)
      → is_print c ≡ true
      → (a.client).ui_state ≡ chat
      → take_up env (key_press c) a ≡ some (type_char c a)
  unfolding take_up on_key key_on handle_chat_key
  printable_key c a p u = ap (λ v. key_on v env c a) u ∙ ground arith

  typed_keys :
      (line : Bytes) (is : List Input) (a : App)
      → Printable line
      → (a.client).ui_state ≡ chat
      → a.is_running ≡ true
      → (o : List Item) × (run env (keys line ++ is) a
          ≡ run env is (with_line ((a.client).input_line ++ line) o a))
  unfolding type_char print
  typed_keys [] is a p u r =
      (a.out, ap (λ l. run env is (with_line l a.out a)) (sym (append-nil (a.client).input_line)))
  typed_keys (c ∷ cs) is a p u r =
      let rest = typed_keys cs is (type_char c a) p.1 u r in
      (
        rest.0,
        run_on env (key_press c) (keys cs ++ is) a _ (printable_key c a p.0 u) r
            ∙ rest.1
            ∙ ap (λ l. run env is (with_line l rest.0 a))
                (append_assoc (a.client).input_line (c ∷ []) cs),
      )

  entered_text :
      (who line : Bytes) (a : App)
      → IsText line
      → IsChatting who line a
      → take_up env (key_press 10) a ≡ (
          send_chat_line env who line (with_line [] (a.out ++ (line_break ∷ [])) a) >>= λ b.
          some (render_chat env.now b))
  unfolding take_up on_key key_on handle_chat_key enter_line print
  entered_text who line a t c =
      ap (λ v. key_on v env 10 a) c.shown
      ∙ ap (λ l. enter_line env l (with_line [] (a.out ++ (line_break ∷ [])) a)) c.typed
      ∙ rw (t.no_quit) (rw (t.filled) (rw (t.no_redraw) (rw (c.peer) refl)))

  module _ (who line : Bytes) (sid : ℕ) (s : Session) (a : App) (text : IsText line)
      (known : lookup who (a.manager).service_sessionid ≡ some sid)
      (found : lookup sid (a.manager).sessions ≡ some s) (open' : is_null s.write_buf ≡ false) where
    abbrev pub after_send : Manager
    after_send = record (a.manager) {
      sessions = put_session sid (wrote_line env.now line s) (a.manager).sessions;
    }

    sent_text :
        (items : List Item)
        → send_chat_line env who line (with_line [] items a)
          ≡ some (log_own env.now who line (ok, after_send) (with_line [] items a))
    unfolding send_chat_line send_line_on send_text get_session_id_from_service_name
        send_data_to_node send_to write_message_frame
    sent_text items = rw (text.no_file) (rw known (rw found (rw open' refl)))

    abbrev pub own_message : ChatMessage
    own_message = record { text_data = line; sender = a.hostname; timestamp = env.now }

    -- A line of printable bytes that is no command is typed into the empty line of an open chat and
    -- entered, and the peer has a session whose write buffer is there. The session starts to write
    -- the frame of the line, the line is added to the peer's log under this machine's name, the
    -- line is empty again, and nothing else of the client and the manager changes.
    pub typed_line_sent :
        IsChatting who [] a
        → (b : App) × (run env (keys line ++ (key_press 10 ∷ [])) a ≡ some b)
          × (b.manager ≡ after_send)
          × (b.client ≡ record (a.client) {
            input_line = [];
            chat_logs =
                add_to_log who own_message (lookup who (a.client).chat_logs) (a.client).chat_logs;
          })
    unfolding log_own render_chat print_all print run
    typed_line_sent c =
        let typed = typed_keys line (key_press 10 ∷ []) a text.printable c.shown c.live in
        (
          _,
          typed.1
              ∙ ap (λ l. run env (key_press 10 ∷ []) (with_line (l ++ line) typed.0 a)) c.typed
              ∙ run_on env (key_press 10) [] (with_line line typed.0 a) _
                  (entered_text who line (with_line line typed.0 a) text
                      (record { shown = c.shown; peer = c.peer; typed = refl; live = c.live })
                    ∙ ap (λ o. o >>= λ b. some (render_chat env.now b))
                        (sent_text (typed.0 ++ (line_break ∷ []))))
                  c.live,
          refl,
          refl,
        )
