-- ===== src/Console/Lines.antt =====
-- A typed line: the path that `|f ` names, and sending the line (`SendChatLine`).
use local_chat_xxx.Manager.Defs.{
  Manager, get_session_id_from_service_name, initiate_file_transfer_with_session, send_data_to_node,
}
use local_chat_xxx.Common.Bytes.{Bytes}
use local_chat_xxx.Common.{Bool, Option, [], if◌then◌else◌, none, some, ℕ, ◌&&◌, ◌==◌, ◌||◌, ◌∷◌}
use local_chat_xxx.Status.{Status, fatal_error}
use local_chat_xxx.Console.Defs.{App, Machine}
use local_chat_xxx.Common.Assoc.{bytes_eq, lookup, nat_eq}
use local_chat_xxx.Wire.Defs.{construct_chat_message_from_input}
use local_chat_xxx.Client.Defs.{add_to_log}
use local_chat_xxx.Common.Results.{◌>>=◌}

abbrev pub is_space : ℕ → Bool
is_space b = b == b' ' || b == 9

-- The first loop: spaces and tabs in front.
unfoldable pub trim_front : Bytes → Bytes
trim_front [] = []
trim_front (b ∷ bs) = if is_space b then trim_front bs else b ∷ bs

unfoldable pub push_unless_blank : ℕ → Bytes → Bytes
push_unless_blank b [] = if is_space b then [] else b ∷ []
push_unless_blank b (c ∷ cs) = b ∷ (c ∷ cs)

-- The second loop: spaces and tabs at the back.
unfoldable pub trim_back : Bytes → Bytes
trim_back [] = []
trim_back (b ∷ bs) = push_unless_blank b (trim_back bs)

unfoldable pub pop_back : Bytes → Bytes
pop_back [] = []
pop_back (b ∷ []) = []
pop_back (b ∷ (c ∷ cs)) = b ∷ pop_back (c ∷ cs)

unfoldable pub back : ℕ → Bytes → ℕ
back b [] = b
back b (c ∷ cs) = back c cs

-- A pair of equal quotes around a text of at least two bytes.
unfoldable pub strip_quotes : Bytes → Bytes
strip_quotes [] = []
strip_quotes (b ∷ []) = b ∷ []
strip_quotes (b ∷ (c ∷ cs)) =
    if (b == 39 && back c cs == 39) || (b == 34 && back c cs == 34)
    then pop_back (c ∷ cs)
    else b ∷ (c ∷ cs)

-- A backslash in front of a space is dropped.
unfoldable pub unescape : Bytes → Bytes
unescape [] = []
unescape (b ∷ []) = b ∷ []
unescape (b ∷ (c ∷ cs)) =
    let rest = unescape (c ∷ cs) in if b == 92 && c == b' ' then rest else b ∷ rest

unfoldable pub path_argument : Bytes → Bytes
path_argument arg = unescape (strip_quotes (trim_back (trim_front arg)))

-- `line.rfind("|f ", 0) == 0`, with what follows.
unfoldable pub after_file_command : Bytes → Option Bytes
after_file_command (b ∷ (c ∷ (d ∷ arg))) =
    if b == b'|' && (c == b'f' && d == b' ') then some arg else none
after_file_command line = none

-- A path that is no regular file is only logged.
unfoldable pub send_file : Machine → ℕ → Bytes → App → Option App
send_file env sid path a =
    if env.is_regular_file path
    then (initiate_file_transfer_with_session env.now sid (env.file_size path) path a.manager
        >>= λ m. some (record a { manager = m }))
    else some a

-- The sender's own log; a fatal answer leaves it alone.
unfoldable pub log_own : ℕ → Bytes → Bytes → Status × Manager → App → App
log_own now who line (fatal_error, m) a = record a { manager = m }
log_own now who line (st, m) a = record a {
  manager = m;
  client = record (a.client) {
    chat_logs =
        add_to_log who (record { text_data = line; sender = a.hostname; timestamp = now })
          (lookup who (a.client).chat_logs) (a.client).chat_logs;
  };
}

unfoldable pub send_text : ℕ → Bytes → ℕ → Bytes → App → Option App
send_text now who sid line a =
    send_data_to_node (construct_chat_message_from_input now line) sid a.manager >>= λ r.
    some (log_own now who line r a)

unfoldable pub send_line_on : Machine → Bytes → Bytes → Option Bytes → Option ℕ → App → Option App
send_line_on env who line path none a = some a
send_line_on env who line none (some sid) a = send_text env.now who sid line a
send_line_on env who line (some arg) (some sid) a = send_file env sid (path_argument arg) a

unfoldable pub send_chat_line : Machine → Bytes → Bytes → App → Option App
send_chat_line env who line a =
    send_line_on env who line (after_file_command line)
      (get_session_id_from_service_name who a.manager) a
