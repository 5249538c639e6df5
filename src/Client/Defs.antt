-- ===== src/Client/Defs.antt =====
-- The state of the console client, and what it does with the messages in its mailbox. Drawing on
-- the terminal is left out; what is posted to the event loop is a list of tasks.
use local_chat_xxx.Common.{
  ℕ, ◌+◌, ◌%◌, ◌^◌, if◌then◌else◌, ◌==◌, List, [], ◌∷◌, ◌++◌, Option, none, some, length,
}
use local_chat_xxx.Common.Results.{◌>>=◌}
use local_chat_xxx.Common.Bytes.{Bytes}
use local_chat_xxx.Common.Assoc.{lookup, insert, erase, nat_eq, bytes_eq}
use local_chat_xxx.Status.{Status, ok, fatal_error, is_ok}
use local_chat_xxx.Wire.Defs.{ChatMessage, FileData, until_nul}
use local_chat_xxx.Session.Defs.{
  AppEvent, app_message_incoming, app_file_offer, app_file_transfer_begin,
  app_file_transfer_chunk_sent, app_file_transfer_end,
}
use local_chat_xxx.Received.Defs.{Disk, begin, append_chunk, finish}

pub data UiState : Type 0 where
  main_menu chat file_offer_prompt : UiState

pub record PendingOffer : Type 0 where
  pub key : ℕ
  pub sender : Bytes
  pub fname : Bytes
  pub size : ℕ

-- What a handler posts to the event loop.
pub data Task : Type 0 where
  show_message : Bytes → Bytes → Task
  show_offer : PendingOffer → Task

pub record Client : Type 0 where
  pub root : Bytes
  pub disk : Disk
  pub file_transfer_data : List (ℕ × (Bytes × Bytes))
  pub recv_bytes : ℕ
  pub chat_logs : List (Bytes × List ChatMessage)
  pub posted : List Task
  pub ui_state : UiState
  pub prior_ui_state : UiState
  pub active_chat_service : Bytes
  pub input_line : Bytes
  pub last_notification : Bytes
  pub pending_offer : Option PendingOffer

-- `s.substr(0, s.find('|'))`: all of it without a bar.
unfoldable pub before_bar : Bytes → Bytes
before_bar [] = []
before_bar (b ∷ bs) = if b == b'|' then [] else b ∷ before_bar bs

unfoldable pub after_first_bar : Bytes → Option Bytes
after_first_bar [] = none
after_first_bar (b ∷ bs) = if b == b'|' then some bs else after_first_bar bs

-- `s.substr(s.find('|') + 1)`: `npos + 1` is 0, so all of it without a bar.
unfoldable pub or_all : Option Bytes → Bytes → Bytes
or_all none s = s
or_all (some r) s = r

unfoldable pub after_bar : Bytes → Bytes
after_bar s = or_all (after_first_bar s) s

unfoldable pub add_to_log :
    Bytes
    → ChatMessage
    → Option (List ChatMessage)
    → List (Bytes × List ChatMessage)
    → List (Bytes × List ChatMessage)
add_to_log who msg none logs = insert who (msg ∷ []) logs
add_to_log who msg (some log) logs = insert who (log ++ (msg ∷ [])) logs

unfoldable pub handle_message_incoming : ChatMessage → Client → Client × Status
handle_message_incoming msg c = (
  record c {
    chat_logs = add_to_log (msg.sender) msg (lookup (msg.sender) c.chat_logs) c.chat_logs;
    posted = c.posted ++ (show_message (msg.sender) (msg.text_data) ∷ []);
  },
  ok,
)

unfoldable pub handle_file_offer : FileData → Client → Client × Status
handle_file_offer res c =
    let meta = until_nul res.fdata in
    let offer : PendingOffer = record {
      key = res.correlation_key;
      sender = before_bar meta;
      fname = or_all (after_first_bar meta) [];
      size = res.fsize;
    } in
    (record c { posted = c.posted ++ (show_offer offer ∷ []) }, ok)

unfoldable pub register_transfer : ℕ → Bytes → Bytes → Disk × Status → Client → Client × Status
register_transfer key service fname (d, ok) c = (
  record c {
    disk = d;
    file_transfer_data = insert key (service, fname) c.file_transfer_data;
    recv_bytes = 0;
  },
  ok,
)
register_transfer key service fname (d, st) c = (record c { disk = d }, st)

unfoldable pub handle_file_transfer_begin : FileData → Client → Client × Status
handle_file_transfer_begin res c =
    let service = before_bar res.fdata in
    let fname = after_bar res.fdata in
    register_transfer res.correlation_key service fname (begin c.root service fname c.disk) c

unfoldable pub count_chunk : ℕ → Disk × Status → Client → Client × Status
count_chunk n (d, ok) c = (record c { disk = d; recv_bytes = (c.recv_bytes + n) % 2 ^ 64 }, ok)
count_chunk n (d, st) c = (record c { disk = d }, st)

-- A key that was not announced is fatal.
unfoldable pub chunk_for : Option (Bytes × Bytes) → FileData → Client → Client × Status
chunk_for none res c = (c, fatal_error)
chunk_for (some names) res c =
    count_chunk (length res.fdata) (append_chunk c.root names.0 names.1 res.fdata c.disk) c

unfoldable pub handle_file_chunk_sent : FileData → Client → Client × Status
handle_file_chunk_sent res c = chunk_for (lookup res.correlation_key c.file_transfer_data) res c

unfoldable pub forget_transfer : ℕ → Disk × Status → Client → Client × Status
forget_transfer key (d, ok) c =
    (record c { disk = d; file_transfer_data = erase key c.file_transfer_data }, ok)
forget_transfer key (d, st) c = (record c { disk = d }, st)

unfoldable pub end_for : Option (Bytes × Bytes) → FileData → Client → Client × Status
end_for none res c = (c, fatal_error)
end_for (some names) res c =
    forget_transfer res.correlation_key (finish c.root names.0 names.1 res.fdata res.fsize c.disk) c

unfoldable pub handle_file_transfer_end : FileData → Client → Client × Status
handle_file_transfer_end res c = end_for (lookup res.correlation_key c.file_transfer_data) res c

unfoldable pub handle : AppEvent → Client → Client × Status
handle (app_message_incoming msg) c = handle_message_incoming msg c
handle (app_file_offer res) c = handle_file_offer res c
handle (app_file_transfer_begin res) c = handle_file_transfer_begin res c
handle (app_file_transfer_chunk_sent res) c = handle_file_chunk_sent res c
handle (app_file_transfer_end res) c = handle_file_transfer_end res c

-- One round of `ListenToMail`: a handler that does not answer OK throws, which ends the thread.
unfoldable pub checked : Client × Status → Option Client
checked (c, st) = if is_ok st then some c else none

unfoldable pub listen_to_mail : List AppEvent → Client → Option Client
listen_to_mail [] c = some c
listen_to_mail (e ∷ es) c = checked (handle e c) >>= listen_to_mail es
