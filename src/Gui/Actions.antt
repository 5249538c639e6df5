-- ===== src/Gui/Actions.antt =====
-- The end of a transfer, and what the user of the macOS client does: answering offers, sending text
-- and files, quitting (mac-gui/BVApp_GuiClient.hpp).
use local_chat_xxx.Common.{
  Bool, List, Option, [], false, if◌then◌else◌, none, some, true, ℕ, ◌++◌, ◌==◌, ◌∷◌,
}
use local_chat_xxx.Manager.Defs.{
  Manager, filename, get_session_id_from_service_name, initiate_file_transfer_with_session,
  respond_to_file_offer, send_data_to_node,
}
use local_chat_xxx.Console.Defs.{App, Machine, ServiceInstance, send_message, terminate_all}
use local_chat_xxx.Manager.Everyone.{current_outgoing_transfer_status}
use local_chat_xxx.Gui.Defs.{
  XferStatus, sending, FileOffer, Gui, GuiEvent, Mover, append_chat_entry, base, file_progress,
  gui_file_chunk_sent, gui_file_offer, gui_file_transfer_begin, gui_message_incoming,
  messages_changed, notify, saved, sent_file, services_changed, sessions_changed,
}
use local_chat_xxx.Console.Services.{
  Answer, ResolutionResult, handle_published_services, handle_resolved_services,
  handle_service_deregistration,
}
use local_chat_xxx.Session.Defs.{
  AppEvent, app_file_offer, app_file_transfer_begin, app_file_transfer_chunk_sent,
  app_file_transfer_end, app_message_incoming, is_null,
}
use local_chat_xxx.Received.Defs.{Disk, join_path, path_for}
use local_chat_xxx.Status.{Status, fatal_error}
use local_chat_xxx.Wire.Defs.{ChatMessage, FileData, construct_chat_message_from_input}
use local_chat_xxx.Common.Assoc.{bytes_eq, erase, insert, lookup, nat_eq}
use local_chat_xxx.Console.Lines.{log_own}
use local_chat_xxx.Common.Bytes.{Bytes}
use local_chat_xxx.Console.Lost.{names}
use local_chat_xxx.Client.Defs.{handle_file_transfer_end}
use local_chat_xxx.Common.Results.{◌>>=◌}

-- `p.parent_path()`: what stands before the last slash, or the root.
unfoldable pub parent_from : Bytes → Bytes → Bytes → Bytes
parent_from found acc [] = found
parent_from found acc (b ∷ bs) =
    if b == b'/'
    then parent_from (if is_null acc then b'/' ∷ [] else acc) (acc ++ (b ∷ [])) bs
    else parent_from found (acc ++ (b ∷ [])) bs

unfoldable pub parent_path : Bytes → Bytes
parent_path p = parent_from [] [] p

-- `rename`, or else `copy_file` and `remove`: the disk afterwards and where the file is. A file that
-- is not there can be neither renamed nor copied.
unfoldable pub move_found : Mover → Bytes → Bytes → Option Bytes → Disk → Disk × Bytes
move_found mv src dst none d = (d, src)
move_found mv src dst (some bytes) d =
    let copied = insert dst bytes d.files in
    if mv.can_rename src dst
    then (record d { files = insert dst bytes (erase src d.files) }, dst)
    else if mv.can_copy src dst
    then (record d { files = if mv.can_remove src then erase src copied else copied }, dst)
    else (d, src)

unfoldable pub move_file : Mover → Bytes → Bytes → Disk → Disk × Bytes
move_file mv src dst d = move_found mv src dst (lookup src d.files) d

-- Without a chosen directory the file stays where it is.
unfoldable pub move_saved : Mover → Bytes → Bytes → Bytes → Bytes → Disk → Disk × Bytes
move_saved mv root save_dir service fname d =
    let src = path_for root service fname in
    if is_null save_dir
    then (d, src)
    else move_file mv src (join_path (join_path save_dir service) fname) d

abbrev pub received_file : Bytes
received_file =
    0xF0 ∷ 0x9F ∷ 0x93 ∷ 0x8E ∷ b' ' ∷ b'R' ∷ b'e' ∷ b'c' ∷ b'e' ∷ b'i' ∷ b'v' ∷ b'e' ∷ b'd' ∷ b' '
    ∷ b'f' ∷ b'i' ∷ b'l' ∷ b'e' ∷ b':' ∷ b' ' ∷ []

abbrev pub sent_file_text : Bytes
sent_file_text =
    0xF0 ∷ 0x9F ∷ 0x93 ∷ 0x8E ∷ b' ' ∷ b'S' ∷ b'e' ∷ b'n' ∷ b't' ∷ b' ' ∷ b'f' ∷ b'i' ∷ b'l' ∷ b'e'
    ∷ b':' ∷ b' ' ∷ []

-- What is done for a transfer that was known, whatever the base handler answers.
unfoldable pub saved_to : Mover → Option (Bytes × Bytes) → Gui → Gui
saved_to mv none g = g
saved_to mv (some names) g =
    let c = (g.app).client in
    let moved = move_saved mv c.root g.save_dir names.0 names.1 c.disk in
    let g' : Gui = record g {
      app = record (g.app) { client = record c { disk = moved.0 } };
      xfer_status = saved names.1 (parent_path moved.1);
      xfer_received = 0;
      xfer_total = 0;
    } in
    append_chat_entry names.0 (received_file ++ names.1) names.0 g'

unfoldable pub gui_file_transfer_end : Mover → FileData → Gui → Gui × Status
gui_file_transfer_end mv fd g =
    let info = lookup fd.correlation_key ((g.app).client).file_transfer_data in
    let r = base (handle_file_transfer_end fd) g in
    (notify messages_changed (saved_to mv info r.0), r.1)

unfoldable pub gui_handle : Mover → AppEvent → Gui → Gui × Status
gui_handle mv (app_message_incoming msg) g = gui_message_incoming msg g
gui_handle mv (app_file_offer fd) g = gui_file_offer fd g
gui_handle mv (app_file_transfer_begin fd) g = gui_file_transfer_begin fd g
gui_handle mv (app_file_transfer_chunk_sent fd) g = gui_file_chunk_sent fd g
gui_handle mv (app_file_transfer_end fd) g = gui_file_transfer_end mv fd g

-- The handlers of services run on the program inside.
unfoldable pub base_app : App × Status → GuiEvent → Gui → Gui × Status
base_app (a, st) e g = (notify e (record g { app = a }), st)

unfoldable pub gui_published_services : List ServiceInstance → Gui → Gui × Status
gui_published_services services g =
    base_app (handle_published_services services g.app) services_changed g

unfoldable pub gui_resolved_services :
    (ResolutionResult → ℕ → Answer) → ResolutionResult → Gui → Option (Gui × Status)
gui_resolved_services resolver res g =
    handle_resolved_services resolver res g.app >>= λ r. some (base_app r sessions_changed g)

unfoldable pub gui_service_deregistration : List ServiceInstance → Gui → Gui × Status
gui_service_deregistration services g =
    base_app (handle_service_deregistration services g.app) services_changed g

unfoldable pub take_file_offers : Gui → List FileOffer × Gui
take_file_offers g = (g.pending_offers, record g { pending_offers = [] })

unfoldable pub respond : ℕ → ℕ → Bool → Option Bytes → Gui → Gui
respond now key verdict none g = g
respond now key verdict (some sender) g =
    let g' : Gui = record g { offer_senders = erase key g.offer_senders } in
    if is_null sender then g' else record g' {
      app = record (g.app) {
        manager = respond_to_file_offer now sender key verdict (g.app).manager;
      };
    }

unfoldable pub respond_to_offer : ℕ → ℕ → Bool → Gui → Gui
respond_to_offer now key verdict g = respond now key verdict (lookup key g.offer_senders) g

unfoldable pub accept_file : ℕ → ℕ → Gui → Gui
accept_file now key g = respond_to_offer now key true g

unfoldable pub reject_file : ℕ → ℕ → Gui → Gui
reject_file now key g = respond_to_offer now key false g

-- A fatal answer of the manager ends it without a log entry and without a notification.
unfoldable pub text_sent : ℕ → Bytes → Bytes → Status × Manager → Gui → Gui
text_sent now service text (fatal_error, m) g = record g { app = record (g.app) { manager = m } }
text_sent now service text (st, m) g =
    notify messages_changed (record g { app = log_own now service text (st, m) g.app })

unfoldable pub send_text_on : ℕ → Bytes → Bytes → Option ℕ → Gui → Option Gui
send_text_on now service text none g = some g
send_text_on now service text (some sid) g =
    send_data_to_node (construct_chat_message_from_input now text) sid (g.app).manager >>= λ r.
    some (text_sent now service text r g)

unfoldable pub gui_send_text : ℕ → Bytes → Bytes → Gui → Option Gui
gui_send_text now service text g =
    send_text_on now service text (get_session_id_from_service_name service (g.app).manager) g

unfoldable pub send_file_on : Machine → Bytes → Bytes → Option ℕ → Gui → Option Gui
send_file_on env service path none g = some g
send_file_on env service path (some sid) g =
    initiate_file_transfer_with_session env.now sid (env.file_size path) path (g.app).manager
    >>= λ m.
        let name = filename path in
        let g' : Gui = record g { app = record (g.app) { manager = m } } in
        some (
          notify file_progress (
            notify messages_changed
              (record (append_chat_entry service (sent_file_text ++ name) (g.app).hostname g') {
                xfer_status = sent_file name;
              })))

-- The Boolean is what the caller gets.
unfoldable pub gui_send_file : Machine → Bytes → Bytes → Gui → Option (Bool × Gui)
gui_send_file env service path g =
    let posted =
      send_file_on env service path (get_session_id_from_service_name service (g.app).manager) g in
    if env.is_regular_file path then (posted >>= λ g'. some (true, g')) else some (false, g)

-- `TransferStatus`: a transfer that goes out comes first.
unfoldable pub status_line : Option (Bytes × ℕ) → XferStatus → XferStatus
status_line none status = status
status_line (some outgoing) status = sending outgoing.0 outgoing.1

-- With the name, the bytes sent and the size that the worker has last noted.
unfoldable pub transfer_status : Bytes → ℕ → ℕ → Gui → XferStatus
transfer_status name sent_bytes total g =
    status_line (current_outgoing_transfer_status name sent_bytes total) g.xfer_status

unfoldable pub set_save_directory : Bytes → Gui → Gui
set_save_directory dir g = record g { save_dir = dir }

unfoldable pub shutdown : Gui → Gui
shutdown g = record g { app = record (send_message terminate_all g.app) { is_running = false } }

unfoldable pub messages_for : Bytes → Gui → List ChatMessage
messages_for service g = logged (lookup service ((g.app).client).chat_logs)
  where
    logged : Option (List ChatMessage) → List ChatMessage
    logged none = []
    logged (some log) = log
