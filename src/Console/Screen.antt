-- ===== src/Console/Screen.antt =====
-- What the screens show: `Render` and the functions it calls, `PrintSessions` of the manager and
-- the lines of a chat log (include/BVTCPCommon.hpp).
use local_chat_xxx.Common.Bytes.{Bytes}
use local_chat_xxx.Console.Defs.{
  App, Item, ServiceInstance, chat_help, cleared, log_line, log_title, menu, no_messages,
  no_services, no_sessions, notification, offer_prompt, print, prompt, rule, service, session,
}
use local_chat_xxx.Common.{List, Option, [], drop, length, min, none, some, suc, ℕ, ◌++◌, ◌-◌, ◌∷◌}
use local_chat_xxx.Session.Defs.{Session}
use local_chat_xxx.Client.Defs.{PendingOffer, UiState, chat, file_offer_prompt, main_menu}
use local_chat_xxx.Common.Assoc.{bytes_eq, lookup, nat_eq}
use local_chat_xxx.Wire.Defs.{ChatMessage}

unfoldable pub service_items : List ServiceInstance → List Item
service_items [] = []
service_items (s ∷ v) = service s ∷ service_items v

unfoldable pub print_services : Bytes → List ServiceInstance → List Item
print_services hostname [] = no_services hostname ∷ []
print_services hostname (s ∷ v) = service_items (s ∷ v)

unfoldable pub session_items : ℕ → List (ℕ × Session) → List Item
session_items number [] = []
session_items number ((k, s) ∷ m) =
    session number s.service_name s.session_id s.node_id ∷ session_items (suc number) m

unfoldable pub print_sessions : List (ℕ × Session) → List Item
print_sessions [] = no_sessions ∷ []
print_sessions ((k, s) ∷ m) = session_items 1 ((k, s) ∷ m)

unfoldable pub notification_items : Bytes → List Item
notification_items [] = []
notification_items (b ∷ text) = rule ∷ notification (b ∷ text) ∷ []

unfoldable pub screen : App → List Item
screen a =
    (cleared ∷ menu ∷ [])
    ++ print_services a.hostname a.service_v
    ++ (rule ∷ [])
    ++ print_sessions (a.manager).sessions
    ++ notification_items (a.client).last_notification
    ++ (rule ∷ [])

unfoldable pub print_all : App → App
print_all a = print (screen a) a

unfoldable pub return_n_last_messages : ℕ → List ChatMessage → List ChatMessage
return_n_last_messages n log = drop (length log - min n (length log)) log

-- `time(&timestamp)` stores the time of the call over the time of the message.
unfoldable pub message_lines : ℕ → List ChatMessage → List Item
message_lines now [] = []
message_lines now (msg ∷ log) = log_line now (msg.sender) (msg.text_data) ∷ message_lines now log

unfoldable pub print_n_last_messages : ℕ → ℕ → List ChatMessage → List Item
print_n_last_messages now n log =
    (rule ∷ []) ++ message_lines now (return_n_last_messages n log) ++ (rule ∷ [])

abbrev pub ten_last_messages : ℕ
ten_last_messages = 10

unfoldable pub log_items : ℕ → Bytes → Option (List ChatMessage) → List Item
log_items now who none = no_messages who ∷ []
log_items now who (some log) = log_title who ∷ print_n_last_messages now ten_last_messages log

unfoldable pub chat_items : ℕ → App → List Item
chat_items now a =
    log_items now (a.client).active_chat_service
      (lookup (a.client).active_chat_service (a.client).chat_logs)
    ++ (chat_help ∷ prompt (a.client).input_line ∷ [])

unfoldable pub render_chat : ℕ → App → App
render_chat now a = print (chat_items now a) (print_all a)

unfoldable pub offer_items : Option PendingOffer → List Item
offer_items none = []
offer_items (some offer) = cleared ∷ offer_prompt offer ∷ []

unfoldable pub render_file_offer : App → App
render_file_offer a = print (offer_items (a.client).pending_offer) a

unfoldable pub render_in : UiState → ℕ → App → App
render_in main_menu now a = print_all a
render_in chat now a = render_chat now a
render_in file_offer_prompt now a = render_file_offer a

unfoldable pub render : ℕ → App → App
render now a = render_in (a.client).ui_state now a
