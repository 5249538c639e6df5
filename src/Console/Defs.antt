-- ===== src/Console/Defs.antt =====
-- The state of the console program around the client: the manager, the discovered services, what
-- it sends to other components and what it prints (src/BVApp_ConsoleClient.cpp, include/BVApp.hpp).
use local_chat_xxx.Client.Defs.{Client, PendingOffer, UiState}
use local_chat_xxx.Broker.Queue.{items}
use local_chat_xxx.Common.Bytes.{Bytes, bytes_beq}
use local_chat_xxx.Common.{Bool, List, [], ℕ, ◌&&◌, ◌++◌, ◌∷◌}
use local_chat_xxx.Manager.Defs.{Manager}

-- `BVServiceBrowseInstance`.
pub record ServiceInstance : Type 0 where
  pub service_name : Bytes
  pub reg_type : Bytes
  pub reply_domain : Bytes

unfoldable pub same_service : ServiceInstance → ServiceInstance → Bool
same_service a b =
    bytes_beq a.service_name b.service_name
    && (bytes_beq a.reg_type b.reg_type && bytes_beq a.reply_domain b.reply_domain)

-- The messages that the program sends through the broker.
pub data Request : Type 0 where
  discovery_request_pause discovery_request_resume terminate_all : Request
  discovery_request_resolve : ServiceInstance → Request

-- What is printed. The fixed text of the menu is one item; a session is shown with its menu
-- number, its name, its id and its node; a line of a log with the time that goes to `ctime`.
pub data Item : Type 0 where
  cleared menu no_sessions rule line_break chat_help rubbed_out : Item
  no_services : Bytes → Item
  service : ServiceInstance → Item
  session : ℕ → Bytes → ℕ → ℕ → Item
  notification : Bytes → Item
  log_title : Bytes → Item
  log_line : ℕ → Bytes → Bytes → Item
  no_messages : Bytes → Item
  prompt : Bytes → Item
  offer_prompt : PendingOffer → Item
  offer_accepted : Bytes → Item
  offer_rejected : Bytes → Item
  echo : ℕ → Item

-- What the program asks the machine: the clock and the files it may send.
pub record Machine : Type 0 where
  pub now : ℕ
  pub is_regular_file : Bytes → Bool
  pub file_size : Bytes → ℕ

pub record App : Type 0 where
  pub client : Client
  pub manager : Manager
  pub hostname : Bytes
  pub service_v : List ServiceInstance
  pub sent : List Request
  pub is_running : Bool
  pub out : List Item

unfoldable pub print : List Item → App → App
print items a = record a { out = a.out ++ items }

unfoldable pub send_message : Request → App → App
send_message r a = record a { sent = a.sent ++ (r ∷ []) }

unfoldable pub with_ui : UiState → App → App
with_ui u a = record a { client = record (a.client) { ui_state = u } }
