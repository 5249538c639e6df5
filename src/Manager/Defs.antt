-- ===== src/Manager/Defs.antt =====
-- The state of the connection manager and its operations. A `BVNode` is its id and its service
-- name; addresses, resolution and sockets stay outside. `none` is an exception or a failed
-- assertion.
use local_chat_xxx.Common.{
  ℕ, ◌+◌, ◌%◌, ◌^◌, Bool, true, false, if◌then◌else◌, ltb, ◌==◌, List, [], ◌∷◌, ◌++◌, Option, none,
  some, replicate,
}
use local_chat_xxx.Common.Results.{◌>>=◌}
use local_chat_xxx.Common.Bytes.{Bytes, bytes_beq}
use local_chat_xxx.Common.Assoc.{lookup, insert, erase, nat_eq, bytes_eq}
use local_chat_xxx.Transfer.Defs.{Transfer, new_transfer}
use local_chat_xxx.Status.{Status, ok, nok, fatal_error}
use local_chat_xxx.Wire.Defs.{
  Message, payload_size_bytes, hello, confirm_established, file_accept, file_reject,
  construct_message, construct_message_header,
}
use local_chat_xxx.Session.Defs.{
  Session, AppEvent, established, ingoing, outgoing, new_session, close, start_reading_frames,
  write_message_frame,
}
use local_chat_xxx.Session.Handlers.{Env, ManagerOps}
use local_chat_xxx.Session.Control.{send_file_offer, send_file_control}

pub record Node : Type 0 where
  pub id : ℕ
  pub service_name : Bytes

-- The session data of a connection that is being made.
pub record Dial : Type 0 where
  pub session_id : ℕ
  pub node : Node

-- What the disk says of a path when it is asked: `file_size` throws, the file has a size but cannot
-- be opened for reading, or it can.
pub data FileState : Type 0 where
  missing unreadable : FileState
  readable : Bytes → FileState

-- `BVFileTransferContext` of a session and a path, with its worker when one was launched.
pub record TransferContext : Type 0 where
  pub session_id : ℕ
  pub path : Bytes
  pub worker : Option Transfer

-- `files` is the machine's disk, which others change. `dialing` and `accepting` are the asynchronous
-- connects and accepts under way, and `transfers` the transfer contexts by key. `out_mailboxes` tells
-- which node ids hold a mailbox; the static locals of the source are `current_node_id` and `next_ftcid`.
pub record Manager : Type 0 where
  pub this_machine_name : Bytes
  pub current_session_id : ℕ
  pub sessions : List (ℕ × Session)
  pub service_sessionid : List (Bytes × ℕ)
  pub nodes : List (Bytes × Node)
  pub out_mailboxes : List Bool
  pub current_node_id : ℕ
  pub dialing : List Dial
  pub accepting : List ℕ
  pub pending_outgoing : List (ℕ × (ℕ × Bytes))
  pub next_ftcid : ℕ
  pub transfers : List (ℕ × TransferContext)
  pub files : Bytes → FileState
  pub app_inbox : List AppEvent

unfoldable pub new_manager : Bytes → Manager
new_manager name = record {
  this_machine_name = name;
  current_session_id = 0;
  sessions = [];
  service_sessionid = [];
  nodes = [];
  out_mailboxes = replicate 255 false;
  current_node_id = 0;
  dialing = [];
  accepting = [];
  pending_outgoing = [];
  next_ftcid = 0;
  transfers = [];
  files = λ p. missing;
  app_inbox = [];
}

-- `sessions_m[id] = s`; the map is ordered by id.
unfoldable pub put_session : ℕ → Session → List (ℕ × Session) → List (ℕ × Session)
put_session k s [] = (k, s) ∷ []
put_session k s ((j, t) ∷ m) =
    if ltb k j
    then (k, s) ∷ ((j, t) ∷ m)
    else if j == k
    then (k, s) ∷ m
    else (j, t) ∷ put_session k s m

-- `<` of `std::string`.
unfoldable pub name_less : Bytes → Bytes → Bool
name_less [] [] = false
name_less [] (b ∷ bs) = true
name_less (a ∷ as') [] = false
name_less (a ∷ as') (b ∷ bs) = if ltb a b then true else if ltb b a then false else name_less as' bs

unfoldable pub is_session_already_present : Bytes → List (ℕ × Session) → Bool
is_session_already_present name [] = false
is_session_already_present name ((k, s) ∷ m) =
    if bytes_beq s.service_name name then true else is_session_already_present name m

unfoldable pub has_empty : List Bool → Bool
has_empty [] = false
has_empty (b ∷ bs) = if b then has_empty bs else true

-- The status, the node id given out, and the manager after it.
unfoldable pub start_communication_session_with_node : Manager → Status × ℕ × Manager
start_communication_session_with_node m = (
  (if has_empty m.out_mailboxes then ok else nok),
  m.current_node_id,
  record m { current_node_id = m.current_node_id % 255 + 1 },
)

unfoldable pub add_dial : Status → Dial → Manager → Status × Manager
add_dial nok d m = (nok, m)
add_dial st d m = (ok, record m { dialing = m.dialing ++ (d ∷ []) })

unfoldable pub initiate_session_with_node : Node → Manager → Status × Manager
initiate_session_with_node node m =
    let r =
      start_communication_session_with_node
        (record m { current_session_id = (m.current_session_id + 1) % 2 ^ 16 }) in
    let d : Dial = record { session_id = m.current_session_id; node = record node { id = r.1 } } in
    if name_less m.this_machine_name node.service_name
    then (if is_session_already_present node.service_name m.sessions
        then (ok, m)
        else add_dial r.0 d r.2)
    else (ok, m)

-- A connect ends, with an error or not. Its session takes the place of an older one of the same id.
unfoldable pub connect_handler : Bool → Dial → Manager → Manager
connect_handler error d m =
    let r = start_communication_session_with_node m in
    let name = d.node.service_name in
    let s =
      start_reading_frames
        (record (new_session d.session_id name m.this_machine_name outgoing) { node_id = r.1 }) in
    if error then m else if is_session_already_present name m.sessions then m else record (r.2) {
      sessions = put_session d.session_id s m.sessions;
      service_sessionid = insert name d.session_id m.service_sessionid;
    }

unfoldable pub accept : Manager → Manager
accept m = record m {
  current_session_id = (m.current_session_id + 1) % 2 ^ 16;
  accepting = m.accepting ++ (m.current_session_id ∷ []);
}

unfoldable pub control_message : Env → ℕ → Message
control_message env msg_type =
    construct_message (construct_message_header env.unset env.now msg_type)
      (replicate payload_size_bytes 0)

-- An accept ends: the session asks the peer to identify itself, is in no map yet, and the next
-- accept starts.
unfoldable pub accept_handler : Env → Bool → ℕ → Manager → Option (Option Session × Manager)
accept_handler env error id m =
    let s = new_session id [] m.this_machine_name ingoing in
    if error
    then some (none, m)
    else (write_message_frame (control_message env hello) s >>= λ s'.
        some (some (start_reading_frames s'), accept m))

-- `nodesM.emplace` keeps what is there.
unfoldable pub add_node : Option Node → Bytes → Node → Manager → Manager
add_node (some n) name node m = m
add_node none name node m = record m { nodes = insert name node m.nodes }

unfoldable pub add_node_to_nodes : Bytes → Node → Manager → Manager
add_node_to_nodes name node m = add_node (lookup name m.nodes) name node m

-- The caller and its entry in the map are one object.
unfoldable pub handle_session_identification :
    Env → Bytes → Session → Manager → Option (Session × Manager)
handle_session_identification env name s m =
    let r = start_communication_session_with_node m in
    let s₁ : Session = record s { state = established; node_id = r.1; service_name = name } in
    let m₁ =
      add_node_to_nodes name (record { id = r.1; service_name = name })
        (record (r.2) { service_sessionid = insert name s.session_id m.service_sessionid }) in
    if is_session_already_present name m.sessions
    then some (close s, m)
    else (write_message_frame (control_message env confirm_established) s₁ >>= λ s₂.
        let s₃ = start_reading_frames s₂ in
        some (s₃, record m₁ { sessions = put_session s.session_id s₃ m.sessions }))

unfoldable pub remove_found : Bytes → ℕ → Option Session → Manager → Status × Manager
remove_found name sid none m =
    (nok, record m { service_sessionid = erase name m.service_sessionid })
remove_found name sid (some s) m = (
  ok,
  record m { sessions = erase sid m.sessions; service_sessionid = erase name m.service_sessionid },
)

unfoldable pub remove_mapped : Bytes → Option ℕ → Manager → Status × Manager
remove_mapped name none m = (nok, m)
remove_mapped name (some sid) m = remove_found name sid (lookup sid m.sessions) m

unfoldable pub remove_session : Bytes → Manager → Status × Manager
remove_session name m = remove_mapped name (lookup name m.service_sessionid) m

unfoldable pub get_session_id_from_service_name : Bytes → Manager → Option ℕ
get_session_id_from_service_name name m = lookup name m.service_sessionid

unfoldable pub names_of : List (ℕ × Session) → List Bytes
names_of [] = []
names_of ((k, s) ∷ m) = s.service_name ∷ names_of m

unfoldable pub get_session_service_names_in_display_order : Manager → List Bytes
get_session_service_names_in_display_order m = names_of m.sessions

-- `SendDataToNode`: an unknown session is fatal.
unfoldable pub send_to : ℕ → Message → Option Session → Manager → Option (Status × Manager)
send_to sid msg none m = some (fatal_error, m)
send_to sid msg (some s) m = write_message_frame msg s >>= λ s'.
    some (ok, record m { sessions = put_session sid s' m.sessions })

unfoldable pub send_data_to_node : Message → ℕ → Manager → Option (Status × Manager)
send_data_to_node msg sid m = send_to sid msg (lookup sid m.sessions) m

unfoldable pub put_message_into_app_mailbox : AppEvent → Manager → Manager
put_message_into_app_mailbox e m = record m { app_inbox = m.app_inbox ++ (e ∷ []) }

-- `path.filename()`: what follows the last slash.
unfoldable pub filename_from : Bytes → Bytes → Bytes
filename_from acc [] = acc
filename_from acc (b ∷ bs) =
    if b == b'/' then filename_from [] bs else filename_from (acc ++ (b ∷ [])) bs

unfoldable pub filename : Bytes → Bytes
filename path = filename_from [] path

-- `sessions_m.at(sid)` throws after the offer has been noted, and the key stays used.
unfoldable pub offer_on : ℕ → ℕ → ℕ → Bytes → ℕ → Option Session → Manager → Option Manager
offer_on now key fsize name sid none m = none
offer_on now key fsize name sid (some s) m =
    some (record m { sessions = put_session sid (send_file_offer now key fsize name s) m.sessions })

unfoldable pub initiate_file_transfer_with_session : ℕ → ℕ → ℕ → Bytes → Manager → Option Manager
initiate_file_transfer_with_session now sid file_size path m =
    let key = m.next_ftcid in
    let noted : Manager = record m {
      next_ftcid = (key + 1) % 2 ^ 32;
      pending_outgoing = insert key (sid, path) m.pending_outgoing;
    } in
    offer_on now key (file_size % 2 ^ 32) (filename path) sid (lookup sid m.sessions) noted

-- The constructor of `BVFileTransferContext` for a session and an offer. A file that is gone throws,
-- and one that cannot be opened has a context without a worker.
unfoldable pub transfer_context : ℕ → ℕ × Bytes → Session → FileState → Option TransferContext
transfer_context key offer s missing = none
transfer_context key offer s unreadable =
    some (record { session_id = offer.0; path = offer.1; worker = none })
transfer_context key offer s (readable content) = some (record {
  session_id = offer.0;
  path = offer.1;
  worker = some (new_transfer s.this_machine_service_name key (filename offer.1) content);
})

unfoldable pub start_transfer : ℕ → ℕ × Bytes → Option Session → Manager → Option Manager
start_transfer key offer none m = none
start_transfer key offer (some s) m = transfer_context key offer s (m.files offer.1) >>= λ ctx.
    some (record m { transfers = insert key ctx (erase key m.transfers) })

unfoldable pub signal_found : ℕ → Bool → Option (ℕ × Bytes) → Manager → Option Manager
signal_found key accept none m = some m
signal_found key accept (some offer) m =
    let m' : Manager = record m { pending_outgoing = erase key m.pending_outgoing } in
    if accept then start_transfer key offer (lookup (offer.0) m.sessions) m' else some m'

unfoldable pub signal_file_transfer : ℕ → Bool → Manager → Option Manager
signal_file_transfer key accept m = signal_found key accept (lookup key m.pending_outgoing) m

unfoldable pub respond_on : ℕ → ℕ → Bool → ℕ → Option Session → Manager → Manager
respond_on now key accept sid none m = m
respond_on now key accept sid (some s) m = record m {
  sessions =
      put_session sid (send_file_control now key (if accept then file_accept else file_reject) s)
        m.sessions;
}

unfoldable pub respond_by_id : ℕ → ℕ → Bool → Option ℕ → Manager → Manager
respond_by_id now key accept none m = m
respond_by_id now key accept (some sid) m = respond_on now key accept sid (lookup sid m.sessions) m

unfoldable pub respond_to_file_offer : ℕ → Bytes → ℕ → Bool → Manager → Manager
respond_to_file_offer now service key accept m =
    respond_by_id now key accept (get_session_id_from_service_name service m) m

-- The manager as its sessions see it.
abbrev pub manager_ops : ManagerOps Manager
manager_ops = record {
  put_message_into_app_mailbox = put_message_into_app_mailbox;
  handle_session_identification = handle_session_identification;
  signal_file_transfer = signal_file_transfer;
}
