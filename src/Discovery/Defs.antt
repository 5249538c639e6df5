-- ===== src/Discovery/Defs.antt =====
-- The discovery component over Bonjour: the callback of the daemon's library (src/bonjour_api.c),
-- the list it fills (include/BVDiscovery.hpp) and the component's operations
-- (src/BVDiscovery_Bonjour.cpp). The library is the replies and error codes that it gives.
use local_chat_xxx.Common.{
  Bool, List, [], drop, false, if◌then◌else◌, length, ltb, not, replicate, take, true, ℕ, ◌++◌, ◌+◌,
  ◌-◌, ◌==◌, ◌||◌, ◌∷◌,
}
use local_chat_xxx.Common.Bytes.{Bytes, write_at}
use local_chat_xxx.Status.{Status, fatal_error, nok, ok}
use local_chat_xxx.Console.Defs.{ServiceInstance}
use local_chat_xxx.Wire.Defs.{until_nul}

-- What one call of the browse callback gets: its error, whether the flag for an added service is
-- set, and the three C strings.
pub record Reply : Type 0 where
  pub error : Bool
  pub add : Bool
  pub service_name : Bytes
  pub regtype : Bytes
  pub reply_domain : Bytes

-- What the component sends to the application.
pub data Report : Type 0 where
  published_service : List ServiceInstance → Report
  deregistered_service : List ServiceInstance → Report

-- `elements` are the data of the C list, oldest first, and `did_register` is its flag. `waits`
-- counts the waits on the browsing socket that are pending.
pub record Discovery : Type 0 where
  pub status : Status
  pub is_browsing_active : Bool
  pub has_ref : Bool
  pub elements : List Bytes
  pub did_register : ℕ
  pub waits : ℕ
  pub timer_pending : Bool
  pub io_stopped : Bool
  pub reports : List Report

abbrev pub n_bytes_servname_max : ℕ
n_bytes_servname_max = 24

abbrev pub n_bytes_regtype_max : ℕ
n_bytes_regtype_max = 24

abbrev pub n_bytes_repldomn_max : ℕ
n_bytes_repldomn_max = 16

abbrev pub n_bytes_service_str_total : ℕ
n_bytes_service_str_total = 64

abbrev pub max_data_size : ℕ
max_data_size = 256

-- A text that is too long for its field is left out.
unfoldable pub copy_field : ℕ → ℕ → Bytes → Bytes → Bytes
copy_field off room text buff = if ltb (length text) room then write_at off text buff else buff

unfoldable pub service_str : Reply → Bytes
service_str r = write_at (n_bytes_service_str_total - 1) (0 ∷ []) (
    copy_field (n_bytes_servname_max + n_bytes_regtype_max) n_bytes_repldomn_max r.reply_domain (
      copy_field n_bytes_servname_max n_bytes_regtype_max r.regtype (
        copy_field 0 n_bytes_servname_max r.service_name
          (replicate n_bytes_service_str_total b' '))))

-- `strncpy` of at most this many bytes: up to the first NUL, then zeros.
unfoldable pub strncpy : ℕ → Bytes → Bytes
strncpy n src = take n (until_nul src ++ replicate n 0)

unfoldable pub service_browse_reply : Reply → Discovery → Discovery
service_browse_reply r d = if r.error then d else record d {
  did_register = if r.add then 1 else 0;
  elements = d.elements ++ (strncpy max_data_size (service_str r) ∷ []);
}

-- `erase(remove(...))` of the spaces and of the NULs.
unfoldable pub erase_padding : Bytes → Bytes
erase_padding [] = []
erase_padding (b ∷ bs) =
    let rest = erase_padding bs in if b == b' ' || b == 0 then rest else b ∷ rest

unfoldable pub browse_instance : Bytes → ServiceInstance
browse_instance data' = record {
  service_name = erase_padding (take n_bytes_servname_max data');
  reg_type = erase_padding (take n_bytes_regtype_max (drop n_bytes_servname_max data'));
  reply_domain =
      erase_padding
        (take n_bytes_repldomn_max (drop (n_bytes_servname_max + n_bytes_regtype_max) data'));
}

unfoldable pub return_list_from_browse_results : List Bytes → List ServiceInstance
return_list_from_browse_results [] = []
return_list_from_browse_results (e ∷ es) = browse_instance e ∷ return_list_from_browse_results es

-- `LinkedList_str_ClearList`.
unfoldable pub clear_list : Discovery → Discovery
clear_list d = record d { did_register = 0; elements = [] }

unfoldable pub await_fd : Discovery → Discovery
await_fd d =
    if not d.is_browsing_active || not d.has_ref then d else record d { waits = d.waits + 1 }

unfoldable pub create_connection_context : Bool → Discovery → Discovery
create_connection_context error d =
    if error then record d { status = fatal_error } else record d { has_ref = true }

unfoldable pub setup : Bool → Discovery → Discovery
setup error d = record (create_connection_context error d) { status = ok }

-- Whether the library gives no descriptor, and whether it cannot be assigned.
unfoldable pub browse : Bool → Bool → Discovery → Discovery
browse no_fd not_assigned d =
    if no_fd
    then record d { has_ref = false }
    else if not_assigned
    then record d { has_ref = false }
    else await_fd (record d { is_browsing_active = true })

unfoldable pub report : ℕ → List ServiceInstance → Discovery → Discovery
report flag services d =
    if flag == 1
    then record d { reports = d.reports ++ (published_service services ∷ []) }
    else if flag == 0
    then record d { reports = d.reports ++ (deregistered_service services ∷ []) }
    else d

unfoldable pub replies_taken : List Reply → Discovery → Discovery
replies_taken [] d = d
replies_taken (r ∷ rs) d = replies_taken rs (service_browse_reply r d)

-- The library hands over these replies, or an error.
unfoldable pub process_dns_service_browse_result :
    Bool → List Reply → Discovery → Status × Discovery
process_dns_service_browse_result error replies d =
    let d' = replies_taken replies d in
    if not d.is_browsing_active || not d.has_ref
    then (ok, d)
    else if error
    then (nok, record d' { is_browsing_active = false })
    else (
      ok,
      await_fd
          (clear_list (report d'.did_register (return_list_from_browse_results d'.elements) d')),
    )

-- How a pending wait ends: cancelled, with another error, or with the socket ready.
pub data WaitResult : Type 0 where
  aborted failed : WaitResult
  ready : Bool → List Reply → WaitResult

unfoldable pub waited : WaitResult → Discovery → Discovery
waited aborted d = record d { waits = d.waits - 1 }
waited failed d = record d { waits = d.waits - 1; is_browsing_active = false }
waited (ready error replies) d =
    (process_dns_service_browse_result error replies (record d { waits = d.waits - 1 })).1

-- The wait that is cancelled ends later, as `aborted`.
unfoldable pub on_pause : Discovery → Discovery
on_pause d =
    if d.is_browsing_active
    then record d { is_browsing_active = false; timer_pending = true }
    else d

unfoldable pub on_resume : Discovery → Discovery
on_resume d = await_fd (record d { timer_pending = false; is_browsing_active = true })

unfoldable pub timer_fired : Bool → Discovery → Discovery
timer_fired cancelled d = if cancelled then d else on_resume d

unfoldable pub on_shutdown : Discovery → Discovery
on_shutdown d = record d { is_browsing_active = false; timer_pending = false; io_stopped = true }
