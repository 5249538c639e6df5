-- ===== src/Broker/Loop.antt =====
-- The broker's thread (`Run`, `Stop`), and the setup of the program (src/main.cpp): the components
-- that are attached and what each subscribes to.
use local_chat_xxx.Common.{
  Bool, List, Option, [], false, if◌then◌else◌, none, some, true, ℕ, ◌&&◌, ◌==◌, ◌∷◌,
}
use local_chat_xxx.Status.{Status, is_ok, ok}
use local_chat_xxx.Broker.Defs.{Broker, Message, attach, detach, route, subscribe}

-- The numbers of `BVEventType` (include/BVEvent.hpp).
abbrev pub event_discovery_request_start : ℕ
event_discovery_request_start = 0

abbrev pub event_discovery_request_pause : ℕ
event_discovery_request_pause = 1

abbrev pub event_discovery_request_resume : ℕ
event_discovery_request_resume = 2

abbrev pub event_discovery_request_shutdown : ℕ
event_discovery_request_shutdown = 3

abbrev pub event_discovery_request_restart : ℕ
event_discovery_request_restart = 4

abbrev pub event_discovery_request_resolve : ℕ
event_discovery_request_resolve = 5

abbrev pub event_app_published_service : ℕ
event_app_published_service = 6

abbrev pub event_app_deregistered_service : ℕ
event_app_deregistered_service = 7

abbrev pub event_app_discovery_service_resolved : ℕ
event_app_discovery_service_resolved = 10

abbrev pub event_terminate_all : ℕ
event_terminate_all = 13

abbrev pub event_app_message_incoming : ℕ
event_app_message_incoming = 15

abbrev pub event_app_file_transfer_begin : ℕ
event_app_file_transfer_begin = 17

abbrev pub event_app_file_transfer_chunk_sent : ℕ
event_app_file_transfer_chunk_sent = 18

abbrev pub event_app_file_transfer_end : ℕ
event_app_file_transfer_end = 19

-- One message: the flag falls before the message is routed.
unfoldable pub take_message : Message → Broker → Broker
take_message msg b =
    route msg (if msg.event == event_terminate_all then record b { is_running = false } else b)

-- The loop over the messages in the broker's mailbox, which it waits for when there is none: the
-- broker, and what is left.
unfoldable pub run : List Message → Broker → Broker × List Message
run [] b = (b, [])
run (msg ∷ msgs) b =
    let rest = run msgs (take_message msg b) in if b.is_running then rest else (b, msg ∷ msgs)

unfoldable pub stop : Broker → Status × Broker
stop b = (ok, record b { mailboxes = []; subs = [] })

-- The calls of `Subscribe`, one for each event; whether all of them answered OK.
unfoldable pub subscribe_each : ℕ → List ℕ → Broker → Bool × Broker
subscribe_each sid [] b = (true, b)
subscribe_each sid (ev ∷ evs) b =
    let r = subscribe sid ev b in
    let rest = subscribe_each sid evs r.1 in (is_ok r.0 && rest.0, rest.1)

abbrev pub discovery_events : List ℕ
discovery_events =
    event_discovery_request_start ∷ event_discovery_request_pause ∷ event_discovery_request_resume
    ∷ event_terminate_all ∷ event_discovery_request_shutdown ∷ event_discovery_request_restart
    ∷ event_discovery_request_resolve ∷ []

abbrev pub app_events : List ℕ
app_events =
    event_app_published_service ∷ event_app_discovery_service_resolved ∷ event_terminate_all
    ∷ event_app_deregistered_service ∷ event_app_message_incoming ∷ event_app_file_transfer_begin
    ∷ event_app_file_transfer_chunk_sent ∷ event_app_file_transfer_end ∷ []

-- `exit(-1)` is `none`. An id is there whenever `Attach` answers OK.
unfoldable pub subscribe_components : Option ℕ → Option ℕ → Broker → Option Broker
subscribe_components (some discovery) (some app) b =
    let d = subscribe_each discovery discovery_events b in
    let a = subscribe_each app app_events d.1 in if d.0 && a.0 then some a.1 else none
subscribe_components discovery app b = none

unfoldable pub set_up : Broker → Option Broker
set_up b =
    let d = attach b in
    let a = attach d.2 in if is_ok d.0 && is_ok a.0 then subscribe_components d.1 a.1 a.2 else none

-- The end of the program.
unfoldable pub tear_down : ℕ → ℕ → Broker → Option Broker
tear_down discovery app b =
    let d = detach discovery b in
    let a = detach app d.1 in if is_ok d.0 && is_ok a.0 then some a.1 else none
