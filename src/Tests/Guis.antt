-- ===== src/Tests/Guis.antt =====
-- The macOS client, the broker, discovery and the handshake at concrete inputs.
use local_chat_xxx.Broker.Defs.{Message, Broker, new_broker}
use local_chat_xxx.Gui.Defs.{Gui, Mover, gui_file_offer, idle}
use local_chat_xxx.Session.Defs.{
  write, AppEvent, Session, app_file_offer, app_message_incoming, is_null, read_frame,
  write_message_frame_callback,
}
use local_chat_xxx.Gui.Same.{Alike, gui_listen, gui_receives_same}
use local_chat_xxx.Common.{
  Bool, List, [], arith, false, length, map, none, refl, some, true, ℕ, ◌++◌, ◌+◌, ◌<◌, ◌∷◌, ◌≡◌,
}
use local_chat_xxx.Discovery.Batches.{batch_reported_as_last, instance_of}
use local_chat_xxx.Manager.Defs.{
  accept, Dial, Manager, accept_handler, connect_handler, get_session_id_from_service_name,
  is_session_already_present, manager_ops, new_manager, respond_to_file_offer,
}
use local_chat_xxx.Discovery.Chains.{Holds, add_element_lem, ends, links}
use local_chat_xxx.Session.Files.{IsReady}
use local_chat_xxx.Discovery.Defs.{
  Discovery, Reply, deregistered_service, process_dns_service_browse_result,
}
use local_chat_xxx.Tests.Fixtures.{ann, bob, notes, content, env, client, no_bar}
use local_chat_xxx.Common.Assoc.{bytes_eq, lookup, nat_eq}
use local_chat_xxx.Manager.Handshake.{confirm_frame, hello_frame, reply_frame}
use local_chat_xxx.Gui.Actions.{respond_to_offer}
use local_chat_xxx.Broker.Queue.{Chain, items}
use local_chat_xxx.Broker.Wiring.{for_events, program_routes}
use local_chat_xxx.Broker.Loop.{
  run, app_events, discovery_events, event_discovery_request_resume, event_terminate_all, set_up,
  tear_down,
}
use local_chat_xxx.Discovery.LinkedList.{Store, add_element}
use local_chat_xxx.Gui.Offers.{
  IsNamed, gui_offer_answered_once, offered_by, same_key_answers_last, shown_offer,
}
use local_chat_xxx.Console.Steps.{start_app}
use local_chat_xxx.Common.Bytes.{Avoids, Bytes}
use local_chat_xxx.Status.{ok}
use local_chat_xxx.Client.Defs.{listen_to_mail}
use local_chat_xxx.Manager.Established.{handshake_establishes}
use local_chat_xxx.Discovery.Browse.{IsPlainReply}
use local_chat_xxx.Session.Arrival.{arrive}

abbrev gui : Gui
gui = record {
  app = start_app client bob;
  notified = [];
  pending_offers = [];
  offer_senders = [];
  save_dir = [];
  xfer_status = idle;
  xfer_name = [];
  xfer_total = 0;
  xfer_received = 0;
}

abbrev mover : Mover
mover = record { can_rename = λ p q. true; can_copy = λ p q. true; can_remove = λ p. true }

-- Ann's offer of a file, and her message.
abbrev events : List AppEvent
events =
    app_file_offer (offered_by 7 ann notes 2)
    ∷ app_message_incoming (record { text_data = content; sender = ann; timestamp = 1000 })
    ∷ []

gui_receives_same_example : Alike (gui_listen mover events gui) (listen_to_mail events client)
gui_receives_same_example = gui_receives_same mover events gui client (refl, refl, refl, refl) refl

ann-IsNamed : IsNamed ann notes
unfolding is_null
ann-IsNamed = record {
  given = refl;
  no_bar = no_bar;
  clean = (
    (λ e. absurd (omega arith)),
    (
      (λ e. absurd (omega arith)),
      (
        (λ e. absurd (omega arith)),
        (
          (λ e. absurd (omega arith)),
          (
            (λ e. absurd (omega arith)),
            ((λ e. absurd (omega arith)), ((λ e. absurd (omega arith)), tt)),
          ),
        ),
      ),
    ),
  );
}

bob-IsNamed : IsNamed bob notes
unfolding is_null
bob-IsNamed = record {
  given = refl;
  no_bar = (
    (λ e. absurd (omega arith)),
    ((λ e. absurd (omega arith)), ((λ e. absurd (omega arith)), tt)),
  );
  clean = (
    (λ e. absurd (omega arith)),
    (
      (λ e. absurd (omega arith)),
      (
        (λ e. absurd (omega arith)),
        (
          (λ e. absurd (omega arith)),
          (
            (λ e. absurd (omega arith)),
            ((λ e. absurd (omega arith)), ((λ e. absurd (omega arith)), tt)),
          ),
        ),
      ),
    ),
  );
}

gui_offer_answered_once_example :
    let asked = (gui_file_offer (offered_by 7 ann notes 2) gui).0 in
    let done = respond_to_offer 1000 7 true asked in
    (asked.pending_offers ≡ [] ++ (shown_offer 7 ann notes 2 ∷ []))
    × ((done.app).manager ≡ respond_to_file_offer 1000 ann 7 true (new_manager bob))
    × ((then' : ℕ) (other : Bool) → respond_to_offer then' 7 other done ≡ done)
gui_offer_answered_once_example = gui_offer_answered_once 1000 7 ann notes 2 true gui ann-IsNamed

same_key_answers_last_example :
    let one = (gui_file_offer (offered_by 0 ann notes 2) gui).0 in
    let both = (gui_file_offer (offered_by 0 bob notes 3) one).0 in
    let done = respond_to_offer 1000 0 true both in
    (both.pending_offers
      ≡ ([] ++ (shown_offer 0 ann notes 2 ∷ [])) ++ (shown_offer 0 bob notes 3 ∷ []))
    × ((done.app).manager ≡ respond_to_file_offer 1000 bob 0 true (new_manager bob))
    × ((then' : ℕ) (again : Bool) → respond_to_offer then' 0 again done ≡ done)
same_key_answers_last_example =
    same_key_answers_last 1000 0 ann bob notes notes 2 3 true gui ann-IsNamed bob-IsNamed

-- A message for discovery and the end of the program.
abbrev resume : Message
resume = record { event = event_discovery_request_resume; payload = 1 }

abbrev end : Message
end = record { event = event_terminate_all; payload = 2 }

program_routes_example :
    (b c d : Broker) × (p q : Chain Message) × (set_up new_broker ≡ some b)
    × (run ((resume ∷ []) ++ (end ∷ (resume ∷ []))) b ≡ (c, resume ∷ []))
    × (lookup 0 c.mailboxes ≡ some p)
    × (items p ≡ for_events discovery_events ((resume ∷ []) ++ (end ∷ [])))
    × (lookup 1 c.mailboxes ≡ some q)
    × (items q ≡ for_events app_events ((resume ∷ []) ++ (end ∷ [])))
    × (c.is_running ≡ false)
    × (tear_down 0 1 c ≡ some d)
program_routes_example = program_routes (resume ∷ []) end (resume ∷ []) (refl, tt) refl

abbrev reply_about : Bytes → Bool → Reply
reply_about name added = record {
  error = false;
  add = added;
  service_name = name;
  regtype = b'_' ∷ [];
  reply_domain = b'.' ∷ [];
}

plain_about :
    (name : Bytes) (added : Bool)
    → length name < 24
    → Avoids b' ' name
    → Avoids 0 name
    → IsPlainReply (reply_about name added)
plain_about name added short solid clean = record {
  name_short = short;
  type_short = omega arith;
  domain_short = omega arith;
  name_solid = solid;
  name_clean = clean;
  type_solid = ((λ e. absurd (omega arith)), tt);
  type_clean = ((λ e. absurd (omega arith)), tt);
  domain_solid = ((λ e. absurd (omega arith)), tt);
  domain_clean = ((λ e. absurd (omega arith)), tt);
}

-- Browsing with an empty list.
abbrev browsing : Discovery
browsing = record {
  status = ok;
  is_browsing_active = true;
  has_ref = true;
  elements = [];
  did_register = 0;
  waits = 0;
  timer_pending = false;
  io_stopped = false;
  reports = [];
}

-- Ann has come and Bob has gone.
abbrev mixed : List Reply
mixed = reply_about ann true ∷ reply_about bob false ∷ []

batch_reported_as_last_example : process_dns_service_browse_result false mixed browsing ≡ (
  ok,
  record browsing {
    reports = [] ++ (deregistered_service (map instance_of mixed) ∷ []);
    did_register = 0;
    elements = [];
    waits = 0 + 1;
  },
)
batch_reported_as_last_example =
    batch_reported_as_last (reply_about ann true) (reply_about bob false ∷ []) browsing
      (
        (
          refl,
          plain_about ann true (omega arith)
              (
                (λ e. absurd (omega arith)),
                ((λ e. absurd (omega arith)), ((λ e. absurd (omega arith)), tt)),
              )
              (
                (λ e. absurd (omega arith)),
                ((λ e. absurd (omega arith)), ((λ e. absurd (omega arith)), tt)),
              ),
        ),
        (
          (
            refl,
            plain_about bob false (omega arith)
                (
                  (λ e. absurd (omega arith)),
                  ((λ e. absurd (omega arith)), ((λ e. absurd (omega arith)), tt)),
                )
                (
                  (λ e. absurd (omega arith)),
                  ((λ e. absurd (omega arith)), ((λ e. absurd (omega arith)), tt)),
                ),
          ),
          tt,
        ),
      )
      refl refl refl

-- One element in the list, and another one allocated.
abbrev one_listed : Store
one_listed = record {
  heap =
      (16, record { next_p = none; data_field = ann })
      ∷ (32, record { next_p = none; data_field = bob })
      ∷ [];
  head_p = some 16;
  flag = 0;
}

one_listed-Holds : Holds one_listed ((16, ann) ∷ [])
unfolding lookup
one_listed-Holds = record { chained = links refl ends; apart = (tt, tt) }

other_allocated : lookup 32 one_listed.heap ≡ some (record { next_p = none; data_field = bob })
unfolding lookup
other_allocated = refl

add_element_lem_example :
    (s' : Store) × (add_element 1 32 one_listed ≡ some s')
    × Holds s' (((16, ann) ∷ []) ++ ((32, bob) ∷ []))
add_element_lem_example =
    add_element_lem 1 32 bob one_listed ((16, ann) ∷ []) one_listed-Holds other_allocated (refl, tt)
      (omega arith)

abbrev to_bob : Dial
to_bob = record { session_id = 0; node = record { id = 0; service_name = bob } }

abbrev dialled : Manager
dialled = connect_handler false to_bob (new_manager ann)

handshake_establishes_example :
    (sa sd sd' sa' sd'' : Session) × (a' : Manager) × (accept_handler env false 3 (new_manager bob)
      ≡ some (some sa, accept (new_manager bob)))
    × (sa.io ≡ write (hello_frame env) ∷ read_frame 138 ∷ [])
    × (lookup 0 dialled.sessions ≡ some sd)
    × (arrive manager_ops env (hello_frame env) sd dialled ≡ some (sd', dialled))
    × (sd'.io ≡ sd.io ++ (write (reply_frame env ann) ∷ read_frame 138 ∷ []))
    × (arrive manager_ops env
          (reply_frame env ann)
          (write_message_frame_callback false 138 sa)
          (accept (new_manager bob))
        ≡ some (sa', a'))
    × (sa'.io ≡ sa.io ++ (write (confirm_frame env) ∷ read_frame 138 ∷ []))
    × (arrive manager_ops env
          (confirm_frame env)
          (write_message_frame_callback false 138 sd')
          dialled
        ≡ some (sd'', dialled))
    × IsReady sa'
    × (sa'.service_name ≡ ann)
    × (get_session_id_from_service_name ann a' ≡ some 3)
    × IsReady sd''
    × (sd''.service_name ≡ bob)
unfolding new_manager is_session_already_present
handshake_establishes_example =
    handshake_establishes env env 3 (new_manager bob) (new_manager ann) to_bob refl refl
      (omega arith) refl (omega arith)
