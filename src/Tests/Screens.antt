-- ===== src/Tests/Screens.antt =====
-- The console client at concrete inputs.
use local_chat_xxx.Console.Keys.{run, key_press, on_key, posted_task}
use local_chat_xxx.Manager.Defs.{
  Dial, Manager, connect_handler, is_session_already_present, manager_ops, new_manager,
  put_message_into_app_mailbox, put_session, respond_to_file_offer,
  start_communication_session_with_node,
}
use local_chat_xxx.Console.Paths.{Blank, IsPlain, path-Written, single_quoted}
use local_chat_xxx.Common.{
  List, [], arith, false, get_or, length, map, none, refl, some, true, ℕ, ◌++◌, ◌∷◌, ◌≡◌,
}
use local_chat_xxx.Console.Lines.{after_file_command, path_argument}
use local_chat_xxx.Manager.Steps.{begins, goes_on, connected}
use local_chat_xxx.Status.{ok}
use local_chat_xxx.Session.Defs.{
  write, Session, app_message_incoming, is_null, new_session, outgoing, start_reading_frames,
}
use local_chat_xxx.Console.Loop.{keys}
use local_chat_xxx.Console.Stuck.{second_offer_stays}
use local_chat_xxx.Common.Assoc.{insert, bytes_eq, lookup, nat_eq}
use local_chat_xxx.Console.Peers.{AllListed, AllNew, Distinct, NoneNamed, new_services_asked_for}
use local_chat_xxx.Session.Chat.{is_file_control}
use local_chat_xxx.Client.Defs.{
  PendingOffer, add_to_log, chat, file_offer_prompt, listen_to_mail, main_menu, show_message,
  show_offer,
}
use local_chat_xxx.Console.Menu.{Shows, here, shown_number_opens_chat}
use local_chat_xxx.Console.Steps.{
  AppReachable, AppStep, starts, moves, services_and_sessions_unique, start_app,
}
use local_chat_xxx.Console.Arrives.{line_message, typed_line_arrives}
use local_chat_xxx.Session.Arrival.{arrive}
use local_chat_xxx.Console.Forget.{lost_services_forgotten}
use local_chat_xxx.Console.Defs.{App, Machine, session, ServiceInstance, discovery_request_resolve}
use local_chat_xxx.Console.Screen.{print_sessions, session_items}
use local_chat_xxx.Console.Prompt.{offer_answered, upper_yes}
use local_chat_xxx.Console.Typing.{IsChatting, IsText}
use local_chat_xxx.Console.Services.{handle_published_services, handle_service_deregistration}
use local_chat_xxx.Common.Bytes.{Bytes, bytes_beq}
use local_chat_xxx.Session.Files.{IsReady}
use local_chat_xxx.Console.Lost.{AllForgotten}
use local_chat_xxx.Console.Firsts.{firsts}
use local_chat_xxx.Tests.Fixtures.{ann, bob, notes, content, env, ready_session, ready, client}

-- A machine with one file.
abbrev machine : Machine
machine = record { now = 1000; is_regular_file = λ p. bytes_beq p notes; file_size = λ p. 2 }

-- Ann's program, connected to Bob.
abbrev to_bob : Dial
to_bob = record { session_id = 0; node = record { id = 0; service_name = bob } }

abbrev ann_manager : Manager
ann_manager = connect_handler false to_bob (new_manager ann)

abbrev bob_session : Session
bob_session = start_reading_frames (new_session 0 bob ann outgoing)

abbrev ann_app : App
ann_app = record (start_app client ann) { manager = ann_manager }

ann_knows_bob : lookup bob ann_manager.service_sessionid ≡ some 0
unfolding connect_handler new_manager start_reading_frames new_session is_session_already_present
    put_session lookup insert bytes_beq start_communication_session_with_node
ann_knows_bob = refl

ann_has_session : lookup 0 ann_manager.sessions ≡ some bob_session
unfolding connect_handler new_manager start_reading_frames new_session is_session_already_present
    put_session lookup start_communication_session_with_node
ann_has_session = refl

-- The chat with Bob is open.
abbrev chatting : App
chatting = record ann_app { client = record client { ui_state = chat; active_chat_service = bob } }

chatting-IsChatting : IsChatting bob [] chatting
chatting-IsChatting = record { shown = refl; peer = refl; typed = refl; live = refl }

content-IsText : IsText content
unfolding is_null after_file_command bytes_beq
content-IsText = record {
  printable = (refl, (refl, tt));
  filled = refl;
  no_quit = refl;
  no_redraw = refl;
  no_file = refl;
}

room : length bob_session.write_buf ≡ 138
unfolding start_reading_frames new_session
room = refl

plain : is_file_control (get_or content 2 0) ≡ false
unfolding is_file_control
plain = refl

typed_line_arrives_example :
    (b : App) × (s' : Session) × (f : Bytes) × (t' : Session) × (run machine
        (keys content ++ (key_press 10 ∷ []))
        chatting
      ≡ some b)
    × (lookup 0 (b.manager).sessions ≡ some s')
    × (s'.io ≡ bob_session.io ++ (write f ∷ []))
    × (arrive manager_ops env f ready_session (new_manager bob)
        ≡ some (
          t',
          put_message_into_app_mailbox
              (app_message_incoming (line_message 1000 content ready_session))
              (new_manager bob),
        ))
    × IsReady t'
    × (listen_to_mail (app_message_incoming (line_message 1000 content ready_session) ∷ []) client
        ≡ some (record client {
          chat_logs =
              add_to_log ready_session.service_name
                (line_message 1000 content ready_session)
                (lookup ready_session.service_name client.chat_logs)
                client.chat_logs;
          posted = client.posted ++ (show_message ready_session.service_name content ∷ []);
        }))
typed_line_arrives_example =
    typed_line_arrives machine env bob content 0 bob_session ready_session chatting
      (new_manager bob) client content-IsText chatting-IsChatting ann_knows_bob ann_has_session room
      ready (omega arith) (omega arith) plain

abbrev bob_service : ServiceInstance
bob_service = record { service_name = bob; reg_type = b'_' ∷ []; reply_domain = b'.' ∷ [] }

abbrev found_bob : App
found_bob = (handle_published_services (bob_service ∷ []) (start_app client ann)).0

found_bob-AppReachable : AppReachable client ann found_bob
found_bob-AppReachable = moves starts (AppStep.found (bob_service ∷ []))

services_and_sessions_unique_example :
    Distinct found_bob.service_v
    × NoneNamed ann found_bob.service_v
    × ((j k : ℕ) (s t : Session)
        → lookup j (found_bob.manager).sessions ≡ some s
        → lookup k (found_bob.manager).sessions ≡ some t
        → s.service_name ≡ t.service_name
        → j ≡ k)
services_and_sessions_unique_example =
    services_and_sessions_unique ann client found_bob found_bob-AppReachable

new_services_asked_for_example :
    let r = handle_published_services (bob_service ∷ bob_service ∷ []) (start_app client ann) in
    (fresh : List ServiceInstance) × (r.1 ≡ ok)
    × ((r.0).service_v ≡ [] ++ fresh)
    × ((r.0).sent ≡ [] ++ map discovery_request_resolve fresh)
    × (fresh ≡ firsts ann [] [] (bob_service ∷ bob_service ∷ []))
    × AllNew fresh []
    × NoneNamed ann fresh
    × Distinct (r.0).service_v
    × AllListed ann (bob_service ∷ bob_service ∷ []) (r.0).service_v
    × ((r.0).manager ≡ new_manager ann)
new_services_asked_for_example =
    new_services_asked_for (bob_service ∷ bob_service ∷ []) (start_app client ann) tt

-- Ann's program when it has found Bob and is connected to it.
abbrev with_bob : App
with_bob = record ann_app { service_v = bob_service ∷ [] }

lost_services_forgotten_example :
    AllForgotten
      (bob_service ∷ [])
      (bob_service ∷ [])
      (handle_service_deregistration (bob_service ∷ []) with_bob).0
lost_services_forgotten_example =
    lost_services_forgotten ann (bob_service ∷ []) with_bob
      (goes_on begins (connected false to_bob))

abbrev offer : PendingOffer
offer = record { key = 7; sender = bob; fname = notes; size = 2 }

offer_answered_example :
    (b : App) × (run machine
        (posted_task (show_offer offer) ∷ (keys (b'x' ∷ []) ++ (key_press b'Y' ∷ [])))
        ann_app
      ≡ some b)
    × (b.manager ≡ respond_to_file_offer 1000 bob 7 true ann_manager)
    × (b.client ≡ record client { pending_offer = none; prior_ui_state = main_menu })
offer_answered_example =
    offer_answered machine offer (b'x' ∷ []) b'Y' true ann_app (refl, refl, tt) upper_yes refl

-- The prompt for Bob's offer is up.
abbrev asked : App
asked = record ann_app {
  client = record client { ui_state = file_offer_prompt; pending_offer = some offer };
}

second_offer_stays_example :
    (b : App) × (run machine
        (posted_task (show_offer offer) ∷ (keys (b'y' ∷ b'y' ∷ b'q' ∷ []) ++ (key_press b'n' ∷ [])))
        asked
      ≡ some b)
    × ((b.client).ui_state ≡ file_offer_prompt)
    × (b.is_running ≡ true)
second_offer_stays_example =
    second_offer_stays machine offer (keys (b'y' ∷ b'y' ∷ b'q' ∷ []) ++ (key_press b'n' ∷ [])) asked
      refl refl

bob_is_first : Shows (session 1 bob 0 0) (print_sessions ann_manager.sessions)
unfolding connect_handler new_manager start_reading_frames new_session is_session_already_present
    put_session lookup start_communication_session_with_node print_sessions session_items
bob_is_first = here

shown_number_opens_chat_example :
    (b : App) × (on_key machine 49 ann_app ≡ some b)
    × (b.client ≡ record client {
      ui_state = chat;
      active_chat_service = bob;
      input_line = [];
      last_notification = [];
    })
    × (b.manager ≡ ann_manager)
    × (b.sent ≡ [])
shown_number_opens_chat_example =
    shown_number_opens_chat machine ann_app 1 0 0 bob refl bob_is_first (omega arith)

-- The path `a b`.
abbrev spaced : Bytes
spaced = b' ' ∷ b'b' ∷ []

spaced-IsPlain : IsPlain b'a' spaced
spaced-IsPlain = record {
  no_backslash = (
    (λ e. absurd (omega arith)),
    ((λ e. absurd (omega arith)), ((λ e. absurd (omega arith)), tt)),
  );
  front = refl;
  no_single = refl;
  no_double = refl;
  solid = refl;
}

one-Blank : Blank (b' ' ∷ [])
one-Blank = (refl, tt)

path-Written_example :
    path_argument ((b' ' ∷ []) ++ ((39 ∷ ((b'a' ∷ spaced) ++ (39 ∷ []))) ++ (b' ' ∷ [])))
    ≡ b'a' ∷ spaced
path-Written_example =
    path-Written b'a' spaced (b' ' ∷ []) _ (b' ' ∷ []) spaced-IsPlain single_quoted one-Blank
      one-Blank
