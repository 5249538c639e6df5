-- ===== src/Tests/Peers.antt =====
-- Chats, peers and the broker at concrete inputs.
use local_chat_xxx.Common.{
  ap, ◌≢◌, ℕ, ◌+◌, ◌^◌, ◌<◌, ◌≡◌, ◌⊎◌, refl, Bool, false, arith, if◌then◌else◌, [], ◌∷◌, ◌++◌, none,
  some, length, take, get_or, replicate,
}
use local_chat_xxx.Common.Bytes.{Bytes}
use local_chat_xxx.Common.Assoc.{erase, insert, lookup, nat_eq, bytes_eq}
use local_chat_xxx.Status.{ok}
use local_chat_xxx.Wire.Defs.{
  get_msg_header, file_accept, file_reject, construct_chat_message_from_input, fill_message_frame,
  chat_text,
}
use local_chat_xxx.Session.Defs.{
  ingoing, is_null, Session, app_message_incoming, outgoing, new_session, start_reading_frames,
  clear_read_buffer,
}
use local_chat_xxx.Session.Handlers.{read_message_frame_callback, on_receive_file_offer}
use local_chat_xxx.Session.Arrival.{arrive}
use local_chat_xxx.Session.Control.{control_frame}
use local_chat_xxx.Session.Chat.{Holds, is_file_control, chat_delivered, chat_taken_for_offer}
use local_chat_xxx.Manager.Defs.{
  put_session, start_communication_session_with_node, Manager, Node, manager_ops, new_manager,
  put_message_into_app_mailbox, remove_session, is_session_already_present, connect_handler, Dial,
  initiate_file_transfer_with_session, signal_file_transfer,
}
use local_chat_xxx.Manager.Glare.{dials}
use local_chat_xxx.Manager.Identity.{IsTakenIn, hello_back_establishes}
use local_chat_xxx.Manager.Steps.{
  Reachable, begins, goes_on, connected, one_session_for_each_peer, session_removed,
  one_of_two_dials,
}
use local_chat_xxx.Manager.Offers.{
  offered, started, context, acceptance_starts_transfer, rejection_starts_nothing,
}
use local_chat_xxx.Wire.Text.{chat_text_round_trip}
use local_chat_xxx.Broker.Queue.{push, new_queue}
use local_chat_xxx.Broker.Defs.{
  attach_at, cycle_current_subscriber_id, cycle_from, is_some, Message, Broker, new_broker, attach,
  subscribe, route, subscribers, has,
}
use local_chat_xxx.Broker.Ids.{IsFresh, IsRefused, attach_lem}
use local_chat_xxx.Broker.Subscriptions.{NoDup, AllLive}
use local_chat_xxx.Broker.Steps
use local_chat_xxx.Manager.Asked.{asked, offer_frame, offer_reaches_peer}
use local_chat_xxx.Session.Announce.{FitsFrame}
use local_chat_xxx.Session.Files.{IsReady}
use local_chat_xxx.Manager.Defs.{TransferContext, readable, filename, filename_from}
use local_chat_xxx.Session.Defs.{app_file_offer, write}
use local_chat_xxx.Tests.Fixtures.{ann, bob, notes, content, env, ready_session, ready, fits}

chat_text_round_trip_example :
    chat_text
      (fill_message_frame (construct_chat_message_from_input 1000 content) (replicate 138 0))
    ≡ take 128 content
chat_text_round_trip_example = chat_text_round_trip 1000 content (replicate 138 0) refl

-- The session when Ann's message has filled its buffer.
abbrev holding : Bytes → Session
holding text = record ready_session {
  read_buf = fill_message_frame (construct_chat_message_from_input 1000 text) (replicate 138 0);
  total_bytes_read = 0;
}

holding-Holds :
    (text : Bytes)
    → Holds
        (holding text)
        (fill_message_frame (construct_chat_message_from_input 1000 text) (replicate 138 0))
unfolding start_reading_frames new_session
holding-Holds text = record { is_established = refl; buffered = refl; counted = refl }

plain : is_file_control (get_or content 2 0) ≡ false
unfolding is_file_control
plain = refl

chat_delivered_example :
    read_message_frame_callback manager_ops env false 138 (holding content) (new_manager bob)
    ≡ some (
      clear_read_buffer (start_reading_frames (record (holding content) { total_bytes_read = 0 })),
      put_message_into_app_mailbox
          (app_message_incoming (record {
            text_data = take 128 content;
            sender = (holding content).service_name;
            timestamp = 1000;
          }))
          (new_manager bob),
    )
chat_delivered_example =
    chat_delivered manager_ops env (holding content) (new_manager bob) 1000 content
      (replicate 138 0) refl (omega arith) (holding-Holds content) plain

-- "ab" and a tab.
abbrev tabbed : Bytes
tabbed = b'a' ∷ b'b' ∷ 9 ∷ []

chat_taken_for_offer_example :
    read_message_frame_callback manager_ops env false 138 (holding tabbed) (new_manager bob)
    ≡ some (
      start_reading_frames
          (start_reading_frames (record (holding tabbed) { total_bytes_read = 0 })),
      on_receive_file_offer manager_ops
          (start_reading_frames (record (holding tabbed) { total_bytes_read = 0 }))
          (put_message_into_app_mailbox
            (app_message_incoming (record {
              text_data = take 128 tabbed;
              sender = (holding tabbed).service_name;
              timestamp = 1000;
            }))
            (new_manager bob)),
    )
chat_taken_for_offer_example =
    chat_taken_for_offer manager_ops env (holding tabbed) (new_manager bob) 1000 tabbed
      (replicate 138 0) refl (omega arith) (holding-Holds tabbed) refl

-- Ann has connected to Bob.
abbrev to_bob : Dial
to_bob = record { session_id = 0; node = record { id = 0; service_name = bob } }

abbrev connected_manager : Manager
connected_manager = connect_handler false to_bob (new_manager ann)

reached : Reachable ann connected_manager
reached = goes_on begins (connected false to_bob)

abbrev bob_session : Session
bob_session = start_reading_frames (new_session 0 bob ann outgoing)

found : lookup 0 connected_manager.sessions ≡ some bob_session
unfolding connect_handler new_manager start_reading_frames new_session is_session_already_present
    put_session lookup start_communication_session_with_node
found = refl

one_session_for_each_peer_example : ◌≡◌ {A = ℕ} 0 0
one_session_for_each_peer_example =
    one_session_for_each_peer ann connected_manager 0 0 bob_session bob_session reached found found
      refl

session_removed_example :
    ((remove_session bob_session.service_name connected_manager).0 ≡ ok)
    × (is_session_already_present bob_session.service_name
          ((remove_session bob_session.service_name connected_manager).1.sessions)
        ≡ false)
    × (lookup 0 ((remove_session bob_session.service_name connected_manager).1.sessions) ≡ none)
session_removed_example = session_removed ann connected_manager 0 bob_session reached found

abbrev node_ann : Node
node_ann = record { id = 0; service_name = ann }

abbrev node_bob : Node
node_bob = record { id = 0; service_name = bob }

ann_is_not_bob : ann ≢ bob
ann_is_not_bob e = absurd (first_differs (ap (λ x. get_or x 0 0) e))
  where
    first_differs : ◌≡◌ {A = ℕ} 97 98 → ⊥
    first_differs f = absurd (omega arith)

one_of_two_dials_example :
    dials node_bob (new_manager ann) + dials node_ann (new_manager bob)
    ≡ length (new_manager ann).dialing + length (new_manager bob).dialing + 1
unfolding new_manager is_session_already_present
one_of_two_dials_example =
    one_of_two_dials ann bob (new_manager ann) (new_manager bob) node_ann node_bob begins begins
      refl refl ann_is_not_bob refl refl

small_key : connected_manager.next_ftcid < 2 ^ 32
unfolding connect_handler new_manager start_reading_frames new_session is_session_already_present
    start_communication_session_with_node
small_key = omega arith

-- Ann's disk has the file at every path.
abbrev able_manager : Manager
able_manager = record connected_manager { files = λ p. readable content }

abbrev able_offered : Manager
able_offered = offered 1000 0 2 notes able_manager bob_session found

abbrev sent_notes : TransferContext
sent_notes = context 1000 0 2 notes able_manager bob_session found content

acceptance_starts_transfer_example :
    (t' : Session) × (arrive manager_ops env
        (control_frame 1000 file_accept able_manager.next_ftcid)
        ready_session
        able_offered
      ≡ some (t', started 1000 0 2 notes able_manager bob_session found sent_notes))
    × (lookup able_manager.next_ftcid
          (started 1000 0 2 notes able_manager bob_session found sent_notes).transfers
        ≡ some sent_notes)
    × ((again : Bool)
        → signal_file_transfer able_manager.next_ftcid again
            (started 1000 0 2 notes able_manager bob_session found sent_notes)
          ≡ some (started 1000 0 2 notes able_manager bob_session found sent_notes))
acceptance_starts_transfer_example =
    acceptance_starts_transfer 1000 0 2 notes able_manager bob_session found env 1000 ready_session
      content (omega arith) small_key ready refl

ann_fits : FitsFrame bob_session.this_machine_service_name (filename notes)
unfolding start_reading_frames new_session filename filename_from
ann_fits = fits

offer_reaches_peer_example :
    (m' : Manager) × (s' t' : Session) × (initiate_file_transfer_with_session 1000 0 2 notes
        connected_manager
      ≡ some m')
    × (lookup 0 m'.sessions ≡ some s')
    × (s'.io
        ≡ bob_session.io
          ++ (write (offer_frame 1000 0 2 notes connected_manager bob_session found) ∷ []))
    × (lookup connected_manager.next_ftcid m'.pending_outgoing ≡ some (0, notes))
    × (arrive manager_ops env
          (offer_frame 1000 0 2 notes connected_manager bob_session found)
          ready_session
          (new_manager bob)
        ≡ some (
          t',
          put_message_into_app_mailbox
              (app_file_offer (asked 1000 0 2 notes connected_manager bob_session found))
              (new_manager bob),
        ))
    × IsReady t'
offer_reaches_peer_example =
    offer_reaches_peer 1000 0 2 notes connected_manager bob_session found env ready_session
      (new_manager bob) (omega arith) small_key ann_fits ready

rejection_starts_nothing_example :
    (t' : Session) × (arrive manager_ops env
        (control_frame 1000 file_reject connected_manager.next_ftcid)
        ready_session
        (offered 1000 0 2 notes connected_manager bob_session found)
      ≡ some (
        t',
        record (offered 1000 0 2 notes connected_manager bob_session found) {
          pending_outgoing =
              erase connected_manager.next_ftcid
                (offered 1000 0 2 notes connected_manager bob_session found).pending_outgoing;
        },
      ))
rejection_starts_nothing_example =
    rejection_starts_nothing 1000 0 2 notes connected_manager bob_session found env 1000
      ready_session (omega arith) small_key ready

attach_lem_example :
    IsFresh new_broker (attach new_broker) ⊎ IsRefused new_broker (attach new_broker)
unfolding new_broker
attach_lem_example = attach_lem new_broker (omega arith) (omega arith)

-- One component that listens to event 3.
abbrev listening : Broker
listening = (subscribe 0 3 ((attach new_broker).2)).1

listening-Reachable : Steps.Reachable listening
listening-Reachable =
    Steps.goes_on (Steps.goes_on Steps.begins Steps.attaches) (Steps.subscribes 0 3)

abbrev news : Message
news = record { event = 3; payload = 42 }

has_box : lookup 0 listening.mailboxes ≡ some new_queue
unfolding attach attach_at cycle_current_subscriber_id cycle_from subscribe new_broker new_queue
    is_some lookup insert
has_box = refl

routed_once_example :
    lookup 0 ((route news listening).mailboxes)
    ≡ some (if has 0 (subscribers 3 listening) then push news new_queue else new_queue)
routed_once_example = Steps.routed_once news 0 new_queue listening-Reachable has_box

Reachable-IsClean_example :
    NoDup (subscribers 3 listening) × AllLive listening.mailboxes (subscribers 3 listening)
Reachable-IsClean_example = Steps.Reachable-IsClean listening-Reachable 3

-- Ann's answer to Bob's HELLO.
abbrev answer : Bytes
answer =
    fill_message_frame
      (record {
        header = record { data_len = 3; timestamp = 1000; msg_type = 1 };
        payload = ann ++ replicate 125 0;
      })
      (replicate 138 0)

abbrev accepted_session : Session
accepted_session = record (new_session 3 [] bob ingoing) { read_buf = answer }

hello_back_establishes_example :
    (s' : Session) × (m' : Manager) × (read_message_frame_callback manager_ops env false 138
        accepted_session
        (new_manager bob)
      ≡ some (clear_read_buffer s', m'))
    × IsTakenIn env ann (record accepted_session { total_bytes_read = 0 }) s' m'
unfolding new_session new_manager is_null get_msg_header fill_message_frame
    is_session_already_present
hello_back_establishes_example =
    hello_back_establishes env accepted_session (new_manager bob) ann refl refl refl refl refl refl
      refl refl
