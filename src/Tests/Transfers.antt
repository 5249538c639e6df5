-- ===== src/Tests/Transfers.antt =====
-- Frames and file transfers at concrete inputs.
use local_chat_xxx.Common.{
  ℕ, ◌*◌, ◌/◌, ◌^◌, ◌≤◌, ◌<◌, ◌≡◌, ◌↔◌, ◌⊎◌, refl, arith, List, [], ◌∷◌, ◌++◌, some, replicate,
}
use local_chat_xxx.Common.Assoc.{nat_eq, bytes_eq}
use local_chat_xxx.Wire.Defs.{
  file_offer, file_frame, pack_metadata, file_transfer_begin, control_payload_bytes,
}
use local_chat_xxx.Session.Defs.{
  Session, AppEvent, app_file_transfer_begin, app_file_offer, read_chunk, new_session,
  start_reading_frames,
}
use local_chat_xxx.Session.Arrival.{arrive, arrive_all}
use local_chat_xxx.Session.Files.{IsReady, IsReceiving, put_all, data_events, receive_blocks}
use local_chat_xxx.Session.Announce.{name_frame, name_text, offer_received, begin_received}
use local_chat_xxx.Transfer.Defs.{new_transfer, worker, determine_chunk_size, percent, begin_chunk}
use local_chat_xxx.Transfer.ChunkSize.{determine_chunk_size_bounds, one_megabyte_chunks}
use local_chat_xxx.Transfer.Run.{
  Finished, transfer_frames, data_frames, worker_sends_file, empty_file_never_ends,
}
use local_chat_xxx.Transfer.Blocks.{join, blocks}
use local_chat_xxx.Client.Defs.{Client, listen_to_mail}
use local_chat_xxx.Client.Assembly.{HasSaved, begin_data, save_file}
use local_chat_xxx.Delivery.{file_delivered}
use local_chat_xxx.Manager.Defs.{Manager, manager_ops, new_manager, put_message_into_app_mailbox}
use local_chat_xxx.Transfer.Progress.{progress_reported}
use local_chat_xxx.Tests.Fixtures.{
  ann, bob, notes, content, env, clock, ready_session, ready, app_box, client, fits, no_bar, works,
}

abbrev transfer_events : List AppEvent
transfer_events =
    app_file_transfer_begin (begin_data ann notes 5 (determine_chunk_size 2) 2)
    ∷ data_events 5 (determine_chunk_size 2) 2 (blocks 2 (determine_chunk_size 2) content)

clock_in_range : (i : ℕ) → clock i < 5 * 2 ^ 40
clock_in_range i = omega arith

file_delivered_example :
    (s' : Session) × (w' : Manager) × (k' : Client) × (arrive_all manager_ops env
        (worker clock 3 (new_transfer ann 5 notes content)).sent
        ready_session
        (new_manager bob)
      ≡ some (s', w'))
    × IsReady s'
    × (app_box.inbox w' ≡ app_box.inbox (new_manager bob) ++ transfer_events)
    × (listen_to_mail transfer_events client ≡ some k')
    × HasSaved ann notes 5 content client k'
file_delivered_example =
    file_delivered manager_ops app_box env clock clock_in_range ann 5 notes content (omega arith)
      (omega arith) (omega arith) fits no_bar ready_session (new_manager bob) ready client works

worker_sends_file_example :
    Finished
      (worker clock 3 (new_transfer ann 5 notes content))
      (transfer_frames clock ann 5 notes content)
worker_sends_file_example = worker_sends_file clock ann 5 notes content (omega arith) (omega arith)

-- A size in one of the gaps.
abbrev gap : ℕ
gap = 8000

one_megabyte_chunks_example : (determine_chunk_size gap ≡ 1048676) ↔ (
    ((1000 ≤ gap) × (gap ≤ 1024))
    ⊎ ((gap ≡ 8000) ⊎ ((gap ≡ 64000) ⊎ ((gap ≡ 256000) ⊎ (gap ≡ 1000000)))))
one_megabyte_chunks_example = one_megabyte_chunks gap (omega arith)

determine_chunk_size_bounds_example :
    (64 ≤ determine_chunk_size 8000) × (determine_chunk_size 8000 ≤ 1048676)
determine_chunk_size_bounds_example = determine_chunk_size_bounds 8000

progress_reported_example :
    let after = worker clock 2 (new_transfer ann 5 notes content) in
    let whole = worker clock 3 (new_transfer ann 5 notes content) in
    (percent after.bytes_sent after.fsize ≡ after.bytes_sent * 100 / 2)
    × (percent after.bytes_sent after.fsize ≤ 100)
    × (percent whole.bytes_sent whole.fsize ≡ 100)
progress_reported_example =
    progress_reported clock ann 5 notes content (omega arith) (omega arith) 2

empty_file_never_ends_example :
    (worker clock 12 (new_transfer ann 5 notes [])).sent
    ≡ file_frame (begin_chunk 1000 (new_transfer ann 5 notes [])) control_payload_bytes ∷ []
empty_file_never_ends_example = empty_file_never_ends clock ann 5 notes 10

begin_received_example :
    (s' : Session) × (arrive manager_ops env
        (name_frame 1000 file_transfer_begin 5 (pack_metadata 64 2) ann notes)
        ready_session
        (new_manager bob)
      ≡ some (
        s',
        put_message_into_app_mailbox
            (app_file_transfer_begin (begin_data ann notes 5 64 2))
            (new_manager bob),
      ))
    × IsReceiving 64 2 s'
unfolding begin_data
begin_received_example =
    begin_received manager_ops env ready_session (new_manager bob) ready 1000 5 ann notes
      (omega arith) (omega arith) fits 64 2 (omega arith) (omega arith)

offer_received_example :
    arrive manager_ops env
      (name_frame 1000 file_offer 5 2 ann notes)
      ready_session
      (new_manager bob)
    ≡ some (
      start_reading_frames (record ready_session {
        read_buf = name_frame 1000 file_offer 5 2 ann notes;
        total_bytes_read = 0;
      }),
      put_message_into_app_mailbox
          (app_file_offer
            (record { correlation_key = 5; csize = 0; fsize = 2; fdata = name_text ann notes }))
          (new_manager bob),
    )
offer_received_example =
    offer_received manager_ops env ready_session (new_manager bob) ready 1000 5 ann notes
      (omega arith) (omega arith) fits 2 (omega arith)

-- Bob's session while Ann's file comes in.
abbrev receiving_session : Session
receiving_session = record ready_session {
  csize = 64;
  fsize = 2;
  total_bytes_read = 0;
  file_read_buf = replicate 85 0;
  io = read_chunk 85 ∷ [];
}

receiving : IsReceiving 64 2 receiving_session
unfolding start_reading_frames new_session
receiving = record {
  prepared = refl;
  chunk_size = refl;
  file_size = refl;
  nothing_read = refl;
  room = refl;
  waiting = refl;
}

clock_64_bits : (i : ℕ) → clock i < 2 ^ 64
clock_64_bits i = omega arith

receive_blocks_example :
    (s' : Session) × (arrive_all manager_ops env
        (data_frames clock 5 64 1 (content ∷ []))
        receiving_session
        (new_manager bob)
      ≡ some (s', put_all manager_ops (data_events 5 64 2 (content ∷ [])) (new_manager bob)))
    × IsReady s'
receive_blocks_example =
    receive_blocks manager_ops env clock clock_64_bits 5 64 2 (omega arith) (omega arith)
      (content ∷ []) 1 receiving_session (new_manager bob) (omega arith) receiving

save_file_example :
    (k' : Client) × (listen_to_mail
        (app_file_transfer_begin (begin_data ann notes 5 64 2) ∷ data_events 5 64 2 (content ∷ []))
        client
      ≡ some k')
    × HasSaved ann notes 5 (join (content ∷ [])) client k'
unfolding join
save_file_example =
    save_file ann notes 5 64 2 (content ∷ []) client no_bar works (omega arith, omega arith) refl
