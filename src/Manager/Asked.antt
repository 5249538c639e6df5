-- ===== src/Manager/Asked.antt =====
-- A file is offered on one machine and the question reaches the application of the other.
use local_chat_xxx.Manager.Defs.{
  Manager, filename, initiate_file_transfer_with_session, manager_ops, put_message_into_app_mailbox,
}
use local_chat_xxx.Session.Announce.{
  FitsFrame, length-name_frame, name_frame, name_text, offer_received,
}
use local_chat_xxx.Common.{[], arith, refl, some, ℕ, ◌%◌, ◌*◌, ◌++◌, ◌<◌, ◌^◌, ◌∷◌, ◌≡◌}
use local_chat_xxx.Session.Handlers.{Env}
use local_chat_xxx.Manager.Offers.{lookup-put_session, offer_made, offered}
use local_chat_xxx.Common.Assoc.{bytes_eq, lookup, lookup-insert_self, nat_eq}
use local_chat_xxx.Common.Bytes.{Bytes}
use local_chat_xxx.Session.Defs.{
  Session, app_file_offer, read_frame, start, start_reading_frames, write,
}
use local_chat_xxx.Session.Files.{IsReady}
use local_chat_xxx.Wire.Defs.{FileData, file_offer}
use local_chat_xxx.Session.Arrival.{arrive, last_io-snoc}

module _ (now sid size : ℕ) (path : Bytes) (m : Manager) (s : Session)
    (found : lookup sid m.sessions ≡ some s) where
  -- The frame of the offer.
  abbrev pub offer_frame : Bytes
  offer_frame =
      name_frame now file_offer m.next_ftcid (size % 2 ^ 32) s.this_machine_service_name
        (filename path)

  -- What the other application is told.
  abbrev pub asked : FileData
  asked = record {
    correlation_key = m.next_ftcid;
    csize = 0;
    fsize = size % 2 ^ 32;
    fdata = name_text s.this_machine_service_name (filename path);
  }

  -- A file is offered on a session, under names that fit a frame, with a 32-bit key and before the
  -- sixth byte of the clock reaches 5. The offering succeeds, the session writes one frame and nothing
  -- else, and the path waits under the key for an answer. When the frame arrives at the peer's ready
  -- session, the peer's application is asked, with the same key, the size in 32 bits, this machine's
  -- name and the name of the file, and the peer's session is ready for the next frame.
  pub offer_reaches_peer :
      (env : Env) (t : Session) (w : Manager)
      → now < 5 * 2 ^ 40
      → m.next_ftcid < 2 ^ 32
      → FitsFrame s.this_machine_service_name (filename path)
      → IsReady t
      → (m' : Manager) × (s' t' : Session) × (initiate_file_transfer_with_session now sid size path
            m
          ≡ some m')
        × (lookup sid m'.sessions ≡ some s')
        × (s'.io ≡ s.io ++ (write offer_frame ∷ []))
        × (lookup m.next_ftcid m'.pending_outgoing ≡ some (sid, path))
        × (arrive manager_ops env offer_frame t w
            ≡ some (t', put_message_into_app_mailbox (app_file_offer asked) w))
        × IsReady t'
  unfolding start_reading_frames
  offer_reaches_peer env t w clock_ok key_ok fits awaiting = (
    offered now sid size path m s found,
    start s (write offer_frame),
    start_reading_frames (record t { read_buf = offer_frame; total_bytes_read = 0 }),
    offer_made now sid size path m s found,
    lookup-put_session sid (start s (write offer_frame)) m.sessions,
    refl,
    lookup-insert_self m.next_ftcid (sid, path) m.pending_outgoing,
    offer_received manager_ops env t w awaiting now m.next_ftcid s.this_machine_service_name
        (filename path) clock_ok key_ok fits (size % 2 ^ 32) (omega arith),
    record {
      prepared = awaiting.prepared;
      nothing_read = refl;
      room =
          length-name_frame now file_offer m.next_ftcid (size % 2 ^ 32) s.this_machine_service_name
            (filename path);
      waiting = last_io-snoc t.io (read_frame 138);
    },
  )
