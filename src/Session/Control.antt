-- ===== src/Session/Control.antt =====
-- The small frames of a file transfer: the offer, the acceptance and the rejection
-- (include/BVTCPSession.hpp).
use local_chat_xxx.Common.{
  ℕ, ◌*◌, ◌^◌, ◌<◌, ◌≡◌, refl, sym, ap, ◌∙◌, ◌==◌, arith, length, drop, Bool, true, false,
  if◌then◌else◌, [], Option, none, some,
}
use local_chat_xxx.Common.Results.{◌>>=◌}
use local_chat_xxx.Common.Bytes.{Bytes, load}
use local_chat_xxx.Wire.Defs.{
  FileChunk, chatmessage, control_payload_bytes, file_offer, file_accept, file_reject,
  construct_file_chunk, construct_file_header, write_file_chunk_sync, file_frame, get_file_header,
  get_msg_header,
}
use local_chat_xxx.Wire.Frame.{length-file_frame, file_frame_layout, get_file_header-file_frame}
use local_chat_xxx.Transfer.Defs.{name_payload}
use local_chat_xxx.Session.Defs.{
  Session, write, read_frame, start, start_reading_frames, is_unprepared,
}
use local_chat_xxx.Session.Handlers.{
  Env, ManagerOps, dispatch_file_header, finish_frame, read_message_frame_callback,
}
use local_chat_xxx.Session.Reads.{established_frame, standard_other}
use local_chat_xxx.Session.Arrival.{arrive, arrive_frame}
use local_chat_xxx.Session.Files.{IsReady}
use local_chat_xxx.Session.Announce.{name_chunk, name_frame}

unfoldable pub written : Option Bytes → Session → Session
written none s = s
written (some b) s = start s (write b)

-- Whether the blocking write succeeds is not looked at.
unfoldable pub send_control_chunk : FileChunk → Session → Session
send_control_chunk chunk s = written ((write_file_chunk_sync false chunk control_payload_bytes).1) s

unfoldable pub send_file_offer : ℕ → ℕ → ℕ → Bytes → Session → Session
send_file_offer now key fsize name s =
    send_control_chunk
      (construct_file_chunk (construct_file_header now file_offer key fsize)
        (name_payload s.this_machine_service_name name))
      s

unfoldable pub send_file_control : ℕ → ℕ → ℕ → Session → Session
send_file_control now key msg_type s =
    send_control_chunk (construct_file_chunk (construct_file_header now msg_type key 0) []) s

-- The frame of an acceptance or a rejection.
abbrev pub control_chunk : ℕ → ℕ → ℕ → FileChunk
control_chunk now msg_type key = construct_file_chunk (construct_file_header now msg_type key 0) []

abbrev pub control_frame : ℕ → ℕ → ℕ → Bytes
control_frame now msg_type key = file_frame (control_chunk now msg_type key) 117

pub send_file_control_io :
    (now key msg_type : ℕ) (s : Session)
    → send_file_control now key msg_type s ≡ start s (write (control_frame now msg_type key))
unfolding send_file_control send_control_chunk written write_file_chunk_sync
send_file_control_io now key msg_type s = refl

pub send_file_offer_io :
    (now key fsize : ℕ) (name : Bytes) (s : Session)
    → send_file_offer now key fsize name s
      ≡ start s (write (name_frame now file_offer key fsize s.this_machine_service_name name))
unfolding send_file_offer send_control_chunk written write_file_chunk_sync name_chunk
send_file_offer_io now key fsize name s = refl

module _ (now msg_type key : ℕ) (clock_ok : now < 5 * 2 ^ 40) (type_ok : msg_type < 256)
    (key_ok : key < 2 ^ 32) where
  abbrev f : Bytes
  f = control_frame now msg_type key

  control_header :
      get_file_header f
      ≡ record { correlation_key = key; timestamp = now; msg_type = msg_type; metadata = 0 }
  unfolding construct_file_chunk construct_file_header
  control_header = get_file_header-file_frame (control_chunk now msg_type key) 117 (record {
    key_fits = key_ok;
    timestamp_fits = omega arith;
    type_fits = type_ok;
    metadata_fits = omega arith;
  })

  no_chat : ((get_msg_header f).msg_type == chatmessage) ≡ false
  unfolding get_msg_header construct_file_chunk construct_file_header
  no_chat =
      ap (λ g. load 1 (drop 9 g) == 5) (file_frame_layout (control_chunk now msg_type key) 117)
      ∙ ground arith

  module _ {W : Type 0} (m : ManagerOps W) (env : Env) (s : Session) (w : W)
      (ready : IsReady s) where
    arrive_control : arrive m env f s w ≡ (
        dispatch_file_header m (record s { read_buf = f; total_bytes_read = 0 }) w >>= λ r.
        some ((if r.0 then r.1 else finish_frame m r.1), r.2))
    unfolding is_unprepared
    arrive_control =
        arrive_frame m env f s w (ready.waiting ∙ ap (λ k. some (read_frame k)) (sym size))
          ready.nothing_read (size ∙ sym ready.room)
        ∙ ap (λ k. read_message_frame_callback m env false k (record s { read_buf = f }) w) size
        ∙ established_frame m env (record s { read_buf = f }) w (ap is_unprepared ready.prepared)
            ready.nothing_read
        ∙ ap (λ o. o >>= λ r. some ((if r.0 then r.1 else finish_frame m r.1), r.2))
            (standard_other m (record s { read_buf = f; total_bytes_read = 0 }) w no_chat)
      where
        size : length f ≡ 138
        size = length-file_frame (control_chunk now msg_type key) 117

    abbrev read_next : Session
    read_next = start_reading_frames (record s { read_buf = f; total_bytes_read = 0 })

    answer_header :
        {t : ℕ}
        → msg_type ≡ t
        → get_file_header f
          ≡ record { correlation_key = key; timestamp = now; msg_type = t; metadata = 0 }
    answer_header e =
        control_header
        ∙ ap (λ t. record { correlation_key = key; timestamp = now; msg_type = t; metadata = 0 }) e

    abbrev early : W → Option (Bool × Session × W)
    early w' = some (true, read_next, w')

    abbrev late : Bool × Session × W → Option (Session × W)
    late r = some ((if r.0 then r.1 else finish_frame m r.1), r.2)

    dispatched :
        (accept : Bool)
        → msg_type ≡ (if accept then file_accept else file_reject)
        → dispatch_file_header m (record s { read_buf = f; total_bytes_read = 0 }) w
          ≡ (m.signal_file_transfer key accept w >>= early)
    unfolding dispatch_file_header
    dispatched true e = simp (answer_header e)
    dispatched false e = simp (answer_header e)

    read_on : (o : Option W) → ((o >>= early) >>= late) ≡ (o >>= λ w'. some (read_next, w'))
    read_on none = refl
    read_on (some v) = refl

    -- An answer to an offer, an acceptance or a rejection, is signalled to the manager with the key
    -- it names, and the session reads the next frame.
    pub answer_signalled :
        (accept : Bool)
        → msg_type ≡ (if accept then file_accept else file_reject)
        → arrive m env f s w ≡ (
            m.signal_file_transfer key accept w >>= λ w'.
            some (start_reading_frames (record s { read_buf = f; total_bytes_read = 0 }), w'))
    answer_signalled accept e =
        arrive_control
        ∙ ap (λ o. o >>= λ r. some ((if r.0 then r.1 else finish_frame m r.1), r.2))
            (dispatched accept e)
        ∙ read_on (m.signal_file_transfer key accept w)
