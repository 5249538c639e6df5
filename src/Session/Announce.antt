-- ===== src/Session/Announce.antt =====
-- The frame that announces a file, and what a ready session makes of it.
use local_chat_xxx.Common.{
  ℕ, ◌+◌, ◌*◌, ◌%◌, ◌^◌, ◌<◌, ◌≡◌, refl, ap, sym, ◌∙◌, subst, true, false, arith, if◌then◌else◌,
  ◌==◌, [], ◌∷◌, ◌++◌, some, length, replicate, length-replicate, append_assoc, drop,
}
use local_chat_xxx.Common.Results.{◌>>=◌}
use local_chat_xxx.Common.Bytes.{Bytes, load, Avoids, Avoids-append}
use local_chat_xxx.Wire.Defs.{
  FileChunk, chatmessage, file_offer, file_transfer_begin, construct_file_chunk,
  construct_file_header, file_frame, get_file_header, get_msg_header, get_file_text, pack_metadata,
}
use local_chat_xxx.Wire.Frame.{
  length-file_frame, file_frame_layout, get_file_header-file_frame, metadata_sizes,
  pack_metadata_fits, offer_fsize_fits,
}
use local_chat_xxx.Wire.Text.{get_file_text-file_frame}
use local_chat_xxx.Transfer.Defs.{name_payload}
use local_chat_xxx.Session.Defs.{
  Session, app_file_offer, app_file_transfer_begin, read_frame, start_reading_frames, read_chunk,
  is_unprepared, clear_read_buffer, start_reading_chunks,
}
use local_chat_xxx.Session.Handlers.{
  Env, ManagerOps, on_receive_file_transfer_begin, dispatch_file_header, finish_frame,
  on_receive_file_offer, read_message_frame_callback,
}
use local_chat_xxx.Session.Reads.{start_chunks_io, is_null_fresh, standard_other, established_frame}
use local_chat_xxx.Session.Arrival.{last_io-snoc, arrive, arrive_frame}
use local_chat_xxx.Session.Files.{IsReceiving, IsReady}

-- The names in an announcement, without the terminator.
abbrev pub name_text : Bytes → Bytes → Bytes
name_text service name = service ++ (b'|' ∷ name)

-- Names that fit a control frame with their terminator, and hold no NUL.
pub record FitsFrame (service name : Bytes) : Type 0 where
  pub short : length (name_text service name) < 117
  pub service_clean : Avoids 0 service
  pub name_clean : Avoids 0 name

-- A file frame of type `ty` that carries names, as `SendFileOffer` and the first chunk make it.
unfoldable pub name_chunk : ℕ → ℕ → ℕ → ℕ → Bytes → Bytes → FileChunk
name_chunk now ty key metadata service name =
    construct_file_chunk (construct_file_header now ty key metadata) (name_payload service name)

name_payload_lem :
    (service name : Bytes) → name_payload service name ≡ name_text service name ++ (0 ∷ [])
unfolding name_payload
name_payload_lem service name = sym (append_assoc service (b'|' ∷ name) (0 ∷ []))

module _ (now ty key metadata : ℕ) (service name : Bytes) where
  abbrev pub name_frame : Bytes
  name_frame = file_frame (name_chunk now ty key metadata service name) 117

  pub name_frame_header :
      now < 2 ^ 64
      → ty < 256
      → key < 2 ^ 32
      → metadata < 2 ^ 64
      → get_file_header name_frame
        ≡ record { correlation_key = key; timestamp = now; msg_type = ty; metadata = metadata }
  unfolding name_chunk construct_file_chunk construct_file_header
  name_frame_header hn ht hk hm =
      get_file_header-file_frame (name_chunk now ty key metadata service name) 117
        (record { key_fits = hk; timestamp_fits = hn; type_fits = ht; metadata_fits = hm })

  pub name_frame_text : FitsFrame service name → get_file_text name_frame ≡ name_text service name
  unfolding name_chunk construct_file_chunk
  name_frame_text h =
      get_file_text-file_frame (name_chunk now ty key metadata service name)
        (name_text service name) (name_payload_lem service name) h.short
        (Avoids-append 0 service (b'|' ∷ name) h.service_clean
          ((λ e. absurd (omega arith)), h.name_clean))

  pub length-name_frame : length name_frame ≡ 138
  length-name_frame = length-file_frame (name_chunk now ty key metadata service name) 117

  -- Byte 9, where a message has its type, is the sixth byte of the time stamp.
  pub name_frame_is_no_chat :
      now < 5 * 2 ^ 40 → ((get_msg_header name_frame).msg_type == chatmessage) ≡ false
  unfolding get_msg_header name_chunk construct_file_chunk construct_file_header
  name_frame_is_no_chat h =
      ap (λ f. load 1 (drop 9 f) == 5)
        (file_frame_layout (name_chunk now ty key metadata service name) 117)
      ∙ ground arith

module _ {W : Type 0} (m : ManagerOps W) (env : Env) (s : Session) (w : W) (ready : IsReady s) where
  -- A frame with names reaches a ready session, which looks at it as a file header.
  module _ (now ty key metadata : ℕ) (service name : Bytes) (clock_ok : now < 5 * 2 ^ 40) where
    abbrev f : Bytes
    f = name_frame now ty key metadata service name

    abbrev pub named : Session
    named = record s { read_buf = f; total_bytes_read = 0 }

    pub arrive_name_frame : arrive m env f s w ≡ (
        dispatch_file_header m named w >>= λ r.
        some ((if r.0 then r.1 else finish_frame m r.1), r.2))
    unfolding is_unprepared
    arrive_name_frame =
        arrive_frame m env f s w (ready.waiting ∙ ap (λ k. some (read_frame k)) (sym size))
          ready.nothing_read (size ∙ sym ready.room)
        ∙ ap (λ k. read_message_frame_callback m env false k (record s { read_buf = f }) w) size
        ∙ established_frame m env (record s { read_buf = f }) w (ap is_unprepared ready.prepared)
            ready.nothing_read
        ∙ ap (λ o. o >>= λ r. some ((if r.0 then r.1 else finish_frame m r.1), r.2))
            (standard_other m named w
              (name_frame_is_no_chat now ty key metadata service name clock_ok))
      where
        size : length f ≡ 138
        size = length-name_frame now ty key metadata service name

  module _ (now key : ℕ) (service name : Bytes) (clock_ok : now < 5 * 2 ^ 40) (hk : key < 2 ^ 32)
      (fits : FitsFrame service name) where
    header :
        (fsize : ℕ)
        → fsize < 2 ^ 32
        → get_file_header (name_frame now file_offer key fsize service name) ≡ record {
          correlation_key = key;
          timestamp = now;
          msg_type = file_offer;
          metadata = fsize;
        }
    header fsize hf =
        name_frame_header now file_offer key fsize service name (omega arith) (omega arith) hk
          (omega arith)

    offer_event :
        (fsize : ℕ)
        → fsize < 2 ^ 32
        → on_receive_file_offer m (named now file_offer key fsize service name clock_ok) w
          ≡ m.put_message_into_app_mailbox
              (app_file_offer (record {
                correlation_key = key;
                csize = 0;
                fsize = fsize;
                fdata = name_text service name;
              }))
              w
    unfolding on_receive_file_offer
    offer_event fsize hf = simp (
      on_receive_file_offer,
      header fsize hf,
      name_frame_text now file_offer key fsize service name fits,
      offer_fsize_fits fsize hf,
    )

    offer_dispatched :
        (fsize : ℕ)
        → fsize < 2 ^ 32
        → dispatch_file_header m (named now file_offer key fsize service name clock_ok) w
          ≡ some (
            true,
            start_reading_frames (named now file_offer key fsize service name clock_ok),
            m.put_message_into_app_mailbox
                (app_file_offer (record {
                  correlation_key = key;
                  csize = 0;
                  fsize = fsize;
                  fdata = name_text service name;
                }))
                w,
          )
    unfolding dispatch_file_header
    offer_dispatched fsize hf = simp (header fsize hf) (
        ap
          (λ v.
            some (
              true,
              start_reading_frames (named now file_offer key fsize service name clock_ok),
              v,
            ))
          (offer_event fsize hf))

    abbrev waiting_for_chunks : ℕ → ℕ → Session
    waiting_for_chunks c size = start_reading_chunks ((c + 21) % 2 ^ 32) (record s {
      read_buf = replicate 138 0;
      csize = c;
      fsize = size;
      file_read_buf = replicate (c + 21) 0;
      total_bytes_read = 0;
    })

    begin_dispatched :
        (c size : ℕ)
        → c + 21 < 2 ^ 32
        → size < 2 ^ 32
        → dispatch_file_header m
            (named now file_transfer_begin key (pack_metadata c size) service name clock_ok)
            w
          ≡ some (
            true,
            waiting_for_chunks c size,
            m.put_message_into_app_mailbox
                (app_file_transfer_begin (record {
                  correlation_key = key;
                  csize = c;
                  fsize = size;
                  fdata = name_text service name;
                }))
                w,
          )
    unfolding dispatch_file_header on_receive_file_transfer_begin clear_read_buffer
    begin_dispatched c size hc hs =
        let sizes = metadata_sizes c size (omega arith) hs in
        simp (
          name_frame_header now file_transfer_begin key (pack_metadata c size) service name
              (omega arith) (omega arith) hk (pack_metadata_fits c size (omega arith) hs),
          name_frame_text now file_transfer_begin key (pack_metadata c size) service name fits,
          sizes.0,
          sizes.1,
        )

    -- An offer under names that fit, with a 32-bit key and size and before the sixth byte of the
    -- clock reaches 5, arrives at a ready session.
    -- It is told to the application with its key, its size and its names, and the session
    -- reads the next frame.
    pub offer_received :
        (fsize : ℕ)
        → fsize < 2 ^ 32
        → arrive m env (name_frame now file_offer key fsize service name) s w
          ≡ some (
            start_reading_frames (named now file_offer key fsize service name clock_ok),
            m.put_message_into_app_mailbox
                (app_file_offer (record {
                  correlation_key = key;
                  csize = 0;
                  fsize = fsize;
                  fdata = name_text service name;
                }))
                w,
          )
    offer_received fsize hf =
        arrive_name_frame now file_offer key fsize service name clock_ok
        ∙ ap (λ o. o >>= λ r. some ((if r.0 then r.1 else finish_frame m r.1), r.2))
            (offer_dispatched fsize hf)

    -- An announcement under names that fit, with a 32-bit key and sizes that fit 32 bits, before the
    -- sixth byte of the clock reaches 5, arrives at a ready session.
    -- It is told to the application with both sizes and its names, and the session
    -- waits for the first chunk.
    pub begin_received :
        (c size : ℕ)
        → c + 21 < 2 ^ 32
        → size < 2 ^ 32
        → (s' : Session) × (arrive m env
              (name_frame now file_transfer_begin key (pack_metadata c size) service name)
              s
              w
            ≡ some (
              s',
              m.put_message_into_app_mailbox
                  (app_file_transfer_begin (record {
                    correlation_key = key;
                    csize = c;
                    fsize = size;
                    fdata = name_text service name;
                  }))
                  w,
            ))
          × IsReceiving c size s'
    begin_received c size hc hs = (
      waiting_for_chunks c size,
      arrive_name_frame now file_transfer_begin key (pack_metadata c size) service name clock_ok
          ∙ ap (λ o. o >>= λ r. some ((if r.0 then r.1 else finish_frame m r.1), r.2))
              (begin_dispatched c size hc hs),
      subst (IsReceiving c size) (sym (start_chunks_io _ _ (is_null_fresh c) refl (omega arith)))
          (record {
            prepared = ready.prepared;
            chunk_size = refl;
            file_size = refl;
            nothing_read = refl;
            room = length-replicate (c + 21) 0;
            waiting = last_io-snoc s.io _ ∙ ap (λ k. some (read_chunk k)) (omega arith);
          }),
    )
