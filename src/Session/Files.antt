-- ===== src/Session/Files.antt =====
-- Receiving a file: the announcement, the chunks and the end, as events for the application.
use local_chat_xxx.Common.{
  ℕ, suc, ◌+◌, ◌%◌, ◌^◌, ◌<◌, ◌≡◌, refl, ap, sym, ◌∙◌, subst, false, arith, List, [], ◌∷◌, some,
  length, replicate, length-replicate,
}
use local_chat_xxx.Common.Bytes.{Bytes, overlay, length-overlay}
use local_chat_xxx.Wire.Defs.{
  FileData, FileHeader, file_transfer_chunk_sent, file_transfer_end, construct_file_chunk,
  construct_file_header, get_file_header, get_file_data,
}
use local_chat_xxx.Wire.Frame.{
  length-file_frame, get_file_header-file_frame, get_file_data-file_frame, padded_whole,
}
use local_chat_xxx.Transfer.Defs.{data_chunk}
use local_chat_xxx.Transfer.Run.{block_frame, data_frames}
use local_chat_xxx.Session.Defs.{
  Session, AppEvent, app_file_transfer_chunk_sent, app_file_transfer_end, established, read_frame,
  read_chunk, clear_read_buffer, clear_file_buffer, start_reading_frames, start_reading_chunks,
}
use local_chat_xxx.Session.Handlers.{
  Env, ManagerOps, read_file_chunk_callback, on_receive_file_chunk_sent,
  on_receive_file_transfer_end,
}
use local_chat_xxx.Session.Reads.{start_chunks_io, is_null_fresh}
use local_chat_xxx.Session.Arrival.{
  last_io, last_io-snoc, arrive, arrive_chunk, arrive_all, arrive_all-cons, arrive_all-nil,
}

-- In the middle of a file with chunks of `c` bytes and `f` bytes in all.
pub record IsReceiving (c f : ℕ) (s : Session) : Type 0 where
  pub prepared : s.state ≡ established
  pub chunk_size : s.csize ≡ c
  pub file_size : s.fsize ≡ f
  pub nothing_read : s.total_bytes_read ≡ 0
  pub room : length s.file_read_buf ≡ c + 21
  pub waiting : last_io s.io ≡ some (read_chunk (c + 21))

-- Back at reading frames, with the buffers ready.
pub record IsReady (s : Session) : Type 0 where
  pub prepared : s.state ≡ established
  pub nothing_read : s.total_bytes_read ≡ 0
  pub room : length s.read_buf ≡ 138
  pub waiting : last_io s.io ≡ some (read_frame 138)

-- What the application is told of one block: the block over zeros, and the sizes announced.
abbrev pub block_data : ℕ → ℕ → ℕ → Bytes → FileData
block_data key c f block = record {
  correlation_key = key;
  csize = c;
  fsize = f;
  fdata = overlay block (replicate c 0);
}

-- The events of all blocks.
unfoldable pub data_events : ℕ → ℕ → ℕ → List Bytes → List AppEvent
data_events key c f [] = []
data_events key c f (b ∷ []) = app_file_transfer_end (block_data key c f b) ∷ []
data_events key c f (b ∷ (d ∷ bs)) =
    app_file_transfer_chunk_sent (block_data key c f b) ∷ data_events key c f (d ∷ bs)

block_header : ℕ → ℕ → ℕ → FileHeader
block_header now ty key = record {
  correlation_key = key;
  timestamp = now;
  msg_type = ty;
  metadata = 0;
}

block_header_read :
    (now ty key c : ℕ) (b : Bytes)
    → now < 2 ^ 64
    → ty < 256
    → key < 2 ^ 32
    → get_file_header (block_frame now ty key c b) ≡ block_header now ty key
unfolding block_frame data_chunk construct_file_chunk construct_file_header block_header
block_header_read now ty key c b hn ht hk =
    get_file_header-file_frame _ c
      (record { key_fits = hk; timestamp_fits = hn; type_fits = ht; metadata_fits = omega arith })

block_data_read :
    (now ty key c : ℕ) (b : Bytes)
    → get_file_data (block_frame now ty key c b) c ≡ overlay b (replicate c 0)
unfolding block_frame data_chunk construct_file_chunk
block_data_read now ty key c b =
    get_file_data-file_frame _ c
    ∙ padded_whole c (overlay b (replicate c 0))
        (length-overlay b (replicate c 0) ∙ length-replicate c 0)

length-block_frame : (now ty key c : ℕ) (b : Bytes) → length (block_frame now ty key c b) ≡ c + 21
unfolding block_frame
length-block_frame now ty key c b =
    omega (arith, length-file_frame (data_chunk now ty key (overlay b (replicate c 0))) c)

module _ {W : Type 0} (m : ManagerOps W) where
  abbrev pub put_all : List AppEvent → W → W
  put_all [] w = w
  put_all (e ∷ es) w = put_all es (m.put_message_into_app_mailbox e w)

module _ {W : Type 0} (m : ManagerOps W) (env : Env) where
  module _ (now key c f : ℕ) (b : Bytes) (hn : now < 2 ^ 64) (hk : key < 2 ^ 32)
      (hc : c + 21 < 2 ^ 32) (s : Session) (w : W) (h : IsReceiving c f s) where
    abbrev held : ℕ → Session
    held ty = record s { file_read_buf = block_frame now ty key c b }

    chunk_event :
        on_receive_file_chunk_sent m (held file_transfer_chunk_sent) w
        ≡ m.put_message_into_app_mailbox (app_file_transfer_chunk_sent (block_data key c f b)) w
    unfolding on_receive_file_chunk_sent block_header
    chunk_event = simp (
      block_header_read now file_transfer_chunk_sent key c b hn (omega arith) hk,
      h.chunk_size,
      h.file_size,
      block_data_read now file_transfer_chunk_sent key c b,
    )

    end_event :
        on_receive_file_transfer_end m (held file_transfer_end) w
        ≡ m.put_message_into_app_mailbox (app_file_transfer_end (block_data key c f b)) w
    unfolding on_receive_file_transfer_end block_header
    end_event = simp (
      block_header_read now file_transfer_end key c b hn (omega arith) hk,
      h.chunk_size,
      h.file_size,
      block_data_read now file_transfer_end key c b,
    )

    abbrev next_chunk : Session
    next_chunk =
        start_reading_chunks ((s.csize + 21) % 2 ^ 32)
          (record s { total_bytes_read = 0; file_read_buf = replicate (s.csize + 21) 0 })

    abbrev next_frame : Session
    next_frame = start_reading_frames (clear_read_buffer (clear_file_buffer s))

    chunk_callback :
        read_file_chunk_callback m false (c + 21) (held file_transfer_chunk_sent) w
        ≡ some (
          next_chunk,
          m.put_message_into_app_mailbox (app_file_transfer_chunk_sent (block_data key c f b)) w,
        )
    unfolding read_file_chunk_callback block_header
    chunk_callback =
        rw (block_header_read now file_transfer_chunk_sent key c b hn (omega arith) hk)
          (ap (λ v. some (next_chunk, v)) chunk_event)

    end_callback :
        read_file_chunk_callback m false (c + 21) (held file_transfer_end) w
        ≡ some (
          next_frame,
          m.put_message_into_app_mailbox (app_file_transfer_end (block_data key c f b)) w,
        )
    unfolding read_file_chunk_callback block_header clear_read_buffer clear_file_buffer
        start_reading_frames
    end_callback =
        rw (block_header_read now file_transfer_end key c b hn (omega arith) hk)
          (ap (λ v. some (next_frame, v)) end_event)

    arrive_block :
        (ty : ℕ)
        → arrive m env (block_frame now ty key c b) s w
          ≡ read_file_chunk_callback m false (c + 21) (held ty) w
    arrive_block ty =
        arrive_chunk m env (block_frame now ty key c b) s w
          (h.waiting ∙ ap (λ k. some (read_chunk k)) (sym size)) h.nothing_read (size ∙ sym h.room)
        ∙ ap (λ k. read_file_chunk_callback m false k (held ty) w) size
      where
        size : length (block_frame now ty key c b) ≡ c + 21
        size = length-block_frame now ty key c b

    next_chunk-IsReceiving : IsReceiving c f next_chunk
    next_chunk-IsReceiving =
        subst (IsReceiving c f)
          (sym (start_chunks_io _ _ (is_null_fresh s.csize) refl (omega (arith, h.chunk_size, hc))))
          (record {
            prepared = h.prepared;
            chunk_size = h.chunk_size;
            file_size = h.file_size;
            nothing_read = refl;
            room = length-replicate (s.csize + 21) 0 ∙ omega (arith, h.chunk_size);
            waiting =
                last_io-snoc s.io _
                ∙ ap (λ k. some (read_chunk k)) (omega (arith, h.chunk_size, hc));
          })

    next_frame-IsReady : IsReady next_frame
    unfolding start_reading_frames clear_read_buffer clear_file_buffer
    next_frame-IsReady = record {
      prepared = h.prepared;
      nothing_read = refl;
      room = refl;
      waiting = last_io-snoc s.io (read_frame 138);
    }

  module _ (clock : ℕ → ℕ) (in_range : (i : ℕ) → clock i < 2 ^ 64) (key c f : ℕ) (hk : key < 2 ^ 32)
      (hc : c + 21 < 2 ^ 32) where
    -- The frames of at least one block, with a 32-bit key, a 64-bit clock and chunks whose frames fit
    -- 32 bits, reach a session in the middle of that file.
    -- They become one event each, in order, with the end last. Each
    -- frame is as long as the read that waits for it, and after the last one the session reads
    -- ordinary frames again.
    pub receive_blocks :
        (bs : List Bytes) (i : ℕ) (s : Session) (w : W)
        → 0 < length bs
        → IsReceiving c f s
        → (s' : Session) × (arrive_all m env (data_frames clock key c i bs) s w
            ≡ some (s', put_all m (data_events key c f bs) w))
          × IsReady s'
    unfolding data_frames data_events
    receive_blocks [] i s w p h = absurd (omega arith)
    receive_blocks (b ∷ []) i s w p h = (
      next_frame (clock i) key c f b (in_range i) hk hc s w h,
      arrive_all-cons m env _ [] s w (
            arrive_block (clock i) key c f b (in_range i) hk hc s w h file_transfer_end
            ∙ end_callback (clock i) key c f b (in_range i) hk hc s w h)
          ∙ arrive_all-nil m env _ _,
      next_frame-IsReady (clock i) key c f b (in_range i) hk hc s w h,
    )
    receive_blocks (b ∷ (d ∷ bs)) i s w p h =
        let (s', e, ready) =
          receive_blocks (d ∷ bs) (suc i) _ _ (omega arith)
            (next_chunk-IsReceiving (clock i) key c f b (in_range i) hk hc s w h) in
        (
          s',
          arrive_all-cons m env _ _ s w (
                arrive_block (clock i) key c f b (in_range i) hk hc s w h file_transfer_chunk_sent
                ∙ chunk_callback (clock i) key c f b (in_range i) hk hc s w h)
              ∙ e,
          ready,
        )
