-- ===== src/Session/Arrival.antt =====
-- Bytes that arrive for a session. A pending read completes when as many bytes have come as it
-- asked for, and they are then in the buffer; TCP keeps their order.
use local_chat_xxx.Common.{
  ◌≡◌, refl, ap, ◌∙◌, false, if◌then◌else◌, ◌==◌, ==_refl, List, [], ◌∷◌, ◌++◌, Option, none, some,
  length,
}
use local_chat_xxx.Common.Results.{◌>>=◌}
use local_chat_xxx.Common.Bytes.{Bytes, write_at, overlay_whole}
use local_chat_xxx.Session.Defs.{Session, Io, write, read_frame, read_chunk, cancel}
use local_chat_xxx.Session.Handlers.{
  Env, ManagerOps, read_message_frame_callback, read_file_chunk_callback,
}

-- The read that was started last.
abbrev pub last_io : List Io → Option Io
last_io [] = none
last_io (a ∷ []) = some a
last_io (a ∷ (b ∷ r)) = last_io (b ∷ r)

pub last_io-snoc : (xs : List Io) (a : Io) → last_io (xs ++ (a ∷ [])) ≡ some a
last_io-snoc [] a = refl
last_io-snoc (x ∷ []) a = refl
last_io-snoc (x ∷ (y ∷ r)) a = last_io-snoc (y ∷ r) a

module _ {W : Type 0} (m : ManagerOps W) (env : Env) where
  -- `none`: the bytes are not what the session waits for.
  complete : Io → Bytes → Session → W → Option (Session × W)
  complete (write b) bytes s w = none
  complete cancel bytes s w = none
  complete (read_frame n) bytes s w =
      if length bytes == n
      then read_message_frame_callback m env false n
          (record s { read_buf = write_at s.total_bytes_read bytes s.read_buf }) w
      else none
  complete (read_chunk n) bytes s w =
      if length bytes == n
      then read_file_chunk_callback m false n
          (record s { file_read_buf = write_at s.total_bytes_read bytes s.file_read_buf }) w
      else none

  complete_last : Option Io → Bytes → Session → W → Option (Session × W)
  complete_last none bytes s w = none
  complete_last (some io) bytes s w = complete io bytes s w

  pub arrive : Bytes → Session → W → Option (Session × W)
  arrive bytes s w = complete_last (last_io s.io) bytes s w

  pub arrive_all : List Bytes → Session → W → Option (Session × W)
  arrive_all [] s w = some (s, w)
  arrive_all (f ∷ fs) s w = arrive f s w >>= λ r. arrive_all fs r.0 r.1

  pub arrive_all-cons :
      (f : Bytes) (fs : List Bytes) (s : Session) (w : W) {r : Session × W}
      → arrive f s w ≡ some r
      → arrive_all (f ∷ fs) s w ≡ arrive_all fs r.0 r.1
  unfolding arrive_all
  arrive_all-cons f fs s w e = rw e

  pub arrive_all-nil : (s : Session) (w : W) → arrive_all [] s w ≡ some (s, w)
  unfolding arrive_all
  arrive_all-nil s w = refl

  pub arrive_frame :
      (bytes : Bytes) (s : Session) (w : W)
      → last_io s.io ≡ some (read_frame (length bytes))
      → s.total_bytes_read ≡ 0
      → length bytes ≡ length s.read_buf
      → arrive bytes s w
        ≡ read_message_frame_callback m env false (length bytes) (record s { read_buf = bytes }) w
  unfolding arrive complete_last complete
  arrive_frame bytes s w e t size =
      ap (λ o. complete_last o bytes s w) e
      ∙ simp (t, ==_refl (length bytes), overlay_whole bytes s.read_buf size)

  pub arrive_chunk :
      (bytes : Bytes) (s : Session) (w : W)
      → last_io s.io ≡ some (read_chunk (length bytes))
      → s.total_bytes_read ≡ 0
      → length bytes ≡ length s.file_read_buf
      → arrive bytes s w
        ≡ read_file_chunk_callback m false (length bytes) (record s { file_read_buf = bytes }) w
  unfolding arrive complete_last complete
  arrive_chunk bytes s w e t size =
      ap (λ o. complete_last o bytes s w) e
      ∙ simp (t, ==_refl (length bytes), overlay_whole bytes s.file_read_buf size)
