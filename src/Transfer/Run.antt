-- ===== src/Transfer/Run.antt =====
-- The worker sends the file block by block and stops.
use local_chat_xxx.Common.{
  ℕ, zero, suc, ◌+◌, ◌%◌, ◌^◌, ◌≤◌, ◌<◌, ◌≡◌, refl, sym, ap, ◌∙◌, true, false, inl, inr, subst,
  subst₂, arith, leb, ◌==◌, leb→le, leb→lt, Bool-cases, List, [], ◌∷◌, ◌++◌, append_assoc, length,
  take, drop, replicate, length-take, length-drop, length-append, take_all,
}
use local_chat_xxx.Common.Bytes.{Bytes, overlay}
use local_chat_xxx.Wire.Defs.{
  control_payload_bytes, file_transfer_chunk_sent, file_transfer_end, file_frame,
}
use local_chat_xxx.Transfer.Defs.{
  Transfer, ongoing, new_transfer, begin_chunk, data_chunk, is_first, is_last, transfer_begin,
  transfer_data, transfer_next_chunk, determine_chunk_size, worker,
}
use local_chat_xxx.Transfer.ChunkSize.{determine_chunk_size_bounds}
use local_chat_xxx.Transfer.Blocks.{blocks, blocks_short, blocks_long, blocks_pos}

-- The frame of one block, made at time `now`.
unfoldable pub block_frame : ℕ → ℕ → ℕ → ℕ → Bytes → Bytes
block_frame now msg_type ftcid c block =
    file_frame (data_chunk now msg_type ftcid (overlay block (replicate c 0))) c

-- The frames of all blocks, the last one marked as the end. Frame `i` is made at `clock i`.
unfoldable pub data_frames : (ℕ → ℕ) → ℕ → ℕ → ℕ → List Bytes → List Bytes
data_frames clock ftcid c i [] = []
data_frames clock ftcid c i (b ∷ []) = block_frame (clock i) file_transfer_end ftcid c b ∷ []
data_frames clock ftcid c i (b ∷ (d ∷ bs)) =
    block_frame (clock i) file_transfer_chunk_sent ftcid c b
    ∷ data_frames clock ftcid c (suc i) (d ∷ bs)

data_frames-cons :
    (clock : ℕ → ℕ) (ftcid c i : ℕ) (b : Bytes) (bs : List Bytes)
    → 0 < length bs
    → data_frames clock ftcid c i (b ∷ bs)
      ≡ block_frame (clock i) file_transfer_chunk_sent ftcid c b
        ∷ data_frames clock ftcid c (suc i) bs
unfolding data_frames
data_frames-cons clock ftcid c i b [] h = absurd (omega arith)
data_frames-cons clock ftcid c i b (d ∷ bs) h = refl

-- A transfer in the middle of its file.
pub record IsSending (t : Transfer) : Type 0 where
  pub state_ongoing : t.state ≡ ongoing
  pub running : t.is_running ≡ true
  pub readable : t.good ≡ true
  pub accounted : t.bytes_sent + length t.rest ≡ t.fsize
  pub more : 0 < length t.rest
  pub positive : 0 < t.csize
  pub no_wrap : t.fsize + t.csize < 2 ^ 32

-- The transfer after the last block, and after a block with more to come.
abbrev pub ended : ℕ → Transfer → Transfer
ended now t = record t {
  state = ongoing;
  is_running = false;
  bytes_sent = t.fsize;
  rest = drop t.csize t.rest;
  good = length (take t.csize t.rest) == t.csize;
  sent = t.sent ++ (block_frame now file_transfer_end t.ftcid t.csize (take t.csize t.rest) ∷ []);
}

abbrev pub advanced : ℕ → Transfer → Transfer
advanced now t = record t {
  state = ongoing;
  bytes_sent = t.bytes_sent + t.csize;
  rest = drop t.csize t.rest;
  good = true;
  sent =
      t.sent
      ++ (block_frame now file_transfer_chunk_sent t.ftcid t.csize (take t.csize t.rest) ∷ []);
}

module _ (now : ℕ) (t : Transfer) (h : IsSending t) where
  pub last_step : length t.rest ≤ t.csize → transfer_next_chunk now t ≡ ended now t
  unfolding transfer_next_chunk transfer_data block_frame is_first is_last
  last_step short = ground (arith, length-take t.csize t.rest)

  pub middle_step : t.csize < length t.rest → transfer_next_chunk now t ≡ advanced now t
  unfolding transfer_next_chunk transfer_data block_frame is_first is_last
  middle_step long = ground (arith, length-take t.csize t.rest)

  pub advanced-IsSending : t.csize < length t.rest → IsSending (advanced now t)
  advanced-IsSending long = record {
    state_ongoing = refl;
    running = h.running;
    readable = refl;
    accounted = omega (arith, length-drop t.csize t.rest, h.accounted);
    more = omega (arith, length-drop t.csize t.rest);
    positive = h.positive;
    no_wrap = h.no_wrap;
  }

-- The transfer has stopped, having sent these frames and counted every byte.
pub record Finished (t : Transfer) (frames : List Bytes) : Type 0 where
  pub stopped : t.is_running ≡ false
  pub all_sent : t.sent ≡ frames
  pub counted : t.bytes_sent ≡ t.fsize

module _ (clock : ℕ → ℕ) where
  pub worker_stopped : (fuel : ℕ) (t : Transfer) → t.is_running ≡ false → worker clock fuel t ≡ t
  unfolding worker
  worker_stopped zero t h = refl
  worker_stopped (suc fuel) t h = rw h

  pub worker_step :
      (fuel : ℕ) (t : Transfer)
      → t.is_running ≡ true
      → t.good ≡ true
      → worker clock (suc fuel) t
        ≡ worker clock fuel (transfer_next_chunk (clock (length t.sent)) t)
  unfolding worker
  worker_step fuel t h g = rw (h, g)

  frames_after : ℕ → Transfer → List Bytes
  frames_after n t =
      t.sent ++ data_frames clock t.ftcid t.csize (length t.sent) (blocks n t.csize t.rest)

  frames_last :
      (n : ℕ) (t : Transfer)
      → length t.rest ≤ t.csize
      → (ended (clock (length t.sent)) t).sent ≡ frames_after (suc n) t
  unfolding frames_after data_frames
  frames_last n t short = rw (blocks_short n t.csize t.rest short, take_all t.csize t.rest short)

  frames_middle :
      (n : ℕ) (t : Transfer)
      → t.csize < length t.rest
      → 0 < length (blocks n t.csize (drop t.csize t.rest))
      → frames_after n (advanced (clock (length t.sent)) t) ≡ frames_after (suc n) t
  unfolding frames_after
  frames_middle n t long more =
      append_assoc t.sent (f ∷ [])
        (data_frames clock t.ftcid t.csize (length (t.sent ++ (f ∷ []))) bs)
      ∙ ap (◌++◌ t.sent) (
          ap (λ k. f ∷ data_frames clock t.ftcid t.csize k bs) one_more
          ∙ sym
              (data_frames-cons clock t.ftcid t.csize (length t.sent) (take t.csize t.rest) bs more)
          ∙ ap (data_frames clock t.ftcid t.csize (length t.sent))
              (sym (blocks_long n t.csize t.rest long)))
    where
      f : Bytes
      f =
          block_frame (clock (length t.sent)) file_transfer_chunk_sent t.ftcid t.csize
            (take t.csize t.rest)

      bs : List Bytes
      bs = blocks n t.csize (drop t.csize t.rest)

      one_more : length (t.sent ++ (f ∷ [])) ≡ suc (length t.sent)
      one_more = omega (arith, length-append t.sent (f ∷ []))

  worker_data :
      (fuel : ℕ) (t : Transfer)
      → IsSending t
      → length t.rest ≤ fuel
      → Finished (worker clock fuel t) (frames_after fuel t)
  worker_data zero t h le = absurd (omega (arith, h.more, le))
  worker_data (suc fuel) t h le = elim (Bool-cases (leb (length t.rest) t.csize)) [
    | inl e ↦
        let short = leb→le (length t.rest) t.csize e in
        subst (λ x. Finished x (frames_after (suc fuel) t))
          (sym (
            worker_step fuel t h.running h.readable
            ∙ ap (worker clock fuel) (last_step now t h short)
            ∙ worker_stopped fuel (ended now t) refl))
          (record { stopped = refl; all_sent = frames_last fuel t short; counted = refl })
    | inr e ↦
        let long = leb→lt (length t.rest) t.csize e in
        subst₂ Finished
          (sym (
            worker_step fuel t h.running h.readable
            ∙ ap (worker clock fuel) (middle_step now t h long)))
          (frames_middle fuel t long (
            blocks_pos fuel t.csize (drop t.csize t.rest)
              (omega (arith, length-drop t.csize t.rest, h.positive))
              (omega (arith, length-drop t.csize t.rest))))
          (worker_data fuel (advanced now t) (advanced-IsSending now t h long)
            (omega (arith, length-drop t.csize t.rest, h.positive)))
  ]
    where
      now : ℕ
      now = clock (length t.sent)

  -- What a whole transfer of a file puts on the wire.
  unfoldable pub transfer_frames : Bytes → ℕ → Bytes → Bytes → List Bytes
  transfer_frames this_machine ftcid fname file =
      let c = determine_chunk_size (length file) in
      file_frame (begin_chunk (clock 0) (new_transfer this_machine ftcid fname file))
        control_payload_bytes
      ∷ data_frames clock ftcid c 1 (blocks (length file) c file)

  module _ (this_machine : Bytes) (ftcid : ℕ) (fname file : Bytes) (p : 0 < length file)
      (h : length file + 1048676 < 2 ^ 32) where
    abbrev t₀ : Transfer
    t₀ = new_transfer this_machine ftcid fname file

    pub whole_size : length file % 2 ^ 32 ≡ length file
    whole_size = omega arith

    pub begun-IsSending : IsSending (transfer_begin (clock 0) t₀)
    unfolding transfer_begin new_transfer
    begun-IsSending = record {
      state_ongoing = refl;
      running = refl;
      readable = refl;
      accounted = omega arith;
      more = p;
      positive = omega (arith, determine_chunk_size_bounds (length file % 2 ^ 32));
      no_wrap = omega (arith, determine_chunk_size_bounds (length file % 2 ^ 32));
    }

    begun_frames :
        frames_after (length file) (transfer_begin (clock 0) t₀)
        ≡ transfer_frames this_machine ftcid fname file
    unfolding frames_after transfer_begin transfer_frames new_transfer
    begun_frames =
        ap
          (λ c.
            file_frame (begin_chunk (clock 0) t₀) control_payload_bytes
            ∷ data_frames clock ftcid c 1 (blocks (length file) c file))
          (ap determine_chunk_size whole_size)

    first_step :
        worker clock (suc (length file)) t₀
        ≡ worker clock (length file) (transfer_begin (clock 0) t₀)
    unfolding transfer_next_chunk is_first new_transfer
    first_step = worker_step (length file) t₀ refl refl

    -- With one round for the announcement and at most one for each byte the worker stops by
    -- itself. It has sent the announcement and then the file in blocks, the last one marked as the
    -- end, and has counted every byte. The file is not empty, and its size leaves room for one more
    -- chunk in 32 bits.
    pub worker_sends_file :
        Finished
          (worker clock (suc (length file)) (new_transfer this_machine ftcid fname file))
          (transfer_frames this_machine ftcid fname file)
    unfolding transfer_begin new_transfer
    worker_sends_file =
        subst₂ Finished (sym first_step) begun_frames
          (worker_data (length file) (transfer_begin (clock 0) t₀) begun-IsSending (omega arith))

  -- An empty file is announced and nothing else: no frame marks its end.
  pub empty_file_never_ends :
      (this_machine : Bytes) (ftcid : ℕ) (fname : Bytes) (fuel : ℕ)
      → (worker clock (suc (suc fuel)) (new_transfer this_machine ftcid fname [])).sent
        ≡ file_frame
            (begin_chunk (clock 0) (new_transfer this_machine ftcid fname []))
            control_payload_bytes
          ∷ []
  unfolding worker new_transfer transfer_next_chunk transfer_data transfer_begin is_first is_last
      determine_chunk_size
  empty_file_never_ends this_machine ftcid fname fuel =
      ap (λ t. t.sent)
        (worker_stopped fuel
          (transfer_data (clock 1)
            (transfer_begin (clock 0) (new_transfer this_machine ftcid fname [])))
          refl)
