-- ===== src/Delivery.antt =====
-- A file from one machine's disk to the other's: the worker of the sender
-- (include/BVFileTransferContext.hpp), the session of the receiver (include/BVTCPSession.hpp) and
-- its application (src/BVApp_ConsoleClient.cpp, include/BVReceivedFile.hpp) together.
use local_chat_xxx.Common.{
  ℕ, suc, ◌+◌, ◌*◌, ◌%◌, ◌^◌, ◌<◌, ◌≡◌, ap, sym, ◌∙◌, subst, arith, List, [], ◌∷◌, ◌++◌, some,
  length, append_assoc, append-nil,
}
use local_chat_xxx.Common.Bytes.{Bytes, Avoids}
use local_chat_xxx.Wire.Defs.{file_frame, control_payload_bytes, file_transfer_begin, pack_metadata}
use local_chat_xxx.Session.Defs.{Session, AppEvent, app_file_transfer_begin}
use local_chat_xxx.Session.Handlers.{Env, ManagerOps}
use local_chat_xxx.Session.Arrival.{arrive, arrive_all, arrive_all-cons}
use local_chat_xxx.Session.Files.{IsReady, put_all, data_events, receive_blocks}
use local_chat_xxx.Session.Announce.{FitsFrame, name_chunk, name_frame, begin_received}
use local_chat_xxx.Transfer.Defs.{new_transfer, begin_chunk, worker, determine_chunk_size}
use local_chat_xxx.Transfer.ChunkSize.{determine_chunk_size_bounds}
use local_chat_xxx.Transfer.Blocks.{blocks, join, join-blocks, blocks-IsCut, blocks_pos}
use local_chat_xxx.Transfer.Run.{transfer_frames, worker_sends_file}
use local_chat_xxx.Received.Contents.{Works}
use local_chat_xxx.Client.Defs.{Client, listen_to_mail}
use local_chat_xxx.Client.Assembly.{HasSaved, begin_data, save_file}

-- The mailbox of the application, as the manager keeps it: what is put comes last.
pub record Mailbox {W : Type 0} (m : ManagerOps W) : Type 0 where
  pub inbox : W → List AppEvent
  pub inbox_put :
      (e : AppEvent) (w : W) → inbox (m.put_message_into_app_mailbox e w) ≡ inbox w ++ (e ∷ [])

module _ {W : Type 0} (m : ManagerOps W) (box : Mailbox m) where
  inbox-put_all : (es : List AppEvent) (w : W) → box.inbox (put_all m es w) ≡ box.inbox w ++ es
  inbox-put_all [] w = sym (append-nil (box.inbox w))
  inbox-put_all (e ∷ es) w =
      inbox-put_all es (m.put_message_into_app_mailbox e w)
      ∙ ap (λ b. b ++ es) (box.inbox_put e w)
      ∙ append_assoc (box.inbox w) (e ∷ []) es

  module _ (env : Env) (clock : ℕ → ℕ) (clock_ok : (i : ℕ) → clock i < 5 * 2 ^ 40) (sender : Bytes)
      (ftcid : ℕ) (fname file : Bytes) (more : 0 < length file)
      (small : length file + 1048676 < 2 ^ 32) (key_ok : ftcid < 2 ^ 32)
      (fits : FitsFrame sender fname) where
    abbrev c : ℕ
    c = determine_chunk_size (length file)

    abbrev events : List AppEvent
    events =
        app_file_transfer_begin (begin_data sender fname ftcid c (length file))
        ∷ data_events ftcid c (length file) (blocks (length file) c file)

    first_frame :
        file_frame
          (begin_chunk (clock 0) (new_transfer sender ftcid fname file))
          control_payload_bytes
        ≡ name_frame
            (clock 0)
            file_transfer_begin
            ftcid
            (pack_metadata c (length file))
            sender
            fname
    unfolding begin_chunk new_transfer name_chunk
    first_frame =
        ap
          (λ n.
            name_frame (clock 0) file_transfer_begin ftcid
              (pack_metadata (determine_chunk_size n) n) sender fname)
          whole
      where
        whole : length file % 2 ^ 32 ≡ length file
        whole = omega arith

    c_bound : c + 21 < 2 ^ 32
    c_bound = omega (arith, determine_chunk_size_bounds (length file))

    received :
        (s : Session) (w : W)
        → IsReady s
        → (s' : Session) × (arrive_all m env (transfer_frames clock sender ftcid fname file) s w
            ≡ some (s', put_all m events w))
          × IsReady s'
    unfolding transfer_frames begin_data
    received s w ready =
        let (s₁, e₁, waiting) =
          begin_received m env s w ready (clock 0) ftcid sender fname (clock_ok 0) key_ok fits c
            (length file) c_bound (omega arith) in
        let (s₂, e₂, ready') =
          receive_blocks m env clock (λ i. omega (arith, clock_ok i)) ftcid c (length file) key_ok
            c_bound (blocks (length file) c file) 1 s₁
            (m.put_message_into_app_mailbox
              (app_file_transfer_begin (begin_data sender fname ftcid c (length file))) w)
            (blocks_pos (length file) c file (omega arith) more) waiting in
        (
          s₂,
          arrive_all-cons m env _ _ s w (ap (λ b. arrive m env b s w) first_frame ∙ e₁) ∙ e₂,
          ready',
        )

    -- The worker sends a file that is not empty and leaves room for one more chunk in 32 bits, under
    -- names that fit a frame, before the sixth byte of the clock reaches 5; the sender's name has no
    -- bar. Its frames arrive at a ready session, in order. Then the session is ready again, and
    -- has put these events into the mailbox; the client, whose disk works, handles each of them
    -- with OK. It ends with exactly the sender's bytes in the file, the key of the transfer
    -- forgotten, and no other file changed.
    pub file_delivered :
        Avoids 124 sender
        → (s : Session) (w : W) → IsReady s
        → (k : Client) → Works k.root sender fname k.disk
        → (s' : Session) × (w' : W) × (k' : Client) × (arrive_all m env
              (worker clock (suc (length file)) (new_transfer sender ftcid fname file)).sent
              s
              w
            ≡ some (s', w'))
          × IsReady s'
          × (box.inbox w' ≡ box.inbox w ++ events)
          × (listen_to_mail events k ≡ some k')
          × HasSaved sender fname ftcid file k k'
    file_delivered no_bar s w ready k works =
        let (s', e, ready') = received s w ready in
        let pos : 0 < c = omega (arith, determine_chunk_size_bounds (length file)) in
        let whole : join (blocks (length file) c file) ≡ file =
          join-blocks (length file) c file pos (omega arith) more in
        let (k', heard, saved) =
          save_file sender fname ftcid c (length file) (blocks (length file) c file) k no_bar works
            (blocks-IsCut (length file) c file pos (omega arith) more) (ap length whole) in
        (
          s',
          put_all m events w,
          k',
          ap (λ fs. arrive_all m env fs s w)
                (worker_sends_file clock sender ftcid fname file more small).all_sent
              ∙ e,
          ready',
          inbox-put_all events w,
          heard,
          subst (λ b. HasSaved sender fname ftcid b k k') whole saved,
        )
