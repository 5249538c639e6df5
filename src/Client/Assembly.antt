-- ===== src/Client/Assembly.antt =====
-- The client puts a file together from the events of its transfer.
use local_chat_xxx.Common.{
  ℕ, ◌+◌, ◌-◌, ◌≤◌, ◌≡◌, refl, ap, ap₂, sym, append-nil, ◌%◌, ◌^◌, ◌∙◌, subst, false, arith, List,
  [], ◌∷◌, ◌++◌, none, some, length, take, drop, replicate, append_assoc, length-append,
  take-append, length-replicate,
}
use local_chat_xxx.Wire.Defs.{FileData}
use local_chat_xxx.Common.Bytes.{Bytes, Avoids, overlay-drop, overlay_whole}
use local_chat_xxx.Common.Assoc.{
  nat_eq, bytes_eq, lookup, insert, erase, lookup-insert_self, lookup-erase_self,
  lookup-insert_other,
}
use local_chat_xxx.Transfer.Blocks.{join, IsCut}
use local_chat_xxx.Session.Defs.{AppEvent, app_file_transfer_begin}
use local_chat_xxx.Session.Files.{data_events, block_data}
use local_chat_xxx.Received.Defs.{path_for, content, resized}
use local_chat_xxx.Received.Contents.{
  Works, holding, content-holding, holding-Works, begin_lem, append_chunk_lem, finish_lem,
}
use local_chat_xxx.Client.Defs.{
  Client, listen_to_mail, handle, checked, handle_file_chunk_sent, handle_file_transfer_end,
  chunk_for, end_for, count_chunk, forget_transfer, handle_file_transfer_begin, before_bar,
  after_first_bar, after_bar, or_all, register_transfer,
}
use local_chat_xxx.Status.{ok, is_ok}

resized_exact :
    (old b z : Bytes) (f : ℕ) → length old + length b ≡ f → resized f (old ++ (b ++ z)) ≡ old ++ b
unfolding resized
resized_exact old b z f h =
    ap (λ x. take f x ++ replicate (f - length x) 0) (sym (append_assoc old b z))
    ∙ ap₂ (◌++◌) (take-append (old ++ b) z f (omega (arith, length-append old b)))
        (ap (λ k. replicate {A = ℕ} k 0) nothing_missing)
    ∙ append-nil (old ++ b)
  where
    nothing_missing : f - length ((old ++ b) ++ z) ≡ 0
    nothing_missing = omega (arith, length-append old b, length-append (old ++ b) z)

pub listen_step :
    (e : AppEvent) (es : List AppEvent) (k : Client) {k' : Client}
    → handle e k ≡ (k', ok)
    → listen_to_mail (e ∷ es) k ≡ listen_to_mail es k'
unfolding listen_to_mail checked is_ok
listen_step e es k h = rw h

listen_nil : (k : Client) → listen_to_mail [] k ≡ some k
unfolding listen_to_mail
listen_nil k = refl

pub before_bar_lem : (xs ys : Bytes) → Avoids 124 xs → before_bar (xs ++ (b'|' ∷ ys)) ≡ xs
unfolding before_bar
before_bar_lem [] ys h = refl
before_bar_lem (x ∷ xs) ys h = ground (arith, before_bar_lem xs ys)

pub after_bar_lem : (xs ys : Bytes) → Avoids 124 xs → after_first_bar (xs ++ (b'|' ∷ ys)) ≡ some ys
unfolding after_first_bar
after_bar_lem [] ys h = refl
after_bar_lem (x ∷ xs) ys h = ground (arith, after_bar_lem xs ys)

module _ (service fname : Bytes) (key : ℕ) where
  -- The client is in the middle of this transfer, with `old` saved.
  pub record IsSaving (old : Bytes) (k : Client) : Type 0 where
    pub works : Works k.root service fname k.disk
    pub registered : lookup key k.file_transfer_data ≡ some (service, fname)
    pub saved : content k.disk (path_for k.root service fname) ≡ some old

  -- The client has the whole file, has forgotten the transfer, and has left every other file alone.
  pub record HasSaved (file : Bytes) (before k : Client) : Type 0 where
    pub saved : content k.disk (path_for before.root service fname) ≡ some file
    pub forgotten : lookup key k.file_transfer_data ≡ none
    pub others :
        (q : Bytes)
        → bytes_eq.beq (path_for before.root service fname) q ≡ false
        → content k.disk q ≡ content before.disk q

module _ (service fname : Bytes) (key c f : ℕ) where
  abbrev after_chunk : Bytes → Bytes → Client → Client
  after_chunk old b k = record k {
    disk = holding k.root service fname (old ++ b) k.disk;
    recv_bytes = (k.recv_bytes + length b) % 2 ^ 64;
  }

  abbrev after_end : Bytes → Client → Client
  after_end file k = record k {
    disk = holding k.root service fname file k.disk;
    file_transfer_data = erase key k.file_transfer_data;
  }

  module _ (old b : Bytes) (k : Client) (h : IsSaving service fname key old k) where
    chunk_handled :
        length b ≡ c → handle_file_chunk_sent (block_data key c f b) k ≡ (after_chunk old b k, ok)
    unfolding handle_file_chunk_sent chunk_for count_chunk
    chunk_handled full = simp (
      h.registered,
      overlay_whole b (replicate c 0) (full ∙ sym (length-replicate c 0)),
      append_chunk_lem k.root service fname b old k.disk h.works h.saved,
    )

    end_handled :
        length b ≤ c
        → length old + length b ≡ f
        → handle_file_transfer_end (block_data key c f b) k ≡ (after_end (old ++ b) k, ok)
    unfolding handle_file_transfer_end end_for forget_transfer
    end_handled short exact = simp (
      h.registered,
      overlay-drop b (replicate c 0) (omega (arith, length-replicate {A = ℕ} c 0)),
      finish_lem k.root service fname (b ++ drop (length b) (replicate c 0)) old f k.disk h.works
          h.saved,
      resized_exact old b (drop (length b) (replicate c 0)) f exact,
    )

    after_chunk-IsSaving : IsSaving service fname key (old ++ b) (after_chunk old b k)
    after_chunk-IsSaving = record {
      works = holding-Works k.root service fname (old ++ b) k.disk h.works;
      registered = h.registered;
      saved = content-holding k.root service fname (old ++ b) k.disk;
    }

    after_end-HasSaved : HasSaved service fname key (old ++ b) k (after_end (old ++ b) k)
    unfolding holding
    after_end-HasSaved = record {
      saved = content-holding k.root service fname (old ++ b) k.disk;
      forgotten = lookup-erase_self key k.file_transfer_data;
      others =
          λ q d. lookup-insert_other q (path_for k.root service fname) (old ++ b) k.disk.files d;
    }

    through_chunk :
        (file : Bytes) (k' : Client)
        → HasSaved service fname key file (after_chunk old b k) k'
        → HasSaved service fname key file k k'
    unfolding holding
    through_chunk file k' g = record {
      saved = g.saved;
      forgotten = g.forgotten;
      others = λ q d.
          g.others q d
          ∙ lookup-insert_other q (path_for k.root service fname) (old ++ b) k.disk.files d;
    }

  pub assemble :
      (bs : List Bytes) (old : Bytes) (k : Client)
      → IsCut c bs
      → IsSaving service fname key old k
      → length old + length (join bs) ≡ f
      → (k' : Client) × (listen_to_mail (data_events key c f bs) k ≡ some k')
        × HasSaved service fname key (old ++ join bs) k k'
  unfolding data_events join handle
  assemble [] old k cut h size = absurd cut
  assemble (b ∷ []) old k cut h size = (
    after_end (old ++ b) k,
    listen_step _ [] k (end_handled old b k h cut.1 (omega (arith, length-append b [])))
        ∙ listen_nil (after_end (old ++ b) k),
    subst (λ x. HasSaved service fname key (old ++ x) k (after_end (old ++ b) k))
        (sym (append-nil b)) (after_end-HasSaved old b k h),
  )
  assemble (b ∷ (d ∷ bs)) old k cut h size =
      let (k', e, g) =
        assemble (d ∷ bs) (old ++ b) (after_chunk old b k) cut.1 (after_chunk-IsSaving old b k h)
          (omega (arith, length-append old b, length-append b (join (d ∷ bs)))) in
      (
        k',
        listen_step _ (data_events key c f (d ∷ bs)) k (chunk_handled old b k h cut.0) ∙ e,
        through_chunk old b k h _ k' (
            subst (λ x. HasSaved service fname key x (after_chunk old b k) k')
              (append_assoc old b (join (d ∷ bs))) g),
      )

  -- The transfer is announced.
  unfoldable pub begin_data : FileData
  begin_data = record {
    correlation_key = key;
    csize = c;
    fsize = f;
    fdata = service ++ (b'|' ∷ fname);
  }

  unfoldable pub begun : Client → Client
  begun k = record k {
    disk = holding k.root service fname [] k.disk;
    file_transfer_data = insert key (service, fname) k.file_transfer_data;
    recv_bytes = 0;
  }

  begin_handled :
      (k : Client)
      → Avoids 124 service
      → Works k.root service fname k.disk
      → handle_file_transfer_begin begin_data k ≡ (begun k, ok)
  unfolding handle_file_transfer_begin register_transfer after_bar or_all begin_data begun
  begin_handled k h works = simp (
    before_bar_lem service fname h,
    after_bar_lem service fname h,
    begin_lem k.root service fname k.disk works,
  )

  -- The client is told of a transfer from its announcement to its end. The sender's name has no bar,
  -- the disk works, and the blocks are cut as announced. Then every handler answers OK, and the
  -- client ends with the blocks' bytes in the file, the key forgotten, and no other file changed.
  pub save_file :
      (bs : List Bytes) (k : Client)
      → Avoids 124 service
      → Works k.root service fname k.disk
      → IsCut c bs
      → length (join bs) ≡ f
      → (k' : Client) × (listen_to_mail
            (app_file_transfer_begin begin_data ∷ data_events key c f bs)
            k
          ≡ some k')
        × HasSaved service fname key (join bs) k k'
  unfolding handle begun holding
  save_file bs k h works cut size =
      let (k', e, g) =
        assemble bs [] (begun k) cut
          (record {
            works = holding-Works k.root service fname [] k.disk works;
            registered = lookup-insert_self key (service, fname) k.file_transfer_data;
            saved = content-holding k.root service fname [] k.disk;
          })
          (omega arith) in
      (
        k',
        listen_step _ (data_events key c f bs) k (begin_handled k h works) ∙ e,
        record {
          saved = g.saved;
          forgotten = g.forgotten;
          others = λ q d.
              g.others q d
              ∙ lookup-insert_other q (path_for k.root service fname) [] k.disk.files d;
        },
      )
