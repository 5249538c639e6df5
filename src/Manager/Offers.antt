-- ===== src/Manager/Offers.antt =====
-- From an offer to the transfer that its answer starts.
use local_chat_xxx.Common.{
  ℕ, ◌+◌, ◌*◌, ◌%◌, ◌^◌, ◌<◌, ◌≡◌, refl, ap, ◌∙◌, arith, Bool, true, false, ltb, ◌==◌, ==_refl,
  Bool-cases, inl, inr, List, [], ◌∷◌, some, none, Option,
}
use local_chat_xxx.Common.Results.{◌>>=◌}
use local_chat_xxx.Common.Bytes.{Bytes}
use local_chat_xxx.Common.Assoc.{
  lookup, insert, erase, nat_eq, lookup-insert_self, lookup-erase_self,
}
use local_chat_xxx.Wire.Defs.{file_offer, file_accept, file_reject}
use local_chat_xxx.Transfer.Defs.{new_transfer}
use local_chat_xxx.Session.Defs.{Session, write, start, start_reading_frames}
use local_chat_xxx.Session.Handlers.{Env}
use local_chat_xxx.Session.Arrival.{arrive}
use local_chat_xxx.Session.Files.{IsReady}
use local_chat_xxx.Session.Announce.{name_frame}
use local_chat_xxx.Session.Control.{control_frame, answer_signalled, send_file_offer_io}
use local_chat_xxx.Manager.Defs.{
  Manager, manager_ops, put_session, initiate_file_transfer_with_session, offer_on,
  signal_file_transfer, signal_found, start_transfer, transfer_context, filename, TransferContext,
  missing, unreadable, readable,
}

pub lookup-put_session :
    (k : ℕ) (s : Session) (m : List (ℕ × Session)) → lookup k (put_session k s m) ≡ some s
unfolding lookup put_session
lookup-put_session k s [] = rw (==_refl k)
lookup-put_session k s ((j, t) ∷ m) = elim (Bool-cases (ltb k j)) [
  | inl p ↦ rw p (rw (==_refl k))
  | inr p ↦ elim (Bool-cases (j == k)) [
    | inl q ↦ rw (p, q) (rw (==_refl k))
    | inr q ↦ rw (p, q) (rw (q) (lookup-put_session k s m))
  ]
]

module _ (now sid size : ℕ) (path : Bytes) (m : Manager) (s : Session)
    (found : lookup sid m.sessions ≡ some s) where
  abbrev key : ℕ
  key = m.next_ftcid

  -- The manager after the offer: the path is noted under a new key, and the session has written the
  -- offer.
  abbrev pub offered : Manager
  offered = record m {
    next_ftcid = (key + 1) % 2 ^ 32;
    pending_outgoing = insert key (sid, path) m.pending_outgoing;
    sessions =
        put_session sid
          (start s (
            write (
              name_frame now file_offer key (size % 2 ^ 32) s.this_machine_service_name
                (filename path))))
          m.sessions;
  }

  -- A file may be offered on any session that exists: the session writes an offer with a new key,
  -- the size and the name of the file, and the path is noted under the key.
  pub offer_made : initiate_file_transfer_with_session now sid size path m ≡ some offered
  unfolding initiate_file_transfer_with_session offer_on
  offer_made = rw found (
      ap (λ t. some (record offered { sessions = put_session sid t m.sessions }))
        (send_file_offer_io now key (size % 2 ^ 32) (filename path) s))

  abbrev offer_session : Session
  offer_session = start s (
      write
        (name_frame now file_offer key (size % 2 ^ 32) s.this_machine_service_name (filename path)))

  take_up : Bool → Option Manager
  take_up true = transfer_context key (sid, path) offer_session (m.files path) >>= λ ctx.
      some (record offered {
        pending_outgoing = erase key offered.pending_outgoing;
        transfers = insert key ctx (erase key m.transfers);
      })
  take_up false = some (record offered { pending_outgoing = erase key offered.pending_outgoing })

  answer_taken : (accept : Bool) → signal_file_transfer key accept offered ≡ take_up accept
  unfolding signal_file_transfer signal_found start_transfer take_up
  answer_taken true =
      rw (lookup-insert_self key (sid, path) m.pending_outgoing)
        (rw (lookup-put_session sid offer_session m.sessions) refl)
  answer_taken false = rw (lookup-insert_self key (sid, path) m.pending_outgoing)

  -- The transfer that an acceptance starts while the path has this content.
  abbrev pub context : Bytes → TransferContext
  context content = record {
    session_id = sid;
    path = path;
    worker = some (new_transfer s.this_machine_service_name key (filename path) content);
  }

  -- The manager after the offer was accepted.
  abbrev pub started : TransferContext → Manager
  started ctx = record offered {
    pending_outgoing = erase key offered.pending_outgoing;
    transfers = insert key ctx (erase key m.transfers);
  }

  accepted :
      (content : Bytes)
      → m.files path ≡ readable content
      → signal_file_transfer key true offered ≡ some (started (context content))
  unfolding take_up transfer_context
  accepted content there = answer_taken true ∙ rw there refl

  -- The offer's first acceptance arrives at a ready session of the manager while the path can be
  -- opened and read. It starts a worker that has the file's content to send, under the file's name
  -- and the offer's key on the offered session, and takes the offer away; a second acceptance or
  -- rejection of the same key then changes nothing. The key has 32 bits, and the clock's sixth byte
  -- is below 5.
  pub acceptance_starts_transfer :
      (env : Env) (then_ : ℕ) (t : Session) (content : Bytes)
      → then_ < 5 * 2 ^ 40
      → key < 2 ^ 32
      → IsReady t
      → m.files path ≡ readable content
      → (t' : Session) × (arrive manager_ops env (control_frame then_ file_accept key) t offered
          ≡ some (t', started (context content)))
        × (lookup key (started (context content)).transfers ≡ some (context content))
        × ((again : Bool)
            → signal_file_transfer key again (started (context content))
              ≡ some (started (context content)))
  unfolding signal_file_transfer signal_found
  acceptance_starts_transfer env then_ t content clock_ok key_ok ready there = (
    start_reading_frames
        (record t { read_buf = control_frame then_ file_accept key; total_bytes_read = 0 }),
    answer_signalled then_ file_accept key clock_ok (omega arith) key_ok manager_ops env t offered
          ready true refl
        ∙ ap
            (λ o. o >>= λ w'. some (
              start_reading_frames (record t {
                read_buf = control_frame then_ file_accept key;
                total_bytes_read = 0;
              }),
              w',
            ))
            (accepted content there),
    lookup-insert_self key (context content) (erase key m.transfers),
    λ again. rw (lookup-erase_self key offered.pending_outgoing),
  )

  -- An accepted offer whose path has a size and cannot be opened leaves a context that never sends,
  -- and the offer is gone.
  unreadable_never_sent :
      m.files path ≡ unreadable
      → signal_file_transfer key true offered
        ≡ some (started (record { session_id = sid; path = path; worker = none }))
  unfolding take_up transfer_context
  unreadable_never_sent there = answer_taken true ∙ rw there refl

  -- An accepted offer whose path is gone throws.
  missing_throws : m.files path ≡ missing → signal_file_transfer key true offered ≡ none
  unfolding take_up transfer_context
  missing_throws there = answer_taken true ∙ rw there refl

  -- The rejection of an offer, when it arrives at a ready session of the manager, takes the offer
  -- away and starts no transfer. The key has 32 bits, and the clock's sixth byte is below 5.
  pub rejection_starts_nothing :
      (env : Env) (then_ : ℕ) (t : Session)
      → then_ < 5 * 2 ^ 40
      → key < 2 ^ 32
      → IsReady t
      → (t' : Session) × (arrive manager_ops env (control_frame then_ file_reject key) t offered
          ≡ some (t', record offered { pending_outgoing = erase key offered.pending_outgoing }))
  unfolding take_up
  rejection_starts_nothing env then_ t clock_ok key_ok ready = (
    start_reading_frames
        (record t { read_buf = control_frame then_ file_reject key; total_bytes_read = 0 }),
    answer_signalled then_ file_reject key clock_ok (omega arith) key_ok manager_ops env t offered
          ready false refl
        ∙ ap
            (λ o. o >>= λ w'. some (
              start_reading_frames (record t {
                read_buf = control_frame then_ file_reject key;
                total_bytes_read = 0;
              }),
              w',
            ))
            (answer_taken false),
  )
