-- ===== src/Manager/Keeps.antt =====
-- A consistent registry, and that every operation of the manager keeps it so.
use local_chat_xxx.Common.{
  ℕ, ◌+◌, ◌%◌, ◌^◌, ◌≡◌, refl, ap, ◌∙◌, subst, Bool, true, false, if◌then◌else◌, if-cases, List, [],
  Option, none, some,
}
use local_chat_xxx.Common.Results.{of_some, bind-some}
use local_chat_xxx.Common.Bytes.{Bytes}
use local_chat_xxx.Common.Assoc.{
  lookup, insert, erase, nat_eq, bytes_eq, lookup-insert_self, erase_absent,
}
use local_chat_xxx.Status.{Status, ok, nok}
use local_chat_xxx.Wire.Defs.{Message, FileChunk, hello}
use local_chat_xxx.Session.Defs.{
  Session, is_null, ingoing, write_message_frame, start_reading_frames, new_session,
}
use local_chat_xxx.Session.Handlers.{Env}
use local_chat_xxx.Session.Control.{send_file_offer, send_file_control, send_control_chunk, written}
use local_chat_xxx.Manager.Defs.{
  Manager, Node, Dial, name_less, new_manager, put_session, is_session_already_present,
  start_communication_session_with_node, initiate_session_with_node, add_dial, connect_handler,
  accept, accept_handler, add_node, add_node_to_nodes, handle_session_identification,
  remove_session, remove_mapped, remove_found, send_to, offer_on, signal_found, start_transfer,
  transfer_context, respond_by_id, respond_on, has_empty, control_message,
}
use local_chat_xxx.Manager.Registry.{
  Registered, Registered-lookup, Registered-insert, Registered-put, Registered-erase,
}

-- Every session is found under its peer's name, every node id is free, and the name stays.
pub record IsConsistent (name : Bytes) (m : Manager) : Type 0 where
  pub registered : Registered m.service_sessionid m.sessions
  pub room : has_empty m.out_mailboxes ≡ true
  pub named : m.this_machine_name ≡ name

module _ (name : Bytes) where
  pub new_manager-IsConsistent : IsConsistent name (new_manager name)
  unfolding new_manager has_empty
  new_manager-IsConsistent = record { registered = tt; room = refl; named = refl }

  pub replaced :
      (m : Manager) (sid : ℕ) (s s' : Session)
      → IsConsistent name m
      → lookup sid m.sessions ≡ some s
      → s'.service_name ≡ s.service_name
      → IsConsistent name (record m { sessions = put_session sid s' m.sessions })
  replaced m sid s s' h e n = record {
    registered =
        Registered-put m.service_sessionid m.sessions sid s'
          (ap (λ x. lookup x m.service_sessionid) n
            ∙ Registered-lookup m.service_sessionid m.sessions sid s h.registered e)
          h.registered;
    room = h.room;
    named = h.named;
  }

  write_message_frame-name :
      (msg : Message) (s s' : Session)
      → write_message_frame msg s ≡ some s'
      → s'.service_name ≡ s.service_name
  unfolding write_message_frame
  write_message_frame-name msg s s' e =
      if-cases (λ o. o ≡ some s' → s'.service_name ≡ s.service_name) (is_null s.write_buf)
        (λ n g. absurd cc g)
        (λ n g. of_some (λ (x : Session). x.service_name ≡ s.service_name) refl g) e

  pub initiate-keeps :
      (node : Node) (m : Manager)
      → IsConsistent name m
      → IsConsistent name ((initiate_session_with_node node m).1)
  unfolding initiate_session_with_node add_dial start_communication_session_with_node
  initiate-keeps node m h =
      if-cases (λ (r : Status × Manager). IsConsistent name (r.1))
        (name_less m.this_machine_name node.service_name)
        (λ e.
          if-cases (λ (r : Status × Manager). IsConsistent name (r.1))
            (is_session_already_present node.service_name m.sessions) (λ e'. h) (λ e'. dialed))
        (λ e. h)
    where
      dialed : IsConsistent name (
          (add_dial
            (if has_empty m.out_mailboxes then ok else nok)
            (record {
              session_id = m.current_session_id;
              node = record { id = m.current_node_id; service_name = node.service_name };
            })
            (record m {
              current_session_id = (m.current_session_id + 1) % 2 ^ 16;
              current_node_id = m.current_node_id % 255 + 1;
            })).1)
      dialed = rw (h.room) (record { registered = h.registered; room = h.room; named = h.named })

  pub connect-keeps :
      (error : Bool) (d : Dial) (m : Manager)
      → IsConsistent name m
      → IsConsistent name (connect_handler error d m)
  unfolding connect_handler start_communication_session_with_node start_reading_frames new_session
  connect-keeps true d m h = h
  connect-keeps false d m h =
      if-cases (IsConsistent name) (is_session_already_present d.node.service_name m.sessions)
        (λ e. h)
        (λ e. record {
          registered =
              Registered-put _ m.sessions d.session_id _
                (lookup-insert_self d.node.service_name d.session_id m.service_sessionid)
                (Registered-insert m.service_sessionid m.sessions d.node.service_name d.session_id e
                  h.registered);
          room = h.room;
          named = h.named;
        })

  remove_found-keeps :
      (n : Bytes) (sid : ℕ) (o : Option Session) (m : Manager)
      → IsConsistent name m
      → lookup n m.service_sessionid ≡ some sid
      → lookup sid m.sessions ≡ o
      → IsConsistent name ((remove_found n sid o m).1)
  unfolding remove_found
  remove_found-keeps n sid none m h e k = record {
    registered =
        subst (Registered (erase n m.service_sessionid)) (erase_absent sid m.sessions k)
          (Registered-erase m.service_sessionid m.sessions n sid e h.registered);
    room = h.room;
    named = h.named;
  }
  remove_found-keeps n sid (some s) m h e k = record {
    registered = Registered-erase m.service_sessionid m.sessions n sid e h.registered;
    room = h.room;
    named = h.named;
  }

  remove_mapped-keeps :
      (n : Bytes) (o : Option ℕ) (m : Manager)
      → IsConsistent name m
      → lookup n m.service_sessionid ≡ o
      → IsConsistent name ((remove_mapped n o m).1)
  unfolding remove_mapped
  remove_mapped-keeps n none m h e = h
  remove_mapped-keeps n (some sid) m h e =
      remove_found-keeps n sid (lookup sid m.sessions) m h e refl

  pub remove-keeps :
      (n : Bytes) (m : Manager) → IsConsistent name m → IsConsistent name ((remove_session n m).1)
  unfolding remove_session
  remove-keeps n m h = remove_mapped-keeps n (lookup n m.service_sessionid) m h refl

  node_added :
      (o : Option Node) (n : Bytes) (node : Node) (m : Manager) (ss : List (ℕ × Session))
      → IsConsistent name (record m { sessions = ss })
      → IsConsistent name (record (add_node o n node m) { sessions = ss })
  unfolding add_node
  node_added none n node m ss h = record {
    registered = h.registered;
    room = h.room;
    named = h.named;
  }
  node_added (some x) n node m ss h = h

  pub identified-keeps :
      (env : Env) (n : Bytes) (s : Session) (m : Manager) (r : Session × Manager)
      → IsConsistent name m
      → handle_session_identification env n s m ≡ some r
      → IsConsistent name (r.1)
  unfolding handle_session_identification start_communication_session_with_node add_node_to_nodes
      start_reading_frames
  identified-keeps env n s m r h e =
      if-cases (λ o. o ≡ some r → IsConsistent name (r.1)) (is_session_already_present n m.sessions)
        (λ p g. of_some (λ (x : Session × Manager). IsConsistent name (x.1)) h g)
        (λ p g.
          let (s₂, w, g') = bind-some _ g in
          of_some (λ (x : Session × Manager). IsConsistent name (x.1))
            (node_added (lookup n m.nodes) n _ _ _ (record {
              registered =
                  Registered-put _ m.sessions s.session_id _
                    (ap (λ x. lookup x (insert n s.session_id m.service_sessionid))
                        (write_message_frame-name _ _ s₂ w)
                      ∙ lookup-insert_self n s.session_id m.service_sessionid)
                    (Registered-insert m.service_sessionid m.sessions n s.session_id p
                      h.registered);
              room = h.room;
              named = h.named;
            }))
            g')
        e

  send_control_chunk-name :
      (chunk : FileChunk) (s : Session) → (send_control_chunk chunk s).service_name ≡ s.service_name
  unfolding send_control_chunk written
  send_control_chunk-name chunk s = written-name _ s
    where
      written-name : (o : Option Bytes) (s : Session) → (written o s).service_name ≡ s.service_name
      written-name none s = refl
      written-name (some b) s = refl

  pub sent-keeps :
      (msg : Message) (sid : ℕ) (o : Option Session) (m : Manager) (r : Status × Manager)
      → IsConsistent name m
      → lookup sid m.sessions ≡ o
      → send_to sid msg o m ≡ some r
      → IsConsistent name (r.1)
  unfolding send_to
  sent-keeps msg sid none m r h k e =
      of_some (λ (x : Status × Manager). IsConsistent name (x.1)) h e
  sent-keeps msg sid (some s) m r h k e =
      let (s₂, w, g) = bind-some _ e in
      of_some (λ (x : Status × Manager). IsConsistent name (x.1))
        (replaced m sid s s₂ h k (write_message_frame-name msg s s₂ w)) g

  pub offered-keeps :
      (now key fsize : ℕ) (n : Bytes) (sid : ℕ) (o : Option Session) (m r : Manager)
      → IsConsistent name m
      → lookup sid m.sessions ≡ o
      → offer_on now key fsize n sid o m ≡ some r
      → IsConsistent name r
  unfolding offer_on send_file_offer
  offered-keeps now key fsize n sid none m r h k e = absurd cc e
  offered-keeps now key fsize n sid (some s) m r h k e =
      of_some (IsConsistent name) (replaced m sid s _ h k (send_control_chunk-name _ s)) e

  transfer-keeps :
      (key : ℕ) (offer : ℕ × Bytes) (o : Option Session) (m r : Manager)
      → IsConsistent name m
      → start_transfer key offer o m ≡ some r
      → IsConsistent name r
  unfolding start_transfer
  transfer-keeps key offer none m r h e = absurd cc e
  transfer-keeps key offer (some s) m r h e =
      let made = bind-some (transfer_context key offer s (m.files offer.1)) e in
      of_some (IsConsistent name)
        (record { registered = h.registered; room = h.room; named = h.named }) made.2

  pub signal-keeps :
      (key : ℕ) (accept : Bool) (o : Option (ℕ × Bytes)) (m r : Manager)
      → IsConsistent name m
      → signal_found key accept o m ≡ some r
      → IsConsistent name r
  unfolding signal_found
  signal-keeps key accept none m r h e = of_some (IsConsistent name) h e
  signal-keeps key true (some offer) m r h e =
      transfer-keeps key offer _ _ r
        (record { registered = h.registered; room = h.room; named = h.named }) e
  signal-keeps key false (some offer) m r h e =
      of_some (IsConsistent name)
        (record { registered = h.registered; room = h.room; named = h.named }) e

  pub responded-keeps :
      (now key : ℕ) (accept : Bool) (o : Option ℕ) (m : Manager)
      → IsConsistent name m
      → IsConsistent name (respond_by_id now key accept o m)
  unfolding respond_by_id respond_on send_file_control
  responded-keeps now key accept none m h = h
  responded-keeps now key accept (some sid) m h = on (lookup sid m.sessions) refl
    where
      on :
          (o : Option Session)
          → lookup sid m.sessions ≡ o
          → IsConsistent name (respond_on now key accept sid o m)
      on none k = h
      on (some s) k = replaced m sid s _ h k (send_control_chunk-name _ s)

  pub accepted-keeps :
      (env : Env) (error : Bool) (id : ℕ) (m : Manager) (r : Option Session × Manager)
      → IsConsistent name m
      → accept_handler env error id m ≡ some r
      → IsConsistent name (r.1)
  unfolding accept_handler accept
  accepted-keeps env true id m r h e =
      of_some (λ (x : Option Session × Manager). IsConsistent name (x.1)) h e
  accepted-keeps env false id m r h e =
      let (s₂, w, g) =
        bind-some
          (write_message_frame (control_message env hello)
            (new_session id [] m.this_machine_name ingoing))
          e in
      of_some (λ (x : Option Session × Manager). IsConsistent name (x.1))
        (record { registered = h.registered; room = h.room; named = h.named }) g
