-- ===== src/Manager/Steps.antt =====
-- Every reachable state of the manager has a consistent registry, and what follows from it.
use local_chat_xxx.Wire.Defs.{Message}
use local_chat_xxx.Common.{
  Bool, Option, ap, false, length, none, refl, some, sym, ℕ, ◌%◌, ◌+◌, ◌^◌, ◌∙◌, ◌≡◌, ◌≢◌,
}
use local_chat_xxx.Manager.Defs.{
  FileState, Dial, Manager, Node, accept, accept_handler, add_node, add_node_to_nodes,
  connect_handler, filename, get_session_id_from_service_name, handle_session_identification,
  initiate_file_transfer_with_session, initiate_session_with_node, is_session_already_present,
  new_manager, put_message_into_app_mailbox, put_session, remove_found, remove_mapped,
  remove_session, respond_to_file_offer, send_data_to_node, signal_file_transfer,
}
use local_chat_xxx.Manager.Keeps.{
  IsConsistent, accepted-keeps, connect-keeps, identified-keeps, initiate-keeps,
  new_manager-IsConsistent, offered-keeps, remove-keeps, replaced, responded-keeps, sent-keeps,
  signal-keeps,
}
use local_chat_xxx.Manager.Registry.{Registered-erase, Registered-lookup, Registered-unique, absent}
use local_chat_xxx.Session.Defs.{AppEvent, Session}
use local_chat_xxx.Manager.Glare.{dials, exactly_one_dials}
use local_chat_xxx.Common.Bytes.{Bytes}
use local_chat_xxx.Status.{Status, ok}
use local_chat_xxx.Common.Assoc.{bytes_eq, erase, lookup, lookup-erase_self, nat_eq}
use local_chat_xxx.Session.Handlers.{Env}

-- What the program may do to the manager. The last one is whatever a registered session does to
-- itself, which keeps the name of its peer.
pub data Step : Manager → Manager → Type 0 where
  initiate : {m : Manager} (node : Node) → Step m ((initiate_session_with_node node m).1)
  connected : {m : Manager} (error : Bool) (d : Dial) → Step m (connect_handler error d m)
  accepting : {m : Manager} → Step m (accept m)
  accepted :
      {m : Manager} (env : Env) (error : Bool) (id : ℕ) (r : Option Session × Manager)
      → accept_handler env error id m ≡ some r
      → Step m (r.1)
  identified :
      {m : Manager} (env : Env) (name : Bytes) (s : Session) (r : Session × Manager)
      → handle_session_identification env name s m ≡ some r
      → Step m (r.1)
  removed : {m : Manager} (name : Bytes) → Step m ((remove_session name m).1)
  sent :
      {m : Manager} (msg : Message) (sid : ℕ) (r : Status × Manager)
      → send_data_to_node msg sid m ≡ some r
      → Step m (r.1)
  told : {m : Manager} (e : AppEvent) → Step m (put_message_into_app_mailbox e m)
  offered :
      {m : Manager} (now sid size : ℕ) (path : Bytes) (r : Manager)
      → initiate_file_transfer_with_session now sid size path m ≡ some r
      → Step m r
  signalled :
      {m : Manager} (key : ℕ) (accept : Bool) (r : Manager)
      → signal_file_transfer key accept m ≡ some r
      → Step m r
  responded :
      {m : Manager} (now : ℕ) (service : Bytes) (key : ℕ) (accept : Bool)
      → Step m (respond_to_file_offer now service key accept m)
  known : {m : Manager} (name : Bytes) (node : Node) → Step m (add_node_to_nodes name node m)
  forgotten : {m : Manager} (name : Bytes) → Step m (record m { nodes = erase name m.nodes })
  disk_changed : {m : Manager} (f : Bytes → FileState) → Step m (record m { files = f })
  changed :
      {m : Manager} (sid : ℕ) (s s' : Session)
      → lookup sid m.sessions ≡ some s
      → s'.service_name ≡ s.service_name
      → Step m (record m { sessions = put_session sid s' m.sessions })

pub data Reachable (name : Bytes) : Manager → Type 0 where
  begins : Reachable name (new_manager name)
  goes_on : {m n : Manager} → Reachable name m → Step m n → Reachable name n

module _ (name : Bytes) where
  step-keeps : {m n : Manager} → IsConsistent name m → Step m n → IsConsistent name n
  unfolding accept add_node add_node_to_nodes put_message_into_app_mailbox send_data_to_node
      initiate_file_transfer_with_session signal_file_transfer respond_to_file_offer
  step-keeps h (initiate {m = m} node) = initiate-keeps name node m h
  step-keeps h (connected {m = m} error d) = connect-keeps name error d m h
  step-keeps h accepting = record { registered = h.registered; room = h.room; named = h.named }
  step-keeps h (accepted {m = m} env error id r e) = accepted-keeps name env error id m r h e
  step-keeps h (identified {m = m} env n s r e) = identified-keeps name env n s m r h e
  step-keeps h (removed {m = m} n) = remove-keeps name n m h
  step-keeps h (sent {m = m} msg sid r e) =
      sent-keeps name msg sid (lookup sid m.sessions) m r h refl e
  step-keeps h (told e) = record { registered = h.registered; room = h.room; named = h.named }
  step-keeps h (offered {m = m} now sid size path r e) =
      offered-keeps name now m.next_ftcid (size % 2 ^ 32) (filename path) sid
        (lookup sid m.sessions) _ r
        (record { registered = h.registered; room = h.room; named = h.named }) refl e
  step-keeps h (signalled {m = m} key taken r e) =
      signal-keeps name key taken (lookup key m.pending_outgoing) m r h e
  step-keeps h (responded {m = m} now service key taken) =
      responded-keeps name now key taken (get_session_id_from_service_name service m) m h
  step-keeps h (known {m = m} n peer) = known-keeps (lookup n m.nodes) m h
    where
      known-keeps :
          (o : Option Node) (m : Manager)
          → IsConsistent name m
          → IsConsistent name (add_node o n peer m)
      known-keeps none m h = record { registered = h.registered; room = h.room; named = h.named }
      known-keeps (some k) m h = h
  step-keeps h (forgotten n) = record { registered = h.registered; room = h.room; named = h.named }
  step-keeps h (disk_changed f) = record {
    registered = h.registered;
    room = h.room;
    named = h.named;
  }
  step-keeps h (changed {m = m} sid s s' e n) = replaced name m sid s s' h e n

  -- Whatever the program does to the manager, its maps agree, there is room for a node, and the
  -- machine keeps its name.
  pub Reachable-IsConsistent : {m : Manager} → Reachable name m → IsConsistent name m
  Reachable-IsConsistent begins = new_manager-IsConsistent name
  Reachable-IsConsistent (goes_on p q) = step-keeps (Reachable-IsConsistent p) q

  -- In every reachable state, two sessions with the same peer are one session.
  pub one_session_for_each_peer :
      (m : Manager) (j k : ℕ) (s t : Session)
      → Reachable name m
      → lookup j m.sessions ≡ some s
      → lookup k m.sessions ≡ some t
      → s.service_name ≡ t.service_name
      → j ≡ k
  one_session_for_each_peer m j k s t r hs ht e =
      Registered-unique m.service_sessionid m.sessions j k s t (Reachable-IsConsistent r).registered
        hs ht e

  -- In every reachable state, removing the session of a peer succeeds, and afterwards no session
  -- with that peer is present and its id leads to none.
  pub session_removed :
      (m : Manager) (sid : ℕ) (s : Session)
      → Reachable name m
      → lookup sid m.sessions ≡ some s
      → ((remove_session s.service_name m).0 ≡ ok)
        × (is_session_already_present s.service_name ((remove_session s.service_name m).1.sessions)
            ≡ false)
        × (lookup sid ((remove_session s.service_name m).1.sessions) ≡ none)
  unfolding remove_session remove_mapped remove_found
  session_removed m sid s r e =
      let h = Reachable-IsConsistent r in
      let found = Registered-lookup m.service_sessionid m.sessions sid s h.registered e in
      rw (found, e)
        (
          refl,
          absent (erase s.service_name m.service_sessionid) (erase sid m.sessions) s.service_name
              (Registered-erase m.service_sessionid m.sessions s.service_name sid found
                h.registered)
              (lookup-erase_self s.service_name m.service_sessionid),
          lookup-erase_self sid m.sessions,
        )

-- Two machines with different names have found each other and neither has a session with the
-- other. When both try to connect, one more connect is under way, from whatever states they have
-- reached.
pub one_of_two_dials :
    (a_name b_name : Bytes) (a b : Manager) (to_a to_b : Node)
    → Reachable a_name a
    → Reachable b_name b
    → to_a.service_name ≡ a_name
    → to_b.service_name ≡ b_name
    → a_name ≢ b_name
    → is_session_already_present b_name a.sessions ≡ false
    → is_session_already_present a_name b.sessions ≡ false
    → dials to_b a + dials to_a b ≡ length a.dialing + length b.dialing + 1
one_of_two_dials a_name b_name a b to_a to_b ra rb ea eb d fa fb =
    let ha = Reachable-IsConsistent a_name ra in
    let hb = Reachable-IsConsistent b_name rb in
    exactly_one_dials a b to_a to_b (ea ∙ sym ha.named) (eb ∙ sym hb.named)
      (λ e. d (sym ha.named ∙ e ∙ hb.named))
      (ap (λ n. is_session_already_present n a.sessions) eb ∙ fa)
      (ap (λ n. is_session_already_present n b.sessions) ea ∙ fb) ha.room hb.room
