-- ===== src/Broker/Wiring.antt =====
-- What the two components of the program are sent.
use local_chat_xxx.Broker.Defs.{
  Broker, Message, add_subscriber, attach, attach_at, cycle_current_subscriber_id, cycle_from,
  deliver, deliver_all, detach, has, is_some, listed, new_broker, route, subscribe, subscribers,
}
use local_chat_xxx.Common.{
  Bool, List, [], ap, append-nil, append_assoc, arith, false, if◌then◌else◌, not, refl, some, sym,
  true, ℕ, ◌++◌, ◌==◌, ◌∙◌, ◌∷◌, ◌≡◌,
}
use local_chat_xxx.Common.Assoc.{bytes_eq, erase, insert, lookup, nat_eq}
use local_chat_xxx.Broker.Loop.{
  app_events, discovery_events, event_terminate_all, run, set_up, subscribe_components,
  subscribe_each, take_message, tear_down,
}
use local_chat_xxx.Broker.Queue.{Chain, items, items-push, new_queue, push}
use local_chat_xxx.Status.{is_ok}

-- The broker after the setup, with these mailboxes.
abbrev pub wired : Chain Message → Chain Message → Bool → Broker
wired discovery app running = record {
  mailboxes = (0, discovery) ∷ (1, app) ∷ [];
  subs =
      (0, 0 ∷ [])
      ∷ (1, 0 ∷ [])
      ∷ (2, 0 ∷ [])
      ∷ (13, 0 ∷ 1 ∷ [])
      ∷ (3, 0 ∷ [])
      ∷ (4, 0 ∷ [])
      ∷ (5, 0 ∷ [])
      ∷ (6, 1 ∷ [])
      ∷ (10, 1 ∷ [])
      ∷ (7, 1 ∷ [])
      ∷ (15, 1 ∷ [])
      ∷ (17, 1 ∷ [])
      ∷ (18, 1 ∷ [])
      ∷ (19, 1 ∷ [])
      ∷ [];
  registered = 2;
  current = 2;
  is_running = running;
}

set_up-wired : set_up new_broker ≡ some (wired new_queue new_queue true)
unfolding set_up new_broker attach attach_at cycle_current_subscriber_id cycle_from is_some
    subscribe_components subscribe_each subscribe add_subscriber listed has lookup insert is_ok
set_up-wired = refl

listeners : Bool → Bool → List ℕ
listeners true true = 0 ∷ 1 ∷ []
listeners true false = 0 ∷ []
listeners false true = 1 ∷ []
listeners false false = []

subscribers-wired :
    (ev : ℕ) (p q : Chain Message) (r : Bool)
    → subscribers ev (wired p q r) ≡ listeners (has ev discovery_events) (has ev app_events)
unfolding subscribers listed lookup has listeners
subscribers-wired ev p q r = ground arith

-- A mailbox after a message, if the component listens to its event.
abbrev pub put_if : Bool → Message → Chain Message → Chain Message
put_if b msg q = if b then push msg q else q

route-wired :
    (msg : Message) (p q : Chain Message) (r : Bool)
    → route msg (wired p q r)
      ≡ wired
          (put_if (has msg.event discovery_events) msg p)
          (put_if (has msg.event app_events) msg q)
          r
unfolding route deliver_all listeners deliver lookup insert
route-wired msg p q r =
    ap (λ sids. record (wired p q r) { mailboxes = deliver_all msg sids ((0, p) ∷ (1, q) ∷ []) })
      (subscribers-wired msg.event p q r)
    ∙ delivered (has msg.event discovery_events) (has msg.event app_events)
  where
    delivered :
        (d a : Bool)
        → record (wired p q r) {
          mailboxes = deliver_all msg (listeners d a) ((0, p) ∷ (1, q) ∷ []);
        }
          ≡ wired (put_if d msg p) (put_if a msg q) r
    delivered true true = refl
    delivered true false = refl
    delivered false true = refl
    delivered false false = refl

-- The messages of a list whose events are among these, in their order.
unfoldable pub for_events : List ℕ → List Message → List Message
for_events evs [] = []
for_events evs (msg ∷ msgs) =
    let rest = for_events evs msgs in if has msg.event evs then msg ∷ rest else rest

-- None of the messages ends the program.
abbrev pub GoesOn : List Message → Type 0
GoesOn [] = Unit
GoesOn (msg ∷ msgs) = ((msg.event == event_terminate_all) ≡ false) × GoesOn msgs

items-put_if :
    (evs : List ℕ) (msg : Message) (msgs : List Message) (q : Chain Message)
    → items (put_if (has msg.event evs) msg q) ++ for_events evs msgs
      ≡ items q ++ for_events evs (msg ∷ msgs)
unfolding for_events
items-put_if evs msg msgs q = chosen_or_not (has msg.event evs)
  where
    chosen_or_not :
        (b : Bool)
        → items (put_if b msg q) ++ for_events evs msgs
          ≡ items q ++ (if b then msg ∷ for_events evs msgs else for_events evs msgs)
    chosen_or_not true =
        ap (λ l. l ++ for_events evs msgs) (items-push msg q)
        ∙ append_assoc (items q) (msg ∷ []) (for_events evs msgs)
    chosen_or_not false = refl

-- What a run leaves: the two mailboxes and the flag.
abbrev Leaves : List Message → List Message → Bool → List Message → Broker × List Message → Type 0
Leaves d a r left x =
    (p q : Chain Message) × (x ≡ (wired p q r, left)) × (items p ≡ d) × (items q ≡ a)

run_stopped :
    (left : List Message) (p q : Chain Message)
    → run left (wired p q false) ≡ (wired p q false, left)
unfolding run
run_stopped [] p q = refl
run_stopped (msg ∷ msgs) p q = refl

take_wired :
    (msg : Message) (p q : Chain Message) (b : Bool)
    → (msg.event == event_terminate_all) ≡ b
    → take_message msg (wired p q true)
      ≡ wired
          (put_if (has msg.event discovery_events) msg p)
          (put_if (has msg.event app_events) msg q)
          (not b)
unfolding take_message
take_wired msg p q true e = rw e (route-wired msg p q false)
take_wired msg p q false e = rw e (route-wired msg p q true)

last_only :
    (evs : List ℕ) (msg : Message) (q : Chain Message)
    → items (put_if (has msg.event evs) msg q) ≡ items q ++ for_events evs (msg ∷ [])
unfolding for_events
last_only evs msg q =
    sym (append-nil (items (put_if (has msg.event evs) msg q))) ∙ items-put_if evs msg [] q

run_on :
    (msgs : List Message) (last : Message) (left : List Message) (p q : Chain Message)
    → GoesOn msgs
    → last.event ≡ event_terminate_all
    → Leaves
        (items p ++ for_events discovery_events (msgs ++ (last ∷ [])))
        (items q ++ for_events app_events (msgs ++ (last ∷ [])))
        false
        left
        (run (msgs ++ (last ∷ left)) (wired p q true))
unfolding run
run_on [] last left p q g e = (
  _,
  _,
  ap (run left) (take_wired last p q true (ap (λ k. k == event_terminate_all) e))
      ∙ run_stopped left _ _,
  last_only discovery_events last p,
  last_only app_events last q,
)
run_on (msg ∷ msgs) last left p q g e =
    let rest =
      run_on msgs last left (put_if (has msg.event discovery_events) msg p)
        (put_if (has msg.event app_events) msg q) g.1 e in
    (
      rest.0,
      rest.1,
      ap (run (msgs ++ (last ∷ left))) (take_wired msg p q false g.0) ∙ rest.2,
      rest.3 ∙ items-put_if discovery_events msg (msgs ++ (last ∷ [])) p,
      rest.4 ∙ items-put_if app_events msg (msgs ++ (last ∷ [])) q,
    )

-- The broker is set up as the program does and its thread runs over messages of which exactly the
-- last ends the program, with anything behind it. The setup succeeds, the thread ends and leaves
-- what is behind alone, discovery's mailbox then has the messages whose events are its own and the
-- application's mailbox those whose events are its own, each in the order in which they came, and
-- both components can be detached.
pub program_routes :
    (msgs : List Message) (last : Message) (left : List Message)
    → GoesOn msgs
    → last.event ≡ event_terminate_all
    → (b c d : Broker) × (p q : Chain Message) × (set_up new_broker ≡ some b)
      × (run (msgs ++ (last ∷ left)) b ≡ (c, left))
      × (lookup 0 c.mailboxes ≡ some p)
      × (items p ≡ for_events discovery_events (msgs ++ (last ∷ [])))
      × (lookup 1 c.mailboxes ≡ some q)
      × (items q ≡ for_events app_events (msgs ++ (last ∷ [])))
      × (c.is_running ≡ false)
      × (tear_down 0 1 c ≡ some d)
unfolding tear_down detach is_some is_ok lookup for_events items new_queue erase
program_routes msgs last left g e =
    let r = run_on msgs last left new_queue new_queue g e in
    (
      wired new_queue new_queue true,
      wired r.0 r.1 false,
      _,
      r.0,
      r.1,
      set_up-wired,
      r.2,
      refl,
      r.3,
      refl,
      r.4,
      refl,
      refl,
    )
