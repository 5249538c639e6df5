-- ===== src/Mailbox.antt =====
-- The mailbox thread of any component, with callbacks by event (include/BVComponent.hpp), and the
-- callbacks that the two components register (src/BVApp_ConsoleClient.cpp,
-- src/BVDiscovery_Bonjour.cpp).
pub mod Ends
use local_chat_xxx.Broker.Loop.{
  app_events, discovery_events, event_app_deregistered_service,
  event_app_discovery_service_resolved, event_app_file_transfer_begin,
  event_app_file_transfer_chunk_sent, event_app_file_transfer_end, event_app_message_incoming,
  event_app_published_service, event_discovery_request_pause, event_discovery_request_resolve,
  event_discovery_request_restart, event_discovery_request_resume, event_discovery_request_shutdown,
  event_discovery_request_start, event_terminate_all,
}
use local_chat_xxx.Common.{
  List, Option, [], ap, false, if◌then◌else◌, none, not, refl, some, true, ℕ, ◌++◌, ◌==◌, ◌||◌, ◌∙◌,
  ◌∷◌, ◌≡◌,
}
use local_chat_xxx.Status.{Status, is_ok, ok}
use local_chat_xxx.Broker.Defs.{Message}
use local_chat_xxx.Common.Assoc.{bytes_eq, insert, lookup, nat_eq}

-- A callback gets a message's data and the component.
abbrev pub MessageHandler : Type 0 → Type 0
MessageHandler S = ℕ → S → S × Status

unfoldable pub register_callback :
    {S : Type 0} → ℕ → MessageHandler S → List (ℕ × MessageHandler S) → List (ℕ × MessageHandler S)
register_callback event_type msg_handler callback_m = insert event_type msg_handler callback_m

-- How the thread stands: it waits for a message, has returned with messages left, or has thrown.
pub data Ending (S : Type 0) : Type 0 where
  waits : S → Ending S
  returned : S → List Message → Ending S
  threw : S → Ending S

abbrev pub event_test_request_shutdown : ℕ
event_test_request_shutdown = 28

-- What follows a callback, given how the thread goes on after it.
unfoldable pub after_callback : {S : Type 0} → ℕ → List Message → S × Status → Ending S → Ending S
after_callback event left (s, st) further =
    if not (is_ok st)
    then threw s
    else if event == event_terminate_all || event == event_test_request_shutdown
    then returned s left
    else further

unfoldable pub dispatch :
    {S : Type 0}
    → Message
    → List Message
    → Option (MessageHandler S)
    → S
    → (S → Ending S)
    → Ending S
dispatch msg left none s further = threw s
dispatch msg left (some h) s further =
    let r = h msg.payload s in after_callback msg.event left r (further r.0)

-- `ListenToMail` while nobody asks the thread to stop.
unfoldable pub listen : {S : Type 0} → List (ℕ × MessageHandler S) → List Message → S → Ending S
listen callback_m [] s = waits s
listen callback_m (msg ∷ msgs) s =
    let further = listen callback_m msgs in
    dispatch msg msgs (lookup msg.event callback_m) s further

-- The constructors register a callback for each of these events, in this order.
unfoldable pub register_each :
    {S : Type 0}
    → List ℕ
    → (ℕ → MessageHandler S)
    → List (ℕ × MessageHandler S)
    → List (ℕ × MessageHandler S)
register_each [] h callback_m = callback_m
register_each (ev ∷ evs) h callback_m = register_each evs h (register_callback ev (h ev) callback_m)

abbrev event_app_file_offer : ℕ
event_app_file_offer = 16

abbrev pub app_callbacks : List ℕ
app_callbacks =
    event_app_published_service ∷ event_terminate_all ∷ event_app_discovery_service_resolved
    ∷ event_app_deregistered_service ∷ event_app_message_incoming ∷ event_app_file_offer
    ∷ event_app_file_transfer_begin ∷ event_app_file_transfer_chunk_sent
    ∷ event_app_file_transfer_end ∷ []

abbrev pub discovery_callbacks : List ℕ
discovery_callbacks =
    event_discovery_request_start ∷ event_discovery_request_pause ∷ event_discovery_request_resume
    ∷ event_terminate_all ∷ event_discovery_request_shutdown ∷ event_discovery_request_restart
    ∷ event_discovery_request_resolve ∷ []

-- The component after all of these messages.
abbrev pub handled : {S : Type 0} → (ℕ → MessageHandler S) → List Message → S → S
handled h [] s = s
handled h (msg ∷ msgs) s = handled h msgs (h msg.event msg.payload s).0

-- Each event has its callback, which answers OK.
abbrev pub AllAnswered :
    {S : Type 0} → List (ℕ × MessageHandler S) → (ℕ → MessageHandler S) → List Message → Type 0
AllAnswered callback_m h [] = Unit
AllAnswered {S = S} callback_m h (msg ∷ msgs) =
    (lookup msg.event callback_m ≡ some (h msg.event))
    × ((s : S) → (h msg.event msg.payload s).1 ≡ ok)
    × AllAnswered callback_m h msgs

abbrev pub GoesOnListening : List Message → Type 0
GoesOnListening [] = Unit
GoesOnListening (msg ∷ msgs) =
    ((msg.event == event_terminate_all || msg.event == event_test_request_shutdown) ≡ false)
    × GoesOnListening msgs

-- What follows a callback that answers OK, for the two kinds of events.
after_end :
    {S : Type 0} (event : ℕ) (left : List Message) (r : S × Status) (further : Ending S)
    → r.1 ≡ ok
    → (event == event_terminate_all || event == event_test_request_shutdown) ≡ true
    → after_callback event left r further ≡ returned r.0 left
unfolding after_callback is_ok
after_end event left r further o e =
    ap (λ st. after_callback event left (r.0, st) further) o
    ∙ ap (λ b. if b then returned r.0 left else further) e

after_other :
    {S : Type 0} (event : ℕ) (left : List Message) (r : S × Status) (further : Ending S)
    → r.1 ≡ ok
    → (event == event_terminate_all || event == event_test_request_shutdown) ≡ false
    → after_callback event left r further ≡ further
unfolding after_callback is_ok
after_other event left r further o e =
    ap (λ st. after_callback event left (r.0, st) further) o
    ∙ ap (λ b. if b then returned r.0 left else further) e

-- Messages whose callbacks answer OK and of which exactly the last is one that ends the thread, with
-- anything behind it: the thread returns after it has handled all of them in order, and leaves what
-- is behind.
pub listen_lem :
    {S : Type 0} (callback_m : List (ℕ × MessageHandler S)) (h : ℕ → MessageHandler S)
    (msgs : List Message) (last : Message) (left : List Message) (s : S)
    → AllAnswered callback_m h (msgs ++ (last ∷ []))
    → GoesOnListening msgs
    → (last.event == event_terminate_all || last.event == event_test_request_shutdown) ≡ true
    → listen callback_m (msgs ++ (last ∷ left)) s
      ≡ returned (handled h (msgs ++ (last ∷ [])) s) left
unfolding listen dispatch after_callback is_ok
listen_lem cb h [] last left s a g e =
    ap (λ o. dispatch last left o s (listen cb left)) a.0
    ∙ after_end last.event left (h last.event last.payload s)
        (listen cb left (h last.event last.payload s).0) (a.1 s) e
listen_lem cb h (msg ∷ msgs) last left s a g e =
    let r = h msg.event msg.payload s in
    ap (λ o. dispatch msg (msgs ++ (last ∷ left)) o s (listen cb (msgs ++ (last ∷ left)))) a.0
    ∙ after_other msg.event (msgs ++ (last ∷ left)) r (listen cb (msgs ++ (last ∷ left)) r.0)
        (a.1 s) g.0
    ∙ listen_lem cb h msgs last left r.0 a.2 g.1 e

-- Each of these events has its callback.
abbrev pub AllRegistered :
    {S : Type 0} → List (ℕ × MessageHandler S) → (ℕ → MessageHandler S) → List ℕ → Type 0
AllRegistered callback_m h [] = Unit
AllRegistered callback_m h (ev ∷ evs) =
    (lookup ev callback_m ≡ some (h ev)) × AllRegistered callback_m h evs

-- Both components have a callback for every event that the program subscribes them to, so no message
-- from the broker makes their threads throw for the lack of one.
pub subscribed-AllRegistered :
    {S : Type 0} (h : ℕ → MessageHandler S)
    → AllRegistered (register_each app_callbacks h []) h app_events
      × AllRegistered (register_each discovery_callbacks h []) h discovery_events
unfolding register_each register_callback insert lookup
subscribed-AllRegistered h = (
  (refl, (refl, (refl, (refl, (refl, (refl, (refl, (refl, tt)))))))),
  (refl, (refl, (refl, (refl, (refl, (refl, (refl, tt))))))),
)
