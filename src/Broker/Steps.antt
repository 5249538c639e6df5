-- ===== src/Broker/Steps.antt =====
-- What holds of every broker that its operations lead to.
use local_chat_xxx.Common.{ltb, ℕ, ◌≡◌, if◌then◌else◌, if-cases, List, Option, some}
use local_chat_xxx.Common.Assoc.{lookup, nat_eq}
use local_chat_xxx.Status.{Status}
use local_chat_xxx.Broker.Queue.{Chain, push, new_queue}
use local_chat_xxx.Broker.Defs.{
  Message, Broker, is_live, new_broker, attach, attach_at, cycle_current_subscriber_id, detach,
  subscribe, subscribe_all, unsubscribe, unsubscribe_all, route, subscribers, has,
}
use local_chat_xxx.Broker.Routing.{more-IsClean, insert-live, deliver_all-live, delivered_once}
use local_chat_xxx.Broker.Subscriptions.{
  IsClean, NoDup, AllLive, forget-IsClean, add_subscriber-IsClean, add_all-IsClean,
  drop_from-IsClean, drop_all-IsClean, lookup-IsClean,
}

pub data Step : Broker → Broker → Type 0 where
  attaches : {b : Broker} → Step b ((attach b).2)
  detaches : {b : Broker} (sid : ℕ) → Step b ((detach sid b).1)
  subscribes : {b : Broker} (sid ev : ℕ) → Step b ((subscribe sid ev b).1)
  subscribes_all : {b : Broker} (sid : ℕ) (evs : List ℕ) → Step b ((subscribe_all sid evs b).1)
  unsubscribes : {b : Broker} (sid ev : ℕ) → Step b ((unsubscribe sid ev b).1)
  unsubscribes_all : {b : Broker} (sid : ℕ) (evs : List ℕ) → Step b ((unsubscribe_all sid evs b).1)
  routes : {b : Broker} (msg : Message) → Step b (route msg b)

pub data Reachable : Broker → Type 0 where
  begins : Reachable new_broker
  goes_on : {b c : Broker} → Reachable b → Step b c → Reachable c

abbrev Clean : Broker → Type 0
Clean b = IsClean b.mailboxes b.subs

attach_at-Clean : (b : Broker) → Clean b → Clean ((attach_at b).2)
unfolding attach_at cycle_current_subscriber_id
attach_at-Clean b h =
    more-IsClean b.mailboxes _ (insert-live b.current new_queue b.mailboxes) b.subs h

attach-Clean : (b : Broker) → Clean b → Clean ((attach b).2)
unfolding attach cycle_current_subscriber_id
attach-Clean b h =
    if-cases P (ltb 255 b.registered) (λ e. h)
      (λ e.
        if-cases P (is_live b b.current)
          (λ e'.
            if-cases P ((cycle_current_subscriber_id b).0)
              (λ e''. attach_at-Clean ((cycle_current_subscriber_id b).1) h) (λ e''. h))
          (λ e'. attach_at-Clean b h))
  where
    P : Status × Option ℕ × Broker → Type 0
    P r = Clean (r.2)

detach-Clean : (sid : ℕ) (b : Broker) → Clean b → Clean ((detach sid b).1)
unfolding detach
detach-Clean sid b h =
    if-cases (λ (r : Status × Broker). Clean (r.1)) (is_live b sid)
      (λ e. forget-IsClean b.mailboxes sid b.subs h) (λ e. h)

step-Clean : {b c : Broker} → Clean b → Step b c → Clean c
unfolding subscribe subscribe_all unsubscribe unsubscribe_all route
step-Clean h (attaches {b = b}) = attach-Clean b h
step-Clean h (detaches {b = b} sid) = detach-Clean sid b h
step-Clean h (subscribes {b = b} sid ev) =
    if-cases (λ (r : Status × Broker). Clean (r.1)) (is_live b sid)
      (λ e. add_subscriber-IsClean b.mailboxes sid ev b.subs e h) (λ e. h)
step-Clean h (subscribes_all {b = b} sid evs) =
    if-cases (λ (r : Status × Broker). Clean (r.1)) (is_live b sid)
      (λ e. add_all-IsClean b.mailboxes sid evs b.subs e h) (λ e. h)
step-Clean h (unsubscribes {b = b} sid ev) = drop_from-IsClean b.mailboxes sid ev b.subs h
step-Clean h (unsubscribes_all {b = b} sid evs) = drop_all-IsClean b.mailboxes sid evs b.subs h
step-Clean h (routes {b = b} msg) =
    more-IsClean b.mailboxes _ (deliver_all-live msg (subscribers (msg.event) b) b.mailboxes) b.subs
      h

-- In every reachable broker, the list of each event has no duplicate, and every subscriber in it
-- has a mailbox.
pub Reachable-IsClean :
    {b : Broker}
    → Reachable b
    → (ev : ℕ) → NoDup (subscribers ev b) × AllLive b.mailboxes (subscribers ev b)
unfolding subscribers new_broker
Reachable-IsClean {b = b} r ev = lookup-IsClean b.mailboxes b.subs ev (clean r)
  where
    clean : {c : Broker} → Reachable c → Clean c
    clean begins = tt
    clean (goes_on p q) = step-Clean (clean p) q

-- In every reachable broker, a message that is routed is put once, behind what is there, into the
-- mailbox of each subscriber to its event, and into no other mailbox.
pub routed_once :
    {b : Broker} (msg : Message) (sid : ℕ) (q : Chain Message)
    → Reachable b
    → lookup sid b.mailboxes ≡ some q
    → lookup sid ((route msg b).mailboxes)
      ≡ some (if has sid (subscribers (msg.event) b) then push msg q else q)
unfolding route
routed_once {b = b} msg sid q r e =
    delivered_once msg (subscribers (msg.event) b) b.mailboxes sid q
      (Reachable-IsClean r (msg.event)).0 e
