-- ===== src/Broker/Defs.antt =====
-- The broker's state and operations. A mailbox that is absent from the map and one that is a null
-- pointer are treated alike by every operation, so the model keeps the mailboxes that exist.
use local_chat_xxx.Common.{
  ℕ, zero, suc, ◌+◌, ◌%◌, Bool, true, false, if◌then◌else◌, ltb, ◌==◌, List, [], ◌∷◌, ◌++◌, Option,
  none, some,
}
use local_chat_xxx.Common.Assoc.{lookup, insert, erase, nat_eq}
use local_chat_xxx.Status.{Status, ok, fatal_error, max_components}
use local_chat_xxx.Broker.Queue.{Chain, new_queue, push}

-- An event is its number; a message is its event and a payload.
pub record Message : Type 0 where
  pub event : ℕ
  pub payload : ℕ

pub record Broker : Type 0 where
  pub mailboxes : List (ℕ × Chain Message)
  pub subs : List (ℕ × List ℕ)
  pub registered : ℕ
  pub current : ℕ
  pub is_running : Bool

unfoldable pub new_broker : Broker
new_broker = record { mailboxes = []; subs = []; registered = 0; current = 0; is_running = true }

unfoldable pub is_some {ℓ} : {A : Type ℓ} → Option A → Bool
is_some none = false
is_some (some a) = true

abbrev pub is_live : Broker → ℕ → Bool
is_live b sid = is_some (lookup sid b.mailboxes)

-- The loop of `CycleCurrentSubscriberId`: `i` counts up while rounds are left. The last id tried
-- is kept when none is free.
unfoldable pub cycle_from : ℕ → ℕ → ℕ → Broker → Bool × ℕ
cycle_from zero i start b = (false, (start + i) % 256)
cycle_from (suc rounds) i start b =
    let rest = cycle_from rounds (suc i) start b in
    if is_live b ((start + 1 + i) % 256) then rest else (true, (start + 1 + i) % 256)

unfoldable pub cycle_current_subscriber_id : Broker → Bool × Broker
cycle_current_subscriber_id b =
    let r = cycle_from 256 0 b.current b in (r.0, record b { current = r.1 })

-- The component gets the current id and a new mailbox.
unfoldable pub attach_at : Broker → Status × Option ℕ × Broker
attach_at b =
    let with_box : Broker = record b {
      mailboxes = insert b.current new_queue b.mailboxes;
      registered = (b.registered + 1) % 256;
    } in
    (ok, some b.current, (cycle_current_subscriber_id with_box).1)

-- The count is a byte, so the first test never holds.
unfoldable pub attach : Broker → Status × Option ℕ × Broker
attach b =
    let cycled = cycle_current_subscriber_id b in
    if ltb 255 b.registered
    then (max_components, none, b)
    else if is_live b b.current
    then (if cycled.0 then attach_at (cycled.1) else (max_components, none, cycled.1))
    else attach_at b

unfoldable pub has : ℕ → List ℕ → Bool
has sid [] = false
has sid (x ∷ xs) = if x == sid then true else has sid xs

unfoldable pub without : ℕ → List ℕ → List ℕ
without sid [] = []
without sid (x ∷ xs) = if x == sid then without sid xs else x ∷ without sid xs

unfoldable pub keep_list : ℕ → List ℕ → List (ℕ × List ℕ) → List (ℕ × List ℕ)
keep_list ev [] m = m
keep_list ev (x ∷ xs) m = (ev, x ∷ xs) ∷ m

-- The subscriber is taken out of every list, and empty lists are dropped.
unfoldable pub forget : ℕ → List (ℕ × List ℕ) → List (ℕ × List ℕ)
forget sid [] = []
forget sid ((ev, v) ∷ m) = keep_list ev (without sid v) (forget sid m)

unfoldable pub detach : ℕ → Broker → Status × Broker
detach sid b =
    if is_live b sid
    then (
      ok,
      record b {
        mailboxes = erase sid b.mailboxes;
        registered = (b.registered + 255) % 256;
        subs = forget sid b.subs;
      },
    )
    else (fatal_error, b)

unfoldable pub listed : Option (List ℕ) → List ℕ
listed none = []
listed (some v) = v

unfoldable pub subscribers : ℕ → Broker → List ℕ
subscribers ev b = listed (lookup ev b.subs)

unfoldable pub add_subscriber : ℕ → ℕ → List (ℕ × List ℕ) → List (ℕ × List ℕ)
add_subscriber sid ev subs =
    let v = listed (lookup ev subs) in insert ev (if has sid v then v else v ++ (sid ∷ [])) subs

unfoldable pub add_all : ℕ → List ℕ → List (ℕ × List ℕ) → List (ℕ × List ℕ)
add_all sid [] subs = subs
add_all sid (ev ∷ evs) subs = add_all sid evs (add_subscriber sid ev subs)

unfoldable pub subscribe : ℕ → ℕ → Broker → Status × Broker
subscribe sid ev b =
    if is_live b sid
    then (ok, record b { subs = add_subscriber sid ev b.subs })
    else (fatal_error, b)

unfoldable pub subscribe_all : ℕ → List ℕ → Broker → Status × Broker
subscribe_all sid evs b =
    if is_live b sid then (ok, record b { subs = add_all sid evs b.subs }) else (fatal_error, b)

-- `none`: the event has no list. An empty list is dropped.
unfoldable pub put_list : ℕ → List ℕ → List (ℕ × List ℕ) → List (ℕ × List ℕ)
put_list ev [] subs = erase ev subs
put_list ev (x ∷ xs) subs = insert ev (x ∷ xs) subs

unfoldable pub drop_from : ℕ → ℕ → Option (List ℕ) → List (ℕ × List ℕ) → List (ℕ × List ℕ)
drop_from sid ev none subs = subs
drop_from sid ev (some v) subs = put_list ev (without sid v) subs

unfoldable pub drop_all : ℕ → List ℕ → List (ℕ × List ℕ) → List (ℕ × List ℕ)
drop_all sid [] subs = subs
drop_all sid (ev ∷ evs) subs = drop_all sid evs (drop_from sid ev (lookup ev subs) subs)

unfoldable pub unsubscribe : ℕ → ℕ → Broker → Status × Broker
unsubscribe sid ev b = (ok, record b { subs = drop_from sid ev (lookup ev b.subs) b.subs })

unfoldable pub unsubscribe_all : ℕ → List ℕ → Broker → Status × Broker
unsubscribe_all sid evs b = (ok, record b { subs = drop_all sid evs b.subs })

-- A message to a subscriber without a mailbox is dropped.
unfoldable pub deliver :
    Message → ℕ → Option (Chain Message) → List (ℕ × Chain Message) → List (ℕ × Chain Message)
deliver msg sid none boxes = boxes
deliver msg sid (some q) boxes = insert sid (push msg q) boxes

unfoldable pub deliver_all : Message → List ℕ → List (ℕ × Chain Message) → List (ℕ × Chain Message)
deliver_all msg [] boxes = boxes
deliver_all msg (sid ∷ sids) boxes = deliver_all msg sids (deliver msg sid (lookup sid boxes) boxes)

unfoldable pub route : Message → Broker → Broker
route msg b = record b { mailboxes = deliver_all msg (subscribers (msg.event) b) b.mailboxes }
