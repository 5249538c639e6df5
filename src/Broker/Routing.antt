-- ===== src/Broker/Routing.antt =====
-- What routing a message does to the mailboxes.
use local_chat_xxx.Common.{
  ℕ, ◌≡◌, refl, ap, sym, ◌∙◌, subst, true, false, if◌then◌else◌, ◌==◌, ==_iff, Bool-cases, inl, inr,
  List, [], ◌∷◌, Option, none, some,
}
use local_chat_xxx.Common.Assoc.{lookup, insert, nat_eq, lookup-insert_self, lookup-insert_other}
use local_chat_xxx.Broker.Queue.{Chain, push}
use local_chat_xxx.Broker.Defs.{Message, is_some, has, deliver, deliver_all}
use local_chat_xxx.Broker.Subscriptions.{Boxes, NoDup, AllLive, IsClean}

-- What a delivery leaves alone.
deliver_other :
    (msg : Message) (x sid : ℕ) (boxes : Boxes)
    → (x == sid) ≡ false
    → lookup sid (deliver msg x (lookup x boxes) boxes) ≡ lookup sid boxes
unfolding deliver
deliver_other msg x sid boxes h = go (lookup x boxes)
  where
    go : (o : Option (Chain Message)) → lookup sid (deliver msg x o boxes) ≡ lookup sid boxes
    go none = refl
    go (some q) = lookup-insert_other sid x (push msg q) boxes h

-- Each subscriber of the list gets the message once, behind what its mailbox holds.
pub delivered_once :
    (msg : Message) (sids : List ℕ) (boxes : Boxes) (sid : ℕ) (q : Chain Message)
    → NoDup sids
    → lookup sid boxes ≡ some q
    → lookup sid (deliver_all msg sids boxes) ≡ some (if has sid sids then push msg q else q)
unfolding deliver_all deliver has
delivered_once msg [] boxes sid q d h = h
delivered_once msg (x ∷ xs) boxes sid q d h = elim (Bool-cases (x == sid)) [
  | inl e ↦ rw e (
      delivered_once msg xs boxes₁ sid (push msg q) d.1 (here e)
      ∙ ap (λ b. some (if b then push msg (push msg q) else push msg q)) (absent e))
  | inr e ↦ rw e (delivered_once msg xs _ sid q d.1 (deliver_other msg x sid boxes e ∙ h))
]
  where
    boxes₁ : Boxes
    boxes₁ = deliver msg x (lookup x boxes) boxes

    here : (x == sid) ≡ true → lookup sid boxes₁ ≡ some (push msg q)
    here e =
        subst (λ y. lookup sid (deliver msg y (lookup y boxes) boxes) ≡ some (push msg q))
          (sym ((==_iff x sid).0 e))
          (ap (λ o. lookup sid (deliver msg sid o boxes)) h
            ∙ lookup-insert_self sid (push msg q) boxes)

    absent : (x == sid) ≡ true → has sid xs ≡ false
    absent e = subst (λ y. has y xs ≡ false) ((==_iff x sid).0 e) d.0

-- More mailboxes do no harm.
pub more-IsClean :
    (boxes boxes' : Boxes)
    → ((x : ℕ) → is_some (lookup x boxes) ≡ true → is_some (lookup x boxes') ≡ true)
    → (m : List (ℕ × List ℕ)) → IsClean boxes m
    → IsClean boxes' m
more-IsClean boxes boxes' f [] h = tt
more-IsClean boxes boxes' f ((ev, v) ∷ m) h =
    ((h.0.0, more v h.0.1), more-IsClean boxes boxes' f m h.1)
  where
    more : (v : List ℕ) → AllLive boxes v → AllLive boxes' v
    more [] k = tt
    more (x ∷ xs) k = (f x k.0, more xs k.1)

pub insert-live :
    (k : ℕ) (q : Chain Message) (boxes : Boxes) (x : ℕ)
    → is_some (lookup x boxes) ≡ true
    → is_some (lookup x (insert k q boxes)) ≡ true
unfolding is_some
insert-live k q boxes x h = elim (Bool-cases (k == x)) [
  | inl e ↦
      subst (λ y. is_some (lookup y (insert k q boxes)) ≡ true) ((==_iff k x).0 e)
        (ap is_some (lookup-insert_self k q boxes))
  | inr e ↦ ap is_some (lookup-insert_other x k q boxes e) ∙ h
]

pub deliver_all-live :
    (msg : Message) (sids : List ℕ) (boxes : Boxes) (x : ℕ)
    → is_some (lookup x boxes) ≡ true
    → is_some (lookup x (deliver_all msg sids boxes)) ≡ true
unfolding deliver_all deliver
deliver_all-live msg [] boxes x h = h
deliver_all-live msg (sid ∷ sids) boxes x h =
    deliver_all-live msg sids (deliver msg sid (lookup sid boxes) boxes) x (go (lookup sid boxes))
  where
    go : (o : Option (Chain Message)) → is_some (lookup x (deliver msg sid o boxes)) ≡ true
    go none = h
    go (some q) = insert-live sid (push msg q) boxes x h
