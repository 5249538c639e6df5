-- ===== src/Broker/Ids.antt =====
-- The choice of a free subscriber id.
use local_chat_xxx.Common.{
  ℕ, zero, suc, ◌+◌, ◌-◌, ◌%◌, ◌<◌, ◌≤◌, ◌≡◌, refl, ap, sym, ◌∙◌, subst, Bool, true, false,
  if◌then◌else◌, ltb, if-cases, Bool-cases, inl, inr, ◌⊎◌, arith, Option, none, some,
}
use local_chat_xxx.Common.Assoc.{nat_eq, lookup-insert_self}
use local_chat_xxx.Status.{Status, ok, max_components}
use local_chat_xxx.Broker.Queue.{new_queue}
use local_chat_xxx.Broker.Defs.{
  Broker, is_some, is_live, cycle_from, cycle_current_subscriber_id, attach, attach_at,
}

-- An id that the search finds is free and a byte; a search that fails has met live ids only.
cycle_from-found :
    (rounds i start : ℕ) (b : Broker)
    → (cycle_from rounds i start b).0 ≡ true
    → (is_live b ((cycle_from rounds i start b).1) ≡ false)
      × ((cycle_from rounds i start b).1 < 256)
unfolding cycle_from
cycle_from-found zero i start b h = absurd cc h
cycle_from-found (suc n) i start b h =
    if-cases (λ (r : Bool × ℕ). r.0 ≡ true → (is_live b (r.1) ≡ false) × (r.1 < 256))
      (is_live b ((start + 1 + i) % 256)) (λ e k. cycle_from-found n (suc i) start b k)
      (λ e k. (e, omega arith)) h

cycle_from-none :
    (rounds i start : ℕ) (b : Broker)
    → (cycle_from rounds i start b).0 ≡ false
    → (j : ℕ) → i ≤ j
    → j < i + rounds
    → is_live b ((start + 1 + j) % 256) ≡ true
unfolding cycle_from
cycle_from-none zero i start b h j p q = absurd (omega arith)
cycle_from-none (suc n) i start b h j p q = elim (Bool-cases (is_live b ((start + 1 + i) % 256))) [
  | inl e ↦ elim (Bool-cases (ltb i j)) [
    | inl l ↦
        cycle_from-none n (suc i) start b
          (sym (
              ap
                (λ c. (if c then cycle_from n (suc i) start b else (true, (start + 1 + i) % 256)).0)
                e)
            ∙ h)
          j (ground arith) (omega arith)
    | inr l ↦ subst (λ x. is_live b ((start + 1 + x) % 256) ≡ true) (at i j p l) e
  ]
  | inr e ↦
      absurd cc (
        h,
        ap (λ c. (if c then cycle_from n (suc i) start b else (true, (start + 1 + i) % 256)).0) e,
      )
]
  where
    at : (i j : ℕ) → i ≤ j → ltb i j ≡ false → i ≡ j
    at i j p l = ground arith

-- When the search fails every id of a byte is live.
all_live :
    (b : Broker)
    → b.current < 256
    → (cycle_from 256 0 b.current b).0 ≡ false
    → (k : ℕ) → k < 256
    → is_live b k ≡ true
all_live b c h k l =
    subst (λ x. is_live b x ≡ true) back
      (cycle_from-none 256 0 b.current b h ((k + 255 + 256 - b.current) % 256) (omega arith)
        (omega arith))
  where
    back : (b.current + 1 + (k + 255 + 256 - b.current) % 256) % 256 ≡ k
    back = omega arith

-- What a successful attach gives: an id that was free, fits a byte and now has a mailbox.
pub record IsFresh (b : Broker) (r : Status × Option ℕ × Broker) : Type 0 where
  pub id : ℕ
  pub succeeded : r.0 ≡ ok
  pub given : r.1 ≡ some id
  pub is_byte : id < 256
  pub was_free : is_live b id ≡ false
  pub now_live : is_live (r.2) id ≡ true

attach_at-IsFresh :
    (b c : Broker)
    → c.mailboxes ≡ b.mailboxes
    → c.current < 256
    → is_live b c.current ≡ false
    → IsFresh b (attach_at c)
unfolding attach_at cycle_current_subscriber_id is_some
attach_at-IsFresh b c same bound free = record {
  id = c.current;
  succeeded = refl;
  given = refl;
  is_byte = bound;
  was_free = free;
  now_live = ap is_some (lookup-insert_self c.current new_queue c.mailboxes);
}

-- The result for a full broker: refused, with the mailboxes and subscriptions as they were.
pub record IsRefused (b : Broker) (r : Status × Option ℕ × Broker) : Type 0 where
  pub refused : r.0 ≡ max_components
  pub none_given : r.1 ≡ none
  pub mailboxes_kept : r.2.mailboxes ≡ b.mailboxes
  pub subs_kept : r.2.subs ≡ b.subs
  pub full : (k : ℕ) → k < 256 → is_live b k ≡ true

-- With its id and its count in range, a broker either gives a component an id that was free, fits
-- a byte and now has a mailbox, or refuses it, and then all 256 ids have a mailbox and the
-- mailboxes and subscriptions stay.
pub attach_lem :
    (b : Broker)
    → b.current < 256
    → b.registered < 256
    → IsFresh b (attach b) ⊎ IsRefused b (attach b)
unfolding attach cycle_current_subscriber_id
attach_lem b c n =
    if-cases P (ltb 255 b.registered) (λ e. absurd (ground arith))
      (λ e.
        if-cases P (is_live b b.current)
          (λ live.
            if-cases P ((cycle_current_subscriber_id b).0)
              (λ found.
                let (free, bound) = cycle_from-found 256 0 b.current b found in
                inl (attach_at-IsFresh b ((cycle_current_subscriber_id b).1) refl bound free))
              (λ failed. inr (record {
                refused = refl;
                none_given = refl;
                mailboxes_kept = refl;
                subs_kept = refl;
                full = all_live b c failed;
              })))
          (λ free. inl (attach_at-IsFresh b b refl c free)))
  where
    P : Status × Option ℕ × Broker → Type 0
    P r = IsFresh b r ⊎ IsRefused b r
