-- ===== src/Broker/Fifo.antt =====
-- The queue on its heap answers as a list does: what was pushed first is popped first, and a pop
-- finds nothing only when nothing is left.
use local_chat_xxx.Common.{
  true, false, ◌==◌, ==_refl, List, Option, [], ap, if◌then◌else◌, none, refl, some, ℕ, ◌++◌, ◌∙◌,
  ◌∷◌, ◌≡◌,
}
use local_chat_xxx.Broker.Linked.{
  turned, at_dummy, at_node, Apart-snoc, Linked, Linked-erase, Linked-push, Missing-snoc,
  Represents, contents, contents-snoc, dummy_there, filled, occupied, unused,
}
use local_chat_xxx.Common.Assoc.{
  bytes_eq, erase, insert, lookup, lookup-insert_other, lookup-insert_self, nat_eq,
}
use local_chat_xxx.Broker.Nodes.{
  try_pop_head, data_of, Node, Pointers, at_tail, blank, new_pointers, pop_head, pop_head_at, push,
  try_pop,
}
use local_chat_xxx.Common.Results.{◌>>=◌}

-- A call of a queue's user.
pub data Call {ℓ} (A : Type ℓ) : Type ℓ where
  pushes : A → Call A
  pops : Call A

module _ {ℓ} {A : Type ℓ} where
  -- The answers of a list that is pushed at its end and popped at its front, and what is left.
  unfoldable pub serve : List (Call A) → List A → List (Option A) × List A
  serve [] xs = ([], xs)
  serve (pushes a ∷ calls) xs = serve calls (xs ++ (a ∷ []))
  serve (pops ∷ calls) [] = let r = serve calls [] in (none ∷ r.0, r.1)
  serve (pops ∷ calls) (x ∷ xs) = let r = serve calls xs in (some x ∷ r.0, r.1)

  -- The answers of the queue, where `new` takes its addresses from an allocator.
  unfoldable pub run_calls :
      (List (ℕ × Node A) → ℕ) → List (Call A) → Pointers A → Option (List (Option A) × Pointers A)
  run_calls alloc [] q = some ([], q)
  run_calls alloc (pushes a ∷ calls) q = push (alloc q.heap) a q >>= run_calls alloc calls
  run_calls alloc (pops ∷ calls) q =
      try_pop q >>= λ r. run_calls alloc calls r.1 >>= λ s. some (r.0 ∷ s.0, s.1)

  -- A push at an address that holds nothing.
  push_lem :
      (f : ℕ) (x : A) (q : Pointers A) (xs : List (ℕ × A))
      → Represents q xs
      → lookup f q.heap ≡ none
      → (r : Pointers A) × (push f x q ≡ some r) × Represents r (xs ++ ((q.tail, x) ∷ []))
  unfolding push
  push_lem f x q xs h free =
      let there = dummy_there q.heap q.tail h.first xs h.linked in
      (
        record q { heap = filled f q.tail x q.heap free; tail = f },
        ap
            (λ o. o >>= λ t. some (record q {
              heap =
                  insert q.tail (record t { data_p = some x; next = some f })
                    (insert f blank q.heap);
              tail = f;
            }))
            (lookup-insert_other q.tail f blank q.heap (occupied q.tail f q.heap there free)
              ∙ there),
        record {
          first = h.first;
          starts = h.starts;
          linked = Linked-push f q.tail x q.heap free h.first xs h.linked h.before_tail;
          apart = Apart-snoc q.tail x xs h.apart h.before_tail;
          before_tail =
              Missing-snoc f q.tail x xs (unused f q.tail q.heap h.first xs h.linked free)
                (turned f q.tail (occupied q.tail f q.heap there free));
        },
      )

  nothing-Linked : (h : List (ℕ × Node A)) (t p : ℕ) → Linked h t p [] → p ≡ t
  nothing-Linked h t p (at_dummy l) = refl

  -- The first node of a chain that has one.
  first_node :
      (h : List (ℕ × Node A)) (t p a : ℕ) (x : A) (xs : List (ℕ × A))
      → Linked h t p ((a, x) ∷ xs)
      → (p ≡ a)
        × (b : ℕ) × (lookup a h ≡ some (record { data_p = some x; next = some b }))
        × Linked h t b xs
  first_node h t p a x xs (at_node {b = b} l r) = (refl, b, l, r)

  -- The rest of a pop, once the head is known, and once it is known whether it is the tail.
  pop_at : Option ℕ → Pointers A → Option (Option A × Pointers A)
  pop_at p q =
      let popped : Option (Option (Node A) × Pointers A) =
        if at_tail p q.tail
        then some (none, q)
        else (pop_head_at p q >>= λ r. some (some r.0, r.1)) in
      popped >>= λ r. some (data_of r.0, r.1)

  try_pop-at : (p : Option ℕ) (q : Pointers A) → q.head ≡ p → try_pop q ≡ pop_at p q
  unfolding try_pop try_pop_head pop_head pop_at
  try_pop-at p q e = ap (λ x. pop_at x q) e

  pop_at-tail : (a : ℕ) (q : Pointers A) → (a == q.tail) ≡ true → pop_at (some a) q ≡ some (none, q)
  unfolding at_tail pop_at
  pop_at-tail a q e = rw e refl

  pop_at-node :
      (a : ℕ) (n : Node A) (q : Pointers A)
      → (a == q.tail) ≡ false
      → lookup a q.heap ≡ some n
      → pop_at (some a) q ≡ some (n.data_p, record q { heap = erase a q.heap; head = n.next })
  unfolding at_tail pop_at pop_head_at
  pop_at-node a n q e l = rw (e, l) refl

  pop_empty : (q : Pointers A) → Represents q [] → try_pop q ≡ some (none, q)
  pop_empty q h =
      try_pop-at (some h.first) q h.starts
      ∙ pop_at-tail h.first q
          (ap (λ p. p == q.tail) (nothing-Linked q.heap q.tail h.first h.linked) ∙ ==_refl q.tail)

  pop_filled :
      (a : ℕ) (x : A) (xs : List (ℕ × A)) (q : Pointers A)
      → Represents q ((a, x) ∷ xs)
      → (r : Pointers A) × (try_pop q ≡ some (some x, r)) × Represents r xs
  pop_filled a x xs q h =
      let n = first_node q.heap q.tail h.first a x xs h.linked in
      (
        record q { heap = erase a q.heap; head = some n.1 },
        try_pop-at (some a) q (h.starts ∙ ap (λ p. some p) n.0)
            ∙ pop_at-node a (record { data_p = some x; next = some n.1 }) q h.before_tail.0 n.2,
        record {
          first = n.1;
          starts = refl;
          linked = Linked-erase a q.tail q.heap n.1 xs n.3 h.apart.0 h.before_tail.0;
          apart = h.apart.1;
          before_tail = h.before_tail.1;
        },
      )

  -- A queue that has these nodes answers every sequence of pushes and pops as a list does that has
  -- their data, with an allocator that gives addresses that hold nothing: a push never fails, a pop
  -- gives what was pushed first, and it gives nothing exactly when nothing is left.
  pub calls_answered :
      (alloc : List (ℕ × Node A) → ℕ)
      → ((h : List (ℕ × Node A)) → lookup (alloc h) h ≡ none)
      → (calls : List (Call A)) (q : Pointers A) (xs : List (ℕ × A)) → Represents q xs
      → (r : Pointers A) × (ys : List (ℕ × A)) × (run_calls alloc calls q
          ≡ some ((serve calls (contents xs)).0, r))
        × Represents r ys
        × (contents ys ≡ (serve calls (contents xs)).1)
  unfolding run_calls serve
  calls_answered alloc fresh [] q xs h = (q, xs, refl, h, refl)
  calls_answered alloc fresh (pushes a ∷ calls) q xs h =
      let p = push_lem (alloc q.heap) a q xs h (fresh q.heap) in
      let rest = calls_answered alloc fresh calls p.0 (xs ++ ((q.tail, a) ∷ [])) p.2 in
      let same = ap (serve calls) (contents-snoc q.tail a xs) in
      (
        rest.0,
        rest.1,
        ap (λ o. o >>= run_calls alloc calls) p.1 ∙ rest.2 ∙ ap (λ s. some (s.0, rest.0)) same,
        rest.3,
        rest.4 ∙ ap (λ s. s.1) same,
      )
  calls_answered alloc fresh (pops ∷ calls) q [] h =
      let rest = calls_answered alloc fresh calls q [] h in
      (
        rest.0,
        rest.1,
        ap (λ o. o >>= λ r. run_calls alloc calls r.1 >>= λ s. some (r.0 ∷ s.0, s.1))
              (pop_empty q h)
            ∙ ap (λ o. o >>= λ s. some (none ∷ s.0, s.1)) rest.2,
        rest.3,
        rest.4,
      )
  calls_answered alloc fresh (pops ∷ calls) q ((a, x) ∷ xs) h =
      let p = pop_filled a x xs q h in
      let rest = calls_answered alloc fresh calls p.0 xs p.2 in
      (
        rest.0,
        rest.1,
        ap (λ o. o >>= λ r. run_calls alloc calls r.1 >>= λ s. some (r.0 ∷ s.0, s.1)) p.1
            ∙ ap (λ o. o >>= λ s. some (some x ∷ s.0, s.1)) rest.2,
        rest.3,
        rest.4,
      )

  -- The queue as its constructor makes it.
  pub new_pointers-Represents : (a : ℕ) → Represents {A = A} (new_pointers a) []
  unfolding new_pointers
  new_pointers-Represents a = record {
    first = a;
    starts = refl;
    linked = at_dummy (lookup-insert_self a blank []);
    apart = tt;
    before_tail = tt;
  }
