-- ===== src/Broker/Nodes.antt =====
-- `threadsafe_queue` on a heap (include/threadsafequeue.hpp): nodes at addresses, a head and a tail
-- pointer, and a dummy at the tail. `none` as a result is a use of a null pointer or of memory that
-- is not there. The mutexes make each operation one step.
use local_chat_xxx.Common.{Bool, List, Option, [], false, if◌then◌else◌, none, some, ℕ, ◌==◌}
use local_chat_xxx.Common.Assoc.{bytes_eq, erase, insert, lookup, nat_eq}
use local_chat_xxx.Common.Results.{◌>>=◌}

pub record Node {ℓ} (A : Type ℓ) : Type ℓ where
  pub data_p : Option A
  pub next : Option ℕ

pub record Pointers {ℓ} (A : Type ℓ) : Type ℓ where
  pub heap : List (ℕ × Node A)
  pub head : Option ℕ
  pub tail : ℕ

abbrev pub blank {ℓ} : {A : Type ℓ} → Node A
blank = record { data_p = none; next = none }

-- `head.get() == get_tail()`.
unfoldable pub at_tail : Option ℕ → ℕ → Bool
at_tail none t = false
at_tail (some a) t = a == t

module _ {ℓ} {A : Type ℓ} where
  -- The constructor: `new` gives the address.
  unfoldable pub new_pointers : ℕ → Pointers A
  new_pointers a = record { heap = insert a blank []; head = some a; tail = a }

  unfoldable pub pop_head_at : Option ℕ → Pointers A → Option (Node A × Pointers A)
  pop_head_at none q = none
  pop_head_at (some a) q =
      lookup a q.heap >>= λ n. some (n, record q { heap = erase a q.heap; head = n.next })

  -- The node goes to the caller.
  unfoldable pub pop_head : Pointers A → Option (Node A × Pointers A)
  pop_head q = pop_head_at q.head q

  -- `try_pop_head`: the null pointer when the queue is empty.
  unfoldable pub try_pop_head : Pointers A → Option (Option (Node A) × Pointers A)
  try_pop_head q =
      if at_tail q.head q.tail then some (none, q) else (pop_head q >>= λ r. some (some r.0, r.1))

  abbrev pub data_of : Option (Node A) → Option A
  data_of none = none
  data_of (some n) = n.data_p

  -- The caller drops the node.
  unfoldable pub try_pop : Pointers A → Option (Option A × Pointers A)
  try_pop q = try_pop_head q >>= λ r. some (data_of r.0, r.1)

  unfoldable pub empty : Pointers A → Bool
  empty q = at_tail q.head q.tail

  -- The old dummy gets the data and the new node, which is at `fresh`, becomes the dummy.
  unfoldable pub push : ℕ → A → Pointers A → Option (Pointers A)
  push fresh a q =
      let h = insert fresh blank q.heap in
      lookup q.tail h >>= λ t. some (record q {
        heap = insert q.tail (record t { data_p = some a; next = some fresh }) h;
        tail = fresh;
      })
