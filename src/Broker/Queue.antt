-- ===== src/Broker/Queue.antt =====
-- What is in a `threadsafe_queue`, as the broker sees it. Broker.Nodes has the queue itself, with its
-- head and tail pointers, and Broker.Fifo relates its pushes and pops to a list's.
use local_chat_xxx.Common.{◌≡◌, refl, ap, List, [], ◌∷◌, ◌++◌}

-- The data of the nodes from the head on.
pub data Chain {ℓ} (A : Type ℓ) : Type ℓ where
  dummy : Chain A
  node : A → Chain A → Chain A

module _ {ℓ} {A : Type ℓ} where
  unfoldable pub new_queue : Chain A
  new_queue = dummy

  -- At the end.
  unfoldable pub push : A → Chain A → Chain A
  push a dummy = node a dummy
  push a (node b q) = node b (push a q)

  -- The abstract queue.
  unfoldable pub items : Chain A → List A
  items dummy = []
  items (node a q) = a ∷ items q

  pub items-push : (a : A) (q : Chain A) → items (push a q) ≡ items q ++ (a ∷ [])
  unfolding items push
  items-push a dummy = refl
  items-push a (node b q) = ap (◌∷◌ b) (items-push a q)
