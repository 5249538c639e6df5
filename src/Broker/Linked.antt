-- ===== src/Broker/Linked.antt =====
-- The nodes of a queue on its heap, from the head to the dummy, and what writes and frees do to them.
use local_chat_xxx.Common.{
  ==_iff, Bool-cases, List, [], ap, arith, false, inl, inr, none, refl, some, ℕ, ◌++◌, ◌==◌, ◌∙◌,
  ◌∷◌, ◌≡◌,
}
use local_chat_xxx.Common.Assoc.{
  bytes_eq, erase, insert, lookup, lookup-erase_other, lookup-insert_other, lookup-insert_self,
  nat_eq,
}
use local_chat_xxx.Broker.Nodes.{Node, Pointers, blank}

pub turned : (a b : ℕ) → (a == b) ≡ false → (b == a) ≡ false
turned a b h = ground arith

module _ {ℓ} {A : Type ℓ} where
  -- The nodes from an address to the dummy, with their data.
  pub data Linked (h : List (ℕ × Node A)) (t : ℕ) : ℕ → List (ℕ × A) → Type ℓ where
    at_dummy : lookup t h ≡ some blank → Linked h t t []
    at_node :
        {a b : ℕ} {x : A} {xs : List (ℕ × A)}
        → lookup a h ≡ some (record { data_p = some x; next = some b })
        → Linked h t b xs
        → Linked h t a ((a, x) ∷ xs)

  abbrev pub Missing : ℕ → List (ℕ × A) → Type 0
  Missing a [] = Unit
  Missing a ((b, x) ∷ xs) = ((b == a) ≡ false) × Missing a xs

  abbrev pub Apart : List (ℕ × A) → Type 0
  Apart [] = Unit
  Apart ((b, x) ∷ xs) = Missing b xs × Apart xs

  abbrev pub contents : List (ℕ × A) → List A
  contents [] = []
  contents ((b, x) ∷ xs) = x ∷ contents xs

  pub record Represents (q : Pointers A) (xs : List (ℕ × A)) : Type ℓ where
    pub first : ℕ
    pub starts : q.head ≡ some first
    pub linked : Linked q.heap q.tail first xs
    pub apart : Apart xs
    pub before_tail : Missing q.tail xs

  -- An address that holds a node is not one that holds none.
  pub occupied :
      (a b : ℕ) {n : Node A} (h : List (ℕ × Node A))
      → lookup a h ≡ some n
      → lookup b h ≡ none
      → (b == a) ≡ false
  occupied a b h l k = elim (Bool-cases (b == a)) [
    | inl e ↦ absurd cc (l, k, (==_iff b a).0 e)
    | inr e ↦ e
  ]

  pub unused :
      (b t : ℕ) (h : List (ℕ × Node A)) (p : ℕ) (xs : List (ℕ × A))
      → Linked h t p xs
      → lookup b h ≡ none
      → Missing b xs
  unused b t h p xs (at_dummy l) k = tt
  unused b t h p xs (at_node {a = a} l r) k =
      (turned b a (occupied a b h l k), unused b t h _ _ r k)

  pub dummy_there :
      (h : List (ℕ × Node A)) (t p : ℕ) (xs : List (ℕ × A))
      → Linked h t p xs
      → lookup t h ≡ some blank
  dummy_there h t p xs (at_dummy l) = l
  dummy_there h t p xs (at_node l r) = dummy_there h t _ _ r

  pub Missing-snoc :
      (a b : ℕ) (x : A) (xs : List (ℕ × A))
      → Missing a xs
      → (b == a) ≡ false
      → Missing a (xs ++ ((b, x) ∷ []))
  Missing-snoc a b x [] m e = (e, tt)
  Missing-snoc a b x ((c, y) ∷ xs) m e = (m.0, Missing-snoc a b x xs m.1 e)

  pub Apart-snoc :
      (b : ℕ) (x : A) (xs : List (ℕ × A)) → Apart xs → Missing b xs → Apart (xs ++ ((b, x) ∷ []))
  Apart-snoc b x [] d m = (tt, tt)
  Apart-snoc b x ((c, y) ∷ xs) d m =
      (Missing-snoc c b x xs d.0 (turned c b m.0), Apart-snoc b x xs d.1 m.1)

  pub contents-snoc :
      (b : ℕ) (x : A) (xs : List (ℕ × A)) → contents (xs ++ ((b, x) ∷ [])) ≡ contents xs ++ (x ∷ [])
  contents-snoc b x [] = refl
  contents-snoc b x ((c, y) ∷ xs) = ap (◌∷◌ y) (contents-snoc b x xs)

  module _ (f t : ℕ) (x : A) (h : List (ℕ × Node A)) (free : lookup f h ≡ none) where
    abbrev pub filled : List (ℕ × Node A)
    filled = insert t (record { data_p = some x; next = some f }) (insert f blank h)

    -- The old nodes, the old dummy with its data, and the new dummy.
    pub Linked-push :
        (p : ℕ) (xs : List (ℕ × A))
        → Linked h t p xs
        → Missing t xs
        → Linked filled f p (xs ++ ((t, x) ∷ []))
    Linked-push p [] (at_dummy l) m = at_node (lookup-insert_self t _ (insert f blank h)) (
        at_dummy (
          lookup-insert_other f t _ (insert f blank h) (turned f t (occupied t f h l free))
          ∙ lookup-insert_self f blank h))
    Linked-push p ((a, y) ∷ xs) (at_node l r) m =
        at_node
          (lookup-insert_other a t _ (insert f blank h) (turned a t m.0)
            ∙ lookup-insert_other a f blank h (occupied a f h l free)
            ∙ l)
          (Linked-push _ xs r m.1)

  pub Linked-erase :
      (c t : ℕ) (h : List (ℕ × Node A)) (p : ℕ) (xs : List (ℕ × A))
      → Linked h t p xs
      → Missing c xs
      → (c == t) ≡ false
      → Linked (erase c h) t p xs
  Linked-erase c t h p xs (at_dummy l) m e = at_dummy (lookup-erase_other t c h e ∙ l)
  Linked-erase c t h p xs (at_node {a = a} l r) m e =
      at_node (lookup-erase_other a c h (turned a c m.0) ∙ l) (Linked-erase c t h _ _ r m.1 e)
