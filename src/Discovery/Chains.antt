-- ===== src/Discovery/Chains.antt =====
-- The C list as a list of its elements.
use local_chat_xxx.Common.{
  ==_refl, List, Option, [], ap, arith, false, length, none, refl, some, subst, suc, sym, zero, ℕ,
  ◌++◌, ◌+◌, ◌==◌, ◌∙◌, ◌∷◌, ◌≡◌, ◌≤◌,
}
use local_chat_xxx.Common.Assoc.{
  bytes_eq, erase, insert, lookup, lookup-erase_other, lookup-insert_other, lookup-insert_self,
  nat_eq,
}
use local_chat_xxx.Discovery.LinkedList.{
  Element, Store, add_at, add_element, clear_elements, clear_from, find_tail, link, remove_at,
  remove_element,
}
use local_chat_xxx.Common.Bytes.{Bytes}
use local_chat_xxx.Common.Results.{◌>>=◌}

-- The elements from an address on, with their addresses.
pub data Chained (h : List (ℕ × Element)) : Option ℕ → List (ℕ × Bytes) → Type 0 where
  ends : Chained h none []
  links :
      {a : ℕ} {next : Option ℕ} {bytes : Bytes} {xs : List (ℕ × Bytes)}
      → lookup a h ≡ some (record { next_p = next; data_field = bytes })
      → Chained h next xs
      → Chained h (some a) ((a, bytes) ∷ xs)

abbrev pub Missing : ℕ → List (ℕ × Bytes) → Type 0
Missing a [] = Unit
Missing a ((x, bytes) ∷ xs) = ((x == a) ≡ false) × Missing a xs

abbrev pub Apart : List (ℕ × Bytes) → Type 0
Apart [] = Unit
Apart ((x, bytes) ∷ xs) = Missing x xs × Apart xs

turned_round : (a b : ℕ) → (a == b) ≡ false → (b == a) ≡ false
turned_round a b h = ground arith

-- Writing and freeing elsewhere.
write_elsewhere :
    (h : List (ℕ × Element)) (p : Option ℕ) (xs : List (ℕ × Bytes)) (a : ℕ) (e : Element)
    → Chained h p xs
    → Missing a xs
    → Chained (insert a e h) p xs
write_elsewhere h p xs a e ends m = ends
write_elsewhere h p xs a e (links {a = b} l c) m =
    links (lookup-insert_other b a e h (turned_round b a m.0) ∙ l) (write_elsewhere h _ _ a e c m.1)

free_elsewhere :
    (h : List (ℕ × Element)) (p : Option ℕ) (xs : List (ℕ × Bytes)) (a : ℕ)
    → Chained h p xs
    → Missing a xs
    → Chained (erase a h) p xs
free_elsewhere h p xs a ends m = ends
free_elsewhere h p xs a (links {a = b} l c) m =
    links (lookup-erase_other b a h (turned_round b a m.0) ∙ l) (free_elsewhere h _ _ a c m.1)

-- All of these are freed.
abbrev pub freed : List (ℕ × Bytes) → List (ℕ × Element) → List (ℕ × Element)
freed [] h = h
freed ((a, bytes) ∷ xs) h = freed xs (erase a h)

-- The list of a store has these elements.
pub record Holds (s : Store) (xs : List (ℕ × Bytes)) : Type 0 where
  pub chained : Chained s.heap s.head_p xs
  pub apart : Apart xs

remove_head :
    (fuel a : ℕ) (next : Option ℕ) (bytes : Bytes) (s : Store)
    → s.head_p ≡ some a
    → lookup a s.heap ≡ some (record { next_p = next; data_field = bytes })
    → remove_element fuel a s ≡ some (record s { heap = erase a s.heap; head_p = next })
unfolding remove_element remove_at
remove_head fuel a next bytes s e l = ap (λ p. remove_at fuel p a s) e ∙ rw l (rw (==_refl a) refl)

cleared :
    (n fuel : ℕ) (s : Store) (p : Option ℕ) (xs : List (ℕ × Bytes))
    → s.head_p ≡ p
    → length xs ≤ n
    → Chained s.heap p xs
    → Apart xs
    → clear_from n fuel p s ≡ some (record s { heap = freed xs s.heap; head_p = none })
unfolding clear_from
cleared n fuel s none [] e b ends d = λ i. some (record s { head_p = e i })
cleared zero fuel s (some a) [] e b c d = elim c [ ]
cleared zero fuel s (some a) (x ∷ xs) e b c d = absurd (omega arith)
cleared (suc n) fuel s _ _ e b (links {a = a} {next = next} {bytes = bytes} {xs = xs} l c) d =
    ap (λ o. o >>= λ x. remove_element fuel a s >>= λ s'. clear_from n fuel x.next_p s') l
    ∙ ap (λ o. o >>= λ s'. clear_from n fuel next s') (remove_head fuel a next bytes s e l)
    ∙ cleared n fuel (record s { heap = erase a s.heap; head_p = next }) next xs refl (omega arith)
        (free_elsewhere s.heap next xs a c d.0) d.1

-- A store whose list has these elements, at different addresses, is cleared, with fuel for each
-- element. The clearing ends without a use of freed memory, every element is freed and nothing
-- else, the list is empty and the flag is 0.
pub clear_elements_lem :
    (fuel : ℕ) (s : Store) (xs : List (ℕ × Bytes))
    → Holds s xs
    → length xs ≤ fuel
    → clear_elements fuel s ≡ some (record { heap = freed xs s.heap; head_p = none; flag = 0 })
unfolding clear_elements
clear_elements_lem fuel s xs h b =
    cleared fuel fuel (record s { flag = 0 }) s.head_p xs refl b h.chained h.apart

-- Walking from an element of the list, one finds its last element, and linking a new one behind it
-- makes the list longer by that one.
appended :
    (fuel : ℕ) (h : List (ℕ × Element)) (a b prev : ℕ) (new bytes : Bytes) (next : Option ℕ)
    (xs : List (ℕ × Bytes))
    → lookup a h ≡ some (record { next_p = next; data_field = bytes })
    → Chained h next xs
    → Apart ((a, bytes) ∷ xs)
    → lookup b h ≡ some (record { next_p = none; data_field = new })
    → Missing b ((a, bytes) ∷ xs)
    → length xs + 1 ≤ fuel
    → (h' : List (ℕ × Element)) × (t : ℕ) × (find_tail fuel h prev (some a) ≡ some t)
      × (link t (some b) h ≡ some h')
      × Chained h' (some a) ((a, bytes) ∷ (xs ++ ((b, new) ∷ [])))
      × ((k : ℕ) → Missing k ((a, bytes) ∷ xs) → lookup k h' ≡ lookup k h)
unfolding find_tail link
appended zero h a b prev new bytes next xs l c d lb m k = absurd (omega arith)
appended (suc fuel) h a b prev new bytes none [] l ends d lb m k = (
  insert a (record { next_p = some b; data_field = bytes }) h,
  a,
  ap (λ o. o >>= λ e. find_tail fuel h a e.next_p) l ∙ stop fuel,
  ap (λ o. o >>= λ e. some (insert a (record e { next_p = some b }) h)) l,
  links (lookup-insert_self a _ h) (links (lookup-insert_other b a _ h m.0 ∙ lb) ends),
  λ k n. lookup-insert_other k a _ h n.0,
)
  where
    stop : (k : ℕ) → find_tail k h a none ≡ some a
    stop zero = refl
    stop (suc k) = refl
appended (suc fuel) h a b prev new bytes _ _ l
      (links {a = a'} {next = next'} {bytes = bytes'} {xs = xs} l' c) d lb m k =
    let r = appended fuel h a' b a new bytes' next' xs l' c d.1 lb m.1 (omega arith) in
    (
      r.0,
      r.1,
      ap (λ o. o >>= λ e. find_tail fuel h a e.next_p) l ∙ r.2,
      r.3,
      links (r.5 a (d.0) ∙ l) r.4,
      λ i n. r.5 i n.1,
    )

-- Adding an element that is allocated, ends with itself and is not in the list yet, with fuel for
-- each element of the list: the list has it as its last element, and the rest as before.
pub add_element_lem :
    (fuel b : ℕ) (new : Bytes) (s : Store) (xs : List (ℕ × Bytes))
    → Holds s xs
    → lookup b s.heap ≡ some (record { next_p = none; data_field = new })
    → Missing b xs
    → length xs ≤ fuel
    → (s' : Store) × (add_element fuel b s ≡ some s') × Holds s' (xs ++ ((b, new) ∷ []))
unfolding add_element add_at
add_element_lem fuel b new s xs h lb m k = added s.head_p xs refl h.chained h.apart m k
  where
    apart_more : (ys : List (ℕ × Bytes)) → Apart ys → Missing b ys → Apart (ys ++ ((b, new) ∷ []))
    apart_more [] d m = (tt, tt)
    apart_more ((y, bytes) ∷ ys) d m = (more ys d.0 m.0, apart_more ys d.1 m.1)
      where
        more :
            (zs : List (ℕ × Bytes))
            → Missing y zs
            → (y == b) ≡ false
            → Missing y (zs ++ ((b, new) ∷ []))
        more [] d m = (turned_round y b m, tt)
        more ((z, w) ∷ zs) d m = (d.0, more zs d.1 m)

    added :
        (p : Option ℕ) (ys : List (ℕ × Bytes))
        → s.head_p ≡ p
        → Chained s.heap p ys
        → Apart ys
        → Missing b ys
        → length ys ≤ fuel
        → (s' : Store) × (add_at fuel p b s ≡ some s') × Holds s' (ys ++ ((b, new) ∷ []))
    added none [] e ends d m k = (_, refl, record { chained = links lb ends; apart = (tt, tt) })
    added _ _ e (links {a = a} {next = next} {bytes = bytes} {xs = ys} l c) d m k =
        let r = appended fuel s.heap a b a new bytes next ys l c d lb m (omega arith) in
        (
          record s { heap = r.0 },
          ap (λ o. o >>= λ t. link t (some b) s.heap >>= λ h. some (record s { heap = h })) r.2
              ∙ ap (λ o. o >>= λ h. some (record s { heap = h })) r.3,
          record {
            chained = subst (λ q. Chained r.0 q ((a, bytes) ∷ (ys ++ ((b, new) ∷ [])))) (sym e) r.4;
            apart = apart_more ((a, bytes) ∷ ys) d m;
          },
        )
