-- ===== src/Discovery/LinkedList.antt =====
-- The C list of discovery (src/linked_list.c, include/linked_list.h) over a heap. An element is its
-- address, `none` for NULL; a result of `none` is a use of memory that is not allocated, or a loop
-- that has not ended within its fuel.
use local_chat_xxx.Common.{List, Option, if◌then◌else◌, none, some, suc, zero, ℕ, ◌==◌}
use local_chat_xxx.Common.Assoc.{bytes_eq, erase, insert, lookup, nat_eq}
use local_chat_xxx.Common.Bytes.{Bytes}
use local_chat_xxx.Common.Results.{◌>>=◌}

-- `LinkedListElement_str`.
pub record Element : Type 0 where
  pub next_p : Option ℕ
  pub data_field : Bytes

-- The heap, and `LinkedList_str`.
pub record Store : Type 0 where
  pub heap : List (ℕ × Element)
  pub head_p : Option ℕ
  pub flag : ℕ

unfoldable pub list_constructor : Option ℕ → List (ℕ × Element) → Store
list_constructor head h = record { heap = h; head_p = head; flag = 0 }

-- `malloc` gives the address.
unfoldable pub element_constructor : ℕ → Bytes → Option ℕ → Store → Store
element_constructor a bytes next s = record s {
  heap = insert a (record { next_p = next; data_field = bytes }) s.heap;
}

-- `prev` is the element before `p`.
unfoldable pub find_tail : ℕ → List (ℕ × Element) → ℕ → Option ℕ → Option ℕ
find_tail fuel h prev none = some prev
find_tail zero h prev (some a) = none
find_tail (suc fuel) h prev (some a) = lookup a h >>= λ e. find_tail fuel h a e.next_p

unfoldable pub link : ℕ → Option ℕ → List (ℕ × Element) → Option (List (ℕ × Element))
link a next h = lookup a h >>= λ e. some (insert a (record e { next_p = next }) h)

unfoldable pub add_at : ℕ → Option ℕ → ℕ → Store → Option Store
add_at fuel none a s = some (record s { head_p = some a })
add_at fuel (some x) a s = find_tail fuel s.heap x (some x) >>= λ t.
    link t (some a) s.heap >>= λ h. some (record s { heap = h })

unfoldable pub add_element : ℕ → ℕ → Store → Option Store
add_element fuel a s = add_at fuel s.head_p a s

-- The loop of `RemoveElement`, from the element `p` on, behind `prev`.
unfoldable pub unlink : ℕ → ℕ → ℕ → Option ℕ → List (ℕ × Element) → Option (List (ℕ × Element))
unlink fuel a prev none h = some h
unlink zero a prev (some p) h = none
unlink (suc fuel) a prev (some p) h = lookup p h >>= λ e.
    let further = unlink fuel a p e.next_p h in
    if p == a then (link prev e.next_p h >>= λ h'. some (erase p h')) else further

unfoldable pub remove_at : ℕ → Option ℕ → ℕ → Store → Option Store
remove_at fuel none a s = some s
remove_at fuel (some x) a s = lookup x s.heap >>= λ e.
    if x == a
    then some (record s { heap = erase x s.heap; head_p = e.next_p })
    else (unlink fuel a x (some x) s.heap >>= λ h. some (record s { heap = h }))

unfoldable pub remove_element : ℕ → ℕ → Store → Option Store
remove_element fuel a s = remove_at fuel s.head_p a s

-- The loop of `ClearList`: the next element is read before its predecessor is removed.
unfoldable pub clear_from : ℕ → ℕ → Option ℕ → Store → Option Store
clear_from n fuel none s = some s
clear_from zero fuel (some a) s = none
clear_from (suc n) fuel (some a) s =
    lookup a s.heap >>= λ e. remove_element fuel a s >>= λ s'. clear_from n fuel e.next_p s'

unfoldable pub clear_elements : ℕ → Store → Option Store
clear_elements fuel s = clear_from fuel fuel s.head_p (record s { flag = 0 })
