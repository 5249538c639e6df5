-- ===== src/Broker/Subscriptions.antt =====
-- The subscriptions of every reachable broker, and what routing does with them.
use local_chat_xxx.Common.{
  ℕ, ◌≡◌, refl, ap, sym, ◌∙◌, true, false, if◌then◌else◌, ◌==◌, if-cases, Bool-cases, inl, inr,
  arith, List, [], ◌∷◌, ◌++◌, Option, none, some,
}
use local_chat_xxx.Common.Assoc.{lookup, insert, erase, nat_eq, lookup-erase_other}
use local_chat_xxx.Broker.Queue.{Chain}
use local_chat_xxx.Broker.Defs.{
  Message, is_some, has, without, keep_list, forget, listed, add_subscriber, put_list, drop_from,
  add_all, drop_all,
}

abbrev pub NoDup : List ℕ → Type 0
NoDup [] = Unit
NoDup (x ∷ xs) = (has x xs ≡ false) × NoDup xs

abbrev pub Boxes : Type 0
Boxes = List (ℕ × Chain Message)

abbrev pub AllLive : Boxes → List ℕ → Type 0
AllLive boxes [] = Unit
AllLive boxes (x ∷ xs) = (is_some (lookup x boxes) ≡ true) × AllLive boxes xs

-- Every list of subscribers has no duplicate and names subscribers with a mailbox.
abbrev pub IsClean : Boxes → List (ℕ × List ℕ) → Type 0
IsClean boxes [] = Unit
IsClean boxes ((ev, v) ∷ m) = (NoDup v × AllLive boxes v) × IsClean boxes m

differ : (x y : ℕ) → (x == y) ≡ false → (y == x) ≡ false
differ x y h = ground arith

has-without : (y sid : ℕ) (v : List ℕ) → has y v ≡ false → has y (without sid v) ≡ false
unfolding has without
has-without y sid [] h = h
has-without y sid (x ∷ xs) h = elim (Bool-cases (x == y)) [
  | inl e ↦ absurd cc (h, ap (λ b. if b then true else has y xs) e)
  | inr e ↦
      let rest = has-without y sid xs (sym (ap (λ b. if b then true else has y xs) e) ∙ h) in
      if-cases (λ v. has y v ≡ false) (x == sid) (λ _. rest) (λ _. rw e rest)
]

without-NoDup : (sid : ℕ) (v : List ℕ) → NoDup v → NoDup (without sid v)
unfolding without
without-NoDup sid [] h = h
without-NoDup sid (x ∷ xs) h =
    if-cases NoDup (x == sid) (λ e. without-NoDup sid xs h.1)
      (λ e. (has-without x sid xs h.0, without-NoDup sid xs h.1))

without-AllLive :
    (boxes : Boxes) (sid : ℕ) (v : List ℕ)
    → AllLive boxes v
    → AllLive (erase sid boxes) (without sid v)
unfolding without
without-AllLive boxes sid [] h = h
without-AllLive boxes sid (x ∷ xs) h =
    if-cases (AllLive (erase sid boxes)) (x == sid) (λ e. without-AllLive boxes sid xs h.1)
      (λ e. (
        ap is_some (lookup-erase_other x sid boxes (differ x sid e)) ∙ h.0,
        without-AllLive boxes sid xs h.1,
      ))

-- A detached subscriber is in no list any more, and the rest stays clean.
pub forget-IsClean :
    (boxes : Boxes) (sid : ℕ) (m : List (ℕ × List ℕ))
    → IsClean boxes m
    → IsClean (erase sid boxes) (forget sid m)
unfolding forget keep_list
forget-IsClean boxes sid [] h = h
forget-IsClean boxes sid ((ev, v) ∷ m) h =
    kept (without sid v) (without-NoDup sid v h.0.0, without-AllLive boxes sid v h.0.1)
      (forget-IsClean boxes sid m h.1)
  where
    kept :
        (u : List ℕ)
        → NoDup u × AllLive (erase sid boxes) u
        → IsClean (erase sid boxes) (forget sid m)
        → IsClean (erase sid boxes) (keep_list ev u (forget sid m))
    kept [] k r = r
    kept (x ∷ u) k r = (k, r)

-- A list that is clean, and its parts.
pub lookup-IsClean :
    (boxes : Boxes) (m : List (ℕ × List ℕ)) (ev : ℕ)
    → IsClean boxes m
    → NoDup (listed (lookup ev m)) × AllLive boxes (listed (lookup ev m))
unfolding lookup listed
lookup-IsClean boxes [] ev h = (tt, tt)
lookup-IsClean boxes ((k, v) ∷ m) ev h =
    if-cases (λ o. NoDup (listed o) × AllLive boxes (listed o)) (k == ev) (λ e. h.0)
      (λ e. lookup-IsClean boxes m ev h.1)

insert-IsClean :
    (boxes : Boxes) (m : List (ℕ × List ℕ)) (ev : ℕ) (v : List ℕ)
    → NoDup v × AllLive boxes v
    → IsClean boxes m
    → IsClean boxes (insert ev v m)
unfolding insert
insert-IsClean boxes [] ev v k h = (k, tt)
insert-IsClean boxes ((j, u) ∷ m) ev v k h =
    if-cases (IsClean boxes) (j == ev) (λ e. (k, h.1))
      (λ e. (h.0, insert-IsClean boxes m ev v k h.1))

erase-IsClean :
    (boxes : Boxes) (m : List (ℕ × List ℕ)) (ev : ℕ) → IsClean boxes m → IsClean boxes (erase ev m)
unfolding erase
erase-IsClean boxes [] ev h = h
erase-IsClean boxes ((j, u) ∷ m) ev h =
    if-cases (IsClean boxes) (j == ev) (λ e. erase-IsClean boxes m ev h.1)
      (λ e. (h.0, erase-IsClean boxes m ev h.1))

snoc-NoDup : (sid : ℕ) (v : List ℕ) → has sid v ≡ false → NoDup v → NoDup (v ++ (sid ∷ []))
unfolding has
snoc-NoDup sid [] e h = (refl, tt)
snoc-NoDup sid (x ∷ xs) e h = elim (Bool-cases (x == sid)) [
  | inl p ↦ absurd cc (e, ap (λ b. if b then true else has sid xs) p)
  | inr p ↦ (
    has-snoc xs p h.0,
    snoc-NoDup sid xs (sym (ap (λ b. if b then true else has sid xs) p) ∙ e) h.1,
  )
]
  where
    has-snoc :
        (ys : List ℕ) → (x == sid) ≡ false → has x ys ≡ false → has x (ys ++ (sid ∷ [])) ≡ false
    has-snoc [] p q = rw (differ x sid p)
    has-snoc (y ∷ ys) p q = elim (Bool-cases (y == x)) [
      | inl r ↦ absurd cc (q, ap (λ b. if b then true else has x ys) r)
      | inr r ↦ rw r (has-snoc ys p (sym (ap (λ b. if b then true else has x ys) r) ∙ q))
    ]

snoc-AllLive :
    (boxes : Boxes) (sid : ℕ) (v : List ℕ)
    → is_some (lookup sid boxes) ≡ true
    → AllLive boxes v
    → AllLive boxes (v ++ (sid ∷ []))
snoc-AllLive boxes sid [] e h = (e, tt)
snoc-AllLive boxes sid (x ∷ xs) e h = (h.0, snoc-AllLive boxes sid xs e h.1)

pub add_subscriber-IsClean :
    (boxes : Boxes) (sid ev : ℕ) (m : List (ℕ × List ℕ))
    → is_some (lookup sid boxes) ≡ true
    → IsClean boxes m
    → IsClean boxes (add_subscriber sid ev m)
unfolding add_subscriber
add_subscriber-IsClean boxes sid ev m e h =
    insert-IsClean boxes m ev _
      (if-cases (λ v. NoDup v × AllLive boxes v) (has sid u) (λ p. k)
        (λ p. (snoc-NoDup sid u p k.0, snoc-AllLive boxes sid u e k.1)))
      h
  where
    u : List ℕ
    u = listed (lookup ev m)

    k : NoDup u × AllLive boxes u
    k = lookup-IsClean boxes m ev h

pub add_all-IsClean :
    (boxes : Boxes) (sid : ℕ) (evs : List ℕ) (m : List (ℕ × List ℕ))
    → is_some (lookup sid boxes) ≡ true
    → IsClean boxes m
    → IsClean boxes (add_all sid evs m)
unfolding add_all
add_all-IsClean boxes sid [] m e h = h
add_all-IsClean boxes sid (ev ∷ evs) m e h =
    add_all-IsClean boxes sid evs (add_subscriber sid ev m) e
      (add_subscriber-IsClean boxes sid ev m e h)

kept-AllLive :
    (boxes : Boxes) (sid : ℕ) (v : List ℕ) → AllLive boxes v → AllLive boxes (without sid v)
unfolding without
kept-AllLive boxes sid [] h = h
kept-AllLive boxes sid (x ∷ xs) h =
    if-cases (AllLive boxes) (x == sid) (λ e. kept-AllLive boxes sid xs h.1)
      (λ e. (h.0, kept-AllLive boxes sid xs h.1))

pub drop_from-IsClean :
    (boxes : Boxes) (sid ev : ℕ) (m : List (ℕ × List ℕ))
    → IsClean boxes m
    → IsClean boxes (drop_from sid ev (lookup ev m) m)
unfolding drop_from listed put_list
drop_from-IsClean boxes sid ev m h = go (lookup ev m) (lookup-IsClean boxes m ev h)
  where
    put : (u : List ℕ) → NoDup u × AllLive boxes u → IsClean boxes (put_list ev u m)
    put [] k = erase-IsClean boxes m ev h
    put (x ∷ u) k = insert-IsClean boxes m ev (x ∷ u) k h

    go :
        (o : Option (List ℕ))
        → NoDup (listed o) × AllLive boxes (listed o)
        → IsClean boxes (drop_from sid ev o m)
    go none k = h
    go (some v) k = put (without sid v) (without-NoDup sid v k.0, kept-AllLive boxes sid v k.1)

pub drop_all-IsClean :
    (boxes : Boxes) (sid : ℕ) (evs : List ℕ) (m : List (ℕ × List ℕ))
    → IsClean boxes m
    → IsClean boxes (drop_all sid evs m)
unfolding drop_all
drop_all-IsClean boxes sid [] m h = h
drop_all-IsClean boxes sid (ev ∷ evs) m h =
    drop_all-IsClean boxes sid evs (drop_from sid ev (lookup ev m) m)
      (drop_from-IsClean boxes sid ev m h)
