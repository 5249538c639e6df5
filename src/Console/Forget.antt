-- ===== src/Console/Forget.antt =====
-- The services that discovery has lost, after the batch that says so.
use local_chat_xxx.Common.{
  Bool-cases, List, [], ap, false, if-cases, if◌then◌else◌, inl, inr, length, ltb, lt→ltb, refl,
  subst, sym, true, ◌∙◌, ◌∷◌, ◌≡◌,
}
use local_chat_xxx.Console.Lost.{
  AllForgotten, Gone, IsForgotten, forget_peer-Gone, forget_peer-Reachable, lookup-erase-none,
  named_shorter, names, remove_keeps_Gone, without_name-NoneNamed, without_name_keeps,
}
use local_chat_xxx.Common.Bytes.{Bytes, bytes_beq, bytes_beq_iff}
use local_chat_xxx.Console.Defs.{App, ServiceInstance, print}
use local_chat_xxx.Console.Services.{
  deregister, deregister_all, forget_peer, handle_service_deregistration, without_name,
}
use local_chat_xxx.Common.Assoc.{bytes_eq, erase, nat_eq}
use local_chat_xxx.Console.Peers.{NoneNamed}
use local_chat_xxx.Manager.Defs.{Manager, get_session_id_from_service_name}
use local_chat_xxx.Console.Screen.{print_all}
use local_chat_xxx.Manager.Steps.{Reachable}

forget_peer_keeps :
    (name other : Bytes) (m : Manager) → Gone name m → Gone name (forget_peer other m)
unfolding forget_peer
forget_peer_keeps name other m g =
    remove_keeps_Gone name other (record m { nodes = erase other m.nodes })
      (lookup-erase-none other name m.nodes g.0, g.1, g.2)

forgotten-Gone : (name : Bytes) (a : App) → IsForgotten name a → Gone name a.manager
unfolding get_session_id_from_service_name
forgotten-Gone name a f = (f.no_node, f.no_id, f.no_session)

Gone-IsForgotten :
    (name : Bytes) (a : App) → NoneNamed name a.service_v → Gone name a.manager → IsForgotten name a
unfolding get_session_id_from_service_name
Gone-IsForgotten name a v g = record { unlisted = v; no_node = g.0; no_id = g.1; no_session = g.2 }

deregister_keeps :
    (name other : Bytes) (a : App) → IsForgotten name a → IsForgotten name (deregister other a)
unfolding deregister
deregister_keeps name other a f =
    let v = without_name_keeps name other a.service_v f.unlisted in
    if-cases (IsForgotten name) (ltb (length (without_name other a.service_v)) (length a.service_v))
      (λ _.
        Gone-IsForgotten name _ v
          (forget_peer_keeps name other a.manager (forgotten-Gone name a f)))
      (λ _. Gone-IsForgotten name _ v (forgotten-Gone name a f))

deregister_all_keeps :
    (name : Bytes) (ss : List ServiceInstance) (a : App)
    → IsForgotten name a
    → IsForgotten name (deregister_all ss a)
unfolding deregister_all
deregister_all_keeps name [] a f = f
deregister_all_keeps name (s ∷ ss) a f =
    deregister_all_keeps name ss _ (deregister_keeps name s.service_name a f)

deregister_named :
    (host name : Bytes) (a : App)
    → Reachable host a.manager
    → names name a.service_v ≡ true
    → IsForgotten name (deregister name a)
unfolding deregister
deregister_named host name a r h =
    rw
      (lt→ltb (length (without_name name a.service_v)) (length a.service_v)
        (named_shorter name a.service_v h))
      (Gone-IsForgotten name _ (without_name-NoneNamed name a.service_v)
        (forget_peer-Gone host name a.manager r))

pub deregister-Reachable :
    (host name : Bytes) (a : App)
    → Reachable host a.manager
    → Reachable host (deregister name a).manager
unfolding deregister
deregister-Reachable host name a r =
    if-cases (λ (b : App). Reachable host b.manager)
      (ltb (length (without_name name a.service_v)) (length a.service_v))
      (λ _. forget_peer-Reachable host name a.manager r) (λ _. r)

names-without :
    (name other : Bytes) (v : List ServiceInstance)
    → bytes_beq other name ≡ false
    → names name (without_name other v) ≡ names name v
unfolding names without_name
names-without name other [] h = refl
names-without name other (s ∷ v) h = elim (Bool-cases (bytes_beq s.service_name other)) [
  | inl e ↦
      let same = (bytes_beq_iff s.service_name other).0 e in
      rw e (
        names-without name other v h
        ∙ ap (λ b. if b then true else names name v) (sym (ap (λ n. bytes_beq n name) same ∙ h)))
  | inr e ↦
      rw e
        (ap (λ r. if bytes_beq s.service_name name then true else r) (names-without name other v h))
]

names-deregister :
    (name other : Bytes) (a : App)
    → bytes_beq other name ≡ false
    → names name (deregister other a).service_v ≡ names name a.service_v
unfolding deregister
names-deregister name other a h =
    if-cases (λ (b : App). names name b.service_v ≡ names name a.service_v)
      (ltb (length (without_name other a.service_v)) (length a.service_v))
      (λ _. names-without name other a.service_v h) (λ _. names-without name other a.service_v h)

weaken :
    (ss : List ServiceInstance) (other : Bytes) (a b : App)
    → (names other a.service_v ≡ true → IsForgotten other b)
    → AllForgotten ss (deregister other a).service_v b
    → AllForgotten ss a.service_v b
weaken [] other a b f h = tt
weaken (s ∷ ss) other a b f h = (
  λ n. elim (Bool-cases (bytes_beq other s.service_name)) [
    | inl e ↦
        subst (λ m. names m a.service_v ≡ true → IsForgotten m b)
          ((bytes_beq_iff other s.service_name).0 e) f n
    | inr e ↦ h.0 (names-deregister s.service_name other a e ∙ n)
  ],
  weaken ss other a b f h.1,
)

module _ (host : Bytes) where
  forgets_all :
      (lost : List ServiceInstance) (a : App)
      → Reachable host a.manager
      → AllForgotten lost a.service_v (deregister_all lost a)
  unfolding deregister_all
  forgets_all [] a r = tt
  forgets_all (s ∷ ss) a r =
      let f : names s.service_name a.service_v ≡ true
          → IsForgotten s.service_name (deregister_all ss (deregister s.service_name a)) =
        λ n.
          deregister_all_keeps s.service_name ss _ (deregister_named host s.service_name a r n) in
      let later_ones =
        forgets_all ss (deregister s.service_name a)
          (deregister-Reachable host s.service_name a r) in
      (f, weaken ss s.service_name a _ f later_ones)

-- A batch of lost services reaches the program, in a state in which the manager is as the program
-- can make it. Each service of the batch whose name was listed is forgotten: its name is not in the
-- list of services, no node has it, it leads to no session and no session has it.
pub lost_services_forgotten :
    (host : Bytes) (lost : List ServiceInstance) (a : App)
    → Reachable host a.manager
    → AllForgotten lost a.service_v (handle_service_deregistration lost a).0
unfolding handle_service_deregistration print_all print
lost_services_forgotten host lost a r = printed lost (forgets_all host lost a r)
  where
    printed :
        (ss : List ServiceInstance)
        → AllForgotten ss a.service_v (deregister_all lost a)
        → AllForgotten ss a.service_v (print_all (deregister_all lost a))
    printed [] h = tt
    printed (s ∷ ss) h = (
      (λ n.
          let f = h.0 n in
          record {
            unlisted = f.unlisted;
            no_node = f.no_node;
            no_id = f.no_id;
            no_session = f.no_session;
          }),
      printed ss h.1,
    )
