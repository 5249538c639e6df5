-- ===== src/Console/Steps.antt =====
-- What may happen to the console program, and what holds in every state that it reaches.
use local_chat_xxx.Manager.Steps.{
  Reachable, Step, begins, goes_on, initiate, known, one_session_for_each_peer,
}
use local_chat_xxx.Common.{
  Bool-cases, List, Option, [], ap, false, if-cases, if◌then◌else◌, inl, inr, length, ltb, none,
  refl, some, subst, sym, true, ℕ, ◌∙◌, ◌∷◌, ◌≡◌,
}
use local_chat_xxx.Session.Defs.{AppEvent, Session}
use local_chat_xxx.Client.Defs.{Client, handle}
use local_chat_xxx.Status.{Status, fatal_error}
use local_chat_xxx.Console.Defs.{App, Item, Machine, ServiceInstance, print, same_service}
use local_chat_xxx.Console.Services.{
  Answer, ResolutionResult, add_and_dial, deregister, deregister_all, error_name,
  handle_published_services, handle_resolved_services, handle_service_deregistration, knows,
  resolve_service_to_endpoint, without_name,
}
use local_chat_xxx.Console.Lost.{forget_peer-Reachable, without_name_keeps}
use local_chat_xxx.Console.Keys.{Input, take_up}
use local_chat_xxx.Manager.Defs.{Manager, Node, new_manager}
use local_chat_xxx.Console.Screen.{print_all}
use local_chat_xxx.Console.Peers.{
  Distinct, NoneNamed, NoneNamed-append, new_services_asked_for, published_host,
}
use local_chat_xxx.Console.Turns.{take_up-Keeps}
use local_chat_xxx.Common.Assoc.{bytes_eq, lookup, nat_eq}
use local_chat_xxx.Common.Results.{bind-some, of_some}
use local_chat_xxx.Common.Bytes.{Bytes, bytes_beq}

-- The program before anything has happened, around a client and with its machine's name.
abbrev pub start_app : Client → Bytes → App
start_app c host = record {
  client = c;
  manager = new_manager host;
  hostname = host;
  service_v = [];
  sent = [];
  is_running = true;
  out = [];
}

-- Discovery finds, resolves or loses services; mail arrives; the event loop takes up a key or a
-- task; or the network moves the manager.
pub data AppStep : App → App → Type 0 where
  found :
      {a : App} (services : List ServiceInstance)
      → AppStep a (handle_published_services services a).0
  resolved :
      {a : App} (resolver : ResolutionResult → ℕ → Answer) (res : ResolutionResult)
      (r : App × Status)
      → handle_resolved_services resolver res a ≡ some r
      → AppStep a r.0
  lost :
      {a : App} (services : List ServiceInstance)
      → AppStep a (handle_service_deregistration services a).0
  mailed : {a : App} (e : AppEvent) → AppStep a (record a { client = (handle e a.client).0 })
  turned : {a : App} (env : Machine) (i : Input) (b : App) → take_up env i a ≡ some b → AppStep a b
  networked : {a : App} (m : Manager) → Step a.manager m → AppStep a (record a { manager = m })

pub data AppReachable (c : Client) (host : Bytes) : App → Type 0 where
  starts : AppReachable c host (start_app c host)
  moves : {a b : App} → AppReachable c host a → AppStep a b → AppReachable c host b

pub record IsSound (host : Bytes) (a : App) : Type 0 where
  pub distinct : Distinct a.service_v
  pub foreign : NoneNamed host a.service_v
  pub host_kept : a.hostname ≡ host
  pub managed : Reachable host a.manager

knows-without :
    (name : Bytes) (s : ServiceInstance) (v : List ServiceInstance)
    → knows s v ≡ false
    → knows s (without_name name v) ≡ false
unfolding knows without_name
knows-without name s [] k = refl
knows-without name s (t ∷ v) k = elim (Bool-cases (same_service t s)) [
  | inl e ↦ absurd cc (k, ap (λ b. if b then true else knows s v) e)
  | inr e ↦
      let rest = knows-without name s v (sym (ap (λ b. if b then true else knows s v) e) ∙ k) in
      if-cases (λ w. knows s w ≡ false) (bytes_beq t.service_name name) (λ _. rest) (λ _. rw e rest)
]

without_name-Distinct :
    (name : Bytes) (v : List ServiceInstance) → Distinct v → Distinct (without_name name v)
unfolding without_name
without_name-Distinct name [] d = tt
without_name-Distinct name (s ∷ v) d =
    if-cases Distinct (bytes_beq s.service_name name) (λ _. without_name-Distinct name v d.1)
      (λ _. (knows-without name s v d.0, without_name-Distinct name v d.1))

module _ (host : Bytes) where
  printed :
      (a b : App) → IsSound host b → (o : List Item) → a ≡ record b { out = o } → IsSound host a
  printed a b h o e = subst (IsSound host) (sym e) (record {
    distinct = h.distinct;
    foreign = h.foreign;
    host_kept = h.host_kept;
    managed = h.managed;
  })

  deregister-IsSound : (name : Bytes) (a : App) → IsSound host a → IsSound host (deregister name a)
  unfolding deregister
  deregister-IsSound name a h =
      let d = without_name-Distinct name a.service_v h.distinct in
      let f = without_name_keeps host name a.service_v h.foreign in
      if-cases (IsSound host) (ltb (length (without_name name a.service_v)) (length a.service_v))
        (λ _. record {
          distinct = d;
          foreign = f;
          host_kept = h.host_kept;
          managed = forget_peer-Reachable host name a.manager h.managed;
        })
        (λ _. record { distinct = d; foreign = f; host_kept = h.host_kept; managed = h.managed })

  deregister_all-IsSound :
      (ss : List ServiceInstance) (a : App) → IsSound host a → IsSound host (deregister_all ss a)
  unfolding deregister_all
  deregister_all-IsSound [] a h = h
  deregister_all-IsSound (s ∷ ss) a h =
      deregister_all-IsSound ss (deregister s.service_name a)
        (deregister-IsSound s.service_name a h)

  resolved-IsSound :
      (resolver : ResolutionResult → ℕ → Answer) (res : ResolutionResult) (r : App × Status)
      (a : App)
      → IsSound host a
      → handle_resolved_services resolver res a ≡ some r
      → IsSound host r.0
  unfolding handle_resolved_services add_and_dial
  resolved-IsSound resolver res r a h e =
      let n = bind-some (resolve_service_to_endpoint (resolver res) res.service_name) e in
      of_some (λ (q : App × Status). IsSound host q.0) (answered n.0) n.2
    where
      dialled : (n : Node) (o : Option Node) → IsSound host (add_and_dial res.service_name n o a).0
      dialled n none = record {
        distinct = h.distinct;
        foreign = h.foreign;
        host_kept = h.host_kept;
        managed = goes_on (goes_on h.managed (known res.service_name n)) (initiate n);
      }
      dialled n (some k) = h

      answered :
          (n : Node)
          → IsSound host
              (if bytes_beq n.service_name error_name
                then (a, fatal_error)
                else add_and_dial res.service_name n
                    (lookup res.service_name (a.manager).nodes)
                    a).0
      answered n =
          if-cases (λ (q : App × Status). IsSound host q.0) (bytes_beq n.service_name error_name)
            (λ _. h) (λ _. dialled n (lookup res.service_name (a.manager).nodes))

  step-IsSound : {a b : App} → IsSound host a → AppStep a b → IsSound host b
  unfolding handle_service_deregistration print_all print
  step-IsSound {a = a} h (found services) =
      let f = new_services_asked_for services a h.distinct in
      record {
        distinct = f.7;
        foreign = subst (NoneNamed host) (sym f.2) (
            NoneNamed-append host a.service_v f.0 h.foreign
              (subst (λ n. NoneNamed n f.0) h.host_kept f.6));
        host_kept = published_host services a ∙ h.host_kept;
        managed = subst (Reachable host) (sym f.9) h.managed;
      }
  step-IsSound {a = a} h (resolved resolver res r e) = resolved-IsSound resolver res r a h e
  step-IsSound {a = a} h (lost services) =
      printed _ (deregister_all services a) (deregister_all-IsSound services a h) _ refl
  step-IsSound h (mailed e) = record {
    distinct = h.distinct;
    foreign = h.foreign;
    host_kept = h.host_kept;
    managed = h.managed;
  }
  step-IsSound {a = a} h (turned env i b e) =
      let k = take_up-Keeps host env i a b e in
      record {
        distinct = subst Distinct (sym k.services) h.distinct;
        foreign = subst (NoneNamed host) (sym k.services) h.foreign;
        host_kept = k.host ∙ h.host_kept;
        managed = k.managed h.managed;
      }
  step-IsSound h (networked m s) = record {
    distinct = h.distinct;
    foreign = h.foreign;
    host_kept = h.host_kept;
    managed = goes_on h.managed s;
  }

  reached-IsSound : (c : Client) {a : App} → AppReachable c host a → IsSound host a
  reached-IsSound c starts = record {
    distinct = tt;
    foreign = tt;
    host_kept = refl;
    managed = begins;
  }
  reached-IsSound c (moves r s) = step-IsSound (reached-IsSound c r) s

  -- In every state that the program reaches from its start, by discovery, mail, keys, tasks and the
  -- network in any order: no service stands twice in the list of services, none of them has this
  -- machine's name, and two sessions with the same peer are one session.
  pub services_and_sessions_unique :
      (c : Client) (a : App)
      → AppReachable c host a
      → Distinct a.service_v
        × NoneNamed host a.service_v
        × ((j k : ℕ) (s t : Session)
            → lookup j (a.manager).sessions ≡ some s
            → lookup k (a.manager).sessions ≡ some t
            → s.service_name ≡ t.service_name
            → j ≡ k)
  services_and_sessions_unique c a r =
      let h = reached-IsSound c r in
      (
        h.distinct,
        h.foreign,
        λ j k s t ej ek e. one_session_for_each_peer host a.manager j k s t h.managed ej ek e,
      )
