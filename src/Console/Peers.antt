-- ===== src/Console/Peers.antt =====
-- The list of discovered services: no service twice, none of this machine, and each one asked for
-- once when it is new.
use local_chat_xxx.Console.Services.{add_new, handle_published_services, knows, request_all}
use local_chat_xxx.Console.Firsts.{Follows-start, add_new-firsts, firsts}
use local_chat_xxx.Console.Known.{knows-append, knows-last, knows-more, same_service_comm}
use local_chat_xxx.Common.Bytes.{Bytes, bytes_beq}
use local_chat_xxx.Status.{ok}
use local_chat_xxx.Console.Defs.{
  App, ServiceInstance, discovery_request_resolve, print, same_service, send_message,
}
use local_chat_xxx.Common.{
  Bool-cases, List, [], ap, append-nil, append_assoc, false, if-cases, if◌then◌else◌, inl, inr, map,
  refl, subst, sym, true, ◌++◌, ◌∙◌, ◌∷◌, ◌≡◌, ◌⊎◌,
}
use local_chat_xxx.Console.Screen.{print_all}

-- No service stands twice in the list.
abbrev pub Distinct : List ServiceInstance → Type 0
Distinct [] = Unit
Distinct (s ∷ v) = (knows s v ≡ false) × Distinct v

-- No service has this name.
abbrev pub NoneNamed : Bytes → List ServiceInstance → Type 0
NoneNamed name [] = Unit
NoneNamed name (s ∷ v) = (bytes_beq s.service_name name ≡ false) × NoneNamed name v

-- None of the first is in the second.
abbrev pub AllNew : List ServiceInstance → List ServiceInstance → Type 0
AllNew [] v = Unit
AllNew (s ∷ ss) v = (knows s v ≡ false) × AllNew ss v

-- Each of the first is in the second, unless it is this machine's.
abbrev pub AllListed : Bytes → List ServiceInstance → List ServiceInstance → Type 0
AllListed hostname [] v = Unit
AllListed hostname (s ∷ ss) v =
    ((knows s v ≡ true) ⊎ (bytes_beq s.service_name hostname ≡ true)) × AllListed hostname ss v

Distinct-snoc :
    (s : ServiceInstance) (v : List ServiceInstance)
    → Distinct v
    → knows s v ≡ false
    → Distinct (v ++ (s ∷ []))
unfolding knows
Distinct-snoc s [] d k = (refl, tt)
Distinct-snoc s (t ∷ v) d k = elim (Bool-cases (same_service t s)) [
  | inl e ↦ absurd cc (k, ap (λ b. if b then true else knows s v) e)
  | inr e ↦ (
    knows-append t v (s ∷ [])
        ∙ rw (d.0) (ap (λ b. if b then true else false) (same_service_comm s t ∙ e)),
    Distinct-snoc s v d.1 (sym (ap (λ b. if b then true else knows s v) e) ∙ k),
  )
]

pub NoneNamed-append :
    (name : Bytes) (v w : List ServiceInstance)
    → NoneNamed name v
    → NoneNamed name w
    → NoneNamed name (v ++ w)
NoneNamed-append name [] w a b = b
NoneNamed-append name (s ∷ v) w a b = (a.0, NoneNamed-append name v w a.1 b)

-- What one batch of discovered services adds.
record IsBatch (hostname : Bytes) (found v r : List ServiceInstance)
    (q : List ServiceInstance × List ServiceInstance) : Type 0 where
  fresh : List ServiceInstance
  listed : q.0 ≡ v ++ fresh
  asked : q.1 ≡ r ++ fresh
  unknown : AllNew fresh v
  foreign : NoneNamed hostname fresh
  distinct : Distinct q.0
  complete : AllListed hostname found q.0

AllNew-less : (ss v w : List ServiceInstance) → AllNew ss (v ++ w) → AllNew ss v
AllNew-less [] v w h = tt
AllNew-less (s ∷ ss) v w h = (less (Bool-cases (knows s v)), AllNew-less ss v w h.1)
  where
    less : (knows s v ≡ true) ⊎ (knows s v ≡ false) → knows s v ≡ false
    less (inl e) = absurd cc (h.0, knows-more s v w e)
    less (inr e) = e

add_new-IsBatch :
    (hostname : Bytes) (found v r : List ServiceInstance)
    → Distinct v
    → IsBatch hostname found v r (add_new hostname found v r)
unfolding add_new
add_new-IsBatch hostname [] v r d = record {
  fresh = [];
  listed = sym (append-nil v);
  asked = sym (append-nil r);
  unknown = tt;
  foreign = tt;
  distinct = d;
  complete = tt;
}
add_new-IsBatch hostname (s ∷ ss) v r d =
    if-cases (IsBatch hostname (s ∷ ss) v r) (knows s v)
      (λ k.
        let rest = add_new-IsBatch hostname ss v r d in
        record {
          fresh = rest.fresh;
          listed = rest.listed;
          asked = rest.asked;
          unknown = rest.unknown;
          foreign = rest.foreign;
          distinct = rest.distinct;
          complete = (inl (ap (knows s) rest.listed ∙ knows-more s v rest.fresh k), rest.complete);
        })
      (λ k.
        if-cases (IsBatch hostname (s ∷ ss) v r) (bytes_beq s.service_name hostname)
          (λ own.
            let rest = add_new-IsBatch hostname ss v r d in
            record {
              fresh = rest.fresh;
              listed = rest.listed;
              asked = rest.asked;
              unknown = rest.unknown;
              foreign = rest.foreign;
              distinct = rest.distinct;
              complete = (inr own, rest.complete);
            })
          (λ other.
            let rest =
              add_new-IsBatch hostname ss (v ++ (s ∷ [])) (r ++ (s ∷ [])) (Distinct-snoc s v d k) in
            record {
              fresh = s ∷ rest.fresh;
              listed = rest.listed ∙ append_assoc v (s ∷ []) rest.fresh;
              asked = rest.asked ∙ append_assoc r (s ∷ []) rest.fresh;
              unknown = (k, AllNew-less rest.fresh v (s ∷ []) rest.unknown);
              foreign = (other, rest.foreign);
              distinct = rest.distinct;
              complete = (
                inl (
                    ap (knows s) rest.listed
                    ∙ knows-more s (v ++ (s ∷ [])) rest.fresh (knows-last s v)),
                rest.complete,
              );
            }))

request_all_lem :
    (ss : List ServiceInstance) (a : App)
    → request_all ss a ≡ record a { sent = a.sent ++ map discovery_request_resolve ss }
unfolding request_all send_message
request_all_lem [] a = ap (λ r. record a { sent = r }) (sym (append-nil a.sent))
request_all_lem (s ∷ ss) a =
    request_all_lem ss (send_message (discovery_request_resolve s) a)
    ∙ ap (λ r. record a { sent = r })
        (append_assoc a.sent (discovery_request_resolve s ∷ []) (map discovery_request_resolve ss))

-- A batch of discovered services reaches the program, whose list has no service twice. The services
-- that are added are exactly those of the batch, in its order, that are not this machine's, were not
-- in the list and stand there for the first time; resolution is asked for each of them, once and in
-- their order, and for nothing else. Afterwards no service stands twice in the list, every service of
-- the batch that is not this machine's is in it, and the connections are as they were.
pub new_services_asked_for :
    (found : List ServiceInstance) (a : App)
    → Distinct a.service_v
    → let r = handle_published_services found a in
      (fresh : List ServiceInstance) × (r.1 ≡ ok)
      × ((r.0).service_v ≡ a.service_v ++ fresh)
      × ((r.0).sent ≡ a.sent ++ map discovery_request_resolve fresh)
      × (fresh ≡ firsts a.hostname a.service_v [] found)
      × AllNew fresh a.service_v
      × NoneNamed a.hostname fresh
      × Distinct (r.0).service_v
      × AllListed a.hostname found (r.0).service_v
      × ((r.0).manager ≡ a.manager)
unfolding handle_published_services print_all print
new_services_asked_for found a d =
    let b = add_new-IsBatch a.hostname found a.service_v [] d in
    let e =
      request_all_lem (add_new a.hostname found a.service_v []).1
        (record a { service_v = (add_new a.hostname found a.service_v []).0 }) in
    (
      b.fresh,
      refl,
      ap (λ (x : App). x.service_v) e ∙ b.listed,
      ap (λ (x : App). x.sent) e ∙ ap (λ q. a.sent ++ map discovery_request_resolve q) b.asked,
      sym b.asked
          ∙ ap (λ q. q.1)
              (add_new-firsts a.hostname a.service_v found [] a.service_v []
                (Follows-start a.hostname a.service_v)),
      b.unknown,
      b.foreign,
      subst Distinct (sym (ap (λ (x : App). x.service_v) e)) b.distinct,
      subst (AllListed a.hostname found) (sym (ap (λ (x : App). x.service_v) e)) b.complete,
      ap (λ (x : App). x.manager) e,
    )

pub published_host :
    (found : List ServiceInstance) (a : App)
    → (handle_published_services found a).0.hostname ≡ a.hostname
unfolding handle_published_services print_all print
published_host found a =
    ap (λ (x : App). x.hostname)
      (request_all_lem (add_new a.hostname found a.service_v []).1
        (record a { service_v = (add_new a.hostname found a.service_v []).0 }))
