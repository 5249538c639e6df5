-- ===== src/Console/Lost.antt =====
-- What is left of a service that discovery has lost.
use local_chat_xxx.Session.Defs.{Session}
use local_chat_xxx.Manager.Defs.{
  Manager, get_session_id_from_service_name, is_session_already_present, remove_found,
  remove_mapped, remove_session,
}
use local_chat_xxx.Common.{
  Bool, Bool-cases, List, Option, [], ap, arith, false, if-cases, if◌then◌else◌, inl, inr, length,
  none, refl, some, subst, sym, true, ℕ, ◌<◌, ◌==◌, ◌∙◌, ◌∷◌, ◌≡◌, ◌≤◌,
}
use local_chat_xxx.Console.Services.{forget_peer, without_name}
use local_chat_xxx.Common.Assoc.{
  Eq, bytes_eq, erase, lookup, lookup-erase_other, lookup-erase_self, nat_eq,
}
use local_chat_xxx.Manager.Steps.{Reachable, Reachable-IsConsistent, forgotten, goes_on, removed}
use local_chat_xxx.Common.Bytes.{Bytes, bytes_beq}
use local_chat_xxx.Console.Defs.{App, ServiceInstance}
use local_chat_xxx.Manager.Registry.{absent}
use local_chat_xxx.Console.Peers.{NoneNamed}

unfoldable pub names : Bytes → List ServiceInstance → Bool
names name [] = false
names name (s ∷ v) = if bytes_beq s.service_name name then true else names name v

-- Neither listed, nor known as a node, nor connected.
pub record IsForgotten (name : Bytes) (a : App) : Type 0 where
  pub unlisted : NoneNamed name a.service_v
  pub no_node : lookup name (a.manager).nodes ≡ none
  pub no_id : get_session_id_from_service_name name a.manager ≡ none
  pub no_session : is_session_already_present name (a.manager).sessions ≡ false

-- Every service of the batch that was listed by name is forgotten.
abbrev pub AllForgotten : List ServiceInstance → List ServiceInstance → App → Type 0
AllForgotten [] v a = Unit
AllForgotten (s ∷ ss) v a =
    (names s.service_name v ≡ true → IsForgotten s.service_name a) × AllForgotten ss v a

pub without_name-NoneNamed :
    (name : Bytes) (v : List ServiceInstance) → NoneNamed name (without_name name v)
unfolding without_name
without_name-NoneNamed name [] = tt
without_name-NoneNamed name (s ∷ v) =
    if-cases (NoneNamed name) (bytes_beq s.service_name name) (λ _. without_name-NoneNamed name v)
      (λ e. (e, without_name-NoneNamed name v))

pub without_name_keeps :
    (name other : Bytes) (v : List ServiceInstance)
    → NoneNamed name v
    → NoneNamed name (without_name other v)
unfolding without_name
without_name_keeps name other [] h = tt
without_name_keeps name other (s ∷ v) h =
    if-cases (NoneNamed name) (bytes_beq s.service_name other)
      (λ _. without_name_keeps name other v h.1) (λ _. (h.0, without_name_keeps name other v h.1))

shorter : (name : Bytes) (v : List ServiceInstance) → length (without_name name v) ≤ length v
unfolding without_name
shorter name [] = omega arith
shorter name (s ∷ v) = elim (Bool-cases (bytes_beq s.service_name name)) [
  | inl e ↦ rw e (omega (arith, shorter name v))
  | inr e ↦ rw e (omega (arith, shorter name v))
]

pub named_shorter :
    (name : Bytes) (v : List ServiceInstance)
    → names name v ≡ true
    → length (without_name name v) < length v
unfolding without_name names
named_shorter name [] h = absurd cc h
named_shorter name (s ∷ v) h = elim (Bool-cases (bytes_beq s.service_name name)) [
  | inl e ↦ rw e (omega (arith, shorter name v))
  | inr e ↦
      let rest = named_shorter name v (sym (ap (λ b. if b then true else names name v) e) ∙ h) in
      rw e (omega (arith, rest))
]

pub lookup-erase-none :
    {K : Type 0} {V : Type 0} ⦃q : Eq K⦄ (j k : K) (m : List (K × V))
    → lookup k m ≡ none
    → lookup k (erase j m) ≡ none
lookup-erase-none ⦃q = q⦄ j k m h = elim (Bool-cases (q.beq j k)) [
  | inl e ↦ subst (λ i. lookup i (erase j m) ≡ none) ((q.beq_iff j k).0 e) (lookup-erase_self j m)
  | inr e ↦ lookup-erase_other k j m e ∙ h
]

present-erase :
    (name : Bytes) (k : ℕ) (m : List (ℕ × Session))
    → is_session_already_present name m ≡ false
    → is_session_already_present name (erase k m) ≡ false
unfolding is_session_already_present erase
present-erase name k [] h = h
present-erase name k ((j, s) ∷ m) h = elim (Bool-cases (bytes_beq s.service_name name)) [
  | inl e ↦ absurd cc (h, ap (λ b. if b then true else is_session_already_present name m) e)
  | inr e ↦
      let rest =
        present-erase name k m
          (sym (ap (λ b. if b then true else is_session_already_present name m) e) ∙ h) in
      if-cases (λ w. is_session_already_present name w ≡ false) (j == k) (λ _. rest)
        (λ _. rw e rest)
]

-- What forgetting one peer leaves of another that is forgotten already.
abbrev pub Gone : Bytes → Manager → Type 0
Gone name m =
    (lookup name m.nodes ≡ none)
    × (lookup name m.service_sessionid ≡ none)
    × (is_session_already_present name m.sessions ≡ false)

pub remove_keeps_Gone :
    (name other : Bytes) (m : Manager) → Gone name m → Gone name ((remove_session other m).1)
unfolding remove_session remove_found remove_mapped
remove_keeps_Gone name other m g = mapped (lookup other m.service_sessionid)
  where
    found : (sid : ℕ) (s : Option Session) → Gone name ((remove_found other sid s m).1)
    found sid none = (g.0, lookup-erase-none other name m.service_sessionid g.1, g.2)
    found sid (some s) = (
      g.0,
      lookup-erase-none other name m.service_sessionid g.1,
      present-erase name sid m.sessions g.2,
    )

    mapped : (o : Option ℕ) → Gone name ((remove_mapped other o m).1)
    mapped none = g
    mapped (some sid) = found sid (lookup sid m.sessions)

-- After a peer is removed, its name leads to no session.
remove_unmaps :
    (name : Bytes) (m : Manager) → lookup name ((remove_session name m).1.service_sessionid) ≡ none
unfolding remove_session remove_found remove_mapped
remove_unmaps name m = mapped (lookup name m.service_sessionid) refl
  where
    found :
        (sid : ℕ) (s : Option Session)
        → lookup name ((remove_found name sid s m).1.service_sessionid) ≡ none
    found sid none = lookup-erase_self name m.service_sessionid
    found sid (some s) = lookup-erase_self name m.service_sessionid

    mapped :
        (o : Option ℕ)
        → lookup name m.service_sessionid ≡ o
        → lookup name ((remove_mapped name o m).1.service_sessionid) ≡ none
    mapped none e = e
    mapped (some sid) e = found sid (lookup sid m.sessions)

remove_nodes : (name : Bytes) (m : Manager) → (remove_session name m).1.nodes ≡ m.nodes
unfolding remove_session remove_found remove_mapped
remove_nodes name m = mapped (lookup name m.service_sessionid)
  where
    found : (sid : ℕ) (s : Option Session) → (remove_found name sid s m).1.nodes ≡ m.nodes
    found sid none = refl
    found sid (some s) = refl

    mapped : (o : Option ℕ) → (remove_mapped name o m).1.nodes ≡ m.nodes
    mapped none = refl
    mapped (some sid) = found sid (lookup sid m.sessions)

pub forget_peer-Reachable :
    (host name : Bytes) (m : Manager) → Reachable host m → Reachable host (forget_peer name m)
unfolding forget_peer
forget_peer-Reachable host name m r = goes_on (goes_on r (forgotten name)) (removed name)

pub forget_peer-Gone :
    (host name : Bytes) (m : Manager) → Reachable host m → Gone name (forget_peer name m)
unfolding forget_peer
forget_peer-Gone host name m r =
    let m' : Manager = record m { nodes = erase name m.nodes } in
    let c = Reachable-IsConsistent host (forget_peer-Reachable host name m r) in
    (
      ap (lookup name) (remove_nodes name m') ∙ lookup-erase_self name m.nodes,
      remove_unmaps name m',
      absent ((remove_session name m').1.service_sessionid) ((remove_session name m').1.sessions)
          name c.registered (remove_unmaps name m'),
    )
