-- ===== src/Console/Services.antt =====
-- What the program does with services that discovery finds, resolves and loses
-- (`HandlePublishedServices`, `HandleResolvedServices`, `HandleServiceDeregistration`).
use local_chat_xxx.Common.{
  Bool, List, Option, [], false, if◌then◌else◌, length, ltb, none, not, some, suc, true, zero, ℕ,
  ◌&&◌, ◌++◌, ◌-◌, ◌∷◌,
}
use local_chat_xxx.Console.Defs.{
  App, ServiceInstance, discovery_request_resolve, same_service, send_message,
}
use local_chat_xxx.Status.{Status, fatal_error, ok}
use local_chat_xxx.Manager.Defs.{
  Manager, Node, add_node_to_nodes, initiate_session_with_node, remove_session,
}
use local_chat_xxx.Common.Assoc.{bytes_eq, erase, lookup, nat_eq}
use local_chat_xxx.Console.Screen.{print_all}
use local_chat_xxx.Common.Bytes.{Bytes, bytes_beq}
use local_chat_xxx.Common.Results.{◌>>=◌}

-- One answer of the resolver: whether it set the error, and the endpoints it gave.
pub record Answer : Type 0 where
  pub failed : Bool
  pub endpoints : List Bytes

-- `DNSResolutionResult`.
pub record ResolutionResult : Type 0 where
  pub hosttarget : Bytes
  pub service_name : Bytes
  pub port : ℕ

unfoldable pub knows : ServiceInstance → List ServiceInstance → Bool
knows s [] = false
knows s (t ∷ v) = if same_service t s then true else knows s v

-- The loop over the new services: those added to `serviceV` are also to be resolved.
unfoldable pub add_new :
    Bytes
    → List ServiceInstance
    → List ServiceInstance
    → List ServiceInstance
    → List ServiceInstance × List ServiceInstance
add_new hostname [] v to_resolve = (v, to_resolve)
add_new hostname (s ∷ ss) v to_resolve =
    let skipped = add_new hostname ss v to_resolve in
    let added = add_new hostname ss (v ++ (s ∷ [])) (to_resolve ++ (s ∷ [])) in
    if knows s v then skipped else if bytes_beq s.service_name hostname then skipped else added

unfoldable pub request_all : List ServiceInstance → App → App
request_all [] a = a
request_all (s ∷ ss) a = request_all ss (send_message (discovery_request_resolve s) a)

unfoldable pub handle_published_services : List ServiceInstance → App → App × Status
handle_published_services found a =
    let r = add_new a.hostname found a.service_v [] in
    (print_all (request_all r.1 (record a { service_v = r.0 })), ok)

abbrev pub attempts : ℕ
attempts = 5

unfoldable pub is_empty : List Bytes → Bool
is_empty [] = true
is_empty (e ∷ es) = false

-- The answer of the last attempt made, which is the first good one if there is any; `i` counts up
-- while rounds are left.
unfoldable pub last_answer : (ℕ → Answer) → ℕ → ℕ → Answer
last_answer resolver zero i = resolver i
last_answer resolver (suc rounds) i =
    let rest = last_answer resolver rounds (suc i) in
    let answer = resolver i in
    if not answer.failed && not (is_empty answer.endpoints) then answer else rest

abbrev pub error_name : Bytes
error_name = b'E' ∷ b'R' ∷ b'R' ∷ b'O' ∷ b'R' ∷ []

-- `none`: the first endpoint of no endpoints, which is undefined in C++.
unfoldable pub first_endpoint : Bytes → List Bytes → Option Node
first_endpoint name [] = none
first_endpoint name (e ∷ es) = some (record { id = 0; service_name = name })

unfoldable pub resolve_service_to_endpoint : (ℕ → Answer) → Bytes → Option Node
resolve_service_to_endpoint resolver name =
    let answer = last_answer resolver (attempts - 1) 0 in
    if answer.failed && is_empty answer.endpoints
    then some (record { id = 0; service_name = error_name })
    else first_endpoint name answer.endpoints

unfoldable pub add_and_dial : Bytes → Node → Option Node → App → App × Status
add_and_dial name n (some known) a = (a, ok)
add_and_dial name n none a =
    let r = initiate_session_with_node n (add_node_to_nodes name n a.manager) in
    (record a { manager = r.1 }, r.0)

unfoldable pub handle_resolved_services :
    (ResolutionResult → ℕ → Answer) → ResolutionResult → App → Option (App × Status)
handle_resolved_services resolver res a =
    resolve_service_to_endpoint (resolver res) res.service_name >>= λ n. some (
      if bytes_beq n.service_name error_name
      then (a, fatal_error)
      else add_and_dial res.service_name n (lookup res.service_name (a.manager).nodes) a)

unfoldable pub without_name : Bytes → List ServiceInstance → List ServiceInstance
without_name name [] = []
without_name name (s ∷ v) =
    if bytes_beq s.service_name name then without_name name v else s ∷ without_name name v

-- The answer of `RemoveSession` is not looked at.
unfoldable pub forget_peer : Bytes → Manager → Manager
forget_peer name m = (remove_session name (record m { nodes = erase name m.nodes })).1

unfoldable pub deregister : Bytes → App → App
deregister name a =
    let left = without_name name a.service_v in
    if ltb (length left) (length a.service_v)
    then record a { service_v = left; manager = forget_peer name a.manager }
    else record a { service_v = left }

unfoldable pub deregister_all : List ServiceInstance → App → App
deregister_all [] a = a
deregister_all (s ∷ ss) a = deregister_all ss (deregister s.service_name a)

unfoldable pub handle_service_deregistration : List ServiceInstance → App → App × Status
handle_service_deregistration lost a = (print_all (deregister_all lost a), ok)
