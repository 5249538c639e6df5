-- ===== src/Manager/Everyone.antt =====
-- What is left of the manager's operations: sending to all sessions, ending a transfer, and what the
-- macOS client asks about a transfer (include/BVTCPConnectionManager.hpp).
use local_chat_xxx.Common.{
  Bool-cases, inl, inr, sym, true, List, Option, [], ap, false, if◌then◌else◌, leb, map, none, refl,
  some, ℕ, ◌%◌, ◌*◌, ◌/◌, ◌==◌, ◌^◌, ◌||◌, ◌∙◌, ◌∷◌, ◌≡◌,
}
use local_chat_xxx.Session.Defs.{start, Session, is_null, write, write_message_frame}
use local_chat_xxx.Manager.Defs.{Manager}
use local_chat_xxx.Status.{Status, ok}
use local_chat_xxx.Wire.Defs.{Message, fill_message_frame}
use local_chat_xxx.Common.Assoc.{bytes_eq, erase, lookup, nat_eq}
use local_chat_xxx.Common.Bytes.{Bytes, bytes_beq}
use local_chat_xxx.Common.Results.{◌>>=◌}

-- The loop of `SendDataToEveryone`; a failed assertion of one session ends it.
unfoldable pub write_to_all : Message → List (ℕ × Session) → Option (List (ℕ × Session))
write_to_all msg [] = some []
write_to_all msg ((k, s) ∷ m) =
    write_message_frame msg s >>= λ s'. write_to_all msg m >>= λ m'. some ((k, s') ∷ m')

unfoldable pub send_data_to_everyone : Message → Manager → Option (Status × Manager)
send_data_to_everyone msg m =
    write_to_all msg m.sessions >>= λ ss. some (ok, record m { sessions = ss })

-- `GetNodeIDByServiceName`: the key of the first session with this peer. NOK is `none`.
unfoldable pub first_with : Bytes → List (ℕ × Session) → Option ℕ
first_with name [] = none
first_with name ((k, s) ∷ m) =
    let rest = first_with name m in if bytes_beq name s.service_name then some k else rest

unfoldable pub get_node_id_by_service_name : Bytes → Manager → Option ℕ
get_node_id_by_service_name name m = first_with name m.sessions

-- `std::map::erase` does not throw, so the answer is OK for every key.
unfoldable pub remove_file_transfer_context : ℕ → Manager → Status × Manager
remove_file_transfer_context key m = (ok, record m { transfers = erase key m.transfers })

-- The name and the percentage of the status line; no transfer, or a complete one, has none.
unfoldable pub current_outgoing_transfer_status : Bytes → ℕ → ℕ → Option (Bytes × ℕ)
current_outgoing_transfer_status name sent_bytes total =
    if total == 0 || leb total sent_bytes
    then none
    else some (name, sent_bytes * 100 % 2 ^ 64 / total % 2 ^ 32)

-- A session that has started to write the message.
abbrev pub written_to : Message → Session → Session
written_to msg s =
    let f = fill_message_frame msg s.write_buf in
    start (record s { total_bytes_written = 0; write_buf = f }) (write f)

-- Every session has a buffer to write from.
abbrev pub AllFilled : List (ℕ × Session) → Type 0
AllFilled [] = Unit
AllFilled ((k, s) ∷ m) = (is_null s.write_buf ≡ false) × AllFilled m

all_written :
    (msg : Message) (m : List (ℕ × Session))
    → AllFilled m
    → write_to_all msg m ≡ some (map (λ e. (e.0, written_to msg e.1)) m)
unfolding write_to_all write_message_frame
all_written msg [] h = refl
all_written msg ((k, s) ∷ m) h =
    ap
      (λ b. (if b then none else some (written_to msg s)) >>= λ s'.
        write_to_all msg m >>= λ m'. some ((k, s') ∷ m'))
      h.0
    ∙ ap (λ o. o >>= λ m'. some ((k, written_to msg s) ∷ m')) (all_written msg m h.1)

lookup-written :
    (msg : Message) (sid : ℕ) (s : Session) (m : List (ℕ × Session))
    → lookup sid m ≡ some s
    → lookup sid (map (λ e. (e.0, written_to msg e.1)) m) ≡ some (written_to msg s)
unfolding lookup
lookup-written msg sid s [] e = absurd cc e
lookup-written msg sid s ((k, t) ∷ m) e = elim (Bool-cases (k == sid)) [
  | inl h ↦
      ap (λ b. if b then some (written_to msg t) else lookup sid (later_ones m)) h
      ∙ ap (λ x. some (written_to msg x)) (found h)
  | inr h ↦
      ap (λ b. if b then some (written_to msg t) else lookup sid (later_ones m)) h
      ∙ lookup-written msg sid s m (sym (ap (λ b. if b then some t else lookup sid m) h) ∙ e)
]
  where
    later_ones : List (ℕ × Session) → List (ℕ × Session)
    later_ones xs = map (λ p. (p.0, written_to msg p.1)) xs

    found : (k == sid) ≡ true → t ≡ s
    found h = cc (e, ap (λ b. if b then some t else lookup sid m) h)

-- A message to everyone, while every session has a buffer: the answer is OK, and every session that
-- was found under an id is found under it and has started to write the message.
everyone_written :
    (msg : Message) (m : Manager)
    → AllFilled m.sessions
    → (m' : Manager) × (send_data_to_everyone msg m ≡ some (ok, m'))
      × ((sid : ℕ) (s : Session)
          → lookup sid m.sessions ≡ some s
          → lookup sid m'.sessions ≡ some (written_to msg s))
unfolding send_data_to_everyone
everyone_written msg m h = (
  _,
  ap (λ o. o >>= λ ss. some (ok, record m { sessions = ss })) (all_written msg m.sessions h),
  λ sid s e. lookup-written msg sid s m.sessions e,
)
