-- ===== src/Mailbox/Ends.antt =====
-- The end of the program reaches the threads of the broker and of both components.
use local_chat_xxx.Common.{List, [], ℕ, ◌∷◌, ◌≡◌}
use local_chat_xxx.Common.Assoc.{bytes_eq, nat_eq}
use local_chat_xxx.Broker.Defs.{Broker}
use local_chat_xxx.Mailbox.{MessageHandler}
use local_chat_xxx.Status.{ok}

-- The callbacks for these events answer OK, whatever they get and whatever the component is.
abbrev pub AllOk : {S : Type 0} → (ℕ → MessageHandler S) → List ℕ → Type 0
AllOk h [] = Unit
AllOk {S = S} h (ev ∷ evs) = ((payload : ℕ) (s : S) → (h ev payload s).1 ≡ ok) × AllOk h evs
