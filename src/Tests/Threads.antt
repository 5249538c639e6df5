-- ===== src/Tests/Threads.antt =====
-- Queues and the threads that read them at concrete inputs.
use local_chat_xxx.Mailbox.{MessageHandler}
use local_chat_xxx.Common.{
  List, [], ap, arith, false, if◌then◌else◌, none, refl, some, ℕ, ◌+◌, ◌==◌, ◌∙◌, ◌∷◌, ◌≡◌,
}
use local_chat_xxx.Broker.Fifo.{
  Call, calls_answered, new_pointers-Represents, pops, pushes, run_calls, serve,
}
use local_chat_xxx.Broker.Loop.{event_discovery_request_resume, event_terminate_all}
use local_chat_xxx.Common.Assoc.{bytes_eq, lookup, nat_eq}
use local_chat_xxx.Broker.Defs.{Broker, Message}
use local_chat_xxx.Broker.Linked.{Represents, contents}
use local_chat_xxx.Status.{ok}
use local_chat_xxx.Broker.Nodes.{Node, Pointers, new_pointers}

-- An allocator: above every address that is in use.
abbrev above : List (ℕ × Node ℕ) → ℕ
above [] = 1
above ((a, n) ∷ h) = a + 1 + above h

above_lem : (k : ℕ) (h : List (ℕ × Node ℕ)) → lookup (above h + k) h ≡ none
unfolding lookup
above_lem k [] = refl
above_lem k ((a, n) ∷ h) =
    ap (λ b. if b then some n else lookup (a + 1 + above h + k) h) elsewhere
    ∙ ap (λ x. lookup x h) shifted
    ∙ above_lem (a + 1 + k) h
  where
    elsewhere : (a == a + 1 + above h + k) ≡ false
    elsewhere = ground arith

    shifted : a + 1 + above h + k ≡ above h + (a + 1 + k)
    shifted = omega arith

above_is_free : (h : List (ℕ × Node ℕ)) → lookup (above h) h ≡ none
above_is_free h = ap (λ x. lookup x h) (zero_more (above h)) ∙ above_lem 0 h
  where
    zero_more : (n : ℕ) → n ≡ n + 0
    zero_more n = omega arith

-- Two pushes and three pops, with the last one on an empty queue.
abbrev calls : List (Call ℕ)
calls = pushes 7 ∷ pushes 8 ∷ pops ∷ pops ∷ pops ∷ []

calls_answered_example :
    (r : Pointers ℕ) × (ys : List (ℕ × ℕ)) × (run_calls above calls (new_pointers 64)
      ≡ some ((serve calls []).0, r))
    × Represents r ys
    × (contents ys ≡ (serve calls []).1)
calls_answered_example =
    calls_answered above above_is_free calls (new_pointers 64) [] (new_pointers-Represents 64)

three_answers : (serve calls []).0 ≡ some 7 ∷ some 8 ∷ none ∷ []
unfolding serve
three_answers = refl

-- A component that counts the messages it gets.
abbrev counts : ℕ → MessageHandler ℕ
counts event payload n = (n + 1, ok)

-- A message for discovery and the end of the program.
abbrev resume : Message
resume = record { event = event_discovery_request_resume; payload = 1 }

abbrev end : Message
end = record { event = event_terminate_all; payload = 2 }
