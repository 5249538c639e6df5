-- ===== src/Manager/Glare.antt =====
-- Of two machines that find each other, one dials.
use local_chat_xxx.Common.{
  ◌∙◌, ℕ, ◌+◌, ◌≡◌, ◌≢◌, refl, ap, ap₂, Bool, true, false, not, arith, if◌then◌else◌, ltb,
  Bool-cases, inl, inr, [], ◌∷◌, length, length-append,
}
use local_chat_xxx.Common.Bytes.{Bytes}
use local_chat_xxx.Manager.Defs.{
  Manager, Node, name_less, initiate_session_with_node, add_dial,
  start_communication_session_with_node, is_session_already_present, has_empty,
}

same_byte : {a b : ℕ} → ltb a b ≡ false → ltb b a ≡ false → a ≡ b
same_byte p q = ground arith

-- The order on names is total and strict.
pub name_less_flip : (a b : Bytes) → a ≢ b → name_less a b ≡ not (name_less b a)
unfolding name_less
name_less_flip [] [] h = absurd (h refl)
name_less_flip [] (b ∷ bs) h = refl
name_less_flip (a ∷ as') [] h = refl
name_less_flip (a ∷ as') (b ∷ bs) h = elim (Bool-cases (ltb a b)) [
  | inl p ↦ ground arith
  | inr p ↦ elim (Bool-cases (ltb b a)) [
    | inl q ↦ rw (p, q)
    | inr q ↦ ground (arith, name_less_flip as' bs (λ e. h (ap₂ (◌∷◌) (same_byte p q) e)))
  ]
]

-- How many connects are under way after an attempt to reach `node`.
unfoldable pub dials : Node → Manager → ℕ
dials node m = length ((initiate_session_with_node node m).1.dialing)

module _ (m : Manager) (node : Node)
    (fresh : is_session_already_present node.service_name m.sessions ≡ false)
    (room : has_empty m.out_mailboxes ≡ true) where
  dials_lem :
      (b : Bool)
      → name_less m.this_machine_name node.service_name ≡ b
      → dials node m ≡ (if b then length m.dialing + 1 else length m.dialing)
  unfolding dials initiate_session_with_node start_communication_session_with_node add_dial
  dials_lem true e = rw (e, fresh, room) (length-append m.dialing (_ ∷ []))
  dials_lem false e = rw e refl

-- Two machines with different names have found each other, neither has a session with the other, and
-- both have a mailbox to spare. When both try to connect, exactly one more connect is under way.
pub exactly_one_dials :
    (a b : Manager) (to_a to_b : Node)
    → to_a.service_name ≡ a.this_machine_name
    → to_b.service_name ≡ b.this_machine_name
    → a.this_machine_name ≢ b.this_machine_name
    → is_session_already_present to_b.service_name a.sessions ≡ false
    → is_session_already_present to_a.service_name b.sessions ≡ false
    → has_empty a.out_mailboxes ≡ true
    → has_empty b.out_mailboxes ≡ true
    → dials to_b a + dials to_a b ≡ length a.dialing + length b.dialing + 1
exactly_one_dials a b to_a to_b ea eb d fa fb ra rb =
    elim (Bool-cases (name_less b.this_machine_name a.this_machine_name)) [
      | inl e ↦ omega (
        arith,
        dials_lem a to_b fa ra false (ap (name_less a.this_machine_name) eb ∙ flip ∙ ap not e),
        dials_lem b to_a fb rb true (ap (name_less b.this_machine_name) ea ∙ e),
      )
      | inr e ↦ omega (
        arith,
        dials_lem a to_b fa ra true (ap (name_less a.this_machine_name) eb ∙ flip ∙ ap not e),
        dials_lem b to_a fb rb false (ap (name_less b.this_machine_name) ea ∙ e),
      )
    ]
  where
    flip :
        name_less a.this_machine_name b.this_machine_name
        ≡ not (name_less b.this_machine_name a.this_machine_name)
    flip = name_less_flip a.this_machine_name b.this_machine_name d
