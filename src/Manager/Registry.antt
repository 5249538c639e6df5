-- ===== src/Manager/Registry.antt =====
-- The two maps of the manager agree: every session is found under the name of its peer.
use local_chat_xxx.Common.{
  ℕ, ◌≡◌, refl, ap, sym, ◌∙◌, subst₂, true, false, arith, if◌then◌else◌, ltb, ◌==◌, ==_iff, ==_refl,
  Bool-cases, inl, inr, List, [], ◌∷◌, none, some,
}
use local_chat_xxx.Common.Bytes.{Bytes, bytes_beq, bytes_beq_iff}
use local_chat_xxx.Common.Assoc.{
  lookup, insert, erase, nat_eq, bytes_eq, lookup-insert_other, lookup-erase_other,
}
use local_chat_xxx.Session.Defs.{Session}
use local_chat_xxx.Manager.Defs.{put_session, is_session_already_present}

-- Every session of the map is the one that its peer's name leads to.
abbrev pub Registered : List (Bytes × ℕ) → List (ℕ × Session) → Type 0
Registered names [] = Unit
Registered names ((k, s) ∷ m) = (lookup s.service_name names ≡ some k) × Registered names m

-- The comparison of names is symmetric.
apart : (a b : Bytes) → bytes_beq a b ≡ false → bytes_beq b a ≡ false
apart a b h = elim (Bool-cases (bytes_beq b a)) [
  | inl p ↦ absurd cc (h, (bytes_beq_iff a b).1 (sym ((bytes_beq_iff b a).0 p)))
  | inr p ↦ p
]

module _ (names : List (Bytes × ℕ)) where
  pub Registered-lookup :
      (m : List (ℕ × Session)) (j : ℕ) (s : Session)
      → Registered names m
      → lookup j m ≡ some s
      → lookup s.service_name names ≡ some j
  unfolding lookup
  Registered-lookup [] j s r h = absurd cc
  Registered-lookup ((k, t) ∷ m) j s r h = elim (Bool-cases (k == j)) [
    | inl e ↦
        subst₂ (λ (x : Session) i. lookup x.service_name names ≡ some i) (found e)
          ((==_iff k j).0 e) r.0
    | inr e ↦ Registered-lookup m j s r.1 (missed e)
  ]
    where
      found : (k == j) ≡ true → t ≡ s
      found e = cc (h, ap (λ b. if b then some t else lookup j m) e)

      missed : (k == j) ≡ false → lookup j m ≡ some s
      missed e = sym (ap (λ b. if b then some t else lookup j m) e) ∙ h

  -- Two sessions with one name are one session.
  pub Registered-unique :
      (m : List (ℕ × Session)) (j k : ℕ) (s t : Session)
      → Registered names m
      → lookup j m ≡ some s
      → lookup k m ≡ some t
      → s.service_name ≡ t.service_name
      → j ≡ k
  Registered-unique m j k s t r hs ht e =
      cc (Registered-lookup m j s r hs, Registered-lookup m k t r ht, ap (λ n. lookup n names) e)

  pub absent :
      (m : List (ℕ × Session)) (n : Bytes)
      → Registered names m
      → lookup n names ≡ none
      → is_session_already_present n m ≡ false
  unfolding is_session_already_present
  absent [] n r h = refl
  absent ((k, t) ∷ m) n r h = elim (Bool-cases (bytes_beq t.service_name n)) [
    | inl e ↦ absurd cc (r.0, h, ap (λ x. lookup x names) ((bytes_beq_iff t.service_name n).0 e))
    | inr e ↦ rw e (absent m n r.1 h)
  ]

  pub Registered-insert :
      (m : List (ℕ × Session)) (n : Bytes) (k : ℕ)
      → is_session_already_present n m ≡ false
      → Registered names m
      → Registered (insert n k names) m
  unfolding is_session_already_present
  Registered-insert [] n k h r = r
  Registered-insert ((j, t) ∷ m) n k h r = elim (Bool-cases (bytes_beq t.service_name n)) [
    | inl e ↦ ground (arith)
    | inr e ↦ (
      lookup-insert_other t.service_name n k names (apart t.service_name n e) ∙ r.0,
      Registered-insert m n k (ground arith) r.1,
    )
  ]

  -- A session whose name leads to its id may be put in.
  pub Registered-put :
      (m : List (ℕ × Session)) (k : ℕ) (s : Session)
      → lookup s.service_name names ≡ some k
      → Registered names m
      → Registered names (put_session k s m)
  unfolding put_session
  Registered-put [] k s e r = (e, r)
  Registered-put ((j, t) ∷ m) k s e r = elim (Bool-cases (ltb k j)) [
    | inl p ↦ rw p (e, r)
    | inr p ↦ elim (Bool-cases (j == k)) [
      | inl q ↦ rw (p, q) (e, r.1)
      | inr q ↦ rw (p, q) (r.0, Registered-put m k s e r.1)
    ]
  ]

  pub Registered-erase :
      (m : List (ℕ × Session)) (n : Bytes) (k : ℕ)
      → lookup n names ≡ some k
      → Registered names m
      → Registered (erase n names) (erase k m)
  unfolding erase
  Registered-erase [] n k e r = r
  Registered-erase ((j, t) ∷ m) n k e r = elim (Bool-cases (j == k)) [
    | inl q ↦ rw q (Registered-erase m n k e r.1)
    | inr q ↦
        rw q
          (lookup-erase_other t.service_name n names (other q) ∙ r.0, Registered-erase m n k e r.1)
  ]
    where
      other : (j == k) ≡ false → bytes_beq n t.service_name ≡ false
      other q = elim (Bool-cases (bytes_beq n t.service_name)) [
        | inl p ↦
            absurd cc (
              q,
              r.0,
              e,
              ap (λ x. lookup x names) ((bytes_beq_iff n t.service_name).0 p),
              ==_refl k,
            )
        | inr p ↦ p
      ]
