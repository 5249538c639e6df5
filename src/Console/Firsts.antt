-- ===== src/Console/Firsts.antt =====
-- Which services of a batch are added: those that stand there for the first time, are not in the list
-- and are not this machine's.
use local_chat_xxx.Common.{
  Bool, Bool-cases, List, [], ap, append-nil, append_assoc, ap₂, false, if-cases, if◌then◌else◌,
  inl, inr, refl, subst, sym, true, ◌&&◌, ◌++◌, ◌||◌, ◌∙◌, ◌∷◌, ◌≡◌, ◌⊎◌,
}
use local_chat_xxx.Console.Services.{add_new, knows}
use local_chat_xxx.Console.Defs.{ServiceInstance, same_service}
use local_chat_xxx.Common.Bytes.{Bytes, bytes_beq, bytes_beq_iff}
use local_chat_xxx.Console.Known.{knows-append, knows-last}

-- A service of a batch is passed over when it is this machine's, when it is in the list from before,
-- or when it stands earlier in the batch.
unfoldable pub passed_over :
    Bytes → List ServiceInstance → List ServiceInstance → ServiceInstance → Bool
passed_over hostname v earlier s =
    bytes_beq s.service_name hostname || (knows s v || knows s earlier)

-- The others, in their order.
unfoldable pub firsts :
    Bytes
    → List ServiceInstance
    → List ServiceInstance
    → List ServiceInstance
    → List ServiceInstance
firsts hostname v earlier [] = []
firsts hostname v earlier (s ∷ ss) =
    let rest = firsts hostname v (earlier ++ (s ∷ [])) ss in
    if passed_over hostname v earlier s then rest else s ∷ rest

or-true : (b : Bool) → (b || true) ≡ true
or-true true = refl
or-true false = refl

same_service-equal : (s t : ServiceInstance) → same_service s t ≡ true → s ≡ t
unfolding same_service
same_service-equal s t e =
    let a = and_true (bytes_beq s.service_name t.service_name) e in
    let b = and_true (bytes_beq s.reg_type t.reg_type) a.1 in
    λ i. record {
      service_name = (bytes_beq_iff s.service_name t.service_name).0 a.0 i;
      reg_type = (bytes_beq_iff s.reg_type t.reg_type).0 b.0 i;
      reply_domain = (bytes_beq_iff s.reply_domain t.reply_domain).0 b.1 i;
    }
  where
    and_true : (b : Bool) {c : Bool} → (b && c) ≡ true → (b ≡ true) × (c ≡ true)
    and_true true e = (refl, e)
    and_true false e = absurd cc e

module _ (hostname : Bytes) (v : List ServiceInstance) where
  -- The list while the batch is walked: for services that are not this machine's it has the old list
  -- and what stood earlier in the batch.
  abbrev Follows : List ServiceInstance → List ServiceInstance → Type 0
  Follows earlier w =
      (x : ServiceInstance)
      → bytes_beq x.service_name hostname ≡ false
      → knows x w ≡ (knows x v || knows x earlier)

  knows-one : (x s : ServiceInstance) → knows x (s ∷ []) ≡ same_service s x
  unfolding knows
  knows-one x s = if-cases (λ b. b ≡ same_service s x) (same_service s x) (λ e. sym e) (λ e. sym e)

  -- A service that is passed over.
  Follows-skipped :
      (s : ServiceInstance) (earlier w : List ServiceInstance)
      → Follows earlier w
      → (bytes_beq s.service_name hostname ≡ true) ⊎ (knows s w ≡ true)
      → Follows (earlier ++ (s ∷ [])) w
  Follows-skipped s earlier w f skip x other = f x other ∙ elim (Bool-cases (same_service s x)) [
    | inl e ↦
        let same = same_service-equal s x e in
        sym (f x other)
        ∙ there same skip
        ∙ sym (or-true (knows x v))
        ∙ ap (λ b. knows x v || b)
            (sym (subst (λ y. knows y (earlier ++ (s ∷ [])) ≡ true) same (knows-last s earlier)))
    | inr e ↦
        ap (λ b. knows x v || b)
          (sym (
            knows-append x earlier (s ∷ [])
            ∙ ap (λ b. if knows x earlier then true else b) (knows-one x s ∙ e)
            ∙ if-cases (λ b. b ≡ knows x earlier) (knows x earlier) (λ k. sym k) (λ k. sym k)))
  ]
    where
      there :
          s ≡ x → (bytes_beq s.service_name hostname ≡ true) ⊎ (knows s w ≡ true) → knows x w ≡ true
      there same (inl own) =
          absurd cc (other, subst (λ y. bytes_beq y.service_name hostname ≡ true) same own)
      there same (inr k) = subst (λ y. knows y w ≡ true) same k

  -- A service that is added.
  Follows-added :
      (s : ServiceInstance) (earlier w : List ServiceInstance)
      → Follows earlier w
      → Follows (earlier ++ (s ∷ [])) (w ++ (s ∷ []))
  Follows-added s earlier w f x other =
      knows-append x w (s ∷ [])
      ∙ ap (λ b. if b then true else knows x (s ∷ [])) (f x other)
      ∙ assoc (knows x v) (knows x earlier) (knows x (s ∷ []))
      ∙ ap (λ b. knows x v || b) (sym (knows-append x earlier (s ∷ [])))
    where
      assoc : (a b c : Bool) → (if a || b then true else c) ≡ (a || (if b then true else c))
      assoc true b c = refl
      assoc false b c = refl

  -- Walking a batch adds the first ones of it, to the list and to what is resolved.
  pub add_new-firsts :
      (found earlier w r : List ServiceInstance)
      → Follows earlier w
      → add_new hostname found w r
        ≡ (w ++ firsts hostname v earlier found, r ++ firsts hostname v earlier found)
  unfolding add_new firsts passed_over
  add_new-firsts [] earlier w r f = ap₂ (λ x y. (x, y)) (sym (append-nil w)) (sym (append-nil r))
  add_new-firsts (s ∷ ss) earlier w r f = elim (Bool-cases (bytes_beq s.service_name hostname)) [
    | inl own ↦ rw own (
        if-cases
          (λ q. q ≡ (
            w ++ firsts hostname v (earlier ++ (s ∷ [])) ss,
            r ++ firsts hostname v (earlier ++ (s ∷ [])) ss,
          ))
          (knows s w)
          (λ k.
            add_new-firsts ss (earlier ++ (s ∷ [])) w r (Follows-skipped s earlier w f (inl own)))
          (λ k.
            add_new-firsts ss (earlier ++ (s ∷ [])) w r (Follows-skipped s earlier w f (inl own))))
    | inr other ↦ elim (Bool-cases (knows s w)) [
      | inl k ↦
          rw (other, k, sym (f s other) ∙ k)
            (add_new-firsts ss (earlier ++ (s ∷ [])) w r (Follows-skipped s earlier w f (inr k)))
      | inr k ↦
          rw (other, k, sym (f s other) ∙ k)
            (add_new-firsts ss (earlier ++ (s ∷ [])) (w ++ (s ∷ [])) (r ++ (s ∷ []))
                (Follows-added s earlier w f)
              ∙ ap₂ (λ x y. (x, y)) (append_assoc w (s ∷ []) _) (append_assoc r (s ∷ []) _))
    ]
  ]

  -- Before the walk nothing of the batch has been seen.
  pub Follows-start : Follows [] v
  unfolding knows
  Follows-start x other = sym (or-false (knows x v))
    where
      or-false : (b : Bool) → (b || false) ≡ b
      or-false true = refl
      or-false false = refl
