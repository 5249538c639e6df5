-- ===== src/Console/Known.antt =====
-- Whether a service is in a list of services.
use local_chat_xxx.Common.{
  Bool-cases, List, [], ap, ap₂, if-cases, if◌then◌else◌, inl, inr, refl, true, ◌&&◌, ◌++◌, ◌∙◌,
  ◌∷◌, ◌≡◌,
}
use local_chat_xxx.Console.Defs.{ServiceInstance, same_service}
use local_chat_xxx.Common.Bytes.{Bytes, bytes_beq, bytes_beq_comm, bytes_beq_iff}
use local_chat_xxx.Console.Services.{knows}

bytes_beq_self : (x : Bytes) → bytes_beq x x ≡ true
bytes_beq_self x = (bytes_beq_iff x x).1 refl

pub same_service_comm : (s t : ServiceInstance) → same_service s t ≡ same_service t s
unfolding same_service
same_service_comm s t =
    ap₂ ◌&&◌ (bytes_beq_comm s.service_name t.service_name) (
      ap₂ ◌&&◌ (bytes_beq_comm s.reg_type t.reg_type)
        (bytes_beq_comm s.reply_domain t.reply_domain))

pub same_service_self : (s : ServiceInstance) → same_service s s ≡ true
unfolding same_service
same_service_self s =
    rw (bytes_beq_self s.service_name, bytes_beq_self s.reg_type, bytes_beq_self s.reply_domain)
      refl

pub knows-append :
    (s : ServiceInstance) (v w : List ServiceInstance)
    → knows s (v ++ w) ≡ (if knows s v then true else knows s w)
unfolding knows
knows-append s [] w = refl
knows-append s (t ∷ v) w = elim (Bool-cases (same_service t s)) [
  | inl e ↦ rw e refl
  | inr e ↦ rw e (knows-append s v w)
]

pub knows-more :
    (s : ServiceInstance) (v w : List ServiceInstance) → knows s v ≡ true → knows s (v ++ w) ≡ true
knows-more s v w k = knows-append s v w ∙ ap (λ b. if b then true else knows s w) k

pub knows-last : (s : ServiceInstance) (v : List ServiceInstance) → knows s (v ++ (s ∷ [])) ≡ true
unfolding knows
knows-last s [] = rw (same_service_self s) refl
knows-last s (t ∷ v) = if-cases (λ b. b ≡ true) (same_service t s) (λ _. refl) (λ _. knows-last s v)
