-- ===== src/Common/Assoc.antt =====
-- `std::map` as an association list, over any key with a lawful Boolean equality.
use mathlib.Core.Path.{◌≡◌, refl, ap, subst, sym, ◌∙◌}
use mathlib.Core.Logic.{◌↔◌, inl, inr}
use mathlib.Core.Bool.{Bool, true, false}
use mathlib.Core.Option.{Option, none, some}
use mathlib.Core.List.{List, [], ◌∷◌}
use Prim.Native.Nat.{ℕ}
use local_chat_xxx.Common.Tests.{if◌then◌else◌, ◌==◌, ==_iff, Bool-cases}
use local_chat_xxx.Common.Bytes.{Bytes, bytes_beq, bytes_beq_iff}

pub record Eq {ℓ} (A : Type ℓ) : Type ℓ where
  pub beq : A → A → Bool
  pub beq_iff : (a b : A) → (beq a b ≡ true) ↔ (a ≡ b)

instance abbrev pub nat_eq : Eq ℕ
nat_eq = record { beq = λ a b. a == b; beq_iff = ==_iff }

instance abbrev pub bytes_eq : Eq Bytes
bytes_eq = record { beq = bytes_beq; beq_iff = bytes_beq_iff }

pub beq_refl {ℓ} : {K : Type ℓ} → ⦃e : Eq K⦄ → (k : K) → e.beq k k ≡ true
beq_refl ⦃e = e⦄ k = (e.beq_iff k k).1 refl

module _ {ℓ κ} {K : Type ℓ} {V : Type κ} ⦃e : Eq K⦄ where
  unfoldable pub lookup : K → List (K × V) → Option V
  lookup k [] = none
  lookup k ((j, v) ∷ m) = if e.beq j k then some v else lookup k m

  -- `m[k] = v`.
  unfoldable pub insert : K → V → List (K × V) → List (K × V)
  insert k v [] = (k, v) ∷ []
  insert k v ((j, w) ∷ m) = if e.beq j k then (j, v) ∷ m else (j, w) ∷ insert k v m

  -- `m.erase(k)`.
  unfoldable pub erase : K → List (K × V) → List (K × V)
  erase k [] = []
  erase k ((j, w) ∷ m) = if e.beq j k then erase k m else (j, w) ∷ erase k m

  pub lookup-insert_self : (k : K) (v : V) (m : List (K × V)) → lookup k (insert k v m) ≡ some v
  unfolding lookup insert
  lookup-insert_self k v [] = rw (beq_refl k)
  lookup-insert_self k v ((j, w) ∷ m) = elim (Bool-cases (e.beq j k)) [
    | inl h ↦ rw h (rw h)
    | inr h ↦ rw h (rw h (lookup-insert_self k v m))
  ]

  pub lookup-erase_self : (k : K) (m : List (K × V)) → lookup k (erase k m) ≡ none
  unfolding lookup erase
  lookup-erase_self k [] = refl
  lookup-erase_self k ((j, w) ∷ m) = elim (Bool-cases (e.beq j k)) [
    | inl h ↦ rw h (lookup-erase_self k m)
    | inr h ↦ rw h (rw h (lookup-erase_self k m))
  ]

  -- The last write to a key is the one that counts.
  pub insert-insert :
      (k : K) (v w : V) (m : List (K × V)) → insert k v (insert k w m) ≡ insert k v m
  unfolding insert
  insert-insert k v w [] = rw (beq_refl k)
  insert-insert k v w ((j, x) ∷ m) = elim (Bool-cases (e.beq j k)) [
    | inl h ↦ rw h (rw h)
    | inr h ↦ rw h (rw h (ap (◌∷◌ (j, x)) (insert-insert k v w m)))
  ]

  pub lookup-insert_other :
      (j k : K) (v : V) (m : List (K × V))
      → e.beq k j ≡ false
      → lookup j (insert k v m) ≡ lookup j m
  unfolding lookup insert
  lookup-insert_other j k v [] h = rw h
  lookup-insert_other j k v ((i, w) ∷ m) h = elim (Bool-cases (e.beq i k)) [
    | inl g ↦ rw g (rw (subst (λ x. e.beq x j ≡ false) (sym ((e.beq_iff i k).0 g)) h))
    | inr g ↦ rw g (rw (lookup-insert_other j k v m h))
  ]

  pub lookup-erase_other :
      (j k : K) (m : List (K × V)) → e.beq k j ≡ false → lookup j (erase k m) ≡ lookup j m
  unfolding lookup erase
  lookup-erase_other j k [] h = refl
  lookup-erase_other j k ((i, w) ∷ m) h = elim (Bool-cases (e.beq i k)) [
    | inl g ↦ rw g (
        rw (subst (λ x. e.beq x j ≡ false) (sym ((e.beq_iff i k).0 g)) h)
          (lookup-erase_other j k m h))
    | inr g ↦ rw g (rw (lookup-erase_other j k m h))
  ]

  -- Nothing is erased where nothing is found.
  pub erase_absent : (k : K) (m : List (K × V)) → lookup k m ≡ none → erase k m ≡ m
  unfolding lookup erase
  erase_absent k [] h = refl
  erase_absent k ((i, w) ∷ m) h = elim (Bool-cases (e.beq i k)) [
    | inl g ↦ absurd cc (h, ap (λ b. if b then some w else lookup k m) g)
    | inr g ↦ rw g (
        ap (◌∷◌ (i, w)) (erase_absent k m (sym (ap (λ b. if b then some w else lookup k m) g) ∙ h)))
  ]
