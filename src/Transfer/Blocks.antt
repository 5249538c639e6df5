-- ===== src/Transfer/Blocks.antt =====
-- The blocks that a file is cut into: an independent description of what the worker sends.
use local_chat_xxx.Common.{
  ℕ, zero, suc, ◌≤◌, ◌<◌, ◌≡◌, ap, ◌∙◌, Bool-cases, inl, inr, arith, if◌then◌else◌, leb, leb→le,
  leb→lt, le→leb, lt→leb, List, [], ◌∷◌, ◌++◌, length, take, drop, take-append-drop, length-take,
  length-drop, append-nil,
}
use local_chat_xxx.Common.Bytes.{Bytes}

-- Blocks of `c` bytes, the last one shorter or equal. With `c` above 0 the length of the file is
-- fuel enough.
unfoldable pub blocks : ℕ → ℕ → Bytes → List Bytes
blocks zero c r = []
blocks (suc n) c r =
    let more = blocks n c (drop c r) in if leb (length r) c then r ∷ [] else (take c r ∷ more)

unfoldable pub join : List Bytes → Bytes
join [] = []
join (b ∷ bs) = b ++ join bs

-- All blocks but the last are full, and the last holds at least one byte.
abbrev pub IsCut : ℕ → List Bytes → Type 0
IsCut c [] = ⊥
IsCut c (b ∷ []) = (0 < length b) × (length b ≤ c)
IsCut c (b ∷ (d ∷ bs)) = (length b ≡ c) × IsCut c (d ∷ bs)

-- The blocks together are the file.
pub join-blocks :
    (n c : ℕ) (r : Bytes) → 0 < c → length r ≤ n → 0 < length r → join (blocks n c r) ≡ r
unfolding blocks join
join-blocks zero c r p h q = absurd (omega arith)
join-blocks (suc n) c r p h q = elim (Bool-cases (leb (length r) c)) [
  | inl e ↦ rw e (append-nil r)
  | inr e ↦ rw e (
      ap (◌++◌ (take c r)) (
        join-blocks n c (drop c r) p (omega (arith, length-drop c r, leb→lt (length r) c e))
          (omega (arith, length-drop c r, leb→lt (length r) c e)))
      ∙ take-append-drop c r)
]

IsCut-cons : (c : ℕ) (b : Bytes) (bs : List Bytes) → length b ≡ c → IsCut c bs → IsCut c (b ∷ bs)
IsCut-cons c b [] h k = absurd k
IsCut-cons c b (d ∷ bs) h k = (h, k)

pub blocks-IsCut :
    (n c : ℕ) (r : Bytes) → 0 < c → length r ≤ n → 0 < length r → IsCut c (blocks n c r)
unfolding blocks
blocks-IsCut zero c r p h q = absurd (omega arith)
blocks-IsCut (suc n) c r p h q = elim (Bool-cases (leb (length r) c)) [
  | inl e ↦ rw e (q, leb→le (length r) c e)
  | inr e ↦ rw e (
      IsCut-cons c (take c r) (blocks n c (drop c r))
        (omega (arith, length-take c r, leb→lt (length r) c e))
        (blocks-IsCut n c (drop c r) p (omega (arith, length-drop c r, leb→lt (length r) c e))
          (omega (arith, length-drop c r, leb→lt (length r) c e))))
]

pub blocks_short : (n c : ℕ) (r : Bytes) → length r ≤ c → blocks (suc n) c r ≡ r ∷ []
unfolding blocks
blocks_short n c r h = rw (le→leb (length r) c h)

pub blocks_long :
    (n c : ℕ) (r : Bytes) → c < length r → blocks (suc n) c r ≡ take c r ∷ blocks n c (drop c r)
unfolding blocks
blocks_long n c r h = rw (lt→leb (length r) c h)

pub blocks_pos : (n c : ℕ) (r : Bytes) → length r ≤ n → 0 < length r → 0 < length (blocks n c r)
unfolding blocks
blocks_pos zero c r h q = absurd (omega arith)
blocks_pos (suc n) c r h q = ground arith
