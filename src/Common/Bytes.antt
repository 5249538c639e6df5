-- ===== src/Common/Bytes.antt =====
-- Byte buffers: a byte is a number below 256, and a buffer is a list. The hosts are little-endian,
-- so `memcpy` of an integer stores its low byte first.
use Prim.Native.Nat.{ℕ, zero, suc, ◌+◌, ◌*◌, ◌/◌, ◌%◌, ◌^◌, ◌≤◌, ◌<◌}
use mathlib.Core.Path.{◌≡◌, refl, ap, ap₂, subst}
use mathlib.Core.List.{List, [], ◌∷◌, ◌++◌}
use mathlib.Core.Logic.{◌≢◌, ◌↔◌}
use mathlib.Core.Bool.{Bool, true, false, ◌&&◌}
use local_chat_xxx.Common.Tests.{◌==◌}
use native.Mathlib.Omega.{arith}
use native.Mathlib.Nat.{pow-suc}
use local_chat_xxx.Common.Lists.{length, take, drop, get_or, replicate}

abbrev pub Bytes : Type 0
Bytes = List ℕ

-- `memcpy(dst, &v, n)` for an unsigned integer `v`.
abbrev pub store : ℕ → ℕ → Bytes
store zero v = []
store (suc n) v = (v % 256) ∷ store n (v / 256)

-- `memcpy(&v, src, n)`. A missing byte reads as 0.
abbrev pub load : ℕ → Bytes → ℕ
load zero bs = 0
load (suc n) [] = 0
load (suc n) (b ∷ bs) = b + 256 * load n bs

-- Copy over the front of the buffer. What does not fit is dropped; in C++ it is undefined.
abbrev pub overlay : Bytes → Bytes → Bytes
overlay [] dst = dst
overlay (s ∷ src) [] = []
overlay (s ∷ src) (d ∷ dst) = s ∷ overlay src dst

-- `memcpy(dst + off, src, src.size())`.
abbrev pub write_at : ℕ → Bytes → Bytes → Bytes
write_at zero src dst = overlay src dst
write_at (suc k) src [] = []
write_at (suc k) src (d ∷ dst) = d ∷ write_at k src dst

pub load-store : (n v : ℕ) (rest : Bytes) → v < 256 ^ n → load n (store n v ++ rest) ≡ v
load-store zero v rest h = omega (arith, h)
load-store (suc n) v rest h = omega (arith, load-store n (v / 256) rest smaller)
  where
    smaller : v / 256 < 256 ^ n
    smaller = omega (arith, pow-suc 256 n)

pub length-overlay : (src dst : Bytes) → length (overlay src dst) ≡ length dst
length-overlay [] dst = refl
length-overlay (s ∷ src) [] = refl
length-overlay (s ∷ src) (d ∷ dst) = ap suc (length-overlay src dst)

pub length-write_at : (k : ℕ) (src dst : Bytes) → length (write_at k src dst) ≡ length dst
length-write_at zero src dst = length-overlay src dst
length-write_at (suc k) src [] = refl
length-write_at (suc k) src (d ∷ dst) = ap suc (length-write_at k src dst)

pub overlay-drop :
    (src dst : Bytes) → length src ≤ length dst → overlay src dst ≡ src ++ drop (length src) dst
overlay-drop [] dst h = refl
overlay-drop (s ∷ src) [] h = absurd (omega arith)
overlay-drop (s ∷ src) (d ∷ dst) h = ap (◌∷◌ s) (overlay-drop src dst (omega arith))

-- The value does not occur in the buffer.
abbrev pub Avoids : ℕ → Bytes → Type 0
Avoids a [] = Unit
Avoids a (b ∷ bs) = (b ≢ a) × Avoids a bs

pub Avoids-append : (a : ℕ) (xs ys : Bytes) → Avoids a xs → Avoids a ys → Avoids a (xs ++ ys)
Avoids-append a [] ys h k = k
Avoids-append a (x ∷ xs) ys h k = (h.0, Avoids-append a xs ys h.1 k)

pub load-drop_byte : (k : ℕ) (bs : Bytes) → load 1 (drop k bs) ≡ get_or bs k 0
load-drop_byte zero [] = refl
load-drop_byte zero (b ∷ bs) = omega arith
load-drop_byte (suc k) [] = refl
load-drop_byte (suc k) (b ∷ bs) = load-drop_byte k bs

get_or-zeros : (n i : ℕ) → get_or {A = ℕ} (replicate n 0) i 0 ≡ 0
get_or-zeros zero i = refl
get_or-zeros (suc n) zero = refl
get_or-zeros (suc n) (suc i) = get_or-zeros n i

-- Text copied over zeros.
pub get_or-overlay :
    (src : Bytes) (n i : ℕ)
    → length src ≤ n
    → get_or (overlay src (replicate n 0)) i 0 ≡ get_or src i 0
get_or-overlay [] n i h = get_or-zeros n i
get_or-overlay (x ∷ xs) zero i h = absurd (omega arith)
get_or-overlay (x ∷ xs) (suc n) zero h = refl
get_or-overlay (x ∷ xs) (suc n) (suc i) h = get_or-overlay xs n i (omega arith)

pub get_or-take : (n : ℕ) (xs : Bytes) (i : ℕ) → i < n → get_or (take n xs) i 0 ≡ get_or xs i 0
get_or-take zero xs i h = absurd (omega arith)
get_or-take (suc n) [] i h = refl
get_or-take (suc n) (x ∷ xs) zero h = refl
get_or-take (suc n) (x ∷ xs) (suc i) h = get_or-take n xs i (omega arith)

-- A buffer of the same size is replaced whole.
pub overlay_whole : (src dst : Bytes) → length src ≡ length dst → overlay src dst ≡ src
overlay_whole [] [] h = refl
overlay_whole [] (d ∷ dst) h = absurd (omega arith)
overlay_whole (s ∷ src) [] h = absurd (omega arith)
overlay_whole (s ∷ src) (d ∷ dst) h = ap (◌∷◌ s) (overlay_whole src dst (omega arith))

unfoldable pub bytes_beq : Bytes → Bytes → Bool
bytes_beq [] [] = true
bytes_beq [] (b ∷ bs) = false
bytes_beq (a ∷ as') [] = false
bytes_beq (a ∷ as') (b ∷ bs) = a == b && bytes_beq as' bs

pub bytes_beq_iff : (a b : Bytes) → (bytes_beq a b ≡ true) ↔ (a ≡ b)
unfolding bytes_beq
bytes_beq_iff a b = (to a b, from a b)
  where
    to : (a b : Bytes) → bytes_beq a b ≡ true → a ≡ b
    to [] [] h = refl
    to [] (b ∷ bs) h = cc
    to (a ∷ as') [] h = cc
    to (a ∷ as') (b ∷ bs) h = ground (arith, to as' bs)

    same : (a : Bytes) → bytes_beq a a ≡ true
    same [] = refl
    same (a ∷ as') = ground (arith, same as')

    from : (a b : Bytes) → a ≡ b → bytes_beq a b ≡ true
    from a b e = subst (λ c. bytes_beq a c ≡ true) e (same a)

pub bytes_beq_comm : (x y : Bytes) → bytes_beq x y ≡ bytes_beq y x
unfolding bytes_beq
bytes_beq_comm [] [] = refl
bytes_beq_comm [] (y ∷ ys) = refl
bytes_beq_comm (x ∷ xs) [] = refl
bytes_beq_comm (x ∷ xs) (y ∷ ys) = ap₂ ◌&&◌ (equal_comm x y) (bytes_beq_comm xs ys)
  where
    equal_comm : (m n : ℕ) → (m == n) ≡ (n == m)
    equal_comm m n = ground arith

pub overlay_front :
    (t xs r : Bytes) → length t ≤ length xs → overlay t (xs ++ r) ≡ overlay t xs ++ r
overlay_front [] xs r h = refl
overlay_front (c ∷ cs) [] r h = absurd (omega arith)
overlay_front (c ∷ cs) (x ∷ xs) r h = ap (◌∷◌ c) (overlay_front cs xs r (omega arith))

pub write_at_past :
    (k : ℕ) (t xs r : Bytes) → length xs ≡ k → write_at k t (xs ++ r) ≡ xs ++ write_at 0 t r
write_at_past zero t [] r h = refl
write_at_past zero t (x ∷ xs) r h = absurd (omega arith)
write_at_past (suc k) t [] r h = absurd (omega arith)
write_at_past (suc k) t (x ∷ xs) r h = ap (◌∷◌ x) (write_at_past k t xs r (omega arith))
