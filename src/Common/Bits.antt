-- ===== src/Common/Bits.antt =====
-- Shifts and masks at variables, from the digit recursion of the native operations.
use Prim.Native.Nat.{
  ℕ, zero, suc, ◌+◌, ◌*◌, ◌/◌, ◌%◌, ◌^◌, ◌≤◌, ◌<◌, min, max, bit_and, bit_or, digits,
  bit_and-bitwise, bit_or-bitwise,
}
use mathlib.Core.Path.{◌≡◌, refl, ap, ap₂, sym, ◌∙◌}
use native.Mathlib.Omega.{arith}
use native.Mathlib.Nat.{
  pow-suc, mod-lt, div-add-mod, mul-add-mod_self_left, mod-eq_of_lt, div-one, div-div-eq-div-mul,
}

-- The digit recursion for any operation on one digit, with `base` for what is left at 0.
module _ (base : ℕ → ℕ) (op : ℕ → ℕ → ℕ) where
  digits-none : (fuel y : ℕ) → digits base op fuel 0 y ≡ base y
  digits-none zero y = refl
  digits-none (suc fuel) y = refl

  settled : (x y f g : ℕ) → x ≤ f → x ≤ g → digits base op f x y ≡ digits base op g x y
  settled zero y f g hf hg = digits-none f y ∙ sym (digits-none g y)
  settled (suc x) y zero g hf hg = absurd (omega arith)
  settled (suc x) y (suc f) zero hf hg = absurd (omega arith)
  settled (suc x) y (suc f) (suc g) hf hg =
      ap (λ t. t * 2 + op (suc x % 2) (y % 2))
        (settled (suc x / 2) (y / 2) f g (omega arith) (omega arith))

  unrolled :
      ((y : ℕ) → base y ≡ base (y / 2) * 2 + op 0 (y % 2))
      → (x y : ℕ)
      → digits base op x x y ≡ digits base op (x / 2) (x / 2) (y / 2) * 2 + op (x % 2) (y % 2)
  unrolled h zero y = h y
  unrolled h (suc x) y =
      ap (λ t. t * 2 + op (suc x % 2) (y % 2))
        (settled (suc x / 2) (y / 2) x (suc x / 2) (omega arith) (omega arith))

bit_or_step : (a b : ℕ) → bit_or a b ≡ bit_or (a / 2) (b / 2) * 2 + max (a % 2) (b % 2)
bit_or_step a b =
    bit_or-bitwise a b
    ∙ unrolled (λ y. y) max (λ y. omega arith) a b
    ∙ ap (λ t. t * 2 + max (a % 2) (b % 2)) (sym (bit_or-bitwise (a / 2) (b / 2)))

bit_and_step : (a b : ℕ) → bit_and a b ≡ bit_and (a / 2) (b / 2) * 2 + min (a % 2) (b % 2)
bit_and_step a b =
    bit_and-bitwise a b
    ∙ unrolled (λ y. zero) min (λ y. omega arith) a b
    ∙ ap (λ t. t * 2 + min (a % 2) (b % 2)) (sym (bit_and-bitwise (a / 2) (b / 2)))

-- Induction that halves.
halving :
    (P : ℕ → Type 0) → P 0 → ((a : ℕ) → P (suc a / 2) → P (suc a)) → (bound a : ℕ) → a ≤ bound → P a
halving P z s bound zero h = z
halving P z s zero (suc a) h = absurd (omega arith)
halving P z s (suc bound) (suc a) h = s a (halving P z s bound (suc a / 2) (omega arith))

bit_or-zero : (a : ℕ) → bit_or a 0 ≡ a
bit_or-zero a =
    halving (λ x. bit_or x 0 ≡ x) refl (λ x h. omega (arith, bit_or_step (suc x) 0, h)) a a
      (omega arith)

bit_and-zero : (a : ℕ) → bit_and a 0 ≡ 0
bit_and-zero a =
    halving (λ x. bit_and x 0 ≡ 0) refl (λ x h. omega (arith, bit_and_step (suc x) 0, h)) a a
      (omega arith)

-- Packing two fields that do not overlap is their sum.
pub bit_or_disjoint : (k a b : ℕ) → b < 2 ^ k → bit_or (a * 2 ^ k) b ≡ a * 2 ^ k + b
bit_or_disjoint zero a b h = omega (arith, bit_or-zero (a * 1), none)
  where
    none : bit_or (a * 2 ^ 0) b ≡ bit_or (a * 1) 0
    none = ap (bit_or (a * 1)) (omega arith)
bit_or_disjoint (suc k) a b h = omega (
  arith,
  bit_or_step (a * 2 ^ suc k) b,
  bit_or_disjoint k a (b / 2) (omega (arith, pow-suc 2 k)),
  pow-suc 2 k,
  ap (λ (t : ℕ). a * t) (pow-suc 2 k),
  half,
)
  where
    half : bit_or (a * 2 ^ suc k / 2) (b / 2) ≡ bit_or (a * 2 ^ k) (b / 2)
    half = ap (λ (t : ℕ). bit_or t (b / 2)) (omega (arith, ap (λ (t : ℕ). a * t) (pow-suc 2 k)))

-- `k` binary ones.
abbrev pub ones : ℕ → ℕ
ones zero = 0
ones (suc k) = ones k * 2 + 1

-- The low `k` bits, digit by digit.
abbrev low : ℕ → ℕ → ℕ
low zero x = 0
low (suc k) x = low k (x / 2) * 2 + x % 2

bit_and-ones-low : (k x : ℕ) → bit_and x (ones k) ≡ low k x
bit_and-ones-low zero x = bit_and-zero x
bit_and-ones-low (suc k) x =
    omega (arith, bit_and_step x (ones (suc k)), bit_and-ones-low k (x / 2), tail)
  where
    tail : bit_and (x / 2) (ones (suc k) / 2) ≡ bit_and (x / 2) (ones k)
    tail = ap (bit_and (x / 2)) (omega arith)

pow-pos : (k : ℕ) → 0 < 2 ^ k
pow-pos zero = omega arith
pow-pos (suc k) = omega (arith, pow-pos k, pow-suc 2 k)

low_mod : (k x : ℕ) → low k x ≡ x % 2 ^ k
low_mod zero x = omega arith
low_mod (suc k) x = omega (arith, low_mod k (x / 2), split, small)
  where
    p : ℕ
    p = 2 ^ k

    q : ℕ
    q = x / 2 / p

    r : ℕ
    r = x / 2 % p

    size : 2 ^ suc k ≡ p * 2
    size = pow-suc 2 k

    inside : r < p
    inside = mod-lt (x / 2) (pow-pos k)

    whole : p * q + r ≡ x / 2
    whole = div-add-mod (x / 2) p

    regroup : x ≡ 2 ^ suc k * q + (r * 2 + x % 2)
    regroup = omega (arith, whole, ap (λ (t : ℕ). t * q) size)

    split : x % 2 ^ suc k ≡ (r * 2 + x % 2) % 2 ^ suc k
    split =
        ap (λ (t : ℕ). t % 2 ^ suc k) regroup ∙ mul-add-mod_self_left (2 ^ suc k) q (r * 2 + x % 2)

    small : (r * 2 + x % 2) % 2 ^ suc k ≡ r * 2 + x % 2
    small = mod-eq_of_lt (omega (arith, size, inside))

-- A mask of the low bits is a remainder.
pub bit_and-ones : (k x : ℕ) → bit_and x (ones k) ≡ x % 2 ^ k
bit_and-ones k x = bit_and-ones-low k x ∙ low_mod k x

-- A mask of higher bits, shifted down, is a mask of the shifted number.
pub bit_and-high : (k x c : ℕ) → bit_and x (c * 2 ^ k) / 2 ^ k ≡ bit_and (x / 2 ^ k) c
bit_and-high zero x c = ap₂ (λ (s t : ℕ). bit_and s t / 1) same one_c ∙ div-one (bit_and (x / 1) c)
  where
    same : x ≡ x / 1
    same = sym (div-one x)

    one_c : c * 1 ≡ c
    one_c = omega arith
bit_and-high (suc k) x c =
    ap (λ (t : ℕ). bit_and x (c * t) / t) size
    ∙ sym (div-div-eq-div-mul (bit_and x (c * (2 * 2 ^ k))) 2 (2 ^ k))
    ∙ ap (λ (t : ℕ). t / 2 ^ k) halved
    ∙ bit_and-high k (x / 2) c
    ∙ ap (λ (t : ℕ). bit_and t c) (div-div-eq-div-mul x 2 (2 ^ k))
    ∙ ap (λ (t : ℕ). bit_and (x / t) c) (sym size)
  where
    size : 2 ^ suc k ≡ 2 * 2 ^ k
    size = omega (arith, pow-suc 2 k)

    even : c * (2 * 2 ^ k) / 2 ≡ c * 2 ^ k
    even = omega arith

    halved : bit_and x (c * (2 * 2 ^ k)) / 2 ≡ bit_and (x / 2) (c * 2 ^ k)
    halved = omega (arith, bit_and_step x (c * (2 * 2 ^ k)), ap (bit_and (x / 2)) even)
