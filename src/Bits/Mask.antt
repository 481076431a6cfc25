-- ===== src/Bits/Mask.antt =====
-- Single bits of a mask: `x & (1 << i)` and `x | (1 << w)`.
use Prim.Native.Nat.{max, bit_or-bitwise}
use native.Mathlib.Nat.{pow-suc}
use rumpuser_baremetal.Base.{
  ℕ, zero, suc, ◌+◌, ◌*◌, ◌/◌, ◌%◌, ◌^◌, ◌≤◌, ◌<◌, bit_and, bit_or, ◌≡◌, refl, arith, ap, ◌∙◌, Bool,
  false, not, ◌||◌, ◌==◌,
}
use rumpuser_baremetal.Bits.{bit_and_halves, bit_and-zero_all, digits-suc}

-- `(x & (1 << i)) != 0`
abbrev pub is_set : (i x : ℕ) → Bool
is_set i x = not (bit_and x (2 ^ i) == 0)

bit_or_halves : (a b : ℕ) → bit_or a b ≡ bit_or (a / 2) (b / 2) * 2 + max (a % 2) (b % 2)
bit_or_halves zero b = omega (arith, bit_or-bitwise 0 b, bit_or-bitwise 0 (b / 2))
bit_or_halves (suc a) b = omega (
  arith,
  bit_or-bitwise (suc a) b,
  bit_or-bitwise (suc a / 2) (b / 2),
  digits-suc (λ b. b) max a b,
)

bit_or-zero_all : (n a : ℕ) → a ≤ n → bit_or a 0 ≡ a
bit_or-zero_all zero a h = let z : a ≡ 0 = omega arith in rw z refl
bit_or-zero_all (suc n) a h =
    omega (arith, bit_or_halves a 0, bit_or-zero_all n (a / 2) (omega arith))

half_pow : (k : ℕ) → (2 ^ suc k / 2 ≡ 2 ^ k) × (2 ^ suc k % 2 ≡ 0)
half_pow k = (omega (arith, pow-suc 2 k), omega (arith, pow-suc 2 k))

is_set-low : (x : ℕ) → is_set 0 x ≡ (x % 2 == 1)
is_set-low x = ground (arith, bit_and_halves x 1, bit_and-zero_all (x / 2) (x / 2) (omega arith))

is_set-half : (i x : ℕ) → is_set (suc i) x ≡ is_set i (x / 2)
is_set-half i x =
    let (half, even) = half_pow i in
    let halves : bit_and x (2 ^ suc i) ≡ bit_and (x / 2) (2 ^ i) * 2 =
      omega (arith, bit_and_halves x (2 ^ suc i), ap (bit_and (x / 2)) half, even) in
    ground (arith, halves)

-- What `x | 1` and `x | 2 ^ (w + 1)` have as their halves.
or_one : (x : ℕ) → (bit_or x 1 / 2 ≡ x / 2) × (bit_or x 1 % 2 ≡ 1)
or_one x =
    let halves = bit_or_halves x 1 in
    let rest = bit_or-zero_all (x / 2) (x / 2) (omega arith) in
    (omega (arith, halves, rest), omega (arith, halves, rest))

or_pow :
    (x w : ℕ)
    → (bit_or x (2 ^ suc w) / 2 ≡ bit_or (x / 2) (2 ^ w)) × (bit_or x (2 ^ suc w) % 2 ≡ x % 2)
or_pow x w =
    let (half, even) = half_pow w in
    let halves = bit_or_halves x (2 ^ suc w) in
    let rest = ap (bit_or (x / 2)) half in
    (omega (arith, halves, rest, even), omega (arith, halves, rest, even))

-- Setting bit `w` sets that bit, and keeps the others.
pub is_set-or : (i w x : ℕ) → is_set i (bit_or x (2 ^ w)) ≡ (i == w || is_set i x)
is_set-or zero zero x = ground (arith, is_set-low (bit_or x (2 ^ 0)), or_one x)
is_set-or zero (suc w) x =
    ground (arith, is_set-low (bit_or x (2 ^ suc w)), is_set-low x, or_pow x w)
is_set-or (suc i) zero x =
    is_set-half i (bit_or x (2 ^ 0)) ∙ ap (is_set i) (or_one x).0 ∙ ground (arith, is_set-half i x)
is_set-or (suc i) (suc w) x =
    is_set-half i (bit_or x (2 ^ suc w))
    ∙ ap (is_set i) (or_pow x w).0
    ∙ is_set-or i w (x / 2)
    ∙ ground (arith, is_set-half i x)

pub is_set-zero : (i : ℕ) → is_set i 0 ≡ false
is_set-zero zero = refl
is_set-zero (suc i) = is_set-half i 0 ∙ is_set-zero i

-- Setting a bit leaves a mask of `k` bits in its range, and it is not 0.
pub or_bound : (k w x : ℕ) → x < 2 ^ k → w < k → bit_or x (2 ^ w) < 2 ^ k
or_bound zero w x h g = absurd (omega arith)
or_bound (suc k) zero x h g = omega (arith, or_one x, pow-suc 2 k)
or_bound (suc k) (suc w) x h g = omega (
  arith,
  or_pow x w,
  pow-suc 2 k,
  or_bound k w (x / 2) (omega (arith, pow-suc 2 k)) (omega arith),
)
