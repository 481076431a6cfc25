-- ===== src/Bits.antt =====
-- The masks of the C code as arithmetic: `x & ~(2^k - 1)` on 32 bits, and `a & (a - 1)`.
pub mod Mask
use Prim.Native.Nat.{min, digits, bit_and-bitwise}
use mathlib.Core.Path.{ap₂}
use native.Mathlib.Nat.{
  le_refl, pow-suc, one-le-pow, zero-add, suc-add, mul_assoc, mul_comm, mul-one, div-one,
  div-div-eq-div-mul, div-lt_iff_lt-mul,
}
use rumpuser_baremetal.Base.{
  ℕ, zero, suc, ◌+◌, ◌-◌, ◌*◌, ◌/◌, ◌%◌, ◌^◌, ◌≤◌, ◌<◌, bit_and, ◌≡◌, refl, ◌⊎◌, inl, inr, arith,
  ap, ◌∙◌, sym, true, false, ◌==◌, Bool-cases,
}

-- One more round of fuel changes nothing, once there is enough.
digits_more :
    (z : ℕ → ℕ) (f : ℕ → ℕ → ℕ) (n a b : ℕ) → a ≤ n → digits z f (suc n) a b ≡ digits z f n a b
digits_more z f zero zero b h = refl
digits_more z f zero (suc a) b h = absurd (omega arith)
digits_more z f (suc n) zero b h = refl
digits_more z f (suc n) (suc a) b h =
    ap (λ (t : ℕ). t * 2 + f (suc a % 2) (b % 2))
      (digits_more z f n (suc a / 2) (b / 2) (omega arith))

digits_enough : (z : ℕ → ℕ) (f : ℕ → ℕ → ℕ) (k a b : ℕ) → digits z f (k + a) a b ≡ digits z f a a b
digits_enough z f zero a b = rw zero-add refl
digits_enough z f (suc k) a b =
    rw suc-add (digits_more z f (k + a) a b (omega arith) ∙ digits_enough z f k a b)

-- The digits behind the lowest one are those of the halves.
pub digits-suc :
    (z : ℕ → ℕ) (f : ℕ → ℕ → ℕ) (a b : ℕ)
    → digits z f (suc a) (suc a) b
      ≡ digits z f (suc a / 2) (suc a / 2) (b / 2) * 2 + f (suc a % 2) (b % 2)
digits-suc z f a b =
    ap (λ (t : ℕ). t * 2 + f (suc a % 2) (b % 2))
      (ap (λ (t : ℕ). digits z f t (suc a / 2) (b / 2)) (sym (rest a))
        ∙ digits_enough z f (a - suc a / 2) (suc a / 2) (b / 2))
  where
    rest : (n : ℕ) → n - suc n / 2 + suc n / 2 ≡ n
    rest n = omega arith

-- The lowest digit of `a & b`, and the rest.
pub bit_and_halves : (a b : ℕ) → bit_and a b ≡ bit_and (a / 2) (b / 2) * 2 + min (a % 2) (b % 2)
bit_and_halves zero b = omega (arith, bit_and-bitwise 0 b, bit_and-bitwise 0 (b / 2))
bit_and_halves (suc a) b = omega (
  arith,
  bit_and-bitwise (suc a) b,
  bit_and-bitwise (suc a / 2) (b / 2),
  digits-suc (λ b. zero) min a b,
)

bit_and_self-all : (n a : ℕ) → a ≤ n → bit_and a a ≡ a
bit_and_self-all zero zero h = refl
bit_and_self-all zero (suc a) h = absurd (omega arith)
bit_and_self-all (suc n) a h =
    omega (arith, bit_and_halves a a, bit_and_self-all n (a / 2) (omega arith))

bit_and-zero_all : (n a : ℕ) → a ≤ n → bit_and a 0 ≡ 0
bit_and-zero_all zero zero h = refl
bit_and-zero_all zero (suc a) h = absurd (omega arith)
bit_and-zero_all (suc n) a h =
    omega (arith, bit_and_halves a 0, bit_and-zero_all n (a / 2) (omega arith))

twice_pow : (m k : ℕ) → m * 2 ^ suc k ≡ m * 2 ^ k * 2
twice_pow m k = rw (pow-suc 2 k) (sym (mul_assoc m (2 ^ k) 2))

-- A mask that is a multiple of `2 ^ k` keeps what stands above the low `k` digits.
pub bit_and_above : (k x m : ℕ) → bit_and x (m * 2 ^ k) ≡ bit_and (x / 2 ^ k) m * 2 ^ k
bit_and_above zero x m = rw (mul-one m, div-one x, mul-one (bit_and x m))
bit_and_above (suc k) x m = omega (
  arith,
  bit_and_halves x (m * 2 ^ suc k),
  twice_pow m k,
  ap (λ (t : ℕ). bit_and (x / 2) t) (half m k),
  bit_and_above k (x / 2) m,
  ap (λ (t : ℕ). bit_and t m) (div_pow x k),
  twice_pow (bit_and (x / 2 ^ suc k) m) k,
  ap (λ (t : ℕ). bit_and t m * 2 ^ k) (div_pow x k),
)
  where
    half : (m k : ℕ) → m * 2 ^ suc k / 2 ≡ m * 2 ^ k
    half m k = omega (arith, twice_pow m k)

    div_pow : (x k : ℕ) → x / 2 / 2 ^ k ≡ x / 2 ^ suc k
    div_pow x k = rw (div-div-eq-div-mul x 2 (2 ^ k), pow-suc 2 k, mul_comm 2 (2 ^ k))

pub bit_and_ones : (k x : ℕ) → x < 2 ^ k → bit_and x (2 ^ k - 1) ≡ x
bit_and_ones zero x h = bit_and-zero_all x x (omega arith) ∙ omega arith
bit_and_ones (suc k) x h = omega (
  arith,
  bit_and_halves x (2 ^ suc k - 1),
  pow-suc 2 k,
  one-le-pow k 2 (omega arith),
  ap (λ (t : ℕ). bit_and (x / 2) t) (half k),
  bit_and_ones k (x / 2) (omega (arith, pow-suc 2 k)),
)
  where
    half : (k : ℕ) → (2 ^ suc k - 1) / 2 ≡ 2 ^ k - 1
    half k = omega (arith, pow-suc 2 k, one-le-pow k 2 (omega arith))

-- The mask of `j` ones above `k` zeros clears the low `k` digits of a number of `j + k` digits.
pub clear_low :
    (j k x : ℕ) → x < 2 ^ j * 2 ^ k → bit_and x ((2 ^ j - 1) * 2 ^ k) ≡ x / 2 ^ k * 2 ^ k
clear_low j k x h =
    bit_and_above k x (2 ^ j - 1)
    ∙ ap (λ (t : ℕ). t * 2 ^ k)
        (bit_and_ones j (x / 2 ^ k) ((div-lt_iff_lt-mul (one-le-pow k 2 (omega arith))).1 h))

-- `a & (a - 1)` is 0 only for 0 and the powers of two.
power_of_and : (n a : ℕ) → a ≤ n → bit_and a (a - 1) ≡ 0 → (a ≡ 0) ⊎ ((k : ℕ) × (a ≡ 2 ^ k))
power_of_and zero a h e = inl (omega arith)
power_of_and (suc n) a h e = elim (Bool-cases (a % 2 == 0)) [
  | inl even ↦ from_half (e2 even) (power_of_and n (a / 2) (omega arith) (even_half (e2 even)))
  | inr odd ↦ inr (0, odd_one (o2 odd))
]
  where
    e2 : (a % 2 == 0) ≡ true → a % 2 ≡ 0
    e2 t = ground arith

    o2 : (a % 2 == 0) ≡ false → a % 2 ≡ 1
    o2 t = ground arith

    even_half : a % 2 ≡ 0 → bit_and (a / 2) (a / 2 - 1) ≡ 0
    even_half t = elim (Bool-cases (a == 0)) [
      | inl z ↦ let z' : a ≡ 0 = ground arith in rw z' refl
      | inr nz ↦
          let pos : 0 < a = ground arith in
          let less : (a - 1) / 2 ≡ a / 2 - 1 = omega arith in
          omega (arith, bit_and_halves a (a - 1), ap (λ (t : ℕ). bit_and (a / 2) t) less)
    ]

    odd_one : a % 2 ≡ 1 → a ≡ 2 ^ 0
    odd_one t =
        let less : (a - 1) / 2 ≡ a / 2 = omega arith in
        omega (
          arith,
          bit_and_halves a (a - 1),
          ap (λ (t : ℕ). bit_and (a / 2) t) less,
          bit_and_self-all (a / 2) (a / 2) (le_refl (a / 2)),
        )

    from_half :
        a % 2 ≡ 0 → (a / 2 ≡ 0) ⊎ ((k : ℕ) × (a / 2 ≡ 2 ^ k)) → (a ≡ 0) ⊎ ((k : ℕ) × (a ≡ 2 ^ k))
    from_half t (inl z) = inl (omega arith)
    from_half t (inr (k, p)) = inr (suc k, omega (arith, pow-suc 2 k))

pub power_of_and_pred : (a : ℕ) → bit_and a (a - 1) ≡ 0 → (a ≡ 0) ⊎ ((k : ℕ) × (a ≡ 2 ^ k))
power_of_and_pred a = power_of_and a a (le_refl a)

pub and_pred_of_power : (k : ℕ) → bit_and (2 ^ k) (2 ^ k - 1) ≡ 0
and_pred_of_power zero = refl
and_pred_of_power (suc k) = omega (
  arith,
  bit_and_halves (2 ^ suc k) (2 ^ suc k - 1),
  ap₂ bit_and (whole k) (less k),
  and_pred_of_power k,
  pow-suc 2 k,
)
  where
    whole : (k : ℕ) → 2 ^ suc k / 2 ≡ 2 ^ k
    whole k = omega (arith, pow-suc 2 k)

    less : (k : ℕ) → (2 ^ suc k - 1) / 2 ≡ 2 ^ k - 1
    less k = omega (arith, pow-suc 2 k)
