-- ===== src/Memalloc/Place.antt =====
-- Where `bmk_memalloc` puts the memory that it returns inside a block.
use rumpuser_baremetal.Base.{
  ℕ, zero, suc, ◌+◌, ◌-◌, ◌*◌, ◌/◌, ◌%◌, ◌^◌, ◌≤◌, ◌<◌, ◌≡◌, refl, arith, ◌∙◌, sym, ap, ◌==◌,
  Bool-cases, inl, inr,
}
use mathlib.Core.Path.{subst}
use native.Mathlib.Nat.{
  pow-suc, mul_assoc, suc-mul, div-add-mod', mod-lt, mul-mod_left, zero-mul, mul_comm,
  pow-le-pow_right, one-le-pow,
}
use rumpuser_baremetal.Bits.{clear_low}
use rumpuser_baremetal.Memalloc.{align_up, alloc_bytes, place, header}

pub pow_add : (j k : ℕ) → 2 ^ (j + k) ≡ 2 ^ j * 2 ^ k
pow_add zero k = rw (the_same k) (omega arith)
  where
    the_same : (k : ℕ) → 0 + k ≡ k
    the_same k = omega arith
pow_add (suc j) k =
    rw
      (
        the_same j k,
        pow-suc 2 (j + k),
        pow-suc 2 j,
        pow_add j k,
        mul_assoc (2 ^ j) (2 ^ k) 2,
        mul_assoc (2 ^ j) 2 (2 ^ k),
        mul_comm 2 (2 ^ k),
      )
      refl
  where
    the_same : (j k : ℕ) → suc j + k ≡ suc (j + k)
    the_same j k = omega arith

mask_of : (a b n : ℕ) → 1 ≤ a → 1 ≤ b → a * b ≡ n → n - 1 - (b - 1) ≡ (a - 1) * b
mask_of zero b n h g e = omega arith
mask_of (suc a) b n h g e = rw (the_same a) (omega (arith, suc-mul a b))
  where
    the_same : (a : ℕ) → suc a - 1 ≡ a
    the_same a = omega arith

pub align_up-eq :
    (x k : ℕ) → k < 32 → x + 2 ^ k ≤ 2 ^ 32 → align_up x (2 ^ k) ≡ (x + (2 ^ k - 1)) / 2 ^ k * 2 ^ k
unfolding align_up
align_up-eq x k h b =
    let whole : 32 - k + k ≡ 32 = omega arith in
    let split : 2 ^ (32 - k) * 2 ^ k ≡ 2 ^ 32 =
      sym (pow_add (32 - k) k) ∙ ap (λ (t : ℕ). 2 ^ t) whole in
    let mask : 2 ^ 32 - 1 - (2 ^ k - 1) ≡ (2 ^ (32 - k) - 1) * 2 ^ k =
      mask_of (2 ^ (32 - k)) (2 ^ k) (2 ^ 32) (one-le-pow (32 - k) 2 (omega arith))
        (one-le-pow k 2 (omega arith)) split in
    let cut : (x + (2 ^ k - 1)) % 2 ^ 32 ≡ x + (2 ^ k - 1) =
      omega (arith, one-le-pow k 2 (omega arith)) in
    rw (mask, cut)
      (clear_low (32 - k) k (x + (2 ^ k - 1)) rw split
        (omega (arith, one-le-pow k 2 (omega arith))))

-- The least multiple of `a` from `x` on is below `x + a`.
round_lem : (x a : ℕ) → 1 ≤ a → (x ≤ (x + (a - 1)) / a * a) × ((x + (a - 1)) / a * a < x + a)
round_lem x a h =
    let cut = div-add-mod' (x + (a - 1)) a in
    let rest = mod-lt (x + (a - 1)) {m = a} (omega arith) in
    (omega (arith, cut, rest), omega (arith, cut, rest))

-- Both are multiples of 8, as 8 divides `a`.
round_eight : (x a b : ℕ) → 1 ≤ b → a ≡ b * 8 → x % 8 ≡ 0 → (x + (a - 1)) / a * a + 8 ≤ x + a
round_eight x a b h ab e =
    let q = (x + (a - 1)) / a in
    let bound = (round_lem x a (omega arith)).1 in
    let eights : q * a ≡ q * b * 8 = ap (λ (t : ℕ). q * t) ab ∙ sym (mul_assoc q b 8) in
    omega (arith, bound, eights)

multiple_le : (q a : ℕ) → 1 ≤ q * a → a ≤ q * a
multiple_le zero a h = omega (arith, zero-mul a)
multiple_le (suc q) a h = omega (arith, suc-mul q a)

place_large :
    (j op nbytes size : ℕ)
    → j + 3 < 32
    → op % 8 ≡ 0
    → op + size + 8 ≤ 2 ^ 32
    → nbytes + 2 ^ (j + 3) < 2 ^ 32
    → alloc_bytes nbytes (2 ^ (j + 3)) ≤ size
    → (place op (2 ^ (j + 3)) % 2 ^ (j + 3) ≡ 0)
      × (op + header ≤ place op (2 ^ (j + 3)))
      × (place op (2 ^ (j + 3)) + nbytes ≤ op + size)
unfolding place alloc_bytes
place_large j op nbytes size small eight top fits h =
    let a = 2 ^ (j + 3) in
    let q = (8 + (a - 1)) / a in
    let one = one-le-pow j 2 (omega arith) in
    let split : a ≡ 2 ^ j * 8 = pow_add j 3 in
    let below : a ≤ 2 ^ 31 =
      pow-le-pow_right {n = 2} (omega arith) {i = j + 3} {j = 31} (omega arith) in
    let gap : align_up 8 a ≡ q * a = align_up-eq 8 (j + 3) small (omega (arith, below)) in
    let over : 8 ≤ q * a = (round_lem 8 a (omega (arith, split, one))).0 in
    let whole : a ≤ q * a = multiple_le q a (omega (arith, over)) in
    let least : q * a + 8 ≤ 8 + a = round_eight 8 a (2 ^ j) one split refl in
    let size' : nbytes + q * a ≤ size = omega (arith, gap, h, fits, least) in
    let eq = align_up-eq (op + 8) (j + 3) small (omega (arith, size', whole, top)) in
    let low = (round_lem (op + 8) a (omega (arith, split, one))).0 in
    let near = round_eight (op + 8) a (2 ^ j) one split (omega (arith, eight)) in
    rw eq (mul-mod_left ((op + 8 + (a - 1)) / a) a, low, omega (arith, near, size', whole))

place_four :
    (op nbytes size : ℕ)
    → op % 8 ≡ 0
    → op + size + 8 ≤ 2 ^ 32
    → nbytes + 8 < 2 ^ 32
    → alloc_bytes nbytes 4 ≤ size
    → (place op 4 % 4 ≡ 0) × (op + header ≤ place op 4) × (place op 4 + nbytes ≤ op + size)
unfolding place alloc_bytes
place_four op nbytes size eight top fits h =
    let gap : align_up 8 4 ≡ 8 = align_up-eq 8 2 (omega arith) (omega arith) in
    let eq = align_up-eq (op + 8) 2 (omega arith) (omega (arith, gap, h, fits, top)) in
    rw eq (mul-mod_left ((op + 8 + (4 - 1)) / 4) 4, omega arith, omega (arith, gap, h, fits, eight))

-- For an alignment of 2^k, at least 4, and a block of a sufficient size that starts at a multiple
-- of 8 and ends 8 bytes or more below 4 GB, where the size does not wrap: the memory returned is
-- aligned, the header fits before it, and all of its bytes lie in the block.
pub place_lem :
    (k op nbytes size : ℕ)
    → 2 ≤ k
    → k < 32
    → op % 8 ≡ 0
    → op + size + 8 ≤ 2 ^ 32
    → nbytes + 2 ^ k + 8 < 2 ^ 32
    → alloc_bytes nbytes (2 ^ k) ≤ size
    → (place op (2 ^ k) % 2 ^ k ≡ 0)
      × (op + header ≤ place op (2 ^ k))
      × (place op (2 ^ k) + nbytes ≤ op + size)
place_lem k op nbytes size low small eight top fits h = elim (Bool-cases (k == 2)) [
  | inl four ↦
      let k2 : k ≡ 2 = ground arith in
      rw k2 (
        place_four op nbytes size eight top (omega arith)
          (subst (λ (t : ℕ). alloc_bytes nbytes (2 ^ t) ≤ size) k2 h))
  | inr more ↦
      let k3 : k ≡ k - 3 + 3 = ground arith in
      rw k3 (
        place_large (k - 3) op nbytes size (omega arith) eight top
          (subst (λ (t : ℕ). nbytes + 2 ^ t < 2 ^ 32) k3 (omega arith))
          (subst (λ (t : ℕ). alloc_bytes nbytes (2 ^ t) ≤ size) k3 h))
]
