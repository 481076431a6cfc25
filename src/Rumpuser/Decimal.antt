-- ===== src/Rumpuser/Decimal.antt =====
-- The decimal digits that `rumpuser_getparam` makes, and the clock's two numbers.
use rumpuser_baremetal.Base.{
  ℕ, zero, suc, ◌+◌, ◌-◌, ◌*◌, ◌/◌, ◌%◌, ◌^◌, ◌≤◌, ◌<◌, ◌≡◌, refl, true, some, List, [], ◌∷◌, arith,
  length, ltb,
}
use native.Mathlib.Nat.{pow-suc}
use rumpuser_baremetal.Rumpuser.{digits}

-- The number that digits stand for, the last one first.
abbrev pub value : List ℕ → ℕ
value [] = 0
value (c ∷ tmp) = c - b'0' + 10 * value tmp

-- Decimal digits only.
abbrev pub IsDecimal : List ℕ → Type 0
IsDecimal [] = Unit {0}
IsDecimal (c ∷ tmp) = (b'0' ≤ c) × (c ≤ b'9') × IsDecimal tmp

-- A number of at most `n` digits is printed, in at most `n` rounds, where the buffer has room for
-- them: the digits are decimal and stand for the number, and there is none too many.
pub digits_lem :
    (n m i : ℕ)
    → m < 10 ^ n
    → n + i ≤ 63
    → (tmp : List ℕ) × (digits n m i ≡ some tmp)
      × (value tmp ≡ m)
      × IsDecimal tmp
      × (length tmp ≤ n)
unfolding digits
digits_lem n zero i h room = ([], refl, refl, tt, omega arith)
digits_lem zero (suc m) i h room = absurd (omega arith)
digits_lem (suc n) (suc m) i h room =
    let (tmp, made, v, dec, len) =
      digits_lem n (suc m / 10) (i + 1) (omega (arith, pow-suc 10 n)) (omega arith) in
    let fits : ltb i 63 ≡ true = ground arith in
    (
      (suc m % 10 + b'0') ∷ tmp,
      rw (fits, made) refl,
      omega arith,
      (omega arith, omega arith, dec),
      omega arith,
    )
