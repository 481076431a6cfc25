-- ===== src/Rumpuser/Limit.antt =====
-- The text that `rumpuser_getparam` (rumpuser.c) leaves for RUMP_MEMLIMIT.
use rumpuser_baremetal.Base.{
  ℕ, zero, suc, ◌+◌, ◌-◌, ◌*◌, ◌/◌, ◌%◌, ◌^◌, ◌≤◌, ◌<◌, ◌≡◌, refl, true, false, none, some, List,
  [], ◌∷◌, ◌++◌, ◌==◌, if◌then◌else◌, arith, length, length-append, ltb, leb, ◌-ℤ◌, get_elem?, set?,
  ap, ◌∙◌, sym, Bool-cases, Option-cases, inl, inr,
}
use native.Mathlib.Nat.{pow-suc}
use mathlib.Core.Option.{some-injective}
use mathlib.Core.List.{append_assoc}
use rumpuser_baremetal.Subr.{strcmp, char_val}
use rumpuser_baremetal.Rumpuser.{
  digits, put_digits, memlimit, memreserve, memlimit_name, verbose_name, is_named, getparam,
}
use rumpuser_baremetal.Rumpuser.Decimal.{value, IsDecimal, digits_lem}

-- The number that a text of decimal digits stands for, as a reader takes it: up to the terminator.
abbrev pub read_decimal : ℕ → List ℕ → ℕ
read_decimal acc [] = acc
read_decimal acc (c ∷ cs) = if c == 0 then acc else read_decimal (acc * 10 + (c - b'0')) cs

-- The last `i` of the characters, the last one first.
abbrev backwards : ℕ → List ℕ → List ℕ
backwards zero tmp = []
backwards (suc i) tmp = elim (get_elem? tmp i) [ none ↦ [] | some c ↦ c ∷ backwards i tmp ]

abbrev low : ℕ → List ℕ → ℕ
low zero tmp = 0
low (suc i) [] = 0
low (suc i) (c ∷ tmp) = c - b'0' + 10 * low i tmp

backwards-suc :
    (i c : ℕ) (tmp : List ℕ)
    → get_elem? tmp i ≡ some c
    → backwards (suc i) tmp ≡ c ∷ backwards i tmp
backwards-suc i c tmp e = ground (arith, e)

low_all : (tmp : List ℕ) → low (length tmp) tmp ≡ value tmp
low_all [] = refl
low_all (c ∷ tmp) = omega (arith, low_all tmp)

-- A digit more at the end is worth its power of ten.
low_suc :
    (i : ℕ) (tmp : List ℕ)
    → IsDecimal tmp
    → i < length tmp
    → (c : ℕ) × (get_elem? tmp i ≡ some c)
      × (b'0' ≤ c)
      × (low (suc i) tmp ≡ low i tmp + (c - b'0') * 10 ^ i)
low_suc i [] d h = absurd (omega arith)
low_suc zero (c ∷ tmp) d h = (c, refl, d.0, omega arith)
low_suc (suc i) (x ∷ tmp) d h =
    let (c, e, dec, v) = low_suc i tmp d.2 (omega arith) in
    let scaled : (c - b'0') * 10 ^ suc i ≡ 10 * ((c - b'0') * 10 ^ i) =
      rw (pow-suc 10 i) (grind arith) in
    (c, e, dec, omega (arith, v, scaled))

set?-append :
    (pre : List ℕ) (o v : ℕ) (r : List ℕ) → set? (pre ++ o ∷ r) (length pre) v ≡ some (pre ++ v ∷ r)
set?-append [] o v r = refl
set?-append (x ∷ pre) o v r = rw (set?-append pre o v r) refl

put_digits_lem :
    (i j : ℕ) (tmp pre old r : List ℕ)
    → IsDecimal tmp
    → length pre + i ≡ j
    → length old ≡ i
    → i ≤ length tmp
    → put_digits i j tmp (pre ++ (old ++ r)) ≡ some (pre ++ (backwards i tmp ++ r))
unfolding put_digits
put_digits_lem zero j tmp pre [] r d at len room = refl
put_digits_lem zero j tmp pre (o ∷ old) r d at len room = absurd (omega arith)
put_digits_lem (suc i) j tmp pre [] r d at len room = absurd (omega arith)
put_digits_lem (suc i) j tmp pre (o ∷ old) r d at len room =
    let (c, e, _, _) = low_suc i tmp d (omega arith) in
    let spot : j - suc i ≡ length pre = omega arith in
    let ih =
      put_digits_lem i j tmp (pre ++ c ∷ []) old r d (omega (arith, length-append pre (c ∷ [])))
        (omega arith) (omega arith) in
    let joined : (xs : List ℕ) → (pre ++ c ∷ []) ++ xs ≡ pre ++ c ∷ xs =
      λ xs. append_assoc pre (c ∷ []) xs in
    let ih' : put_digits i j tmp (pre ++ c ∷ (old ++ r))
        ≡ some (pre ++ c ∷ (backwards i tmp ++ r)) =
      ap (put_digits i j tmp) (sym (joined (old ++ r)))
      ∙ ih
      ∙ ap (λ (xs : List ℕ). some xs) (joined (backwards i tmp ++ r)) in
    rw (e, spot, set?-append pre o c (old ++ r))
      (ih' ∙ ap (λ (xs : List ℕ). some (pre ++ (xs ++ r))) (sym (backwards-suc i c tmp e)))

-- Reading the digits backwards, behind `acc`.
read-backwards :
    (i acc : ℕ) (tmp r : List ℕ)
    → IsDecimal tmp
    → i ≤ length tmp
    → read_decimal acc (backwards i tmp ++ 0 ∷ r) ≡ acc * 10 ^ i + low i tmp
read-backwards zero acc tmp r d room = ground arith
read-backwards (suc i) acc tmp r d room =
    let (c, e, dec, v) = low_suc i tmp d (omega arith) in
    let digit : (c == 0) ≡ false = ground arith in
    let ih = read-backwards i (acc * 10 + (c - b'0')) tmp r d (omega arith) in
    let scaled : (acc * 10 + (c - b'0')) * 10 ^ i ≡ acc * 10 ^ suc i + (c - b'0') * 10 ^ i =
      rw (pow-suc 10 i) (grind arith) in
    rw (backwards-suc i c tmp e) (rw digit (ih ∙ omega (arith, v, scaled)))

split_at :
    (i : ℕ) (xs : List ℕ)
    → i < length xs
    → (ys : List ℕ) × (z : ℕ) × (zs : List ℕ) × (xs ≡ ys ++ z ∷ zs) × (length ys ≡ i)
split_at i [] h = absurd (omega arith)
split_at zero (x ∷ xs) h = ([], x, xs, refl, refl)
split_at (suc i) (x ∷ xs) h =
    let (ys, z, zs, e, l) = split_at i xs (omega arith) in
    (x ∷ ys, z, zs, ap (◌∷◌ x) e, omega arith)

-- There are no more digits than the number has, however many rounds are left.
digits_le : (f n m i : ℕ) (tmp : List ℕ) → m < 10 ^ n → digits f m i ≡ some tmp → length tmp ≤ n
unfolding digits
digits_le f n zero i tmp h e = ground (arith, e)
digits_le zero n (suc m) i tmp h e = cc
digits_le (suc f) zero (suc m) i tmp h e = absurd (omega arith)
digits_le (suc f) (suc n) (suc m) i tmp h e = elim (Bool-cases (ltb i 63)) [
  | inr out ↦ cc (rw out at e)
  | inl fits ↦ elim (Option-cases (digits f (suc m / 10) (i + 1))) [
    | inl stuck ↦ cc (rw (fits, stuck) at e)
    | inr (ds, more) ↦
        let small : suc m / 10 < 10 ^ n = omega (arith, pow-suc 10 n) in
        let ih = digits_le f n (suc m / 10) (i + 1) ds small more in
        let same : (suc m % 10 + b'0') ∷ ds ≡ tmp = some-injective _ _ (rw (fits, more) at e) in
        omega (arith, ih, ap (length {A = ℕ}) same)
  ]
]

own_name : is_named memlimit_name (memlimit_name ∷ []) ≡ some true
unfolding is_named strcmp ◌-ℤ◌ char_val
own_name = refl

memlimit_written :
    (memsize buflen z : ℕ) (tmp old r : List ℕ)
    → memreserve < memsize
    → digits 11 (memsize - memreserve) 0 ≡ some tmp
    → IsDecimal tmp
    → length old ≡ length tmp
    → length tmp < buflen
    → memlimit memsize buflen (old ++ z ∷ r) ≡ some (0, backwards (length tmp) tmp ++ 0 ∷ r)
unfolding memlimit
memlimit_written memsize buflen z tmp old r low_end made dec at room =
    let wrote : set? (old ++ z ∷ r) (length tmp) 0 ≡ some (old ++ 0 ∷ r) =
      ap (λ (n : ℕ). set? (old ++ z ∷ r) n 0) (sym at) ∙ set?-append old z 0 r in
    let put =
      put_digits_lem (length tmp) (length tmp) tmp [] old (0 ∷ r) dec (omega arith) at
        (omega arith) in
    let reserve : ltb memreserve memsize ≡ true = ground arith in
    let enough : leb buflen (length tmp) ≡ false = ground arith in
    rw (reserve, made, enough, wrote, put) refl

memlimit_reads :
    (memsize buflen : ℕ) (buf : List ℕ)
    → memreserve < memsize
    → memsize < 2 ^ 32
    → 11 ≤ buflen
    → buflen ≤ length buf
    → (res : List ℕ) × (memlimit memsize buflen buf ≡ some (0, res))
      × (read_decimal 0 res ≡ memsize - memreserve)
memlimit_reads memsize buflen buf low_end high room fits =
    let (tmp, made, v, dec, _) =
      digits_lem 11 (memsize - memreserve) 0 (omega arith) (omega arith) in
    let short : length tmp ≤ 10 = digits_le 11 10 (memsize - memreserve) 0 tmp (omega arith) made in
    let (old, z, r, same, at) = split_at (length tmp) buf (omega arith) in
    (
      backwards (length tmp) tmp ++ 0 ∷ r,
      ap (memlimit memsize buflen) same
          ∙ memlimit_written memsize buflen z tmp old r low_end made dec at (omega arith),
      read-backwards (length tmp) 0 tmp r dec (omega arith) ∙ omega (arith, low_all tmp, v),
    )

-- The memory that the kernel tells of can be read back: with more than the reserve of 1 MB, and less
-- than 4 GB, a buffer of at least 11 bytes, and names of the rump kernel's parameters that differ from
-- RUMP_MEMLIMIT, `rumpuser_getparam` for RUMP_MEMLIMIT succeeds, and the decimal text in the buffer
-- stands for the memory less the reserve.
pub getparam-read_decimal :
    (ncpu_name hostname_name buf : List ℕ) (buflen memsize : ℕ)
    → is_named memlimit_name (ncpu_name ∷ verbose_name ∷ []) ≡ some false
    → is_named memlimit_name (hostname_name ∷ []) ≡ some false
    → memreserve < memsize
    → memsize < 2 ^ 32
    → 11 ≤ buflen
    → buflen ≤ length buf
    → (res : List ℕ) × (getparam ncpu_name hostname_name memlimit_name buf buflen memsize
        ≡ some (0, res))
      × (read_decimal 0 res ≡ memsize - memreserve)
unfolding getparam
getparam-read_decimal ncpu_name hostname_name buf buflen memsize other another low_end high room
      fits =
    let (res, e, reads) = memlimit_reads memsize buflen buf low_end high room fits in
    let long : leb buflen 1 ≡ false = ground arith in
    let found : is_named memlimit_name (memlimit_name ∷ []) ≡ some true = own_name in
    (res, rw (long, other, another, found) e, reads)
