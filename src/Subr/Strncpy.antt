-- ===== src/Subr/Strncpy.antt =====
-- `bmk_strncpy` writes `n + 1` bytes when the string fits `n`, and runs away when it does not.
use rumpuser_baremetal.Base.{
  ℕ, zero, suc, ◌+◌, ◌-◌, ◌^◌, ◌≤◌, ◌<◌, ◌≡◌, refl, ◌≢◌, none, some, List, [], ◌∷◌, ◌++◌, arith,
  length, take, drop, replicate, ◌==◌, false,
}
use native.Mathlib.Nat.{suc-add}
use native.Mathlib.Numerals.{add-one}
use rumpuser_baremetal.Subr.{strncpy, strncpy_pad, memcpy}

-- The bytes of a C string before its terminator.
abbrev pub IsText : List ℕ → Type 0
IsText [] = Unit {0}
IsText (c ∷ s) = (c ≢ 0) × (c < 256) × IsText s

pub strncpy_pad-eq :
    (d : List ℕ) (n : ℕ) → n ≤ length d → strncpy_pad d n ≡ some (replicate n 0 ++ drop n d)
unfolding strncpy_pad
strncpy_pad-eq d zero h = refl
strncpy_pad-eq [] (suc n) h = absurd (omega arith)
strncpy_pad-eq (x ∷ d) (suc n) h = rw (strncpy_pad-eq d n (omega arith))

pub strncpy_pad-none : (d : List ℕ) (n : ℕ) → length d < n → strncpy_pad d n ≡ none
unfolding strncpy_pad
strncpy_pad-none d zero h = absurd (omega arith)
strncpy_pad-none [] (suc n) h = refl
strncpy_pad-none (x ∷ d) (suc n) h = rw (strncpy_pad-none d n (omega arith))

-- With room for `n + 1` bytes, a string that fits `n` is copied and the rest of the `n + 1` bytes are
-- cleared; what stands behind them stays.
pub strncpy_fits :
    (d s r : List ℕ) (n : ℕ)
    → IsText s
    → length s ≤ n
    → n < length d
    → strncpy d (s ++ 0 ∷ r) n ≡ some (s ++ replicate (n + 1 - length s) 0 ++ drop (n + 1) d)
unfolding strncpy
strncpy_fits [] s r n hs hn hd = absurd (omega arith)
strncpy_fits (x ∷ d) [] r n hs hn hd =
    let room : n + 1 - 0 ≡ suc n = omega arith in
    rw (strncpy_pad-eq d n (omega arith), room, add-one n)
strncpy_fits (x ∷ d) (c ∷ s) r zero hs hn hd = absurd (omega arith)
strncpy_fits (x ∷ d) (c ∷ s) r (suc n) hs hn hd =
    let c_set : (c == 0) ≡ false = ground arith in
    let back : suc n - 1 ≡ n = omega arith in
    let left : suc n + 1 - suc (length s) ≡ n + 1 - length s = omega arith in
    let n_set : (suc n == 0) ≡ false = ground arith in
    rw
      (c_set, n_set, back, strncpy_fits d s r n hs.2 (omega arith) (omega arith), left, suc-add n 1)

-- A string longer than `n` makes the routine run off every destination below 4 GB.
pub strncpy_runs_away :
    (d s r : List ℕ) (n : ℕ)
    → IsText s
    → n < length s
    → length d < 2 ^ 32
    → strncpy d (s ++ 0 ∷ r) n ≡ none
unfolding strncpy
strncpy_runs_away [] s r n hs hn hd = refl
strncpy_runs_away (x ∷ d) [] r n hs hn hd = absurd (omega arith)
strncpy_runs_away (x ∷ d) (c ∷ s) r zero hs hn hd =
    let c_set : (c == 0) ≡ false = ground arith in
    rw (c_set, strncpy_pad-none d (2 ^ 32 - 1) (omega arith))
strncpy_runs_away (x ∷ d) (c ∷ s) r (suc n) hs hn hd =
    let c_set : (c == 0) ≡ false = ground arith in
    let back : suc n - 1 ≡ n = omega arith in
    let n_set : (suc n == 0) ≡ false = ground arith in
    rw (c_set, n_set, back, strncpy_runs_away d s r n hs.2 (omega arith) (omega arith))

-- A copy of `length s` bytes or fewer of what stands at the source overwrites that much of the
-- destination and nothing behind it.
pub memcpy-eq :
    (d s : List ℕ) (n : ℕ)
    → n ≤ length s
    → n ≤ length d
    → memcpy d s n ≡ some (take n s ++ drop n d)
unfolding memcpy
memcpy-eq d s zero hs hd = refl
memcpy-eq [] s (suc n) hs hd = absurd (omega arith)
memcpy-eq (x ∷ d) [] (suc n) hs hd = absurd (omega arith)
memcpy-eq (x ∷ d) (c ∷ s) (suc n) hs hd = rw (memcpy-eq d s n (omega arith) (omega arith))
