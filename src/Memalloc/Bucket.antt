-- ===== src/Memalloc/Bucket.antt =====
-- The search of `bmk_memalloc` for a bucket.
use rumpuser_baremetal.Base.{
  ℕ, zero, suc, ◌+◌, ◌*◌, ◌%◌, ◌^◌, ◌≤◌, ◌<◌, ◌≡◌, refl, ◌⊎◌, inl, inr, true, false, some, ◌==◌,
  ltb, leb, ltb→lt, arith, Bool-cases,
}
use native.Mathlib.Nat.{pow-suc, pow-le-pow_right, one-le-pow}
use rumpuser_baremetal.Memalloc.{
  Malloc, Search, found, too_big, out_of_fuel, bucket_loop, bucket_of, page_loop, setup,
}

-- The search ended as it should: in the smallest bucket from `first` on that the size fits in, or
-- without one because the size is above 2 GB.
unfoldable pub IsSearched : (first need : ℕ) → Search → Type 0
IsSearched first need (found b) =
    (first ≤ b) × (b ≤ 26) × (need ≤ 2 ^ (b + 5)) × ((b ≡ first) ⊎ (2 ^ (b + 4) < need))
IsSearched first need too_big = 2 ^ 31 < need
IsSearched first need out_of_fuel = need < need

doubled : (b : ℕ) → b < 26 → 2 ^ (b + 5) * 2 % 2 ^ 32 ≡ 2 ^ (b + 1 + 5)
doubled b h = rw (the_same b) (
    omega (
      arith,
      pow-suc 2 (b + 5),
      pow-le-pow_right {n = 2} (omega arith) {i = b + 5} {j = 30} (omega arith),
    ))
  where
    the_same : (b : ℕ) → b + 1 + 5 ≡ suc (b + 5)
    the_same b = omega arith

positive : (k : ℕ) → ((2 ^ k) == 0) ≡ false
positive k = ground (arith, one-le-pow k 2 (omega arith))

bucket_loop-IsSearched :
    (fuel need bucket first : ℕ)
    → first ≤ bucket
    → bucket ≤ 26
    → 26 < fuel + bucket
    → (bucket ≡ first) ⊎ (2 ^ (bucket + 4) < need)
    → IsSearched first need (bucket_loop fuel need (2 ^ (bucket + 5)) bucket)
unfolding bucket_loop IsSearched
bucket_loop-IsSearched zero need bucket first f b h low = omega arith
bucket_loop-IsSearched (suc fuel) need bucket first f b h low =
    elim (Bool-cases (ltb (2 ^ (bucket + 5)) need)) [
      | inr fits ↦ rw fits (f, b, ground arith, low)
      | inl more ↦ elim (Bool-cases (bucket == 26)) [
        | inl last ↦
            let b26 : bucket ≡ 26 = ground arith in
            let wraps : (2 ^ (bucket + 5) * 2 % 2 ^ 32 == 0) ≡ true = rw b26 refl in
            let full : 2 ^ (bucket + 5) ≡ 2 ^ 31 = rw b26 refl in
            let need' : 2 ^ 31 < need = omega (arith, ltb→lt (2 ^ (bucket + 5)) need more) in
            rw (more, wraps) need'
        | inr below ↦
            let low' : 2 ^ (bucket + 5) < need = ltb→lt (2 ^ (bucket + 5)) need more in
            let same : bucket + 1 + 4 ≡ bucket + 5 = omega arith in
            let e : 2 ^ (bucket + 5) * 2 % 2 ^ 32 ≡ 2 ^ (bucket + 1 + 5) =
              doubled bucket (ground arith) in
            let goes_on : (2 ^ (bucket + 5) * 2 % 2 ^ 32 == 0) ≡ false =
              rw e (positive (bucket + 1 + 5)) in
            rw (more, goes_on, e)
              (bucket_loop-IsSearched fuel need (bucket + 1) first (omega arith) (ground arith)
                (omega arith) (inr (rw same low')))
      ]
    ]

-- After `setup` the page is 4096 bytes, and its bucket the one of that size.
pub setup-page :
    (m : Malloc) → m.pagesz ≡ 0 → setup m ≡ some (record m { pagesz = 0x1000; pagebucket = 7 })
unfolding setup page_loop
setup-page m z = rw z refl

-- Once the page size is set, the search ends for every size, in the smallest bucket that the size fits
-- in, which is below 27, or with NULL for a size above 2 GB.
pub bucket_of-IsSearched :
    (need : ℕ) (m : Malloc)
    → m.pagesz ≡ 0x1000
    → m.pagebucket ≡ 7
    → IsSearched 0 need (bucket_of need m)
unfolding bucket_of
bucket_of-IsSearched need m page bucket = elim (Bool-cases (leb need 0x1000)) [
  | inl small ↦
      rw (page, small)
        (bucket_loop-IsSearched 28 need 0 0 (omega arith) (omega arith) (omega arith) (inl refl))
  | inr large ↦
      rw (page, large, bucket)
        (bucket_loop-IsSearched 28 need 7 0 (omega arith) (omega arith) (omega arith)
          (inr (ground arith)))
]
