-- ===== src/Memalloc/Blocks/Row.antt =====
-- The blocks that `morecore` cuts a page into: their addresses, and the links that it writes.
use rumpuser_baremetal.Base.{
  ℕ, zero, suc, ◌+◌, ◌*◌, ◌%◌, ◌^◌, ◌≤◌, ◌<◌, ◌≡◌, refl, ◌≢◌, true, false, ◌||◌, List, [], ◌∷◌,
  ◌==◌, leb, has, Distinct, arith, ◌∙◌, Bool-cases, sym, inl, inr,
}
use mathlib.Core.Path.{subst}
use native.Mathlib.Nat.{suc-mul}
use rumpuser_baremetal.Memalloc.{update, chain}
use rumpuser_baremetal.Memalloc.Blocks.{Chain, Chain-update}

unfoldable pub row : (n a sz : ℕ) → List ℕ
row zero a sz = []
row (suc n) a sz = a ∷ row n (a + sz) sz

pub row_bounds :
    (n a sz y : ℕ)
    → sz % 8 ≡ 0
    → a % 8 ≡ 0
    → has y (row n a sz) ≡ true
    → (a ≤ y) × (y + sz ≤ a + n * sz) × (y % 8 ≡ 0)
unfolding row
row_bounds zero a sz y s8 a8 h = ground (arith, h)
row_bounds (suc n) a sz y s8 a8 h = elim (Bool-cases (y == a)) [
  | inl same ↦
      let e : y ≡ a = ground arith in (omega arith, omega (arith, suc-mul n sz), omega arith)
  | inr other ↦
      let there : has y (row n (a + sz) sz) ≡ true = ground (arith, h) in
      let (low, high, eight) = row_bounds n (a + sz) sz y s8 (omega arith) there in
      (omega arith, omega (arith, suc-mul n sz), eight)
]

pub row_apart :
    (n a sz x y : ℕ)
    → sz % 8 ≡ 0
    → a % 8 ≡ 0
    → has x (row n a sz) ≡ true
    → has y (row n a sz) ≡ true
    → (x == y || leb (x + sz) y || leb (y + sz) x) ≡ true
unfolding row
row_apart zero a sz x y s8 a8 hx hy = ground (arith, hx)
row_apart (suc n) a sz x y s8 a8 hx hy = ground (
  arith,
  row_bounds n (a + sz) sz x s8 (omega arith),
  row_bounds n (a + sz) sz y s8 (omega arith),
  row_apart n (a + sz) sz x y s8 (omega arith),
)

pub row-Distinct : (n a sz : ℕ) → sz % 8 ≡ 0 → a % 8 ≡ 0 → 1 ≤ sz → Distinct (row n a sz)
unfolding row
row-Distinct zero a sz s8 a8 one = tt
row-Distinct (suc n) a sz s8 a8 one = (
  ground (arith, row_bounds n (a + sz) sz a s8 (omega arith)),
  row-Distinct n (a + sz) sz s8 (omega arith) one,
)

-- The links below the row stay.
pub chain_below :
    (n a sz y : ℕ) (link : ℕ → ℕ) → y < a → a + n * sz < 2 ^ 32 → chain n a sz link y ≡ link y
unfolding chain
chain_below zero a sz y link h fits = ground arith
chain_below (suc n) a sz y link h fits =
    let next : (a + sz) % 2 ^ 32 ≡ a + sz = omega (arith, suc-mul n sz) in
    let here : update a (a + sz) link y ≡ link y = ground arith in
    rw next (
      chain_below n (a + sz) sz y (update a (a + sz) link) (omega arith)
        (omega (arith, suc-mul n sz))
      ∙ here)

-- A list of addresses below the row stays.
pub Chain-chain :
    (n a sz e : ℕ) (link : ℕ → ℕ) (xs : List ℕ)
    → ((y : ℕ) → a ≤ y → has y xs ≡ false)
    → a + n * sz < 2 ^ 32
    → Chain link e xs
    → Chain (chain n a sz link) e xs
unfolding chain
Chain-chain zero a sz e link xs h fits c = Chain-update link a 0 e xs (h a (omega arith)) c
Chain-chain (suc n) a sz e link xs h fits c =
    let next : (a + sz) % 2 ^ 32 ≡ a + sz = omega (arith, suc-mul n sz) in
    rw next (
      Chain-chain n (a + sz) sz e (update a (a + sz) link) xs (λ y low. h y (omega (arith, low)))
        (omega (arith, suc-mul n sz)) (Chain-update link a (a + sz) e xs (h a (omega arith)) c))

Chain-cons :
    (link : ℕ → ℕ) (a b : ℕ) (xs : List ℕ)
    → a ≢ 0
    → link a ≡ b
    → Chain link b xs
    → Chain link a (a ∷ xs)
Chain-cons link a b xs there e c = (refl, there, rw e c)

-- The row is the list that the links make.
pub Chain-row :
    (n a sz : ℕ) (link : ℕ → ℕ)
    → a ≢ 0
    → 1 ≤ sz
    → a + n * sz < 2 ^ 32
    → Chain (chain n a sz link) a (row (suc n) a sz)
unfolding chain row
Chain-row zero a sz link there one fits = (refl, there, ground arith)
Chain-row (suc n) a sz link there one fits =
    let next : (a + sz) % 2 ^ 32 ≡ a + sz = omega (arith, suc-mul n sz) in
    let fits' : a + sz + n * sz < 2 ^ 32 = omega (arith, suc-mul n sz) in
    let link' = update a (a + sz) link in
    let head : chain n (a + sz) sz link' a ≡ a + sz =
      chain_below n (a + sz) sz a link' (omega arith) fits' ∙ ground arith in
    let rest = Chain-row n (a + sz) sz link' (omega arith) one fits' in
    let unfolded : chain (suc n) a sz link ≡ chain n (a + sz) sz link' = rw next refl in
    subst (λ (l : ℕ → ℕ). Chain l a (a ∷ row (suc n) (a + sz) sz)) (sym unfolded)
      (Chain-cons (chain n (a + sz) sz link') a (a + sz) (row (suc n) (a + sz) sz) there head rest)
